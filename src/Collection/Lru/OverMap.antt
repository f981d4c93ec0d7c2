-- ===== src/Collection/Lru/OverMap.antt =====
-- The LRU over a reference-counted array: `cx_lru_rc_map` of lib/collection/rc_map.c.
use cextras.Base.{
  ℕ, ◌+◌, ◌-◌, ◌^◌, ◌<◌, ◌≡◌, refl, ◌∙◌, ap, Bool, true, false, Option, none, some, List, ◌==◌,
  arith, if◌then◌else◌, get_elem?→lt, Bool-cases, inl, inr,
}
use cextras.Collection.RcMap
use cextras.Collection.RcMap.{RcMap}
use cextras.Collection.RcMap.Inv.{view, IsValid}
use cextras.Collection.RcMap.Count.{view-parts}
use cextras.Collection.RcMap.Ops.{Stepped, less, retain-full, release_index-Stepped}
use cextras.Collection.Lru.{Backend, ◌>>=◌}
use cextras.Collection.Lru.Refs.{Counting}
use cextras.Collection.Lru.Session.{AreHeld, LeavesNoTrace, session-LeavesNoTrace}

module _ {A : Type 0} where
  abbrev pub lru_rc_map_retain : RcMap A → ℕ → Option (RcMap A)
  lru_rc_map_retain m index = RcMap.retain m index >>= λ (p, m'). some m'

  -- The index that it computes of a null pointer is no pointer difference.
  abbrev pub lru_rc_map_retain_value : RcMap A → Option ℕ → Option (RcMap A)
  lru_rc_map_retain_value m none = none
  lru_rc_map_retain_value m (some value) = RcMap.index_of m value >>= lru_rc_map_retain m

  abbrev pub lru_rc_map_release : RcMap A → ℕ → Option (RcMap A)
  lru_rc_map_release m index = RcMap.release_index m index

  abbrev pub cx_lru_rc_map : Backend ℕ (RcMap A)
  cx_lru_rc_map = record {
    retain = lru_rc_map_retain;
    retain_value = lru_rc_map_retain_value;
    release = lru_rc_map_release;
  }

  abbrev pub count_of : Option (ℕ × A) → ℕ
  count_of none = 0
  count_of (some (n, x)) = n

  -- The references of an index.
  abbrev pub refs : RcMap A → ℕ → ℕ
  refs m k = count_of (view m k)

  pub counted : (s : Option (ℕ × A)) → 0 < count_of s → (n : ℕ) × (x : A) × (s ≡ some (n, x))
  counted none h = absurd (omega arith)
  counted (some (n, x)) h = (n, x, refl)

  pub count_of-less : (n : ℕ) (x : A) → count_of (less n x) ≡ n - 1
  count_of-less n x = elim (Bool-cases (n == 1)) [
    | inl one ↦ rw one (ground arith)
    | inr more ↦ rw more refl
  ]

  pub count_of-if :
      (b : Bool) (s t : Option (ℕ × A)) (v : ℕ)
      → count_of s ≡ v
      → count_of (if b then s else t) ≡ (if b then v else count_of t)
  count_of-if true s t v e = e
  count_of-if false s t v e = refl

  -- How a step at one index changes the references.
  pub refs-Stepped :
      {m m' : RcMap A} (k : ℕ) {s : Option (ℕ × A)} {gone : List A} (v : ℕ)
      → Stepped m k s gone m'
      → count_of s ≡ v
      → (j : ℕ) → refs m' j ≡ (if j == k then v else refs m j)
  refs-Stepped {m = m} k {s = s} v st e j =
      ap count_of (st.same j) ∙ count_of-if (j == k) s (view m j) v e

  -- An index with references lies within the array.
  pub inside : (m : RcMap A) (k n : ℕ) (x : A) → IsValid m → view m k ≡ some (n, x) → k < m.size
  inside m k n x v e = rw (← v.counters) (get_elem?→lt m.ref_count k n (view-parts m k n x e).0)

  pub rc_map-Counting : Counting cx_lru_rc_map IsValid refs (2 ^ 31)
  rc_map-Counting = record {
    retain_adds = λ m k v pos below.
        let (n, x, e) = counted (view m k) pos in
        let held = ap count_of e in
        let (m', r, st) = retain-full k n x v (inside m k n x v e) e (omega (arith, held)) in
        (m', rw r refl, st.valid, refs-Stepped k (refs m k + 1) st (omega (arith, held)));
    release_takes = λ m k v pos.
        let (n, x, e) = counted (view m k) pos in
        let held = ap count_of e in
        let (m', r, st) = release_index-Stepped k n x v (inside m k n x v e) e in
        (
          m',
          r,
          st.valid,
          refs-Stepped k (refs m k - 1) st (omega (arith, held, count_of-less n x)),
        );
  }

  -- Over a valid array, an LRU that is initialised with any size, touched with indices that have
  -- references, whose counters have room for its own below the largest `int`, and cleaned up, goes
  -- through without a failed assertion; the array is valid and every index has the references that
  -- it had before.
  pub session-rc_map :
      (size : ℕ) (keys : List ℕ) (m : RcMap A)
      → IsValid m
      → AreHeld (refs m) size (2 ^ 31) keys
      → LeavesNoTrace rc_map-Counting size keys m
  session-rc_map size keys m v h = session-LeavesNoTrace rc_map-Counting size keys m v h
