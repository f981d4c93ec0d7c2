-- ===== src/Collection/Lru/OverTree.antt =====
-- The LRU over a reference-counted radix tree: `cx_lru_rc_radix_tree` of
-- lib/collection/rc_radix_tree.c.
use cextras.Base.{
  ℕ, ◌+◌, ◌-◌, ◌<◌, ◌≡◌, refl, ◌∙◌, ap, Bool, true, false, Option, none, some, List, ◌==◌, arith,
  if◌then◌else◌, word, Bool-cases, inl, inr,
}
use cextras.Memory.Pool.{Ptr}
use cextras.Collection.RcRadixTree
use cextras.Collection.RcRadixTree.{Object, RcRadixTree, set_rc}
use cextras.Collection.RcRadixTree.Inv.{object_at, view, IsCounted}
use cextras.Collection.RcRadixTree.Put.{retain-present}
use cextras.Collection.RcRadixTree.Count.{get-cases, view-set_rc, set_rc-IsCounted}
use cextras.Collection.RcRadixTree.Release.{less, release-Release}
use cextras.Collection.Lru.{Backend, ◌>>=◌}
use cextras.Collection.Lru.Refs.{Counting}
use cextras.Collection.Lru.Session.{AreHeld, LeavesNoTrace, session-LeavesNoTrace}

module _ {A : Type 0} where
  abbrev pub lru_rc_radix_tree_retain : RcRadixTree A → ℕ → Option (RcRadixTree A)
  lru_rc_radix_tree_retain t index = RcRadixTree.retain t index >>= λ (p, t'). some t'

  -- The counter before a null pointer is no object.
  abbrev pub lru_rc_radix_tree_retain_value : RcRadixTree A → Option Ptr → Option (RcRadixTree A)
  lru_rc_radix_tree_retain_value t none = none
  lru_rc_radix_tree_retain_value t (some value) = some (RcRadixTree.retain_value t value)

  abbrev pub lru_rc_radix_tree_release : RcRadixTree A → ℕ → Option (RcRadixTree A)
  lru_rc_radix_tree_release t index = RcRadixTree.release t index >>= λ (ok, t'). some t'

  abbrev pub cx_lru_rc_radix_tree : Backend Ptr (RcRadixTree A)
  cx_lru_rc_radix_tree = record {
    retain = lru_rc_radix_tree_retain;
    retain_value = lru_rc_radix_tree_retain_value;
    release = lru_rc_radix_tree_release;
  }

  abbrev pub rc_of : Option (Object A) → ℕ
  rc_of none = 0
  rc_of (some o) = o.rc

  -- The references of a key.
  abbrev pub refs : RcRadixTree A → ℕ → ℕ
  refs t k = rc_of (view t k)

  abbrev pub IsGood : RcRadixTree A → Type 0
  IsGood t = (d : ℕ) × (held : Ptr → Bool) × (recycled : List Ptr) × IsCounted t d held recycled

  rc_of-less : (o : Option (Object A)) → rc_of (less o) ≡ rc_of o - 1
  rc_of-less none = refl
  rc_of-less (some o) = elim (Bool-cases (o.rc == 1)) [
    | inl one ↦ rw one (ground arith)
    | inr more ↦ rw more refl
  ]

  rc_of-if :
      (b : Bool) (s t : Option (Object A)) (n : ℕ)
      → rc_of s ≡ n
      → rc_of (if b then s else t) ≡ (if b then n else rc_of t)
  rc_of-if true s t n e = e
  rc_of-if false s t n e = refl

  retain-adds :
      (t : RcRadixTree A) (k : ℕ)
      → IsGood t
      → 0 < refs t k
      → refs t k + 1 < word
      → (t' : RcRadixTree A) × (lru_rc_radix_tree_retain t k ≡ some t')
        × IsGood t'
        × ((j : ℕ) → refs t' j ≡ (if j == k then refs t k + 1 else refs t j))
  retain-adds t k (d, held, recycled, v) pos below = elim (get-cases k v.tree) [
    | inl absent ↦ absurd (omega (arith, rw absent at pos))
    | inr (p, has) ↦
        let held_rc : refs t k ≡ (t.objects p).rc = ap (λ o. rc_of (object_at t.objects o)) has in
        let n = (t.objects p).rc + 1 in
        (
          set_rc t p n,
          rw
              (retain-present t k p has (omega (arith, pos, held_rc))
                (omega (arith, below, held_rc)))
              refl,
          (d, held, recycled, set_rc-IsCounted v k p has n (omega arith)),
          λ j.
              ap rc_of (view-set_rc v k p has n j)
              ∙ rc_of-if (j == k) (some (record (t.objects p) { rc = n })) (view t j) (refs t k + 1)
                  (omega (arith, held_rc)),
        )
  ]

  pub rc_radix_tree-Counting : Counting cx_lru_rc_radix_tree IsGood refs word
  rc_radix_tree-Counting = record {
    retain_adds = retain-adds;
    release_takes = λ t k (d, held, recycled, v) pos.
        let r = release-Release k v in
        (
          r.tree,
          rw (r.returned) refl,
          (r.depth, r.held, r.recycled, r.valid),
          λ j.
              ap rc_of (r.released.same j)
              ∙ rc_of-if (j == k) (less (view t k)) (view t j) (refs t k - 1)
                  (rc_of-less (view t k)),
        );
  }

  -- Over a valid tree, an LRU that is initialised with any size, touched with keys that have
  -- references, whose counters have room for its own below 2^64, and cleaned up, goes through; the
  -- tree is valid and every key but the LRU's marker has the references that it had before.
  pub session-rc_radix_tree :
      (size : ℕ) (keys : List ℕ) (t : RcRadixTree A)
      → IsGood t
      → AreHeld (refs t) size word keys
      → LeavesNoTrace rc_radix_tree-Counting size keys t
  session-rc_radix_tree size keys t g h =
      session-LeavesNoTrace rc_radix_tree-Counting size keys t g h
