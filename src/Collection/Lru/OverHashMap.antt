-- ===== src/Collection/Lru/OverHashMap.antt =====
-- The LRU over a reference-counted hash map: `cx_lru_rc_hash_map` of lib/collection/rc_hash_map.c.
use cextras.Base.{
  ℕ, ◌+◌, ◌-◌, ◌^◌, ◌<◌, ◌≡◌, refl, sym, ◌∙◌, ap, ◌≢◌, false, Option, none, some, List, ◌==◌, arith,
  if◌then◌else◌, min, get_elem?, get_elem?→lt, eq→==, ne→not-==, get_elem?-set_self,
  get_elem?-set_ne, Bool-cases, inl, inr, ==→eq, not-==→ne,
}
use cextras.Collection.RcMap.{RcMap, ◌>>=◌, max_int}
use cextras.Collection.RcMap.Inv.{view}
use cextras.Collection.RcMap.Ops.{Stepped, retain-full, release_index-Stepped}
use cextras.Collection.RcHashMap
use cextras.Collection.RcHashMap.{
  Inner, RcHashMap, has_key, key_to_index, probe, max_collisions, with_values,
}
use cextras.Collection.RcHashMap.Inv.{IsValid, set-IsValid, key_to_index-lt}
use cextras.Collection.RcHashMap.Keys.{probe-values, probe-key, retain-place, release_key-place}
use cextras.Collection.Lru.{Backend}
use cextras.Collection.Lru.Refs.{Counting}
use cextras.Collection.Lru.Session.{AreHeld, LeavesNoTrace, session-LeavesNoTrace}
use cextras.Collection.Lru.OverMap.{count_of, counted, count_of-less, count_of-if}
use cextras.Collection.Lru.OverMap as OverMap

module _ {A : Type 0} where
  abbrev pub lru_rc_hash_map_retain : RcHashMap A → ℕ → Option (RcHashMap A)
  lru_rc_hash_map_retain m index = RcHashMap.retain m index >>= λ (p, m'). some m'

  abbrev pub lru_rc_hash_map_release : RcHashMap A → ℕ → Option (RcHashMap A)
  lru_rc_hash_map_release m index = RcHashMap.release_key m index

  -- There is no `retain_value`: the call of a null pointer.
  abbrev pub cx_lru_rc_hash_map : Backend ℕ (RcHashMap A)
  cx_lru_rc_hash_map = record {
    retain = lru_rc_hash_map_retain;
    retain_value = λ m value. none;
    release = lru_rc_hash_map_release;
  }

  -- Where cx_rc_hash_map_retain looks for a key.
  abbrev pub place_of : RcHashMap A → ℕ → Option (Option (ℕ × ℕ))
  place_of m k = key_to_index k m.map_size >>= λ i.
      probe (has_key k) (min m.map_size max_collisions) i m.map_size m.hash_maps

  abbrev pub slot_in : Option (Inner A) → ℕ → Option (ℕ × A)
  slot_in none i = none
  slot_in (some inner) i = view inner.values i

  abbrev pub slot_at : RcHashMap A → Option (Option (ℕ × ℕ)) → Option (ℕ × A)
  slot_at m none = none
  slot_at m (some none) = none
  slot_at m (some (some (j, i))) = slot_in (get_elem? m.hash_maps j) i

  -- The references of a key.
  abbrev pub refs : RcHashMap A → ℕ → ℕ
  refs m k = count_of (slot_at m (place_of m k))

  -- The place of a key with references.
  pub record Found (m : RcHashMap A) (k : ℕ) : Type 0 where
    pub start : ℕ
    pub hashed : key_to_index k m.map_size ≡ some start
    pub j : ℕ
    pub i : ℕ
    pub probed :
        probe (has_key k) (min m.map_size max_collisions) start m.map_size m.hash_maps
        ≡ some (some (j, i))
    pub inner : Inner A
    pub at : get_elem? m.hash_maps j ≡ some inner
    pub key : get_elem? inner.keys i ≡ some k
    pub count : ℕ
    pub element : A
    pub slot : view inner.values i ≡ some (count, element)
    pub refs_of : refs m k ≡ count

  slot-Found : (m : RcHashMap A) (k : ℕ) → IsValid m → 0 < refs m k → Found m k
  slot-Found m k v pos =
      let (start, hashed, below) = key_to_index-lt k m.map_size v.size_pos in
      by_place start hashed
        (probe (has_key k) (min m.map_size max_collisions) start m.map_size m.hash_maps) refl
        (rw hashed at pos)
    where
      by_place :
          (start : ℕ)
          → key_to_index k m.map_size ≡ some start
          → (o : Option (Option (ℕ × ℕ)))
          → probe (has_key k) (min m.map_size max_collisions) start m.map_size m.hash_maps ≡ o
          → 0 < count_of (slot_at m o)
          → Found m k
      by_place start hashed none e pos' = absurd (omega arith)
      by_place start hashed (some none) e pos' = absurd (omega arith)
      by_place start hashed (some (some (j, i))) e pos' =
          let (inner, at, key) =
            probe-key k m.hash_maps (min m.map_size max_collisions) start m.map_size j i e in
          let (n, x, slot) = counted (view inner.values i) (rw at at pos') in
          record {
            start = start;
            hashed = hashed;
            j = j;
            i = i;
            probed = e;
            inner = inner;
            at = at;
            key = key;
            count = n;
            element = x;
            slot = slot;
            refs_of = rw (hashed, e, at, slot) refl;
          }

  -- A key that is found in a place stands there.
  place-key :
      (m : RcHashMap A) (l j i : ℕ)
      → place_of m l ≡ some (some (j, i))
      → (inner : Inner A) × (get_elem? m.hash_maps j ≡ some inner)
        × (get_elem? inner.keys i ≡ some l)
  place-key m l j i e = by_index (key_to_index l m.map_size) e
    where
      by_index :
          (o : Option ℕ)
          → (o >>= λ h. probe (has_key l) (min m.map_size max_collisions) h m.map_size m.hash_maps)
            ≡ some (some (j, i))
          → (inner : Inner A) × (get_elem? m.hash_maps j ≡ some inner)
            × (get_elem? inner.keys i ≡ some l)
      by_index none e' = cc
      by_index (some h) e' =
          probe-key l m.hash_maps (min m.map_size max_collisions) h m.map_size j i e'

  module _ {m : RcHashMap A} {k : ℕ} (v : IsValid m) (f : Found m k) {s : Option (ℕ × A)}
      {gone : List A} {values : RcMap A} (st : Stepped f.inner.values f.i s gone values) where
    abbrev stepped_map : RcHashMap A
    stepped_map = with_values m f.j f.inner values

    abbrev new_inner : Inner A
    new_inner = record f.inner { values = values }

    stepped_map-IsValid : IsValid stepped_map
    stepped_map-IsValid =
        let w = v.inners f.j f.inner f.at in
        set-IsValid f.j new_inner v
          (record { keys = w.keys; values = st.valid; size = st.size ∙ w.size })

    place_of-stepped : (l : ℕ) → place_of stepped_map l ≡ place_of m l
    place_of-stepped l = by_index (key_to_index l m.map_size)
      where
        by_index :
            (o : Option ℕ)
            → (o >>= λ i.
                probe
                  (has_key l)
                  (min m.map_size max_collisions)
                  i
                  m.map_size
                  stepped_map.hash_maps)
              ≡ (o >>= λ i.
                  probe (has_key l) (min m.map_size max_collisions) i m.map_size m.hash_maps)
        by_index none = refl
        by_index (some i) =
            probe-values l m.hash_maps (min m.map_size max_collisions) i m.map_size f.j f.inner
              new_inner f.at refl

    here : slot_at stepped_map (some (some (f.j, f.i))) ≡ s
    here =
        let self =
          get_elem?-set_self m.hash_maps f.j new_inner
            (get_elem?→lt m.hash_maps f.j f.inner f.at) in
        rw self (st.same f.i ∙ rw (eq→== f.i f.i refl) refl)

    away :
        (l : ℕ)
        → l ≢ k
        → (o : Option (Option (ℕ × ℕ))) → place_of m l ≡ o
        → slot_at stepped_map o ≡ slot_at m o
    away l ne none e = refl
    away l ne (some none) e = refl
    away l ne (some (some (j, i))) e = elim (Bool-cases (j == f.j)) [
      | inl same ↦
          let e' : j ≡ f.j = ==→eq j f.j same in
          let self =
            get_elem?-set_self m.hash_maps f.j new_inner
              (get_elem?→lt m.hash_maps f.j f.inner f.at) in
          rw (e', self, f.at) (st.same i ∙ rw (apart i (λ q. clash q e')) refl)
      | inr other ↦
          rw (get_elem?-set_ne m.hash_maps f.j j new_inner (λ q. not-==→ne j f.j other (sym q)))
            refl
    ]
      where
        apart : (i' : ℕ) → (i' ≡ f.i → ⊥) → (i' == f.i) ≡ false
        apart i' no_clash = ne→not-== i' f.i no_clash

        clash : i ≡ f.i → j ≡ f.j → ⊥
        clash q q' =
            let (inner, at, key) = place-key m l j i e in
            let one : inner ≡ f.inner = cc (rw q' at at, f.at) in
            ne (cc (rw (one, q) at key, f.key))

    pub refs-stepped :
        (n : ℕ) → count_of s ≡ n → (l : ℕ) → refs stepped_map l ≡ (if l == k then n else refs m l)
    refs-stepped n e l = elim (Bool-cases (l == k)) [
      | inl same ↦
          let e' : l ≡ k = ==→eq l k same in
          let place : place_of m k ≡ some (some (f.j, f.i)) = rw f.hashed f.probed in
          rw (same, place_of-stepped l, e', place) (ap count_of here ∙ e)
      | inr other ↦
          rw (other, place_of-stepped l)
            (ap count_of (away l (not-==→ne l k other) (place_of m l) refl))
    ]

  pub rc_hash_map-Counting : Counting cx_lru_rc_hash_map IsValid refs (2 ^ 31)
  rc_hash_map-Counting = record {
    retain_adds = λ m k v pos below.
        let f = slot-Found m k v pos in
        let w = v.inners f.j f.inner f.at in
        let room : f.count < max_int = omega (arith, f.refs_of) in
        let (values, r, st) =
          retain-full f.i f.count f.element w.values
            (OverMap.inside f.inner.values f.i f.count f.element w.values f.slot) f.slot room in
        (
          with_values m f.j f.inner values,
          rw (retain-place k v f.hashed f.probed f.at r) refl,
          stepped_map-IsValid v f st,
          refs-stepped v f st (refs m k + 1) (omega (arith, f.refs_of)),
        );
    release_takes = λ m k v pos.
        let f = slot-Found m k v pos in
        let w = v.inners f.j f.inner f.at in
        let (values, r, st) =
          release_index-Stepped f.i f.count f.element w.values
            (OverMap.inside f.inner.values f.i f.count f.element w.values f.slot) f.slot in
        (
          with_values m f.j f.inner values,
          release_key-place k v f.hashed f.probed f.at r,
          stepped_map-IsValid v f st,
          refs-stepped v f st (refs m k - 1)
              (omega (arith, f.refs_of, count_of-less f.count f.element)),
        );
  }

  -- Over a valid hash map, an LRU that is initialised with any size, touched with keys that have
  -- references, whose counters have room for its own below the largest `int`, and cleaned up, goes
  -- through without a failed assertion; the map is valid and every key but the LRU's marker has the
  -- references that it had before.
  pub session-rc_hash_map :
      (size : ℕ) (keys : List ℕ) (m : RcHashMap A)
      → IsValid m
      → AreHeld (refs m) size (2 ^ 31) keys
      → LeavesNoTrace rc_hash_map-Counting size keys m
  session-rc_hash_map size keys m v h = session-LeavesNoTrace rc_hash_map-Counting size keys m v h
