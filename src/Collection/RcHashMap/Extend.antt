-- ===== src/Collection/RcHashMap/Extend.antt =====
-- The inner map that extend_hash_map adds.
use cextras.Base.{
  ℕ, zero, suc, ◌+◌, ◌*◌, ◌<◌, ◌≡◌, refl, true, Option, none, some, [], ◌∷◌, arith, length,
  replicate, get_elem?, word, length-append, length-replicate, get_elem?-append_cases, inl, inr,
}
use cextras.Collection.RcMap.Inv.{slot}
use cextras.Collection.RcHashMap.{Inner, RcHashMap, Memory, with_inner, extend_hash_map}
use cextras.Collection.RcHashMap.Inv.{IsInner, IsValid, HasRoom, append-IsInner}

module _ {A : Type 0} where
  -- The inner map that extend_hash_map adds.
  abbrev pub fresh_inner : Memory A → RcHashMap A → Inner A
  fresh_inner h m = record {
    keys = replicate m.map_size 0;
    values = record {
      data_at = h.elements.0;
      elements = h.elements.1;
      size = m.map_size;
      element_size = m.element_size;
      ref_count = replicate m.map_size 0;
      cleaned = [];
    };
    written = true;
  }

  -- `calloc` gives an array of the size that was asked for, in the address space.
  pub record Gives (h : Memory A) (m : RcHashMap A) : Type 0 where
    pub places : length h.elements.1 ≡ m.map_size
    pub element_pos : 0 < m.element_size
    pub in_memory : h.elements.0 + m.map_size * m.element_size < word

  pub extend_hash_map-ok :
      (h : Memory A) (m m' : RcHashMap A)
      → extend_hash_map h m ≡ some (true, m')
      → m' ≡ with_inner m (fresh_inner h m)
  unfolding extend_hash_map
  extend_hash_map-ok h m m' e = ground (arith, e)

  pub slot-replicate : (n i : ℕ) (x : Option A) → slot (get_elem? (replicate n 0) i) x ≡ none
  slot-replicate zero i x = refl
  slot-replicate (suc n) zero none = refl
  slot-replicate (suc n) zero (some x) = refl
  slot-replicate (suc n) (suc i) x = slot-replicate n i x

  pub fresh_inner-IsInner :
      (h : Memory A) (m : RcHashMap A) → Gives h m → IsInner m.map_size (fresh_inner h m)
  fresh_inner-IsInner h m g = record {
    keys = length-replicate m.map_size 0;
    values = record {
      counters = length-replicate m.map_size 0;
      places = g.places;
      element_pos = g.element_pos;
      in_memory = g.in_memory;
    };
    size = refl;
  }

  pub extended-IsValid :
      (h : Memory A) {m : RcHashMap A}
      → IsValid m
      → Gives h m
      → IsValid (with_inner m (fresh_inner h m))
  extended-IsValid h {m} v g = record {
    size_pos = v.size_pos;
    some_maps = omega (arith, length-append m.hash_maps (fresh_inner h m ∷ []));
    inners =
        append-IsInner m.map_size m.hash_maps (fresh_inner h m) v.inners
          (fresh_inner-IsInner h m g);
  }

  pub extended-HasRoom :
      (h : Memory A) (m : RcHashMap A) → HasRoom m → HasRoom (with_inner m (fresh_inner h m))
  extended-HasRoom h m room k i n inner x e e' =
      elim (get_elem?-append_cases m.hash_maps (fresh_inner h m) k inner e) [
        | inl last ↦
            let nothing = slot-replicate m.map_size i (get_elem? h.elements.1 i) in
            absurd (cc (rw last at e', nothing))
        | inr other ↦ room k i n inner x other e'
      ]
