-- ===== src/Collection/RcHashMap/Tests.antt =====
-- A map of two places.
use cextras.Base.{ℕ, zero, suc, ◌≡◌, refl, true, some, [], ◌∷◌, arith, get_elem?}
use cextras.Collection.Lru.Session.{LeavesNoTrace}
use cextras.Collection.Lru.OverHashMap.{refs, rc_hash_map-Counting, session-rc_hash_map}
use cextras.Collection.RcHashMap.{
  key_to_index, probe, probe_layers, Inner, RcHashMap, Memory, put, with_inner,
}
use cextras.Collection.RcHashMap.Inv.{IsInner, IsValid, HasRoom}
use cextras.Collection.RcHashMap.Extend.{fresh_inner, Gives, fresh_inner-IsInner, extended-HasRoom}
use cextras.Collection.RcHashMap.Put.{Kept, put-Kept}
use cextras.Collection.RcHashMap.Release.{no_maps}

abbrev memory : Memory ℕ
memory = record {
  realloc_ok = true;
  keys_ok = true;
  elements = (4096, 0 ∷ 0 ∷ []);
  elements_ok = true;
  counters_ok = true;
  inner_size = 56;
}

abbrev two : RcHashMap ℕ
two = with_inner (no_maps 2 8) (fresh_inner memory (no_maps 2 8))

memory-Gives : Gives memory (no_maps 2 8)
memory-Gives = record { places = refl; element_pos = omega arith; in_memory = omega arith }

two-IsValid : IsValid two
two-IsValid = record { size_pos = omega arith; some_maps = omega arith; inners = inners }
  where
    inners : (k : ℕ) (inner : Inner ℕ) → get_elem? two.hash_maps k ≡ some inner → IsInner 2 inner
    inners zero inner e =
        let same : fresh_inner memory (no_maps 2 8) ≡ inner = cc in
        rw (← same) (fresh_inner-IsInner memory (no_maps 2 8) memory-Gives)
    inners (suc k) inner e = cc

two-HasRoom : HasRoom two
two-HasRoom = extended-HasRoom memory (no_maps 2 8) (λ k i n inner x e e'. cc)

put-Kept_example : Kept memory two 7 42 (put memory two 7 42)
put-Kept_example =
    put-Kept memory 7 42 two-IsValid two-HasRoom
      (record { places = refl; element_pos = omega arith; in_memory = omega arith })

-- The map where 42 was put with key 7.
abbrev seven_inner : Inner ℕ
seven_inner = record {
  keys = 7 ∷ 0 ∷ [];
  values = record {
    data_at = 4096;
    elements = 42 ∷ 0 ∷ [];
    size = 2;
    element_size = 8;
    ref_count = 1 ∷ 0 ∷ [];
    cleaned = [];
  };
  written = true;
}

abbrev seven : RcHashMap ℕ
seven = record { hash_maps = seven_inner ∷ []; map_size = 2; element_size = 8 }

seven-IsValid : IsValid seven
seven-IsValid = record { size_pos = omega arith; some_maps = omega arith; inners = inners }
  where
    inners : (k : ℕ) (inner : Inner ℕ) → get_elem? seven.hash_maps k ≡ some inner → IsInner 2 inner
    inners zero inner e =
        let same : seven_inner ≡ inner = cc in
        rw (← same) (record {
          keys = refl;
          values = record {
            counters = refl;
            places = refl;
            element_pos = omega arith;
            in_memory = omega arith;
          };
          size = refl;
        })
    inners (suc k) inner e = cc

one-reference : refs seven 7 ≡ 1
unfolding key_to_index probe probe_layers
one-reference = refl

session-rc_hash_map_example : LeavesNoTrace rc_hash_map-Counting 1 (7 ∷ 7 ∷ []) seven
session-rc_hash_map_example = session-rc_hash_map 1 (7 ∷ 7 ∷ []) seven seven-IsValid (
  (λ e. absurd (ground (arith, e))),
  omega (arith, one-reference),
  omega (arith, one-reference),
  (
    (λ e. absurd (ground (arith, e))),
    omega (arith, one-reference),
    omega (arith, one-reference),
    tt,
  ),
)
