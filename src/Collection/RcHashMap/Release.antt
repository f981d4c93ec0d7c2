-- ===== src/Collection/RcHashMap/Release.antt =====
-- cx_rc_hash_map_release_key of a key that was never put.
use cextras.Base.{ℕ, []}
use cextras.Collection.RcHashMap.{RcHashMap}

module _ {A : Type 0} where
  -- The map before cx_rc_hash_map_init adds the first inner map.
  abbrev pub no_maps : ℕ → ℕ → RcHashMap A
  no_maps size element_size = record {
    hash_maps = [];
    map_size = size;
    element_size = element_size;
  }
