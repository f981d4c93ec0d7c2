-- ===== src/Collection/RcHashMap.antt =====
-- lib/collection/rc_hash_map.c: layers of reference-counted arrays, probed by a hash of the key.
--
-- The result `none` stands for undefined behaviour, as in Collection/RcMap: a read out of bounds or
-- through NULL, a division by 0, or a failed assertion. The bytes of a key are those of a
-- little-endian machine.
pub mod Probe
pub mod Rounds
pub mod Spots
pub mod Place
pub mod Inv
pub mod Slot
pub mod Extend
pub mod Put
pub mod Release
pub mod Keys
mod Tests
use cextras.Base.{
  le_bytes, ℕ, zero, suc, ◌+◌, ◌*◌, ◌/◌, ◌%◌, ◌^◌, Bool, true, false, Option, none, some, List, [],
  ◌∷◌, ◌++◌, ◌==◌, if◌then◌else◌, get_elem?, set, length, replicate, word, mul_overflow, ltb, min,
  ◌-◌,
}
use cextras.Collection.RcMap
use cextras.Collection.RcMap.{RcMap, ◌>>=◌}

-- `struct CxRcHashMapInner`, without `count`, which nothing uses; `written` says whether `values` was
-- written to.
pub record Inner (A : Type 0) : Type 0 where
  pub keys : List ℕ
  pub values : RcMap A
  pub written : Bool

-- `struct CxRcHashMap`
pub record RcHashMap (A : Type 0) : Type 0 where
  pub hash_maps : List (Inner A)
  pub map_size : ℕ
  pub element_size : ℕ

-- The loop of djb2_hash.
abbrev pub djb2_from : List ℕ → (hash : ℕ) → ℕ
djb2_from [] hash = hash
djb2_from (b ∷ bs) hash = djb2_from bs ((hash * 2 ^ 5 + hash + b) % word)

-- djb2_hash
abbrev pub djb2_hash : List ℕ → ℕ
djb2_hash bs = djb2_from bs 5381

abbrev pub max_collisions : ℕ
max_collisions = 5

-- key_to_index
pub key_to_index : (key size : ℕ) → Option ℕ
key_to_index key size =
    if size == 0 then none else some (djb2_hash (le_bytes 8 key) * 2 ^ 2 % word % size)

-- The answers of `realloc` and of the calls of `calloc` in extend_hash_map, and the size of an inner
-- map.
pub record Memory (A : Type 0) : Type 0 where
  pub realloc_ok : Bool
  pub keys_ok : Bool
  pub elements : ℕ × List A
  pub elements_ok : Bool
  pub counters_ok : Bool
  pub inner_size : ℕ

abbrev pub or_else : Bool → Option Bool → Option Bool
or_else true b = some true
or_else false b = b

abbrev pub try_next : ℕ → Option (Option ℕ) → Bool → Option (Option ℕ)
try_next j rest true = some (some j)
try_next j rest false = rest

abbrev pub try_index : ℕ → Option (Option (ℕ × ℕ)) → Option ℕ → Option (Option (ℕ × ℕ))
try_index index rest none = rest
try_index index rest (some j) = some (some (j, index))

module _ {A : Type 0} where
  -- The size of the first inner map.
  abbrev pub first_size : RcHashMap A → Option ℕ
  first_size m = get_elem? m.hash_maps 0 >>= λ inner. some inner.values.size

  -- `keys[index] == key`
  abbrev pub has_key : ℕ → Inner A → ℕ → Option Bool
  has_key key inner index = get_elem? inner.keys index >>= λ k. some (k == key)

  -- `cx_rc_map_is_empty(values, index) || keys[index] == key`
  abbrev pub takes_key : ℕ → Inner A → ℕ → Option Bool
  takes_key key inner index =
      RcMap.is_empty inner.values index >>= λ empty. or_else empty (has_key key inner index)

  -- The probing that put, retain and release_key share: the first place that passes the test, as the
  -- number of the inner map and the index.
  module _ (test : Inner A → ℕ → Option Bool) where
    -- The loop over the inner maps.
    pub probe_layers : List (Inner A) → (j index : ℕ) → Option (Option ℕ)
    probe_layers [] j index = some none
    probe_layers (inner ∷ rest) j index =
        test inner index >>= try_next j (probe_layers rest (j + 1) index)

    -- The loop over the indices, with the rounds that are left.
    pub probe : (rounds index size : ℕ) → List (Inner A) → Option (Option (ℕ × ℕ))
    unfolding probe_layers
    probe zero index size inners = some none
    probe (suc n) index size inners =
        probe_layers inners 0 (index % size)
        >>= try_index (index % size) (probe n (index % size + 1) size inners)

  -- `keys[index] = key` and cx_rc_map_set.
  abbrev pub store : RcHashMap A → (key : ℕ) → A → (j index : ℕ) → Option (Option ℕ × RcHashMap A)
  store m key value j index = get_elem? m.hash_maps j >>= λ inner.
      get_elem? inner.keys index >>= λ old.
      RcMap.insert inner.values index value >>= λ (target, values). some (
        target,
        record m {
          hash_maps =
              set m.hash_maps j (record inner { keys = set inner.keys index key; values = values });
        },
      )

  -- A map of null pointers, as cx_rc_map_cleanup leaves it.
  abbrev pub null_map : RcMap A
  null_map = record {
    data_at = 0;
    elements = [];
    size = 0;
    element_size = 0;
    ref_count = [];
    cleaned = [];
  }

  -- An inner map of which nothing but `keys` was written, as NULL.
  abbrev pub unwritten : Inner A
  unwritten = record { keys = []; values = null_map; written = false }

  abbrev pub with_inner : RcHashMap A → Inner A → RcHashMap A
  with_inner m inner = record m { hash_maps = m.hash_maps ++ (inner ∷ []) }

  abbrev pub values_or_null : Option (RcMap A) → Bool × RcMap A
  values_or_null none = (false, null_map)
  values_or_null (some values) = (true, values)

  -- cx_rc_map_init of the new inner map; without elements it frees a pointer that was never written.
  abbrev pub extend_values : Memory A → RcHashMap A → Option (Bool × RcHashMap A)
  extend_values h m =
      if h.elements_ok
      then (let (ok, values) =
            values_or_null (RcMap.init (some h.elements) h.counters_ok m.map_size m.element_size) in
          some (
            ok,
            with_inner m
                (record { keys = replicate m.map_size 0; values = values; written = true }),
          ))
      else none

  -- extend_hash_map, with true for 0. The result of `realloc` is not looked at.
  pub extend_hash_map : Memory A → RcHashMap A → Option (Bool × RcHashMap A)
  extend_hash_map h m =
      if ltb (length m.hash_maps + 1) word
      then (elim (mul_overflow (length m.hash_maps + 1) h.inner_size) [
        | none ↦ some (false, with_inner m unwritten)
        | some bytes ↦
            if h.realloc_ok
            then (if h.keys_ok then extend_values h m else some (false, with_inner m unwritten))
            else none
      ])
      else some (false, m)

  -- cx_rc_hash_map_init
  pub init : Memory A → (size element_size : ℕ) → Option (Bool × RcHashMap A)
  unfolding extend_hash_map
  init h size element_size =
      extend_hash_map h (record { hash_maps = []; map_size = size; element_size = element_size })

  abbrev pub store_last :
      (key : ℕ) → A → (index : ℕ) → Bool × RcHashMap A → Option (Option ℕ × RcHashMap A)
  store_last key value index (false, m) = some (none, m)
  store_last key value index (true, m) = store m key value (length m.hash_maps - 1) index

  abbrev pub put_at :
      Memory A
      → RcHashMap A
      → (key : ℕ) → A
      → (index : ℕ) → Option (ℕ × ℕ)
      → Option (Option ℕ × RcHashMap A)
  put_at h m key value index (some (j, i)) = store m key value j i
  put_at h m key value index none = extend_hash_map h m >>= store_last key value index

  -- cx_rc_hash_map_put
  pub put : Memory A → RcHashMap A → (key : ℕ) → A → Option (Option ℕ × RcHashMap A)
  unfolding key_to_index probe extend_hash_map
  put h m key value = first_size m >>= λ size. key_to_index key size >>= λ index.
      probe (takes_key key) (min size max_collisions) index size m.hash_maps
      >>= put_at h m key value index

  -- cx_rc_hash_map_size
  abbrev pub size : RcHashMap A → Option ℕ
  size m = first_size m >>= λ n. some (n * length m.hash_maps % word)

  -- The inner map `j` with other values.
  abbrev pub with_values : RcHashMap A → ℕ → Inner A → RcMap A → RcHashMap A
  with_values m j inner values = record m {
    hash_maps = set m.hash_maps j (record inner { values = values });
  }

  abbrev pub retain_at : RcHashMap A → Option (ℕ × ℕ) → Option (Option ℕ × RcHashMap A)
  retain_at m none = some (none, m)
  retain_at m (some (j, index)) = get_elem? m.hash_maps j >>= λ inner.
      RcMap.retain inner.values index >>= λ (p, values). some (p, with_values m j inner values)

  -- cx_rc_hash_map_retain
  pub retain : RcHashMap A → (key : ℕ) → Option (Option ℕ × RcHashMap A)
  unfolding key_to_index probe
  retain m key = first_size m >>= λ size. key_to_index key size >>= λ index.
      probe (has_key key) (min size max_collisions) index size m.hash_maps >>= retain_at m

  abbrev pub release_in : RcHashMap A → Option ℕ → ℕ → Inner A → Option (Bool × RcHashMap A)
  release_in m element j inner =
      RcMap.release inner.values element >>= λ values. some (true, with_values m j inner values)

  -- The loop of cx_rc_hash_map_release.
  pub release_from : RcHashMap A → Option ℕ → List (Inner A) → (i : ℕ) → Option (Bool × RcHashMap A)
  release_from m element [] i = some (false, m)
  release_from m element (inner ∷ rest) i =
      let later = release_from m element rest (i + 1) in
      let here =
        if RcMap.contains inner.values element then release_in m element i inner else later in
      if inner.written then here else none

  -- cx_rc_hash_map_release, with true for 0 and false for -CX_ERR_NOT_FOUND.
  pub release : RcHashMap A → Option ℕ → Option (Bool × RcHashMap A)
  unfolding release_from
  release m element = release_from m element m.hash_maps 0

  abbrev pub release_key_at : RcHashMap A → Option (ℕ × ℕ) → Option (RcHashMap A)
  release_key_at m none = some m
  release_key_at m (some (j, index)) = get_elem? m.hash_maps j >>= λ inner.
      RcMap.release_index inner.values index >>= λ values. some (with_values m j inner values)

  -- cx_rc_hash_map_release_key, which returns 0.
  pub release_key : RcHashMap A → (key : ℕ) → Option (RcHashMap A)
  unfolding key_to_index probe
  release_key m key = first_size m >>= λ size. key_to_index key size >>= λ index.
      probe (has_key key) size index size m.hash_maps >>= release_key_at m

  abbrev pub cleanup_inner : Inner A → Option (Inner A)
  cleanup_inner inner =
      if inner.written
      then (RcMap.cleanup inner.values >>= λ values.
          some (record inner { keys = []; values = values }))
      else none

  -- The loop of cx_rc_hash_map_cleanup: the inner maps that it leaves.
  pub cleanup_from : List (Inner A) → Option (List (Inner A))
  cleanup_from [] = some []
  cleanup_from (inner ∷ rest) =
      cleanup_inner inner >>= λ inner'. cleanup_from rest >>= λ rest'. some (inner' ∷ rest')

  -- cx_rc_hash_map_cleanup
  abbrev pub cleanup : RcHashMap A → Option (RcHashMap A)
  cleanup m = cleanup_from m.hash_maps >>= λ inners. some (record m { hash_maps = inners })
