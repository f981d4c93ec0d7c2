-- ===== src/Collection/RcHashMap/Keys.antt =====
-- Where a key is found, in inner maps with the same keys and in more rounds.
use cextras.Base.{
  min, ℕ, zero, suc, ◌+◌, ◌%◌, ◌≤◌, ◌≡◌, refl, ap, true, Option, none, some, List, [], ◌∷◌, arith,
  ◌==◌, get_elem?, set, ==→eq,
}
use cextras.Collection.RcMap.{◌>>=◌}
use cextras.Collection.RcMap
use cextras.Collection.RcMap.{RcMap}
use cextras.Collection.RcHashMap.Inv.{IsValid, first_size-IsValid}
use cextras.Collection.RcHashMap.{
  RcHashMap, key_to_index, max_collisions, retain, release_key, with_values, Inner, has_key,
  probe_layers, try_next, probe, try_index,
}
use cextras.Collection.RcHashMap.Probe.{probe_layers-some}
use cextras.Collection.RcHashMap.Rounds.{probe-some}

module _ {A : Type 0} (key : ℕ) where
  probe_layers-set :
      (inners : List (Inner A)) (s i j : ℕ) (inner inner' : Inner A)
      → get_elem? inners j ≡ some inner
      → inner'.keys ≡ inner.keys
      → probe_layers (has_key key) (set inners j inner') s i ≡ probe_layers (has_key key) inners s i
  unfolding probe_layers
  probe_layers-set [] s i j inner inner' e same = refl
  probe_layers-set (x ∷ xs) s i zero inner inner' e same =
      let one : x ≡ inner = cc in rw (same, one) refl
  probe_layers-set (x ∷ xs) s i (suc j) inner inner' e same =
      ap (λ rest. has_key key x i >>= try_next s rest)
        (probe_layers-set xs (s + 1) i j inner inner' e same)

  -- A write of values leaves the keys where they are.
  pub probe-values :
      (inners : List (Inner A)) (n i size j : ℕ) (inner inner' : Inner A)
      → get_elem? inners j ≡ some inner
      → inner'.keys ≡ inner.keys
      → probe (has_key key) n i size (set inners j inner') ≡ probe (has_key key) n i size inners
  unfolding probe
  probe-values inners zero i size j inner inner' e same = refl
  probe-values inners (suc n) i size j inner inner' e same =
      rw
        (
          probe_layers-set inners 0 (i % size) j inner inner' e same,
          probe-values inners n (i % size + 1) size j inner inner' e same,
        )
        refl

  -- The place that is found has the key.
  pub probe-key :
      (inners : List (Inner A)) (n k size j i : ℕ)
      → probe (has_key key) n k size inners ≡ some (some (j, i))
      → (inner : Inner A) × (get_elem? inners j ≡ some inner) × (get_elem? inner.keys i ≡ some key)
  probe-key inners n k size j i h =
      let (j', same, f) =
        probe_layers-some (has_key key) inners 0 i j
          (probe-some (has_key key) inners j i n k size h) in
      let e : j' ≡ j = omega arith in
      (f.inner, rw (← e) f.at, by_key (get_elem? f.inner.keys i) f.passes)
    where
      by_key : (o : Option ℕ) → (o >>= λ k'. some (k' == key)) ≡ some true → o ≡ some key
      by_key none h' = cc
      by_key (some k') h' = ap some (==→eq k' key (ground arith))

  -- What some rounds find, more rounds find.
  pub probe_mono :
      (inners : List (Inner A)) (n n' k size : ℕ) (place : ℕ × ℕ)
      → n ≤ n'
      → probe (has_key key) n k size inners ≡ some (some place)
      → probe (has_key key) n' k size inners ≡ some (some place)
  unfolding probe
  probe_mono inners zero n' k size place le h = cc
  probe_mono inners (suc n) zero k size place le h = absurd (omega arith)
  probe_mono inners (suc n) (suc n') k size place le h =
      by_layer (probe_layers (has_key key) inners 0 (k % size)) h
        (probe_mono inners n n' (k % size + 1) size place (omega arith))
    where
      by_layer :
          (o : Option (Option ℕ))
          → (o >>= try_index (k % size) (probe (has_key key) n (k % size + 1) size inners))
            ≡ some (some place)
          → (probe (has_key key) n (k % size + 1) size inners ≡ some (some place)
              → probe (has_key key) n' (k % size + 1) size inners ≡ some (some place))
          → (o >>= try_index (k % size) (probe (has_key key) n' (k % size + 1) size inners))
            ≡ some (some place)
      by_layer none h' more = cc
      by_layer (some none) h' more = more h'
      by_layer (some (some j)) h' more = h'

  module _ {m : RcHashMap A} (v : IsValid m) {start j i : ℕ} {inner : Inner A} {values : RcMap A}
      (hashed : key_to_index key m.map_size ≡ some start)
      (probed : probe (has_key key) (min m.map_size max_collisions) start m.map_size m.hash_maps
        ≡ some (some (j, i)))
      (at : get_elem? m.hash_maps j ≡ some inner) where
    -- cx_rc_hash_map_retain retains the place of the key.
    pub retain-place :
        {p : Option ℕ}
        → RcMap.retain inner.values i ≡ some (p, values)
        → retain m key ≡ some (p, with_values m j inner values)
    unfolding retain
    retain-place e = rw (first_size-IsValid v, hashed, probed, at, e) refl

    -- cx_rc_hash_map_release_key, which goes on for more rounds, releases the same place.
    pub release_key-place :
        RcMap.release_index inner.values i ≡ some values
        → release_key m key ≡ some (with_values m j inner values)
    unfolding release_key
    release_key-place e =
        let further =
          probe_mono m.hash_maps (min m.map_size max_collisions) m.map_size start m.map_size (j, i)
            (omega arith) probed in
        rw (first_size-IsValid v, hashed, further, at, e) refl
