-- ===== src/Collection/RcHashMap/Inv.antt =====
-- When a hash map is well formed.
use cextras.Base.{
  le_bytes, get_elem?-set_cases, get_elem?-append_cases, ℕ, ◌+◌, ◌*◌, ◌%◌, ◌^◌, ◌<◌, ◌≡◌, refl,
  Bool, true, false, Option, some, List, [], ◌∷◌, ◌++◌, arith, ◌==◌, length, get_elem?, set,
  get_elem?-lt, length-set, Bool-cases, inl, inr, word,
}
use cextras.Collection.RcMap.{max_int}
use cextras.Collection.RcMap.Inv as Slots
use cextras.Collection.RcMap.Inv.{view}
use cextras.Collection.RcHashMap.{
  Inner, RcHashMap, first_size, has_key, takes_key, or_else, key_to_index, djb2_hash,
}

or_else-Defined :
    (empty : Bool) (o : Option Bool)
    → (b : Bool) × (o ≡ some b)
    → (b : Bool) × (or_else empty o ≡ some b)
or_else-Defined true o d = (true, refl)
or_else-Defined false o d = d

module _ {A : Type 0} where
  pub record IsInner (places : ℕ) (inner : Inner A) : Type 0 where
    pub keys : length inner.keys ≡ places
    pub values : Slots.IsValid inner.values
    pub size : inner.values.size ≡ places

  -- There are inner maps, all of `map_size` places.
  pub record IsValid (m : RcHashMap A) : Type 0 where
    pub size_pos : 0 < m.map_size
    pub some_maps : 0 < length m.hash_maps
    pub inners :
        (k : ℕ) (inner : Inner A) → get_elem? m.hash_maps k ≡ some inner → IsInner m.map_size inner

  -- Every counter has room for two references more.
  abbrev pub HasRoom : RcHashMap A → Type 0
  HasRoom m =
      (k i n : ℕ) (inner : Inner A) (x : A)
      → get_elem? m.hash_maps k ≡ some inner
      → view inner.values i ≡ some (n, x)
      → n + 1 < max_int

  pub first_size-IsValid : {m : RcHashMap A} → IsValid m → first_size m ≡ some m.map_size
  first_size-IsValid {m} v =
      let (inner, e) = get_elem?-lt m.hash_maps 0 v.some_maps in
      rw (e, (v.inners 0 inner e).size) refl

  pub has_key-Defined :
      (key size i : ℕ) (inner : Inner A)
      → IsInner size inner
      → i < size
      → (b : Bool) × (has_key key inner i ≡ some b)
  has_key-Defined key size i inner v h =
      let (k, e) = get_elem?-lt inner.keys i (rw v.keys h) in (k == key, rw e refl)

  pub takes_key-Defined :
      (key size i : ℕ) (inner : Inner A)
      → IsInner size inner
      → i < size
      → (b : Bool) × (takes_key key inner i ≡ some b)
  takes_key-Defined key size i inner v h =
      let (n, e) = get_elem?-lt inner.values.ref_count i (rw (v.values.counters, v.size) h) in
      rw e (or_else-Defined (n == 0) (has_key key inner i) (has_key-Defined key size i inner v h))

  pub set-IsValid :
      {m : RcHashMap A} (j : ℕ) (inner' : Inner A)
      → IsValid m
      → IsInner m.map_size inner'
      → IsValid (record m { hash_maps = set m.hash_maps j inner' })
  set-IsValid {m} j inner' v w = record {
    size_pos = v.size_pos;
    some_maps = rw (length-set m.hash_maps j inner') v.some_maps;
    inners = λ k inner e. elim (get_elem?-set_cases m.hash_maps j k inner' inner e) [
      | inl here ↦ rw (here.1) w
      | inr other ↦ v.inners k inner other
    ];
  }

  pub append-IsInner :
      (places : ℕ) (inners : List (Inner A)) (new : Inner A)
      → ((k : ℕ) (inner : Inner A) → get_elem? inners k ≡ some inner → IsInner places inner)
      → IsInner places new
      → (k : ℕ) (inner : Inner A) → get_elem? (inners ++ (new ∷ [])) k ≡ some inner
      → IsInner places inner
  append-IsInner places inners new v w k inner e =
      elim (get_elem?-append_cases inners new k inner e) [
        | inl last ↦ rw last w
        | inr other ↦ v k inner other
      ]

pub key_to_index-lt :
    (key size : ℕ) → 0 < size → (i : ℕ) × (key_to_index key size ≡ some i) × (i < size)
unfolding key_to_index
key_to_index-lt key size pos = elim (Bool-cases (size == 0)) [
  | inl nil ↦ absurd (ground arith)
  | inr some_size ↦
      (djb2_hash (le_bytes 8 key) * 2 ^ 2 % word % size, rw some_size refl, grind (arith, pos))
]
