-- ===== src/Collection/RcHashMap/Spots.antt =====
-- Which places of a hash map a key may take, and in which order they are looked at.
use cextras.Base.{
  ℕ, zero, suc, ◌+◌, ◌%◌, ◌<◌, ◌≡◌, ◌≢◌, refl, ap, Bool, true, false, Option, none, some, List,
  arith, ◌⊎◌, inl, inr, ◌==◌, ==→eq, not-==→ne, get_elem?, Bool-cases,
}
use cextras.Collection.RcMap.{◌>>=◌}
use cextras.Collection.RcHashMap.{Inner, or_else, takes_key, probe_layers, probe, try_index}
use cextras.Collection.RcHashMap.Probe.{probe_layers-some, probe_layers-none}
use cextras.Collection.RcHashMap.Rounds.{round-cases}

abbrev test_of : ℕ → Option ℕ → Option ℕ → Option Bool
test_of key count stored =
    (count >>= λ n. some (n == 0)) >>= λ empty. or_else empty (stored >>= λ k. some (k == key))

free_of :
    (key : ℕ) (count stored : Option ℕ)
    → test_of key count stored ≡ some true
    → (count ≡ some 0) ⊎ (stored ≡ some key)
free_of key none stored h = absurd (cc (h))
free_of key (some n) none h = elim (Bool-cases (n == 0)) [
  | inl z ↦ inl (ap some (==→eq n 0 z))
  | inr nz ↦ absurd (cc (rw nz at h))
]
free_of key (some n) (some k) h = elim (Bool-cases (n == 0)) [
  | inl z ↦ inl (ap some (==→eq n 0 z))
  | inr nz ↦ elim (Bool-cases (k == key)) [
    | inl same ↦ inr (ap some (==→eq k key same))
    | inr other ↦ absurd (cc (rw (nz, other) at h))
  ]
]

module _ {A : Type 0} (key : ℕ) where
  -- The place has no references, or the key.
  abbrev pub Free : Inner A → ℕ → Type 0
  Free inner i = (get_elem? inner.values.ref_count i ≡ some 0) ⊎ (get_elem? inner.keys i ≡ some key)

  -- The place has references, and another key.
  pub record Taken (inner : Inner A) (i : ℕ) : Type 0 where
    pub count : ℕ
    pub counted : get_elem? inner.values.ref_count i ≡ some count
    pub referenced : count ≢ 0
    pub other : ℕ
    pub stored : get_elem? inner.keys i ≡ some other
    pub differs : other ≢ key

  -- At index `i` the place is taken in every inner map.
  abbrev pub AllTaken : List (Inner A) → ℕ → Type 0
  AllTaken inners i = (l : ℕ) (inner : Inner A) → get_elem? inners l ≡ some inner → Taken inner i

  -- Index `i` of inner map `j` is the first place that is free, within so many indices from `k` on,
  -- with all inner maps at each index.
  pub data FirstFree (inners : List (Inner A)) (size j i : ℕ) : (rounds k : ℕ) → Type 0 where
    at_index :
        {n k : ℕ} {inner : Inner A}
        → k % size ≡ i
        → get_elem? inners j ≡ some inner
        → Free inner i
        → ((l : ℕ) (other : Inner A) → l < j → get_elem? inners l ≡ some other → Taken other i)
        → FirstFree inners size j i (suc n) k
    later :
        {n k : ℕ}
        → AllTaken inners (k % size)
        → FirstFree inners size j i n (k % size + 1)
        → FirstFree inners size j i (suc n) k

  -- No place is free there.
  abbrev pub NoneFree : List (Inner A) → (size rounds k : ℕ) → Type 0
  NoneFree inners size zero k = Unit
  NoneFree inners size (suc n) k =
      AllTaken inners (k % size) × NoneFree inners size n (k % size + 1)

  takes_key-Free : (inner : Inner A) (i : ℕ) → takes_key key inner i ≡ some true → Free inner i
  takes_key-Free inner i h =
      free_of key (get_elem? inner.values.ref_count i) (get_elem? inner.keys i) h

  takes_key-Taken : (inner : Inner A) (i : ℕ) → takes_key key inner i ≡ some false → Taken inner i
  takes_key-Taken inner i h =
      by_parts (get_elem? inner.values.ref_count i) (get_elem? inner.keys i) refl refl h
    where
      by_parts :
          (count stored : Option ℕ)
          → get_elem? inner.values.ref_count i ≡ count
          → get_elem? inner.keys i ≡ stored
          → test_of key count stored ≡ some false
          → Taken inner i
      by_parts none stored e e' h' = cc
      by_parts (some n) none e e' h' = elim (Bool-cases (n == 0)) [
        | inl z ↦ absurd (cc (rw z at h'))
        | inr nz ↦ absurd (cc (rw nz at h'))
      ]
      by_parts (some n) (some k) e e' h' = elim (Bool-cases (n == 0)) [
        | inl z ↦ absurd (cc (rw z at h'))
        | inr nz ↦ elim (Bool-cases (k == key)) [
          | inl same ↦ absurd (cc (rw (nz, same) at h'))
          | inr differs ↦ record {
            count = n;
            counted = e;
            referenced = not-==→ne n 0 nz;
            other = k;
            stored = e';
            differs = not-==→ne k key differs;
          }
        ]
      ]

  module _ (inners : List (Inner A)) where
    missed-AllTaken :
        (i : ℕ) → probe_layers (takes_key key) inners 0 i ≡ some none → AllTaken inners i
    missed-AllTaken i h l inner e =
        takes_key-Taken inner i (probe_layers-none (takes_key key) inners 0 i h l inner e)

    -- Where the probing of a put ends is the first place that is free.
    pub probe-FirstFree :
        (j i n k size : ℕ)
        → probe (takes_key key) n k size inners ≡ some (some (j, i))
        → FirstFree inners size j i n k
    unfolding probe
    probe-FirstFree j i zero k size h = cc
    probe-FirstFree j i (suc n) k size h =
        elim (round-cases (takes_key key) inners j i
          (probe_layers (takes_key key) inners 0 (k % size)) (k % size)
          (probe (takes_key key) n (k % size + 1) size inners) h) [
            | inl missed ↦
                later (missed-AllTaken (k % size) missed.0)
                  (probe-FirstFree j i n (k % size + 1) size missed.1)
            | inr hit ↦
                let (j', same, f) =
                  probe_layers-some (takes_key key) inners 0 i j (rw (← hit.1) hit.0) in
                let e : j' ≡ j = omega arith in
                at_index {inner = f.inner} hit.1 (rw (← e) f.at) (takes_key-Free f.inner i f.passes)
                  (λ l other below at. takes_key-Taken other i (f.before l other (omega arith) at))
          ]

    -- And where it finds none, none is free.
    pub probe-NoneFree :
        (n k size : ℕ)
        → probe (takes_key key) n k size inners ≡ some none
        → NoneFree inners size n k
    unfolding probe
    probe-NoneFree zero k size h = tt
    probe-NoneFree (suc n) k size h =
        by_layer (probe_layers (takes_key key) inners 0 (k % size))
          (probe (takes_key key) n (k % size + 1) size inners) refl h
          (probe-NoneFree n (k % size + 1) size)
      where
        by_layer :
            (o : Option (Option ℕ)) (rest : Option (Option (ℕ × ℕ)))
            → probe_layers (takes_key key) inners 0 (k % size) ≡ o
            → (o >>= try_index (k % size) rest) ≡ some none
            → (rest ≡ some none → NoneFree inners size n (k % size + 1))
            → NoneFree inners size (suc n) k
        by_layer none rest e h' rec = cc
        by_layer (some none) rest e h' rec = (missed-AllTaken (k % size) e, rec h')
        by_layer (some (some j)) rest e h' rec = cc
