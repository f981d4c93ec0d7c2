-- ===== src/Collection/RcMap/Ops.antt =====
-- The operations of rc_map.c on the slots.
use cextras.Base.{
  ℕ, zero, suc, ◌+◌, ◌-◌, ◌*◌, ◌<◌, ◌≡◌, refl, ◌≢◌, true, false, Option, none, some, List, [], ◌∷◌,
  ◌++◌, ◌==◌, arith, if◌then◌else◌, get_elem?, Bool-cases, inl, inr, eq→==, ne→not-==, lt→ltb,
  append-nil, get_elem?→lt, ◌∙◌, sym, ◌↔◌,
}
use cextras.Collection.RcMap.{RcMap, retain, insert, release_index, max_int, all_zero, cleanup}
use cextras.Collection.RcMap.Inv.{slot, view, IsValid}
use cextras.Collection.RcMap.Count.{
  with_count, with_element, with_count-IsValid, with_element-IsValid, counter_at, element_at,
  view-with_count, view-fresh, view-parts,
}
use cextras.Collection.RcMap.Pointers.{get_element-some}

module _ {A : Type 0} where
  -- The slot of index `i` becomes `s`, no other changes, and the elements `gone` go to the callback.
  pub record Stepped (m : RcMap A) (i : ℕ) (s : Option (ℕ × A)) (gone : List A) (m' : RcMap A)
      : Type 0 where
    pub same : (j : ℕ) → view m' j ≡ (if j == i then s else view m j)
    pub cleaned : m'.cleaned ≡ m.cleaned ++ gone
    pub valid : IsValid m'
    pub data_at : m'.data_at ≡ m.data_at
    pub size : m'.size ≡ m.size
    pub element_size : m'.element_size ≡ m.element_size

  with_count-Stepped :
      {m : RcMap A} (i n : ℕ) (x : A)
      → IsValid m
      → i < m.size
      → get_elem? m.elements i ≡ some x
      → Stepped m i (slot (some n) (some x)) [] (with_count m i n)
  with_count-Stepped {m} i n x v h e = record {
    same = λ j. view-with_count v i n j x h e;
    cleaned = sym (append-nil m.cleaned);
    valid = with_count-IsValid v i n;
    data_at = refl;
    size = refl;
    element_size = refl;
  }

  -- In a valid array cx_rc_map_retain of an index that has a reference, with room in its counter,
  -- adds one and returns the address of the element. No other slot changes.
  pub retain-full :
      {m : RcMap A} (i n : ℕ) (x : A)
      → IsValid m
      → i < m.size
      → view m i ≡ some (n, x)
      → n < max_int
      → (m' : RcMap A) × (retain m i ≡ some (some (m.data_at + i * m.element_size), m'))
        × Stepped m i (some (n + 1, x)) [] m'
  unfolding retain
  retain-full {m} i n x v h e room =
      let (c, d, pos) = view-parts m i n x e in
      let more : slot (some (n + 1)) (some x) ≡ some (n + 1, x) = ground arith in
      (
        with_count m i (n + 1),
        rw (c, ne→not-== n 0 pos, c, lt→ltb n max_int room, get_element-some v i h),
        rw (← more) (with_count-Stepped i (n + 1) x v h d),
      )

  -- An index within the array with no slot has the counter 0.
  empty-counter :
      {m : RcMap A} (i : ℕ)
      → IsValid m
      → i < m.size
      → view m i ≡ none
      → get_elem? m.ref_count i ≡ some 0
  empty-counter {m} i v h e =
      let (n, c) = counter_at v i h in
      let (x, d) = element_at v i h in
      let zero_count : n ≡ 0 = ground (arith, e) in rw (← zero_count) c

  -- cx_rc_map_retain of an index with no reference returns NULL and changes nothing.
  pub retain-empty :
      {m : RcMap A} (i : ℕ) → IsValid m → i < m.size → view m i ≡ none → retain m i ≡ some (none, m)
  unfolding retain
  retain-empty i v h e = rw (empty-counter i v h e)

  -- One reference more to what is there, or a first one to `x`.
  abbrev pub counted : Option (ℕ × A) → A → ℕ × A
  counted none x = (1, x)
  counted (some (n, y)) x = (n + 1, y)

  abbrev pub rejected : Option (ℕ × A) → A → List A
  rejected none x = []
  rejected (some s) x = x ∷ []

  abbrev pub HasInserted : RcMap A → ℕ → A → Option (ℕ × A) → Type 0
  HasInserted m i x s =
      (m' : RcMap A) × (insert m i x ≡ some (some (m.data_at + i * m.element_size), m'))
      × Stepped m i (some (counted s x)) (rejected s x) m'

  insert-fresh :
      {m : RcMap A} (i : ℕ) (x : A)
      → IsValid m
      → i < m.size
      → view m i ≡ none
      → HasInserted m i x none
  unfolding insert
  insert-fresh {m} i x v h e =
      let c = empty-counter i v h e in
      (
        with_count (with_element m i x) i 1,
        rw (get_element-some v i h, c, c),
        record {
          same = λ j. view-fresh v i j x h;
          cleaned = sym (append-nil m.cleaned);
          valid = with_count-IsValid (with_element-IsValid v i x) i 1;
          data_at = refl;
          size = refl;
          element_size = refl;
        },
      )

  -- The array after the callback has got `x`.
  abbrev rejecting : RcMap A → A → RcMap A
  rejecting m x = record m { cleaned = m.cleaned ++ (x ∷ []) }

  insert-retain :
      (m : RcMap A) (i n : ℕ) (x : A)
      → IsValid m
      → i < m.size
      → get_elem? m.ref_count i ≡ some n
      → n ≢ 0
      → insert m i x ≡ retain (rejecting m x) i
  unfolding insert
  insert-retain m i n x v h c pos =
      rw (get_element-some v i h, c, ne→not-== n 0 pos, c, ne→not-== n 0 pos, c)

  insert-full :
      {m : RcMap A} (i n : ℕ) (x y : A)
      → IsValid m
      → i < m.size
      → view m i ≡ some (n, y)
      → n < max_int
      → HasInserted m i x (some (n, y))
  insert-full {m} i n x y v h e room =
      let v' : IsValid (rejecting m x) = record {
        counters = v.counters;
        places = v.places;
        element_pos = v.element_pos;
        in_memory = v.in_memory;
      } in
      let (m', r, st) = retain-full i n y v' h e room in
      let (c, d, pos) = view-parts m i n y e in
      (
        m',
        insert-retain m i n x v h c pos ∙ r,
        record {
          same = st.same;
          cleaned = st.cleaned ∙ append-nil (m.cleaned ++ (x ∷ []));
          valid = st.valid;
          data_at = st.data_at;
          size = st.size;
          element_size = st.element_size;
        },
      )

  -- cx_rc_map_set at an index of a valid array, with room in its counter, returns the address of the
  -- element. An empty slot takes the value with one reference; in a full one the old element stays
  -- and gets one reference more, and the new value goes to the callback. No other slot changes.
  pub insert-Stepped :
      {m : RcMap A} (i : ℕ) (x : A)
      → IsValid m
      → i < m.size
      → ((n : ℕ) (y : A) → view m i ≡ some (n, y) → n < max_int)
      → HasInserted m i x (view m i)
  insert-Stepped {m} i x v h room = by_slot (view m i) refl
    where
      by_slot : (s : Option (ℕ × A)) → view m i ≡ s → HasInserted m i x (view m i)
      by_slot none e = rw e (insert-fresh i x v h e)
      by_slot (some (n, y)) e = rw e (insert-full i n x y v h e (room n y e))

  -- What is left of a slot after a release, and what goes to the callback.
  abbrev pub less : ℕ → A → Option (ℕ × A)
  less n x = if n == 1 then none else some (n - 1, x)

  abbrev pub dropped : ℕ → A → List A
  dropped n x = if n == 1 then x ∷ [] else []

  -- In a valid array cx_rc_map_release_index of an index that has a reference takes one: the last
  -- one empties the slot and hands its element to the callback. No other slot changes.
  pub release_index-Stepped :
      {m : RcMap A} (i n : ℕ) (x : A)
      → IsValid m
      → i < m.size
      → view m i ≡ some (n, x)
      → (m' : RcMap A) × (release_index m i ≡ some m') × Stepped m i (less n x) (dropped n x) m'
  unfolding release_index
  release_index-Stepped {m} i n x v h e =
      let (c, d, pos) = view-parts m i n x e in
      let st = with_count-Stepped i (n - 1) x v h d in
      elim (Bool-cases (n == 1)) [
        | inl last ↦
            let none_left : n - 1 ≡ 0 = ground arith in
            (
              record (with_count m i (n - 1)) { cleaned = m.cleaned ++ (x ∷ []) },
              rw (c, ne→not-== n 0 pos, eq→== (n - 1) 0 none_left, d),
              record {
                same = λ j. rw last (rw (eq→== (n - 1) 0 none_left) at (st.same j));
                cleaned = rw last;
                valid = record {
                  counters = st.valid.counters;
                  places = v.places;
                  element_pos = v.element_pos;
                  in_memory = v.in_memory;
                };
                data_at = refl;
                size = refl;
                element_size = refl;
              },
            )
        | inr other ↦
            let some_left : ((n - 1) == 0) ≡ false = ground arith in
            (
              with_count m i (n - 1),
              rw (c, ne→not-== n 0 pos, some_left),
              rw other (rw some_left at st),
            )
      ]

  -- cx_rc_map_release_index of an index that has no reference fails its assertion.
  pub release_index-empty :
      {m : RcMap A} (i : ℕ) → IsValid m → i < m.size → view m i ≡ none → release_index m i ≡ none
  unfolding release_index
  release_index-empty i v h e = rw (empty-counter i v h e)

all_zero-get_elem? : (ns : List ℕ) (j n : ℕ) → all_zero ns ≡ true → get_elem? ns j ≡ some n → n ≡ 0
all_zero-get_elem? [] j n h e = cc
all_zero-get_elem? (k ∷ ns) zero n h e = ground arith
all_zero-get_elem? (k ∷ ns) (suc j) n h e = all_zero-get_elem? ns j n (ground arith) e

get_elem?-all_zero :
    (ns : List ℕ) → ((j n : ℕ) → get_elem? ns j ≡ some n → n ≡ 0) → all_zero ns ≡ true
get_elem?-all_zero [] h = refl
get_elem?-all_zero (k ∷ ns) h = rw (h 0 k refl) (get_elem?-all_zero ns (λ j n e. h (suc j) n e))

module _ {A : Type 0} {m : RcMap A} (v : IsValid m) where
  view-empty : all_zero m.ref_count ≡ true → (j : ℕ) → view m j ≡ none
  view-empty h j =
      by_slot (get_elem? m.ref_count j) (get_elem? m.elements j)
        (λ n e. all_zero-get_elem? m.ref_count j n h e)
    where
      by_slot : (a : Option ℕ) (b : Option A) → ((n : ℕ) → a ≡ some n → n ≡ 0) → slot a b ≡ none
      by_slot none b h = refl
      by_slot (some n) none h = refl
      by_slot (some n) (some x) h = rw (h n refl)

  counter-zero : ((j : ℕ) → view m j ≡ none) → (j n : ℕ) → get_elem? m.ref_count j ≡ some n → n ≡ 0
  counter-zero h j n e =
      let inside : j < m.size = rw (← v.counters) (get_elem?→lt m.ref_count j n e) in
      let (x, d) = element_at v j inside in ground (arith, h j)

  -- cx_rc_map_cleanup of a valid array passes its assertion exactly when no element has a reference.
  pub cleanup_iff : (cleanup m ≢ none) ↔ ((j : ℕ) → view m j ≡ none)
  unfolding cleanup
  cleanup_iff = (
    (λ ok. elim (Bool-cases (all_zero m.ref_count)) [
      | inl z ↦ view-empty z
      | inr nz ↦ absurd (ok (rw nz))
    ]),
    (λ h e. absurd (let z = get_elem?-all_zero m.ref_count (counter-zero h) in ground (arith, z))),
  )
