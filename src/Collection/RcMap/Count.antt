-- ===== src/Collection/RcMap/Count.antt =====
-- Changing one counter or one element of an array with reference counters.
use cextras.Base.{
  ℕ, ◌<◌, ◌≡◌, ◌≢◌, Option, none, some, ◌==◌, arith, if◌then◌else◌, get_elem?, set, length-set,
  get_elem?-set_self, get_elem?-set_ne, get_elem?-lt, Bool-cases, inl, inr, ==→eq, not-==→ne, sym,
}
use cextras.Collection.RcMap.{RcMap}
use cextras.Collection.RcMap.Inv.{slot, view, IsValid}

module _ {A : Type 0} where
  abbrev pub with_count : RcMap A → ℕ → ℕ → RcMap A
  with_count m i n = record m { ref_count = set m.ref_count i n }

  abbrev pub with_element : RcMap A → ℕ → A → RcMap A
  with_element m i x = record m { elements = set m.elements i x }

  module _ {m : RcMap A} (v : IsValid m) (i : ℕ) where
    pub with_count-IsValid : (n : ℕ) → IsValid (with_count m i n)
    with_count-IsValid n = record {
      counters = rw (length-set m.ref_count i n) (v.counters);
      places = v.places;
      element_pos = v.element_pos;
      in_memory = v.in_memory;
    }

    pub with_element-IsValid : (x : A) → IsValid (with_element m i x)
    with_element-IsValid x = record {
      counters = v.counters;
      places = rw (length-set m.elements i x) (v.places);
      element_pos = v.element_pos;
      in_memory = v.in_memory;
    }

    pub counter_at : i < m.size → (n : ℕ) × (get_elem? m.ref_count i ≡ some n)
    counter_at h = get_elem?-lt m.ref_count i (rw (v.counters) h)

    pub element_at : i < m.size → (x : A) × (get_elem? m.elements i ≡ some x)
    element_at h = get_elem?-lt m.elements i (rw (v.places) h)

    pub view-with_count :
        (n j : ℕ) (x : A)
        → i < m.size
        → get_elem? m.elements i ≡ some x
        → view (with_count m i n) j ≡ (if j == i then slot (some n) (some x) else view m j)
    view-with_count n j x h e = elim (Bool-cases (j == i)) [
      | inl q ↦ rw (q, ==→eq j i q, get_elem?-set_self m.ref_count i n (rw (v.counters) h), e)
      | inr q ↦ rw (q, get_elem?-set_ne m.ref_count i j n (λ r. not-==→ne j i q (sym r)))
    ]

    -- A new element with a first reference.
    pub view-fresh :
        (j : ℕ) (x : A)
        → i < m.size
        → view (with_count (with_element m i x) i 1) j ≡ (if j == i then some (1, x) else view m j)
    view-fresh j x h = elim (Bool-cases (j == i)) [
      | inl q ↦ rw (
        q,
        ==→eq j i q,
        get_elem?-set_self m.ref_count i 1 (rw (v.counters) h),
        get_elem?-set_self m.elements i x (rw (v.places) h),
      )
      | inr q ↦ rw (
        q,
        get_elem?-set_ne m.ref_count i j 1 (λ r. not-==→ne j i q (sym r)),
        get_elem?-set_ne m.elements i j x (λ r. not-==→ne j i q (sym r)),
      )
    ]

  -- A slot at hand shows the counter and the element.
  pub view-parts :
      (m : RcMap A) (i n : ℕ) (x : A)
      → view m i ≡ some (n, x)
      → (get_elem? m.ref_count i ≡ some n) × (get_elem? m.elements i ≡ some x) × (n ≢ 0)
  view-parts m i n x e = parts (get_elem? m.ref_count i) (get_elem? m.elements i) e
    where
      parts :
          (a : Option ℕ) (b : Option A)
          → slot a b ≡ some (n, x)
          → (a ≡ some n) × (b ≡ some x) × (n ≢ 0)
      parts none b h = cc
      parts (some k) none h = cc
      parts (some k) (some y) h = ground arith
