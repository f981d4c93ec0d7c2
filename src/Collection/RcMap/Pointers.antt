-- ===== src/Collection/RcMap/Pointers.antt =====
-- The addresses of elements: from an index to a pointer and back.
use cextras.Base.{
  ℕ, ◌+◌, ◌-◌, ◌*◌, ◌/◌, ◌%◌, ◌≤◌, ◌<◌, ◌≡◌, true, false, some, ◌==◌, arith, lt→ltb, word, ◌↔◌,
}
use cextras.Collection.RcMap.{RcMap, get_element, index_of, release, release_index, contains}
use cextras.Collection.RcMap.Inv.{IsValid}

module _ {A : Type 0} {m : RcMap A} (v : IsValid m) where
  offset-lt : (i : ℕ) → i < m.size → i * m.element_size + m.element_size ≤ m.size * m.element_size
  offset-lt i h = grind arith

  pub get_element-some :
      (i : ℕ) → i < m.size → get_element m i ≡ some (m.data_at + i * m.element_size)
  get_element-some i h =
      rw (lt→ltb (i * m.element_size) word (omega (arith, v.in_memory, offset-lt i h)))

  div-mul : (i n : ℕ) → 0 < n → (i * n) / n ≡ i
  div-mul i n h = grind arith

  pub index_of-element : (i : ℕ) → i < m.size → index_of m (m.data_at + i * m.element_size) ≡ some i
  index_of-element i h =
      let nonzero : (m.element_size == 0) ≡ false = ground (arith, v.element_pos) in
      let wrap : (m.data_at + i * m.element_size + word - m.data_at) % word ≡ i * m.element_size =
        omega (arith, v.in_memory, offset-lt i h) in
      rw (nonzero, wrap, div-mul i m.element_size v.element_pos)

  -- In a valid array cx_rc_map_release of the pointer to the element at an index releases that index.
  pub release-get_element : (i : ℕ) → i < m.size → release m (get_element m i) ≡ release_index m i
  unfolding release
  release-get_element i h = rw (get_element-some i h, index_of-element i h)

  -- cx_rc_map_contains of a valid array is true of exactly the addresses from its first byte up to
  -- its last.
  pub contains_iff :
      (p : ℕ)
      → (contains m (some p) ≡ true) ↔ ((m.data_at ≤ p) × (p < m.data_at + m.size * m.element_size))
  unfolding contains
  contains_iff p =
      let no_wrap : (m.size * m.element_size) % word ≡ m.size * m.element_size =
        omega (arith, v.in_memory) in
      rw no_wrap (ground arith)
