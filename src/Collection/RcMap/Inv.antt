-- ===== src/Collection/RcMap/Inv.antt =====
-- The slots that an array with reference counters stands for.
use cextras.Base.{
  ℕ, ◌+◌, ◌*◌, ◌<◌, ◌≡◌, Option, none, some, ◌==◌, if◌then◌else◌, length, get_elem?, word,
}
use cextras.Collection.RcMap.{RcMap}

module _ {A : Type 0} where
  abbrev pub slot : Option ℕ → Option A → Option (ℕ × A)
  slot none x = none
  slot (some n) none = none
  slot (some n) (some x) = if n == 0 then none else some (n, x)

  -- The count and the element at an index that has a reference.
  abbrev pub view : RcMap A → ℕ → Option (ℕ × A)
  view m i = slot (get_elem? m.ref_count i) (get_elem? m.elements i)

  -- The arrays have `size` places, and the elements lie within the address space.
  pub record IsValid (m : RcMap A) : Type 0 where
    pub counters : length m.ref_count ≡ m.size
    pub places : length m.elements ≡ m.size
    pub element_pos : 0 < m.element_size
    pub in_memory : m.data_at + m.size * m.element_size < word
