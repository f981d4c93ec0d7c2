-- ===== src/Collection/RcMap.antt =====
-- lib/collection/rc_map.c: an array of elements with a reference counter for each.
--
-- `data` is the address of the array and `elements` its contents. A pointer is `none` for NULL. The
-- callback `cleanup` is modelled by the list of the elements that it was called with. The result
-- `none` stands for a failed assertion, an index out of range, a counter that would leave `int`, or
-- a division by an element size of 0.
pub mod Inv
pub mod Count
pub mod Pointers
pub mod Ops
pub mod Sample
mod Tests
use cextras.Base.{
  ℕ, zero, suc, ◌+◌, ◌-◌, ◌*◌, ◌/◌, ◌%◌, ◌^◌, Bool, true, false, Option, none, some, List, [], ◌∷◌,
  ◌++◌, ltb, leb, not, ◌&&◌, ◌==◌, if◌then◌else◌, get_elem?, set, replicate, word, mul_overflow,
}

-- `struct CxRcMap`
pub record RcMap (A : Type 0) : Type 0 where
  pub data_at : ℕ
  pub elements : List A
  pub size : ℕ
  pub element_size : ℕ
  pub ref_count : List ℕ
  pub cleaned : List A

infixl 5 ◌>>=◌
abbrev pub ◌>>=◌ {ℓ κ} : {A : Type ℓ} {B : Type κ} → Option A → (A → Option B) → Option B
none >>= f = none
some a >>= f = f a

abbrev pub max_int : ℕ
max_int = 2 ^ 31 - 1

-- The assertion of cx_rc_map_cleanup: the bitwise or of all counters is 0.
abbrev pub all_zero : List ℕ → Bool
all_zero [] = true
all_zero (n ∷ ns) = (n == 0) && all_zero ns

module _ {A : Type 0} where
  -- cx_rc_map_init. The two blocks come from `calloc`: the address and contents of the array of
  -- elements, and whether there is an array of counters. The result is `none` for -CX_ERR_ALLOC.
  abbrev pub init : Option (ℕ × List A) → Bool → (size element_size : ℕ) → Option (RcMap A)
  init none counters size element_size = none
  init (some (p, xs)) false size element_size = none
  init (some (p, xs)) true size element_size = some (record {
    data_at = p;
    elements = xs;
    size = size;
    element_size = element_size;
    ref_count = replicate size 0;
    cleaned = [];
  })

  abbrev pub address : RcMap A → Option ℕ → Option ℕ
  address m none = none
  address m (some offset) = some (m.data_at + offset)

  -- The pointer to an element, NULL where its offset overflows.
  abbrev pub get_element : RcMap A → ℕ → Option ℕ
  get_element m index = address m (mul_overflow index m.element_size)

  -- `++array->ref_count[index]`
  abbrev pub retain_rc : RcMap A → ℕ → Option (RcMap A)
  retain_rc m index = get_elem? m.ref_count index >>= λ n.
      if ltb n max_int then some (record m { ref_count = set m.ref_count index (n + 1) }) else none

  -- `--array->ref_count[index]`, with the new count.
  abbrev pub release_rc : RcMap A → ℕ → Option (ℕ × RcMap A)
  release_rc m index = get_elem? m.ref_count index >>= λ n.
      if n == 0 then none else some (n - 1, record m { ref_count = set m.ref_count index (n - 1) })

  abbrev pub is_empty : RcMap A → ℕ → Option Bool
  is_empty m index = get_elem? m.ref_count index >>= λ n. some (n == 0)

  abbrev pub retain_full : RcMap A → ℕ → Bool → Option (Option ℕ × RcMap A)
  retain_full m index true = some (none, m)
  retain_full m index false = retain_rc m index >>= λ m'. some (get_element m' index, m')

  -- cx_rc_map_retain
  pub retain : RcMap A → ℕ → Option (Option ℕ × RcMap A)
  retain m index = is_empty m index >>= retain_full m index

  abbrev pub set_full : RcMap A → ℕ → A → Option ℕ → Bool → Option (Option ℕ × RcMap A)
  set_full m index value target true =
      retain_rc (record m { elements = set m.elements index value }) index >>= λ m'.
      some (target, m')
  set_full m index value target false =
      retain (record m { cleaned = m.cleaned ++ (value ∷ []) }) index

  abbrev pub set_at : RcMap A → ℕ → A → Option ℕ → Option (Option ℕ × RcMap A)
  set_at m index value none = some (none, m)
  set_at m index value (some p) = is_empty m index >>= set_full m index value (some p)

  -- cx_rc_map_set
  pub insert : RcMap A → ℕ → A → Option (Option ℕ × RcMap A)
  unfolding retain
  insert m index value = set_at m index value (get_element m index)

  abbrev pub clean_at : RcMap A → ℕ → Option (RcMap A)
  clean_at m index =
      get_elem? m.elements index >>= λ x. some (record m { cleaned = m.cleaned ++ (x ∷ []) })

  -- cx_rc_map_release_index
  pub release_index : RcMap A → ℕ → Option (RcMap A)
  release_index m index =
      release_rc m index >>= λ (n, m'). if n == 0 then clean_at m' index else some m'

  -- `((uint8_t *)element - array->data) / array->element_size`
  abbrev pub index_of : RcMap A → ℕ → Option ℕ
  index_of m p =
      if m.element_size == 0 then none else some ((p + word - m.data_at) % word / m.element_size)

  -- cx_rc_map_retain_value
  pub retain_value : RcMap A → Option ℕ → Option (RcMap A)
  unfolding retain
  retain_value m none = some m
  retain_value m (some p) = index_of m p >>= λ i. retain m i >>= λ (r, m'). some m'

  -- cx_rc_map_release
  pub release : RcMap A → Option ℕ → Option (RcMap A)
  unfolding release_index
  release m none = some m
  release m (some p) = index_of m p >>= release_index m

  -- cx_rc_map_contains
  pub contains : RcMap A → Option ℕ → Bool
  contains m none = false
  contains m (some p) =
      not (ltb p m.data_at) && ltb p (m.data_at + (m.size * m.element_size) % word)

  -- cx_rc_map_cleanup; the null pointers that it leaves are address 0 and empty lists.
  pub cleanup : RcMap A → Option (RcMap A)
  cleanup m =
      if all_zero m.ref_count
      then some (record m { data_at = 0; elements = []; ref_count = []; size = 0 })
      else none
