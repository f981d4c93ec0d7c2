-- ===== src/Collection/RcRadixTree.antt =====
-- lib/collection/rc_radix_tree.c: a radix tree whose leaves are reference-counted objects.
--
-- `objects` is the memory of the leaves: a counter of type `size_t` and the element behind it. The
-- callback `cleanup` is modelled by the list of the elements that it was called with. A failed
-- assertion, and what the radix tree leaves undefined, is `none`.
pub mod Inv
pub mod Count
pub mod Put
pub mod Release
pub mod Sample
mod Tests
use cextras.Base.{
  ℕ, ◌+◌, ◌-◌, ◌%◌, Bool, true, false, Option, none, some, List, [], ◌∷◌, ◌++◌, ◌==◌, if◌then◌else◌,
  word,
}
use cextras.Memory.Pool.{Ptr, Allocator, ptr_eq, Freed}
use cextras.Collection.RadixTree
use cextras.Collection.RadixTree.{RadixTree, ◌>>=◌}

pub record Object (A : Type 0) : Type 0 where
  pub rc : ℕ
  pub element : A

-- `struct CxRcRadixTree`
pub record RcRadixTree (A : Type 0) : Type 0 where
  pub values : RadixTree
  pub element_size : ℕ
  pub objects : Ptr → Object A
  pub cleaned : List A

module _ {A : Type 0} where
  abbrev pub assign : (Ptr → Object A) → Ptr → Object A → Ptr → Object A
  assign m p o a = if ptr_eq a p then o else m a

  -- `OBJ_RC(obj) = n`
  abbrev pub set_rc : RcRadixTree A → Ptr → ℕ → RcRadixTree A
  set_rc t p n = record t { objects = assign t.objects p (record (t.objects p) { rc = n }) }

  abbrev pub with_tree : RadixTree → ℕ → (Ptr → Object A) → RcRadixTree A
  with_tree values element_size memory = record {
    values = values;
    element_size = element_size;
    objects = memory;
    cleaned = [];
  }

  -- cx_rc_radix_tree_init; `memory` is what the leaves hold before they are written.
  abbrev pub init : ℕ → (Ptr → Object A) → Option (RcRadixTree A)
  init element_size memory =
      RadixTree.init (8 + element_size) >>= λ values. some (with_tree values element_size memory)

  -- What it makes.
  abbrev pub no_keys : ℕ → (Ptr → Object A) → RcRadixTree A
  no_keys element_size memory =
      with_tree (RadixTree.empty_tree (8 + element_size)) element_size memory

  -- radix_tree_retain after the lookup.
  abbrev pub retain_at : RcRadixTree A → Option Ptr → Option (Option Ptr × RcRadixTree A)
  retain_at t none = some (none, t)
  retain_at t (some p) =
      if (t.objects p).rc == 0
      then none
      else some (some p, set_rc t p (((t.objects p).rc + 1) % word))

  -- radix_tree_retain and cx_rc_radix_tree_retain
  pub retain : RcRadixTree A → ℕ → Option (Option Ptr × RcRadixTree A)
  retain t key = RadixTree.get t.values key >>= retain_at t

  -- The new object of cx_rc_radix_tree_put; its assertion fails when there is no leaf for it.
  abbrev pub fill : RcRadixTree A → A → Option Ptr × RadixTree → Option (Option Ptr × RcRadixTree A)
  fill t value (none, values) = none
  fill t value (some p, values) = some (
    some p,
    record t { values = values; objects = assign t.objects p (record { rc = 1; element = value }) },
  )

  abbrev pub put_at :
      Allocator → ℕ → A → Option Ptr × RcRadixTree A → Option (Option Ptr × RcRadixTree A)
  put_at h key value (none, t) = RadixTree.new_leaf h t.values key >>= fill t value
  put_at h key value (some p, t) = some (some p, record t { cleaned = t.cleaned ++ (value ∷ []) })

  -- cx_rc_radix_tree_put
  pub put : Allocator → RcRadixTree A → ℕ → A → Option (Option Ptr × RcRadixTree A)
  put h t key value = retain t key >>= put_at h key value

  abbrev pub drop_last : RcRadixTree A → A → Bool × RadixTree → Option (Bool × RcRadixTree A)
  drop_last t element (ok, values) =
      some (ok, record t { values = values; cleaned = t.cleaned ++ (element ∷ []) })

  abbrev pub release_at : RcRadixTree A → ℕ → Option Ptr → Option (Bool × RcRadixTree A)
  release_at t key none = some (false, t)
  release_at t key (some p) =
      if (t.objects p).rc == 0
      then none
      else (if (t.objects p).rc == 1
          then RadixTree.delete t.values key >>= drop_last t (t.objects p).element
          else some (true, set_rc t p ((t.objects p).rc - 1)))

  -- cx_rc_radix_tree_release; true stands for 0 and false for -1.
  pub release : RcRadixTree A → ℕ → Option (Bool × RcRadixTree A)
  release t key = RadixTree.get t.values key >>= release_at t key

  -- cx_rc_radix_tree_retain_value, for a pointer that this tree has returned.
  pub retain_value : RcRadixTree A → Ptr → RcRadixTree A
  retain_value t p = set_rc t p (((t.objects p).rc + 1) % word)

  -- cx_rc_radix_tree_cleanup
  pub cleanup : RcRadixTree A → Option (Freed × Freed)
  cleanup t = RadixTree.cleanup t.values
