-- ===== src/Collection/RcRadixTree/Count.antt =====
-- Changing one counter of a reference-counted radix tree.
use cextras.Base.{
  ℕ, ◌<◌, ◌≡◌, refl, ◌≢◌, ◌∙◌, ap, Bool, false, Option, none, some, List, ◌==◌, if◌then◌else◌,
  Bool-cases, Option-cases, inl, inr, ==→eq, not-==→ne, ◌⊎◌,
}
use cextras.Memory.Pool.{Ptr, ptr_eq}
use cextras.Memory.Pool.Fresh.{ptr_eq→eq, ptr_eq_refl}
use cextras.Collection.RadixTree
use cextras.Collection.RadixTree.{RadixTree}
use cextras.Collection.RadixTree.Lookup.{IsTree, lookup, get-lookup}
use cextras.Collection.RcRadixTree.{Object, RcRadixTree, assign, set_rc}
use cextras.Collection.RcRadixTree.Inv.{object_at, view, IsCounted}

-- A key is there with a leaf, or it is not there.
pub get-cases :
    {t : RadixTree} {d : ℕ} (key : ℕ)
    → IsTree t d
    → (RadixTree.get t key ≡ some none) ⊎ ((p : Ptr) × (RadixTree.get t key ≡ some (some p)))
get-cases {t} {d} key v = elim (Option-cases (lookup d t key)) [
  | inl e ↦ inl (get-lookup key v ∙ ap some e)
  | inr (p, e) ↦ inr (p, get-lookup key v ∙ ap some e)
]

module _ {A : Type 0} where
  -- A write at `p` does not show in an object that is elsewhere.
  pub object_at-assign :
      (m : Ptr → Object A) (p : Ptr) (x : Object A) (o : Option (Option Ptr))
      → ((q : Ptr) → o ≡ some (some q) → ptr_eq q p ≡ false)
      → object_at (assign m p x) o ≡ object_at m o
  object_at-assign m p x none h = refl
  object_at-assign m p x (some none) h = refl
  object_at-assign m p x (some (some q)) h = rw (h q refl)

  module _ {t : RcRadixTree A} {d : ℕ} {held : Ptr → Bool} {recycled : List Ptr}
      (v : IsCounted t d held recycled) (key : ℕ) (p : Ptr)
      (has : RadixTree.get t.values key ≡ some (some p)) where
    pub elsewhere :
        (k : ℕ)
        → k ≢ key
        → (q : Ptr) → RadixTree.get t.values k ≡ some (some q)
        → ptr_eq q p ≡ false
    elsewhere k ne q e = elim (Bool-cases (ptr_eq q p)) [
      | inl same ↦ absurd (ne (v.apart k key p (rw (ptr_eq→eq q p same) at e) has))
      | inr other ↦ other
    ]

    pub view-set_rc :
        (n j : ℕ)
        → view (set_rc t p n) j
          ≡ (if j == key then some (record (t.objects p) { rc = n }) else view t j)
    view-set_rc n j = elim (Bool-cases (j == key)) [
      | inl e ↦ rw (e, ==→eq j key e, has, ptr_eq_refl p)
      | inr ne ↦ rw ne (
          object_at-assign t.objects p (record (t.objects p) { rc = n }) (RadixTree.get t.values j)
            (elsewhere j (not-==→ne j key ne)))
    ]

    pub set_rc-IsCounted : (n : ℕ) → 0 < n → IsCounted (set_rc t p n) d held recycled
    set_rc-IsCounted n pos = record {
      tree = v.tree;
      pool = v.pool;
      owned = v.owned;
      apart = v.apart;
      positive = λ k q e. elim (Bool-cases (ptr_eq q p)) [
        | inl same ↦ rw same pos
        | inr other ↦ rw other (v.positive k q e)
      ];
    }
