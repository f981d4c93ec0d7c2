-- ===== src/Collection/RcRadixTree/Inv.antt =====
-- The map of counted elements that a reference-counted radix tree stands for, and its invariant.
use cextras.Base.{
  ℕ, ◌+◌, ◌*◌, ◌<◌, ◌≡◌, ◌∙◌, ap, Bool, true, false, Option, none, some, List, [], arith, word, ltb,
  leb, refl, Bool-cases, inl, inr,
}
use cextras.Memory.Pool.{Ptr, Allocator}
use cextras.Memory.Pool.Inv.{Succeeds, IsValid}
use cextras.Memory.Pool.Failure.{zeroed-IsValid}
use cextras.Memory.Pool.Supply.{Supplies}
use cextras.Collection.RadixTree
use cextras.Collection.RadixTree.{RadixTree}
use cextras.Collection.RadixTree.Lookup.{IsTree, empty_tree-IsTree, get-lookup}
use cextras.Collection.RcRadixTree.{Object, RcRadixTree, init, no_keys}

module _ {A : Type 0} where
  abbrev pub object_at : (Ptr → Object A) → Option (Option Ptr) → Option (Object A)
  object_at m none = none
  object_at m (some none) = none
  object_at m (some (some p)) = some (m p)

  -- The object that the tree has for a key.
  abbrev pub view : RcRadixTree A → ℕ → Option (Object A)
  view t key = object_at t.objects (RadixTree.get t.values key)

  -- Leaves are elements of the leaf pool that the tree holds, no two keys share one, and every
  -- object that the tree has is counted at least once.
  pub record IsCounted (t : RcRadixTree A) (d : ℕ) (held : Ptr → Bool) (recycled : List Ptr)
      : Type 0 where
    pub tree : IsTree t.values d
    pub pool : IsValid t.values.leaf_pool held recycled
    pub owned : (k : ℕ) (p : Ptr) → RadixTree.get t.values k ≡ some (some p) → held p ≡ true
    pub apart :
        (k l : ℕ) (p : Ptr)
        → RadixTree.get t.values k ≡ some (some p)
        → RadixTree.get t.values l ≡ some (some p)
        → k ≡ l
    pub positive :
        (k : ℕ) (p : Ptr) → RadixTree.get t.values k ≡ some (some p) → 0 < (t.objects p).rc

  -- What an operation that may add a key needs of the allocator and the pools.
  pub record HasRoom (h : Allocator) (t : RcRadixTree A) : Type 0 where
    pub succeeds : Succeeds h
    pub leaves : t.values.leaf_pool.chunk_size * 2 < word
    pub branches : Supplies 16 h t.values.branch_pool

  nothing_at : (m : Ptr → Object A) (n k : ℕ) → RadixTree.get (RadixTree.empty_tree n) k ≡ some none
  nothing_at m n k =
      get-lookup k (empty_tree-IsTree n)
      ∙ ap some (elim (Bool-cases (ltb 0 k)) [ inl e ↦ rw e | inr e ↦ rw e ])

  -- cx_rc_radix_tree_init gives a valid tree, if the chunks of its leaf pool fit a `size_t`. It has
  -- no key.
  pub init-IsCounted :
      (element_size : ℕ) (memory : Ptr → Object A)
      → 8 * (8 + element_size) < word
      → (init element_size memory ≡ some (no_keys element_size memory))
        × IsCounted (no_keys element_size memory) 0 (λ e. false) []
        × ((k : ℕ) → view (no_keys element_size memory) k ≡ none)
  init-IsCounted n m small =
      let absent =
        λ (k : ℕ) (p : Ptr) (e : RadixTree.get (RadixTree.empty_tree (8 + n)) k ≡ some (some p)).
          absurd {A = ⊥} (cc (nothing_at m (8 + n) k)) in
      let room : leb 8 (8 + n) ≡ true = ground arith in
      (
        rw room refl,
        record {
          tree = empty_tree-IsTree (8 + n);
          pool = zeroed-IsValid 8 (8 + n) (omega arith) (omega arith) small;
          owned = λ k p e. absurd (absent k p e);
          apart = λ k l p e f. absurd (absent k p e);
          positive = λ k p e. absurd (absent k p e);
        },
        λ k. ap (object_at m) (nothing_at m (8 + n) k),
      )
