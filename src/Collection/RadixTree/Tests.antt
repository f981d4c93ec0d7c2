-- ===== src/Collection/RadixTree/Tests.antt =====
-- The radix tree at concrete inputs.
use cextras.Base.{
  sym, ◌∙◌, Bool-cases, inl, inr, ◌%◌, ◌==◌, ◌≢◌, ap, ltb, if◌then◌else◌, ℕ, ◌≡◌, refl, true, none,
  some, arith,
}
use cextras.Memory.Pool
use cextras.Memory.Pool.{Ptr, ptr, Allocator, Pool}
use cextras.Memory.Pool.Failure.{zeroed-IsValid}
use cextras.Memory.Pool.Supply.{Supplies, IsValid-Supplies}
use cextras.Collection.RadixTree.{
  leaf, branch, no_children, update, RadixTree, empty_tree, prepare_key, walk, get, new_leaf,
  delete,
}
use cextras.Collection.RadixTree.Nodes.{Shape-update}
use cextras.Collection.RadixTree.Keys.{cap_of}
use cextras.Collection.RadixTree.Lookup.{IsTree, leaf_at, by_bytes, get-by_bytes}
use cextras.Collection.RadixTree.Insert.{Inserted, new_leaf-Inserted, new_leaf-occupied}
use cextras.Collection.RadixTree.Delete.{Deleted, delete-Deleted, delete-alias}

abbrev good : Allocator
good = record { realloc_ok = λ n. true; calloc_ok = λ n. true }

abbrev leaf_pool : Pool
leaf_pool = Pool.zeroed 8 16

-- One level, with a leaf for key 5.
abbrev five : RadixTree
five = record (empty_tree 16) {
  capacity = 255;
  root = branch (update no_children 5 (leaf (ptr 9 0)));
}

branch_supply : Supplies 16 good (Pool.zeroed 8 2048)
branch_supply =
    IsValid-Supplies 16 (record { realloc = λ n. refl; calloc = λ n. refl })
      (zeroed-IsValid 8 2048 (omega arith) (omega arith) (omega arith)) (omega arith)

first_leaf : (Pool.get good leaf_pool).0 ≡ some (ptr 1 0)
unfolding Pool.get
first_leaf = refl

five-IsTree : IsTree five 1
five-IsTree = record {
  depth = omega arith;
  capacity = refl;
  shape = λ i. Shape-update 0 no_children 5 (leaf (ptr 9 0)) (λ j. tt) tt i;
  rooted = λ e. cc;
}

five_at :
    (get five 5 ≡ some (some (ptr 9 0))) × (get five 6 ≡ some none) × (get five 261 ≡ some none)
unfolding get prepare_key walk
five_at = (refl, refl, refl)

prepared : prepare_key (cap_of 3) 0x010203 ≡ 0x030201
unfolding prepare_key
prepared = refl

get-by_bytes_example :
    get five 5 ≡ some (if ltb (cap_of 1) 5 then none else leaf_at (by_bytes 1 five.root 5))
get-by_bytes_example = get-by_bytes 5 five-IsTree

-- No other key has the leaf.
five_only : (k : ℕ) → get five k ≡ some (some (ptr 9 0)) → k ≡ 5
five_only k e =
    let leads = sym (get-by_bytes k five-IsTree) ∙ e in
    elim (Bool-cases (ltb (cap_of 1) k)) [
      | inl above ↦ absurd (cc (rw above at leads))
      | inr fits ↦ elim (Bool-cases (k % 256 == 5)) [
        | inl here ↦ ground (arith, here, fits)
        | inr away ↦ absurd (cc (rw (fits, away) at leads))
      ]
    ]

new_leaf-Inserted_example :
    (d' : ℕ) × (t' : RadixTree) × (new_leaf good five 70000 ≡ some (some (ptr 1 0), t'))
    × Inserted good five 70000 (ptr 1 0) t' d'
unfolding get
new_leaf-Inserted_example =
    new_leaf-Inserted 70000 five-IsTree (omega arith) refl branch_supply first_leaf

new_leaf-occupied_example :
    (d' : ℕ) × (t' : RadixTree) × (new_leaf good five 5 ≡ some (none, t'))
    × Inserted good five 5 (ptr 1 0) t' d'
    × ((k : ℕ) → get t' k ≢ some (some (ptr 9 0)))
new_leaf-occupied_example =
    new_leaf-occupied 5 five-IsTree (omega arith) (five_at.0) five_only branch_supply first_leaf
      (λ e. absurd (omega (arith, ap (λ q. q.chunk) e)))

delete-Deleted_example :
    (t' : RadixTree) × (delete five 5 ≡ some (true, t')) × Deleted five 5 (ptr 9 0) t' 1
delete-Deleted_example = delete-Deleted 5 five-IsTree (five_at.0)

delete-alias_example :
    (get five 261 ≡ some none)
    × ((t' : RadixTree) × (delete five 261 ≡ some (true, t')) × Deleted five 5 (ptr 9 0) t' 1)
delete-alias_example = delete-alias 5 1 five-IsTree (five_at.0) (omega arith) (omega arith)
