-- ===== src/Collection/RadixTree.antt =====
-- lib/collection/radix_tree.c: a map from 64-bit keys to leaves, eight bits of the key to a level.
--
-- A `void *` node is a data type. A branch is told from a leaf by its depth in C, so a function
-- answers `none` where the code would read a leaf as a branch, a branch as a leaf, or a null pointer.
-- Leaves are addresses in the leaf pool; a branch is never recycled, so its address is left out and
-- a new one, which `calloc` has zeroed, has null children. Each `while` shifts a 64-bit capacity by
-- eight bits a round: eight rounds, and one more for the test that ends a descent, are enough
-- (Shape, Descend and Resize show that more fuel changes nothing).
pub mod Keys
pub mod Nodes
pub mod Lookup
pub mod Descend
pub mod Resize
pub mod Insert
pub mod Delete
mod Tests
use cextras.Base.{
  List, ℕ, zero, suc, ◌+◌, ◌*◌, ◌/◌, ◌%◌, Bool, true, false, Option, none, some, ltb, ◌==◌,
  if◌then◌else◌, word,
}
use cextras.Memory.Pool
use cextras.Memory.Pool.{Ptr, Allocator, Pool, Freed}

pub data Node : Type 0 where
  null : Node
  leaf : Ptr → Node
  branch : (ℕ → Node) → Node

pub record RadixTree : Type 0 where
  pub capacity : ℕ
  pub branch_pool : Pool
  pub leaf_pool : Pool
  pub root : Node

infixl 5 ◌>>=◌
abbrev pub ◌>>=◌ {ℓ κ} : {A : Type ℓ} {B : Type κ} → Option A → (A → Option B) → Option B
none >>= f = none
some a >>= f = f a

abbrev pub no_children : ℕ → Node
no_children i = null

-- `children[index] = node`
abbrev pub update : (ℕ → Node) → ℕ → Node → ℕ → Node
update c i n j = if j == i then n else c j

abbrev pub is_node : Node → Bool
is_node null = false
is_node (leaf p) = true
is_node (branch c) = true

-- A node that is returned as a leaf.
abbrev pub as_leaf : Node → Option (Option Ptr)
as_leaf null = some none
as_leaf (leaf p) = some (some p)
as_leaf (branch c) = none

-- What the pools return, stored as a node.
abbrev pub leaf_of : Option Ptr → Node
leaf_of none = null
leaf_of (some p) = leaf p

abbrev pub branch_of : Option Ptr → Node
branch_of none = null
branch_of (some p) = branch no_children

abbrev pub with_pools : Pool → Pool → RadixTree
with_pools branch_pool leaf_pool = record {
  capacity = 0;
  branch_pool = branch_pool;
  leaf_pool = leaf_pool;
  root = null;
}

-- cx_radix_tree_init; a branch is an array of 256 pointers of eight bytes.
abbrev pub init : ℕ → Option RadixTree
init element_size = Pool.init (256 * 8) >>= λ branch_pool.
    Pool.init element_size >>= λ leaf_pool. some (with_pools branch_pool leaf_pool)

-- What it makes, if the elements have room for a pointer.
abbrev pub empty_tree : ℕ → RadixTree
empty_tree element_size = with_pools (Pool.zeroed 8 (256 * 8)) (Pool.zeroed 8 element_size)

-- The loop of prepare_key. `result <<= 8` leaves the low byte clear, so `|=` adds the next one.
prepare : ℕ → (capacity key result : ℕ) → ℕ
prepare zero capacity key result = result
prepare (suc f) capacity key result =
    let rest = prepare f (capacity / 256) (key / 256) ((result * 256) % word + key % 256) in
    if capacity == 0 then result else rest

pub prepare_key : ℕ → ℕ → ℕ
unfolding prepare
prepare_key capacity key = prepare 8 capacity key 0

-- `(capacity << CX_RADIX) | CX_RADIX_MASK`
abbrev pub widen : ℕ → ℕ
widen capacity = (capacity * 256) % word + 255

-- The loop of resize; false stands for -1. The capacity is raised before the branch is asked for.
pub resize : ℕ → Allocator → RadixTree → ℕ → Bool × RadixTree
resize zero h t key = (true, t)
resize (suc f) h t key =
    let (r, pool) = Pool.get h t.branch_pool in
    let t' = record t { capacity = widen t.capacity; branch_pool = pool } in
    let rest = resize f h (record t' { root = branch (update no_children 0 t.root) }) key in
    if ltb t.capacity key then elim r [ none ↦ (false, t') | some p ↦ rest ] else (true, t)

-- The loop of cx_radix_tree_get.
pub walk : ℕ → (capacity key : ℕ) → Node → Option Node
walk zero capacity key node = none
walk (suc f) capacity key node =
    let down = elim node as (λ n. Option Node) [
      | null ↦ some null
      | leaf p ↦ none
      | branch c ↦ walk f (capacity / 256) (key / 256) (c (key % 256))
    ] in
    if capacity == 0 then some node else down

-- cx_radix_tree_get
pub get : RadixTree → ℕ → Option (Option Ptr)
get t key =
    if ltb t.capacity key
    then some none
    else walk 9 t.capacity (prepare_key t.capacity key) t.root >>= as_leaf

-- The variables of the loop of cx_radix_tree_new_leaf after it: the tree below the node that it
-- began with, `node` as a leaf, `occupied`, and the pools.
pub record Descent : Type 0 where
  pub below : Node
  pub found : Option Ptr
  pub occupied : Bool
  pub branch_pool : Pool
  pub leaf_pool : Pool

-- The assignment to `children[index]` in a round: the child, and the pools.
pub next_child : Allocator → (remaining : ℕ) → Node → Pool → Pool → Node × Pool × Pool
next_child h remaining child bs ls =
    let (l, ls') = Pool.get h ls in
    let (b, bs') = Pool.get h bs in
    if remaining == 0
    then (leaf_of l, bs, ls')
    else if is_node child
    then (child, bs, ls)
    else (branch_of b, bs', ls)

pub descend : ℕ → Allocator → (capacity key : ℕ) → Bool → Node → Pool → Pool → Option Descent
descend zero h capacity key occupied node bs ls = none
descend (suc f) h capacity key occupied node bs ls =
    let stop = as_leaf node >>= (λ found. some (record {
      below = node;
      found = found;
      occupied = occupied;
      branch_pool = bs;
      leaf_pool = ls;
    })) in
    let round = elim node as (λ n. Option Descent) [
      | null ↦ none
      | leaf p ↦ none
      | branch c ↦
          let (child, bs', ls') = next_child h (capacity / 256) (c (key % 256)) bs ls in
          descend f h (capacity / 256) (key / 256) (is_node (c (key % 256))) child bs' ls'
          >>= (λ d. some (record d { below = branch (update c (key % 256) d.below) }))
    ] in
    if capacity == 0 then stop else round

-- cx_radix_tree_new_leaf after `resize` has returned 0.
pub place : Allocator → RadixTree → ℕ → Option (Option Ptr × RadixTree)
place h t key =
    let (l, ls) = Pool.get h t.leaf_pool in
    let deep =
      descend 9 h t.capacity (prepare_key t.capacity key) false t.root t.branch_pool t.leaf_pool
      >>= (λ d. some (
        if d.occupied then none else d.found,
        record t { root = d.below; branch_pool = d.branch_pool; leaf_pool = d.leaf_pool },
      )) in
    if is_node t.root then deep else some (l, record t { root = leaf_of l; leaf_pool = ls })

-- cx_radix_tree_new_leaf
pub new_leaf : Allocator → RadixTree → ℕ → Option (Option Ptr × RadixTree)
new_leaf h t key = let (ok, t') = resize 8 h t key in if ok then place h t' key else some (none, t')

-- cx_radix_tree_put, with the contents of the leaves as a function.
pub put :
    {A : Type 0}
    → Allocator
    → RadixTree
    → (Ptr → A)
    → ℕ
    → A
    → Option (Option Ptr × RadixTree × (Ptr → A))
put h t values key value = new_leaf h t key >>= λ (r, t').
    some
      (r, t', elim r [ none ↦ values | some p ↦ λ a. if Pool.ptr_eq a p then value else values a ])

-- The loop of cx_radix_tree_delete: whether it got to a leaf's place, the leaf that was there, and
-- the tree with that place null.
pub cut : ℕ → (capacity key : ℕ) → Node → Option (Bool × Option Ptr × Node)
cut zero capacity key node = none
cut (suc f) capacity key node =
    let stop = as_leaf node >>= (λ p. some (true, p, null)) in
    let round = elim node as (λ n. Option (Bool × Option Ptr × Node)) [
      | null ↦ some (false, none, null)
      | leaf p ↦ none
      | branch c ↦
          cut f (capacity / 256) (key / 256) (c (key % 256))
          >>= (λ (b, p, n). some (b, p, branch (update c (key % 256) n)))
    ] in
    if capacity == 0 then stop else round

-- cx_radix_tree_delete; true stands for 0 and false for -1.
pub delete : RadixTree → ℕ → Option (Bool × RadixTree)
delete t key = cut 9 t.capacity (prepare_key t.capacity key) t.root >>= λ (b, p, n).
    some
      (b, record t { root = n; leaf_pool = if b then Pool.recycle t.leaf_pool p else t.leaf_pool })

-- cx_radix_tree_cleanup: what it frees of both pools.
pub cleanup : RadixTree → Option (Freed × Freed)
cleanup t = Pool.cleanup t.branch_pool >>= λ bs. Pool.cleanup t.leaf_pool >>= λ ls. some (bs, ls)
