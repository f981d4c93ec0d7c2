-- ===== src/Collection/RadixTree/Descend.antt =====
-- The loop of cx_radix_tree_new_leaf stores a new leaf at the prepared key.
use cextras.Base.{ℕ, zero, suc, ◌/◌, ◌%◌, ◌<◌, ◌≡◌, arith, Bool, true, false, Option, some}
use cextras.Memory.Pool
use cextras.Memory.Pool.{Ptr, Allocator, Pool}
use cextras.Memory.Pool.Supply.{Supplies, Supplies-less}
use cextras.Collection.RadixTree.{
  Node, null, leaf, branch, no_children, update, ◌>>=◌, is_node, Descent, next_child, descend,
}
use cextras.Collection.RadixTree.Keys.{cap_of, cap_of_ne_zero, cap_of_shift}
use cextras.Collection.RadixTree.Nodes.{Shape, Shape-null, find, store}

-- The rest of a round that has read the child, up to the write of the tree below it.
pub enter : ℕ → Allocator → (remaining key : ℕ) → Node → Pool → Pool → Option Descent
enter f h remaining key child bs ls =
    let (n, bs', ls') = next_child h remaining child bs ls in
    descend f h remaining key (is_node child) n bs' ls'

abbrev pub rebuild : (ℕ → Node) → ℕ → Descent → Option Descent
rebuild c i d = some (record d { below = branch (update c i d.below) })

-- What the loop leaves when it has stored `e` at `q`.
abbrev pub Stored : ℕ → Allocator → ℕ → Node → Ptr → Pool → Pool → Descent
Stored d h q n e bs ls = record {
  below = store d n q (leaf e);
  found = some e;
  occupied = is_node (find d n q);
  branch_pool = bs;
  leaf_pool = (Pool.get h ls).1;
}

module _ (h : Allocator) where
  pub descend-enter :
      (f d q : ℕ) (occupied : Bool) (c : ℕ → Node) (bs ls : Pool)
      → descend (suc f) h (cap_of (suc d)) q occupied (branch c) bs ls
        ≡ (enter f h (cap_of d) (q / 256) (c (q % 256)) bs ls >>= rebuild c (q % 256))
  unfolding descend enter
  descend-enter f d q occupied c bs ls = rw (cap_of_ne_zero d, cap_of_shift d)

  -- Fuel above the depth is enough.
  pub enter-Stored :
      (d f q : ℕ) (n : Node) (bs ls : Pool) (e : Ptr)
      → d < f
      → Shape d n
      → Supplies d h bs
      → (Pool.get h ls).0 ≡ some e
      → (bs' : Pool) × (enter f h (cap_of d) q n bs ls ≡ some (Stored d h q n e bs' ls))
  unfolding enter next_child
  enter-Stored d zero q n bs ls e lt s sup got = absurd (omega arith)
  enter-Stored zero (suc f) q n bs ls e lt s sup got = (bs, unfold descend in rw got)
  enter-Stored (suc d) (suc f) q null bs ls e lt s sup got =
      let (bs', r) =
        enter-Stored d f (q / 256) null (Pool.get h bs).1 ls e (omega arith) (Shape-null d) sup.1
          got in
      (
        bs',
        rw (
          cap_of_ne_zero d,
          sup.0.1,
          descend-enter f d q false no_children (Pool.get h bs).1 ls,
          r,
        ),
      )
  enter-Stored (suc d) (suc f) q (leaf p) bs ls e lt s sup got = absurd s
  enter-Stored (suc d) (suc f) q (branch c) bs ls e lt s sup got =
      let (bs', r) =
        enter-Stored d f (q / 256) (c (q % 256)) bs ls e (omega arith) (s (q % 256))
          (Supplies-less (suc d) d h bs (omega arith) sup) got in
      (bs', rw (cap_of_ne_zero d, descend-enter f d q true c bs ls, r))
