-- ===== src/Collection/RadixTree/Lookup.antt =====
-- The invariant of a radix tree, and cx_radix_tree_get under it.
use cextras.Base.{
  ℕ, zero, suc, ◌/◌, ◌%◌, ◌≤◌, ◌<◌, ◌≡◌, refl, ap, ◌∙◌, arith, false, Option, none, some, ltb,
  Bool-cases, if◌then◌else◌, inl, inr,
}
use cextras.Memory.Pool.{Ptr}
use cextras.Collection.RadixTree.{
  Node, null, leaf, branch, RadixTree, empty_tree, is_node, as_leaf, prepare_key, walk, get,
}
use cextras.Collection.RadixTree.Keys.{
  cap_of, reversed, reversed-top, byte_at, byte_at-lt, prepare_key-reversed, cap_of_ne_zero,
  cap_of_shift,
}
use cextras.Collection.RadixTree.Nodes.{Shape, children, find, find-null, Shape-children}

-- A tree of `d` levels: its capacity is that of `d` bytes, all its leaves are `d` levels down, and
-- only a tree of no levels may have no root.
pub record IsTree (t : RadixTree) (d : ℕ) : Type 0 where
  pub depth : d ≤ 8
  pub capacity : t.capacity ≡ cap_of d
  pub shape : Shape d t.root
  pub rooted : is_node t.root ≡ false → d ≡ 0

abbrev pub leaf_at : Node → Option Ptr
leaf_at null = none
leaf_at (leaf p) = some p
leaf_at (branch c) = none

-- The map that a tree of depth `d` stands for.
abbrev pub lookup : ℕ → RadixTree → ℕ → Option Ptr
lookup d t key =
    if ltb (cap_of d) key then none else leaf_at (find d t.root (prepare_key (cap_of d) key))

pub as_leaf-leaf_at : (n : Node) → Shape zero n → as_leaf n ≡ some (leaf_at n)
as_leaf-leaf_at null s = refl
as_leaf-leaf_at (leaf p) s = refl
as_leaf-leaf_at (branch c) s = absurd s

pub Shape-find : (d : ℕ) (n : Node) (q : ℕ) → Shape d n → Shape zero (find d n q)
Shape-find zero n q s = s
Shape-find (suc d) n q s = Shape-find d _ (q / 256) (Shape-children d n s (q % 256))

-- Fuel above the depth is enough, and a null node ends the loop with the same result.
walk-find : (f d q : ℕ) (n : Node) → d < f → Shape d n → walk f (cap_of d) q n ≡ some (find d n q)
unfolding walk
walk-find zero d q n h s = absurd (omega arith)
walk-find (suc f) zero q n h s = refl
walk-find (suc f) (suc d) q null h s = rw (cap_of_ne_zero d, find-null d (q / 256))
walk-find (suc f) (suc d) q (leaf p) h s = absurd s
walk-find (suc f) (suc d) q (branch c) h s =
    rw (cap_of_ne_zero d, cap_of_shift d)
      (walk-find f d (q / 256) (c (q % 256)) (omega arith) (s (q % 256)))

-- A new tree is a valid tree of no levels.
pub empty_tree-IsTree : (element_size : ℕ) → IsTree (empty_tree element_size) 0
empty_tree-IsTree n = record {
  depth = omega arith;
  capacity = refl;
  shape = tt;
  rooted = λ e. refl;
}

-- On a valid tree cx_radix_tree_get ends within its nine rounds, reads no leaf as a branch and no
-- branch as a leaf, and returns what the tree's map has at the key.
pub get-lookup : {t : RadixTree} {d : ℕ} (key : ℕ) → IsTree t d → get t key ≡ some (lookup d t key)
unfolding get
get-lookup {t} {d} key v = elim (Bool-cases (ltb (cap_of d) key)) [
  | inl above ↦ rw (v.capacity, above)
  | inr fits ↦ rw (
    v.capacity,
    fits,
    walk-find 9 d (prepare_key (cap_of d) key) t.root (omega (arith, v.depth)) v.shape,
    as_leaf-leaf_at _ (Shape-find d t.root (prepare_key (cap_of d) key) v.shape),
  )
]

-- The node below `n` that the `d` lowest bytes of `key` lead to, the highest of them first.
abbrev pub by_bytes : ℕ → Node → ℕ → Node
by_bytes zero n key = n
by_bytes (suc d) n key = by_bytes d (children n (byte_at d key)) key

find-by_bytes : (d : ℕ) (n : Node) (key : ℕ) → find d n (reversed d key 0) ≡ by_bytes d n key
find-by_bytes zero n key = refl
find-by_bytes (suc d) n key =
    let low : reversed (suc d) key 0 % 256 ≡ byte_at d key =
      omega (arith, reversed-top d key 0, byte_at-lt d key) in
    let high : reversed (suc d) key 0 / 256 ≡ reversed d key 0 =
      omega (arith, reversed-top d key 0, byte_at-lt d key) in
    ap (λ i. find d (children n i) (reversed (suc d) key 0 / 256)) low
    ∙ (ap (find d (children n (byte_at d key))) high
        ∙ find-by_bytes d (children n (byte_at d key)) key)

-- On a valid tree of `d` levels cx_radix_tree_get ends within its nine rounds and reads no leaf as a
-- branch and no branch as a leaf. Of a key that needs more than `d` bytes it returns NULL, and of any
-- other the leaf to which the bytes of the key lead, from the highest to the lowest, or NULL where
-- there is none.
pub get-by_bytes :
    {t : RadixTree} {d : ℕ} (key : ℕ)
    → IsTree t d
    → get t key ≡ some (if ltb (cap_of d) key then none else leaf_at (by_bytes d t.root key))
get-by_bytes {t} {d} key v =
    get-lookup key v
    ∙ ap (λ n. some (if ltb (cap_of d) key then none else leaf_at n))
        (ap (find d t.root) (prepare_key-reversed d v.depth key) ∙ find-by_bytes d t.root key)

pub get→lookup :
    {t : RadixTree} {d : ℕ} {r : Option Ptr} (key : ℕ)
    → IsTree t d
    → get t key ≡ some r
    → lookup d t key ≡ r
get→lookup key v g = cc (get-lookup key v)
