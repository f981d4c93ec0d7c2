-- ===== src/Collection/RadixTree/Delete.antt =====
-- cx_radix_tree_delete as an operation on the tree's map.
use cextras.Base.{
  ℕ, zero, suc, ◌+◌, ◌*◌, ◌/◌, ◌%◌, ◌≤◌, ◌<◌, ◌≡◌, refl, ◌≢◌, ◌∙◌, ap, sym, arith, Bool, true,
  false, none, some, ◌==◌, ltb, if◌then◌else◌, Bool-cases, inl, inr, lt→ltb, not-ltb→le, ==→eq,
  word, word,
}
use cextras.Memory.Pool
use cextras.Memory.Pool.{Ptr, Pool}
use cextras.Collection.RadixTree.{
  Node, null, leaf, branch, update, RadixTree, is_node, prepare_key, cut, delete, get,
}
use cextras.Collection.RadixTree.Keys.{
  cap_of, cap_of_ne_zero, cap_of_shift, reversed, prepare_key-le, prepare_key-injective,
  prepare_key-reversed,
}
use cextras.Collection.RadixTree.Nodes.{Shape, find, find-null, update_self, Shape-update}
use cextras.Collection.RadixTree.Lookup.{
  IsTree, leaf_at, as_leaf-leaf_at, lookup, get-lookup, get→lookup,
}

-- Whether the path to `q` is there, down to the place of the leaf.
abbrev reached : ℕ → Node → ℕ → Bool
reached zero n q = true
reached (suc d) null q = false
reached (suc d) (leaf p) q = false
reached (suc d) (branch c) q = reached d (c (q % 256)) (q / 256)

-- The tree with nothing at `q`.
abbrev erase : ℕ → Node → ℕ → Node
erase zero n q = null
erase (suc d) null q = null
erase (suc d) (leaf p) q = leaf p
erase (suc d) (branch c) q = branch (update c (q % 256) (erase d (c (q % 256)) (q / 256)))

find-erase_self : (d : ℕ) (n : Node) (q : ℕ) → find d (erase d n q) q ≡ null
find-erase_self zero n q = refl
find-erase_self (suc d) null q = find-null d (q / 256)
find-erase_self (suc d) (leaf p) q = find-null d (q / 256)
find-erase_self (suc d) (branch c) q =
    rw (update_self c (q % 256) (erase d (c (q % 256)) (q / 256)))
      (find-erase_self d (c (q % 256)) (q / 256))

find-erase_ne :
    (d : ℕ) (n : Node) (q r : ℕ)
    → q ≤ cap_of d
    → r ≤ cap_of d
    → q ≢ r
    → find d (erase d n q) r ≡ find d n r
find-erase_ne zero n q r hq hr ne = absurd (ne (omega arith))
find-erase_ne (suc d) null q r hq hr ne = refl
find-erase_ne (suc d) (leaf p) q r hq hr ne = refl
find-erase_ne (suc d) (branch c) q r hq hr ne = elim (Bool-cases (r % 256 == q % 256)) [
  | inl e ↦
      rw (e, ==→eq _ _ e)
        (find-erase_ne d (c (q % 256)) (q / 256) (r / 256) (omega arith) (omega arith)
          (λ h. ne (omega (arith, ==→eq (r % 256) (q % 256) e))))
  | inr e ↦ rw e
]

Shape-erase : (d : ℕ) (n : Node) (q : ℕ) → Shape d n → Shape d (erase d n q)
Shape-erase zero n q s = tt
Shape-erase (suc d) null q s = tt
Shape-erase (suc d) (leaf p) q s = s
Shape-erase (suc d) (branch c) q s =
    Shape-update d c (q % 256) (erase d (c (q % 256)) (q / 256)) s
      (Shape-erase d (c (q % 256)) (q / 256) (s (q % 256)))

erase-rooted :
    (d : ℕ) (n : Node) (q : ℕ) → (is_node n ≡ false → d ≡ 0) → is_node (erase d n q) ≡ false → d ≡ 0
erase-rooted zero n q h e = refl
erase-rooted (suc d) null q h e = h refl
erase-rooted (suc d) (leaf p) q h e = cc
erase-rooted (suc d) (branch c) q h e = cc

-- A leaf is found only where its path is there.
reached-of_find : (d : ℕ) (n : Node) (q : ℕ) → reached d n q ≡ false → find d n q ≡ null
reached-of_find zero n q r = cc
reached-of_find (suc d) null q r = find-null d (q / 256)
reached-of_find (suc d) (leaf p) q r = find-null d (q / 256)
reached-of_find (suc d) (branch c) q r = reached-of_find d (c (q % 256)) (q / 256) r

-- Fuel above the depth is enough.
cut-erase :
    (f d q : ℕ) (n : Node)
    → d < f
    → Shape d n
    → cut f (cap_of d) q n ≡ some (reached d n q, leaf_at (find d n q), erase d n q)
unfolding cut
cut-erase zero d q n h s = absurd (omega arith)
cut-erase (suc f) zero q n h s = rw (as_leaf-leaf_at n s)
cut-erase (suc f) (suc d) q null h s = rw (cap_of_ne_zero d, find-null d (q / 256))
cut-erase (suc f) (suc d) q (leaf p) h s = absurd s
cut-erase (suc f) (suc d) q (branch c) h s = rw (
  cap_of_ne_zero d,
  cap_of_shift d,
  cut-erase f d (q / 256) (c (q % 256)) (omega arith) (s (q % 256)),
)

-- The tree with nothing for `key`.
abbrev erased : RadixTree → ℕ → ℕ → Pool → RadixTree
erased t d key ls = record t { root = erase d t.root (prepare_key (cap_of d) key); leaf_pool = ls }

erased-IsTree :
    {t : RadixTree} {d : ℕ} (key : ℕ) (ls : Pool) → IsTree t d → IsTree (erased t d key ls) d
erased-IsTree {t} {d} key ls v = record {
  depth = v.depth;
  capacity = v.capacity;
  shape = Shape-erase d t.root (prepare_key (cap_of d) key) v.shape;
  rooted = erase-rooted d t.root (prepare_key (cap_of d) key) v.rooted;
}

module _ {t : RadixTree} {d : ℕ} (v : IsTree t d) (key : ℕ) (ls : Pool) where
  lookup-erased_self : lookup d (erased t d key ls) key ≡ none
  lookup-erased_self =
      rw (find-erase_self d t.root (prepare_key (cap_of d) key))
        (elim (Bool-cases (ltb (cap_of d) key)) [ inl e ↦ rw e | inr e ↦ rw e ])

  lookup-erased_ne :
      key ≤ cap_of d → (k : ℕ) → k ≢ key → lookup d (erased t d key ls) k ≡ lookup d t k
  lookup-erased_ne fits k ne = elim (Bool-cases (ltb (cap_of d) k)) [
    | inl above ↦ rw above
    | inr below ↦ rw (
      below,
      find-erase_ne d t.root (prepare_key (cap_of d) key) (prepare_key (cap_of d) k)
          (prepare_key-le d v.depth key) (prepare_key-le d v.depth k)
          (λ q. ne (sym (prepare_key-injective d v.depth key k fits (not-ltb→le _ _ below) q))),
    )
  ]

  delete-erased : delete t key ≡ (
      let n = find d t.root (prepare_key (cap_of d) key) in
      let b = reached d t.root (prepare_key (cap_of d) key) in
      some (b, erased t d key (if b then Pool.recycle t.leaf_pool (leaf_at n) else t.leaf_pool)))
  unfolding delete
  delete-erased = rw (
    v.capacity,
    cut-erase 9 d (prepare_key (cap_of d) key) t.root (omega (arith, v.depth)) v.shape,
  )

reached-of_leaf_at :
    (d : ℕ) (n : Node) (q : ℕ) (p : Ptr) → leaf_at (find d n q) ≡ some p → reached d n q ≡ true
reached-of_leaf_at d n q p e = elim (Bool-cases (reached d n q)) [
  | inl r ↦ r
  | inr r ↦ absurd (ground (arith, reached-of_find d n q r))
]

fits-of_lookup :
    (d : ℕ) (t : RadixTree) (key : ℕ) (p : Ptr)
    → lookup d t key ≡ some p
    → (ltb (cap_of d) key ≡ false) × (leaf_at (find d t.root (prepare_key (cap_of d) key)) ≡ some p)
fits-of_lookup d t key p e = elim (Bool-cases (ltb (cap_of d) key)) [
  | inl above ↦ absurd (ground arith)
  | inr below ↦ (below, rw below at e)
]

-- The tree `t'` has nothing for `key` and maps every other key as `t` does; the leaf `p` is back in
-- the leaf pool.
pub record Deleted (t : RadixTree) (key : ℕ) (p : Ptr) (t' : RadixTree) (d : ℕ) : Type 0 where
  pub tree : IsTree t' d
  pub gone : get t' key ≡ some none
  pub others : (k : ℕ) → k ≢ key → get t' k ≡ get t k
  pub recycled : t'.leaf_pool ≡ Pool.recycle t.leaf_pool (some p)

-- cx_radix_tree_delete of a key that a valid tree has returns 0, ends within its nine rounds, and takes
-- that key and no other out of the map; the key's leaf is recycled.
pub delete-Deleted :
    {t : RadixTree} {d : ℕ} {p : Ptr} (key : ℕ)
    → IsTree t d
    → get t key ≡ some (some p)
    → (t' : RadixTree) × (delete t key ≡ some (true, t')) × Deleted t key p t' d
delete-Deleted {t} {d} {p} key v has =
    let (below, here) = fits-of_lookup d t key p (get→lookup key v has) in
    let ls = Pool.recycle t.leaf_pool (some p) in
    let w = erased-IsTree key ls v in
    (
      erased t d key ls,
      rw (delete-erased v key ls, reached-of_leaf_at d t.root _ p here, here),
      record {
        tree = w;
        gone = get-lookup key w ∙ ap some (lookup-erased_self v key ls);
        others = λ k ne.
            get-lookup k w
            ∙ ap some (lookup-erased_ne v key ls (not-ltb→le _ _ below) k ne)
            ∙ sym (get-lookup k v);
        recycled = refl;
      },
    )

reversed-cycle : (d k m a : ℕ) → reversed d (k + m * (cap_of d + 1)) a ≡ reversed d k a
reversed-cycle zero k m a = refl
reversed-cycle (suc d) k m a =
    let regroup : k + m * (cap_of (suc d) + 1) ≡ k + 256 * (m * (cap_of d + 1)) = omega arith in
    let low : (k + m * (cap_of (suc d) + 1)) % 256 ≡ k % 256 = omega (arith, regroup) in
    let high : (k + m * (cap_of (suc d) + 1)) / 256 ≡ k / 256 + m * (cap_of d + 1) =
      omega (arith, regroup) in
    rw (low, high) (reversed-cycle d (k / 256) m (a * 256 + k % 256))

prepare_key-cycle :
    (d k m : ℕ) → d ≤ 8 → prepare_key (cap_of d) (k + m * (cap_of d + 1)) ≡ prepare_key (cap_of d) k
prepare_key-cycle d k m h =
    prepare_key-reversed d h (k + m * (cap_of d + 1))
    ∙ reversed-cycle d k m 0
    ∙ sym (prepare_key-reversed d h k)

delete-prepared :
    (t : RadixTree) (k l : ℕ)
    → prepare_key t.capacity k ≡ prepare_key t.capacity l
    → delete t k ≡ delete t l
unfolding delete
delete-prepared t k l e = rw e

-- cx_radix_tree_delete does not compare the key with the capacity: in a valid tree, for a key
-- beyond the capacity, which the tree does not have, it deletes the key that agrees with it in the tree's low bytes.
pub delete-alias :
    {t : RadixTree} {d : ℕ} {p : Ptr} (key m : ℕ)
    → IsTree t d
    → get t key ≡ some (some p)
    → 0 < m
    → key + m * (t.capacity + 1) < word
    → (get t (key + m * (t.capacity + 1)) ≡ some none)
      × ((t' : RadixTree) × (delete t (key + m * (t.capacity + 1)) ≡ some (true, t'))
          × Deleted t key p t' d)
delete-alias {t} {d} key m v has pos small =
    let above : cap_of d < key + m * (cap_of d + 1) = grind arith in
    let (t', r, out) = delete-Deleted key v has in
    (
      get-lookup (key + m * (t.capacity + 1)) v ∙ rw (v.capacity, lt→ltb _ _ above),
      (
        t',
        delete-prepared t (key + m * (t.capacity + 1)) key
              (rw (v.capacity) (prepare_key-cycle d key m v.depth))
            ∙ r,
        out,
      ),
    )
