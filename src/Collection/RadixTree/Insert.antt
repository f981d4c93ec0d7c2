-- ===== src/Collection/RadixTree/Insert.antt =====
-- cx_radix_tree_new_leaf as an operation on the tree's map.
use cextras.Base.{
  ℕ, zero, suc, ◌-◌, ◌/◌, ◌%◌, ◌≤◌, ◌<◌, ◌≡◌, refl, ◌≢◌, ◌∙◌, ap, sym, arith, true, false, none,
  some, ltb, ◌==◌, ==→eq, not-==→ne, if◌then◌else◌, Bool-cases, inl, inr, not-ltb→le, le→not-ltb,
  word,
}
use cextras.Memory.Pool
use cextras.Memory.Pool.{Ptr, Allocator, Pool}
use cextras.Memory.Pool.Supply.{Supplies, Supplies-less}
use cextras.Collection.RadixTree.{
  Node, null, leaf, branch, RadixTree, is_node, prepare_key, resize, descend, place, new_leaf, get,
}
use cextras.Collection.RadixTree.Keys.{cap_of, prepare_key-le, prepare_key-injective}
use cextras.Collection.RadixTree.Nodes.{
  Shape, find, store, find-store_self, find-store_ne, Shape-store,
}
use cextras.Collection.RadixTree.Lookup.{
  IsTree, leaf_at, lookup, get-lookup, get→lookup, Shape-find,
}
use cextras.Collection.RadixTree.Descend.{Stored, descend-enter, enter-Stored}
use cextras.Collection.RadixTree.Resize.{Resized, resize-Resized}

-- The tree with the leaf `e` stored for `key`.
abbrev stored : RadixTree → ℕ → ℕ → Ptr → Pool → Pool → RadixTree
stored t d key e bs ls = record t {
  root = store d t.root (prepare_key (cap_of d) key) (leaf e);
  branch_pool = bs;
  leaf_pool = ls;
}

module _ {t : RadixTree} {d : ℕ} (v : IsTree t d) (key : ℕ) (e : Ptr) (fits : key ≤ cap_of d)
    (bs ls : Pool) where
  stored-IsTree :
      is_node (store d t.root (prepare_key (cap_of d) key) (leaf e)) ≡ true
      → IsTree (stored t d key e bs ls) d
  stored-IsTree real = record {
    depth = v.depth;
    capacity = v.capacity;
    shape = Shape-store d t.root (prepare_key (cap_of d) key) (leaf e) v.shape tt;
    rooted = λ n. absurd (ground (arith, real, n));
  }

  lookup-stored_self : lookup d (stored t d key e bs ls) key ≡ some e
  lookup-stored_self = rw (
    le→not-ltb (cap_of d) key fits,
    find-store_self d t.root (prepare_key (cap_of d) key) (leaf e),
  )

  lookup-stored_ne : (k : ℕ) → k ≢ key → lookup d (stored t d key e bs ls) k ≡ lookup d t k
  lookup-stored_ne k ne = elim (Bool-cases (ltb (cap_of d) k)) [
    | inl above ↦ rw above
    | inr below ↦ rw (
      below,
      find-store_ne d t.root (prepare_key (cap_of d) key) (prepare_key (cap_of d) k) (leaf e)
          (prepare_key-le d v.depth key) (prepare_key-le d v.depth k)
          (λ q. ne (sym (prepare_key-injective d v.depth key k fits (not-ltb→le _ _ below) q))),
    )
  ]

is_node-store : (d : ℕ) (n : Node) (q : ℕ) (e : Ptr) → is_node (store d n q (leaf e)) ≡ true
is_node-store zero n q e = refl
is_node-store (suc d) n q e = refl

-- The loop, started at a root that is a branch.
descend-Stored :
    (h : Allocator) (d q : ℕ) (root : Node) (bs ls : Pool) (e : Ptr)
    → suc d ≤ 8
    → is_node root ≡ true
    → Shape (suc d) root
    → Supplies d h bs
    → (Pool.get h ls).0 ≡ some e
    → (bs' : Pool) × (descend 9 h (cap_of (suc d)) q false root bs ls
        ≡ some (Stored (suc d) h q root e bs' ls))
descend-Stored h d q null bs ls e le real s sup got = cc
descend-Stored h d q (leaf p) bs ls e le real s sup got = absurd s
descend-Stored h d q (branch c) bs ls e le real s sup got =
    let (bs', r) = enter-Stored h d 8 (q / 256) (c (q % 256)) bs ls e le (s (q % 256)) sup got in
    (bs', rw (descend-enter h 8 d q false c bs ls, r))

is_node-leaf_at : (n : Node) → Shape zero n → leaf_at n ≡ none → is_node n ≡ false
is_node-leaf_at null s e = refl
is_node-leaf_at (leaf p) s e = cc
is_node-leaf_at (branch c) s e = absurd s

module _ (h : Allocator) (t : RadixTree) (key : ℕ) (e : Ptr) where
  place-deep :
      (d : ℕ)
      → IsTree t (suc d)
      → Supplies d h t.branch_pool
      → (Pool.get h t.leaf_pool).0 ≡ some e
      → (bs : Pool) × (place h t key
          ≡ some (
            if is_node (find (suc d) t.root (prepare_key (cap_of (suc d)) key))
                then none
                else some e,
            stored t (suc d) key e bs (Pool.get h t.leaf_pool).1,
          ))
  unfolding place
  place-deep d v sup got =
      let real : is_node t.root ≡ true = elim (Bool-cases (is_node t.root)) [
        | inl r ↦ r
        | inr r ↦ absurd (omega (arith, v.rooted r))
      ] in
      let (bs, r) =
        descend-Stored h d (prepare_key (cap_of (suc d)) key) t.root t.branch_pool t.leaf_pool e
          v.depth real v.shape sup got in
      (bs, rw (real, v.capacity, r))

  -- A tree with no levels and no root.
  place-first :
      IsTree t zero
      → is_node t.root ≡ false
      → (Pool.get h t.leaf_pool).0 ≡ some e
      → place h t key ≡ some (some e, stored t zero key e t.branch_pool (Pool.get h t.leaf_pool).1)
  unfolding place
  place-first v empty got = rw (empty, got)

-- The tree `t'` maps `key` to `e` and every other key as `t` does, and the leaf pool has given one
-- element.
pub record Inserted (h : Allocator) (t : RadixTree) (key : ℕ) (e : Ptr) (t' : RadixTree) (d' : ℕ)
    : Type 0 where
  pub tree : IsTree t' d'
  pub found : get t' key ≡ some (some e)
  pub others : (k : ℕ) → k ≢ key → get t' k ≡ get t k
  pub leaves : t'.leaf_pool ≡ (Pool.get h t.leaf_pool).1

stored-Inserted :
    {h : Allocator} {t u : RadixTree} {d key d₀ : ℕ} {e : Ptr} (bs : Pool)
    → IsTree t d₀
    → Resized h t d₀ key u d
    → is_node (store d u.root (prepare_key (cap_of d) key) (leaf e)) ≡ true
    → Inserted h t key e (stored u d key e bs (Pool.get h u.leaf_pool).1) d
stored-Inserted {h} {t} {u} {d} {key} {e} bs v₀ r real =
    let w = stored-IsTree r.tree key e r.fits bs (Pool.get h u.leaf_pool).1 real in
    record {
      tree = w;
      found =
          get-lookup key w
          ∙ ap some (lookup-stored_self r.tree key e r.fits bs (Pool.get h u.leaf_pool).1);
      others = λ k ne.
          get-lookup k w
          ∙ ap some
              (lookup-stored_ne r.tree key e r.fits bs (Pool.get h u.leaf_pool).1 k ne ∙ r.same k)
          ∙ sym (get-lookup k v₀);
      leaves = ap (λ p. (Pool.get h p).1) r.leaves;
    }

empty-at :
    {t : RadixTree} (d key : ℕ)
    → IsTree t d
    → key ≤ cap_of d
    → lookup d t key ≡ none
    → is_node (find d t.root (prepare_key (cap_of d) key)) ≡ false
empty-at {t} d key v fits absent =
    is_node-leaf_at _ (Shape-find d t.root (prepare_key (cap_of d) key) v.shape)
      (rw (le→not-ltb (cap_of d) key fits) at absent)

place-Inserted :
    {h : Allocator} {t u : RadixTree} {key d₀ : ℕ} {e : Ptr} (d : ℕ)
    → IsTree t d₀
    → Resized h t d₀ key u d
    → lookup d u key ≡ none
    → Supplies 8 h u.branch_pool
    → (Pool.get h u.leaf_pool).0 ≡ some e
    → (t' : RadixTree) × (place h u key ≡ some (some e, t')) × Inserted h t key e t' d
place-Inserted {h} {u} {key} {e} zero v₀ r absent sup got =
    let bs = u.branch_pool in
    (
      stored u zero key e bs (Pool.get h u.leaf_pool).1,
      place-first h u key e r.tree (empty-at zero key r.tree r.fits absent) got,
      stored-Inserted bs v₀ r refl,
    )
place-Inserted {h} {u} {key} {e} (suc d) v₀ r absent sup got =
    let (bs, p) =
      place-deep h u key e d r.tree
        (Supplies-less 8 d h u.branch_pool (omega (arith, r.tree.depth)) sup) got in
    (
      stored u (suc d) key e bs (Pool.get h u.leaf_pool).1,
      rw (empty-at (suc d) key r.tree r.fits absent) at p,
      stored-Inserted bs v₀ r refl,
    )

new_leaf-place :
    (h : Allocator) (t u : RadixTree) (key : ℕ)
    → resize 8 h t key ≡ (true, u)
    → new_leaf h t key ≡ place h u key
unfolding new_leaf
new_leaf-place h t u key r = rw r

-- cx_radix_tree_new_leaf of a key that a valid tree does not have, while the pools supply enough
-- elements: it returns the element that the leaf pool gives, and afterwards the tree is valid and
-- maps the key to that leaf and every other key as before, whatever levels it had to add.
pub new_leaf-Inserted :
    {h : Allocator} {t : RadixTree} {d : ℕ} {e : Ptr} (key : ℕ)
    → IsTree t d
    → key < word
    → get t key ≡ some none
    → Supplies 16 h t.branch_pool
    → (Pool.get h t.leaf_pool).0 ≡ some e
    → (d' : ℕ) × (t' : RadixTree) × (new_leaf h t key ≡ some (some e, t'))
      × Inserted h t key e t' d'
new_leaf-Inserted {h} {t} {d} {e} key v small absent sup got =
    let (d', u, eq, r) =
      resize-Resized h key 8 t d (omega arith) v small
        (Supplies-less 16 (16 - d) h t.branch_pool (omega arith) sup) in
    let none_at : lookup d' u key ≡ none = r.same key ∙ get→lookup key v absent in
    let (t', p, ins) =
      place-Inserted d' v r none_at
        (Supplies-less (16 - d') 8 h u.branch_pool (omega (arith, r.tree.depth)) r.supply)
        (ap (λ q. (Pool.get h q).0) r.leaves ∙ got) in
    (d', t', new_leaf-place h t u key eq ∙ p, ins)

is_node-of_leaf_at : (n : Node) (p : Ptr) → leaf_at n ≡ some p → is_node n ≡ true
is_node-of_leaf_at null p e = cc
is_node-of_leaf_at (leaf q) p e = refl
is_node-of_leaf_at (branch c) p e = refl

occupied-at :
    (d key : ℕ) (t : RadixTree) (p : Ptr)
    → key ≤ cap_of d
    → lookup d t key ≡ some p
    → is_node (find d t.root (prepare_key (cap_of d) key)) ≡ true
occupied-at d key t p fits e = is_node-of_leaf_at _ p (rw (le→not-ltb (cap_of d) key fits) at e)

place-occupied :
    {h : Allocator} {t u : RadixTree} {key d₀ : ℕ} {p e : Ptr} (d : ℕ)
    → IsTree t d₀
    → Resized h t d₀ key u d
    → d ≢ 0
    → lookup d u key ≡ some p
    → Supplies 8 h u.branch_pool
    → (Pool.get h u.leaf_pool).0 ≡ some e
    → (t' : RadixTree) × (place h u key ≡ some (none, t')) × Inserted h t key e t' d
place-occupied zero v₀ r deep old sup got = absurd (deep refl)
place-occupied {h} {u} {key} {p} {e} (suc d) v₀ r deep old sup got =
    let (bs, q) =
      place-deep h u key e d r.tree
        (Supplies-less 8 d h u.branch_pool (omega (arith, r.tree.depth)) sup) got in
    (
      stored u (suc d) key e bs (Pool.get h u.leaf_pool).1,
      rw (occupied-at (suc d) key u p r.fits old) at q,
      stored-Inserted bs v₀ r refl,
    )

-- cx_radix_tree_new_leaf of a key that a valid tree with at least one level already has, where no
-- other key has the same leaf and the leaf pool gives another element, while the pools supply enough
-- elements: it returns NULL, as for a failure, but it has replaced the key's leaf. Afterwards the key
-- maps to the new element, every other key is as before, no key leads to the old leaf any more, and
-- the leaf pool has only given an element: the old leaf was not recycled.
pub new_leaf-occupied :
    {h : Allocator} {t : RadixTree} {d : ℕ} {p e : Ptr} (key : ℕ)
    → IsTree t (suc d)
    → key < word
    → get t key ≡ some (some p)
    → ((k : ℕ) → get t k ≡ some (some p) → k ≡ key)
    → Supplies 16 h t.branch_pool
    → (Pool.get h t.leaf_pool).0 ≡ some e
    → e ≢ p
    → (d' : ℕ) × (t' : RadixTree) × (new_leaf h t key ≡ some (none, t'))
      × Inserted h t key e t' d'
      × ((k : ℕ) → get t' k ≢ some (some p))
new_leaf-occupied {h} {t} {d} {p} {e} key v small old only sup got other =
    let (d', u, eq, r) =
      resize-Resized h key 8 t (suc d) (omega arith) v small
        (Supplies-less 16 (16 - suc d) h t.branch_pool (omega arith) sup) in
    let at_key = r.same key ∙ get→lookup key v old in
    let (t', q, ins) =
      place-occupied d' v r (omega (arith, r.deeper)) at_key
        (Supplies-less (16 - d') 8 h u.branch_pool (omega (arith, r.tree.depth)) r.supply)
        (ap (λ q. (Pool.get h q).0) r.leaves ∙ got) in
    (d', t', new_leaf-place h t u key eq ∙ q, ins, lost t' d' ins)
  where
    lost : (t' : RadixTree) (d' : ℕ) → Inserted h t key e t' d' → (k : ℕ) → get t' k ≢ some (some p)
    lost t' d' ins k at = elim (Bool-cases (k == key)) [
      | inl here ↦
          let same : k ≡ key = ==→eq k key here in
          let new : get t' k ≡ some (some e) = rw same ins.found in other (cc (new, at))
      | inr away ↦
          let apart = not-==→ne k key away in apart (only k (sym (ins.others k apart) ∙ at))
    ]
