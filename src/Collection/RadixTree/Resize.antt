-- ===== src/Collection/RadixTree/Resize.antt =====
-- resize adds levels until the capacity allows the key, and changes nothing that the tree maps.
use cextras.Base.{
  ℕ, zero, suc, ◌+◌, ◌-◌, ◌*◌, ◌/◌, ◌%◌, ◌≤◌, ◌<◌, ◌≡◌, refl, ◌∙◌, ap, arith, true, some, ◌==◌, ltb,
  if◌then◌else◌, Bool-cases, inl, inr, ltb→lt, not-ltb→le, ==→eq, not-==→ne, word,
}
use cextras.Memory.Pool
use cextras.Memory.Pool.{Ptr, Allocator, Pool}
use cextras.Memory.Pool.Supply.{Supplies}
use cextras.Collection.RadixTree.{
  Node, null, branch, no_children, update, RadixTree, prepare_key, widen, resize,
}
use cextras.Collection.RadixTree.Keys.{
  cap_of, widen-cap_of, byte_at, byte_at-lt, byte_at-of_le, le-of_byte_at, prepare_key-top,
}
use cextras.Collection.RadixTree.Nodes.{Shape-null, Shape-update, find, find-null}
use cextras.Collection.RadixTree.Lookup.{IsTree, lookup}

-- The tree after a round of the loop.
abbrev deeper : RadixTree → Pool → RadixTree
deeper t bs = record t {
  capacity = widen t.capacity;
  branch_pool = bs;
  root = branch (update no_children 0 t.root);
}

deeper-IsTree :
    {t : RadixTree} {d : ℕ} (bs : Pool) → d < 8 → IsTree t d → IsTree (deeper t bs) (suc d)
deeper-IsTree {t} {d} bs h v = record {
  depth = h;
  capacity = rw (v.capacity) (widen-cap_of d h);
  shape = Shape-update d no_children 0 t.root (λ j. Shape-null d) v.shape;
  rooted = λ e. cc;
}

-- Below the new root the old tree hangs at byte 0, and nothing at the others.
find-deeper :
    (d : ℕ) (root : Node) (q b : ℕ)
    → b < 256
    → find (suc d) (branch (update no_children 0 root)) (q * 256 + b)
      ≡ (if b == 0 then find d root q else null)
find-deeper d root q b h =
    let low : (q * 256 + b) % 256 ≡ b = omega arith in
    let high : (q * 256 + b) / 256 ≡ q = omega arith in
    rw (low, high) (elim (Bool-cases (b == 0)) [ inl e ↦ rw e | inr e ↦ rw e (find-null d q) ])

lookup-deeper :
    (t : RadixTree) (d : ℕ) (bs : Pool) (key : ℕ)
    → d < 8
    → lookup (suc d) (deeper t bs) key ≡ lookup d t key
lookup-deeper t d bs key h =
    rw
      (
        prepare_key-top d key h,
        find-deeper d t.root (prepare_key (cap_of d) key) (byte_at d key) (byte_at-lt d key),
      )
      (elim (Bool-cases (byte_at d key == 0)) [
        | inl e ↦ ground (arith, le-of_byte_at d key)
        | inr e ↦ ground (arith, byte_at-of_le d key)
      ])

-- What `resize` has done to `t` when it returns 0 for `key`.
pub record Resized (h : Allocator) (t : RadixTree) (d key : ℕ) (t' : RadixTree) (d' : ℕ)
    : Type 0 where
  pub tree : IsTree t' d'
  pub fits : key ≤ cap_of d'
  pub supply : Supplies (16 - d') h t'.branch_pool
  pub leaves : t'.leaf_pool ≡ t.leaf_pool
  pub same : (k : ℕ) → lookup d' t' k ≡ lookup d t k
  pub deeper : d ≤ d'

-- At eight levels the capacity is the highest 64-bit key.
cap_of_top : (d key : ℕ) → d ≤ 8 → cap_of d < key → key < word → d < 8
cap_of_top d key h low small = elim (Bool-cases (d == 8)) [
  | inl e ↦ absurd (omega (arith, ap cap_of (==→eq d 8 e)))
  | inr ne ↦ omega (arith, not-==→ne d 8 ne)
]

module _ (h : Allocator) (key : ℕ) where
  unchanged :
      {t : RadixTree} {d : ℕ}
      → IsTree t d
      → key ≤ cap_of d
      → Supplies (16 - d) h t.branch_pool
      → Resized h t d key t d
  unchanged v fits sup = record {
    tree = v;
    fits = fits;
    supply = sup;
    leaves = refl;
    same = λ k. refl;
    deeper = omega arith;
  }

  resize-round :
      (f : ℕ) (t : RadixTree) (e : Ptr)
      → ltb t.capacity key ≡ true
      → (Pool.get h t.branch_pool).0 ≡ some e
      → resize (suc f) h t key ≡ resize f h (deeper t (Pool.get h t.branch_pool).1) key
  unfolding resize
  resize-round f t e low got = rw (low, got)

  -- Eight rounds are enough.
  pub resize-Resized :
      (f : ℕ) (t : RadixTree) (d : ℕ)
      → 8 ≤ f + d
      → IsTree t d
      → key < word
      → Supplies (16 - d) h t.branch_pool
      → (d' : ℕ) × (t' : RadixTree) × (resize f h t key ≡ (true, t')) × Resized h t d key t' d'
  unfolding resize
  resize-Resized zero t d fuel v small sup =
      let top : d ≡ 8 = omega (arith, v.depth) in
      (d, t, refl, unchanged v (omega (arith, ap cap_of top)) sup)
  resize-Resized (suc f) t d fuel v small sup = elim (Bool-cases (ltb (cap_of d) key)) [
    | inl low ↦
        let more = cap_of_top d key v.depth (ltb→lt _ _ low) small in
        let left : 16 - d ≡ suc (16 - suc d) = omega arith in
        let sup' : Supplies (suc (16 - suc d)) h t.branch_pool = rw left at sup in
        let bs = (Pool.get h t.branch_pool).1 in
        let (d', t', r, g) =
          resize-Resized f (deeper t bs) (suc d) (omega arith) (deeper-IsTree bs more v) small
            sup'.1 in
        (
          d',
          t',
          resize-round f t sup'.0.0 (rw (v.capacity) low) sup'.0.1 ∙ r,
          record {
            tree = g.tree;
            fits = g.fits;
            supply = g.supply;
            leaves = g.leaves;
            same = λ k. g.same k ∙ lookup-deeper t d bs k more;
            deeper = omega (arith, g.deeper);
          },
        )
    | inr fits ↦ (d, t, rw (v.capacity, fits), unchanged v (not-ltb→le _ _ fits) sup)
  ]
