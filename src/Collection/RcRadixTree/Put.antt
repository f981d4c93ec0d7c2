-- ===== src/Collection/RcRadixTree/Put.antt =====
-- cx_rc_radix_tree_put and cx_rc_radix_tree_retain as operations on the map of counted elements.
use cextras.Base.{
  ℕ, ◌+◌, ◌%◌, ◌<◌, ◌≡◌, ◌∙◌, sym, Bool, true, false, Option, none, some, List, [], ◌∷◌, ◌++◌, ◌==◌,
  arith, if◌then◌else◌, Bool-cases, inl, inr, ==→eq, not-==→ne, word, append-nil, ◌⊎◌,
}
use cextras.Memory.Pool
use cextras.Memory.Pool.{Ptr, Allocator, ptr_eq}
use cextras.Memory.Pool.Fresh.{add, ptr_eq_refl}
use cextras.Memory.Pool.Recycle.{Handed, get-Handed, rest, Apart→ne}
use cextras.Collection.RadixTree
use cextras.Collection.RadixTree.{RadixTree}
use cextras.Collection.RadixTree.Insert.{Inserted, new_leaf-Inserted}
use cextras.Collection.RcRadixTree.{Object, RcRadixTree, assign, set_rc, retain, put}
use cextras.Collection.RcRadixTree.Inv.{view, IsCounted, HasRoom}
use cextras.Collection.RcRadixTree.Count.{
  get-cases, object_at-assign, view-set_rc, set_rc-IsCounted,
}

module _ {A : Type 0} where
  -- One more reference to what is there; `value` with one reference where nothing was.
  abbrev pub counted : Option (Object A) → A → Object A
  counted none value = record { rc = 1; element = value }
  counted (some o) value = record o { rc = o.rc + 1 }

  -- The values that `put` hands to the callback instead of storing them.
  abbrev pub rejected : Option (Object A) → A → List A
  rejected none value = []
  rejected (some o) value = value ∷ []

  -- What `put` has made of `t`.
  pub record Added (t : RcRadixTree A) (key : ℕ) (value : A) (t' : RcRadixTree A) : Type 0 where
    pub same :
        (j : ℕ) → view t' j ≡ (if j == key then some (counted (view t key) value) else view t j)
    pub cleaned : t'.cleaned ≡ t.cleaned ++ rejected (view t key) value

  pub retain-present :
      (t : RcRadixTree A) (key : ℕ) (p : Ptr)
      → RadixTree.get t.values key ≡ some (some p)
      → 0 < (t.objects p).rc
      → (t.objects p).rc + 1 < word
      → retain t key ≡ some (some p, set_rc t p ((t.objects p).rc + 1))
  unfolding retain
  retain-present t key p has pos small =
      let no_wrap : ((t.objects p).rc + 1) % word ≡ (t.objects p).rc + 1 = omega arith in
      let nonzero : ((t.objects p).rc == 0) ≡ false = ground arith in rw (has, nonzero, no_wrap)

  put-present :
      (h : Allocator) (t : RcRadixTree A) (key : ℕ) (value : A) (p : Ptr)
      → RadixTree.get t.values key ≡ some (some p)
      → 0 < (t.objects p).rc
      → (t.objects p).rc + 1 < word
      → put h t key value
        ≡ some (
          some p,
          record (set_rc t p ((t.objects p).rc + 1)) { cleaned = t.cleaned ++ (value ∷ []) },
        )
  unfolding put
  put-present h t key value p has pos small = rw (retain-present t key p has pos small)

  put-absent :
      (h : Allocator) (t : RcRadixTree A) (key : ℕ) (value : A) (p : Ptr) (u : RadixTree)
      → RadixTree.get t.values key ≡ some none
      → RadixTree.new_leaf h t.values key ≡ some (some p, u)
      → put h t key value
        ≡ some (
          some p,
          record t {
            values = u;
            objects = assign t.objects p (record { rc = 1; element = value });
          },
        )
  unfolding put retain
  put-absent h t key value p u absent got = rw (absent, got)

  module _ {t : RcRadixTree A} {d : ℕ} {held : Ptr → Bool} {recycled : List Ptr}
      (v : IsCounted t d held recycled) (key : ℕ) (value : A) where
    Added-present :
        (p : Ptr)
        → RadixTree.get t.values key ≡ some (some p)
        → Added t key value
            (record (set_rc t p ((t.objects p).rc + 1)) { cleaned = t.cleaned ++ (value ∷ []) })
    Added-present p has = record {
      same = λ j. view-set_rc v key p has ((t.objects p).rc + 1) j ∙ rw has;
      cleaned = rw has;
    }

  -- The tree with a new object.
  abbrev filled : RcRadixTree A → A → Ptr → RadixTree → RcRadixTree A
  filled t value p u = record t {
    values = u;
    objects = assign t.objects p (record { rc = 1; element = value });
  }

  module _ {t : RcRadixTree A} {d : ℕ} {held : Ptr → Bool} {recycled : List Ptr}
      (v : IsCounted t d held recycled) (key : ℕ) (value : A) {h : Allocator} {p : Ptr}
      {u : RadixTree} {d' : ℕ} (absent : RadixTree.get t.values key ≡ some none)
      (ins : Inserted h t.values key p u d')
      (out : Handed t.values.leaf_pool held recycled (Pool.get h t.values.leaf_pool) p) where
    new-elsewhere : (q : Ptr) → held q ≡ true → ptr_eq q p ≡ false
    new-elsewhere q own =
        Apart→ne t.values.leaf_pool.element_size p q v.pool.element_pos (out.apart q own)

    Added-absent : Added t key value (filled t value p u)
    Added-absent = record {
      same = λ j. elim (Bool-cases (j == key)) [
        | inl e ↦ rw (e, ==→eq j key e, ins.found, ptr_eq_refl p, absent)
        | inr ne ↦
            rw (ne, ins.others j (not-==→ne j key ne))
              (object_at-assign t.objects p (record { rc = 1; element = value })
                (RadixTree.get t.values j) (λ q e. new-elsewhere q (v.owned j q e)))
      ];
      cleaned = rw absent (sym (append-nil t.cleaned));
    }

    -- A leaf of the new tree is the new one, or it is the key's leaf in the old tree.
    origin :
        (k : ℕ) (q : Ptr)
        → RadixTree.get u k ≡ some (some q)
        → ((k ≡ key) × (q ≡ p)) ⊎ (RadixTree.get t.values k ≡ some (some q))
    origin k q e = elim (Bool-cases (k == key)) [
      | inl same ↦ inl (
        ==→eq k key same,
        (let f : RadixTree.get u k ≡ some (some p) = rw (==→eq k key same) (ins.found) in cc f),
      )
      | inr ne ↦ inr (sym (ins.others k (not-==→ne k key ne)) ∙ e)
    ]

    filled-IsCounted : IsCounted (filled t value p u) d' (add p held) (rest recycled)
    filled-IsCounted = record {
      tree = ins.tree;
      pool = rw (ins.leaves) (out.valid);
      owned = λ k q e. elim (origin k q e) [
        | inl (same, new) ↦ rw (new, ptr_eq_refl p)
        | inr old ↦ rw (new-elsewhere q (v.owned k q old)) (v.owned k q old)
      ];
      apart = λ k l q e f. elim (origin k q e) [
        | inl (same, new) ↦ elim (origin l q f) [
          | inl (same', new') ↦ same ∙ sym same'
          | inr old' ↦ absurd (ground (arith, new-elsewhere q (v.owned l q old'), new))
        ]
        | inr old ↦ elim (origin l q f) [
          | inl (same', new') ↦ absurd (ground (arith, new-elsewhere q (v.owned k q old), new'))
          | inr old' ↦ v.apart k l q old old'
        ]
      ];
      positive = λ k q e. elim (origin k q e) [
        | inl (same, new) ↦ rw (new, ptr_eq_refl p) (omega arith)
        | inr old ↦ rw (new-elsewhere q (v.owned k q old)) (v.positive k q old)
      ];
    }

  -- What `put` returns for `t`: an address, and a valid tree.
  pub record Put (t : RcRadixTree A) (key : ℕ) (value : A)
      (result : Option (Option Ptr × RcRadixTree A)) : Type 0 where
    pub address : Ptr
    pub tree : RcRadixTree A
    pub returned : result ≡ some (some address, tree)
    pub added : Added t key value tree
    pub at_key : RadixTree.get tree.values key ≡ some (some address)
    pub depth : ℕ
    pub held : Ptr → Bool
    pub recycled : List Ptr
    pub valid : IsCounted tree depth held recycled

  -- cx_rc_radix_tree_put on a valid tree, with room in the pools and no counter at its limit: it
  -- returns the address of the key's object. Where the key had none, the value is stored with one
  -- reference; otherwise the stored element gets one reference more and the new value is cleaned up.
  -- No other key's object changes, and the invariant holds.
  pub put-Put :
      {h : Allocator} {t : RcRadixTree A} {d : ℕ} {held : Ptr → Bool} {recycled : List Ptr}
      (key : ℕ) (value : A)
      → IsCounted t d held recycled
      → HasRoom h t
      → key < word
      → ((o : Object A) → view t key ≡ some o → o.rc + 1 < word)
      → Put t key value (put h t key value)
  put-Put {h} {t} {d} {held} {recycled} key value v room small limit = elim (get-cases key v.tree) [
    | inl absent ↦
        let (p, out) = get-Handed recycled room.succeeds v.pool room.leaves in
        let (d', u, eq, ins) = new_leaf-Inserted key v.tree small absent room.branches out.got in
        record {
          address = p;
          tree = filled t value p u;
          returned = put-absent h t key value p u absent eq;
          added = Added-absent v key value absent ins out;
          at_key = ins.found;
          depth = d';
          held = add p held;
          recycled = rest recycled;
          valid = filled-IsCounted v key value absent ins out;
        }
    | inr (p, has) ↦ record {
      address = p;
      tree = record (set_rc t p ((t.objects p).rc + 1)) { cleaned = t.cleaned ++ (value ∷ []) };
      returned =
          put-present h t key value p has (v.positive key p has) (limit (t.objects p) (rw has));
      added = Added-present v key value p has;
      at_key = has;
      depth = d;
      held = held;
      recycled = recycled;
      valid =
          let w = set_rc-IsCounted v key p has ((t.objects p).rc + 1) (omega arith) in
          record {
            tree = w.tree;
            pool = w.pool;
            owned = w.owned;
            apart = w.apart;
            positive = w.positive;
          };
    }
  ]
