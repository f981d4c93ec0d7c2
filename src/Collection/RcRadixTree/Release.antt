-- ===== src/Collection/RcRadixTree/Release.antt =====
-- cx_rc_radix_tree_release as an operation on the map of counted elements.
use cextras.Base.{
  ℕ, ◌-◌, ◌<◌, ◌≡◌, ◌≢◌, ◌∙◌, sym, Bool, true, false, Option, none, some, List, [], ◌∷◌, ◌++◌, ◌==◌,
  arith, if◌then◌else◌, is_some, Bool-cases, inl, inr, ==→eq, not-==→ne, append-nil,
}
use cextras.Memory.Pool.{Ptr}
use cextras.Memory.Pool.Fresh.{remove}
use cextras.Memory.Pool.Recycle.{recycle-IsValid}
use cextras.Collection.RadixTree
use cextras.Collection.RadixTree.{RadixTree}
use cextras.Collection.RadixTree.Delete.{Deleted, delete-Deleted}
use cextras.Collection.RcRadixTree.{Object, RcRadixTree, set_rc, release}
use cextras.Collection.RcRadixTree.Inv.{view, IsCounted}
use cextras.Collection.RcRadixTree.Count.{get-cases, elsewhere, view-set_rc, set_rc-IsCounted}

module _ {A : Type 0} where
  -- One reference less, and nothing when it was the last.
  abbrev pub less : Option (Object A) → Option (Object A)
  less none = none
  less (some o) = if o.rc == 1 then none else some (record o { rc = o.rc - 1 })

  -- The elements that are handed to the callback: the one whose last reference goes.
  abbrev pub dropped : Option (Object A) → List A
  dropped none = []
  dropped (some o) = if o.rc == 1 then o.element ∷ [] else []

  pub record Released (t : RcRadixTree A) (key : ℕ) (t' : RcRadixTree A) : Type 0 where
    pub same : (j : ℕ) → view t' j ≡ (if j == key then less (view t key) else view t j)
    pub cleaned : t'.cleaned ≡ t.cleaned ++ dropped (view t key)

  release-absent :
      (t : RcRadixTree A) (key : ℕ)
      → RadixTree.get t.values key ≡ some none
      → release t key ≡ some (false, t)
  unfolding release
  release-absent t key e = rw e

  release-more :
      (t : RcRadixTree A) (key : ℕ) (p : Ptr)
      → RadixTree.get t.values key ≡ some (some p)
      → 1 < (t.objects p).rc
      → release t key ≡ some (true, set_rc t p ((t.objects p).rc - 1))
  unfolding release
  release-more t key p e more =
      let one : ((t.objects p).rc == 1) ≡ false = ground arith in
      let zero : ((t.objects p).rc == 0) ≡ false = ground arith in rw (e, zero, one)

  -- The tree after its last reference to an element is gone.
  abbrev emptied : RcRadixTree A → Ptr → RadixTree → RcRadixTree A
  emptied t p u = record t { values = u; cleaned = t.cleaned ++ ((t.objects p).element ∷ []) }

  release-last :
      (t : RcRadixTree A) (key : ℕ) (p : Ptr) (u : RadixTree)
      → RadixTree.get t.values key ≡ some (some p)
      → (t.objects p).rc ≡ 1
      → RadixTree.delete t.values key ≡ some (true, u)
      → release t key ≡ some (true, emptied t p u)
  unfolding release
  release-last t key p u e one gone =
      let one' : ((t.objects p).rc == 1) ≡ true = ground arith in
      let zero : ((t.objects p).rc == 0) ≡ false = ground arith in rw (e, zero, one', gone)

  module _ {t : RcRadixTree A} {d : ℕ} {held : Ptr → Bool} {recycled : List Ptr}
      (v : IsCounted t d held recycled) (key : ℕ) where
    Released-absent : RadixTree.get t.values key ≡ some none → Released t key t
    Released-absent e = record {
      same = λ j. elim (Bool-cases (j == key)) [ inl q ↦ rw (q, ==→eq j key q, e) | inr q ↦ rw q ];
      cleaned = rw e (sym (append-nil t.cleaned));
    }

    module _ (p : Ptr) (has : RadixTree.get t.values key ≡ some (some p)) where
      Released-more : 1 < (t.objects p).rc → Released t key (set_rc t p ((t.objects p).rc - 1))
      Released-more more =
          let one : ((t.objects p).rc == 1) ≡ false = ground arith in
          record {
            same = λ j. view-set_rc v key p has ((t.objects p).rc - 1) j ∙ rw (has, one);
            cleaned = rw (has, one) (sym (append-nil t.cleaned));
          }

      module _ {u : RadixTree} (one : (t.objects p).rc ≡ 1) (del : Deleted t.values key p u d) where
        Released-last : Released t key (emptied t p u)
        Released-last =
            let one' : ((t.objects p).rc == 1) ≡ true = ground arith in
            record {
              same = λ j. elim (Bool-cases (j == key)) [
                | inl q ↦ rw (q, ==→eq j key q, has, one', del.gone)
                | inr q ↦ rw (q, del.others j (not-==→ne j key q))
              ];
              cleaned = rw (has, one');
            }

        -- A leaf of the new tree is a leaf of the old one, for another key.
        survives :
            (k : ℕ) (q : Ptr)
            → RadixTree.get u k ≡ some (some q)
            → (k ≢ key) × (RadixTree.get t.values k ≡ some (some q))
        survives k q e = elim (Bool-cases (k == key)) [
          | inl same ↦
              absurd
                (let g : RadixTree.get u k ≡ some none = rw (==→eq k key same) (del.gone) in cc g)
          | inr ne ↦ (not-==→ne k key ne, sym (del.others k (not-==→ne k key ne)) ∙ e)
        ]

        emptied-IsCounted : IsCounted (emptied t p u) d (remove p held) (p ∷ recycled)
        emptied-IsCounted = record {
          tree = del.tree;
          pool = rw (del.recycled) (recycle-IsValid p v.pool (v.owned key p has));
          owned = λ k q e.
              let (ne, old) = survives k q e in
              rw (elsewhere v key p has k ne q old) (v.owned k q old);
          apart = λ k l q e f. v.apart k l q (survives k q e).1 (survives l q f).1;
          positive = λ k q e. v.positive k q (survives k q e).1;
        }

  -- What `release` returns for `t`: whether the key was there, and a valid tree.
  pub record Release (t : RcRadixTree A) (key : ℕ) (result : Option (Bool × RcRadixTree A))
      : Type 0 where
    pub tree : RcRadixTree A
    pub returned : result ≡ some (is_some (view t key), tree)
    pub released : Released t key tree
    pub depth : ℕ
    pub held : Ptr → Bool
    pub recycled : List Ptr
    pub valid : IsCounted tree depth held recycled

  -- cx_rc_radix_tree_release on a valid tree returns 0 exactly for a key that is there, and -1
  -- otherwise. The key's object loses one reference; when that was the last, the element is handed to
  -- the callback and the key is gone. No other key's object changes, no assertion fails, and the
  -- invariant holds.
  pub release-Release :
      {t : RcRadixTree A} {d : ℕ} {held : Ptr → Bool} {recycled : List Ptr} (key : ℕ)
      → IsCounted t d held recycled
      → Release t key (release t key)
  release-Release {t} {d} {held} {recycled} key v = elim (get-cases key v.tree) [
    | inl absent ↦ record {
      tree = t;
      returned = rw (release-absent t key absent, absent);
      released = Released-absent v key absent;
      depth = d;
      held = held;
      recycled = recycled;
      valid = v;
    }
    | inr (p, has) ↦ elim (Bool-cases ((t.objects p).rc == 1)) [
      | inl last ↦
          let one = ==→eq _ _ last in
          let (u, eq, del) = delete-Deleted key v.tree has in
          record {
            tree = emptied t p u;
            returned = rw (release-last t key p u has one eq, has);
            released = Released-last v key p has one del;
            depth = d;
            held = remove p held;
            recycled = p ∷ recycled;
            valid = emptied-IsCounted v key p has one del;
          }
      | inr other ↦
          let more : 1 < (t.objects p).rc =
            omega (arith, v.positive key p has, not-==→ne _ _ other) in
          record {
            tree = set_rc t p ((t.objects p).rc - 1);
            returned = rw (release-more t key p has more, has);
            released = Released-more v key p has more;
            depth = d;
            held = held;
            recycled = recycled;
            valid = set_rc-IsCounted v key p has ((t.objects p).rc - 1) (omega arith);
          }
    ]
  ]
