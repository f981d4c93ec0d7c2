-- ===== src/Collection/Lru/Tests.antt =====
-- The LRU over a backend that is a function from keys to counters.
use cextras.Base.{
  ap, ◌∙◌, ℕ, ◌+◌, ◌-◌, ◌≡◌, refl, false, none, some, [], ◌∷◌, ◌==◌, arith, if◌then◌else◌,
}
use cextras.Collection.RcMap.Sample.{three, three-IsValid}
use cextras.Collection.RcRadixTree.Sample.{memory, one}
use cextras.Collection.RcRadixTree.Inv.{init-IsCounted}
use cextras.Collection.RcRadixTree.Put.{counted}
use cextras.Collection.Lru.Session.{LeavesNoTrace}
use cextras.Collection.Lru.OverMap as OverMap
use cextras.Collection.Lru.OverTree as OverTree
use cextras.Collection.Lru.{Backend, Lru}
use cextras.Collection.Lru.Refs.{Counting, Owns, IsRing, HasTouched, touch-Owns}

abbrev put_count : (ℕ → ℕ) → ℕ → ℕ → ℕ → ℕ
put_count s k n j = if j == k then n else s j

abbrev counters : Backend ℕ (ℕ → ℕ)
counters = record {
  retain = λ s k. if s k == 0 then none else some (put_count s k (s k + 1));
  retain_value = λ s v. some s;
  release = λ s k. if s k == 0 then none else some (put_count s k (s k - 1));
}

abbrev Any : (ℕ → ℕ) → Type 0
Any s = s ≡ s

counters-Counting : Counting counters Any (λ s k. s k) 100
counters-Counting = record {
  retain_adds = λ s k g h below.
      let nz : (s k == 0) ≡ false = ground arith in
      (put_count s k (s k + 1), rw nz, refl, λ j. refl);
  release_takes = λ s k g h.
      let nz : (s k == 0) ≡ false = ground arith in
      (put_count s k (s k - 1), rw nz, refl, λ j. refl);
}

-- Key 7 is the newest item, key 5 the oldest one.
abbrev two : Lru
two = record { items = 5 ∷ 7 ∷ []; ring_index = 1; size = 2 }

abbrev ones : ℕ → ℕ
ones k = 1

abbrev start : ℕ → ℕ
start k = 1 + ((if 5 == k then 1 else 0) + ((if 7 == k then 1 else 0) + 0))

two-IsRing : IsRing two
two-IsRing = record { items = refl; index = λ h. omega arith }

start-Owns : Owns counters-Counting ones two.items start
start-Owns = record { good = refl; balance = λ k ne. refl }

touch-Owns_example : HasTouched counters-Counting ones two 9 start
touch-Owns_example =
    touch-Owns counters-Counting ones two 9 start two-IsRing start-Owns
      (λ e. absurd (ground (arith, e))) (omega arith) (omega arith)

session-rc_map_example : LeavesNoTrace OverMap.rc_map-Counting 1 (1 ∷ 2 ∷ 1 ∷ []) three
session-rc_map_example = OverMap.session-rc_map 1 (1 ∷ 2 ∷ 1 ∷ []) three three-IsValid (
  (λ e. absurd (ground (arith, e))),
  omega arith,
  omega arith,
  (
    (λ e. absurd (ground (arith, e))),
    omega arith,
    omega arith,
    ((λ e. absurd (ground (arith, e))), omega arith, omega arith, tt),
  ),
)

one-reference : OverTree.refs one.tree 300 ≡ 1
one-reference =
    ap OverTree.rc_of (one.added.same 300)
    ∙ ap (λ o. (counted o 7).rc) ((init-IsCounted 8 memory (omega arith)).2 300)

session-rc_radix_tree_example :
    LeavesNoTrace OverTree.rc_radix_tree-Counting 2 (300 ∷ 300 ∷ []) one.tree
session-rc_radix_tree_example =
    OverTree.session-rc_radix_tree 2 (300 ∷ 300 ∷ []) one.tree
      (one.depth, one.held, one.recycled, one.valid)
      (
        (λ e. absurd (ground (arith, e))),
        omega (arith, one-reference),
        omega (arith, one-reference),
        (
          (λ e. absurd (ground (arith, e))),
          omega (arith, one-reference),
          omega (arith, one-reference),
          tt,
        ),
      )
