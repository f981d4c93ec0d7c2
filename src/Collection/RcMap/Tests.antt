-- ===== src/Collection/RcMap/Tests.antt =====
-- An array of three elements of eight bytes.
use cextras.Base.{ℕ, ◌≡◌, refl, none, some, [], ◌∷◌, arith}
use cextras.Collection.RcMap.{RcMap, release_index}
use cextras.Collection.RcMap.Ops.{Stepped, HasInserted, insert-Stepped, release_index-Stepped}
use cextras.Collection.RcMap.Sample.{three, three-IsValid}

insert-Stepped_example : HasInserted three 0 5 none
insert-Stepped_example =
    insert-Stepped 0 5 three-IsValid (omega arith) (λ n y e. absurd (ground (arith, e)))

release_index-Stepped_example :
    (m' : RcMap ℕ) × (release_index three 2 ≡ some m') × Stepped three 2 none (22 ∷ []) m'
release_index-Stepped_example = release_index-Stepped 2 1 22 three-IsValid (omega arith) refl
