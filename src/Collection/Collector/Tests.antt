-- ===== src/Collection/Collector/Tests.antt =====
-- An iterator over a list of values, and an allocator that always has memory.
use cextras.Base.{ℕ, refl, List, [], ◌∷◌, arith}
use cextras.Collection.Buffer.Sample.{machine, machine-Reallocates, machine-CountsZeros}
use cextras.Collection.Collector.{Answer, ended, item, no_more, collect}
use cextras.Collection.Collector.Values.{Yields, stops, gives}
use cextras.Collection.Collector.Collect.{Collected, collect-Collected}

abbrev from_list : List (List ℕ) → Answer × List (List ℕ)
from_list [] = (ended, [])
from_list (v ∷ vs) = (item v, vs)

abbrev two : List (List ℕ)
two = (97 ∷ 98 ∷ []) ∷ (99 ∷ []) ∷ []

two-Yields : Yields from_list two two no_more
two-Yields = gives (97 ∷ 98 ∷ []) refl (gives (99 ∷ []) refl (stops refl))

collect-Collected_example :
    Collected machine 4096 two no_more (collect machine from_list 3 4096 two)
collect-Collected_example =
    collect-Collected machine-Reallocates machine-CountsZeros two-Yields 3 4096 (omega arith)
