-- ===== src/Collection/RcRadixTree/Sample.antt =====
-- A reference-counted radix tree with one key.
use cextras.Base.{ℕ, refl, true, arith}
use cextras.Memory.Pool.{Ptr, Allocator}
use cextras.Memory.Pool.Inv.{Succeeds}
use cextras.Memory.Pool.Failure.{zeroed-IsValid}
use cextras.Memory.Pool.Supply.{IsValid-Supplies}
use cextras.Collection.RcRadixTree.{Object, RcRadixTree, no_keys, put}
use cextras.Collection.RcRadixTree.Inv.{HasRoom, init-IsCounted}
use cextras.Collection.RcRadixTree.Put.{Put, put-Put}

abbrev pub good : Allocator
good = record { realloc_ok = λ n. true; calloc_ok = λ n. true }

abbrev pub memory : Ptr → Object ℕ
memory p = record { rc = 0; element = 0 }

abbrev pub start : RcRadixTree ℕ
start = no_keys 8 memory

pub start-HasRoom : HasRoom good start
start-HasRoom =
    let s : Succeeds good = record { realloc = λ n. refl; calloc = λ n. refl } in
    record {
      succeeds = s;
      leaves = omega arith;
      branches =
          IsValid-Supplies 16 s (zeroed-IsValid 8 2048 (omega arith) (omega arith) (omega arith))
            (omega arith);
    }

-- The tree that has 7 for key 300.
pub one : Put start 300 7 (put good start 300 7)
one =
    put-Put 300 7 ((init-IsCounted 8 memory (omega arith)).1) start-HasRoom (omega arith)
      (λ o e. cc ((init-IsCounted 8 memory (omega arith)).2 300))
