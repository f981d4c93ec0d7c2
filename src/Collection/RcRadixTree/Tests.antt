-- ===== src/Collection/RcRadixTree/Tests.antt =====
-- The reference-counted radix tree at concrete inputs.
use cextras.Base.{arith}
use cextras.Collection.RcRadixTree.{put, release}
use cextras.Collection.RcRadixTree.Inv.{init-IsCounted}
use cextras.Collection.RcRadixTree.Put.{Put, put-Put}
use cextras.Collection.RcRadixTree.Release.{Release, release-Release}
use cextras.Collection.RcRadixTree.Sample.{good, memory, start, start-HasRoom, one}

put-Put_example : Put start 300 7 (put good start 300 7)
put-Put_example =
    put-Put 300 7 ((init-IsCounted 8 memory (omega arith)).1) start-HasRoom (omega arith)
      (λ o e. cc ((init-IsCounted 8 memory (omega arith)).2 300))

release-Release_example : Release one.tree 300 (release one.tree 300)
release-Release_example = release-Release 300 (one.valid)
