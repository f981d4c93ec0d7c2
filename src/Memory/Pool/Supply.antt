-- ===== src/Memory/Pool/Supply.antt =====
-- What a client that takes several elements in a row needs of a pool.
use cextras.Base.{ℕ, zero, suc, ◌*◌, ◌≤◌, ◌<◌, ◌≡◌, Bool, some, List, arith, word}
use cextras.Memory.Pool.{Ptr, Allocator, Pool, get}
use cextras.Memory.Pool.Inv.{Succeeds, IsValid}
use cextras.Memory.Pool.Recycle.{get-Handed}

-- The next `n` calls of cx_prealloc_pool_get return an element.
abbrev pub Supplies : ℕ → Allocator → Pool → Type 0
Supplies zero h p = Unit
Supplies (suc n) h p = ((e : Ptr) × ((get h p).0 ≡ some e)) × Supplies n h (get h p).1

-- `c` doubled `n` times.
abbrev pub doubled : ℕ → ℕ → ℕ
doubled zero c = c
doubled (suc n) c = doubled n (c * 2)

doubled_mono : (n a b : ℕ) → a ≤ b → doubled n a ≤ doubled n b
doubled_mono zero a b h = h
doubled_mono (suc n) a b h = doubled_mono n (a * 2) (b * 2) (omega arith)

le-doubled : (n c : ℕ) → c ≤ doubled n c
le-doubled zero c = omega arith
le-doubled (suc n) c = omega (arith, le-doubled n (c * 2))

-- A valid pool whose chunks may double `n` times before their size leaves `size_t` returns `n`
-- elements in a row if the allocator does not fail.
pub IsValid-Supplies :
    (n : ℕ) {h : Allocator} {p : Pool} {held : Ptr → Bool} {recycled : List Ptr}
    → Succeeds h
    → IsValid p held recycled
    → doubled n p.chunk_size < word
    → Supplies n h p
IsValid-Supplies zero s v room = tt
IsValid-Supplies (suc n) {h} {p} {recycled} s v room =
    let (e, out) = get-Handed recycled s v (omega (arith, le-doubled n (p.chunk_size * 2))) in
    (
      (e, out.got),
      IsValid-Supplies n s out.valid
          (omega (arith, doubled_mono n (get h p).1.chunk_size (p.chunk_size * 2) out.growth)),
    )

pub Supplies-less : (n m : ℕ) (h : Allocator) (p : Pool) → m ≤ n → Supplies n h p → Supplies m h p
Supplies-less n zero h p le s = tt
Supplies-less zero (suc m) h p le s = absurd (omega arith)
Supplies-less (suc n) (suc m) h p le s = (s.0, Supplies-less n m h (get h p).1 (omega arith) s.1)
