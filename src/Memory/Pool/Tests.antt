-- ===== src/Memory/Pool/Tests.antt =====
-- The pool at concrete inputs.
use cextras.Base.{◌+◌, ◌<◌, ◌≡◌, refl, Bool, true, false, none, some, [], ◌∷◌, arith}
use cextras.Memory.Pool.{Ptr, ptr, Allocator, Pool, zeroed, get, recycle, cleanup}
use cextras.Memory.Pool.Inv.{Succeeds, size_of, IsValid}
use cextras.Memory.Pool.Recycle.{Handed, get-Handed}
use cextras.Memory.Pool.Failure.{cleanup-numbers, get_after_failed_calloc}

abbrev good : Allocator
good = record { realloc_ok = λ n. true; calloc_ok = λ n. true }

abbrev no_calloc : Allocator
no_calloc = record { realloc_ok = λ n. true; calloc_ok = λ n. false }

abbrev nobody : Ptr → Bool
nobody e = false

good-Succeeds : Succeeds good
good-Succeeds = record { realloc = λ n. refl; calloc = λ n. refl }

-- One chunk of two elements, both handed out.
abbrev full : Pool
full = record {
  pools = some (some 32 ∷ []);
  chunk_size = 32;
  element_size = 16;
  next_offset = 32;
  pool_count = 1;
  current_pool = 1;
  reuse_pool = none;
  memory = λ a. none;
}

first_elements :
    ((get good (zeroed 1 16)).0 ≡ some (ptr 1 0))
    × ((get good (get good (zeroed 1 16)).1).0 ≡ some (ptr 1 16))
    × ((get good (get good (get good (zeroed 1 16)).1).1).0 ≡ some (ptr 2 0))
unfolding get
first_elements = (refl, refl, refl)

last_in_first_out :
    (get good (recycle (recycle full (some (ptr 1 0))) (some (ptr 1 16)))).0 ≡ some (ptr 1 16)
unfolding get recycle
last_in_first_out = refl

full-IsValid : IsValid full nobody []
full-IsValid = record {
  element_pos = omega arith;
  element_fits = omega arith;
  count_small = omega arith;
  size_small = omega arith;
  chunks = (refl, refl, omega arith, refl, omega arith, (λ e. cc, tt));
  chain = refl;
  held_carved = λ e h. cc;
  recycled_carved = tt;
  held_apart = λ a b h. cc;
  recycled_apart = tt;
  cross = λ a h. tt;
}

get-Handed_example : (e : Ptr) × Handed full nobody [] (get good full) e
get-Handed_example = get-Handed [] good-Succeeds full-IsValid (omega arith)

cleanup-numbers_example : cleanup full ≡ some (record { freed_chunks = 1 ∷ []; freed_array = true })
cleanup-numbers_example = cleanup-numbers full-IsValid

get_after_failed_calloc_example :
    ((get no_calloc full).0 ≡ none)
    × ((e : Ptr) × ((get good (get no_calloc full).1).0 ≡ some e)
        × (size_of full.pools e.chunk < e.offset + 16))
get_after_failed_calloc_example =
    get_after_failed_calloc good full-IsValid (omega arith) (λ n. refl) (λ n. refl) refl refl
      (omega arith)
