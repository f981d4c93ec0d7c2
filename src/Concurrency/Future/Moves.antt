-- ===== src/Concurrency/Future/Moves.antt =====
-- Every step keeps the invariant.
use cextras.Base.{ℕ, ◌≡◌, refl, ◌∙◌, true, false, Option, none, some, arith}
use cextras.Concurrency.Family.{update}
use cextras.Concurrency.Future.{
  Future, Place, idle, stored, decided, resolved, Move, call_wait, lock_wait, sleep, relock, read,
  lock_resolve, refuse, store, unlock_resolve, State, init, get_in_value, rouse, is_asleep, move,
  broadcast, Reach, here, next,
}
use cextras.Concurrency.Future.Inv.{inside, has_read, has_stored, will_broadcast, Inv}

-- The premise of a move, for the clauses that cannot name it.
abbrev Guard : {i : ℕ} {f f' : Future} {p p' : Place} → Move i f p f' p' → Type 0
Guard {f = f} (lock_wait g) = f.mutex ≡ none
Guard {f = f} (sleep g) = f.out_value ≡ none
Guard {f = f} (relock g) = f.mutex ≡ none
Guard {f = f} (read v g) = f.out_value ≡ some v
Guard {f = f} (lock_resolve g) = f.mutex ≡ none
Guard {f = f} (refuse u g) = f.out_value ≡ some u
Guard {f = f} (store g) = f.out_value ≡ none
Guard _ = Unit

guard : {i : ℕ} {f f' : Future} {p p' : Place} (mv : Move i f p f' p') → Guard mv
guard (lock_wait g) = g
guard (sleep g) = g
guard (relock g) = g
guard (read v g) = g
guard (lock_resolve g) = g
guard (refuse u g) = g
guard (store g) = g
guard _ = tt

inside-rouse : (p : Place) → inside (rouse p) ≡ inside p
inside-rouse idle = refl
inside-rouse p = refl

has_read-rouse : (p : Place) → has_read (rouse p) ≡ has_read p
has_read-rouse idle = refl
has_read-rouse p = refl

has_stored-rouse : (p : Place) → has_stored (rouse p) ≡ has_stored p
has_stored-rouse idle = refl
has_stored-rouse (decided true v) = refl
has_stored-rouse (resolved true v) = refl
has_stored-rouse p = ground arith

is_asleep-rouse : (p : Place) → is_asleep (rouse p) ≡ false
is_asleep-rouse idle = refl
is_asleep-rouse p = refl

module _ {f : Future} {places : ℕ → Place} (inv : Inv f places) (i : ℕ) where
  owner-Move :
      {p p' : Place} {f' : Future}
      → Move i f p f' p'
      → places i ≡ p
      → (j : ℕ) → inside (update places i p' j) ≡ true
      → f'.mutex ≡ some j
  owner-Move call_wait e j h = ground (arith, inv.owner i, inv.owner j)
  owner-Move mv e j h = ground (arith, guard mv, inv.owner i, inv.owner j)

  held-Move :
      {p p' : Place} {f' : Future}
      → Move i f p f' p'
      → places i ≡ p
      → (j : ℕ) → f'.mutex ≡ some j
      → inside (update places i p' j) ≡ true
  held-Move call_wait e j h = ground (arith, inv.held i, inv.held j)
  held-Move mv e j h = ground (arith, guard mv, inv.owner i, inv.held i, inv.held j)

  agrees-Move :
      {p p' : Place} {f' : Future}
      → Move i f p f' p'
      → places i ≡ p
      → (j v : ℕ) → has_read (update places i p' j) ≡ some v
      → f'.out_value ≡ some v
  agrees-Move call_wait e j v h = ground (arith, inv.agrees j v)
  agrees-Move mv e j v h = ground (arith, guard mv, inv.agrees i v, inv.agrees j v)

  keeps-Move :
      {p p' : Place} {f' : Future}
      → Move i f p f' p'
      → places i ≡ p
      → (j v : ℕ) → has_stored (update places i p' j) ≡ some v
      → f'.out_value ≡ some v
  keeps-Move call_wait e j v h = ground (arith, inv.keeps j v)
  keeps-Move mv e j v h = ground (arith, guard mv, inv.keeps i v, inv.keeps j v)

  once-Move :
      {p p' : Place} {f' : Future}
      → Move i f p f' p'
      → places i ≡ p
      → (j k v u : ℕ) → has_stored (update places i p' j) ≡ some v
      → has_stored (update places i p' k) ≡ some u
      → j ≡ k
  once-Move call_wait e j k v u h h' = ground (arith, inv.once j k v u)
  once-Move mv e j k v u h h' = ground (
    arith,
    guard mv,
    inv.once j k v u,
    inv.once i k v u,
    inv.once j i v u,
    inv.keeps j v,
    inv.keeps k u,
  )

  awake-Move :
      {p p' : Place} {f' : Future}
      → Move i f p f' p'
      → places i ≡ p
      → (j v : ℕ) → is_asleep (update places i p' j) ≡ true
      → f'.out_value ≡ some v
      → (k : ℕ) × (will_broadcast (update places i p' k) ≡ true)
  awake-Move (store g) e j v h o = (i, ground arith)
  awake-Move mv e j v h o =
      let found = inv.awake j v (ground (arith, guard mv)) (ground (arith, guard mv)) in
      (found.0, ground (arith, guard mv, found.1))

  origin-Move :
      {p p' : Place} {f' : Future}
      → Move i f p f' p'
      → places i ≡ p
      → (v : ℕ) → f'.out_value ≡ some v
      → (k : ℕ) × (has_stored (update places i p' k) ≡ some v)
  origin-Move (store g) e v o = (i, ground arith)
  origin-Move (unlock_resolve {ok = true}) e v o =
      let found = inv.origin v o in (found.0, ground (arith, found.1))
  origin-Move mv e v o =
      let found = inv.origin v (ground (arith, guard mv)) in
      (found.0, ground (arith, guard mv, found.1))

  Move-Inv : {p : Place} {f' : Future} → Move i f (places i) f' p → Inv f' (update places i p)
  Move-Inv mv = record {
    owner = owner-Move mv refl;
    held = held-Move mv refl;
    agrees = agrees-Move mv refl;
    keeps = keeps-Move mv refl;
    origin = origin-Move mv refl;
    once = once-Move mv refl;
    awake = awake-Move mv refl;
  }

  broadcast-Inv :
      {v : Option ℕ}
      → places i ≡ stored v
      → Inv f (update (λ j. rouse (places j)) i (decided true v))
  broadcast-Inv e = record {
    owner = λ j h. ground (arith, inv.owner i, inv.owner j, inside-rouse (places j));
    held = λ j h. ground (arith, inv.owner i, inv.held j, inside-rouse (places j));
    agrees = λ j v h. ground (arith, inv.agrees j v, has_read-rouse (places j));
    keeps = λ j v h. ground (arith, inv.keeps i v, inv.keeps j v, has_stored-rouse (places j));
    origin = λ v o.
        let found = inv.origin v o in
        (found.0, ground (arith, found.1, has_stored-rouse (places found.0)));
    once = λ j k v u h h'. ground (
      arith,
      inv.once j k v u,
      inv.once i k v u,
      inv.once j i v u,
      has_stored-rouse (places j),
      has_stored-rouse (places k),
    );
    awake = λ j v h o. absurd (ground (arith, is_asleep-rouse (places j)));
  }

init-Inv : (in_value : Option ℕ) (f : Future) → init true in_value ≡ some f → Inv f (λ i. idle)
init-Inv in_value f e =
    let same : f ≡ record { in_value = in_value; mutex = none; out_value = none } = cc in
    rw same (record {
      owner = λ i h. absurd (ground arith);
      held = λ i h. cc;
      agrees = λ i v h. cc;
      keeps = λ i v h. cc;
      origin = λ v o. cc;
      once = λ i j v u h. cc;
      awake = λ i v h. cc;
    })

pub Reach-Inv : {in_value : Option ℕ} {s : State} → Reach in_value s → Inv s.future s.places
Reach-Inv {in_value} (here {f} e) = init-Inv in_value f e
Reach-Inv (next r (move i mv)) = Move-Inv (Reach-Inv r) i mv
Reach-Inv (next r (broadcast i e)) = broadcast-Inv (Reach-Inv r) i e

-- No step changes `in_value`.
in_value-Move : {i : ℕ} {f f' : Future} {p p' : Place} → Move i f p f' p' → f'.in_value ≡ f.in_value
in_value-Move call_wait = refl
in_value-Move mv = refl

pub Reach-in_value :
    {in_value : Option ℕ} {s : State} → Reach in_value s → get_in_value s.future ≡ in_value
Reach-in_value {in_value} (here {f} e) = cc
Reach-in_value (next r (move i mv)) = in_value-Move mv ∙ Reach-in_value r
Reach-in_value (next r (broadcast i e)) = Reach-in_value r
