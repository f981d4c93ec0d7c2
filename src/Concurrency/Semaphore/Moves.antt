-- ===== src/Concurrency/Semaphore/Moves.antt =====
-- Every step keeps the invariant.
use cextras.Base.{ℕ, zero, suc, ◌+◌, ◌<◌, ◌≡◌, ◌≢◌, refl, true, none, some, arith, word}
use cextras.Concurrency.Family.{update}
use cextras.Concurrency.Semaphore.{
  Semaphore, Place, woken, signalling, leaving, Move, call_wait, lock_wait, sleep, fail_sleep,
  relock, read, lock_post, count_down, count_up, count_down, count_up, init, idle, State, is_asleep,
  move, signal, signal_none, Reach, here, next,
}
use cextras.Concurrency.Semaphore.Inv.{inside, to_take, to_add, Inv}

-- The premise of a move, for the clauses that cannot name it.
abbrev Guard : {i : ℕ} {s s' : Semaphore} {p p' : Place} → Move i s p s' p' → Type 0
Guard {s = s} (lock_wait g) = s.mutex ≡ none
Guard {s = s} (sleep g) = s.count ≡ 0
Guard {s = s} (fail_sleep g) = s.count ≡ 0
Guard {s = s} (relock g) = s.mutex ≡ none
Guard {s = s} (read g) = s.count ≢ 0
Guard {s = s} (lock_post g) = s.mutex ≡ none
Guard _ = Unit

guard : {i : ℕ} {s s' : Semaphore} {p p' : Place} (mv : Move i s p s' p') → Guard mv
guard (lock_wait g) = g
guard (sleep g) = g
guard (fail_sleep g) = g
guard (relock g) = g
guard (read g) = g
guard (lock_post g) = g
guard _ = tt

module _ {initial : ℕ} {s : Semaphore} {places : ℕ → Place} (inv : Inv initial s places)
    (i : ℕ) where
  owner-Move :
      {p p' : Place} {s' : Semaphore}
      → Move i s p s' p'
      → places i ≡ p
      → (j : ℕ) → inside (update places i p' j) ≡ true
      → s'.mutex ≡ some j
  owner-Move call_wait e j h = ground (arith, inv.owner i, inv.owner j)
  owner-Move mv e j h = ground (arith, guard mv, inv.owner i, inv.owner j)

  held-Move :
      {p p' : Place} {s' : Semaphore}
      → Move i s p s' p'
      → places i ≡ p
      → (j : ℕ) → s'.mutex ≡ some j
      → inside (update places i p' j) ≡ true
  held-Move call_wait e j h = ground (arith, inv.held i, inv.held j)
  held-Move mv e j h = ground (arith, guard mv, inv.owner i, inv.held i, inv.held j)

  take-Move :
      {p p' : Place} {s' : Semaphore}
      → Move i s p s' p'
      → places i ≡ p
      → (j n : ℕ) → to_take (update places i p' j) ≡ some n
      → (s'.count ≡ n) × (0 < n)
  take-Move call_wait e j n h = ground (arith, inv.take j n)
  take-Move mv e j n h = ground (arith, guard mv, inv.take j n, inv.owner i, inv.owner j)

  add-Move :
      {p p' : Place} {s' : Semaphore}
      → Move i s p s' p'
      → places i ≡ p
      → (j n : ℕ) → to_add (update places i p' j) ≡ some n
      → s'.count ≡ n
  add-Move call_wait e j n h = ground (arith, inv.add j n)
  add-Move mv e j n h = ground (arith, guard mv, inv.add j n, inv.owner i, inv.owner j)

  conserved-Move :
      {p p' : Place} {s' : Semaphore}
      → Move i s p s' p'
      → places i ≡ p
      → initial + s'.posts < word
      → s'.count + s'.takes ≡ initial + s'.posts
  conserved-Move call_wait e h = inv.conserved h
  conserved-Move (count_down {n}) e h = ground (arith, inv.conserved, inv.take i n)
  conserved-Move (count_up {n}) e h = ground (arith, inv.conserved, inv.add i n)
  conserved-Move mv e h = inv.conserved h

  Move-Inv :
      {p : Place} {s' : Semaphore} → Move i s (places i) s' p → Inv initial s' (update places i p)
  Move-Inv mv = record {
    owner = owner-Move mv refl;
    held = held-Move mv refl;
    take = take-Move mv refl;
    add = add-Move mv refl;
    conserved = conserved-Move mv refl;
  }

  signal_none-Inv : places i ≡ signalling → Inv initial s (update places i leaving)
  signal_none-Inv e = record {
    owner = λ j h. ground (arith, inv.owner i, inv.owner j);
    held = λ j h. ground (arith, inv.owner i, inv.held i, inv.held j);
    take = λ j n h. ground (arith, inv.take j n);
    add = λ j n h. ground (arith, inv.add j n);
    conserved = inv.conserved;
  }

  signal-Inv :
      (k : ℕ)
      → places i ≡ signalling
      → is_asleep (places k) ≡ true
      → Inv initial s (update (update places k woken) i leaving)
  signal-Inv k e a = record {
    owner = λ j h. ground (arith, inv.owner i, inv.owner j);
    held = λ j h. ground (arith, inv.owner i, inv.held i, inv.held j);
    take = λ j n h. ground (arith, inv.take j n);
    add = λ j n h. ground (arith, inv.add j n);
    conserved = inv.conserved;
  }

init-Inv :
    (initial mutex_rv cond_rv : ℕ) (s : Semaphore)
    → init mutex_rv cond_rv initial ≡ (0, some s)
    → Inv initial s (λ i. idle)
init-Inv initial zero zero s e =
    let same : s ≡ record { count = initial; mutex = none; takes = 0; posts = 0 } = cc in
    rw same (record {
      owner = λ i h. absurd (ground arith);
      held = λ i h. cc;
      take = λ i n h. cc;
      add = λ i n h. cc;
      conserved = λ h. omega arith;
    })
init-Inv initial zero (suc c) s e = cc
init-Inv initial (suc m) c s e = cc

pub Reach-Inv : {initial : ℕ} {s : State} → Reach initial s → Inv initial s.semaphore s.places
Reach-Inv {initial} (here m c {s} e) = init-Inv initial m c s e
Reach-Inv (next r (move i mv)) = Move-Inv (Reach-Inv r) i mv
Reach-Inv (next r (signal i j e a)) = signal-Inv (Reach-Inv r) i j e a
Reach-Inv (next r (signal_none i e a)) = signal_none-Inv (Reach-Inv r) i e
