-- ===== src/SharedMutex/ReaderPreferring/Refinement.antt =====
-- A `ReaderPreferringSharedTimedMutex` keeps the promises of a shared mutex where only a writer that
-- owns it keeps readers out.
use concurrency_cpp.Base.{ℕ, ◌<◌, ◌≡◌, refl, ◌∙◌, true, arith, set}
use concurrency_cpp.Base.Threads.{total, total-set, total-set_same, total-map}
use concurrency_cpp.SharedMutex.Spec.{OwnerStep, stutter, Turn, Exclusive, turn-OwnerStep}
use concurrency_cpp.SharedMutex.ReaderPreferring.{
  Pc, outside, pass, lock, try_lock_until, lock_timeout, unlock, try_lock, pass_shared, lock_shared,
  try_lock_shared_until, shared_timeout, try_lock_shared, unlock_shared, Move, call_lock,
  call_try_lock, call_unlock, wake, System, Step, move, notified, Reach,
}
use concurrency_cpp.SharedMutex.ReaderPreferring.Invariant.{
  writes, reads, Inv, Step-Inv, Reach-Counts,
}

Move-Turn :
    {state : ℕ} {p : Pc} {q : ℕ × Pc}
    → Move state p q
    → Turn (reads p) (writes p) (reads q.1) (writes q.1)
unfolding pass pass_shared lock try_lock_until lock_timeout unlock try_lock lock_shared
    try_lock_shared_until shared_timeout try_lock_shared unlock_shared
Move-Turn call_lock = ground arith
Move-Turn (call_try_lock owns_lock) = ground arith
Move-Turn call_unlock = ground arith
Move-Turn _ = ground arith

Inv-Exclusive : (s : System) → Inv s → Exclusive (total reads s.threads) (total writes s.threads)
Inv-Exclusive s inv = ground arith

-- Readers join only where nobody writes.
joins_without_writer :
    (s t : System)
    → Inv t
    → total writes t.threads ≡ total writes s.threads
    → total reads s.threads < total reads t.threads
    → total writes s.threads ≡ 0
joins_without_writer s t inv same more = ground arith

-- Every step from a reachable state is one of a shared mutex, or changes no owner: exclusive
-- ownership comes only where nobody owns the mutex, shared ownership only where no writer owns it,
-- to less than 2 ^ 31 readers in all, and owners change one at a time.
pub preferring-OwnerStep :
    {n : ℕ} {s t : System}
    → Reach n s
    → Step s t
    → OwnerStep
        (total writes s.threads)
        (total reads s.threads)
        (total writes s.threads)
        (total reads t.threads)
        (total writes t.threads)
preferring-OwnerStep {s = s} {t} r (move i {p} {r = q} at m) =
    let inv = Reach-Counts r in
    let inv' = Step-Inv (move i at m) inv in
    let turn = Move-Turn m in
    let reading = total-set reads s.threads i q.1 at in
    let writing = total-set writes s.threads i q.1 at in
    turn-OwnerStep _ _ _ _ _ (reads p) (writes p) (reads q.1) (writes q.1) turn
      (Inv-Exclusive s inv) (Inv-Exclusive t inv') (reading, writing)
      (λ more. joins_without_writer s t inv' (omega (arith, turn, reading, writing, more)) more)
preferring-OwnerStep {s = s} r (notified i at) =
    stutter
      (total-map reads wake (λ p. ground arith) (set s.threads i (outside true))
        ∙ total-set_same reads s.threads i (outside true) refl at)
      (total-map writes wake (λ p. ground arith) (set s.threads i (outside true))
        ∙ total-set_same writes s.threads i (outside true) refl at)
