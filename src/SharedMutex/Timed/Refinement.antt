-- ===== src/SharedMutex/Timed/Refinement.antt =====
-- A `SharedTimedMutex` keeps the promises of a shared mutex that lets no reader pass a writer.
use native.Mathlib.Decide.{ℕ_discrete}
use concurrency_cpp.Base.{ℕ, arith, set}
use concurrency_cpp.Base.Threads.{total, total-set}
use concurrency_cpp.SharedMutex.Spec.{OwnerStep, stutter, Turn, Exclusive, turn-OwnerStep}
use concurrency_cpp.SharedMutex.Timed.{
  Pc, outside, pass_wgate, pass_rgate, lock, try_lock_until, rgate_timeout, wgate_timeout, unlock,
  try_lock, pass_shared, lock_shared, try_lock_shared_until, shared_timeout, try_lock_shared,
  unlock_shared, Move, call_lock, call_try_lock, call_unlock, wake_rgate, wake_wgate, System, Step,
  move, notify_all_rgate, notify_one_rgate, notify_none_rgate, notify_one_wgate, notify_none_wgate,
  Reach,
}
use concurrency_cpp.SharedMutex.Timed.Invariant.{
  entered, writes, reads, Inv, Step-Inv, Reach-Inv, no_reader_passes, Same, Same-trans, Same-notify,
  Same-wake_all, Same-set, Alike-wake_rgate, Alike-wake_wgate,
}

Move-Turn :
    {state : ℕ} {p : Pc} {q : ℕ × Pc}
    → Move state p q
    → Turn (reads p) (writes p) (reads q.1) (writes q.1)
unfolding pass_rgate pass_wgate pass_shared lock try_lock_until rgate_timeout wgate_timeout unlock
    try_lock lock_shared try_lock_shared_until shared_timeout try_lock_shared unlock_shared
Move-Turn call_lock = ground arith
Move-Turn (call_try_lock owns_lock) = ground arith
Move-Turn call_unlock = ground arith
Move-Turn _ = ground arith

Inv-Exclusive : (s : System) → Inv s → Exclusive (total reads s.threads) (total writes s.threads)
Inv-Exclusive s inv = ground arith

same_owners :
    {barred : ℕ} (s t : System)
    → Same s.threads t.threads
    → OwnerStep barred
        (total reads s.threads)
        (total writes s.threads)
        (total reads t.threads)
        (total writes t.threads)
same_owners s t same = stutter same.reading same.writing

-- Every step from a reachable state is one of a shared mutex, or changes no owner: exclusive
-- ownership comes only where nobody owns the mutex, shared ownership only where no writer owns it
-- or has entered, to less than 2 ^ 31 readers in all, and owners change one at a time.
pub timed-OwnerStep :
    {n : ℕ} {s t : System}
    → Reach n s
    → Step s t
    → OwnerStep
        (total entered s.threads)
        (total reads s.threads)
        (total writes s.threads)
        (total reads t.threads)
        (total writes t.threads)
timed-OwnerStep {s = s} {t} r (move i {p} {r = q} at m) =
    let inv = Reach-Inv r in
    turn-OwnerStep _ _ _ _ _ (reads p) (writes p) (reads q.1) (writes q.1) (Move-Turn m)
      (Inv-Exclusive s inv) (Inv-Exclusive t (Step-Inv (move i at m) inv))
      (total-set reads s.threads i q.1 at, total-set writes s.threads i q.1 at)
      (λ more. elim (ℕ_discrete (total entered s.threads) 0) [
        | yes none ↦ none
        | no pos ↦
            absurd (omega (arith, more, no_reader_passes r (move i at m) (omega (arith, pos))))
      ])
timed-OwnerStep {s = s} {t} r (notify_all_rgate i {b} at) =
    same_owners s t
      (Same-trans (Same-notify s.threads i at) (Same-wake_all (set s.threads i (outside b))))
timed-OwnerStep {s = s} {t} r (notify_one_rgate i {b} j {p} at at' asleep) = same_owners s t (
    Same-trans (Same-notify s.threads i at)
      (Same-set (set s.threads i (outside b)) j (wake_rgate p) (Alike-wake_rgate p) at'))
timed-OwnerStep {s = s} {t} r (notify_none_rgate i at none_asleep) =
    same_owners s t (Same-notify s.threads i at)
timed-OwnerStep {s = s} {t} r (notify_one_wgate i {b} j {p} at at' asleep) = same_owners s t (
    Same-trans (Same-notify s.threads i at)
      (Same-set (set s.threads i (outside b)) j (wake_wgate p) (Alike-wake_wgate p) at'))
timed-OwnerStep {s = s} {t} r (notify_none_wgate i at none_asleep) =
    same_owners s t (Same-notify s.threads i at)
