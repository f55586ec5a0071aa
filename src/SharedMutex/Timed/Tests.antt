-- ===== src/SharedMutex/Timed/Tests.antt =====
-- Runs of `SharedTimedMutex`, and its theorems at states that they reach.
use concurrency_cpp.Base.{ℕ, ◌+◌, ◌^◌, ◌≡◌, refl, ◌≢◌, true, false, some, [], ◌∷◌, arith, get_elem?}
use concurrency_cpp.Base.Threads.{total}
use concurrency_cpp.SharedMutex.Timed.{
  Pc, outside, rgate_writer, wgate_writer, writer, reader, notify, wgate_one, lock, lock_shared,
  unlock_shared, try_lock, call_lock, call_lock_shared, call_unlock_shared, wake_wgate_writer,
  System, Step, move, notify_one_wgate, Reach, start, later,
}
use concurrency_cpp.SharedMutex.Timed.Invariant.{entered, reads, writes, mutual_exclusion}
use concurrency_cpp.SharedMutex.Timed.Refinement.{timed-OwnerStep}
use concurrency_cpp.SharedMutex.Spec.{OwnerStep}
use concurrency_cpp.SharedMutex.Timed.Wakeups.{active, no_lost_wakeup}

abbrev writing : System
writing = record { state = 2 ^ 31; threads = writer ∷ outside true ∷ [] }

-- The first of two threads locks a new mutex.
Reach-writing : Reach 2 writing
unfolding lock
Reach-writing = later start (move 0 refl call_lock)

-- The second one sleeps.
abbrev queued : System
queued = record { state = 2 ^ 31; threads = writer ∷ rgate_writer false true ∷ [] }

Reach-queued : Reach 2 queued
unfolding lock
Reach-queued = later Reach-writing (move 1 refl call_lock)

-- A reader, then a writer that waits for it, and the reader leaves.
abbrev waiting : System
waiting = record {
  state = 2 ^ 31 + 1;
  threads = reader ∷ wgate_writer false true ∷ outside true ∷ [];
}

Reach-waiting : Reach 3 waiting
unfolding lock lock_shared
Reach-waiting = later (later start (move 0 refl call_lock_shared)) (move 1 refl call_lock)

abbrev leaving : System
leaving = record {
  state = 2 ^ 31;
  threads = notify wgate_one true ∷ wgate_writer false true ∷ outside true ∷ [];
}

Step-leaving : Step waiting leaving
unfolding unlock_shared
Step-leaving = move 0 refl call_unlock_shared

handed_over :
    Reach 3 (record { state = 2 ^ 31; threads = outside true ∷ writer ∷ outside true ∷ [] })
unfolding lock
handed_over =
    later (later (later Reach-waiting Step-leaving) (notify_one_wgate 0 1 refl refl refl))
      (move 1 refl wake_wgate_writer)

-- `try_lock` fails on a mutex with a reader, and where `mtx` is taken.
try_lock_fails : (try_lock true 1 ≡ (1, outside false)) × (try_lock false 0 ≡ (0, outside false))
unfolding try_lock
try_lock_fails = (refl, refl)

mutual_exclusion_example :
    (get_elem? writing.threads 1 ≢ some writer) × (get_elem? writing.threads 1 ≢ some reader)
mutual_exclusion_example = mutual_exclusion Reach-writing 0 1 (omega arith) refl

no_lost_wakeup_example : (j : ℕ) × (q : Pc) × (get_elem? queued.threads j ≡ some q) × (active q ≡ 1)
no_lost_wakeup_example = no_lost_wakeup (omega arith) Reach-queued 1 refl (omega arith)

timed-OwnerStep_example :
    OwnerStep
      (total entered waiting.threads)
      (total reads waiting.threads)
      (total writes waiting.threads)
      (total reads leaving.threads)
      (total writes leaving.threads)
timed-OwnerStep_example = timed-OwnerStep Reach-waiting Step-leaving
