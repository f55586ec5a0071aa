-- ===== src/Semaphore/Simple/Tests.antt =====
-- Runs of a `SimpleSemaphore`, and its theorems at states that they reach.
use concurrency_cpp.Base.{ℕ, ◌<◌, ◌≡◌, refl, true, false, some, [], ◌∷◌, arith, get_elem?}
use concurrency_cpp.Semaphore.Word.{rank, add_permits, sub_permits, int_geq}
use concurrency_cpp.Semaphore.Simple.{
  Pc, outside, waiting, notifying, pass, acquire, release, call_acquire, System, ask, call_release,
  wake_up, notify_all, Reach, start, later,
}
use concurrency_cpp.Semaphore.Simple.Invariant.{notifies, sleeper_is_notified}

-- One thread waits for 3 permits of 2; another has released 2 more and is about to notify.
abbrev released : System
released = record {
  count = 4;
  acquired = 0;
  released = 2;
  threads = waiting false 3 true ∷ notifying ∷ [];
}

Reach-released : Reach 2 2 released
unfolding acquire release pass add_permits sub_permits int_geq rank
Reach-released =
    later (later start (ask 0 {request = 3} refl (omega arith) call_acquire))
      (call_release 1 2 refl (omega arith) (omega arith))

-- The waiting thread takes its 3 permits.
abbrev granted_late : System
granted_late = record {
  count = 1;
  acquired = 3;
  released = 2;
  threads = outside true ∷ outside true ∷ [];
}

Reach-granted_late : Reach 2 2 granted_late
unfolding pass sub_permits int_geq rank
Reach-granted_late = later (later Reach-released (notify_all 1 refl)) (wake_up 0 refl)

sleeper_is_notified_example :
    (j : ℕ) × (p : Pc) × (get_elem? released.threads j ≡ some p) × (0 < notifies p)
unfolding int_geq rank
sleeper_is_notified_example = sleeper_is_notified (omega arith) Reach-released 0 refl refl
