-- ===== src/Latch/Tests.antt =====
-- Runs of a `Latch`, and its theorems at states that they reach.
use concurrency_cpp.Base.{ℕ, ◌+◌, ◌<◌, ◌≡◌, refl, true, false, some, [], ◌∷◌, arith, get_elem?}
use concurrency_cpp.Base.Threads.{total}
use concurrency_cpp.Latch.{
  Pc, outside, locking, predicate, waiting, bias, signed_leb, signed_ltb, is_ready, count_down,
  wait, wait_locked, wait_predicate, call_wait, test, test_predicate, fall_asleep, release, enter,
  sync, wake_up, call_count_down, System, move, acquire, count, notify_all, Reach, start, later,
}
use concurrency_cpp.Latch.Invariant.{syncs, tells}
use concurrency_cpp.Latch.Promises.{open_wakes_all}

-- A thread is about to fall asleep when another counts the latch down to 0.
abbrev asleep_late : System
asleep_late = record { value = 0; counted = 1; threads = waiting true ∷ locking false ∷ [] }

Reach-asleep_late : Reach 1 2 asleep_late
unfolding wait wait_locked wait_predicate is_ready signed_leb signed_ltb bias count_down total
Reach-asleep_late =
    later
      (later
        (later
          (later (later (later start (move 0 refl call_wait)) (acquire 0 refl enter refl))
            (move 0 refl test))
          (move 0 refl test_predicate))
        (count 1 1 refl (call_count_down 1) (omega arith) (omega arith)))
      (move 0 refl fall_asleep)

-- It is woken, and looks at the counter again.
abbrev looking : System
looking = record { value = 0; counted = 1; threads = predicate ∷ outside ∷ [] }

Reach-looking : Reach 1 2 looking
unfolding total
Reach-looking =
    later
      (later (later (later Reach-asleep_late (acquire 1 refl sync refl)) (move 1 refl release))
        (notify_all 1 refl))
      (acquire 0 refl wake_up refl)

open_wakes_all_example :
    (j : ℕ) × (q : Pc) × (get_elem? asleep_late.threads j ≡ some q) × (0 < syncs q + tells q)
unfolding is_ready signed_leb bias
open_wakes_all_example = open_wakes_all (omega arith) Reach-asleep_late refl 0 refl
