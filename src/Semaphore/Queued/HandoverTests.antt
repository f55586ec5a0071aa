-- ===== src/Semaphore/Queued/HandoverTests.antt =====
-- Two threads wait; the first one gets its permits, or gives up.
unfoldable use native.Mathlib.Decide.{ℕ_discrete}
use concurrency_cpp.Base.{
  ℕ, ◌≡◌, refl, true, false, Option, none, some, List, [], ◌∷◌, arith, replicate, Bool,
}
use concurrency_cpp.Semaphore.Word.{rank, add_permits, sub_permits, int_geq}
use concurrency_cpp.Semaphore.WaitQueue.{
  alloc_cache, alloc_nodes, refill, take_cached, pop_cached, link_last, make_with, enqueue,
  wake_head, dequeue, remove, remove_node, unlink_ends, unlink_only, unlink_head, unlink_tail,
  unlink_front, unlink_back, return_to_cache,
}
use concurrency_cpp.Semaphore.WaitQueue.Contents.{Represents}
use concurrency_cpp.Semaphore.Queued.{
  QueuedSemaphore, Pc, outside, terminated, request_record_insert, request_record_remove,
  request_record_min, make, wait_again, try_acquire0, wake_if_met, after_wait, finish, acquire,
  try_acquire_for, release, wake_up, expire, recorded, call_acquire, call_try_acquire_for, notified,
  System, moved, moves, releases, Reach, start, later,
}
use concurrency_cpp.Semaphore.Queued.Outcome.{Asleep}
use concurrency_cpp.Semaphore.Queued.Progress.{HeadNotified}
use concurrency_cpp.Semaphore.Queued.Handover.{acquired-HeadNotified, expire_is_Asleep}

abbrev after_move : QueuedSemaphore → Option (QueuedSemaphore × Pc) → QueuedSemaphore × Pc
after_move s none = (s, terminated)
after_move s (some r) = r

abbrev after_release : QueuedSemaphore → Option QueuedSemaphore → QueuedSemaphore
after_release s none = s
after_release s (some r) = r

abbrev idle : ℕ → System
idle n = record { sem = make 1 n; acquired = 0; released = 0; threads = replicate 2 (outside true) }

abbrev first_waits : System
first_waits = moved (idle 0) 0 2 (after_move (idle 0).sem (acquire 2 (idle 0).sem))

abbrev both_wait : System
both_wait = moved first_waits 1 1 (after_move first_waits.sem (acquire 1 first_waits.sem))

abbrev three_released : System
three_released = record both_wait {
  sem = after_release both_wait.sem (release 3 both_wait.sem);
  released = 3;
}

abbrev first_done : QueuedSemaphore × Pc
first_done = after_move three_released.sem (wake_up false 2 0 three_released.sem)

three_released-Reach : Reach 1 0 2 three_released
unfolding make make_with alloc_cache alloc_nodes acquire try_acquire_for try_acquire0 int_geq rank
    request_record_insert request_record_remove wait_again enqueue refill take_cached pop_cached
    link_last release add_permits sub_permits wake_if_met request_record_min wake_head wake_up
    after_wait finish dequeue remove remove_node unlink_ends unlink_only unlink_head unlink_tail
    unlink_front unlink_back return_to_cache recorded ℕ_discrete
three_released-Reach =
    later
      (later
        (later start (
          moves 0 2 (outside true) (after_move (idle 0).sem (acquire 2 (idle 0).sem)) refl
            (omega arith) (omega arith) (call_acquire true)))
        (moves 1 1 (outside true) (after_move first_waits.sem (acquire 1 first_waits.sem)) refl
          (omega arith) (omega arith) (call_acquire true)))
      (releases 3 three_released.sem (omega arith) (omega arith) refl)

acquired-HeadNotified_example : HeadNotified first_done.0.queue
unfolding make make_with alloc_cache alloc_nodes acquire try_acquire_for try_acquire0 int_geq rank
    request_record_insert request_record_remove wait_again enqueue refill take_cached pop_cached
    link_last release add_permits sub_permits wake_if_met request_record_min wake_head wake_up
    after_wait finish dequeue remove remove_node unlink_ends unlink_only unlink_head unlink_tail
    unlink_front unlink_back return_to_cache recorded ℕ_discrete
acquired-HeadNotified_example =
    acquired-HeadNotified (omega arith) (omega arith) (omega arith) three_released-Reach 0 1
      {timed = false} {timed' = false} {request = 2} {request' = 1} {node = 0} {node' = 1}
      {sem = first_done.0} (omega arith) refl refl (omega arith) (omega arith) (omega arith)
      (notified false 0) refl

abbrev first_tries : System
first_tries = moved (idle 1) 0 2 (after_move (idle 1).sem (try_acquire_for 2 (idle 1).sem))

abbrev second_waits : System
second_waits = moved first_tries 1 1 (after_move first_tries.sem (acquire 1 first_tries.sem))

second_waits-Reach : Reach 1 1 2 second_waits
unfolding make make_with alloc_cache alloc_nodes acquire try_acquire_for try_acquire0 int_geq rank
    request_record_insert request_record_remove wait_again enqueue refill take_cached pop_cached
    link_last release add_permits sub_permits wake_if_met request_record_min wake_head wake_up
    after_wait finish dequeue remove remove_node unlink_ends unlink_only unlink_head unlink_tail
    unlink_front unlink_back return_to_cache recorded ℕ_discrete
second_waits-Reach =
    later
      (later start (
        moves 0 2 (outside true) (after_move (idle 1).sem (try_acquire_for 2 (idle 1).sem)) refl
          (omega arith) (omega arith) (call_try_acquire_for true)))
      (moves 1 1 (outside true) (after_move first_tries.sem (acquire 1 first_tries.sem)) refl
        (omega arith) (omega arith) (call_acquire true))

expire_is_Asleep_example :
    (sem : QueuedSemaphore) × (expire 2 0 second_waits.sem ≡ some (sem, outside false))
    × (sem.permits ≡ 1)
    × (sem.request_record ≡ (1, 1) ∷ (2, 1) ∷ [])
    × ((xs cs : List (ℕ × Bool)) × Represents sem.queue xs cs × Asleep xs)
unfolding make make_with alloc_cache alloc_nodes acquire try_acquire_for try_acquire0 int_geq rank
    request_record_insert request_record_remove wait_again enqueue refill take_cached pop_cached
    link_last release add_permits sub_permits wake_if_met request_record_min wake_head wake_up
    after_wait finish dequeue remove remove_node unlink_ends unlink_only unlink_head unlink_tail
    unlink_front unlink_back return_to_cache recorded ℕ_discrete
expire_is_Asleep_example =
    expire_is_Asleep (omega arith) (omega arith) (omega arith) second_waits-Reach 0 {request = 2}
      {node = 0} refl refl refl refl
