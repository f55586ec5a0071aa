-- ===== src/Semaphore/Queued/Tests.antt =====
-- A thread waits for two permits, which are released and of which another thread takes one.
unfoldable use native.Mathlib.Decide.{ℕ_discrete}
use concurrency_cpp.Base.{
  ℕ, ◌+◌, ◌^◌, ◌≤◌, ◌<◌, ◌≡◌, ◌≢◌, refl, Bool, true, false, Option, none, some, List, arith,
  replicate,
}
use concurrency_cpp.Semaphore.Word.{rank, add_permits, sub_permits, int_geq, unsigned_geq}
use concurrency_cpp.Semaphore.WaitQueue.{
  alloc_cache, alloc_nodes, refill, take_cached, pop_cached, link_last, make_with, enqueue,
  wake_head,
}
use concurrency_cpp.Semaphore.WaitQueue.Contents.{Represents}
use concurrency_cpp.Semaphore.Queued.{
  QueuedSemaphore, Pc, outside, waiting, terminated, request_record_insert, request_record_min,
  make, wait_again, try_acquire0, wake_if_met, acquire, release, try_acquire, wake_up, recorded,
  call_acquire, call_try_acquire, notified, System, moved, moves, releases, Reach, start, later,
}
use concurrency_cpp.Semaphore.Queued.Outcome.{Asleep}
use concurrency_cpp.Semaphore.Queued.Progress.{
  HeadNotified, moves_return, permits_are_conserved, release-HeadNotified, retry_is_Asleep,
}

abbrev after_move : QueuedSemaphore → Option (QueuedSemaphore × Pc) → QueuedSemaphore × Pc
after_move s none = (s, terminated)
after_move s (some r) = r

abbrev after_release : QueuedSemaphore → Option QueuedSemaphore → QueuedSemaphore
after_release s none = s
after_release s (some r) = r

abbrev idle : System
idle = record { sem = make 1 0; acquired = 0; released = 0; threads = replicate 2 (outside true) }

abbrev queued : System
queued = moved idle 0 2 (after_move idle.sem (acquire 2 idle.sem))

abbrev released : System
released = record queued { sem = after_release queued.sem (release 2 queued.sem); released = 2 }

abbrev taken : System
taken = moved released 1 1 (try_acquire 1 released.sem)

queued-Reach : Reach 1 0 2 queued
unfolding make make_with alloc_cache alloc_nodes acquire try_acquire0 int_geq rank
    request_record_insert wait_again enqueue refill take_cached pop_cached link_last recorded
    ℕ_discrete
queued-Reach = later start (
    moves 0 2 (outside true) (after_move idle.sem (acquire 2 idle.sem)) refl (omega arith)
      (omega arith) (call_acquire true))

taken-Reach : Reach 1 0 2 taken
unfolding make make_with alloc_cache alloc_nodes acquire try_acquire0 int_geq rank
    request_record_insert wait_again enqueue refill take_cached pop_cached link_last recorded
    release add_permits wake_if_met request_record_min wake_head ℕ_discrete
taken-Reach =
    later (later queued-Reach (releases 2 released.sem (omega arith) (omega arith) refl)) (
      moves 1 1 (outside true) (try_acquire 1 released.sem) refl (omega arith) (omega arith)
        (call_try_acquire true))

node_0 : taken.sem.queue.cells 0 ≡ some (record { wakeable = true; prev = none; next = none })
unfolding make make_with alloc_cache alloc_nodes acquire try_acquire0 int_geq rank
    request_record_insert wait_again enqueue refill take_cached pop_cached link_last release
    add_permits wake_if_met request_record_min wake_head try_acquire unsigned_geq sub_permits
    ℕ_discrete
node_0 = refl

no_overflow : rank queued.sem.permits + 2 < 2 ^ 32
unfolding make make_with alloc_cache alloc_nodes acquire try_acquire0 int_geq rank
    request_record_insert wait_again enqueue refill take_cached pop_cached link_last release
    add_permits wake_if_met request_record_min wake_head try_acquire unsigned_geq sub_permits
    ℕ_discrete
no_overflow = omega arith

two_are_met : int_geq (add_permits queued.sem.permits 2) 2 ≡ true
unfolding make make_with alloc_cache alloc_nodes acquire try_acquire0 int_geq rank
    request_record_insert wait_again enqueue refill take_cached pop_cached link_last release
    add_permits wake_if_met request_record_min wake_head try_acquire unsigned_geq sub_permits
    ℕ_discrete
two_are_met = refl

one_is_too_few : int_geq taken.sem.permits 2 ≡ false
unfolding make make_with alloc_cache alloc_nodes acquire try_acquire0 int_geq rank
    request_record_insert wait_again enqueue refill take_cached pop_cached link_last release
    add_permits wake_if_met request_record_min wake_head try_acquire unsigned_geq sub_permits
    ℕ_discrete
one_is_too_few = refl

moves_return_example :
    (r : QueuedSemaphore × Pc) × (wake_up false 2 0 taken.sem ≡ some r) × (r.1 ≢ terminated)
unfolding make make_with alloc_cache alloc_nodes acquire try_acquire0 int_geq rank
    request_record_insert wait_again enqueue refill take_cached pop_cached link_last release
    add_permits wake_if_met request_record_min wake_head try_acquire unsigned_geq sub_permits
    ℕ_discrete
moves_return_example =
    moves_return (omega arith) (omega arith) (omega arith) taken-Reach 0 2 (waiting false 2 0) refl
      (omega arith) (notified false 0)

permits_are_conserved_example :
    (2 ^ 31 ≤ rank taken.sem.permits) × (rank taken.sem.permits + taken.acquired ≡ (0 + 2 ^ 31) + 2)
unfolding make make_with alloc_cache alloc_nodes acquire try_acquire0 int_geq rank
    request_record_insert wait_again enqueue refill take_cached pop_cached link_last release
    add_permits wake_if_met request_record_min wake_head try_acquire unsigned_geq sub_permits
    ℕ_discrete
permits_are_conserved_example =
    permits_are_conserved (omega arith) (omega arith) (omega arith) taken-Reach

release-HeadNotified_example :
    (sem : QueuedSemaphore) × (release 2 queued.sem ≡ some sem) × HeadNotified sem.queue
unfolding make make_with alloc_cache alloc_nodes acquire try_acquire0 int_geq rank
    request_record_insert wait_again enqueue refill take_cached pop_cached link_last release
    add_permits wake_if_met request_record_min wake_head try_acquire unsigned_geq sub_permits
    ℕ_discrete
release-HeadNotified_example =
    release-HeadNotified (omega arith) (omega arith) (omega arith) queued-Reach 0 2 {timed = false}
      {request = 2} {node = 0} refl (omega arith) (omega arith) no_overflow two_are_met

retry_is_Asleep_example :
    (sem : QueuedSemaphore) × (last : ℕ) × (wake_up false 2 0 taken.sem
      ≡ some (sem, waiting false 2 last))
    × (sem.queue.tail ≡ some last)
    × (sem.permits ≡ taken.sem.permits)
    × ((xs cs : List (ℕ × Bool)) × Represents sem.queue xs cs × Asleep xs)
unfolding make make_with alloc_cache alloc_nodes acquire try_acquire0 int_geq rank
    request_record_insert wait_again enqueue refill take_cached pop_cached link_last release
    add_permits wake_if_met request_record_min wake_head try_acquire unsigned_geq sub_permits
    ℕ_discrete
retry_is_Asleep_example =
    retry_is_Asleep (omega arith) (omega arith) (omega arith) taken-Reach 0 {timed = false}
      {request = 2} {node = 0} refl (omega arith) node_0 refl one_is_too_few
