-- ===== src/Semaphore/WaitQueue/Tests.antt =====
-- A queue with two nodes, one of them allocated first, of which the first one is removed and the
-- second one notified.
unfoldable use native.Mathlib.Decide.{ℕ_discrete}
use concurrency_cpp.Base.{ℕ, ◌<◌, ◌≡◌, refl, true, false, Option, none, some, [], ◌∷◌, arith}
use concurrency_cpp.Semaphore.WaitQueue.{
  WaitQueue, alloc_cache, alloc_nodes, refill, take_cached, pop_cached, link_last, remove_node,
  unlink_ends, unlink_only, unlink_head, unlink_tail, unlink_front, unlink_back, return_to_cache,
  make_with, enqueue, remove, dequeue, wake_head, destroy,
}
use concurrency_cpp.Semaphore.WaitQueue.Contents.{occurs}
use concurrency_cpp.Semaphore.WaitQueue.Refinement.{
  Reach, made, enqueued, removed, woken, Reach-calls,
}
use concurrency_cpp.Semaphore.WaitQueue.Destructor.{destroy_lem}

abbrev taken : Option (ℕ × WaitQueue) → WaitQueue
taken none = make_with 1
taken (some r) = r.1

abbrev returned : Option WaitQueue → WaitQueue
returned none = make_with 1
returned (some q) = q

abbrev one_node : WaitQueue
one_node = taken (enqueue (make_with 1))

abbrev two_nodes : WaitQueue
two_nodes = taken (enqueue one_node)

abbrev first_removed : WaitQueue
first_removed = returned (remove (some 0) two_nodes)

abbrev second_notified : WaitQueue
second_notified = returned (wake_head first_removed)

second_notified-Reach : Reach second_notified ((1, true) ∷ [])
unfolding make_with alloc_cache alloc_nodes enqueue refill take_cached pop_cached link_last remove
    remove_node unlink_ends unlink_only unlink_head unlink_tail unlink_front unlink_back
    return_to_cache wake_head ℕ_discrete
second_notified-Reach =
    woken first_removed second_notified 1 false []
      (removed two_nodes first_removed [] 0 false ((1, false) ∷ [])
        (enqueued one_node two_nodes ((0, false) ∷ []) 1
          (enqueued (make_with 1) one_node [] 0 (made 1 (omega arith)) (omega arith) refl)
          (omega arith) refl)
        refl)
      refl

capacity_2 : second_notified.cur_queue_capacity < 3
unfolding make_with alloc_cache alloc_nodes enqueue refill take_cached pop_cached link_last remove
    remove_node unlink_ends unlink_only unlink_head unlink_tail unlink_front unlink_back
    return_to_cache wake_head ℕ_discrete
capacity_2 = omega arith

Reach-calls_example :
    ((c : ℕ) × (q' : WaitQueue) × (enqueue second_notified ≡ some (c, q'))
      × (occurs c ((1, true) ∷ []) ≡ 0))
    × ((p : ℕ)
        → 0 < occurs p ((1, true) ∷ [])
        → (q' : WaitQueue) × (remove (some p) second_notified ≡ some q'))
    × (remove none second_notified ≡ some second_notified)
    × ((q' : WaitQueue) × (dequeue second_notified ≡ some q'))
    × ((q' : WaitQueue) × (wake_head second_notified ≡ some q'))
Reach-calls_example =
    Reach-calls second_notified ((1, true) ∷ []) (omega arith) second_notified-Reach

destroy_lem_example :
    (q' : WaitQueue) × (destroy 3 second_notified ≡ some q') × ((j : ℕ) → q'.cells j ≡ none)
destroy_lem_example =
    destroy_lem second_notified ((1, true) ∷ []) 3 second_notified-Reach capacity_2
