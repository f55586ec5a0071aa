-- ===== src/Semaphore/WaitQueue.antt =====
-- `QueuedSemaphore::WaitQueue` of concurrency/semaphore.h: wait nodes in a doubly linked queue, and a
-- list of nodes that are kept for later. Reading or writing through a null or dangling pointer is a
-- fault, `none`.
pub mod Contents
pub mod Enqueue
pub mod Ends
pub mod Remove
pub mod Refinement
pub mod Destructor
mod Tests
use mathlib.Core.Logic.{ite}
unfoldable use native.Mathlib.Decide.{ℕ_discrete}
use concurrency_cpp.Base.{
  ℕ, zero, suc, ◌+◌, ◌*◌, ◌%◌, ◌^◌, Bool, true, false, ◌&&◌, Option, none, some, if◌then◌else◌,
  ◌==◌,
}
use concurrency_cpp.Base.Chain.{put}
use concurrency_cpp.Base.Partial.{◌>>=◌}

-- The condition variable of a node has one waiter, the thread that enqueued it; `wakeable` says
-- whether it was notified.
pub record WaitNode : Type 0 where
  pub wakeable : Bool
  pub prev : Option ℕ
  pub next : Option ℕ

-- `cells` is the memory of the nodes, and `allocated` the next address.
pub record WaitQueue : Type 0 where
  pub cells : ℕ → Option WaitNode
  pub allocated : ℕ
  pub head : Option ℕ
  pub tail : Option ℕ
  pub cache_head : Option ℕ
  pub cur_queue_capacity : ℕ

abbrev pub write : ℕ → (WaitNode → WaitNode) → WaitQueue → Option WaitQueue
write p f q = do n ← q.cells p; some (record q { cells = put ℕ_discrete q.cells p (some (f n)) })

-- One round of the loop of `alloc_cache`.
abbrev pub alloc_node : WaitQueue → WaitQueue
alloc_node q = record q {
  cells =
      put ℕ_discrete q.cells q.allocated
        (some (record { wakeable = false; prev = none; next = q.cache_head }));
  allocated = suc q.allocated;
  cache_head = some q.allocated;
}

unfoldable pub alloc_nodes : ℕ → WaitQueue → WaitQueue
alloc_nodes zero q = q
alloc_nodes (suc i) q = alloc_nodes i (alloc_node q)

unfoldable pub alloc_cache : WaitQueue → WaitQueue
unfolding alloc_nodes
alloc_cache q = alloc_nodes q.cur_queue_capacity q

-- The constructor, with any number for the 256 of `cur_queue_capacity`.
unfoldable pub make_with : ℕ → WaitQueue
unfolding alloc_cache
make_with capacity = alloc_cache (record {
  cells = λ p. none;
  allocated = 0;
  head = none;
  tail = none;
  cache_head = none;
  cur_queue_capacity = capacity;
})

abbrev pub make : WaitQueue
make = make_with 256

-- `enqueue` up to the node that it takes from the cache.
unfoldable pub refill : WaitQueue → WaitQueue
refill q = elim q.cache_head [
  | none ↦
      let q' = alloc_cache q in
      record q' { cur_queue_capacity = (q'.cur_queue_capacity * 2) % 2 ^ 64 }
  | some c ↦ q
]

unfoldable pub link_last : ℕ → WaitQueue → Option WaitQueue
link_last cur q = elim q.tail [
  | none ↦ some (record q { head = some cur; tail = some cur })
  | some t ↦ (do
    q1 ← write t (λ n. record n { next = some cur }) q
    q2 ← write cur (λ n. record n { prev = some t }) q1
    some (record q2 { tail = some cur }))
]

unfoldable pub pop_cached : WaitQueue → Option (ℕ × WaitQueue)
pop_cached q = do
  cur ← q.cache_head
  node ← q.cells cur
  q1 ← write cur (λ n. record n { wakeable = false }) (record q { cache_head = node.next })
  q2 ← write cur (λ n. record n { next = none }) q1
  some (cur, q2)

-- `enqueue` from the node that it takes from the cache.
unfoldable pub take_cached : WaitQueue → Option (ℕ × WaitQueue)
unfolding pop_cached link_last
take_cached q = do taken ← pop_cached q; q1 ← link_last taken.0 taken.1; some (taken.0, q1)

unfoldable pub enqueue : WaitQueue → Option (ℕ × WaitQueue)
unfolding refill take_cached
enqueue q = take_cached (refill q)

abbrev pub points_at : Option ℕ → ℕ → Bool
points_at none p = false
points_at (some a) p = a == p

-- The three tests of `remove` on `head` and `tail`.
unfoldable pub unlink_only : ℕ → WaitQueue → WaitQueue
unlink_only p q =
    if points_at q.head p && points_at q.tail p then record q { head = none; tail = none } else q

unfoldable pub unlink_head : ℕ → WaitNode → WaitQueue → WaitQueue
unlink_head p n q = if points_at q.head p then record q { head = n.next } else q

unfoldable pub unlink_tail : ℕ → WaitNode → WaitQueue → WaitQueue
unlink_tail p n q = if points_at q.tail p then record q { tail = n.prev } else q

unfoldable pub unlink_ends : ℕ → WaitNode → WaitQueue → WaitQueue
unfolding unlink_only unlink_head unlink_tail
unlink_ends p n q = unlink_tail p n (unlink_head p n (unlink_only p q))

unfoldable pub unlink_front : WaitNode → WaitQueue → Option WaitQueue
unlink_front n q = elim n.prev [
  | none ↦ some q
  | some a ↦ write a (λ m. record m { next = n.next }) q
]

unfoldable pub unlink_back : ℕ → WaitQueue → Option WaitQueue
unlink_back p q = do
  n ← q.cells p
  elim n.next [ none ↦ some q | some b ↦ write b (λ m. record m { prev = n.prev }) q ]

unfoldable pub return_to_cache : ℕ → WaitQueue → Option WaitQueue
return_to_cache p q = do
  q1 ← write p (λ n. record n { prev = none }) q
  q2 ← write p (λ n. record n { next = q1.cache_head }) q1
  some (record q2 { cache_head = some p })

unfoldable pub remove_node : ℕ → WaitQueue → Option WaitQueue
unfolding unlink_ends unlink_front unlink_back return_to_cache
remove_node p q = do
  n ← q.cells p
  q1 ← unlink_front n (unlink_ends p n q)
  q2 ← unlink_back p q1
  return_to_cache p q2

unfoldable pub remove : Option ℕ → WaitQueue → Option WaitQueue
unfolding remove_node
remove none q = some q
remove (some p) q = remove_node p q

unfoldable pub dequeue : WaitQueue → Option WaitQueue
unfolding remove
dequeue q = remove q.head q

unfoldable pub wake_head : WaitQueue → Option WaitQueue
wake_head q = elim q.head [ none ↦ some q | some h ↦ write h (λ n. record n { wakeable = true }) q ]

abbrev pub is_empty : WaitQueue → Bool
is_empty q = elim q.head [ none ↦ true | some h ↦ false ]

-- The loop of `num_waiting_nodes`: `none` also where the fuel runs out. The counter is an `int`.
unfoldable pub count_from : (fuel : ℕ) → WaitQueue → Option ℕ → ℕ → Option ℕ
count_from zero q p ctr = none
count_from (suc fuel) q none ctr = some ctr
count_from (suc fuel) q (some p) ctr = elim (q.cells p) [
  | none ↦ none
  | some n ↦ count_from fuel q n.next ((ctr + 1) % 2 ^ 32)
]

unfoldable pub num_waiting_nodes : (fuel : ℕ) → WaitQueue → Option ℕ
unfolding count_from
num_waiting_nodes fuel q = count_from fuel q q.head 0

-- A loop of the destructor, which deletes the nodes from `p` on.
unfoldable pub delete_from : (fuel : ℕ) → Option ℕ → WaitQueue → Option WaitQueue
delete_from zero p q = none
delete_from (suc fuel) none q = some q
delete_from (suc fuel) (some p) q = elim (q.cells p) [
  | none ↦ none
  | some n ↦ delete_from fuel n.next (record q { cells = put ℕ_discrete q.cells p none })
]

unfoldable pub destroy : (fuel : ℕ) → WaitQueue → Option WaitQueue
unfolding delete_from
destroy fuel q = do q1 ← delete_from fuel q.head q; delete_from fuel q1.cache_head q1
