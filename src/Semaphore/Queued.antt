-- ===== src/Semaphore/Queued.antt =====
-- `QueuedSemaphore` of concurrency/semaphore.h. Each function is one hold of `main_lock`: a call up to
-- its wait or to its end, or what follows a wait. `request_record` is a list ordered by its keys.
pub mod Record
pub mod Outcome
pub mod Notified
pub mod Moves
pub mod Weights
pub mod Invariant
pub mod Progress
pub mod Handover
mod Tests
mod HandoverTests
use concurrency_cpp.Base.{
  ℕ, ◌+◌, ◌-◌, ◌%◌, ◌^◌, ◌<◌, ◌≡◌, Bool, true, false, ◌&&◌, Option, none, some, List, [], ◌∷◌,
  if◌then◌else◌, ◌==◌, ltb, get_elem?, set, replicate,
}
use concurrency_cpp.Base.Partial.{◌>>=◌}
use concurrency_cpp.Semaphore.Word.{rank, add_permits, sub_permits, int_geq, unsigned_geq}
use concurrency_cpp.Semaphore.WaitQueue
use concurrency_cpp.Semaphore.WaitQueue.{WaitQueue, make_with, is_empty}

pub record QueuedSemaphore : Type 0 where
  pub permits : ℕ
  pub queue : WaitQueue
  pub request_record : List (ℕ × ℕ)

-- `node`: the one that the thread waits on.
pub data Pc : Type 0 where
  outside : (result : Bool) → Pc
  waiting : (timed : Bool) → (request : ℕ) → (node : ℕ) → Pc
  terminated : Pc

-- `find` and `emplace` of a map from requests to counters of 64 bits.
unfoldable pub request_record_insert : ℕ → List (ℕ × ℕ) → List (ℕ × ℕ)
request_record_insert request [] = (request, 1) ∷ []
request_record_insert request ((k, count) ∷ m) =
    if request == k
    then (k, (count + 1) % 2 ^ 64) ∷ m
    else if ltb request k
    then (request, 1) ∷ (k, count) ∷ m
    else (k, count) ∷ request_record_insert request m

unfoldable pub request_record_remove : ℕ → List (ℕ × ℕ) → List (ℕ × ℕ)
request_record_remove request [] = []
request_record_remove request ((k, count) ∷ m) =
    if request == k
    then (if count == 1 then m else (k, count - 1) ∷ m)
    else (k, count) ∷ request_record_remove request m

unfoldable pub request_record_min : List (ℕ × ℕ) → ℕ
request_record_min [] = 0
request_record_min ((k, count) ∷ m) = k

-- The constructor, with any capacity for the first nodes of the queue.
unfoldable pub make : ℕ → ℕ → QueuedSemaphore
make capacity initial_permits = record {
  permits = initial_permits;
  queue = make_with capacity;
  request_record = [];
}

-- One round of the loops of `try_acquire0` up to the wait.
unfoldable pub wait_again : Bool → ℕ → QueuedSemaphore → Option (QueuedSemaphore × Pc)
wait_again timed request s = do
  taken ← WaitQueue.enqueue s.queue
  some (record s { queue = taken.1 }, waiting timed request taken.0)

unfoldable pub try_acquire0 : Bool → ℕ → QueuedSemaphore → Option (QueuedSemaphore × Pc)
unfolding int_geq sub_permits wait_again request_record_insert
try_acquire0 timed request s =
    if int_geq s.permits request && is_empty s.queue
    then some (record s { permits = sub_permits s.permits request }, outside true)
    else wait_again timed request
        (record s { request_record = request_record_insert request s.request_record })

-- The head is woken where the permits are no less than the least request of the record.
unfoldable pub wake_if_met : QueuedSemaphore → Option QueuedSemaphore
unfolding int_geq request_record_min
wake_if_met s =
    if int_geq s.permits (request_record_min s.request_record)
    then (do q ← WaitQueue.wake_head s.queue; some (record s { queue = q }))
    else some s

-- `try_acquire0` from the removal of the request on.
unfoldable pub finish : ℕ → QueuedSemaphore → Option (QueuedSemaphore × Pc)
unfolding wake_if_met int_geq sub_permits request_record_remove
finish request s = do
  s1 ← wake_if_met (record s {
    permits = sub_permits s.permits request;
    request_record = request_record_remove request s.request_record;
  })
  some (s1, (if int_geq s1.permits 0 then outside true else terminated))

-- A round from the end of a wait on: the node is wakeable.
unfoldable pub after_wait : Bool → ℕ → QueuedSemaphore → Option (QueuedSemaphore × Pc)
unfolding int_geq finish wait_again
after_wait timed request s = do
  q ← WaitQueue.dequeue s.queue
  (if int_geq s.permits request
      then finish request (record s { queue = q })
      else wait_again timed request (record s { queue = q }))

-- A thread that waits is notified, or wakes up for nothing.
unfoldable pub wake_up : Bool → ℕ → ℕ → QueuedSemaphore → Option (QueuedSemaphore × Pc)
unfolding after_wait
wake_up timed request wait_node s = do
  n ← s.queue.cells wait_node
  (if n.wakeable then after_wait timed request s else some (s, waiting timed request wait_node))

-- The deadline of a timed wait passes.
unfoldable pub expire : ℕ → ℕ → QueuedSemaphore → Option (QueuedSemaphore × Pc)
unfolding after_wait
expire request wait_node s = do
  n ← s.queue.cells wait_node
  (if n.wakeable then after_wait true request s else (do
    q ← WaitQueue.remove (some wait_node) s.queue
    some (record s { queue = q }, outside false)))

unfoldable pub acquire : ℕ → QueuedSemaphore → Option (QueuedSemaphore × Pc)
unfolding try_acquire0
acquire request s = try_acquire0 false request s

unfoldable pub try_acquire_for : ℕ → QueuedSemaphore → Option (QueuedSemaphore × Pc)
unfolding try_acquire0
try_acquire_for request s = try_acquire0 true request s

unfoldable pub release : ℕ → QueuedSemaphore → Option QueuedSemaphore
unfolding add_permits wake_if_met
release request s = wake_if_met (record s { permits = add_permits s.permits request })

-- The comparison is one of unsigned numbers.
unfoldable pub try_acquire : ℕ → QueuedSemaphore → QueuedSemaphore × Pc
unfolding unsigned_geq sub_permits
try_acquire request s =
    if unsigned_geq s.permits request
    then (record s { permits = sub_permits s.permits request }, outside true)
    else (s, outside false)

-- What a thread at a place of its own may do for a request of permits.
pub data Move (s : QueuedSemaphore) (request : ℕ)
    : Pc → Option (QueuedSemaphore × Pc) → Type 0 where
  call_acquire : (result : Bool) → Move s request (outside result) (acquire request s)
  call_try_acquire :
      (result : Bool) → Move s request (outside result) (some (try_acquire request s))
  call_try_acquire_for :
      (result : Bool) → Move s request (outside result) (try_acquire_for request s)
  notified :
      (timed : Bool) (node : ℕ)
      → Move s request (waiting timed request node) (wake_up timed request node s)
  timed_out : (node : ℕ) → Move s request (waiting true request node) (expire request node s)

-- `acquired` and `released`: the sums of the requests that were granted, and of those released.
pub record System : Type 0 where
  pub sem : QueuedSemaphore
  pub acquired : ℕ
  pub released : ℕ
  pub threads : List Pc

-- The requests in the record, a repeated one as often.
unfoldable pub recorded : List (ℕ × ℕ) → ℕ
recorded [] = 0
recorded ((k, count) ∷ m) = count + recorded m

-- What a move for `request` permits has got, where it leaves the thread at `p`.
abbrev pub granted : ℕ → Pc → ℕ
granted request p = elim p [
  | outside result ↦ if result then request else 0
  | waiting timed n node ↦ 0
  | terminated ↦ 0
]

abbrev pub moved : System → ℕ → ℕ → QueuedSemaphore × Pc → System
moved s i request r = record s {
  sem = r.0;
  acquired = s.acquired + granted request r.1;
  threads = set s.threads i r.1;
}

-- Requests are `int`s, `release` does not overflow the permits, and no counter of the record overflows.
pub data Step (s : System) : System → Type 0 where
  moves :
      (i request : ℕ) (p : Pc) (r : QueuedSemaphore × Pc)
      → get_elem? s.threads i ≡ some p
      → request < 2 ^ 31
      → recorded s.sem.request_record + 1 < 2 ^ 64
      → Move s.sem request p (some r)
      → Step s (moved s i request r)
  releases :
      (request : ℕ) (sem : QueuedSemaphore)
      → request < 2 ^ 31
      → rank s.sem.permits + request < 2 ^ 32
      → release request s.sem ≡ some sem
      → Step s (record s { sem = sem; released = s.released + request })

-- `n` threads and a semaphore made with `initial_permits`.
pub data Reach (capacity initial_permits n : ℕ) : System → Type 0 where
  start : Reach capacity initial_permits n (record {
    sem = make capacity initial_permits;
    acquired = 0;
    released = 0;
    threads = replicate n (outside true);
  })
  later :
      {s t : System}
      → Reach capacity initial_permits n s
      → Step s t
      → Reach capacity initial_permits n t
