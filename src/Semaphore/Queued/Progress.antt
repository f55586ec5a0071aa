-- ===== src/Semaphore/Queued/Progress.antt =====
-- What the calls of a queued semaphore guarantee in every reachable state.
use mathlib.Core.Path.{subst}
use concurrency_cpp.Base.{
  ℕ, ◌+◌, ◌^◌, ◌≤◌, ◌<◌, ◌≡◌, ◌≢◌, refl, ◌∙◌, ap, Bool, true, false, Option, none, some, List, [],
  ◌∷◌, ◌++◌, arith, length, get_elem?,
}
use concurrency_cpp.Base.Threads.{le-total}
use concurrency_cpp.Semaphore.Word.{
  rank, add_permits, int_geq, int_geq_iff, rank-add_permits, rank-request,
}
use concurrency_cpp.Base.Chain.{first, last-append}
use concurrency_cpp.Semaphore.WaitQueue.Enqueue.{enqueue_lem}
use concurrency_cpp.Semaphore.WaitQueue.Refinement.{dequeue_lem}
use concurrency_cpp.Semaphore.WaitQueue.{WaitNode, WaitQueue, dequeue, enqueue}
use concurrency_cpp.Semaphore.WaitQueue.Contents.{one_refl, Represents}
use concurrency_cpp.Semaphore.Queued.{
  QueuedSemaphore, Pc, waiting, terminated, release, wake_up, after_wait, wait_again,
  request_record_min, System, Move, Reach,
}
use concurrency_cpp.Semaphore.Queued.Record.{Ordered, times, request_record_min_lem}
use concurrency_cpp.Semaphore.Queued.Outcome.{
  Asleep, HeadOnly, woken_if, Outcome, takes, refuses, joins, stays, rejoins, finishes, leaves,
  wake_if_met_lem,
}
use concurrency_cpp.Semaphore.Queued.Notified.{Asleep-snoc}
use concurrency_cpp.Semaphore.Queued.Moves.{notified-first, Move-Ends}
use concurrency_cpp.Semaphore.Queued.Weights.{waits, asks}
use concurrency_cpp.Semaphore.Queued.Invariant.{Inv-Placed, Inv-few, Reach-Inv}

not-terminated :
    {s : QueuedSemaphore} {xs zs : List (ℕ × Bool)} {request : ℕ} {p : Pc}
    {r : QueuedSemaphore × Pc}
    → Outcome s xs request p r zs
    → r.1 ≢ terminated
not-terminated (takes b enough) e = ground arith
not-terminated (refuses b) e = ground arith
not-terminated (joins b timed c q cs r) e = ground arith
not-terminated (stays timed p) e = ground arith
not-terminated (rejoins timed p c ys q cs same few r) e = ground arith
not-terminated (finishes timed b p ys q cs same enough met r) e = ground arith
not-terminated (leaves p pre post q cs same r) e = ground arith

-- The first node of the queue is notified.
abbrev pub HeadNotified : WaitQueue → Type 0
HeadNotified q =
    (h : ℕ) × (n : WaitNode) × (q.head ≡ some h) × (q.cells h ≡ some n) × (n.wakeable ≡ true)

pub Represents-HeadNotified :
    (q : WaitQueue) (xs cs : List (ℕ × Bool))
    → 0 < length xs
    → Represents q (woken_if true xs) cs
    → HeadNotified q
Represents-HeadNotified q [] cs pos r = ground arith
Represents-HeadNotified q ((p, w) ∷ xs) cs pos r = (p, _, r.head, r.chain.0, refl)

-- Permits that meet a request of the record meet its least one.
pub min_met :
    (m : List (ℕ × ℕ)) (permits request : ℕ)
    → permits < 2 ^ 32
    → request < 2 ^ 31
    → Ordered 0 m
    → 0 < times request m
    → int_geq permits request ≡ true
    → int_geq permits (request_record_min m) ≡ true
min_met m permits request word small o recorded enough =
    let least = request_record_min_lem request 0 m o recorded in
    (int_geq_iff permits (request_record_min m)).1 (
      omega (
        arith,
        least,
        (int_geq_iff permits request).0 enough,
        rank-request permits request word small,
        rank-request permits (request_record_min m) word (omega (arith, least, small)),
      ))

wake_up-after_wait :
    (timed : Bool) (request node : ℕ) (s : QueuedSemaphore) {c : WaitNode}
    → s.queue.cells node ≡ some c
    → c.wakeable ≡ true
    → wake_up timed request node s ≡ after_wait timed request s
unfolding wake_up
wake_up-after_wait timed request node s at flag = rw (at, flag)

after_wait-retry :
    (timed : Bool) (request : ℕ) (s : QueuedSemaphore) {q q' : WaitQueue} {last : ℕ}
    → int_geq s.permits request ≡ false
    → dequeue s.queue ≡ some q
    → enqueue q ≡ some (last, q')
    → after_wait timed request s ≡ some (record s { queue = q' }, waiting timed request last)
unfolding after_wait wait_again
after_wait-retry timed request s less out in_ = rw (out, less, in_)

module _ {capacity initial n : ℕ} {s : System} (some_node : 0 < capacity) (small : initial < 2 ^ 31)
    (few : n < 2 ^ 63) (reach : Reach capacity initial n s) where
  -- In every reachable state of a queued semaphore that was made with permits that are not
  -- negative and a positive capacity, and is used by fewer than 2 ^ 63 threads, each move that a
  -- thread can make for a request of an `int` returns: no null or dangling pointer is used, and
  -- `std::terminate` is not reached.
  pub moves_return :
      (i request : ℕ) (p : Pc) {result : Option (QueuedSemaphore × Pc)}
      → get_elem? s.threads i ≡ some p
      → request < 2 ^ 31
      → Move s.sem request p result
      → (r : QueuedSemaphore × Pc) × (result ≡ some r) × (r.1 ≢ terminated)
  moves_return i request p here int m =
      let (xs, inv) = Reach-Inv some_node small few reach in
      let (r, zs, e, o) =
        Move-Ends s.sem request p xs inv.cs inv.word inv.positive int (Inv-few few inv) inv.queue
          inv.head_only (Inv-Placed {s = s} i p here inv) m in
      (r, e, not-terminated o)

  -- In every reachable state of a queued semaphore that was made with permits that are not
  -- negative and a positive capacity, and is used by fewer than 2 ^ 63 threads, the permits are
  -- not negative, and are what the semaphore was made with and what was released less the requests
  -- that were granted.
  pub permits_are_conserved :
      (2 ^ 31 ≤ rank s.sem.permits)
      × (rank s.sem.permits + s.acquired ≡ (initial + 2 ^ 31) + s.released)
  permits_are_conserved =
      let (xs, inv) = Reach-Inv some_node small few reach in
      (inv.positive, omega (arith, inv.balance, rank-request 0 initial (omega arith) small))

  -- In every reachable state of a queued semaphore that was made with permits that are not
  -- negative and a positive capacity, and is used by fewer than 2 ^ 63 threads, a thread that
  -- waits, for a request of an `int`, on a notified node has it at the head of the queue, so that
  -- the `dequeue` that follows its wait removes its own node.
  pub notified_is_head :
      (i : ℕ) {timed : Bool} {request node : ℕ} {c : WaitNode}
      → get_elem? s.threads i ≡ some (waiting timed request node)
      → request < 2 ^ 31
      → s.sem.queue.cells node ≡ some c
      → c.wakeable ≡ true
      → s.sem.queue.head ≡ some node
  notified_is_head i {timed} {request} {node} here int at flag =
      let (xs, inv) = Reach-Inv some_node small few reach in
      let (ys, e) =
        notified-first s.sem request inv.word inv.positive int xs inv.cs (Inv-few few inv) inv.queue
          inv.head_only node (Inv-Placed {s = s} i (waiting timed request node) here inv) at flag in
      inv.queue.head ∙ ap (λ xs. first xs none) e

  -- In every reachable state of a queued semaphore that was made with permits that are not
  -- negative and a positive capacity, and is used by fewer than 2 ^ 63 threads, a `release` that
  -- does not overflow the permits and leaves enough of them for the request, an `int`, of some
  -- thread that waits returns with the first node of the queue notified.
  pub release-HeadNotified :
      (i released : ℕ) {timed : Bool} {request node : ℕ}
      → get_elem? s.threads i ≡ some (waiting timed request node)
      → request < 2 ^ 31
      → released < 2 ^ 31
      → rank s.sem.permits + released < 2 ^ 32
      → int_geq (add_permits s.sem.permits released) request ≡ true
      → (sem : QueuedSemaphore) × (release released s.sem ≡ some sem) × HeadNotified sem.queue
  unfolding release
  release-HeadNotified i released {timed} {request} {node} here int int' fits enough =
      let (xs, inv) = Reach-Inv some_node small few reach in
      let s1 = record s.sem { permits = add_permits s.sem.permits released } in
      let (q, e, r) = wake_if_met_lem s1 xs inv.cs inv.queue in
      let (more, word) = rank-add_permits s.sem.permits released inv.word int' fits in
      let recorded : 0 < times request s1.request_record =
        omega
          (arith, le-total (asks request) s.threads i here, inv.asked request, one_refl request) in
      let met = min_met s1.request_record s1.permits request word int inv.ordered recorded enough in
      let someone : 0 < length xs = omega (arith, le-total waits s.threads i here, inv.long) in
      (
        record s1 { queue = q },
        e,
        Represents-HeadNotified q xs inv.cs someone
            (subst (λ b. Represents q (woken_if b xs) inv.cs) met r),
      )

  -- In every reachable state of a queued semaphore that was made with permits that are not
  -- negative and a positive capacity, and is used by fewer than 2 ^ 63 threads, a thread that was
  -- notified, and finds too few permits for its request of an `int`, waits again on the last node
  -- of the queue, with the permits as they were and no node of the queue notified.
  pub retry_is_Asleep :
      (i : ℕ) {timed : Bool} {request node : ℕ} {c : WaitNode}
      → get_elem? s.threads i ≡ some (waiting timed request node)
      → request < 2 ^ 31
      → s.sem.queue.cells node ≡ some c
      → c.wakeable ≡ true
      → int_geq s.sem.permits request ≡ false
      → (sem : QueuedSemaphore) × (last : ℕ) × (wake_up timed request node s.sem
          ≡ some (sem, waiting timed request last))
        × (sem.queue.tail ≡ some last)
        × (sem.permits ≡ s.sem.permits)
        × ((xs cs : List (ℕ × Bool)) × Represents sem.queue xs cs × Asleep xs)
  retry_is_Asleep i {timed} {request} {node} here int at flag less =
      let (xs, inv) = Reach-Inv some_node small few reach in
      let (ys, e) =
        notified-first s.sem request inv.word inv.positive int xs inv.cs (Inv-few few inv) inv.queue
          inv.head_only node (Inv-Placed {s = s} i (waiting timed request node) here inv) at flag in
      let (q, out, r) =
        dequeue_lem s.sem.queue node true ys inv.cs
          (subst (λ xs. Represents s.sem.queue xs inv.cs) e inv.queue) in
      let (last, q', cs', in_, r') =
        enqueue_lem q ys ((node, true) ∷ inv.cs) (ground (arith, Inv-few few inv, ap length e)) r in
      (
        record s.sem { queue = q' },
        last,
        wake_up-after_wait timed request node s.sem at flag
            ∙ after_wait-retry timed request s.sem less out in_,
        r'.tail ∙ last-append none ys ((last, false) ∷ []),
        refl,
        (ys ++ ((last, false) ∷ []), cs', r', Asleep-snoc last ys (subst HeadOnly e inv.head_only)),
      )
