-- ===== src/Semaphore/Queued/Handover.antt =====
-- What a queued semaphore does for the next thread, when one gets its permits or gives up.
use mathlib.Core.Option.{some-injective}
use mathlib.Core.Path.{subst}
use concurrency_cpp.Base.{
  ℕ, ◌+◌, ◌^◌, ◌<◌, ◌≡◌, ◌≢◌, refl, sym, ◌∙◌, ap, Bool, true, false, none, some, List, [], ◌∷◌,
  arith, length, get_elem?,
}
use concurrency_cpp.Base.Threads.{le-total, add-le-total}
use concurrency_cpp.Semaphore.Word.{sub_permits, int_geq}
use concurrency_cpp.Base.Chain.{first}
use concurrency_cpp.Semaphore.WaitQueue.Remove.{remove_lem}
use concurrency_cpp.Semaphore.WaitQueue.{WaitNode, WaitQueue, remove}
use concurrency_cpp.Semaphore.WaitQueue.Contents.{linked_node, one_refl, Represents}
use concurrency_cpp.Semaphore.Queued.{
  QueuedSemaphore, Pc, outside, waiting, expire, recorded, request_record_remove, System, Move,
  Reach,
}
use concurrency_cpp.Semaphore.Queued.Record.{Ordered-remove, times-remove, Ordered, times}
use concurrency_cpp.Semaphore.Queued.Outcome.{
  Asleep, HeadOnly, woken_if, Outcome, takes, refuses, joins, stays, rejoins, finishes, leaves,
}
use concurrency_cpp.Semaphore.Queued.Moves.{Move-Ends}
use concurrency_cpp.Semaphore.Queued.Weights.{Outcome-Inv, waits, asks}
use concurrency_cpp.Semaphore.Queued.Invariant.{Inv-Placed, Inv-few, Reach-Inv}
use concurrency_cpp.Semaphore.Queued.Progress.{HeadNotified, Represents-HeadNotified, min_met}

-- A woken thread that gets its permits leaves the next one notified, where the rest is enough for a
-- request of the record.
handed :
    (s : QueuedSemaphore) (xs zs : List (ℕ × Bool)) (request other : ℕ) (p : Pc)
    (r : QueuedSemaphore × Pc)
    → Outcome s xs request p r zs
    → r.1 ≡ outside true
    → waits p ≡ 1
    → r.0.permits < 2 ^ 32
    → other < 2 ^ 31
    → Ordered 0 s.request_record
    → 0 < times other (request_record_remove request s.request_record)
    → 1 < length xs
    → int_geq r.0.permits other ≡ true
    → HeadNotified r.0.queue
handed s xs zs request other p r (takes b enough) done waiting_ word small o asked two met =
    ground arith
handed s xs zs request other p r (refuses b) done waiting_ word small o asked two met = ground arith
handed s xs zs request other p r (joins b timed c q cs r') done waiting_ word small o asked two
      met =
    ground arith
handed s xs zs request other p r (stays timed node) done waiting_ word small o asked two met =
    ground arith
handed s xs zs request other p r (rejoins timed node c ys q cs same few r') done waiting_ word small
      o asked two met =
    ground arith
handed s xs zs request other p r (finishes timed b node ys q cs same enough awake r') done waiting_
      word small o asked two met =
    let m = request_record_remove request s.request_record in
    let yes : b ≡ true =
      awake
      ∙ min_met m (sub_permits s.permits request) other word small
          (Ordered-remove request 0 s.request_record o) asked met in
    Represents-HeadNotified q ys cs (omega (arith, two, ap length same))
      (subst (λ b. Represents q (woken_if b ys) cs) yes r')
handed s xs zs request other p r (leaves node pre post q cs same r') done waiting_ word small o
      asked two met =
    ground arith

expire-leave :
    (request node : ℕ) (s : QueuedSemaphore) {c : WaitNode} {q : WaitQueue}
    → s.queue.cells node ≡ some c
    → c.wakeable ≡ false
    → remove (some node) s.queue ≡ some q
    → expire request node s ≡ some (record s { queue = q }, outside false)
unfolding expire
expire-leave request node s at flag removed = rw (at, flag, removed)

-- A head that is not notified is the first node.
unnotified_head :
    (q : WaitQueue) (xs cs : List (ℕ × Bool)) (node : ℕ) (c : WaitNode)
    → Represents q xs cs
    → q.head ≡ some node
    → q.cells node ≡ some c
    → c.wakeable ≡ false
    → (ys : List (ℕ × Bool)) × (xs ≡ (node, false) ∷ ys)
unnotified_head q [] cs node c r head at flag = ground (arith, r.head, head)
unnotified_head q ((k, w) ∷ ys) cs node c r head at flag =
    let same : k ≡ node = some-injective k node (sym r.head ∙ head) in
    let n = linked_node w none (first ys none) in
    let read : n ≡ c = some-injective n c (sym r.chain.0 ∙ ap q.cells same ∙ at) in
    let asleep : w ≡ false = ap (λ n. n.wakeable) read ∙ flag in
    (ys, ap (λ k. (k, w) ∷ ys) same ∙ ap (λ w. (node, w) ∷ ys) asleep)

module _ {capacity initial n : ℕ} {s : System} (some_node : 0 < capacity) (small : initial < 2 ^ 31)
    (few : n < 2 ^ 63) (reach : Reach capacity initial n s) where
  -- In every reachable state of a queued semaphore that was made with permits that are not
  -- negative and a positive capacity, and is used by fewer than 2 ^ 63 threads, where a woken
  -- thread gets its permits and what is left meets the request, an `int`, of another thread that
  -- waits, the first node of the queue is notified, as long as no counter of the record overflows.
  pub acquired-HeadNotified :
      (i k : ℕ) {timed timed' : Bool} {request request' node node' : ℕ} {sem : QueuedSemaphore}
      → i ≢ k
      → get_elem? s.threads i ≡ some (waiting timed request node)
      → get_elem? s.threads k ≡ some (waiting timed' request' node')
      → request < 2 ^ 31
      → request' < 2 ^ 31
      → recorded s.sem.request_record + 1 < 2 ^ 64
      → Move s.sem request (waiting timed request node) (some (sem, outside true))
      → int_geq sem.permits request' ≡ true
      → HeadNotified sem.queue
  acquired-HeadNotified i k {timed} {timed'} {request} {request'} {node} {node'} {sem} ne here there
        int int' counted m met =
      let (xs, inv) = Reach-Inv some_node small few reach in
      let p = waiting timed request node in
      let (r, zs, e, o) =
        Move-Ends s.sem request p xs inv.cs inv.word inv.positive int (Inv-few few inv) inv.queue
          inv.head_only (Inv-Placed {s = s} i p here inv) m in
      let o' = subst (λ r. Outcome s.sem xs request p r zs) (some-injective _ _ (sym e)) o in
      let inv' = Outcome-Inv s i request int counted inv here o' in
      let asked : 0 < times request' (request_record_remove request s.sem.request_record) = omega (
        arith,
        one_refl request',
        times-remove request' request 0 s.sem.request_record inv.ordered (
            omega (
              arith,
              le-total (asks request) s.threads i here,
              inv.asked request,
              one_refl request,
            )),
        add-le-total (asks request') s.threads i k ne here there,
        inv.asked request',
      ) in
      handed s.sem xs zs request request' p (sem, outside true) o' refl refl inv'.word int'
        inv.ordered asked (omega (arith, inv.long, add-le-total waits s.threads i k ne here there))
        met

  -- In every reachable state of a queued semaphore that was made with permits that are not
  -- negative and a positive capacity, and is used by fewer than 2 ^ 63 threads, a thread whose
  -- deadline passes while its node is the head of the queue and not notified gives up, with the
  -- permits and the record as they were and no node of the queue notified.
  pub expire_is_Asleep :
      (i : ℕ) {request node : ℕ} {c : WaitNode}
      → get_elem? s.threads i ≡ some (waiting true request node)
      → s.sem.queue.head ≡ some node
      → s.sem.queue.cells node ≡ some c
      → c.wakeable ≡ false
      → (sem : QueuedSemaphore) × (expire request node s.sem ≡ some (sem, outside false))
        × (sem.permits ≡ s.sem.permits)
        × (sem.request_record ≡ s.sem.request_record)
        × ((xs cs : List (ℕ × Bool)) × Represents sem.queue xs cs × Asleep xs)
  expire_is_Asleep i {request} {node} {c} here head at flag =
      let (xs, inv) = Reach-Inv some_node small few reach in
      let (ys, e) = unnotified_head s.sem.queue xs inv.cs node c inv.queue head at flag in
      let (q, removed, r) =
        remove_lem s.sem.queue node false [] ys inv.cs
          (subst (λ xs. Represents s.sem.queue xs inv.cs) e inv.queue) in
      (
        record s.sem { queue = q },
        expire-leave request node s.sem at flag removed,
        refl,
        refl,
        (ys, (node, false) ∷ inv.cs, r, subst HeadOnly e inv.head_only),
      )
