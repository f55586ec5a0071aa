-- ===== src/Semaphore/Queued/Invariant.antt =====
-- The invariant of a queued semaphore and the threads that wait on it.
use mathlib.Core.Option.{some-injective}
use mathlib.Core.Path.{subst}
use concurrency_cpp.Base.{
  ℕ, ◌+◌, ◌^◌, ◌<◌, ◌≡◌, refl, sym, ◌∙◌, Bool, true, some, List, [], arith, length,
  length-replicate, get_elem?,
}
use concurrency_cpp.Base.Threads.{le-total, total-le-length, total-replicate}
use concurrency_cpp.Semaphore.Word.{rank, add_permits, int_geq, rank-add_permits, rank-request}
use concurrency_cpp.Semaphore.WaitQueue.Contents.{one_refl}
use concurrency_cpp.Semaphore.WaitQueue.Enqueue.{make_with-Represents}
use concurrency_cpp.Semaphore.Queued.{
  QueuedSemaphore, Pc, outside, waiting, terminated, make, release, request_record_min, System,
  moved, Step, moves, releases, Reach, start, later,
}
use concurrency_cpp.Semaphore.Queued.Outcome.{woken_if, wake_if_met_lem}
use concurrency_cpp.Semaphore.Queued.Notified.{HeadOnly-woken_if, occurs-woken_if, length-woken_if}
use concurrency_cpp.Semaphore.Queued.Moves.{Placed, Move-Ends}
use concurrency_cpp.Semaphore.Queued.Weights.{waits, at, asks, dead, Inv, Outcome-Inv}

-- Where the thread waits, its node is queued; where it does not, there is nothing to ask.
pub Inv-Placed :
    {initial n : ℕ} {s : System} {xs : List (ℕ × Bool)} (i : ℕ) (p : Pc)
    → get_elem? s.threads i ≡ some p
    → Inv initial n s xs
    → Placed p xs
Inv-Placed i (outside b) here inv = tt
Inv-Placed {s = s} i (waiting timed request node) here inv =
    omega (arith, le-total (at node) s.threads i here, inv.nodes node, one_refl node)
Inv-Placed i terminated here inv = tt

-- At most as many nodes are queued as there are threads.
pub Inv-few :
    {initial n : ℕ} {s : System} {xs : List (ℕ × Bool)}
    → n < 2 ^ 63
    → Inv initial n s xs
    → length xs < 2 ^ 63
Inv-few {s = s} few inv =
    omega (arith, few, inv.long, inv.size, total-le-length waits (λ p. ground arith) s.threads)

release-Inv :
    {initial n : ℕ} (s : System) {xs : List (ℕ × Bool)} (request : ℕ) (sem : QueuedSemaphore)
    → request < 2 ^ 31
    → rank s.sem.permits + request < 2 ^ 32
    → release request s.sem ≡ some sem
    → Inv initial n s xs
    → (zs : List (ℕ × Bool)) × Inv initial n
        (record s { sem = sem; released = s.released + request })
        zs
unfolding release
release-Inv {initial} {n} s {xs} request sem small fits e inv =
    let s1 = record s.sem { permits = add_permits s.sem.permits request } in
    let (q, e', r) = wake_if_met_lem s1 xs inv.cs inv.queue in
    let (more, word) = rank-add_permits s.sem.permits request inv.word small fits in
    let b = int_geq s1.permits (request_record_min s1.request_record) in
    (
      woken_if b xs,
      subst
          (λ sem.
            Inv initial n (record s { sem = sem; released = s.released + request }) (woken_if b xs))
          (some-injective _ _ (sym e' ∙ e))
          (record {
            cs = inv.cs;
            queue = r;
            head_only = HeadOnly-woken_if b xs inv.head_only;
            nodes = λ j. inv.nodes j ∙ sym (occurs-woken_if b xs j);
            long = inv.long ∙ sym (length-woken_if b xs);
            size = inv.size;
            alive = inv.alive;
            ordered = inv.ordered;
            asked = inv.asked;
            word = word;
            positive = omega (arith, more, inv.positive);
            balance = omega (arith, more, inv.balance);
          }),
    )

Step-Inv :
    {initial n : ℕ} {s t : System} {xs : List (ℕ × Bool)}
    → n < 2 ^ 63
    → Step s t
    → Inv initial n s xs
    → (zs : List (ℕ × Bool)) × Inv initial n t zs
Step-Inv {initial} {n} {s} {xs = xs} few (moves i request p r here small counted m) inv =
    let (r', zs, e, o) =
      Move-Ends s.sem request p xs inv.cs inv.word inv.positive small (Inv-few few inv) inv.queue
        inv.head_only (Inv-Placed {s = s} i p here inv) m in
    (
      zs,
      subst (λ r. Inv initial n (moved s i request r) zs) (some-injective _ _ (sym e))
          (Outcome-Inv s i request small counted inv here o),
    )
Step-Inv {s = s} few (releases request sem small fits e) inv =
    release-Inv s request sem small fits e inv

pub Reach-Inv :
    {capacity initial n : ℕ} {s : System}
    → 0 < capacity
    → initial < 2 ^ 31
    → n < 2 ^ 63
    → Reach capacity initial n s
    → (xs : List (ℕ × Bool)) × Inv initial n s xs
unfolding make
Reach-Inv {capacity} {initial} {n} some_node small few start =
    let (cs, r) = make_with-Represents capacity some_node in
    (
      [],
      record {
        cs = cs;
        queue = r;
        head_only = tt;
        nodes = λ j. total-replicate (at j) n (outside true) refl;
        long = total-replicate waits n (outside true) refl;
        size = length-replicate n (outside true);
        alive = total-replicate dead n (outside true) refl;
        ordered = tt;
        asked = λ r. omega (arith, total-replicate (asks r) n (outside true) refl);
        word = omega (arith, small);
        positive = omega (arith, rank-request 0 initial (omega arith) small);
        balance = omega arith;
      },
    )
Reach-Inv some_node small few (later r st) =
    let (xs, inv) = Reach-Inv some_node small few r in Step-Inv few st inv
