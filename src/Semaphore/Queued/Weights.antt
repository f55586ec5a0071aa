-- ===== src/Semaphore/Queued/Weights.antt =====
-- What the invariant of a queued semaphore counts, and that each outcome of a hold of the lock keeps
-- the counts.
use mathlib.Core.Path.{subst}
use concurrency_cpp.Base.{
  ℕ, ◌+◌, ◌^◌, ◌≤◌, ◌<◌, ◌≡◌, refl, ◌∙◌, ap, Bool, true, false, some, List, [], ◌∷◌, arith, length,
  length-append, length-set, get_elem?, set,
}
use concurrency_cpp.Base.Threads.{total, total-set, le-total}
use concurrency_cpp.Semaphore.Word.{taken_off, rank}
use concurrency_cpp.Semaphore.WaitQueue.Contents.{
  one, one_refl, occurs, Represents, occurs-append, occurs-middle, length-middle,
}
use concurrency_cpp.Semaphore.Queued.{
  QueuedSemaphore, Pc, outside, waiting, terminated, System, granted, moved, recorded,
}
use concurrency_cpp.Semaphore.Queued.Record.{
  Ordered, times, Ordered-insert, Ordered-remove, times-insert, times-remove,
}
use concurrency_cpp.Semaphore.Queued.Outcome.{
  HeadOnly, Outcome, takes, refuses, joins, stays, rejoins, finishes, leaves,
}
use concurrency_cpp.Semaphore.Queued.Notified.{
  HeadOnly-snoc, Asleep-HeadOnly, HeadOnly-middle, HeadOnly-woken_if, occurs-woken_if,
  length-woken_if,
}

-- Weights of a thread: it waits; on a node; for a request; it has terminated the program.
abbrev pub waits : Pc → ℕ
waits p = elim p [ waiting timed request node ↦ 1 | _ ↦ 0 ]

abbrev pub at : ℕ → Pc → ℕ
at j p = elim p [ waiting timed request node ↦ one node j | _ ↦ 0 ]

abbrev pub asks : ℕ → Pc → ℕ
asks n p = elim p [ waiting timed request node ↦ one request n | _ ↦ 0 ]

abbrev pub dead : Pc → ℕ
dead p = elim p [ terminated ↦ 1 | _ ↦ 0 ]

-- The queue holds `xs`.
pub record Inv (initial n : ℕ) (s : System) (xs : List (ℕ × Bool)) : Type 0 where
  pub cs : List (ℕ × Bool)
  pub queue : Represents s.sem.queue xs cs
  pub head_only : HeadOnly xs
  pub nodes : (j : ℕ) → total (at j) s.threads ≡ occurs j xs
  pub long : total waits s.threads ≡ length xs
  pub size : length s.threads ≡ n
  pub alive : total dead s.threads ≡ 0
  pub ordered : Ordered 0 s.sem.request_record
  pub asked : (r : ℕ) → total (asks r) s.threads ≤ times r s.sem.request_record
  pub word : s.sem.permits < 2 ^ 32
  pub positive : 2 ^ 31 ≤ rank s.sem.permits
  pub balance : rank s.sem.permits + s.acquired ≡ rank initial + s.released

module _ {initial n : ℕ} (s : System) (i request : ℕ) (small : request < 2 ^ 31)
    (counted : recorded s.sem.request_record + 1 < 2 ^ 64) {xs : List (ℕ × Bool)}
    (inv : Inv initial n s xs) where
  -- The weights of all threads, where the one at `i` goes from `p` to `p'`.
  record Sums (p p' : Pc) : Type 0 where
    nodes : (j : ℕ) → total (at j) (set s.threads i p') + at j p ≡ occurs j xs + at j p'
    long : total waits (set s.threads i p') + waits p ≡ length xs + waits p'
    size : length (set s.threads i p') ≡ n
    alive : total dead (set s.threads i p') + dead p ≡ dead p'
    asked :
        (r : ℕ)
        → total (asks r) (set s.threads i p') + asks r p ≤ times r s.sem.request_record + asks r p'
    placed : asks request p ≤ times request s.sem.request_record

  sums : (p p' : Pc) → get_elem? s.threads i ≡ some p → Sums p p'
  sums p p' here = record {
    nodes = λ j. omega (arith, total-set (at j) s.threads i p' here, inv.nodes j);
    long = omega (arith, total-set waits s.threads i p' here, inv.long);
    size = length-set s.threads i p' ∙ inv.size;
    alive = omega (arith, total-set dead s.threads i p' here, inv.alive);
    asked = λ r. omega (arith, total-set (asks r) s.threads i p' here, inv.asked r);
    placed = omega (arith, le-total (asks request) s.threads i here, inv.asked request);
  }

  -- A move that leaves the semaphore and the weights of the thread alone.
  unmoved-Inv :
      (p p' : Pc)
      → get_elem? s.threads i ≡ some p
      → ((j : ℕ) → at j p' ≡ at j p)
      → waits p' ≡ waits p
      → dead p' ≡ dead p
      → ((r : ℕ) → asks r p' ≡ asks r p)
      → granted request p' ≡ 0
      → Inv initial n (moved s i request (s.sem, p')) xs
  unmoved-Inv p p' here same_at same_waits same_dead same_asks none_granted =
      let t = sums p p' here in
      record {
        cs = inv.cs;
        queue = inv.queue;
        head_only = inv.head_only;
        nodes = λ j. omega (arith, t.nodes j, same_at j);
        long = omega (arith, t.long, same_waits);
        size = t.size;
        alive = omega (arith, t.alive, same_dead);
        ordered = inv.ordered;
        asked = λ r. omega (arith, t.asked r, same_asks r);
        word = inv.word;
        positive = inv.positive;
        balance = omega (arith, none_granted, inv.balance);
      }

  pub Outcome-Inv :
      {p : Pc} {r : QueuedSemaphore × Pc} {zs : List (ℕ × Bool)}
      → get_elem? s.threads i ≡ some p
      → Outcome s.sem xs request p r zs
      → Inv initial n (moved s i request r) zs
  Outcome-Inv {p} here (takes b enough) =
      let t = sums p (outside true) here in
      let (less, word, positive) = taken_off s.sem.permits request inv.word small enough in
      record {
        cs = inv.cs;
        queue = inv.queue;
        head_only = inv.head_only;
        nodes = λ j. omega (arith, t.nodes j);
        long = omega (arith, t.long);
        size = t.size;
        alive = omega (arith, t.alive);
        ordered = inv.ordered;
        asked = λ r. omega (arith, t.asked r);
        word = word;
        positive = positive;
        balance = omega (arith, less, inv.balance);
      }
  Outcome-Inv {p} here (refuses b) =
      unmoved-Inv p (outside false) here (λ j. refl) refl refl (λ r. refl) refl
  Outcome-Inv {p} here (joins b timed c q cs r) =
      let t = sums p (waiting timed request c) here in
      record {
        cs = cs;
        queue = r;
        head_only = HeadOnly-snoc c xs inv.head_only;
        nodes = λ j. omega (arith, t.nodes j, occurs-append j xs ((c, false) ∷ []));
        long = omega (arith, t.long, length-append xs ((c, false) ∷ []));
        size = t.size;
        alive = omega (arith, t.alive);
        ordered = Ordered-insert request 0 s.sem.request_record (omega arith) counted inv.ordered;
        asked = λ r. omega (arith, t.asked r, times-insert r request s.sem.request_record counted);
        word = inv.word;
        positive = inv.positive;
        balance = omega (arith, inv.balance);
      }
  Outcome-Inv {p} here (stays timed node) =
      unmoved-Inv p p here (λ j. refl) refl refl (λ r. refl) refl
  Outcome-Inv {p} here (rejoins timed node c ys q cs e few r) =
      let t = sums p (waiting timed request c) here in
      record {
        cs = cs;
        queue = r;
        head_only = HeadOnly-snoc c ys (Asleep-HeadOnly ys (subst HeadOnly e inv.head_only));
        nodes =
            λ j. omega (arith, t.nodes j, occurs-append j ys ((c, false) ∷ []), ap (occurs j) e);
        long = omega (arith, t.long, length-append ys ((c, false) ∷ []), ap length e);
        size = t.size;
        alive = omega (arith, t.alive);
        ordered = inv.ordered;
        asked = λ r. omega (arith, t.asked r);
        word = inv.word;
        positive = inv.positive;
        balance = omega (arith, inv.balance);
      }
  Outcome-Inv {p} here (finishes timed b node ys q cs e enough met r) =
      let t = sums p (outside true) here in
      let (less, word, positive) = taken_off s.sem.permits request inv.word small enough in
      record {
        cs = cs;
        queue = r;
        head_only = HeadOnly-woken_if b ys (Asleep-HeadOnly ys (subst HeadOnly e inv.head_only));
        nodes = λ j. omega (arith, t.nodes j, occurs-woken_if b ys j, ap (occurs j) e);
        long = omega (arith, t.long, length-woken_if b ys, ap length e);
        size = t.size;
        alive = omega (arith, t.alive);
        ordered = Ordered-remove request 0 s.sem.request_record inv.ordered;
        asked = λ r. omega (
          arith,
          t.asked r,
          times-remove r request 0 s.sem.request_record inv.ordered
              (omega (arith, t.placed, one_refl request)),
        );
        word = word;
        positive = positive;
        balance = omega (arith, less, inv.balance);
      }
  Outcome-Inv {p} here (leaves node pre post q cs e r) =
      let t = sums p (outside false) here in
      record {
        cs = cs;
        queue = r;
        head_only = HeadOnly-middle (node, false) pre post (subst HeadOnly e inv.head_only);
        nodes = λ j. omega (arith, t.nodes j, occurs-middle j node false pre post, ap (occurs j) e);
        long = omega (arith, t.long, length-middle (node, false) pre post, ap length e);
        size = t.size;
        alive = omega (arith, t.alive);
        ordered = inv.ordered;
        asked = λ r. omega (arith, t.asked r);
        word = inv.word;
        positive = inv.positive;
        balance = omega (arith, inv.balance);
      }
