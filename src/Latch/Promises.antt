-- ===== src/Latch/Promises.antt =====
-- What a `Latch` promises: it opens when enough was counted, and leaves nobody asleep.
use concurrency_cpp.Base.{
  ℕ, ◌+◌, ◌^◌, ◌≤◌, ◌<◌, ◌≡◌, ◌↔◌, refl, Bool, true, false, some, arith, get_elem?, if◌then◌else◌,
  ◌≢◌,
}
use concurrency_cpp.Base.Threads.{le-total, contributor, total-replicate, total-add}
use concurrency_cpp.Latch.{
  Pc, outside, calling, entering, testing, predicate, falling_asleep, waiting, bias, is_ready,
  count_down, wait, wait_locked, wait_predicate, Move, call_wait, call_count_down_and_wait, load,
  release, test, test_predicate, fall_asleep, holds, System, Step, move, acquire, count, notify_all,
  Reach, start, later,
}
use concurrency_cpp.Latch.Counter.{count_down_lem, is_ready_iff, opening_notifies}
use concurrency_cpp.Latch.Invariant.{
  asleep, falls, syncs, tells, IsCovered, changed, Move-Covered, Acquire-Covered, count-Covered,
  notify_all-Covered,
}

-- In every reachable state the counter is the first value less what was counted.
record Inv (value : ℕ) (s : System) : Type 0 where
  word : s.value < 2 ^ 64
  counts : bias s.value + s.counted ≡ bias value
  covered : IsCovered s.value s.threads

Step-Inv : {value : ℕ} {s t : System} → Step s t → Inv value s → Inv value t
Step-Inv {s = s} (move i {p} {q} at m) inv = record {
  word = inv.word;
  counts = inv.counts;
  covered = Move-Covered inv.covered m (changed s.threads i q at);
}
Step-Inv {s = s} (acquire i {p} {q} at m free) inv = record {
  word = inv.word;
  counts = inv.counts;
  covered = Acquire-Covered inv.covered m free (changed s.threads i q at);
}
Step-Inv {s = s} (count i n {then_wait} at m small fits) inv =
    let (less, word) = count_down_lem s.value n then_wait inv.word small fits in
    record {
      word = word;
      counts = omega (arith, less, inv.counts);
      covered =
          count-Covered inv.covered m (opening_notifies s.value n then_wait inv.word small fits)
            (changed s.threads i (count_down n then_wait s.value).1 at);
    }
Step-Inv {s = s} (notify_all i at) inv = record {
  word = inv.word;
  counts = inv.counts;
  covered = notify_all-Covered s.value s.threads i at inv.covered;
}

Reach-Inv : {value n : ℕ} {s : System} → value < 2 ^ 64 → Reach value n s → Inv value s
Reach-Inv {value} {n} word start = record {
  word = word;
  counts = omega arith;
  covered = ground (
    arith,
    total-replicate holds n outside refl,
    total-replicate asleep n outside refl,
    total-replicate falls n outside refl,
  );
}
Reach-Inv word (later r st) = Step-Inv st (Reach-Inv word r)

-- In every reachable state of a latch made with a value that is not negative, the counter is the
-- value less the sum counted, and `is_ready` says whether that sum has reached the value.
pub is_ready_exact :
    {value n : ℕ} {s : System}
    → value < 2 ^ 63
    → Reach value n s
    → (bias s.value + s.counted ≡ value + 2 ^ 63)
      × ((is_ready s.value ≡ true) ↔ (value ≤ s.counted))
unfolding bias
is_ready_exact {value} {n} {s} small r =
    let counts = (Reach-Inv {value = value} {n = n} (omega (arith, small)) r).counts in
    (
      omega (arith, counts, small),
      (
        (λ h. omega (arith, (is_ready_iff s.value).0 h, counts, small)),
        λ h. (is_ready_iff s.value).1 (omega (arith, counts, small, h)),
      ),
    )

-- In every reachable state in which the latch is open, while a thread sleeps in `wait` another
-- thread is about to notify: it is in `count_down`, past the change of the counter.
pub open_wakes_all :
    {value n : ℕ} {s : System}
    → value < 2 ^ 64
    → Reach value n s
    → is_ready s.value ≡ true
    → (i : ℕ) → get_elem? s.threads i ≡ some (waiting true)
    → (j : ℕ) × (q : Pc) × (get_elem? s.threads j ≡ some q) × (0 < syncs q + tells q)
open_wakes_all {s = s} word r ready i at =
    contributor (λ q. syncs q + tells q) s.threads
      (ground (
        arith,
        (Reach-Inv word r).covered,
        le-total asleep s.threads i at,
        total-add syncs tells s.threads,
        ready,
      ))

-- A thread in `wait`.
abbrev pub waits : Pc → ℕ
waits p = elim p [
  | calling ↦ 1
  | entering ↦ 1
  | testing ↦ 1
  | predicate ↦ 1
  | falling_asleep ↦ 1
  | waiting b ↦ 1
  | _ ↦ 0
]

of_branch : (b : Bool) (q : Pc) → q ≢ outside → (if b then outside else q) ≡ outside → b ≡ true
of_branch true q ne e = refl
of_branch false q ne e = absurd (ne e)

Move-is_ready : {v : ℕ} {p q : Pc} → Move v p q → waits p ≡ 1 → q ≡ outside → is_ready v ≡ true
unfolding wait wait_locked wait_predicate
Move-is_ready {v} load h e = of_branch (is_ready v) entering (λ f. cc) e
Move-is_ready {v} test h e = of_branch (is_ready v) predicate (λ f. cc) e
Move-is_ready {v} test_predicate h e = of_branch (is_ready v) falling_asleep (λ f. cc) e
Move-is_ready call_wait h e = absurd (ground (arith, h))
Move-is_ready call_count_down_and_wait h e = absurd (ground (arith, h))
Move-is_ready fall_asleep h e = cc
Move-is_ready release h e = cc

-- In every reachable state of a latch made with a value that is not negative, a thread in `wait`
-- returns only if the sum counted has reached the value.
pub wait_returns_when_open :
    {value n : ℕ} {s : System}
    → value < 2 ^ 63
    → Reach value n s
    → {p q : Pc} → Move s.value p q
    → waits p ≡ 1
    → q ≡ outside
    → value ≤ s.counted
wait_returns_when_open small r m h e = (is_ready_exact small r).1.0 (Move-is_ready m h e)

-- An open latch stays open, whatever is counted, within the range of the counter.
pub stays_open :
    {value n : ℕ} {s t : System}
    → value < 2 ^ 63
    → Reach value n s
    → Step s t
    → is_ready s.value ≡ true
    → is_ready t.value ≡ true
stays_open {value} {n} {s} {t} small r st ready =
    (is_ready_exact small (later r st)).1.1
      (omega (arith, (is_ready_exact small r).1.0 ready, counted_more st))
  where
    counted_more : {a b : System} → Step a b → a.counted ≤ b.counted
    counted_more (move i at m) = omega arith
    counted_more (acquire i at m free) = omega arith
    counted_more (count i n at m small fits) = omega arith
    counted_more (notify_all i at) = omega arith
