-- ===== src/Semaphore/Simple/Invariant.antt =====
-- The permits of a `SimpleSemaphore`, and the threads that wait for them.
use mathlib.Core.List.{map}
use mathlib.Core.Path.{subst}
use concurrency_cpp.Base.{
  ℕ, ◌+◌, ◌^◌, ◌≤◌, ◌<◌, ◌≡◌, refl, ◌⊎◌, inl, inr, Bool, true, false, ◌&&◌, leb, some, List, arith,
  if◌then◌else◌, get_elem?, set, Bool-cases, get_elem?-set_self, lt-length,
}
use concurrency_cpp.Base.Threads.{
  total, total-set, le-total, total-map, total-map_zero, total-replicate, total_mono, contributor,
}
use concurrency_cpp.Semaphore.Word.{
  rank, sub_permits, int_geq, int_geq_iff, rank-add_permits, rank-sub_permits, rank-request,
}
use concurrency_cpp.Semaphore.Simple.{
  Pc, outside, waiting, notifying, pass, acquire, try_acquire0, timeout, release, try_acquire,
  try_acquire_for, try_acquire_until, Asks, call_acquire, call_try_acquire, call_try_acquire_for,
  call_try_acquire_until, wake, System, moved, Step, ask, call_release, wake_up, expire, notify_all,
  Reach, start, later,
}

-- Weights of a thread: it waits for no more than an `int`; it sleeps though its request could be met;
-- it will notify.
abbrev pub large : Pc → ℕ
large p = elim p [ waiting timed request asleep ↦ (if leb (2 ^ 31) request then 1 else 0) | _ ↦ 0 ]

abbrev pub stuck : ℕ → Pc → ℕ
stuck count p = elim p [
  | waiting timed request asleep ↦ if asleep && int_geq count request then 1 else 0
  | _ ↦ 0
]

abbrev pub notifies : Pc → ℕ
notifies p = elim p [ notifying ↦ 1 | _ ↦ 0 ]

-- What a call for permits does: it takes them and returns, or leaves the count alone.
data Outcome (request count : ℕ) : ℕ × Pc → Type 0 where
  takes :
      int_geq count request ≡ true → Outcome request count (sub_permits count request, outside true)
  waits :
      (timed : Bool)
      → int_geq count request ≡ false
      → Outcome request count (count, waiting timed request true)
  refuses : Outcome request count (count, outside false)

pass-Outcome : (timed : Bool) (request count : ℕ) → Outcome request count (pass timed request count)
unfolding pass
pass-Outcome timed request count = elim (Bool-cases (int_geq count request)) [
  | inl enough ↦ rw enough (takes enough)
  | inr few ↦ rw few (waits timed few)
]

Asks-Outcome : {request count : ℕ} {r : ℕ × Pc} → Asks request count r → Outcome request count r
unfolding acquire try_acquire try_acquire_for try_acquire_until try_acquire0
Asks-Outcome {request} {count} call_acquire = pass-Outcome false request count
Asks-Outcome {request} {count} call_try_acquire = elim (Bool-cases (int_geq count request)) [
  | inl enough ↦ rw enough (takes enough)
  | inr few ↦ rw few refuses
]
Asks-Outcome {request} {count} call_try_acquire_for = pass-Outcome true request count
Asks-Outcome {request} {count} (call_try_acquire_until n one) =
    subst (λ n. Outcome request count (pass true n count)) one (pass-Outcome true request count)

-- The count is not negative; no permit is lost or made; no sleeper is left whose request could be
-- met, unless a thread is about to notify.
record Inv (initial : ℕ) (s : System) : Type 0 where
  word : s.count < 2 ^ 32
  positive : 2 ^ 31 ≤ rank s.count
  balance : rank s.count + s.acquired ≡ rank initial + s.released
  requests : total large s.threads ≡ 0
  awake : (total (stuck s.count) s.threads ≡ 0) ⊎ (0 < total notifies s.threads)

-- Fewer permits meet no more requests.
stuck_mono : (c c' : ℕ) → rank c' ≤ rank c → (p : Pc) → stuck c' p ≤ stuck c p
stuck_mono c c' le (waiting timed request asleep) =
    ground (arith, int_geq_iff c request, int_geq_iff c' request)
stuck_mono c c' le (outside result) = omega arith
stuck_mono c c' le notifying = omega arith

module _ {initial : ℕ} (s : System) (i : ℕ) {p : Pc} (at : get_elem? s.threads i ≡ some p) where
  Outcome-Inv :
      {request : ℕ} {r : ℕ × Pc}
      → request < 2 ^ 31
      → notifies p ≡ 0
      → Outcome request s.count r
      → Inv initial s
      → Inv initial (moved s i request r)
  Outcome-Inv {request} small quiet (takes enough) inv =
      let fits = (int_geq_iff s.count request).0 enough in
      let (less, word) =
        rank-sub_permits s.count request inv.word small
          (omega (arith, fits, rank-request s.count request inv.word small)) in
      let after = outside true in
      record {
        word = word;
        positive = omega (arith, less, fits, rank-request s.count request inv.word small);
        balance = omega (arith, less, inv.balance);
        requests = omega (arith, total-set large s.threads i after at, inv.requests);
        awake = ground (
          arith,
          inv.awake,
          less,
          total_mono (stuck (sub_permits s.count request)) (stuck s.count)
              (stuck_mono s.count (sub_permits s.count request) (omega (arith, less)))
              (set s.threads i after),
          total-set (stuck s.count) s.threads i after at,
          total-set notifies s.threads i after at,
        );
      }
  Outcome-Inv {request} small quiet (waits timed few) inv =
      let after = waiting timed request true in
      record {
        word = inv.word;
        positive = inv.positive;
        balance = omega (arith, inv.balance);
        requests = ground (arith, total-set large s.threads i after at, inv.requests, small);
        awake = ground (
          arith,
          inv.awake,
          few,
          total-set (stuck s.count) s.threads i after at,
          total-set notifies s.threads i after at,
        );
      }
  Outcome-Inv {request} small quiet refuses inv =
      let after = outside false in
      record {
        word = inv.word;
        positive = inv.positive;
        balance = omega (arith, inv.balance);
        requests = omega (arith, total-set large s.threads i after at, inv.requests);
        awake = ground (
          arith,
          inv.awake,
          total-set (stuck s.count) s.threads i after at,
          total-set notifies s.threads i after at,
        );
      }

  release-Inv :
      (request : ℕ)
      → request < 2 ^ 31
      → rank s.count + request < 2 ^ 32
      → Inv initial s
      → Inv initial (record s {
        count = (release request s.count).0;
        released = s.released + request;
        threads = set s.threads i (release request s.count).1;
      })
  unfolding release
  release-Inv request small fits inv =
      let (more, word) = rank-add_permits s.count request inv.word small fits in
      record {
        word = word;
        positive = omega (arith, more, inv.positive);
        balance = omega (arith, more, inv.balance);
        requests = omega (arith, total-set large s.threads i notifying at, inv.requests);
        awake = inr (
            omega (
              arith,
              le-total notifies (set s.threads i notifying) i
                  (get_elem?-set_self s.threads i notifying (lt-length s.threads i at)),
            ));
      }

  notify_all-Inv :
      Inv initial s → Inv initial (record s { threads = map wake (set s.threads i (outside true)) })
  notify_all-Inv inv =
      let after = set s.threads i (outside true) in
      record {
        word = inv.word;
        positive = inv.positive;
        balance = inv.balance;
        requests = omega (
          arith,
          total-map large wake (λ q. ground arith) after,
          total-set large s.threads i (outside true) at,
          inv.requests,
        );
        awake = inl (total-map_zero (stuck s.count) (stuck s.count) wake (λ q. ground arith) after);
      }

small_request :
    (ps : List Pc) (i : ℕ) {timed asleep : Bool} {request : ℕ}
    → get_elem? ps i ≡ some (waiting timed request asleep)
    → total large ps ≡ 0
    → request < 2 ^ 31
small_request ps i {timed} {asleep} {request} at none_large = ground (arith, le-total large ps i at)

Step-Inv : {initial : ℕ} {s t : System} → Step s t → Inv initial s → Inv initial t
unfolding timeout
Step-Inv {s = s} (ask i at small a) inv = Outcome-Inv s i at small refl (Asks-Outcome a) inv
Step-Inv {s = s} (call_release i request at small fits) inv =
    release-Inv s i at request small fits inv
Step-Inv {s = s} (wake_up i {timed} {asleep} {request} at) inv =
    Outcome-Inv s i at {request = request} (small_request s.threads i at inv.requests) refl
      (pass-Outcome timed request s.count) inv
Step-Inv {s = s} (expire i {asleep} {request} at) inv =
    Outcome-Inv s i at {request = request} (small_request s.threads i at inv.requests) refl refuses
      inv
Step-Inv {s = s} (notify_all i at) inv = notify_all-Inv s i at inv

Reach-Inv : {initial n : ℕ} {s : System} → initial < 2 ^ 31 → Reach initial n s → Inv initial s
Reach-Inv {initial} {n} small start = record {
  word = omega (arith, small);
  positive = omega (arith, rank-request 0 initial (omega arith) small);
  balance = omega arith;
  requests = total-replicate large n (outside true) refl;
  awake = inl (total-replicate (stuck initial) n (outside true) refl);
}
Reach-Inv small (later r st) = Step-Inv st (Reach-Inv small r)

-- In every reachable state of a simple semaphore made with permits that are not negative, whose count
-- no release overflows, the count is not negative, and is what it was made with and what was released
-- less the permits that calls took.
pub permits_balance :
    {initial n : ℕ} {s : System}
    → initial < 2 ^ 31
    → Reach initial n s
    → (2 ^ 31 ≤ rank s.count) × (rank s.count + s.acquired ≡ (initial + 2 ^ 31) + s.released)
permits_balance {initial} small r =
    let inv = Reach-Inv small r in
    (inv.positive, omega (arith, inv.balance, rank-request 0 initial (omega arith) small))

-- In every reachable state of such a semaphore, while a thread sleeps whose request is not more than
-- the count, another thread is about to notify all.
pub sleeper_is_notified :
    {initial n : ℕ} {s : System}
    → initial < 2 ^ 31
    → Reach initial n s
    → (i : ℕ) {timed : Bool} {request : ℕ}
    → get_elem? s.threads i ≡ some (waiting timed request true)
    → int_geq s.count request ≡ true
    → (j : ℕ) × (p : Pc) × (get_elem? s.threads j ≡ some p) × (0 < notifies p)
sleeper_is_notified {s = s} small r i at enough =
    contributor notifies s.threads
      (ground (arith, (Reach-Inv small r).awake, le-total (stuck s.count) s.threads i at, enough))

-- `try_acquire_until` of any number of permits takes one where there is one, so that it returns true
-- where the request could not be met, and waits with a request for one where there is none.
pub until_takes_one :
    (request count : ℕ)
    → count < 2 ^ 32
    → ((2 ^ 31 < rank count)
        → try_acquire_until request count ≡ (sub_permits count 1, outside true))
      × ((rank count ≤ 2 ^ 31) → try_acquire_until request count ≡ (count, waiting true 1 true))
unfolding try_acquire_until try_acquire0 pass
until_takes_one request count word = (
  λ enough.
      rw ((int_geq_iff count 1).1 (omega (arith, enough, rank-request count 1 word (omega arith))))
        refl,
  λ few. ground (arith, int_geq_iff count 1, few, rank-request count 1 word (omega arith)),
)
