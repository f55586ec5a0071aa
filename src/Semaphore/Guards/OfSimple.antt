-- ===== src/Semaphore/Guards/OfSimple.antt =====
-- A `SimpleSemaphore` behind the guards.
use concurrency_cpp.Base.{
  ℕ, ◌+◌, ◌^◌, ◌<◌, ◌≡◌, refl, sym, ◌∙◌, ap, inl, inr, Bool, true, false, Option, none, some, arith,
  if◌then◌else◌, Bool-cases,
}
use concurrency_cpp.Semaphore.Word.{rank, sub_permits, int_geq, rank-add_permits, taken_off}
use concurrency_cpp.Semaphore.Simple
use concurrency_cpp.Semaphore.Simple.{Pc, outside, waiting, notifying, pass, timeout}
use concurrency_cpp.Semaphore.Guards.{
  Semaphore, Guard, lock, unlock, try_lock, try_lock_for, try_lock_until, Entry, made, making,
  locked, locking, tried, tried_for, tried_until, make-acquire, make-waits,
}

-- A call that does not wait, and one whose deadline passes while it waits.
abbrev pub returned : ℕ × Pc → Option ℕ
returned r = elim r.1 [ outside b ↦ some r.0 | _ ↦ none ]

abbrev pub answered : ℕ × Pc → Bool × ℕ
answered r = elim r.1 [ outside b ↦ (b, r.0) | _ ↦ (false, (timeout r.0).0) ]

abbrev pub simple_semaphore : Semaphore ℕ
simple_semaphore = record {
  acquire = λ request count. returned (Simple.acquire request count);
  release = λ request count. (Simple.release request count).0;
  try_acquire = λ request count. answered (Simple.try_acquire request count);
  try_acquire_for = λ request count. answered (Simple.try_acquire_for request count);
  try_acquire_until = λ request count. answered (Simple.try_acquire_until request count);
}

-- The permits that it takes to enter: `try_lock_until` looks for one.
abbrev pub looks_for : {a : Guard} {count : ℕ} {r : Bool × ℕ} → Entry simple_semaphore a count r → ℕ
looks_for {a} tried_until = 1
looks_for {a} _ = a.request

acquire-taken :
    (request count count' : ℕ)
    → returned (Simple.acquire request count) ≡ some count'
    → (int_geq count request ≡ true) × (count' ≡ sub_permits count request)
unfolding Simple.acquire pass
acquire-taken request count count' e = ground (arith, e)

acquire-waits :
    (request count : ℕ)
    → returned (Simple.acquire request count) ≡ none
    → int_geq count request ≡ false
unfolding Simple.acquire pass
acquire-waits request count e = ground (arith, e)

-- Entered where the count meets the number `n`, which is taken then.
abbrev Takes : ℕ → ℕ → Bool × ℕ → Type 0
Takes n count r =
    (r.0 ≡ int_geq count n) × (r.1 < 2 ^ 32) × (rank r.1 + (if r.0 then n else 0) ≡ rank count)

-- A call that takes `n` where the count meets it.
try-Takes :
    (n count : ℕ)
    → count < 2 ^ 32
    → n < 2 ^ 31
    → Takes n count (int_geq count n, if int_geq count n then sub_permits count n else count)
try-Takes n count word small = elim (Bool-cases (int_geq count n)) [
  | inl enough ↦
      let (less, word', positive) = taken_off count n word small enough in
      rw enough (refl, word', less)
  | inr few ↦ rw few (refl, word, omega arith)
]

taken-Takes :
    (n count count' : ℕ)
    → count < 2 ^ 32
    → n < 2 ^ 31
    → (int_geq count n ≡ true) × (count' ≡ sub_permits count n)
    → Takes n count (true, count')
taken-Takes n count count' word small (enough, e) =
    let (less, word', positive) = taken_off count n word small enough in
    (sym enough, omega (arith, e, word'), ap (λ c. rank c + n) e ∙ less)

waits-Takes :
    (n count : ℕ) → count < 2 ^ 32 → int_geq count n ≡ false → Takes n count (false, count)
waits-Takes n count word few = (sym few, word, omega arith)

try_acquire_lem :
    (n count : ℕ)
    → answered (Simple.try_acquire n count)
      ≡ (int_geq count n, if int_geq count n then sub_permits count n else count)
unfolding Simple.try_acquire
try_acquire_lem n count = ground arith

try_acquire0_lem :
    (n count : ℕ)
    → answered (Simple.try_acquire0 n count)
      ≡ (int_geq count n, if int_geq count n then sub_permits count n else count)
unfolding Simple.try_acquire0 pass timeout
try_acquire0_lem n count = ground arith

Entry-Takes :
    (a : Guard) {count : ℕ} {r : Bool × ℕ}
    → count < 2 ^ 32
    → a.request < 2 ^ 31
    → (entry : Entry simple_semaphore a count r) → Takes (looks_for entry) count r
unfolding lock try_lock try_lock_for try_lock_until Simple.try_acquire_for Simple.try_acquire_until
Entry-Takes a {count} word small (made {s' = count'} e) =
    taken-Takes a.request count count' word small (
      acquire-taken a.request count count'
        (make-acquire simple_semaphore a.request a count count' e))
Entry-Takes a {count} word small (making e) =
    waits-Takes a.request count word
      (acquire-waits a.request count (make-waits simple_semaphore a.request count e))
Entry-Takes a {count} word small (locked {s' = count'} e) =
    taken-Takes a.request count count' word small (acquire-taken a.request count count' e)
Entry-Takes a {count} word small (locking e) =
    waits-Takes a.request count word (acquire-waits a.request count e)
Entry-Takes a {count} word small tried =
    rw (try_acquire_lem a.request count) (try-Takes a.request count word small)
Entry-Takes a {count} word small tried_for =
    rw (try_acquire0_lem a.request count) (try-Takes a.request count word small)
Entry-Takes a {count} word small tried_until =
    rw (try_acquire0_lem 1 count) (try-Takes 1 count word (omega arith))

-- An adapter of a simple semaphore whose `try_lock_until` returns true, and which is unlocked then,
-- leaves the semaphore with more permits than at first: all of its request but one.
pub try_lock_until-unlock :
    (a : Guard) (count count' : ℕ)
    → count < 2 ^ 32
    → a.request < 2 ^ 31
    → rank count' + a.request < 2 ^ 32
    → try_lock_until simple_semaphore a count ≡ (true, count')
    → rank (unlock simple_semaphore a count') + 1 ≡ rank count + a.request
unfolding unlock Simple.release
try_lock_until-unlock a count count' word small fits e =
    let (answer, left, taken) = Entry-Takes a word small tried_until in
    let word' : count' < 2 ^ 32 = ground (arith, e, left) in
    let (more, _) = rank-add_permits count' a.request word' small fits in
    ground (arith, e, taken, more)
