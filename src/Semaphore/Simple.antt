-- ===== src/Semaphore/Simple.antt =====
-- `SimpleSemaphore` of concurrency/semaphore.h. Each function is one hold of `mtx`.
pub mod Invariant
mod Tests
use mathlib.Core.List.{map}
use concurrency_cpp.Base.{
  ℕ, ◌+◌, ◌-◌, ◌^◌, ◌≤◌, ◌<◌, ◌≡◌, Bool, true, false, not, some, List, if◌then◌else◌, get_elem?,
  set, replicate,
}
use concurrency_cpp.Semaphore.Word.{rank, add_permits, sub_permits, int_geq}

-- Where a thread stands. `asleep`: no notification has reached it.
pub data Pc : Type 0 where
  outside : (result : Bool) → Pc
  waiting : (timed : Bool) → (request : ℕ) → (asleep : Bool) → Pc
  notifying : Pc  -- in `release`, without the mutex

-- The loop of `acquire` and `try_acquire0` up to the wait, or to the end.
unfoldable pub pass : Bool → ℕ → ℕ → ℕ × Pc
unfolding int_geq sub_permits
pass timed request count =
    if not (int_geq count request)
    then (count, waiting timed request true)
    else (sub_permits count request, outside true)

unfoldable pub acquire : ℕ → ℕ → ℕ × Pc
unfolding pass
acquire request count = pass false request count

unfoldable pub try_acquire0 : ℕ → ℕ → ℕ × Pc
unfolding pass
try_acquire0 permits count = pass true permits count

-- The deadline passes: the count is not looked at again.
unfoldable pub timeout : ℕ → ℕ × Pc
timeout count = (count, outside false)

unfoldable pub release : ℕ → ℕ → ℕ × Pc
unfolding add_permits
release request count = (add_permits count request, notifying)

unfoldable pub try_acquire : ℕ → ℕ → ℕ × Pc
unfolding int_geq sub_permits
try_acquire request count =
    if int_geq count request
    then (sub_permits count request, outside true)
    else (count, outside false)

unfoldable pub try_acquire_for : ℕ → ℕ → ℕ × Pc
unfolding try_acquire0
try_acquire_for request count = try_acquire0 request count

-- The number of permits that is passed on is `true`.
unfoldable pub try_acquire_until : ℕ → ℕ → ℕ × Pc
unfolding try_acquire0
try_acquire_until request count = try_acquire0 1 count

-- The calls that ask for permits, and the number of permits that they look for: `try_acquire_until` looks
-- for one, whatever its own request `n`.
pub data Asks (request count : ℕ) : ℕ × Pc → Type 0 where
  call_acquire : Asks request count (acquire request count)
  call_try_acquire : Asks request count (try_acquire request count)
  call_try_acquire_for : Asks request count (try_acquire_for request count)
  call_try_acquire_until : (n : ℕ) → request ≡ 1 → Asks request count (try_acquire_until n count)

abbrev pub wake : Pc → Pc
wake (waiting timed request asleep) = waiting timed request false
wake (outside result) = outside result
wake notifying = notifying

-- `acquired` and `released`: the permits that calls took, and those released.
pub record System : Type 0 where
  pub count : ℕ
  pub acquired : ℕ
  pub released : ℕ
  pub threads : List Pc

-- What a call that looks for `request` permits has got, where it leaves the thread at `p`.
abbrev pub granted : ℕ → Pc → ℕ
granted request p = elim p [
  | outside result ↦ if result then request else 0
  | waiting timed n asleep ↦ 0
  | notifying ↦ 0
]

abbrev pub moved : System → ℕ → ℕ → ℕ × Pc → System
moved s i request r = record s {
  count = r.0;
  acquired = s.acquired + granted request r.1;
  threads = set s.threads i r.1;
}

-- Requests are `int`s, and `release` does not overflow the count.
pub data Step (s : System) : System → Type 0 where
  ask :
      (i : ℕ) {b : Bool} {request : ℕ} {r : ℕ × Pc}
      → get_elem? s.threads i ≡ some (outside b)
      → request < 2 ^ 31
      → Asks request s.count r
      → Step s (moved s i request r)
  call_release :
      (i : ℕ) {b : Bool} (request : ℕ)
      → get_elem? s.threads i ≡ some (outside b)
      → request < 2 ^ 31
      → rank s.count + request < 2 ^ 32
      → Step s (record s {
        count = (release request s.count).0;
        released = s.released + request;
        threads = set s.threads i (release request s.count).1;
      })
  wake_up :
      (i : ℕ) {timed asleep : Bool} {request : ℕ}
      → get_elem? s.threads i ≡ some (waiting timed request asleep)
      → Step s (moved s i request (pass timed request s.count))
  expire :
      (i : ℕ) {asleep : Bool} {request : ℕ}
      → get_elem? s.threads i ≡ some (waiting true request asleep)
      → Step s (moved s i request (timeout s.count))
  notify_all :
      (i : ℕ)
      → get_elem? s.threads i ≡ some notifying
      → Step s (record s { threads = map wake (set s.threads i (outside true)) })

-- `n` threads and a semaphore made with `initial_permits`.
pub data Reach (initial_permits n : ℕ) : System → Type 0 where
  start : Reach initial_permits n (record {
    count = initial_permits;
    acquired = 0;
    released = 0;
    threads = replicate n (outside true);
  })
  later : {s t : System} → Reach initial_permits n s → Step s t → Reach initial_permits n t
