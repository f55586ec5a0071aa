-- ===== src/Latch.antt =====
-- `Latch` of concurrency/latch.h. The counter changes without the mutex, so that every load and every
-- `fetch_sub` is a step of its own, as are taking the mutex, falling asleep and the notification.
pub mod Counter
pub mod Invariant
pub mod Promises
mod Tests
use mathlib.Core.List.{map}
use concurrency_cpp.Base.{
  ℕ, ◌+◌, ◌-◌, ◌%◌, ◌^◌, ◌≤◌, ◌<◌, ◌≡◌, Bool, true, false, ◌&&◌, some, List, if◌then◌else◌, leb,
  ltb, get_elem?, set, replicate,
}
use concurrency_cpp.Base.Threads.{total}

-- `std::ptrdiff_t` as a word of 64 bits in two's complement: `bias` keeps the order.
unfoldable pub bias : ℕ → ℕ
bias v = (v + 2 ^ 63) % 2 ^ 64

unfoldable pub signed_leb : ℕ → ℕ → Bool
unfolding bias
signed_leb v n = leb (bias v) (bias n)

unfoldable pub signed_ltb : ℕ → ℕ → Bool
unfolding bias
signed_ltb v n = ltb (bias v) (bias n)

-- Where a thread stands. `then_wait`: in `count_down_and_wait`.
pub data Pc : Type 0 where
  outside : Pc
  counting : Pc  -- in `count_down_and_wait`, past its test
  locking : (then_wait : Bool) → Pc  -- in `count_down`, before it takes the mutex
  locked : (then_wait : Bool) → Pc  -- with the mutex
  notifying : (then_wait : Bool) → Pc  -- before `notify_all`
  calling : Pc  -- at the start of `wait`
  entering : Pc  -- in `wait`, before it takes the mutex
  testing : Pc  -- with the mutex, before the second test
  predicate : Pc  -- with the mutex, before the predicate of `cv.wait`
  falling_asleep : Pc  -- with the mutex, the predicate was false
  waiting : (asleep : Bool) → Pc  -- in `cv.wait`, without the mutex

unfoldable pub is_ready : ℕ → Bool
unfolding signed_leb
is_ready v = signed_leb v 0

abbrev pub after_count : Bool → Pc
after_count then_wait = if then_wait then calling else outside

unfoldable pub count_down : ℕ → Bool → ℕ → ℕ × Pc
unfolding signed_ltb signed_leb
count_down n then_wait v = (
  (v + 2 ^ 64 - n) % 2 ^ 64,
  if signed_ltb 0 v && signed_leb v n then locking then_wait else after_count then_wait,
)

-- The three loads of the counter in `wait`.
unfoldable pub wait : ℕ → Pc
unfolding is_ready
wait v = if is_ready v then outside else entering

unfoldable pub wait_locked : ℕ → Pc
unfolding is_ready
wait_locked v = if is_ready v then outside else predicate

unfoldable pub wait_predicate : ℕ → Pc
unfolding is_ready
wait_predicate v = if is_ready v then outside else falling_asleep

unfoldable pub count_down_and_wait : ℕ → Pc
unfolding is_ready
count_down_and_wait v = if is_ready v then outside else counting

-- What a thread does alone.
pub data Move (v : ℕ) : Pc → Pc → Type 0 where
  call_wait : Move v outside (wait v)
  call_count_down_and_wait : Move v outside (count_down_and_wait v)
  load : Move v calling (wait v)
  test : Move v testing (wait_locked v)
  test_predicate : Move v predicate (wait_predicate v)
  fall_asleep : Move v falling_asleep (waiting true)
  release : {then_wait : Bool} → Move v (locked then_wait) (notifying then_wait)

-- What a thread does when it gets the mutex; a thread may wake without a notification.
pub data Acquire : Pc → Pc → Type 0 where
  enter : Acquire entering testing
  sync : {then_wait : Bool} → Acquire (locking then_wait) (locked then_wait)
  wake_up : {asleep : Bool} → Acquire (waiting asleep) predicate

-- The calls of `count_down`.
pub data Calls : Pc → ℕ → Bool → Type 0 where
  call_count_down : (n : ℕ) → Calls outside n false
  count_one : Calls counting 1 true

abbrev pub wake : Pc → Pc
wake (waiting asleep) = waiting false
wake outside = outside
wake counting = counting
wake (locking b) = locking b
wake (locked b) = locked b
wake (notifying b) = notifying b
wake calling = calling
wake entering = entering
wake testing = testing
wake predicate = predicate
wake falling_asleep = falling_asleep

abbrev pub holds : Pc → ℕ
holds p = elim p [ locked b ↦ 1 | testing ↦ 1 | predicate ↦ 1 | falling_asleep ↦ 1 | _ ↦ 0 ]

-- `counted`: the sum of what the calls of `count_down` have subtracted.
pub record System : Type 0 where
  pub value : ℕ
  pub counted : ℕ
  pub threads : List Pc

-- Callers subtract what is not negative, and not so much that the counter wraps.
pub data Step (s : System) : System → Type 0 where
  move :
      (i : ℕ) {p q : Pc}
      → get_elem? s.threads i ≡ some p
      → Move s.value p q
      → Step s (record s { threads = set s.threads i q })
  acquire :
      (i : ℕ) {p q : Pc}
      → get_elem? s.threads i ≡ some p
      → Acquire p q
      → total holds s.threads ≡ 0
      → Step s (record s { threads = set s.threads i q })
  count :
      (i : ℕ) {p : Pc} (n : ℕ) {then_wait : Bool}
      → get_elem? s.threads i ≡ some p
      → Calls p n then_wait
      → n < 2 ^ 63
      → n ≤ bias s.value
      → Step s (record {
        value = (count_down n then_wait s.value).0;
        counted = s.counted + n;
        threads = set s.threads i (count_down n then_wait s.value).1;
      })
  notify_all :
      (i : ℕ) {then_wait : Bool}
      → get_elem? s.threads i ≡ some (notifying then_wait)
      → Step s (record s { threads = map wake (set s.threads i (after_count then_wait)) })

-- `n` threads and a latch made with `value`.
pub data Reach (value n : ℕ) : System → Type 0 where
  start : Reach value n (record { value = value; counted = 0; threads = replicate n outside })
  later : {s t : System} → Reach value n s → Step s t → Reach value n t
