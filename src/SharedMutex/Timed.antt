-- ===== src/SharedMutex/Timed.antt =====
-- `SharedTimedMutex` of concurrency/shared_mutex.h, as the threads see it that call it.
-- What a call does between taking `mtx` and releasing it, or waiting, is one function of the state
-- word; it gives the new word and where the thread stands then. A condition variable wakes threads
-- when it is notified, and may wake any thread at any time.
pub mod Invariant
pub mod Wakeups
pub mod Refinement
mod Tests
use mathlib.Core.List.{map}
use concurrency_cpp.Base.{
  ℕ, ◌-◌, ◌≡◌, Bool, true, false, ◌&&◌, ◌||◌, not, some, List, ◌==◌, if◌then◌else◌, get_elem?, set,
  replicate,
}
use concurrency_cpp.Base.Threads.{total}
use concurrency_cpp.SharedMutex.Word.{
  writer_entered_mask, num_reader_mask, writer_entered, num_readers, set_entered, clear_entered,
  add_reader, remove_reader,
}

-- A notification that a call gives after it has released `mtx`.
pub data Notice : Type 0 where
  rgate_all rgate_one wgate_one : Notice

-- Where a thread stands. `timed`: it waits with a deadline. `asleep`: no notification has reached it.
pub data Pc : Type 0 where
  outside : (result : Bool) → Pc
  rgate_writer : (timed asleep : Bool) → Pc
  wgate_writer : (timed asleep : Bool) → Pc
  rgate_reader : (timed asleep : Bool) → Pc
  writer : Pc
  reader : Pc
  notify : Notice → (result : Bool) → Pc

-- The second wait of `lock` and `try_lock_until`.
unfoldable pub pass_wgate : Bool → ℕ → ℕ × Pc
unfolding num_readers
pass_wgate timed state =
    if num_readers state == 0 then (state, writer) else (state, wgate_writer timed true)

-- The first wait, and what follows it.
unfoldable pub pass_rgate : Bool → ℕ → ℕ × Pc
unfolding pass_wgate writer_entered set_entered
pass_rgate timed state =
    if writer_entered state
    then (state, rgate_writer timed true)
    else pass_wgate timed (set_entered state)

unfoldable pub lock : ℕ → ℕ × Pc
unfolding pass_rgate
lock state = pass_rgate false state

unfoldable pub try_lock_until : ℕ → ℕ × Pc
unfolding pass_rgate
try_lock_until state = pass_rgate true state

-- The deadline passes at `rgate`: `wait_until` gives the value of its predicate.
unfoldable pub rgate_timeout : ℕ → ℕ × Pc
unfolding pass_wgate writer_entered set_entered
rgate_timeout state =
    if writer_entered state then (state, outside false) else pass_wgate true (set_entered state)

-- The deadline passes at `wgate`.
unfoldable pub wgate_timeout : ℕ → ℕ × Pc
unfolding num_readers clear_entered
wgate_timeout state =
    if num_readers state == 0
    then (state, writer)
    else (clear_entered state, notify rgate_all false)

unfoldable pub unlock : ℕ → ℕ × Pc
unfolding clear_entered
unlock state = (clear_entered state, notify rgate_all true)

-- `owns_lock`: whether `mtx` was free.
unfoldable pub try_lock : Bool → ℕ → ℕ × Pc
try_lock owns_lock state =
    if owns_lock && (state == 0) then (writer_entered_mask, writer) else (state, outside false)

-- The condition on which a reader waits.
unfoldable pub reader_barred : ℕ → Bool
unfolding writer_entered num_readers
reader_barred state = writer_entered state || (num_readers state == num_reader_mask)

unfoldable pub pass_shared : Bool → ℕ → ℕ × Pc
unfolding reader_barred add_reader
pass_shared timed state =
    if reader_barred state then (state, rgate_reader timed true) else (add_reader state, reader)

unfoldable pub lock_shared : ℕ → ℕ × Pc
unfolding pass_shared
lock_shared state = pass_shared false state

unfoldable pub try_lock_shared_until : ℕ → ℕ × Pc
unfolding pass_shared
try_lock_shared_until state = pass_shared true state

unfoldable pub shared_timeout : ℕ → ℕ × Pc
unfolding reader_barred add_reader
shared_timeout state =
    if reader_barred state then (state, outside false) else (add_reader state, reader)

unfoldable pub try_lock_shared : Bool → ℕ → ℕ × Pc
unfolding reader_barred add_reader
try_lock_shared owns_lock state =
    if owns_lock && not (reader_barred state)
    then (add_reader state, reader)
    else (state, outside false)

-- The notification that is due once a reader has left.
unfoldable pub leave_shared : ℕ → ℕ × Pc
unfolding writer_entered num_readers
leave_shared state =
    if writer_entered state && (num_readers state == 0)
    then (state, notify wgate_one true)
    else if num_readers state == num_reader_mask - 1
    then (state, notify rgate_one true)
    else (state, outside true)

unfoldable pub unlock_shared : ℕ → ℕ × Pc
unfolding leave_shared remove_reader
unlock_shared state = leave_shared (remove_reader state)

-- What one thread does in one hold of `mtx`.
pub data Move (state : ℕ) : Pc → ℕ × Pc → Type 0 where
  call_lock : {b : Bool} → Move state (outside b) (lock state)
  call_try_lock : {b : Bool} (owns_lock : Bool) → Move state (outside b) (try_lock owns_lock state)
  call_try_lock_until : {b : Bool} → Move state (outside b) (try_lock_until state)
  call_lock_shared : {b : Bool} → Move state (outside b) (lock_shared state)
  call_try_lock_shared :
      {b : Bool} (owns_lock : Bool) → Move state (outside b) (try_lock_shared owns_lock state)
  call_try_lock_shared_until : {b : Bool} → Move state (outside b) (try_lock_shared_until state)
  call_unlock : Move state writer (unlock state)
  call_unlock_shared : Move state reader (unlock_shared state)
  wake_rgate_writer :
      {timed asleep : Bool} → Move state (rgate_writer timed asleep) (pass_rgate timed state)
  wake_wgate_writer :
      {timed asleep : Bool} → Move state (wgate_writer timed asleep) (pass_wgate timed state)
  wake_reader :
      {timed asleep : Bool} → Move state (rgate_reader timed asleep) (pass_shared timed state)
  expire_rgate : {asleep : Bool} → Move state (rgate_writer true asleep) (rgate_timeout state)
  expire_wgate : {asleep : Bool} → Move state (wgate_writer true asleep) (wgate_timeout state)
  expire_reader : {asleep : Bool} → Move state (rgate_reader true asleep) (shared_timeout state)

-- Weights of a thread: 1 where it is counted, 0 elsewhere.
abbrev pub at_rgate : Pc → ℕ
at_rgate (rgate_writer _ true) = 1
at_rgate (rgate_reader _ true) = 1
at_rgate _ = 0

abbrev pub at_wgate : Pc → ℕ
at_wgate (wgate_writer _ true) = 1
at_wgate _ = 0

-- A notification reaches a thread asleep at `rgate`, or at `wgate`.
abbrev pub wake_rgate : Pc → Pc
wake_rgate (rgate_writer timed _) = rgate_writer timed false
wake_rgate (rgate_reader timed _) = rgate_reader timed false
wake_rgate p = p

abbrev pub wake_wgate : Pc → Pc
wake_wgate (wgate_writer timed _) = wgate_writer timed false
wake_wgate p = p

pub record System : Type 0 where
  pub state : ℕ
  pub threads : List Pc

-- One step of the threads that share a mutex: a hold of `mtx`, or a notification. `notify_one` wakes
-- one of the threads asleep there, and does nothing where there is none.
pub data Step (s : System) : System → Type 0 where
  move :
      (i : ℕ) {p : Pc} {r : ℕ × Pc}
      → get_elem? s.threads i ≡ some p
      → Move s.state p r
      → Step s (record { state = r.0; threads = set s.threads i r.1 })
  notify_all_rgate :
      (i : ℕ) {b : Bool}
      → get_elem? s.threads i ≡ some (notify rgate_all b)
      → Step s (record s { threads = map wake_rgate (set s.threads i (outside b)) })
  notify_one_rgate :
      (i : ℕ) {b : Bool} (j : ℕ) {p : Pc}
      → get_elem? s.threads i ≡ some (notify rgate_one b)
      → get_elem? (set s.threads i (outside b)) j ≡ some p
      → at_rgate p ≡ 1
      → Step s (record s { threads = set (set s.threads i (outside b)) j (wake_rgate p) })
  notify_none_rgate :
      (i : ℕ) {b : Bool}
      → get_elem? s.threads i ≡ some (notify rgate_one b)
      → total at_rgate s.threads ≡ 0
      → Step s (record s { threads = set s.threads i (outside b) })
  notify_one_wgate :
      (i : ℕ) {b : Bool} (j : ℕ) {p : Pc}
      → get_elem? s.threads i ≡ some (notify wgate_one b)
      → get_elem? (set s.threads i (outside b)) j ≡ some p
      → at_wgate p ≡ 1
      → Step s (record s { threads = set (set s.threads i (outside b)) j (wake_wgate p) })
  notify_none_wgate :
      (i : ℕ) {b : Bool}
      → get_elem? s.threads i ≡ some (notify wgate_one b)
      → total at_wgate s.threads ≡ 0
      → Step s (record s { threads = set s.threads i (outside b) })

-- `n` threads and a new mutex.
abbrev pub init : ℕ → System
init n = record { state = 0; threads = replicate n (outside true) }

pub data Reach (n : ℕ) : System → Type 0 where
  start : Reach n (init n)
  later : {s t : System} → Reach n s → Step s t → Reach n t
