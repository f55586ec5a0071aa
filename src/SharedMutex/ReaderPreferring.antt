-- ===== src/SharedMutex/ReaderPreferring.antt =====
-- `ReaderPreferringSharedTimedMutex` of concurrency/shared_mutex.h, with the conventions of `Timed`:
-- a function for each hold of `mtx`, a step relation for the threads.
pub mod Invariant
pub mod Wakeups
pub mod Refinement
mod Tests
use mathlib.Core.List.{map}
use concurrency_cpp.Base.{
  ℕ, ◌≡◌, Bool, true, false, ◌&&◌, ◌||◌, not, some, List, ◌==◌, if◌then◌else◌, get_elem?, set,
  replicate,
}
use concurrency_cpp.SharedMutex.Word.{
  writer_entered_mask as writer_active_mask, num_reader_mask, writer_entered as writer_active,
  num_readers, add_reader, remove_reader,
}

-- Where a thread stands; `notify_all` stands between `mtx.unlock()` and `cv.notify_all()`.
pub data Pc : Type 0 where
  outside : (result : Bool) → Pc
  waiting_writer : (timed asleep : Bool) → Pc
  waiting_reader : (timed asleep : Bool) → Pc
  writer : Pc
  reader : Pc
  notify_all : Pc

-- The loop of `lock`, and `wait_until` of `try_lock_until`.
unfoldable pub pass : Bool → ℕ → ℕ × Pc
pass timed state =
    if state == 0 then (writer_active_mask, writer) else (state, waiting_writer timed true)

unfoldable pub lock : ℕ → ℕ × Pc
unfolding pass
lock state = pass false state

unfoldable pub try_lock_until : ℕ → ℕ × Pc
unfolding pass
try_lock_until state = pass true state

-- The deadline of a writer passes: `wait_until` gives the value of its predicate.
unfoldable pub lock_timeout : ℕ → ℕ × Pc
lock_timeout state = if state == 0 then (writer_active_mask, writer) else (state, outside false)

unfoldable pub unlock : ℕ → ℕ × Pc
unlock state = (0, notify_all)

-- `owns_lock`: whether `mtx` was free.
unfoldable pub try_lock : Bool → ℕ → ℕ × Pc
try_lock owns_lock state =
    if owns_lock && (state == 0) then (writer_active_mask, writer) else (state, outside false)

-- The condition on which a reader waits.
unfoldable pub reader_barred : ℕ → Bool
unfolding writer_active num_readers
reader_barred state = writer_active state || (num_readers state == num_reader_mask)

unfoldable pub pass_shared : Bool → ℕ → ℕ × Pc
unfolding reader_barred add_reader
pass_shared timed state =
    if reader_barred state then (state, waiting_reader timed true) else (add_reader state, reader)

unfoldable pub lock_shared : ℕ → ℕ × Pc
unfolding pass_shared
lock_shared state = pass_shared false state

unfoldable pub try_lock_shared_until : ℕ → ℕ × Pc
unfolding pass_shared
try_lock_shared_until state = pass_shared true state

unfoldable pub shared_timeout : ℕ → ℕ × Pc
unfolding reader_barred add_reader
shared_timeout state =
    if reader_barred state then (state, outside false) else (add_reader state, reader)

unfoldable pub try_lock_shared : Bool → ℕ → ℕ × Pc
unfolding reader_barred add_reader
try_lock_shared owns_lock state =
    if owns_lock && not (reader_barred state)
    then (add_reader state, reader)
    else (state, outside false)

unfoldable pub unlock_shared : ℕ → ℕ × Pc
unfolding remove_reader
unlock_shared state =
    if remove_reader state == 0
    then (remove_reader state, notify_all)
    else (remove_reader state, outside true)

-- What one thread does in one hold of `mtx`.
pub data Move (state : ℕ) : Pc → ℕ × Pc → Type 0 where
  call_lock : {b : Bool} → Move state (outside b) (lock state)
  call_try_lock : {b : Bool} (owns_lock : Bool) → Move state (outside b) (try_lock owns_lock state)
  call_try_lock_until : {b : Bool} → Move state (outside b) (try_lock_until state)
  call_lock_shared : {b : Bool} → Move state (outside b) (lock_shared state)
  call_try_lock_shared :
      {b : Bool} (owns_lock : Bool) → Move state (outside b) (try_lock_shared owns_lock state)
  call_try_lock_shared_until : {b : Bool} → Move state (outside b) (try_lock_shared_until state)
  call_unlock : Move state writer (unlock state)
  call_unlock_shared : Move state reader (unlock_shared state)
  wake_writer : {timed asleep : Bool} → Move state (waiting_writer timed asleep) (pass timed state)
  wake_reader :
      {timed asleep : Bool} → Move state (waiting_reader timed asleep) (pass_shared timed state)
  expire_writer : {asleep : Bool} → Move state (waiting_writer true asleep) (lock_timeout state)
  expire_reader : {asleep : Bool} → Move state (waiting_reader true asleep) (shared_timeout state)

-- `cv.notify_all()` reaches a thread.
abbrev pub wake : Pc → Pc
wake (waiting_writer timed _) = waiting_writer timed false
wake (waiting_reader timed _) = waiting_reader timed false
wake p = p

pub record System : Type 0 where
  pub state : ℕ
  pub threads : List Pc

pub data Step (s : System) : System → Type 0 where
  move :
      (i : ℕ) {p : Pc} {r : ℕ × Pc}
      → get_elem? s.threads i ≡ some p
      → Move s.state p r
      → Step s (record { state = r.0; threads = set s.threads i r.1 })
  notified :
      (i : ℕ)
      → get_elem? s.threads i ≡ some notify_all
      → Step s (record s { threads = map wake (set s.threads i (outside true)) })

-- `n` threads and a new mutex.
abbrev pub init : ℕ → System
init n = record { state = 0; threads = replicate n (outside true) }

pub data Reach (n : ℕ) : System → Type 0 where
  start : Reach n (init n)
  later : {s t : System} → Reach n s → Step s t → Reach n t
