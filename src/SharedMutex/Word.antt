-- ===== src/SharedMutex/Word.antt =====
-- The state word of the shared mutexes of concurrency/shared_mutex.h: the highest of 32 bits says
-- whether a writer has entered, the lower 31 bits count the readers. `uint_fast32_t` has 64 bits on
-- the 64-bit GNU platforms, so arithmetic on it wraps at 2 ^ 64.
use Prim.Native.Nat.{bit_and, bit_or}
use concurrency_cpp.Base.{
  ℕ, ◌+◌, ◌-◌, ◌*◌, ◌/◌, ◌%◌, ◌^◌, ◌≤◌, ◌<◌, ◌≡◌, refl, Bool, true, arith, ◌==◌, if◌then◌else◌,
}

abbrev pub writer_entered_mask : ℕ
writer_entered_mask = 2 ^ 31

abbrev pub num_reader_mask : ℕ
num_reader_mask = writer_entered_mask - 1

-- `state & WRITER_ENTERED_MASK`, as a test
unfoldable pub writer_entered : ℕ → Bool
writer_entered state = state / writer_entered_mask % 2 == 1

-- `state & NUM_READER_MASK`
unfoldable pub num_readers : ℕ → ℕ
num_readers state = state % writer_entered_mask

-- `state |= WRITER_ENTERED_MASK`
unfoldable pub set_entered : ℕ → ℕ
unfolding writer_entered
set_entered state = if writer_entered state then state else state + writer_entered_mask

-- `state &= ~WRITER_ENTERED_MASK`
unfoldable pub clear_entered : ℕ → ℕ
unfolding writer_entered
clear_entered state = if writer_entered state then state - writer_entered_mask else state

-- `state += 1`
unfoldable pub add_reader : ℕ → ℕ
add_reader state = (state + 1) % 2 ^ 64

-- `state -= 1`
unfoldable pub remove_reader : ℕ → ℕ
remove_reader state = (state + 2 ^ 64 - 1) % 2 ^ 64

-- A word with `e` writers entered (0 or 1) and `r` readers, under each operation.
module _ (e r : ℕ) (one : e ≤ 1) (few : r < 2 ^ 31) where
  pub writer_entered_lem : writer_entered (2 ^ 31 * e + r) ≡ (e == 1)
  unfolding writer_entered
  writer_entered_lem = ground arith

  pub num_readers_lem : num_readers (2 ^ 31 * e + r) ≡ r
  unfolding num_readers
  num_readers_lem = omega arith

  pub set_entered_lem : set_entered (2 ^ 31 * e + r) ≡ 2 ^ 31 + r
  unfolding set_entered
  set_entered_lem = ground arith

  pub clear_entered_lem : clear_entered (2 ^ 31 * e + r) ≡ r
  unfolding clear_entered
  clear_entered_lem = ground arith

  pub add_reader_lem : add_reader (2 ^ 31 * e + r) ≡ 2 ^ 31 * e + (r + 1)
  unfolding add_reader
  add_reader_lem = omega arith

  pub remove_reader_lem : 0 < r → remove_reader (2 ^ 31 * e + r) ≡ 2 ^ 31 * e + (r - 1)
  unfolding remove_reader
  remove_reader_lem h = omega arith

-- The arithmetic forms at sample words, against the bit operations.
masks_agree :
    (num_readers 0x8000_0005 ≡ bit_and 0x8000_0005 num_reader_mask)
    × (set_entered 7 ≡ bit_or 7 writer_entered_mask)
    × (writer_entered (bit_or 7 writer_entered_mask) ≡ true)
    × (clear_entered 0x8000_0007 ≡ 7)
unfolding num_readers set_entered clear_entered
masks_agree = (refl, refl, refl, refl)
