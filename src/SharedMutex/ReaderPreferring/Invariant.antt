-- ===== src/SharedMutex/ReaderPreferring/Invariant.antt =====
-- Who owns a `ReaderPreferringSharedTimedMutex`.
use mathlib.Core.List.{map}
use concurrency_cpp.Base.{
  ℕ, ◌+◌, ◌*◌, ◌^◌, ◌≤◌, ◌<◌, ◌≡◌, refl, ◌≢◌, ◌⊎◌, true, some, arith, List, get_elem?, set,
}
use concurrency_cpp.Base.Threads.{
  total, total-set, total-replicate, le-total, add-le-total, total-map,
}
use concurrency_cpp.SharedMutex.ReaderPreferring.{
  Pc, outside, writer, reader, notify_all, pass, lock, try_lock_until, lock_timeout, unlock,
  try_lock, pass_shared, lock_shared, try_lock_shared_until, shared_timeout, try_lock_shared,
  unlock_shared, Move, call_lock, call_try_lock, call_unlock, wake, System, Step, move, notified,
  Reach, start, later,
}

abbrev pub writes : Pc → ℕ
writes writer = 1
writes _ = 0

abbrev pub reads : Pc → ℕ
reads reader = 1
reads _ = 0

-- The state word against the numbers of threads that write and read.
pub record Counts (state w r : ℕ) : Type 0 where
  pub word : state ≡ 2 ^ 31 * w + r
  pub one_writer : w ≤ 1
  pub few_readers : r < 2 ^ 31
  pub exclusive : (w ≡ 0) ⊎ (r ≡ 0)

abbrev pub Inv : System → Type 0
Inv s = Counts s.state (total writes s.threads) (total reads s.threads)

-- One thread goes from `p` to `q`, among `w` and `r`, then `w'` and `r'` threads.
record Change (p q : Pc) (w r w' r' : ℕ) : Type 0 where
  writing : w' + writes p ≡ w + writes q
  reading : r' + reads p ≡ r + reads q
  here : (writes p ≤ w) × (reads p ≤ r)

module _ {w r w' r' : ℕ} where
  Move-Counts :
      {state : ℕ} {p : Pc} {q : ℕ × Pc}
      → Move state p q
      → Counts state w r
      → Change p q.1 w r w' r'
      → Counts q.0 w' r'
  unfolding pass pass_shared lock try_lock_until lock_timeout unlock try_lock lock_shared
      try_lock_shared_until shared_timeout try_lock_shared unlock_shared
  Move-Counts call_lock c d = ground arith
  Move-Counts (call_try_lock owns_lock) c d = ground arith
  Move-Counts call_unlock c d = ground arith
  Move-Counts _ c d = ground arith

-- A notification keeps both numbers.
notified-Counts :
    {k : ℕ} (ts : List Pc) (i : ℕ)
    → get_elem? ts i ≡ some notify_all
    → Counts k (total writes ts) (total reads ts)
    → Counts k
        (total writes (map wake (set ts i (outside true))))
        (total reads (map wake (set ts i (outside true))))
notified-Counts ts i at c = ground (
  arith,
  total-map writes wake (λ p. ground arith) (set ts i (outside true)),
  total-map reads wake (λ p. ground arith) (set ts i (outside true)),
  total-set writes ts i (outside true) at,
  total-set reads ts i (outside true) at,
)

-- Every step keeps the invariant.
pub Step-Inv : {s t : System} → Step s t → Inv s → Inv t
Step-Inv {s} (move i {p} {r} at m) inv = Move-Counts m inv (record {
  writing = total-set writes s.threads i r.1 at;
  reading = total-set reads s.threads i r.1 at;
  here = (le-total writes s.threads i at, le-total reads s.threads i at);
})
Step-Inv {s} (notified i at) inv = notified-Counts s.threads i at inv

-- In every reachable state the highest bit of the word is set exactly if a thread writes, at most
-- one does, the lower bits are the number of readers, and a writer leaves no reader.
pub Reach-Counts : {n : ℕ} {s : System} → Reach n s → Inv s
Reach-Counts {n} start = omega (
  arith,
  total-replicate writes n (outside true) refl,
  total-replicate reads n (outside true) refl,
)
Reach-Counts (later r st) = Step-Inv st (Reach-Counts r)

-- In every reachable state a thread that owns the mutex excludes every other owner, of either kind.
pub writer_is_alone :
    {n : ℕ} {s : System}
    → Reach n s
    → (i j : ℕ) → i ≢ j
    → get_elem? s.threads i ≡ some writer
    → (get_elem? s.threads j ≢ some writer) × (get_elem? s.threads j ≢ some reader)
writer_is_alone {s} r i j ne at = (
  λ at'. let twice = add-le-total writes s.threads i j ne at at' in omega (arith, Reach-Counts r),
  λ at'.
      let one = le-total writes s.threads i at in
      let some_reader = le-total reads s.threads j at' in omega (arith, Reach-Counts r),
)

-- A writer that unlocks discards nothing: the word it overwrites by 0 counts no reader.
pub unlock_discards_nothing :
    {n : ℕ} {s : System}
    → Reach n s
    → (i : ℕ) → get_elem? s.threads i ≡ some writer
    → (s.state ≡ 2 ^ 31) × ((unlock s.state).0 ≡ 0) × (total reads s.threads ≡ 0)
unfolding unlock
unlock_discards_nothing {s} r i at =
    let one = le-total writes s.threads i at in
    let inv = Reach-Counts r in (omega arith, refl, omega arith)
