-- ===== src/SharedMutex/Timed/Invariant.antt =====
-- Who owns a `SharedTimedMutex`: the state word counts the threads that hold it.
use mathlib.Core.List.{map}
use concurrency_cpp.Base.{
  ℕ, ◌+◌, ◌*◌, ◌^◌, ◌≤◌, ◌<◌, ◌≡◌, refl, ◌≢◌, ◌⊎◌, Bool, true, some, arith, List, get_elem?, set,
}
use concurrency_cpp.Base.Threads.{
  total, total-set, total-set_same, total-replicate, le-total, add-le-total, total-map,
  total_mono_rest,
}
use concurrency_cpp.SharedMutex.Timed.{
  Notice, Pc, outside, wgate_writer, writer, reader, notify, pass_wgate, pass_rgate, lock,
  try_lock_until, rgate_timeout, wgate_timeout, unlock, try_lock, pass_shared, lock_shared,
  try_lock_shared_until, shared_timeout, try_lock_shared, unlock_shared, Move, call_lock,
  call_try_lock, call_unlock, wake_rgate, wake_wgate, System, Step, move, notify_all_rgate,
  notify_one_rgate, notify_none_rgate, notify_one_wgate, notify_none_wgate, Reach, start, later,
}

-- The thread has set the highest bit; it owns the mutex; it owns it in shared mode.
abbrev pub entered : Pc → ℕ
entered (wgate_writer _ _) = 1
entered writer = 1
entered _ = 0

abbrev pub writes : Pc → ℕ
writes writer = 1
writes _ = 0

abbrev pub reads : Pc → ℕ
reads reader = 1
reads _ = 0

-- The state word against the numbers of threads that have entered, read and write.
pub record Counts (state e r w : ℕ) : Type 0 where
  pub word : state ≡ 2 ^ 31 * e + r
  pub one_entered : e ≤ 1
  pub few_readers : r < 2 ^ 31
  pub writer_entered_too : w ≤ e
  pub exclusive : (w ≡ 0) ⊎ (r ≡ 0)

abbrev pub Inv : System → Type 0
Inv s = Counts s.state (total entered s.threads) (total reads s.threads) (total writes s.threads)

-- One thread goes from `p` to `q`, among `e`, `r`, `w` and then `e'`, `r'`, `w'` threads.
record Change (p q : Pc) (e r w e' r' w' : ℕ) : Type 0 where
  entering : e' + entered p ≡ e + entered q
  reading : r' + reads p ≡ r + reads q
  writing : w' + writes p ≡ w + writes q
  here : (entered p ≤ e) × (reads p ≤ r) × (writes p ≤ w)
  others : w + entered p ≤ e + writes p

module _ {e r w e' r' w' : ℕ} where
  Move-Counts :
      {state : ℕ} {p : Pc} {q : ℕ × Pc}
      → Move state p q
      → Counts state e r w
      → Change p q.1 e r w e' r' w'
      → Counts q.0 e' r' w'
  unfolding pass_rgate pass_wgate pass_shared lock try_lock_until rgate_timeout wgate_timeout unlock
      try_lock lock_shared try_lock_shared_until shared_timeout try_lock_shared unlock_shared
  Move-Counts call_lock c d = ground arith
  Move-Counts (call_try_lock owns_lock) c d = ground arith
  Move-Counts call_unlock c d = ground arith
  Move-Counts _ c d = ground arith

module _ {e r w r' : ℕ} where
  -- A thread joins the readers only while no writer has entered.
  Move-reads :
      {state : ℕ} {p : Pc} {q : ℕ × Pc}
      → Move state p q
      → Counts state e r w
      → 0 < e
      → r' + reads p ≡ r + reads q.1
      → r' ≤ r
  unfolding pass_rgate pass_wgate pass_shared lock try_lock_until rgate_timeout wgate_timeout unlock
      try_lock lock_shared try_lock_shared_until shared_timeout try_lock_shared unlock_shared
  Move-reads call_lock c pos d = ground arith
  Move-reads (call_try_lock owns_lock) c pos d = ground arith
  Move-reads call_unlock c pos d = ground arith
  Move-reads _ c pos d = ground arith

-- As many threads have entered, read and write.
pub record Same (ts us : List Pc) : Type 0 where
  pub entering : total entered us ≡ total entered ts
  pub reading : total reads us ≡ total reads ts
  pub writing : total writes us ≡ total writes ts

Counts-Same :
    {k : ℕ} {ts us : List Pc}
    → Same ts us
    → Counts k (total entered ts) (total reads ts) (total writes ts)
    → Counts k (total entered us) (total reads us) (total writes us)
Counts-Same same inv = rw (same.entering, same.reading, same.writing) inv

pub Same-trans : {ts us vs : List Pc} → Same ts us → Same us vs → Same ts vs
Same-trans a b = omega arith

-- A thread that goes from `p` to `q` keeps its part.
pub record Alike (p q : Pc) : Type 0 where
  pub entering : entered q ≡ entered p
  pub reading : reads q ≡ reads p
  pub writing : writes q ≡ writes p

pub Same-set :
    (ts : List Pc) (i : ℕ) {p : Pc} (q : Pc)
    → Alike p q
    → get_elem? ts i ≡ some p
    → Same ts (set ts i q)
Same-set ts i q a at = record {
  entering = total-set_same entered ts i q a.entering at;
  reading = total-set_same reads ts i q a.reading at;
  writing = total-set_same writes ts i q a.writing at;
}

Alike-notify : (n : Notice) (b c : Bool) → Alike (notify n b) (outside c)
Alike-notify n b c = omega arith

pub Alike-wake_rgate : (p : Pc) → Alike p (wake_rgate p)
Alike-wake_rgate (outside b) = omega arith
Alike-wake_rgate _ = omega arith

pub Alike-wake_wgate : (p : Pc) → Alike p (wake_wgate p)
Alike-wake_wgate (outside b) = omega arith
Alike-wake_wgate _ = omega arith

pub Same-notify :
    (ts : List Pc) (i : ℕ) {n : Notice} {b : Bool}
    → get_elem? ts i ≡ some (notify n b)
    → Same ts (set ts i (outside b))
Same-notify ts i {n} {b} at = Same-set ts i (outside b) (Alike-notify n b b) at

pub Same-wake_all : (ts : List Pc) → Same ts (map wake_rgate ts)
Same-wake_all ts = record {
  entering = total-map entered wake_rgate (λ p. (Alike-wake_rgate p).entering) ts;
  reading = total-map reads wake_rgate (λ p. (Alike-wake_rgate p).reading) ts;
  writing = total-map writes wake_rgate (λ p. (Alike-wake_rgate p).writing) ts;
}

pub writes-le-entered : (p : Pc) → writes p ≤ entered p
writes-le-entered (outside b) = omega arith
writes-le-entered _ = omega arith

-- Every step keeps the invariant.
pub Step-Inv : {s t : System} → Step s t → Inv s → Inv t
Step-Inv {s} (move i {p} {r} at m) inv = Move-Counts m inv (record {
  entering = total-set entered s.threads i r.1 at;
  reading = total-set reads s.threads i r.1 at;
  writing = total-set writes s.threads i r.1 at;
  here = (
    le-total entered s.threads i at,
    le-total reads s.threads i at,
    le-total writes s.threads i at,
  );
  others = total_mono_rest writes entered writes-le-entered s.threads i at;
})
Step-Inv {s} (notify_all_rgate i at) inv =
    Counts-Same (Same-trans (Same-notify s.threads i at) (Same-wake_all _)) inv
Step-Inv {s} (notify_one_rgate i j {p} at at' asleep) inv =
    Counts-Same
      (Same-trans (Same-notify s.threads i at)
        (Same-set _ j (wake_rgate p) (Alike-wake_rgate p) at'))
      inv
Step-Inv {s} (notify_none_rgate i at none_asleep) inv = Counts-Same (Same-notify s.threads i at) inv
Step-Inv {s} (notify_one_wgate i j {p} at at' asleep) inv =
    Counts-Same
      (Same-trans (Same-notify s.threads i at)
        (Same-set _ j (wake_wgate p) (Alike-wake_wgate p) at'))
      inv
Step-Inv {s} (notify_none_wgate i at none_asleep) inv = Counts-Same (Same-notify s.threads i at) inv

-- In every reachable state the highest bit of the word is set exactly if one thread has entered, at
-- most one has, the lower bits are the number of readers, and a thread that writes has entered and
-- leaves no reader.
pub Reach-Inv : {n : ℕ} {s : System} → Reach n s → Inv s
Reach-Inv {n} start = omega (
  arith,
  total-replicate entered n (outside true) refl,
  total-replicate reads n (outside true) refl,
  total-replicate writes n (outside true) refl,
)
Reach-Inv (later r st) = Step-Inv st (Reach-Inv r)

-- In every reachable state a thread that owns the mutex excludes every other owner, of either kind.
pub mutual_exclusion :
    {n : ℕ} {s : System}
    → Reach n s
    → (i j : ℕ) → i ≢ j
    → get_elem? s.threads i ≡ some writer
    → (get_elem? s.threads j ≢ some writer) × (get_elem? s.threads j ≢ some reader)
mutual_exclusion {s} r i j ne at = (
  λ at'. let twice = add-le-total writes s.threads i j ne at at' in omega (arith, Reach-Inv r),
  λ at'.
      let one = le-total writes s.threads i at in
      let some_reader = le-total reads s.threads j at' in omega (arith, Reach-Inv r),
)

-- When a writer unlocks, the word is 0 afterwards.
pub unlock-zero :
    {n : ℕ} {s : System}
    → Reach n s
    → (i : ℕ) → get_elem? s.threads i ≡ some writer
    → (unlock s.state).0 ≡ 0
unfolding unlock
unlock-zero {s} r i at = ground (arith, le-total writes s.threads i at, Reach-Inv r)

-- Once a writer has entered, every step keeps the number of readers or lowers it: no reader passes a
-- waiting writer.
pub no_reader_passes :
    {n : ℕ} {s t : System}
    → Reach n s
    → Step s t
    → 0 < total entered s.threads
    → total reads t.threads ≤ total reads s.threads
no_reader_passes {s} r (move i {p} {r = q} at m) wait =
    Move-reads m (Reach-Inv r) wait (total-set reads s.threads i q.1 at)
no_reader_passes {s} r (notify_all_rgate i at) wait =
    omega (arith, Same-trans (Same-notify s.threads i at) (Same-wake_all _))
no_reader_passes {s} r (notify_one_rgate i j {p} at at' asleep) wait =
    omega (arith, Same-notify s.threads i at, Same-set _ j (wake_rgate p) (Alike-wake_rgate p) at')
no_reader_passes {s} r (notify_none_rgate i at none_asleep) wait =
    omega (arith, Same-notify s.threads i at)
no_reader_passes {s} r (notify_one_wgate i j {p} at at' asleep) wait =
    omega (arith, Same-notify s.threads i at, Same-set _ j (wake_wgate p) (Alike-wake_wgate p) at')
no_reader_passes {s} r (notify_none_wgate i at none_asleep) wait =
    omega (arith, Same-notify s.threads i at)
