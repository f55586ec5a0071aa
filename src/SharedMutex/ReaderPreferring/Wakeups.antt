-- ===== src/SharedMutex/ReaderPreferring/Wakeups.antt =====
-- No wakeup of a `ReaderPreferringSharedTimedMutex` is lost.
use concurrency_cpp.Base.{
  ℕ, ◌+◌, ◌^◌, ◌≤◌, ◌<◌, ◌≡◌, refl, ◌∙◌, ◌⊎◌, inl, inr, true, some, arith, List, get_elem?, set,
  length, length-set, length-map, length-replicate,
}
use concurrency_cpp.Base.Threads.{
  total, total-add, total-set, total-replicate, le-total, total-map_zero, contributor,
  total-le-length,
}
use concurrency_cpp.SharedMutex.ReaderPreferring.{
  Pc, outside, waiting_writer, waiting_reader, reader, notify_all, pass, lock, try_lock_until,
  lock_timeout, unlock, try_lock, pass_shared, lock_shared, try_lock_shared_until, shared_timeout,
  try_lock_shared, unlock_shared, Move, call_lock, call_try_lock, call_unlock, wake, System, Step,
  move, notified, Reach, start, later,
}
use concurrency_cpp.SharedMutex.ReaderPreferring.Invariant.{
  writes, reads, Counts, Inv, Reach-Counts,
}

-- The thread waits and no notification has reached it, as a writer or as a reader.
abbrev pub sleeping_writer : Pc → ℕ
sleeping_writer (waiting_writer _ true) = 1
sleeping_writer _ = 0

abbrev pub sleeping_reader : Pc → ℕ
sleeping_reader (waiting_reader _ true) = 1
sleeping_reader _ = 0

abbrev pub owes : Pc → ℕ
owes notify_all = 1
owes _ = 0

-- `a` writers and `b` readers asleep, `x` notifications owed: a writer sleeps for an owner or a
-- notification, a reader for a writer or a notification.
record Covered (w r a b x : ℕ) : Type 0 where
  by_owner : (a ≡ 0) ⊎ (0 < w + r + x)
  by_writer : (b ≡ 0) ⊎ (0 < w + x)

abbrev IsCovered : List Pc → Type 0
IsCovered ts =
    Covered (total writes ts) (total reads ts) (total sleeping_writer ts) (total sleeping_reader ts)
      (total owes ts)

record Shift (p q : Pc) (w r a b x w' r' a' b' x' : ℕ) : Type 0 where
  writing : w' + writes p ≡ w + writes q
  reading : r' + reads p ≡ r + reads q
  sleeping_writers : a' + sleeping_writer p ≡ a + sleeping_writer q
  sleeping_readers : b' + sleeping_reader p ≡ b + sleeping_reader q
  owing : x' + owes p ≡ x + owes q
  here : (writes p ≤ w) × (reads p ≤ r)

Shift-set :
    (ts : List Pc) (i : ℕ) {p : Pc} (q : Pc)
    → get_elem? ts i ≡ some p
    → Shift p q
        (total writes ts)
        (total reads ts)
        (total sleeping_writer ts)
        (total sleeping_reader ts)
        (total owes ts)
        (total writes (set ts i q))
        (total reads (set ts i q))
        (total sleeping_writer (set ts i q))
        (total sleeping_reader (set ts i q))
        (total owes (set ts i q))
Shift-set ts i q at = record {
  writing = total-set writes ts i q at;
  reading = total-set reads ts i q at;
  sleeping_writers = total-set sleeping_writer ts i q at;
  sleeping_readers = total-set sleeping_reader ts i q at;
  owing = total-set owes ts i q at;
  here = (le-total writes ts i at, le-total reads ts i at);
}

module _ {w r a b x w' r' a' b' x' : ℕ} where
  Move-Covered :
      {state : ℕ} {p : Pc} {q : ℕ × Pc}
      → Move state p q
      → r + 1 < 2 ^ 31
      → Counts state w r
      → Covered w r a b x
      → Shift p q.1 w r a b x w' r' a' b' x'
      → Covered w' r' a' b' x'
  unfolding pass pass_shared lock try_lock_until lock_timeout unlock try_lock lock_shared
      try_lock_shared_until shared_timeout try_lock_shared unlock_shared
  Move-Covered call_lock few c v d = ground arith
  Move-Covered (call_try_lock owns_lock) few c v d = ground arith
  Move-Covered call_unlock few c v d = ground arith
  Move-Covered _ few c v d = ground arith

few_reads : (s : System) → length s.threads + 1 < 2 ^ 31 → total reads s.threads + 1 < 2 ^ 31
few_reads s few = omega (arith, total-le-length reads (λ p. ground arith) s.threads)

-- After a notification nobody sleeps.
Step-IsCovered :
    {s t : System}
    → Step s t
    → length s.threads + 1 < 2 ^ 31
    → Inv s
    → IsCovered s.threads
    → IsCovered t.threads
Step-IsCovered {s} (move i {p} {r} at m) few inv v =
    Move-Covered m (few_reads s few) inv v (Shift-set s.threads i r.1 at)
Step-IsCovered {s} (notified i at) few inv v = record {
  by_owner = inl (total-map_zero sleeping_writer sleeping_writer wake (λ p. ground arith) _);
  by_writer = inl (total-map_zero sleeping_reader sleeping_reader wake (λ p. ground arith) _);
}

Step-length : {s t : System} → Step s t → length t.threads ≡ length s.threads
Step-length {s} (move i {r} at m) = length-set s.threads i r.1
Step-length {s} (notified i at) =
    length-map (set s.threads i (outside true)) wake ∙ length-set s.threads i (outside true)

Reach-length : {n : ℕ} {s : System} → Reach n s → length s.threads ≡ n
Reach-length {n} start = length-replicate n (outside true)
Reach-length (later r st) = Step-length st ∙ Reach-length r

Reach-IsCovered : {n : ℕ} {s : System} → n + 1 < 2 ^ 31 → Reach n s → IsCovered s.threads
Reach-IsCovered {n} few start = record {
  by_owner = inl (total-replicate sleeping_writer n (outside true) refl);
  by_writer = inl (total-replicate sleeping_reader n (outside true) refl);
}
Reach-IsCovered few (later r st) =
    Step-IsCovered st (omega (arith, Reach-length r)) (Reach-Counts r) (Reach-IsCovered few r)

-- What a sleeping thread `p` waits for, in a thread `q`: a writer, a notification, or, if `p` is to
-- write, a reader.
abbrev pub Awaits : Pc → Pc → Type 0
Awaits p q = (writes q + owes q ≡ 1) ⊎ ((sleeping_writer p ≡ 1) × (q ≡ reader))

module _ (ts : List Pc) (v : IsCovered ts) (p : Pc) where
  awaited_by_reader :
      0 < total sleeping_reader ts → (j : ℕ) × (q : Pc) × (get_elem? ts j ≡ some q) × Awaits p q
  awaited_by_reader asleep =
      let (j, q, at, pos) =
        contributor (λ q. writes q + owes q) ts
          (omega (arith, total-add writes owes ts, v.by_writer)) in
      (j, q, at, inl (ground arith))

  awaited_by_writer :
      sleeping_writer p ≡ 1
      → 0 < total sleeping_writer ts
      → (j : ℕ) × (q : Pc) × (get_elem? ts j ≡ some q) × Awaits p q
  awaited_by_writer e asleep =
      let (j, q, at, pos) =
        contributor (λ q. reads q + (writes q + owes q)) ts
          (omega (
            arith,
            total-add reads (λ q. writes q + owes q) ts,
            total-add writes owes ts,
            v.by_owner,
          )) in
      (j, q, at, ground arith)

-- With fewer than 2 ^ 31 - 1 threads, whenever a thread sleeps some thread writes or is about to
-- notify all, or the sleeper is to write and some thread reads: no sleeper is left alone.
pub no_sleeper_alone :
    {n : ℕ} {s : System}
    → n + 1 < 2 ^ 31
    → Reach n s
    → (i : ℕ) {p : Pc} → get_elem? s.threads i ≡ some p
    → 0 < sleeping_writer p + sleeping_reader p
    → (j : ℕ) × (q : Pc) × (get_elem? s.threads j ≡ some q) × Awaits p q
no_sleeper_alone {s} few r i {p} at asleep =
    let v : IsCovered s.threads = Reach-IsCovered few r in
    elim (which p asleep) [
      | inl w ↦
          awaited_by_writer s.threads v p w (omega (arith, le-total sleeping_writer s.threads i at))
      | inr b ↦
          awaited_by_reader s.threads v p (omega (arith, le-total sleeping_reader s.threads i at))
    ]
  where
    which :
        (p : Pc)
        → 0 < sleeping_writer p + sleeping_reader p
        → (sleeping_writer p ≡ 1) ⊎ (sleeping_reader p ≡ 1)
    which (outside b) h = absurd (omega arith)
    which _ h = ground arith
