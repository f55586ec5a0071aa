-- ===== src/SharedMutex/Timed/Wakeups.antt =====
-- No wakeup of a `SharedTimedMutex` is lost: what a thread sleeps for is still to come.
use mathlib.Core.List.{map}
use concurrency_cpp.Base.{
  ℕ, ◌+◌, ◌^◌, ◌≤◌, ◌<◌, ◌≡◌, refl, ◌∙◌, ◌⊎◌, inl, inr, true, some, arith, List, get_elem?, set,
  length, length-set, length-map, length-replicate,
}
use concurrency_cpp.Base.Threads.{
  total, total-add, total-set, total-replicate, le-total, total-map, total_mono, total_mono_rest,
  total-map_zero, contributor, total-le-length,
}
use concurrency_cpp.SharedMutex.Timed.{
  rgate_all, wgate_one, Pc, outside, rgate_writer, wgate_writer, rgate_reader, notify, pass_wgate,
  pass_rgate, lock, try_lock_until, rgate_timeout, wgate_timeout, unlock, try_lock, pass_shared,
  lock_shared, try_lock_shared_until, shared_timeout, try_lock_shared, unlock_shared, Move,
  call_lock, call_try_lock, call_unlock, at_rgate, at_wgate, wake_rgate, wake_wgate, System, Step,
  move, notify_all_rgate, notify_one_rgate, notify_none_rgate, notify_one_wgate, notify_none_wgate,
  Reach, start, later,
}
use concurrency_cpp.SharedMutex.Timed.Invariant.{entered, reads, Counts, Inv, Reach-Inv}

-- The thread is about to notify all at `rgate`, or one at `wgate`.
abbrev pub owes_rgate : Pc → ℕ
owes_rgate (notify rgate_all _) = 1
owes_rgate _ = 0

abbrev pub owes_wgate : Pc → ℕ
owes_wgate (notify wgate_one _) = 1
owes_wgate _ = 0

-- `g` and `a` threads asleep at the gates, `x` and `y` notifications owed, `e` writers entered and
-- `r` readers: whoever sleeps at `rgate` sleeps for a writer that has entered or for a notification
-- on its way, whoever sleeps at `wgate` for a reader or a notification.
record Covered (e r g a x y : ℕ) : Type 0 where
  at_rgate : (g ≡ 0) ⊎ (0 < e + x)
  at_wgate : (a ≡ 0) ⊎ (0 < r + y)

abbrev IsCovered : List Pc → Type 0
IsCovered ts =
    Covered (total entered ts) (total reads ts) (total at_rgate ts) (total at_wgate ts)
      (total owes_rgate ts) (total owes_wgate ts)

record Shift (p q : Pc) (e r g a x y e' r' g' a' x' y' : ℕ) : Type 0 where
  entering : e' + entered p ≡ e + entered q
  reading : r' + reads p ≡ r + reads q
  rgate : g' + at_rgate p ≡ g + at_rgate q
  wgate : a' + at_wgate p ≡ a + at_wgate q
  owing_rgate : x' + owes_rgate p ≡ x + owes_rgate q
  owing_wgate : y' + owes_wgate p ≡ y + owes_wgate q
  rest : a + entered p ≤ e + at_wgate p

Shift-set :
    (ts : List Pc) (i : ℕ) {p : Pc} (q : Pc)
    → get_elem? ts i ≡ some p
    → Shift p q
        (total entered ts)
        (total reads ts)
        (total at_rgate ts)
        (total at_wgate ts)
        (total owes_rgate ts)
        (total owes_wgate ts)
        (total entered (set ts i q))
        (total reads (set ts i q))
        (total at_rgate (set ts i q))
        (total at_wgate (set ts i q))
        (total owes_rgate (set ts i q))
        (total owes_wgate (set ts i q))
Shift-set ts i q at = record {
  entering = total-set entered ts i q at;
  reading = total-set reads ts i q at;
  rgate = total-set at_rgate ts i q at;
  wgate = total-set at_wgate ts i q at;
  owing_rgate = total-set owes_rgate ts i q at;
  owing_wgate = total-set owes_wgate ts i q at;
  rest = total_mono_rest at_wgate entered (λ p. ground arith) ts i at;
}

module _ {e r w g a x y e' r' g' a' x' y' : ℕ} where
  Move-Covered :
      {state : ℕ} {p : Pc} {q : ℕ × Pc}
      → Move state p q
      → r + 1 < 2 ^ 31
      → Counts state e r w
      → Covered e r g a x y
      → Shift p q.1 e r g a x y e' r' g' a' x' y'
      → Covered e' r' g' a' x' y'
  unfolding pass_rgate pass_wgate pass_shared lock try_lock_until rgate_timeout wgate_timeout unlock
      try_lock lock_shared try_lock_shared_until shared_timeout try_lock_shared unlock_shared
  Move-Covered call_lock few c v d = ground arith
  Move-Covered (call_try_lock owns_lock) few c v d = ground arith
  Move-Covered call_unlock few c v d = ground arith
  Move-Covered _ few c v d = ground arith

-- The sums under a change that is made to all threads.
wake_all_sums :
    (ts : List Pc)
    → (total entered (map wake_rgate ts) ≡ total entered ts)
      × (total reads (map wake_rgate ts) ≡ total reads ts)
      × (total at_wgate (map wake_rgate ts) ≡ total at_wgate ts)
      × (total owes_wgate (map wake_rgate ts) ≡ total owes_wgate ts)
      × (total at_rgate (map wake_rgate ts) ≡ 0)
wake_all_sums ts = (
  total-map entered wake_rgate (λ p. ground arith) ts,
  total-map reads wake_rgate (λ p. ground arith) ts,
  total-map at_wgate wake_rgate (λ p. ground arith) ts,
  total-map owes_wgate wake_rgate (λ p. ground arith) ts,
  total-map_zero at_rgate at_rgate wake_rgate (λ p. ground arith) ts,
)

few_reads : (s : System) → length s.threads + 1 < 2 ^ 31 → total reads s.threads + 1 < 2 ^ 31
few_reads s few = omega (arith, total-le-length reads (λ p. ground arith) s.threads)

asleep-le-entered : (ts : List Pc) → total at_wgate ts ≤ total entered ts
asleep-le-entered = total_mono at_wgate entered (λ p. ground arith)

Step-IsCovered :
    {s t : System}
    → Step s t
    → length s.threads + 1 < 2 ^ 31
    → Inv s
    → IsCovered s.threads
    → IsCovered t.threads
Step-IsCovered {s} (move i {p} {r} at m) few inv v =
    Move-Covered m (few_reads s few) inv v (Shift-set s.threads i r.1 at)
Step-IsCovered {s} (notify_all_rgate i {b} at) few inv v =
    ground
      (arith, Shift-set s.threads i (outside b) at, wake_all_sums (set s.threads i (outside b)))
Step-IsCovered {s} (notify_one_rgate i {b} j {p} at at' asleep) few inv v = ground (
  arith,
  Shift-set s.threads i (outside b) at,
  Shift-set (set s.threads i (outside b)) j (wake_rgate p) at',
)
Step-IsCovered {s} (notify_none_rgate i {b} at none_asleep) few inv v =
    ground (arith, Shift-set s.threads i (outside b) at)
Step-IsCovered {s} (notify_one_wgate i {b} j {p} at at' asleep) few inv v = ground (
  arith,
  Shift-set s.threads i (outside b) at,
  Shift-set (set s.threads i (outside b)) j (wake_wgate p) at',
  asleep-le-entered s.threads,
)
Step-IsCovered {s} (notify_none_wgate i {b} at none_asleep) few inv v =
    ground (arith, Shift-set s.threads i (outside b) at)

Step-length : {s t : System} → Step s t → length t.threads ≡ length s.threads
Step-length {s} (move i {r} at m) = length-set s.threads i r.1
Step-length {s} (notify_all_rgate i {b} at) =
    omega (
      arith,
      length-map (set s.threads i (outside b)) wake_rgate,
      length-set s.threads i (outside b),
    )
Step-length {s} (notify_one_rgate i {b} j {p} at at' asleep) = omega (
  arith,
  length-set (set s.threads i (outside b)) j (wake_rgate p),
  length-set s.threads i (outside b),
)
Step-length {s} (notify_none_rgate i {b} at none_asleep) = length-set s.threads i (outside b)
Step-length {s} (notify_one_wgate i {b} j {p} at at' asleep) = omega (
  arith,
  length-set (set s.threads i (outside b)) j (wake_wgate p),
  length-set s.threads i (outside b),
)
Step-length {s} (notify_none_wgate i {b} at none_asleep) = length-set s.threads i (outside b)

Reach-length : {n : ℕ} {s : System} → Reach n s → length s.threads ≡ n
Reach-length {n} start = length-replicate n (outside true)
Reach-length (later r st) = Step-length st ∙ Reach-length r

Reach-IsCovered : {n : ℕ} {s : System} → n + 1 < 2 ^ 31 → Reach n s → IsCovered s.threads
Reach-IsCovered {n} few start = record {
  at_rgate = inl (total-replicate at_rgate n (outside true) refl);
  at_wgate = inl (total-replicate at_wgate n (outside true) refl);
}
Reach-IsCovered few (later r st) =
    Step-IsCovered st (omega (arith, Reach-length r)) (Reach-Inv r) (Reach-IsCovered few r)

-- A thread that owns the mutex, is about to notify, or has been woken.
abbrev pub active : Pc → ℕ
active (outside _) = 0
active (rgate_writer _ true) = 0
active (rgate_reader _ true) = 0
active (wgate_writer _ true) = 0
active _ = 1

abbrev HasActive : List Pc → Type 0
HasActive ts = (j : ℕ) × (p : Pc) × (get_elem? ts j ≡ some p) × (active p ≡ 1)

module _ (ts : List Pc) (v : IsCovered ts) where
  -- Behind a thread asleep at `wgate` stands a reader or a notification.
  active_of_at_wgate : 0 < total at_wgate ts → HasActive ts
  active_of_at_wgate asleep =
      let (j, p, at, pos) =
        contributor (λ p. reads p + owes_wgate p) ts
          (omega (arith, total-add reads owes_wgate ts, v.at_wgate)) in
      (j, p, at, ground arith)

  active_of_at_rgate : 0 < total at_rgate ts → HasActive ts
  active_of_at_rgate asleep =
      let (j, p, at, pos) =
        contributor (λ p. entered p + owes_rgate p) ts
          (omega (arith, total-add entered owes_rgate ts, v.at_rgate)) in
      elim (active_or_asleep p pos) [
        | inl act ↦ (j, p, at, act)
        | inr asleep' ↦ active_of_at_wgate (omega (arith, le-total at_wgate ts j at))
      ]
    where
      active_or_asleep : (p : Pc) → 0 < entered p + owes_rgate p → (active p ≡ 1) ⊎ (at_wgate p ≡ 1)
      active_or_asleep (outside b) h = absurd (omega arith)
      active_or_asleep _ h = ground arith

-- With fewer than 2 ^ 31 - 1 threads, whenever a thread sleeps at a gate some thread owns the mutex,
-- owes a notification, or is awake on its way in: the sleepers are never left alone.
pub no_lost_wakeup :
    {n : ℕ} {s : System}
    → n + 1 < 2 ^ 31
    → Reach n s
    → (i : ℕ) {p : Pc} → get_elem? s.threads i ≡ some p
    → 0 < at_rgate p + at_wgate p
    → (j : ℕ) × (q : Pc) × (get_elem? s.threads j ≡ some q) × (active q ≡ 1)
no_lost_wakeup {s} few r i {p} at asleep =
    let v : IsCovered s.threads = Reach-IsCovered few r in
    elim (which p asleep) [
      | inl g ↦ active_of_at_rgate s.threads v (omega (arith, le-total at_rgate s.threads i at))
      | inr a ↦ active_of_at_wgate s.threads v (omega (arith, le-total at_wgate s.threads i at))
    ]
  where
    which : (p : Pc) → 0 < at_rgate p + at_wgate p → (at_rgate p ≡ 1) ⊎ (at_wgate p ≡ 1)
    which (outside b) h = absurd (omega arith)
    which _ h = ground arith
