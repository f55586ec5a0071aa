-- ===== src/FairSpinLock/Tests.antt =====
-- Runs of a `FairSpinLock`, and its theorems at states that they reach.
use concurrency_cpp.Base.{ℕ, ◌^◌, ◌≤◌, ◌<◌, ◌≡◌, refl, some, [], ◌∷◌, arith, get_elem?}
use concurrency_cpp.Base.Threads.{total}
use concurrency_cpp.FairSpinLock.{
  Pc, outside, spinning, owner, System, increment, take_ticket, enter, unlock, call_lock, spin,
  call_unlock, Reach, start, later,
}
use concurrency_cpp.FairSpinLock.Tickets.{
  owns, pends, has, strays, ahead, at_most_one_owner, turn_is_taken,
}

-- One thread owns the lock, and the other has the next ticket.
abbrev queued : System
queued = record { next = 2; active = 0; threads = owner 0 ∷ spinning 1 ∷ [] }

Reach-queued : Reach 2 queued
unfolding take_ticket enter increment
Reach-queued = later (later (later start (call_lock 0 refl)) (spin 0 refl refl)) (call_lock 1 refl)

-- The owner leaves, and the other enters.
abbrev handed_over : System
handed_over = record { next = 2; active = 1; threads = outside ∷ owner 1 ∷ [] }

Reach-handed_over : Reach 2 handed_over
unfolding unlock enter increment
Reach-handed_over = later (later Reach-queued (call_unlock 0 refl)) (spin 1 refl refl)

at_most_one_owner_example :
    (total owns handed_over.threads ≤ 1)
    × (total (strays 1) handed_over.threads ≡ 0)
    × (total pends handed_over.threads ≡ ahead 1 2)
at_most_one_owner_example = at_most_one_owner (omega arith) Reach-handed_over

turn_is_taken_example :
    (0 < total pends queued.threads
      → (j : ℕ) × (p : Pc) × (get_elem? queued.threads j ≡ some p) × (0 < has 0 p))
    × ((k : ℕ) → k < 2 ^ 32 → total (has k) queued.threads ≤ 1)
turn_is_taken_example = turn_is_taken (omega arith) Reach-queued
