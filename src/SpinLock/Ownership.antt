-- ===== src/SpinLock/Ownership.antt =====
-- Who owns a `SpinLock`.
use concurrency_cpp.Base.{
  ℕ, ◌+◌, ◌≤◌, ◌<◌, ◌≡◌, ◌≢◌, refl, Bool, true, false, some, arith, if◌then◌else◌, ltb, leb, ◌&&◌,
  get_elem?,
}
use concurrency_cpp.Base.Threads.{total, total-set, le-total, add-le-total, total-replicate}
use concurrency_cpp.SpinLock.{
  Pc, outside, spinning, owner, lose_patience, spin, try_lock, unlock, System, Step, call_lock,
  spins, call_try_lock, call_unlock, Reach, start, later,
}

-- Weights of a thread: it owns the lock; its counter is 0 or more than the 100 it starts at.
abbrev pub owns : Pc → ℕ
owns p = elim p [ owner ↦ 1 | _ ↦ 0 ]

abbrev pub impatient : Pc → ℕ
impatient p = elim p [
  | spinning patience ↦ if (ltb 0 patience) && (leb patience 100) then 0 else 1
  | _ ↦ 0
]

record Inv (s : System) : Type 0 where
  owned : total owns s.threads ≡ (if s.l then 1 else 0)
  patient : total impatient s.threads ≡ 0

spin-owns :
    (patience : ℕ) (l : Bool)
    → owns (spin patience l).1 + (if l then 1 else 0) ≡ (if (spin patience l).0 then 1 else 0)
unfolding spin
spin-owns patience true = omega arith
spin-owns patience false = omega arith

spin-impatient :
    (patience : ℕ) (l : Bool)
    → impatient (spinning patience) ≡ 0
    → impatient (spin patience l).1 ≡ 0
unfolding spin lose_patience
spin-impatient patience true h = ground (arith, h)
spin-impatient patience false h = refl

Step-Inv : {s t : System} → Step s t → Inv s → Inv t
unfolding try_lock unlock
Step-Inv {s} (call_lock i b here) inv = record {
  owned = omega (arith, total-set owns s.threads i (spinning 100) here, inv.owned);
  patient = omega (arith, total-set impatient s.threads i (spinning 100) here, inv.patient);
}
Step-Inv {s} (spins i patience here) inv =
    let after = (spin patience s.l).1 in
    record {
      owned =
          omega (arith, total-set owns s.threads i after here, inv.owned, spin-owns patience s.l);
      patient = omega (
        arith,
        total-set impatient s.threads i after here,
        inv.patient,
        spin-impatient patience s.l
            (omega (arith, inv.patient, le-total impatient s.threads i here)),
      );
    }
Step-Inv {s} (call_try_lock i b here) inv =
    let after = (try_lock s.l).1 in
    record {
      owned = ground (arith, total-set owns s.threads i after here, inv.owned);
      patient = ground (arith, total-set impatient s.threads i after here, inv.patient);
    }
Step-Inv {s} (call_unlock i here) inv = record {
  owned = ground (
    arith,
    total-set owns s.threads i (outside true) here,
    inv.owned,
    le-total owns s.threads i here,
  );
  patient = omega (arith, total-set impatient s.threads i (outside true) here, inv.patient);
}

Reach-Inv : {n : ℕ} {s : System} → Reach n s → Inv s
Reach-Inv {n} start = record {
  owned = total-replicate owns n (outside true) refl;
  patient = total-replicate impatient n (outside true) refl;
}
Reach-Inv (later r st) = Step-Inv st (Reach-Inv r)

-- In every reachable state of a spin lock the flag is set exactly while a thread owns it, and no two
-- threads do; and the counter of a thread in the loop of `lock` is from 1 to 100, so that taking
-- one off it does not wrap.
pub flag_means_one_owner :
    {n : ℕ} {s : System}
    → Reach n s
    → (total owns s.threads ≡ (if s.l then 1 else 0))
      × ((i j : ℕ)
          → i ≢ j
          → get_elem? s.threads i ≡ some owner
          → get_elem? s.threads j ≢ some owner)
      × ((i patience : ℕ)
          → get_elem? s.threads i ≡ some (spinning patience)
          → (0 < patience) × (patience ≤ 100))
flag_means_one_owner {s = s} r =
    let inv = Reach-Inv r in
    (
      inv.owned,
      λ i j ne e f. ground (arith, inv.owned, add-le-total owns s.threads i j ne e f),
      λ i patience e.
          let fine = le-total impatient s.threads i e in
          (ground (arith, inv.patient, fine), ground (arith, inv.patient, fine)),
    )
