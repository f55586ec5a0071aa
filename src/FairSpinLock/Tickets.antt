-- ===== src/FairSpinLock/Tickets.antt =====
-- The tickets of a `FairSpinLock`: each between `active` and `next` has one thread.
use concurrency_cpp.Base.{
  ℕ, ◌+◌, ◌-◌, ◌%◌, ◌^◌, ◌≤◌, ◌<◌, ◌≡◌, refl, ◌∙◌, some, List, arith, ltb, ◌==◌, if◌then◌else◌,
  length, get_elem?, set, length-set, length-replicate,
}
use concurrency_cpp.Base.Threads.{
  total, total-set, le-total, total_mono, total-add, total-replicate, total-le-length, contributor,
}
use concurrency_cpp.FairSpinLock.{
  Pc, outside, spinning, owner, System, increment, take_ticket, enter, unlock, Step, call_lock,
  spin, call_unlock, Reach, start, later,
}

-- Weights of a thread.
abbrev pub owns : Pc → ℕ
owns p = elim p [ owner t ↦ 1 | _ ↦ 0 ]

abbrev pub pends : Pc → ℕ
pends p = elim p [ outside ↦ 0 | _ ↦ 1 ]

abbrev pub has : ℕ → Pc → ℕ
has k p = elim p [
  | outside ↦ 0
  | spinning t ↦ if t == k then 1 else 0
  | owner t ↦ if t == k then 1 else 0
]

-- An owner whose ticket is not `active`.
abbrev pub strays : ℕ → Pc → ℕ
strays a p = elim p [ outside ↦ 0 | spinning t ↦ 0 | owner t ↦ if t == a then 0 else 1 ]

-- How far a ticket is from `active`, on words of 32 bits.
abbrev pub ahead : ℕ → ℕ → ℕ
ahead active k = (k + 2 ^ 32 - active) % 2 ^ 32

record Inv (n : ℕ) (s : System) : Type 0 where
  words : (s.next < 2 ^ 32) × (s.active < 2 ^ 32)
  size : length s.threads ≡ n
  pending : total pends s.threads ≡ ahead s.active s.next
  tickets :
      (k : ℕ)
      → k < 2 ^ 32
      → total (has k) s.threads ≡ (if ltb (ahead s.active k) (ahead s.active s.next) then 1 else 0)
  owners : total (strays s.active) s.threads ≡ 0

one_owner : {n : ℕ} {s : System} → Inv n s → total owns s.threads ≤ total (has s.active) s.threads
one_owner {s = s} inv = omega (
  arith,
  total_mono owns (λ p. has s.active p + strays s.active p) (λ p. ground arith) s.threads,
  total-add (has s.active) (strays s.active) s.threads,
  inv.owners,
)

-- A thread outside leaves room.
room : (ps : List Pc) (i : ℕ) → get_elem? ps i ≡ some outside → total pends ps < length ps
room ps i at = omega (
  arith,
  total-set pends ps i (spinning 0) at,
  total-le-length pends (λ p. ground arith) (set ps i (spinning 0)),
  length-set ps i (spinning 0),
)

take-Inv :
    {n : ℕ} (s : System) (i : ℕ)
    → n < 2 ^ 32
    → get_elem? s.threads i ≡ some outside
    → Inv n s
    → Inv n (take_ticket i s)
unfolding take_ticket increment
take-Inv s i small at inv =
    let r = room s.threads i at in
    let w = inv.words in
    record {
      words = (omega arith, w.1);
      size = length-set s.threads i (spinning s.next) ∙ inv.size;
      pending = omega (
        arith,
        total-set pends s.threads i (spinning s.next) at,
        inv.pending,
        r,
        inv.size,
        small,
        w,
      );
      tickets = λ k word.
          let h = inv.tickets k word in
          let c = total-set (has k) s.threads i (spinning s.next) at in
          ground (arith, h, c, r, inv.pending, inv.size, small, w, word);
      owners =
          omega (arith, total-set (strays s.active) s.threads i (spinning s.next) at, inv.owners);
    }

enter-Inv :
    {n : ℕ} (s : System) (i t : ℕ)
    → get_elem? s.threads i ≡ some (spinning t)
    → s.active ≡ t
    → Inv n s
    → Inv n (enter i t s)
unfolding enter
enter-Inv s i t at e inv = record {
  words = inv.words;
  size = length-set s.threads i (owner t) ∙ inv.size;
  pending = omega (arith, total-set pends s.threads i (owner t) at, inv.pending);
  tickets =
      λ k word. ground (arith, inv.tickets k word, total-set (has k) s.threads i (owner t) at);
  owners = ground (arith, total-set (strays s.active) s.threads i (owner t) at, inv.owners, e);
}

unlock-Inv :
    {n : ℕ} (s : System) (i t : ℕ)
    → get_elem? s.threads i ≡ some (owner t)
    → Inv n s
    → Inv n (unlock i s)
unfolding unlock increment
unlock-Inv {n} s i t at inv =
    let mine : t ≡ s.active =
      ground (arith, le-total (strays s.active) s.threads i at, inv.owners) in
    let w = inv.words in
    let some_pends = le-total pends s.threads i at in
    let one = one_owner {n = n} inv in
    let c = inv.tickets s.active w.1 in
    record {
      words = (w.0, omega arith);
      size = length-set s.threads i outside ∙ inv.size;
      pending = omega (arith, total-set pends s.threads i outside at, inv.pending, some_pends, w);
      tickets = λ k word.
          let h = inv.tickets k word in
          let d = total-set (has k) s.threads i outside at in
          ground (arith, h, d, mine, some_pends, inv.pending, w, word);
      owners =
          let none_owns : total owns (set s.threads i outside) ≡ 0 =
            ground (arith, total-set owns s.threads i outside at, one, c) in
          omega (
            arith,
            total_mono (strays ((s.active + 1) % 2 ^ 32)) owns (λ p. ground arith)
                (set s.threads i outside),
            none_owns,
          );
    }

Step-Inv : {n : ℕ} {s t : System} → n < 2 ^ 32 → Step s t → Inv n s → Inv n t
Step-Inv {s = s} small (call_lock i at) inv = take-Inv s i small at inv
Step-Inv {s = s} small (spin i {ticket} at e) inv = enter-Inv s i ticket at e inv
Step-Inv {s = s} small (call_unlock i {ticket} at) inv = unlock-Inv s i ticket at inv

Reach-Inv : {n : ℕ} {s : System} → n < 2 ^ 32 → Reach n s → Inv n s
Reach-Inv {n} small start = record {
  words = (omega arith, omega arith);
  size = length-replicate n outside;
  pending = total-replicate pends n outside refl;
  tickets = λ k word. ground (arith, total-replicate (has k) n outside refl, word);
  owners = total-replicate (strays 0) n outside refl;
}
Reach-Inv small (later r st) = Step-Inv small st (Reach-Inv small r)

-- In every reachable state of a fair spin lock that fewer than 2 ^ 32 threads use, at most one thread
-- owns it, its ticket is `active`, and the number of threads in `lock` or past it is the distance from
-- `active` to `next` on words of 32 bits.
pub at_most_one_owner :
    {n : ℕ} {s : System}
    → n < 2 ^ 32
    → Reach n s
    → (total owns s.threads ≤ 1)
      × (total (strays s.active) s.threads ≡ 0)
      × (total pends s.threads ≡ ahead s.active s.next)
at_most_one_owner {n} {s} small r =
    let inv = Reach-Inv small r in
    (
      ground (arith, one_owner {n = n} inv, inv.tickets s.active inv.words.1),
      inv.owners,
      inv.pending,
    )

-- In every reachable state of a fair spin lock that fewer than 2 ^ 32 threads use, no ticket is
-- skipped or given twice: while a thread is in `lock` or past it, one thread has the ticket `active`,
-- which owns the lock or can enter it; and no two threads have the same ticket.
pub turn_is_taken :
    {n : ℕ} {s : System}
    → n < 2 ^ 32
    → Reach n s
    → (0 < total pends s.threads
        → (j : ℕ) × (p : Pc) × (get_elem? s.threads j ≡ some p) × (0 < has s.active p))
      × ((k : ℕ) → k < 2 ^ 32 → total (has k) s.threads ≤ 1)
turn_is_taken {n} {s} small r =
    let inv = Reach-Inv small r in
    (
      λ some_pends.
          contributor (has s.active) s.threads
            (ground (arith, inv.tickets s.active inv.words.1, inv.pending, some_pends, inv.words)),
      λ k word. ground (arith, inv.tickets k word),
    )
