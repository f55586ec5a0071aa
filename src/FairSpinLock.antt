-- ===== src/FairSpinLock.antt =====
-- `FairSpinLock` of concurrency/spin_lock.h. Each atomic access is a step.
pub mod Tickets
mod Tests
use concurrency_cpp.Base.{ℕ, ◌+◌, ◌%◌, ◌^◌, ◌≡◌, some, List, get_elem?, set, replicate}

-- Where a thread stands: in the loop of `lock` with its ticket, or the owner, with the ticket it had.
pub data Pc : Type 0 where
  outside : Pc
  spinning : (ticket : ℕ) → Pc
  owner : (ticket : ℕ) → Pc

-- `next` and `active` are words of 32 bits.
pub record System : Type 0 where
  pub next : ℕ
  pub active : ℕ
  pub threads : List Pc

-- `fetch_add(1)`
unfoldable pub increment : ℕ → ℕ
increment v = (v + 1) % 2 ^ 32

unfoldable pub take_ticket : ℕ → System → System
unfolding increment
take_ticket i s = record s { next = increment s.next; threads = set s.threads i (spinning s.next) }

unfoldable pub enter : ℕ → ℕ → System → System
enter i ticket s = record s { threads = set s.threads i (owner ticket) }

unfoldable pub unlock : ℕ → System → System
unfolding increment
unlock i s = record s { active = increment s.active; threads = set s.threads i outside }

-- A thread in the loop goes on while `active` is not its ticket.
pub data Step (s : System) : System → Type 0 where
  call_lock : (i : ℕ) → get_elem? s.threads i ≡ some outside → Step s (take_ticket i s)
  spin :
      (i : ℕ) {ticket : ℕ}
      → get_elem? s.threads i ≡ some (spinning ticket)
      → s.active ≡ ticket
      → Step s (enter i ticket s)
  call_unlock :
      (i : ℕ) {ticket : ℕ} → get_elem? s.threads i ≡ some (owner ticket) → Step s (unlock i s)

pub data Reach (n : ℕ) : System → Type 0 where
  start : Reach n (record { next = 0; active = 0; threads = replicate n outside })
  later : {s t : System} → Reach n s → Step s t → Reach n t
