-- ===== src/Semaphore/Guards.antt =====
-- `SemaphoreGuard` and `SemaphoreTimedLockableAdapter` of concurrency/semaphore.h, for any semaphore
-- that has the calls of `Semaphore`.
pub mod OfSimple
mod Tests
use mathlib.Core.Option.{some-injective}
use concurrency_cpp.Base.{
  ℕ, ◌+◌, ◌^◌, ◌≤◌, ◌<◌, ◌≡◌, refl, sym, ◌∙◌, ap, Bool, true, false, Option, none, some, arith,
}
use concurrency_cpp.Base.Partial.{◌>>=◌}

-- The calls on which the guards stand. `acquire` is `none` where it waits; the timed ones answer
-- false where the deadline passes while they wait.
pub record Semaphore (S : Type 0) : Type 0 where
  pub acquire : ℕ → S → Option S
  pub release : ℕ → S → S
  pub try_acquire : ℕ → S → Bool × S
  pub try_acquire_for : ℕ → S → Bool × S
  pub try_acquire_until : ℕ → S → Bool × S

-- `request` of either class; the reference to the semaphore is its state, which the calls pass on.
pub record Guard : Type 0 where
  pub request : ℕ

module _ {S : Type 0} (sem : Semaphore S) where
  -- `SemaphoreGuard`.
  abbrev guarding : ℕ → S → Option (Guard × S)
  guarding request s = some (record { request = request }, s)

  unfoldable pub make : ℕ → S → Option (Guard × S)
  make request s = do s' ← sem.acquire request s; guarding request s'

  unfoldable pub destroy : Guard → S → S
  destroy g s = sem.release g.request s

  -- `SemaphoreTimedLockableAdapter`.
  unfoldable pub lock : Guard → S → Option S
  lock a s = sem.acquire a.request s

  unfoldable pub unlock : Guard → S → S
  unlock a s = sem.release a.request s

  unfoldable pub try_lock : Guard → S → Bool × S
  try_lock a s = sem.try_acquire a.request s

  unfoldable pub try_lock_for : Guard → S → Bool × S
  try_lock_for a s = sem.try_acquire_for a.request s

  unfoldable pub try_lock_until : Guard → S → Bool × S
  try_lock_until a s = sem.try_acquire_until a.request s

  -- How a scope is entered, from the state `s`: whether it is, and the state then. A guard that is not
  -- made yet waits, and so does `lock`.
  pub data Entry (a : Guard) (s : S) : Bool × S → Type 0 where
    made : {s' : S} → make a.request s ≡ some (a, s') → Entry a s (true, s')
    making : make a.request s ≡ none → Entry a s (false, s)
    locked : {s' : S} → lock a s ≡ some s' → Entry a s (true, s')
    locking : lock a s ≡ none → Entry a s (false, s)
    tried : Entry a s (try_lock a s)
    tried_for : Entry a s (try_lock_for a s)
    tried_until : Entry a s (try_lock_until a s)

  pub make-acquire :
      (request : ℕ) (a : Guard) (s s' : S)
      → make request s ≡ some (a, s')
      → sem.acquire request s ≡ some s'
  unfolding make
  make-acquire request a s s' e = acquired (sem.acquire request s) e
    where
      acquired : (o : Option S) → (o >>= guarding request) ≡ some (a, s') → o ≡ some s'
      acquired none e = cc
      acquired (some t) e = ap some (ap (λ r. r.1) (some-injective _ _ e))

  pub make-waits : (request : ℕ) (s : S) → make request s ≡ none → sem.acquire request s ≡ none
  unfolding make
  make-waits request s e = waits (sem.acquire request s) e
    where
      waits : (o : Option S) → (o >>= guarding request) ≡ none → o ≡ none
      waits none e = refl
      waits (some t) e = cc
