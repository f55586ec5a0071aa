-- ===== src/PthreadWrapper/SharedMutex.antt =====
-- `PThreadSharedMutex` of pthread_wrapper/pthread_shared_mutex.h.
use concurrency_cpp.Base.{ℕ, zero, suc, Bool, true, false, Option, none, some}
use concurrency_cpp.PthreadWrapper.{
  Errno, success, enomem, eagain, eperm, ebusy, einval, edeadlk, bad_alloc,
  resource_unavailable_try_again, operation_not_permitted, resource_deadlock_would_occur, Outcome,
  returns, throws, asserts, Void, void, asserted,
}
pub mod Contract

-- The functions of pthread_rwlock that are called.
pub record Rwlock (H : Type 0) : Type 0 where
  pub rwlock_init : H → Errno × H
  pub rwlock_destroy : H → Errno × H
  pub wrlock : H → Errno × H
  pub trywrlock : H → Errno × H
  pub rdlock : H → Errno × H
  pub tryrdlock : H → Errno × H
  pub rwlock_unlock : H → Errno × H

-- What is made of the result code.
abbrev pub made : Errno → Outcome Void
made enomem = throws bad_alloc
made eagain = throws resource_unavailable_try_again
made eperm = throws operation_not_permitted
made ret = asserted ret void

abbrev pub locked : Errno → Outcome Void
locked edeadlk = throws resource_deadlock_would_occur
locked ret = asserted ret void

abbrev pub tried : Errno → Outcome Bool
tried ebusy = returns false
tried ret = asserted ret true

abbrev pub tried_shared : Errno → Outcome Bool
tried_shared ebusy = returns false
tried_shared eagain = returns false
tried_shared ret = asserted ret true

-- `ret != EAGAIN`
abbrev pub again {ℓ} : {A : Type ℓ} → Errno → A → A → A
again eagain retry stop = retry
again ret retry stop = stop

module _ {H : Type 0} (p : Rwlock H) where
  unfoldable pub make : H → Outcome Void × H
  make h = let (ret, h') = p.rwlock_init h in (made ret, h')

  unfoldable pub destroy : H → Outcome Void × H
  destroy h = let (ret, h') = p.rwlock_destroy h in (asserted ret void, h')

  unfoldable pub lock : H → Outcome Void × H
  lock h = let (ret, h') = p.wrlock h in (locked ret, h')

  unfoldable pub unlock : H → Outcome Void × H
  unlock h = let (ret, h') = p.rwlock_unlock h in (asserted ret void, h')

  unfoldable pub try_lock : H → Outcome Bool × H
  try_lock h = let (ret, h') = p.trywrlock h in (tried ret, h')

  -- The loop tries as long as the code is `EAGAIN`: `none` where `fuel` tries are not enough.
  unfoldable pub lock_shared : (fuel : ℕ) → H → Option (Outcome Void × H)
  lock_shared zero h = none
  lock_shared (suc fuel) h =
      let (ret, h') = p.rdlock h in
      let rest = lock_shared fuel h' in again ret rest (some (locked ret, h'))

  unfoldable pub try_lock_shared : H → Outcome Bool × H
  try_lock_shared h = let (ret, h') = p.tryrdlock h in (tried_shared ret, h')

  unfoldable pub unlock_shared : H → Outcome Void × H
  unfolding unlock
  unlock_shared h = unlock h
