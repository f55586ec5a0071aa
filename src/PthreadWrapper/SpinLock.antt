-- ===== src/PthreadWrapper/SpinLock.antt =====
-- `PThreadSpinLockWrapper` of pthread_wrapper/pthread_spinlock.h.
use concurrency_cpp.Base.{Bool, true, false, ◌≡◌, refl, not}
use concurrency_cpp.PthreadWrapper.{
  Errno, success, enomem, eagain, ebusy, edeadlk, bad_alloc, resource_unavailable_try_again,
  resource_deadlock_would_occur, Outcome, returns, throws, Void, void, asserted,
}

-- The functions of pthread_spin that are called.
pub record Spin (H : Type 0) : Type 0 where
  pub spin_init : H → Errno × H
  pub spin_destroy : H → Errno × H
  pub spin_lock : H → Errno × H
  pub spin_trylock : H → Errno × H
  pub spin_unlock : H → Errno × H

abbrev pub spin_made : Errno → Outcome Void
spin_made enomem = throws bad_alloc
spin_made eagain = throws resource_unavailable_try_again
spin_made ret = asserted ret void

abbrev pub spin_locked : Errno → Outcome Void
spin_locked edeadlk = throws resource_deadlock_would_occur
spin_locked ret = asserted ret void

abbrev pub spin_tried : Errno → Outcome Bool
spin_tried edeadlk = returns false
spin_tried ebusy = returns false
spin_tried ret = asserted ret true

module _ {H : Type 0} (p : Spin H) where
  unfoldable pub make : H → Outcome Void × H
  make h = let (ret, h') = p.spin_init h in (spin_made ret, h')

  unfoldable pub destroy : H → Outcome Void × H
  destroy h = let (ret, h') = p.spin_destroy h in (asserted ret void, h')

  unfoldable pub lock : H → Outcome Void × H
  lock h = let (ret, h') = p.spin_lock h in (spin_locked ret, h')

  unfoldable pub unlock : H → Outcome Void × H
  unlock h = let (ret, h') = p.spin_unlock h in (asserted ret void, h')

  unfoldable pub try_lock : H → Outcome Bool × H
  try_lock h = let (ret, h') = p.spin_trylock h in (spin_tried ret, h')

-- What is documented of a spin lock, where `view` says whether a thread has it.
pub record Documented {H : Type 0} (p : Spin H) (view : H → Bool) : Type 0 where
  pub trylock_free :
      (h : H)
      → view h ≡ false
      → ((p.spin_trylock h).0 ≡ success) × (view (p.spin_trylock h).1 ≡ true)
  pub trylock_busy :
      (h : H) → view h ≡ true → ((p.spin_trylock h).0 ≡ ebusy) × (view (p.spin_trylock h).1 ≡ true)

module _ {H : Type 0} {p : Spin H} {view : H → Bool} (doc : Documented p view) where
  -- Of a spin lock that does what is documented, `try_lock` returns true exactly if no thread has the
  -- lock, and leaves it taken; it does not throw, and its assertion holds.
  pub spin_try_lock_takes :
      (h : H)
      → (b : Bool) → view h ≡ b
      → ((try_lock p h).0 ≡ returns (not b)) × (view (try_lock p h).1 ≡ true)
  unfolding try_lock
  spin_try_lock_takes h true q = let (x, y) = doc.trylock_busy h q in (rw x refl, y)
  spin_try_lock_takes h false q = let (x, y) = doc.trylock_free h q in (rw x refl, y)
