-- ===== src/PthreadWrapper/Tests.antt =====
-- The wrappers over a pthread_rwlock and a pthread_spin that keep the view of them as their handle.
use concurrency_cpp.Base.{ℕ, suc, ◌≡◌, ◌≢◌, refl, inl, inr, Bool, true, false}
use concurrency_cpp.PthreadWrapper.{Errno, success, eagain, ebusy, edeadlk}
use concurrency_cpp.PthreadWrapper.SharedMutex.{Rwlock}
use concurrency_cpp.PthreadWrapper.SharedMutex.Contract.{
  View, free, written, read, left, Tried, Documented,
}
use concurrency_cpp.PthreadWrapper.SpinLock as Spinning
use concurrency_cpp.PthreadWrapper.SpinLock.{Spin, spin_try_lock_takes}

-- A lock for 3 readers at most.
abbrev trywrlock_3 : View → Errno × View
trywrlock_3 free = (success, written)
trywrlock_3 v = (ebusy, v)

abbrev tryrdlock_3 : View → Errno × View
tryrdlock_3 free = (success, read 0)
tryrdlock_3 written = (ebusy, written)
tryrdlock_3 (read ℕ.zero) = (success, read 1)
tryrdlock_3 (read (suc ℕ.zero)) = (success, read 2)
tryrdlock_3 (read (suc (suc n))) = (eagain, read (suc (suc n)))

abbrev rwlock_3 : Rwlock View
rwlock_3 = record {
  rwlock_init = λ v. (success, free);
  rwlock_destroy = λ v. (success, v);
  wrlock = trywrlock_3;
  trywrlock = trywrlock_3;
  rdlock = tryrdlock_3;
  tryrdlock = tryrdlock_3;
  rwlock_unlock = λ v. (success, left v);
}

trywrlock_3-free :
    (v : View) → v ≡ free → ((trywrlock_3 v).0 ≡ success) × ((trywrlock_3 v).1 ≡ written)
trywrlock_3-free free q = (refl, refl)
trywrlock_3-free written q = cc
trywrlock_3-free (read n) q = cc

trywrlock_3-busy : (v : View) → v ≢ free → ((trywrlock_3 v).0 ≡ ebusy) × ((trywrlock_3 v).1 ≡ v)
trywrlock_3-busy free ne = absurd (ne refl)
trywrlock_3-busy written ne = (refl, refl)
trywrlock_3-busy (read n) ne = (refl, refl)

tryrdlock_3-Tried : (v : View) → Tried v (tryrdlock_3 v).1 (tryrdlock_3 v).0
tryrdlock_3-Tried free = record { fails_written = λ q. cc; outcome = inl (refl, refl) }
tryrdlock_3-Tried written = record { fails_written = λ q. refl; outcome = inr (inl refl, refl) }
tryrdlock_3-Tried (read ℕ.zero) = record { fails_written = λ q. cc; outcome = inl (refl, refl) }
tryrdlock_3-Tried (read (suc ℕ.zero)) = record {
  fails_written = λ q. cc;
  outcome = inl (refl, refl);
}
tryrdlock_3-Tried (read (suc (suc n))) = record {
  fails_written = λ q. cc;
  outcome = inr (inr refl, refl);
}

rwlock_3-Documented : Documented rwlock_3 (λ v. v)
rwlock_3-Documented = record {
  trywrlock_free = trywrlock_3-free;
  trywrlock_busy = trywrlock_3-busy;
  tryrdlock_tried = tryrdlock_3-Tried;
  unlock_held = λ v ne. (refl, refl);
}

-- Counts the tries that are still refused.
abbrev refusing : Rwlock ℕ
refusing = record {
  rwlock_init = λ n. (success, n);
  rwlock_destroy = λ n. (success, n);
  wrlock = λ n. (success, n);
  trywrlock = λ n. (success, n);
  rdlock = λ n. elim n [ ℕ.zero ↦ (success, 0) | ℕ.suc m ↦ (eagain, m) ];
  tryrdlock = λ n. (success, n);
  rwlock_unlock = λ n. (success, n);
}

-- A spin lock, and whether a thread has it.
abbrev spin : Spin Bool
spin = record {
  spin_init = λ b. (success, false);
  spin_destroy = λ b. (success, b);
  spin_lock = λ b. elim b [ true ↦ (edeadlk, true) | false ↦ (success, true) ];
  spin_trylock = λ b. elim b [ true ↦ (ebusy, true) | false ↦ (success, true) ];
  spin_unlock = λ b. (success, false);
}

spin-Documented : Spinning.Documented spin (λ b. b)
spin-Documented = record {
  trylock_free = λ b q. rw q (refl, refl);
  trylock_busy = λ b q. rw q (refl, refl);
}
