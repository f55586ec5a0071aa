-- ===== src/PthreadWrapper/SharedMutex/Contract.antt =====
-- `PThreadSharedMutex` over a pthread_rwlock that does what is documented.
use concurrency_cpp.Base.{
  ℕ, zero, suc, ◌<◌, ◌≡◌, ◌≢◌, refl, ◌∙◌, ◌⊎◌, inl, inr, true, false, some, arith,
}
use concurrency_cpp.PthreadWrapper.{
  Errno, success, enomem, eagain, eperm, ebusy, einval, edeadlk, returns, void,
}
use concurrency_cpp.PthreadWrapper.SharedMutex.{
  Rwlock, locked, again, unlock, try_lock, lock_shared, try_lock_shared,
}

-- Who has a lock: nobody, a writer, or `n + 1` readers.
pub data View : Type 0 where
  free written : View
  read : (n : ℕ) → View

abbrev pub joined : View → View
joined free = read 0
joined written = written
joined (read n) = read (suc n)

abbrev pub left : View → View
left free = free
left written = free
left (read zero) = free
left (read (suc n)) = read n

-- A try for a shared lock: a reader more, or `EBUSY` or `EAGAIN`.
pub record Tried (v v' : View) (ret : Errno) : Type 0 where
  pub fails_written : v ≡ written → ret ≡ ebusy
  pub outcome : ((ret ≡ success) × (v' ≡ joined v)) ⊎ (((ret ≡ ebusy) ⊎ (ret ≡ eagain)) × (v' ≡ v))

pub record Documented {H : Type 0} (p : Rwlock H) (view : H → View) : Type 0 where
  pub trywrlock_free :
      (h : H) → view h ≡ free → ((p.trywrlock h).0 ≡ success) × (view (p.trywrlock h).1 ≡ written)
  pub trywrlock_busy :
      (h : H) → view h ≢ free → ((p.trywrlock h).0 ≡ ebusy) × (view (p.trywrlock h).1 ≡ view h)
  pub tryrdlock_tried : (h : H) → Tried (view h) (view (p.tryrdlock h).1) (p.tryrdlock h).0
  pub unlock_held :
      (h : H)
      → view h ≢ free
      → ((p.rwlock_unlock h).0 ≡ success) × (view (p.rwlock_unlock h).1 ≡ left (view h))

module _ {H : Type 0} {p : Rwlock H} {view : H → View} (doc : Documented p view) where
  -- Over a pthread_rwlock that does what is documented, `try_lock` returns true and leaves a writer
  -- where the lock is free, returns false and leaves the lock as it is where it is not, and neither
  -- throws nor fails an assertion.
  pub try_lock_exclusive :
      (h : H)
      → (view h ≡ free → ((try_lock p h).0 ≡ returns true) × (view (try_lock p h).1 ≡ written))
        × (view h ≢ free → ((try_lock p h).0 ≡ returns false) × (view (try_lock p h).1 ≡ view h))
  unfolding try_lock
  try_lock_exclusive h = (
    λ q. let (x, y) = doc.trywrlock_free h q in (rw x refl, y),
    λ q. let (x, y) = doc.trywrlock_busy h q in (rw x refl, y),
  )

  -- Over a pthread_rwlock that does what is documented, `try_lock_shared` returns false where a writer
  -- has the lock; it returns true and leaves a reader more, or returns false and leaves the lock as it
  -- is, also where there are too many readers; and it neither throws nor fails an assertion.
  pub try_lock_shared_joins :
      (h : H)
      → (view h ≡ written → (try_lock_shared p h).0 ≡ returns false)
        × ((((try_lock_shared p h).0 ≡ returns true)
              × (view (try_lock_shared p h).1 ≡ joined (view h)))
            ⊎ (((try_lock_shared p h).0 ≡ returns false) × (view (try_lock_shared p h).1 ≡ view h)))
  unfolding try_lock_shared
  try_lock_shared_joins h = (
    λ q. rw ((doc.tryrdlock_tried h).fails_written q) refl,
    elim (doc.tryrdlock_tried h).outcome [
      | inl (x, y) ↦ inl (rw x refl, y)
      | inr (inl x, y) ↦ inr (rw x refl, y)
      | inr (inr x, y) ↦ inr (rw x refl, y)
    ],
  )

  -- Over a pthread_rwlock that does what is documented, `unlock` after a `try_lock` of a free lock
  -- returns and leaves the lock free.
  pub unlock-try_lock :
      (h : H)
      → view h ≡ free
      → ((unlock p (try_lock p h).1).0 ≡ returns void) × (view (unlock p (try_lock p h).1).1 ≡ free)
  unfolding unlock
  unlock-try_lock h q =
      let y = ((try_lock_exclusive h).0 q).1 in
      let (x, z) = doc.unlock_held (try_lock p h).1 (λ e. cc) in (rw x refl, z ∙ rw y refl)

-- `rdlock` gives `EAGAIN` `k` times, and then the code `ret`.
pub data Retries {H : Type 0} (p : Rwlock H) (ret : Errno) (h' : H) : H → ℕ → Type 0 where
  stops : {h : H} → p.rdlock h ≡ (ret, h') → Retries p ret h' h 0
  retries :
      {h h1 : H} {k : ℕ}
      → p.rdlock h ≡ (eagain, h1)
      → Retries p ret h' h1 k
      → Retries p ret h' h (suc k)

again_stop : {A : Type 0} (ret : Errno) (r s : A) → ret ≢ eagain → again ret r s ≡ s
again_stop success r s ne = refl
again_stop enomem r s ne = refl
again_stop eagain r s ne = absurd (ne refl)
again_stop eperm r s ne = refl
again_stop ebusy r s ne = refl
again_stop einval r s ne = refl
again_stop edeadlk r s ne = refl

-- Where `rdlock` gives `EAGAIN` some times and then another code, the loop of `lock_shared` ends, for
-- any fuel above the number of retries, with what is made of that code.
pub lock_shared_ends :
    {H : Type 0} {p : Rwlock H} {ret : Errno} {h' h : H} {k : ℕ}
    → ret ≢ eagain
    → Retries p ret h' h k
    → (fuel : ℕ) → k < fuel
    → lock_shared p fuel h ≡ some (locked ret, h')
unfolding lock_shared
lock_shared_ends ne (stops e) zero h = absurd (omega (arith, h))
lock_shared_ends {p = p} {ret = ret} ne (stops e) (suc fuel) h = rw e (again_stop ret _ _ ne)
lock_shared_ends ne (retries e r) zero h = absurd (omega (arith, h))
lock_shared_ends ne (retries e r) (suc fuel) h =
    rw e (lock_shared_ends ne r fuel (omega (arith, h)))
