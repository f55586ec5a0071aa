-- ===== src/SharedMutex/SharedLock/Tests.antt =====
-- Uses of `SharedLock`, and its theorems where they lead.
use concurrency_cpp.Base.{◌+◌, ◌≡◌, refl, true, false, some, none, [], ◌∷◌, arith}
use concurrency_cpp.Base.Threads.{total}
use concurrency_cpp.SharedMutex.SharedLock.{
  make, lock, lock_shared, unlock_shared, move_assign, destroy,
}
use concurrency_cpp.SharedMutex.SharedLock.World.{
  owned, World, construct, call_lock, call_move_assign, Reach, start, later,
}
use concurrency_cpp.SharedMutex.SharedLock.Ledger.{locks_balance}

-- A lock of mutex 3, onto which a lock of mutex 5 is moved: mutex 3 is given back.
abbrev moved : World
moved = record {
  locks = record { mtx = some 5; owns = true } ∷ record { mtx = none; owns = false } ∷ [];
  held = unlock_shared 3 (lock_shared 5 (lock_shared 3 (λ m. 0)));
  loose = λ m. 0;
}

Reach-moved : Reach moved
unfolding make move_assign destroy
Reach-moved =
    later (later (later start (construct 3)) (construct 5))
      (call_move_assign 0 1 (omega arith) refl refl refl)

moved_3 : moved.held 3 ≡ 0
unfolding lock_shared unlock_shared
moved_3 = refl

moved_5 : moved.held 5 ≡ 1
unfolding lock_shared unlock_shared
moved_5 = refl

-- The object that owns is locked once more.
abbrev relocked : World
relocked = record moved { held = lock_shared 5 moved.held; loose = lock_shared 5 moved.loose }

Reach-relocked : Reach relocked
unfolding lock
Reach-relocked = later Reach-moved (call_lock 0 refl refl)

locks_balance_example : relocked.held 5 ≡ total (owned 5) relocked.locks + relocked.loose 5
locks_balance_example = locks_balance Reach-relocked 5
