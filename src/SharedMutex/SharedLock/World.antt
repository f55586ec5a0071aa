-- ===== src/SharedMutex/SharedLock/World.antt =====
-- Lock objects and their mutexes, as callers use them.
use concurrency_cpp.Base.{
  ℕ, ◌<◌, ◌≡◌, ◌≢◌, Bool, true, false, ◌&&◌, none, some, List, [], ◌∷◌, ◌++◌, if◌then◌else◌, ◌==◌,
  get_elem?, set,
}
use concurrency_cpp.SharedMutex.SharedLock.{
  SharedLock, Held, lock_shared, unlock_shared, none_held, make, defer_lock, adopt_lock,
  try_to_lock, lock, unlock, try_lock, destroy, swap, move_from, move_assign, release,
}

-- Whether a lock object owns a shared lock of `m`.
abbrev pub owned : ℕ → SharedLock → ℕ
owned m l = elim l.mtx [ none ↦ 0 | some k ↦ if l.owns && (m == k) then 1 else 0 ]

abbrev pub astray : SharedLock → ℕ
astray l = elim l.mtx [ none ↦ if l.owns then 1 else 0 | some k ↦ 0 ]

-- `loose`: the shared locks that no lock object gives back: those that callers hold without one, and one
-- for each `lock` or try on an object that owned already, which a caller may give back through an
-- object that does not own. The place of a destroyed object
-- holds what a moved-from one does.
pub record World : Type 0 where
  pub locks : List SharedLock
  pub held : Held
  pub loose : Held

-- The object that a call of `lock` or a try finds owning gives back one shared lock less than were
-- taken through it.
abbrev pub lost : SharedLock → Held → Held
lost l loose = elim l.mtx [ none ↦ loose | some m ↦ if l.owns then lock_shared m loose else loose ]

-- Callers keep the contract of the mutex: where they call `unlock` on an object that does not own,
-- they have a shared lock that no object gives back. No call is made on an object without a mutex.
pub data Step (w : World) : World → Type 0 where
  construct :
      (m : ℕ)
      → Step w (record w { locks = w.locks ++ ((make m w.held).0 ∷ []); held = (make m w.held).1 })
  construct_deferred : (m : ℕ) → Step w (record w { locks = w.locks ++ (defer_lock m ∷ []) })
  construct_adopting :
      (m : ℕ)
      → 0 < w.loose m
      → Step w
          (record w { locks = w.locks ++ (adopt_lock m ∷ []); loose = unlock_shared m w.loose })
  construct_trying :
      (answer : Bool) (m : ℕ)
      → Step w (record w {
        locks = w.locks ++ ((try_to_lock answer m w.held).0 ∷ []);
        held = (try_to_lock answer m w.held).1;
      })
  construct_moved :
      (i : ℕ) {l : SharedLock}
      → get_elem? w.locks i ≡ some l
      → Step w (record w { locks = set w.locks i (move_from l).1 ++ ((move_from l).0 ∷ []) })
  call_lock :
      (i : ℕ) {l l' : SharedLock} {held : Held}
      → get_elem? w.locks i ≡ some l
      → lock l w.held ≡ some (l', held)
      → Step w (record w { locks = set w.locks i l'; held = held; loose = lost l w.loose })
  call_unlock :
      (i : ℕ) {l l' : SharedLock} {held : Held}
      → get_elem? w.locks i ≡ some l
      → l.owns ≡ true
      → unlock l w.held ≡ some (l', held)
      → Step w (record w { locks = set w.locks i l'; held = held })
  call_unlock_loose :
      (i : ℕ) {l l' : SharedLock} {m : ℕ} {held : Held}
      → get_elem? w.locks i ≡ some l
      → l.owns ≡ false
      → l.mtx ≡ some m
      → 0 < w.loose m
      → unlock l w.held ≡ some (l', held)
      → Step w (record w { locks = set w.locks i l'; held = held; loose = unlock_shared m w.loose })
  call_try_lock :
      (answer : Bool) (i : ℕ) {l l' : SharedLock} {held : Held}
      → get_elem? w.locks i ≡ some l
      → try_lock answer l w.held ≡ some (l', held)
      → Step w (record w { locks = set w.locks i l'; held = held; loose = lost l w.loose })
  call_destroy :
      (i : ℕ) {l : SharedLock} {held : Held}
      → get_elem? w.locks i ≡ some l
      → destroy l w.held ≡ some held
      → Step w (record w { locks = set w.locks i none_held; held = held })
  call_swap :
      (i j : ℕ) {l rhs : SharedLock}
      → i ≢ j
      → get_elem? w.locks i ≡ some l
      → get_elem? w.locks j ≡ some rhs
      → Step w (record w { locks = set (set w.locks i (swap l rhs).0) j (swap l rhs).1 })
  call_move_assign :
      (i j : ℕ) {l rhs l' rhs' : SharedLock} {held : Held}
      → i ≢ j
      → get_elem? w.locks i ≡ some l
      → get_elem? w.locks j ≡ some rhs
      → move_assign l rhs w.held ≡ some (l', rhs', held)
      → Step w (record w { locks = set (set w.locks i l') j rhs'; held = held })
  call_release :
      (i : ℕ) {l : SharedLock} {m : ℕ}
      → get_elem? w.locks i ≡ some l
      → (release l).0 ≡ some m
      → Step w (record w {
        locks = set w.locks i (release l).1;
        loose = if l.owns then lock_shared m w.loose else w.loose;
      })
  by_hand :
      (m : ℕ) → Step w (record w { held = lock_shared m w.held; loose = lock_shared m w.loose })
  by_hand_unlock :
      (m : ℕ)
      → 0 < w.loose m
      → Step w (record w { held = unlock_shared m w.held; loose = unlock_shared m w.loose })

pub data Reach : World → Type 0 where
  start : Reach (record { locks = []; held = λ m. 0; loose = λ m. 0 })
  later : {w u : World} → Reach w → Step w u → Reach u
