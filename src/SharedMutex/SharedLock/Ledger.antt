-- ===== src/SharedMutex/SharedLock/Ledger.antt =====
-- Each mutex has the shared locks that lock objects and callers own.
use concurrency_cpp.Base.{
  ℕ, ◌+◌, ◌≡◌, ◌≢◌, refl, ◌∙◌, Bool, true, false, Option, none, some, List, [], ◌∷◌, ◌++◌, arith,
  get_elem?, set, get_elem?-set_ne,
}
use concurrency_cpp.Base.Threads.{total, total-set, total-append, le-total}
use concurrency_cpp.SharedMutex.SharedLock.{
  SharedLock, Held, lock_shared, unlock_shared, none_held, make, defer_lock, adopt_lock,
  try_lock_shared, try_to_lock, lock, unlock, try_lock, destroy, move_assign, release,
}
use concurrency_cpp.SharedMutex.SharedLock.World.{
  owned, astray, World, Step, construct, construct_deferred, construct_adopting, construct_trying,
  construct_moved, call_lock, call_unlock, call_unlock_loose, call_try_lock, call_destroy,
  call_swap, call_move_assign, call_release, by_hand, by_hand_unlock, Reach, start, later,
}

-- What one mutex has.
Kept : ℕ → World → Type 0
Kept m w = w.held m ≡ total (owned m) w.locks + w.loose m

-- An object in place `i` becomes `l'`, and one more may be made.
placed :
    (f : SharedLock → ℕ) (ls : List SharedLock) (i j : ℕ) {l rhs : SharedLock}
    (l' rhs' : SharedLock)
    → i ≢ j
    → get_elem? ls i ≡ some l
    → get_elem? ls j ≡ some rhs
    → total f (set (set ls i l') j rhs') + f l + f rhs ≡ total f ls + f l' + f rhs'
placed f ls i j l' rhs' ne at at' = omega (
  arith,
  total-set f ls i l' at,
  total-set f (set ls i l') j rhs' (get_elem?-set_ne ls l' ne ∙ at'),
)

made :
    (f : SharedLock → ℕ) (ls : List SharedLock) (l : SharedLock)
    → total f (ls ++ (l ∷ [])) ≡ total f ls + f l
unfolding total
made f ls l = omega (arith, total-append f ls (l ∷ []))

Step-Kept : {w u : World} → Step w u → (m : ℕ) → Kept m w → total astray w.locks ≡ 0 → Kept m u
unfolding Kept lock_shared unlock_shared make try_lock_shared try_to_lock lock unlock try_lock
    destroy move_assign release
Step-Kept {w} (construct k) m h z =
    ground (arith, made (owned m) w.locks (record { mtx = some k; owns = true }))
Step-Kept {w} (construct_deferred k) m h z = ground (arith, made (owned m) w.locks (defer_lock k))
Step-Kept {w} (construct_adopting k some_loose) m h z =
    ground (arith, made (owned m) w.locks (adopt_lock k))
Step-Kept {w} (construct_trying answer k) m h z =
    ground (arith, made (owned m) w.locks (record { mtx = some k; owns = answer }))
Step-Kept {w} (construct_moved i {l} at) m h z =
    ground (
      arith,
      made (owned m) (set w.locks i none_held) l,
      total-set (owned m) w.locks i none_held at,
    )
Step-Kept {w} (call_lock i {l} {l'} at e) m h z =
    ground (arith, h, at, total-set (owned m) w.locks i l' at)
Step-Kept {w} (call_unlock i {l} {l'} at idle e) m h z =
    ground (arith, total-set (owned m) w.locks i l' at, le-total (owned m) w.locks i at)
Step-Kept {w} (call_unlock_loose i {l} {l'} at idle own some_loose e) m h z =
    ground (arith, own, h, total-set (owned m) w.locks i l' at)
Step-Kept {w} (call_try_lock answer i {l} {l'} at e) m h z =
    ground (arith, total-set (owned m) w.locks i l' at)
Step-Kept {w} (call_destroy i {l} at e) m h z =
    ground (arith, total-set (owned m) w.locks i none_held at, le-total (owned m) w.locks i at)
Step-Kept {w} (call_swap i j {l} {rhs} ne at at') m h z =
    ground (arith, placed (owned m) w.locks i j rhs l ne at at')
Step-Kept {w} (call_move_assign i j {l} {rhs} {l'} {rhs'} ne at at' e) m h z =
    ground (arith, placed (owned m) w.locks i j l' rhs' ne at at', le-total (owned m) w.locks i at)
Step-Kept {w} (call_release i {l} at e) m h z =
    ground (arith, total-set (owned m) w.locks i none_held at)
Step-Kept {w} (by_hand k) m h z = ground arith
Step-Kept {w} (by_hand_unlock k some_loose) m h z = ground arith

Step-astray : {w u : World} → Step w u → total astray w.locks ≡ 0 → total astray u.locks ≡ 0
unfolding make try_lock_shared try_to_lock lock unlock try_lock destroy move_assign release
Step-astray {w} (construct k) z =
    ground (arith, made astray w.locks (record { mtx = some k; owns = true }))
Step-astray {w} (construct_deferred k) z = ground (arith, made astray w.locks (defer_lock k))
Step-astray {w} (construct_adopting k some_loose) z =
    ground (arith, made astray w.locks (adopt_lock k))
Step-astray {w} (construct_trying answer k) z =
    ground (arith, made astray w.locks (record { mtx = some k; owns = answer }))
Step-astray {w} (construct_moved i {l} at) z =
    ground (arith, made astray (set w.locks i none_held) l, total-set astray w.locks i none_held at)
Step-astray {w} (call_lock i {l} {l'} at e) z = ground (arith, total-set astray w.locks i l' at)
Step-astray {w} (call_unlock i {l} {l'} at idle e) z =
    ground (arith, total-set astray w.locks i l' at)
Step-astray {w} (call_unlock_loose i {l} {l'} at idle own some_loose e) z =
    ground (arith, total-set astray w.locks i l' at)
Step-astray {w} (call_try_lock answer i {l} {l'} at e) z =
    ground (arith, total-set astray w.locks i l' at)
Step-astray {w} (call_destroy i {l} at e) z =
    ground (arith, total-set astray w.locks i none_held at)
Step-astray {w} (call_swap i j {l} {rhs} ne at at') z =
    ground (arith, placed astray w.locks i j rhs l ne at at')
Step-astray {w} (call_move_assign i j {l} {rhs} {l'} {rhs'} ne at at' e) z =
    ground (arith, placed astray w.locks i j l' rhs' ne at at')
Step-astray {w} (call_release i {l} at e) z =
    ground (arith, total-set astray w.locks i none_held at)
Step-astray (by_hand k) z = z
Step-astray (by_hand_unlock k some_loose) z = z

none_astray : {w : World} → Reach w → total astray w.locks ≡ 0
unfolding total
none_astray start = refl
none_astray (later r st) = Step-astray st (none_astray r)

-- In every state that callers reach who unlock only what they hold and make no call on an object
-- without a mutex, each mutex has as many shared locks as there are lock objects that own one of it, and
-- those that no object gives back: the ones that callers hold without an object, and one for each
-- `lock` or try on an object that owned already, until a caller gives it back.
pub locks_balance : {w : World} → Reach w → (m : ℕ) → w.held m ≡ total (owned m) w.locks + w.loose m
unfolding total Kept
locks_balance start m = refl
locks_balance (later r st) m = Step-Kept st m (locks_balance r m) (none_astray r)

-- In every such state the destructor of one calls no null mutex; where it owns a
-- shared lock of a mutex, the mutex has one to give up, and has one less after it.
pub destructor_gives_back :
    {w : World}
    → Reach w
    → (i : ℕ) {l : SharedLock} → get_elem? w.locks i ≡ some l
    → (held : Held) × (destroy l w.held ≡ some held) × ((m : ℕ) → held m + owned m l ≡ w.held m)
unfolding destroy unlock_shared
destructor_gives_back {w} r i {l} at = by_mutex l.mtx l.owns refl refl
  where
    by_mutex :
        (o : Option ℕ) (b : Bool)
        → l.mtx ≡ o
        → l.owns ≡ b
        → (held : Held) × (destroy l w.held ≡ some held) × ((m : ℕ) → held m + owned m l ≡ w.held m)
    by_mutex none true q q' = absurd (ground (arith, none_astray r, le-total astray w.locks i at))
    by_mutex none false q q' = (w.held, ground arith, λ m. ground arith)
    by_mutex (some k) false q q' = (w.held, ground arith, λ m. ground arith)
    by_mutex (some k) true q q' = (
      unlock_shared k w.held,
      ground arith,
      λ m. ground (arith, locks_balance r m, le-total (owned m) w.locks i at),
    )
