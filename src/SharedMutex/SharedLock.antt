-- ===== src/SharedMutex/SharedLock.antt =====
-- `SharedLock` of concurrency/shared_mutex.h. A mutex is a number, and what is kept of the mutexes is
-- how many shared locks each has: `held m` goes up by `lock_shared` and by a `try_lock_shared` that
-- succeeds, and down by `unlock_shared`. Whether a try succeeds is the mutex's answer, an argument.
pub mod World
pub mod Ledger
mod Tests
use concurrency_cpp.Base.{
  ℕ, ◌+◌, ◌-◌, ◌<◌, ◌≡◌, Bool, true, false, Option, none, some, List, [], ◌∷◌, ◌++◌, if◌then◌else◌,
  ◌==◌, get_elem?, set,
}

pub record SharedLock : Type 0 where
  pub mtx : Option ℕ
  pub owns : Bool

-- The shared locks of the mutexes, and a lock object.
abbrev pub Held : Type 0
Held = ℕ → ℕ

unfoldable pub lock_shared : ℕ → Held → Held
lock_shared m held k = if k == m then held k + 1 else held k

unfoldable pub unlock_shared : ℕ → Held → Held
unlock_shared m held k = if k == m then held k - 1 else held k

abbrev pub none_held : SharedLock
none_held = record { mtx = none; owns = false }

-- The constructors that take a mutex.
unfoldable pub make : ℕ → Held → SharedLock × Held
unfolding lock_shared
make m held = (record { mtx = some m; owns = true }, lock_shared m held)

abbrev pub defer_lock : ℕ → SharedLock
defer_lock m = record { mtx = some m; owns = false }

abbrev pub adopt_lock : ℕ → SharedLock
adopt_lock m = record { mtx = some m; owns = true }

-- `try_lock_shared`, `try_lock_shared_for` and `try_lock_shared_until` of the mutex.
unfoldable pub try_lock_shared : Bool → ℕ → Held → Bool × Held
unfolding lock_shared
try_lock_shared answer m held = (answer, if answer then lock_shared m held else held)

-- The constructor with `try_to_lock`, a duration or a deadline.
unfoldable pub try_to_lock : Bool → ℕ → Held → SharedLock × Held
unfolding try_lock_shared
try_to_lock answer m held =
    let (owns, held') = try_lock_shared answer m held in
    (record { mtx = some m; owns = owns }, held')

-- A call on a null mutex is a fault.
unfoldable pub lock : SharedLock → Held → Option (SharedLock × Held)
unfolding lock_shared
lock l held = elim l.mtx [
  | none ↦ none
  | some m ↦ some (record l { owns = true }, lock_shared m held)
]

unfoldable pub unlock : SharedLock → Held → Option (SharedLock × Held)
unfolding unlock_shared
unlock l held = elim l.mtx [
  | none ↦ none
  | some m ↦ some (record l { owns = false }, unlock_shared m held)
]

-- `try_lock`, `try_lock_for`, `try_lock_until`.
unfoldable pub try_lock : Bool → SharedLock → Held → Option (SharedLock × Held)
unfolding try_lock_shared
try_lock answer l held = elim l.mtx [
  | none ↦ none
  | some m ↦ some (record l { owns = answer }, (try_lock_shared answer m held).1)
]

-- The destructor.
unfoldable pub destroy : SharedLock → Held → Option Held
unfolding unlock_shared
destroy l held =
    if l.owns then elim l.mtx [ none ↦ none | some m ↦ some (unlock_shared m held) ] else some held

abbrev pub swap : SharedLock → SharedLock → SharedLock × SharedLock
swap l rhs = (rhs, l)

-- The move constructor: the new object and what is left of `rhs`.
abbrev pub move_from : SharedLock → SharedLock × SharedLock
move_from rhs = swap none_held rhs

-- The move assignment: the object, what is left of `rhs`, and the mutexes after the end of `tmp`.
unfoldable pub move_assign :
    SharedLock → SharedLock → Held → Option (SharedLock × SharedLock × Held)
unfolding destroy
move_assign l rhs held =
    let (tmp, rhs') = move_from rhs in
    let (tmp', l') = swap tmp l in
    elim (destroy tmp' held) [ none ↦ none | some held' ↦ some (l', rhs', held') ]

unfoldable pub release : SharedLock → Option ℕ × SharedLock
release l = (l.mtx, none_held)
