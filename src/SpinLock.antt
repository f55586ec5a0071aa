-- ===== src/SpinLock.antt =====
-- `SpinLock` of concurrency/spin_lock.h. Each access of the flag is a step.
pub mod Ownership
mod Tests
use concurrency_cpp.Base.{
  ℕ, ◌+◌, ◌-◌, ◌%◌, ◌^◌, ◌≡◌, Bool, true, false, not, some, List, if◌then◌else◌, ◌==◌, get_elem?,
  set, replicate,
}

abbrev pub spin_cycles_before_yield : ℕ
spin_cycles_before_yield = 100

-- Where a thread stands: outside, with what its last call returned, in the loop of `lock`, or the owner.
pub data Pc : Type 0 where
  outside : (result : Bool) → Pc
  spinning : (patience : ℕ) → Pc
  owner : Pc

-- `l.test_and_set()`: what the flag was, and what it is.
abbrev pub test_and_set : Bool → Bool × Bool
test_and_set l = (l, true)

-- The body of the loop of `lock`, on a counter of 16 bits; the yield takes no step.
unfoldable pub lose_patience : ℕ → ℕ
lose_patience patience =
    let less = (patience + 2 ^ 16 - 1) % 2 ^ 16 in
    if less == 0 then spin_cycles_before_yield else less

-- The test of the loop, and the body where the flag was set.
unfoldable pub spin : ℕ → Bool → Bool × Pc
unfolding lose_patience
spin patience l =
    let (was, l') = test_and_set l in
    (l', (if was then spinning (lose_patience patience) else owner))

unfoldable pub try_lock : Bool → Bool × Pc
try_lock l = let (was, l') = test_and_set l in (l', (if not was then owner else outside false))

unfoldable pub unlock : Bool × Pc
unlock = (false, outside true)

pub record System : Type 0 where
  pub l : Bool
  pub threads : List Pc

abbrev pub moved : System → ℕ → Bool × Pc → System
moved s i r = record { l = r.0; threads = set s.threads i r.1 }

pub data Step (s : System) : System → Type 0 where
  call_lock :
      (i : ℕ) (b : Bool)
      → get_elem? s.threads i ≡ some (outside b)
      → Step s (moved s i (s.l, spinning spin_cycles_before_yield))
  spins :
      (i patience : ℕ)
      → get_elem? s.threads i ≡ some (spinning patience)
      → Step s (moved s i (spin patience s.l))
  call_try_lock :
      (i : ℕ) (b : Bool)
      → get_elem? s.threads i ≡ some (outside b)
      → Step s (moved s i (try_lock s.l))
  call_unlock : (i : ℕ) → get_elem? s.threads i ≡ some owner → Step s (moved s i unlock)

pub data Reach (n : ℕ) : System → Type 0 where
  start : Reach n (record { l = false; threads = replicate n (outside true) })
  later : {s t : System} → Reach n s → Step s t → Reach n t
