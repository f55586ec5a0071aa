-- ===== src/Util/Invoke/Timed.antt =====
-- `timed_invoke` of util/bits/invoke.h, on the scope guard of util/bits/scope_guard.h. The action of
-- the guard is a `TimerEndFunctor`, and stands as the time at which that was made.
use concurrency_cpp.Base.{ℕ, zero, suc, ◌-◌, ◌*◌, ◌/◌, ◌≡◌, refl, List, [], ◌∷◌}
use concurrency_cpp.Util.ScopeGuard.{ScopeGuard, make, move_from, destroy}

pub data Result (A : Type 0) : Type 0 where
  returned : A → Result A
  thrown : ℕ → Result A

-- `world`: all else, which the clock is a part of.
pub record Timing (S : Type 0) : Type 0 where
  pub world : S
  pub time_elapsed : ℕ

-- A clock's tick lasts `num / den` ticks of the caller's duration, which counts whole ticks.
module _ {S : Type 0} (now : S → ℕ × S) (num den : ℕ) where
  unfoldable pub duration_cast : ℕ → ℕ
  duration_cast ticks = ticks * num / den

  -- `TimerEndFunctor::operator()`
  unfoldable pub timer_end : (begin : ℕ) → Timing S → Timing S
  unfolding duration_cast
  timer_end begin t =
      let (end, w) = now t.world in record { world = w; time_elapsed = duration_cast (end - begin) }

  unfoldable pub timer_ends : List ℕ → Timing S → Timing S
  unfolding timer_end
  timer_ends [] t = t
  timer_ends (begin ∷ begins) t = timer_ends begins (timer_end begin t)

  -- A guard is returned by value: it may be moved, any number of times, and the guard that it is moved
  -- from is destroyed.
  unfoldable pub return_guard : (moves : ℕ) → ScopeGuard → Timing S → ScopeGuard × Timing S
  unfolding timer_ends move_from destroy
  return_guard zero g t = (g, t)
  return_guard (suc moves) g t =
      let (g', rhs) = move_from g in return_guard moves g' (timer_ends (destroy rhs []) t)

  unfoldable pub make_time_guard : (moves : ℕ) → Timing S → ScopeGuard × Timing S
  unfolding return_guard make
  make_time_guard moves t =
      let (begin, w) = now t.world in return_guard moves (make begin) (record t { world = w })

  -- The callable may change anything. Whether it returns or throws, the guard is destroyed.
  unfoldable pub timed_invoke :
      {A : Type 0} → (moves : ℕ) → (Timing S → Result A × Timing S) → Timing S → Result A × Timing S
  unfolding make_time_guard timer_ends destroy
  timed_invoke moves c t =
      let (g, t') = make_time_guard moves t in
      let (r, t'') = c t' in (r, timer_ends (destroy g []) t'')

  return_guard_lem :
      (moves begin : ℕ) (t : Timing S) → return_guard moves (make begin) t ≡ (make begin, t)
  unfolding return_guard make
  return_guard_lem zero begin t = refl
  return_guard_lem (suc moves) begin t = return_guard_lem moves begin t

  -- For any clock and any callable, however often the guard is moved: the clock is read, the callable
  -- runs, the clock is read once more and what has passed since the first reading is written, once;
  -- the result is what the callable returned or threw.
  pub timed_invoke_lem :
      {A : Type 0} (moves : ℕ) (c : Timing S → Result A × Timing S) (t : Timing S)
      → timed_invoke moves c t ≡ (
          let begin = now t.world in
          let called = c (record t { world = begin.1 }) in
          let end = now called.1.world in
          (called.0, record { world = end.1; time_elapsed = duration_cast (end.0 - begin.0) }))
  unfolding timed_invoke make_time_guard
  timed_invoke_lem moves c t =
      rw (return_guard_lem moves (now t.world).0 (record t { world = (now t.world).1 })) refl
