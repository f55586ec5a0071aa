-- ===== src/Executor/Futures.antt =====
-- `Task` and `UntrackableTask` of concurrency/executor.h, and the futures that `submit` returns. What
-- a callable returns or throws is a number.
mod Tests
use mathlib.Core.Option.{some-injective}
use Prim.Native.Nat.{max}
use native.Mathlib.Decide.{ℕ_discrete}
use concurrency_cpp.Base.{
  ℕ, zero, suc, ◌+◌, ◌*◌, ◌^◌, ◌≤◌, ◌<◌, ◌≡◌, ◌≢◌, refl, sym, ◌∙◌, ap, true, Option, none, some,
  List, [], ◌∷◌, arith, if◌then◌else◌, ◌==◌, ==-refl, ==_false, get_elem?,
}
use concurrency_cpp.Base.Chain.{put, put-eq, put_ne}
use concurrency_cpp.Base.Threads.{total, le-total}
use concurrency_cpp.Executor.{is_terminated_locked}
use concurrency_cpp.Executor.System.{System, Reach}
use concurrency_cpp.Executor.Promises.{termination_means_done}

pub data Result : Type 0 where
  value : ℕ → Result
  exception : ℕ → Result

-- A task with what its callable comes to. `future`: the one that `submit` has returned.
pub data Task : Type 0 where
  tracked : (future : ℕ) → Result → Task
  untrackable : Result → Task

-- What the futures that are ready hold.
abbrev pub Futures : Type 0
Futures = ℕ → Option Result

-- `operator()` of either class: a `packaged_task` hands on what it gets, an exception as well;
-- an `UntrackableTask` swallows it.
unfoldable pub run : Task → Futures → Futures
run (tracked future r) fs = put ℕ_discrete fs future (some r)
run (untrackable r) fs = fs

-- The futures when the tasks have run, the last one first.
unfoldable pub delivered : List Task → Futures
unfolding run
delivered [] = λ f. none
delivered (t ∷ ts) = run t (delivered ts)

-- Weights of a task: it is the one of a future; and then its result, as a number.
abbrev pub is_for : ℕ → Task → ℕ
is_for f t = elim t [ tracked future r ↦ (if future == f then 1 else 0) | untrackable r ↦ 0 ]

abbrev code : Result → ℕ
code r = elim r [ value a ↦ a + a | exception e ↦ suc (e + e) ]

abbrev result_for : ℕ → Task → ℕ
result_for f t = elim t [
  | tracked future r ↦ (if future == f then code r else 0)
  | untrackable r ↦ 0
]

code-injective : (r r' : Result) → code r ≡ code r' → r ≡ r'
code-injective (value a) (value b) e = ap value (omega (arith, e))
code-injective (value a) (exception b) e = absurd (omega (arith, e))
code-injective (exception a) (value b) e = absurd (omega (arith, e))
code-injective (exception a) (exception b) e = ap exception (omega (arith, e))

none-result : (f : ℕ) (ts : List Task) → total (is_for f) ts ≡ 0 → total (result_for f) ts ≡ 0
unfolding total
none-result f [] h = refl
none-result f (t ∷ ts) h = ground (arith, h, none-result f ts (omega (arith, h)))

self-for :
    (f : ℕ) (r : Result) → (is_for f (tracked f r) ≡ 1) × (result_for f (tracked f r) ≡ code r)
self-for f r =
    (ap (λ b. if b then 1 else 0) (==-refl f), ap (λ b. if b then code r else 0) (==-refl f))

other-for : (f : ℕ) (t : Task) → is_for f t ≡ 0 → result_for f t ≡ 0
other-for f (tracked g r) h = ground (arith, h)
other-for f (untrackable r) h = refl

-- The one task of a future gives its result away.
one-result :
    (f : ℕ) (r : Result) (ts : List Task) (i : ℕ)
    → total (is_for f) ts ≡ 1
    → get_elem? ts i ≡ some (tracked f r)
    → total (result_for f) ts ≡ code r
unfolding total
one-result f r [] i one here = cc
one-result f r (t ∷ ts) zero one here =
    let same : t ≡ tracked f r = some-injective t (tracked f r) here in
    let (mine, gives) = self-for f r in
    let mine' : is_for f t ≡ 1 = ap (is_for f) same ∙ mine in
    let gives' : result_for f t ≡ code r = ap (result_for f) same ∙ gives in
    omega (arith, gives', none-result f ts (omega (arith, one, mine')))
one-result f r (t ∷ ts) (suc i) one here =
    let there = le-total (is_for f) ts i here in
    let other : is_for f t ≡ 0 = omega (arith, one, there, (self-for f r).0) in
    omega (arith, other-for f t other, one-result f r ts i (omega (arith, one, other)) here)

delivered-result :
    (f : ℕ) (ts : List Task)
    → total (is_for f) ts ≡ 1
    → (r : Result) × (delivered ts f ≡ some r) × (total (result_for f) ts ≡ code r)
unfolding total delivered run
delivered-result f [] one = ground arith
delivered-result f (untrackable r ∷ ts) one =
    let (u, at, sum) = delivered-result f ts (omega (arith, one)) in (u, at, omega (arith, sum))
delivered-result f (tracked g r ∷ ts) one = elim (ℕ_discrete g f) [
  | yes same ↦
      let mine : is_for f (tracked g r) ≡ 1 =
        ap (λ g. is_for f (tracked g r)) same ∙ (self-for f r).0 in
      let gives : result_for f (tracked g r) ≡ code r =
        ap (λ g. result_for f (tracked g r)) same ∙ (self-for f r).1 in
      (
        r,
        ap (put ℕ_discrete (delivered ts) g (some r)) (sym same)
            ∙ put-eq ℕ_discrete (delivered ts) g (some r),
        omega (arith, gives, none-result f ts (omega (arith, one, mine))),
      )
  | no ne ↦
      let other : is_for f (tracked g r) ≡ 0 = ap (λ b. if b then 1 else 0) (==_false g f ne) in
      let (u, at, sum) = delivered-result f ts (omega (arith, one, other)) in
      (
        u,
        put_ne ℕ_discrete (delivered ts) g (some r) f ne ∙ at,
        omega (arith, other-for f (tracked g r) other, sum),
      )
]

-- In every reachable state of an executor that `is_terminated`, whose sizes fit 64 bits, the future
-- of a task that was inserted, and that no other task has, is ready, with what the callable of the
-- task returned or threw.
pub futures_are_ready :
    {c m : ℕ} {s : System Task} (i f : ℕ) (r : Result)
    → max c m < 2 ^ 64
    → Reach c m s
    → is_terminated_locked s.exec ≡ true
    → get_elem? s.inserted i ≡ some (tracked f r)
    → total (is_for f) s.inserted ≡ 1
    → delivered s.finished f ≡ some r
futures_are_ready {s = s} i f r fits reach over here one =
    let same = (termination_means_done fits reach over).1 in
    let (u, at, sum) = delivered-result f s.finished (same (is_for f) ∙ one) in
    at
    ∙ ap some
        (code-injective u r (sym sum ∙ same (result_for f) ∙ one-result f r s.inserted i one here))
