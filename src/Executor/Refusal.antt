-- ===== src/Executor/Refusal.antt =====
-- `submit` and `execute` once the executor is shut down.
use Prim.Native.Nat.{max}
use concurrency_cpp.Base.{ℕ, ◌+◌, ◌^◌, ◌<◌, ◌≡◌, refl, ◌∙◌, ap, true, none, Option, [], ◌∷◌, arith}
use concurrency_cpp.Base.Threads.{total, total-append}
use concurrency_cpp.Executor.{
  Worker, Executor, insert_task_locked, shutdown, await_termination, finish, submit,
}
use concurrency_cpp.Executor.Fetching.{
  Came, sleep, quit, take, loop_head-Came, resume-Came, expire-Came,
}
use concurrency_cpp.Executor.Invariant.{exit-Sound}
use concurrency_cpp.Executor.Reachable.{Inv, Step-Inv, Reach-Inv}
use concurrency_cpp.Executor.System.{
  System, Step, pass_check, insert, shut_down, await, worker_top, worker_resume, worker_expire,
  worker_finish, worker_exit, Reach, later, Run, stay, step,
}

module _ {T : Type 0} where
  Came-shut :
      {self : ℕ} {w : Worker T} {e : Executor T} {r : Option T × Executor T}
      → Came self w e r
      → r.1.shut ≡ e.shut
  Came-shut (sleep h s) = refl
  Came-shut (quit h why) = refl
  Came-shut (take t q h) = refl

  insert_task_locked-shut : (t : T) (e : Executor T) → (insert_task_locked t e).shut ≡ e.shut
  unfolding insert_task_locked
  insert_task_locked-shut t e = ground arith

  shutdown-shut : (e : Executor T) → (shutdown e).shut ≡ true
  unfolding shutdown
  shutdown-shut e = ground arith

  await_termination-shut : (e : Executor T) → (await_termination e).shut ≡ e.shut
  unfolding await_termination
  await_termination-shut e = ground arith

  finish-shut : (self : ℕ) (w : Worker T) (e : Executor T) → (finish self w e).shut ≡ e.shut
  unfolding finish
  finish-shut self w e = refl

  -- Still shut down, and the tasks are those inserted or about to be.
  record Closed (s u : System T) : Type 0 where
    shut : u.exec.shut ≡ true
    tasks :
        (v : T → ℕ)
        → total v u.inserted + total v u.pending ≡ total v s.inserted + total v s.pending

  Step-Closed : {s u x : System T} → Inv u → Step u x → Closed s u → Closed s x
  unfolding total
  Step-Closed inv (pass_check t not_shut) k = absurd (ground (arith, k.shut, not_shut))
  Step-Closed {u = u} inv (insert pre t post q n) k = record {
    shut = insert_task_locked-shut t u.exec ∙ k.shut;
    tasks = λ v. omega (
      arith,
      k.tasks v,
      total-append v u.inserted (t ∷ []),
      ap (total v) q,
      total-append v pre (t ∷ post),
      total-append v pre post,
    );
  }
  Step-Closed {u = u} inv shut_down k = record { shut = shutdown-shut u.exec; tasks = k.tasks }
  Step-Closed {u = u} inv await k = record {
    shut = await_termination-shut u.exec ∙ k.shut;
    tasks = k.tasks;
  }
  Step-Closed {u = u} inv (worker_top self {w} at h) k = record {
    shut = Came-shut (loop_head-Came self w u.exec) ∙ k.shut;
    tasks = k.tasks;
  }
  Step-Closed {u = u} inv (worker_resume self {w} at h) k = record {
    shut = Came-shut (resume-Came self w u.exec) ∙ k.shut;
    tasks = k.tasks;
  }
  Step-Closed {u = u} inv (worker_expire self {w} at h timed) k = record {
    shut = Came-shut (expire-Came self w u.exec timed) ∙ k.shut;
    tasks = k.tasks;
  }
  Step-Closed {u = u} inv (worker_finish self {w} at h) k = record {
    shut = finish-shut self w u.exec ∙ k.shut;
    tasks = k.tasks;
  }
  Step-Closed {u = u} inv (worker_exit self {w} at h q) k = record {
    shut = (exit-Sound u.exec self w at h q inv.sound).0.shut ∙ k.shut;
    tasks = k.tasks;
  }

  Run-Closed : {s u : System T} → Inv s → s.exec.shut ≡ true → Run s u → Inv u × Closed s u
  Run-Closed inv shut stay = (inv, record { shut = shut; tasks = λ v. refl })
  Run-Closed inv shut (step run st) =
      let (inv', k) = Run-Closed inv shut run in (Step-Inv st inv', Step-Closed inv' st k)

Run-Reach : {T : Type 0} {c m : ℕ} {s u : System T} → Reach c m s → Run s u → Reach c m u
Run-Reach r stay = r
Run-Reach r (step run st) = later (Run-Reach r run) st

-- A state that a run from a call of `shutdown` comes to.
pub after_shutdown :
    {T : Type 0} {c m : ℕ} {s u : System T}
    → max c m < 2 ^ 64
    → Reach c m s
    → Run (record s { exec = shutdown s.exec }) u
    → Reach c m u × (u.exec.shut ≡ true)
after_shutdown {s = s} fits r run = (
  Run-Reach (later r shut_down) run,
  (Run-Closed (Step-Inv shut_down (Reach-Inv fits r)) (shutdown-shut s.exec) run).1.shut,
)

-- In every state that an executor, whose sizes fit 64 bits, comes to after a call of `shutdown`,
-- `submit` and `execute` throw, whatever the state when they would insert the task; and the tasks
-- inserted so far or about to be are those of the time of that call (whatever weights the tasks have,
-- they add up to the same).
pub no_task_after_shutdown :
    {T : Type 0} {c m : ℕ} {s u : System T}
    → max c m < 2 ^ 64
    → Reach c m s
    → Run (record s { exec = shutdown s.exec }) u
    → ((t : T) (e : Executor T) → submit t u.exec e ≡ none)
      × ((v : T → ℕ)
          → total v u.inserted + total v u.pending ≡ total v s.inserted + total v s.pending)
unfolding submit
no_task_after_shutdown {s = s} fits r run =
    let inv = Step-Inv shut_down (Reach-Inv fits r) in
    let k = (Run-Closed inv (shutdown-shut s.exec) run).1 in
    (λ t e. ground (arith, k.shut), k.tasks)
