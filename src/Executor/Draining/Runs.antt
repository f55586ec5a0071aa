-- ===== src/Executor/Draining/Runs.antt =====
-- A `ThreadPoolExecutor` that is shut down, until it is terminated.
use native.Mathlib.Decide.{ℕ_discrete}
use Prim.Native.Nat.{max}
use concurrency_cpp.Base.{
  ℕ, ◌+◌, ◌^◌, ◌<◌, ◌≡◌, refl, sym, ◌∙◌, ap, ◌⊎◌, inl, inr, true, false, some, [], ◌∷◌, arith,
  length, length-append, get_elem?,
}
use concurrency_cpp.Base.Threads.{total, total_mono, le-total, contributor}
use concurrency_cpp.Executor.{
  Pc, top, waiting, running, leaving, gone, Worker, Executor, is_terminated_locked, shutdown,
  await_termination, wake,
}
use concurrency_cpp.Executor.Counts.{wake_all-same}
use concurrency_cpp.Executor.Fetching.{loop_head-Came, resume-Came, expire-Came}
use concurrency_cpp.Executor.Invariant.{exit-Sound}
use concurrency_cpp.Executor.Reachable.{Inv, Step-Inv, Reach-Inv}
use concurrency_cpp.Executor.Refusal.{after_shutdown}
use concurrency_cpp.Executor.Removal.{exit_lem}
use concurrency_cpp.Executor.Stranding.{shutdown-in_loop, await-objects}
use concurrency_cpp.Executor.System.{
  System, sleeps, runs, alive, in_loop, Step, pass_check, insert, shut_down, await, worker_top,
  worker_resume, worker_expire, worker_finish, worker_exit, Reach, Run, stay, step,
}
use concurrency_cpp.Executor.Draining.{
  work, by_worker, by_awake, worker_steps, Draining, Progress, Came-Progress, finish-Progress,
  Exited-Progress,
}

module _ {T : Type 0} where
  shutdown-total :
      (v : Worker T → ℕ) (e : Executor T)
      → ((w : Worker T) → v (wake w) ≡ v w)
      → total v (shutdown e).objects ≡ total v e.objects
  unfolding shutdown
  shutdown-total v e same = ground (arith, wake_all-same v same e.objects)

  -- The same work in the same objects.
  idle_step :
      (s : System T) (e : Executor T) (st : Step s (record s { exec = e }))
      → Draining s
      → (e.shut ≡ true) × (e.task_queue ≡ s.exec.task_queue)
      → (total runs e.objects ≡ total runs s.exec.objects)
        × (total in_loop e.objects ≡ total in_loop s.exec.objects)
        × (total alive e.objects ≡ total alive s.exec.objects)
      → Draining (record s { exec = e }) × (work e ≡ work s.exec)
  unfolding work
  idle_step s e st x (shut, queue) (same_runs, same_loop, same_alive) = (
    record {
      inv = Step-Inv st x.inv;
      shut = shut;
      nobody_submits = x.nobody_submits;
      served = elim x.served [
        | inl empty ↦ inl (ap length queue ∙ empty)
        | inr some_left ↦ inr (omega (arith, same_loop, some_left))
      ];
    },
    omega (arith, ap length queue, same_runs, same_loop, same_alive),
  )

  -- A step of a worker.
  worker_step :
      {s u : System T}
      → Step s u
      → Draining s
      → Progress s.exec u.exec
      → u.pending ≡ s.pending
      → Draining u × (1 + work u.exec ≡ work s.exec)
  worker_step st x p same = (
    record {
      inv = Step-Inv st x.inv;
      shut = p.shut ∙ x.shut;
      nobody_submits = same ∙ x.nobody_submits;
      served = p.served;
    },
    p.less,
  )

  -- Every step keeps this, and those of the workers, and only they, take one from the work.
  Step-Draining :
      {s u : System T} (st : Step s u)
      → Draining s
      → Draining u × (by_worker st + work u.exec ≡ work s.exec)
  unfolding by_worker
  Step-Draining (pass_check t not_shut) x = absurd (ground (arith, x.shut, not_shut))
  Step-Draining (insert pre t post q n) x =
      absurd (omega (arith, ap length (sym x.nobody_submits ∙ q), length-append pre (t ∷ post)))
  Step-Draining {s} shut_down x =
      let (_, queue, shut) = shutdown-in_loop s.exec in
      let (y, same) =
        idle_step s (shutdown s.exec) shut_down x (shut, queue)
          (
            shutdown-total runs s.exec (λ w. ground arith),
            shutdown-total in_loop s.exec (λ w. ground arith),
            shutdown-total alive s.exec (λ w. ground arith),
          ) in
      (y, omega (arith, same))
  Step-Draining {s} await x =
      let (objects, queue, shut) = await-objects s.exec in
      let (y, same) =
        idle_step s (await_termination s.exec) await x (shut ∙ x.shut, queue)
          (ap (total runs) objects, ap (total in_loop) objects, ap (total alive) objects) in
      (y, omega (arith, same))
  Step-Draining {s} (worker_top self {w} at h) x =
      worker_step (worker_top self at h) x
        (Came-Progress s.exec self w at (ground arith) x.shut (loop_head-Came self w s.exec)) refl
  Step-Draining {s} (worker_resume self {w} {asleep} at h) x =
      worker_step (worker_resume self at h) x
        (Came-Progress s.exec self w at (ground arith) x.shut (resume-Came self w s.exec)) refl
  Step-Draining {s} (worker_expire self {w} {asleep} at h timed) x =
      worker_step (worker_expire self at h timed) x
        (Came-Progress s.exec self w at (ground arith) x.shut (expire-Came self w s.exec timed))
        refl
  Step-Draining {s} (worker_finish self {w} {t} at h) x =
      worker_step (worker_finish self at h) x (finish-Progress s.exec self w t at h) refl
  Step-Draining {s} (worker_exit self {w} {e} at h q) x =
      worker_step (worker_exit self at h q) x
        (Exited-Progress (exit-Sound s.exec self w at h q x.inv.sound).0 x.served) refl

  -- A worker that has not exited can take a step where nobody sleeps.
  enabled :
      (s : System T) (self : ℕ) (w : Worker T)
      → Inv s
      → get_elem? s.exec.objects self ≡ some w
      → 0 < alive w
      → total sleeps s.exec.objects ≡ 0
      → (u : System T) × (st : Step s u) × (by_awake st ≡ 1)
  unfolding by_awake
  enabled s self w inv at live none_sleeps = by_pc w.pc refl
    where
      by_pc : (p : Pc T) → w.pc ≡ p → (u : System T) × (st : Step s u) × (by_awake st ≡ 1)
      by_pc top h = (_, worker_top self at h, refl)
      by_pc (waiting true) h =
          absurd (ground (arith, h, le-total sleeps s.exec.objects self at, none_sleeps))
      by_pc (waiting false) h = (_, worker_resume self at h, refl)
      by_pc (running t) h = (_, worker_finish self at h, refl)
      by_pc leaving h =
          let (e, q, x) = exit_lem s.exec self w inv.sound.indexed at h in
          (_, worker_exit self at h q, refl)
      by_pc gone h = absurd (ground (arith, live, h))

  Draining-enabled :
      (s : System T)
      → Draining s
      → (is_terminated_locked s.exec ≡ true)
        ⊎ ((u : System T) × (st : Step s u) × (by_awake st ≡ 1))
  unfolding is_terminated_locked
  Draining-enabled s x = elim (ℕ_discrete (total alive s.exec.objects) 0) [
    | yes none_alive ↦
        let none_left : length s.exec.workers ≡ 0 =
          omega (arith, none_alive, x.inv.sound.counted.pool) in
        let none_in_loop : total in_loop s.exec.objects ≡ 0 =
          omega (arith, none_alive, total_mono in_loop alive (λ w. ground arith) s.exec.objects) in
        let empty : length s.exec.task_queue ≡ 0 = elim x.served [
          | inl none_queued ↦ none_queued
          | inr some_left ↦ absurd (omega (arith, none_in_loop, some_left))
        ] in
        inl (ground (arith, x.shut, empty, none_left))
    | no some_alive ↦
        let (j, w, at, live) = contributor alive s.exec.objects (omega (arith, some_alive)) in
        inr (enabled s j w x.inv at live (x.inv.sound.covered.none_left_asleep x.shut))
  ]

  Run-Draining :
      {s u : System T} (run : Run s u)
      → Draining s
      → Draining u × (worker_steps run + work u.exec ≡ work s.exec)
  unfolding worker_steps
  Run-Draining stay x = (x, omega arith)
  Run-Draining (step run st) x =
      let (y, taken) = Run-Draining run x in
      let (z, one) = Step-Draining st y in (z, omega (arith, taken, one))

-- Once `shutdown` was called on an executor whose sizes fit 64 bits, and then no caller is about to
-- insert a task any more, and the queue is empty or a worker is in its loop, in whatever order the
-- threads run on: each step of a worker takes one from the work, the other steps take nothing, and
-- the executor is terminated or some worker that does not sleep can take a step.
pub shutdown_drains :
    {T : Type 0} {c m : ℕ} {r s u : System T}
    → max c m < 2 ^ 64
    → Reach c m r
    → Run (record r { exec = shutdown r.exec }) s
    → s.pending ≡ []
    → (length s.exec.task_queue ≡ 0) ⊎ (0 < total in_loop s.exec.objects)
    → (run : Run s u)
    → (worker_steps run + work u.exec ≡ work s.exec)
      × ((is_terminated_locked u.exec ≡ true)
          ⊎ ((x : System T) × (st : Step u x) × (by_awake st ≡ 1)))
shutdown_drains {u = u} fits reach since nobody served run =
    let (at, shut) = after_shutdown fits reach since in
    let (y, taken) =
      Run-Draining run (record {
        inv = Reach-Inv fits at;
        shut = shut;
        nobody_submits = nobody;
        served = served;
      }) in
    (taken, Draining-enabled u y)
