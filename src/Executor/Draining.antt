-- ===== src/Executor/Draining.antt =====
-- What is left to do once a `ThreadPoolExecutor` is shut down: its workers run the tasks in the queue
-- and exit.
pub mod Runs
use Prim.Native.Nat.{max}
use concurrency_cpp.Base.{
  ℕ, suc, ◌+◌, ◌*◌, ◌^◌, ◌≤◌, ◌<◌, ◌≡◌, refl, sym, ◌∙◌, ap, ◌⊎◌, inl, inr, true, false, some,
  if◌then◌else◌, Option, List, [], ◌∷◌, ◌++◌, arith, length, length-append, get_elem?, set,
  Bool-cases,
}
use concurrency_cpp.Base.Threads.{total, total-set, total_mono, le-total, contributor}
use concurrency_cpp.Executor.{
  Pc, top, waiting, running, leaving, gone, Worker, Executor, is_shutdown, is_terminated_locked,
  shutdown, await_termination, finish, wake,
}
use concurrency_cpp.Executor.Counts.{wake_all-same}
use concurrency_cpp.Executor.Fetching.{
  Came, sleep, quit, take, loop_head-Came, resume-Came, expire-Came,
}
use concurrency_cpp.Executor.Invariant.{exit-Sound}
use concurrency_cpp.Executor.Reachable.{Inv, Step-Inv, Reach-Inv}
use concurrency_cpp.Executor.Removal.{Exited, exit_lem}
use concurrency_cpp.Executor.Stranding.{in_loop-parts}
use concurrency_cpp.Executor.System.{
  System, sleeps, ready, runs, alive, in_loop, Step, pass_check, insert, shut_down, await,
  worker_top, worker_resume, worker_expire, worker_finish, worker_exit, Run, stay, step,
}

module _ {T : Type 0} where
  -- A task in the queue is yet to be started and finished, a worker in its loop is yet to leave it,
  -- after its task if it runs one, and each worker is yet to exit.
  unfoldable pub work : Executor T → ℕ
  unfolding total
  work e =
      2 * length e.task_queue
      + total runs e.objects
      + total in_loop e.objects
      + total alive e.objects

  -- Is it the step of a worker?
  unfoldable pub by_worker : {s u : System T} → Step s u → ℕ
  by_worker (pass_check t not_shut) = 0
  by_worker (insert pre t post q n) = 0
  by_worker shut_down = 0
  by_worker await = 0
  by_worker _ = 1

  -- Is it the step of a worker that does not sleep?
  unfoldable pub by_awake : {s u : System T} → Step s u → ℕ
  by_awake (worker_top self at h) = 1
  by_awake (worker_resume self {w} {asleep} at h) = if asleep then 0 else 1
  by_awake (worker_expire self {w} {asleep} at h timed) = if asleep then 0 else 1
  by_awake (worker_finish self at h) = 1
  by_awake (worker_exit self at h q) = 1
  by_awake _ = 0

  unfoldable pub worker_steps : {s u : System T} → Run s u → ℕ
  unfolding by_worker
  worker_steps stay = 0
  worker_steps (step run st) = worker_steps run + by_worker st

  -- After `shutdown`, with no caller about to insert a task: the queue is empty, or a worker is in its
  -- loop.
  pub record Draining (s : System T) : Type 0 where
    pub inv : Inv s
    pub shut : s.exec.shut ≡ true
    pub nobody_submits : s.pending ≡ []
    pub served : (length s.exec.task_queue ≡ 0) ⊎ (0 < total in_loop s.exec.objects)

  -- What a step of a worker leaves.
  pub record Progress (e e' : Executor T) : Type 0 where
    pub shut : e'.shut ≡ e.shut
    pub less : 1 + work e' ≡ work e
    pub served : (length e'.task_queue ≡ 0) ⊎ (0 < total in_loop e'.objects)

  -- A worker goes on to `w'`, and the queue to `q`.
  module _ (e : Executor T) (self : ℕ) (w w' : Worker T) (q : List T)
      (at : get_elem? e.objects self ≡ some w) where
    turned :
        2 * length q
          + total runs (set e.objects self w')
          + total in_loop (set e.objects self w')
          + total alive (set e.objects self w')
          + (2 * length e.task_queue + runs w + in_loop w + alive w)
        ≡ work e + (2 * length q + runs w' + in_loop w' + alive w')
    unfolding work
    turned = omega (
      arith,
      total-set runs e.objects self w' at,
      total-set in_loop e.objects self w' at,
      total-set alive e.objects self w' at,
    )

    still_served : in_loop w ≡ 1 → in_loop w' ≡ 1 → 0 < total in_loop (set e.objects self w')
    still_served one one' =
        omega (arith, total-set in_loop e.objects self w' at, le-total in_loop e.objects self at)

  fetching :
      (w : Worker T) → ready w + sleeps w ≡ 1 → (runs w ≡ 0) × (in_loop w ≡ 1) × (alive w ≡ 1)
  fetching w here = (ground arith, ground arith, ground arith)

  pub Came-Progress :
      (e : Executor T) (self : ℕ) (w : Worker T) {r : Option T × Executor T}
      → get_elem? e.objects self ≡ some w
      → ready w + sleeps w ≡ 1
      → e.shut ≡ true
      → Came self w e r
      → Progress e r.1
  unfolding work
  Came-Progress e self w at here shut (sleep h s) = absurd (ground (arith, shut, s))
  Came-Progress e self w at here shut (quit h why) =
      let (none_run, one, live) = fetching w here in
      record {
        shut = refl;
        less = omega (
          arith,
          turned e self w (record w { pc = leaving }) e.task_queue at,
          none_run,
          one,
          live,
        );
        served = inl (ap length h);
      }
  Came-Progress e self w at here shut (take t q h) =
      let (none_run, one, live) = fetching w here in
      record {
        shut = refl;
        less = omega (
          arith,
          turned e self w (record w { pc = running t }) q at,
          none_run,
          one,
          live,
          ap length h,
        );
        served = inr (still_served e self w (record w { pc = running t }) q at one refl);
      }

  pub finish-Progress :
      (e : Executor T) (self : ℕ) (w : Worker T) (t : T)
      → get_elem? e.objects self ≡ some w
      → w.pc ≡ running t
      → Progress e (finish self w e)
  unfolding finish work
  finish-Progress e self w t at h =
      let runs_one : runs w ≡ 1 = ground arith in
      let one : in_loop w ≡ 1 = ground arith in
      let live : alive w ≡ 1 = ground arith in
      record {
        shut = refl;
        less =
            omega
              (arith, turned e self w (record w { pc = top }) e.task_queue at, runs_one, one, live);
        served = inr (still_served e self w (record w { pc = top }) e.task_queue at one refl);
      }

  pub Exited-Progress :
      {e e' : Executor T} {self : ℕ}
      → Exited e e' self
      → (length e.task_queue ≡ 0) ⊎ (0 < total in_loop e.objects)
      → Progress e e'
  unfolding work
  Exited-Progress {e} {e'} x served =
      let same : total in_loop e'.objects ≡ total in_loop e.objects = omega (
        arith,
        in_loop-parts e.objects,
        in_loop-parts e'.objects,
        x.ready_total,
        x.sleeps_total,
        x.runs_total,
      ) in
      record {
        shut = x.shut;
        less = omega (arith, same, x.runs_total, x.alive_total, ap length x.queue);
        served = elim served [
          | inl empty ↦ inl (ap length x.queue ∙ empty)
          | inr some_left ↦ inr (omega (arith, same, some_left))
        ];
      }
