-- ===== src/Executor/Promises.antt =====
-- What a `ThreadPoolExecutor` promises its callers, in every reachable state.
use Prim.Native.Nat.{max}
use concurrency_cpp.Base.{
  false, ℕ, suc, ◌+◌, ◌^◌, ◌≤◌, ◌<◌, ◌≡◌, sym, ◌∙◌, ap, true, some, [], ◌∷◌, ◌++◌, arith, length,
  get_elem?, Bool, ◌||◌, ◌↔◌, refl, none, if◌then◌else◌,
}
use mathlib.Core.List.{append-nil}
use concurrency_cpp.Base.Threads.{total, total_mono, le-total, contributor}
use concurrency_cpp.Executor.{
  leaving, Worker, Executor, is_terminated_locked, is_terminated, await_termination_until,
  idle_workers, get_pool_size, get_active_count, exit,
}
use concurrency_cpp.Executor.Places.{Indexed}
use concurrency_cpp.Executor.Removal.{exit_lem}
use concurrency_cpp.Executor.System.{System, sleeps, ready, runs, alive, Reach}
use concurrency_cpp.Executor.Reachable.{carries-idle, Reach-Inv}

module _ {T : Type 0} {c m : ℕ} {s : System T} (fits : max c m < 2 ^ 64) (r : Reach c m s) where
  -- In every reachable state of an executor whose sizes fit 64 bits, the tasks inserted so far are
  -- those that were started, in the order of insertion, followed by those in the queue, and each
  -- task that was started has finished or is counted by `active_count`.
  pub no_task_is_lost :
      (s.inserted ≡ s.started ++ s.exec.task_queue)
      × (length s.started ≡ length s.finished + s.exec.active_count)
  no_task_is_lost =
      let inv = Reach-Inv fits r in
      (inv.tasks.order, omega (arith, inv.tasks.tally, inv.sound.counted.active))

  terminated_parts :
      is_terminated_locked s.exec ≡ true
      → (s.exec.shut ≡ true) × (s.exec.task_queue ≡ []) × (length s.exec.workers ≡ 0)
  unfolding is_terminated_locked
  terminated_parts h = (ground arith, ground arith, ground arith)

  -- In every reachable state of an executor that `is_terminated`, whose sizes fit 64 bits, every
  -- task ever inserted was started and has finished, as often as it was inserted (whatever weights
  -- the tasks have, those of the tasks finished and of the tasks inserted add up to the same), no
  -- worker thread is left, `active_count` is 0, and no thread sleeps in `await_termination`.
  pub termination_means_done :
      is_terminated_locked s.exec ≡ true
      → (s.started ≡ s.inserted)
        × ((v : T → ℕ) → total v s.finished ≡ total v s.inserted)
        × (total alive s.exec.objects ≡ 0)
        × (s.exec.active_count ≡ 0)
        × (s.exec.awaiting ≡ 0)
  termination_means_done over =
      let inv = Reach-Inv fits r in
      let (shut, empty, none_left) = terminated_parts over in
      let same : s.started ≡ s.inserted =
        sym (inv.tasks.order ∙ ap (λ q. s.started ++ q) empty ∙ append-nil s.started) in
      let none_alive : total alive s.exec.objects ≡ 0 =
        omega (arith, none_left, inv.sound.counted.pool) in
      let none_runs : total runs s.exec.objects ≡ 0 =
        omega (arith, none_alive, total_mono runs alive (λ w. ground arith) s.exec.objects) in
      (
        same,
        λ v. omega (
          arith,
          inv.tasks.weighed v,
          carries-idle v s.exec.objects none_runs,
          ap (total v) same,
        ),
        none_alive,
        omega (arith, none_runs, inv.sound.counted.active),
        inv.sound.released over,
      )

  -- In every reachable state of an executor whose sizes fit 64 bits, `workers` has one entry for
  -- each thread that has not exited, no more than the greater of the two sizes; `get_pool_size` is
  -- the number of these threads, `get_active_count` that of the threads that run a task, and
  -- `idle_workers`, computed modulo 2 ^ 64, that of the others.
  pub idle_workers_exact :
      (get_pool_size s.exec ≡ total alive s.exec.objects)
      × (get_pool_size s.exec ≤ max s.exec.core_pool_size s.exec.max_pool_size)
      × (get_active_count s.exec ≡ total runs s.exec.objects)
      × (idle_workers s.exec + total runs s.exec.objects ≡ total alive s.exec.objects)
  unfolding idle_workers
  idle_workers_exact =
      let k = (Reach-Inv fits r).sound.counted in
      (
        k.pool,
        k.bound,
        omega (arith, k.active),
        omega (
          arith,
          k.pool,
          k.active,
          k.bound,
          k.fits,
          total_mono runs alive (λ w. ground arith) s.exec.objects,
        ),
      )

  -- In every reachable state of an executor whose sizes fit 64 bits, a worker that has left its loop
  -- can exit: `remove_self_locked` meets no index out of range, the worker goes to the list of the
  -- dead, the array loses one entry, and each worker left stands at its own index.
  pub exit_never_faults :
      (self : ℕ) {w : Worker T}
      → get_elem? s.exec.objects self ≡ some w
      → w.pc ≡ leaving
      → (e : Executor T) × (exit self s.exec ≡ some e)
        × (e.dead_workers ≡ s.exec.dead_workers ++ (self ∷ []))
        × (suc (length e.workers) ≡ length s.exec.workers)
        × Indexed e
  exit_never_faults self {w} at h =
      let (e, q, x) = exit_lem s.exec self w (Reach-Inv fits r).sound.indexed at h in
      (e, q, x.dead, x.fewer, x.indexed)

  -- In every reachable state of an executor whose sizes fit 64 bits, while a worker sleeps and a
  -- task is in the queue, another worker is awake and about to look at the queue.
  pub no_worker_sleeps_alone :
      (i : ℕ) {w : Worker T}
      → get_elem? s.exec.objects i ≡ some w
      → sleeps w ≡ 1
      → 0 < length s.exec.task_queue
      → (j : ℕ) × (v : Worker T) × (get_elem? s.exec.objects j ≡ some v) × (0 < ready v)
  no_worker_sleeps_alone i at asleep queued = contributor ready s.exec.objects (
      ground (
        arith,
        (Reach-Inv fits r).sound.covered.awake,
        le-total sleeps s.exec.objects i at,
        asleep,
        queued,
      ))

  -- In every reachable state of an executor that `is_shutdown`, whose sizes fit 64 bits, no worker
  -- sleeps.
  pub none_sleeps_after_shutdown : s.exec.shut ≡ true → total sleeps s.exec.objects ≡ 0
  none_sleeps_after_shutdown = (Reach-Inv fits r).sound.covered.none_left_asleep

-- `await_termination_until` and `await_termination_for` return true where the executor is terminated
-- at their first test or once they have the lock, and otherwise take `main_lock` twice, which is
-- undefined.
pub await_until_relocks :
    {T : Type 0} (e e' : Executor T)
    → (((is_terminated_locked e || is_terminated_locked e') ≡ true)
        ↔ (await_termination_until e e' ≡ some true))
      × (((is_terminated_locked e || is_terminated_locked e') ≡ false)
          ↔ (await_termination_until e e' ≡ none))
unfolding await_termination_until is_terminated
await_until_relocks e e' = by_test (is_terminated_locked e || is_terminated_locked e')
  where
    by_test :
        (b : Bool)
        → ((b ≡ true) ↔ ((if b then some true else none) ≡ some true))
          × ((b ≡ false) ↔ ((if b then some true else none) ≡ none))
    by_test true = (((λ q. refl), (λ q. refl)), ((λ q. cc), (λ q. cc)))
    by_test false = (((λ q. cc), (λ q. cc)), ((λ q. refl), (λ q. refl)))
