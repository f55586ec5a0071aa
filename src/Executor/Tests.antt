-- ===== src/Executor/Tests.antt =====
-- Runs of a `ThreadPoolExecutor`, and its theorems at states that they reach.
use concurrency_cpp.Base.{
  ◌⊎◌, inr, none, ℕ, ◌+◌, ◌≤◌, ◌<◌, ◌≡◌, refl, true, false, some, [], ◌∷◌, ◌++◌, arith, length,
  get_elem?,
}
use Prim.Native.Nat.{max}
use concurrency_cpp.Base.Threads.{total}
use concurrency_cpp.Executor.{
  waiting, leaving, gone, Worker, Executor, make, make_single_thread_executor,
  make_fixed_thread_pool, add_worker_locked, insert_task_locked, idle_workers, get_pool_size,
  get_active_count, submit, is_terminated_locked, shutdown, await_termination, loop_head, resume,
  expire, fetch_task, begin_task, finish, reap_dead_workers_locked, remove_self_locked, exit,
}
use concurrency_cpp.Executor.System.{
  System, ready, runs, alive, wakes, nobody, pass_check, insert, shut_down, await, worker_top,
  worker_resume, worker_expire, worker_finish, worker_exit, fetched, init, Step, Reach, start,
  later, Run, stay, step,
}
use concurrency_cpp.Executor.Promises.{no_task_is_lost, termination_means_done, idle_workers_exact}
use concurrency_cpp.Executor.Joining.{
  sum_below, joined, destroy, dead_workers_are_gone, workers_are_joined_once,
}
use concurrency_cpp.Executor.Draining.{work, by_awake, worker_steps}
use concurrency_cpp.Executor.Draining.Runs.{shutdown_drains}
use concurrency_cpp.Executor.Refusal.{no_task_after_shutdown}
use concurrency_cpp.Executor.CoreWorkers.{queued_task_is_served}
use concurrency_cpp.Executor.Stranding.{inserted_late, left_for_ever}

-- No core worker, and at most one: the worker has run task 7 and timed out.
abbrev timed_out : System ℕ
timed_out = record {
  exec = record {
    core_pool_size = 0;
    max_pool_size = 1;
    task_queue = [];
    workers = 0 ∷ [];
    dead_workers = [];
    shut = false;
    active_count = 0;
    objects = record { core = false; worker_index = 0; pc = leaving } ∷ [];
    awaiting = 0;
  };
  pending = [];
  inserted = 7 ∷ [];
  started = 7 ∷ [];
  finished = 7 ∷ [];
}

Reach-timed_out : Reach 0 1 timed_out
unfolding make insert_task_locked add_worker_locked idle_workers loop_head resume fetch_task
    begin_task finish reap_dead_workers_locked expire total
Reach-timed_out =
    later
      (later
        (later
          (later (later (later start (pass_check 7 refl)) (insert [] 7 [] refl (nobody refl)))
            (worker_top 0 refl refl))
          (worker_finish 0 refl refl))
        (worker_top 0 refl refl))
      (worker_expire 0 refl refl refl)

-- The pool is then terminated.
abbrev over : System ℕ
over = record timed_out {
  exec = record timed_out.exec {
    shut = true;
    workers = [];
    dead_workers = 0 ∷ [];
    objects = record { core = false; worker_index = 0; pc = gone } ∷ [];
  };
}

Reach-over : Reach 0 1 over
unfolding shutdown is_terminated_locked exit remove_self_locked
Reach-over = later (later Reach-timed_out shut_down) (worker_exit 0 refl refl refl)

-- Two core workers sleep, a task is inserted, and one of them wakes.
abbrev woken : System ℕ
woken = record {
  exec = record {
    core_pool_size = 2;
    max_pool_size = 2;
    task_queue = 5 ∷ [];
    workers = 0 ∷ 1 ∷ [];
    dead_workers = [];
    shut = false;
    active_count = 0;
    objects =
        record { core = true; worker_index = 0; pc = waiting true }
        ∷ record { core = true; worker_index = 1; pc = waiting false }
        ∷ [];
    awaiting = 0;
  };
  pending = [];
  inserted = 5 ∷ [];
  started = [];
  finished = [];
}

Reach-woken : Reach 2 2 woken
unfolding make insert_task_locked add_worker_locked idle_workers loop_head resume
Reach-woken =
    later
      (later (later (later start (worker_top 0 refl refl)) (worker_top 1 refl refl))
        (pass_check 5 refl))
      (insert [] 5 [] refl (wakes 1 refl refl))

init_single : (init 1 1).exec ≡ make_single_thread_executor {T = ℕ}
init_single = refl

init_fixed : (init 2 2).exec ≡ make_fixed_thread_pool {T = ℕ} 2
init_fixed = refl

no_task_is_lost_example :
    (woken.inserted ≡ woken.started ++ woken.exec.task_queue)
    × (length woken.started ≡ length woken.finished + woken.exec.active_count)
no_task_is_lost_example = no_task_is_lost (omega arith) Reach-woken

termination_means_done_example :
    (over.started ≡ over.inserted)
    × ((v : ℕ → ℕ) → total v over.finished ≡ total v over.inserted)
    × (total alive over.exec.objects ≡ 0)
    × (over.exec.active_count ≡ 0)
    × (over.exec.awaiting ≡ 0)
unfolding is_terminated_locked
termination_means_done_example = termination_means_done (omega arith) Reach-over refl

idle_workers_exact_example :
    (get_pool_size woken.exec ≡ total alive woken.exec.objects)
    × (get_pool_size woken.exec ≤ max woken.exec.core_pool_size woken.exec.max_pool_size)
    × (get_active_count woken.exec ≡ total runs woken.exec.objects)
    × (idle_workers woken.exec + total runs woken.exec.objects ≡ total alive woken.exec.objects)
idle_workers_exact_example = idle_workers_exact (omega arith) Reach-woken

-- One core worker: a caller with task 8 finds the executor not shut, which is shut down then, and the
-- worker leaves its loop.
abbrev idle_single : System ℕ
idle_single = record {
  exec = record {
    core_pool_size = 1;
    max_pool_size = 1;
    task_queue = [];
    workers = 0 ∷ [];
    dead_workers = [];
    shut = false;
    active_count = 0;
    objects = record { core = true; worker_index = 0; pc = waiting true } ∷ [];
    awaiting = 0;
  };
  pending = 8 ∷ [];
  inserted = [];
  started = [];
  finished = [];
}

Reach-idle_single : Reach 1 1 idle_single
unfolding make add_worker_locked resume loop_head
Reach-idle_single = later (later start (worker_top 0 refl refl)) (pass_check 8 refl)

abbrev left_loop : System ℕ
left_loop = record idle_single {
  exec = record idle_single.exec {
    shut = true;
    objects = record { core = true; worker_index = 0; pc = leaving } ∷ [];
  };
}

Run-left_loop : Run (record idle_single { exec = shutdown idle_single.exec }) left_loop
unfolding shutdown is_terminated_locked resume loop_head fetch_task begin_task
Run-left_loop = step stay (worker_resume 0 refl refl)

-- The caller inserts its task, another waits for the end, and the last worker exits.
abbrev hung : System ℕ
hung = record left_loop {
  exec = record left_loop.exec {
    task_queue = 8 ∷ [];
    workers = [];
    dead_workers = 0 ∷ [];
    objects = record { core = true; worker_index = 0; pc = gone } ∷ [];
    awaiting = 1;
  };
  pending = [];
  inserted = 8 ∷ [];
}

Run-hung : Run (inserted_late 8 left_loop) hung
unfolding insert_task_locked idle_workers await_termination exit remove_self_locked
    is_terminated_locked
Run-hung = step (step stay await) (worker_exit 0 refl refl refl)

left_for_ever_example :
    (is_terminated_locked hung.exec ≡ false) × (hung.started ≡ []) × (hung.exec.task_queue ≡ 8 ∷ [])
unfolding total
left_for_ever_example =
    left_for_ever 8 (omega arith) Reach-idle_single Run-left_loop refl refl (omega arith) Run-hung

-- The same from the shutdown on.
Run-closed : Run (record idle_single { exec = shutdown idle_single.exec }) hung
unfolding shutdown is_terminated_locked resume loop_head fetch_task begin_task insert_task_locked
    idle_workers await_termination exit remove_self_locked total
Run-closed =
    step
      (step (step (step stay (worker_resume 0 refl refl)) (insert [] 8 [] refl (nobody refl)))
        await)
      (worker_exit 0 refl refl refl)

queued_task_is_served_example :
    (j : ℕ) × (v : Worker ℕ) × (get_elem? woken.exec.objects j ≡ some v) × (0 < ready v + runs v)
queued_task_is_served_example =
    queued_task_is_served (omega arith) Reach-woken refl (omega arith) (omega arith)

dead_workers_are_gone_example :
    (w : Worker ℕ) × (get_elem? over.exec.objects 0 ≡ some w) × (w.pc ≡ gone)
dead_workers_are_gone_example = dead_workers_are_gone (omega arith) Reach-over 0 0 refl

workers_are_joined_once_example :
    ((v : ℕ → ℕ)
      → total v (joined Reach-over ++ (destroy over.exec).0)
        ≡ sum_below v (length over.exec.objects))
    × ((destroy over.exec).1.workers ≡ [])
    × ((destroy over.exec).1.dead_workers ≡ [])
unfolding is_terminated_locked
workers_are_joined_once_example = workers_are_joined_once (omega arith) Reach-over refl

no_task_after_shutdown_example :
    ((t : ℕ) (e : Executor ℕ) → submit t hung.exec e ≡ none)
    × ((v : ℕ → ℕ)
        → total v hung.inserted + total v hung.pending
          ≡ total v idle_single.inserted + total v idle_single.pending)
no_task_after_shutdown_example = no_task_after_shutdown (omega arith) Reach-idle_single Run-closed

-- The pool with the woken worker is shut down, and the worker takes its task.
abbrev draining : System ℕ
draining = record woken { exec = shutdown woken.exec }

abbrev woken_worker : Worker ℕ
woken_worker = record { core = true; worker_index = 1; pc = waiting false }

abbrev resumed : System ℕ
resumed = fetched draining (resume 1 woken_worker draining.exec)

Run-resumed : Run draining resumed
unfolding shutdown is_terminated_locked
Run-resumed = step stay (worker_resume 1 {w = woken_worker} {asleep = false} refl refl)

shutdown_drains_example :
    (worker_steps Run-resumed + work resumed.exec ≡ work draining.exec)
    × ((is_terminated_locked resumed.exec ≡ true)
        ⊎ ((x : System ℕ) × (st : Step resumed x) × (by_awake st ≡ 1)))
unfolding shutdown is_terminated_locked total
shutdown_drains_example =
    shutdown_drains {s = draining} {u = resumed} (omega arith) Reach-woken stay refl
      (inr (omega arith)) Run-resumed
