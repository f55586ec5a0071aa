-- ===== src/Executor/Futures/Tests.antt =====
-- A pool of one thread runs a task that throws.
use concurrency_cpp.Base.{◌≡◌, refl, true, false, some, [], ◌∷◌, arith}
use concurrency_cpp.Base.Threads.{total}
use concurrency_cpp.Executor.{
  gone, make, insert_task_locked, add_worker_locked, idle_workers, loop_head, resume, begin_task,
  fetch_task, finish, shutdown, is_terminated_locked, exit, remove_self_locked,
  reap_dead_workers_locked,
}
use concurrency_cpp.Executor.System.{
  System, Reach, start, later, pass_check, insert, nobody, worker_top, worker_finish, shut_down,
  worker_exit,
}
use concurrency_cpp.Executor.Futures.{exception, Task, tracked, delivered, futures_are_ready}

abbrev task : Task
task = tracked 3 (exception 7)

abbrev over : System Task
over = record {
  exec = record {
    core_pool_size = 0;
    max_pool_size = 1;
    task_queue = [];
    workers = [];
    dead_workers = 0 ∷ [];
    shut = true;
    active_count = 0;
    objects = record { core = false; worker_index = 0; pc = gone } ∷ [];
    awaiting = 0;
  };
  pending = [];
  inserted = task ∷ [];
  started = task ∷ [];
  finished = task ∷ [];
}

over-Reach : Reach 0 1 over
unfolding make insert_task_locked add_worker_locked idle_workers loop_head resume begin_task
    fetch_task finish shutdown is_terminated_locked exit remove_self_locked reap_dead_workers_locked
    total
over-Reach =
    later
      (later
        (later
          (later
            (later
              (later (later start (pass_check task refl)) (insert [] task [] refl (nobody refl)))
              (worker_top 0 refl refl))
            (worker_finish 0 refl refl))
          shut_down)
        (worker_top 0 refl refl))
      (worker_exit 0 refl refl refl)

futures_are_ready_example : delivered (task ∷ []) 3 ≡ some (exception 7)
unfolding is_terminated_locked total
futures_are_ready_example =
    futures_are_ready 0 3 (exception 7) (omega arith) over-Reach refl refl refl
