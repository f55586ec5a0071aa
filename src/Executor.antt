-- ===== src/Executor.antt =====
-- `ThreadPoolExecutor` of concurrency/executor.h. Each function is one hold of `main_lock`, or a part
-- of one. A task is a value of the type `T`: what a task does when it runs is not looked into.
pub mod System
pub mod Fetching
pub mod Places
pub mod Removal
pub mod Indices
pub mod Counts
pub mod Sleepers
pub mod Making
pub mod Invariant
pub mod Reachable
pub mod Promises
pub mod Stranding
pub mod Joining
pub mod Refusal
pub mod Draining
pub mod Futures
pub mod CoreWorkers
mod Tests
use concurrency_cpp.Base.{
  ℕ, suc, ◌+◌, ◌-◌, ◌%◌, ◌^◌, ◌<◌, ◌≡◌, Bool, true, false, ◌&&◌, ◌||◌, not, Option, none, some,
  List, [], ◌∷◌, ◌++◌, ltb, ◌==◌, if◌then◌else◌, length, get_elem?, set, take,
}
use concurrency_cpp.Base.Partial.{◌>>=◌}

-- Where the thread of a worker stands in `Worker::run`.
pub data Pc (T : Type 0) : Type 0 where
  top : Pc T  -- before it takes the lock at the head of the loop
  waiting : (asleep : Bool) → Pc T  -- in `cv.wait` or `cv.wait_until`
  running : T → Pc T  -- in the task, without the lock
  leaving : Pc T  -- out of the loop, without the lock
  gone : Pc T  -- `run` has returned

-- A `Worker`, with its thread.
pub record Worker (T : Type 0) : Type 0 where
  pub core : Bool
  pub worker_index : ℕ
  pub pc : Pc T

-- `objects` holds every worker made so far, and a pointer to a worker is its place there; workers
-- are freed only once their threads have been joined. `awaiting` counts the threads that sleep on
-- `wait_cv`.
pub record Executor (T : Type 0) : Type 0 where
  pub core_pool_size : ℕ
  pub max_pool_size : ℕ
  pub task_queue : List T
  pub workers : List ℕ
  pub dead_workers : List ℕ
  pub shut : Bool
  pub active_count : ℕ
  pub objects : List (Worker T)
  pub awaiting : ℕ

abbrev pub max_cached_threads : ℕ
max_cached_threads = 1024

module _ {ℓ} {A : Type ℓ} where
  abbrev pub is_empty : List A → Bool
  is_empty [] = true
  is_empty (x ∷ xs) = false

  abbrev pub back : List A → Option A
  back xs = get_elem? xs (length xs - 1)

  abbrev pub pop_back : List A → List A
  pop_back xs = take (length xs - 1) xs

module _ {T : Type 0} where
  unfoldable pub add_worker_locked : Bool → Executor T → Executor T
  add_worker_locked core e = record e {
    workers = e.workers ++ (length e.objects ∷ []);
    objects = e.objects ++ (record { core = core; worker_index = length e.workers; pc = top } ∷ []);
  }

  abbrev pub add_core_workers : ℕ → Executor T → Executor T
  add_core_workers ℕ.zero e = e
  add_core_workers (ℕ.suc n) e = add_core_workers n (add_worker_locked true e)

  -- The constructor.
  unfoldable pub make : ℕ → ℕ → Executor T
  unfolding add_worker_locked
  make core_pool_size max_pool_size = add_core_workers core_pool_size (record {
    core_pool_size = core_pool_size;
    max_pool_size = max_pool_size;
    task_queue = [];
    workers = [];
    dead_workers = [];
    shut = false;
    active_count = 0;
    objects = [];
    awaiting = 0;
  })

  unfoldable pub is_terminated_locked : Executor T → Bool
  is_terminated_locked e = e.shut && is_empty e.task_queue && is_empty e.workers

  -- `size_t idle_workers`
  unfoldable pub idle_workers : Executor T → ℕ
  idle_workers e = (length e.workers + 2 ^ 64 - e.active_count) % 2 ^ 64

  -- `insert_task_locked` up to `cv.notify_one()`.
  unfoldable pub insert_task_locked : T → Executor T → Executor T
  unfolding add_worker_locked idle_workers
  insert_task_locked task e =
      let e' = record e { task_queue = e.task_queue ++ (task ∷ []) } in
      if (idle_workers e == 0) && ltb (length e.workers) e.max_pool_size
      then add_worker_locked false e'
      else e'

  abbrev pub wake : Worker T → Worker T
  wake w = record w { pc = elim w.pc [ waiting asleep ↦ waiting false | other ↦ other ] }

  abbrev pub wake_all : List (Worker T) → List (Worker T)
  wake_all [] = []
  wake_all (w ∷ ws) = wake w ∷ wake_all ws

  unfoldable pub shutdown : Executor T → Executor T
  unfolding is_terminated_locked
  shutdown e =
      let e' = record e { shut = true } in
      if is_terminated_locked e'
      then record e' { awaiting = 0 }
      else record e' { objects = wake_all e.objects }

  abbrev pub is_shutdown : Executor T → Bool
  is_shutdown e = e.shut

  abbrev pub get_pool_size : Executor T → ℕ
  get_pool_size e = length e.workers

  abbrev pub get_active_count : Executor T → ℕ
  get_active_count e = e.active_count

  -- `submit` and `execute`, whose test of `shut` finds the state `e` and whose insertion the state
  -- `e'`; `none` where they throw `permission_denied`.
  unfoldable pub submit : T → Executor T → Executor T → Option (Executor T)
  unfolding insert_task_locked
  submit task e e' = if is_shutdown e then none else some (insert_task_locked task e')

  -- `await_termination` under the lock: it returns, or sleeps on `wait_cv`.
  unfoldable pub await_termination : Executor T → Executor T
  unfolding is_terminated_locked
  await_termination e = if is_terminated_locked e then e else record e { awaiting = e.awaiting + 1 }

  -- `is_terminated`: `main_lock` is not recursive, and taking it again is undefined.
  unfoldable pub is_terminated : (locked : Bool) → Executor T → Option Bool
  unfolding is_terminated_locked
  is_terminated locked e = if locked then none else some (is_terminated_locked e)

  -- `await_termination_until`, and `await_termination_for`: the first test, in the state `e`, and with
  -- the lock, in the state `e'`, the second one and the predicate of the wait.
  unfoldable pub await_termination_until : Executor T → Executor T → Option Bool
  unfolding is_terminated is_terminated_locked
  await_termination_until e e' = do
    over ← is_terminated false e
    if over || is_terminated_locked e' then some true else is_terminated true e'

  abbrev pub set_pc : ℕ → Worker T → Pc T → Executor T → Executor T
  set_pc self w p e = record e { objects = set e.objects self (record w { pc = p }) }

  -- `fetch_task_locked` where it does not wait: the front of the queue, or an empty pointer.
  unfoldable pub fetch_task : Executor T → Option T × Executor T
  fetch_task e = elim e.task_queue [
    | [] ↦ (none, e)
    | t ∷ q ↦ (some t, record e { task_queue = q })
  ]

  -- What `run` does with what it has fetched.
  unfoldable pub begin_task : ℕ → Worker T → Option T × Executor T → Option T × Executor T
  begin_task self w (none, e) = (none, set_pc self w leaving e)
  begin_task self w (some t, e) = (
    some t,
    set_pc self w (running t) (record e { active_count = (e.active_count + 1) % 2 ^ 64 }),
  )

  -- A worker with the lock, in the wait or before it: it waits on while the predicate is false.
  unfoldable pub resume : ℕ → Worker T → Executor T → Option T × Executor T
  unfolding begin_task fetch_task
  resume self w e =
      if is_empty e.task_queue && not e.shut
      then (none, set_pc self w (waiting true) e)
      else begin_task self w (fetch_task e)

  -- The head of the loop.
  unfoldable pub loop_head : ℕ → Worker T → Executor T → Option T × Executor T
  unfolding resume
  loop_head self w e =
      if e.shut && is_empty e.task_queue then (none, set_pc self w leaving e) else resume self w e

  -- The deadline of a worker passes.
  unfoldable pub expire : ℕ → Worker T → Executor T → Option T × Executor T
  unfolding begin_task fetch_task
  expire self w e = begin_task self w (fetch_task e)

  -- `reap_dead_workers_locked`: every thread on the list has left the lock for good, and is joined.
  unfoldable pub reap_dead_workers_locked : Executor T → Executor T
  reap_dead_workers_locked e = record e { dead_workers = [] }

  -- After the task.
  unfoldable pub finish : ℕ → Worker T → Executor T → Executor T
  unfolding reap_dead_workers_locked
  finish self w e =
      let e' = reap_dead_workers_locked e in
      set_pc self w top (record e' { active_count = (e'.active_count + 2 ^ 64 - 1) % 2 ^ 64 })

  -- An index out of range is a fault.
  unfoldable pub remove_self_locked : ℕ → Executor T → Option (Executor T)
  remove_self_locked self e = do
    me ← get_elem? e.objects self
    mine ← get_elem? e.workers me.worker_index
    last ← back e.workers
    let swapped = set (set e.workers me.worker_index last) (length e.workers - 1) mine
    other ← get_elem? swapped me.worker_index
    moved ← get_elem? e.objects other
    dead ← back swapped
    some (record e {
      objects = set e.objects other (record moved { worker_index = me.worker_index });
      dead_workers = e.dead_workers ++ (dead ∷ []);
      workers = pop_back swapped;
    })

  -- The end of `run`: the last worker out of a terminated executor notifies all that wait for it.
  unfoldable pub exit : ℕ → Executor T → Option (Executor T)
  unfolding remove_self_locked is_terminated_locked
  exit self e = do
    e' ← remove_self_locked self e
    w ← get_elem? e'.objects self
    some (
        set_pc self w gone
          (record e' { awaiting = if is_terminated_locked e' then 0 else e'.awaiting }))

  -- The timeouts of the three do not appear.
  abbrev pub make_single_thread_executor : Executor T
  make_single_thread_executor = make 1 1

  abbrev pub make_fixed_thread_pool : ℕ → Executor T
  make_fixed_thread_pool num_threads = make num_threads num_threads

  abbrev pub make_cached_thread_pool : Executor T
  make_cached_thread_pool = make 1 max_cached_threads
