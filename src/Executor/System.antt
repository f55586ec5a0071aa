-- ===== src/Executor/System.antt =====
-- The threads of a `ThreadPoolExecutor` and its callers, interleaved.
use concurrency_cpp.Base.{
  ℕ, ◌+◌, ◌≡◌, Bool, true, false, Option, none, some, List, [], ◌∷◌, ◌++◌, get_elem?, set,
}
use concurrency_cpp.Base.Threads.{total}
use concurrency_cpp.Executor.{
  top, waiting, running, leaving, gone, Worker, Executor, is_shutdown, make, insert_task_locked,
  wake, shutdown, await_termination, loop_head, resume, expire, finish, exit,
}

-- `pending`: tasks whose `submit` or `execute` has found the executor not shut and has not inserted
-- them yet. The three histories say which tasks were inserted, started and finished so far, the
-- first two in that order.
pub record System (T : Type 0) : Type 0 where
  pub exec : Executor T
  pub pending : List T
  pub inserted : List T
  pub started : List T
  pub finished : List T

-- Weights of a worker.
module _ {T : Type 0} where
  abbrev pub sleeps : Worker T → ℕ
  sleeps w = elim w.pc [ waiting asleep ↦ (elim asleep [ true ↦ 1 | false ↦ 0 ]) | _ ↦ 0 ]

  -- Awake, and about to look at the queue.
  abbrev pub ready : Worker T → ℕ
  ready w = elim w.pc [ top ↦ 1 | waiting asleep ↦ (elim asleep [ true ↦ 0 | false ↦ 1 ]) | _ ↦ 0 ]

  abbrev pub runs : Worker T → ℕ
  runs w = elim w.pc [ running t ↦ 1 | _ ↦ 0 ]

  -- The weight of the task that it runs.
  abbrev pub carries : (T → ℕ) → Worker T → ℕ
  carries v w = elim w.pc [ running t ↦ v t | _ ↦ 0 ]

  abbrev pub alive : Worker T → ℕ
  alive w = elim w.pc [ gone ↦ 0 | _ ↦ 1 ]

  abbrev pub in_loop : Worker T → ℕ
  in_loop w = ready w + sleeps w + runs w

  -- A core worker in its loop.
  abbrev pub core_in_loop : Worker T → ℕ
  core_in_loop w = elim w.core [ true ↦ in_loop w | false ↦ 0 ]

  abbrev pub to_list : Option T → List T
  to_list none = []
  to_list (some t) = t ∷ []

  -- `cv.notify_one()`: one of the sleepers wakes, if there is any.
  pub data Notified (ws : List (Worker T)) : List (Worker T) → Type 0 where
    wakes :
        (j : ℕ) {w : Worker T}
        → get_elem? ws j ≡ some w
        → sleeps w ≡ 1
        → Notified ws (set ws j (wake w))
    nobody : total sleeps ws ≡ 0 → Notified ws ws

  -- A worker has come back from the lock, with or without a task.
  abbrev pub fetched : System T → Option T × Executor T → System T
  fetched s r = record s { exec = r.1; started = s.started ++ to_list r.0 }

  pub data Step (s : System T) : System T → Type 0 where
    pass_check :
        (t : T) → is_shutdown s.exec ≡ false → Step s (record s { pending = t ∷ s.pending })
    insert :
        (pre : List T) (t : T) (post : List T) {ws : List (Worker T)}
        → s.pending ≡ pre ++ (t ∷ post)
        → Notified (insert_task_locked t s.exec).objects ws
        → Step s (record s {
          exec = record (insert_task_locked t s.exec) { objects = ws };
          pending = pre ++ post;
          inserted = s.inserted ++ (t ∷ []);
        })
    shut_down : Step s (record s { exec = shutdown s.exec })
    await : Step s (record s { exec = await_termination s.exec })
    worker_top :
        (self : ℕ) {w : Worker T}
        → get_elem? s.exec.objects self ≡ some w
        → w.pc ≡ top
        → Step s (fetched s (loop_head self w s.exec))
    worker_resume :
        (self : ℕ) {w : Worker T} {asleep : Bool}
        → get_elem? s.exec.objects self ≡ some w
        → w.pc ≡ waiting asleep
        → Step s (fetched s (resume self w s.exec))
    worker_expire :
        (self : ℕ) {w : Worker T} {asleep : Bool}
        → get_elem? s.exec.objects self ≡ some w
        → w.pc ≡ waiting asleep
        → w.core ≡ false
        → Step s (fetched s (expire self w s.exec))
    worker_finish :
        (self : ℕ) {w : Worker T} {t : T}
        → get_elem? s.exec.objects self ≡ some w
        → w.pc ≡ running t
        → Step s (record s { exec = finish self w s.exec; finished = t ∷ s.finished })
    worker_exit :
        (self : ℕ) {w : Worker T} {e : Executor T}
        → get_elem? s.exec.objects self ≡ some w
        → w.pc ≡ leaving
        → exit self s.exec ≡ some e
        → Step s (record s { exec = e })

  abbrev pub init : ℕ → ℕ → System T
  init core_pool_size max_pool_size = record {
    exec = make core_pool_size max_pool_size;
    pending = [];
    inserted = [];
    started = [];
    finished = [];
  }

  pub data Reach (core_pool_size max_pool_size : ℕ) : System T → Type 0 where
    start : Reach core_pool_size max_pool_size (init core_pool_size max_pool_size)
    later :
        {s t : System T}
        → Reach core_pool_size max_pool_size s
        → Step s t
        → Reach core_pool_size max_pool_size t

  -- From one state on.
  pub data Run (s : System T) : System T → Type 0 where
    stay : Run s s
    step : {t u : System T} → Run s t → Step t u → Run s u
