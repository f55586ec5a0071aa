-- ===== src/Executor/Stranding.antt =====
-- A worker that has left its loop still counts as idle until it exits, so that a task inserted
-- meanwhile gets no worker.
use Prim.Native.Nat.{max}
use concurrency_cpp.Base.{
  ℕ, ◌+◌, ◌^◌, ◌<◌, ◌≡◌, refl, sym, ◌∙◌, ap, true, false, some, List, [], ◌∷◌, ◌++◌, arith, length,
  length-append, get_elem?,
}
use concurrency_cpp.Base.Threads.{total, total-add, le-total}
use concurrency_cpp.Executor.{
  Worker, Executor, is_terminated_locked, insert_task_locked, shutdown, await_termination,
}
use concurrency_cpp.Executor.Invariant.{exit-Sound}
use concurrency_cpp.Executor.Promises.{idle_workers_exact}
use concurrency_cpp.Executor.Refusal.{after_shutdown}
use concurrency_cpp.Executor.Counts.{wake_all-same}
use concurrency_cpp.Executor.Reachable.{Inv, Step-Inv, Reach-Inv}
use concurrency_cpp.Executor.System.{
  System, sleeps, ready, runs, in_loop, nobody, Step, pass_check, insert, shut_down, await,
  worker_top, worker_resume, worker_expire, worker_finish, worker_exit, Reach, Run, stay, step,
}

module _ {T : Type 0} where
  -- After `shutdown`, with no caller about to insert a task and no worker in its loop, a task is in
  -- the queue.
  pub record Stranded (s : System T) : Type 0 where
    pub inv : Inv s
    pub shut : s.exec.shut ≡ true
    pub nobody_submits : s.pending ≡ []
    pub nobody_works : total in_loop s.exec.objects ≡ 0
    pub queued : 0 < length s.exec.task_queue

  pub shutdown-in_loop :
      (e : Executor T)
      → (total in_loop (shutdown e).objects ≡ total in_loop e.objects)
        × ((shutdown e).task_queue ≡ e.task_queue)
        × ((shutdown e).shut ≡ true)
  unfolding shutdown
  shutdown-in_loop e = (
    ground (arith, wake_all-same in_loop (λ w. ground arith) e.objects),
    ground arith,
    ground arith,
  )

  pub await-objects :
      (e : Executor T)
      → ((await_termination e).objects ≡ e.objects)
        × ((await_termination e).task_queue ≡ e.task_queue)
        × ((await_termination e).shut ≡ e.shut)
  unfolding await_termination
  await-objects e = (ground arith, ground arith, ground arith)

  nothing_moves :
      (s : System T) (self : ℕ) {w : Worker T}
      → Stranded s
      → get_elem? s.exec.objects self ≡ some w
      → in_loop w ≡ 0
  nothing_moves s self x at = omega (arith, le-total in_loop s.exec.objects self at, x.nobody_works)

  pub in_loop-parts :
      (ws : List (Worker T)) → total in_loop ws ≡ total ready ws + total sleeps ws + total runs ws
  in_loop-parts ws =
      omega (arith, total-add (λ w. ready w + sleeps w) runs ws, total-add ready sleeps ws)

  -- The same tasks were started, and the same ones wait.
  abbrev Same : System T → System T → Type 0
  Same s u = (u.started ≡ s.started) × (u.exec.task_queue ≡ s.exec.task_queue)

  -- A step of a stranded executor starts no task and leaves it stranded.
  Step-Stranded : {s u : System T} → Step s u → Stranded s → Stranded u × Same s u
  Step-Stranded (pass_check t not_shut) x = absurd (ground (arith, x.shut, not_shut))
  Step-Stranded (insert pre t post q n) x =
      absurd (omega (arith, ap length (sym x.nobody_submits ∙ q), length-append pre (t ∷ post)))
  Step-Stranded {s} shut_down x =
      let (same, queue, shut) = shutdown-in_loop s.exec in
      (
        record {
          inv = Step-Inv shut_down x.inv;
          shut = shut;
          nobody_submits = x.nobody_submits;
          nobody_works = same ∙ x.nobody_works;
          queued = omega (arith, x.queued, ap length queue);
        },
        (refl, queue),
      )
  Step-Stranded {s} await x =
      let (same, queue, shut) = await-objects s.exec in
      (
        record {
          inv = Step-Inv await x.inv;
          shut = shut ∙ x.shut;
          nobody_submits = x.nobody_submits;
          nobody_works = ap (total in_loop) same ∙ x.nobody_works;
          queued = omega (arith, x.queued, ap length queue);
        },
        (refl, queue),
      )
  Step-Stranded {s} (worker_top self at h) x = absurd (ground (arith, nothing_moves s self x at))
  Step-Stranded {s} (worker_resume self {w} {asleep} at h) x =
      absurd (ground (arith, nothing_moves s self x at))
  Step-Stranded {s} (worker_expire self {w} {asleep} at h c) x =
      absurd (ground (arith, nothing_moves s self x at))
  Step-Stranded {s} (worker_finish self at h) x = absurd (ground (arith, nothing_moves s self x at))
  Step-Stranded {s} (worker_exit self {w} {e} at h q) x =
      let y = (exit-Sound s.exec self w at h q x.inv.sound).0 in
      (
        record {
          inv = Step-Inv (worker_exit self at h q) x.inv;
          shut = y.shut ∙ x.shut;
          nobody_submits = x.nobody_submits;
          nobody_works = omega (
            arith,
            in_loop-parts s.exec.objects,
            in_loop-parts e.objects,
            x.nobody_works,
            y.ready_total,
            y.sleeps_total,
            y.runs_total,
          );
          queued = omega (arith, x.queued, ap length y.queue);
        },
        (refl, y.queue),
      )

  Run-Stranded : {s u : System T} → Run s u → Stranded s → Stranded u × Same s u
  Run-Stranded stay x = (x, (refl, refl))
  Run-Stranded (step run st) x =
      let (x', (started, queue)) = Run-Stranded run x in
      let (x'', (started', queue')) = Step-Stranded st x' in
      (x'', (started' ∙ started, queue' ∙ queue))

  queued-open : (e : Executor T) → 0 < length e.task_queue → is_terminated_locked e ≡ false
  unfolding is_terminated_locked
  queued-open e h = ground arith

  -- Where every worker left has left its loop, and there is one, a task that is inserted stays in
  -- the queue: no worker is added, and no worker is woken.
  insertion_adds_none :
      {c m : ℕ} {s : System T}
      → max c m < 2 ^ 64
      → Reach c m s
      → total in_loop s.exec.objects ≡ 0
      → 0 < length s.exec.workers
      → (t : T)
      → ((insert_task_locked t s.exec).objects ≡ s.exec.objects)
        × ((insert_task_locked t s.exec).task_queue ≡ s.exec.task_queue ++ (t ∷ []))
        × ((insert_task_locked t s.exec).shut ≡ s.exec.shut)
  unfolding insert_task_locked
  insertion_adds_none {s = s} fits r idle some_left t =
      let none_run : total runs s.exec.objects ≡ 0 =
        omega (arith, in_loop-parts s.exec.objects, idle) in
      let (pool, bound, active, exact) = idle_workers_exact fits r in
      (ground arith, ground arith, ground arith)

  -- The only caller left inserts its task.
  abbrev pub inserted_late : T → System T → System T
  inserted_late t s = record s {
    exec = insert_task_locked t s.exec;
    pending = [];
    inserted = s.inserted ++ (t ∷ []);
  }

  -- After a call of `shutdown` on an executor whose sizes fit 64 bits, the only caller that has passed the
  -- test of `shut` and not inserted its task inserts it when every worker left has left its loop, and
  -- at least one has not removed itself yet. Then, in whatever way it goes on, no further task is started, the task stays
  -- the last one in the queue, and the executor is never terminated.
  pub left_for_ever :
      {c m : ℕ} {r s u : System T} (t : T)
      → max c m < 2 ^ 64
      → Reach c m r
      → Run (record r { exec = shutdown r.exec }) s
      → s.pending ≡ t ∷ []
      → total in_loop s.exec.objects ≡ 0
      → 0 < length s.exec.workers
      → Run (inserted_late t s) u
      → (is_terminated_locked u.exec ≡ false)
        × (u.started ≡ s.started)
        × (u.exec.task_queue ≡ s.exec.task_queue ++ (t ∷ []))
  left_for_ever {s = s} {u} t fits reach since only idle some_left run =
      let (r, shut) = after_shutdown fits reach since in
      let (objects, queue, same) = insertion_adds_none fits r idle some_left t in
      let asleep : total sleeps s.exec.objects ≡ 0 =
        omega (arith, in_loop-parts s.exec.objects, idle) in
      let inserts : Step s (inserted_late t s) =
        insert [] t [] only (nobody (ap (total sleeps) objects ∙ asleep)) in
      let x : Stranded (inserted_late t s) = record {
        inv = Step-Inv inserts (Reach-Inv fits r);
        shut = same ∙ shut;
        nobody_submits = refl;
        nobody_works = ap (total in_loop) objects ∙ idle;
        queued = omega (arith, ap length queue, length-append s.exec.task_queue (t ∷ []));
      } in
      let (y, (started, waiting_still)) = Run-Stranded run x in
      (queued-open u.exec y.queued, started, waiting_still ∙ queue)
