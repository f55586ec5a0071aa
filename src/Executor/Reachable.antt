-- ===== src/Executor/Reachable.antt =====
-- Every reachable state of a `ThreadPoolExecutor` with its callers satisfies the invariant.
use mathlib.Core.List.{append-nil, append_assoc}
use Prim.Native.Nat.{max}
use concurrency_cpp.Base.{
  ℕ, ◌+◌, ◌^◌, ◌<◌, ◌≡◌, refl, ◌∙◌, ap, Option, List, [], ◌∷◌, ◌++◌, some, true, false, sym, arith,
  length, get_elem?, length-append,
}
use concurrency_cpp.Base.Threads.{total, total-set, total-append}
use concurrency_cpp.Executor.{
  top, waiting, running, leaving, Worker, Executor, insert_task_locked, finish, shutdown,
  await_termination, make,
}
use concurrency_cpp.Executor.Fetching.{
  Came, sleep, quit, take, loop_head-Came, resume-Came, expire-Came,
}
use concurrency_cpp.Executor.Making.{make-Fresh}
use concurrency_cpp.Executor.Counts.{Notified-total, wake_all-same}
use concurrency_cpp.Executor.Invariant.{
  Sound, Came-Sound, finish-Sound, exit-Sound, insert-Sound, insert_task_locked-queue,
  shutdown-Sound, await-Sound, make-Sound,
}
use concurrency_cpp.Executor.System.{
  System, sleeps, ready, runs, carries, to_list, fetched, Step, pass_check, insert, shut_down,
  await, worker_top, worker_resume, worker_expire, worker_finish, worker_exit, Reach, start, later,
}

module _ {T : Type 0} where
  -- The tasks: inserted, then queued, then started, in one order; a task that has started has
  -- finished, or a worker runs it.
  pub record Tasks (e : Executor T) (inserted started finished : List T) : Type 0 where
    pub order : inserted ≡ started ++ e.task_queue
    pub tally : length started ≡ length finished + total runs e.objects
    pub weighed : (v : T → ℕ) → total v started ≡ total v finished + total (carries v) e.objects

  pub record Inv (s : System T) : Type 0 where
    pub sound : Sound s.exec
    pub tasks : Tasks s.exec s.inserted s.started s.finished

  Came-Tasks :
      (e : Executor T) (self : ℕ) (w : Worker T) {r : Option T × Executor T} {i st f : List T}
      → get_elem? e.objects self ≡ some w
      → ready w + sleeps w ≡ 1
      → Came self w e r
      → Tasks e i st f
      → Tasks r.1 i (st ++ to_list r.0) f
  unfolding total
  Came-Tasks e self w {i} {st} {f} at here (sleep h s) k = record {
    order = k.order ∙ ap (λ u. u ++ e.task_queue) (sym (append-nil st));
    tally = ground (
      arith,
      k.tally,
      length-append st [],
      total-set runs e.objects self (record w { pc = waiting true }) at,
    );
    weighed = λ v. ground (
      arith,
      k.weighed v,
      total-append v st [],
      total-set (carries v) e.objects self (record w { pc = waiting true }) at,
    );
  }
  Came-Tasks e self w {i} {st} {f} at here (quit h why) k = record {
    order = k.order ∙ ap (λ u. u ++ e.task_queue) (sym (append-nil st));
    tally = ground (
      arith,
      k.tally,
      length-append st [],
      total-set runs e.objects self (record w { pc = leaving }) at,
    );
    weighed = λ v. ground (
      arith,
      k.weighed v,
      total-append v st [],
      total-set (carries v) e.objects self (record w { pc = leaving }) at,
    );
  }
  Came-Tasks e self w {i} {st} {f} at here (take t q h) k = record {
    order = k.order ∙ ap (λ u. st ++ u) h ∙ sym (append_assoc st (t ∷ []) q);
    tally = ground (
      arith,
      k.tally,
      length-append st (t ∷ []),
      total-set runs e.objects self (record w { pc = running t }) at,
    );
    weighed = λ v. ground (
      arith,
      k.weighed v,
      total-append v st (t ∷ []),
      total-set (carries v) e.objects self (record w { pc = running t }) at,
    );
  }

  finish-Tasks :
      (e : Executor T) (self : ℕ) (w : Worker T) (t : T) {i st f : List T}
      → get_elem? e.objects self ≡ some w
      → w.pc ≡ running t
      → Tasks e i st f
      → Tasks (finish self w e) i st (t ∷ f)
  unfolding finish total
  finish-Tasks e self w t at h k = record {
    order = k.order;
    tally = ground (arith, k.tally, total-set runs e.objects self (record w { pc = top }) at);
    weighed = λ v.
        ground
          (arith, k.weighed v, total-set (carries v) e.objects self (record w { pc = top }) at);
  }

  Came-Inv :
      (s : System T) (self : ℕ) (w : Worker T) {r : Option T × Executor T}
      → get_elem? s.exec.objects self ≡ some w
      → ready w + sleeps w ≡ 1
      → Came self w s.exec r
      → Inv s
      → Inv (fetched s r)
  Came-Inv s self w at here c inv = record {
    sound = Came-Sound s.exec self w at c here inv.sound;
    tasks = Came-Tasks s.exec self w at here c inv.tasks;
  }

  insert_task_locked-runs :
      (t : T) (e : Executor T) → total runs (insert_task_locked t e).objects ≡ total runs e.objects
  unfolding insert_task_locked total
  insert_task_locked-runs t e = ground (
    arith,
    total-append runs e.objects
        (record { core = false; worker_index = length e.workers; pc = top } ∷ []),
  )

  insert_task_locked-carries :
      (v : T → ℕ) (t : T) (e : Executor T)
      → total (carries v) (insert_task_locked t e).objects ≡ total (carries v) e.objects
  unfolding insert_task_locked total
  insert_task_locked-carries v t e = ground (
    arith,
    total-append (carries v) e.objects
        (record { core = false; worker_index = length e.workers; pc = top } ∷ []),
  )

  shutdown-carries :
      (v : T → ℕ) (e : Executor T)
      → total (carries v) (shutdown e).objects ≡ total (carries v) e.objects
  unfolding shutdown
  shutdown-carries v e = ground (arith, wake_all-same (carries v) (λ w. ground arith) e.objects)

  -- Where no worker runs a task, none carries its weight.
  pub carries-idle :
      (v : T → ℕ) (ws : List (Worker T)) → total runs ws ≡ 0 → total (carries v) ws ≡ 0
  unfolding total
  carries-idle v [] h = refl
  carries-idle v (w ∷ ws) h = ground (arith, h, carries-idle v ws (omega (arith, h)))

  shutdown-keeps :
      (e : Executor T)
      → ((shutdown e).task_queue ≡ e.task_queue)
        × (total runs (shutdown e).objects ≡ total runs e.objects)
  unfolding shutdown
  shutdown-keeps e =
      (ground arith, ground (arith, wake_all-same runs (λ w. ground arith) e.objects))

  await-keeps :
      (e : Executor T)
      → ((await_termination e).task_queue ≡ e.task_queue)
        × ((await_termination e).objects ≡ e.objects)
  unfolding await_termination
  await-keeps e = (ground arith, ground arith)

  pub Step-Inv : {s s' : System T} → Step s s' → Inv s → Inv s'
  Step-Inv {s} (pass_check t not_shut) inv = record {
    sound = inv.sound;
    tasks = record {
      order = inv.tasks.order;
      tally = inv.tasks.tally;
      weighed = inv.tasks.weighed;
    };
  }
  Step-Inv {s} (insert pre t post {ws} q n) inv = record {
    sound = insert-Sound t s.exec n inv.sound;
    tasks = record {
      order =
          ap (λ i. i ++ (t ∷ [])) inv.tasks.order
          ∙ append_assoc s.started s.exec.task_queue (t ∷ [])
          ∙ ap (λ u. s.started ++ u) (sym (insert_task_locked-queue t s.exec));
      tally = omega (
        arith,
        inv.tasks.tally,
        Notified-total runs (λ w. ground arith) n,
        insert_task_locked-runs t s.exec,
      );
      weighed = λ v. omega (
        arith,
        inv.tasks.weighed v,
        Notified-total (carries v) (λ w. ground arith) n,
        insert_task_locked-carries v t s.exec,
      );
    };
  }
  Step-Inv {s} shut_down inv =
      let (queue, same) = shutdown-keeps s.exec in
      record {
        sound = shutdown-Sound s.exec inv.sound;
        tasks = record {
          order = inv.tasks.order ∙ ap (λ u. s.started ++ u) (sym queue);
          tally = omega (arith, inv.tasks.tally, same);
          weighed = λ v. omega (arith, inv.tasks.weighed v, shutdown-carries v s.exec);
        };
      }
  Step-Inv {s} await inv =
      let (queue, same) = await-keeps s.exec in
      record {
        sound = await-Sound s.exec inv.sound;
        tasks = record {
          order = inv.tasks.order ∙ ap (λ u. s.started ++ u) (sym queue);
          tally = inv.tasks.tally ∙ ap (λ ws. length s.finished + total runs ws) (sym same);
          weighed = λ v.
              inv.tasks.weighed v ∙ ap (λ ws. total v s.finished + total (carries v) ws) (sym same);
        };
      }
  Step-Inv {s} (worker_top self {w} at h) inv =
      Came-Inv s self w at (ground arith) (loop_head-Came self w s.exec) inv
  Step-Inv {s} (worker_resume self {w} {asleep} at h) inv =
      Came-Inv s self w at (ground arith) (resume-Came self w s.exec) inv
  Step-Inv {s} (worker_expire self {w} {asleep} at h c) inv =
      Came-Inv s self w at (ground arith) (expire-Came self w s.exec c) inv
  Step-Inv {s} (worker_finish self {w} {t} at h) inv = record {
    sound = finish-Sound s.exec self w at t h inv.sound;
    tasks = finish-Tasks s.exec self w t at h inv.tasks;
  }
  Step-Inv {s} (worker_exit self {w} {e} at h q) inv =
      let (x, sound') = exit-Sound s.exec self w at h q inv.sound in
      record {
        sound = sound';
        tasks = record {
          order = inv.tasks.order ∙ ap (λ u. s.started ++ u) (sym x.queue);
          tally = omega (arith, inv.tasks.tally, x.runs_total);
          weighed = λ v. omega (arith, inv.tasks.weighed v, x.carried_total v);
        };
      }

  pub Reach-Inv : {c m : ℕ} {s : System T} → max c m < 2 ^ 64 → Reach c m s → Inv s
  Reach-Inv {c} {m} fits start =
      let f = make-Fresh {T = T} c m in
      record {
        sound = make-Sound c m fits;
        tasks = record {
          order = sym f.no_task.0;
          tally = omega (arith, f.none_runs.1);
          weighed = λ v. omega (arith, carries-idle v (make c m).objects f.none_runs.1);
        };
      }
  Reach-Inv fits (later r st) = Step-Inv st (Reach-Inv fits r)
