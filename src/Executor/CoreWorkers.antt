-- ===== src/Executor/CoreWorkers.antt =====
-- The core workers of a `ThreadPoolExecutor` stay in their loops until it is shut down.
use Prim.Native.Nat.{max}
use concurrency_cpp.Base.{
  ℕ, suc, zero, ◌+◌, ◌^◌, ◌≤◌, ◌<◌, ◌≡◌, refl, sym, ◌∙◌, ap, true, false, some, Option, List, [],
  ◌∷◌, arith, length, get_elem?,
}
use concurrency_cpp.Base.Threads.{
  total, total-set, total-append, total-add, contributor, total_mono,
}
use concurrency_cpp.Executor.{
  leaving, top, running, waiting, Worker, Executor, add_worker_locked, add_core_workers, make,
  insert_task_locked, shutdown, await_termination, finish,
}
use concurrency_cpp.Executor.Fetching.{
  Came, sleep, quit, take, loop_head-Came, resume-Came, expire-Came,
}
use concurrency_cpp.Executor.Invariant.{exit-Sound}
use concurrency_cpp.Executor.Counts.{Notified-total}
use concurrency_cpp.Executor.Reachable.{Reach-Inv}
use concurrency_cpp.Executor.System.{
  System, sleeps, ready, runs, alive, core_in_loop, Step, pass_check, insert, shut_down, await,
  worker_top, worker_resume, worker_expire, worker_finish, worker_exit, Reach, start, later,
}

module _ {T : Type 0} where
  -- The sizes are constant, and until `shutdown` that many core workers are in their loops.
  record Staffed (c m : ℕ) (e : Executor T) : Type 0 where
    core : (e.core_pool_size ≡ c) × (e.max_pool_size ≡ m)
    staff : e.shut ≡ false → total core_in_loop e.objects ≡ c

  module _ {c m : ℕ} (e : Executor T) (self : ℕ) (w : Worker T)
      (at : get_elem? e.objects self ≡ some w) where
    Came-Staffed :
        {r : Option T × Executor T}
        → ready w + sleeps w ≡ 1
        → Came self w e r
        → Staffed c m e
        → Staffed c m r.1
    Came-Staffed here (sleep h s) k = record {
      core = k.core;
      staff = λ q. ground (
        arith,
        k.staff q,
        total-set core_in_loop e.objects self (record w { pc = waiting true }) at,
      );
    }
    Came-Staffed here (quit h why) k = record {
      core = k.core;
      staff = λ q. ground (
        arith,
        k.staff q,
        why,
        q,
        total-set core_in_loop e.objects self (record w { pc = leaving }) at,
      );
    }
    Came-Staffed here (take t q h) k = record {
      core = k.core;
      staff = λ q. ground (
        arith,
        k.staff q,
        total-set core_in_loop e.objects self (record w { pc = running t }) at,
      );
    }

    finish-Staffed : (t : T) → w.pc ≡ running t → Staffed c m e → Staffed c m (finish self w e)
    unfolding finish
    finish-Staffed t h k = record {
      core = k.core;
      staff = λ q.
          ground
            (arith, k.staff q, total-set core_in_loop e.objects self (record w { pc = top }) at);
    }

  insert_task_locked-core :
      (t : T) (e : Executor T)
      → (total core_in_loop (insert_task_locked t e).objects ≡ total core_in_loop e.objects)
        × ((insert_task_locked t e).core_pool_size ≡ e.core_pool_size)
        × ((insert_task_locked t e).max_pool_size ≡ e.max_pool_size)
        × ((insert_task_locked t e).shut ≡ e.shut)
  unfolding insert_task_locked total
  insert_task_locked-core t e = (
    ground (
      arith,
      total-append core_in_loop e.objects
          (record { core = false; worker_index = length e.workers; pc = top } ∷ []),
    ),
    ground arith,
    ground arith,
    ground arith,
  )

  shutdown-core :
      (e : Executor T)
      → ((shutdown e).core_pool_size ≡ e.core_pool_size)
        × ((shutdown e).max_pool_size ≡ e.max_pool_size)
        × ((shutdown e).shut ≡ true)
  unfolding shutdown
  shutdown-core e = (ground arith, ground arith, ground arith)

  await-core :
      (e : Executor T)
      → ((await_termination e).core_pool_size ≡ e.core_pool_size)
        × ((await_termination e).max_pool_size ≡ e.max_pool_size)
        × ((await_termination e).objects ≡ e.objects)
        × ((await_termination e).shut ≡ e.shut)
  unfolding await_termination
  await-core e = (ground arith, ground arith, ground arith, ground arith)

  module _ {c m : ℕ} (fits : max c m < 2 ^ 64) where
    Step-Staffed :
        {s u : System T} → Reach c m s → Step s u → Staffed c m s.exec → Staffed c m u.exec
    Step-Staffed r (pass_check t not_shut) k = k
    Step-Staffed {s} r (insert pre t post q n) k =
        let (same, size, most, shut) = insert_task_locked-core t s.exec in
        record {
          core = (size ∙ k.core.0, most ∙ k.core.1);
          staff = λ h.
              Notified-total core_in_loop (λ w. ground arith) n ∙ same ∙ k.staff (sym shut ∙ h);
        }
    Step-Staffed {s} r shut_down k =
        let (size, most, shut) = shutdown-core s.exec in
        record {
          core = (size ∙ k.core.0, most ∙ k.core.1);
          staff = λ h. absurd (ground (arith, h, shut));
        }
    Step-Staffed {s} r await k =
        let (size, most, same, shut) = await-core s.exec in
        record {
          core = (size ∙ k.core.0, most ∙ k.core.1);
          staff = λ h. ap (total core_in_loop) same ∙ k.staff (sym shut ∙ h);
        }
    Step-Staffed {s} r (worker_top self {w} at h) k =
        Came-Staffed s.exec self w at (ground arith) (loop_head-Came self w s.exec) k
    Step-Staffed {s} r (worker_resume self {w} {asleep} at h) k =
        Came-Staffed s.exec self w at (ground arith) (resume-Came self w s.exec) k
    Step-Staffed {s} r (worker_expire self {w} {asleep} at h timed) k =
        Came-Staffed s.exec self w at (ground arith) (expire-Came self w s.exec timed) k
    Step-Staffed {s} r (worker_finish self {w} {t} at h) k = finish-Staffed s.exec self w at t h k
    Step-Staffed {s} r (worker_exit self {w} at h q) k =
        let x = (exit-Sound s.exec self w at h q (Reach-Inv fits r).sound).0 in
        record {
          core = (x.sizes.0 ∙ k.core.0, x.sizes.1 ∙ k.core.1);
          staff = λ h'. x.core_total ∙ k.staff (sym x.shut ∙ h');
        }

  add_core_workers-core :
      (n : ℕ) (e : Executor T)
      → (total core_in_loop (add_core_workers n e).objects ≡ n + total core_in_loop e.objects)
        × ((add_core_workers n e).core_pool_size ≡ e.core_pool_size)
        × ((add_core_workers n e).max_pool_size ≡ e.max_pool_size)
  unfolding add_worker_locked total
  add_core_workers-core zero e = (omega arith, refl, refl)
  add_core_workers-core (suc n) e =
      let (more, same, same') = add_core_workers-core n (add_worker_locked true e) in
      (
        omega (
          arith,
          more,
          total-append core_in_loop e.objects
              (record { core = true; worker_index = length e.workers; pc = top } ∷ []),
        ),
        same,
        same',
      )

  make-Staffed : (c m : ℕ) → Staffed c m (make {T = T} c m)
  unfolding make total
  make-Staffed c m =
      let (all, same, same') = add_core_workers-core c _ in
      record { core = (same, same'); staff = λ q. omega (arith, all) }

  Reach-Staffed : {c m : ℕ} → max c m < 2 ^ 64 → {s : System T} → Reach c m s → Staffed c m s.exec
  Reach-Staffed {c} {m} fits start = make-Staffed c m
  Reach-Staffed fits (later r st) = Step-Staffed fits r st (Reach-Staffed fits r)

  core_in_loop-parts :
      (ws : List (Worker T))
      → total core_in_loop ws ≤ total (λ v. ready v + runs v) ws + total sleeps ws
  core_in_loop-parts ws = omega (
    arith,
    total_mono core_in_loop (λ v. (ready v + runs v) + sleeps v) (λ v. ground arith) ws,
    total-add (λ v. ready v + runs v) sleeps ws,
  )

  module _ {c m : ℕ} {s : System T} (fits : max c m < 2 ^ 64) where
    -- In every reachable state of an executor that was not shut down, made with sizes that fit 64
    -- bits, as many core workers are in their loops as the first size says.
    pub core_workers_stay :
        Reach c m s → s.exec.shut ≡ false → total core_in_loop s.exec.objects ≡ c
    core_workers_stay r = (Reach-Staffed fits r).staff

    -- In every reachable state of an executor with a core worker that was not shut down, whose sizes
    -- fit 64 bits, a task in the queue finds a worker that is about to look at the queue, or that
    -- runs a task and will look at the queue after it.
    pub queued_task_is_served :
        Reach c m s
        → s.exec.shut ≡ false
        → 0 < c
        → 0 < length s.exec.task_queue
        → (j : ℕ) × (v : Worker T) × (get_elem? s.exec.objects j ≡ some v) × (0 < ready v + runs v)
    queued_task_is_served r not_shut some_core queued =
        contributor (λ v. ready v + runs v) s.exec.objects
          (ground (
            arith,
            (Reach-Inv fits r).sound.covered.awake,
            core_workers_stay r not_shut,
            core_in_loop-parts s.exec.objects,
            total-add ready runs s.exec.objects,
            some_core,
            queued,
          ))

  -- In every reachable state of a fixed thread pool of `n` threads that was not shut down, where
  -- `n` fits 64 bits, `workers` has `n` entries.
  pub fixed_pool_size :
      {n : ℕ} {s : System T}
      → n < 2 ^ 64
      → Reach n n s
      → s.exec.shut ≡ false
      → length s.exec.workers ≡ n
  fixed_pool_size {n} {s} fits r not_shut =
      let fits' : max n n < 2 ^ 64 = omega (arith, fits) in
      let k = (Reach-Inv fits' r).sound.counted in
      let (core, most) = (Reach-Staffed fits' r).core in
      omega (
        arith,
        core_workers_stay fits' r not_shut,
        total_mono core_in_loop alive (λ v. ground arith) s.exec.objects,
        k.pool,
        k.bound,
        core,
        most,
      )
