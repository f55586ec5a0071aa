-- ===== src/Executor/Sleepers.antt =====
-- Wakeups of the workers of a `ThreadPoolExecutor`.
use concurrency_cpp.Base.{
  ℕ, suc, ◌+◌, ◌≤◌, ◌≡◌, refl, ◌⊎◌, inl, true, false, Option, some, List, [], ◌∷◌, arith, length,
  get_elem?, length-append, sym, ◌∙◌, ap,
}
use concurrency_cpp.Base.Threads.{total, total-set, total_mono, total-append}
use concurrency_cpp.Executor.{
  Pc, top, waiting, running, leaving, Worker, Executor, insert_task_locked, wake, wake_all,
  shutdown, set_pc, finish,
}
use concurrency_cpp.Executor.Fetching.{Came, sleep, quit, take as start_task}
use concurrency_cpp.Executor.Removal.{Exited}
use concurrency_cpp.Executor.Counts.{Counted}
use concurrency_cpp.Executor.System.{sleeps, ready, alive, Notified, wakes, nobody}

module _ {T : Type 0} where
  -- The tasks in the queue are no more than the workers about to look at it, unless no worker
  -- sleeps; after `shutdown` none does.
  pub record Covered (e : Executor T) : Type 0 where
    pub awake : (total sleeps e.objects ≡ 0) ⊎ (length e.task_queue ≤ total ready e.objects)
    pub none_left_asleep : e.shut ≡ true → total sleeps e.objects ≡ 0

  module _ (e : Executor T) (self : ℕ) (w : Worker T) (at : get_elem? e.objects self ≡ some w) where
    set_pc-sleeps :
        (p : Pc T)
        → total sleeps (set_pc self w p e).objects + sleeps w
          ≡ total sleeps e.objects + sleeps (record w { pc = p })
    set_pc-sleeps p = total-set sleeps e.objects self (record w { pc = p }) at

    set_pc-ready :
        (p : Pc T)
        → total ready (set_pc self w p e).objects + ready w
          ≡ total ready e.objects + ready (record w { pc = p })
    set_pc-ready p = total-set ready e.objects self (record w { pc = p }) at

    pub Came-Covered :
        {r : Option T × Executor T}
        → Came self w e r
        → ready w + sleeps w ≡ 1
        → Covered e
        → Covered r.1
    Came-Covered (sleep h s) here v = record {
      awake = ground (arith, set_pc-ready (waiting true), ap length h);
      none_left_asleep = λ q. cc;
    }
    Came-Covered (quit h why) here v = record {
      awake = ground (arith, set_pc-sleeps leaving, ap length h);
      none_left_asleep = λ q. omega (arith, v.none_left_asleep q, set_pc-sleeps leaving);
    }
    Came-Covered (start_task t q h) here v = record {
      awake =
          ground (arith, set_pc-sleeps (running t), set_pc-ready (running t), ap length h, v.awake);
      none_left_asleep = λ q. omega (arith, v.none_left_asleep q, set_pc-sleeps (running t));
    }

    pub finish-Covered : (t : T) → w.pc ≡ running t → Covered e → Covered (finish self w e)
    unfolding finish
    finish-Covered t h v = record {
      awake = ground (arith, set_pc-sleeps top, set_pc-ready top, v.awake);
      none_left_asleep = λ q. ground (arith, v.none_left_asleep q, set_pc-sleeps top);
    }

  pub Exited-Covered : {e e' : Executor T} {self : ℕ} → Exited e e' self → Covered e → Covered e'
  Exited-Covered x v = record {
    awake = ground (arith, ap length x.queue, x.sleeps_total, x.ready_total, v.awake);
    none_left_asleep = λ q. x.sleeps_total ∙ v.none_left_asleep (sym x.shut ∙ q);
  }

  -- One more task, and one more worker that is awake, or none asleep.
  insert_task_locked-totals :
      (t : T) (e : Executor T)
      → (total sleeps (insert_task_locked t e).objects ≡ total sleeps e.objects)
        × (total ready e.objects ≤ total ready (insert_task_locked t e).objects)
        × (length (insert_task_locked t e).task_queue ≡ suc (length e.task_queue))
        × ((insert_task_locked t e).shut ≡ e.shut)
  unfolding insert_task_locked total
  insert_task_locked-totals t e =
      let new : Worker T = record { core = false; worker_index = length e.workers; pc = top } in
      (
        ground (arith, total-append sleeps e.objects (new ∷ [])),
        ground (arith, total-append ready e.objects (new ∷ [])),
        ground (arith, length-append e.task_queue (t ∷ [])),
        ground arith,
      )

  Notified-Covered :
      (e e' : Executor T) {ws us : List (Worker T)}
      → Notified ws us
      → (total sleeps e.objects ≡ 0) ⊎ (length e.task_queue ≤ total ready e.objects)
      → total sleeps ws ≡ total sleeps e.objects
      → total ready e.objects ≤ total ready ws
      → (total sleeps us ≡ 0) ⊎ (suc (length e.task_queue) ≤ total ready us)
  Notified-Covered e e' {ws} (wakes j {w} at asleep) v same more =
      ground (arith, total-set sleeps ws j (wake w) at, total-set ready ws j (wake w) at)
  Notified-Covered e e' (nobody none_asleep) v same more = inl none_asleep

  Notified-sleeps : {ws us : List (Worker T)} → Notified ws us → total sleeps us ≤ total sleeps ws
  Notified-sleeps {ws} (wakes j {w} at asleep) = ground (arith, total-set sleeps ws j (wake w) at)
  Notified-sleeps (nobody none_asleep) = omega arith

  pub insert-Covered :
      (t : T) (e : Executor T) {ws : List (Worker T)}
      → Notified (insert_task_locked t e).objects ws
      → Covered e
      → Covered (record (insert_task_locked t e) { objects = ws })
  insert-Covered t e {ws} n v =
      let (same, more, longer, shut) = insert_task_locked-totals t e in
      record {
        awake = ground (arith, Notified-Covered e e n v.awake same more, longer);
        none_left_asleep =
            λ q. omega (arith, v.none_left_asleep (sym shut ∙ q), Notified-sleeps n, same);
      }

  wake_all-sleeps : (ws : List (Worker T)) → total sleeps (wake_all ws) ≡ 0
  unfolding total
  wake_all-sleeps [] = refl
  wake_all-sleeps (w ∷ ws) = ground (arith, wake_all-sleeps ws)

  asleep-le-alive : (ws : List (Worker T)) → total sleeps ws ≤ total alive ws
  asleep-le-alive = total_mono sleeps alive (λ w. ground arith)

  pub shutdown-Covered : (e : Executor T) → Counted e → Covered e → Covered (shutdown e)
  unfolding shutdown
  shutdown-Covered e c v = record {
    awake = ground (arith, wake_all-sleeps e.objects, asleep-le-alive e.objects, c.pool);
    none_left_asleep =
        λ q. ground (arith, wake_all-sleeps e.objects, asleep-le-alive e.objects, c.pool);
  }
