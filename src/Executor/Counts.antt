-- ===== src/Executor/Counts.antt =====
-- The counters of a `ThreadPoolExecutor` against its threads.
use Prim.Native.Nat.{max}
use concurrency_cpp.Base.{
  ℕ, ◌+◌, ◌^◌, ◌≤◌, ◌<◌, ◌≡◌, refl, true, false, Option, some, List, [], ◌∷◌, arith, length,
  get_elem?, length-append,
}
use concurrency_cpp.Base.Threads.{
  total, total-set, total_mono, total_mono_rest, total-append, total-set_same,
}
use concurrency_cpp.Executor.{
  Pc, top, waiting, running, leaving, Worker, Executor, insert_task_locked, wake, wake_all,
  shutdown, set_pc, finish,
}
use concurrency_cpp.Executor.Fetching.{Came, sleep, quit, take as start_task}
use concurrency_cpp.Executor.Removal.{Exited}
use concurrency_cpp.Executor.System.{runs, alive, Notified, wakes, nobody}

module _ {T : Type 0} where
  -- `active_count` counts the workers that run a task, `workers` has one entry for each thread that
  -- has not exited, and there are no more of these than the sizes allow.
  pub record Counted (e : Executor T) : Type 0 where
    pub active : e.active_count ≡ total runs e.objects
    pub pool : length e.workers ≡ total alive e.objects
    pub bound : length e.workers ≤ max e.core_pool_size e.max_pool_size
    pub fits : max e.core_pool_size e.max_pool_size < 2 ^ 64

  -- A worker that is not gone goes to another place and does not exit.
  module _ (e : Executor T) (self : ℕ) (w : Worker T) (at : get_elem? e.objects self ≡ some w) where
    set_pc-runs :
        (p : Pc T)
        → total runs (set_pc self w p e).objects + runs w
          ≡ total runs e.objects + runs (record w { pc = p })
    set_pc-runs p = total-set runs e.objects self (record w { pc = p }) at

    set_pc-alive :
        (p : Pc T)
        → total alive (set_pc self w p e).objects + alive w
          ≡ total alive e.objects + alive (record w { pc = p })
    set_pc-alive p = total-set alive e.objects self (record w { pc = p }) at

    -- A thread that runs no task, and is alive, leaves room in the count.
    spare : runs w ≡ 0 → alive w ≡ 1 → total runs e.objects < total alive e.objects
    spare idle live =
        omega (arith, total_mono_rest runs alive (λ v. ground arith) e.objects self at)

    pub Came-Counted :
        {r : Option T × Executor T}
        → Came self w e r
        → runs w ≡ 0
        → alive w ≡ 1
        → Counted e
        → Counted r.1
    Came-Counted (sleep h s) idle live c =
        ground (arith, set_pc-runs (waiting true), set_pc-alive (waiting true))
    Came-Counted (quit h why) idle live c =
        ground (arith, set_pc-runs leaving, set_pc-alive leaving)
    Came-Counted (start_task t q h) idle live c =
        ground (arith, set_pc-runs (running t), set_pc-alive (running t), spare idle live)

    pub finish-Counted : (t : T) → w.pc ≡ running t → Counted e → Counted (finish self w e)
    unfolding finish
    finish-Counted t h c = ground (
      arith,
      set_pc-runs top,
      set_pc-alive top,
      total_mono runs alive (λ v. ground arith) e.objects,
    )

  pub insert_task_locked-Counted :
      (t : T) (e : Executor T) → Counted e → Counted (insert_task_locked t e)
  unfolding insert_task_locked total
  insert_task_locked-Counted t e c = ground (
    arith,
    total-append runs e.objects
        (record { core = false; worker_index = length e.workers; pc = top } ∷ []),
    total-append alive e.objects
        (record { core = false; worker_index = length e.workers; pc = top } ∷ []),
    length-append e.workers (length e.objects ∷ []),
    total_mono runs alive (λ v. ground arith) e.objects,
  )

  pub wake_all-same :
      (v : Worker T → ℕ)
      → ((w : Worker T) → v (wake w) ≡ v w)
      → (ws : List (Worker T)) → total v (wake_all ws) ≡ total v ws
  unfolding total
  wake_all-same v same [] = refl
  wake_all-same v same (w ∷ ws) = omega (arith, same w, wake_all-same v same ws)

  pub shutdown-Counted : (e : Executor T) → Counted e → Counted (shutdown e)
  unfolding shutdown
  shutdown-Counted e c = ground (
    arith,
    wake_all-same runs (λ w. ground arith) e.objects,
    wake_all-same alive (λ w. ground arith) e.objects,
  )

  pub Notified-total :
      (v : Worker T → ℕ)
      → ((w : Worker T) → v (wake w) ≡ v w)
      → {ws us : List (Worker T)} → Notified ws us
      → total v us ≡ total v ws
  Notified-total v same {ws} (wakes j {w} at asleep) = total-set_same v ws j (wake w) (same w) at
  Notified-total v same (nobody none_asleep) = refl

  pub Exited-Counted : {e e' : Executor T} {self : ℕ} → Exited e e' self → Counted e → Counted e'
  Exited-Counted x c = ground (arith, x.sizes)
