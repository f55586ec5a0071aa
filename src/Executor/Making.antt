-- ===== src/Executor/Making.antt =====
-- The executor that the constructor makes.
use mathlib.Core.Path.{subst}
use Prim.Native.Nat.{max}
use concurrency_cpp.Base.{
  ℕ, suc, zero, ◌+◌, ◌^◌, ◌<◌, ◌≡◌, refl, inl, true, false, List, [], ◌∷◌, arith, length,
  length-append,
}
use concurrency_cpp.Base.Threads.{total, total-append}
use concurrency_cpp.Executor.{top, Worker, Executor, add_worker_locked, add_core_workers, make}
use concurrency_cpp.Executor.Places.{Indexed}
use concurrency_cpp.Executor.Indices.{add_worker_locked-Indexed}
use concurrency_cpp.Executor.Counts.{Counted}
use concurrency_cpp.Executor.Sleepers.{Covered}
use concurrency_cpp.Executor.System.{sleeps, runs, alive}

-- An executor with `n` workers that have just started, and no task.
pub record Fresh {T : Type 0} (core_pool_size max_pool_size n : ℕ) (e : Executor T) : Type 0 where
  pub indexed : Indexed e
  pub sizes : (e.core_pool_size ≡ core_pool_size) × (e.max_pool_size ≡ max_pool_size)
  pub pool : (length e.workers ≡ n) × (total alive e.objects ≡ n)
  pub none_runs : (e.active_count ≡ 0) × (total runs e.objects ≡ 0)
  pub none_sleeps : (total sleeps e.objects ≡ 0) × (e.awaiting ≡ 0)
  pub no_task : (e.task_queue ≡ []) × (e.shut ≡ false)

module _ {T : Type 0} {c m : ℕ} where
  add_worker_locked-Fresh :
      (n : ℕ) (e : Executor T) → Fresh c m n e → Fresh c m (suc n) (add_worker_locked true e)
  unfolding add_worker_locked total
  add_worker_locked-Fresh n e f =
      let new : List (Worker T) =
        record { core = true; worker_index = length e.workers; pc = top } ∷ [] in
      record {
        indexed = add_worker_locked-Indexed true e f.indexed;
        sizes = f.sizes;
        pool = (
          omega (arith, f.pool.0, length-append e.workers (length e.objects ∷ [])),
          omega (arith, f.pool.1, total-append alive e.objects new),
        );
        none_runs = (f.none_runs.0, omega (arith, f.none_runs.1, total-append runs e.objects new));
        none_sleeps =
            (omega (arith, f.none_sleeps.0, total-append sleeps e.objects new), f.none_sleeps.1);
        no_task = f.no_task;
      }

  add_core_workers-Fresh :
      (k n m' : ℕ) (e : Executor T)
      → m' ≡ k + n
      → Fresh c m n e
      → Fresh c m m' (add_core_workers k e)
  add_core_workers-Fresh zero n m' e q f = subst (λ j. Fresh c m j e) (omega (arith, q)) f
  add_core_workers-Fresh (suc k) n m' e q f =
      add_core_workers-Fresh k (suc n) m' (add_worker_locked true e) (omega (arith, q))
        (add_worker_locked-Fresh n e f)

module _ {T : Type 0} (core_pool_size max_pool_size : ℕ) where
  pub make-Fresh :
      Fresh core_pool_size max_pool_size core_pool_size (make {T = T} core_pool_size max_pool_size)
  unfolding make total
  make-Fresh = add_core_workers-Fresh core_pool_size 0 core_pool_size _ (omega arith) (record {
    indexed = record { listed = λ i p h. cc; enlisted = λ p w h l. cc };
    sizes = (refl, refl);
    pool = (refl, refl);
    none_runs = (refl, refl);
    none_sleeps = (refl, refl);
    no_task = (refl, refl);
  })

  pub make-Counted :
      max core_pool_size max_pool_size < 2 ^ 64
      → Counted (make {T = T} core_pool_size max_pool_size)
  make-Counted fits = let f = make-Fresh in ground (arith, f.pool, f.none_runs, f.sizes)

  pub make-Covered : Covered (make {T = T} core_pool_size max_pool_size)
  make-Covered =
      let f = make-Fresh in
      record { awake = inl f.none_sleeps.0; none_left_asleep = λ q. f.none_sleeps.0 }
