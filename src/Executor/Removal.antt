-- ===== src/Executor/Removal.antt =====
-- `remove_self_locked` and the exit of a worker.
use concurrency_cpp.Base.{
  ℕ, suc, zero, ◌+◌, ◌≡◌, refl, sym, ap, ◌∙◌, some, List, [], ◌∷◌, ◌++◌, arith, length, get_elem?,
  set, take, if◌then◌else◌, length-take, length-set, get_elem?-set_self, get_elem?-set_ne,
}
use native.Mathlib.Decide.{ℕ_discrete}
use concurrency_cpp.Base.Partial.{bind_some}
use concurrency_cpp.Executor.{leaving, gone, Worker, Executor, is_terminated_locked, exit}
use concurrency_cpp.Executor.System.{alive, runs, carries, sleeps, ready, core_in_loop}
use concurrency_cpp.Base.Threads.{total, total-set, total-set_same}
use concurrency_cpp.Executor.Places.{
  Indexed, Place, place, swapped, swapped-length, swapped-end, after, final, remove_self_locked_lem,
  after_self, final-listed, final-enlisted,
}

-- A worker has exited: it is off the array and on the list of the dead, and its thread has ended.
pub record Exited {T : Type 0} (e e' : Executor T) (self : ℕ) : Type 0 where
  pub indexed : Indexed e'
  pub fewer : suc (length e'.workers) ≡ length e.workers
  pub dead : e'.dead_workers ≡ e.dead_workers ++ (self ∷ [])
  pub queue : e'.task_queue ≡ e.task_queue
  pub shut : e'.shut ≡ e.shut
  pub active : e'.active_count ≡ e.active_count
  pub sizes : (e'.core_pool_size ≡ e.core_pool_size) × (e'.max_pool_size ≡ e.max_pool_size)
  pub alive_total : suc (total alive e'.objects) ≡ total alive e.objects
  pub runs_total : total runs e'.objects ≡ total runs e.objects
  pub carried_total : (v : T → ℕ) → total (carries v) e'.objects ≡ total (carries v) e.objects
  pub sleeps_total : total sleeps e'.objects ≡ total sleeps e.objects
  pub ready_total : total ready e'.objects ≡ total ready e.objects
  pub core_total : total core_in_loop e'.objects ≡ total core_in_loop e.objects
  pub workers_total : (v : ℕ → ℕ) → total v e'.workers + v self ≡ total v e.workers
  pub made : length e'.objects ≡ length e.objects
  pub awaiting : e'.awaiting ≡ (if is_terminated_locked e' then 0 else e.awaiting)

take-total :
    (v : ℕ → ℕ) (n : ℕ) (xs : List ℕ) {x : ℕ}
    → length xs ≡ suc n
    → get_elem? xs n ≡ some x
    → total v (take n xs) + v x ≡ total v xs
unfolding total
take-total v n [] size e = cc
take-total v zero (y ∷ []) size e = ground arith
take-total v zero (y ∷ z ∷ xs) size e = absurd (omega (arith, size))
take-total v (suc n) (y ∷ xs) size e = omega (arith, take-total v n xs (omega (arith, size)) e)

module _ (v : ℕ → ℕ) {T : Type 0} (e : Executor T) (self : ℕ) (w : Worker T) (n last : ℕ)
    (moved : Worker T) (p : Place e self w n last moved) where
  last_still : get_elem? (set e.workers w.worker_index last) n ≡ some last
  last_still = elim (ℕ_discrete w.worker_index n) [
    | yes same ↦
        ap (get_elem? (set e.workers w.worker_index last)) (sym same)
        ∙ get_elem?-set_self e.workers w.worker_index last (omega (arith, p.size, p.within))
    | no ne ↦ get_elem?-set_ne e.workers last ne ∙ p.at_end
  ]

  -- The swap moves the workers about, and `pop_back` drops the one that leaves.
  removed-total : total v (take n (swapped e self w n last)) + v self ≡ total v e.workers
  removed-total = omega (
    arith,
    take-total v n (swapped e self w n last) (swapped-length e self w n last moved p)
        (swapped-end e self w n last moved p),
    total-set v (set e.workers w.worker_index last) n self last_still,
    total-set v e.workers w.worker_index last p.mine,
  )

module _ {T : Type 0} (e : Executor T) (self : ℕ) (w : Worker T) where
  -- A worker that leaves finds itself in the array: its exit meets no index out of range.
  pub exit_lem :
      Indexed e
      → get_elem? e.objects self ≡ some w
      → w.pc ≡ leaving
      → (e' : Executor T) × (exit self e ≡ some e') × Exited e e' self
  unfolding exit
  exit_lem x here leaves =
      let live : alive w ≡ 1 = ground arith in
      let (n, last, moved, p) = place e self w x here live in
      let a = after e self w n last moved p in
      let (u, at, same) = after_self e self w n last moved p in
      let m = record moved { worker_index = w.worker_index } in
      (
        final e self w n last moved p u,
        bind_some _ (remove_self_locked_lem e self w n last moved p) ∙ bind_some _ at,
        record {
          indexed = record {
            listed = λ j q h. final-listed e self w n last moved p u x j q h;
            enlisted = λ q v h l. final-enlisted e self w n last moved p u x q v h l;
          };
          fewer = omega (
            arith,
            length-take n (swapped e self w n last),
            swapped-length e self w n last moved p,
            p.size,
          );
          dead = refl;
          queue = refl;
          shut = refl;
          active = refl;
          sizes = (refl, refl);
          alive_total = ground (
            arith,
            total-set alive a.objects self (record u { pc = gone }) at,
            total-set_same alive e.objects last m refl p.end_worker,
          );
          runs_total = ground (
            arith,
            total-set runs a.objects self (record u { pc = gone }) at,
            total-set_same runs e.objects last m refl p.end_worker,
          );
          carried_total = λ v. ground (
            arith,
            total-set (carries v) a.objects self (record u { pc = gone }) at,
            total-set_same (carries v) e.objects last m refl p.end_worker,
          );
          sleeps_total = ground (
            arith,
            total-set sleeps a.objects self (record u { pc = gone }) at,
            total-set_same sleeps e.objects last m refl p.end_worker,
          );
          ready_total = ground (
            arith,
            total-set ready a.objects self (record u { pc = gone }) at,
            total-set_same ready e.objects last m refl p.end_worker,
          );
          core_total = ground (
            arith,
            total-set core_in_loop a.objects self (record u { pc = gone }) at,
            total-set_same core_in_loop e.objects last m refl p.end_worker,
          );
          workers_total = λ v. removed-total v e self w n last moved p;
          made = omega (
            arith,
            length-set a.objects self (record u { pc = gone }),
            length-set e.objects last m,
          );
          awaiting = refl;
        },
      )
