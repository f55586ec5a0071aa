-- ===== src/Executor/Joining.antt =====
-- The threads that `reap_dead_workers_locked` joins, and `~ThreadPoolExecutor` of
-- concurrency/executor.h. A worker is its place in the list of all workers made.
use mathlib.Core.Path.{subst}
use mathlib.Core.List.{append-nil}
use Prim.Native.Nat.{max}
use concurrency_cpp.Base.{
  ℕ, zero, suc, ◌+◌, ◌^◌, ◌<◌, ◌≡◌, refl, sym, ap, Bool, true, false, Option, some, List, [], ◌∷◌,
  ◌++◌, arith, if◌then◌else◌, ◌==◌, length, length-append, length-set, get_elem?, element, ltb,
  ◌&&◌, Bool-cases, inl, inr,
}
use concurrency_cpp.Base.Threads.{total, total-append, le-total}
use concurrency_cpp.Executor.{
  Pc, gone, Worker, Executor, add_worker_locked, add_core_workers, make, insert_task_locked,
  idle_workers, wake, wake_all, shutdown, await_termination, loop_head, resume, expire, finish,
  is_terminated_locked, reap_dead_workers_locked,
}
use concurrency_cpp.Executor.Fetching.{
  Came, sleep, quit, take, loop_head-Came, resume-Came, expire-Came,
}
use concurrency_cpp.Executor.Invariant.{exit-Sound}
use concurrency_cpp.Executor.Removal.{Exited}
use concurrency_cpp.Executor.Reachable.{Inv, Reach-Inv}
use concurrency_cpp.Executor.System.{
  System, alive, Notified, wakes, nobody, Step, pass_check, insert, shut_down, await, worker_top,
  worker_resume, worker_expire, worker_finish, worker_exit, Reach, start, later,
}

-- The weights of the first `n` numbers.
unfoldable pub sum_below : (ℕ → ℕ) → ℕ → ℕ
sum_below v zero = 0
sum_below v (suc n) = sum_below v n + v n

module _ {T : Type 0} where
  -- The workers that a step joins.
  unfoldable pub joins : {s t : System T} → Step s t → List ℕ
  joins {s} (worker_finish self at h) = s.exec.dead_workers
  joins _ = []

  -- The workers joined so far.
  unfoldable pub joined : {c m : ℕ} {s : System T} → Reach c m s → List ℕ
  unfolding joins
  joined start = []
  joined (later r st) = joined r ++ joins st

  -- The end of `~ThreadPoolExecutor`, when `await_termination` has returned or was not called, with
  -- the workers that it joins. The arrays of workers are destroyed then.
  unfoldable pub destroy : Executor T → List ℕ × Executor T
  unfolding reap_dead_workers_locked
  destroy e = (e.dead_workers, reap_dead_workers_locked e)

  -- Each worker made has been joined, or is on the list of the dead or in the array, once.
  abbrev Tally : (ℕ → ℕ) → List ℕ → Executor T → Type 0
  Tally v js e =
      total v js + total v e.dead_workers + total v e.workers ≡ sum_below v (length e.objects)

  length-Notified : {ws us : List (Worker T)} → Notified ws us → length us ≡ length ws
  length-Notified {ws} (wakes j {w} at asleep) = length-set ws j (wake w)
  length-Notified (nobody none_asleep) = refl

  length-wake_all : (ws : List (Worker T)) → length (wake_all ws) ≡ length ws
  length-wake_all [] = refl
  length-wake_all (w ∷ ws) = omega (arith, length-wake_all ws)

  module _ (v : ℕ → ℕ) where
    add_worker_locked-Tally :
        (core : Bool) (js : List ℕ) (e : Executor T)
        → Tally v js e
        → Tally v js (add_worker_locked core e)
    unfolding add_worker_locked total sum_below
    add_worker_locked-Tally core js e t =
        let new : Worker T = record { core = core; worker_index = length e.workers; pc = Pc.top } in
        let made : length (e.objects ++ (new ∷ [])) ≡ suc (length e.objects) =
          omega (arith, length-append e.objects (new ∷ [])) in
        omega (arith, t, total-append v e.workers (length e.objects ∷ []), ap (sum_below v) made)

    insert_task_locked-Tally :
        (task : T) (js : List ℕ) (e : Executor T)
        → Tally v js e
        → Tally v js (insert_task_locked task e)
    unfolding insert_task_locked
    insert_task_locked-Tally task js e t =
        elim (Bool-cases ((idle_workers e == 0) && ltb (length e.workers) e.max_pool_size)) [
          | inl grow ↦ rw grow (
              add_worker_locked-Tally false js
                (record e { task_queue = e.task_queue ++ (task ∷ []) }) t)
          | inr stay ↦ rw stay t
        ]

    Came-Tally :
        (js : List ℕ) (e : Executor T) (self : ℕ) (w : Worker T) {r : Option T × Executor T}
        → Came self w e r
        → Tally v js e
        → Tally v js r.1
    Came-Tally js e self w (sleep h s) t =
        omega (
          arith,
          t,
          ap (sum_below v) (length-set e.objects self (record w { pc = Pc.waiting true })),
        )
    Came-Tally js e self w (quit h why) t =
        omega
          (arith, t, ap (sum_below v) (length-set e.objects self (record w { pc = Pc.leaving })))
    Came-Tally js e self w (take task q h) t =
        omega (
          arith,
          t,
          ap (sum_below v) (length-set e.objects self (record w { pc = Pc.running task })),
        )

    shutdown-Tally : (js : List ℕ) (e : Executor T) → Tally v js e → Tally v js (shutdown e)
    unfolding shutdown
    shutdown-Tally js e t = elim (Bool-cases (is_terminated_locked (record e { shut = true }))) [
      | inl over ↦ rw over t
      | inr more ↦ rw more (omega (arith, t, ap (sum_below v) (length-wake_all e.objects)))
    ]

    await_termination-Tally :
        (js : List ℕ) (e : Executor T) → Tally v js e → Tally v js (await_termination e)
    unfolding await_termination
    await_termination-Tally js e t = elim (Bool-cases (is_terminated_locked e)) [
      | inl over ↦ rw over t
      | inr more ↦ rw more t
    ]

    finish-Tally :
        (js : List ℕ) (e : Executor T) (self : ℕ) (w : Worker T)
        → Tally v js e
        → Tally v (js ++ e.dead_workers) (finish self w e)
    unfolding finish total
    finish-Tally js e self w t = omega (
      arith,
      t,
      total-append v js e.dead_workers,
      ap (sum_below v) (length-set e.objects self (record w { pc = Pc.top })),
    )

    Exited-Tally :
        (js : List ℕ) {e e' : Executor T} {self : ℕ}
        → Exited e e' self
        → Tally v js e
        → Tally v js e'
    unfolding total
    Exited-Tally js {e} {self = self} x t = omega (
      arith,
      t,
      ap (total v) x.dead,
      total-append v e.dead_workers (self ∷ []),
      x.workers_total v,
      ap (sum_below v) x.made,
    )

    add_core_workers-Tally :
        (n : ℕ) (js : List ℕ) (e : Executor T) → Tally v js e → Tally v js (add_core_workers n e)
    add_core_workers-Tally zero js e t = t
    add_core_workers-Tally (suc n) js e t =
        add_core_workers-Tally n js (add_worker_locked true e) (add_worker_locked-Tally true js e t)

    no_joins-Tally : (js : List ℕ) (e : Executor T) → Tally v js e → Tally v (js ++ []) e
    no_joins-Tally js e t = subst (λ ks. Tally v ks e) (sym (append-nil js)) t

    Step-Tally :
        (js : List ℕ) {s s' : System T}
        → Inv s
        → (st : Step s s') → Tally v js s.exec
        → Tally v (js ++ joins st) s'.exec
    unfolding joins
    Step-Tally js {s} inv (pass_check task not_shut) t = no_joins-Tally js s.exec t
    Step-Tally js {s} inv (insert pre task post {ws} q n) t =
        no_joins-Tally js (record (insert_task_locked task s.exec) { objects = ws })
          (omega (
            arith,
            insert_task_locked-Tally task js s.exec t,
            ap (sum_below v) (length-Notified n),
          ))
    Step-Tally js {s} inv shut_down t =
        no_joins-Tally js (shutdown s.exec) (shutdown-Tally js s.exec t)
    Step-Tally js {s} inv await t =
        no_joins-Tally js (await_termination s.exec) (await_termination-Tally js s.exec t)
    Step-Tally js {s} inv (worker_top self {w} at h) t =
        no_joins-Tally js (loop_head self w s.exec).1
          (Came-Tally js s.exec self w (loop_head-Came self w s.exec) t)
    Step-Tally js {s} inv (worker_resume self {w} at h) t =
        no_joins-Tally js (resume self w s.exec).1
          (Came-Tally js s.exec self w (resume-Came self w s.exec) t)
    Step-Tally js {s} inv (worker_expire self {w} at h timed) t =
        no_joins-Tally js (expire self w s.exec).1
          (Came-Tally js s.exec self w (expire-Came self w s.exec timed) t)
    Step-Tally js {s} inv (worker_finish self {w} at h) t = finish-Tally js s.exec self w t
    Step-Tally js {s} inv (worker_exit self {w} {e} at h q) t =
        no_joins-Tally js e (Exited-Tally js (exit-Sound s.exec self w at h q inv.sound).0 t)

    Reach-Tally :
        {c m : ℕ} {s : System T} → max c m < 2 ^ 64 → (r : Reach c m s) → Tally v (joined r) s.exec
    unfolding joined make total sum_below
    Reach-Tally {c} {m} fits start =
        add_core_workers-Tally c [] (record (make {T = T} 0 m) { core_pool_size = c }) (omega arith)
    Reach-Tally fits (later r st) = Step-Tally (joined r) (Reach-Inv fits r) st (Reach-Tally fits r)

-- Counts a number in a list of numbers.
abbrev is : ℕ → ℕ → ℕ
is p q = if p == q then 1 else 0

sum_below-is : (p n : ℕ) → sum_below (is p) n ≡ (if ltb p n then 1 else 0)
unfolding sum_below
sum_below-is p zero = ground arith
sum_below-is p (suc n) = ground (arith, sum_below-is p n)

gone_of_dead : {T : Type 0} (w : Worker T) → alive w ≡ 0 → w.pc ≡ gone
gone_of_dead w dead = ground arith

module _ {T : Type 0} {c m : ℕ} {s : System T} (fits : max c m < 2 ^ 64) (r : Reach c m s) where
  -- In every reachable state of an executor whose sizes fit 64 bits, each worker on the list of the
  -- dead has left `run`, so that who joins it, holding `main_lock`, does not wait for a thread that
  -- needs the lock.
  pub dead_workers_are_gone :
      (i p : ℕ)
      → get_elem? s.exec.dead_workers i ≡ some p
      → (w : Worker T) × (get_elem? s.exec.objects p ≡ some w) × (w.pc ≡ gone)
  dead_workers_are_gone i p at =
      let once = Reach-Tally (is p) fits r in
      let dead = le-total (is p) s.exec.dead_workers i at in
      let below = sum_below-is p (length s.exec.objects) in
      let (w, here) = element s.exec.objects p (ground (arith, once, dead, below)) in
      let not_alive : ¬ (alive w ≡ 1) = λ live.
        let listed = (Reach-Inv fits r).sound.indexed.enlisted p w here live in
        ground (arith, once, dead, below, le-total (is p) s.exec.workers w.worker_index listed) in
      (w, here, gone_of_dead w (ground (arith, not_alive)))

  -- When the destructor ends, on a reachable state of a terminated executor whose sizes fit 64
  -- bits, each worker ever made has been joined exactly once (whatever weights the workers have,
  -- those of the workers joined and of all workers made add up to the same), and none is left in
  -- the arrays.
  pub workers_are_joined_once :
      is_terminated_locked s.exec ≡ true
      → ((v : ℕ → ℕ)
          → total v (joined r ++ (destroy s.exec).0) ≡ sum_below v (length s.exec.objects))
        × ((destroy s.exec).1.workers ≡ [])
        × ((destroy s.exec).1.dead_workers ≡ [])
  unfolding destroy is_terminated_locked total
  workers_are_joined_once over =
      let none_left : s.exec.workers ≡ [] = ground arith in
      (
        λ v. omega (
          arith,
          Reach-Tally v fits r,
          total-append v (joined r) s.exec.dead_workers,
          ap (total v) none_left,
        ),
        none_left,
        refl,
      )
