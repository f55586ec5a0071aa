-- ===== src/Executor/Fetching.antt =====
-- What `Worker::run` can do between taking `main_lock` and giving it up: sleep, leave or start a task.
use mathlib.Core.Path.{subst}
use concurrency_cpp.Base.{
  ℕ, ◌+◌, ◌%◌, ◌^◌, ◌≡◌, refl, sym, ◌⊎◌, inl, inr, true, false, ◌&&◌, not, Option, none, some, List,
  [], ◌∷◌, arith, Bool-cases,
}
use concurrency_cpp.Executor.{
  waiting, running, leaving, Worker, Executor, is_empty, set_pc, fetch_task, begin_task, loop_head,
  resume, expire,
}

module _ {T : Type 0} (self : ℕ) (w : Worker T) (e : Executor T) where
  pub data Came : Option T × Executor T → Type 0 where
    sleep : e.task_queue ≡ [] → e.shut ≡ false → Came (none, set_pc self w (waiting true) e)
    quit :
        e.task_queue ≡ []
        → (e.shut ≡ true) ⊎ (w.core ≡ false)
        → Came (none, set_pc self w leaving e)
    take :
        (t : T) (q : List T)
        → e.task_queue ≡ t ∷ q
        → Came (
          some t,
          set_pc self w
              (running t)
              (record e { task_queue = q; active_count = (e.active_count + 1) % 2 ^ 64 }),
        )

  fetch_task-nil : e.task_queue ≡ [] → fetch_task e ≡ (none, e)
  unfolding fetch_task
  fetch_task-nil h = ground arith

  fetch_task-cons :
      (t : T) (q : List T)
      → e.task_queue ≡ t ∷ q
      → fetch_task e ≡ (some t, record e { task_queue = q })
  unfolding fetch_task
  fetch_task-cons t q h = ground arith

  begin_task-Came :
      (e.task_queue ≡ [] → (e.shut ≡ true) ⊎ (w.core ≡ false))
      → Came (begin_task self w (fetch_task e))
  unfolding begin_task
  begin_task-Came why = by_queue e.task_queue refl
    where
      by_queue : (q : List T) → e.task_queue ≡ q → Came (begin_task self w (fetch_task e))
      by_queue [] h =
          subst (λ r. Came (begin_task self w r)) (sym (fetch_task-nil h)) (quit h (why h))
      by_queue (t ∷ q) h =
          subst (λ r. Came (begin_task self w r)) (sym (fetch_task-cons t q h)) (take t q h)

  pub expire-Came : w.core ≡ false → Came (expire self w e)
  unfolding expire
  expire-Came timed = begin_task-Came (λ h. inr timed)

  empty_of_test : is_empty e.task_queue ≡ true → e.task_queue ≡ []
  empty_of_test h = ground arith

  pub resume-Came : Came (resume self w e)
  unfolding resume
  resume-Came = elim (Bool-cases (is_empty e.task_queue && not e.shut)) [
    | inl wait ↦ rw wait (sleep (ground arith) (ground arith))
    | inr go ↦ rw go (begin_task-Came (λ h. inl (ground (arith, h, go))))
  ]

  pub loop_head-Came : Came (loop_head self w e)
  unfolding loop_head resume
  loop_head-Came = elim (Bool-cases (e.shut && is_empty e.task_queue)) [
    | inl stop ↦ rw stop (quit (ground arith) (inl (ground arith)))
    | inr go ↦ rw go resume-Came
  ]
