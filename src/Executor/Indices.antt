-- ===== src/Executor/Indices.antt =====
-- The indices of the workers fit their array after every hold of `main_lock` other than an exit.
use native.Mathlib.Decide.{ℕ_discrete}
use concurrency_cpp.Base.{
  ℕ, suc, zero, ◌≡◌, ◌≢◌, refl, inl, inr, sym, ◌∙◌, ap, Bool, true, false, some, List, [], ◌∷◌,
  ◌++◌, arith, length, get_elem?, set, get_elem?-set_self, get_elem?-set_ne, lt-length,
  get_elem?-append, get_elem?-snoc, get_elem?-snoc_last, Bool-cases, ltb, ◌==◌, ◌&&◌,
}
use concurrency_cpp.Executor.{
  top, Worker, Executor, add_worker_locked, insert_task_locked, idle_workers, wake, wake_all,
  shutdown, is_terminated_locked,
}
use concurrency_cpp.Executor.System.{alive, Notified, wakes, nobody}
use concurrency_cpp.Executor.Places.{Indexed}

module _ {T : Type 0} where
  -- One worker changes and keeps its index and its life.
  pub Indexed-set :
      (e e' : Executor T) (self : ℕ) (w w' : Worker T)
      → get_elem? e.objects self ≡ some w
      → (w'.worker_index ≡ w.worker_index) × (alive w' ≡ alive w)
      → e'.workers ≡ e.workers
      → e'.objects ≡ set e.objects self w'
      → Indexed e
      → Indexed e'
  Indexed-set e e' self w w' here (index, life) same_workers same_objects x = record {
    listed = λ i p h. listed i p h;
    enlisted = λ p v h live. enlisted p v h live;
  }
    where
      at_self : get_elem? e'.objects self ≡ some w'
      at_self =
          ap (λ ws. get_elem? ws self) same_objects
          ∙ get_elem?-set_self e.objects self w' (lt-length e.objects self here)

      at_other : (p : ℕ) → p ≢ self → get_elem? e'.objects p ≡ get_elem? e.objects p
      at_other p ne =
          ap (λ ws. get_elem? ws p) same_objects ∙ get_elem?-set_ne e.objects w' (λ q. ne (sym q))

      listed :
          (i p : ℕ)
          → get_elem? e'.workers i ≡ some p
          → (v : Worker T) × (get_elem? e'.objects p ≡ some v)
            × (v.worker_index ≡ i)
            × (alive v ≡ 1)
      listed i p h =
          let (v, at, index', live) =
            x.listed i p (sym (ap (λ ws. get_elem? ws i) same_workers) ∙ h) in
          elim (ℕ_discrete p self) [
            | yes q ↦
                let same : some v ≡ some w = sym at ∙ ap (get_elem? e.objects) q ∙ here in
                (w', ap (get_elem? e'.objects) q ∙ at_self, ground arith, ground arith)
            | no ne ↦ (v, at_other p ne ∙ at, index', live)
          ]

      enlisted :
          (p : ℕ) (v : Worker T)
          → get_elem? e'.objects p ≡ some v
          → alive v ≡ 1
          → get_elem? e'.workers v.worker_index ≡ some p
      enlisted p v h live = elim (ℕ_discrete p self) [
        | yes q ↦
            let same : some w' ≡ some v = sym at_self ∙ sym (ap (get_elem? e'.objects) q) ∙ h in
            let index' : v.worker_index ≡ w.worker_index = ground arith in
            ap (λ ws. get_elem? ws v.worker_index) same_workers
            ∙ ap (get_elem? e.workers) index'
            ∙ x.enlisted self w here (ground arith)
            ∙ ap some (sym q)
        | no ne ↦
            ap (λ ws. get_elem? ws v.worker_index) same_workers
            ∙ x.enlisted p v (sym (at_other p ne) ∙ h) live
      ]

  -- A new worker takes the next index.
  pub add_worker_locked-Indexed :
      (core : Bool) (e : Executor T) → Indexed e → Indexed (add_worker_locked core e)
  unfolding add_worker_locked
  add_worker_locked-Indexed core e x = record {
    listed = λ i p h. listed i p h;
    enlisted = λ p v h live. enlisted p v h live;
  }
    where
      new : Worker T
      new = record { core = core; worker_index = length e.workers; pc = top }

      listed :
          (i p : ℕ)
          → get_elem? (e.workers ++ (length e.objects ∷ [])) i ≡ some p
          → (v : Worker T) × (get_elem? (e.objects ++ (new ∷ [])) p ≡ some v)
            × (v.worker_index ≡ i)
            × (alive v ≡ 1)
      listed i p h = elim (get_elem?-snoc e.workers (length e.objects) i h) [
        | inl old ↦
            let (v, at, index, live) = x.listed i p old in
            (
              v,
              get_elem?-append e.objects (new ∷ []) p (lt-length e.objects p at) ∙ at,
              index,
              live,
            )
        | inr (at_end, is_new) ↦ (
          new,
          ap (get_elem? (e.objects ++ (new ∷ []))) is_new ∙ get_elem?-snoc_last e.objects new,
          sym at_end,
          refl,
        )
      ]

      enlisted :
          (p : ℕ) (v : Worker T)
          → get_elem? (e.objects ++ (new ∷ [])) p ≡ some v
          → alive v ≡ 1
          → get_elem? (e.workers ++ (length e.objects ∷ [])) v.worker_index ≡ some p
      enlisted p v h live = elim (get_elem?-snoc e.objects new p h) [
        | inl old ↦
            let at = x.enlisted p v old live in
            get_elem?-append e.workers (length e.objects ∷ []) v.worker_index
              (lt-length e.workers v.worker_index at)
            ∙ at
        | inr (at_end, is_new) ↦
            ap (λ u. get_elem? (e.workers ++ (length e.objects ∷ [])) u.worker_index) is_new
            ∙ get_elem?-snoc_last e.workers (length e.objects)
            ∙ ap some (sym at_end)
      ]

  pub insert_task_locked-Indexed :
      (t : T) (e : Executor T) → Indexed e → Indexed (insert_task_locked t e)
  unfolding insert_task_locked
  insert_task_locked-Indexed t e x =
      let e' : Executor T = record e { task_queue = e.task_queue ++ (t ∷ []) } in
      let x' : Indexed e' = record { listed = x.listed; enlisted = x.enlisted } in
      elim (Bool-cases ((idle_workers e == 0) && ltb (length e.workers) e.max_pool_size)) [
        | inl grow ↦ rw grow (add_worker_locked-Indexed false e' x')
        | inr stay ↦ rw stay x'
      ]

  pub Indexed-Notified :
      (e : Executor T) {ws : List (Worker T)}
      → Notified e.objects ws
      → Indexed e
      → Indexed (record e { objects = ws })
  Indexed-Notified e (wakes j {w} at asleep) x =
      Indexed-set e (record e { objects = set e.objects j (wake w) }) j w (wake w) at
        (refl, ground arith) refl refl x
  Indexed-Notified e (nobody none_asleep) x = record { listed = x.listed; enlisted = x.enlisted }

  get_elem?-wake_all :
      (ws : List (Worker T)) (j : ℕ) {w : Worker T}
      → get_elem? ws j ≡ some w
      → get_elem? (wake_all ws) j ≡ some (wake w)
  get_elem?-wake_all [] j h = cc
  get_elem?-wake_all (v ∷ ws) zero h = ground arith
  get_elem?-wake_all (v ∷ ws) (suc j) h = get_elem?-wake_all ws j h

  sleeper_of :
      (ws : List (Worker T)) (j : ℕ) {v : Worker T}
      → get_elem? (wake_all ws) j ≡ some v
      → (w : Worker T) × (get_elem? ws j ≡ some w) × (wake w ≡ v)
  sleeper_of [] j h = cc
  sleeper_of (w ∷ ws) zero h = (w, refl, ground arith)
  sleeper_of (w ∷ ws) (suc j) h = sleeper_of ws j h

  wake_all-Indexed :
      (e e' : Executor T)
      → e'.workers ≡ e.workers
      → e'.objects ≡ wake_all e.objects
      → Indexed e
      → Indexed e'
  wake_all-Indexed e e' same_workers woken x = record {
    listed = λ i p h.
        let (v, at, index, live) =
          x.listed i p (sym (ap (λ ws. get_elem? ws i) same_workers) ∙ h) in
        (
          wake v,
          ap (λ ws. get_elem? ws p) woken ∙ get_elem?-wake_all e.objects p at,
          index,
          ground arith,
        );
    enlisted = λ p v h live.
        let (w, at, is) = sleeper_of e.objects p (sym (ap (λ ws. get_elem? ws p) woken) ∙ h) in
        let index : v.worker_index ≡ w.worker_index =
          ap (λ (u : Worker T). u.worker_index) (sym is) in
        ap (λ ws. get_elem? ws v.worker_index) same_workers
        ∙ ap (get_elem? e.workers) index
        ∙ x.enlisted p w at (ground arith);
  }

  pub shutdown-Indexed : (e : Executor T) → Indexed e → Indexed (shutdown e)
  unfolding shutdown
  shutdown-Indexed e x = elim (Bool-cases (is_terminated_locked (record e { shut = true }))) [
    | inl over ↦ rw over (record { listed = x.listed; enlisted = x.enlisted })
    | inr more ↦ rw more (wake_all-Indexed e _ refl refl x)
  ]
