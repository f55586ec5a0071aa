-- ===== src/Executor/Places.antt =====
-- Places in the array of workers, and the swap of `remove_self_locked`.
use concurrency_cpp.Base.{
  ℕ, suc, ◌-◌, ◌≤◌, ◌<◌, ◌≡◌, ◌≢◌, refl, sym, ◌∙◌, ap, some, List, [], ◌∷◌, ◌++◌, arith, length,
  get_elem?, set, take, if◌then◌else◌, length-set, get_elem?-set_self, get_elem?-set_ne,
  get_elem?-take, lt-length, element, length-take,
}
use mathlib.Core.Option.{some-injective}
use native.Mathlib.Decide.{ℕ_discrete}
use concurrency_cpp.Executor.{
  gone, Worker, Executor, set_pc, is_terminated_locked, remove_self_locked,
}
use concurrency_cpp.Executor.System.{alive}

module _ {T : Type 0} where
  -- The array of workers and the index in each worker fit: the array lists the workers that have not
  -- exited, each at its own index.
  pub record Indexed (e : Executor T) : Type 0 where
    pub listed :
        (i p : ℕ)
        → get_elem? e.workers i ≡ some p
        → (w : Worker T) × (get_elem? e.objects p ≡ some w) × (w.worker_index ≡ i) × (alive w ≡ 1)
    pub enlisted :
        (p : ℕ) (w : Worker T)
        → get_elem? e.objects p ≡ some w
        → alive w ≡ 1
        → get_elem? e.workers w.worker_index ≡ some p

  -- The worker `self`, at index `i` of `n + 1`, among others the last one, `last`.
  pub record Place (e : Executor T) (self : ℕ) (w : Worker T) (n last : ℕ) (moved : Worker T)
      : Type 0 where
    pub here : get_elem? e.objects self ≡ some w
    pub live : alive w ≡ 1
    pub size : length e.workers ≡ suc n
    pub mine : get_elem? e.workers w.worker_index ≡ some self
    pub within : w.worker_index ≤ n
    pub at_end : get_elem? e.workers n ≡ some last
    pub end_worker : get_elem? e.objects last ≡ some moved
    pub end_index : moved.worker_index ≡ n
    pub end_live : alive moved ≡ 1

  pub place :
      (e : Executor T) (self : ℕ) (w : Worker T)
      → Indexed e
      → get_elem? e.objects self ≡ some w
      → alive w ≡ 1
      → (n : ℕ) × (last : ℕ) × (moved : Worker T) × Place e self w n last moved
  place e self w x here live =
      let mine = x.enlisted self w here live in
      let within = lt-length e.workers w.worker_index mine in
      let (last, at_end) = element e.workers (length e.workers - 1) (omega arith) in
      let (moved, end_worker, end_index, end_live) = x.listed (length e.workers - 1) last at_end in
      (
        length e.workers - 1,
        last,
        moved,
        record {
          here = here;
          live = live;
          size = omega arith;
          mine = mine;
          within = omega arith;
          at_end = at_end;
          end_worker = end_worker;
          end_index = end_index;
          end_live = end_live;
        },
      )

  -- The array after the swap.
  abbrev pub swapped : Executor T → (self : ℕ) → Worker T → (n last : ℕ) → List ℕ
  swapped e self w n last = set (set e.workers w.worker_index last) n self

  module _ (e : Executor T) (self : ℕ) (w : Worker T) (n last : ℕ) (moved : Worker T)
      (p : Place e self w n last moved) where
    pub swapped-length : length (swapped e self w n last) ≡ suc n
    swapped-length =
        length-set (set e.workers w.worker_index last) n self
        ∙ length-set e.workers w.worker_index last
        ∙ p.size

    pub swapped-end : get_elem? (swapped e self w n last) n ≡ some self
    swapped-end =
        get_elem?-set_self (set e.workers w.worker_index last) n self
          (omega (arith, length-set e.workers w.worker_index last, p.size))

    -- At its index now stands the last worker (which may be itself).
    swapped-here : get_elem? (swapped e self w n last) w.worker_index ≡ some last
    swapped-here = elim (ℕ_discrete n w.worker_index) [
      | yes same ↦
          ap (get_elem? (swapped e self w n last)) (sym same)
          ∙ swapped-end
          ∙ sym p.mine
          ∙ ap (get_elem? e.workers) (sym same)
          ∙ p.at_end
      | no other ↦
          get_elem?-set_ne (set e.workers w.worker_index last) self other
          ∙ get_elem?-set_self e.workers w.worker_index last (omega (arith, p.size, p.within))
    ]

    -- Elsewhere the array is as it was.
    swapped-other :
        (j : ℕ)
        → j ≢ n
        → j ≢ w.worker_index
        → get_elem? (swapped e self w n last) j ≡ get_elem? e.workers j
    swapped-other j ne ne' =
        get_elem?-set_ne (set e.workers w.worker_index last) self (λ q. ne (sym q))
        ∙ get_elem?-set_ne e.workers last (λ q. ne' (sym q))

    -- The state that `remove_self_locked` leaves.
    abbrev pub after : Executor T
    after = record e {
      objects = set e.objects last (record moved { worker_index = w.worker_index });
      dead_workers = e.dead_workers ++ (self ∷ []);
      workers = take n (swapped e self w n last);
    }

    pub remove_self_locked_lem : remove_self_locked self e ≡ some after
    unfolding remove_self_locked
    remove_self_locked_lem =
        let end_place : length e.workers - 1 ≡ n = omega (arith, p.size) in
        let end_place' : length (swapped e self w n last) - 1 ≡ n = omega (arith, swapped-length) in
        rw
          (p.here, p.mine, end_place, p.at_end, swapped-here, p.end_worker, end_place', swapped-end)

    -- The thread of `self` then ends.
    abbrev pub final : Worker T → Executor T
    final u =
        set_pc self u gone
          (record after { awaiting = if is_terminated_locked after then 0 else e.awaiting })

    after-last :
        get_elem? after.objects last ≡ some (record moved { worker_index = w.worker_index })
    after-last = get_elem?-set_self e.objects last _ (lt-length e.objects last p.end_worker)

    after-other : (q : ℕ) → q ≢ last → get_elem? after.objects q ≡ get_elem? e.objects q
    after-other q ne = get_elem?-set_ne e.objects _ (λ h. ne (sym h))

    pub after_self : (u : Worker T) × (get_elem? after.objects self ≡ some u) × (u.pc ≡ w.pc)
    after_self = elim (ℕ_discrete self last) [
      | yes same ↦ (
        record moved { worker_index = w.worker_index },
        ap (get_elem? after.objects) same ∙ after-last,
        ground (arith, p.here, p.end_worker),
      )
      | no other ↦ (w, after-other self other ∙ p.here, refl)
    ]

    final_self : (u : Worker T) → get_elem? (final u).objects self ≡ some (record u { pc = gone })
    final_self u = get_elem?-set_self after.objects self _ (
        omega (
          arith,
          length-set e.objects last (record moved { worker_index = w.worker_index }),
          lt-length e.objects self p.here,
        ))

    final-other :
        (u : Worker T) (q : ℕ)
        → q ≢ self
        → get_elem? (final u).objects q ≡ get_elem? after.objects q
    final-other u q ne = get_elem?-set_ne after.objects _ (λ h. ne (sym h))

    -- The last worker is `self` exactly if the indices say so.
    last-ne : w.worker_index ≢ n → last ≢ self
    last-ne ne q = ground (arith, p.here, p.end_worker, p.end_index)

    index-ne : last ≢ self → w.worker_index ≢ n
    index-ne ne q =
        ne (some-injective last self (sym p.at_end ∙ ap (get_elem? e.workers) (sym q) ∙ p.mine))

    pub final-listed :
        (u : Worker T)
        → Indexed e
        → (j q : ℕ) → get_elem? (take n (swapped e self w n last)) j ≡ some q
        → (v : Worker T) × (get_elem? (final u).objects q ≡ some v)
          × (v.worker_index ≡ j)
          × (alive v ≡ 1)
    final-listed u x j q h =
        let below : j < n = omega (
          arith,
          lt-length (take n (swapped e self w n last)) j h,
          length-take n (swapped e self w n last),
        ) in
        let h' = sym (get_elem?-take n (swapped e self w n last) j below) ∙ h in
        elim (ℕ_discrete j w.worker_index) [
          | yes same ↦
              let ne : last ≢ self = last-ne (omega arith) in
              let is_last : q ≡ last =
                some-injective q last
                  (sym h' ∙ ap (get_elem? (swapped e self w n last)) same ∙ swapped-here) in
              (
                record moved { worker_index = w.worker_index },
                ap (get_elem? (final u).objects) is_last ∙ final-other u last ne ∙ after-last,
                sym same,
                p.end_live,
              )
          | no other ↦
              let (v, at, index, live) =
                x.listed j q (sym (swapped-other j (omega arith) other) ∙ h') in
              let ne_last : q ≢ last = λ e1. ground (arith, at, p.end_worker, p.end_index) in
              let ne_self : q ≢ self = λ e1. ground (arith, at, p.here) in
              (v, final-other u q ne_self ∙ after-other q ne_last ∙ at, index, live)
        ]

    pub final-enlisted :
        (u : Worker T)
        → Indexed e
        → (q : ℕ) (v : Worker T) → get_elem? (final u).objects q ≡ some v
        → alive v ≡ 1
        → get_elem? (take n (swapped e self w n last)) v.worker_index ≡ some q
    final-enlisted u x q v h live = elim (ℕ_discrete q self) [
      | yes same ↦ absurd (ground (arith, h, final_self u))
      | no ne_self ↦ elim (ℕ_discrete q last) [
        | yes is_last ↦
            let below : w.worker_index < n =
              omega (arith, p.within, index-ne (λ e1. ne_self (is_last ∙ e1))) in
            let v_is : some v ≡ some (record moved { worker_index = w.worker_index }) =
              sym h ∙ final-other u q ne_self ∙ ap (get_elem? after.objects) is_last ∙ after-last in
            let index : v.worker_index ≡ w.worker_index = ground arith in
            ap (get_elem? (take n (swapped e self w n last))) index
            ∙ get_elem?-take n (swapped e self w n last) w.worker_index below
            ∙ swapped-here
            ∙ ap some (sym is_last)
        | no ne_last ↦
            let at : get_elem? e.workers v.worker_index ≡ some q =
              x.enlisted q v (sym (after-other q ne_last) ∙ sym (final-other u q ne_self) ∙ h)
                live in
            let ne_end : v.worker_index ≢ n = λ e1.
              ne_last (some-injective q last (sym at ∙ ap (get_elem? e.workers) e1 ∙ p.at_end)) in
            let ne_mine : v.worker_index ≢ w.worker_index = λ e1.
              ne_self (some-injective q self (sym at ∙ ap (get_elem? e.workers) e1 ∙ p.mine)) in
            get_elem?-take n (swapped e self w n last) v.worker_index
              (omega (arith, lt-length e.workers v.worker_index at, p.size))
            ∙ swapped-other v.worker_index ne_end ne_mine
            ∙ at
      ]
    ]
