-- ===== src/PthreadWrapper/LocalPtr/Deletion.antt =====
-- The objects of a `PThreadLocalPtr` are deleted when their threads end.
use mathlib.Core.Option.{some-injective}
use mathlib.Core.Path.{subst}
use native.Mathlib.Decide.{ℕ_discrete}
use concurrency_cpp.Base.{
  ℕ, ◌≤◌, ◌<◌, ◌≡◌, ◌≢◌, refl, sym, ◌∙◌, ap, ◌⊎◌, inl, inr, Option, none, some, List, [], ◌∷◌,
  arith, if◌then◌else◌, ◌==◌, Option-cases,
}
use concurrency_cpp.Base.Threads.{total}
use concurrency_cpp.PthreadWrapper.LocalPtr.{
  ThreadSpecific, Event, dereferences, ends, LocalPtr, held, make, initialize, get, deleter,
  end_thread, happen,
}
use concurrency_cpp.PthreadWrapper.LocalPtr.Objects.{
  Documented, Inv, none-some, holds_new, others_hold, new_or_old, initialize-After, make-Inv,
}

-- How often an object was deleted.
abbrev pub times : ℕ → List ℕ → ℕ
times t deleted = total (λ u. if t == u then 1 else 0) deleted

module _ {S : Type 0} (pthread : ThreadSpecific S) where
  -- A thread holds the object, which was not deleted; or it was deleted once, and nobody holds it.
  abbrev pub IsAccounted : LocalPtr pthread → List ℕ → ℕ → Type 0
  IsAccounted l deleted t =
      ((thread : ℕ) × (held pthread thread l ≡ some t) × (times t deleted ≡ 0))
      ⊎ (((thread : ℕ) → held pthread thread l ≢ some t) × (times t deleted ≡ 1))

  module _ (documented : Documented pthread) (from : ℕ) where
    -- `from`: where the objects begin.
    record Ledger (u : LocalPtr pthread × List ℕ) : Type 0 where
      inv : Inv pthread documented u.0
      accounted : (t : ℕ) → from ≤ t → t < u.0.allocated → IsAccounted u.0 u.1 t
      unborn : (t : ℕ) → u.0.allocated ≤ t → times t u.1 ≡ 0

    -- The thread holds nothing, and so none of the objects that others hold.
    other_holder :
        (thread other t : ℕ) (l : LocalPtr pthread)
        → held pthread thread l ≡ none
        → held pthread other l ≡ some t
        → thread ≢ other
    other_holder thread other t l null e same =
        none-some pthread documented (sym null ∙ ap (λ o. held pthread o l) same ∙ e)

    initialize-Ledger :
        (thread : ℕ) (l : LocalPtr pthread) (deleted : List ℕ)
        → held pthread thread l ≡ none
        → Ledger (l, deleted)
        → Ledger ((initialize pthread thread l).1, deleted)
    unfolding initialize
    initialize-Ledger thread l deleted null g = record {
      inv = (initialize-After pthread documented thread l g.inv null).inv;
      accounted = λ t old new. elim (ℕ_discrete l.allocated t) [
        | yes same ↦ inl (
          thread,
          holds_new pthread documented thread l ∙ ap some same,
          g.unborn t (omega (arith, same)),
        )
        | no ne ↦ elim (g.accounted t old (omega (arith, new, ne))) [
          | inl (other, holds, kept) ↦ inl (
            other,
            others_hold pthread documented thread l other (other_holder thread other t l null holds)
                ∙ holds,
            kept,
          )
          | inr (none_holds, once) ↦ inr (
            λ other e. elim (new_or_old pthread documented thread l other t e) [
              | inl (is_thread, is_new) ↦ ne is_new
              | inr before ↦ none_holds other before
            ],
            once,
          )
        ]
      ];
      unborn = λ t above. g.unborn t (omega (arith, above));
    }

    module _ (thread : ℕ) (l : LocalPtr pthread) where
      abbrev ended : LocalPtr pthread
      ended = record l { specific = (pthread.pthread_exit thread l.key l.specific).1 }

      ended_self : held pthread thread ended ≡ none
      ended_self = documented.get-exit thread l.key l.specific

      ended_other : (other : ℕ) → thread ≢ other → held pthread other ended ≡ held pthread other l
      ended_other other ne = documented.get-exit_other thread other l.key l.specific ne

      -- What is held after the end of a thread was held before, by another.
      held_before :
          (other t : ℕ)
          → held pthread other ended ≡ some t
          → (thread ≢ other) × (held pthread other l ≡ some t)
      held_before other t e =
          let ne = other_holder thread other t ended ended_self e in
          (ne, sym (ended_other other ne) ∙ e)

      ended-Inv : Inv pthread documented l → Inv pthread documented ended
      ended-Inv inv = record {
        below = λ other t e. inv.below other t (held_before other t e).1;
        own = λ a b t e f. inv.own a b t (held_before a t e).1 (held_before b t f).1;
      }

      -- An object that the thread does not hold is accounted for as before.
      ended-IsAccounted :
          (deleted : List ℕ) (t : ℕ)
          → held pthread thread l ≢ some t
          → IsAccounted l deleted t
          → IsAccounted ended deleted t
      ended-IsAccounted deleted t other_object (inl (other, holds, kept)) =
          let ne : thread ≢ other =
            λ same. other_object (ap (λ o. held pthread o l) same ∙ holds) in
          inl (other, ended_other other ne ∙ holds, kept)
      ended-IsAccounted deleted t other_object (inr (none_holds, once)) =
          inr (λ other e. none_holds other (held_before other t e).1, once)

      held_kept :
          (deleted : List ℕ) (t : ℕ)
          → held pthread thread l ≡ some t
          → IsAccounted l deleted t
          → times t deleted ≡ 0
      held_kept deleted t holds (inl (other, _, kept)) = kept
      held_kept deleted t holds (inr (none_holds, once)) = absurd (none_holds thread holds)

      other_deleted :
          (deleted : List ℕ) (t deleted_one : ℕ)
          → t ≢ deleted_one
          → IsAccounted l deleted t
          → IsAccounted l (deleted_one ∷ deleted) t
      unfolding total
      other_deleted deleted t one ne (inl (other, holds, kept)) =
          inl (other, holds, ground (arith, kept, ne))
      other_deleted deleted t one ne (inr (none_holds, once)) =
          inr (none_holds, ground (arith, once, ne))

      nothing_deleted :
          (deleted : List ℕ)
          → held pthread thread l ≡ none
          → Ledger (l, deleted)
          → Ledger (ended, deleted)
      nothing_deleted deleted null g = record {
        inv = ended-Inv g.inv;
        accounted = λ t old new.
            ended-IsAccounted deleted t (λ e. none-some pthread documented (sym null ∙ e))
              (g.accounted t old new);
        unborn = g.unborn;
      }

      one_deleted :
          (deleted : List ℕ) (t : ℕ)
          → held pthread thread l ≡ some t
          → Ledger (l, deleted)
          → Ledger (ended, t ∷ deleted)
      unfolding total
      one_deleted deleted t holds g = record {
        inv = ended-Inv g.inv;
        accounted = λ u old new. elim (ℕ_discrete u t) [
          | yes same ↦
              let mine : held pthread thread l ≡ some u = holds ∙ ap some (sym same) in
              inr (
                λ other e.
                    let (ne, before) = held_before other u e in
                    ne (g.inv.own thread other u mine before),
                ground (arith, same, held_kept deleted u mine (g.accounted u old new)),
              )
          | no ne ↦
              ended-IsAccounted (t ∷ deleted) u (λ e. ne (some-injective u t (sym e ∙ holds)))
                (other_deleted deleted u t ne (g.accounted u old new))
        ];
        unborn = λ u above. ground (arith, g.unborn u above, g.inv.below thread t holds);
      }

    end_thread-Ledger :
        (thread : ℕ) (l : LocalPtr pthread) (deleted : List ℕ)
        → Ledger (l, deleted)
        → Ledger (end_thread pthread thread (l, deleted))
    unfolding end_thread deleter
    end_thread-Ledger thread l deleted g =
        let outcome : Option ℕ → LocalPtr pthread × List ℕ =
          λ o. (ended thread l, elim o [ none ↦ deleted | some t ↦ t ∷ deleted ]) in
        let passed = documented.exit-get thread l.key l.specific in
        elim (Option-cases (held pthread thread l)) [
          | inl null ↦
              subst Ledger (sym (ap outcome (passed ∙ null)))
                (nothing_deleted thread l deleted null g)
          | inr here ↦
              subst Ledger (sym (ap outcome (passed ∙ here.1)))
                (one_deleted thread l deleted here.0 here.1 g)
        ]

    get-Ledger :
        (thread : ℕ) (l : LocalPtr pthread) (deleted : List ℕ)
        → Ledger (l, deleted)
        → Ledger ((get pthread thread l).1, deleted)
    unfolding get
    get-Ledger thread l deleted g =
        let found : Option ℕ → ℕ × LocalPtr pthread =
          λ o. elim o [ some t ↦ (t, l) | none ↦ initialize pthread thread l ] in
        let kept : Option ℕ → LocalPtr pthread × List ℕ = λ o. ((found o).1, deleted) in
        elim (Option-cases (held pthread thread l)) [
          | inl null ↦ subst Ledger (sym (ap kept null)) (initialize-Ledger thread l deleted null g)
          | inr here ↦ subst Ledger (sym (ap kept here.1)) g
        ]

    happen-Ledger :
        (es : List Event) (u : LocalPtr pthread × List ℕ) → Ledger u → Ledger (happen pthread es u)
    unfolding happen
    happen-Ledger [] u g = g
    happen-Ledger (dereferences thread ∷ es) (l, deleted) g =
        happen-Ledger es _ (get-Ledger thread l deleted g)
    happen-Ledger (ends thread ∷ es) (l, deleted) g =
        happen-Ledger es _ (end_thread-Ledger thread l deleted g)

  -- Where the key is created, after any sequence of dereferences by threads and of ends of threads,
  -- each object that a new pointer has made is held by a thread and was not deleted, or it
  -- was deleted exactly once and no thread holds it.
  pub objects_deleted_once :
      Documented pthread
      → (allocated : ℕ) (s : S) (es : List Event) → (pthread.pthread_key_create s).0 ≡ 0
      → (t : ℕ) → allocated ≤ t
      → t < (happen pthread es (make pthread allocated s, [])).0.allocated
      → IsAccounted
          (happen pthread es (make pthread allocated s, [])).0
          (happen pthread es (make pthread allocated s, [])).1
          t
  unfolding make total
  objects_deleted_once documented allocated s es created t old new =
      let g : Ledger documented allocated (make pthread allocated s, []) = record {
        inv = make-Inv pthread documented allocated s created;
        accounted = λ u old' new'. absurd (omega (arith, old', new'));
        unborn = λ u above. refl;
      } in
      (happen-Ledger documented allocated es (make pthread allocated s, []) g).accounted t old new
