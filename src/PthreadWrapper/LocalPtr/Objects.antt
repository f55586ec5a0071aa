-- ===== src/PthreadWrapper/LocalPtr/Objects.antt =====
-- Each thread has one object of its own under a `PThreadLocalPtr`.
use mathlib.Core.Option.{some-injective}
use mathlib.Core.Path.{subst}
use native.Mathlib.Decide.{ℕ_discrete}
use concurrency_cpp.Base.{
  ℕ, zero, suc, ◌<◌, ◌≡◌, ◌≢◌, sym, ◌∙◌, ap, ◌↔◌, ◌⊎◌, inl, inr, Option, none, some, List, [], ◌∷◌,
  arith, get_elem?, Option-cases,
}
use concurrency_cpp.PthreadWrapper.LocalPtr.{
  ThreadSpecific, LocalPtr, held, make, initialize, get, gets,
}

-- What is documented of the pthread functions, where memory suffices.
pub record Documented {S : Type 0} (pthread : ThreadSpecific S) : Type 0 where
  pub set_succeeds : (thread key t : ℕ) (s : S) → (pthread.pthread_setspecific thread key t s).0 ≡ 0
  pub get-set :
      (thread key t : ℕ) (s : S)
      → (pthread.pthread_setspecific thread key t s).0 ≡ 0
      → pthread.pthread_getspecific thread key (pthread.pthread_setspecific thread key t s).1
        ≡ some t
  pub get-set_other :
      (thread other key t : ℕ) (s : S)
      → thread ≢ other
      → pthread.pthread_getspecific other key (pthread.pthread_setspecific thread key t s).1
        ≡ pthread.pthread_getspecific other key s
  pub get-create :
      (thread : ℕ) (s : S)
      → (pthread.pthread_key_create s).0 ≡ 0
      → pthread.pthread_getspecific thread
          (pthread.pthread_key_create s).1
          (pthread.pthread_key_create s).2
        ≡ none
  pub exit-get :
      (thread key : ℕ) (s : S)
      → (pthread.pthread_exit thread key s).0 ≡ pthread.pthread_getspecific thread key s
  pub get-exit :
      (thread key : ℕ) (s : S)
      → pthread.pthread_getspecific thread key (pthread.pthread_exit thread key s).1 ≡ none
  pub get-exit_other :
      (thread other key : ℕ) (s : S)
      → thread ≢ other
      → pthread.pthread_getspecific other key (pthread.pthread_exit thread key s).1
        ≡ pthread.pthread_getspecific other key s

module _ {S : Type 0} (pthread : ThreadSpecific S) (documented : Documented pthread) where
  pub record Inv (l : LocalPtr pthread) : Type 0 where
    pub below : (thread t : ℕ) → held pthread thread l ≡ some t → t < l.allocated
    pub own :
        (thread other t : ℕ)
        → held pthread thread l ≡ some t
        → held pthread other l ≡ some t
        → thread ≡ other

  pub none-some : {t : ℕ} → ¬ (none ≡ some t)
  none-some e = cc

  -- After a call the thread holds what it got, and the others what they held.
  pub record After (thread : ℕ) (l : LocalPtr pthread) (r : ℕ × LocalPtr pthread) : Type 0 where
    pub inv : Inv r.1
    pub gotten : held pthread thread r.1 ≡ some r.0
    pub kept : (other t : ℕ) → held pthread other l ≡ some t → held pthread other r.1 ≡ some t

  -- What a thread holds after `initialize`: the new object, or what it held.
  module _ (thread : ℕ) (l : LocalPtr pthread) where
    pub holds_new : held pthread thread (initialize pthread thread l).1 ≡ some l.allocated
    unfolding initialize
    holds_new =
        documented.get-set thread l.key l.allocated l.specific
          (documented.set_succeeds thread l.key l.allocated l.specific)

    pub others_hold :
        (other : ℕ)
        → thread ≢ other
        → held pthread other (initialize pthread thread l).1 ≡ held pthread other l
    unfolding initialize
    others_hold other ne = documented.get-set_other thread other l.key l.allocated l.specific ne

    pub new_or_old :
        (other u : ℕ)
        → held pthread other (initialize pthread thread l).1 ≡ some u
        → ((thread ≡ other) × (l.allocated ≡ u)) ⊎ (held pthread other l ≡ some u)
    new_or_old other u e = elim (ℕ_discrete thread other) [
      | yes same ↦ inl (
        same,
        some-injective _ _
            (sym holds_new ∙ ap (λ o. held pthread o (initialize pthread thread l).1) same ∙ e),
      )
      | no ne ↦ inr (sym (others_hold other ne) ∙ e)
    ]

  pub initialize-After :
      (thread : ℕ) (l : LocalPtr pthread)
      → Inv l
      → held pthread thread l ≡ none
      → After thread l (initialize pthread thread l)
  unfolding initialize
  initialize-After thread l inv null = record {
    inv = record {
      below = λ other u e. elim (new_or_old thread l other u e) [
        | inl new ↦ omega (arith, new.1)
        | inr old ↦ omega (arith, inv.below other u old)
      ];
      own = λ a b u e f. elim (new_or_old thread l a u e) [
        | inl new ↦ elim (new_or_old thread l b u f) [
          | inl new' ↦ sym new.0 ∙ new'.0
          | inr old' ↦ absurd (omega (arith, new.1, inv.below b u old'))
        ]
        | inr old ↦ elim (new_or_old thread l b u f) [
          | inl new' ↦ absurd (omega (arith, new'.1, inv.below a u old))
          | inr old' ↦ inv.own a b u old old'
        ]
      ];
    };
    gotten = holds_new thread l;
    kept = λ other u e. elim (ℕ_discrete thread other) [
      | yes same ↦ absurd (none-some (sym null ∙ ap (λ o. held pthread o l) same ∙ e))
      | no ne ↦ others_hold thread l other ne ∙ e
    ];
  }

  get-After : (thread : ℕ) (l : LocalPtr pthread) → Inv l → After thread l (get pthread thread l)
  unfolding get
  get-After thread l inv =
      let found : Option ℕ → ℕ × LocalPtr pthread =
        λ o. elim o [ some t ↦ (t, l) | none ↦ initialize pthread thread l ] in
      elim (Option-cases (held pthread thread l)) [
        | inl null ↦
            subst (After thread l) (sym (ap found null)) (initialize-After thread l inv null)
        | inr here ↦
            subst (After thread l) (sym (ap found here.1))
              (record { inv = inv; gotten = here.1; kept = λ other t e. e })
      ]

  gets-held :
      (threads : List ℕ) (l : LocalPtr pthread)
      → Inv l
      → Inv (gets pthread threads l).1
        × ((other t : ℕ)
            → held pthread other l ≡ some t
            → held pthread other (gets pthread threads l).1 ≡ some t)
        × ((i thread t : ℕ)
            → get_elem? threads i ≡ some thread
            → get_elem? (gets pthread threads l).0 i ≡ some t
            → held pthread thread (gets pthread threads l).1 ≡ some t)
  unfolding gets
  gets-held [] l inv = (inv, λ other t e. e, λ i thread t e. cc)
  gets-held (thread ∷ threads) l inv =
      let after = get-After thread l inv in
      let (inv', kept, gotten) = gets-held threads (get pthread thread l).1 after.inv in
      (
        inv',
        λ other t e. kept other t (after.kept other t e),
        λ i.
            elim i
              as (λ i.
                (other t : ℕ)
                → get_elem? (thread ∷ threads) i ≡ some other
                → get_elem?
                    ((get pthread thread l).0 ∷ (gets pthread threads (get pthread thread l).1).0) i
                  ≡ some t
                → held pthread other (gets pthread threads (get pthread thread l).1).1 ≡ some t) [
                  | zero ↦ λ other t e f.
                      subst
                        (λ o.
                          held pthread o (gets pthread threads (get pthread thread l).1).1 ≡ some t)
                        (some-injective _ _ e)
                        (kept thread (get pthread thread l).0 after.gotten ∙ f)
                  | suc i ↦ λ other t e f. gotten i other t e f
                ],
      )

  pub make-Inv :
      (allocated : ℕ) (s : S)
      → (pthread.pthread_key_create s).0 ≡ 0
      → Inv (make pthread allocated s)
  unfolding make
  make-Inv allocated s created = record {
    below = λ thread t e. absurd (none-some (sym (documented.get-create thread s created) ∙ e));
    own =
        λ thread other t e f. absurd (none-some (sym (documented.get-create thread s created) ∙ e));
  }

  -- Where the key is created, any calls of `get` by any threads on a new pointer give the same
  -- object exactly to the calls of the same thread.
  pub one_object_per_thread :
      (allocated : ℕ) (s : S) (threads : List ℕ)
      → (pthread.pthread_key_create s).0 ≡ 0
      → (i j thread other t u : ℕ) → get_elem? threads i ≡ some thread
      → get_elem? threads j ≡ some other
      → get_elem? (gets pthread threads (make pthread allocated s)).0 i ≡ some t
      → get_elem? (gets pthread threads (make pthread allocated s)).0 j ≡ some u
      → (t ≡ u) ↔ (thread ≡ other)
  one_object_per_thread allocated s threads created i j thread other t u called called' got got' =
      let l = make pthread allocated s in
      let (inv, kept, gotten) = gets-held threads l (make-Inv allocated s created) in
      let mine = gotten i thread t called got in
      let theirs = gotten j other u called' got' in
      (
        λ same. inv.own thread other u (mine ∙ ap some same) theirs,
        λ same.
            some-injective t u
              (sym mine ∙ ap (λ o. held pthread o (gets pthread threads l).1) same ∙ theirs),
      )
