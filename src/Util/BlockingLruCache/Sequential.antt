-- ===== src/Util/BlockingLruCache/Sequential.antt =====
-- The calls on a `BlockingLRUCache` happen one after the other.
use mathlib.Core.Option.{some-injective}
use mathlib.Core.Path.{subst}
use concurrency_cpp.Base.{
  ℕ, ◌^◌, ◌<◌, ◌≡◌, ◌≢◌, refl, sym, ◌∙◌, ap, Option, none, some, List, [], ◌∷◌, ◌++◌, arith,
  if◌then◌else◌, get_elem?, set, replicate, get_elem?-set_self, get_elem?-set_ne, lt-length,
}
use native.Mathlib.Decide.{ℕ_discrete}
use concurrency_cpp.Base.Partial.{◌>>=◌, bind_some}
use concurrency_cpp.Base.Threads.{total, total-set, le-total, add-le-total, total-replicate}
use concurrency_cpp.Util.LruCache
use concurrency_cpp.Util.LruCache.{Cache}
use concurrency_cpp.Util.LruCache.History.{Call, Answer, call, calls, ideals, call-ideal, history}
use concurrency_cpp.Util.BlockingLruCache.{
  BlockingCall, forwarded, Pc, outside, locking, working, unlocking, System, Step, begin, take_lock,
  work, give_lock, Reach, start, later,
}

abbrev pub holds_mtx : {K V P : Type 0} → Pc K V P → ℕ
holds_mtx p = elim p [ working c found ↦ 1 | unlocking a ↦ 1 | _ ↦ 0 ]

module _ {K V P : Type 0} (eq : Discrete K) (deref : V → P) where
  -- One more call, on what the others left.
  abbrev then_call :
      Call K V → List (Answer V P) × Cache K V → Option (List (Answer V P) × Cache K V)
  then_call q r = do r' ← call eq deref q r.1; some (r.0 ++ (r'.0 ∷ []), r'.1)

  abbrev after_call :
      Answer V P → List (Answer V P) × Cache K V → Option (List (Answer V P) × Cache K V)
  after_call a r = some (a ∷ r.0, r.1)

  snoc-cases :
      (a : Answer V P) (q : Call K V) (rest : Option (List (Answer V P) × Cache K V))
      → ((rest >>= then_call q) >>= after_call a) ≡ ((rest >>= after_call a) >>= then_call q)
  snoc-cases a q none = refl
  snoc-cases a q (some r) =
      elim (call eq deref q r.1)
        as (λ o.
          ((o >>= (λ r'. some (r.0 ++ (r'.0 ∷ []), r'.1))) >>= after_call a)
          ≡ (o >>= (λ r'. some ((a ∷ r.0) ++ (r'.0 ∷ []), r'.1)))) [ none ↦ refl | some r' ↦ refl ]

  calls-snoc :
      (qs : List (Call K V)) (q : Call K V) (c : Cache K V)
      → calls eq deref (qs ++ (q ∷ [])) c ≡ (calls eq deref qs c >>= then_call q)
  unfolding calls
  calls-snoc [] q c = refl
  calls-snoc (q' ∷ qs) q c =
      elim (call eq deref q' c)
        as (λ o.
          (o >>= (λ r. calls eq deref (qs ++ (q ∷ [])) r.1 >>= after_call r.0))
          ≡ ((o >>= (λ r. calls eq deref qs r.1 >>= after_call r.0)) >>= then_call q)) [
            | none ↦ refl
            | some r ↦
                ap (λ o. o >>= after_call r.0) (calls-snoc qs q r.1)
                ∙ snoc-cases r.0 q (calls eq deref qs r.1)
          ]

  record Inv (capacity : ℕ) (s : System K V P) : Type 0 where
    one_holder : total holds_mtx s.threads ≡ (if s.mtx then 1 else 0)
    current :
        (i : ℕ) (c : BlockingCall K V) (found : Cache K V)
        → get_elem? s.threads i ≡ some (working c found)
        → found ≡ s.unsynced_cache
    in_order :
        calls eq deref s.history (LruCache.make capacity) ≡ some (s.answers, s.unsynced_cache)

  set-current :
      (ts : List (Pc K V P)) (i : ℕ) {p : Pc K V P} (q : Pc K V P) (cache cache' : Cache K V)
      → get_elem? ts i ≡ some p
      → ((c : BlockingCall K V) (found : Cache K V) → q ≡ working c found → found ≡ cache')
      → ((j : ℕ) (c : BlockingCall K V) (found : Cache K V)
          → i ≢ j
          → get_elem? ts j ≡ some (working c found)
          → found ≡ cache')
      → (j : ℕ) (c : BlockingCall K V) (found : Cache K V)
      → get_elem? (set ts i q) j ≡ some (working c found)
      → found ≡ cache'
  set-current ts i q cache cache' here own others j c found e = elim (ℕ_discrete i j) [
    | yes same ↦ own c found (
        some-injective _ _ (
          sym (get_elem?-set_self ts i q (lt-length ts i here))
          ∙ ap (get_elem? (set ts i q)) same
          ∙ e))
    | no ne ↦ others j c found ne (sym (get_elem?-set_ne ts q ne) ∙ e)
  ]

  -- Only one thread is at work, or between its work and giving the mutex back.
  alone :
      {capacity : ℕ} {s : System K V P} (i j : ℕ) {p q : Pc K V P}
      → Inv capacity s
      → i ≢ j
      → get_elem? s.threads i ≡ some p
      → get_elem? s.threads j ≡ some q
      → holds_mtx p ≡ 1
      → holds_mtx q ≡ 0
  alone {s = s} i j inv ne e f one =
      ground (arith, inv.one_holder, add-le-total holds_mtx s.threads i j ne e f, one)

  Step-Inv :
      {capacity : ℕ} {s t : System K V P} → Step eq deref s t → Inv capacity s → Inv capacity t
  Step-Inv {s = s} (begin i c here) inv = record {
    one_holder = omega (arith, total-set holds_mtx s.threads i (locking c) here, inv.one_holder);
    current =
        set-current s.threads i (locking c) s.unsynced_cache s.unsynced_cache here
          (λ c' found e. ground arith) (λ j c' found ne e. inv.current j c' found e);
    in_order = inv.in_order;
  }
  Step-Inv {s = s} (take_lock i c here free) inv = record {
    one_holder = ground (
      arith,
      total-set holds_mtx s.threads i (working c s.unsynced_cache) here,
      inv.one_holder,
      free,
    );
    current =
        set-current s.threads i (working c s.unsynced_cache) s.unsynced_cache s.unsynced_cache here
          (λ c' found e. ap (λ p. elim p [ working c f ↦ f | _ ↦ s.unsynced_cache ]) (sym e))
          (λ j c' found ne e. inv.current j c' found e);
    in_order = inv.in_order;
  }
  Step-Inv {capacity} {s} (work i c found r here e) inv = record {
    one_holder =
        omega (arith, total-set holds_mtx s.threads i (unlocking r.0) here, inv.one_holder);
    current =
        set-current s.threads i (unlocking r.0) s.unsynced_cache r.1 here
          (λ c' found e. ground arith)
          (λ j c' found' ne f. ground (arith, alone {s = s} i j inv ne here f refl));
    in_order =
        calls-snoc s.history (forwarded c) (LruCache.make capacity)
        ∙ bind_some (then_call (forwarded c)) inv.in_order
        ∙ bind_some (λ r'. some (s.answers ++ (r'.0 ∷ []), r'.1))
            (subst (λ cache. call eq deref (forwarded c) cache ≡ some r)
              (inv.current i c found here) e);
  }
  Step-Inv {s = s} (give_lock i a here) inv = record {
    one_holder = ground (
      arith,
      total-set holds_mtx s.threads i outside here,
      inv.one_holder,
      le-total holds_mtx s.threads i here,
    );
    current =
        set-current s.threads i outside s.unsynced_cache s.unsynced_cache here
          (λ c' found e. ground arith) (λ j c' found ne e. inv.current j c' found e);
    in_order = inv.in_order;
  }

  Reach-Inv : {capacity n : ℕ} {s : System K V P} → Reach eq deref capacity n s → Inv capacity s
  unfolding calls
  Reach-Inv {capacity} {n} start = record {
    one_holder = total-replicate holds_mtx n outside refl;
    current = λ i c found e. absurd (none_works i n e);
    in_order = refl;
  }
    where
      none_works :
          (i n : ℕ) {c : BlockingCall K V} {found : Cache K V}
          → ¬ (get_elem? {A = Pc K V P} (replicate n outside) i ≡ some (working c found))
      none_works i n e =
          let none_holds : total (holds_mtx {K = K} {V = V} {P = P}) (replicate n outside) ≡ 0 =
            total-replicate holds_mtx n outside refl in
          omega (
            arith,
            le-total (holds_mtx {K = K} {V = V} {P = P}) (replicate n outside) i e,
            none_holds,
          )
  Reach-Inv (later r st) = Step-Inv st (Reach-Inv r)

  -- In every reachable state of a blocking cache, of a capacity that 32 bits hold, the calls that any
  -- number of threads have made so far gave the answers, and left the cache, of the same calls made
  -- one after the other on a new cache, in the order in which they held the mutex; those answers are
  -- the ones of the bounded list; and a thread at work meets no undefined behaviour.
  pub Reach-history :
      {capacity n : ℕ} {s : System K V P}
      → capacity < 2 ^ 32
      → Reach eq deref capacity n s
      → (calls eq deref s.history (LruCache.make capacity) ≡ some (s.answers, s.unsynced_cache))
        × (s.answers ≡ (ideals eq deref capacity s.history []).0)
        × ((i : ℕ) (c : BlockingCall K V) (found : Cache K V)
            → get_elem? s.threads i ≡ some (working c found)
            → (r : Answer V P × Cache K V) × (call eq deref (forwarded c) found ≡ some r))
  Reach-history {capacity} {s = s} small reach =
      let inv = Reach-Inv reach in
      let (c', e, represents) = history eq deref s.history capacity small in
      let same : (s.answers, s.unsynced_cache) ≡ ((ideals eq deref capacity s.history []).0, c') =
        some-injective _ _ (sym inv.in_order ∙ e) in
      (
        inv.in_order,
        ap (λ r. r.0) same,
        λ i c found here.
            let current : c' ≡ found = sym (inv.current i c found here ∙ ap (λ r. r.1) same) in
            let (c'', done, rest, same_capacity) =
              call-ideal eq deref (forwarded c) c' (ideals eq deref capacity s.history []).1
                represents in
            subst
              (λ cache. (r : Answer V P × Cache K V) × (call eq deref (forwarded c) cache ≡ some r))
              current (_, done),
      )
