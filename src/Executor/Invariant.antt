-- ===== src/Executor/Invariant.antt =====
-- The invariant of a `ThreadPoolExecutor` with its callers: every step keeps it.
use Prim.Native.Nat.{max}
use mathlib.Core.Option.{some-injective}
use mathlib.Core.Path.{subst}
use concurrency_cpp.Base.{
  ℕ, ◌+◌, ◌^◌, ◌<◌, ◌≡◌, refl, sym, ◌∙◌, ap, inl, inr, true, false, Option, some, List, [], ◌∷◌,
  ◌++◌, arith, length, length-append, get_elem?, Bool-cases,
}
use concurrency_cpp.Base.Threads.{le-total}
use concurrency_cpp.Executor.{
  running, leaving, Worker, Executor, is_terminated_locked, insert_task_locked, shutdown,
  await_termination, finish, exit, make,
}
use concurrency_cpp.Executor.Fetching.{Came, sleep, quit, take}
use concurrency_cpp.Executor.Places.{Indexed}
use concurrency_cpp.Executor.Removal.{Exited, exit_lem}
use concurrency_cpp.Executor.Indices.{
  Indexed-set, Indexed-Notified, insert_task_locked-Indexed, shutdown-Indexed,
}
use concurrency_cpp.Executor.Counts.{
  Counted, Came-Counted, finish-Counted, insert_task_locked-Counted, shutdown-Counted,
  Notified-total, Exited-Counted,
}
use concurrency_cpp.Executor.Sleepers.{
  Covered, Came-Covered, finish-Covered, Exited-Covered, insert-Covered, shutdown-Covered,
}
use concurrency_cpp.Executor.Making.{make-Fresh, make-Counted, make-Covered}
use concurrency_cpp.Executor.System.{sleeps, ready, runs, alive, Notified}

module _ {T : Type 0} where
  -- What holds of an executor whenever no thread has the lock: the array of workers fits their
  -- indices, the counters fit the threads, the wakeups fit the queue, and nobody waits for the end
  -- of a terminated executor.
  pub record Sound (e : Executor T) : Type 0 where
    pub indexed : Indexed e
    pub counted : Counted e
    pub covered : Covered e
    pub released : is_terminated_locked e ≡ true → e.awaiting ≡ 0

  -- An executor with a live thread has not terminated.
  pub live-not_terminated :
      (e : Executor T) (self : ℕ) {w : Worker T}
      → Counted e
      → get_elem? e.objects self ≡ some w
      → alive w ≡ 1
      → is_terminated_locked e ≡ false
  unfolding is_terminated_locked
  live-not_terminated e self c at live = ground (arith, c.pool, le-total alive e.objects self at)

  module _ (e : Executor T) (self : ℕ) (w : Worker T) (at : get_elem? e.objects self ≡ some w) where
    Came-Indexed :
        {r : Option T × Executor T} → Came self w e r → alive w ≡ 1 → Indexed e → Indexed r.1
    Came-Indexed (sleep h s) live x = Indexed-set e _ self w _ at (refl, ground arith) refl refl x
    Came-Indexed (quit h why) live x = Indexed-set e _ self w _ at (refl, ground arith) refl refl x
    Came-Indexed (take t q h) live x = Indexed-set e _ self w _ at (refl, ground arith) refl refl x

    Came-live :
        {r : Option T × Executor T}
        → Came self w e r
        → (r.1.workers ≡ e.workers) × (r.1.awaiting ≡ e.awaiting)
    Came-live (sleep h s) = (refl, refl)
    Came-live (quit h why) = (refl, refl)
    Came-live (take t q h) = (refl, refl)

    nonempty_not_terminated :
        (e' : Executor T)
        → e'.workers ≡ e.workers
        → Counted e
        → alive w ≡ 1
        → is_terminated_locked e' ≡ false
    unfolding is_terminated_locked
    nonempty_not_terminated e' same c live =
        ground (arith, ap length same, c.pool, le-total alive e.objects self at)

    pub Came-Sound :
        {r : Option T × Executor T} → Came self w e r → ready w + sleeps w ≡ 1 → Sound e → Sound r.1
    Came-Sound {r} c here s =
        let live : alive w ≡ 1 = ground arith in
        record {
          indexed = Came-Indexed c live s.indexed;
          counted = Came-Counted e self w at c (ground arith) live s.counted;
          covered = Came-Covered e self w at c here s.covered;
          released = λ q.
              absurd
                (ground (arith, q, nonempty_not_terminated r.1 (Came-live c).0 s.counted live));
        }

    pub finish-Sound : (t : T) → w.pc ≡ running t → Sound e → Sound (finish self w e)
    unfolding finish
    finish-Sound t h s =
        let live : alive w ≡ 1 = ground arith in
        record {
          indexed = Indexed-set e _ self w _ at (refl, ground arith) refl refl s.indexed;
          counted = finish-Counted e self w at t h s.counted;
          covered = finish-Covered e self w at t h s.covered;
          released = λ q.
              absurd
                (ground (arith, q, nonempty_not_terminated (finish self w e) refl s.counted live));
        }

    pub exit-Sound :
        {e' : Executor T}
        → w.pc ≡ leaving
        → exit self e ≡ some e'
        → Sound e
        → Exited e e' self × Sound e'
    exit-Sound {e'} h q s =
        let (e1, q1, x1) = exit_lem e self w s.indexed at h in
        let x = subst (λ u. Exited e u self) (some-injective e1 e' (sym q1 ∙ q)) x1 in
        (
          x,
          record {
            indexed = x.indexed;
            counted = Exited-Counted x s.counted;
            covered = Exited-Covered x s.covered;
            released = λ h. x.awaiting ∙ rw h refl;
          },
        )

  pub insert_task_locked-queue :
      (t : T) (e : Executor T) → (insert_task_locked t e).task_queue ≡ e.task_queue ++ (t ∷ [])
  unfolding insert_task_locked
  insert_task_locked-queue t e = ground arith

  queued-not_terminated :
      (e : Executor T) (xs : List T) (t : T)
      → e.task_queue ≡ xs ++ (t ∷ [])
      → is_terminated_locked e ≡ false
  unfolding is_terminated_locked
  queued-not_terminated e xs t q = ground (arith, ap length q, length-append xs (t ∷ []))

  Notified-Counted :
      (e : Executor T) {ws : List (Worker T)}
      → Notified e.objects ws
      → Counted e
      → Counted (record e { objects = ws })
  Notified-Counted e n c = record {
    active = c.active ∙ sym (Notified-total runs (λ w. ground arith) n);
    pool = c.pool ∙ sym (Notified-total alive (λ w. ground arith) n);
    bound = c.bound;
    fits = c.fits;
  }

  pub insert-Sound :
      (t : T) (e : Executor T) {ws : List (Worker T)}
      → Notified (insert_task_locked t e).objects ws
      → Sound e
      → Sound (record (insert_task_locked t e) { objects = ws })
  insert-Sound t e {ws} n s = record {
    indexed =
        Indexed-Notified (insert_task_locked t e) n (insert_task_locked-Indexed t e s.indexed);
    counted =
        Notified-Counted (insert_task_locked t e) n (insert_task_locked-Counted t e s.counted);
    covered = insert-Covered t e n s.covered;
    released = λ q. absurd (
        ground (
          arith,
          q,
          queued-not_terminated (record (insert_task_locked t e) { objects = ws }) e.task_queue t
              (insert_task_locked-queue t e),
        ));
  }

  shutdown-released :
      (e : Executor T) → is_terminated_locked (shutdown e) ≡ true → (shutdown e).awaiting ≡ 0
  unfolding shutdown is_terminated_locked
  shutdown-released e = elim (Bool-cases (is_terminated_locked (record e { shut = true }))) [
    | inl over ↦ rw over (λ q. refl)
    | inr more ↦ rw more (λ q. absurd (ground (arith, q, more)))
  ]

  pub shutdown-Sound : (e : Executor T) → Sound e → Sound (shutdown e)
  shutdown-Sound e s = record {
    indexed = shutdown-Indexed e s.indexed;
    counted = shutdown-Counted e s.counted;
    covered = shutdown-Covered e s.counted s.covered;
    released = shutdown-released e;
  }

  awaiting-Sound :
      (e : Executor T) (k : ℕ)
      → (is_terminated_locked e ≡ true → k ≡ 0)
      → Sound e
      → Sound (record e { awaiting = k })
  unfolding is_terminated_locked
  awaiting-Sound e k none_waits s = record {
    indexed = record { listed = s.indexed.listed; enlisted = s.indexed.enlisted };
    counted = record {
      active = s.counted.active;
      pool = s.counted.pool;
      bound = s.counted.bound;
      fits = s.counted.fits;
    };
    covered = record { awake = s.covered.awake; none_left_asleep = s.covered.none_left_asleep };
    released = none_waits;
  }

  pub await-Sound : (e : Executor T) → Sound e → Sound (await_termination e)
  unfolding await_termination
  await-Sound e s = elim (Bool-cases (is_terminated_locked e)) [
    | inl over ↦ rw over s
    | inr more ↦
        rw more (awaiting-Sound e (e.awaiting + 1) (λ q. absurd (ground (arith, q, more))) s)
  ]

  pub make-Sound : (c m : ℕ) → max c m < 2 ^ 64 → Sound (make {T = T} c m)
  make-Sound c m fits =
      let f = make-Fresh c m in
      record {
        indexed = f.indexed;
        counted = make-Counted c m fits;
        covered = make-Covered c m;
        released = λ q. f.none_sleeps.1;
      }
