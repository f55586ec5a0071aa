-- ===== src/Latch/Invariant.antt =====
-- A `Latch` opens when enough was counted, and leaves nobody asleep.
use concurrency_cpp.Base.{
  ℕ, ◌+◌, ◌≤◌, ◌<◌, ◌≡◌, refl, ◌⊎◌, inl, inr, Bool, true, false, some, List, arith, get_elem?, set,
  if◌then◌else◌,
}
use mathlib.Core.List.{map}
use concurrency_cpp.Base.Threads.{
  total, total-set, le-total, total-map, total-map_zero, total_mono_rest,
}
use concurrency_cpp.Latch.{
  Pc, outside, counting, locking, locked, notifying, calling, entering, testing, predicate,
  falling_asleep, waiting, is_ready, wait, wait_locked, wait_predicate, count_down_and_wait,
  after_count, Move, call_wait, call_count_down_and_wait, load, test, test_predicate, fall_asleep,
  release, Acquire, enter, sync, wake_up, Calls, call_count_down, count_one, wake, holds,
}

-- Weights of a thread.
abbrev pub asleep : Pc → ℕ
asleep p = elim p [ waiting b ↦ (elim b [ true ↦ 1 | false ↦ 0 ]) | _ ↦ 0 ]

abbrev pub falls : Pc → ℕ
falls p = elim p [ falling_asleep ↦ 1 | _ ↦ 0 ]

abbrev pub syncs : Pc → ℕ
syncs p = elim p [ locking b ↦ 1 | _ ↦ 0 ]

abbrev pub tells : Pc → ℕ
tells p = elim p [ locked b ↦ 1 | notifying b ↦ 1 | _ ↦ 0 ]

-- The four sums: holders of the mutex, sleepers, threads about to sleep, and, of the threads that
-- will notify, the ones that have still to take the mutex and the others. Once the counter is 0 or
-- less, a sleeper will be notified, and a thread about to sleep will sleep before the notification.
pub record Covered (v h a f y t : ℕ) : Type 0 where
  pub mutex : h ≤ 1
  pub held : f ≤ h
  pub told : is_ready v ≡ true → (0 < y) ⊎ ((f ≡ 0) × ((0 < t) ⊎ (a ≡ 0)))

abbrev pub IsCovered : ℕ → List Pc → Type 0
IsCovered v ps =
    Covered v (total holds ps) (total asleep ps) (total falls ps) (total syncs ps) (total tells ps)

-- A thread goes from `p` to `q`.
pub record Change (p q : Pc) (h a f y t h' a' f' y' t' : ℕ) : Type 0 where
  holding : h' + holds p ≡ h + holds q
  sleeping : a' + asleep p ≡ a + asleep q
  falling : f' + falls p ≡ f + falls q
  syncing : y' + syncs p ≡ y + syncs q
  telling : t' + tells p ≡ t + tells q
  here : (holds p ≤ h) × (falls p ≤ f)
  rest : f + holds p ≤ h + falls p

module _ {v h a f y t h' a' f' y' t' : ℕ} (c : Covered v h a f y t) where
  -- A load of the counter, from a place to one of two.
  load-Covered :
      (b : Bool) (p q : Pc)
      → is_ready v ≡ b
      → Change p (if b then outside else q) h a f y t h' a' f' y' t'
      → (asleep p ≡ 0)
        × (asleep q ≡ 0)
        × (holds q ≤ holds p)
        × (falls q ≤ holds q)
        × (falls p ≡ 0)
        × (syncs p ≡ 0)
        × (tells p ≡ 0)
        × (syncs q ≡ 0)
        × (tells q ≡ 0)
      → Covered v h' a' f' y' t'
  load-Covered true p q r d k =
      ground (arith, d.holding, d.sleeping, d.falling, d.syncing, d.telling, d.rest)
  load-Covered false p q r d k =
      ground (arith, d.holding, d.sleeping, d.falling, d.syncing, d.telling, d.rest)

  pub Move-Covered :
      {p q : Pc} → Move v p q → Change p q h a f y t h' a' f' y' t' → Covered v h' a' f' y' t'
  unfolding wait wait_locked wait_predicate count_down_and_wait
  Move-Covered call_wait d = load-Covered (is_ready v) outside entering refl d (ground arith)
  Move-Covered call_count_down_and_wait d =
      load-Covered (is_ready v) outside counting refl d (ground arith)
  Move-Covered load d = load-Covered (is_ready v) calling entering refl d (ground arith)
  Move-Covered test d = load-Covered (is_ready v) testing predicate refl d (ground arith)
  Move-Covered test_predicate d =
      load-Covered (is_ready v) predicate falling_asleep refl d (ground arith)
  Move-Covered fall_asleep d =
      ground (arith, d.holding, d.sleeping, d.falling, d.syncing, d.telling, d.here, d.rest)
  Move-Covered release d = ground arith

  pub Acquire-Covered :
      {p q : Pc}
      → Acquire p q
      → h ≡ 0
      → Change p q h a f y t h' a' f' y' t'
      → Covered v h' a' f' y' t'
  Acquire-Covered enter free d = ground arith
  Acquire-Covered sync free d = ground arith
  Acquire-Covered (wake_up {asleep}) free d = ground arith

  -- A count goes on to notify, or leaves the latch as open or shut as it was.
  pub count-Covered :
      {v' : ℕ} {p q : Pc} {n : ℕ} {b : Bool}
      → Calls p n b
      → (q ≡ locking b) ⊎ ((q ≡ after_count b) × (is_ready v' ≡ true → is_ready v ≡ true))
      → Change p q h a f y t h' a' f' y' t'
      → Covered v' h' a' f' y' t'
  count-Covered (call_count_down n) (inl e) d = ground arith
  count-Covered (call_count_down n) (inr (e, before)) d =
      ground (arith, d.rest, d.holding, d.sleeping, d.falling, d.syncing, d.telling)
  count-Covered count_one (inl e) d = ground arith
  count-Covered count_one (inr (e, before)) d =
      ground (arith, d.rest, d.holding, d.sleeping, d.falling, d.syncing, d.telling)

pub changed :
    (ps : List Pc) (i : ℕ) {p : Pc} (q : Pc)
    → get_elem? ps i ≡ some p
    → Change p q
        (total holds ps)
        (total asleep ps)
        (total falls ps)
        (total syncs ps)
        (total tells ps)
        (total holds (set ps i q))
        (total asleep (set ps i q))
        (total falls (set ps i q))
        (total syncs (set ps i q))
        (total tells (set ps i q))
changed ps i q at = record {
  holding = total-set holds ps i q at;
  sleeping = total-set asleep ps i q at;
  falling = total-set falls ps i q at;
  syncing = total-set syncs ps i q at;
  telling = total-set tells ps i q at;
  here = (le-total holds ps i at, le-total falls ps i at);
  rest = total_mono_rest falls holds (λ r. ground arith) ps i at;
}

pub notify_all-Covered :
    (v : ℕ) (ps : List Pc) (i : ℕ) {b : Bool}
    → get_elem? ps i ≡ some (notifying b)
    → IsCovered v ps
    → IsCovered v (map wake (set ps i (after_count b)))
notify_all-Covered v ps i {b} at c =
    let qs = set ps i (after_count b) in
    ground (
      arith,
      changed ps i (after_count b) at,
      total-map holds wake (λ r. ground arith) qs,
      total-map falls wake (λ r. ground arith) qs,
      total-map syncs wake (λ r. ground arith) qs,
      total-map_zero asleep asleep wake (λ r. ground arith) qs,
    )
