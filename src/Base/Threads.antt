-- ===== src/Base/Threads.antt =====
-- The threads of a system as a list of local states, and sums of a weight over all of them.
use mathlib.Core.List.{map}
use Prim.Native.Nat.{ℕ, zero, suc, ◌+◌, ◌≤◌, ◌<◌}
use mathlib.Core.Path.{◌≡◌, refl, ap}
use mathlib.Core.Logic.{◌≢◌}
use mathlib.Core.List.{List, [], ◌∷◌, ◌++◌}
use mathlib.Core.Option.{some}
use native.Mathlib.Omega.{arith}
use concurrency_cpp.Base.Lists.{length, get_elem?, set, replicate}

module _ {ℓ} {A : Type ℓ} (w : A → ℕ) where
  unfoldable pub total : List A → ℕ
  total [] = 0
  total (p ∷ ts) = w p + total ts

  -- The sum changes by what the one thread contributes.
  pub total-set :
      (ts : List A) (i : ℕ) {p : A} (q : A)
      → get_elem? ts i ≡ some p
      → total (set ts i q) + w p ≡ total ts + w q
  unfolding total
  total-set [] i q e = cc
  total-set (x ∷ ts) zero q e = ground arith
  total-set (x ∷ ts) (suc i) q e = omega (arith, total-set ts i q e)

  pub le-total : (ts : List A) (i : ℕ) {p : A} → get_elem? ts i ≡ some p → w p ≤ total ts
  unfolding total
  le-total [] i e = cc
  le-total (x ∷ ts) zero e = ground arith
  le-total (x ∷ ts) (suc i) e = omega (arith, le-total ts i e)

  -- Two threads contribute apart.
  pub add-le-total :
      (ts : List A) (i j : ℕ) {p q : A}
      → i ≢ j
      → get_elem? ts i ≡ some p
      → get_elem? ts j ≡ some q
      → w p + w q ≤ total ts
  unfolding total
  add-le-total [] i j ne e f = cc
  add-le-total (x ∷ ts) zero zero ne e f = absurd (ne refl)
  add-le-total (x ∷ ts) zero (suc j) ne e f = ground (arith, le-total ts j f)
  add-le-total (x ∷ ts) (suc i) zero ne e f = ground (arith, le-total ts i e)
  add-le-total (x ∷ ts) (suc i) (suc j) ne e f =
      omega (arith, add-le-total ts i j (λ h. ne (ap suc h)) e f)

  -- A positive sum has a thread that contributes.
  pub contributor :
      (ts : List A) → 0 < total ts → (i : ℕ) × (p : A) × (get_elem? ts i ≡ some p) × (0 < w p)
  unfolding total
  contributor [] h = absurd (omega arith)
  contributor (x ∷ ts) h = at_head (w x) refl (contributor ts)
    where
      at_head :
          (k : ℕ)
          → w x ≡ k
          → (0 < total ts → (i : ℕ) × (p : A) × (get_elem? ts i ≡ some p) × (0 < w p))
          → (i : ℕ) × (p : A) × (get_elem? (x ∷ ts) i ≡ some p) × (0 < w p)
      at_head zero e rest = let (i, p, at, pos) = rest (omega arith) in (suc i, p, at, pos)
      at_head (suc k) e rest = (0, x, refl, omega arith)

  pub total-le-length : ((a : A) → w a ≤ 1) → (ts : List A) → total ts ≤ length ts
  unfolding total
  total-le-length small [] = omega arith
  total-le-length small (x ∷ ts) = omega (arith, small x, total-le-length small ts)

  -- A change made to all threads that keeps each one's weight keeps the sum.
  pub total-map :
      (f : A → A) → ((a : A) → w (f a) ≡ w a) → (ts : List A) → total (map f ts) ≡ total ts
  unfolding total
  total-map f same [] = refl
  total-map f same (x ∷ ts) = omega (arith, same x, total-map f same ts)

  pub total-replicate : (n : ℕ) (a : A) → w a ≡ 0 → total (replicate n a) ≡ 0
  unfolding total
  total-replicate zero a h = refl
  total-replicate (suc n) a h = omega (arith, total-replicate n a h)

  pub total-append : (ts us : List A) → total (ts ++ us) ≡ total ts + total us
  unfolding total
  total-append [] us = omega arith
  total-append (x ∷ ts) us = omega (arith, total-append ts us)

  pub total-set_same :
      (ts : List A) (i : ℕ) {p : A} (q : A)
      → w q ≡ w p
      → get_elem? ts i ≡ some p
      → total (set ts i q) ≡ total ts
  total-set_same ts i q same at = omega (arith, total-set ts i q at)

module _ {ℓ} {A : Type ℓ} (v w : A → ℕ) where
  pub total_mono : ((a : A) → v a ≤ w a) → (ts : List A) → total v ts ≤ total w ts
  unfolding total
  total_mono le [] = omega arith
  total_mono le (x ∷ ts) = omega (arith, le x, total_mono le ts)

  pub total-add : (ts : List A) → total (λ a. v a + w a) ts ≡ total v ts + total w ts
  unfolding total
  total-add [] = omega arith
  total-add (x ∷ ts) = omega (arith, total-add ts)

  -- The same of the other threads.
  pub total_mono_rest :
      ((a : A) → v a ≤ w a)
      → (ts : List A) (i : ℕ) {p : A} → get_elem? ts i ≡ some p
      → total v ts + w p ≤ total w ts + v p
  unfolding total
  total_mono_rest le [] i e = cc
  total_mono_rest le (x ∷ ts) zero e = ground (arith, total_mono le ts)
  total_mono_rest le (x ∷ ts) (suc i) e = omega (arith, le x, total_mono_rest le ts i e)

  pub total-map_zero :
      (f : A → A) → ((a : A) → v (f a) ≡ 0) → (ts : List A) → total v (map f ts) ≡ 0
  unfolding total
  total-map_zero f gone [] = refl
  total-map_zero f gone (x ∷ ts) = omega (arith, gone x, total-map_zero f gone ts)
