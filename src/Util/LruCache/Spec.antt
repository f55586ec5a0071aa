-- ===== src/Util/LruCache/Spec.antt =====
-- What an LRU cache promises: a bounded list of pairs, most recently used first.
use mathlib.Core.Logic.{ite}
use concurrency_cpp.Base.{
  ℕ, ◌≡◌, ◌≢◌, refl, ap, Option, none, some, List, [], ◌∷◌, ◌++◌, arith, take,
}
use concurrency_cpp.Base.Chain.{Fresh}

module _ {K V : Type 0} (eq : Discrete K) where
  unfoldable pub lookup : K → List (K × V) → Option V
  lookup k [] = none
  lookup k ((j, v) ∷ xs) = ite (eq j k) (some v) (lookup k xs)

  unfoldable pub remove : K → List (K × V) → List (K × V)
  remove k [] = []
  remove k ((j, v) ∷ xs) = ite (eq j k) xs ((j, v) ∷ remove k xs)

  -- A use brings the pair to the front.
  unfoldable pub touch : K → List (K × V) → List (K × V)
  unfolding lookup remove
  touch k xs = elim (lookup k xs) [ none ↦ xs | some v ↦ (k, v) ∷ remove k xs ]

  -- The new pair in front; what exceeds the capacity falls off at the end.
  unfoldable pub store : ℕ → K → V → List (K × V) → List (K × V)
  unfolding remove
  store capacity k v xs = take capacity ((k, v) ∷ remove k xs)

  -- A key is not on the list, or the list splits at its pair.
  pub data Located (k : K) (xs : List (K × V)) : Type 0 where
    missing : Fresh k xs → lookup k xs ≡ none → remove k xs ≡ xs → Located k xs
    found :
        (pre : List (K × V)) (v : V) (post : List (K × V))
        → xs ≡ pre ++ ((k, v) ∷ post)
        → lookup k xs ≡ some v
        → remove k xs ≡ pre ++ post
        → Located k xs

  Located-cons :
      (k j : K) (w : V) (xs : List (K × V)) → j ≢ k → Located k xs → Located k ((j, w) ∷ xs)
  unfolding lookup remove
  Located-cons k j w xs ne (missing fresh l r) = missing (ne, fresh) (ground arith) (ground arith)
  Located-cons k j w xs ne (found pre v post split l r) =
      found ((j, w) ∷ pre) v post (ap (λ ys. (j, w) ∷ ys) split) (ground arith) (ground arith)

  pub locate : (k : K) (xs : List (K × V)) → Located k xs
  unfolding lookup remove
  locate k [] = missing tt refl refl
  locate k ((j, w) ∷ xs) = elim (eq j k) [
    | yes e ↦ found [] w xs (ground arith) (ground arith) (ground arith)
    | no ne ↦ Located-cons k j w xs ne (locate k xs)
  ]

  -- The specification where the key is missing, and where it is found.
  pub touch_missing : (k : K) (xs : List (K × V)) → lookup k xs ≡ none → touch k xs ≡ xs
  unfolding touch
  touch_missing k xs l = rw (l, touch)

  pub touch_found :
      (k : K) (v : V) (xs ys : List (K × V))
      → lookup k xs ≡ some v
      → remove k xs ≡ ys
      → touch k xs ≡ (k, v) ∷ ys
  unfolding touch
  touch_found k v xs ys l r = rw (l, r, touch)

  pub store_lem :
      (n : ℕ) (k : K) (v : V) (xs ys : List (K × V))
      → remove k xs ≡ ys
      → store n k v xs ≡ take n ((k, v) ∷ ys)
  unfolding store
  store_lem n k v xs ys r = ap (λ zs. take n ((k, v) ∷ zs)) r
