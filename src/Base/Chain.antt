-- ===== src/Base/Chain.antt =====
-- Doubly linked chains of nodes in a map from pointers to nodes.
use mathlib.Core.Path.{subst, ◌≡◌, refl, sym, ◌∙◌}
use mathlib.Core.Logic.{◌≢◌, ite}
use mathlib.Core.Option.{Option, none, some, some-injective}
use mathlib.Core.List.{List, [], ◌∷◌, ◌++◌}
use native.Mathlib.Omega.{arith}

-- A map with the value at `k` replaced.
abbrev pub put : {K A : Type 0} → Discrete K → (K → Option A) → K → Option A → K → Option A
put eq f k a j = ite (eq k j) a (f j)

module _ {K A : Type 0} (eq : Discrete K) (f : K → Option A) (k : K) (a : Option A) where
  pub put-eq : put eq f k a k ≡ a
  put-eq = ground arith

  pub put_ne : (j : K) → k ≢ j → put eq f k a j ≡ f j
  put_ne j ne = ground arith

module _ {K V : Type 0} where
  -- The pointer at the first pair of a list, before `next`, and at the last one, after `prev`.
  abbrev pub first : List (K × V) → Option K → Option K
  first [] next = next
  first ((k, v) ∷ xs) next = some k

  abbrev pub last : Option K → List (K × V) → Option K
  last prev [] = prev
  last prev ((k, v) ∷ xs) = last (some k) xs

  -- No pair has the key.
  abbrev pub Fresh : K → List (K × V) → Type 0
  Fresh k [] = Unit
  Fresh k ((j, v) ∷ xs) = (j ≢ k) × Fresh k xs

  abbrev pub Distinct : List (K × V) → Type 0
  Distinct [] = Unit
  Distinct ((k, v) ∷ xs) = Fresh k xs × Distinct xs

  -- No key of the one list is in the other.
  abbrev pub Apart : List (K × V) → List (K × V) → Type 0
  Apart [] ys = Unit
  Apart ((k, v) ∷ xs) ys = Fresh k ys × Apart xs ys

  -- From `prev` to `next` the nodes, each made of its value and two pointers, hold the pairs of the
  -- list and point at their neighbours.
  abbrev pub Chain :
      {N : Type 0}
      → (V → Option K → Option K → N)
      → (K → Option N)
      → Option K
      → List (K × V)
      → Option K
      → Type 0
  Chain node f prev [] next = Unit
  Chain node f prev ((k, v) ∷ xs) next =
      (f k ≡ some (node v prev (first xs next))) × Chain node f (some k) xs next

  pub first-append :
      (xs ys : List (K × V)) (next : Option K) → first (xs ++ ys) next ≡ first xs (first ys next)
  first-append [] ys next = refl
  first-append (x ∷ xs) ys next = refl

  pub last-append :
      (prev : Option K) (xs ys : List (K × V)) → last prev (xs ++ ys) ≡ last (last prev xs) ys
  last-append prev [] ys = refl
  last-append prev ((k, v) ∷ xs) ys = last-append (some k) xs ys

  pub eq_nil_of_last : (k : K) (xs : List (K × V)) → last (some k) xs ≢ none
  eq_nil_of_last k [] e = cc
  eq_nil_of_last k ((j, v) ∷ xs) e = eq_nil_of_last j xs e

  pub last-some : (k : K) (xs : List (K × V)) → (p : K) × (last (some k) xs ≡ some p)
  last-some k [] = (k, refl)
  last-some k ((j, v) ∷ xs) = last-some j xs

  -- The last pointer is among the keys, if it is not the one before them.
  pub not-Fresh-last :
      (p k : K) (xs : List (K × V)) → last (some k) xs ≡ some p → k ≢ p → ¬ Fresh p xs
  not-Fresh-last p k [] e ne h = ground arith
  not-Fresh-last p k ((j, v) ∷ xs) e ne h = not-Fresh-last p j xs e h.0 h.1

  pub Fresh-append : (k : K) (xs ys : List (K × V)) → Fresh k (xs ++ ys) → Fresh k xs × Fresh k ys
  Fresh-append k [] ys h = (tt, h)
  Fresh-append k ((j, v) ∷ xs) ys h =
      let (front, back) = Fresh-append k xs ys h.1 in ((h.0, front), back)

  pub append-Fresh : (k : K) (xs ys : List (K × V)) → Fresh k xs → Fresh k ys → Fresh k (xs ++ ys)
  append-Fresh k [] ys h h' = h'
  append-Fresh k ((j, v) ∷ xs) ys h h' = (h.0, append-Fresh k xs ys h.1 h')

  pub Distinct-append :
      (xs ys : List (K × V)) → Distinct (xs ++ ys) → Distinct xs × Distinct ys × Apart xs ys
  Distinct-append [] ys d = (tt, d, tt)
  Distinct-append ((k, v) ∷ xs) ys d =
      let (dx, dy, apart) = Distinct-append xs ys d.1 in
      let (fx, fy) = Fresh-append k xs ys d.0 in ((fx, dx), dy, (fy, apart))

  pub append-Distinct :
      (xs ys : List (K × V)) → Distinct xs → Distinct ys → Apart xs ys → Distinct (xs ++ ys)
  append-Distinct [] ys dx dy apart = dy
  append-Distinct ((k, v) ∷ xs) ys dx dy apart =
      (append-Fresh k xs ys dx.0 apart.0, append-Distinct xs ys dx.1 dy apart.1)

  -- What `Apart` says of the pair at the front of the second list, and of the rest.
  pub Apart-cons :
      (xs : List (K × V)) (k : K) (v : V) (ys : List (K × V))
      → Apart xs ((k, v) ∷ ys)
      → Fresh k xs × Apart xs ys
  Apart-cons [] k v ys a = (tt, tt)
  Apart-cons ((j, w) ∷ xs) k v ys a =
      let (fresh, apart) = Apart-cons xs k v ys a.1 in
      (((λ e. a.0.0 (sym e)), fresh), (a.0.1, apart))

  -- The last key of the first list is not in the second.
  pub Fresh-last :
      (p k : K) (v : V) (xs ys : List (K × V))
      → last (some k) xs ≡ some p
      → Apart ((k, v) ∷ xs) ys
      → Fresh p ys
  Fresh-last p k v [] ys e a = subst (λ k. Fresh k ys) (some-injective k p e) a.0
  Fresh-last p k v ((j, w) ∷ xs) ys e a = Fresh-last p j w xs ys e a.1

module _ {K V N : Type 0} (node : V → Option K → Option K → N) (f : K → Option N) where
  pub Chain-append :
      (prev : Option K) (xs ys : List (K × V)) (next : Option K)
      → Chain node f prev (xs ++ ys) next
      → Chain node f prev xs (first ys next) × Chain node f (last prev xs) ys next
  Chain-append prev [] ys next c = (tt, c)
  Chain-append prev ((k, v) ∷ xs) ys next c =
      let (front, back) = Chain-append (some k) xs ys next c.1 in
      ((rw (first-append xs ys next) at c.0, front), back)

  pub append-Chain :
      (prev : Option K) (xs ys : List (K × V)) (next : Option K)
      → Chain node f prev xs (first ys next)
      → Chain node f (last prev xs) ys next
      → Chain node f prev (xs ++ ys) next
  append-Chain prev [] ys next a b = b
  append-Chain prev ((k, v) ∷ xs) ys next a b =
      (rw (first-append xs ys next) a.0, append-Chain (some k) xs ys next a.1 b)

  module _ (eq : Discrete K) where
    -- A write at a key that the chain does not have leaves the chain alone.
    pub Chain-put :
        (k : K) (n : Option N) (prev : Option K) (xs : List (K × V)) (next : Option K)
        → Fresh k xs
        → Chain node f prev xs next
        → Chain node (put eq f k n) prev xs next
    Chain-put k n prev [] next h c = tt
    Chain-put k n prev ((j, v) ∷ xs) next h c =
        (ground arith, Chain-put k n (some j) xs next h.1 c.1)

    -- Writing the next pointer of the last node moves the end of the chain.
    pub Chain-set_last :
        (p k : K) (v : V) (prev : Option K) (xs : List (K × V)) (next next' : Option K)
        → last (some k) xs ≡ some p
        → Distinct ((k, v) ∷ xs)
        → Chain node f prev ((k, v) ∷ xs) next
        → (w : V) × (q : Option K) × (f p ≡ some (node w q next))
          × Chain node (put eq f p (some (node w q next'))) prev ((k, v) ∷ xs) next'
    Chain-set_last p k v prev [] next next' e d c = (v, prev, ground arith, (ground arith, tt))
    Chain-set_last p k v prev ((j, w) ∷ xs) next next' e d c =
        let (u, q, at, chain) = Chain-set_last p j w (some k) xs next next' e d.1 c.1 in
        let ne : k ≢ p =
          λ h. not-Fresh-last p j xs e (λ q. d.0.0 (q ∙ sym h)) (subst (λ k. Fresh k xs) h d.0.1) in
        (u, q, at, (ground arith, chain))

    -- Writing the previous pointer of the first node moves the start of the chain.
    pub Chain-set_first :
        (q : K) (v : V) (prev prev' : Option K) (xs : List (K × V)) (next : Option K)
        → Distinct ((q, v) ∷ xs)
        → Chain node f prev ((q, v) ∷ xs) next
        → Chain node (put eq f q (some (node v prev' (first xs next)))) prev' ((q, v) ∷ xs) next
    Chain-set_first q v prev prev' xs next d c =
        (ground arith, Chain-put q _ (some q) xs next d.0 c.1)
