-- ===== src/Util/LruCache/Chain.antt =====
-- Doubly linked chains of map nodes, as `lru_list_head` and `lru_list_tail` of util/lru_cache.h hold
-- them.
use concurrency_cpp.Base.{◌≡◌, Option, some, List, ◌∷◌, ◌++◌}
use concurrency_cpp.Base.Chain
use concurrency_cpp.Base.Chain.{first, last, Distinct, Fresh}
use concurrency_cpp.Util.LruCache.{Entry, put}

module _ {K V : Type 0} where
  abbrev pub linked_entry : V → Option K → Option K → Entry K V
  linked_entry v parent child = record { value = v; parent = parent; child = child }

  -- From `prev` to `next` the nodes hold the pairs of the list and point at their neighbours.
  abbrev pub Linking : (K → Option (Entry K V)) → Option K → List (K × V) → Option K → Type 0
  Linking = Chain.Chain linked_entry

module _ {K V : Type 0} (f : K → Option (Entry K V)) where
  pub Linking-append :
      (prev : Option K) (xs ys : List (K × V)) (next : Option K)
      → Linking f prev (xs ++ ys) next
      → Linking f prev xs (first ys next) × Linking f (last prev xs) ys next
  Linking-append = Chain.Chain-append linked_entry f

  pub append-Linking :
      (prev : Option K) (xs ys : List (K × V)) (next : Option K)
      → Linking f prev xs (first ys next)
      → Linking f (last prev xs) ys next
      → Linking f prev (xs ++ ys) next
  append-Linking = Chain.append-Chain linked_entry f

module _ {K V : Type 0} (eq : Discrete K) (f : K → Option (Entry K V)) where
  pub Linking-put :
      (k : K) (n : Option (Entry K V)) (prev : Option K) (xs : List (K × V)) (next : Option K)
      → Fresh k xs
      → Linking f prev xs next
      → Linking (put eq f k n) prev xs next
  Linking-put = Chain.Chain-put linked_entry f eq

  -- Writing the child of the last node moves the end of the chain.
  pub Linking-set_last :
      (p k : K) (v : V) (prev : Option K) (xs : List (K × V)) (next next' : Option K)
      → last (some k) xs ≡ some p
      → Distinct ((k, v) ∷ xs)
      → Linking f prev ((k, v) ∷ xs) next
      → (n : Entry K V) × (f p ≡ some n)
        × Linking (put eq f p (some (record n { child = next' }))) prev ((k, v) ∷ xs) next'
  Linking-set_last p k v prev xs next next' e d c =
      let (w, q, at, chain) =
        Chain.Chain-set_last linked_entry f eq p k v prev xs next next' e d c in
      (linked_entry w q next, at, chain)

  -- Writing the parent of the first node moves the start of the chain.
  pub Linking-set_first :
      (q : K) (v : V) (prev prev' : Option K) (xs : List (K × V)) (next : Option K)
      → Distinct ((q, v) ∷ xs)
      → Linking f prev ((q, v) ∷ xs) next
      → (n : Entry K V) × (f q ≡ some n)
        × Linking (put eq f q (some (record n { parent = prev' }))) prev' ((q, v) ∷ xs) next
  Linking-set_first q v prev prev' xs next d c = (
    linked_entry v prev (first xs next),
    c.0,
    Chain.Chain-set_first linked_entry f eq q v prev prev' xs next d c,
  )
