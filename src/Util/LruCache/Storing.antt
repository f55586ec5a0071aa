-- ===== src/Util/LruCache/Storing.antt =====
-- `set`, `clear` and the constructor of `LRUCache` against the specification.
use mathlib.Core.Path.{subst}
use concurrency_cpp.Base.{
  ℕ, ◌%◌, ◌^◌, ◌≤◌, ◌≡◌, refl, Option, none, some, List, [], ◌∷◌, ◌++◌, arith, ◌∙◌, ap, take,
  length, length-append, take-eq_self, take-snoc, unsnoc, Bool-cases, ltb, inl, inr, if◌then◌else◌,
}
use concurrency_cpp.Base.Partial.{bind_some}
use concurrency_cpp.Util.LruCache.{
  Cache, make, entry, emplace, gc1, insert_new, overwrite, set, clear,
}
use concurrency_cpp.Base.Chain.{Fresh}
use concurrency_cpp.Util.LruCache.Chain.{Linking-put}
use concurrency_cpp.Util.LruCache.Spec.{store, Located, missing, found, locate, store_lem}
use concurrency_cpp.Util.LruCache.Nodes.{
  Holds, Represents, Loose, list_insert_head-Loose, list_move_to_head-Represents, length-middle,
}
use concurrency_cpp.Util.LruCache.Refinement.{node_of, gc1-Represents, set_value-Represents}

abbrev Becomes : {K V : Type 0} → Option (Cache K V) → List (K × V) → ℕ → Type 0
Becomes {K} {V} run xs capacity =
    (c' : Cache K V) × (run ≡ some c') × Represents c' xs × (c'.capacity ≡ capacity)

module _ {K V : Type 0} (eq : Discrete K) where
  -- After the insertion the last pair goes if there is one too many.
  evict :
      (c : Cache K V) (x : K × V) (xs : List (K × V))
      → Holds c (x ∷ xs)
      → length xs ≤ c.capacity
      → Becomes
          (if ltb c.capacity c.mem.size then gc1 eq c else some c)
          (take c.capacity (x ∷ xs))
          c.capacity
  evict c x xs h fits = elim (Bool-cases (ltb c.capacity c.mem.size)) [
    | inl over ↦
        let (ys, (k, v), e) = unsnoc x xs in
        let full : length xs ≡ c.capacity = ground (arith, h.size) in
        let long : length ys ≡ c.capacity =
          omega (arith, ap length e, length-append ys ((k, v) ∷ []), full) in
        let (c', run, r, cap) =
          gc1-Represents eq c k v ys (subst (λ zs. Holds c zs) e h) (omega (arith, long)) in
        rw (over, e, take-snoc c.capacity ys (k, v) long) (c', run, r, cap)
    | inr under ↦
        let room : length (x ∷ xs) ≤ c.capacity = ground (arith, h.size) in
        rw (under, take-eq_self c.capacity (x ∷ xs) room)
          (c, refl, record { holds = h; fits = room }, refl)
  ]

module _ {K V : Type 0} (eq : Discrete K) (c : Cache K V) where
  -- A new node is in the map and not yet on the list.
  emplace-Loose :
      (k : K) (v : V) (xs : List (K × V))
      → Represents c xs
      → Fresh k xs
      → Loose (record c { mem = emplace eq k v c.mem }) k v xs
  unfolding emplace
  emplace-Loose k v xs r fresh =
      rw (r.only k fresh, emplace)
        (record {
          linked = record {
            chain = Linking-put eq c.mem.cells k (some (entry v)) none xs none fresh r.linked.chain;
            distinct = r.linked.distinct;
            head = r.linked.head;
            tail = r.linked.tail;
          };
          fresh = fresh;
          node = (entry v, ground arith, refl);
          size = omega (arith, r.size);
          only = λ j ne h. ground (arith, r.only j h);
        })

  insert_new-store :
      (k : K) (v : V) (xs : List (K × V))
      → Represents c xs
      → Fresh k xs
      → Becomes (insert_new eq k v c) (take c.capacity ((k, v) ∷ xs)) c.capacity
  unfolding insert_new
  insert_new-store k v xs r fresh =
      let (c1, run, linked, size, cap, only) =
        list_insert_head-Loose eq (record c { mem = emplace eq k v c.mem }) k v xs
          (emplace-Loose k v xs r fresh) in
      let (c2, run2, r2, cap2) =
        evict eq c1 (k, v) xs (record { linked = linked; size = size; only = only })
          (omega (arith, r.fits, cap)) in
      (
        c2,
        bind_some _ run ∙ run2,
        subst (λ n. Represents c2 (take n ((k, v) ∷ xs))) cap r2,
        cap2 ∙ cap,
      )

  overwrite-store :
      (k : K) (v w : V) (pre post : List (K × V))
      → Represents c (pre ++ ((k, v) ∷ post))
      → Becomes (overwrite eq k w c) ((k, w) ∷ (pre ++ post)) c.capacity
  unfolding overwrite
  overwrite-store k v w pre post r =
      let (m, run, r1) = set_value-Represents eq c k v w pre post r in
      let (c2, run2, r2, cap2) =
        list_move_to_head-Represents eq (record c { mem = m }) k w pre post r1 in
      (c2, bind_some _ run ∙ run2, r2, cap2)

  -- On a cache that represents a list, `set` meets no undefined behaviour and represents the specification's list afterwards: the pair
  -- in front of the others, and the least recently used one dropped where there is one too many.
  pub set-store :
      {xs : List (K × V)} (k : K) (v : V)
      → Represents c xs
      → (c' : Cache K V) × (set eq k v c ≡ some c')
        × Represents c' (store eq c.capacity k v xs)
        × (c'.capacity ≡ c.capacity)
  unfolding set
  set-store {xs} k v r = by_place (locate eq k xs)
    where
      by_place : Located eq k xs → Becomes (set eq k v c) (store eq c.capacity k v xs) c.capacity
      by_place (missing fresh l rm) =
          rw (store_lem eq c.capacity k v xs xs rm, r.only k fresh, set)
            (insert_new-store k v xs r fresh)
      by_place (found pre w post split l rm) =
          let r' : Represents c (pre ++ ((k, w) ∷ post)) = subst (λ ys. Represents c ys) split r in
          let fits : length ((k, v) ∷ (pre ++ post)) ≤ c.capacity =
            omega (arith, r'.fits, length-middle k w pre post) in
          rw
            (
              store_lem eq c.capacity k v xs (pre ++ post) rm,
              take-eq_self c.capacity ((k, v) ∷ (pre ++ post)) fits,
              node_of eq c k w pre post r',
              set,
            )
            (overwrite-store k w v pre post r')

module _ {K V : Type 0} where
  -- No nodes, no pairs.
  empty-Holds :
      (c : Cache K V)
      → ((j : K) → c.mem.cells j ≡ none)
      → c.mem.size ≡ 0
      → c.head ≡ none
      → c.tail ≡ none
      → Represents c []
  empty-Holds c no_cells no_size no_head no_tail = record {
    holds = record {
      linked = record { chain = tt; distinct = tt; head = no_head; tail = no_tail };
      size = no_size;
      only = λ j h. no_cells j;
    };
    fits = omega arith;
  }

  pub clear-Represents : (c : Cache K V) → Represents (clear c) []
  unfolding clear
  clear-Represents c = empty-Holds _ (λ j. refl) refl refl refl

  pub clear-capacity : (c : Cache K V) → (clear c).capacity ≡ c.capacity
  unfolding clear
  clear-capacity c = refl

  pub make-Represents : (n : ℕ) → Represents (make {K = K} {V = V} n) []
  unfolding make
  make-Represents n = empty-Holds _ (λ j. refl) refl refl refl

pub make-capacity : (K V : Type 0) (n : ℕ) → (make {K = K} {V = V} n).capacity ≡ n % 2 ^ 32
unfolding make
make-capacity K V n = refl
