-- ===== src/Util/LruCache/Refinement.antt =====
-- The operations of `LRUCache` carry out the specification on the list that the nodes form.
use mathlib.Core.Path.{subst}
use mathlib.Core.List.{append-nil}
use concurrency_cpp.Base.{
  ℕ, ◌≤◌, ◌≡◌, ◌≢◌, refl, Bool, true, false, Option, none, some, List, [], ◌∷◌, ◌++◌, arith, sym,
  ◌∙◌, length,
}
use concurrency_cpp.Base.Partial.{bind_some}
use concurrency_cpp.Util.LruCache.{
  Entry, Mem, Cache, put, erase_node, set_value, gc1, get, get_copy_pointee, get_move, has_key,
  erase,
}
use mathlib.Core.Option
use concurrency_cpp.Base.Chain.{first, last, Distinct-append, Apart-cons, first-append, last-append}
use concurrency_cpp.Util.LruCache.Chain.{Linking-append, append-Linking, Linking-put}
use concurrency_cpp.Util.LruCache.Spec.{
  lookup, remove, touch, Located, missing, found, locate, touch_missing, touch_found,
}
use concurrency_cpp.Util.LruCache.Nodes.{
  Holds, Represents, Loose, erase_node-Represents, list_release-Loose, list_move_to_head-Represents,
  length-middle, Fresh-value, Distinct-value, Fresh-at,
}

abbrev pub is_some : {A : Type 0} → Option A → Bool
is_some none = false
is_some (some _) = true

-- A run without undefined behaviour, with its result and the list that is represented after it.
abbrev pub Yields : {K V R : Type 0} → Option (R × Cache K V) → R → List (K × V) → ℕ → Type 0
Yields {K} {V} {R} run result xs capacity =
    (c' : Cache K V) × (run ≡ some (result, c')) × Represents c' xs × (c'.capacity ≡ capacity)

module _ {K V : Type 0} (eq : Discrete K) where
  put_ne :
      (f : K → Option (Entry K V)) (k j : K) (n : Option (Entry K V)) → k ≢ j → put eq f k n j ≡ f j
  put_ne f k j n ne = ground arith

module _ {K V : Type 0} (eq : Discrete K) (c : Cache K V) where
  -- The node of a pair on the list.
  pub node_of :
      (k : K) (v : V) (pre post : List (K × V))
      → Represents c (pre ++ ((k, v) ∷ post))
      → c.mem.cells k ≡ some (record { value = v; parent = last none pre; child = first post none })
  node_of k v pre post r =
      (Linking-append c.mem.cells none pre ((k, v) ∷ post) none r.linked.chain).1.0

  -- The least recently used pair goes, list and map.
  pub gc1-Represents :
      (k : K) (v : V) (pre : List (K × V))
      → Holds c (pre ++ ((k, v) ∷ []))
      → length pre ≤ c.capacity
      → (c' : Cache K V) × (gc1 eq c ≡ some c') × Represents c' pre × (c'.capacity ≡ c.capacity)
  unfolding gc1
  gc1-Represents k v pre h fits =
      let (c1, run, loose, cap) = list_release-Loose eq c k v pre [] h in
      let loose' : Loose c1 k v pre = subst (λ xs. Loose c1 k v xs) (append-nil pre) loose in
      (
        record c1 { mem = erase_node eq k c1.mem },
        bind_some _ (h.linked.tail ∙ last-append none pre ((k, v) ∷ [])) ∙ bind_some _ run,
        erase_node-Represents eq c1 k v pre loose' (omega (arith, cap)),
        cap,
      )

  -- Overwriting the value of a pair changes that pair alone.
  pub set_value-Represents :
      (k : K) (v w : V) (pre post : List (K × V))
      → Represents c (pre ++ ((k, v) ∷ post))
      → (m : Mem K V) × (set_value eq k w c.mem ≡ some m)
        × Represents (record c { mem = m }) (pre ++ ((k, w) ∷ post))
  unfolding set_value
  set_value-Represents k v w pre post r =
      let n : Entry K V = record { value = w; parent = last none pre; child = first post none } in
      let (dx, dy, apart) = Distinct-append pre ((k, v) ∷ post) r.linked.distinct in
      let (front, back) = Linking-append c.mem.cells none pre ((k, v) ∷ post) none r.linked.chain in
      let f = put eq c.mem.cells k (some n) in
      (
        record c.mem { cells = f },
        bind_some _ back.0,
        record {
          holds = record {
            linked = record {
              chain =
                  append-Linking f none pre ((k, w) ∷ post) none
                    (Linking-put eq c.mem.cells k (some n) none pre (some k)
                      (Apart-cons pre k v post apart).0 front)
                    (
                      ground arith,
                      Linking-put eq c.mem.cells k (some n) (some k) post none dy.0 back.1,
                    );
              distinct = Distinct-value k v w pre post r.linked.distinct;
              head =
                  r.linked.head
                  ∙ first-append pre ((k, v) ∷ post) none
                  ∙ sym (first-append pre ((k, w) ∷ post) none);
              tail =
                  r.linked.tail
                  ∙ last-append none pre ((k, v) ∷ post)
                  ∙ sym (last-append none pre ((k, w) ∷ post));
            };
            size = omega (arith, r.size, length-middle k v pre post, length-middle k w pre post);
            only = λ j h.
                put_ne eq c.mem.cells k j (some n) (Fresh-at j k w pre post h)
                ∙ r.only j (Fresh-value j k w v pre post h);
          };
          fits = omega (arith, r.fits, length-middle k v pre post, length-middle k w pre post);
        },
      )

  -- On a cache that represents a list, `get` (and `get_copy`) meets no undefined behaviour, gives the
  -- value of the key on the list or `none`, and brings the pair to the front if there is one.
  pub get-touch :
      {xs : List (K × V)} (k : K)
      → Represents c xs
      → Yields (get eq k c) (lookup eq k xs) (touch eq k xs) c.capacity
  unfolding get
  get-touch {xs} k r = by_place (locate eq k xs)
    where
      by_place : Located eq k xs → Yields (get eq k c) (lookup eq k xs) (touch eq k xs) c.capacity
      by_place (missing fresh l rm) =
          rw (l, touch_missing eq k xs l) (c, rw (r.only k fresh, get), r, refl)
      by_place (found pre v post split l rm) =
          let r' : Represents c (pre ++ ((k, v) ∷ post)) = subst (λ ys. Represents c ys) split r in
          let (c', run, done, cap) = list_move_to_head-Represents eq c k v pre post r' in
          rw (l, touch_found eq k v xs (pre ++ post) l rm)
            (c', rw (node_of k v pre post r', get, run, done.linked.chain.0), done, cap)

  -- On a cache that represents a list with a pair for the key, whose value points at `p`,
  -- `get_copy_pointee` meets no undefined behaviour, gives `p` and brings the pair to the front.
  pub get_copy_pointee-touch :
      {P : Type 0} {xs : List (K × V)} (deref : V → Option P) (k : K) (v : V) (p : P)
      → Represents c xs
      → lookup eq k xs ≡ some v
      → deref v ≡ some p
      → Yields (get_copy_pointee eq deref k c) (some p) (touch eq k xs) c.capacity
  unfolding get_copy_pointee
  get_copy_pointee-touch {P} {xs} deref k v p r at live = by_place (locate eq k xs)
    where
      by_place :
          Located eq k xs
          → Yields (get_copy_pointee eq deref k c) (some p) (touch eq k xs) c.capacity
      by_place (missing fresh l rm) = cc
      by_place (found pre w post split l rm) =
          let r' : Represents c (pre ++ ((k, w) ∷ post)) = subst (λ ys. Represents c ys) split r in
          let (c', run, done, cap) = list_move_to_head-Represents eq c k w pre post r' in
          let same : deref w ≡ some p = cc in
          rw (touch_found eq k w xs (pre ++ post) l rm) (
            c',
            rw (node_of k w pre post r', get_copy_pointee, run, done.linked.chain.0, same),
            done,
            cap,
          )

  -- Where every value points at something, `get_copy_pointee` meets no undefined behaviour, gives what
  -- the value of the key on the list points at or `none`, and brings the pair to the front.
  pub get_copy_pointee-found :
      {P : Type 0} {xs : List (K × V)} (deref : V → P) (k : K)
      → Represents c xs
      → Yields
          (get_copy_pointee eq (λ v. some (deref v)) k c)
          (Option.map deref (lookup eq k xs))
          (touch eq k xs)
          c.capacity
  unfolding get_copy_pointee
  get_copy_pointee-found {P} {xs} deref k r = by_place (locate eq k xs)
    where
      by_place :
          Located eq k xs
          → Yields
              (get_copy_pointee eq (λ v. some (deref v)) k c)
              (Option.map deref (lookup eq k xs))
              (touch eq k xs)
              c.capacity
      by_place (missing fresh l rm) =
          rw (l, touch_missing eq k xs l) (c, rw (r.only k fresh, get_copy_pointee), r, refl)
      by_place (found pre v post split l rm) =
          let r' : Represents c (pre ++ ((k, v) ∷ post)) = subst (λ ys. Represents c ys) split r in
          let (c', run, done, cap) = list_move_to_head-Represents eq c k v pre post r' in
          rw (l, touch_found eq k v xs (pre ++ post) l rm)
            (
              c',
              rw (node_of k v pre post r', get_copy_pointee, run, done.linked.chain.0),
              done,
              cap,
            )

  -- On a cache that represents a list, `get_move` meets no undefined behaviour, gives the value of the
  -- key on the list or `none`, and takes the pair out.
  pub get_move-remove :
      {xs : List (K × V)} (k : K)
      → Represents c xs
      → Yields (get_move eq k c) (lookup eq k xs) (remove eq k xs) c.capacity
  unfolding get_move
  get_move-remove {xs} k r = by_place (locate eq k xs)
    where
      by_place :
          Located eq k xs → Yields (get_move eq k c) (lookup eq k xs) (remove eq k xs) c.capacity
      by_place (missing fresh l rm) = rw (l, rm) (c, rw (r.only k fresh, get_move), r, refl)
      by_place (found pre v post split l rm) =
          let r' : Represents c (pre ++ ((k, v) ∷ post)) = subst (λ ys. Represents c ys) split r in
          let (c', run, loose, cap) = list_release-Loose eq c k v pre post r'.holds in
          rw (l, rm)
            (
              record c' { mem = erase_node eq k c'.mem },
              rw (node_of k v pre post r', get_move, run),
              erase_node-Represents eq c' k v (pre ++ post) loose
                  (omega (arith, r'.fits, length-middle k v pre post, cap)),
              cap,
            )

  -- On a cache that represents a list, `erase` meets no undefined behaviour, says whether the list has
  -- the key, and takes its pair out.
  pub erase-remove :
      {xs : List (K × V)} (k : K)
      → Represents c xs
      → Yields (erase eq k c) (is_some (lookup eq k xs)) (remove eq k xs) c.capacity
  unfolding erase
  erase-remove {xs} k r = by_place (locate eq k xs)
    where
      by_place :
          Located eq k xs
          → Yields (erase eq k c) (is_some (lookup eq k xs)) (remove eq k xs) c.capacity
      by_place (missing fresh l rm) = rw (l, rm) (c, rw (r.only k fresh, erase), r, refl)
      by_place (found pre v post split l rm) =
          let r' : Represents c (pre ++ ((k, v) ∷ post)) = subst (λ ys. Represents c ys) split r in
          let (c', run, loose, cap) = list_release-Loose eq c k v pre post r'.holds in
          rw (l, rm)
            (
              record c' { mem = erase_node eq k c'.mem },
              rw (node_of k v pre post r', erase, run),
              erase_node-Represents eq c' k v (pre ++ post) loose
                  (omega (arith, r'.fits, length-middle k v pre post, cap)),
              cap,
            )

  pub has_key-lookup :
      {xs : List (K × V)} (k : K) → Represents c xs → has_key eq k c ≡ is_some (lookup eq k xs)
  unfolding has_key
  has_key-lookup {xs} k r = by_place (locate eq k xs)
    where
      by_place : Located eq k xs → has_key eq k c ≡ is_some (lookup eq k xs)
      by_place (missing fresh l rm) = rw (l, r.only k fresh, has_key)
      by_place (found pre v post split l rm) =
          let r' : Represents c (pre ++ ((k, v) ∷ post)) = subst (λ ys. Represents c ys) split r in
          rw (l, node_of k v pre post r', has_key)
