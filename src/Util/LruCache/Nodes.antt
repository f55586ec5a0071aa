-- ===== src/Util/LruCache/Nodes.antt =====
-- Nodes of `LRUCache` that leave the list, come back in front, or leave the map.
use mathlib.Core.Path.{subst}
use concurrency_cpp.Base.{
  suc, ◌≤◌, ◌≡◌, ◌≢◌, refl, none, some, List, [], ◌∷◌, ◌++◌, arith, sym, ◌∙◌, ap, length,
}
use concurrency_cpp.Util.LruCache.{
  Entry, Cache, erase_node, list_insert_head, list_release, list_move_to_head,
}
use concurrency_cpp.Base.Chain.{
  Fresh, Distinct, Distinct-append, Apart-cons, append-Fresh, Fresh-append,
}
use concurrency_cpp.Util.LruCache.Chain.{Linking-put}
use concurrency_cpp.Util.LruCache.Relinking.{Linked}
use concurrency_cpp.Util.LruCache.Links.{list_release_lem, list_insert_head_lem}

-- The cache holds the pairs of the list, in that order, and no others.
pub record Holds {K V : Type 0} (c : Cache K V) (xs : List (K × V)) : Type 0 where
  pub linked : Linked c xs
  pub size : c.mem.size ≡ length xs
  pub only : (j : K) → Fresh j xs → c.mem.cells j ≡ none

-- And they are no more than it may hold.
pub record Represents {K V : Type 0} (c : Cache K V) (xs : List (K × V)) : Type 0 where
  pub holds : Holds c xs
  pub open holds use *
  pub fits : length xs ≤ c.capacity

-- The same but for one node `k`, which is in the map and not on the list.
pub record Loose {K V : Type 0} (c : Cache K V) (k : K) (v : V) (xs : List (K × V)) : Type 0 where
  pub linked : Linked c xs
  pub fresh : Fresh k xs
  pub node : (n : Entry K V) × (c.mem.cells k ≡ some n) × (n.value ≡ v)
  pub size : c.mem.size ≡ suc (length xs)
  pub only : (j : K) → j ≢ k → Fresh j xs → c.mem.cells j ≡ none

module _ {K V : Type 0} where
  pub length-middle :
      (k : K) (v : V) (pre post : List (K × V))
      → length (pre ++ ((k, v) ∷ post)) ≡ suc (length (pre ++ post))
  length-middle k v [] post = refl
  length-middle k v (x ∷ pre) post = ap suc (length-middle k v pre post)

  pub middle-Fresh :
      (j k : K) (v : V) (pre post : List (K × V))
      → k ≢ j
      → Fresh j (pre ++ post)
      → Fresh j (pre ++ ((k, v) ∷ post))
  middle-Fresh j k v [] post ne h = (ne, h)
  middle-Fresh j k v ((i, w) ∷ pre) post ne h = (h.0, middle-Fresh j k v pre post ne h.1)

  -- Another value at a key changes nothing of the keys.
  pub Fresh-value :
      (j k : K) (v w : V) (pre post : List (K × V))
      → Fresh j (pre ++ ((k, v) ∷ post))
      → Fresh j (pre ++ ((k, w) ∷ post))
  Fresh-value j k v w [] post h = h
  Fresh-value j k v w ((i, u) ∷ pre) post h = (h.0, Fresh-value j k v w pre post h.1)

  pub Distinct-value :
      (k : K) (v w : V) (pre post : List (K × V))
      → Distinct (pre ++ ((k, v) ∷ post))
      → Distinct (pre ++ ((k, w) ∷ post))
  Distinct-value k v w [] post d = d
  Distinct-value k v w ((i, u) ∷ pre) post d =
      (Fresh-value i k v w pre post d.0, Distinct-value k v w pre post d.1)

  pub Fresh-at :
      (j k : K) (v : V) (pre post : List (K × V)) → Fresh j (pre ++ ((k, v) ∷ post)) → k ≢ j
  Fresh-at j k v pre post h = (Fresh-append j pre ((k, v) ∷ post) h).1.0

  pub Fresh-middle :
      (k : K) (v : V) (pre post : List (K × V))
      → Distinct (pre ++ ((k, v) ∷ post))
      → Fresh k (pre ++ post)
  Fresh-middle k v pre post d =
      let (dx, dy, apart) = Distinct-append pre ((k, v) ∷ post) d in
      append-Fresh k pre post (Apart-cons pre k v post apart).0 dy.0

module _ {K V : Type 0} (eq : Discrete K) (c : Cache K V) (k : K) (v : V) where
  -- Erasing the loose node.
  pub erase_node-Represents :
      (xs : List (K × V))
      → Loose c k v xs
      → length xs ≤ c.capacity
      → Represents (record c { mem = erase_node eq k c.mem }) xs
  unfolding erase_node
  erase_node-Represents xs l fits =
      let (n, at, e) = l.node in
      rw (at, erase_node)
        (record {
          holds = record {
            linked = record {
              chain = Linking-put eq c.mem.cells k none none xs none l.fresh l.linked.chain;
              distinct = l.linked.distinct;
              head = l.linked.head;
              tail = l.linked.tail;
            };
            size = omega (arith, l.size);
            only = λ j h. ground (arith, l.only j);
          };
          fits = fits;
        })

  -- Releasing a node of the list.
  pub list_release-Loose :
      (pre post : List (K × V))
      → Holds c (pre ++ ((k, v) ∷ post))
      → (c' : Cache K V) × (list_release eq k c ≡ some c')
        × Loose c' k v (pre ++ post)
        × (c'.capacity ≡ c.capacity)
  list_release-Loose pre post r =
      let (c', run, linked, kept, n, at, e) = list_release_lem eq c k v pre post r.linked in
      (
        c',
        run,
        record {
          linked = linked;
          fresh = Fresh-middle k v pre post r.linked.distinct;
          node = (n, at, e);
          size = kept.size ∙ r.size ∙ length-middle k v pre post;
          only = λ j ne h.
              kept.others j h ∙ r.only j (middle-Fresh j k v pre post (λ q. ne (sym q)) h);
        },
        kept.capacity,
      )

module _ {K V : Type 0} (eq : Discrete K) (c : Cache K V) (k : K) (v : V) where
  -- Putting the loose node in front.
  pub list_insert_head-Loose :
      (xs : List (K × V))
      → Loose c k v xs
      → (c' : Cache K V) × (list_insert_head eq k c ≡ some c')
        × Linked c' ((k, v) ∷ xs)
        × (c'.mem.size ≡ suc (length xs))
        × (c'.capacity ≡ c.capacity)
        × ((j : K) → Fresh j ((k, v) ∷ xs) → c'.mem.cells j ≡ none)
  list_insert_head-Loose xs l =
      let (n, at, e) = l.node in
      let (c', run, linked, kept) = list_insert_head_lem eq c k v xs at l.fresh l.linked in
      (
        c',
        run,
        subst (λ u. Linked c' ((k, u) ∷ xs)) e linked,
        kept.size ∙ l.size,
        kept.capacity,
        λ j h. kept.others j (h.0, h.1) ∙ l.only j (λ q. h.0 (sym q)) h.1,
      )

module _ {K V : Type 0} (eq : Discrete K) (c : Cache K V) (k : K) (v : V) where
  -- A use of a pair: released, and put in front.
  pub list_move_to_head-Represents :
      (pre post : List (K × V))
      → Represents c (pre ++ ((k, v) ∷ post))
      → (c' : Cache K V) × (list_move_to_head eq k c ≡ some c')
        × Represents c' ((k, v) ∷ (pre ++ post))
        × (c'.capacity ≡ c.capacity)
  unfolding list_move_to_head
  list_move_to_head-Represents pre post r =
      let (c1, run1, loose, cap1) = list_release-Loose eq c k v pre post r.holds in
      let (c2, run2, linked, size, cap2, only) =
        list_insert_head-Loose eq c1 k v (pre ++ post) loose in
      (
        c2,
        rw run1 run2,
        record {
          holds = record { linked = linked; size = size; only = only };
          fits = omega (arith, r.fits, length-middle k v pre post, cap1, cap2);
        },
        cap2 ∙ cap1,
      )
