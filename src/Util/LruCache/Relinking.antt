-- ===== src/Util/LruCache/Relinking.antt =====
-- The two halves of `list_release` of util/lru_cache.h, on the list of pairs that the nodes form.
use concurrency_cpp.Base.{◌≡◌, ◌≢◌, refl, Option, none, some, List, [], ◌∷◌, ◌++◌, arith, sym, ◌∙◌}
use concurrency_cpp.Util.LruCache.{
  Entry, Cache, put, set_parent, set_child, release_front, release_back,
}
use concurrency_cpp.Base.Chain.{
  last-some, first, last, Fresh, Distinct, Apart, last-append, Distinct-append, Fresh-append,
  Apart-cons, Fresh-last,
}
use concurrency_cpp.Util.LruCache.Chain.{
  Linking, Linking-append, Linking-put, Linking-set_last, Linking-set_first,
}

-- The nodes and the two pointers at the ends form the list.
pub record Linked {K V : Type 0} (c : Cache K V) (xs : List (K × V)) : Type 0 where
  pub chain : Linking c.mem.cells none xs none
  pub distinct : Distinct xs
  pub head : c.head ≡ first xs none
  pub tail : c.tail ≡ last none xs

-- What relinking leaves alone: the number of nodes, the bound, and every node off the list.
pub record Kept {K V : Type 0} (c c' : Cache K V) (xs : List (K × V)) : Type 0 where
  pub size : c'.mem.size ≡ c.mem.size
  pub capacity : c'.capacity ≡ c.capacity
  pub others : (j : K) → Fresh j xs → c'.mem.cells j ≡ c.mem.cells j

-- The node of `k` stands between `pre` and `post`, and still points at their ends.
pub record Between {K V : Type 0} (c c' : Cache K V) (k : K) (v : V) (pre post : List (K × V))
    (front_next back_prev : Option K) : Type 0 where
  pub node :
      c'.mem.cells k ≡ some (record { value = v; parent = last none pre; child = first post none })
  pub front : Linking c'.mem.cells none pre front_next
  pub back : Linking c'.mem.cells back_prev post none
  pub kept : Kept c c' (pre ++ post)

pub record Parts {K V : Type 0} (k : K) (pre post : List (K × V)) : Type 0 where
  pub distinct_pre : Distinct pre
  pub distinct_post : Distinct post
  pub fresh_pre : Fresh k pre
  pub fresh_post : Fresh k post
  pub apart : Apart pre post

module _ {K V : Type 0} where
  pub parts :
      (k : K) (v : V) (pre post : List (K × V))
      → Distinct (pre ++ ((k, v) ∷ post))
      → Parts k pre post
  parts k v pre post d =
      let (dx, dy, apart) = Distinct-append pre ((k, v) ∷ post) d in
      let (fresh, apart') = Apart-cons pre k v post apart in
      record {
        distinct_pre = dx;
        distinct_post = dy.1;
        fresh_pre = fresh;
        fresh_post = dy.0;
        apart = apart';
      }

  -- A key off a list is not the last one on it.
  ne-last :
      (p j : K) (v : V) (xs : List (K × V)) (k : K)
      → last (some j) xs ≡ some p
      → Fresh k ((j, v) ∷ xs)
      → p ≢ k
  ne-last p j v [] k e h q = h.0 (ground arith)
  ne-last p j v ((i, w) ∷ xs) k e h q = ne-last p i w xs k e h.1 q

  pub Linked-Between :
      (c : Cache K V) (k : K) (v : V) (pre post : List (K × V))
      → Linked c (pre ++ ((k, v) ∷ post))
      → Between c c k v pre post (some k) (some k)
  Linked-Between c k v pre post l =
      let (front, back) = Linking-append c.mem.cells none pre ((k, v) ∷ post) none l.chain in
      record {
        node = back.0;
        front = front;
        back = back.1;
        kept = record { size = refl; capacity = refl; others = λ j h. refl };
      }

module _ {K V : Type 0} (eq : Discrete K) (c : Cache K V) (k : K) (v : V) where
  put_ne : (p j : K) (n : Option (Entry K V)) → p ≢ j → put eq c.mem.cells p n j ≡ c.mem.cells j
  put_ne p j n ne = ground arith

  abbrev Half :
      Option (Cache K V)
      → List (K × V)
      → List (K × V)
      → Option K
      → Option K
      → Option K
      → Option K
      → Type 0
  Half r pre post head tail next prev =
      (c' : Cache K V) × (r ≡ some c')
      × (c'.head ≡ head)
      × (c'.tail ≡ tail)
      × Between c c' k v pre post next prev

  pub release_front_lem :
      (pre post : List (K × V))
      → Parts k pre post
      → c.head ≡ first (pre ++ ((k, v) ∷ post)) none
      → Between c c k v pre post (some k) (some k)
      → Half
          (release_front eq k c)
          pre
          post
          (first (pre ++ post) none)
          c.tail
          (first post none)
          (some k)
  unfolding release_front set_child
  release_front_lem [] post d head b = (
    record c { head = first post none },
    rw b.node,
    refl,
    refl,
    record {
      node = b.node;
      front = tt;
      back = b.back;
      kept = record { size = refl; capacity = refl; others = λ j h. refl };
    },
  )
  release_front_lem ((a, w) ∷ pre) post d head b =
      let (p, e) = last-some a pre in
      let (n, at, chain) =
        Linking-set_last eq c.mem.cells p a w none pre (some k) (first post none) e d.distinct_pre
          b.front in
      let ne : p ≢ k = ne-last p a w pre k e d.fresh_pre in
      let f = put eq c.mem.cells p (some (record n { child = first post none })) in
      (
        record c { mem = record c.mem { cells = f } },
        rw (b.node, e, at),
        head,
        refl,
        record {
          node = ground (arith, b.node);
          front = chain;
          back =
              Linking-put eq c.mem.cells p _ (some k) post none
                (Fresh-last p a w pre post e d.apart) b.back;
          kept = record {
            size = refl;
            capacity = refl;
            others = λ j h.
                put_ne p j _ (ne-last p a w pre j e (Fresh-append j ((a, w) ∷ pre) post h).0);
          };
        },
      )

  pub release_back_lem :
      (pre post : List (K × V))
      → Parts k pre post
      → c.tail ≡ last none (pre ++ ((k, v) ∷ post))
      → (c0 : Cache K V) → Between c0 c k v pre post (first post none) (some k)
      → (c' : Cache K V) × (release_back eq k c ≡ some c')
        × (c'.head ≡ c.head)
        × (c'.tail ≡ last none (pre ++ post))
        × Between c0 c' k v pre post (first post none) (last none pre)
  unfolding release_back set_parent
  release_back_lem pre [] d tail c0 b = (
    record c { tail = last none pre },
    rw b.node,
    refl,
    sym (last-append none pre []),
    record {
      node = b.node;
      front = b.front;
      back = tt;
      kept = record { size = b.kept.size; capacity = b.kept.capacity; others = b.kept.others };
    },
  )
  release_back_lem pre ((q, w) ∷ post) d tail c0 b =
      let (n, at, chain) =
        Linking-set_first eq c.mem.cells q w (some k) (last none pre) post none d.distinct_post
          b.back in
      let ne : q ≢ k = d.fresh_post.0 in
      let apart = Apart-cons pre q w post d.apart in
      let f = put eq c.mem.cells q (some (record n { parent = last none pre })) in
      (
        record c { mem = record c.mem { cells = f } },
        rw (b.node, at),
        refl,
        tail
            ∙ last-append none pre ((k, v) ∷ ((q, w) ∷ post))
            ∙ sym (last-append none pre ((q, w) ∷ post)),
        record {
          node = ground (arith, b.node);
          front = Linking-put eq c.mem.cells q _ none pre (some q) apart.0 b.front;
          back = chain;
          kept = record {
            size = b.kept.size;
            capacity = b.kept.capacity;
            others =
                λ j h. put_ne q j _ (Fresh-append j pre ((q, w) ∷ post) h).1.0 ∙ b.kept.others j h;
          };
        },
      )
