-- ===== src/Util/LruCache/Links.antt =====
-- `list_release` and `list_insert_head` of util/lru_cache.h, on the list of pairs that the nodes form.
use concurrency_cpp.Base.{◌≡◌, refl, Option, none, some, List, [], ◌∷◌, ◌++◌, arith, ◌∙◌}
use concurrency_cpp.Util.LruCache.{
  Entry, Cache, put, set_parent, set_child, list_insert_head, list_release,
}
use concurrency_cpp.Base.Chain.{Fresh, append-Distinct}
use concurrency_cpp.Util.LruCache.Chain.{append-Linking, Linking-put, Linking-set_first}
use concurrency_cpp.Util.LruCache.Relinking.{
  Linked, Kept, parts, Linked-Between, release_front_lem, release_back_lem,
}

module _ {K V : Type 0} (eq : Discrete K) where
  put_self : (f : K → Option (Entry K V)) (k : K) (n : Option (Entry K V)) → put eq f k n k ≡ n
  put_self f k n = ground arith

module _ {K V : Type 0} (eq : Discrete K) (c : Cache K V) (k : K) (v : V) where
  -- Releasing a node takes its pair out of the list; the node stays in the map, with its value.
  pub list_release_lem :
      (pre post : List (K × V))
      → Linked c (pre ++ ((k, v) ∷ post))
      → (c' : Cache K V) × (list_release eq k c ≡ some c')
        × Linked c' (pre ++ post)
        × Kept c c' (pre ++ post)
        × (n : Entry K V) × (c'.mem.cells k ≡ some n)
        × (n.value ≡ v)
  unfolding list_release
  list_release_lem pre post l =
      let d = parts k v pre post l.distinct in
      let (c1, run1, head1, tail1, b1) =
        release_front_lem eq c k v pre post d l.head (Linked-Between c k v pre post l) in
      let (c2, run2, head2, tail2, b2) =
        release_back_lem eq c1 k v pre post d (tail1 ∙ l.tail) c b1 in
      (
        c2,
        rw run1 run2,
        record {
          chain = append-Linking c2.mem.cells none pre post none b2.front b2.back;
          distinct = append-Distinct pre post d.distinct_pre d.distinct_post d.apart;
          head = head2 ∙ head1;
          tail = tail2;
        },
        b2.kept,
        _,
        b2.node,
        refl,
      )

  -- Inserting a node that is not on the list puts its pair in front.
  pub list_insert_head_lem :
      (xs : List (K × V)) {n : Entry K V}
      → c.mem.cells k ≡ some n
      → Fresh k xs
      → Linked c xs
      → (c' : Cache K V) × (list_insert_head eq k c ≡ some c')
        × Linked c' ((k, n.value) ∷ xs)
        × Kept c c' ((k, n.value) ∷ xs)
  unfolding list_insert_head set_parent set_child
  list_insert_head_lem [] {n} at fresh l =
      let f = put eq c.mem.cells k (some (record n { parent = none })) in
      let g = put eq f k (some (record n { parent = none; child = none })) in
      (
        record c { mem = record c.mem { cells = g }; head = some k; tail = some k },
        rw (l.head, at, put_self eq c.mem.cells k (some (record n { parent = none }))),
        record { chain = (ground arith, tt); distinct = (tt, tt); head = refl; tail = refl },
        record { size = refl; capacity = refl; others = λ j h. ground (arith, h.0) },
      )
  list_insert_head_lem ((h, w) ∷ xs) {n} at fresh l =
      let f = put eq c.mem.cells k (some (record n { parent = none })) in
      let g = put eq f k (some (record n { parent = none; child = some h })) in
      let still =
        Linking-put eq f k (some (record n { parent = none; child = some h })) none ((h, w) ∷ xs)
          none fresh
          (Linking-put eq c.mem.cells k (some (record n { parent = none })) none ((h, w) ∷ xs) none
            fresh l.chain) in
      let (m, at', chain) = Linking-set_first eq g h w none (some k) xs none l.distinct still in
      (
        record c {
          mem = record c.mem { cells = put eq g h (some (record m { parent = some k })) };
          head = some k;
        },
        rw (l.head, at, put_self eq c.mem.cells k (some (record n { parent = none })), at'),
        record {
          chain = (ground arith, chain);
          distinct = (fresh, l.distinct);
          head = refl;
          tail = l.tail;
        },
        record { size = refl; capacity = refl; others = λ j d. ground (arith, d.0, d.1.0) },
      )
