-- ===== src/Semaphore/WaitQueue/Enqueue.antt =====
-- `alloc_cache` and `enqueue` of a wait queue.
use mathlib.Core.Path.{subst}
use native.Mathlib.Decide.{ℕ_discrete}
use concurrency_cpp.Base.{
  ℕ, zero, suc, ◌+◌, ◌*◌, ◌%◌, ◌^◌, ◌<◌, ◌≡◌, ◌≢◌, refl, sym, ◌∙◌, ap, Bool, false, none, some,
  List, [], ◌∷◌, ◌++◌, arith, length, length-append,
}
use concurrency_cpp.Base.Chain.{
  put, put-eq, put_ne, first, last-append, last-some, append-Chain, Chain-put, Chain-set_last,
}
use concurrency_cpp.Semaphore.WaitQueue.{
  WaitQueue, alloc_node, alloc_nodes, alloc_cache, make_with, refill, link_last, pop_cached,
  take_cached, enqueue,
}
use concurrency_cpp.Semaphore.WaitQueue.Contents.{
  linked_node, one, occurs, Holds, Represents, Loose, absent-rest, Distinct-rest, occurs-last,
  ne_of_occurs, occurs-append, once-one, one_below, ne_of_one, rest_of_one, occurs-Fresh,
  Cached-put,
}

cached_first :
    (q : WaitQueue) (cs : List (ℕ × Bool))
    → q.cache_head ≡ first cs none
    → (alloc_node q).cells q.allocated ≡ some (linked_node false none (first cs none))
cached_first q cs e =
    put-eq ℕ_discrete q.cells q.allocated _ ∙ ap (λ p. some (linked_node false none p)) e

alloc_node-Holds :
    (q : WaitQueue) (xs cs : List (ℕ × Bool))
    → Holds q xs cs
    → Holds (alloc_node q) xs ((q.allocated, false) ∷ cs)
alloc_node-Holds q xs cs h =
    let none_there = h.below q.allocated (omega arith) in
    record {
      chain =
          Chain-put linked_node q.cells ℕ_discrete q.allocated _ none xs none
            (occurs-Fresh q.allocated xs (omega (arith, none_there))) h.chain;
      cached = (
        cached_first q cs h.cache_head,
        Cached-put q.cells q.allocated _ cs (omega (arith, none_there)) h.cached,
      );
      head = h.head;
      tail = h.tail;
      cache_head = refl;
      once = λ j. once-one q.allocated j _ _ (λ e. h.below j (omega (arith, e))) (h.once j);
      below = λ j le. one_below q.allocated j _ _ le (h.below j (omega (arith, le)));
      only = λ j none_of.
          put_ne ℕ_discrete q.cells q.allocated _ j (ne_of_one q.allocated j _ _ none_of)
          ∙ h.only j (rest_of_one q.allocated j _ _ none_of);
    }

alloc_nodes-Holds :
    (i : ℕ) (q : WaitQueue) (xs cs : List (ℕ × Bool))
    → Holds q xs cs
    → (cs' : List (ℕ × Bool)) × Holds (alloc_nodes i q) xs cs'
      × (length cs' ≡ i + length cs)
      × ((alloc_nodes i q).cur_queue_capacity ≡ q.cur_queue_capacity)
unfolding alloc_nodes
alloc_nodes-Holds zero q xs cs h = (cs, h, omega arith, refl)
alloc_nodes-Holds (suc i) q xs cs h =
    let (cs', h', longer, same) =
      alloc_nodes-Holds i (alloc_node q) xs ((q.allocated, false) ∷ cs)
        (alloc_node-Holds q xs cs h) in
    (cs', h', omega (arith, longer), same)

pub make_with-Represents :
    (capacity : ℕ) → 0 < capacity → (cs : List (ℕ × Bool)) × Represents (make_with capacity) [] cs
unfolding make_with alloc_cache
make_with-Represents capacity some_node =
    let (cs, h, long, same) = alloc_nodes-Holds capacity _ [] [] (record {
      chain = tt;
      cached = tt;
      head = refl;
      tail = refl;
      cache_head = refl;
      once = λ j. omega arith;
      below = λ j le. refl;
      only = λ j none_of. refl;
    }) in
    (
      cs,
      record {
        holds = h;
        count = omega (arith, long, same);
        some_node = omega (arith, same, some_node);
      },
    )

-- More nodes than none have a first one.
Represents-cons :
    (q : WaitQueue) (xs cs : List (ℕ × Bool))
    → 0 < length cs
    → Represents q xs cs
    → (c : ℕ) × (w : Bool) × (cs' : List (ℕ × Bool)) × Represents q xs ((c, w) ∷ cs')
Represents-cons q xs [] some_node r = ground arith
Represents-cons q xs ((c, w) ∷ cs) some_node r = (c, w, cs, r)

-- An empty cache is filled with as many nodes as there are, and the capacity doubled.
pub refill-Represents :
    (q : WaitQueue) (xs cs : List (ℕ × Bool))
    → length xs < 2 ^ 63
    → Represents q xs cs
    → (c : ℕ) × (w : Bool) × (cs' : List (ℕ × Bool)) × Represents (refill q) xs ((c, w) ∷ cs')
unfolding refill alloc_cache
refill-Represents q xs ((c, w) ∷ cs) small r =
    let same : refill q ≡ q = rw r.cache_head in
    (c, w, cs, subst (λ q. Represents q xs ((c, w) ∷ cs)) (sym same) r)
refill-Represents q xs [] small r =
    let (cs, h, longer, same) = alloc_nodes-Holds q.cur_queue_capacity q xs [] r.holds in
    let q' = alloc_nodes q.cur_queue_capacity q in
    let filled : refill q
        ≡ record q' { cur_queue_capacity = (q'.cur_queue_capacity * 2) % 2 ^ 64 } =
      rw r.cache_head in
    subst (λ q. (c : ℕ) × (w : Bool) × (cs' : List (ℕ × Bool)) × Represents q xs ((c, w) ∷ cs'))
      (sym filled)
      (Represents-cons _ xs cs (omega (arith, longer, r.some_node)) (record {
        holds = record {
          chain = h.chain;
          cached = h.cached;
          head = h.head;
          tail = h.tail;
          cache_head = h.cache_head;
          once = h.once;
          below = h.below;
          only = h.only;
        };
        count = omega (arith, longer, same, r.count, small);
        some_node = omega (arith, same, r.count, small, r.some_node);
      }))

pop_cached_lem :
    (q : WaitQueue) (c : ℕ) (w : Bool) (xs cs : List (ℕ × Bool))
    → Holds q xs ((c, w) ∷ cs)
    → (q' : WaitQueue) × (pop_cached q ≡ some (c, q'))
      × Loose q' c (linked_node false none none) xs cs
      × (q'.cur_queue_capacity ≡ q.cur_queue_capacity)
unfolding pop_cached
pop_cached_lem q c w xs cs h =
    let n1 = some (linked_node false none (first cs none)) in
    let n2 = some (linked_node false none none) in
    let f = put ℕ_discrete q.cells c n1 in
    let (off_queue, off_cache) = absent-rest c xs cs h.once in
    let fresh = occurs-Fresh c xs off_queue in
    (
      record q { cells = put ℕ_discrete f c n2; cache_head = first cs none },
      rw (h.cache_head, h.cached.0, put-eq ℕ_discrete q.cells c n1),
      record {
        chain =
            Chain-put linked_node f ℕ_discrete c n2 none xs none fresh
              (Chain-put linked_node q.cells ℕ_discrete c n1 none xs none fresh h.chain);
        cached = Cached-put f c n2 cs off_cache (Cached-put q.cells c n1 cs off_cache h.cached.1);
        node = put-eq ℕ_discrete f c n2;
        head = h.head;
        tail = h.tail;
        cache_head = refl;
        once = h.once;
        below = h.below;
        only = λ j none_of.
            let ne = ne_of_one c j _ _ none_of in
            put_ne ℕ_discrete f c n2 j ne ∙ put_ne ℕ_discrete q.cells c n1 j ne ∙ h.only j none_of;
      },
      refl,
    )

link_last_lem :
    (q : WaitQueue) (c : ℕ) (xs cs : List (ℕ × Bool))
    → Loose q c (linked_node false none none) xs cs
    → (q' : WaitQueue) × (link_last c q ≡ some q')
      × Holds q' (xs ++ ((c, false) ∷ [])) cs
      × (q'.cur_queue_capacity ≡ q.cur_queue_capacity)
unfolding link_last
link_last_lem q c [] cs l = (
  record q { head = some c; tail = some c },
  rw l.tail,
  record {
    chain = (l.node, tt);
    cached = l.cached;
    head = refl;
    tail = refl;
    cache_head = l.cache_head;
    once = λ j. omega (arith, l.once j);
    below = λ j le. omega (arith, l.below j le);
    only = λ j none_of. l.only j (omega (arith, none_of));
  },
  refl,
)
link_last_lem q c ((k, w) ∷ xs) cs l =
    let (t, e) = last-some k xs in
    let distinct = Distinct-rest c ((k, w) ∷ xs) cs l.once in
    let (v, p, at, chain) =
      Chain-set_last linked_node q.cells ℕ_discrete t k w none xs none (some c) e distinct
        l.chain in
    let n1 = some (linked_node v p (some c)) in
    let n2 = some (linked_node false (some t) none) in
    let f = put ℕ_discrete q.cells t n1 in
    let (off_queue, off_cache) = absent-rest c ((k, w) ∷ xs) cs l.once in
    let on_queue = occurs-last t k w xs e in
    let ne : t ≢ c = ne_of_occurs t c ((k, w) ∷ xs) on_queue off_queue in
    let kept : f c ≡ some (linked_node false none none) =
      put_ne ℕ_discrete q.cells t n1 c ne ∙ l.node in
    (
      record q { cells = put ℕ_discrete f c n2; tail = some c },
      rw (l.tail, e, at, kept),
      record {
        chain =
            append-Chain linked_node _ none ((k, w) ∷ xs) ((c, false) ∷ []) none
              (Chain-put linked_node f ℕ_discrete c n2 none ((k, w) ∷ xs) (some c)
                (occurs-Fresh c ((k, w) ∷ xs) off_queue) chain)
              (rw e (put-eq ℕ_discrete f c n2), tt);
        cached =
            Cached-put f c n2 cs off_cache
              (Cached-put q.cells t n1 cs (omega (arith, on_queue, l.once t)) l.cached);
        head = l.head;
        tail = sym (last-append none ((k, w) ∷ xs) ((c, false) ∷ []));
        cache_head = l.cache_head;
        once = λ j. omega (arith, l.once j, occurs-append j ((k, w) ∷ xs) ((c, false) ∷ []));
        below =
            λ j le. omega (arith, l.below j le, occurs-append j ((k, w) ∷ xs) ((c, false) ∷ []));
        only = λ j none_of.
            let none_of' : occurs j ((k, w) ∷ xs) + (one c j + occurs j cs) ≡ 0 =
              omega (arith, none_of, occurs-append j ((k, w) ∷ xs) ((c, false) ∷ [])) in
            put_ne ℕ_discrete f c n2 j (ne_of_one c j _ _ none_of')
            ∙ put_ne ℕ_discrete q.cells t n1 j
                (ne_of_occurs t j ((k, w) ∷ xs) on_queue (omega (arith, none_of')))
            ∙ l.only j none_of';
      },
      refl,
    )

-- Where `enqueue` succeeds, the node that it returns is the last one of the queue, not notified.
pub enqueue_lem :
    (q : WaitQueue) (xs cs : List (ℕ × Bool))
    → length xs < 2 ^ 63
    → Represents q xs cs
    → (c : ℕ) × (q' : WaitQueue) × (cs' : List (ℕ × Bool)) × (enqueue q ≡ some (c, q'))
      × Represents q' (xs ++ ((c, false) ∷ [])) cs'
unfolding enqueue take_cached
enqueue_lem q xs cs small r =
    let (c, w, cs', r') = refill-Represents q xs cs small r in
    let (q1, popped, loose, same1) = pop_cached_lem (refill q) c w xs cs' r'.holds in
    let (q2, linked, holds, same2) = link_last_lem q1 c xs cs' loose in
    (
      c,
      q2,
      cs',
      rw (popped, linked),
      record {
        holds = holds;
        count = omega (arith, r'.count, length-append xs ((c, false) ∷ []), same1, same2);
        some_node = omega (arith, r'.some_node, same1, same2);
      },
    )
