-- ===== src/Semaphore/WaitQueue/Remove.antt =====
-- `remove` of a wait queue, on the list of nodes that it holds.
use native.Mathlib.Decide.{ℕ_discrete}
use concurrency_cpp.Base.{
  ℕ, ◌+◌, ◌≤◌, ◌<◌, ◌≡◌, refl, ◌∙◌, ap, Bool, Option, none, some, List, [], ◌∷◌, ◌++◌, arith,
}
use concurrency_cpp.Base.Chain.{
  put, put-eq, put_ne, first, last, Distinct, Distinct-append, Chain, last-some, Chain-append,
  append-Chain, Chain-put, Chain-set_last, Chain-set_first,
}
use concurrency_cpp.Semaphore.WaitQueue.{
  WaitNode, WaitQueue, unlink_front, unlink_back, return_to_cache, remove_node, remove,
}
use concurrency_cpp.Semaphore.WaitQueue.Ends.{unlink_ends_lem}
use concurrency_cpp.Semaphore.WaitQueue.Contents.{
  linked_node, Cached, one, occurs, Holds, Represents, Loose, absent-rest, one_refl, Distinct-rest,
  occurs-last, ne_of_occurs, occurs-append, occurs-middle, length-middle, ne_of_one, occurs-Fresh,
  Cached-put,
}

module _ (p : ℕ) (w : Bool) (pre post cs : List (ℕ × Bool)) where
  abbrev node : WaitNode
  node = linked_node w (last none pre) (first post none)

  -- The node of `p` still points at its neighbours, which point at `front_next` and `back_prev`.
  record Cut (f : ℕ → Option WaitNode) (front_next back_prev : Option ℕ) : Type 0 where
    at : f p ≡ some node
    front : Chain linked_node f none pre front_next
    back : Chain linked_node f back_prev post none
    cached : Cached f cs
    only : (j : ℕ) → occurs j (pre ++ post) + (one p j + occurs j cs) ≡ 0 → f j ≡ none

-- No node is on the lists twice, or is the one of `p` on them.
abbrev Once : ℕ → List (ℕ × Bool) → List (ℕ × Bool) → List (ℕ × Bool) → Type 0
Once p pre post cs = (j : ℕ) → occurs j (pre ++ post) + (one p j + occurs j cs) ≤ 1

module _ (p : ℕ) (pre post cs : List (ℕ × Bool)) (once : Once p pre post cs) where
  off_lists : (occurs p pre ≡ 0) × (occurs p post ≡ 0) × (occurs p cs ≡ 0)
  off_lists =
      let split = occurs-append p pre post in
      let here = once p in
      let self = one_refl p in
      (
        omega (arith, here, self, split),
        omega (arith, here, self, split),
        omega (arith, here, self),
      )

  Distinct-halves : Distinct pre × Distinct post
  Distinct-halves =
      let (front, back, apart) = Distinct-append pre post (Distinct-rest p (pre ++ post) cs once) in
      (front, back)

  -- A node of the one half is not in the other half, and not in the cache.
  only_there :
      (t : ℕ)
      → (0 < occurs t pre → occurs t post ≡ 0)
        × (0 < occurs t post → occurs t pre ≡ 0)
        × (0 < occurs t (pre ++ post) → occurs t cs ≡ 0)
  only_there t =
      let split = occurs-append t pre post in
      let here = once t in
      (
        λ on. omega (arith, here, on, split),
        λ on. omega (arith, here, on, split),
        λ on. omega (arith, here, on),
      )

module _ (q : WaitQueue) (p : ℕ) (w : Bool) where
  unlink_front_lem :
      (pre post cs : List (ℕ × Bool))
      → Once p pre post cs
      → Cut p w pre post cs q.cells (some p) (some p)
      → (f : ℕ → Option WaitNode) × (unlink_front (node p w pre post cs) q
          ≡ some (record q { cells = f }))
        × Cut p w pre post cs f (first post none) (some p)
  unfolding unlink_front
  unlink_front_lem [] post cs once c = (
    q.cells,
    refl,
    record { at = c.at; front = tt; back = c.back; cached = c.cached; only = c.only },
  )
  unlink_front_lem ((a, v) ∷ pre) post cs once c =
      let (t, e) = last-some a pre in
      let on = occurs-last t a v pre e in
      let on' : 0 < occurs t (((a, v) ∷ pre) ++ post) =
        omega (arith, on, occurs-append t ((a, v) ∷ pre) post) in
      let (u, r, at, front) =
        Chain-set_last linked_node q.cells ℕ_discrete t a v none pre (some p) (first post none) e
          (Distinct-halves p ((a, v) ∷ pre) post cs once).0 c.front in
      let n = some (linked_node u r (first post none)) in
      let ne = ne_of_occurs t p ((a, v) ∷ pre) on (off_lists p ((a, v) ∷ pre) post cs once).0 in
      let (off_post, _, off_cache) = only_there p ((a, v) ∷ pre) post cs once t in
      (
        put ℕ_discrete q.cells t n,
        rw (e, at),
        record {
          at = put_ne ℕ_discrete q.cells t n p ne ∙ c.at;
          front = front;
          back =
              Chain-put linked_node q.cells ℕ_discrete t n (some p) post none
                (occurs-Fresh t post (off_post on)) c.back;
          cached = Cached-put q.cells t n cs (off_cache on') c.cached;
          only = λ j none_of.
              put_ne ℕ_discrete q.cells t n j
                (ne_of_occurs t j (((a, v) ∷ pre) ++ post) on' (omega (arith, none_of)))
              ∙ c.only j none_of;
        },
      )

  unlink_back_lem :
      (pre post cs : List (ℕ × Bool))
      → Once p pre post cs
      → Cut p w pre post cs q.cells (first post none) (some p)
      → (f : ℕ → Option WaitNode) × (unlink_back p q ≡ some (record q { cells = f }))
        × Cut p w pre post cs f (first post none) (last none pre)
  unfolding unlink_back
  unlink_back_lem pre [] cs once c = (
    q.cells,
    rw c.at,
    record { at = c.at; front = c.front; back = tt; cached = c.cached; only = c.only },
  )
  unlink_back_lem pre ((b, v) ∷ post) cs once c =
      let on : 0 < occurs b ((b, v) ∷ post) = omega (arith, one_refl b) in
      let on' : 0 < occurs b (pre ++ ((b, v) ∷ post)) =
        omega (arith, on, occurs-append b pre ((b, v) ∷ post)) in
      let n = some (linked_node v (last none pre) (first post none)) in
      let back =
        Chain-set_first linked_node q.cells ℕ_discrete b v (some p) (last none pre) post none
          (Distinct-halves p pre ((b, v) ∷ post) cs once).1 c.back in
      let ne = ne_of_occurs b p ((b, v) ∷ post) on (off_lists p pre ((b, v) ∷ post) cs once).1 in
      let (_, off_pre, off_cache) = only_there p pre ((b, v) ∷ post) cs once b in
      (
        put ℕ_discrete q.cells b n,
        rw (c.at, c.back.0),
        record {
          at = put_ne ℕ_discrete q.cells b n p ne ∙ c.at;
          front =
              Chain-put linked_node q.cells ℕ_discrete b n none pre (some b)
                (occurs-Fresh b pre (off_pre on)) c.front;
          back = back;
          cached = Cached-put q.cells b n cs (off_cache on') c.cached;
          only = λ j none_of.
              put_ne ℕ_discrete q.cells b n j
                (ne_of_occurs b j (pre ++ ((b, v) ∷ post)) on' (omega (arith, none_of)))
              ∙ c.only j none_of;
        },
      )

return_to_cache_lem :
    (q : WaitQueue) (p : ℕ) (n : WaitNode) (xs cs : List (ℕ × Bool))
    → Loose q p n xs cs
    → (q' : WaitQueue) × (return_to_cache p q ≡ some q')
      × Holds q' xs ((p, n.wakeable) ∷ cs)
      × (q'.cur_queue_capacity ≡ q.cur_queue_capacity)
unfolding return_to_cache
return_to_cache_lem q p n xs cs l =
    let n1 = some (record n { prev = none }) in
    let n2 = some (record n { prev = none; next = q.cache_head }) in
    let f = put ℕ_discrete q.cells p n1 in
    let (off_queue, off_cache) = absent-rest p xs cs l.once in
    let fresh = occurs-Fresh p xs off_queue in
    (
      record q { cells = put ℕ_discrete f p n2; cache_head = some p },
      rw (l.node, put-eq ℕ_discrete q.cells p n1),
      record {
        chain =
            Chain-put linked_node f ℕ_discrete p n2 none xs none fresh
              (Chain-put linked_node q.cells ℕ_discrete p n1 none xs none fresh l.chain);
        cached = (
          put-eq ℕ_discrete f p n2
              ∙ ap (λ next. some (linked_node n.wakeable none next)) l.cache_head,
          Cached-put f p n2 cs off_cache (Cached-put q.cells p n1 cs off_cache l.cached),
        );
        head = l.head;
        tail = l.tail;
        cache_head = refl;
        once = l.once;
        below = l.below;
        only = λ j none_of.
            let ne = ne_of_one p j _ _ none_of in
            put_ne ℕ_discrete f p n2 j ne ∙ put_ne ℕ_discrete q.cells p n1 j ne ∙ l.only j none_of;
      },
      refl,
    )

Holds-Cut :
    (q : WaitQueue) (p : ℕ) (w : Bool) (pre post cs : List (ℕ × Bool))
    → Holds q (pre ++ ((p, w) ∷ post)) cs
    → Cut p w pre post cs q.cells (some p) (some p) × Once p pre post cs
Holds-Cut q p w pre post cs h =
    let (front, back) = Chain-append linked_node q.cells none pre ((p, w) ∷ post) none h.chain in
    (
      record {
        at = back.0;
        front = front;
        back = back.1;
        cached = h.cached;
        only = λ j none_of. h.only j (omega (arith, none_of, occurs-middle j p w pre post));
      },
      λ j. omega (arith, h.once j, occurs-middle j p w pre post),
    )

-- `remove` of a queued node takes it out of the queue wherever it stands, and puts it at the front
-- of the cache.
pub remove_lem :
    (q : WaitQueue) (p : ℕ) (w : Bool) (pre post cs : List (ℕ × Bool))
    → Represents q (pre ++ ((p, w) ∷ post)) cs
    → (q' : WaitQueue) × (remove (some p) q ≡ some q') × Represents q' (pre ++ post) ((p, w) ∷ cs)
unfolding remove remove_node
remove_lem q p w pre post cs r =
    let (cut, once) = Holds-Cut q p w pre post cs r.holds in
    let (off_pre, off_post, off_cache) = off_lists p pre post cs once in
    let off : occurs p (pre ++ post) ≡ 0 =
      omega (arith, off_pre, off_post, occurs-append p pre post) in
    let ends = unlink_ends_lem q p w pre post off r.head r.tail in
    let q0 = record q { head = first (pre ++ post) none; tail = last none (pre ++ post) } in
    let (f, unlinked, cut1) = unlink_front_lem q0 p w pre post cs once cut in
    let q1 = record q0 { cells = f } in
    let (g, unlinked', cut2) = unlink_back_lem q1 p w pre post cs once cut1 in
    let q2 = record q1 { cells = g } in
    let (q', returned, holds, same) =
      return_to_cache_lem q2 p (node p w pre post cs) (pre ++ post) cs (record {
        chain = append-Chain linked_node g none pre post none cut2.front cut2.back;
        cached = cut2.cached;
        node = cut2.at;
        head = refl;
        tail = refl;
        cache_head = r.cache_head;
        once = once;
        below = λ j le. omega (arith, r.below j le, occurs-middle j p w pre post);
        only = cut2.only;
      }) in
    (
      q',
      rw (cut.at, ends, unlinked, unlinked', returned),
      record {
        holds = holds;
        count = omega (arith, r.count, length-middle (p, w) pre post, same);
        some_node = omega (arith, r.some_node, same);
      },
    )
