-- ===== src/Semaphore/WaitQueue/Refinement.antt =====
-- The calls of a wait queue on the list of the nodes that are queued, from the head.
use mathlib.Core.Path.{subst}
use mathlib.Core.Option.{some-injective}
use native.Mathlib.Decide.{ℕ_discrete}
use concurrency_cpp.Base.{
  ℕ, zero, suc, ◌+◌, ◌%◌, ◌^◌, ◌<◌, ◌≡◌, refl, sym, ◌∙◌, ap, Bool, true, false, Option, none, some,
  List, [], ◌∷◌, ◌++◌, arith, length, ◌==◌, ==_false,
}
use concurrency_cpp.Base.Chain.{put, put-eq, put_ne, first, Chain, Chain-put}
use concurrency_cpp.Semaphore.WaitQueue.{
  WaitQueue, make_with, enqueue, remove, dequeue, wake_head, is_empty, count_from,
  num_waiting_nodes,
}
use concurrency_cpp.Semaphore.WaitQueue.Contents.{
  linked_node, one_refl, occurs, Represents, occurs-append, occurs-Fresh, Cached-put, ne_of_occurs,
}
use concurrency_cpp.Semaphore.WaitQueue.Enqueue.{make_with-Represents, enqueue_lem}
use concurrency_cpp.Semaphore.WaitQueue.Remove.{remove_lem}

-- `dequeue` removes the first node.
pub dequeue_lem :
    (q : WaitQueue) (p : ℕ) (w : Bool) (xs cs : List (ℕ × Bool))
    → Represents q ((p, w) ∷ xs) cs
    → (q' : WaitQueue) × (dequeue q ≡ some q') × Represents q' xs ((p, w) ∷ cs)
unfolding dequeue
dequeue_lem q p w xs cs r =
    let (q', removed, r') = remove_lem q p w [] xs cs r in
    (q', ap (λ h. remove h q) r.head ∙ removed, r')

pub dequeue-empty : (q : WaitQueue) (cs : List (ℕ × Bool)) → Represents q [] cs → dequeue q ≡ some q
unfolding dequeue remove
dequeue-empty q cs r = ap (λ h. remove h q) r.head

pub wake_head-empty :
    (q : WaitQueue) (cs : List (ℕ × Bool)) → Represents q [] cs → wake_head q ≡ some q
unfolding wake_head
wake_head-empty q cs r = rw r.head

pub is_empty_lem :
    (q : WaitQueue) (p : ℕ × Bool) (xs cs : List (ℕ × Bool))
    → Represents q (p ∷ xs) cs
    → is_empty q ≡ false
is_empty_lem q p xs cs r = ap (λ h. elim h [ none ↦ true | some h ↦ false ]) r.head

pub is_empty-empty : (q : WaitQueue) (cs : List (ℕ × Bool)) → Represents q [] cs → is_empty q ≡ true
is_empty-empty q cs r = ap (λ h. elim h [ none ↦ true | some h ↦ false ]) r.head

-- `wake_head` notifies the first node and leaves the others alone.
pub wake_head_lem :
    (q : WaitQueue) (p : ℕ) (w : Bool) (xs cs : List (ℕ × Bool))
    → Represents q ((p, w) ∷ xs) cs
    → (q' : WaitQueue) × (wake_head q ≡ some q') × Represents q' ((p, true) ∷ xs) cs
unfolding wake_head
wake_head_lem q p w xs cs r =
    let n = some (linked_node true none (first xs none)) in
    let on = one_refl p in
    let off_xs : occurs p xs ≡ 0 = omega (arith, r.once p, on) in
    let off_cs : occurs p cs ≡ 0 = omega (arith, r.once p, on) in
    (
      record q { cells = put ℕ_discrete q.cells p n },
      rw (r.head, r.chain.0),
      record {
        holds = record {
          chain = (
            put-eq ℕ_discrete q.cells p n,
            Chain-put linked_node q.cells ℕ_discrete p n (some p) xs none (occurs-Fresh p xs off_xs)
                r.chain.1,
          );
          cached = Cached-put q.cells p n cs off_cs r.cached;
          head = r.head;
          tail = r.tail;
          cache_head = r.cache_head;
          once = r.once;
          below = r.below;
          only = λ j none_of.
              put_ne ℕ_discrete q.cells p n j
                (ne_of_occurs p j ((p, w) ∷ xs) (omega (arith, on)) (omega (arith, none_of)))
              ∙ r.only j none_of;
        };
        count = r.count;
        some_node = r.some_node;
      },
    )

-- The states of a queue, each with the nodes that its owner has enqueued and not removed, in order,
-- and with those among them that were notified.
pub data Reach : WaitQueue → List (ℕ × Bool) → Type 0 where
  made : (capacity : ℕ) → 0 < capacity → Reach (make_with capacity) []
  enqueued :
      (q q' : WaitQueue) (xs : List (ℕ × Bool)) (c : ℕ)
      → Reach q xs
      → length xs < 2 ^ 63
      → enqueue q ≡ some (c, q')
      → Reach q' (xs ++ ((c, false) ∷ []))
  removed :
      (q q' : WaitQueue) (pre : List (ℕ × Bool)) (p : ℕ) (w : Bool) (post : List (ℕ × Bool))
      → Reach q (pre ++ ((p, w) ∷ post))
      → remove (some p) q ≡ some q'
      → Reach q' (pre ++ post)
  dequeued :
      (q q' : WaitQueue) (p : ℕ) (w : Bool) (xs : List (ℕ × Bool))
      → Reach q ((p, w) ∷ xs)
      → dequeue q ≡ some q'
      → Reach q' xs
  woken :
      (q q' : WaitQueue) (p : ℕ) (w : Bool) (xs : List (ℕ × Bool))
      → Reach q ((p, w) ∷ xs)
      → wake_head q ≡ some q'
      → Reach q' ((p, true) ∷ xs)

-- A reached state represents its list.
pub Reach-Represents :
    (q : WaitQueue) (xs : List (ℕ × Bool))
    → Reach q xs
    → (cs : List (ℕ × Bool)) × Represents q xs cs
Reach-Represents q xs (made capacity some_node) = make_with-Represents capacity some_node
Reach-Represents q xs (enqueued q0 q' ys c reach small e) =
    let (cs, r) = Reach-Represents q0 ys reach in
    let (c', q1, cs', e', r') = enqueue_lem q0 ys cs small r in
    let same : (c', q1) ≡ (c, q') = some-injective _ _ (sym e' ∙ e) in
    (cs', subst (λ r. Represents r.1 (ys ++ ((r.0, false) ∷ [])) cs') same r')
Reach-Represents q xs (removed q0 q' pre p w post reach e) =
    let (cs, r) = Reach-Represents q0 _ reach in
    let (q1, e', r') = remove_lem q0 p w pre post cs r in
    (
      ((p, w) ∷ cs),
      subst (λ q. Represents q (pre ++ post) ((p, w) ∷ cs)) (some-injective _ _ (sym e' ∙ e)) r',
    )
Reach-Represents q xs (dequeued q0 q' p w ys reach e) =
    let (cs, r) = Reach-Represents q0 _ reach in
    let (q1, e', r') = dequeue_lem q0 p w ys cs r in
    (((p, w) ∷ cs), subst (λ q. Represents q ys ((p, w) ∷ cs)) (some-injective _ _ (sym e' ∙ e)) r')
Reach-Represents q xs (woken q0 q' p w ys reach e) =
    let (cs, r) = Reach-Represents q0 _ reach in
    let (q1, e', r') = wake_head_lem q0 p w ys cs r in
    (cs, subst (λ q. Represents q ((p, true) ∷ ys) cs) (some-injective _ _ (sym e' ∙ e)) r')

-- A node on the list stands between a front part and a rest.
pub occurs-split :
    (p : ℕ) (xs : List (ℕ × Bool))
    → 0 < occurs p xs
    → (pre : List (ℕ × Bool)) × (w : Bool) × (post : List (ℕ × Bool)) × (xs
        ≡ pre ++ ((p, w) ∷ post))
occurs-split p [] on = ground arith
occurs-split p ((k, w) ∷ xs) on = elim (ℕ_discrete k p) [
  | yes e ↦ ([], w, xs, ap (λ k. (k, w) ∷ xs) e)
  | no ne ↦
      let (pre, v, post, e) = occurs-split p xs (ground arith) in
      ((k, w) ∷ pre, v, post, ap (λ xs. (k, w) ∷ xs) e)
]

-- In a reached state with fewer than 2 ^ 63 queued nodes no call of a queue goes through a null or
-- dangling pointer, as long as `remove` is called with a null pointer or a queued node: `enqueue`
-- returns a node that was not queued, and the other calls return.
pub Reach-calls :
    (q : WaitQueue) (xs : List (ℕ × Bool))
    → length xs < 2 ^ 63
    → Reach q xs
    → ((c : ℕ) × (q' : WaitQueue) × (enqueue q ≡ some (c, q')) × (occurs c xs ≡ 0))
      × ((p : ℕ) → 0 < occurs p xs → (q' : WaitQueue) × (remove (some p) q ≡ some q'))
      × (remove none q ≡ some q)
      × ((q' : WaitQueue) × (dequeue q ≡ some q'))
      × ((q' : WaitQueue) × (wake_head q ≡ some q'))
unfolding remove
Reach-calls q xs small reach =
    let (cs, r) = Reach-Represents q xs reach in
    let (c, q1, cs1, e1, r1) = enqueue_lem q xs cs small r in
    (
      (c, q1, e1, omega (arith, r1.once c, occurs-append c xs ((c, false) ∷ []), one_refl c)),
      λ p on.
          let (pre, w, post, e) = occurs-split p xs on in
          let (q', e', r') = remove_lem q p w pre post cs (subst (λ xs. Represents q xs cs) e r) in
          (q', e'),
      refl,
      elim xs as (λ xs. Represents q xs cs → (q' : WaitQueue) × (dequeue q ≡ some q')) [
        | [] ↦ λ r. (q, dequeue-empty q cs r)
        | p ∷ xs ↦ λ r. let (q', e, r') = dequeue_lem q p.0 p.1 xs cs r in (q', e)
      ]
          r,
      elim xs as (λ xs. Represents q xs cs → (q' : WaitQueue) × (wake_head q ≡ some q')) [
        | [] ↦ λ r. (q, wake_head-empty q cs r)
        | p ∷ xs ↦ λ r. let (q', e, r') = wake_head_lem q p.0 p.1 xs cs r in (q', e)
      ]
          r,
    )

-- The loop of `num_waiting_nodes` from the first node of a chain.
count_from-Chain :
    (q : WaitQueue) (prev : Option ℕ) (xs : List (ℕ × Bool)) (fuel ctr : ℕ)
    → length xs < fuel
    → Chain linked_node q.cells prev xs none
    → ctr < 2 ^ 32
    → count_from fuel q (first xs none) ctr ≡ some ((ctr + length xs) % 2 ^ 32)
unfolding count_from
count_from-Chain q prev xs zero ctr fuel c small = ground arith
count_from-Chain q prev [] (suc fuel) ctr enough c small = ap some (omega (arith, small))
count_from-Chain q prev ((k, w) ∷ xs) (suc fuel) ctr enough c small = rw c.0 (
    count_from-Chain q (some k) xs fuel ((ctr + 1) % 2 ^ 32) (omega (arith, enough)) c.1
      (omega arith)
    ∙ ap some (omega arith))

-- `num_waiting_nodes` ends and counts the nodes that are queued, in the 32 bits of an `int`.
pub num_waiting_nodes_lem :
    (q : WaitQueue) (xs : List (ℕ × Bool))
    → Reach q xs
    → (num_waiting_nodes (length xs + 1) q ≡ some (length xs % 2 ^ 32))
      × (is_empty q ≡ (length xs == 0))
unfolding num_waiting_nodes
num_waiting_nodes_lem q xs reach =
    let (cs, r) = Reach-Represents q xs reach in
    (
      ap (λ h. count_from (length xs + 1) q h 0) r.head
          ∙ count_from-Chain q none xs (length xs + 1) 0 (omega arith) r.chain (omega arith)
          ∙ ap some (omega arith),
      elim xs as (λ xs. Represents q xs cs → is_empty q ≡ (length xs == 0)) [
        | [] ↦ λ r. is_empty-empty q cs r
        | p ∷ xs ↦ λ r. is_empty_lem q p xs cs r ∙ sym (==_false (suc (length xs)) 0 (omega arith))
      ]
          r,
    )
