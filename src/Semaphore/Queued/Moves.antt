-- ===== src/Semaphore/Queued/Moves.antt =====
-- What the threads of a queued semaphore come to, by the flags of their nodes.
use mathlib.Core.Option.{some-injective}
use mathlib.Core.Path.{subst}
use concurrency_cpp.Base.{
  ℕ, ◌^◌, ◌≤◌, ◌<◌, ◌≡◌, refl, sym, ◌∙◌, ap, Bool, true, false, Option, none, some, List, ◌∷◌, ◌++◌,
  arith, length,
}
use concurrency_cpp.Base.Chain.{first, last}
use concurrency_cpp.Semaphore.Word.{rank}
use concurrency_cpp.Semaphore.WaitQueue
use concurrency_cpp.Semaphore.WaitQueue.{WaitQueue, is_empty}
use concurrency_cpp.Semaphore.WaitQueue.Contents.{linked_node, occurs, Represents}
use concurrency_cpp.Semaphore.WaitQueue.Remove.{remove_lem}
use concurrency_cpp.Semaphore.WaitQueue.Refinement.{occurs-split}
use concurrency_cpp.Semaphore.Queued.{
  QueuedSemaphore, Pc, outside, waiting, terminated, after_wait, wake_up, expire, acquire,
  try_acquire_for, Move, call_acquire, call_try_acquire, call_try_acquire_for, notified, timed_out,
}
use concurrency_cpp.Semaphore.Queued.Outcome.{
  HeadOnly, stays, leaves, Ends, node_at, notified_head, try_acquire-Ends, try_acquire0-Ends,
  after_wait-Ends,
}

-- What a queued thread finds on its node.
module _ (s : QueuedSemaphore) (request : ℕ) (word : s.permits < 2 ^ 32)
    (positive : 2 ^ 31 ≤ rank s.permits) (small : request < 2 ^ 31) (xs cs : List (ℕ × Bool))
    (few : length xs < 2 ^ 63) (r : Represents s.queue xs cs) (head_only : HeadOnly xs) (p : ℕ)
    (queued : 0 < occurs p xs) where
  -- The flag of the node decides; a notified node is the head.
  data Found : Type 0 where
    found_asleep :
        (pre post : List (ℕ × Bool))
        → xs ≡ pre ++ ((p, false) ∷ post)
        → (next prev : Option ℕ) → s.queue.cells p ≡ some (linked_node false prev next)
        → Found
    found_notified :
        (ys : List (ℕ × Bool))
        → xs ≡ (p, true) ∷ ys
        → (next prev : Option ℕ) → s.queue.cells p ≡ some (linked_node true prev next)
        → Found

  find : Found
  find =
      let (pre, w, post, e) = occurs-split p xs queued in
      let at = node_at s.queue p w pre post cs (subst (λ xs. Represents s.queue xs cs) e r) in
      elim w
          as (λ w.
            xs ≡ pre ++ ((p, w) ∷ post)
            → s.queue.cells p ≡ some (linked_node w (last none pre) (first post none))
            → Found) [
              | false ↦ λ e at. found_asleep pre post e (first post none) (last none pre) at
              | true ↦ λ e at.
                  let front = notified_head pre p post (subst HeadOnly e head_only) in
                  found_notified post (e ∙ ap (λ pre. pre ++ ((p, true) ∷ post)) front)
                    (first post none) (last none pre) at
            ]
        e at

  notified-Ends :
      (timed : Bool) (ys : List (ℕ × Bool))
      → xs ≡ (p, true) ∷ ys
      → Ends s xs request (waiting timed request p) (after_wait timed request s)
  notified-Ends timed ys e =
      subst (λ xs. Ends s xs request (waiting timed request p) (after_wait timed request s)) (sym e)
        (after_wait-Ends s request word positive small p ys cs (ground (arith, few, ap length e))
          (subst (λ xs. Represents s.queue xs cs) e r) timed)

  wake_up-Ends :
      (timed : Bool) → Ends s xs request (waiting timed request p) (wake_up timed request p s)
  unfolding wake_up
  wake_up-Ends timed = elim find [
    | found_asleep pre post e next prev at ↦
        ((s, waiting timed request p), xs, rw at refl, stays timed p)
    | found_notified ys e next prev at ↦
        let (result, zs, e', o) = notified-Ends timed ys e in (result, zs, rw at e', o)
  ]

  expire-Ends : Ends s xs request (waiting true request p) (expire request p s)
  unfolding expire
  expire-Ends = elim find [
    | found_asleep pre post e next prev at ↦
        let (q, e', r') =
          remove_lem s.queue p false pre post cs (subst (λ xs. Represents s.queue xs cs) e r) in
        (_, pre ++ post, rw (at, e') refl, leaves p pre post q ((p, false) ∷ cs) e r')
    | found_notified ys e next prev at ↦
        let (result, zs, e', o) = notified-Ends true ys e in (result, zs, rw at e', o)
  ]

  -- A notified node is the first one.
  pub notified-first :
      {n : WaitQueue.WaitNode}
      → s.queue.cells p ≡ some n
      → n.wakeable ≡ true
      → (ys : List (ℕ × Bool)) × (xs ≡ (p, true) ∷ ys)
  notified-first {n} at_p flag = elim find [
    | found_asleep pre post e next prev at ↦ absurd (
        ground (
          arith,
          flag,
          ap (λ n. n.wakeable) (some-injective n (linked_node false prev next) (sym at_p ∙ at)),
        ))
    | found_notified ys e next prev at ↦ (ys, e)
  ]

-- Where a thread waits, its node is queued.
abbrev pub Placed : Pc → List (ℕ × Bool) → Type 0
Placed (outside b) xs = Unit
Placed (waiting timed request p) xs = 0 < occurs p xs
Placed terminated xs = Unit

-- Every move comes to an outcome.
pub Move-Ends :
    (s : QueuedSemaphore) (request : ℕ) (p : Pc) (xs cs : List (ℕ × Bool))
    {result : Option (QueuedSemaphore × Pc)}
    → s.permits < 2 ^ 32
    → 2 ^ 31 ≤ rank s.permits
    → request < 2 ^ 31
    → length xs < 2 ^ 63
    → Represents s.queue xs cs
    → HeadOnly xs
    → Placed p xs
    → Move s request p result
    → Ends s xs request p result
unfolding acquire try_acquire_for
Move-Ends s request p xs cs word positive small few r h placed (call_acquire b) =
    try_acquire0-Ends s request word positive small xs cs few r b false
Move-Ends s request p xs cs word positive small few r h placed (call_try_acquire b) =
    try_acquire-Ends s request word positive small b xs
Move-Ends s request p xs cs word positive small few r h placed (call_try_acquire_for b) =
    try_acquire0-Ends s request word positive small xs cs few r b true
Move-Ends s request p xs cs word positive small few r h placed (notified timed node) =
    wake_up-Ends s request word positive small xs cs few r h node placed timed
Move-Ends s request p xs cs word positive small few r h placed (timed_out node) =
    expire-Ends s request word positive small xs cs few r h node placed
