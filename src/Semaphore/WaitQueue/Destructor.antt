-- ===== src/Semaphore/WaitQueue/Destructor.antt =====
-- The destructor of a wait queue.
use mathlib.Core.Path.{subst}
use native.Mathlib.Decide.{ℕ_discrete}
use concurrency_cpp.Base.{
  ℕ, zero, suc, ◌+◌, ◌≤◌, ◌<◌, ◌≡◌, ◌≢◌, refl, ◌∙◌, ap, Bool, Option, none, some, List, [], ◌∷◌,
  arith, length,
}
use concurrency_cpp.Base.Partial.{◌>>=◌}
use concurrency_cpp.Base.Chain.{put, put-eq, put_ne, first, Chain}
use concurrency_cpp.Semaphore.WaitQueue.{WaitNode, WaitQueue, delete_from, destroy}
use concurrency_cpp.Semaphore.WaitQueue.Contents.{linked_node, Cached, one_refl, occurs}
use concurrency_cpp.Semaphore.WaitQueue.Refinement.{Reach, Reach-Represents}

-- A list of nodes that a loop of the destructor can follow.
abbrev Followed : (ℕ → Option WaitNode) → List (ℕ × Bool) → Type 0
Followed f [] = Unit
Followed f ((k, w) ∷ xs) =
    ((p : Option ℕ) × (f k ≡ some (linked_node w p (first xs none)))) × Followed f xs

Chain-Followed :
    (f : ℕ → Option WaitNode) (prev : Option ℕ) (xs : List (ℕ × Bool))
    → Chain linked_node f prev xs none
    → Followed f xs
Chain-Followed f prev [] c = tt
Chain-Followed f prev ((k, w) ∷ xs) c = ((prev, c.0), Chain-Followed f (some k) xs c.1)

Cached-Followed : (f : ℕ → Option WaitNode) (cs : List (ℕ × Bool)) → Cached f cs → Followed f cs
Cached-Followed f [] c = tt
Cached-Followed f ((k, w) ∷ cs) c = ((none, c.0), Cached-Followed f cs c.1)

Followed-put :
    (f : ℕ → Option WaitNode) (k : ℕ) (xs : List (ℕ × Bool))
    → occurs k xs ≡ 0
    → Followed f xs
    → Followed (put ℕ_discrete f k none) xs
Followed-put f k [] off l = tt
Followed-put f k ((j, w) ∷ xs) off l =
    let ne : k ≢ j = λ e. ground (arith, off, e) in
    ((l.0.0, put_ne ℕ_discrete f k none j ne ∙ l.0.1), Followed-put f k xs (omega (arith, off)) l.1)

-- A loop deletes the nodes of its list, once each, and no others; it leaves the nodes `ys` in place.
delete_from_lem :
    (q : WaitQueue) (xs ys : List (ℕ × Bool)) (fuel : ℕ)
    → length xs < fuel
    → ((j : ℕ) → occurs j xs + occurs j ys ≤ 1)
    → Followed q.cells xs
    → Followed q.cells ys
    → (f : ℕ → Option WaitNode) × (delete_from fuel (first xs none) q
        ≡ some (record q { cells = f }))
      × Followed f ys
      × ((j : ℕ) → (0 < occurs j xs → f j ≡ none) × (occurs j xs ≡ 0 → f j ≡ q.cells j))
unfolding delete_from
delete_from_lem q xs ys zero enough once l l' = ground arith
delete_from_lem q [] ys (suc fuel) enough once l l' =
    (q.cells, refl, l', λ j. (λ on. ground arith, λ off. refl))
delete_from_lem q ((k, w) ∷ xs) ys (suc fuel) enough once l l' =
    let off : occurs k xs ≡ 0 = omega (arith, once k, one_refl k) in
    let off' : occurs k ys ≡ 0 = omega (arith, once k, one_refl k) in
    let f = put ℕ_discrete q.cells k none in
    let (g, deleted, l'', gone) =
      delete_from_lem (record q { cells = f }) xs ys fuel (omega (arith, enough))
        (λ j. omega (arith, once j)) (Followed-put q.cells k xs off l.1)
        (Followed-put q.cells k ys off' l') in
    (
      g,
      rw l.0.1 deleted,
      l'',
      λ j. (
        λ on. elim (ℕ_discrete k j) [
          | yes e ↦ subst (λ j. g j ≡ none) e ((gone k).1 off ∙ put-eq ℕ_discrete q.cells k none)
          | no ne ↦ (gone j).0 (ground arith)
        ],
        λ none_of.
            (gone j).1 (omega (arith, none_of))
            ∙ put_ne ℕ_discrete q.cells k none j (λ e. ground (arith, none_of, e)),
      ),
    )

-- The destructor ends, and deletes every node that was ever allocated exactly once: it reads no
-- deleted node, and leaves none behind. `fuel` bounds the rounds of each loop.
pub destroy_lem :
    (q : WaitQueue) (xs : List (ℕ × Bool)) (fuel : ℕ)
    → Reach q xs
    → q.cur_queue_capacity < fuel
    → (q' : WaitQueue) × (destroy fuel q ≡ some q') × ((j : ℕ) → q'.cells j ≡ none)
unfolding destroy
destroy_lem q xs fuel reach enough =
    let (cs, r) = Reach-Represents q xs reach in
    let (f, deleted, followed, gone) =
      delete_from_lem q xs cs fuel (omega (arith, r.count, enough)) r.once
        (Chain-Followed q.cells none xs r.chain) (Cached-Followed q.cells cs r.cached) in
    let q1 = record q { cells = f } in
    let (g, deleted', _, gone') =
      delete_from_lem q1 cs [] fuel (omega (arith, r.count, enough)) (λ j. omega (arith, r.once j))
        followed tt in
    (
      record q { cells = g },
      ap (λ q'. q' >>= (λ q1. delete_from fuel q1.cache_head q1))
            (ap (λ h. delete_from fuel h q) r.head ∙ deleted)
          ∙ ap (λ h. delete_from fuel h q1) r.cache_head
          ∙ deleted',
      λ j. elim (ℕ_discrete (occurs j cs) 0) [
        | no on ↦ (gone' j).0 (omega (arith, on))
        | yes off ↦ (gone' j).1 off ∙ elim (ℕ_discrete (occurs j xs) 0) [
          | no on ↦ (gone j).0 (omega (arith, on))
          | yes off' ↦ (gone j).1 off' ∙ r.only j (omega (arith, off, off'))
        ]
      ],
    )
