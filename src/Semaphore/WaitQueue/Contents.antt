-- ===== src/Semaphore/WaitQueue/Contents.antt =====
-- What a wait queue holds: the queued nodes, each with its flag, from the head, and the cached ones.
use native.Mathlib.Decide.{ℕ_discrete}
use concurrency_cpp.Base.{
  ℕ, suc, ◌+◌, ◌≤◌, ◌<◌, ◌≡◌, ◌≢◌, refl, ap, Bool, Option, none, some, List, [], ◌∷◌, ◌++◌, arith,
  if◌then◌else◌, ◌==◌, length,
}
use concurrency_cpp.Base.Chain.{put, first, last, Fresh, Distinct, Chain}
use concurrency_cpp.Semaphore.WaitQueue.{WaitNode, WaitQueue}

abbrev pub linked_node : Bool → Option ℕ → Option ℕ → WaitNode
linked_node wakeable prev next = record { wakeable = wakeable; prev = prev; next = next }

-- The forward list of the cache: its nodes have no previous node.
abbrev pub Cached : (ℕ → Option WaitNode) → List (ℕ × Bool) → Type 0
Cached f [] = Unit
Cached f ((c, w) ∷ cs) = (f c ≡ some (linked_node w none (first cs none))) × Cached f cs

abbrev pub one : ℕ → ℕ → ℕ
one p j = if p == j then 1 else 0

abbrev pub occurs : ℕ → List (ℕ × Bool) → ℕ
occurs j [] = 0
occurs j ((k, w) ∷ xs) = one k j + occurs j xs

-- `xs` are the queued nodes and `cs` the cached ones: no node is both or twice, and there are no
-- other nodes.
pub record Holds (q : WaitQueue) (xs cs : List (ℕ × Bool)) : Type 0 where
  pub chain : Chain linked_node q.cells none xs none
  pub cached : Cached q.cells cs
  pub head : q.head ≡ first xs none
  pub tail : q.tail ≡ last none xs
  pub cache_head : q.cache_head ≡ first cs none
  pub once : (j : ℕ) → occurs j xs + occurs j cs ≤ 1
  pub below : (j : ℕ) → q.allocated ≤ j → occurs j xs + occurs j cs ≡ 0
  pub only : (j : ℕ) → occurs j xs + occurs j cs ≡ 0 → q.cells j ≡ none

-- The node of `p` is `n`, off both lists.
pub record Loose (q : WaitQueue) (p : ℕ) (n : WaitNode) (xs cs : List (ℕ × Bool)) : Type 0 where
  pub chain : Chain linked_node q.cells none xs none
  pub cached : Cached q.cells cs
  pub node : q.cells p ≡ some n
  pub head : q.head ≡ first xs none
  pub tail : q.tail ≡ last none xs
  pub cache_head : q.cache_head ≡ first cs none
  pub once : (j : ℕ) → occurs j xs + (one p j + occurs j cs) ≤ 1
  pub below : (j : ℕ) → q.allocated ≤ j → occurs j xs + (one p j + occurs j cs) ≡ 0
  pub only : (j : ℕ) → occurs j xs + (one p j + occurs j cs) ≡ 0 → q.cells j ≡ none

-- And they are as many as `cur_queue_capacity` says.
pub record Represents (q : WaitQueue) (xs cs : List (ℕ × Bool)) : Type 0 where
  pub holds : Holds q xs cs
  pub open holds use *
  pub count : length xs + length cs ≡ q.cur_queue_capacity
  pub some_node : 0 < q.cur_queue_capacity

pub occurs-append :
    (j : ℕ) (xs ys : List (ℕ × Bool)) → occurs j (xs ++ ys) ≡ occurs j xs + occurs j ys
occurs-append j [] ys = omega arith
occurs-append j ((k, w) ∷ xs) ys = omega (arith, occurs-append j xs ys)

pub occurs-middle :
    (j p : ℕ) (w : Bool) (pre post : List (ℕ × Bool))
    → occurs j (pre ++ ((p, w) ∷ post)) ≡ one p j + occurs j (pre ++ post)
occurs-middle j p w [] post = refl
occurs-middle j p w ((k, v) ∷ pre) post = omega (arith, occurs-middle j p w pre post)

pub length-middle :
    (p : ℕ × Bool) (pre post : List (ℕ × Bool))
    → length (pre ++ (p ∷ post)) ≡ suc (length (pre ++ post))
length-middle p [] post = refl
length-middle p (x ∷ pre) post = ap suc (length-middle p pre post)

pub occurs-Fresh : (j : ℕ) (xs : List (ℕ × Bool)) → occurs j xs ≡ 0 → Fresh j xs
occurs-Fresh j [] h = tt
occurs-Fresh j ((k, w) ∷ xs) h = (ground arith, occurs-Fresh j xs (omega (arith, h)))

pub occurs-Distinct : (xs : List (ℕ × Bool)) → ((j : ℕ) → occurs j xs ≤ 1) → Distinct xs
occurs-Distinct [] h = tt
occurs-Distinct ((k, w) ∷ xs) h =
    (occurs-Fresh k xs (ground (arith, h k)), occurs-Distinct xs (λ j. omega (arith, h j)))

pub Cached-put :
    (f : ℕ → Option WaitNode) (k : ℕ) (n : Option WaitNode) (cs : List (ℕ × Bool))
    → occurs k cs ≡ 0
    → Cached f cs
    → Cached (put ℕ_discrete f k n) cs
Cached-put f k n [] h c = tt
Cached-put f k n ((j, w) ∷ cs) h c = (ground arith, Cached-put f k n cs (omega (arith, h)) c.1)

module _ (a j x y : ℕ) where
  pub once-one : (a ≡ j → x + y ≡ 0) → x + y ≤ 1 → x + (one a j + y) ≤ 1
  once-one none_there h = ground arith

  pub one_below : a < j → x + y ≡ 0 → x + (one a j + y) ≡ 0
  one_below le h = ground arith

  pub ne_of_one : x + (one a j + y) ≡ 0 → a ≢ j
  ne_of_one h e = ground arith

  pub rest_of_one : x + (one a j + y) ≡ 0 → x + y ≡ 0
  rest_of_one h = omega (arith, h)

pub one_refl : (p : ℕ) → one p p ≡ 1
one_refl p = ground arith

module _ (p : ℕ) (xs cs : List (ℕ × Bool))
    (once : (j : ℕ) → occurs j xs + (one p j + occurs j cs) ≤ 1) where
  pub Distinct-rest : Distinct xs
  Distinct-rest = occurs-Distinct xs (λ j. omega (arith, once j))

  pub absent-rest : (occurs p xs ≡ 0) × (occurs p cs ≡ 0)
  absent-rest = (omega (arith, once p, one_refl p), omega (arith, once p, one_refl p))

-- The last node is on the list.
pub occurs-last :
    (p k : ℕ) (w : Bool) (xs : List (ℕ × Bool))
    → last (some k) xs ≡ some p
    → 0 < occurs p ((k, w) ∷ xs)
occurs-last p k w [] e = ground arith
occurs-last p k w ((j, v) ∷ xs) e = omega (arith, occurs-last p j v xs e)

pub ne_of_occurs : (j k : ℕ) (xs : List (ℕ × Bool)) → 0 < occurs j xs → occurs k xs ≡ 0 → j ≢ k
ne_of_occurs j k xs on off e = omega (arith, on, off, ap (λ j. occurs j xs) e)
