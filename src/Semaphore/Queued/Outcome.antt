-- ===== src/Semaphore/Queued/Outcome.antt =====
-- What each hold of `main_lock` of a queued semaphore does to the nodes of its queue.
use concurrency_cpp.Base.{
  ℕ, ◌^◌, ◌≤◌, ◌<◌, ◌≡◌, refl, sym, ◌∙◌, inl, inr, Bool, true, false, ◌&&◌, Option, none, some,
  List, [], ◌∷◌, ◌++◌, arith, if◌then◌else◌, length, Bool-cases,
}
use concurrency_cpp.Base.Partial.{◌>>=◌, bind_some}
use concurrency_cpp.Base.Chain.{first, last, Chain-append}
use concurrency_cpp.Semaphore.Word.{
  rank, sub_permits, int_geq, unsigned_geq, int_geq_iff, rank-sub_permits, rank-request,
  unsigned_geq-int_geq,
}
use concurrency_cpp.Semaphore.WaitQueue
use concurrency_cpp.Semaphore.WaitQueue.{WaitQueue, is_empty}
use concurrency_cpp.Semaphore.WaitQueue.Contents.{linked_node, Represents}
use concurrency_cpp.Semaphore.WaitQueue.Enqueue.{enqueue_lem}
use concurrency_cpp.Semaphore.WaitQueue.Refinement.{dequeue_lem, wake_head_lem, wake_head-empty}
use concurrency_cpp.Semaphore.Queued.{
  QueuedSemaphore, Pc, outside, waiting, request_record_insert, request_record_remove,
  request_record_min, wait_again, try_acquire0, wake_if_met, finish, after_wait, try_acquire,
}

-- No node was notified, and none but the head.
abbrev pub Asleep : List (ℕ × Bool) → Type 0
Asleep [] = Unit
Asleep ((p, w) ∷ xs) = (w ≡ false) × Asleep xs

abbrev pub HeadOnly : List (ℕ × Bool) → Type 0
HeadOnly [] = Unit
HeadOnly (x ∷ xs) = Asleep xs

abbrev pub wake_first : List (ℕ × Bool) → List (ℕ × Bool)
wake_first [] = []
wake_first ((p, w) ∷ xs) = (p, true) ∷ xs

abbrev pub woken_if : Bool → List (ℕ × Bool) → List (ℕ × Bool)
woken_if b xs = if b then wake_first xs else xs

-- The outcomes for a thread and its request, where the queue held `xs`: the semaphore, where the
-- thread stands, and what the queue holds.
pub data Outcome (s : QueuedSemaphore) (xs : List (ℕ × Bool)) (request : ℕ)
    : Pc → QueuedSemaphore × Pc → List (ℕ × Bool) → Type 0 where
  takes :
      (b : Bool)
      → int_geq s.permits request ≡ true
      → Outcome s xs request
          (outside b)
          (record s { permits = sub_permits s.permits request }, outside true)
          xs
  refuses : (b : Bool) → Outcome s xs request (outside b) (s, outside false) xs
  joins :
      (b timed : Bool) (c : ℕ) (q : WaitQueue) (cs : List (ℕ × Bool))
      → Represents q (xs ++ ((c, false) ∷ [])) cs
      → Outcome s xs request
          (outside b)
          (
            record s { queue = q; request_record = request_record_insert request s.request_record },
            waiting timed request c,
          )
          (xs ++ ((c, false) ∷ []))
  stays :
      (timed : Bool) (p : ℕ)
      → Outcome s xs request (waiting timed request p) (s, waiting timed request p) xs
  rejoins :
      (timed : Bool) (p c : ℕ) (ys : List (ℕ × Bool)) (q : WaitQueue) (cs : List (ℕ × Bool))
      → xs ≡ (p, true) ∷ ys
      → int_geq s.permits request ≡ false
      → Represents q (ys ++ ((c, false) ∷ [])) cs
      → Outcome s xs request
          (waiting timed request p)
          (record s { queue = q }, waiting timed request c)
          (ys ++ ((c, false) ∷ []))
  finishes :
      (timed b : Bool) (p : ℕ) (ys : List (ℕ × Bool)) (q : WaitQueue) (cs : List (ℕ × Bool))
      → xs ≡ (p, true) ∷ ys
      → int_geq s.permits request ≡ true
      → b
        ≡ int_geq
            (sub_permits s.permits request)
            (request_record_min (request_record_remove request s.request_record))
      → Represents q (woken_if b ys) cs
      → Outcome s xs request
          (waiting timed request p)
          (
            record {
              permits = sub_permits s.permits request;
              queue = q;
              request_record = request_record_remove request s.request_record;
            },
            outside true,
          )
          (woken_if b ys)
  leaves :
      (p : ℕ) (pre post : List (ℕ × Bool)) (q : WaitQueue) (cs : List (ℕ × Bool))
      → xs ≡ pre ++ ((p, false) ∷ post)
      → Represents q (pre ++ post) cs
      → Outcome s xs request
          (waiting true request p)
          (record s { queue = q }, outside false)
          (pre ++ post)

-- A result and what it comes to.
abbrev pub Ends :
    QueuedSemaphore → List (ℕ × Bool) → ℕ → Pc → Option (QueuedSemaphore × Pc) → Type 0
Ends s xs request p result =
    (r : QueuedSemaphore × Pc) × (zs : List (ℕ × Bool)) × (result ≡ some r)
    × Outcome s xs request p r zs

-- `wake_if_met` wakes the head or does nothing.
pub wake_if_met_lem :
    (s : QueuedSemaphore) (xs cs : List (ℕ × Bool))
    → Represents s.queue xs cs
    → (q : WaitQueue) × (wake_if_met s ≡ some (record s { queue = q }))
      × Represents q (woken_if (int_geq s.permits (request_record_min s.request_record)) xs) cs
unfolding wake_if_met
wake_if_met_lem s xs cs r = met (int_geq s.permits (request_record_min s.request_record)) xs r
  where
    met :
        (b : Bool) (xs : List (ℕ × Bool))
        → Represents s.queue xs cs
        → (q : WaitQueue) × ((if b
              then (WaitQueue.wake_head s.queue >>= (λ q. some (record s { queue = q })))
              else some s)
            ≡ some (record s { queue = q }))
          × Represents q (woken_if b xs) cs
    met false xs r = (s.queue, refl, r)
    met true [] r =
        (s.queue, bind_some (λ q. some (record s { queue = q })) (wake_head-empty s.queue cs r), r)
    met true ((p, w) ∷ xs) r =
        let (q, e, r') = wake_head_lem s.queue p w xs cs r in
        (q, bind_some (λ q. some (record s { queue = q })) e, r')

-- What is read of a queued node.
pub node_at :
    (q : WaitQueue) (p : ℕ) (w : Bool) (pre post cs : List (ℕ × Bool))
    → Represents q (pre ++ ((p, w) ∷ post)) cs
    → q.cells p ≡ some (linked_node w (last none pre) (first post none))
node_at q p w pre post cs r =
    (Chain-append linked_node q.cells none pre ((p, w) ∷ post) none r.chain).1.0

-- A notified node is the head.
pub notified_head :
    (pre : List (ℕ × Bool)) (p : ℕ) (post : List (ℕ × Bool))
    → HeadOnly (pre ++ ((p, true) ∷ post))
    → pre ≡ []
notified_head [] p post h = refl
notified_head (x ∷ pre) p post h = absurd (all_asleep pre h)
  where
    all_asleep : (pre : List (ℕ × Bool)) → ¬ Asleep (pre ++ ((p, true) ∷ post))
    all_asleep [] h = ground arith
    all_asleep ((k, w) ∷ pre) h = all_asleep pre h.1

and_left : (a b : Bool) → a && b ≡ true → a ≡ true
and_left a b h = ground arith

-- A semaphore whose permits are not negative, and a request of an `int`.
module _ (s : QueuedSemaphore) (request : ℕ) (word : s.permits < 2 ^ 32)
    (positive : 2 ^ 31 ≤ rank s.permits) (small : request < 2 ^ 31) where
  -- What is left of enough permits is not negative.
  pub left_over :
      int_geq s.permits request ≡ true → int_geq (sub_permits s.permits request) 0 ≡ true
  left_over enough =
      let fits = (int_geq_iff s.permits request).0 enough in
      let at = rank-request s.permits request word small in
      let (less, word') = rank-sub_permits s.permits request word small (omega (arith, fits, at)) in
      (int_geq_iff (sub_permits s.permits request) 0).1
        (omega (arith, less, fits, at, rank-request s.permits 0 word (omega arith)))

  pub try_acquire-Ends :
      (b : Bool) (xs : List (ℕ × Bool))
      → Ends s xs request (outside b) (some (try_acquire request s))
  unfolding try_acquire
  try_acquire-Ends b xs = elim (Bool-cases (unsigned_geq s.permits request)) [
    | inl enough ↦
        let enough' = sym (unsigned_geq-int_geq s.permits request word small positive) ∙ enough in
        (_, xs, rw enough refl, takes b enough')
    | inr few ↦ (_, xs, rw few refl, refuses b)
  ]

  module _ (xs cs : List (ℕ × Bool)) (few : length xs < 2 ^ 63) (r : Represents s.queue xs cs) where
    pub try_acquire0-Ends :
        (b timed : Bool) → Ends s xs request (outside b) (try_acquire0 timed request s)
    unfolding try_acquire0 wait_again
    try_acquire0-Ends b timed = elim (Bool-cases (int_geq s.permits request && is_empty s.queue)) [
      | inl free ↦ (_, xs, rw free refl, takes b (and_left _ _ free))
      | inr busy ↦
          let (c, q, cs', e, r') = enqueue_lem s.queue xs cs few r in
          (_, xs ++ ((c, false) ∷ []), rw (busy, e) refl, joins b timed c q cs' r')
    ]

  module _ (p : ℕ) (ys cs : List (ℕ × Bool)) (few : length ys < 2 ^ 63)
      (r : Represents s.queue ((p, true) ∷ ys) cs) where
    pub after_wait-Ends :
        (timed : Bool)
        → Ends s ((p, true) ∷ ys) request (waiting timed request p) (after_wait timed request s)
    unfolding after_wait finish wait_again
    after_wait-Ends timed =
        let (q, e, r') = dequeue_lem s.queue p true ys cs r in
        elim (Bool-cases (int_geq s.permits request)) [
          | inl enough ↦
              let s1 : QueuedSemaphore = record {
                permits = sub_permits s.permits request;
                queue = q;
                request_record = request_record_remove request s.request_record;
              } in
              let (q', e', r'') = wake_if_met_lem s1 ys ((p, true) ∷ cs) r' in
              (
                _,
                _,
                rw (e, enough, e', left_over enough) refl,
                finishes timed (int_geq s1.permits (request_record_min s1.request_record)) p ys q'
                    ((p, true) ∷ cs) refl enough refl r'',
              )
          | inr less ↦
              let (c, q', cs', e', r'') = enqueue_lem q ys ((p, true) ∷ cs) few r' in
              (_, _, rw (e, less, e') refl, rejoins timed p c ys q' cs' refl less r'')
        ]
