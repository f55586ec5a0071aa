-- ===== src/Semaphore/WaitQueue/Ends.antt =====
-- What `remove` makes of `head` and `tail` of a wait queue.
use mathlib.Core.List.{append-nil}
use concurrency_cpp.Base.{
  ℕ, ◌≡◌, ◌≢◌, refl, sym, ◌∙◌, ap, Bool, true, false, Option, none, some, List, [], ◌∷◌, ◌++◌,
  arith, ◌&&◌, if◌then◌else◌, ==-refl, ==_false,
}
use concurrency_cpp.Base.Chain.{first, last, last-append, last-some}
use concurrency_cpp.Semaphore.WaitQueue.{
  WaitNode, WaitQueue, points_at, unlink_only, unlink_head, unlink_tail, unlink_ends,
}
use concurrency_cpp.Semaphore.WaitQueue.Contents.{linked_node, occurs, occurs-last, occurs-append}

last-ne :
    (p k : ℕ) (v : Bool) (xs : List (ℕ × Bool))
    → occurs p ((k, v) ∷ xs) ≡ 0
    → last (some k) xs ≢ some p
last-ne p k v xs off e = omega (arith, off, occurs-last p k v xs e)

points_at-yes : (o : Option ℕ) (p : ℕ) → o ≡ some p → points_at o p ≡ true
points_at-yes o p e = ap (λ o. points_at o p) e ∙ ==-refl p

points_at-no : (o : Option ℕ) (p t : ℕ) → o ≡ some t → t ≢ p → points_at o p ≡ false
points_at-no o p t e ne = ap (λ o. points_at o p) e ∙ ==_false t p ne

module _ (p : ℕ) (n : WaitNode) where
  unlink_head_lem :
      (q : WaitQueue) (b : Bool)
      → points_at q.head p ≡ b
      → unlink_head p n q ≡ record q { head = if b then n.next else q.head }
  unfolding unlink_head
  unlink_head_lem q true h = ap (λ b. if b then record q { head = n.next } else q) h
  unlink_head_lem q false h = ap (λ b. if b then record q { head = n.next } else q) h

  unlink_tail_lem :
      (q : WaitQueue) (b : Bool)
      → points_at q.tail p ≡ b
      → unlink_tail p n q ≡ record q { tail = if b then n.prev else q.tail }
  unfolding unlink_tail
  unlink_tail_lem q true h = ap (λ b. if b then record q { tail = n.prev } else q) h
  unlink_tail_lem q false h = ap (λ b. if b then record q { tail = n.prev } else q) h

  -- The outcomes of the tests decide what becomes of the ends.
  ends-first :
      (q : WaitQueue) (b b' : Bool)
      → points_at q.head p ≡ b
      → points_at q.tail p ≡ b'
      → b && b' ≡ false
      → unlink_ends p n q
        ≡ record q { head = if b then n.next else q.head; tail = if b' then n.prev else q.tail }
  unfolding unlink_ends unlink_only
  ends-first q b b' h t one_end =
      let both : points_at q.head p && points_at q.tail p ≡ false = rw (h, t) one_end in
      ap
        (λ b.
          unlink_tail p n
            (unlink_head p n (if b then record q { head = none; tail = none } else q)))
        both
      ∙ ap (unlink_tail p n) (unlink_head_lem q b h)
      ∙ unlink_tail_lem (record q { head = if b then n.next else q.head }) b' t

  ends-both :
      (q : WaitQueue)
      → q.head ≡ some p
      → q.tail ≡ some p
      → unlink_ends p n q ≡ record q { head = none; tail = none }
  unfolding unlink_ends unlink_only unlink_head unlink_tail
  ends-both q h t =
      let both : points_at q.head p && points_at q.tail p ≡ true =
        rw (points_at-yes q.head p h, points_at-yes q.tail p t) refl in
      ap
        (λ b.
          unlink_tail p n
            (unlink_head p n (if b then record q { head = none; tail = none } else q)))
        both

pub unlink_ends_lem :
    (q : WaitQueue) (p : ℕ) (w : Bool) (pre post : List (ℕ × Bool))
    → occurs p (pre ++ post) ≡ 0
    → q.head ≡ first (pre ++ ((p, w) ∷ post)) none
    → q.tail ≡ last none (pre ++ ((p, w) ∷ post))
    → unlink_ends p (linked_node w (last none pre) (first post none)) q
      ≡ record q { head = first (pre ++ post) none; tail = last none (pre ++ post) }
unfolding unlink_ends
unlink_ends_lem q p w [] [] off head tail = ends-both p (linked_node w none none) q head tail
unlink_ends_lem q p w [] ((b, v) ∷ post) off head tail =
    let (t, e) = last-some b post in
    let no = points_at-no q.tail p t (tail ∙ e) (λ h. last-ne p b v post off (e ∙ ap some h)) in
    ends-first p (linked_node w none (some b)) q true false (points_at-yes q.head p head) no refl
    ∙ ap (λ t. record q { head = some b; tail = t }) tail
unlink_ends_lem q p w ((a, v) ∷ pre) [] off head tail =
    let no = points_at-no q.head p a head (λ h. ground (arith, off, h)) in
    let yes = points_at-yes q.tail p (tail ∙ last-append (some a) pre ((p, w) ∷ [])) in
    ends-first p (linked_node w (last (some a) pre) none) q false true no yes refl
    ∙ ap (λ h. record q { head = h; tail = last (some a) pre }) head
    ∙ ap (λ xs. record q { head = some a; tail = last (some a) xs }) (sym (append-nil pre))
unlink_ends_lem q p w ((a, v) ∷ pre) ((b, u) ∷ post) off head tail =
    let (t, e) = last-some b post in
    let no = points_at-no q.head p a head (λ h. ground (arith, off, h)) in
    let off_post : occurs p ((b, u) ∷ post) ≡ 0 =
      omega (arith, off, occurs-append p ((a, v) ∷ pre) ((b, u) ∷ post)) in
    let same : q.tail ≡ last (some b) post =
      tail ∙ last-append (some a) pre ((p, w) ∷ (b, u) ∷ post) in
    let no' =
      points_at-no q.tail p t (same ∙ e) (λ h. last-ne p b u post off_post (e ∙ ap some h)) in
    ends-first p (linked_node w (last (some a) pre) (some b)) q false false no no' refl
    ∙ ap (λ h. record q { head = h }) head
    ∙ ap (λ t. record q { head = some a; tail = t })
        (same ∙ sym (last-append (some a) pre ((b, u) ∷ post)))
