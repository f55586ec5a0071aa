-- ===== src/Semaphore/Queued/Notified.antt =====
-- A queued semaphore notifies no node but the head.
use concurrency_cpp.Base.{ℕ, ◌≡◌, refl, Bool, true, false, List, [], ◌∷◌, ◌++◌, length}
use concurrency_cpp.Semaphore.WaitQueue.Contents.{occurs}
use concurrency_cpp.Semaphore.Queued.Outcome.{Asleep, HeadOnly, woken_if}

pub Asleep-snoc : (c : ℕ) (xs : List (ℕ × Bool)) → Asleep xs → Asleep (xs ++ ((c, false) ∷ []))
Asleep-snoc c [] a = (refl, tt)
Asleep-snoc c (x ∷ xs) a = (a.0, Asleep-snoc c xs a.1)

pub HeadOnly-snoc :
    (c : ℕ) (xs : List (ℕ × Bool)) → HeadOnly xs → HeadOnly (xs ++ ((c, false) ∷ []))
HeadOnly-snoc c [] a = tt
HeadOnly-snoc c (x ∷ xs) a = Asleep-snoc c xs a

pub Asleep-HeadOnly : (xs : List (ℕ × Bool)) → Asleep xs → HeadOnly xs
Asleep-HeadOnly [] a = tt
Asleep-HeadOnly (x ∷ xs) a = a.1

Asleep-middle :
    (x : ℕ × Bool) (pre post : List (ℕ × Bool)) → Asleep (pre ++ (x ∷ post)) → Asleep (pre ++ post)
Asleep-middle x [] post a = a.1
Asleep-middle x (y ∷ pre) post a = (a.0, Asleep-middle x pre post a.1)

pub HeadOnly-middle :
    (x : ℕ × Bool) (pre post : List (ℕ × Bool))
    → HeadOnly (pre ++ (x ∷ post))
    → HeadOnly (pre ++ post)
HeadOnly-middle x [] post a = Asleep-HeadOnly post a
HeadOnly-middle x (y ∷ pre) post a = Asleep-middle x pre post a

pub HeadOnly-woken_if : (b : Bool) (xs : List (ℕ × Bool)) → HeadOnly xs → HeadOnly (woken_if b xs)
HeadOnly-woken_if false xs a = a
HeadOnly-woken_if true [] a = tt
HeadOnly-woken_if true (x ∷ xs) a = a

pub occurs-woken_if :
    (b : Bool) (xs : List (ℕ × Bool)) (j : ℕ) → occurs j (woken_if b xs) ≡ occurs j xs
occurs-woken_if false xs j = refl
occurs-woken_if true [] j = refl
occurs-woken_if true (x ∷ xs) j = refl

pub length-woken_if : (b : Bool) (xs : List (ℕ × Bool)) → length (woken_if b xs) ≡ length xs
length-woken_if false xs = refl
length-woken_if true [] = refl
length-woken_if true (x ∷ xs) = refl
