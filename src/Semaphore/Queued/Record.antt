-- ===== src/Semaphore/Queued/Record.antt =====
-- `request_record` of a queued semaphore: how often it has each request, and its least one.
use concurrency_cpp.Base.{
  ℕ, suc, ◌+◌, ◌^◌, ◌≤◌, ◌<◌, ◌≡◌, refl, List, [], ◌∷◌, arith, if◌then◌else◌, ◌==◌,
}
use concurrency_cpp.Semaphore.Queued.{
  request_record_insert, request_record_remove, request_record_min, recorded,
}

-- The keys grow from `least` on, and no counter is 0.
abbrev pub Ordered : ℕ → List (ℕ × ℕ) → Type 0
Ordered least [] = Unit
Ordered least ((k, count) ∷ m) = (least ≤ k) × (0 < count) × Ordered (suc k) m

unfoldable pub times : ℕ → List (ℕ × ℕ) → ℕ
times r [] = 0
times r ((k, count) ∷ m) = (if k == r then count else 0) + times r m

Ordered-least : (a b : ℕ) (m : List (ℕ × ℕ)) → b ≤ a → Ordered a m → Ordered b m
Ordered-least a b [] le o = tt
Ordered-least a b ((k, count) ∷ m) le o = (omega (arith, le, o.0), o.1, o.2)

-- A key below the order is not in the record.
pub times-below : (r least : ℕ) (m : List (ℕ × ℕ)) → Ordered least m → r < least → times r m ≡ 0
unfolding times
times-below r least [] o lt = refl
times-below r least ((k, count) ∷ m) o lt =
    ground (arith, o.0, times-below r (suc k) m o.2 (omega (arith, o.0, lt)))

pub Ordered-insert :
    (n least : ℕ) (m : List (ℕ × ℕ))
    → least ≤ n
    → recorded m + 1 < 2 ^ 64
    → Ordered least m
    → Ordered least (request_record_insert n m)
unfolding request_record_insert recorded
Ordered-insert n least [] le small o = (le, omega arith, tt)
Ordered-insert n least ((k, count) ∷ m) le small o =
    ground (arith, o, small, Ordered-insert n (suc k) m)

-- `request_record_insert` adds one request and changes no other.
pub times-insert :
    (r n : ℕ) (m : List (ℕ × ℕ))
    → recorded m + 1 < 2 ^ 64
    → times r (request_record_insert n m) ≡ times r m + (if n == r then 1 else 0)
unfolding request_record_insert recorded times
times-insert r n [] small = omega arith
times-insert r n ((k, count) ∷ m) small = ground (arith, times-insert r n m (omega (arith, small)))

pub Ordered-remove :
    (n least : ℕ) (m : List (ℕ × ℕ)) → Ordered least m → Ordered least (request_record_remove n m)
unfolding request_record_remove
Ordered-remove n least [] o = tt
Ordered-remove n least ((k, count) ∷ m) o = ground (
  arith,
  o,
  Ordered-remove n (suc k) m o.2,
  Ordered-least (suc k) least m (omega (arith, o.0)) o.2,
)

-- `request_record_remove` of a request of the record takes it out once.
pub times-remove :
    (r n least : ℕ) (m : List (ℕ × ℕ))
    → Ordered least m
    → 0 < times n m
    → times r (request_record_remove n m) + (if n == r then 1 else 0) ≡ times r m
unfolding request_record_remove times
times-remove r n least [] o on = ground arith
times-remove r n least ((k, count) ∷ m) o on = ground (arith, o, on, times-remove r n (suc k) m o.2)

-- The first request is the least one.
pub request_record_min_lem :
    (r least : ℕ) (m : List (ℕ × ℕ)) → Ordered least m → 0 < times r m → request_record_min m ≤ r
unfolding request_record_min times
request_record_min_lem r least [] o on = ground arith
request_record_min_lem r least ((k, count) ∷ m) o on =
    ground (arith, o, on, times-below r (suc k) m o.2)
