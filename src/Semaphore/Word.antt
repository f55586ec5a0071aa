-- ===== src/Semaphore/Word.antt =====
-- `int` and `unsigned int` of concurrency/semaphore.h: words of 32 bits, an `int` in two's complement.
use concurrency_cpp.Base.{ℕ, ◌+◌, ◌-◌, ◌%◌, ◌^◌, ◌≤◌, ◌<◌, ◌≡◌, ◌↔◌, Bool, true, leb, arith}

-- A number that grows with the `int` that a word stands for: 2 ^ 31 for the word 0.
unfoldable pub rank : ℕ → ℕ
rank v = (v + 2 ^ 31) % 2 ^ 32

-- `permits += request`, and `permits -= request`, of an `atomic_int`.
unfoldable pub add_permits : ℕ → ℕ → ℕ
add_permits permits request = (permits + request) % 2 ^ 32

unfoldable pub sub_permits : ℕ → ℕ → ℕ
sub_permits permits request = (permits + 2 ^ 32 - request) % 2 ^ 32

-- `permits >= n` for an `int` n.
unfoldable pub int_geq : ℕ → ℕ → Bool
unfolding rank
int_geq permits n = leb (rank n) (rank permits)

-- `permits >= request` for an `unsigned int` request, to which the `int` is converted.
unfoldable pub unsigned_geq : ℕ → ℕ → Bool
unsigned_geq permits request = leb request permits

pub int_geq_iff : (permits n : ℕ) → (int_geq permits n ≡ true) ↔ (rank n ≤ rank permits)
unfolding int_geq
int_geq_iff permits n = ground arith

-- Words that no `int` overflow is near.
module _ (permits request : ℕ) (word : permits < 2 ^ 32) (small : request < 2 ^ 31) where
  pub rank-add_permits :
      rank permits + request < 2 ^ 32
      → (rank (add_permits permits request) ≡ rank permits + request)
        × (add_permits permits request < 2 ^ 32)
  unfolding rank add_permits
  rank-add_permits fits = (omega (arith, fits, word, small), omega arith)

  pub rank-sub_permits :
      request ≤ rank permits
      → (rank (sub_permits permits request) + request ≡ rank permits)
        × (sub_permits permits request < 2 ^ 32)
  unfolding rank sub_permits
  rank-sub_permits fits = (omega (arith, fits, word, small), omega arith)

  pub rank-request : rank request ≡ request + 2 ^ 31
  unfolding rank
  rank-request = omega (arith, small)

  -- Where the `int` is not negative, the two comparisons agree.
  pub unsigned_geq-int_geq :
      2 ^ 31 ≤ rank permits → unsigned_geq permits request ≡ int_geq permits request
  unfolding unsigned_geq int_geq rank
  unsigned_geq-int_geq pos = ground (arith, word, small, pos)

-- What a request does to permits that meet it.
module _ (permits request : ℕ) (word : permits < 2 ^ 32) (small : request < 2 ^ 31)
    (enough : int_geq permits request ≡ true) where
  pub taken_off :
      (rank (sub_permits permits request) + request ≡ rank permits)
      × (sub_permits permits request < 2 ^ 32)
      × (2 ^ 31 ≤ rank (sub_permits permits request))
  taken_off =
      let fits = (int_geq_iff permits request).0 enough in
      let at_request = rank-request permits request word small in
      let (less, word') =
        rank-sub_permits permits request word small (omega (arith, fits, at_request)) in
      (less, word', omega (arith, less, fits, at_request))
