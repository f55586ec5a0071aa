-- ===== src/SharedMutex/Spec.antt =====
-- What a shared mutex promises, as the numbers of its owners tell it.
use native.Mathlib.Decide.{ℕ_discrete}
use concurrency_cpp.Base.{ℕ, ◌+◌, ◌^◌, ◌≤◌, ◌<◌, ◌≡◌, ◌⊎◌, arith}

-- A step of the owners: `r` threads own the mutex in shared mode and `w` in exclusive mode, and
-- `r'` and `w'` afterwards; `barred` writers keep readers out.
pub data OwnerStep (barred r w r' w' : ℕ) : Type 0 where
  stutter : r' ≡ r → w' ≡ w → OwnerStep barred r w r' w'
  acquire : r ≡ 0 → w ≡ 0 → r' ≡ 0 → w' ≡ 1 → OwnerStep barred r w r' w'
  release : r ≡ 0 → w ≡ 1 → r' ≡ 0 → w' ≡ 0 → OwnerStep barred r w r' w'
  acquire_shared :
      barred ≡ 0 → w ≡ 0 → r + 1 < 2 ^ 31 → r' ≡ r + 1 → w' ≡ 0 → OwnerStep barred r w r' w'
  release_shared : w ≡ 0 → r' + 1 ≡ r → w' ≡ 0 → OwnerStep barred r w r' w'

-- One thread goes from a place that counts `rp` and `wp` as an owner to one that counts `rq` and `wq`.
pub record Turn (rp wp rq wq : ℕ) : Type 0 where
  pub before : rp + wp ≤ 1
  pub after : rq + wq ≤ 1
  pub no_upgrade : rp + wq ≤ 1
  pub no_downgrade : wp + rq ≤ 1

-- The mutex has one writer or readers.
pub record Exclusive (r w : ℕ) : Type 0 where
  pub one : w ≤ 1
  pub few : r < 2 ^ 31
  pub apart : (w ≡ 0) ⊎ (r ≡ 0)

pub turn-OwnerStep :
    (barred r w r' w' rp wp rq wq : ℕ)
    → Turn rp wp rq wq
    → Exclusive r w
    → Exclusive r' w'
    → (r' + rp ≡ r + rq) × (w' + wp ≡ w + wq)
    → (r < r' → barred ≡ 0)
    → OwnerStep barred r w r' w'
turn-OwnerStep barred r w r' w' rp wp rq wq t x x' (reads, writes) free = elim (ℕ_discrete r' r) [
  | yes same ↦ elim (ℕ_discrete w' w) [
    | yes same' ↦ stutter same same'
    | no ne ↦ elim (ℕ_discrete w 0) [
      | yes none ↦ acquire (ground (arith, x'.apart)) none (ground (arith, x'.apart)) (ground arith)
      | no one ↦
          release (ground (arith, x.apart)) (ground arith) (ground (arith, x.apart)) (ground arith)
    ]
  ]
  | no ne ↦ elim (ℕ_discrete rp 0) [
    | yes none ↦
        acquire_shared (free (ground arith)) (ground (arith, x'.apart)) (ground arith)
          (ground arith) (ground (arith, x'.apart))
    | no one ↦ release_shared (ground (arith, x.apart)) (ground arith) (ground (arith, x.apart))
  ]
]
