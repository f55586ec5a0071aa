-- ===== src/Latch/Counter.antt =====
-- The counter of a `Latch`: `std::ptrdiff_t` in two's complement.
use concurrency_cpp.Base.{
  ℕ, ◌+◌, ◌^◌, ◌≤◌, ◌<◌, ◌≡◌, ◌⊎◌, inl, inr, ◌↔◌, Bool, true, false, ◌&&◌, refl, ◌≢◌, sym, ◌∙◌,
  arith, Bool-cases,
}
use concurrency_cpp.Latch.{locking, after_count, bias, signed_leb, signed_ltb, is_ready, count_down}

-- The counter, for calls that subtract what is not negative and do not wrap it.
pub count_down_lem :
    (v n : ℕ) (then_wait : Bool)
    → v < 2 ^ 64
    → n < 2 ^ 63
    → n ≤ bias v
    → (bias (count_down n then_wait v).0 + n ≡ bias v) × ((count_down n then_wait v).0 < 2 ^ 64)
unfolding count_down bias
count_down_lem v n then_wait word small fits = (omega (arith, word, small, fits), omega arith)

pub is_ready_iff : (v : ℕ) → (is_ready v ≡ true) ↔ (bias v ≤ 2 ^ 63)
unfolding is_ready signed_leb bias
is_ready_iff v = ground arith

-- A count that opens the latch will notify.
count_down-locking :
    (v n : ℕ) (then_wait : Bool)
    → v < 2 ^ 64
    → n < 2 ^ 63
    → is_ready v ≡ false
    → bias v ≤ n + 2 ^ 63
    → (count_down n then_wait v).1 ≡ locking then_wait
unfolding count_down is_ready signed_leb signed_ltb bias
count_down-locking v n then_wait word small shut over = ground arith

count_down-cases :
    (v n : ℕ) (then_wait : Bool)
    → ((count_down n then_wait v).1 ≡ locking then_wait)
      ⊎ ((count_down n then_wait v).1 ≡ after_count then_wait)
unfolding count_down
count_down-cases v n then_wait = elim (Bool-cases (signed_ltb 0 v && signed_leb v n)) [
  | inl last ↦ inl (rw last refl)
  | inr other ↦ inr (rw other refl)
]

locking-ne : (b : Bool) → locking b ≢ after_count b
locking-ne true = λ q. cc
locking-ne false = λ q. cc

pub opening_notifies :
    (v n : ℕ) (then_wait : Bool)
    → v < 2 ^ 64
    → n < 2 ^ 63
    → n ≤ bias v
    → ((count_down n then_wait v).1 ≡ locking then_wait)
      ⊎ (((count_down n then_wait v).1 ≡ after_count then_wait)
          × (is_ready (count_down n then_wait v).0 ≡ true → is_ready v ≡ true))
opening_notifies v n then_wait word small fits = elim (Bool-cases (is_ready v)) [
  | inl open_now ↦ elim (count_down-cases v n then_wait) [
    | inl q ↦ inl q
    | inr q ↦ inr (q, λ h. open_now)
  ]
  | inr shut ↦ elim (count_down-cases v n then_wait) [
    | inl q ↦ inl q
    | inr q ↦ inr (q, λ h. absurd (locking-ne then_wait (sym (locks h shut) ∙ q)))
  ]
]
  where
    locks :
        is_ready (count_down n then_wait v).0 ≡ true
        → is_ready v ≡ false
        → (count_down n then_wait v).1 ≡ locking then_wait
    locks h shut = count_down-locking v n then_wait word small shut (
        omega (
          arith,
          (is_ready_iff (count_down n then_wait v).0).0 h,
          (count_down_lem v n then_wait word small fits).0,
        ))
