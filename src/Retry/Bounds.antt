-- ===== src/Retry/Bounds.antt =====
-- The cap of the backoff delay, and where it fails.
use bullmq_go.Prelude.{
  ℕ, zero, suc, ◌≤◌, ◌*◌, ◌/◌, Bool, true, ◌≡◌, ◌^◌, ◌-◌, ◌⊎◌, inl, inr, Bool-cases, arith,
}
use bullmq_go.Prelude.Int.{ℤ, pos, negsuc, ltb_ℤ, ◌-ℤ◌, ◌≤ℤ◌, ◌<ℤ◌}
use bullmq_go.Retry.{Float64, calculate_backoff}

-- The delay before the cap, in floating point.
abbrev pub uncapped : (fl : Float64) → ℤ → ℤ → fl.F → fl.F
uncapped fl attempts_made initial_delay random =
    fl.mul (fl.mul (fl.of_int initial_delay) (fl.pow fl.two (fl.of_int (attempts_made -ℤ pos 1))))
      (fl.add fl.eight_tenths (fl.mul fl.four_tenths random))

-- From the first attempt on, the delay never exceeds the maximum, and it is the converted product
-- unless that is above the maximum.
pub calculate_backoff-cap :
    (fl : Float64) (n initial max : ℤ) (random : fl.F)
    → pos 1 ≤ℤ n
    → let delay = calculate_backoff fl n initial max random in
      (delay ≤ℤ max)
      × ((delay ≡ fl.to_int (uncapped fl n initial random))
          ⊎ ((max <ℤ fl.to_int (uncapped fl n initial random)) × (delay ≡ max)))
unfolding calculate_backoff
calculate_backoff-cap fl n initial max random h =
    elim (Bool-cases (ltb_ℤ max (fl.to_int (uncapped fl n initial random)))) [
      | inl above ↦ (ground arith, inr (ground arith, ground arith))
      | inr within ↦ (ground arith, inl (ground arith))
    ]

attempt_before : (k : ℕ) → pos (suc k) -ℤ pos 1 ≡ pos k
unfolding ◌-ℤ◌
attempt_before k = ground arith

-- What IEEE 754 and the amd64 processor do, as far as it is needed here: `at_least` is the comparison
-- of a number, infinity included, with a natural number, and `in_unit` holds of what rand.Float64
-- returns, a number from 0 up to 1, without 1. A positive integer up to 2^53 and a power of two
-- are exact, and so is their product, unless it is infinity; a factor of 0.8 or more leaves more than a
-- half; and a conversion to int64 that does not fit gives the least int64.
pub record IsAmd64 (fl : Float64) : Type 0 where
  pub at_least : fl.F → ℕ → Bool
  pub in_unit : fl.F → Bool
  pub scaled :
      (i k : ℕ)
      → 1 ≤ i
      → i ≤ 2 ^ 53
      → at_least (fl.mul (fl.of_int (pos i)) (fl.pow fl.two (fl.of_int (pos k)))) (i * 2 ^ k) ≡ true
  pub jittered :
      (x random : fl.F) (m : ℕ)
      → in_unit random ≡ true
      → at_least x m ≡ true
      → at_least (fl.mul x (fl.add fl.eight_tenths (fl.mul fl.four_tenths random))) (m / 2) ≡ true
  pub converted :
      (x : fl.F) (m : ℕ) → 2 ^ 63 ≤ m → at_least x m ≡ true → fl.to_int x ≡ negsuc (2 ^ 63 - 1)

positive : (i k : ℕ) → 2 ^ 64 ≤ i * 2 ^ k → 1 ≤ i
positive zero k h = omega arith
positive (suc i) k h = omega arith

-- On amd64, for an initial delay of at most 2^53 nanoseconds and a maximum of 0 or more: where the
-- initial delay, doubled once for each attempt after the first, is 2^64 nanoseconds or more, the cap
-- does not take hold: whatever the jitter, the delay is the least int64.
pub calculate_backoff_overflow :
    (fl : Float64) (A : IsAmd64 fl) (initial k : ℕ) (max : ℤ) (random : fl.F)
    → initial ≤ 2 ^ 53
    → 2 ^ 64 ≤ initial * 2 ^ k
    → pos 0 ≤ℤ max
    → A.in_unit random ≡ true
    → calculate_backoff fl (pos (suc k)) (pos initial) max random ≡ negsuc (2 ^ 63 - 1)
unfolding calculate_backoff
calculate_backoff_overflow fl A initial k max random exact large m r =
    let enough : 2 ^ 63 ≤ initial * 2 ^ k / 2 = omega arith in
    let least = A.converted _ _ enough (
      A.jittered _ random (initial * 2 ^ k) r
        (A.scaled initial k (positive initial k large) exact)) in
    let attempt : pos (suc k) -ℤ pos 1 ≡ pos k = attempt_before k in
    let product : fl.to_int (uncapped fl (pos (suc k)) (pos initial) random) ≡ negsuc (2 ^ 63 - 1) =
      rw (uncapped, attempt) least in
    ground (arith, product)
