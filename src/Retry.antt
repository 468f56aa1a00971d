-- ===== src/Retry.antt =====
-- pkg/bullmq/retry.go, over float64 operations that are a parameter.
pub mod Bounds
use bullmq_go.Prelude.{if◌then◌else◌}
use bullmq_go.Prelude.Int.{ℤ, pos, ◌-ℤ◌, ltb_ℤ}

-- float64: its arithmetic, the three constants of the function, and the two conversions.
pub record Float64 : Type 1 where
  pub F : Type 0
  pub of_int : ℤ → F
  pub mul : F → F → F
  pub add : F → F → F
  pub pow : F → F → F
  pub two : F
  pub four_tenths : F
  pub eight_tenths : F
  -- time.Duration(x), an int64
  pub to_int : F → ℤ

-- `random` is what rand.Float64() returns.
unfoldable pub calculate_backoff : (fl : Float64) → ℤ → ℤ → ℤ → fl.F → ℤ
calculate_backoff fl attempts_made initial_delay max_delay random =
    if ltb_ℤ attempts_made (pos 1)
    then initial_delay
    else let exponent = attempts_made -ℤ pos 1 in
      let base_delay = fl.mul (fl.of_int initial_delay) (fl.pow fl.two (fl.of_int exponent)) in
      let jitter = fl.add fl.eight_tenths (fl.mul fl.four_tenths random) in
      let delay = fl.to_int (fl.mul base_delay jitter) in
      if ltb_ℤ max_delay delay then max_delay else delay
