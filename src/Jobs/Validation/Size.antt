-- ===== src/Jobs/Validation/Size.antt =====
-- formatBytes and the options that pass validation.
use bullmq_go.Prelude.{
  ℕ, zero, suc, Bytes, codes, bytes_eq_iff, ◌+◌, ◌*◌, ◌/◌, ◌≤◌, ◌<◌, ◌≡◌, ◌≢◌, ◌↔◌, ◌⊎◌, inl, inr,
  refl, true, none, some, ap, leb, ◌^◌, [], ◌∷◌, Bool-cases, arith,
}
use native.Mathlib.Nat.{pow-suc}
use bullmq_go.Prelude.Int.{pos, ◌≤ℤ◌}
use bullmq_go.Errors.{is_empty}
use bullmq_go.Jobs.{BackoffConfig, JobOptions, Codec}
use bullmq_go.Jobs.Validation.{
  format_loop, unit_letter, format_bytes, validate_job_options, validate_backoff_config,
}

-- What the options must be to be accepted, field by field.
pub record IsAcceptable (o : JobOptions) : Type 0 where
  pub priority_bound : pos 0 ≤ℤ o.priority
  pub delay_bound : pos 0 ≤ℤ o.delay
  pub attempts_bound : pos 1 ≤ℤ o.attempts
  pub backoff_bound :
      (o.backoff.type ≡ codes "")
      ⊎ (((o.backoff.type ≡ codes "fixed") ⊎ (o.backoff.type ≡ codes "exponential"))
          × (pos 1 ≤ℤ o.backoff.delay))

empty_of_is_empty : (s : Bytes) → is_empty s ≡ true → s ≡ codes ""
unfolding is_empty
empty_of_is_empty [] h = refl
empty_of_is_empty (c ∷ s) h = cc

module _ (C : Codec) where
  backoff_of_none :
      (b : BackoffConfig)
      → validate_backoff_config C b ≡ none
      → ((b.type ≡ codes "fixed") ⊎ (b.type ≡ codes "exponential")) × (pos 1 ≤ℤ b.delay)
  unfolding validate_backoff_config
  backoff_of_none b h =
      ground (arith, bytes_eq_iff b.type (codes "fixed"), bytes_eq_iff b.type (codes "exponential"))

  none_of_backoff :
      (b : BackoffConfig)
      → (b.type ≡ codes "fixed") ⊎ (b.type ≡ codes "exponential")
      → pos 1 ≤ℤ b.delay
      → validate_backoff_config C b ≡ none
  unfolding validate_backoff_config
  none_of_backoff b t d =
      ground (arith, bytes_eq_iff b.type (codes "fixed"), bytes_eq_iff b.type (codes "exponential"))

  IsAcceptable-of_none : (o : JobOptions) → validate_job_options C o ≡ none → IsAcceptable o
  unfolding validate_job_options
  IsAcceptable-of_none o h = record {
    priority_bound = ground arith;
    delay_bound = ground arith;
    attempts_bound = ground arith;
    backoff_bound = elim (Bool-cases (is_empty o.backoff.type)) [
      | inl e ↦ inl (empty_of_is_empty o.backoff.type e)
      | inr e ↦ inr (backoff_of_none o.backoff (ground arith))
    ];
  }

  none_of_acceptable : (o : JobOptions) → IsAcceptable o → validate_job_options C o ≡ none
  unfolding validate_job_options is_empty
  none_of_acceptable o v = elim v.backoff_bound [
    | inl e ↦ ground (arith, ap is_empty e)
    | inr (t, d) ↦ ground (arith, none_of_backoff o.backoff t d)
  ]

  -- `ValidateJobOptions` accepts exactly the options with a priority and a delay of at least 0, at
  -- least one attempt, and either no backoff type or "fixed" or "exponential" with a delay of at
  -- least 1.
  pub validate_job_options-IsAcceptable :
      (o : JobOptions) → (validate_job_options C o ≡ none) ↔ IsAcceptable o
  validate_job_options-IsAcceptable o = (IsAcceptable-of_none o, none_of_acceptable o)

loop_ends :
    (m f n div exp : ℕ)
    → n < 1024 ^ suc m
    → m < f
    → (d : ℕ) × (e : ℕ) × (format_loop f n div exp ≡ some (d, e)) × (e ≤ exp + m)
unfolding format_loop
loop_ends m zero n div exp h k = absurd (omega arith)
loop_ends zero (suc f) n div exp h k = (div, exp, ground (arith, pow-suc 1024 0), omega arith)
loop_ends (suc m) (suc f) n div exp h k = elim (Bool-cases (leb 1024 n)) [
  | inl more ↦
      let (d, e, p, q) =
        loop_ends m f (n / 1024) (div * 1024) (exp + 1) (omega (arith, pow-suc 1024 (suc m)))
          (omega arith) in
      (d, e, rw more p, omega arith)
  | inr done ↦ (div, exp, rw done refl, omega arith)
]

letter_of_small : (bytes d e : ℕ) → e ≤ 5 → (c : ℕ) × (unit_letter bytes (d, e) ≡ some (d, c))
unfolding unit_letter
letter_of_small bytes d zero h = (b'K', refl)
letter_of_small bytes d (suc zero) h = (b'M', refl)
letter_of_small bytes d (suc (suc zero)) h = (b'G', refl)
letter_of_small bytes d (suc (suc (suc zero))) h = (b'T', refl)
letter_of_small bytes d (suc (suc (suc (suc zero)))) h = (b'P', refl)
letter_of_small bytes d (suc (suc (suc (suc (suc zero))))) h = (b'E', refl)
letter_of_small bytes d (suc (suc (suc (suc (suc (suc e)))))) h = absurd (omega arith)

-- formatBytes returns a text for every int that is not negative: the loop ends within its fuel,
-- and the index into "KMGTPE" stays below 6.
pub format_bytes-ne-none : (C : Codec) (bytes : ℕ) → bytes < 2 ^ 63 → format_bytes C bytes ≢ none
unfolding format_bytes
format_bytes-ne-none C bytes h =
    let (d, e, p, q) = loop_ends 5 7 (bytes / 1024) 1024 0 (omega arith) (omega arith) in
    let (c, r) = letter_of_small bytes d e (omega arith) in ground (arith, p, r)
