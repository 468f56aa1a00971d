-- ===== src/Jobs/Validation.antt =====
-- pkg/bullmq/validation.go.
pub mod Size
use bullmq_go.Prelude.{
  ℕ, zero, suc, Bytes, codes, bytes_eq, ◌+◌, ◌*◌, ◌/◌, ltb, leb, ◌++◌, ◌&&◌, not, inl, inr, [], ◌∷◌,
  Option, none, some, if◌then◌else◌, length, get_elem?,
}
use bullmq_go.Prelude.Int.{pos, ltb_ℤ, leb_ℤ}
use bullmq_go.Errors.{Error, validation, is_empty}
use bullmq_go.Jobs.{BackoffConfig, JobOptions, Job, Codec, exponential}

unfoldable pub max_job_payload_size : ℕ
max_job_payload_size = 10 * 1024 * 1024

-- The loop of formatBytes: n, div and exp, with fuel.
unfoldable pub format_loop : ℕ → ℕ → ℕ → ℕ → Option (ℕ × ℕ)
format_loop zero n div exp = none
format_loop (suc f) n div exp =
    let rest = format_loop f (n / 1024) (div * 1024) (exp + 1) in
    if leb 1024 n then rest else some (div, exp)

-- `none` where the index of "KMGTPE" is out of range.
unit_letter : ℕ → ℕ × ℕ → Option (ℕ × ℕ)
unit_letter bytes (div, exp) = elim (get_elem? (codes "KMGTPE") exp) [
  | none ↦ none
  | some c ↦ some (div, c)
]

abbrev pub bind_option : {A B : Type 0} → Option A → (A → Option B) → Option B
bind_option none f = none
bind_option (some a) f = f a

module _ (C : Codec) where
  open C use {Any, format_int, format_duration, format_ratio, marshal_job}

  -- An int has 63 bits besides its sign, so seven rounds are enough.
  unfoldable pub format_bytes : ℕ → Option Bytes
  unfolding format_loop unit_letter
  format_bytes bytes =
      if ltb bytes 1024
      then some (format_int (pos bytes) ++ codes " B")
      else bind_option (format_loop 7 (bytes / 1024) 1024 0) λ e.
        bind_option (unit_letter bytes e)
          λ (div, c). some (format_ratio bytes div ++ (codes " " ++ (c ∷ codes "B")))

  -- `none` is the nil error.
  unfoldable pub validate_backoff_config : BackoffConfig → Option Error
  validate_backoff_config backoff =
      if not (bytes_eq backoff.type (codes "fixed"))
        && not (bytes_eq backoff.type (codes "exponential"))
      then some (
          validation (codes "backoff.type")
            (codes "must be 'fixed' or 'exponential', got '" ++ (backoff.type ++ codes "'")))
      else if leb_ℤ backoff.delay (pos 0)
      then some (
          validation (codes "backoff.delay")
            (codes "must be > 0, got " ++ format_int backoff.delay))
      else none

  unfoldable pub validate_job_options : JobOptions → Option Error
  unfolding validate_backoff_config is_empty
  validate_job_options opts =
      if ltb_ℤ opts.priority (pos 0)
      then some
          (validation (codes "priority") (codes "must be >= 0, got " ++ format_int opts.priority))
      else if ltb_ℤ opts.delay (pos 0)
      then some
          (validation (codes "delay") (codes "must be >= 0, got " ++ format_duration opts.delay))
      else if leb_ℤ opts.attempts (pos 0)
      then some
          (validation (codes "attempts") (codes "must be > 0, got " ++ format_int opts.attempts))
      else if not (is_empty opts.backoff.type)
      then validate_backoff_config opts.backoff
      else none

  -- The text of an absent size: formatBytes never fails on an int (Size).
  or_empty : Option Bytes → Bytes
  or_empty none = []
  or_empty (some s) = s

  unfoldable pub validate_job_payload_size : Job Any → Option Error
  unfolding or_empty format_bytes
  validate_job_payload_size job = elim (marshal_job job) [
    | inl reason ↦ some (validation (codes "job") (codes "failed to serialize: " ++ reason))
    | inr text ↦
        if ltb max_job_payload_size (length text)
        then some (
            validation (codes "job") (
              codes "payload size "
              ++ (or_empty (format_bytes (length text))
                  ++ (codes " exceeds limit of " ++ or_empty (format_bytes max_job_payload_size)))))
        else none
  ]
