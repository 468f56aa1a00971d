-- ===== src/Jobs.antt =====
-- pkg/bullmq/job.go: jobs and their options, and what the package uses of Go's encoding and
-- formatting libraries. A duration is a number of nanoseconds.
pub mod Validation
use bullmq_go.Prelude.{Bytes, codes, ℕ, ◌+◌, ◌/◌, Bool, false, ◌⊎◌, List, Option}
use bullmq_go.Prelude.Int.{ℤ, pos, negsuc, sub_ℕ}

pub record BackoffConfig : Type 0 where
  pub type : Bytes
  pub delay : ℤ

pub record JobOptions : Type 0 where
  pub priority : ℤ
  pub delay : ℤ
  pub attempts : ℤ
  pub backoff : BackoffConfig
  pub remove_on_complete : Bool
  pub remove_on_fail : Bool

-- `Any` stands for the values of interface{} that are not nil. The client pointer and the emitter
-- of a Go job are reduced to whether the job is connected.
pub record Job (Any : Type 0) : Type 0 where
  pub id : Bytes
  pub name : Bytes
  pub payload : List (Bytes × Any)
  pub opts : JobOptions
  pub progress : ℤ
  pub return_value : Option Any
  pub failed_reason : Bytes
  pub stack_trace : List Bytes
  pub timestamp : ℤ
  pub attempts_made : ℤ
  pub processed_on : ℤ
  pub finished_on : ℤ
  pub worker_id : Bytes
  pub delay : ℤ
  pub queue_name : Bytes
  pub connected : Bool

-- encoding/json, strconv and fmt, as far as the package uses them.
pub record Codec : Type 1 where
  pub Any : Type 0
  pub of_text : Bytes → Any
  pub of_int : ℤ → Any
  -- the error's text, or the result
  pub marshal_any : Any → Bytes ⊎ Bytes
  pub marshal_payload : List (Bytes × Any) → Bytes ⊎ Bytes
  pub unmarshal_payload : Bytes → Bytes ⊎ List (Bytes × Any)
  pub marshal_opts : JobOptions → Bytes ⊎ Bytes
  pub unmarshal_opts : Bytes → Bytes ⊎ JobOptions
  pub marshal_job : Job Any → Bytes ⊎ Bytes
  -- "%d", "%v" of a duration, and what fmt.Sscanf(text, "%d", …) reads
  pub format_int : ℤ → Bytes
  pub format_duration : ℤ → Bytes
  pub scan_int : Bytes → Option ℤ
  -- "%.1f" of the quotient of two integers
  pub format_ratio : ℕ → ℕ → Bytes

abbrev pub exponential : Bytes
exponential = codes "exponential"

unfoldable pub default_job_options : JobOptions
default_job_options = record {
  priority = pos 0;
  delay = pos 0;
  attempts = pos 3;
  backoff = record { type = exponential; delay = pos 1000 };
  remove_on_complete = false;
  remove_on_fail = false;
}

-- time.Duration.Milliseconds, which truncates towards zero.
unfoldable pub milliseconds : ℤ → ℤ
milliseconds (pos n) = pos (n / 1000000)
milliseconds (negsuc n) = sub_ℕ 0 ((n + 1) / 1000000)
