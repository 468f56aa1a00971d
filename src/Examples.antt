-- ===== src/Examples.antt =====
-- Concrete servers, workers and jobs on which the theorems are tried.
pub mod Texts
pub mod Running
pub mod Ending
pub mod Refusing
pub mod Logging
pub mod Steps
pub mod Boards
pub mod Reading
pub mod Loading
pub mod Managing
pub mod Racing
pub mod Sharing
use bullmq_go.Prelude.{
  Bytes, codes, bytes_eq, contains_byte, refl, true, false, [], ◌∷◌, none, inl, inr, if◌then◌else◌,
  ◌*◌, ◌/◌, ◌+◌, ◌^◌, ◌-◌, leb, ltb, ℕ, ◌≡◌, arith,
}
use bullmq_go.Prelude.Int.{pos, negsuc, pos_part}
use bullmq_go.Redis.Values.{Value, absent, list, hash, text}
use bullmq_go.Keys
use bullmq_go.Keys.{KeyBuilder, single}
use bullmq_go.Keys.Distinct.{IsJobId, is_reserved}
use bullmq_go.Jobs.{JobOptions, Job, Codec}
use bullmq_go.Retry.{Float64}
use bullmq_go.Retry.Bounds.{IsAmd64}
use bullmq_go.Worker.{Worker, new_worker, default_worker_options, keys_of}
use bullmq_go.Worker.Complete.Moves.{IsOwn}

-- Values are texts, and every encoding is a constant.
abbrev pub plain_codec : Codec
plain_codec = record {
  Any = Bytes;
  of_text = λ t. t;
  of_int = λ n. codes "0";
  marshal_any = λ a. inr a;
  marshal_payload = λ p. inr (codes "{}");
  unmarshal_payload = λ t. inr [];
  marshal_opts = λ o. inr (codes "{}");
  unmarshal_opts = λ t. inl (codes "no options");
  marshal_job = λ j. inr (codes "{}");
  format_int = λ n. codes "1";
  format_duration = λ n. codes "1s";
  scan_int = λ t. none;
  format_ratio = λ n d. codes "1.0";
}

abbrev power : ℕ → ℕ → ℕ
power b n = b ^ n

-- Tenths in place of floating point; a conversion that does not fit gives the least int64.
abbrev pub tenths : Float64
tenths = record {
  F = ℕ;
  of_int = λ n. pos_part n * 10;
  mul = λ a b. a * b / 10;
  add = λ a b. a + b;
  pow = λ a b. 10 * power (a / 10) (b / 10);
  two = 20;
  four_tenths = 4;
  eight_tenths = 8;
  to_int = λ a. if leb (2 ^ 63) (a / 10) then negsuc (2 ^ 63 - 1) else pos (a / 10);
}

tenths_scaled : (i k : ℕ) → leb (i * 2 ^ k * 10) (i * 10 * (10 * power 2 (k * 10 / 10)) / 10) ≡ true
tenths_scaled i k = let same : k * 10 / 10 ≡ k = omega arith in rw same (grind arith)

tenths_jittered :
    (x r m : ℕ) → leb (m * 10) x ≡ true → leb (m / 2 * 10) (x * (8 + 4 * r / 10) / 10) ≡ true
tenths_jittered x r m h = grind arith

pub tenths-IsAmd64 : IsAmd64 tenths
tenths-IsAmd64 = record {
  at_least = λ x m. leb (m * 10) x;
  in_unit = λ r. ltb r 10;
  scaled = λ i k p h. tenths_scaled i k;
  jittered = λ x r m u h. tenths_jittered x r m h;
  converted = λ x m h e. ground arith;
}

abbrev pub mailer : Worker
mailer = new_worker (codes "mail") single default_worker_options (codes "w1")

pub mailer-IsOwn : IsOwn mailer
unfolding new_worker
mailer-IsOwn = record { same_queue = refl; same_client = refl }

abbrev pub first_id : Bytes
first_id = codes "j1"

abbrev pub second_id : Bytes
second_id = codes "j2"

pub first_id-IsJobId : IsJobId first_id
unfolding contains_byte is_reserved bytes_eq
first_id-IsJobId = record { no_colon = refl; not_reserved = refl }

pub second_id-IsJobId : IsJobId second_id
unfolding contains_byte is_reserved bytes_eq
second_id-IsJobId = record { no_colon = refl; not_reserved = refl }

abbrev pub kept : JobOptions
kept = record {
  priority = pos 0;
  delay = pos 0;
  attempts = pos 3;
  backoff = record { type = codes "fixed"; delay = pos 1000 };
  remove_on_complete = false;
  remove_on_fail = false;
}

abbrev pub letter : Job Bytes
letter = record {
  id = first_id;
  name = codes "send";
  payload = [];
  opts = kept;
  progress = pos 0;
  return_value = none;
  failed_reason = [];
  stack_trace = [];
  timestamp = pos 1000;
  attempts_made = pos 1;
  processed_on = pos 0;
  finished_on = pos 0;
  worker_id = codes "w1";
  delay = pos 0;
  queue_name = codes "mail";
  connected = true;
}

-- The keys of the example queue.
abbrev pub mail : KeyBuilder
mail = keys_of mailer

-- A server on which the first job is active and the second waits behind another.
abbrev pub busy : Bytes → Value
busy k =
    if bytes_eq k (Keys.active mail)
    then list (first_id ∷ [])
    else if bytes_eq k (Keys.wait mail)
    then list (codes "j3" ∷ second_id ∷ [])
    else if bytes_eq k (Keys.job mail first_id)
    then hash ((codes "name", codes "send") ∷ (codes "attemptsMade", codes "1") ∷ [])
    else if bytes_eq k (Keys.lock mail first_id)
    then text (codes "t1")
    else absent
