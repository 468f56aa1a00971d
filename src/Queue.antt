-- ===== src/Queue.antt =====
-- pkg/bullmq/queue.go and the submission half of queue_impl.go. The clock, the uuid and the JSON
-- texts are arguments.
pub mod Manage
pub mod Submit
pub mod Pausing
pub mod Refusal
use bullmq_go.Prelude.{
  Bytes, codes, bytes_eq, ◌++◌, ◌==◌, ◌&&◌, Bool, false, List, [], ◌∷◌, none, some, inl, inr,
  if◌then◌else◌,
}
use bullmq_go.Prelude.Int.{ℤ, pos, negsuc, ◌+ℤ◌, ◌-ℤ◌, ltb_ℤ}
use bullmq_go.Errors.{plain, is_empty, is_redis_nil}
use bullmq_go.Redis.{Server}
use bullmq_go.Redis.Values.{ok, err, lpush, zadd, hset, hdel, hget, hgetall, h_get}
use bullmq_go.Redis.Action.{
  ◌>>=◌, ◌>>◌, Action, pure, fail, ignore, attempt, explain, reject, marshalled,
}
use bullmq_go.Keys
use bullmq_go.Keys.{KeyBuilder, RedisClient, new_key_builder}
use bullmq_go.Jobs.{JobOptions, Job, Codec, exponential, milliseconds}
use bullmq_go.Jobs.Validation.{validate_job_options, validate_job_payload_size}
use bullmq_go.Events.{EventEmitter, new_event_emitter, emit_waiting}

-- The client stands in the emitter and in the server of the section.
pub record Queue : Type 0 where
  pub name : Bytes
  pub key_builder : KeyBuilder
  pub event_emitter : EventEmitter

unfoldable pub new_queue : Bytes → RedisClient → Queue
unfolding new_key_builder new_event_emitter
new_queue name client = record {
  name = name;
  key_builder = new_key_builder name client;
  event_emitter = new_event_emitter name client (pos 10000);
}

abbrev pub is_zero : ℤ → Bool
is_zero (pos n) = n == 0
is_zero (negsuc n) = false

-- One attempt where none is given, and a backoff where more than one attempt has none.
unfoldable pub apply_defaults : JobOptions → JobOptions
unfolding is_empty
apply_defaults opts =
    let counted = if is_zero opts.attempts then record opts { attempts = pos 1 } else opts in
    if ltb_ℤ (pos 1) counted.attempts && is_empty counted.backoff.type
    then record counted { backoff = record { type = exponential; delay = pos 1000 } }
    else counted

module _ (R : Server) (C : Codec) where
  open R use {Store, exec}
  open C use {Any, format_int, marshal_payload, marshal_opts, unmarshal_payload}

  unfoldable pub store_job_hash : Queue → Job Any → Action Store Unit
  store_job_hash q job = do
    payload_json ← marshalled (codes "failed to marshal job data") (marshal_payload job.payload)
    opts_json ← marshalled (codes "failed to marshal job opts") (marshal_opts job.opts)
    exec (
        hset (Keys.job q.key_builder job.id) (
          (codes "id", job.id)
          ∷ (codes "name", job.name)
          ∷ (codes "data", payload_json)
          ∷ (codes "opts", opts_json)
          ∷ (codes "progress", format_int job.progress)
          ∷ (codes "delay", format_int job.delay)
          ∷ (codes "timestamp", format_int job.timestamp)
          ∷ (codes "attemptsMade", format_int job.attempts_made)
          ∷ []))

  unfoldable pub enqueue_job : Queue → Job Any → Action Store Unit
  enqueue_job q job =
      if ltb_ℤ (pos 0) job.delay
      then exec (zadd (Keys.delayed q.key_builder) (job.timestamp +ℤ job.delay) job.id)
      else if ltb_ℤ (pos 0) job.opts.priority
      then exec (zadd (Keys.prioritized q.key_builder) (pos 0 -ℤ job.opts.priority) job.id)
      else exec (lpush (Keys.wait q.key_builder) job.id)

  unfoldable pub new_job : Bytes → Bytes → List (Bytes × Any) → JobOptions → ℤ → Job Any
  new_job job_id name payload opts now = record {
    id = job_id;
    name = name;
    payload = payload;
    opts = opts;
    progress = pos 0;
    return_value = none;
    failed_reason = [];
    stack_trace = [];
    timestamp = now;
    attempts_made = pos 0;
    processed_on = pos 0;
    finished_on = pos 0;
    worker_id = [];
    delay = milliseconds opts.delay;
    queue_name = [];
    connected = false;
  }

  -- `job_id` is the uuid, `now` the time of the job and `later` that of the event.
  unfoldable pub add :
      Queue → Bytes → List (Bytes × Any) → JobOptions → Bytes → ℤ → ℤ → Action Store (Job Any)
  unfolding apply_defaults new_job
  add q name payload given job_id now later = do
    let opts = apply_defaults given
    reject (validate_job_options C opts)
    let job = new_job job_id name payload opts now
    reject (validate_job_payload_size C job)
    explain (codes "failed to store job") (store_job_hash q job)
    explain (codes "failed to enqueue job") (enqueue_job q job)
    ignore (emit_waiting R C q.event_emitter job later)
    pure job

  -- The job that GetJob and GetJobs build from the fields of a hash.
  unfoldable pub job_of_fields : Bytes → List (Bytes × Bytes) → Job Any
  job_of_fields job_id result = record {
    id = job_id;
    name = elim (h_get (codes "name") result) [ none ↦ [] | some text ↦ text ];
    payload = elim (h_get (codes "data") result) [
      | none ↦ []
      | some text ↦ elim (unmarshal_payload text) [ inl reason ↦ [] | inr payload ↦ payload ]
    ];
    opts = record {
      priority = pos 0;
      delay = pos 0;
      attempts = pos 0;
      backoff = record { type = []; delay = pos 0 };
      remove_on_complete = false;
      remove_on_fail = false;
    };
    progress = pos 0;
    return_value = none;
    failed_reason = [];
    stack_trace = [];
    timestamp = pos 0;
    attempts_made = pos 0;
    processed_on = pos 0;
    finished_on = pos 0;
    worker_id = [];
    delay = pos 0;
    queue_name = [];
    connected = false;
  }

  -- An empty result means that there is no such job.
  unfoldable pub get_job : Queue → Bytes → Action Store (Job Any)
  unfolding job_of_fields
  get_job q job_id = do
    result ← exec (hgetall (Keys.job q.key_builder job_id))
    elim result [
      | [] ↦ fail (plain (codes "job not found: " ++ job_id))
      | f ∷ fs ↦ pure (job_of_fields job_id (f ∷ fs))
    ]

  unfoldable pub pause : Queue → Action Store Unit
  pause q = exec (hset (Keys.meta q.key_builder) ((codes "paused", codes "1") ∷ []))

  unfoldable pub resume : Queue → Action Store Unit
  resume q = exec (hdel (Keys.meta q.key_builder) (codes "paused"))

  -- redis.Nil is no error here.
  unfoldable pub is_paused : Queue → Action Store Bool
  is_paused q = do
    answer ← attempt (exec (hget (Keys.meta q.key_builder) (codes "paused")))
    elim answer [
      | ok val ↦ pure (bytes_eq val (codes "1"))
      | err e ↦ if is_redis_nil e then pure false else fail e
    ]
