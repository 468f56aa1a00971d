-- ===== src/Events.antt =====
-- pkg/bullmq/events.go: events go to the queue's stream as one XADD each.
use bullmq_go.Prelude.{
  Bytes, codes, bytes_eq, List, [], ◌∷◌, Option, none, some, inl, inr, if◌then◌else◌,
}
use bullmq_go.Prelude.Int.{ℤ}
use bullmq_go.Errors.{Error, error_string}
use bullmq_go.Redis.{Server}
use bullmq_go.Redis.Values.{xadd}
use bullmq_go.Redis.Action.{Action}
use bullmq_go.Keys
use bullmq_go.Keys.{RedisClient, new_key_builder}
use bullmq_go.Jobs.{Job, Codec}

-- The values of `payload` are what go-redis sends for them.
pub record Event : Type 0 where
  pub event_type : Bytes
  pub job_id : Bytes
  pub timestamp : ℤ
  pub attempts_made : ℤ
  pub payload : Option (List (Bytes × Bytes))

pub record EventEmitter : Type 0 where
  pub queue_name : Bytes
  pub redis_client : RedisClient
  pub max_len : ℤ

unfoldable pub new_event_emitter : Bytes → RedisClient → ℤ → EventEmitter
new_event_emitter name client n = record { queue_name = name; redis_client = client; max_len = n }

-- m[k] = v
pub put_value : Bytes → Bytes → List (Bytes × Bytes) → List (Bytes × Bytes)
put_value k v [] = (k, v) ∷ []
put_value k v (e ∷ m) = if bytes_eq e.0 k then (k, v) ∷ m else e ∷ put_value k v m

pub put_values : List (Bytes × Bytes) → List (Bytes × Bytes) → List (Bytes × Bytes)
unfolding put_value
put_values [] m = m
put_values ((k, v) ∷ es) m = put_values es (put_value k v m)

module _ (R : Server) (C : Codec) where
  open R use {Store, exec}
  open C use {Any, format_int, marshal_any}

  pub event_values : Event → List (Bytes × Bytes)
  unfolding put_values
  event_values event =
      let values : List (Bytes × Bytes) =
        (codes "event", event.event_type)
        ∷ (codes "jobId", event.job_id)
        ∷ (codes "timestamp", format_int event.timestamp)
        ∷ (codes "attemptsMade", format_int event.attempts_made)
        ∷ [] in
      elim event.payload [ none ↦ values | some extra ↦ put_values extra values ]

  unfoldable pub emit : EventEmitter → Event → Action Store Unit
  unfolding event_values new_key_builder
  emit ee event = exec (
      xadd (Keys.events (new_key_builder ee.queue_name ee.redis_client)) ee.max_len
        (event_values event))

  unfoldable pub emit_waiting : EventEmitter → Job Any → ℤ → Action Store Unit
  emit_waiting ee job now = emit ee (record {
    event_type = codes "waiting";
    job_id = job.id;
    timestamp = now;
    attempts_made = job.attempts_made;
    payload = none;
  })

  unfoldable pub emit_active : EventEmitter → Job Any → ℤ → Action Store Unit
  emit_active ee job now = emit ee (record {
    event_type = codes "active";
    job_id = job.id;
    timestamp = now;
    attempts_made = job.attempts_made;
    payload = none;
  })

  -- The return value of the event; `none` is a nil interface.
  unfoldable pub return_value_text : Option Any → Bytes
  return_value_text none = []
  return_value_text (some v) = elim (marshal_any v) [
    | inl reason ↦ codes "{\"error\":\"failed to marshal return value\"}"
    | inr text ↦ text
  ]

  unfoldable pub emit_completed : EventEmitter → Job Any → Option Any → ℤ → Action Store Unit
  unfolding return_value_text
  emit_completed ee job return_value now = emit ee (record {
    event_type = codes "completed";
    job_id = job.id;
    timestamp = now;
    attempts_made = job.attempts_made;
    payload = some ((codes "returnvalue", return_value_text return_value) ∷ []);
  })

  unfoldable pub emit_failed : EventEmitter → Job Any → Error → ℤ → Action Store Unit
  emit_failed ee job e now = emit ee (record {
    event_type = codes "failed";
    job_id = job.id;
    timestamp = now;
    attempts_made = job.attempts_made;
    payload = some ((codes "error", error_string e) ∷ []);
  })

  unfoldable pub emit_progress : EventEmitter → Job Any → ℤ → ℤ → Action Store Unit
  emit_progress ee job progress now = emit ee (record {
    event_type = codes "progress";
    job_id = job.id;
    timestamp = now;
    attempts_made = job.attempts_made;
    payload = some ((codes "progress", format_int progress) ∷ []);
  })

  unfoldable pub emit_stalled : EventEmitter → Job Any → ℤ → Action Store Unit
  emit_stalled ee job now = emit ee (record {
    event_type = codes "stalled";
    job_id = job.id;
    timestamp = now;
    attempts_made = job.attempts_made;
    payload = none;
  })

  unfoldable pub emit_retry : EventEmitter → Job Any → ℤ → ℤ → Action Store Unit
  emit_retry ee job delay now = emit ee (record {
    event_type = codes "retry";
    job_id = job.id;
    timestamp = now;
    attempts_made = job.attempts_made;
    payload = some ((codes "delay", format_int delay) ∷ []);
  })
