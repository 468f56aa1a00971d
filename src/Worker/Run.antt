-- ===== src/Worker/Run.antt =====
-- pkg/bullmq/worker_impl.go and results_queue.go: picking a job up, running it and handling its
-- result. Lock tokens, times and random numbers are arguments; `Processor` is the application's.
pub mod Taking
pub mod Picking
pub mod Failing
pub mod Reading
use bullmq_go.Prelude.{
  Bytes, codes, bytes_eq, ◌++◌, ◌||◌, Bool, true, false, List, [], ◌∷◌, Option, none, some, ◌⊎◌,
  inl, inr, if◌then◌else◌,
}
use bullmq_go.Prelude.Int.{ℤ, pos, ◌+ℤ◌, leb_ℤ}
use bullmq_go.Errors.{
  Error, ErrorCategory, category_permanent, category_transient, wrapped, plain, is_redis_nil,
  is_empty, error_string, categorize_error,
}
use bullmq_go.Redis.{Server}
use bullmq_go.Redis.Values.{
  ok, err, hget, zpopmin, rpop, setex, lpush, lrem, del, zadd, hset, hgetall, h_get,
}
use bullmq_go.Redis.Action.{◌>>=◌, Action, pure, fail, ◌>>◌, ignore, attempt, explain}
use bullmq_go.Keys
use bullmq_go.Jobs.{JobOptions, Job, Codec}
use bullmq_go.Retry.{Float64, calculate_backoff}
use bullmq_go.Queue.{add}
use bullmq_go.Queue.Manage.{unix_milli}
use bullmq_go.Events.{emit_active, emit_failed}
use bullmq_go.Worker.{Worker, keys_of}
use bullmq_go.Worker.Complete.{complete}

-- Jobs picked up are run by goroutines: what a pickup starts is the job's id and its lock token.
pub record Pickup : Type 0 where
  pub job_id : Bytes
  pub lock_token : Bytes

abbrev pub is_permanent_category : ErrorCategory → Bool
is_permanent_category category_permanent = true
is_permanent_category category_transient = false

module _ (R : Server) where
  open R use {Store, exec}

  -- `duration` is opts.LockDuration.
  unfoldable pub acquire_lock_and_activate : Worker → Bytes → Bytes → Action Store Bytes
  acquire_lock_and_activate w job_id token = do
    let kb = keys_of w
    explain (codes "failed to acquire lock")
        (exec (setex (Keys.lock kb job_id) token w.opts.lock_duration))
    pushed ← attempt (exec (lpush (Keys.active kb) job_id))
    elim pushed [
      | ok _ ↦ pure token
      | err e ↦
          ignore (exec (del (Keys.lock kb job_id)))
          >> fail (wrapped (codes "failed to move to active") e)
    ]

  -- The id of the first member that was popped, or the empty id.
  abbrev pub first_member : List (Bytes × ℤ) → Bytes
  first_member [] = []
  first_member ((m, sc) ∷ zs) = m

  -- The next job's id: the prioritized set first, then the wait list.
  unfoldable pub next_job_id : Worker → Action Store Bytes
  unfolding is_empty
  next_job_id w = do
    let kb = keys_of w
    popped ← attempt (exec (zpopmin (Keys.prioritized kb)))
    elim popped [
      | err e ↦ if is_redis_nil e then exec (rpop (Keys.wait kb)) else fail e
      | ok results ↦
          if is_empty (first_member results)
          then exec (rpop (Keys.wait kb))
          else pure (first_member results)
    ]

  -- The value of the field "paused", empty where it is missing.
  unfoldable pub paused_field : Worker → Action Store Bytes
  paused_field w = do
    answer ← attempt (exec (hget (Keys.meta (keys_of w)) (codes "paused")))
    elim answer [ ok val ↦ pure val | err e ↦ if is_redis_nil e then pure [] else fail e ]

  unfoldable pub pickup_job : Worker → Bytes → Action Store Pickup
  unfolding acquire_lock_and_activate next_job_id paused_field
  pickup_job w token =
      if w.is_connected
      then (do
        paused ← paused_field w
        if bytes_eq paused (codes "1") then fail (plain (codes "queue is paused")) else (do
          job_id ← next_job_id w
          lock_token ← acquire_lock_and_activate w job_id token
          pure (record { job_id = job_id; lock_token = lock_token })))
      else fail (plain (codes "redis disconnected"))

module _ (R : Server) (C : Codec) where
  open R use {Store, exec}
  open C use {Any, of_text, of_int, format_int, scan_int, unmarshal_payload, unmarshal_opts}

  -- fmt.Sscanf into a field that starts at 0.
  unfoldable pub int_field : Bytes → List (Bytes × Bytes) → ℤ
  int_field name fs = elim (h_get name fs) [
    | none ↦ pos 0
    | some text ↦ elim (scan_int text) [ none ↦ pos 0 | some n ↦ n ]
  ]

  unfoldable pub text_field : Bytes → List (Bytes × Bytes) → Bytes
  text_field name fs = elim (h_get name fs) [ none ↦ [] | some text ↦ text ]

  abbrev pub no_options : JobOptions
  no_options = record {
    priority = pos 0;
    delay = pos 0;
    attempts = pos 0;
    backoff = record { type = []; delay = pos 0 };
    remove_on_complete = false;
    remove_on_fail = false;
  }

  -- A JSON field: missing or empty it leaves the default.
  unfoldable pub json_field :
      {A : Type 0} → (Bytes → Bytes ⊎ A) → Bytes → A → Bytes → List (Bytes × Bytes) → Action Store A
  unfolding is_empty
  json_field parse m default name fs = elim (h_get name fs) [
    | none ↦ pure default
    | some text ↦
        if is_empty text
        then pure default
        else elim (parse text) [ inl reason ↦ fail (wrapped m (plain reason)) | inr a ↦ pure a ]
  ]

  unfoldable pub job_from_hash : Worker → Bytes → List (Bytes × Bytes) → Action Store (Job Any)
  unfolding int_field text_field json_field
  job_from_hash w job_id fs = do
    payload ←
        json_field unmarshal_payload (codes "failed to unmarshal job data") [] (codes "data") fs
    opts ←
        json_field unmarshal_opts (codes "failed to unmarshal job opts") no_options (codes "opts")
          fs
    pure (record {
      id = job_id;
      name = text_field (codes "name") fs;
      payload = payload;
      opts = opts;
      progress = int_field (codes "progress") fs;
      return_value = none;
      failed_reason = text_field (codes "failedReason") fs;
      stack_trace = [];
      timestamp = int_field (codes "timestamp") fs;
      attempts_made = int_field (codes "attemptsMade") fs;
      processed_on = int_field (codes "processedOn") fs;
      finished_on = int_field (codes "finishedOn") fs;
      worker_id = [];
      delay = int_field (codes "delay") fs;
      queue_name = w.queue_name;
      connected = true;
    })

  unfoldable pub get_job_data : Worker → Bytes → Action Store (Job Any)
  unfolding job_from_hash
  get_job_data w job_id = do
    fs ← exec (hgetall (Keys.job (keys_of w) job_id))
    elim fs [
      | [] ↦ fail (plain (codes "job not found: " ++ job_id))
      | f ∷ rest ↦ job_from_hash w job_id (f ∷ rest)
    ]

  -- `now` in milliseconds.
  unfoldable pub move_to_failed : Worker → Job Any → Error → ℤ → ℤ → Action Store Unit
  move_to_failed w job e now later = do
    let kb = keys_of w
    ignore (exec (lrem (Keys.active kb) 1 job.id))
    ignore (exec (del (Keys.lock kb job.id)))
    if job.opts.remove_on_fail
        then ignore (exec (del (Keys.job kb job.id)))
        else (ignore (exec (zadd (Keys.failed kb) now job.id))
            >> ignore
                (exec (hset (Keys.job kb job.id) ((codes "failedReason", error_string e) ∷ []))))
    ignore (emit_failed R C w.event_emitter job e later)

  -- `now` in nanoseconds.
  unfoldable pub retry_job : (fl : Float64) → Worker → Job Any → fl.F → ℤ → Action Store Unit
  unfolding unix_milli
  retry_job fl w job random now = do
    let kb = keys_of w
    let attempts_made = job.attempts_made +ℤ pos 1
    let delay =
        calculate_backoff fl attempts_made w.opts.backoff_delay w.opts.max_backoff_delay random
    ignore (exec (lrem (Keys.active kb) 1 job.id))
    ignore (exec (zadd (Keys.delayed kb) (unix_milli (now +ℤ delay)) job.id))
    ignore
        (exec (hset (Keys.job kb job.id) ((codes "attemptsMade", format_int attempts_made) ∷ [])))

  unfoldable pub handle_job_failure :
      (fl : Float64) → Worker → Job Any → Error → fl.F → ℤ → ℤ → Action Store Unit
  handle_job_failure fl w job e random now later =
      if is_permanent_category (categorize_error e) || leb_ℤ job.opts.attempts job.attempts_made
      then move_to_failed w job e (unix_milli now) later
      else retry_job fl w job random now

  unfoldable pub handle_job_success : Worker → Job Any → Option Any → ℤ → ℤ → Action Store Unit
  handle_job_success w job return_value now later =
      ignore (complete R C w job return_value now later)

  -- The payload of a result, as Go's map literal lists it. `unix` is the time in seconds.
  unfoldable pub result_payload : Worker → Job Any → Any → ℤ → ℤ → List (Bytes × Any)
  result_payload w job result unix process_time =
      (codes "jobId", of_text job.id)
      ∷ (codes "queueName", of_text w.queue_name)
      ∷ (codes "result", result)
      ∷ (codes "timestamp", of_int unix)
      ∷ (codes "processTime", of_int process_time)
      ∷ (codes "attempt", of_int job.attempts_made)
      ∷ (codes "workerId", of_text w.opts.worker_id)
      ∷ []

  -- `nil_value` is the nil interface as a map's value; `uuid`, `now` and `later` are those of Add.
  -- The application's OnError callback, which is given the error of Add, is left out.
  unfoldable pub send_to_results_queue :
      Worker → Job Any → Any → ℤ → ℤ → Bytes → ℤ → ℤ → Action Store Unit
  unfolding result_payload
  send_to_results_queue w job result unix process_time uuid now later = elim w.results_queue [
    | none ↦ pure tt
    | some q ↦ elim w.results_queue_config [
      | none ↦ pure tt
      | some config ↦
          add R C q (codes "process-result") (result_payload w job result unix process_time)
            config.options uuid now later
          >> pure tt
    ]
  ]

-- What the world supplies to one run of a job: the processor's result, the clock and the rest.
pub record Turn (C : Codec) (fl : Float64) : Type 0 where
  pub processor : Job C.Any → Option C.Any ⊎ Error
  pub nil_value : C.Any
  pub active_time : ℤ
  pub end_time : ℤ
  pub end_time_ms : ℤ
  pub event_time : ℤ
  pub unix : ℤ
  pub process_time : ℤ
  pub uuid : Bytes
  pub random : fl.F

module _ (R : Server) (C : Codec) (fl : Float64) where
  open R use {Store, exec}

  -- processJob but for the heartbeats. The job's pointer is read and written by this run alone.
  unfoldable pub process_job : Worker → Bytes → Turn C fl → Action Store Unit
  process_job w job_id t = do
    found ← get_job_data R C w job_id
    let job = record found { worker_id = w.opts.worker_id }
    ignore (emit_active R C w.event_emitter job t.active_time)
    elim (t.processor job) [
      | inr e ↦ handle_job_failure R C fl w job e t.random t.end_time t.event_time
      | inl result ↦
          ignore (
            send_to_results_queue R C w job (elim result [ none ↦ t.nil_value | some v ↦ v ]) t.unix
              t.process_time t.uuid t.end_time_ms t.event_time)
          >> handle_job_success R C w job result t.end_time_ms t.event_time
    ]
