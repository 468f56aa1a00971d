-- ===== src/Worker/Run/Reading.antt =====
-- A job that was added to a queue, as a worker of the queue reads it.
use bullmq_go.Prelude.{
  Bytes, codes, bytes_eq, ◌≡◌, refl, sym, ap, ◌∙◌, true, false, List, [], ◌∷◌, some, none, inr,
  arith,
}
use bullmq_go.Prelude.Int.{ℤ, pos}
use bullmq_go.Errors.{is_empty}
use bullmq_go.Redis.{Server, Laws, IsHealthy}
use bullmq_go.Redis.Values.{
  Result, ok, absent, hash, hset, hgetall, zadd, lpush, effect, as_hash, h_get, h_set, h_del,
}
use bullmq_go.Redis.Action.{◌>>=◌, explain, reject, ignore, pure}
use bullmq_go.Redis.Touches.{Touches, Touches-reject, Touches-if, Touches-exec, here, there}
use bullmq_go.Redis.Replies.{hash_answer}
use bullmq_go.Keys
use bullmq_go.Keys.Distinct.{
  apart, IsJobId, job_name, delayed_name, prioritized_name, wait_name, events_name,
}
use bullmq_go.Jobs.{JobOptions, Job, Codec}
use bullmq_go.Jobs.Validation.{validate_job_options, validate_job_payload_size}
use bullmq_go.Queue.{Queue, apply_defaults, new_job, store_job_hash, enqueue_job, add}
use bullmq_go.Queue.Submit.{
  IsOwnQueue, ok_injective, bind-step, ok_of_explained, emit_waiting-Touches,
}
use bullmq_go.Worker.{Worker, keys_of}
use bullmq_go.Worker.Run.{get_job_data, job_from_hash, int_field, text_field, json_field}

-- The JSON texts of a payload and of options, which the codec reads back, and the decimal text of
-- a number, which it reads back too. Neither text is empty.
pub record ReadsBack (C : Codec) (payload : List (Bytes × C.Any)) (opts : JobOptions)
    (body settings : Bytes) : Type 0 where
  pub written : C.marshal_payload payload ≡ inr body
  pub written_opts : C.marshal_opts opts ≡ inr settings
  pub read : C.unmarshal_payload body ≡ inr payload
  pub read_opts : C.unmarshal_opts settings ≡ inr opts
  pub some_data : is_empty body ≡ false
  pub some_settings : is_empty settings ≡ false
  pub scanned : (n : ℤ) → C.scan_int (C.format_int n) ≡ some n

-- The fields of a new job's hash, as HSET leaves them.
abbrev pub stored_fields : (C : Codec) → Job C.Any → Bytes → Bytes → List (Bytes × Bytes)
stored_fields C job body settings =
    (codes "attemptsMade", C.format_int job.attempts_made)
    ∷ (codes "timestamp", C.format_int job.timestamp)
    ∷ (codes "delay", C.format_int job.delay)
    ∷ (codes "progress", C.format_int job.progress)
    ∷ (codes "opts", settings)
    ∷ (codes "data", body)
    ∷ (codes "name", job.name)
    ∷ (codes "id", job.id)
    ∷ []

-- A new job as a worker reads it: what HSET did not store has its zero value.
abbrev pub as_read : (C : Codec) → Worker → Job C.Any → Job C.Any
as_read C w job = record job {
  return_value = none;
  failed_reason = [];
  stack_trace = [];
  processed_on = pos 0;
  finished_on = pos 0;
  worker_id = [];
  queue_name = w.queue_name;
  connected = true;
}

module _ {R : Server} (L : Laws R) (C : Codec) (q : Queue) where
  store_job_hash-stored :
      (job : Job C.Any) (body settings : Bytes) (s : R.Store)
      → C.marshal_payload job.payload ≡ inr body
      → C.marshal_opts job.opts ≡ inr settings
      → R.value s (Keys.job q.key_builder job.id) ≡ absent
      → (store_job_hash R C q job s).0 ≡ ok tt
      → R.value (store_job_hash R C q job s).1 (Keys.job q.key_builder job.id)
        ≡ hash (stored_fields C job body settings)
  unfolding store_job_hash ◌>>=◌ effect h_set h_del bytes_eq
  store_job_hash-stored job body settings s d o fresh h =
      let written = hset (Keys.job q.key_builder job.id) (
        (codes "id", job.id)
        ∷ (codes "name", job.name)
        ∷ (codes "data", body)
        ∷ (codes "opts", settings)
        ∷ (codes "progress", C.format_int job.progress)
        ∷ (codes "delay", C.format_int job.delay)
        ∷ (codes "timestamp", C.format_int job.timestamp)
        ∷ (codes "attemptsMade", C.format_int job.attempts_made)
        ∷ []) in
      ground (arith, d, o, fresh, L.accepted written s tt)

  enqueue_job-Touches :
      (job : Job C.Any)
      → Touches R
          (Keys.delayed q.key_builder
            ∷ Keys.prioritized q.key_builder
            ∷ Keys.wait q.key_builder
            ∷ [])
          (enqueue_job R C q job)
  unfolding enqueue_job
  enqueue_job-Touches job =
      Touches-if _ _ _ (Touches-exec L _ (zadd (Keys.delayed q.key_builder) _ job.id) here) (
        Touches-if _ _ _
          (Touches-exec L _ (zadd (Keys.prioritized q.key_builder) _ job.id) (there here))
          (Touches-exec L _ (lpush (Keys.wait q.key_builder) job.id) (there (there here))))

module _ (R : Server) (C : Codec) (w : Worker) where
  job_from_hash-stored :
      (job : Job C.Any) (body settings : Bytes) (s : R.Store)
      → ReadsBack C job.payload job.opts body settings
      → (job_from_hash R C w job.id (stored_fields C job body settings) s).0 ≡ ok (as_read C w job)
  unfolding job_from_hash ◌>>=◌ int_field text_field json_field h_get bytes_eq
  job_from_hash-stored job body settings s r = ground (
    arith,
    r.read,
    r.read_opts,
    r.some_data,
    r.some_settings,
    r.scanned job.attempts_made,
    r.scanned job.timestamp,
    r.scanned job.delay,
    r.scanned job.progress,
  )

module _ {R : Server} (H : IsHealthy R) (C : Codec) (w : Worker) where
  pub get_job_data-stored :
      (job : Job C.Any) (body settings : Bytes) (s : R.Store)
      → R.value s (Keys.job (keys_of w) job.id) ≡ hash (stored_fields C job body settings)
      → ReadsBack C job.payload job.opts body settings
      → (get_job_data R C w job.id s).0 ≡ ok (as_read C w job)
  unfolding get_job_data ◌>>=◌
  get_job_data-stored job body settings s e r = ground (
    arith,
    hash_answer H (Keys.job (keys_of w) job.id) s (stored_fields C job body settings)
        (ap as_hash e),
    job_from_hash-stored R C w job body settings
        (R.exec (hgetall (Keys.job (keys_of w) job.id)) s).1 r,
  )

module _ {R : Server} (L : Laws R) (C : Codec) (q : Queue) (o : IsOwnQueue q) where
  pub add-stored :
      (name : Bytes) (payload : List (Bytes × C.Any)) (given : JobOptions) (id : Bytes)
      (now later : ℤ) (body settings : Bytes)
      → IsJobId id
      → ReadsBack C payload (apply_defaults given) body settings
      → (s : R.Store) (job : Job C.Any) → R.value s (Keys.job q.key_builder id) ≡ absent
      → (add R C q name payload given id now later s).0 ≡ ok job
      → (job ≡ new_job R C id name payload (apply_defaults given) now)
        × (R.value (add R C q name payload given id now later s).1 (Keys.job q.key_builder id)
            ≡ hash (
                stored_fields C
                  (new_job R C id name payload (apply_defaults given) now)
                  body
                  settings))
  unfolding add explain ignore pure
  add-stored name payload given id now later body settings i r s job fresh h =
      let made = new_job R C id name payload (apply_defaults given) now in
      let s1 = (reject {St = R.Store} (validate_job_options C (apply_defaults given)) s).1 in
      let s2 = (reject {St = R.Store} (validate_job_payload_size C made) s1).1 in
      let s3 = (store_job_hash R C q made s2).1 in
      let s4 = (enqueue_job R C q made s3).1 in
      let key = Keys.job q.key_builder id in
      let (u1, e1, q1, h1) = bind-step _ _ s job h in
      let (u2, e2, q2, h2) = bind-step _ _ s1 job h1 in
      let (u3, e3, q3, h3) = bind-step _ _ s2 job h2 in
      let (u4, e4, q4, h4) = bind-step _ _ s3 job h3 in
      let (u5, e5, q5, h5) = bind-step _ _ s4 job h4 in
      let empty =
        (Touches-reject {R = R} {ks = []} (validate_job_payload_size C made)).keeps s1 key tt
        ∙ (Touches-reject {R = R} {ks = []} (validate_job_options C (apply_defaults given))).keeps s
            key tt
        ∙ fresh in
      let stored =
        store_job_hash-stored L C q made body settings s2 r.written r.written_opts empty
          (ok_of_explained _ _ e3) in
      let queued = (enqueue_job-Touches L C q made).keeps s3 key (
        apart q.key_builder (job_name id) delayed_name i tt refl,
        (
          apart q.key_builder (job_name id) prioritized_name i tt refl,
          (apart q.key_builder (job_name id) wait_name i tt refl, tt),
        ),
      ) in
      let told =
        (emit_waiting-Touches L C q o made later).keeps s4 key
          (apart q.key_builder (job_name id) events_name i tt refl, tt) in
      let same = sym (ok_injective made job h5) in
      (
        same,
        ap (λ (p : Result (Job C.Any) × R.Store). R.value p.1 key) (q1 ∙ q2 ∙ q3 ∙ q4 ∙ q5)
            ∙ told
            ∙ queued
            ∙ stored,
      )

module _ {R : Server} (L : Laws R) (H : IsHealthy R) (C : Codec) (q : Queue) (w : Worker)
    (o : IsOwnQueue q) (k : keys_of w ≡ q.key_builder) where
  -- On a server that is up, for a worker of the queue, an id like those of `Add` under which
  -- nothing is stored, and a payload and options whose JSON reads back: what the worker reads for
  -- a job that `Add` returned is that job, with its id, name, payload, completed options, time and
  -- delay, under the worker's queue name.
  pub get_job_data-add :
      (name : Bytes) (payload : List (Bytes × C.Any)) (given : JobOptions) (id : Bytes)
      (now later : ℤ) (body settings : Bytes)
      → IsJobId id
      → ReadsBack C payload (apply_defaults given) body settings
      → (s : R.Store) (job : Job C.Any) → R.value s (Keys.job q.key_builder id) ≡ absent
      → (add R C q name payload given id now later s).0 ≡ ok job
      → (get_job_data R C w id (add R C q name payload given id now later s).1).0
        ≡ ok (record job { queue_name = w.queue_name; connected = true })
  unfolding new_job
  get_job_data-add name payload given id now later body settings i r s job fresh h =
      let made = new_job R C id name payload (apply_defaults given) now in
      let s' = (add R C q name payload given id now later s).1 in
      let (same, stored) =
        add-stored L C q o name payload given id now later body settings i r s job fresh h in
      get_job_data-stored H C w made body settings s'
        (ap (λ kb. R.value s' (Keys.job kb id)) k ∙ stored) r
      ∙ ap (λ (j : Job C.Any). ok (record j { queue_name = w.queue_name; connected = true }))
          (sym same)
