-- ===== src/Worker/Complete/Moves.antt =====
-- What `Complete` and `Fail` change on the server.
use bullmq_go.Prelude.{Bytes, ◌≡◌, refl, sym, subst, List, [], ◌∷◌, Option, none, some}
use bullmq_go.Prelude.Int.{ℤ}
use bullmq_go.Errors.{Error}
use bullmq_go.Redis.{Server, Laws}
use bullmq_go.Redis.Values.{xadd}
use bullmq_go.Redis.Touches.{Touches, touches_rules, Elem, Touches-exec, Touches-pure}
use bullmq_go.Keys
use bullmq_go.Keys.{KeyBuilder, new_key_builder}
use bullmq_go.Jobs.{Job, Codec}
use bullmq_go.Events.{Event, event_values, emit, emit_completed, emit_failed}
use bullmq_go.Worker.{Worker, keys_of}
use bullmq_go.Worker.Complete.{complete, fail_job, store_return_value, delete_job}

-- The worker's events go to its own queue: NewWorker makes its emitter so.
pub record IsOwn (w : Worker) : Type 0 where
  pub same_queue : w.event_emitter.queue_name ≡ w.queue_name
  pub same_client : w.event_emitter.redis_client ≡ w.redis_client

-- The keys that the end of a job may change.
abbrev pub job_keys : KeyBuilder → Bytes → List Bytes
job_keys kb id = Keys.job kb id ∷ Keys.lock kb id ∷ Keys.logs kb id ∷ Keys.events kb ∷ []

module _ {R : Server} (L : Laws R) (C : Codec) (ks : List Bytes) where
  pub store_return_value-Touches :
      (kb : KeyBuilder) (id : Bytes) (v : Option C.Any) (now : ℤ)
      → Elem (Keys.job kb id) ks
      → Touches R ks (store_return_value R C kb id v now)
  unfolding store_return_value
  store_return_value-Touches kb id none now e = Touches-pure tt
  store_return_value-Touches kb id (some v) now e = search touches_rules

  pub delete_job-Touches :
      (kb : KeyBuilder) (id : Bytes)
      → Elem (Keys.job kb id) ks
      → Elem (Keys.lock kb id) ks
      → Elem (Keys.logs kb id) ks
      → Touches R ks (delete_job R C kb id)
  unfolding delete_job
  delete_job-Touches kb id a b c = search touches_rules

  own_events :
      (w : Worker)
      → IsOwn w
      → Keys.events (new_key_builder w.event_emitter.queue_name w.event_emitter.redis_client)
        ≡ Keys.events (keys_of w)
  unfolding keys_of
  own_events w o = rw (o.same_queue, o.same_client) refl

  pub emit-Touches :
      (w : Worker) (e : Event)
      → IsOwn w
      → Elem (Keys.events (keys_of w)) ks
      → Touches R ks (emit R C w.event_emitter e)
  unfolding emit
  emit-Touches w e o h =
      Touches-exec L ks
        (xadd
          (Keys.events (new_key_builder w.event_emitter.queue_name w.event_emitter.redis_client))
          w.event_emitter.max_len (event_values R C e))
        (subst (λ k. Elem k ks) (sym (own_events w o)) h)

abbrev pub complete_keys : KeyBuilder → Bytes → List Bytes
complete_keys kb id = Keys.active kb ∷ Keys.completed kb ∷ job_keys kb id

abbrev pub fail_keys : KeyBuilder → Bytes → List Bytes
fail_keys kb id = Keys.active kb ∷ Keys.failed kb ∷ job_keys kb id

module _ {R : Server} (L : Laws R) (C : Codec) (w : Worker) (o : IsOwn w) where
  -- `Complete` changes no key but the active list, the completed set, the job's own three keys and
  -- the event stream, whatever the server refuses on the way.
  pub complete-Touches :
      (job : Job C.Any) (v : Option C.Any) (now later : ℤ)
      → Touches R (complete_keys (keys_of w) job.id) (complete R C w job v now later)
  unfolding complete emit_completed
  complete-Touches job v now later =
      search (touches_rules, store_return_value-Touches, delete_job-Touches, emit-Touches) depth 16

  -- `Fail` changes no key but the active list, the failed set, the job's own three keys and the
  -- event stream, whatever the server refuses on the way.
  fail_job-Touches :
      (job : Job C.Any) (e : Error) (now later : ℤ)
      → Touches R (fail_keys (keys_of w) job.id) (fail_job R C w job e now later)
  unfolding fail_job emit_failed
  fail_job-Touches job e now later =
      search (touches_rules, delete_job-Touches, emit-Touches) depth 16
