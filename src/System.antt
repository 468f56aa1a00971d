-- ===== src/System.antt =====
-- One worker of pkg/bullmq/worker_impl.go at work on its queue, with everything else that clients
-- and other workers do to the queue meanwhile, as a step relation. A step is a whole call.
pub mod Operations
pub mod Sound
pub mod Delayed
use bullmq_go.Prelude.{Bytes, Bool, ◌≡◌, ◌≢◌, true, List, ◌∷◌, ◌++◌, Option, none}
use bullmq_go.Prelude.Int.{ℤ}
use bullmq_go.Redis.{Server}
use bullmq_go.Redis.Values.{absent}
use bullmq_go.Redis.Action.{Action, ignore}
use bullmq_go.Keys
use bullmq_go.Keys.{KeyBuilder, RedisClient, new_key_builder}
use bullmq_go.Keys.Distinct.{IsJobId}
use bullmq_go.Jobs.{JobOptions, Job, Codec}
use bullmq_go.Retry.{Float64}
use bullmq_go.Errors.{Error}
use bullmq_go.Queue.{Queue, add, pause, resume}
use bullmq_go.Queue.Manage
use bullmq_go.Queue.Manage.{remove_job, clean, drain}
use bullmq_go.Logs.{LogCodec, LogManager, add_log, update_progress}
use bullmq_go.Worker.{Worker, keys_of}
use bullmq_go.Worker.Complete.{complete, fail_job}
use bullmq_go.Worker.Run.{Pickup, Turn, pickup_job, process_job}
use bullmq_go.Worker.Stalled.{StalledChecker, check_stalled_jobs}
use bullmq_go.Worker.Heartbeat.{extend_lock}
use bullmq_go.Invariant.Fits.{spares}
use bullmq_go.Invariant.Rules.{IsOwnEmitter}
use bullmq_go.Invariant.Running.{SendsElsewhere}
use bullmq_go.Worker.Start.{LoopState, again, new_loop, loop_pass, finish_job, stop}

-- The calls that change a queue, by whoever makes them, with what the world supplies to each.
pub data Operation (C : Codec) (fl : Float64) : Type 0 where
  picks : Worker → Bytes → Operation C fl
  runs : Worker → Bytes → Turn C fl → Operation C fl
  completes : Worker → Job C.Any → Option C.Any → ℤ → ℤ → Operation C fl
  fails : Worker → Job C.Any → Error → ℤ → ℤ → Operation C fl
  checks : Worker → (Bytes → ℤ) → StalledChecker → Operation C fl
  beats : Worker → Bytes → Bytes → Operation C fl
  adds : Queue → Bytes → List (Bytes × C.Any) → JobOptions → Bytes → ℤ → ℤ → Operation C fl
  pauses : Queue → Operation C fl
  resumes : Queue → Operation C fl
  removes : Queue → Bytes → Operation C fl
  cleans : Queue → ℤ → ℤ → ℤ → Bytes → Operation C fl
  drains : Queue → Operation C fl
  retries : Queue → Bytes → Operation C fl
  logs : LogCodec → LogManager → Bytes → Bytes → ℤ → Operation C fl
  progresses : Bytes → RedisClient → Bytes → ℤ → Operation C fl

module _ (R : Server) (C : Codec) (fl : Float64) where
  unfoldable pub perform : Operation C fl → Action R.Store Unit
  perform (picks w token) = ignore (pickup_job R w token)
  perform (runs w id t) = ignore (process_job R C fl w id t)
  perform (completes w job v now later) = ignore (complete R C w job v now later)
  perform (fails w job e now later) = ignore (fail_job R C w job e now later)
  perform (checks w clock sc) = ignore (check_stalled_jobs R C w clock sc)
  perform (beats w id token) = ignore (extend_lock R w (Keys.lock (keys_of w) id) token)
  perform (adds q name payload given id now later) =
      ignore (add R C q name payload given id now later)
  perform (pauses q) = ignore (pause R C q)
  perform (resumes q) = ignore (resume R C q)
  perform (removes q id) = ignore (remove_job R q id)
  perform (cleans q now age limit job_type) = ignore (clean R q now age limit job_type)
  perform (drains q) = ignore (drain R q)
  perform (retries q id) = ignore (Manage.retry_job R q id)
  perform (logs LC lm id message now) = ignore (add_log R LC lm id message now)
  perform (progresses name client id progress) =
      ignore (update_progress R C name client id progress)

-- A worker of the queue with these keys, made by NewWorker.
pub record WorksOn (kb : KeyBuilder) (w : Worker) : Type 0 where
  pub same_keys : keys_of w ≡ kb
  pub own_events : IsOwnEmitter (keys_of w) w.event_emitter
  pub elsewhere : SendsElsewhere w

-- A client of the queue with these keys, made by NewQueue.
pub record ServesAs (kb : KeyBuilder) (q : Queue) : Type 0 where
  pub same_keys : q.key_builder ≡ kb
  pub own_events : IsOwnEmitter q.key_builder q.event_emitter

-- What a call on the queue must meet: it is on this queue, its ids are job ids and, where a
-- delayed job is to be kept, nobody removes that job or drains the queue.
module _ {C : Codec} {fl : Float64} (kb : KeyBuilder) (kept : Option Bytes) where
  abbrev pub IsAllowed : Operation C fl → Type 0
  IsAllowed (picks w token) = WorksOn kb w
  IsAllowed (runs w id t) = WorksOn kb w × IsJobId id × IsJobId t.uuid
  IsAllowed (completes w job v now later) = WorksOn kb w × IsJobId job.id
  IsAllowed (fails w job e now later) = WorksOn kb w × IsJobId job.id
  IsAllowed (checks w clock sc) = WorksOn kb w
  IsAllowed (beats w id token) = WorksOn kb w × IsJobId id
  IsAllowed (adds q name payload given id now later) = ServesAs kb q × IsJobId id
  IsAllowed (pauses q) = ServesAs kb q
  IsAllowed (resumes q) = ServesAs kb q
  IsAllowed (removes q id) = ServesAs kb q × IsJobId id × (spares kept id ≡ true)
  IsAllowed (cleans q now age limit job_type) = ServesAs kb q
  IsAllowed (drains q) = ServesAs kb q × (kept ≡ none)
  IsAllowed (retries q id) = ServesAs kb q × IsJobId id
  IsAllowed (logs LC lm id message now) =
      (new_key_builder lm.queue_name lm.redis_client ≡ kb) × IsJobId id
  IsAllowed (progresses name client id progress) = (new_key_builder name client ≡ kb) × IsJobId id

-- The time to live of a lock is up.
pub record IsExpiry (R : Server) (lock : Bytes) (s s' : R.Store) : Type 0 where
  pub gone : R.value s' lock ≡ absent
  pub others : (k : Bytes) → k ≢ lock → R.value s' k ≡ R.value s k

module _ (R : Server) (C : Codec) (fl : Float64) (w : Worker) (kept : Option Bytes) where
  pub data Step (l : LoopState R.Store) : LoopState R.Store → Type 0 where
    passes :
        {l' : LoopState R.Store} (token : Bytes) (in_time : Bool) (sleep : ℤ)
        → loop_pass R w token in_time l ≡ again sleep l'
        → Step l l'
    finishes :
        (p : Pickup) (t : Turn C fl) (before after : List Pickup)
        → l.running ≡ before ++ (p ∷ after)
        → IsJobId t.uuid
        → Step l (finish_job R C fl w p t (before ++ after) l)
    stops : Step l (stop l)
    meanwhile :
        (op : Operation C fl)
        → IsAllowed (keys_of w) kept op
        → Step l (record l { store = (perform R C fl op l.store).1 })
    expires :
        (id : Bytes) (s' : R.Store)
        → IsJobId id
        → IsExpiry R (Keys.lock (keys_of w) id) l.store s'
        → Step l (record l { store = s' })

  -- What the worker may come to from its start on a server in state `s`.
  pub data Reach (s : R.Store) : LoopState R.Store → Type 0 where
    begins : Reach s (new_loop s)
    steps : {l l' : LoopState R.Store} → Reach s l → Step l l' → Reach s l'
