-- ===== src/Invariant/Workers.antt =====
-- What a worker does to its queue keeps the queue's data consistent.
use bullmq_go.Prelude.{Bytes, Option, none, some}
use bullmq_go.Prelude.Int.{ℤ}
use bullmq_go.Errors.{Error}
use bullmq_go.Redis.{Server, Laws}
use bullmq_go.Keys.Distinct.{IsJobId}
use bullmq_go.Jobs.{Job, Codec}
use bullmq_go.Events.{emit_completed, emit_failed}
use bullmq_go.Worker.{Worker, keys_of}
use bullmq_go.Worker.Complete.{complete, fail_job, store_return_value, delete_job}
use bullmq_go.Worker.Run.{move_to_failed, retry_job, handle_job_failure}
use bullmq_go.Queue.Manage.{unix_milli}
use bullmq_go.Retry.{Float64}
use bullmq_go.Invariant.Fits.{IsJobId-is_job_id}
use bullmq_go.Invariant.Keeps.{Keeps, Consistent, keeps_rules, Keeps-if}
use bullmq_go.Invariant.Rules.{key_rules, IsOwnEmitter, Keeps-emit}

module _ {R : Server} (L : Laws R) (C : Codec) (kept : Option Bytes) (w : Worker)
    (o : IsOwnEmitter (keys_of w) w.event_emitter) where
  Keeps-delete_job :
      (id : Bytes)
      → IsJobId id
      → Keeps (Consistent R (keys_of w) kept) (delete_job R C (keys_of w) id)
  unfolding delete_job
  Keeps-delete_job id i = search (keeps_rules, key_rules) depth 16

  Keeps-store_return_value :
      (id : Bytes) (v : Option C.Any) (now : ℤ)
      → IsJobId id
      → Keeps (Consistent R (keys_of w) kept) (store_return_value R C (keys_of w) id v now)
  unfolding store_return_value
  Keeps-store_return_value id none now i = search (keeps_rules, key_rules)
  Keeps-store_return_value id (some v) now i = search (keeps_rules, key_rules)

  pub Keeps-complete :
      (job : Job C.Any) (v : Option C.Any) (now later : ℤ)
      → IsJobId job.id
      → Keeps (Consistent R (keys_of w) kept) (complete R C w job v now later)
  unfolding complete emit_completed
  Keeps-complete job v now later i =
      search
        (
          keeps_rules, key_rules, Keeps-store_return_value, Keeps-delete_job, Keeps-emit,
          IsJobId-is_job_id,
        )
        depth 16

  pub Keeps-fail_job :
      (job : Job C.Any) (e : Error) (now later : ℤ)
      → IsJobId job.id
      → Keeps (Consistent R (keys_of w) kept) (fail_job R C w job e now later)
  unfolding fail_job emit_failed
  Keeps-fail_job job e now later i =
      search (keeps_rules, key_rules, Keeps-delete_job, Keeps-emit, IsJobId-is_job_id) depth 16

  Keeps-move_to_failed :
      (job : Job C.Any) (e : Error) (now later : ℤ)
      → IsJobId job.id
      → Keeps (Consistent R (keys_of w) kept) (move_to_failed R C w job e now later)
  unfolding move_to_failed emit_failed
  Keeps-move_to_failed job e now later i =
      search (keeps_rules, key_rules, Keeps-emit, IsJobId-is_job_id) depth 16

  module _ (fl : Float64) where
    Keeps-retry_job :
        (job : Job C.Any) (random : fl.F) (now : ℤ)
        → IsJobId job.id
        → Keeps (Consistent R (keys_of w) kept) (retry_job R C fl w job random now)
    unfolding retry_job
    Keeps-retry_job job random now i = search (keeps_rules, key_rules, IsJobId-is_job_id) depth 16

    pub Keeps-handle_job_failure :
        (job : Job C.Any) (e : Error) (random : fl.F) (now later : ℤ)
        → IsJobId job.id
        → Keeps (Consistent R (keys_of w) kept) (handle_job_failure R C fl w job e random now later)
    unfolding handle_job_failure
    Keeps-handle_job_failure job e random now later i =
        Keeps-if _ _ _ (Keeps-move_to_failed job e (unix_milli now) later i)
          (Keeps-retry_job job random now i)
