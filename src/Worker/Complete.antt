-- ===== src/Worker/Complete.antt =====
-- pkg/bullmq/completer.go. `now` is the time of the job's end and `later` that of the event, in
-- milliseconds.
pub mod Moves
pub mod Effect
use bullmq_go.Prelude.{Bytes, codes, ◌++◌, [], ◌∷◌, Option, none, some, inl, inr, if◌then◌else◌}
use bullmq_go.Prelude.Int.{ℤ}
use bullmq_go.Errors.{Error, error_string}
use bullmq_go.Redis.{Server}
use bullmq_go.Redis.Values.{lrem, hset, del, zadd}
use bullmq_go.Redis.Action.{◌>>◌, Action, pure, ignore, explain}
use bullmq_go.Keys
use bullmq_go.Keys.{KeyBuilder}
use bullmq_go.Jobs.{Job, Codec}
use bullmq_go.Events.{emit_completed, emit_failed}
use bullmq_go.Worker.{Worker, keys_of}

module _ (R : Server) (C : Codec) where
  open R use {Store, exec}
  open C use {Any, format_int, marshal_any}

  unfoldable pub return_value_json : Any → Bytes
  return_value_json v = elim (marshal_any v) [
    | inl reason ↦ codes "{\"error\":\"failed to marshal return value: " ++ (reason ++ codes "\"}")
    | inr text ↦ text
  ]

  -- Delete the job's three keys.
  unfoldable pub delete_job : KeyBuilder → Bytes → Action Store Unit
  delete_job kb id = do
    ignore (exec (del (Keys.job kb id)))
    ignore (exec (del (Keys.lock kb id)))
    ignore (exec (del (Keys.logs kb id)))

  unfoldable pub store_return_value : KeyBuilder → Bytes → Option Any → ℤ → Action Store Unit
  unfolding return_value_json
  store_return_value kb id none now = pure tt
  store_return_value kb id (some v) now = ignore (
      exec (
        hset (Keys.job kb id)
          ((codes "returnvalue", return_value_json v) ∷ (codes "finishedOn", format_int now) ∷ [])))

  unfoldable pub complete : Worker → Job Any → Option Any → ℤ → ℤ → Action Store Unit
  unfolding store_return_value delete_job
  complete w job return_value now later = do
    let kb = keys_of w
    explain (codes "failed to remove from active") (exec (lrem (Keys.active kb) 1 job.id))
    store_return_value kb job.id return_value now
    if job.opts.remove_on_complete
        then delete_job kb job.id
        else ignore (exec (zadd (Keys.completed kb) now job.id))
    ignore (exec (del (Keys.lock kb job.id)))
    ignore (
        emit_completed R C w.event_emitter
          (record job { return_value = return_value; finished_on = now }) return_value later)

  -- The Completer's own `Fail`.
  unfoldable pub fail_job : Worker → Job Any → Error → ℤ → ℤ → Action Store Unit
  unfolding delete_job
  fail_job w job e now later = do
    let kb = keys_of w
    ignore (exec (lrem (Keys.active kb) 1 job.id))
    ignore (
        exec (
          hset (Keys.job kb job.id)
            ((codes "failedReason", error_string e) ∷ (codes "finishedOn", format_int now) ∷ [])))
    if job.opts.remove_on_fail
        then delete_job kb job.id
        else ignore (exec (zadd (Keys.failed kb) now job.id))
    ignore (exec (del (Keys.lock kb job.id)))
    ignore (
        emit_failed R C w.event_emitter
          (record job { failed_reason = error_string e; finished_on = now }) e later)
