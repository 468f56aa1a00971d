-- ===== src/System/Operations.antt =====
-- Every call that changes a queue keeps the queue's data consistent.
use bullmq_go.Prelude.{Bytes, ◌≡◌, sym, subst, Option}
use bullmq_go.Redis.{Server, Laws}
use bullmq_go.Redis.Action.{Action, ignore}
use bullmq_go.Keys.{KeyBuilder}
use bullmq_go.Jobs.{Codec}
use bullmq_go.Retry.{Float64}
use bullmq_go.Queue.Manage.{drain}
use bullmq_go.Invariant.Keeps.{Keeps, Consistent, Keeps-ignore}
use bullmq_go.Invariant.Workers.{Keeps-complete, Keeps-fail_job}
use bullmq_go.Invariant.Pickups.{Keeps-pickup_job}
use bullmq_go.Invariant.Checks.{Keeps-check_stalled_jobs, Keeps-extend_lock}
use bullmq_go.Invariant.Queues.{Keeps-add, Keeps-pause, Keeps-resume, Keeps-remove_job, Keeps-clean}
use bullmq_go.Invariant.Draining.{Keeps-drain, Keeps-retry_job}
use bullmq_go.Invariant.Running.{Keeps-process_job}
use bullmq_go.Invariant.Logging.{Keeps-add_log, Keeps-update_progress}
use bullmq_go.System.{
  Operation, picks, runs, completes, fails, checks, beats, adds, pauses, resumes, removes, cleans,
  drains, retries, logs, progresses, perform, IsAllowed,
}

module _ {R : Server} {A : Type 0} {m : Action R.Store A} {kept : Option Bytes} where
  -- The call is on keys that are the queue's, and its result is dropped.
  on_queue :
      (own kb : KeyBuilder)
      → own ≡ kb
      → Keeps (Consistent R own kept) m
      → Keeps (Consistent R kb kept) (ignore m)
  on_queue own kb e k = Keeps-ignore m (subst (λ other. Keeps (Consistent R other kept) m) e k)

module _ {R : Server} (L : Laws R) (C : Codec) (fl : Float64) (kb : KeyBuilder)
    (kept : Option Bytes) where
  pub Keeps-perform :
      (op : Operation C fl)
      → IsAllowed kb kept op
      → Keeps (Consistent R kb kept) (perform R C fl op)
  unfolding perform
  Keeps-perform (picks w token) o = on_queue _ kb o.same_keys (Keeps-pickup_job L kept w token)
  Keeps-perform (runs w id t) (o, i, u) =
      on_queue _ kb o.same_keys (Keeps-process_job L C kept w o.own_events o.elsewhere fl id t i u)
  Keeps-perform (completes w job v now later) (o, i) =
      on_queue _ kb o.same_keys (Keeps-complete L C kept w o.own_events job v now later i)
  Keeps-perform (fails w job e now later) (o, i) =
      on_queue _ kb o.same_keys (Keeps-fail_job L C kept w o.own_events job e now later i)
  Keeps-perform (checks w clock sc) o =
      on_queue _ kb o.same_keys (Keeps-check_stalled_jobs L C kept w clock sc)
  Keeps-perform (beats w id token) (o, i) =
      on_queue _ kb o.same_keys (Keeps-extend_lock L C kept w id token i)
  Keeps-perform (adds q name payload given id now later) (o, i) =
      on_queue _ kb o.same_keys
        (Keeps-add L C kept q o.own_events name payload given id now later i)
  Keeps-perform (pauses q) o = on_queue _ kb o.same_keys (Keeps-pause L C kept q o.own_events)
  Keeps-perform (resumes q) o = on_queue _ kb o.same_keys (Keeps-resume L C kept q o.own_events)
  Keeps-perform (removes q id) (o, i, s) =
      on_queue _ kb o.same_keys (Keeps-remove_job L C kept q o.own_events id i s)
  Keeps-perform (cleans q now age limit job_type) o =
      on_queue _ kb o.same_keys (Keeps-clean L C kept q o.own_events now age limit job_type)
  Keeps-perform (drains q) (o, e) = on_queue _ kb o.same_keys (
      subst (λ k. Keeps (Consistent R q.key_builder k) (drain R q)) (sym e)
        (Keeps-drain L C q o.own_events))
  Keeps-perform (retries q id) (o, i) =
      on_queue _ kb o.same_keys (Keeps-retry_job L C kept q o.own_events id i)
  Keeps-perform (logs LC lm id message now) (e, i) =
      on_queue _ kb e (Keeps-add_log L kept LC lm id message now i)
  Keeps-perform (progresses name client id progress) (e, i) =
      on_queue _ kb e (Keeps-update_progress L kept C name client id progress i)
