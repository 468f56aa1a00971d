-- ===== src/Invariant/Rules.antt =====
-- One rule for each key of a queue, and for the events of a queue's emitter.
use bullmq_go.Prelude.{Bytes, ◌≡◌, refl, true, Option, none}
use bullmq_go.Redis.{Server, Laws}
use bullmq_go.Redis.Values.{Command, key, xadd}
use bullmq_go.Keys
use bullmq_go.Keys.{KeyBuilder, new_key_builder}
use bullmq_go.Keys.Distinct.{
  wait_name, prioritized_name, delayed_name, active_name, completed_name, failed_name, events_name,
  meta_name, job_name, lock_name, logs_name, IsJobId,
}
use bullmq_go.Jobs.{Codec}
use bullmq_go.Events.{EventEmitter, Event, emit}
use bullmq_go.Invariant.Fits.{allowed, ids, scores, hashes, token, lines, log_stream}
use bullmq_go.Invariant.Keeps.{Keeps, Consistent, Keeps-exec}

module _ {R : Server} (L : Laws R) (kb : KeyBuilder) (kept : Option Bytes) (c : Command) where
  pub Keeps-wait :
      key c ≡ Keys.wait kb → allowed ids c ≡ true → Keeps (Consistent R kb kept) (R.exec c)
  Keeps-wait e a = Keeps-exec L kb kept wait_name c tt e a

  pub Keeps-active :
      key c ≡ Keys.active kb → allowed ids c ≡ true → Keeps (Consistent R kb kept) (R.exec c)
  Keeps-active e a = Keeps-exec L kb kept active_name c tt e a

  pub Keeps-prioritized :
      key c ≡ Keys.prioritized kb
      → allowed (scores none) c ≡ true
      → Keeps (Consistent R kb kept) (R.exec c)
  Keeps-prioritized e a = Keeps-exec L kb kept prioritized_name c tt e a

  pub Keeps-delayed :
      key c ≡ Keys.delayed kb
      → allowed (scores kept) c ≡ true
      → Keeps (Consistent R kb kept) (R.exec c)
  Keeps-delayed e a = Keeps-exec L kb kept delayed_name c tt e a

  pub Keeps-completed :
      key c ≡ Keys.completed kb
      → allowed (scores none) c ≡ true
      → Keeps (Consistent R kb kept) (R.exec c)
  Keeps-completed e a = Keeps-exec L kb kept completed_name c tt e a

  pub Keeps-failed :
      key c ≡ Keys.failed kb
      → allowed (scores none) c ≡ true
      → Keeps (Consistent R kb kept) (R.exec c)
  Keeps-failed e a = Keeps-exec L kb kept failed_name c tt e a

  pub Keeps-events :
      key c ≡ Keys.events kb → allowed log_stream c ≡ true → Keeps (Consistent R kb kept) (R.exec c)
  Keeps-events e a = Keeps-exec L kb kept events_name c tt e a

  pub Keeps-meta :
      key c ≡ Keys.meta kb → allowed hashes c ≡ true → Keeps (Consistent R kb kept) (R.exec c)
  Keeps-meta e a = Keeps-exec L kb kept meta_name c tt e a

  module _ (id : Bytes) where
    pub Keeps-job :
        key c ≡ Keys.job kb id
        → allowed hashes c ≡ true
        → IsJobId id
        → Keeps (Consistent R kb kept) (R.exec c)
    Keeps-job e a i = Keeps-exec L kb kept (job_name id) c i e a

    pub Keeps-lock :
        key c ≡ Keys.lock kb id
        → allowed token c ≡ true
        → IsJobId id
        → Keeps (Consistent R kb kept) (R.exec c)
    Keeps-lock e a i = Keeps-exec L kb kept (lock_name id) c i e a

    pub Keeps-logs :
        key c ≡ Keys.logs kb id
        → allowed lines c ≡ true
        → IsJobId id
        → Keeps (Consistent R kb kept) (R.exec c)
    Keeps-logs e a i = Keeps-exec L kb kept (logs_name id) c i e a

pub ruleset key_rules = (
  Keeps-wait, Keeps-active, Keeps-prioritized, Keeps-delayed, Keeps-completed, Keeps-failed,
  Keeps-events, Keeps-meta, Keeps-job, Keeps-lock, Keeps-logs,
)

-- The emitter writes to the queue's own stream: NewQueue and NewWorker make it so.
pub record IsOwnEmitter (kb : KeyBuilder) (ee : EventEmitter) : Type 0 where
  pub same_events : Keys.events (new_key_builder ee.queue_name ee.redis_client) ≡ Keys.events kb

pub Keeps-emit :
    {R : Server} (L : Laws R) (C : Codec) (kb : KeyBuilder) (kept : Option Bytes)
    (ee : EventEmitter) (e : Event)
    → IsOwnEmitter kb ee
    → Keeps (Consistent R kb kept) (emit R C ee e)
unfolding emit
Keeps-emit L C kb kept ee e o = Keeps-events L kb kept (xadd _ ee.max_len _) o.same_events refl
