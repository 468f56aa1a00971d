-- ===== src/System/Delayed.antt =====
-- A delayed job under the steps of a system: no call of the package moves it on.
use bullmq_go.Prelude.{Bytes, ◌≡◌, true, some, arith}
use bullmq_go.Redis.{Server, Laws}
use bullmq_go.Redis.Values.{Value, absent, zset, members}
use bullmq_go.Keys
use bullmq_go.Keys.Distinct.{delayed_name}
use bullmq_go.Jobs.{Codec}
use bullmq_go.Retry.{Float64}
use bullmq_go.Worker.{Worker, keys_of}
use bullmq_go.Worker.Start.{LoopState}
use bullmq_go.Invariant.Fits.{z_has, fits, scores}
use bullmq_go.Invariant.Keeps.{Consistent}
use bullmq_go.System.{WorksOn, Reach}
use bullmq_go.System.Sound.{Reach-IsSound}

z_has-fits :
    (id : Bytes) (v : Value) → fits (scores (some id)) v ≡ true → z_has id (members v) ≡ true
z_has-fits id (zset zs) h = ground arith
z_has-fits id absent h = cc
z_has-fits id v h = cc

-- For workers whose results queues, where they have one, share no key with this queue: from a server
-- where the queue's data is consistent and a job is in the delayed set, whatever the steps are, the
-- job is still in the delayed set: no worker, stalled checker, heartbeat, expiry of a lock or client
-- takes it out, as long as no client removes that job or drains the queue.
pub Reach-delayed :
    {R : Server} (L : Laws R) (C : Codec) (fl : Float64) (w : Worker) (id : Bytes) (s : R.Store)
    (l : LoopState R.Store)
    → WorksOn (keys_of w) w
    → Consistent R (keys_of w) (some id) s
    → Reach R C fl w (some id) s l
    → z_has id (members (R.value l.store (Keys.delayed (keys_of w)))) ≡ true
Reach-delayed L C fl w id s l o c r =
    z_has-fits id _ ((Reach-IsSound L C fl w (some id) o s l c r).consistent.at delayed_name tt)
