-- ===== src/Worker/Start.antt =====
-- pkg/bullmq/worker_impl.go and worker.go: Start, Stop and the loop that picks jobs up. The job
-- goroutines are the list of what was picked up and has not ended.
use bullmq_go.Prelude.{
  ℕ, ◌+◌, ◌-◌, ltb, Bytes, codes, Bool, true, false, List, [], ◌∷◌, if◌then◌else◌,
}
use bullmq_go.Prelude.Int.{ℤ, pos, pos_part}
use bullmq_go.Errors.{plain, is_redis_nil}
use bullmq_go.Redis.{Server}
use bullmq_go.Redis.Values.{Result, ok, err}
use bullmq_go.Keys
use bullmq_go.Keys.{is_redis_cluster}
use bullmq_go.Cluster.{validate_hash_tags}
use bullmq_go.Jobs.{Codec}
use bullmq_go.Retry.{Float64}
use bullmq_go.Worker.{Worker, keys_of}
use bullmq_go.Worker.Run.{Pickup, Turn, pickup_job, process_job}

-- What the worker logs about the slots of its keys.
pub data ClusterReport : Type 0 where
  no_report : ClusterReport
  keys_apart : ClusterReport
  keys_validated : ℕ → ClusterReport

abbrev pub sample_keys : Worker → List Bytes
sample_keys w =
    let kb = keys_of w in
    Keys.wait kb
    ∷ Keys.active kb
    ∷ Keys.prioritized kb
    ∷ Keys.meta kb
    ∷ Keys.job kb (codes "sample-id")
    ∷ Keys.lock kb (codes "sample-id")
    ∷ []

unfoldable pub validate_cluster_compatibility : Worker → ClusterReport
unfolding is_redis_cluster
validate_cluster_compatibility w =
    let (all_same, slot, _) = validate_hash_tags (sample_keys w) in
    if all_same
    then if is_redis_cluster w.redis_client then keys_validated slot else no_report
    else keys_apart

-- `semaphore` counts the values in the channel; `is_stopping` stands for a cancelled context or a
-- closed shutdownChan.
pub record LoopState (Store : Type 0) : Type 0 where
  pub store : Store
  pub semaphore : ℕ
  pub running : List Pickup
  pub is_stopping : Bool

-- make(chan struct{}, opts.Concurrency), which panics below 0: 0 stands in there
abbrev pub capacity : Worker → ℕ
capacity w = pos_part w.opts.concurrency

unfoldable pub new_loop : {Store : Type 0} → Store → LoopState Store
new_loop s = record { store = s; semaphore = 0; running = []; is_stopping = false }

-- One pass of the loop returns, or it sleeps for a duration and goes round again.
pub data Pass (Store : Type 0) : Type 0 where
  returned : Result Unit → Pass Store
  again : ℤ → LoopState Store → Pass Store

-- `in_time` tells whether the running jobs end before opts.ShutdownTimeout.
unfoldable pub graceful_shutdown : Bool → Result Unit
graceful_shutdown in_time =
    if in_time then ok tt else err (plain (codes "shutdown timeout exceeded"))

-- Stop closes shutdownChan; its wait for the running jobs changes nothing.
unfoldable pub stop : {Store : Type 0} → LoopState Store → LoopState Store
stop l = record l { is_stopping = true }

module _ (R : Server) where
  open R use {Store}

  -- The pass where the semaphore has taken a value, by what pickupJob returned.
  abbrev pub after_pickup : LoopState Store → Result Pickup × Store → Pass Store
  after_pickup l (ok p, s) =
      again (pos 0) (record l { store = s; semaphore = l.semaphore + 1; running = p ∷ l.running })
  after_pickup l (err e, s) =
      again (if is_redis_nil e then pos 100000000 else pos 1000000000) (record l { store = s })

  unfoldable pub loop_pass : Worker → Bytes → Bool → LoopState Store → Pass Store
  unfolding graceful_shutdown
  loop_pass w token in_time l =
      if l.is_stopping
      then returned (graceful_shutdown in_time)
      else if ltb l.semaphore (capacity w)
      then after_pickup l (pickup_job R w token l.store)
      else again (pos 100000000) l

  -- Start: an error, or the loop's first state and the report on the keys.
  unfoldable pub start : Bool → Worker → Store → Result (ClusterReport × LoopState Store)
  unfolding new_loop validate_cluster_compatibility
  start has_processor w s =
      if has_processor
      then ok (validate_cluster_compatibility w, new_loop s)
      else err (plain (codes "job processor not registered, call Process() first"))

module _ (R : Server) (C : Codec) (fl : Float64) where
  -- The goroutine of a job ends: whatever its run returns, the semaphore gives a value back.
  unfoldable pub finish_job :
      Worker → Pickup → Turn C fl → List Pickup → LoopState R.Store → LoopState R.Store
  finish_job w p t others l = record l {
    store = (process_job R C fl w p.job_id t l.store).1;
    semaphore = l.semaphore - 1;
    running = others;
  }
