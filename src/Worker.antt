-- ===== src/Worker.antt =====
-- pkg/bullmq/worker.go and the state that the worker's parts share.
pub mod Complete
pub mod Run
pub mod Stalled
pub mod Heartbeat
pub mod Start
pub mod Slots
pub mod Identity
use bullmq_go.Prelude.{Bytes, codes, Bool, true, false, Option, none, some, if◌then◌else◌}
use bullmq_go.Prelude.Int.{ℤ, pos}
use bullmq_go.Keys.{RedisClient, KeyBuilder, new_key_builder}
use bullmq_go.Errors.{is_empty}
use bullmq_go.Jobs.{JobOptions, exponential, milliseconds}
use bullmq_go.Queue.{Queue, new_queue, is_zero}
use bullmq_go.Events.{EventEmitter, new_event_emitter}

-- The OnError callback is left out: it is the application's.
pub record ResultsQueueConfig : Type 0 where
  pub queue_name : Bytes
  pub options : JobOptions

unfoldable pub default_results_queue_config : ResultsQueueConfig
default_results_queue_config = record {
  queue_name = codes "";
  options = record {
    priority = pos 0;
    delay = pos 0;
    attempts = pos 5;
    backoff = record { type = exponential; delay = pos 1000 };
    remove_on_complete = true;
    remove_on_fail = false;
  };
}

pub record WorkerOptions : Type 0 where
  pub concurrency : ℤ
  pub lock_duration : ℤ
  pub heartbeat_interval : ℤ
  pub stalled_check_interval : ℤ
  pub max_attempts : ℤ
  pub backoff_delay : ℤ
  pub max_backoff_delay : ℤ
  pub worker_id : Bytes
  pub max_reconnect_attempts : ℤ
  pub events_max_len : ℤ
  pub shutdown_timeout : ℤ
  pub results_queue : Option ResultsQueueConfig

unfoldable pub default_worker_options : WorkerOptions
default_worker_options = record {
  concurrency = pos 1;
  lock_duration = pos 30_000_000_000;
  heartbeat_interval = pos 15_000_000_000;
  stalled_check_interval = pos 30_000_000_000;
  max_attempts = pos 3;
  backoff_delay = pos 1_000_000_000;
  max_backoff_delay = pos 3_600_000_000_000;
  worker_id = codes "";
  max_reconnect_attempts = pos 0;
  events_max_len = pos 10000;
  shutdown_timeout = pos 30_000_000_000;
  results_queue = none;
}

pub record Worker : Type 0 where
  pub queue_name : Bytes
  pub redis_client : RedisClient
  pub opts : WorkerOptions
  pub event_emitter : EventEmitter
  pub is_connected : Bool
  pub results_queue : Option Queue
  pub results_queue_config : Option ResultsQueueConfig

-- `generated` is what generateWorkerID returns.
unfoldable pub new_worker : Bytes → RedisClient → WorkerOptions → Bytes → Worker
unfolding is_empty new_event_emitter new_queue
new_worker name client given generated =
    let named =
      if is_empty given.worker_id then record given { worker_id = generated } else given in
    let opts =
      if is_zero named.events_max_len then record named { events_max_len = pos 10000 } else named in
    record {
      queue_name = name;
      redis_client = client;
      opts = opts;
      event_emitter = new_event_emitter name client opts.events_max_len;
      is_connected = true;
      results_queue = elim opts.results_queue [
        | none ↦ none
        | some cfg ↦ some (new_queue cfg.queue_name client)
      ];
      results_queue_config = opts.results_queue;
    }

-- ProcessWithResults, for the configuration that it is given or none; the processor is elsewhere.
unfoldable pub process_with_results : Worker → Bytes → Option ResultsQueueConfig → Worker
unfolding new_queue
process_with_results w name config = record w {
  results_queue = some (new_queue name w.redis_client);
  results_queue_config = some (elim config [
    | none ↦ record default_results_queue_config { queue_name = name }
    | some cfg ↦ record cfg { queue_name = name }
  ]);
}

-- NewKeyBuilder for the worker's queue.
unfoldable pub keys_of : Worker → KeyBuilder
unfolding new_key_builder
keys_of w = new_key_builder w.queue_name w.redis_client

unfoldable pub to_job_options : WorkerOptions → JobOptions
unfolding milliseconds
to_job_options opts = record {
  priority = pos 0;
  delay = pos 0;
  attempts = opts.max_attempts;
  backoff = record { type = exponential; delay = milliseconds opts.backoff_delay };
  remove_on_complete = false;
  remove_on_fail = false;
}
