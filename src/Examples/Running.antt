-- ===== src/Examples/Running.antt =====
-- Jobs on their way in and through a run.
use bullmq_go.Prelude.{
  refl, [], ◌∷◌, codes, none, ◌≡◌, true, false, bytes_eq, Bytes, arith, ℕ, Bool,
}
use bullmq_go.Prelude.Int.{pos}
use bullmq_go.Redis.Values.{Result, ok, list, text, Value, outcome}
use bullmq_go.Redis.Memory.{memory, memory-Laws, memory-IsHealthy, never, memory_exec}
use bullmq_go.Jobs.Validation.{
  max_job_payload_size, validate_job_options, validate_job_payload_size,
}
use bullmq_go.Redis.Action.{◌>>=◌}
use bullmq_go.Keys
use bullmq_go.Keys.{single}
use bullmq_go.Jobs.{Job, milliseconds}
use bullmq_go.Queue.{Queue, new_queue, new_job, apply_defaults, add, enqueue_job, store_job_hash}
use bullmq_go.Queue.Submit.{IsOwnQueue, IsPlaced, add-places}
use bullmq_go.Worker.{new_worker, keys_of, default_worker_options}
use bullmq_go.Worker.Stalled.{recover_stalled_job}
use bullmq_go.Worker.Stalled.Recover.{recover_stalled_job_requeues}
use bullmq_go.Worker.Heartbeat.{
  HeartbeatManager, extend_lock, new_heartbeat_manager, start_heartbeat, loop_exit, loop_of,
}
use bullmq_go.Worker.Heartbeat.Locks.{extend_lock_own, start_heartbeat_again}
use bullmq_go.Examples.{
  plain_codec, mailer, first_id, second_id, first_id-IsJobId, second_id-IsJobId, kept, letter, busy,
  mail,
}

abbrev pub posts : Queue
posts = new_queue (codes "mail") single

pub posts-IsOwnQueue : IsOwnQueue posts
unfolding new_queue
posts-IsOwnQueue = record { same_events = refl }

abbrev added : Result (Job Bytes) × (Bytes → Value)
added = add (memory never) plain_codec posts (codes "send") [] kept second_id (pos 5) (pos 6) busy

abbrev pub added_job : Job Bytes
added_job = record letter {
  id = second_id;
  timestamp = pos 5;
  attempts_made = pos 0;
  worker_id = [];
  queue_name = [];
  connected = false;
}

add-places_example :
    (added_job
      ≡ new_job
          (memory never)
          plain_codec
          second_id
          (codes "send")
          []
          (apply_defaults kept)
          (pos 5))
    × IsPlaced (memory never) plain_codec posts added_job busy added.1
unfolding add ◌>>=◌ validate_job_options bytes_eq validate_job_payload_size max_job_payload_size
    store_job_hash memory_exec outcome Keys.job new_queue Keys.active keys_of new_worker Keys.wait
    Keys.lock enqueue_job apply_defaults milliseconds
add-places_example =
    add-places (memory-Laws never) plain_codec posts posts-IsOwnQueue (codes "send") [] kept
      second_id (pos 5) (pos 6) second_id-IsJobId busy added_job refl

abbrev recovered : Result Bool × (Bytes → Value)
recovered = recover_stalled_job (memory never) plain_codec mailer first_id (pos 5) busy

recover_stalled_job_requeues_example :
    (recovered.0 ≡ ok true)
    × (recovered.1 (Keys.wait mail) ≡ list (first_id ∷ codes "j3" ∷ second_id ∷ []))
    × (recovered.1 (Keys.failed mail) ≡ busy (Keys.failed mail))
    × (recovered.1 (Keys.completed mail) ≡ busy (Keys.completed mail))
unfolding bytes_eq Keys.job keys_of new_worker Keys.active Keys.wait default_worker_options
recover_stalled_job_requeues_example =
    recover_stalled_job_requeues (memory-Laws never) memory-IsHealthy plain_codec mailer first_id
      (pos 5) first_id-IsJobId busy
      ((codes "name", codes "send") ∷ (codes "attemptsMade", codes "1") ∷ [])
      (codes "j3" ∷ second_id ∷ []) refl refl (omega arith)

abbrev extended : Result ℕ × (Bytes → Value)
extended = extend_lock (memory never) mailer (Keys.lock mail first_id) (codes "t1") busy

extend_lock_own_example :
    (extended.0 ≡ ok 1) × (extended.1 (Keys.lock mail first_id) ≡ text (codes "t1"))
unfolding bytes_eq Keys.lock keys_of new_worker Keys.active Keys.wait Keys.job
    default_worker_options
extend_lock_own_example =
    extend_lock_own (memory-Laws never) memory-IsHealthy mailer (Keys.lock mail first_id)
      (codes "t1") busy 30_000_000_000 refl refl

abbrev one_loop : HeartbeatManager
one_loop = start_heartbeat new_heartbeat_manager first_id

start_heartbeat_again_example :
    (loop_of first_id (loop_exit (start_heartbeat one_loop first_id) first_id).active_locks ≡ none)
    × ((loop_exit (start_heartbeat one_loop first_id) first_id).cancelled ≡ 1 ∷ 0 ∷ [])
unfolding loop_of start_heartbeat bytes_eq new_heartbeat_manager
start_heartbeat_again_example = start_heartbeat_again one_loop first_id 0 refl
