-- ===== src/Examples/Logging.antt =====
-- The log of a job, and a check of the stalled jobs that finds none.
use bullmq_go.Prelude.{
  refl, true, [], ◌∷◌, codes, ◌≡◌, Bytes, bytes_eq, arith, inl, inr, length, if◌then◌else◌,
}
use bullmq_go.Prelude.Int.{ℤ, pos}
use bullmq_go.Redis.Values.{Value, list, Result, ok, items, effect, outcome, range}
use bullmq_go.Redis.Memory.{memory, memory-Laws, memory-IsHealthy, never, memory_exec}
use bullmq_go.Redis.Action.{◌>>=◌}
use bullmq_go.Keys
use bullmq_go.Keys.{single}
use bullmq_go.Logs.{LogCodec, LogManager, add_log}
use bullmq_go.Logs.Bounds.{add_log-newest}
use bullmq_go.Worker.{new_worker, keys_of}
use bullmq_go.Worker.Stalled.{StalledChecker, check_stalled_jobs}
use bullmq_go.Worker.Stalled.Locked.{check_stalled_jobs_locked}
use bullmq_go.Examples.{plain_codec, mailer, first_id, busy, mail}

abbrev messages : LogCodec
messages = record {
  marshal_entry = λ e. inr e.message;
  unmarshal_entry = λ text. inl (codes "not an entry");
}

-- Two entries at most.
abbrev short_log : LogManager
short_log = record { queue_name = codes "mail"; redis_client = single; max_logs = 2 }

abbrev noted : Bytes → Value
noted k =
    if bytes_eq k (Keys.logs mail first_id) then list (codes "one" ∷ codes "two" ∷ []) else busy k

abbrev after : Result ℤ × (Bytes → Value)
after = add_log (memory never) messages short_log first_id (codes "three") (pos 5) noted

add_log-newest_example :
    (after.0 ≡ ok (pos 2))
    × (length (items (after.1 (Keys.logs mail first_id))) ≡ 2)
    × (items (after.1 (Keys.logs mail first_id)) ≡ codes "two" ∷ codes "three" ∷ [])
unfolding bytes_eq Keys.job Keys.new_key_builder Keys.logs keys_of new_worker Keys.active Keys.wait
    add_log ◌>>=◌ memory_exec outcome effect range
add_log-newest_example =
    add_log-newest (memory never) messages short_log first_id (codes "three") (codes "three")
      (pos 5) (memory-Laws never) memory-IsHealthy noted (codes "one" ∷ codes "two" ∷ [])
      (omega arith) refl refl refl

abbrev started : StalledChecker
started = record { is_running = true; check_count = 3; recovered_count = 1 }

abbrev checked : Result StalledChecker × (Bytes → Value)
checked = check_stalled_jobs (memory never) plain_codec mailer (λ id. pos 9) started busy

check_stalled_jobs_locked_example :
    (checked.0 ≡ ok (record { is_running = true; check_count = 4; recovered_count = 1 }))
    × ((k : Bytes) → checked.1 k ≡ busy k)
unfolding bytes_eq Keys.active keys_of new_worker Keys.lock Keys.wait Keys.job
check_stalled_jobs_locked_example =
    check_stalled_jobs_locked (memory-Laws never) memory-IsHealthy plain_codec mailer (λ id. pos 9)
      started busy (first_id ∷ []) refl (refl, tt)
