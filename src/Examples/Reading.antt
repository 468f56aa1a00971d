-- ===== src/Examples/Reading.antt =====
-- A job that is added and then read by a worker.
use bullmq_go.Prelude.{
  refl, true, [], ◌∷◌, codes, none, some, ◌≡◌, inl, inr, arith, ◌∷◌, Bytes, bytes_eq, Option,
}
use bullmq_go.Prelude.Int.{ℤ, pos, negsuc}
use bullmq_go.Redis.Values.{Result, Value, ok, absent, outcome, h_get, z_place, z_remove}
use bullmq_go.Redis.Memory.{memory, memory-Laws, memory-IsHealthy, never, memory_exec}
use bullmq_go.Redis.Action.{◌>>=◌}
use bullmq_go.Jobs.Validation.{
  max_job_payload_size, validate_job_options, validate_job_payload_size,
}
use bullmq_go.Keys
use bullmq_go.Jobs.{Job, Codec, milliseconds}
use bullmq_go.Keys.{single}
use bullmq_go.Keys.Distinct.{KeyName, wait_name}
use bullmq_go.Invariant.Fits.{fits, shape}
use bullmq_go.Invariant.Keeps.{Consistent}
use bullmq_go.Board.{view, took}
use bullmq_go.Board.Popping.{picked}
use bullmq_go.Board.Delivery.{process_job-pickup_job-add}
use bullmq_go.Examples.Steps.{mailer-WorksOn}
use bullmq_go.Worker.Run.{get_job_data, Pickup, Turn, pickup_job, process_job}
use bullmq_go.Queue.{add, apply_defaults, enqueue_job, new_queue, store_job_hash}
use bullmq_go.Worker.{keys_of, default_worker_options, new_worker}
use bullmq_go.Worker.Run.Reading.{ReadsBack, get_job_data-add}
use bullmq_go.Examples.{
  plain_codec, tenths, mailer, mail, first_id, first_id-IsJobId, second_id, second_id-IsJobId, kept,
  busy,
}
use bullmq_go.Examples.Running.{posts, posts-IsOwnQueue, added_job}

abbrev write_int : ℤ → Bytes
write_int (pos n) = n ∷ []
write_int (negsuc n) = 0 ∷ n ∷ []

abbrev read_int : Bytes → Option ℤ
read_int [] = none
read_int (n ∷ []) = some (pos n)
read_int (c ∷ n ∷ rest) = some (negsuc n)

-- Numbers and the example's options read back.
abbrev faithful_codec : Codec
faithful_codec = record plain_codec {
  format_int = write_int;
  scan_int = read_int;
  unmarshal_opts = λ t. inr kept;
}

read-write_int : (n : ℤ) → read_int (write_int n) ≡ some n
read-write_int (pos n) = refl
read-write_int (negsuc n) = refl

kept-ReadsBack : ReadsBack faithful_codec [] (apply_defaults kept) (codes "{}") (codes "{}")
unfolding apply_defaults
kept-ReadsBack = record {
  written = refl;
  written_opts = refl;
  read = refl;
  read_opts = refl;
  some_data = refl;
  some_settings = refl;
  scanned = read-write_int;
}

get_job_data-add_example :
    (get_job_data
      (memory never)
      faithful_codec
      mailer
      second_id
      (add
        (memory never)
        faithful_codec
        posts
        (codes "send")
        []
        kept
        second_id
        (pos 5)
        (pos 6)
        busy).1).0
    ≡ ok (record added_job { queue_name = codes "mail"; connected = true })
unfolding new_queue keys_of new_worker bytes_eq Keys.job Keys.active Keys.wait Keys.lock add ◌>>=◌
    validate_job_options validate_job_payload_size max_job_payload_size store_job_hash memory_exec
    outcome enqueue_job milliseconds apply_defaults default_worker_options
get_job_data-add_example =
    get_job_data-add (memory-Laws never) memory-IsHealthy faithful_codec posts mailer
      posts-IsOwnQueue refl (codes "send") [] kept second_id (pos 5) (pos 6) (codes "{}")
      (codes "{}") second_id-IsJobId kept-ReadsBack busy added_job refl refl

abbrev pub nothing_yet : Bytes → Value
nothing_yet k = absent

pub nothing_yet-Consistent : Consistent (memory never) mail none nothing_yet
nothing_yet-Consistent = record { at = λ n v. fits-absent n }
  where
    fits-absent : (n : KeyName) → fits (shape none n) absent ≡ true
    fits-absent wait_name = refl
    fits-absent n = refl

abbrev quick_turn : Turn faithful_codec tenths
quick_turn = record {
  processor = λ j. inl (some (codes "sent"));
  nil_value = codes "null";
  active_time = pos 7;
  end_time = pos 9_000_000;
  end_time_ms = pos 9;
  event_time = pos 9;
  unix = pos 0;
  process_time = pos 2;
  uuid = first_id;
  random = 0;
}

abbrev sent : Result (Job Bytes) × (Bytes → Value)
sent =
    add (memory never) faithful_codec (new_queue (codes "mail") single) (codes "send") [] kept
      second_id (pos 5) (pos 6) nothing_yet

abbrev fetched : Result Pickup × (Bytes → Value)
fetched = pickup_job (memory never) mailer (codes "t2") sent.1

process_job-pickup_job-add_example :
    (picked fetched.0 ≡ took second_id)
    × (view
          (memory never)
          mail
          (process_job (memory never) faithful_codec tenths mailer second_id quick_turn fetched.1).1
        ≡ record (view (memory never) mail nothing_yet) { completed = (second_id, pos 9) ∷ [] })
unfolding new_worker default_worker_options h_get add ◌>>=◌ validate_job_options bytes_eq
    validate_job_payload_size max_job_payload_size store_job_hash memory_exec outcome enqueue_job
    milliseconds Keys.wait Keys.job z_place z_remove apply_defaults
process_job-pickup_job-add_example =
    process_job-pickup_job-add (memory-Laws never) memory-IsHealthy mailer (omega arith) refl
      faithful_codec tenths quick_turn mailer-WorksOn.own_events mailer-WorksOn.elsewhere
      first_id-IsJobId (codes "send") [] kept second_id (pos 5) (pos 6) (codes "{}") (codes "{}")
      (codes "t2") second_id-IsJobId kept-ReadsBack nothing_yet added_job (some (codes "sent"))
      nothing_yet-Consistent refl refl refl refl refl (omega arith) (omega arith) refl
