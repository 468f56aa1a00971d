-- ===== src/Examples/Boards.antt =====
-- Boards of the example queue.
use bullmq_go.Prelude.{
  refl, ◌≡◌, [], ◌∷◌, ◌++◌, codes, none, true, false, bytes_eq, Bytes, inl, if◌then◌else◌, arith,
  contains_byte,
}
use bullmq_go.Prelude.Int.{pos}
use mathlib.Core.List.{reverse}
use bullmq_go.Redis.Values.{Value, hash, h_get}
use bullmq_go.Redis.Memory.{memory, memory-Laws, memory-IsHealthy, never}
use bullmq_go.Keys
use bullmq_go.Keys.Distinct.{is_reserved}
use bullmq_go.Jobs.{Job}
use bullmq_go.Worker.{keys_of, new_worker, default_worker_options}
use bullmq_go.Worker.Run.{Turn, pickup_job}
use bullmq_go.Worker.Start.{new_loop}
use bullmq_go.Invariant.Fits.{z_has, all_members}
use bullmq_go.Board.{pick, view}
use bullmq_go.Board.Popping.{seen}
use bullmq_go.Board.Picking.{pickup_job-pick}
use bullmq_go.Board.Serving.{job_ids, line, passes_of, passes_of-line, IsOpen}
use bullmq_go.Examples.{plain_codec, tenths, mailer, mail, first_id, second_id}
use bullmq_go.Examples.Steps.{later_mail, later_mail-Consistent}

pickup_job-pick_example :
    seen (memory never) mailer (pickup_job (memory never) mailer (codes "t2") later_mail)
    ≡ pick (view (memory never) mail later_mail)
unfolding new_worker default_worker_options bytes_eq Keys.delayed keys_of Keys.wait all_members
    contains_byte is_reserved z_has Keys.prioritized
pickup_job-pick_example =
    pickup_job-pick (memory-Laws never) memory-IsHealthy mailer (omega arith) later_mail
      (codes "t2") refl (later_mail-Consistent none refl) refl

later_mail-IsOpen : IsOpen (view (memory never) mail later_mail)
unfolding h_get bytes_eq Keys.meta keys_of new_worker Keys.wait Keys.delayed z_has Keys.prioritized
later_mail-IsOpen = record { running = refl; no_empty = refl }

passes_of-line_example :
    (job_ids (passes_of (memory never) mailer (codes "t2" ∷ []) (new_loop later_mail)).running
      ≡ reverse (first_id ∷ []) ++ [])
    × (line (
          view
            (memory never)
            mail
            (passes_of (memory never) mailer (codes "t2" ∷ []) (new_loop later_mail)).store)
        ≡ [])
unfolding new_worker default_worker_options new_loop bytes_eq Keys.delayed keys_of Keys.wait
    all_members contains_byte is_reserved line Keys.prioritized
passes_of-line_example =
    passes_of-line (memory-Laws never) memory-IsHealthy mailer (omega arith) refl (codes "t2" ∷ [])
      (first_id ∷ []) (new_loop later_mail) refl (omega arith) (later_mail-Consistent none refl)
      later_mail-IsOpen refl refl

-- The first job can be read, too.
abbrev ready_mail : Bytes → Value
ready_mail k =
    if bytes_eq k (Keys.job mail first_id)
    then hash ((codes "name", codes "send") ∷ [])
    else later_mail k

abbrev short_turn : Turn plain_codec tenths
short_turn = record {
  processor = λ j. inl none;
  nil_value = codes "null";
  active_time = pos 5;
  end_time = pos 7_000_000;
  end_time_ms = pos 7;
  event_time = pos 8;
  unix = pos 0;
  process_time = pos 2;
  uuid = second_id;
  random = 0;
}

abbrev read_job : Job Bytes
read_job = record {
  id = first_id;
  name = codes "send";
  payload = [];
  opts = record {
    priority = pos 0;
    delay = pos 0;
    attempts = pos 0;
    backoff = record { type = []; delay = pos 0 };
    remove_on_complete = false;
    remove_on_fail = false;
  };
  progress = pos 0;
  return_value = none;
  failed_reason = [];
  stack_trace = [];
  timestamp = pos 0;
  attempts_made = pos 0;
  processed_on = pos 0;
  finished_on = pos 0;
  worker_id = [];
  delay = pos 0;
  queue_name = codes "mail";
  connected = true;
}
