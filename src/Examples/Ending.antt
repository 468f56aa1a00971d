-- ===== src/Examples/Ending.antt =====
-- The end of a job's run.
use bullmq_go.Prelude.{true, none, Bytes, Bool}
use bullmq_go.Prelude.Int.{pos}
use bullmq_go.Errors.{canceled}
use bullmq_go.Redis.Values.{Value, Command}
use bullmq_go.Redis.Memory.{memory, memory-Laws, never}
use bullmq_go.Redis.Touches.{Touches}
use bullmq_go.Keys
use bullmq_go.Worker.Complete.{complete}
use bullmq_go.Worker.Complete.Moves.{complete-Touches, complete_keys}
use bullmq_go.Worker.Run.{handle_job_failure}
use bullmq_go.Examples.{plain_codec, tenths, mailer, mailer-IsOwn, first_id, letter, busy, mail}

abbrev always : Command → Bool
always c = true

complete-Touches_example :
    Touches
      (memory always)
      (complete_keys mail first_id)
      (complete (memory always) plain_codec mailer letter none (pos 5) (pos 6))
complete-Touches_example =
    complete-Touches (memory-Laws always) plain_codec mailer mailer-IsOwn letter none (pos 5)
      (pos 6)

-- One second after a second failed attempt of a backoff of one second: two seconds of delay.
abbrev retried_store : Bytes → Value
retried_store =
    (handle_job_failure (memory never) plain_codec tenths mailer letter canceled 5
      (pos 1_000_000_000) (pos 6) busy).1
