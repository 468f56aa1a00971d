-- ===== src/Examples/Refusing.antt =====
-- A command whose reply is lost, and the pause flag.
use bullmq_go.Prelude.{refl, [], codes, ◌≡◌, Bool, true, false, Bytes, bytes_eq}
use bullmq_go.Prelude.Int.{pos}
use bullmq_go.Redis.Values.{Value, Result, ok, Command, lpush}
use bullmq_go.Redis.Memory.{memory, memory-Laws, memory-IsHealthy, never, forgetful}
use bullmq_go.Keys
use bullmq_go.Keys.{single}
use bullmq_go.Jobs.{Job}
use bullmq_go.Queue.{Queue, new_queue, add, pause, resume, is_paused}
use bullmq_go.Queue.Pausing.{is_paused-pause-resume}
use bullmq_go.Worker.{new_worker, keys_of}
use bullmq_go.Examples.{plain_codec, second_id, kept, busy}

abbrev no_lpush : Command → Bool
no_lpush (lpush k x) = true
no_lpush c = false

abbrev posts : Queue
posts = new_queue (codes "mail") single

-- The server runs LPUSH, and its reply is lost.
abbrev timed_out : Result (Job Bytes) × (Bytes → Value)
timed_out =
    add (forgetful no_lpush) plain_codec posts (codes "send") [] kept second_id (pos 5) (pos 6) busy

is_paused-pause-resume_example :
    ((pause (memory never) plain_codec posts busy).0 ≡ ok tt)
    × ((is_paused
          (memory never)
          plain_codec
          posts
          (pause (memory never) plain_codec posts busy).1).0
        ≡ ok true)
    × ((resume (memory never) plain_codec posts (pause (memory never) plain_codec posts busy).1).0
        ≡ ok tt)
    × ((is_paused
          (memory never)
          plain_codec
          posts
          (resume
            (memory never)
            plain_codec
            posts
            (pause (memory never) plain_codec posts busy).1).1).0
        ≡ ok false)
unfolding bytes_eq Keys.meta new_queue Keys.active keys_of new_worker Keys.wait Keys.job Keys.lock
is_paused-pause-resume_example =
    is_paused-pause-resume (memory-Laws never) memory-IsHealthy plain_codec posts busy [] refl
