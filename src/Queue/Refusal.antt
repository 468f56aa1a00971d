-- ===== src/Queue/Refusal.antt =====
-- What `Add` leaves on the server when it fails, whichever commands are refused or lose their reply.
use bullmq_go.Prelude.{◌≡◌, ltb, true}
use bullmq_go.Redis.{Server, Laws}
use bullmq_go.Redis.Action.{Action}
use bullmq_go.Keys
use bullmq_go.Keys.Distinct.{KeyName, key_of, IsValid, tag}
use bullmq_go.Jobs.{Codec}
use bullmq_go.Queue.{Queue}

module _ {R : Server} (L : Laws R) (C : Codec) (q : Queue) where
  -- The list and the two sets in which `Add` may place a job.
  abbrev SamePlaces : R.Store → R.Store → Type 0
  SamePlaces s s' =
      (n : KeyName)
      → IsValid n
      → ltb (tag n) 3 ≡ true
      → R.value s' (key_of q.key_builder n) ≡ R.value s (key_of q.key_builder n)
