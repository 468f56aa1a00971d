-- ===== src/Board/Managing/Cleaning.antt =====
-- Clean does what the board says.
mod Sets
use bullmq_go.Prelude.{
  ◌-◌, ◌&&◌, not, Bytes, bytes_eq, ◌≡◌, refl, Bool, true, false, none, if◌then◌else◌, length,
}
use bullmq_go.Prelude.Int.{ℤ, ◌-ℤ◌}
use bullmq_go.Redis.{Server, Laws, IsHealthy}
use bullmq_go.Redis.Values.{ok, absent, names}
use bullmq_go.Keys.Distinct.{KeyName, IsJobId, key_of}
use bullmq_go.Queue.{Queue}
use bullmq_go.Queue.Manage.{clean, clean_key, unix_milli}
use bullmq_go.Invariant.Keeps.{Consistent}
use bullmq_go.Board.{view, in_set, no_repeats, expire_first}
use bullmq_go.Board.Managing.Deleting.{IsOf}
use bullmq_go.Board.Managing.Sweeping.{quota}
use bullmq_go.Board.Managing.Cleaning.Sets.{
  set_name, job_type_of, asked, set_of, with_set, clean_key-sweeps,
}

-- One of the two sets that Clean takes jobs out of: true for the completed set.
module _ {R : Server} (L : Laws R) (H : IsHealthy R) (q : Queue) where
  clean_lem :
      (c : Bool) (now age limit : ℤ)
      → clean R q now age limit (job_type_of c)
        ≡ clean_key R q.key_builder
            (key_of q.key_builder (set_name c))
            (unix_milli (now -ℤ age))
            limit
  unfolding clean bytes_eq
  clean_lem true now age limit = refl
  clean_lem false now age limit = refl

  -- On a server that is up, where the queue's data is consistent and no id stands twice in the set
  -- that is cleaned, completed or failed, Clean removes of that set the jobs whose time is at most
  -- now less the age, in the order of the set and up to the limit, or all of these where the limit
  -- is not above 0. It returns their number, moves nothing else on the board, and takes away the
  -- hash, lock and log of exactly the jobs that it removed.
  pub clean-sweeps :
      (c : Bool) (now age limit : ℤ) (s : R.Store) (id : Bytes) (m : KeyName)
      → IsJobId id
      → IsOf id m
      → Consistent R q.key_builder none s
      → no_repeats (names (set_of c (view R q.key_builder s))) ≡ true
      → let (r, s') = clean R q now age limit (job_type_of c) s in
        let b = view R q.key_builder s in
        let zs = set_of c b in
        let kept = expire_first (quota (asked limit) zs) (unix_milli (now -ℤ age)) zs in
        (r ≡ ok (length zs - length kept))
        × (view R q.key_builder s' ≡ with_set c kept b)
        × (R.value s' (key_of q.key_builder m) ≡ (
            if in_set id zs && not (in_set id kept)
            then absent
            else R.value s (key_of q.key_builder m)))
  clean-sweeps c now age limit s id m i o con distinct =
      rw (clean_lem c now age limit) (
        clean_key-sweeps L H q.key_builder c (unix_milli (now -ℤ age)) limit s id m i o con
          distinct)
