-- ===== src/Queue/Manage.antt =====
-- The management half of pkg/bullmq/queue_impl.go: counts, removal, cleaning, draining, retrying.
use bullmq_go.Prelude.{
  ℕ, ◌/◌, Bytes, codes, bytes_eq, ◌++◌, Bool, false, ◌||◌, List, [], ◌∷◌, if◌then◌else◌, length,
}
use bullmq_go.Prelude.Int.{ℤ, pos, negsuc, ◌-ℤ◌, ltb_ℤ, pos_part}
use bullmq_go.Errors.{wrapped, plain, is_redis_nil}
use bullmq_go.Redis.{Server}
use bullmq_go.Redis.Values.{
  Command, ok, err, llen, zcard, lrem, zrem, del, hset, hdel, hgetall, lpush, zadd, zscore, zrange,
  zrevrange, zrangebyscore, lrange,
}
use bullmq_go.Redis.Action.{◌>>=◌, Action, pure, fail, ◌>>◌, ignore, attempt, explain}
use bullmq_go.Redis.Pipeline.{pipeline}
use bullmq_go.Keys
use bullmq_go.Keys.{KeyBuilder}
use bullmq_go.Jobs.{Job, Codec}
use bullmq_go.Queue.{Queue, job_of_fields}

pub record JobCounts : Type 0 where
  pub waiting : ℕ
  pub active : ℕ
  pub completed : ℕ
  pub failed : ℕ
  pub delayed : ℕ
  pub prioritized : ℕ

-- time.Time.UnixMilli of a time in nanoseconds.
unfoldable pub unix_milli : ℤ → ℤ
unix_milli (pos n) = pos (n / 1000000)
unix_milli (negsuc n) = negsuc (n / 1000000)

-- A Go map[string]bool as a list of its keys.
unfoldable pub has_id : Bytes → List Bytes → Bool
has_id x [] = false
has_id x (y ∷ ys) = bytes_eq y x || has_id x ys

unfoldable pub add_ids : List Bytes → List Bytes → List Bytes
unfolding has_id
add_ids set [] = set
add_ids set (x ∷ xs) = add_ids (if has_id x set then set else x ∷ set) xs

-- The keys of each job: hash, lock, logs.
unfoldable pub del_jobs : KeyBuilder → List Bytes → List Command
del_jobs kb [] = []
del_jobs kb (id ∷ ids) =
    del (Keys.job kb id) ∷ del (Keys.lock kb id) ∷ del (Keys.logs kb id) ∷ del_jobs kb ids

unfoldable pub clean_commands : KeyBuilder → Bytes → List Bytes → List Command
clean_commands kb queue_key [] = []
clean_commands kb queue_key (id ∷ ids) =
    zrem queue_key id
    ∷ del (Keys.job kb id)
    ∷ del (Keys.lock kb id)
    ∷ del (Keys.logs kb id)
    ∷ clean_commands kb queue_key ids

module _ (R : Server) where
  open R use {Store, exec}

  -- A call whose redis.Nil error counts as an empty result.
  unfoldable pub or_empty : Bytes → Action Store (List Bytes) → Action Store (List Bytes)
  or_empty m act s =
      let (r, s') = act s in
      elim r [
        | ok ids ↦ (ok ids, s')
        | err e ↦ if is_redis_nil e then (ok [], s') else (err (wrapped m e), s')
      ]

  -- The reads of one pipeline, the first error of which is returned.
  unfoldable pub get_job_counts : Queue → Action Store JobCounts
  get_job_counts q = do
    waiting ← exec (llen (Keys.wait q.key_builder))
    prioritized ← exec (zcard (Keys.prioritized q.key_builder))
    delayed ← exec (zcard (Keys.delayed q.key_builder))
    active ← exec (llen (Keys.active q.key_builder))
    completed ← exec (zcard (Keys.completed q.key_builder))
    failed ← exec (zcard (Keys.failed q.key_builder))
    pure (record {
      waiting = waiting;
      active = active;
      completed = completed;
      failed = failed;
      delayed = delayed;
      prioritized = prioritized;
    })

  unfoldable pub remove_job : Queue → Bytes → Action Store Unit
  unfolding pipeline
  remove_job q id =
      let kb = q.key_builder in
      pipeline R (
        lrem (Keys.wait kb) 0 id
        ∷ lrem (Keys.active kb) 0 id
        ∷ zrem (Keys.prioritized kb) id
        ∷ zrem (Keys.delayed kb) id
        ∷ zrem (Keys.completed kb) id
        ∷ zrem (Keys.failed kb) id
        ∷ del (Keys.job kb id)
        ∷ del (Keys.lock kb id)
        ∷ del (Keys.logs kb id)
        ∷ [])

  -- The part of `clean` after the choice of the key: `cutoff` is in milliseconds.
  unfoldable pub clean_key : KeyBuilder → Bytes → ℤ → ℤ → Action Store ℕ
  unfolding clean_commands
  clean_key kb queue_key cutoff limit = do
    ids ← exec (zrangebyscore queue_key cutoff (if ltb_ℤ (pos 0) limit then pos_part limit else 0))
    elim ids [
      | [] ↦ pure 0
      | x ∷ xs ↦ pipeline R (clean_commands kb queue_key (x ∷ xs)) >> pure (length (x ∷ xs))
    ]

  -- `now` and `age` are in nanoseconds.
  unfoldable pub clean : Queue → ℤ → ℤ → ℤ → Bytes → Action Store ℕ
  unfolding clean_key unix_milli
  clean q now age limit job_type =
      if bytes_eq job_type (codes "completed")
      then clean_key q.key_builder (Keys.completed q.key_builder) (unix_milli (now -ℤ age)) limit
      else if bytes_eq job_type (codes "failed")
      then clean_key q.key_builder (Keys.failed q.key_builder) (unix_milli (now -ℤ age)) limit
      else fail (
          plain (
            codes "invalid job type: " ++ (job_type ++ codes " (must be 'completed' or 'failed')")))

  unfoldable pub drain : Queue → Action Store ℕ
  unfolding add_ids del_jobs
  drain q = do
    let kb = q.key_builder
    waiting ←
        or_empty (codes "failed to get wait jobs") (exec (lrange (Keys.wait kb) (pos 0) (negsuc 0)))
    prioritized ←
        or_empty (codes "failed to get prioritized jobs")
          (exec (zrange (Keys.prioritized kb) (pos 0) (negsuc 0)))
    delayed ←
        or_empty (codes "failed to get delayed jobs")
          (exec (zrange (Keys.delayed kb) (pos 0) (negsuc 0)))
    active ←
        or_empty (codes "failed to get active jobs")
          (exec (lrange (Keys.active kb) (pos 0) (negsuc 0)))
    completed ←
        or_empty (codes "failed to get completed jobs")
          (exec (zrange (Keys.completed kb) (pos 0) (negsuc 0)))
    failed ←
        or_empty (codes "failed to get failed jobs")
          (exec (zrange (Keys.failed kb) (pos 0) (negsuc 0)))
    let ids =
        add_ids
          (add_ids (add_ids (add_ids (add_ids (add_ids [] waiting) prioritized) delayed) active)
            completed)
          failed
    explain (codes "failed to drain queue") (
        pipeline R (
          del (Keys.wait kb)
          ∷ del (Keys.prioritized kb)
          ∷ del (Keys.delayed kb)
          ∷ del (Keys.active kb)
          ∷ del (Keys.completed kb)
          ∷ del (Keys.failed kb)
          ∷ del (Keys.events kb)
          ∷ del_jobs kb ids))
    pure (length ids)

  unfoldable pub retry_job : Queue → Bytes → Action Store Unit
  retry_job q id = do
    let kb = q.key_builder
    answer ← attempt (exec (zscore (Keys.failed kb) id))
    elim answer [
      | err e ↦
          if is_redis_nil e
          then fail (plain (codes "job not found in failed queue: " ++ id))
          else fail e
      | ok score ↦ do
        exec (zrem (Keys.failed kb) id)
        moved ← attempt (
            pipeline R (
              hset (Keys.job kb id) ((codes "attemptsMade", codes "0") ∷ [])
              ∷ hdel (Keys.job kb id) (codes "failedReason")
              ∷ lpush (Keys.wait kb) id
              ∷ []))
        elim moved [
          | ok _ ↦ pure tt
          | err e ↦ ignore (exec (zadd (Keys.failed kb) score id)) >> fail e
        ]
    ]

  unfoldable pub get_waiting_jobs : Queue → ℤ → ℤ → Action Store (List Bytes)
  get_waiting_jobs q start stop = exec (lrange (Keys.wait q.key_builder) start stop)

  unfoldable pub get_active_jobs : Queue → ℤ → ℤ → Action Store (List Bytes)
  get_active_jobs q start stop = exec (lrange (Keys.active q.key_builder) start stop)

  unfoldable pub get_completed_jobs : Queue → ℤ → ℤ → Action Store (List Bytes)
  get_completed_jobs q start stop = exec (zrevrange (Keys.completed q.key_builder) start stop)

  unfoldable pub get_failed_jobs : Queue → ℤ → ℤ → Action Store (List Bytes)
  get_failed_jobs q start stop = exec (zrevrange (Keys.failed q.key_builder) start stop)

module _ (R : Server) (C : Codec) where
  open R use {Store, exec}
  open C use {Any}

  -- The replies of the pipeline of GetJobs, in the order of the ids: a missing job is skipped.
  unfoldable pub get_jobs : Queue → List Bytes → Action Store (List (Job Any))
  unfolding job_of_fields
  get_jobs q [] = pure []
  get_jobs q (id ∷ ids) = do
    result ← exec (hgetall (Keys.job q.key_builder id))
    jobs ← get_jobs q ids
    elim result [ [] ↦ pure jobs | f ∷ fs ↦ pure (job_of_fields R C id (f ∷ fs) ∷ jobs) ]
