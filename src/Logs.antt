-- ===== src/Logs.antt =====
-- pkg/bullmq/logs.go and progress.go, with the Lua scripts addLog and updateProgress of
-- pkg/bullmq/scripts/scripts.go that they run. A script runs with no other command in between; an
-- error of one of its commands ends it.
pub mod Bounds
use bullmq_go.Prelude.{
  ℕ, ◌==◌, ltb, Bytes, codes, ◌++◌, ◌||◌, List, [], ◌∷◌, none, some, ◌⊎◌, inl, inr, if◌then◌else◌,
}
use bullmq_go.Prelude.Int.{ℤ, pos, negsuc, ltb_ℤ, leb_ℤ, sub_ℕ, pos_part}
use bullmq_go.Errors.{validation, wrapped, plain, is_redis_nil, is_empty}
use bullmq_go.Redis.{Server}
use bullmq_go.Redis.Values.{Result, ok, err, exists, rpush, ltrim, lrange, hget, hset, xadd}
use bullmq_go.Redis.Action.{◌>>=◌, Action, pure, fail, ◌>>◌, attempt, explain}
use bullmq_go.Keys
use bullmq_go.Keys.{RedisClient, new_key_builder}
use bullmq_go.Jobs.{Job, Codec}

pub record LogEntry : Type 0 where
  pub timestamp : ℤ
  pub message : Bytes

-- encoding/json on a log entry: the error's text, or the result.
pub record LogCodec : Type 0 where
  pub marshal_entry : LogEntry → Bytes ⊎ Bytes
  pub unmarshal_entry : Bytes → Bytes ⊎ LogEntry

pub record LogManager : Type 0 where
  pub queue_name : Bytes
  pub redis_client : RedisClient
  pub max_logs : ℕ

abbrev pub default_max_logs : ℕ
default_max_logs = 1000

unfoldable pub new_log_manager : Bytes → RedisClient → ℤ → LogManager
new_log_manager name client max_logs = record {
  queue_name = name;
  redis_client = client;
  max_logs = if leb_ℤ max_logs (pos 0) then default_max_logs else pos_part max_logs;
}

abbrev pub min_of : ℕ → ℕ → ℕ
min_of a b = if ltb a b then a else b

-- The entries that json.Unmarshal accepts; the others are skipped.
unfoldable pub parse_entries : LogCodec → List Bytes → List LogEntry
parse_entries L [] = []
parse_entries L (text ∷ texts) =
    let rest = parse_entries L texts in
    elim (L.unmarshal_entry text) [ inl reason ↦ rest | inr entry ↦ entry ∷ rest ]

module _ (R : Server) where
  open R use {Store, exec}

  -- The script's result: -1 where the job is missing. `keep` is what tonumber(ARGV[3]) gives.
  unfoldable pub add_log_script : Bytes → Bytes → Bytes → ℕ → Action Store ℤ
  add_log_script job_key logs_key entry keep = do
    found ← exec (exists job_key)
    if found == 1
        then (do
          count ← exec (rpush logs_key entry)
          exec (ltrim logs_key (sub_ℕ 0 keep) (negsuc 0))
          pure (pos (min_of keep count)))
        else pure (negsuc 0)

  -- The count of AddLog: a result of -1 is the error "job not found".
  unfoldable pub add_log : LogCodec → LogManager → Bytes → Bytes → ℤ → Action Store ℤ
  unfolding add_log_script new_key_builder
  add_log L lm job_id message now =
      let kb = new_key_builder lm.queue_name lm.redis_client in
      elim (L.marshal_entry (record { timestamp = now; message = message })) [
        | inl reason ↦ fail (wrapped (codes "failed to marshal log entry") (plain reason))
        | inr text ↦ do
          count ←
              explain (codes "addLog script failed")
                (add_log_script (Keys.job kb job_id) (Keys.logs kb job_id) text lm.max_logs)
          elim count [
            | pos n ↦ pure (pos n)
            | negsuc n ↦
                if n == 0 then fail (plain (codes "job not found: " ++ job_id)) else pure (negsuc n)
          ]
      ]

  unfoldable pub get_logs : LogCodec → LogManager → Bytes → Action Store (List LogEntry)
  unfolding parse_entries new_key_builder
  get_logs L lm job_id = do
    texts ← explain (codes "failed to get logs") (
        exec (
          lrange (Keys.logs (new_key_builder lm.queue_name lm.redis_client) job_id) (pos 0)
            (negsuc 0)))
    pure (parse_entries L texts)

module _ (R : Server) (C : Codec) where
  open R use {Store, exec}
  open C use {Any, format_int, scan_int}

  -- getOrSetMaxEvents, as the text that XADD is given.
  unfoldable pub get_or_set_max_events : Bytes → Action Store Bytes
  get_or_set_max_events meta_key = do
    answer ← attempt (exec (hget meta_key (codes "opts.maxLenEvents")))
    elim answer [
      | ok text ↦ pure text
      | err e ↦
          if is_redis_nil e
          then exec (hset meta_key ((codes "opts.maxLenEvents", codes "10000") ∷ []))
            >> pure (codes "10000")
          else fail e
    ]

  -- XADD's bound as a number.
  abbrev pub max_len_of : Bytes → ℤ
  max_len_of text = elim (scan_int text) [ none ↦ pos 0 | some n ↦ n ]

  unfoldable pub update_progress_script : Bytes → Bytes → Bytes → Bytes → Bytes → Action Store ℤ
  unfolding get_or_set_max_events
  update_progress_script job_key events_key meta_key id progress = do
    found ← exec (exists job_key)
    if found == 1
        then (do
          max_events ← get_or_set_max_events meta_key
          exec (hset job_key ((codes "progress", progress) ∷ []))
          exec (
              xadd events_key (max_len_of max_events) (
                (codes "event", codes "progress")
                ∷ (codes "jobId", id)
                ∷ (codes "data", progress)
                ∷ []))
          pure (pos 0))
        else pure (negsuc 0)

  -- ProgressUpdater.UpdateProgress.
  unfoldable pub update_progress : Bytes → RedisClient → Bytes → ℤ → Action Store ℤ
  unfolding update_progress_script new_key_builder
  update_progress queue_name client job_id progress =
      if ltb_ℤ progress (pos 0) || ltb_ℤ (pos 100) progress
      then fail (
          validation (codes "progress")
            (codes "must be between 0 and 100, got " ++ format_int progress))
      else (do
        let kb = new_key_builder queue_name client
        code ← explain (codes "updateProgress script failed") (
            update_progress_script (Keys.job kb job_id) (Keys.events kb) (Keys.meta kb) job_id
              (format_int progress))
        elim code [
          | pos n ↦ pure (pos n)
          | negsuc n ↦
              if n == 0 then fail (plain (codes "job not found: " ++ job_id)) else pure (negsuc n)
        ])

  -- Job.UpdateProgress: the job as the caller sees it afterwards, and the result.
  unfoldable pub job_update_progress :
      RedisClient → Job Any → ℤ → Store → Job Any × Result (Unit {0}) × Store
  job_update_progress client job progress s =
      if ltb_ℤ progress (pos 0) || ltb_ℤ (pos 100) progress
      then (job, err (validation (codes "progress") (codes "must be between 0 and 100")), s)
      else let job' = record job { progress = progress } in
        let (r, s') = update_progress job.queue_name client job.id progress s in
        if job.connected
        then if is_empty job.queue_name
          then (job', ok tt, s)
          else (job', elim r [ ok n ↦ ok tt | err e ↦ err e ], s')
        else (job', ok tt, s)

  -- Job.Log.
  unfoldable pub job_log : LogCodec → RedisClient → Job Any → Bytes → ℤ → Action Store Unit
  unfolding new_log_manager
  job_log L client job message now =
      if job.connected
      then if is_empty job.queue_name
        then pure tt
        else add_log R L (new_log_manager job.queue_name client (pos default_max_logs)) job.id
            message now
          >> pure tt
      else pure tt
