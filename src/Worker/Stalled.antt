-- ===== src/Worker/Stalled.antt =====
-- pkg/bullmq/stalled.go. `clock` gives the time at which a job is recovered, in milliseconds.
pub mod Recover
pub mod Locked
pub mod Races
use bullmq_go.Prelude.{
  ℕ, ◌+◌, ◌%◌, ◌^◌, ◌==◌, Bytes, codes, Bool, true, false, List, [], ◌∷◌, Option, none, some,
  if◌then◌else◌,
}
use bullmq_go.Prelude.Int.{ℤ, pos, negsuc, leb_ℤ}
use bullmq_go.Redis.{Server}
use bullmq_go.Redis.Values.{ok, err, lrange, exists, hgetall, lrem, zadd, hset, lpush, h_get}
use bullmq_go.Redis.Action.{◌>>=◌, ◌>>◌, Action, pure, ignore, attempt}
use bullmq_go.Keys
use bullmq_go.Jobs.{Codec}
use bullmq_go.Worker.{Worker, keys_of}

pub record StalledChecker : Type 0 where
  pub is_running : Bool
  pub check_count : ℕ
  pub recovered_count : ℕ

-- A uint64 counter.
abbrev pub bump64 : ℕ → ℕ
bump64 n = (n + 1) % 2 ^ 64

-- A tick of the ticker: the check that it starts, unless the previous one is still running.
unfoldable pub start_check : StalledChecker → Option StalledChecker
start_check sc = if sc.is_running then none else some (record sc { is_running = true })

unfoldable pub finish_check : StalledChecker → StalledChecker
finish_check sc = record sc { is_running = false }

module _ (R : Server) (C : Codec) where
  open R use {Store, exec}
  open C use {format_int}

  unfoldable pub is_job_stalled : Worker → Bytes → Action Store Bool
  is_job_stalled w id = do
    answer ← attempt (exec (exists (Keys.lock (keys_of w) id)))
    elim answer [ ok n ↦ pure (n == 0) | err e ↦ pure false ]

  -- The stored number is not read: its presence counts as 1.
  unfoldable pub next_attempts : List (Bytes × Bytes) → ℕ
  next_attempts fs = elim (h_get (codes "attemptsMade") fs) [ none ↦ 1 | some text ↦ 2 ]

  -- Whether the job went back to the wait list, for the count of recoveries.
  unfoldable pub recover_stalled_job : Worker → Bytes → ℤ → Action Store Bool
  unfolding next_attempts
  recover_stalled_job w id now = do
    let kb = keys_of w
    answer ← attempt (exec (hgetall (Keys.job kb id)))
    elim answer [
      | err e ↦ pure false
      | ok fs ↦ do
        ignore (exec (lrem (Keys.active kb) 1 id))
        if leb_ℤ w.opts.max_attempts (pos (next_attempts fs))
            then (do
              ignore (exec (zadd (Keys.failed kb) now id))
              ignore (
                  exec (
                    hset (Keys.job kb id)
                      ((codes "failedReason", codes "stalled (max attempts)") ∷ [])))
              pure false)
            else (do
              ignore (exec (lpush (Keys.wait kb) id))
              ignore (
                  exec (
                    hset (Keys.job kb id)
                      ((codes "attemptsMade", format_int (pos (next_attempts fs))) ∷ [])))
              pure true)
    ]

  -- The loop over the active jobs, with the count of recoveries so far.
  unfoldable pub check_each : Worker → (Bytes → ℤ) → List Bytes → ℕ → Action Store ℕ
  unfolding is_job_stalled recover_stalled_job
  check_each w clock [] count = pure count
  check_each w clock (id ∷ ids) count = do
    stalled ← is_job_stalled w id
    recovered ← (if stalled then recover_stalled_job w id (clock id) else pure false)
    check_each w clock ids (if recovered then bump64 count else count)

  unfoldable pub check_stalled_jobs :
      Worker → (Bytes → ℤ) → StalledChecker → Action Store StalledChecker
  unfolding check_each
  check_stalled_jobs w clock sc = do
    let counted = record sc { check_count = bump64 sc.check_count }
    answer ← attempt (exec (lrange (Keys.active (keys_of w)) (pos 0) (negsuc 0)))
    elim answer [
      | err e ↦ pure counted
      | ok ids ↦ do
        count ← check_each w clock ids sc.recovered_count
        pure (record counted { recovered_count = count })
    ]
