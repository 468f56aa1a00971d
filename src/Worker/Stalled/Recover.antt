-- ===== src/Worker/Stalled/Recover.antt =====
-- What the recovery of a stalled job does on a server that is up.
use bullmq_go.Prelude.{
  Bytes, codes, ◌≡◌, refl, ◌∙◌, ap, true, false, List, [], ◌∷◌, some, arith, ◌==◌, ◌≤◌,
}
use bullmq_go.Prelude.Int.{ℤ, pos, ◌≤ℤ◌}
use bullmq_go.Redis.{Server, Laws, IsHealthy}
use bullmq_go.Redis.Values.{ok, list, hgetall, lrem, lpush, hset, as_list, as_hash}
use bullmq_go.Redis.Action.{◌>>=◌}
use bullmq_go.Redis.Facts.{value_other, lpush_self}
use bullmq_go.Redis.Replies.{hash_answer, hgetall_keeps}
use bullmq_go.Keys
use bullmq_go.Keys.Distinct.{
  KeyName, key_of, apart, IsValid, IsJobId, tag, wait_name, active_name, completed_name,
  failed_name, job_name,
}
use bullmq_go.Jobs.{Codec}
use bullmq_go.Worker.{Worker, keys_of}
use bullmq_go.Worker.Stalled.{recover_stalled_job, next_attempts}

module _ {R : Server} (L : Laws R) (H : IsHealthy R) (C : Codec) (w : Worker) (id : Bytes)
    (now : ℤ) where
  next_attempts-le : (fs : List (Bytes × Bytes)) → next_attempts R C fs ≤ 2
  unfolding next_attempts
  next_attempts-le fs = ground arith

  -- The server before and after the two writes that move the job.
  removed : R.Store → R.Store
  removed s =
      (R.exec (lrem (Keys.active (keys_of w)) 1 id)
        (R.exec (hgetall (Keys.job (keys_of w) id)) s).1).1

  requeued : R.Store → List (Bytes × Bytes) → R.Store
  requeued s fs =
      (R.exec
        (hset (Keys.job (keys_of w) id)
          ((codes "attemptsMade", C.format_int (pos (next_attempts R C fs))) ∷ []))
        (R.exec (lpush (Keys.wait (keys_of w)) id) (removed s)).1).1

  requeue_run :
      (s : R.Store) (fs : List (Bytes × Bytes))
      → as_hash (R.value s (Keys.job (keys_of w) id)) ≡ some fs
      → pos 3 ≤ℤ w.opts.max_attempts
      → recover_stalled_job R C w id now s ≡ (ok true, requeued s fs)
  unfolding recover_stalled_job ◌>>=◌ removed requeued
  requeue_run s fs e h =
      ground (arith, hash_answer H (Keys.job (keys_of w) id) s fs e, next_attempts-le fs)

  module _ (i : IsJobId id) where
    removed-other :
        (n : KeyName) (s : R.Store)
        → IsValid n
        → (tag n == 3) ≡ false
        → R.value (removed s) (key_of (keys_of w) n) ≡ R.value s (key_of (keys_of w) n)
    unfolding removed
    removed-other n s u a =
        value_other L _ _ _ (apart (keys_of w) n active_name u tt a) ∙ hgetall_keeps L _ s _

    requeued-other :
        (n : KeyName) (s : R.Store) (fs : List (Bytes × Bytes))
        → IsValid n
        → (tag n == 3) ≡ false
        → (tag n == 0) ≡ false
        → (tag n == 8) ≡ false
        → R.value (requeued s fs) (key_of (keys_of w) n) ≡ R.value s (key_of (keys_of w) n)
    unfolding requeued
    requeued-other n s fs u a b c =
        value_other L _ _ _ (apart (keys_of w) n (job_name id) u i c)
        ∙ value_other L _ _ _ (apart (keys_of w) n wait_name u tt b)
        ∙ removed-other n s u a

    -- On a server that is up, with the wait list and the job's hash of their types and a maximum of
    -- three attempts or more: recovery puts the job at the head of the wait list, whatever number
    -- of attempts its hash holds, and leaves the failed and the completed set as they were. The job
    -- need not be in the active list.
    pub recover_stalled_job_requeues :
        (s : R.Store) (fs : List (Bytes × Bytes)) (xs : List Bytes)
        → as_hash (R.value s (Keys.job (keys_of w) id)) ≡ some fs
        → as_list (R.value s (Keys.wait (keys_of w))) ≡ some xs
        → pos 3 ≤ℤ w.opts.max_attempts
        → let (r, s') = recover_stalled_job R C w id now s in
          (r ≡ ok true)
          × (R.value s' (Keys.wait (keys_of w)) ≡ list (id ∷ xs))
          × (R.value s' (Keys.failed (keys_of w)) ≡ R.value s (Keys.failed (keys_of w)))
          × (R.value s' (Keys.completed (keys_of w)) ≡ R.value s (Keys.completed (keys_of w)))
    unfolding requeued
    recover_stalled_job_requeues s fs xs eh ew h = rw (requeue_run s fs eh h) (
      refl,
      value_other L _ _ _ (apart (keys_of w) wait_name (job_name id) tt i refl)
          ∙ lpush_self L H _ id (removed s) xs
              (ap as_list (removed-other wait_name s tt refl) ∙ ew),
      requeued-other failed_name s fs tt refl refl refl,
      requeued-other completed_name s fs tt refl refl refl,
    )
