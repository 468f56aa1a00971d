-- ===== src/Invariant/Checks.antt =====
-- The stalled checker, the heartbeats' lock script, logs and progress keep the queue's data
-- consistent.
use bullmq_go.Prelude.{ℕ, Bytes, ◌≡◌, refl, true, List, [], ◌∷◌, Option, arith}
use bullmq_go.Prelude.Int.{ℤ, pos, negsuc}
use bullmq_go.Redis.{Server, Laws}
use bullmq_go.Redis.Values.{Result, ok, err, lrange, exists, hgetall, get, expire}
use bullmq_go.Redis.Action.{pure, ◌>>=◌}
use bullmq_go.Keys
use bullmq_go.Keys.Distinct.{IsJobId, active_name}
use bullmq_go.Jobs.{Codec}
use bullmq_go.Worker.{Worker, keys_of}
use bullmq_go.Worker.Stalled.{
  StalledChecker, bump64, is_job_stalled, recover_stalled_job, check_each, check_stalled_jobs,
}
use bullmq_go.Worker.Heartbeat.{extend_lock}
use bullmq_go.Invariant.Fits.{all_ids, IsJobId-is_job_id, is_job_id-IsJobId}
use bullmq_go.Invariant.Replies.{lrange_reply}
use bullmq_go.Invariant.Keeps.{
  Keeps, Consistent, keeps_rules, Keeps-bind, Keeps-bind-with, Keeps-elim_result, Keeps-if,
  Keeps-fail, Keeps-pure, Keeps-attempt, Returns-exec, Returns-attempt,
}
use bullmq_go.Invariant.Rules.{key_rules, Keeps-lock, Keeps-active, Keeps-job}

module _ {R : Server} (L : Laws R) (C : Codec) (kept : Option Bytes) (w : Worker) where
  Keeps-is_job_stalled :
      (id : Bytes) → IsJobId id → Keeps (Consistent R (keys_of w) kept) (is_job_stalled R C w id)
  unfolding is_job_stalled
  Keeps-is_job_stalled id i =
      Keeps-bind _ _
        (Keeps-attempt _
          (Keeps-lock L (keys_of w) kept (exists (Keys.lock (keys_of w) id)) id refl refl i))
        λ answer. Keeps-elim_result answer _ _ (λ n. Keeps-pure _) (λ e. Keeps-pure _)

  pub Keeps-recover_stalled_job :
      (id : Bytes) (now : ℤ)
      → IsJobId id
      → Keeps (Consistent R (keys_of w) kept) (recover_stalled_job R C w id now)
  unfolding recover_stalled_job
  Keeps-recover_stalled_job id now i =
      Keeps-bind _ _
        (Keeps-attempt _
          (Keeps-job L (keys_of w) kept (hgetall (Keys.job (keys_of w) id)) id refl refl i))
        λ answer.
          Keeps-elim_result answer _ _
            (λ fs. search (keeps_rules, key_rules, IsJobId-is_job_id) depth 16) (λ e. Keeps-pure _)

  Keeps-check_each :
      (clock : Bytes → ℤ) (ids : List Bytes) (count : ℕ)
      → all_ids ids ≡ true
      → Keeps (Consistent R (keys_of w) kept) (check_each R C w clock ids count)
  unfolding check_each all_ids
  Keeps-check_each clock [] count h = Keeps-pure count
  Keeps-check_each clock (id ∷ ids) count h =
      let i = is_job_id-IsJobId id (ground arith) in
      Keeps-bind _ _ (Keeps-is_job_stalled id i) λ stalled.
        Keeps-bind _ _
          (Keeps-if stalled _ _ (Keeps-recover_stalled_job id (clock id) i) (Keeps-pure _))
          λ recovered. Keeps-check_each clock ids _ (ground arith)

  pub Keeps-check_stalled_jobs :
      (clock : Bytes → ℤ) (sc : StalledChecker)
      → Keeps (Consistent R (keys_of w) kept) (check_stalled_jobs R C w clock sc)
  unfolding check_stalled_jobs
  Keeps-check_stalled_jobs clock sc =
      let read = lrange (Keys.active (keys_of w)) (pos 0) (negsuc 0) in
      Keeps-bind-with (λ r. (ids : List Bytes) → r ≡ ok ids → all_ids ids ≡ true) _ _
        (Keeps-attempt _ (Keeps-active L (keys_of w) kept read refl refl))
        (Returns-attempt (λ ids. all_ids ids ≡ true) _
          (Returns-exec L (keys_of w) kept active_name read (λ ids. all_ids ids ≡ true) tt refl
            (λ v ids h e. lrange_reply (Keys.active (keys_of w)) (pos 0) (negsuc 0) v ids h e)))
        cases
    where
      cases :
          (answer : Result (List Bytes))
          → ((ids : List Bytes) → answer ≡ ok ids → all_ids ids ≡ true)
          → Keeps (Consistent R (keys_of w) kept) (elim answer [
            | err e ↦ pure (record sc { check_count = bump64 sc.check_count })
            | ok ids ↦ check_each R C w clock ids sc.recovered_count >>= λ count.
                pure (record sc { check_count = bump64 sc.check_count; recovered_count = count })
          ])
      cases (err e) q = Keeps-pure _
      cases (ok ids) q =
          Keeps-bind _ _ (Keeps-check_each clock ids _ (q ids refl)) λ count. Keeps-pure _

  pub Keeps-extend_lock :
      (id lock_token : Bytes)
      → IsJobId id
      → Keeps
          (Consistent R (keys_of w) kept)
          (extend_lock R w (Keys.lock (keys_of w) id) lock_token)
  unfolding extend_lock
  Keeps-extend_lock id lock_token i =
      Keeps-bind _ _
        (Keeps-attempt _
          (Keeps-lock L (keys_of w) kept (get (Keys.lock (keys_of w) id)) id refl refl i))
        λ answer.
          Keeps-elim_result answer _ _
            (λ current.
              Keeps-if _ _ _
                (Keeps-lock L (keys_of w) kept (expire (Keys.lock (keys_of w) id) _) id refl refl i)
                (Keeps-pure 0))
            (λ e. Keeps-if _ _ _ (Keeps-pure 0) (Keeps-fail e))
