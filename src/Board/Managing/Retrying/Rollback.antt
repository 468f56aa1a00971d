-- ===== src/Board/Managing/Retrying/Rollback.antt =====
-- What the rollback of RetryJob leaves where a command of its pipeline is refused.
use bullmq_go.Prelude.{Bytes, codes, ◌≡◌, refl, ap, ◌∙◌, true, List, [], ◌∷◌, none, some, arith}
use bullmq_go.Prelude.Int.{ℤ}
use bullmq_go.Redis.{Server, Laws, IsHealthy}
use bullmq_go.Redis.Values.{
  err, hset, z_score, as_hash, as_zset, as_list, members, items, of_members, outcome, wrong_type,
  list, z_remove,
}
use bullmq_go.Redis.Facts.{value_other, zrem_self, zadd_self, lpush_self}
use bullmq_go.Redis.Pipeline.{pipeline}
use bullmq_go.Keys
use bullmq_go.Keys.Distinct.{IsJobId, apart, wait_name, failed_name, job_name}
use bullmq_go.Queue.{Queue}
use bullmq_go.Queue.Manage.{retry_job}
use bullmq_go.Board.{in_set, in_list}
use bullmq_go.Board.Members.{in_set-z_place, in_list_head}
use bullmq_go.Board.Managing.Retrying.{zscore_keeps, reset, taken_out, retry_found, taken_out-job}

as_zset-of_members : (zs : List (Bytes × ℤ)) → as_zset (of_members zs) ≡ some zs
as_zset-of_members [] = refl
as_zset-of_members (z ∷ zs) = refl

module _ {R : Server} (L : Laws R) (H : IsHealthy R) (q : Queue) (id : Bytes) where
  -- The pipeline where the job's key holds no hash: the last of its commands is run.
  reset_refused :
      (t : R.Store)
      → as_hash (R.value t (Keys.job q.key_builder id)) ≡ none
      → (reset L H q id t).0 ≡ err wrong_type
  unfolding reset pipeline outcome
  reset_refused t e =
      let refused =
        H.answers (hset (Keys.job q.key_builder id) ((codes "attemptsMade", codes "0") ∷ [])) t in
      ground (arith, refused, e)

  reset_pushes :
      (t : R.Store) (xs : List Bytes)
      → IsJobId id
      → as_list (R.value t (Keys.wait q.key_builder)) ≡ some xs
      → R.value (reset L H q id t).1 (Keys.wait q.key_builder) ≡ list (id ∷ xs)
  unfolding reset pipeline
  reset_pushes t xs i e =
      let kb = q.key_builder in
      lpush_self L H (Keys.wait kb) id _ xs (
        ap as_list (
          value_other L _ _ _ (apart kb wait_name (job_name id) tt i refl)
          ∙ value_other L _ _ _ (apart kb wait_name (job_name id) tt i refl))
        ∙ e)

  reset-failed :
      (t : R.Store)
      → IsJobId id
      → R.value (reset L H q id t).1 (Keys.failed q.key_builder)
        ≡ R.value t (Keys.failed q.key_builder)
  unfolding reset pipeline
  reset-failed t i =
      let kb = q.key_builder in
      value_other L _ _ _ (apart kb failed_name wait_name tt tt refl)
      ∙ value_other L _ _ _ (apart kb failed_name (job_name id) tt i refl)
      ∙ value_other L _ _ _ (apart kb failed_name (job_name id) tt i refl)

  taken_out-wait :
      (s : R.Store)
      → R.value (taken_out L H q id s) (Keys.wait q.key_builder)
        ≡ R.value s (Keys.wait q.key_builder)
  unfolding taken_out
  taken_out-wait s =
      value_other L _ _ _ (apart q.key_builder wait_name failed_name tt tt refl)
      ∙ zscore_keeps L H q id s _

  taken_out-failed :
      (s : R.Store) (zs : List (Bytes × ℤ))
      → as_zset (R.value s (Keys.failed q.key_builder)) ≡ some zs
      → R.value (taken_out L H q id s) (Keys.failed q.key_builder) ≡ of_members (z_remove id zs)
  unfolding taken_out
  taken_out-failed s zs e =
      zrem_self L H (Keys.failed q.key_builder) id _ zs (ap as_zset (zscore_keeps L H q id s _) ∙ e)

  -- On a server that is up, where the job is in the failed set but what its key holds is no hash,
  -- RetryJob returns the error of the refused command, and its rollback leaves the job in the wait
  -- list and in the failed set at once.
  pub retry_job_twice :
      (s : R.Store) (xs : List Bytes) (zs : List (Bytes × ℤ)) (sc : ℤ)
      → IsJobId id
      → as_list (R.value s (Keys.wait q.key_builder)) ≡ some xs
      → as_zset (R.value s (Keys.failed q.key_builder)) ≡ some zs
      → z_score id zs ≡ some sc
      → as_hash (R.value s (Keys.job q.key_builder id)) ≡ none
      → let (r, s') = retry_job R q id s in
        (r ≡ err wrong_type)
        × (in_list id (items (R.value s' (Keys.wait q.key_builder))) ≡ true)
        × (in_set id (members (R.value s' (Keys.failed q.key_builder))) ≡ true)
  retry_job_twice s xs zs sc i ew ef found ej =
      let kb = q.key_builder in
      let t = taken_out L H q id s in
      let refused = reset_refused t (ap as_hash (taken_out-job L H q id s i) ∙ ej) in
      let run = retry_found L H q id s zs sc ef found ∙ rw refused refl in
      let pushed = reset_pushes t xs i (ap as_list (taken_out-wait s) ∙ ew) in
      let left =
        ap as_zset (reset-failed t i ∙ taken_out-failed s zs ef)
        ∙ as_zset-of_members (z_remove id zs) in
      rw run (
        refl,
        ap (λ v. in_list id (items v))
              (value_other L _ _ _ (apart kb wait_name failed_name tt tt refl) ∙ pushed)
            ∙ in_list_head id xs,
        ap (λ v. in_set id (members v))
              (zadd_self L H (Keys.failed kb) sc id (reset L H q id t).1 _ left)
            ∙ in_set-z_place id sc _,
      )
