-- ===== src/Board/Managing/Retrying.antt =====
-- RetryJob does what the board says.
pub mod Rollback
use bullmq_go.Prelude.{
  Bytes, codes, bytes_eq, ◌++◌, ◌≡◌, refl, ap, ◌∙◌, true, false, List, [], ◌∷◌, none, some, arith,
  if◌then◌else◌, Option-cases, inl, inr,
}
use bullmq_go.Prelude.Int.{ℤ}
use bullmq_go.Errors.{Error, plain}
use bullmq_go.Redis.{Server, Laws, IsHealthy}
use bullmq_go.Redis.Values.{
  ok, err, zscore, zrem, zadd, hset, hdel, lpush, fields, of_fields, h_set, h_del, h_get, z_score,
  as_hash, as_zset, members, or_nil, outcome, effect, when, z_remove,
}
use bullmq_go.Redis.Action.{Action, ◌>>=◌, ◌>>◌}
use bullmq_go.Redis.Facts.{Result-cases, value_other, read_keeps, hset_self, hdel_self}
use bullmq_go.Redis.Pipeline.{pipeline}
use bullmq_go.Keys
use bullmq_go.Keys.Distinct.{IsJobId, apart, wait_name, failed_name, job_name}
use bullmq_go.Queue.{Queue}
use bullmq_go.Queue.Manage.{retry_job}
use bullmq_go.Queue.Pausing.{h_get-h_del}
use bullmq_go.Invariant.Keeps.{Consistent}
use bullmq_go.Invariant.Fits.{shape, fits}
use bullmq_go.Board.{Board, view, again, in_set}
use bullmq_go.Board.Views.{view-same, as_zset-fits, as_hash-fits}
use bullmq_go.Board.Doing.{Does, Does-as}
use bullmq_go.Board.Commands.{
  Does-pipeline_nil, Does-pipeline_cons, Does-drop_failed, Does-push_waiting, Does-set_job,
  Does-del_field,
}

in_set-z_score :
    (id : Bytes) (zs : List (Bytes × ℤ))
    → in_set id zs ≡ elim (z_score id zs) [ none ↦ false | some sc ↦ true ]
unfolding in_set z_score
in_set-z_score id [] = refl
in_set-z_score id (z ∷ zs) = ground (arith, in_set-z_score id zs)

as_hash-of_fields : (fs : List (Bytes × Bytes)) → as_hash (of_fields fs) ≡ some fs
as_hash-of_fields [] = refl
as_hash-of_fields (f ∷ fs) = refl

fields-of_fields : (fs : List (Bytes × Bytes)) → fields (of_fields fs) ≡ fs
fields-of_fields [] = refl
fields-of_fields (f ∷ fs) = refl

reset_reads :
    (fs : List (Bytes × Bytes))
    → let es = h_del (codes "failedReason") (h_set ((codes "attemptsMade", codes "0") ∷ []) fs) in
      (h_get (codes "attemptsMade") es ≡ some (codes "0"))
      × (h_get (codes "failedReason") es ≡ none)
unfolding h_get h_set h_del bytes_eq
reset_reads fs =
    (refl, h_get-h_del (codes "failedReason") (h_set ((codes "attemptsMade", codes "0") ∷ []) fs))

module _ {R : Server} (L : Laws R) (H : IsHealthy R) (q : Queue) (id : Bytes) where
  zscore_keeps :
      (s : R.Store) (j : Bytes)
      → R.value (R.exec (zscore (Keys.failed q.key_builder) id) s).1 j ≡ R.value s j
  unfolding effect
  zscore_keeps = read_keeps L (zscore (Keys.failed q.key_builder) id) (λ v. refl)

  zscore_answer :
      (s : R.Store) (zs : List (Bytes × ℤ))
      → as_zset (R.value s (Keys.failed q.key_builder)) ≡ some zs
      → (R.exec (zscore (Keys.failed q.key_builder) id) s).0 ≡ or_nil (z_score id zs)
  unfolding outcome
  zscore_answer s zs e = H.answers (zscore (Keys.failed q.key_builder) id) s ∙ rw (e, when) refl

  zrem_answer :
      (s : R.Store) (zs : List (Bytes × ℤ))
      → as_zset (R.value s (Keys.failed q.key_builder)) ≡ some zs
      → (R.exec (zrem (Keys.failed q.key_builder) id) s).0
        ≡ ok (elim (z_score id zs) [ none ↦ 0 | some sc ↦ 1 ])
  unfolding outcome
  zrem_answer s zs e = H.answers (zrem (Keys.failed q.key_builder) id) s ∙ rw (e, when) refl

  abbrev pub not_found : Error
  not_found = plain (codes "job not found in failed queue: " ++ id)

  reset : Action R.Store Unit
  reset = pipeline R (
      hset (Keys.job q.key_builder id) ((codes "attemptsMade", codes "0") ∷ [])
      ∷ hdel (Keys.job q.key_builder id) (codes "failedReason")
      ∷ lpush (Keys.wait q.key_builder) id
      ∷ [])

  -- The server after the score is read and the job is out of the failed set.
  taken_out : R.Store → R.Store
  taken_out s =
      (R.exec (zrem (Keys.failed q.key_builder) id)
        (R.exec (zscore (Keys.failed q.key_builder) id) s).1).1

  -- RetryJob up to its pipeline, for a job that is in the failed set, and for one that is not.
  retry_found :
      (s : R.Store) (zs : List (Bytes × ℤ)) (sc : ℤ)
      → as_zset (R.value s (Keys.failed q.key_builder)) ≡ some zs
      → z_score id zs ≡ some sc
      → retry_job R q id s ≡ elim (reset (taken_out s)).0 [
        | ok u ↦ (ok tt, (reset (taken_out s)).1)
        | err e ↦
            (err e, (R.exec (zadd (Keys.failed q.key_builder) sc id) (reset (taken_out s)).1).1)
      ]
  unfolding retry_job ◌>>=◌ reset taken_out
  retry_found s zs sc e found =
      let removed =
        zrem_answer (R.exec (zscore (Keys.failed q.key_builder) id) s).1 zs
          (ap as_zset (zscore_keeps s (Keys.failed q.key_builder)) ∙ e) in
      elim (Result-cases (reset (taken_out s)).0) [
        | inl (u, went) ↦ ground (arith, zscore_answer s zs e, removed)
        | inr (x, refused) ↦ ground (arith, zscore_answer s zs e, removed)
      ]

  retry_missing :
      (s : R.Store) (zs : List (Bytes × ℤ))
      → as_zset (R.value s (Keys.failed q.key_builder)) ≡ some zs
      → z_score id zs ≡ none
      → retry_job R q id s ≡ (err not_found, (R.exec (zscore (Keys.failed q.key_builder) id) s).1)
  unfolding retry_job ◌>>=◌
  retry_missing s zs e missing = ground (arith, zscore_answer s zs e)

  Does-reset :
      IsJobId id → Does R q.key_builder (λ b. record b { waiting = b.waiting ++ (id ∷ []) }) reset
  unfolding reset
  Does-reset i =
      let kb = q.key_builder in
      Does-as
        (Does-pipeline_cons kb _ _ _ _ (Does-set_job L H kb id i _) (
          Does-pipeline_cons kb _ _ _ _ (Does-del_field L H kb id i _)
            (Does-pipeline_cons kb _ _ _ _ (Does-push_waiting L H kb id i) (Does-pipeline_nil kb))))
        (λ b. refl)

  taken_out-Consistent :
      (s : R.Store)
      → Consistent R q.key_builder none s
      → Consistent R q.key_builder none (taken_out s)
  unfolding taken_out
  taken_out-Consistent s h =
      (Does-drop_failed L H q.key_builder id).stays.keeps _
        (record { at = λ n v. ap (fits (shape none n)) (zscore_keeps s _) ∙ h.at n v })

  view-taken_out :
      (s : R.Store)
      → Consistent R q.key_builder none s
      → view R q.key_builder (taken_out s) ≡ record (view R q.key_builder s) {
        failed = z_remove id (members (R.value s (Keys.failed q.key_builder)));
      }
  unfolding taken_out
  view-taken_out s h =
      (Does-drop_failed L H q.key_builder id).moves _
        (record { at = λ n v. ap (fits (shape none n)) (zscore_keeps s _) ∙ h.at n v })
      ∙ ap (λ (b : Board). record b { failed = z_remove id b.failed })
          (view-same R q.key_builder s _ (zscore_keeps s))

  -- The fields of the job's hash after a retry.
  fields-reset :
      (t : R.Store) (fs : List (Bytes × Bytes))
      → IsJobId id
      → as_hash (R.value t (Keys.job q.key_builder id)) ≡ some fs
      → fields (R.value (reset t).1 (Keys.job q.key_builder id))
        ≡ h_del (codes "failedReason") (h_set ((codes "attemptsMade", codes "0") ∷ []) fs)
  unfolding reset pipeline
  fields-reset t fs i e =
      let kb = q.key_builder in
      let es = (codes "attemptsMade", codes "0") ∷ [] in
      let s1 = (R.exec (hset (Keys.job kb id) es) t).1 in
      ap fields (
        value_other L (lpush (Keys.wait kb) id) _ (Keys.job kb id)
          (apart kb (job_name id) wait_name i tt refl)
        ∙ hdel_self L H (Keys.job kb id) (codes "failedReason") s1 (h_set es fs) (
            ap as_hash (hset_self L H (Keys.job kb id) es t fs e)
            ∙ as_hash-of_fields (h_set es fs)))
      ∙ fields-of_fields _

  taken_out-job :
      (s : R.Store)
      → IsJobId id
      → R.value (taken_out s) (Keys.job q.key_builder id) ≡ R.value s (Keys.job q.key_builder id)
  unfolding taken_out
  taken_out-job s i =
      value_other L _ _ _ (apart q.key_builder (job_name id) failed_name i tt refl)
      ∙ zscore_keeps s _

  retried :
      (s : R.Store) (sc : ℤ)
      → IsJobId id
      → Consistent R q.key_builder none s
      → z_score id (members (R.value s (Keys.failed q.key_builder))) ≡ some sc
      → retry_job R q id s ≡ (ok tt, (reset (taken_out s)).1)
  retried s sc i h found =
      let zs = members (R.value s (Keys.failed q.key_builder)) in
      let (u, done) = (Does-reset i).succeeds (taken_out s) (taken_out-Consistent s h) in
      retry_found s zs sc (as_zset-fits none _ (h.at failed_name tt)) found ∙ rw done refl

  -- On a server that is up and where the queue's data is consistent, RetryJob of a job in the
  -- failed set succeeds: the job leaves the failed set and waits behind all others, no other job
  -- moves, its attempts are set to "0" and its reason of failure is gone. Where the job is not in
  -- the failed set, RetryJob says that it is not found, and neither the board nor these fields
  -- change.
  pub retry_job-again :
      (s : R.Store)
      → IsJobId id
      → Consistent R q.key_builder none s
      → let (r, s') = retry_job R q id s in
        let b = view R q.key_builder s in
        let is_failed = in_set id b.failed in
        let hash_at =
          λ (t : R.Store) (f : Bytes). h_get f (fields (R.value t (Keys.job q.key_builder id))) in
        (r ≡ (if is_failed then ok tt else err not_found))
        × (view R q.key_builder s' ≡ (if is_failed then again id b else b))
        × (hash_at s' (codes "attemptsMade")
            ≡ (if is_failed then some (codes "0") else hash_at s (codes "attemptsMade")))
        × (hash_at s' (codes "failedReason")
            ≡ (if is_failed then none else hash_at s (codes "failedReason")))
  unfolding again
  retry_job-again s i h =
      let kb = q.key_builder in
      let zs = members (R.value s (Keys.failed kb)) in
      let known = in_set-z_score id zs in
      elim (Option-cases (z_score id zs)) [
        | inl missing ↦
            let run = retry_missing s zs (as_zset-fits none _ (h.at failed_name tt)) missing in
            let same_view = view-same R kb s _ (zscore_keeps s) in
            let same_job = zscore_keeps s (Keys.job kb id) in
            ground (arith, run, same_view, same_job, known)
        | inr (sc, found) ↦
            let run = retried s sc i h found in
            let moved =
              (Does-reset i).moves (taken_out s) (taken_out-Consistent s h)
              ∙ ap (λ (b : Board). record b { waiting = b.waiting ++ (id ∷ []) })
                  (view-taken_out s h) in
            let left =
              fields-reset (taken_out s) (fields (R.value s (Keys.job kb id))) i
                (ap as_hash (taken_out-job s i) ∙ as_hash-fits _ (h.at (job_name id) i)) in
            ground
              (arith, run, moved, known, left, reset_reads (fields (R.value s (Keys.job kb id))))
      ]
