-- ===== src/Worker/Stalled/Races.antt =====
-- A check of the stalled jobs while a job is completed: the check has read the active list before,
-- and tests the job's lock after.
use bullmq_go.Prelude.{ℕ, Bytes, ◌≡◌, refl, ◌∙◌, ap, true, false, [], ◌∷◌, Option, none}
use bullmq_go.Prelude.Int.{ℤ, pos, negsuc, ◌≤ℤ◌}
use mathlib.Core.List.{reverse}
use bullmq_go.Redis.{Server, Laws, IsHealthy}
use bullmq_go.Redis.Values.{
  ok, absent, exists, lrange, outcome, as_list, as_hash, items, members, effect,
}
use bullmq_go.Redis.Action.{◌>>=◌}
use bullmq_go.Redis.Facts.{read_keeps}
use bullmq_go.Redis.Replies.{exists_keeps}
use bullmq_go.Keys
use bullmq_go.Keys.Distinct.{IsJobId, wait_name, active_name, completed_name, job_name}
use bullmq_go.Jobs.{Job, Codec}
use bullmq_go.Worker.{Worker, keys_of}
use bullmq_go.Worker.Complete.{complete}
use bullmq_go.Worker.Complete.Moves.{IsOwn}
use bullmq_go.Worker.Complete.Effect.{complete-moves}
use bullmq_go.Worker.Stalled.{check_each, is_job_stalled, recover_stalled_job, bump64}
use bullmq_go.Worker.Stalled.Recover.{recover_stalled_job_requeues}
use bullmq_go.Invariant.Fits.{shape, fits}
use bullmq_go.Invariant.Keeps.{Consistent}
use bullmq_go.Invariant.Rules.{IsOwnEmitter}
use bullmq_go.Invariant.Workers.{Keeps-complete}
use bullmq_go.Board.{view, in_list, in_set}
use bullmq_go.Board.Views.{as_list-fits, as_zset-fits, as_hash-fits}
use bullmq_go.Board.Members.{in_set-z_place, in_list_head, in_list-reverse}

module _ {R : Server} (L : Laws R) (H : IsHealthy R) (C : Codec) (w : Worker)
    (clock : Bytes → ℤ) where
  lrange_keeps :
      (k : Bytes) (s : R.Store) (j : Bytes)
      → R.value (R.exec (lrange k (pos 0) (negsuc 0)) s).1 j ≡ R.value s j
  unfolding effect
  lrange_keeps k = read_keeps L (lrange k (pos 0) (negsuc 0)) (λ v. refl)

  no_lock_answer : (k : Bytes) (s : R.Store) → R.value s k ≡ absent → (R.exec (exists k) s).0 ≡ ok 0
  unfolding outcome
  no_lock_answer k s e = H.answers (exists k) s ∙ ap (outcome (exists k)) e

  own_emitter : IsOwn w → IsOwnEmitter (keys_of w) w.event_emitter
  unfolding keys_of
  own_emitter o = record { same_events = cc (o.same_queue, o.same_client) }

  -- The check of one job that has no lock and goes back to the wait list.
  check_unlocked :
      (id : Bytes) (count : ℕ) (s : R.Store)
      → R.value s (Keys.lock (keys_of w) id) ≡ absent
      → let s1 = (R.exec (exists (Keys.lock (keys_of w) id)) s).1 in
        (recover_stalled_job R C w id (clock id) s1).0 ≡ ok true
        → check_each R C w clock (id ∷ []) count s
          ≡ (ok (bump64 count), (recover_stalled_job R C w id (clock id) s1).1)
  unfolding check_each is_job_stalled ◌>>=◌
  check_unlocked id count s e r = rw (no_lock_answer (Keys.lock (keys_of w) id) s e, r) refl

  -- On a server that is up and where the queue's data is consistent, with a maximum of three
  -- attempts or more: when the checker has read an active list with one job, that job is completed
  -- and kept, and the checker goes on, it counts the job as recovered, and the job is in the
  -- completed set and in the wait list at once.
  pub check_each-complete :
      IsOwn w
      → (job : Job C.Any) (v : Option C.Any) (now later : ℤ) (count : ℕ) (s : R.Store)
      → IsJobId job.id
      → job.opts.remove_on_complete ≡ false
      → pos 3 ≤ℤ w.opts.max_attempts
      → Consistent R (keys_of w) none s
      → let listed = R.exec (lrange (Keys.active (keys_of w)) (pos 0) (negsuc 0)) s in
        listed.0 ≡ ok (job.id ∷ [])
        → let (done, s1) = complete R C w job v now later listed.1 in
          let (r, s2) = check_each R C w clock (job.id ∷ []) count s1 in
          (done ≡ ok tt)
          × (r ≡ ok (bump64 count))
          × (in_set job.id (view R (keys_of w) s2).completed ≡ true)
          × (in_list job.id (view R (keys_of w) s2).waiting ≡ true)
  check_each-complete o job v now later count s i keep enough h listed =
      let kb = keys_of w in
      let s0 = (R.exec (lrange (Keys.active kb) (pos 0) (negsuc 0)) s).1 in
      let h0 : Consistent R kb none s0 = record {
        at = λ n u. ap (fits (shape none n)) (lrange_keeps (Keys.active kb) s _) ∙ h.at n u;
      } in
      let s1 = (complete R C w job v now later s0).1 in
      let h1 = (Keeps-complete L C none w (own_emitter o) job v now later i).keeps s0 h0 in
      let (done, left, kept, unlocked) =
        complete-moves L C w o job i v now later H keep s0 _ _
          (as_list-fits _ (h0.at active_name tt)) (as_zset-fits none _ (h0.at completed_name tt)) in
      let t = (R.exec (exists (Keys.lock kb job.id)) s1).1 in
      let same = exists_keeps L (Keys.lock kb job.id) s1 in
      let (again, waits, failed_same, completed_same) =
        recover_stalled_job_requeues L H C w job.id (clock job.id) i t _ _
          (ap as_hash (same _) ∙ as_hash-fits _ (h1.at (job_name job.id) i))
          (ap as_list (same _) ∙ as_list-fits _ (h1.at wait_name tt)) enough in
      let run = check_unlocked job.id count s1 unlocked again in
      rw run (
        done,
        refl,
        ap (λ u. in_set job.id (members u)) (completed_same ∙ same _ ∙ kept)
            ∙ in_set-z_place job.id now _,
        ap (λ u. in_list job.id (reverse (items u))) waits
            ∙ in_list-reverse job.id (job.id ∷ items (R.value s1 (Keys.wait kb)))
            ∙ in_list_head job.id (items (R.value s1 (Keys.wait kb))),
      )
