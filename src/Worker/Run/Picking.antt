-- ===== src/Worker/Run/Picking.antt =====
-- Picking up a job: which job, and what the server holds for it afterwards.
use bullmq_go.Prelude.{Bytes, codes, ◌≡◌, refl, ◌∙◌, ap, true, false, List, [], ◌∷◌, some}
use bullmq_go.Prelude.Int.{ℤ, pos, ◌≤ℤ◌}
use bullmq_go.Errors.{is_empty}
use bullmq_go.Redis.{Server, Laws, IsHealthy}
use bullmq_go.Redis.Values.{
  ok, text, list, hget, zpopmin, rpop, as_list, as_hash, as_zset, of_items, of_members, pop_last,
}
use bullmq_go.Redis.Facts.{value_other, value_self}
use bullmq_go.Redis.Replies.{hget_keeps, settle-zpopmin, settle-rpop}
use bullmq_go.Keys
use bullmq_go.Keys.Distinct.{apart, IsJobId, wait_name, active_name, prioritized_name, delayed_name}
use bullmq_go.Worker.{Worker, keys_of}
use bullmq_go.Worker.Run.{pickup_job}
use bullmq_go.Worker.Run.Taking.{
  next_prioritized, next_waiting, pickup_run, taken-values, taken-other, IsRunning,
}

module _ {R : Server} (L : Laws R) (H : IsHealthy R) (w : Worker)
    (d : pos 1 ≤ℤ w.opts.lock_duration) where
  -- On a server that is up, for a connected worker with a lock duration above 0 and a queue that is
  -- not paused: the member of
  -- the prioritized set with the least score is picked up. It leaves the set, enters the active
  -- list and gets a lock with the worker's token; the wait list is left alone.
  pickup_job-prioritized :
      (s : R.Store) (id token : Bytes) (sc : ℤ) (fs : List (Bytes × Bytes)) (zs : List (Bytes × ℤ))
      (running : List Bytes)
      → w.is_connected ≡ true
      → as_hash (R.value s (Keys.meta (keys_of w))) ≡ some fs
      → IsRunning fs
      → as_zset (R.value s (Keys.prioritized (keys_of w))) ≡ some ((id, sc) ∷ zs)
      → is_empty id ≡ false
      → IsJobId id
      → as_list (R.value s (Keys.active (keys_of w))) ≡ some running
      → let (r, s') = pickup_job R w token s in
        (r ≡ ok (record { job_id = id; lock_token = token }))
        × (R.value s' (Keys.prioritized (keys_of w)) ≡ of_members zs)
        × (R.value s' (Keys.wait (keys_of w)) ≡ R.value s (Keys.wait (keys_of w)))
        × (R.value s' (Keys.active (keys_of w)) ≡ list (id ∷ running))
        × (R.value s' (Keys.lock (keys_of w) id) ≡ text token)
  pickup_job-prioritized s id token sc fs zs running c em r ez ne i ea =
      let kb = keys_of w in
      let s1 = (R.exec (hget (Keys.meta kb) (codes "paused")) s).1 in
      let s2 = (R.exec (zpopmin (Keys.prioritized kb)) s1).1 in
      let e1 = ap as_zset (hget_keeps L _ (codes "paused") s (Keys.prioritized kb)) ∙ ez in
      let still_active =
        ap as_list (
          value_other L _ s1 _ (apart kb active_name prioritized_name tt tt refl)
          ∙ hget_keeps L _ (codes "paused") s (Keys.active kb))
        ∙ ea in
      let (active_now, locked) = taken-values L H w d s2 id token running i still_active in
      rw
        (pickup_run L H w d s s2 id token fs running c em r
          (next_prioritized L H w d s1 id sc zs e1 ne) i still_active)
        (
          refl,
          taken-other L H w d prioritized_name s2 id token i tt refl refl
              ∙ value_self L H (zpopmin (Keys.prioritized kb)) s1
              ∙ settle-zpopmin (Keys.prioritized kb) id sc _ zs e1,
          taken-other L H w d wait_name s2 id token i tt refl refl
              ∙ value_other L _ s1 _ (apart kb wait_name prioritized_name tt tt refl)
              ∙ hget_keeps L _ (codes "paused") s (Keys.wait kb),
          active_now,
          locked,
        )

  -- On a server that is up, for a connected worker with a lock duration above 0 and a queue that is
  -- not paused, with nothing
  -- prioritized: the job at the end of the wait list is picked up. It leaves the list, enters the
  -- active list at its head and gets a lock with the worker's token; the delayed set is left alone.
  pickup_job-waiting :
      (s : R.Store) (id token : Bytes) (fs : List (Bytes × Bytes)) (xs rest running : List Bytes)
      → w.is_connected ≡ true
      → as_hash (R.value s (Keys.meta (keys_of w))) ≡ some fs
      → IsRunning fs
      → as_zset (R.value s (Keys.prioritized (keys_of w))) ≡ some []
      → as_list (R.value s (Keys.wait (keys_of w))) ≡ some xs
      → pop_last xs ≡ some (id, rest)
      → IsJobId id
      → as_list (R.value s (Keys.active (keys_of w))) ≡ some running
      → let (r, s') = pickup_job R w token s in
        (r ≡ ok (record { job_id = id; lock_token = token }))
        × (R.value s' (Keys.wait (keys_of w)) ≡ of_items rest)
        × (R.value s' (Keys.active (keys_of w)) ≡ list (id ∷ running))
        × (R.value s' (Keys.lock (keys_of w) id) ≡ text token)
        × (R.value s' (Keys.delayed (keys_of w)) ≡ R.value s (Keys.delayed (keys_of w)))
  pickup_job-waiting s id token fs xs rest running c em r ez ew p i ea =
      let kb = keys_of w in
      let s1 = (R.exec (hget (Keys.meta kb) (codes "paused")) s).1 in
      let s2 = (R.exec (zpopmin (Keys.prioritized kb)) s1).1 in
      let s3 = (R.exec (rpop (Keys.wait kb)) s2).1 in
      let e1 = ap as_zset (hget_keeps L _ (codes "paused") s (Keys.prioritized kb)) ∙ ez in
      let e2 =
        ap as_list (
          value_other L _ s1 _ (apart kb wait_name prioritized_name tt tt refl)
          ∙ hget_keeps L _ (codes "paused") s (Keys.wait kb))
        ∙ ew in
      let still_active =
        ap as_list (
          value_other L _ s2 _ (apart kb active_name wait_name tt tt refl)
          ∙ value_other L _ s1 _ (apart kb active_name prioritized_name tt tt refl)
          ∙ hget_keeps L _ (codes "paused") s (Keys.active kb))
        ∙ ea in
      let (active_now, locked) = taken-values L H w d s3 id token running i still_active in
      rw
        (pickup_run L H w d s s3 id token fs running c em r
          (next_waiting L H w d s1 id xs rest e1 e2 p) i still_active)
        (
          refl,
          taken-other L H w d wait_name s3 id token i tt refl refl
              ∙ value_self L H (rpop (Keys.wait kb)) s2
              ∙ settle-rpop (Keys.wait kb) _ xs id rest e2 p,
          active_now,
          locked,
          taken-other L H w d delayed_name s3 id token i tt refl refl
              ∙ value_other L _ s2 _ (apart kb delayed_name wait_name tt tt refl)
              ∙ value_other L _ s1 _ (apart kb delayed_name prioritized_name tt tt refl)
              ∙ hget_keeps L _ (codes "paused") s (Keys.delayed kb),
        )
