-- ===== src/Worker/Run/Failing.antt =====
-- What a failed run of a job does on a server that is up: a retry through the delayed set, or the
-- failed set.
use bullmq_go.Prelude.{
  Bytes, codes, ◌==◌, ◌≡◌, ◌⊎◌, refl, ◌∙◌, ap, false, List, [], ◌∷◌, some, arith,
}
use bullmq_go.Prelude.Int.{ℤ, pos, ◌+ℤ◌, ◌≤ℤ◌}
use bullmq_go.Errors.{Error, category_permanent, categorize_error, error_string}
use bullmq_go.Redis.{Server, Laws, IsHealthy}
use bullmq_go.Redis.Values.{
  ok, absent, zset, lrem, zadd, hset, del, as_list, as_zset, of_items, remove_count, z_place,
  z_remove,
}
use bullmq_go.Redis.Action.{◌>>=◌}
use bullmq_go.Redis.Touches.{here}
use bullmq_go.Redis.Facts.{value_other, lrem_self, zadd_self, del_self}
use bullmq_go.Keys
use bullmq_go.Keys.Distinct.{
  KeyName, key_of, apart, IsValid, IsJobId, tag, active_name, delayed_name, failed_name, job_name,
  lock_name, events_name,
}
use bullmq_go.Jobs.{Job, Codec}
use bullmq_go.Retry.{Float64, calculate_backoff}
use bullmq_go.Queue.Manage.{unix_milli}
use bullmq_go.Events.{emit_failed}
use bullmq_go.Worker.{Worker, keys_of}
use bullmq_go.Worker.Complete.Moves.{IsOwn, emit-Touches}
use bullmq_go.Worker.Run.{handle_job_failure, move_to_failed}

module _ {R : Server} (L : Laws R) (H : IsHealthy R) (C : Codec) (fl : Float64) (w : Worker)
    (job : Job C.Any) (i : IsJobId job.id) (e : Error) (random : fl.F) (now later : ℤ) where
  -- When the retry is due, in milliseconds.
  abbrev pub due : ℤ
  due = unix_milli (
      now
      +ℤ calculate_backoff fl (job.attempts_made +ℤ pos 1) w.opts.backoff_delay
          w.opts.max_backoff_delay random)

  abbrev delayed_state : R.Store → R.Store
  delayed_state s =
      (R.exec (zadd (Keys.delayed (keys_of w)) due job.id)
        (R.exec (lrem (Keys.active (keys_of w)) 1 job.id) s).1).1

  abbrev unlocked_state : R.Store → R.Store
  unlocked_state s =
      (R.exec (del (Keys.lock (keys_of w) job.id))
        (R.exec (lrem (Keys.active (keys_of w)) 1 job.id) s).1).1

  abbrev failed_state : R.Store → R.Store
  failed_state s =
      (R.exec (hset (Keys.job (keys_of w) job.id) ((codes "failedReason", error_string e) ∷ []))
        (R.exec (zadd (Keys.failed (keys_of w)) (unix_milli now) job.id) (unlocked_state s)).1).1

  fail_run :
      (s : R.Store)
      → (categorize_error e ≡ category_permanent) ⊎ (job.opts.attempts ≤ℤ job.attempts_made)
      → job.opts.remove_on_fail ≡ false
      → handle_job_failure R C fl w job e random now later s
        ≡ (ok tt, (emit_failed R C w.event_emitter job e later (failed_state s)).1)
  unfolding handle_job_failure move_to_failed ◌>>=◌
  fail_run s c h = ground arith

  -- On a server that is up, with the active list and the failed set of their types: a job that
  -- fails with a permanent error, or with its limit of attempts counted, and that is kept, moves from the active list to the failed set with the time of its failure as its score;
  -- its lock is released, and the delayed set stays as it was.
  handle_job_failure-fails :
      IsOwn w
      → (categorize_error e ≡ category_permanent) ⊎ (job.opts.attempts ≤ℤ job.attempts_made)
      → job.opts.remove_on_fail ≡ false
      → (s : R.Store) (xs : List Bytes) (zs : List (Bytes × ℤ))
      → as_list (R.value s (Keys.active (keys_of w))) ≡ some xs
      → as_zset (R.value s (Keys.failed (keys_of w))) ≡ some zs
      → let s' = (handle_job_failure R C fl w job e random now later s).1 in
        (R.value s' (Keys.active (keys_of w)) ≡ of_items (remove_count 1 job.id xs))
        × (R.value s' (Keys.failed (keys_of w))
            ≡ zset (z_place (job.id, unix_milli now) (z_remove job.id zs)))
        × (R.value s' (Keys.lock (keys_of w) job.id) ≡ absent)
        × (R.value s' (Keys.delayed (keys_of w)) ≡ R.value s (Keys.delayed (keys_of w)))
  unfolding emit_failed
  handle_job_failure-fails o c keep s xs zs ea ef =
      let kb = keys_of w in
      let s1 = (R.exec (lrem (Keys.active kb) 1 job.id) s).1 in
      let s2 = unlocked_state s in
      rw (fail_run s c keep) (
        end active_name _ tt refl refl
            ∙ value_other L _ s2 _ (apart kb active_name failed_name tt tt refl)
            ∙ value_other L _ s1 _ (apart kb active_name (lock_name job.id) tt i refl)
            ∙ lrem_self L H _ 1 job.id s xs ea,
        end failed_name _ tt refl refl
            ∙ zadd_self L H _ (unix_milli now) job.id s2 zs (
                ap as_zset (
                  value_other L _ s1 _ (apart kb failed_name (lock_name job.id) tt i refl)
                  ∙ value_other L _ s _ (apart kb failed_name active_name tt tt refl))
                ∙ ef),
        end (lock_name job.id) _ i refl refl
            ∙ value_other L _ s2 _ (apart kb (lock_name job.id) failed_name i tt refl)
            ∙ del_self L H _ s1,
        end delayed_name _ tt refl refl
            ∙ value_other L _ s2 _ (apart kb delayed_name failed_name tt tt refl)
            ∙ value_other L _ s1 _ (apart kb delayed_name (lock_name job.id) tt i refl)
            ∙ value_other L _ s _ (apart kb delayed_name active_name tt tt refl),
      )
    where
      end :
          (n : KeyName) (u : R.Store)
          → IsValid n
          → (tag n == 8) ≡ false
          → (tag n == 6) ≡ false
          → R.value
              (emit_failed R C w.event_emitter job e later
                (R.exec
                  (hset (Keys.job (keys_of w) job.id) ((codes "failedReason", error_string e) ∷ []))
                  u).1).1
              (key_of (keys_of w) n)
            ≡ R.value u (key_of (keys_of w) n)
      end n u v p q =
          (emit-Touches L C (Keys.events (keys_of w) ∷ []) w _ o here).keeps _ _
            (apart (keys_of w) n events_name v tt q, tt)
          ∙ value_other L _ u _ (apart (keys_of w) n (job_name job.id) v i p)
