-- ===== src/Worker/Complete/Effect.antt =====
-- `Complete` on a server that is up: the job moves from the active list to the completed set.
use bullmq_go.Prelude.{
  bytes_eq, ℕ, Bytes, ◌≡◌, refl, ◌∙◌, ap, false, List, [], ◌∷◌, Option, none, some, arith, ◌==◌,
  codes,
}
use bullmq_go.Prelude.Int.{ℤ}
use bullmq_go.Errors.{Error, wrapped}
use bullmq_go.Redis.{Server, Laws, IsHealthy}
use bullmq_go.Redis.Values.{
  absent, zset, ok, err, lrem, del, zadd, as_list, as_zset, of_items, remove_count, z_place,
  z_remove,
}
use bullmq_go.Redis.Action.{◌>>=◌, explained}
use bullmq_go.Redis.Touches.{here}
use bullmq_go.Redis.Facts.{value_other, lrem_self, zadd_self, del_self, lrem_ok}
use bullmq_go.Keys
use bullmq_go.Keys.{KeyBuilder}
use bullmq_go.Keys.Distinct.{
  KeyName, key_of, IsValid, tag, apart, IsJobId, active_name, completed_name, job_name, lock_name,
  events_name,
}
use bullmq_go.Jobs.{Job, Codec}
use bullmq_go.Events.{emit_completed}
use bullmq_go.Worker.{Worker, keys_of}
use bullmq_go.Worker.Complete.{complete, store_return_value}
use bullmq_go.Worker.Complete.Moves.{IsOwn, store_return_value-Touches, emit-Touches}

module _ (R : Server) (C : Codec) (w : Worker) (job : Job C.Any) (v : Option C.Any)
    (now later : ℤ) where
  store_return_value_ok :
      (kb : KeyBuilder) (id : Bytes) (u : Option C.Any) (s : R.Store)
      → (store_return_value R C kb id u now s).0 ≡ ok tt
  unfolding store_return_value ◌>>=◌
  store_return_value_ok kb id none s = refl
  store_return_value_ok kb id (some x) s = refl

  stored : R.Store → R.Store
  stored s = (store_return_value R C (keys_of w) job.id v now s).1

  closed : R.Store → R.Store
  closed s =
      (emit_completed R C w.event_emitter (record job { return_value = v; finished_on = now }) v
        later (R.exec (del (Keys.lock (keys_of w) job.id)) s).1).1

  complete_run :
      (s : R.Store) (n : ℕ)
      → (R.exec (lrem (Keys.active (keys_of w)) 1 job.id) s).0 ≡ ok n
      → job.opts.remove_on_complete ≡ false
      → complete R C w job v now later s ≡ (
        ok tt,
        closed
            (R.exec
              (zadd (Keys.completed (keys_of w)) now job.id)
              (stored (R.exec (lrem (Keys.active (keys_of w)) 1 job.id) s).1)).1,
      )
  unfolding complete ◌>>=◌ closed stored
  complete_run s n e h = ground (
    arith,
    store_return_value_ok (keys_of w) job.id v
        (R.exec (lrem (Keys.active (keys_of w)) 1 job.id) s).1,
  )

module _ {R : Server} (L : Laws R) (C : Codec) (w : Worker) (o : IsOwn w) (job : Job C.Any)
    (i : IsJobId job.id) (v : Option C.Any) (now later : ℤ) where
  stored-other :
      (n : KeyName) (s : R.Store)
      → IsValid n
      → (tag n == 8) ≡ false
      → R.value (stored R C w job v now later s) (key_of (keys_of w) n)
        ≡ R.value s (key_of (keys_of w) n)
  unfolding stored
  stored-other n s u h =
      (store_return_value-Touches L C (Keys.job (keys_of w) job.id ∷ []) (keys_of w) job.id v now
          here).keeps
        s _ (apart (keys_of w) n (job_name job.id) u i h, tt)

  closed-other :
      (n : KeyName) (s : R.Store)
      → IsValid n
      → (tag n == 9) ≡ false
      → (tag n == 6) ≡ false
      → R.value (closed R C w job v now later s) (key_of (keys_of w) n)
        ≡ R.value s (key_of (keys_of w) n)
  unfolding closed emit_completed
  closed-other n s u h k =
      (emit-Touches L C (Keys.events (keys_of w) ∷ []) w _ o here).keeps _ _
        (apart (keys_of w) n events_name u tt k, tt)
      ∙ value_other L _ s _ (apart (keys_of w) n (lock_name job.id) u i h)

  closed-lock :
      IsHealthy R
      → (s : R.Store)
      → R.value (closed R C w job v now later s) (Keys.lock (keys_of w) job.id) ≡ absent
  unfolding closed emit_completed
  closed-lock H s =
      (emit-Touches L C (Keys.events (keys_of w) ∷ []) w _ o here).keeps _ _
        (apart (keys_of w) (lock_name job.id) events_name i tt refl, tt)
      ∙ del_self L H (Keys.lock (keys_of w) job.id) s

  -- On a server that is up, with the active list and the completed set of their types, and a job
  -- that is kept: `Complete` succeeds, takes the first occurrence of the job out of the active
  -- list, puts it in the completed set with the time of its end as its score, and leaves no lock.
  pub complete-moves :
      IsHealthy R
      → job.opts.remove_on_complete ≡ false
      → (s : R.Store) (xs : List Bytes) (zs : List (Bytes × ℤ))
      → as_list (R.value s (Keys.active (keys_of w))) ≡ some xs
      → as_zset (R.value s (Keys.completed (keys_of w))) ≡ some zs
      → let (r, s') = complete R C w job v now later s in
        (r ≡ ok tt)
        × (R.value s' (Keys.active (keys_of w)) ≡ of_items (remove_count 1 job.id xs))
        × (R.value s' (Keys.completed (keys_of w))
            ≡ zset (z_place (job.id, now) (z_remove job.id zs)))
        × (R.value s' (Keys.lock (keys_of w) job.id) ≡ absent)
  complete-moves H keep s xs zs ea ec =
      let kb = keys_of w in
      let (n, e) = lrem_ok H (Keys.active kb) 1 job.id s xs ea in
      let s1 = (R.exec (lrem (Keys.active kb) 1 job.id) s).1 in
      let s2 = stored R C w job v now later s1 in
      let placed = zadd (Keys.completed kb) now job.id in
      rw (complete_run R C w job v now later s n e keep) (
        refl,
        closed-other active_name _ tt refl refl
            ∙ value_other L placed s2 _ (apart kb active_name completed_name tt tt refl)
            ∙ stored-other active_name s1 tt refl
            ∙ lrem_self L H (Keys.active kb) 1 job.id s xs ea,
        closed-other completed_name _ tt refl refl
            ∙ zadd_self L H (Keys.completed kb) now job.id s2 zs (
                ap as_zset (
                  stored-other completed_name s1 tt refl
                  ∙ value_other L _ s _ (apart kb completed_name active_name tt tt refl))
                ∙ ec),
        closed-lock H _,
      )

  -- Where the removal from the active list fails, `Complete` returns that error, and no key but the
  -- active list has changed.
  complete_failed :
      (s : R.Store) (e : Error)
      → (R.exec (lrem (Keys.active (keys_of w)) 1 job.id) s).0 ≡ err e
      → let (r, s') = complete R C w job v now later s in
        (r ≡ err (wrapped (codes "failed to remove from active") e))
        × ((k : Bytes) → bytes_eq k (Keys.active (keys_of w)) ≡ false → R.value s' k ≡ R.value s k)
  unfolding complete ◌>>=◌
  complete_failed s e h = rw (h, explained) (refl, λ k other. value_other L _ s k other)
