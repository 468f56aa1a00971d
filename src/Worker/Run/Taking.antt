-- ===== src/Worker/Run/Taking.antt =====
-- The steps of a pickup on a server that is up.
use bullmq_go.Prelude.{
  Bytes, codes, bytes_eq, eq_of_bytes_eq, Option-cases, ◌==◌, ◌≡◌, ◌≢◌, inl, inr, refl, ◌∙◌, ap,
  true, false, List, [], ◌∷◌, some, arith,
}
use bullmq_go.Prelude.Int.{ℤ, pos, ◌≤ℤ◌}
use bullmq_go.Errors.{is_empty}
use bullmq_go.Redis.{Server, Laws, IsHealthy}
use bullmq_go.Redis.Values.{
  ok, text, list, hget, zpopmin, rpop, setex, lpush, outcome, as_list, as_hash, as_zset, h_get,
  pop_last,
}
use bullmq_go.Redis.Action.{◌>>=◌}
use bullmq_go.Redis.Facts.{value_other, lpush_self, setex_self, lpush_ok}
use bullmq_go.Redis.Replies.{hget_answer, zpopmin_answer, rpop_answer}
use bullmq_go.Keys
use bullmq_go.Keys.Distinct.{KeyName, key_of, apart, IsValid, IsJobId, tag, active_name, lock_name}
use bullmq_go.Worker.{Worker, keys_of}
use bullmq_go.Worker.Run.{acquire_lock_and_activate, next_job_id, paused_field, pickup_job}

-- The field "paused" does not hold "1".
abbrev pub IsRunning : List (Bytes × Bytes) → Type 0
IsRunning fs = h_get (codes "paused") fs ≢ some (codes "1")

module _ {R : Server} (L : Laws R) (H : IsHealthy R) (w : Worker)
    (d : pos 1 ≤ℤ w.opts.lock_duration) where
  pub acquire_run :
      (id token : Bytes) (s : R.Store) (running : List Bytes)
      → IsJobId id
      → as_list (R.value s (Keys.active (keys_of w))) ≡ some running
      → acquire_lock_and_activate R w id token s ≡ (
        ok token,
        (R.exec
            (lpush (Keys.active (keys_of w)) id)
            (R.exec (setex (Keys.lock (keys_of w) id) token w.opts.lock_duration) s).1).1,
      )
  unfolding acquire_lock_and_activate ◌>>=◌ outcome
  acquire_run id token s running i e = ground (
    arith,
    H.answers (setex (Keys.lock (keys_of w) id) token w.opts.lock_duration) s,
    lpush_ok H (Keys.active (keys_of w)) id
        (R.exec (setex (Keys.lock (keys_of w) id) token w.opts.lock_duration) s).1 running
        (ap as_list (value_other L _ s _ (apart (keys_of w) active_name (lock_name id) tt i refl))
          ∙ e),
  )

  pub unpaused :
      (s : R.Store) (fs : List (Bytes × Bytes))
      → as_hash (R.value s (Keys.meta (keys_of w))) ≡ some fs
      → IsRunning fs
      → (p : Bytes) × (paused_field R w s
          ≡ (ok p, (R.exec (hget (Keys.meta (keys_of w)) (codes "paused")) s).1))
        × (bytes_eq p (codes "1") ≡ false)
  unfolding paused_field ◌>>=◌ bytes_eq
  unpaused s fs e h = elim (Option-cases (h_get (codes "paused") fs)) [
    | inl missing ↦
        ([], ground (arith, hget_answer H (Keys.meta (keys_of w)) (codes "paused") s fs e), refl)
    | inr (p, found) ↦ (
      p,
      ground (arith, hget_answer H (Keys.meta (keys_of w)) (codes "paused") s fs e),
      ground (arith, eq_of_bytes_eq p (codes "1")),
    )
  ]

  pub next_prioritized :
      (s : R.Store) (id : Bytes) (sc : ℤ) (zs : List (Bytes × ℤ))
      → as_zset (R.value s (Keys.prioritized (keys_of w))) ≡ some ((id, sc) ∷ zs)
      → is_empty id ≡ false
      → next_job_id R w s ≡ (ok id, (R.exec (zpopmin (Keys.prioritized (keys_of w))) s).1)
  unfolding next_job_id ◌>>=◌
  next_prioritized s id sc zs e ne =
      ground (arith, zpopmin_answer H (Keys.prioritized (keys_of w)) s ((id, sc) ∷ zs) e)

  pub next_waiting :
      (s : R.Store) (id : Bytes) (xs rest : List Bytes)
      → as_zset (R.value s (Keys.prioritized (keys_of w))) ≡ some []
      → as_list
          (R.value (R.exec (zpopmin (Keys.prioritized (keys_of w))) s).1 (Keys.wait (keys_of w)))
        ≡ some xs
      → pop_last xs ≡ some (id, rest)
      → next_job_id R w s ≡ (
        ok id,
        (R.exec
            (rpop (Keys.wait (keys_of w)))
            (R.exec (zpopmin (Keys.prioritized (keys_of w))) s).1).1,
      )
  unfolding next_job_id ◌>>=◌
  next_waiting s id xs rest ez ew p = ground (
    arith,
    zpopmin_answer H (Keys.prioritized (keys_of w)) s [] ez,
    rpop_answer H (Keys.wait (keys_of w)) (R.exec (zpopmin (Keys.prioritized (keys_of w))) s).1 xs
        id rest ew p,
  )

  -- The server after a pickup that found the job at state `s`.
  unfoldable pub taken : Bytes → Bytes → R.Store → R.Store
  taken id token s =
      (R.exec (lpush (Keys.active (keys_of w)) id)
        (R.exec (setex (Keys.lock (keys_of w) id) token w.opts.lock_duration) s).1).1

  pub pickup_run :
      (s s' : R.Store) (id token : Bytes) (fs : List (Bytes × Bytes)) (running : List Bytes)
      → w.is_connected ≡ true
      → as_hash (R.value s (Keys.meta (keys_of w))) ≡ some fs
      → IsRunning fs
      → next_job_id R w (R.exec (hget (Keys.meta (keys_of w)) (codes "paused")) s).1 ≡ (ok id, s')
      → IsJobId id
      → as_list (R.value s' (Keys.active (keys_of w))) ≡ some running
      → pickup_job R w token s
        ≡ (ok (record { job_id = id; lock_token = token }), taken id token s')
  unfolding pickup_job ◌>>=◌ taken
  pickup_run s s' id token fs running c em r found i ea =
      let (p, e, q) = unpaused s fs em r in
      ground (arith, e, q, found, acquire_run id token s' running i ea)

  pub taken-values :
      (s : R.Store) (id token : Bytes) (running : List Bytes)
      → IsJobId id
      → as_list (R.value s (Keys.active (keys_of w))) ≡ some running
      → (R.value (taken id token s) (Keys.active (keys_of w)) ≡ list (id ∷ running))
        × (R.value (taken id token s) (Keys.lock (keys_of w) id) ≡ text token)
  unfolding taken
  taken-values s id token running i e = (
    lpush_self L H _ id _ running (
        ap as_list (value_other L _ s _ (apart (keys_of w) active_name (lock_name id) tt i refl))
        ∙ e),
    value_other L _ _ _ (apart (keys_of w) (lock_name id) active_name i tt refl)
        ∙ setex_self L H _ token _ s d,
  )

  pub taken-other :
      (n : KeyName) (s : R.Store) (id token : Bytes)
      → IsJobId id
      → IsValid n
      → (tag n == 3) ≡ false
      → (tag n == 9) ≡ false
      → R.value (taken id token s) (key_of (keys_of w) n) ≡ R.value s (key_of (keys_of w) n)
  unfolding taken
  taken-other n s id token i u a b =
      value_other L _ _ _ (apart (keys_of w) n active_name u tt a)
      ∙ value_other L _ s _ (apart (keys_of w) n (lock_name id) u i b)
