-- ===== src/Worker/Heartbeat/Locks.antt =====
-- What the heartbeat's lock script does to a lock, and the manager's map.
use bullmq_go.Prelude.{
  ℕ, ◌≡◌, refl, ap, ◌∙◌, Bytes, bytes_eq, bytes_eq_refl, eq_of_bytes_eq, false, List, [], ◌∷◌, none,
  some, arith, ltb, if◌then◌else◌,
}
use bullmq_go.Prelude.Int.{ℤ, pos, leb_ℤ}
use bullmq_go.Redis.{Server, Laws, IsHealthy}
use bullmq_go.Redis.Values.{absent, text, ok, get, expire, outcome, effect, settle}
use bullmq_go.Redis.Action.{◌>>=◌}
use bullmq_go.Redis.Facts.{value_self, read_keeps}
use bullmq_go.Worker.{Worker}
use bullmq_go.Worker.Heartbeat.{
  extend_lock, whole_seconds, HeartbeatManager, loop_of, without, start_heartbeat, loop_exit,
  cancel,
}

module _ {R : Server} (L : Laws R) (H : IsHealthy R) (w : Worker) (lock_key token : Bytes) where
  get_answer :
      (s : R.Store) (held : Bytes)
      → R.value s lock_key ≡ text held
      → (R.exec (get lock_key) s).0 ≡ ok held
  unfolding outcome
  get_answer s held e = H.answers (get lock_key) s ∙ ap (outcome (get lock_key)) e

  get_keeps : (s : R.Store) (k : Bytes) → R.value (R.exec (get lock_key) s).1 k ≡ R.value s k
  unfolding effect
  get_keeps = read_keeps L (get lock_key) (λ v. refl)

  -- On a server that is up, a lock that holds another token is left as it is, and 0 is returned.
  pub extend_lock_stolen :
      (s : R.Store) (held : Bytes)
      → R.value s lock_key ≡ text held
      → bytes_eq held token ≡ false
      → let (r, s') = extend_lock R w lock_key token s in
        (r ≡ ok 0) × (R.value s' lock_key ≡ text held)
  unfolding extend_lock ◌>>=◌
  extend_lock_stolen s held e ne = ground (arith, get_answer s held e, get_keeps s lock_key)

  expire_answer :
      (t : ℤ) (s : R.Store) (held : Bytes)
      → R.value s lock_key ≡ text held
      → ((R.exec (expire lock_key t) s).0 ≡ ok 1)
        × (R.value (R.exec (expire lock_key t) s).1 lock_key
            ≡ (if leb_ℤ t (pos 0) then absent else text held))
  unfolding outcome effect
  expire_answer t s held e = (
    H.answers (expire lock_key t) s ∙ ap (outcome (expire lock_key t)) e,
    value_self L H (expire lock_key t) s ∙ ap (settle (expire lock_key t)) e,
  )

  -- On a server that is up, 1 is returned for a lock that holds the worker's own token, and the lock
  -- is kept; but where the lock duration, not negative, is below a second, the lock is deleted.
  pub extend_lock_own :
      (s : R.Store) (n : ℕ)
      → R.value s lock_key ≡ text token
      → w.opts.lock_duration ≡ pos n
      → let (r, s') = extend_lock R w lock_key token s in
        (r ≡ ok 1) × (R.value s' lock_key ≡ (if ltb n 1000000000 then absent else text token))
  unfolding extend_lock ◌>>=◌ whole_seconds
  extend_lock_own s n e d =
      let (p, q) =
        expire_answer (whole_seconds w.opts.lock_duration) (R.exec (get lock_key) s).1 token
          (get_keeps s lock_key ∙ e) in
      ground (arith, get_answer s token e, bytes_eq_refl token, p, q)

loop_of-without : (id : Bytes) (m : List (Bytes × ℕ)) → loop_of id (without id m) ≡ none
unfolding loop_of without
loop_of-without id [] = refl
loop_of-without id (e ∷ m) = ground (arith, loop_of-without id m)

loop_of-without_ne :
    (id j : Bytes) (m : List (Bytes × ℕ))
    → bytes_eq id j ≡ false
    → loop_of j (without id m) ≡ loop_of j m
unfolding loop_of without
loop_of-without_ne id j [] h = refl
loop_of-without_ne id j (e ∷ m) h =
    ground (arith, loop_of-without_ne id j m, eq_of_bytes_eq e.0 id, eq_of_bytes_eq e.0 j)

-- Starting a heartbeat gives the job a loop of its own, cancels the one that it had, and leaves
-- the loops of all other jobs in the map.
start_heartbeat-loop_of :
    (hm : HeartbeatManager) (id j : Bytes)
    → bytes_eq id j ≡ false
    → let hm' = start_heartbeat hm id in
      (loop_of id hm'.active_locks ≡ some hm.next_loop)
      × (hm'.cancelled ≡ cancel (loop_of id hm.active_locks) hm.cancelled)
      × (loop_of j hm'.active_locks ≡ loop_of j hm.active_locks)
unfolding start_heartbeat
start_heartbeat-loop_of hm id j h = ground (
  arith,
  bytes_eq_refl id,
  loop_of-without id hm.active_locks,
  loop_of-without_ne id j hm.active_locks h,
)

-- When a heartbeat is started again for a job that has one, the end of the cancelled loop removes
-- the new one from the map and cancels it too.
pub start_heartbeat_again :
    (hm : HeartbeatManager) (id : Bytes) (old : ℕ)
    → loop_of id hm.active_locks ≡ some old
    → let hm' = loop_exit (start_heartbeat hm id) id in
      (loop_of id hm'.active_locks ≡ none) × (hm'.cancelled ≡ hm.next_loop ∷ old ∷ hm.cancelled)
unfolding start_heartbeat loop_exit
start_heartbeat_again hm id old h = ground (
  arith,
  bytes_eq_refl id,
  loop_of-without id hm.active_locks,
  loop_of-without id ((id, hm.next_loop) ∷ without id hm.active_locks),
)
