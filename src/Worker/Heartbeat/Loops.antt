-- ===== src/Worker/Heartbeat/Loops.antt =====
-- The loop of a heartbeat, tick by tick.
use bullmq_go.Prelude.{
  ℕ, ltb, ◌≤◌, suc, sym, subst, ◌+◌, ◌%◌, ◌^◌, ◌<◌, ◌≡◌, refl, ap, ◌∙◌, Bytes, bytes_eq, false,
  List, [], ◌∷◌, arith,
}
use bullmq_go.Prelude.Int.{pos}
use bullmq_go.Redis.{Server, Laws, IsHealthy}
use bullmq_go.Redis.Values.{Result, text, ok}
use bullmq_go.Redis.Action.{pure}
use bullmq_go.Worker.{Worker}
use bullmq_go.Worker.Heartbeat.{
  HeartbeatManager, Wake, context_done, manager_stopped, tick, heartbeat_loop, extend_lock,
  count_tick, loop_exit,
}
use bullmq_go.Worker.Heartbeat.Locks.{extend_lock_stolen, extend_lock_own}

-- The ticks before the loop ends.
unfoldable pub ticks : {St : Type 0} → List (Wake St) → ℕ
ticks [] = 0
ticks (context_done ∷ wakes) = 0
ticks (manager_stopped ∷ wakes) = 0
ticks (tick others ∷ wakes) = suc (ticks wakes)

module _ (R : Server) (lock_key held : Bytes) where
  -- The others leave a lock with the token `held` as it is.
  abbrev pub LeaveIt : List (Wake R.Store) → Type 0
  LeaveIt [] = Unit {0}
  LeaveIt (context_done ∷ wakes) = LeaveIt wakes
  LeaveIt (manager_stopped ∷ wakes) = LeaveIt wakes
  LeaveIt (tick others ∷ wakes) =
      ((s : R.Store) → R.value s lock_key ≡ text held → R.value (others s) lock_key ≡ text held)
      × LeaveIt wakes

-- The loop has ended, or waits again, with so many failures counted and the lock held by `held`.
abbrev pub EndsWith : (R : Server) → Bytes → ℕ → Bytes → Result HeartbeatManager × R.Store → Type 0
EndsWith R lock_key failures held (r, s) =
    (hm : HeartbeatManager) × (r ≡ ok hm)
    × (hm.failure_count ≡ failures)
    × (R.value s lock_key ≡ text held)

module _ {R : Server} (L : Laws R) (H : IsHealthy R) (w : Worker) (lock_key id token : Bytes) where
  loop_tick :
      (others : R.Store → R.Store) (wakes : List (Wake R.Store)) (hm : HeartbeatManager)
      (s : R.Store) (result : Result ℕ)
      → (extend_lock R w lock_key token (others s)).0 ≡ result
      → heartbeat_loop R w lock_key id token (tick others ∷ wakes) hm s
        ≡ heartbeat_loop R w lock_key id token wakes
            (count_tick hm result)
            (extend_lock R w lock_key token (others s)).1
  unfolding heartbeat_loop
  loop_tick others wakes hm s result e =
      ap
        (λ r.
          heartbeat_loop R w lock_key id token wakes (count_tick hm r)
            (extend_lock R w lock_key token (others s)).1)
        e

  -- On a server that is up, while the lock holds another token and others leave it so, the loop
  -- leaves it so too, whatever wakes it, and counts each tick before its end as a failure, modulo
  -- 2^64.
  pub heartbeat_loop_stolen :
      (wakes : List (Wake R.Store)) (held : Bytes) (hm : HeartbeatManager) (s : R.Store)
      → bytes_eq held token ≡ false
      → hm.failure_count < 2 ^ 64
      → R.value s lock_key ≡ text held
      → LeaveIt R lock_key held wakes
      → EndsWith R lock_key
          ((hm.failure_count + ticks wakes) % 2 ^ 64)
          held
          (heartbeat_loop R w lock_key id token wakes hm s)
  unfolding heartbeat_loop ticks pure loop_exit count_tick
  heartbeat_loop_stolen [] held hm s ne b e others = (hm, refl, omega arith, e)
  heartbeat_loop_stolen (context_done ∷ wakes) held hm s ne b e others =
      (loop_exit hm id, refl, omega arith, e)
  heartbeat_loop_stolen (manager_stopped ∷ wakes) held hm s ne b e others =
      (loop_exit hm id, refl, omega arith, e)
  heartbeat_loop_stolen (tick f ∷ wakes) held hm s ne b e (left, others) =
      let (r, kept) = extend_lock_stolen L H w lock_key token (f s) held (left s e) ne in
      let hm1 = record hm { failure_count = (hm.failure_count + 1) % 2 ^ 64 } in
      let (hm', done, counted, still) =
        heartbeat_loop_stolen wakes held hm1 (extend_lock R w lock_key token (f s)).1 ne
          (omega arith) kept others in
      subst (EndsWith R lock_key ((hm.failure_count + suc (ticks wakes)) % 2 ^ 64) held)
        (sym (loop_tick f wakes hm s (ok 0) r)) (hm', done, counted ∙ omega arith, still)

  -- On a server that is up, with a lock duration of a second or more: while the lock holds the
  -- worker's own token and others leave it so, the loop keeps the lock and counts no failure,
  -- whatever the number of ticks.
  pub heartbeat_loop_own :
      (wakes : List (Wake R.Store)) (n : ℕ) (hm : HeartbeatManager) (s : R.Store)
      → w.opts.lock_duration ≡ pos n
      → 1000000000 ≤ n
      → R.value s lock_key ≡ text token
      → LeaveIt R lock_key token wakes
      → EndsWith R lock_key hm.failure_count token (heartbeat_loop R w lock_key id token wakes hm s)
  unfolding heartbeat_loop pure loop_exit count_tick
  heartbeat_loop_own [] n hm s d enough e others = (hm, refl, refl, e)
  heartbeat_loop_own (context_done ∷ wakes) n hm s d enough e others =
      (loop_exit hm id, refl, refl, e)
  heartbeat_loop_own (manager_stopped ∷ wakes) n hm s d enough e others =
      (loop_exit hm id, refl, refl, e)
  heartbeat_loop_own (tick f ∷ wakes) n hm s d enough e (left, others) =
      let (r, kept) = extend_lock_own L H w lock_key token (f s) n (left s e) d in
      let long : ltb n 1000000000 ≡ false = ground arith in
      let (hm', done, counted, still) =
        heartbeat_loop_own wakes n hm (extend_lock R w lock_key token (f s)).1 d enough
          (kept ∙ rw long refl) others in
      subst (EndsWith R lock_key hm.failure_count token) (sym (loop_tick f wakes hm s (ok 1) r))
        (hm', done, counted, still)
