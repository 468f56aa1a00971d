-- ===== src/Board/Popping.antt =====
-- The ways of a pick on the board, and the runs of a pickup.
use bullmq_go.Prelude.{
  Bytes, codes, ◌≡◌, refl, ap, ◌∙◌, true, false, inl, inr, List, [], ◌∷◌, Option-cases, none, some,
  if◌then◌else◌, arith,
}
use bullmq_go.Prelude.Int.{ℤ, pos, ◌≤ℤ◌}
use bullmq_go.Errors.{plain, redis_nil, is_redis_nil}
use bullmq_go.Redis.{Server, Laws, IsHealthy}
use bullmq_go.Redis.Values.{
  Value, absent, zset, when, Result, ok, err, hget, zpopmin, rpop, setex, lpush, outcome, settle,
  effect, as_list, as_hash, as_zset, items, h_get, pop_last,
}
use bullmq_go.Redis.Action.{◌>>=◌}
use bullmq_go.Redis.Facts.{value_other, lpush_self}
use bullmq_go.Redis.Replies.{hget_answer, zpopmin_answer}
use bullmq_go.Keys
use bullmq_go.Keys.Distinct.{apart, IsJobId, active_name, lock_name}
use bullmq_go.Worker.{Worker, keys_of}
use bullmq_go.Worker.Run.{Pickup, next_job_id, paused_field, pickup_job}
use bullmq_go.Worker.Run.Taking.{IsRunning, unpaused, taken}
use bullmq_go.Invariant.Fits.{fits, shape}
use bullmq_go.Board.{Board, Picked, refused, nothing, took, pick, view, is_one}
use bullmq_go.Board.Views.{view-exec, view-aside, as_list-fits}

-- What the caller of pickupJob learns.
abbrev pub picked : Result Pickup → Picked
picked (ok p) = took p.job_id
picked (err e) = if is_redis_nil e then nothing else refused

-- The result of a pickup with the board that it leaves.
abbrev pub seen : (R : Server) (w : Worker) → Result Pickup × R.Store → Picked × Board
seen R w r = (picked r.0, view R (keys_of w) r.1)

-- The four ways of a pick.
pub pick_paused : (b : Board) → b.is_paused ≡ true → pick b ≡ (refused, b)
unfolding pick
pick_paused b h = ground arith

pub pick_prioritized :
    (b : Board) (id : Bytes) (sc : ℤ) (zs : List (Bytes × ℤ))
    → b.is_paused ≡ false
    → b.prioritized ≡ (id, sc) ∷ zs
    → pick b ≡ (took id, record b { prioritized = zs; active = id ∷ b.active })
unfolding pick
pick_prioritized b id sc zs h e = ground arith

pub pick_waiting :
    (b : Board) (id : Bytes) (rest : List Bytes)
    → b.is_paused ≡ false
    → b.prioritized ≡ []
    → b.waiting ≡ id ∷ rest
    → pick b ≡ (took id, record b { waiting = rest; active = id ∷ b.active })
unfolding pick
pick_waiting b id rest h e f = ground arith

pub pick_nothing :
    (b : Board) → b.is_paused ≡ false → b.prioritized ≡ [] → b.waiting ≡ [] → pick b ≡ (nothing, b)
unfolding pick
pick_nothing b h e f = ground arith

pub settle-zpopmin_nil : (k : Bytes) (v : Value) → as_zset v ≡ some [] → settle (zpopmin k) v ≡ v
unfolding outcome effect
settle-zpopmin_nil k absent e = refl
settle-zpopmin_nil k (zset zs) e = ground arith
settle-zpopmin_nil k v e = cc

pub rpop_nil :
    {R : Server} (H : IsHealthy R) (k : Bytes) (s : R.Store) (xs : List Bytes)
    → as_list (R.value s k) ≡ some xs
    → pop_last xs ≡ none
    → (R.exec (rpop k) s).0 ≡ err redis_nil
unfolding outcome
rpop_nil H k s xs e q = H.answers (rpop k) s ∙ rw (e, when, q) refl

module _ {R : Server} (L : Laws R) (H : IsHealthy R) (w : Worker)
    (d : pos 1 ≤ℤ w.opts.lock_duration) where
  pub view-taken :
      (s : R.Store) (id token : Bytes)
      → IsJobId id
      → fits (shape none active_name) (R.value s (Keys.active (keys_of w))) ≡ true
      → view R (keys_of w) (taken L H w d id token s)
        ≡ record (view R (keys_of w) s) { active = id ∷ (view R (keys_of w) s).active }
  unfolding taken
  view-taken s id token i h =
      let kb = keys_of w in
      let locked = setex (Keys.lock kb id) token w.opts.lock_duration in
      let s1 = (R.exec locked s).1 in
      let aside = view-aside L kb locked s (lock_name id) i refl refl in
      view-exec L kb (lpush (Keys.active kb) id) s1 active_name tt refl refl
      ∙ ap
          (λ (b : Board). record b {
            active = items (R.value (R.exec (lpush (Keys.active kb) id) s1).1 (Keys.active kb));
          })
          aside
      ∙ ap (λ v. record (view R kb s) { active = items v })
          (lpush_self L H (Keys.active kb) id s1 _ (
            ap as_list (value_other L locked s _ (apart kb active_name (lock_name id) tt i refl))
            ∙ as_list-fits _ h))

  pub paused_run :
      (s : R.Store) (token : Bytes) (fs : List (Bytes × Bytes))
      → w.is_connected ≡ true
      → as_hash (R.value s (Keys.meta (keys_of w))) ≡ some fs
      → is_one (h_get (codes "paused") fs) ≡ true
      → pickup_job R w token s ≡ (
        err (plain (codes "queue is paused")),
        (R.exec (hget (Keys.meta (keys_of w)) (codes "paused")) s).1,
      )
  unfolding pickup_job paused_field ◌>>=◌
  paused_run s token fs c e p = elim (Option-cases (h_get (codes "paused") fs)) [
    | inl missing ↦ cc
    | inr (t, found) ↦ ground (arith, hget_answer H (Keys.meta (keys_of w)) (codes "paused") s fs e)
  ]

  pub nothing_run :
      (s : R.Store) (token : Bytes) (fs : List (Bytes × Bytes))
      → w.is_connected ≡ true
      → as_hash (R.value s (Keys.meta (keys_of w))) ≡ some fs
      → IsRunning fs
      → let s1 = (R.exec (hget (Keys.meta (keys_of w)) (codes "paused")) s).1 in
        let s2 = (R.exec (zpopmin (Keys.prioritized (keys_of w))) s1).1 in
        as_zset (R.value s1 (Keys.prioritized (keys_of w))) ≡ some []
        → (R.exec (rpop (Keys.wait (keys_of w))) s2).0 ≡ err redis_nil
        → pickup_job R w token s ≡ (err redis_nil, (R.exec (rpop (Keys.wait (keys_of w))) s2).1)
  unfolding pickup_job next_job_id ◌>>=◌
  nothing_run s token fs c em r ez e =
      let (p, asks, q) = unpaused L H w d s fs em r in
      let s1 = (R.exec (hget (Keys.meta (keys_of w)) (codes "paused")) s).1 in
      ground (arith, asks, q, zpopmin_answer H (Keys.prioritized (keys_of w)) s1 [] ez)
