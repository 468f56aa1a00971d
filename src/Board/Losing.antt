-- ===== src/Board/Losing.antt =====
-- A pickup by a worker whose lock duration is not above 0, as in options that leave it out.
use bullmq_go.Prelude.{
  Bytes, codes, bytes_eq, ◌≡◌, refl, sym, subst, ap, ◌∙◌, true, false, List, [], ◌∷◌, ◌++◌, none,
  inl, inr, arith,
}
use bullmq_go.Prelude.Int.{ℤ, pos, ◌≤ℤ◌}
use bullmq_go.Errors.{Error, wrapped}
use bullmq_go.Redis.{Server, Laws, IsHealthy}
use bullmq_go.Redis.Values.{
  Result, ok, err, hget, setex, fields, items, as_list, names, invalid_expire, outcome,
}
use bullmq_go.Redis.Action.{◌>>=◌, bind_of_ok, bind_of_err, pure}
use bullmq_go.Redis.Facts.{Result-cases}
use bullmq_go.Keys
use bullmq_go.Keys.Distinct.{
  IsJobId, meta_name, prioritized_name, wait_name, apart, active_name, lock_name,
}
use bullmq_go.Worker.{Worker, keys_of}
use bullmq_go.Worker.Run.{Pickup, acquire_lock_and_activate, next_job_id, paused_field, pickup_job}
use bullmq_go.Worker.Run.Taking.{unpaused, pickup_run}
use bullmq_go.Invariant.Keeps.{Consistent}
use bullmq_go.Invariant.Rules.{Keeps-meta}
use bullmq_go.Board.Delivery.Kept.{rest_run, rest_of_pickup, next_job_id-Touches}
use bullmq_go.Redis.Replies.{hget_keeps}
use bullmq_go.Invariant.Pickups.{Returns-next_job_id}
use bullmq_go.Invariant.Fits.{shape, fits, is_job_id-IsJobId}
use bullmq_go.Board.{Board, Picked, took, pick, view, is_on, in_list, no_repeats}
use bullmq_go.Board.Views.{as_hash-fits, as_list-fits, view-aside}
use bullmq_go.Board.Members.{in_list-append, in_list-names}
use bullmq_go.Board.Popping.{picked, view-taken, pick_prioritized, pick_waiting, pick_nothing}
use bullmq_go.Board.Picking.{pickup_job-pick, IsRunning-view}
use bullmq_go.Board.Serving.{line, IsOpen, Takes-pick}

took_injective : (x y : Bytes) → took x ≡ took y → x ≡ y
took_injective x y h = cc

not_taken : (x : Error) (id : Bytes) → picked (err x) ≡ took id → ⊥
not_taken x id h = ground arith

module _ {R : Server} (L : Laws R) (H : IsHealthy R) (w : Worker)
    (d : pos 1 ≤ℤ w.opts.lock_duration) (s : R.Store) (token id : Bytes) (rest : List Bytes)
    (c : w.is_connected ≡ true) (inv : Consistent R (keys_of w) none s)
    (open_now : IsOpen (view R (keys_of w) s)) (e : line (view R (keys_of w) s) ≡ id ∷ rest) where
  asked : R.Store
  asked = (R.exec (hget (Keys.meta (keys_of w)) (codes "paused")) s).1

  Consistent-asked : Consistent R (keys_of w) none asked
  unfolding asked
  Consistent-asked =
      (Keeps-meta L (keys_of w) none (hget (Keys.meta (keys_of w)) (codes "paused")) refl
          refl).keeps
        s inv

  reads : (p : Bytes) × (paused_field R w s ≡ (ok p, asked)) × (bytes_eq p (codes "1") ≡ false)
  unfolding asked
  reads =
      unpaused L H w d s _ (as_hash-fits _ (inv.at meta_name tt))
        (IsRunning-view (fields (R.value s (Keys.meta (keys_of w)))) open_now.running)

  picks :
      (picked (pickup_job R w token s).0 ≡ took id)
      × (view R (keys_of w) (pickup_job R w token s).1 ≡ (pick (view R (keys_of w) s)).1)
  picks =
      let refines = pickup_job-pick L H w d s token c inv open_now.no_empty in
      let (got, left, still) = Takes-pick (view R (keys_of w) s) id rest open_now e in
      (ap (λ (r : Picked × Board). r.0) refines ∙ got, ap (λ (r : Picked × Board). r.1) refines)

  rest_is : pickup_job R w token s ≡ rest_of_pickup L w token asked
  rest_is = let (p, run, goes) = reads in rest_run L w s asked p token c run goes

  popped : R.Store
  popped = (next_job_id R w asked).1

  active-popped : R.value popped (Keys.active (keys_of w)) ≡ R.value s (Keys.active (keys_of w))
  unfolding popped asked
  active-popped =
      (next_job_id-Touches L w).keeps asked (Keys.active (keys_of w)) (
        apart (keys_of w) active_name prioritized_name tt tt refl,
        (apart (keys_of w) active_name wait_name tt tt refl, tt),
      )
      ∙ hget_keeps L (Keys.meta (keys_of w)) (codes "paused") s _

  -- What a pickup pops is the head of the line, and it has left its place.
  popped-head :
      (next_job_id R w asked ≡ (ok id, popped))
      × IsJobId id
      × (view R (keys_of w) popped
          ≡ record (pick (view R (keys_of w) s)).1 { active = (view R (keys_of w) s).active })
  unfolding popped asked
  popped-head = elim (Result-cases (next_job_id R w asked).0) [
    | inl (j, found) ↦
        let i =
          is_job_id-IsJobId j
            ((Returns-next_job_id L none w).returns asked Consistent-asked j found) in
        let typed = as_list-fits _ (inv.at active_name tt) in
        let next : next_job_id R w asked ≡ (ok j, popped) = ap (λ r. (r, popped)) found in
        let run =
          pickup_run L H w d s popped j token _ _ c (as_hash-fits _ (inv.at meta_name tt))
            (IsRunning-view (fields (R.value s (Keys.meta (keys_of w)))) open_now.running) next i
            (ap as_list active-popped ∙ typed) in
        let head : j ≡ id =
          took_injective j id
            (sym (ap (λ (r : Result Pickup × R.Store). picked r.0) run) ∙ picks.0) in
        let left =
          sym (
            view-taken L H w d popped j token i
              (ap (fits (shape none active_name)) active-popped ∙ inv.at active_name tt))
          ∙ sym (ap (λ (r : Result Pickup × R.Store). view R (keys_of w) r.1) run)
          ∙ picks.1 in
        (
          subst (λ x. next_job_id R w asked ≡ (ok x, popped)) head next,
          subst IsJobId head i,
          ap (λ (b : Board). record b { active = (view R (keys_of w) popped).active }) left
              ∙ ap (λ v. record (pick (view R (keys_of w) s)).1 { active = items v }) active-popped,
        )
    | inr (x, failed) ↦ absurd (
        not_taken x id (
          sym (
            ap (λ (r : Result Pickup × R.Store). picked r.0)
              (rest_is ∙ bind_of_err (next_job_id R w) _ asked x failed))
          ∙ picks.0))
  ]

-- The places but the two from which jobs are taken.
abbrev pub aside : Board → List Bytes
aside b = b.active ++ (names b.delayed ++ (names b.completed ++ names b.failed))

line_same : (b : Board) (xs : List Bytes) → line (record b { active = xs }) ≡ line b
unfolding line
line_same b xs = refl

aside_same :
    (b : Board) (zs : List (Bytes × ℤ)) (ms : List Bytes)
    → b.is_paused ≡ false
    → b.prioritized ≡ zs
    → b.waiting ≡ ms
    → aside (record (pick b).1 { active = b.active }) ≡ aside b
aside_same b ((m, sc) ∷ zs) ms p e f =
    ap (λ (r : Picked × Board). aside (record r.1 { active = b.active }))
      (pick_prioritized b m sc zs p e)
aside_same b [] (m ∷ ms) p e f =
    ap (λ (r : Picked × Board). aside (record r.1 { active = b.active }))
      (pick_waiting b m ms p e f)
aside_same b [] [] p e f =
    ap (λ (r : Picked × Board). aside (record r.1 { active = b.active })) (pick_nothing b p e f)

in_list-places : (id : Bytes) (b : Board) → in_list id (line b ++ aside b) ≡ is_on id b
unfolding line
in_list-places id b = ground (
  arith,
  in_list-append id (names b.prioritized ++ b.waiting) (aside b),
  in_list-append id (names b.prioritized) b.waiting,
  in_list-append id b.active (names b.delayed ++ (names b.completed ++ names b.failed)),
  in_list-append id (names b.delayed) (names b.completed ++ names b.failed),
  in_list-append id (names b.completed) (names b.failed),
  in_list-names id b.prioritized,
  in_list-names id b.delayed,
  in_list-names id b.completed,
  in_list-names id b.failed,
)

-- The same worker with a lock duration of a nanosecond.
abbrev with_lock : Worker → Worker
with_lock w = record w { opts = record w.opts { lock_duration = pos 1 } }

module _ {R : Server} (L : Laws R) (H : IsHealthy R) (w : Worker) where
  acquire_refused :
      (id token : Bytes) (s : R.Store)
      → w.opts.lock_duration ≤ℤ pos 0
      → acquire_lock_and_activate R w id token s ≡ (
        err (wrapped (codes "failed to acquire lock") invalid_expire),
        (R.exec (setex (Keys.lock (keys_of w) id) token w.opts.lock_duration) s).1,
      )
  unfolding acquire_lock_and_activate ◌>>=◌ outcome
  acquire_refused id token s d =
      ground (arith, H.answers (setex (Keys.lock (keys_of w) id) token w.opts.lock_duration) s)

  -- What is popped does not depend on the lock duration.
  head_popped :
      (s : R.Store) (token id : Bytes) (rest : List Bytes)
      → w.is_connected ≡ true
      → Consistent R (keys_of w) none s
      → IsOpen (view R (keys_of w) s)
      → line (view R (keys_of w) s) ≡ id ∷ rest
      → (t : R.Store) × (pickup_job R w token s
          ≡ (acquire_lock_and_activate R w id token >>= λ lock_token.
                pure (record { job_id = id; lock_token = lock_token }))
              t)
        × IsJobId id
        × (view R (keys_of w) t
            ≡ record (pick (view R (keys_of w) s)).1 { active = (view R (keys_of w) s).active })
  unfolding keys_of next_job_id paused_field ◌>>=◌ popped
  head_popped s token id rest c inv open_now e =
      let (p, asks, goes) =
        reads L H (with_lock w) (omega arith) s token id rest c inv open_now e in
      let (next, i, left) =
        popped-head L H (with_lock w) (omega arith) s token id rest c inv open_now e in
      let first = asked L H (with_lock w) (omega arith) s token id rest c inv open_now e in
      let run = rest_run L w s first p token c asks goes in
      (
        (next_job_id R w first).1,
        run
            ∙ bind_of_ok (next_job_id R w) _ first id
                (ap (λ (r : Result Bytes × R.Store). r.0) next),
        i,
        left,
      )

  -- On a server that is up and where the queue's data is consistent, for a connected worker with a
  -- lock duration of 0 or less, and a queue that is not paused, with no empty id prioritized: when
  -- no job is at two places of the board, a pickup fails, since the lock is refused, and loses the
  -- head of the line of jobs prioritized and waiting: it has left the line, as by a pick, is in no
  -- place of the board, and no other job has moved.
  pub pickup_job-loses :
      (s : R.Store) (token id : Bytes) (rest : List Bytes)
      → w.opts.lock_duration ≤ℤ pos 0
      → w.is_connected ≡ true
      → Consistent R (keys_of w) none s
      → IsOpen (view R (keys_of w) s)
      → line (view R (keys_of w) s) ≡ id ∷ rest
      → no_repeats (id ∷ (rest ++ aside (view R (keys_of w) s))) ≡ true
      → let (r, s') = pickup_job R w token s in
        let b = view R (keys_of w) s in
        (r ≡ err (wrapped (codes "failed to acquire lock") invalid_expire))
        × (view R (keys_of w) s' ≡ record (pick b).1 { active = b.active })
        × (line (view R (keys_of w) s') ≡ rest)
        × (is_on id (view R (keys_of w) s') ≡ false)
  unfolding no_repeats
  pickup_job-loses s token id rest d c inv open_now e once =
      let (t, run, i, left) = head_popped s token id rest c inv open_now e in
      let b = view R (keys_of w) s in
      let locked = setex (Keys.lock (keys_of w) id) token w.opts.lock_duration in
      let fails =
        run
        ∙ bind_of_err (acquire_lock_and_activate R w id token) _ t
            (wrapped (codes "failed to acquire lock") invalid_expire)
            (ap (λ (r : Result Bytes × R.Store). r.0) (acquire_refused id token t d))
        ∙ ap
            (λ (r : Result Bytes × R.Store).
              (err (wrapped (codes "failed to acquire lock") invalid_expire), r.1))
            (acquire_refused id token t d) in
      let moved =
        ap (λ (r : Result Pickup × R.Store). view R (keys_of w) r.1) fails
        ∙ view-aside L (keys_of w) locked t (lock_name id) i refl refl
        ∙ left in
      let (got, short, still) = Takes-pick b id rest open_now e in
      let line_left = ap line moved ∙ line_same (pick b).1 b.active ∙ short in
      let others =
        ap aside moved ∙ aside_same b b.prioritized b.waiting open_now.running refl refl in
      let s' = (pickup_job R w token s).1 in
      (
        ap (λ (r : Result Pickup × R.Store). r.0) fails,
        moved,
        line_left,
        sym (in_list-places id (view R (keys_of w) s'))
            ∙ ap (λ xs. in_list id (xs ++ aside (view R (keys_of w) s'))) line_left
            ∙ ap (λ ys. in_list id (rest ++ ys)) others
            ∙ ground (arith, once),
      )
