-- ===== src/Board/Picking.antt =====
-- A pickup on a server that is up takes the job that the board says.
use bullmq_go.Prelude.{
  Bytes, codes, bytes_eq, ◌≡◌, refl, sym, subst, ap, ◌∙◌, true, false, Bool-cases, inl, inr, List,
  [], ◌∷◌, Option-cases, none, some, arith,
}
use bullmq_go.Prelude.Int.{ℤ, pos, ◌≤ℤ◌}
use mathlib.Core.List.{reverse}
use bullmq_go.Errors.{redis_nil, is_empty}
use bullmq_go.Redis.{Server, Laws, IsHealthy}
use bullmq_go.Redis.Values.{
  h_get, Result, ok, hget, zpopmin, rpop, as_list, as_hash, items, members, fields, pop_last,
}
use bullmq_go.Redis.Facts.{value_self, refused as refused_by_server}
use bullmq_go.Redis.Replies.{hget_keeps, settle-zpopmin, settle-rpop}
use bullmq_go.Keys
use bullmq_go.Keys.Distinct.{meta_name, prioritized_name, wait_name, active_name}
use bullmq_go.Worker.{Worker, keys_of}
use bullmq_go.Worker.Run.{next_job_id, pickup_job}
use bullmq_go.Worker.Run.Taking.{IsRunning, next_prioritized, next_waiting, pickup_run}
use bullmq_go.Invariant.Fits.{is_job_id-IsJobId, z_has}
use bullmq_go.Invariant.Pickups.{Returns-next_job_id}
use bullmq_go.Invariant.Keeps.{Consistent}
use bullmq_go.Invariant.Rules.{Keeps-meta, Keeps-wait, Keeps-prioritized}
use bullmq_go.Board.{is_one, Board, refused, nothing, took, pick, view}
use bullmq_go.Board.Views.{
  view-exec, view-same, as_list-fits, as_zset-fits, as_hash-fits, items-of_items,
  members-of_members, reverse-pop_last, pop_last-nil,
}
use bullmq_go.Board.Popping.{
  seen, pick_paused, pick_prioritized, pick_waiting, pick_nothing, view-taken, paused_run,
  nothing_run, settle-zpopmin_nil, rpop_nil,
}

pub is_empty-eq : (id : Bytes) → bytes_eq id [] ≡ false → is_empty id ≡ false
unfolding is_empty bytes_eq
is_empty-eq [] h = cc
is_empty-eq (b ∷ id) h = refl

pub IsRunning-view :
    (fs : List (Bytes × Bytes)) → is_one (h_get (codes "paused") fs) ≡ false → IsRunning fs
unfolding bytes_eq
IsRunning-view fs p e = ground arith

module _ {R : Server} (L : Laws R) (H : IsHealthy R) (w : Worker)
    (d : pos 1 ≤ℤ w.opts.lock_duration) where
  module _ (s : R.Store) (token : Bytes) (c : w.is_connected ≡ true)
      (inv : Consistent R (keys_of w) none s) where
    asked : R.Store
    asked = (R.exec (hget (Keys.meta (keys_of w)) (codes "paused")) s).1

    view-asked : view R (keys_of w) asked ≡ view R (keys_of w) s
    unfolding asked
    view-asked =
        view-same R (keys_of w) s _ (hget_keeps L (Keys.meta (keys_of w)) (codes "paused") s)

    Consistent-asked : Consistent R (keys_of w) none asked
    unfolding asked
    Consistent-asked =
        (Keeps-meta L (keys_of w) none (hget (Keys.meta (keys_of w)) (codes "paused")) refl
            refl).keeps
          s inv

    meta-fields :
        as_hash (R.value s (Keys.meta (keys_of w)))
        ≡ some (fields (R.value s (Keys.meta (keys_of w))))
    meta-fields = as_hash-fits _ (inv.at meta_name tt)

    when_paused :
        (view R (keys_of w) s).is_paused ≡ true
        → seen R w (pickup_job R w token s) ≡ pick (view R (keys_of w) s)
    unfolding asked
    when_paused p =
        rw (paused_run L H w d s token _ c meta-fields p, pick_paused (view R (keys_of w) s) p)
          (ap (λ (b : Board). (refused, b)) view-asked)

    popped_state : R.Store
    popped_state = (R.exec (zpopmin (Keys.prioritized (keys_of w))) asked).1

    Consistent-popped_state : Consistent R (keys_of w) none popped_state
    unfolding popped_state
    Consistent-popped_state =
        (Keeps-prioritized L (keys_of w) none (zpopmin (Keys.prioritized (keys_of w))) refl
            refl).keeps
          asked Consistent-asked

    -- The rest of a pickup where the next job was found at state `s'`.
    when_found :
        (s' : R.Store) (id : Bytes)
        → (view R (keys_of w) s).is_paused ≡ false
        → next_job_id R w asked ≡ (ok id, s')
        → Consistent R (keys_of w) none s'
        → seen R w (pickup_job R w token s) ≡ (
          took id,
          record (view R (keys_of w) s') { active = id ∷ (view R (keys_of w) s').active },
        )
    unfolding asked
    when_found s' id p e after =
        let i = is_job_id-IsJobId id (
          (Returns-next_job_id L none w).returns asked Consistent-asked id
            (ap (λ (r : Result Bytes × R.Store). r.0) e)) in
        rw
          (pickup_run L H w d s s' id token _ _ c meta-fields
            (IsRunning-view (fields (R.value s (Keys.meta (keys_of w)))) p) e i
            (as_list-fits _ (after.at active_name tt)))
          (ap (λ (b : Board). (took id, b))
            (view-taken L H w d s' id token i (after.at active_name tt)))

    view-popped_state : view R (keys_of w) popped_state ≡ record (view R (keys_of w) asked) {
      prioritized = members (R.value popped_state (Keys.prioritized (keys_of w)));
    }
    unfolding popped_state
    view-popped_state =
        view-exec L (keys_of w) (zpopmin (Keys.prioritized (keys_of w))) asked prioritized_name tt
          refl refl

    when_prioritized :
        (id : Bytes) (sc : ℤ) (zs : List (Bytes × ℤ))
        → (view R (keys_of w) asked).is_paused ≡ false
        → (view R (keys_of w) asked).prioritized ≡ (id, sc) ∷ zs
        → is_empty id ≡ false
        → seen R w (pickup_job R w token s) ≡ pick (view R (keys_of w) asked)
    unfolding popped_state
    when_prioritized id sc zs p e ne =
        let prio = Keys.prioritized (keys_of w) in
        let typed = as_zset-fits none _ (Consistent-asked.at prioritized_name tt) ∙ ap some e in
        let left = value_self L H (zpopmin prio) asked ∙ settle-zpopmin prio id sc _ zs typed in
        when_found popped_state id (subst (λ (b : Board). b.is_paused ≡ false) view-asked p)
          (next_prioritized L H w d asked id sc zs typed ne) Consistent-popped_state
        ∙ ap (λ (b : Board). (took id, record b { active = id ∷ b.active }))
            (view-popped_state
              ∙ ap (λ v. record (view R (keys_of w) asked) { prioritized = members v }) left
              ∙ ap (λ ys. record (view R (keys_of w) asked) { prioritized = ys })
                  (members-of_members zs))
        ∙ sym (pick_prioritized (view R (keys_of w) asked) id sc zs p e)

    waiting_now : List Bytes
    waiting_now = items (R.value popped_state (Keys.wait (keys_of w)))

    typed_wait : as_list (R.value popped_state (Keys.wait (keys_of w))) ≡ some waiting_now
    unfolding waiting_now
    typed_wait = as_list-fits _ (Consistent-popped_state.at wait_name tt)

    shifted_state : R.Store
    shifted_state = (R.exec (rpop (Keys.wait (keys_of w))) popped_state).1

    Consistent-shifted_state : Consistent R (keys_of w) none shifted_state
    unfolding shifted_state
    Consistent-shifted_state =
        (Keeps-wait L (keys_of w) none (rpop (Keys.wait (keys_of w))) refl refl).keeps popped_state
          Consistent-popped_state

    -- Nothing is popped from a prioritized set that is empty.
    view-unpopped :
        (view R (keys_of w) asked).prioritized ≡ []
        → view R (keys_of w) popped_state ≡ view R (keys_of w) asked
    unfolding popped_state
    view-unpopped e =
        let prio = Keys.prioritized (keys_of w) in
        let typed = as_zset-fits none _ (Consistent-asked.at prioritized_name tt) ∙ ap some e in
        view-popped_state
        ∙ ap (λ v. record (view R (keys_of w) asked) { prioritized = members v })
            (value_self L H (zpopmin prio) asked ∙ settle-zpopmin_nil prio _ typed)

    when_waiting :
        (id : Bytes) (rest : List Bytes)
        → (view R (keys_of w) asked).is_paused ≡ false
        → (view R (keys_of w) asked).prioritized ≡ []
        → pop_last waiting_now ≡ some (id, rest)
        → seen R w (pickup_job R w token s) ≡ pick (view R (keys_of w) asked)
    unfolding popped_state shifted_state waiting_now
    when_waiting id rest p e q =
        let wait = Keys.wait (keys_of w) in
        let typed = as_zset-fits none _ (Consistent-asked.at prioritized_name tt) ∙ ap some e in
        let left =
          value_self L H (rpop wait) popped_state
          ∙ settle-rpop wait _ waiting_now id rest typed_wait q in
        let order =
          sym (ap (λ (b : Board). b.waiting) (view-unpopped e))
          ∙ reverse-pop_last waiting_now id rest q in
        when_found shifted_state id (subst (λ (b : Board). b.is_paused ≡ false) view-asked p)
          (next_waiting L H w d asked id waiting_now rest typed typed_wait q)
          Consistent-shifted_state
        ∙ ap (λ (b : Board). (took id, record b { active = id ∷ b.active }))
            (view-exec L (keys_of w) (rpop wait) popped_state wait_name tt refl refl
              ∙ ap (λ v. record (view R (keys_of w) popped_state) { waiting = reverse (items v) })
                  left
              ∙ ap (λ ys. record (view R (keys_of w) popped_state) { waiting = reverse ys })
                  (items-of_items rest)
              ∙ ap (λ (b : Board). record b { waiting = reverse rest }) (view-unpopped e))
        ∙ sym (pick_waiting (view R (keys_of w) asked) id (reverse rest) p e order)

    when_nothing :
        (view R (keys_of w) asked).is_paused ≡ false
        → (view R (keys_of w) asked).prioritized ≡ []
        → pop_last waiting_now ≡ none
        → seen R w (pickup_job R w token s) ≡ pick (view R (keys_of w) asked)
    unfolding asked popped_state shifted_state waiting_now
    when_nothing p e q =
        let wait = Keys.wait (keys_of w) in
        let typed = as_zset-fits none _ (Consistent-asked.at prioritized_name tt) ∙ ap some e in
        let answer = rpop_nil H wait popped_state waiting_now typed_wait q in
        let none_left =
          sym (ap (λ (b : Board). b.waiting) (view-unpopped e)) ∙ pop_last-nil waiting_now q in
        rw
          (
            nothing_run L H w d s token _ c meta-fields
                (IsRunning-view _ (subst (λ (b : Board). b.is_paused ≡ false) view-asked p)) typed
                answer,
            pick_nothing (view R (keys_of w) asked) p e none_left,
          )
          (ap (λ (b : Board). (nothing, b))
            (view-same R (keys_of w) popped_state shifted_state
                (refused_by_server L H (rpop wait) popped_state redis_nil answer)
              ∙ view-unpopped e))

    first_of :
        (zs : List (Bytes × ℤ))
        → (view R (keys_of w) asked).is_paused ≡ false
        → (view R (keys_of w) asked).prioritized ≡ zs
        → z_has [] zs ≡ false
        → seen R w (pickup_job R w token s) ≡ pick (view R (keys_of w) asked)
    unfolding z_has
    first_of [] p e h = elim (Option-cases (pop_last waiting_now)) [
      | inl q ↦ when_nothing p e q
      | inr ((id, rest), q) ↦ when_waiting id rest p e q
    ]
    first_of ((id, sc) ∷ zs) p e h = when_prioritized id sc zs p e (is_empty-eq id (ground arith))

    -- On a server that is up and where the queue's data is consistent, for a connected worker with
    -- a lock duration above 0, and with no empty id prioritized: a pickup does what the board
    -- says, on every branch. It is refused on a queue that is paused, takes the first job by
    -- priority, else the one that waits for the longest, else finds nothing, and moves the job
    -- that it takes to the active list and no other.
    pub pickup_job-pick :
        z_has [] (view R (keys_of w) s).prioritized ≡ false
        → seen R w (pickup_job R w token s) ≡ pick (view R (keys_of w) s)
    pickup_job-pick h = elim (Bool-cases (view R (keys_of w) s).is_paused) [
      | inl p ↦ when_paused p
      | inr p ↦
          first_of _ (ap (λ (b : Board). b.is_paused) view-asked ∙ p) refl
            (ap (λ (b : Board). z_has [] b.prioritized) view-asked ∙ h)
          ∙ ap pick view-asked
    ]
