-- ===== src/Board/Sharing/Locks.antt =====
-- The lock of the job at the head of the line after a pickup, and the locks of all others.
use bullmq_go.Prelude.{
  Bytes, codes, ◌==◌, bytes_eq, ◌≡◌, refl, sym, subst, ap, ◌∙◌, true, false, List, [], ◌∷◌, ◌++◌,
  none, some, arith, Option-cases, inl, inr,
}
use bullmq_go.Prelude.Int.{ℤ, pos, ◌≤ℤ◌}
use mathlib.Core.List.{reverse}
use bullmq_go.Redis.{Server, Laws, IsHealthy}
use bullmq_go.Redis.Values.{
  ok, text, hget, zpopmin, rpop, as_list, as_zset, items, members, fields, names, pop_last,
}
use bullmq_go.Redis.Facts.{value_other}
use bullmq_go.Redis.Replies.{hget_keeps}
use bullmq_go.Keys
use bullmq_go.Keys.Distinct.{
  KeyName, IsJobId, IsValid, apart, key_of, tag, wait_name, active_name, prioritized_name,
  meta_name, lock_name,
}
use bullmq_go.Worker.{Worker, keys_of}
use bullmq_go.Worker.Run.{pickup_job, next_job_id}
use bullmq_go.Worker.Run.Taking.{next_prioritized, next_waiting, pickup_run, taken, taken-values}
use bullmq_go.Invariant.Fits.{all_ids, z_has, is_job_id-IsJobId}
use bullmq_go.Invariant.Effects.{all_ids-items, all_members-members, pop_last-all_ids}
use bullmq_go.Invariant.Replies.{all_ids-names}
use bullmq_go.Invariant.Keeps.{Consistent}
use bullmq_go.Invariant.Pickups.{Keeps-pickup_job}
use bullmq_go.Board.{took, view}
use bullmq_go.Board.Views.{as_list-fits, as_zset-fits, as_hash-fits, reverse-pop_last, pop_last-nil}
use bullmq_go.Board.Popping.{picked}
use bullmq_go.Board.Picking.{pickup_job-pick, IsRunning-view, is_empty-eq}
use bullmq_go.Board.Managing.Deleting.{keys_differ, its_lock}
use bullmq_go.Board.Serving.{line, IsOpen, Takes, Takes-pick}

module _ {R : Server} (L : Laws R) (H : IsHealthy R) (w : Worker)
    (d : pos 1 ≤ℤ w.opts.lock_duration) where
  -- The id is a job id, its lock holds the token, and every other job's lock is as it was.
  pub record Locks (s s' : R.Store) (id token : Bytes) : Type 0 where
    pub is_id : IsJobId id
    pub own : R.value s' (Keys.lock (keys_of w) id) ≡ text token
    pub others :
        (j : Bytes)
        → IsJobId j
        → bytes_eq j id ≡ false
        → R.value s' (Keys.lock (keys_of w) j) ≡ R.value s (Keys.lock (keys_of w) j)

  taken-Locks :
      (s s' : R.Store) (id token : Bytes) (running : List Bytes)
      → IsJobId id
      → as_list (R.value s' (Keys.active (keys_of w))) ≡ some running
      → ((j : Bytes)
          → IsJobId j
          → R.value s' (Keys.lock (keys_of w) j) ≡ R.value s (Keys.lock (keys_of w) j))
      → Locks s (taken L H w d id token s') id token
  unfolding taken
  taken-Locks s s' id token running i e kept =
      let kb = keys_of w in
      record {
        is_id = i;
        own = (taken-values L H w d s' id token running i e).1;
        others = λ j u differ.
            value_other L _ _ _ (apart kb (lock_name j) active_name u tt refl)
            ∙ value_other L _ s' _
                (keys_differ L H kb j id (lock_name j) (lock_name id) u i its_lock its_lock differ)
            ∙ kept j u;
      }

  module _ (c : w.is_connected ≡ true) (s : R.Store) (token : Bytes)
      (inv : Consistent R (keys_of w) none s) (open_now : IsOpen (view R (keys_of w) s)) where
    asked : R.Store
    asked = (R.exec (hget (Keys.meta (keys_of w)) (codes "paused")) s).1

    popped : R.Store
    popped = (R.exec (zpopmin (Keys.prioritized (keys_of w))) asked).1

    shifted : R.Store
    shifted = (R.exec (rpop (Keys.wait (keys_of w))) popped).1

    -- A key that is neither of the two that a pickup pops from.
    popped-same :
        (n : KeyName)
        → IsValid n
        → (tag n == tag prioritized_name) ≡ false
        → R.value popped (key_of (keys_of w) n) ≡ R.value s (key_of (keys_of w) n)
    unfolding popped asked
    popped-same n u e =
        value_other L _ _ _ (apart (keys_of w) n prioritized_name u tt e)
        ∙ hget_keeps L (Keys.meta (keys_of w)) (codes "paused") s _

    shifted-same :
        (n : KeyName)
        → IsValid n
        → (tag n == tag prioritized_name) ≡ false
        → (tag n == tag wait_name) ≡ false
        → R.value shifted (key_of (keys_of w) n) ≡ R.value s (key_of (keys_of w) n)
    unfolding shifted
    shifted-same n u e f =
        value_other L _ _ _ (apart (keys_of w) n wait_name u tt f) ∙ popped-same n u e

    asked-typed :
        as_zset (R.value asked (Keys.prioritized (keys_of w)))
        ≡ some (members (R.value s (Keys.prioritized (keys_of w))))
    unfolding asked
    asked-typed =
        ap as_zset (hget_keeps L (Keys.meta (keys_of w)) (codes "paused") s _)
        ∙ as_zset-fits none _ (inv.at prioritized_name tt)

    -- What a pickup leaves that found the job at a state where locks and active jobs are as before.
    found-Locks :
        (s' : R.Store) (id : Bytes)
        → IsJobId id
        → next_job_id R w asked ≡ (ok id, s')
        → R.value s' (Keys.active (keys_of w)) ≡ R.value s (Keys.active (keys_of w))
        → ((j : Bytes)
            → IsJobId j
            → R.value s' (Keys.lock (keys_of w) j) ≡ R.value s (Keys.lock (keys_of w) j))
        → Locks s (pickup_job R w token s).1 id token
    unfolding asked
    found-Locks s' id i found same kept =
        let active_now = ap as_list same ∙ as_list-fits _ (inv.at active_name tt) in
        rw
          (pickup_run L H w d s s' id token _ _ c (as_hash-fits _ (inv.at meta_name tt))
            (IsRunning-view (fields (R.value s (Keys.meta (keys_of w)))) open_now.running) found i
            active_now)
          (taken-Locks s s' id token _ i active_now kept)

    prioritized-Locks :
        (id : Bytes) (sc : ℤ) (zs : List (Bytes × ℤ))
        → members (R.value s (Keys.prioritized (keys_of w))) ≡ (id, sc) ∷ zs
        → Locks s (pickup_job R w token s).1 id token
    unfolding popped all_ids z_has
    prioritized-Locks id sc zs e =
        let known = all_ids-names _ (all_members-members none _ (inv.at prioritized_name tt)) in
        let i = is_job_id-IsJobId id (ground (arith, known, e)) in
        let full : bytes_eq id [] ≡ false = ground (arith, open_now.no_empty, e) in
        found-Locks popped id i
          (next_prioritized L H w d asked id sc zs (asked-typed ∙ ap some e) (is_empty-eq id full))
          (popped-same active_name tt refl) (λ j u. popped-same (lock_name j) u refl)

    waiting-Locks :
        (id : Bytes) (rest : List Bytes)
        → members (R.value s (Keys.prioritized (keys_of w))) ≡ []
        → pop_last (items (R.value s (Keys.wait (keys_of w)))) ≡ some (id, rest)
        → Locks s (pickup_job R w token s).1 id token
    unfolding popped shifted
    waiting-Locks id rest e last =
        let wait = Keys.wait (keys_of w) in
        let known = all_ids-items _ (inv.at wait_name tt) in
        let i = is_job_id-IsJobId id (pop_last-all_ids _ rest id known last).0 in
        let typed =
          ap as_list (popped-same wait_name tt refl) ∙ as_list-fits _ (inv.at wait_name tt) in
        found-Locks shifted id i
          (next_waiting L H w d asked id _ rest (asked-typed ∙ ap some e) typed last)
          (shifted-same active_name tt refl refl) (λ j u. shifted-same (lock_name j) u refl refl)

    oldest-Locks :
        (id : Bytes) (rest : List Bytes)
        → members (R.value s (Keys.prioritized (keys_of w))) ≡ []
        → reverse (items (R.value s (Keys.wait (keys_of w)))) ≡ id ∷ rest
        → Locks s (pickup_job R w token s).1 id token
    oldest-Locks id rest h e =
        let ids = items (R.value s (Keys.wait (keys_of w))) in
        elim (Option-cases (pop_last ids)) [
          | inl q ↦ cc (pop_last-nil ids q, e)
          | inr ((m, ms), q) ↦
              let head : m ≡ id = cc (reverse-pop_last ids m ms q, e) in
              subst (λ x. Locks s (pickup_job R w token s).1 x token) head (waiting-Locks m ms h q)
        ]

    -- The job at the head of the line gets the lock.
    head-Locks :
        (id : Bytes) (rest : List Bytes) (zs : List (Bytes × ℤ))
        → members (R.value s (Keys.prioritized (keys_of w))) ≡ zs
        → names zs ++ reverse (items (R.value s (Keys.wait (keys_of w)))) ≡ id ∷ rest
        → Locks s (pickup_job R w token s).1 id token
    head-Locks id rest [] h e = oldest-Locks id rest h e
    head-Locks id rest ((m, sc) ∷ zs) h e =
        let head : m ≡ id = cc in
        subst (λ x. Locks s (pickup_job R w token s).1 x token) head (prioritized-Locks m sc zs h)

    pub pickup_job-takes :
        (id : Bytes) (rest : List Bytes)
        → line (view R (keys_of w) s) ≡ id ∷ rest
        → let (r, s') = pickup_job R w token s in
          (picked r ≡ took id)
          × (line (view R (keys_of w) s') ≡ rest)
          × IsOpen (view R (keys_of w) s')
          × Consistent R (keys_of w) none s'
          × Locks s s' id token
    unfolding line
    pickup_job-takes id rest e =
        let refines = pickup_job-pick L H w d s token c inv open_now.no_empty in
        let (got, left, still) =
          subst (Takes id rest) (sym refines)
            (Takes-pick (view R (keys_of w) s) id rest open_now e) in
        (
          got,
          left,
          still,
          (Keeps-pickup_job L none w token).keeps s inv,
          head-Locks id rest _ refl e,
        )
