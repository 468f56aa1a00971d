-- ===== src/Board/Delivery/Kept.antt =====
-- What a pickup leaves alone: the hash of the job that it takes.
use bullmq_go.Prelude.{
  Bytes, codes, bytes_eq, ◌≡◌, refl, sym, subst, ap, ◌∙◌, true, false, List, [], ◌∷◌, arith,
  if◌then◌else◌,
}
use bullmq_go.Prelude.Int.{ℤ}
use bullmq_go.Redis.{Server, Laws}
use bullmq_go.Redis.Values.{Result, ok, err, rpop, del}
use bullmq_go.Redis.Action.{Action, ◌>>=◌, ◌>>◌, pure, fail, ignore, bind-eq-ok}
use bullmq_go.Errors.{wrapped, is_redis_nil, is_empty}
use bullmq_go.Redis.Touches.{
  Touches, touches_rules, here, there, Touches-exec, Touches-bind, Touches-if, Touches-pure,
  Touches-fail,
}
use bullmq_go.Keys
use bullmq_go.Keys.Distinct.{
  apart, IsJobId, job_name, lock_name, prioritized_name, wait_name, active_name,
}
use bullmq_go.Queue.Submit.{ok_injective}
use bullmq_go.Worker.{Worker, keys_of}
use bullmq_go.Worker.Run.{
  Pickup, acquire_lock_and_activate, next_job_id, paused_field, first_member, pickup_job,
}

module _ {R : Server} (L : Laws R) (w : Worker) where
  acquire-Touches :
      (id token : Bytes)
      → Touches R
          (Keys.lock (keys_of w) id ∷ Keys.active (keys_of w) ∷ [])
          (acquire_lock_and_activate R w id token)
  unfolding acquire_lock_and_activate
  acquire-Touches id token =
      Touches-bind _ _ (search touches_rules) λ x. Touches-bind _ _ (search touches_rules) pushed
    where
      pushed :
          (r : Result (Unit {0}))
          → Touches R
              (Keys.lock (keys_of w) id ∷ Keys.active (keys_of w) ∷ [])
              {A = Bytes}
              (elim r [
                | ok _ ↦ pure token
                | err e ↦
                    ignore (R.exec (del (Keys.lock (keys_of w) id)))
                    >> fail (wrapped (codes "failed to move to active") e)
              ])
      pushed (ok u) = Touches-pure token
      pushed (err e) = search touches_rules

  pub next_job_id-Touches :
      Touches R (Keys.prioritized (keys_of w) ∷ Keys.wait (keys_of w) ∷ []) (next_job_id R w)
  unfolding next_job_id
  next_job_id-Touches = Touches-bind _ _ (search touches_rules) popped
    where
      popped :
          (r : Result (List (Bytes × ℤ)))
          → Touches R
              (Keys.prioritized (keys_of w) ∷ Keys.wait (keys_of w) ∷ [])
              {A = Bytes}
              (elim r [
                | err e ↦ if is_redis_nil e then R.exec (rpop (Keys.wait (keys_of w))) else fail e
                | ok results ↦
                    if is_empty (first_member R results)
                    then R.exec (rpop (Keys.wait (keys_of w)))
                    else pure (first_member R results)
              ])
      popped (ok results) =
          Touches-if _ _ _ (Touches-exec L _ (rpop (Keys.wait (keys_of w))) (there here))
            (Touches-pure _)
      popped (err e) =
          Touches-if _ _ _ (Touches-exec L _ (rpop (Keys.wait (keys_of w))) (there here))
            (Touches-fail e)

  paused_field-Touches : Touches R (Keys.meta (keys_of w) ∷ []) (paused_field R w)
  unfolding paused_field
  paused_field-Touches = Touches-bind _ _ (search touches_rules) asked
    where
      asked :
          (r : Result Bytes)
          → Touches R
              (Keys.meta (keys_of w) ∷ [])
              {A = Bytes}
              (elim r [ ok val ↦ pure val | err e ↦ if is_redis_nil e then pure [] else fail e ])
      asked (ok val) = Touches-pure val
      asked (err e) = Touches-if _ _ _ (Touches-pure []) (Touches-fail e)

  abbrev pub rest_of_pickup : Bytes → Action R.Store Pickup
  rest_of_pickup token = next_job_id R w >>= λ id.
      acquire_lock_and_activate R w id token >>= λ lock_token.
      pure (record { job_id = id; lock_token = lock_token })

  pub rest_run :
      (s s1 : R.Store) (paused token : Bytes)
      → w.is_connected ≡ true
      → paused_field R w s ≡ (ok paused, s1)
      → bytes_eq paused (codes "1") ≡ false
      → pickup_job R w token s ≡ rest_of_pickup token s1
  unfolding pickup_job ◌>>=◌
  rest_run s s1 paused token c e n = ground (arith, e)

  -- The rest of a pickup, where it succeeds, leaves the hash of the job that it took alone.
  pub rest-hash :
      (s : R.Store) (token : Bytes) (p : Pickup)
      → IsJobId p.job_id
      → (rest_of_pickup token s).0 ≡ ok p
      → R.value (rest_of_pickup token s).1 (Keys.job (keys_of w) p.job_id)
        ≡ R.value s (Keys.job (keys_of w) p.job_id)
  unfolding pure
  rest-hash s token p i h =
      let kb = keys_of w in
      let key = Keys.job kb p.job_id in
      let (id, e1, q1) = bind-eq-ok _ _ s p h in
      let s1 = (next_job_id R w s).1 in
      let (t, e2, q2) =
        bind-eq-ok (acquire_lock_and_activate R w id token) _ s1 p
          (ap (λ (r : Result Pickup × R.Store). r.0) (sym q1) ∙ h) in
      let s2 = (acquire_lock_and_activate R w id token s1).1 in
      let same =
        taken_id id t p (ap (λ (r : Result Pickup × R.Store). r.0) (sym q2 ∙ sym q1) ∙ h) in
      let own = subst IsJobId (sym same) i in
      ap (λ (r : Result Pickup × R.Store). R.value r.1 key) (q1 ∙ q2)
      ∙ (acquire-Touches id token).keeps s1 key (
        apart kb (job_name p.job_id) (lock_name id) i own refl,
        (apart kb (job_name p.job_id) active_name i tt refl, tt),
      )
      ∙ next_job_id-Touches.keeps s key (
        apart kb (job_name p.job_id) prioritized_name i tt refl,
        (apart kb (job_name p.job_id) wait_name i tt refl, tt),
      )
    where
      taken_id :
          (id t : Bytes) (p : Pickup)
          → ok (record { job_id = id; lock_token = t }) ≡ ok p
          → id ≡ p.job_id
      taken_id id t p h =
          ap (λ (x : Pickup). x.job_id) (ok_injective (record { job_id = id; lock_token = t }) p h)
