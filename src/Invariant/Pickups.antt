-- ===== src/Invariant/Pickups.antt =====
-- A pickup keeps the queue's data consistent, and the id that it returns is a job id.
use bullmq_go.Prelude.{Bytes, ◌≡◌, refl, true, if◌then◌else◌, List, [], ◌∷◌, Option, none, arith}
use bullmq_go.Prelude.Int.{ℤ}
use bullmq_go.Errors.{is_redis_nil, is_empty}
use bullmq_go.Redis.{Server, Laws}
use bullmq_go.Redis.Action.{pure, fail}
use bullmq_go.Redis.Values.{Result, ok, err, rpop, zpopmin}
use bullmq_go.Keys
use bullmq_go.Keys.Distinct.{IsJobId, wait_name, prioritized_name}
use bullmq_go.Worker.{Worker, keys_of}
use bullmq_go.Worker.Run.{
  acquire_lock_and_activate, next_job_id, paused_field, pickup_job, first_member,
}
use bullmq_go.Invariant.Fits.{is_job_id, IsJobId-is_job_id, is_job_id-IsJobId, all_members}
use bullmq_go.Invariant.Replies.{rpop_reply, zpopmin_reply}
use bullmq_go.Invariant.Keeps.{
  Keeps, Consistent, Returns, keeps_rules, Keeps-bind, Keeps-bind-with, Keeps-elim_result, Keeps-if,
  Keeps-fail, Keeps-pure, Keeps-attempt, Returns-exec, Returns-pure, Returns-fail, Returns-attempt,
  Returns-if, Returns-bind-with,
}
use bullmq_go.Invariant.Rules.{key_rules, Keeps-wait, Keeps-prioritized}

module _ {R : Server} (L : Laws R) (kept : Option Bytes) (w : Worker) where
  Keeps-acquire :
      (id lock_token : Bytes)
      → IsJobId id
      → Keeps (Consistent R (keys_of w) kept) (acquire_lock_and_activate R w id lock_token)
  unfolding acquire_lock_and_activate
  Keeps-acquire id lock_token i = Keeps-bind _ _ (search (keeps_rules, key_rules)) λ _.
      Keeps-bind _ _ (search (keeps_rules, key_rules, IsJobId-is_job_id)) λ pushed.
        Keeps-elim_result pushed _ _ (λ _. search keeps_rules)
          (λ e. search (keeps_rules, key_rules))

  Keeps-paused_field : Keeps (Consistent R (keys_of w) kept) (paused_field R w)
  unfolding paused_field
  Keeps-paused_field =
      Keeps-bind _ _ (search (keeps_rules, key_rules))
        λ answer. Keeps-elim_result answer _ _ (λ _. search keeps_rules) (λ e. search keeps_rules)

  Keeps-rpop : Keeps (Consistent R (keys_of w) kept) (R.exec (rpop (Keys.wait (keys_of w))))
  Keeps-rpop = Keeps-wait L (keys_of w) kept (rpop (Keys.wait (keys_of w))) refl refl

  Keeps-zpopmin :
      Keeps (Consistent R (keys_of w) kept) (R.exec (zpopmin (Keys.prioritized (keys_of w))))
  Keeps-zpopmin =
      Keeps-prioritized L (keys_of w) kept (zpopmin (Keys.prioritized (keys_of w))) refl refl

  pub Keeps-next_job_id : Keeps (Consistent R (keys_of w) kept) (next_job_id R w)
  unfolding next_job_id
  Keeps-next_job_id = Keeps-bind _ _ (Keeps-attempt _ Keeps-zpopmin) λ popped.
      Keeps-elim_result popped _ _ (λ results. Keeps-if _ _ _ Keeps-rpop (Keeps-pure _))
        (λ e. Keeps-if _ _ _ Keeps-rpop (Keeps-fail e))

  abbrev pub IsId : Bytes → Type 0
  IsId id = is_job_id id ≡ true

  Returns-rpop :
      Returns (Consistent R (keys_of w) kept) IsId (R.exec (rpop (Keys.wait (keys_of w))))
  Returns-rpop =
      Returns-exec L (keys_of w) kept wait_name (rpop (Keys.wait (keys_of w))) IsId tt refl
        (λ v x h e. rpop_reply (Keys.wait (keys_of w)) x v h e)

  Returns-first :
      (results : List (Bytes × ℤ))
      → all_members results ≡ true
      → Returns (Consistent R (keys_of w) kept) IsId (
          if is_empty (first_member R results)
          then R.exec (rpop (Keys.wait (keys_of w)))
          else pure (first_member R results))
  unfolding is_empty all_members
  Returns-first [] h = Returns-rpop
  Returns-first ((m, sc) ∷ zs) h =
      Returns-if IsId (is_empty m) _ _ Returns-rpop (Returns-pure IsId m (ground arith))

  pub Returns-next_job_id : Returns (Consistent R (keys_of w) kept) IsId (next_job_id R w)
  unfolding next_job_id
  Returns-next_job_id =
      Returns-bind-with (λ r. (zs : List (Bytes × ℤ)) → r ≡ ok zs → all_members zs ≡ true) IsId _ _
        (Keeps-attempt _ Keeps-zpopmin)
        (Returns-attempt (λ zs. all_members zs ≡ true) _
          (Returns-exec L (keys_of w) kept prioritized_name (zpopmin (Keys.prioritized (keys_of w)))
            (λ zs. all_members zs ≡ true) tt refl
            (λ v zs h e. zpopmin_reply (Keys.prioritized (keys_of w)) v zs none h e)))
        cases
    where
      cases :
          (popped : Result (List (Bytes × ℤ)))
          → ((zs : List (Bytes × ℤ)) → popped ≡ ok zs → all_members zs ≡ true)
          → Returns (Consistent R (keys_of w) kept) IsId (elim popped [
            | err e ↦ if is_redis_nil e then R.exec (rpop (Keys.wait (keys_of w))) else fail e
            | ok results ↦
                if is_empty (first_member R results)
                then R.exec (rpop (Keys.wait (keys_of w)))
                else pure (first_member R results)
          ])
      cases (ok results) q = Returns-first results (q results refl)
      cases (err e) q = Returns-if IsId (is_redis_nil e) _ _ Returns-rpop (Returns-fail IsId e)

  pub Keeps-pickup_job :
      (lock_token : Bytes) → Keeps (Consistent R (keys_of w) kept) (pickup_job R w lock_token)
  unfolding pickup_job
  Keeps-pickup_job lock_token =
      Keeps-if w.is_connected _ _
        (Keeps-bind _ _ Keeps-paused_field λ paused. Keeps-if _ _ _ (Keeps-fail _) (
          Keeps-bind-with IsId _ _ Keeps-next_job_id Returns-next_job_id λ id i.
            Keeps-bind _ _ (Keeps-acquire id lock_token (is_job_id-IsJobId id i))
              λ t. search keeps_rules))
        (Keeps-fail _)

  pub Returns-pickup_job :
      (lock_token : Bytes)
      → Returns (Consistent R (keys_of w) kept) (λ p. IsJobId p.job_id) (pickup_job R w lock_token)
  unfolding pickup_job
  Returns-pickup_job lock_token =
      Returns-if (λ p. IsJobId p.job_id) w.is_connected _ _
        (Returns-bind-with (λ _. Unit {0}) _ _ _ Keeps-paused_field
          (record { returns = λ s h a e. tt })
          λ paused _.
            Returns-if (λ p. IsJobId p.job_id) _ _ _ (Returns-fail _ _)
              (Returns-bind-with IsId _ _ _ Keeps-next_job_id Returns-next_job_id λ id i.
                Returns-bind-with (λ _. Unit {0}) _ _ _
                  (Keeps-acquire id lock_token (is_job_id-IsJobId id i))
                  (record { returns = λ s h a e. tt })
                  λ t _. Returns-pure (λ p. IsJobId p.job_id) _ (is_job_id-IsJobId id i)))
        (Returns-fail _ _)
