-- ===== src/Queue/Submit.antt =====
-- What `Add` leaves on the server when it succeeds, whichever commands the server refuses.
use bullmq_go.Prelude.{
  Bytes, ◌≡◌, ◌⊎◌, inl, inr, refl, sym, subst, ◌∙◌, ap, Bool-cases, ltb, true, List, [], ◌∷◌, arith,
}
use bullmq_go.Prelude.Int.{ℤ, pos, ◌+ℤ◌, ◌-ℤ◌, ◌<ℤ◌, ◌≤ℤ◌, ltb_ℤ}
use bullmq_go.Redis.{Server, Laws}
use bullmq_go.Redis.Values.{
  Result, ok, err, list, zset, lpush, zadd, hset, xadd, effect, items, members, z_place, z_remove,
}
use bullmq_go.Redis.Action.{Action, ◌>>=◌, explain, explained, reject, ignore, pure, bind-eq-ok}
use bullmq_go.Redis.Touches.{
  Touches, Touches-bind, Touches-reject, Touches-marshalled, Touches-exec, Elem, here,
}
use bullmq_go.Keys
use bullmq_go.Keys.{new_key_builder}
use bullmq_go.Keys.Distinct.{
  KeyName, key_of, apart, IsValid, IsJobId, tag, wait_name, prioritized_name, delayed_name,
  job_name, events_name,
}
use bullmq_go.Jobs.{JobOptions, Job, Codec}
use bullmq_go.Jobs.Validation.{validate_job_options, validate_job_payload_size}
use bullmq_go.Events.{emit_waiting, emit}
use bullmq_go.Queue.{Queue, apply_defaults, new_job, store_job_hash, enqueue_job, add}

-- Where the job goes: the delayed set by its due time, the prioritized set by the negated
-- priority, or the head of the wait list.
abbrev pub IsPlaced : (R : Server) (C : Codec) → Queue → Job C.Any → R.Store → R.Store → Type 0
IsPlaced R C q job s s' =
    ((pos 0 <ℤ job.delay)
      × (R.value s' (Keys.delayed q.key_builder)
          ≡ zset (
              z_place (job.id, job.timestamp +ℤ job.delay)
                (z_remove job.id (members (R.value s (Keys.delayed q.key_builder)))))))
    ⊎ (((job.delay ≤ℤ pos 0)
          × (pos 0 <ℤ job.opts.priority)
          × (R.value s' (Keys.prioritized q.key_builder)
              ≡ zset (
                  z_place (job.id, pos 0 -ℤ job.opts.priority)
                    (z_remove job.id (members (R.value s (Keys.prioritized q.key_builder)))))))
        ⊎ ((job.delay ≤ℤ pos 0)
            × (job.opts.priority ≤ℤ pos 0)
            × (R.value s' (Keys.wait q.key_builder)
                ≡ list (job.id ∷ items (R.value s (Keys.wait q.key_builder))))))

-- The queue's events go to its own stream: NewQueue makes its emitter so.
pub record IsOwnQueue (q : Queue) : Type 0 where
  pub same_events :
      Keys.events (new_key_builder q.event_emitter.queue_name q.event_emitter.redis_client)
      ≡ Keys.events q.key_builder

module _ {St A B : Type 0} where
  pub bind-step :
      (m : Action St A) (f : A → Action St B) (s : St) (b : B)
      → ((m >>= f) s).0 ≡ ok b
      → (a : A) × ((m s).0 ≡ ok a) × ((m >>= f) s ≡ f a (m s).1) × ((f a (m s).1).0 ≡ ok b)
  bind-step m f s b h =
      let (a, e, run) = bind-eq-ok m f s b h in
      (a, e, run, ap (λ (p : Result B × St). p.0) (sym run) ∙ h)

pub ok_of_explained : (text : Bytes) (r : Result Unit) → explained text r ≡ ok tt → r ≡ ok tt
ok_of_explained text (ok tt) h = refl
ok_of_explained text (err e) h = cc

pub ok_injective : {A : Type 0} (a b : A) → ok a ≡ ok b → a ≡ b
ok_injective a b h = cc

module _ {R : Server} (L : Laws R) (C : Codec) (q : Queue) where
  enqueue_job-places :
      (job : Job C.Any) (s : R.Store)
      → (enqueue_job R C q job s).0 ≡ ok tt
      → IsPlaced R C q job s (enqueue_job R C q job s).1
  unfolding enqueue_job effect
  enqueue_job-places job s h = elim (Bool-cases (ltb_ℤ (pos 0) job.delay)) [
    | inl d ↦ inl (
      ground arith,
      ground (
        arith,
        L.accepted (zadd (Keys.delayed q.key_builder) (job.timestamp +ℤ job.delay) job.id) s tt,
      ),
    )
    | inr d ↦ elim (Bool-cases (ltb_ℤ (pos 0) job.opts.priority)) [
      | inl p ↦ inr (
          inl (
            ground arith,
            ground arith,
            ground (
              arith,
              L.accepted (zadd (Keys.prioritized q.key_builder) (pos 0 -ℤ job.opts.priority) job.id)
                  s tt,
            ),
          ))
      | inr p ↦ inr (
          inr (
            ground arith,
            ground arith,
            ground (arith, L.accepted (lpush (Keys.wait q.key_builder) job.id) s tt),
          ))
    ]
  ]

  -- A place is that of the same job where the three keys held the same before and hold the same after.
  pub places_between :
      (job : Job C.Any) (s t t' s' : R.Store)
      → ((n : KeyName)
          → IsValid n
          → ltb (tag n) 3 ≡ true
          → R.value t (key_of q.key_builder n) ≡ R.value s (key_of q.key_builder n))
      → ((n : KeyName)
          → IsValid n
          → ltb (tag n) 3 ≡ true
          → R.value s' (key_of q.key_builder n) ≡ R.value t' (key_of q.key_builder n))
      → IsPlaced R C q job t t'
      → IsPlaced R C q job s s'
  places_between job s t t' s' before after (inl (d, e)) =
      inl (d, after delayed_name tt refl ∙ rw (sym (before delayed_name tt refl)) e)
  places_between job s t t' s' before after (inr (inl (d, p, e))) =
      inr
        (inl (d, p, after prioritized_name tt refl ∙ rw (sym (before prioritized_name tt refl)) e))
  places_between job s t t' s' before after (inr (inr (d, p, e))) =
      inr (inr (d, p, after wait_name tt refl ∙ rw (sym (before wait_name tt refl)) e))

  pub store_job_hash-Touches :
      (job : Job C.Any) → Touches R (Keys.job q.key_builder job.id ∷ []) (store_job_hash R C q job)
  unfolding store_job_hash
  store_job_hash-Touches job =
      Touches-bind _ _ (Touches-marshalled _ _)
        λ text. Touches-bind _ _ (Touches-marshalled _ _) λ opts. Touches-exec L _ (hset _ _) here

  pub emit_waiting-Touches :
      IsOwnQueue q
      → (job : Job C.Any) (later : ℤ)
      → Touches R (Keys.events q.key_builder ∷ []) (emit_waiting R C q.event_emitter job later)
  unfolding emit_waiting emit
  emit_waiting-Touches o job later =
      Touches-exec L _ (xadd _ _ _)
        (subst (λ k. Elem k (Keys.events q.key_builder ∷ [])) (sym o.same_events) here)

  -- For a queue whose events go to its own stream and an id like those of `Add`: when `Add` returns
  -- a job, it is the job built from the arguments and the completed options, and it is placed: in the delayed set by its due time where it has a
  -- delay, else in the prioritized set by its negated priority where it has one, else at the head
  -- of the wait list. This holds whatever the server did with the event.
  pub add-places :
      IsOwnQueue q
      → (name : Bytes) (payload : List (Bytes × C.Any)) (given : JobOptions) (id : Bytes)
        (now later : ℤ)
      → IsJobId id
      → (s : R.Store) (job : Job C.Any) → (add R C q name payload given id now later s).0 ≡ ok job
      → (job ≡ new_job R C id name payload (apply_defaults given) now)
        × IsPlaced R C q job s (add R C q name payload given id now later s).1
  unfolding add explain ignore pure
  add-places o name payload given id now later i s job h =
      let made = new_job R C id name payload (apply_defaults given) now in
      let s1 = (reject {St = R.Store} (validate_job_options C (apply_defaults given)) s).1 in
      let s2 = (reject {St = R.Store} (validate_job_payload_size C made) s1).1 in
      let s3 = (store_job_hash R C q made s2).1 in
      let s4 = (enqueue_job R C q made s3).1 in
      let (u1, e1, q1, h1) = bind-step _ _ s job h in
      let (u2, e2, q2, h2) = bind-step _ _ s1 job h1 in
      let (u3, e3, q3, h3) = bind-step _ _ s2 job h2 in
      let (u4, e4, q4, h4) = bind-step _ _ s3 job h3 in
      let (u5, e5, q5, h5) = bind-step _ _ s4 job h4 in
      let same = sym (ok_injective made job h5) in
      let placed = enqueue_job-places made s3 (ok_of_explained _ _ e4) in
      (
        same,
        subst (λ s'. IsPlaced R C q job s s')
            (sym (ap (λ (p : Result (Job C.Any) × R.Store). p.1) (q1 ∙ q2 ∙ q3 ∙ q4 ∙ q5)))
            (subst (λ j. IsPlaced R C q j s (emit_waiting R C q.event_emitter made later s4).1)
              (sym same)
              (places_between made s s3 s4 _
                (λ n v t.
                  (store_job_hash-Touches made).keeps s2 _
                    (apart q.key_builder n (job_name id) v i (ground arith), tt)
                  ∙ (Touches-reject {R = R} {ks = []} (validate_job_payload_size C made)).keeps s1 _
                      tt
                  ∙ (Touches-reject {R = R} {ks = []}
                        (validate_job_options C (apply_defaults given))).keeps
                      s _ tt)
                (λ n v t.
                  (emit_waiting-Touches o made later).keeps s4 _
                    (apart q.key_builder n events_name v tt (ground arith), tt))
                placed)),
      )
