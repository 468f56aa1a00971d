-- ===== src/Invariant/Running.antt =====
-- The run of a job keeps the queue's data consistent, and whatever it sends to a results queue
-- stays away from it.
use bullmq_go.Prelude.{
  Bytes, codes, ◌++◌, bytes_eq, ◌≡◌, refl, sym, subst, false, List, [], ◌∷◌, ◌⊎◌, inl, inr, Option,
  none, some,
}
use bullmq_go.Prelude.Int.{ℤ}
use bullmq_go.Errors.{Error, wrapped, plain, is_empty}
use bullmq_go.Redis.{Server, Laws}
use bullmq_go.Redis.Values.{h_get, hgetall, xadd, zadd, lpush}
use bullmq_go.Redis.Action.{pure, fail, ignore, ◌>>◌}
use bullmq_go.Redis.Touches.{Touches, touches_rules, Elem, here, there, Touches-exec, Touches-if}
use bullmq_go.Keys
use bullmq_go.Keys.{KeyBuilder}
use bullmq_go.Keys.Distinct.{
  KeyName, key_of, IsValid, IsJobId, job_name, delayed_name, prioritized_name, wait_name,
  events_name,
}
use bullmq_go.Jobs.{Job, JobOptions, Codec}
use bullmq_go.Retry.{Float64}
use bullmq_go.Events.{Event, emit, emit_active, emit_waiting, event_values}
use bullmq_go.Queue.{Queue, add, store_job_hash, enqueue_job}
use bullmq_go.Queue.Submit.{store_job_hash-Touches}
use bullmq_go.Worker.{Worker, keys_of}
use bullmq_go.Worker.Run.{
  Turn, get_job_data, job_from_hash, json_field, send_to_results_queue, result_payload,
  handle_job_success, handle_job_failure, process_job,
}
use bullmq_go.Invariant.Keeps.{
  Keeps, Consistent, Returns, Keeps-bind, Keeps-bind-with, Keeps-elim_list, Keeps-elim_option,
  Keeps-if, Keeps-fail, Keeps-pure, Keeps-ignore, Keeps-away, Returns-bind-with, Returns-pure,
  Returns-fail,
}
use bullmq_go.Invariant.Rules.{Keeps-job, IsOwnEmitter, Keeps-emit}
use bullmq_go.Invariant.Workers.{Keeps-complete, Keeps-handle_job_failure}

-- No key of the other queue is a key of this one, and its events go to its own stream.
pub record IsElsewhere (kb : KeyBuilder) (q : Queue) : Type 0 where
  pub other_keys :
      (n m : KeyName)
      → IsValid n
      → IsValid m
      → bytes_eq (key_of kb n) (key_of q.key_builder m) ≡ false
  pub own_events : IsOwnEmitter q.key_builder q.event_emitter

-- A worker whose results queue, if it has one, is elsewhere.
pub record SendsElsewhere (w : Worker) : Type 0 where
  pub elsewhere : (q : Queue) → w.results_queue ≡ some q → IsElsewhere (keys_of w) q

-- The keys that `Add` may change.
abbrev pub add_keys : KeyBuilder → Bytes → List Bytes
add_keys kb id =
    Keys.job kb id ∷ Keys.delayed kb ∷ Keys.prioritized kb ∷ Keys.wait kb ∷ Keys.events kb ∷ []

module _ {R : Server} (L : Laws R) (C : Codec) (q : Queue)
    (o : IsOwnEmitter q.key_builder q.event_emitter) where
  emit-Touches :
      (e : Event) (ks : List Bytes)
      → Elem (Keys.events q.key_builder) ks
      → Touches R ks (emit R C q.event_emitter e)
  unfolding emit
  emit-Touches e ks h =
      Touches-exec L ks (xadd _ q.event_emitter.max_len (event_values R C e))
        (subst (λ k. Elem k ks) (sym o.same_events) h)

  enqueue_job-Touches :
      (job : Job C.Any) → Touches R (add_keys q.key_builder job.id) (enqueue_job R C q job)
  unfolding enqueue_job
  enqueue_job-Touches job =
      let ks = add_keys q.key_builder job.id in
      Touches-if _ _ _ (Touches-exec L ks (zadd (Keys.delayed q.key_builder) _ job.id) (there here))
        (Touches-if _ _ _
          (Touches-exec L ks (zadd (Keys.prioritized q.key_builder) _ job.id) (there (there here)))
          (Touches-exec L ks (lpush (Keys.wait q.key_builder) job.id) (there (there (there here)))))

  store-Touches :
      (job : Job C.Any) → Touches R (add_keys q.key_builder job.id) (store_job_hash R C q job)
  store-Touches job = record {
    keeps = λ s k away. (store_job_hash-Touches L C q job).keeps s k (away.0, tt);
  }

  pub add-Touches :
      (name : Bytes) (payload : List (Bytes × C.Any)) (given : JobOptions) (id : Bytes)
      (now later : ℤ)
      → Touches R (add_keys q.key_builder id) (add R C q name payload given id now later)
  unfolding add emit_waiting
  add-Touches name payload given id now later =
      search (touches_rules, store-Touches, enqueue_job-Touches, emit-Touches) depth 24

module _ {R : Server} (L : Laws R) (C : Codec) (kept : Option Bytes) (w : Worker)
    (o : IsOwnEmitter (keys_of w) w.event_emitter) where
  Keeps-json_field :
      {A : Type 0} (parse : Bytes → Bytes ⊎ A) (m : Bytes) (default : A) (name : Bytes)
      (fs : List (Bytes × Bytes))
      → Keeps (Consistent R (keys_of w) kept) (json_field R C parse m default name fs)
  unfolding json_field
  Keeps-json_field {A} parse m default name fs =
      Keeps-elim_option (h_get name fs) _ _ (Keeps-pure default)
        λ text. Keeps-if (is_empty text) _ _ (Keeps-pure default) (parsed (parse text))
    where
      parsed :
          (r : Bytes ⊎ A)
          → Keeps
              (Consistent R (keys_of w) kept)
              {A = A}
              (elim r [ inl reason ↦ fail (wrapped m (plain reason)) | inr a ↦ pure a ])
      parsed (inl reason) = Keeps-fail _
      parsed (inr a) = Keeps-pure a

  Keeps-job_from_hash :
      (id : Bytes) (fs : List (Bytes × Bytes))
      → Keeps (Consistent R (keys_of w) kept) (job_from_hash R C w id fs)
  unfolding job_from_hash
  Keeps-job_from_hash id fs =
      Keeps-bind _ _ (Keeps-json_field _ _ _ _ fs)
        λ payload. Keeps-bind _ _ (Keeps-json_field _ _ _ _ fs) λ opts. Keeps-pure _

  Returns-job_from_hash :
      (id : Bytes) (fs : List (Bytes × Bytes))
      → Returns (Consistent R (keys_of w) kept) (λ job. job.id ≡ id) (job_from_hash R C w id fs)
  unfolding job_from_hash
  Returns-job_from_hash id fs =
      Returns-bind-with (λ _. Unit {0}) _ _ _ (Keeps-json_field _ _ _ _ fs)
        (record { returns = λ s h a e. tt })
        λ payload _.
          Returns-bind-with (λ _. Unit {0}) _ _ _ (Keeps-json_field _ _ _ _ fs)
            (record { returns = λ s h a e. tt }) λ opts _. Returns-pure (λ job. job.id ≡ id) _ refl

  pub Keeps-get_job_data :
      (id : Bytes) → IsJobId id → Keeps (Consistent R (keys_of w) kept) (get_job_data R C w id)
  unfolding get_job_data
  Keeps-get_job_data id i =
      Keeps-bind _ _
        (Keeps-job L (keys_of w) kept (hgetall (Keys.job (keys_of w) id)) id refl refl i)
        λ fs. Keeps-elim_list fs _ _ (Keeps-fail _) λ f rest. Keeps-job_from_hash id (f ∷ rest)

  pub Returns-get_job_data :
      (id : Bytes)
      → IsJobId id
      → Returns (Consistent R (keys_of w) kept) (λ job. job.id ≡ id) (get_job_data R C w id)
  unfolding get_job_data
  Returns-get_job_data id i =
      Returns-bind-with (λ _. Unit {0}) _ _ _
        (Keeps-job L (keys_of w) kept (hgetall (Keys.job (keys_of w) id)) id refl refl i)
        (record { returns = λ s h a e. tt }) λ fs _. cases fs
    where
      cases :
          (fs : List (Bytes × Bytes))
          → Returns
              (Consistent R (keys_of w) kept)
              {A = Job C.Any}
              (λ job. job.id ≡ id)
              (elim fs [
                | [] ↦ fail (plain (codes "job not found: " ++ id))
                | f ∷ rest ↦ job_from_hash R C w id (f ∷ rest)
              ])
      cases [] = Returns-fail _ _
      cases (f ∷ rest) = Returns-job_from_hash id (f ∷ rest)

  module _ (a : SendsElsewhere w) where
    pub Keeps-send :
        (job : Job C.Any) (result : C.Any) (unix process_time : ℤ) (uuid : Bytes) (now later : ℤ)
        → IsJobId uuid
        → Keeps
            (Consistent R (keys_of w) kept)
            (send_to_results_queue R C w job result unix process_time uuid now later)
    unfolding send_to_results_queue
    Keeps-send job result unix process_time uuid now later i = sent w.results_queue a.elsewhere
      where
        sent :
            (found : Option Queue)
            → ((q : Queue) → found ≡ some q → IsElsewhere (keys_of w) q)
            → Keeps (Consistent R (keys_of w) kept) (elim found [
              | none ↦ pure tt
              | some q ↦ elim w.results_queue_config [
                | none ↦ pure tt
                | some config ↦
                    add R C q
                      (codes "process-result")
                      (result_payload R C w job result unix process_time)
                      config.options
                      uuid
                      now
                      later
                    >> pure tt
              ]
            ])
        sent none h = Keeps-pure tt
        sent (some q) h = Keeps-elim_option _ _ _ (Keeps-pure tt) λ config.
            Keeps-bind _ _
              (Keeps-away L (keys_of w) kept _ _
                (add-Touches L C q (h q refl).own_events _ _ _ uuid now later)
                λ n v.
                  let apart = (h q refl).other_keys n in
                  (
                    apart (job_name uuid) v i,
                    (
                      apart delayed_name v tt,
                      (
                        apart prioritized_name v tt,
                        (apart wait_name v tt, (apart events_name v tt, tt)),
                      ),
                    ),
                  ))
              λ _. Keeps-pure tt

    pub Keeps-process_job :
        (fl : Float64) (id : Bytes) (t : Turn C fl)
        → IsJobId id
        → IsJobId t.uuid
        → Keeps (Consistent R (keys_of w) kept) (process_job R C fl w id t)
    unfolding process_job emit_active handle_job_success
    Keeps-process_job fl id t i u =
        Keeps-bind-with (λ job. job.id ≡ id) _ _ (Keeps-get_job_data id i)
          (Returns-get_job_data id i)
          λ found same.
            let own = subst IsJobId (sym same) i in
            Keeps-bind _ _ (Keeps-ignore _ (Keeps-emit L C (keys_of w) kept w.event_emitter _ o))
              λ _.
                ran (record found { worker_id = w.opts.worker_id }) own
                  (t.processor (record found { worker_id = w.opts.worker_id }))
      where
        ran :
            (job : Job C.Any)
            → IsJobId job.id
            → (r : Option C.Any ⊎ Error)
            → Keeps (Consistent R (keys_of w) kept) (elim r [
              | inr e ↦ handle_job_failure R C fl w job e t.random t.end_time t.event_time
              | inl result ↦
                  ignore (
                    send_to_results_queue R C w job
                      (elim result [ none ↦ t.nil_value | some v ↦ v ])
                      t.unix
                      t.process_time
                      t.uuid
                      t.end_time_ms
                      t.event_time)
                  >> handle_job_success R C w job result t.end_time_ms t.event_time
            ])
        ran job own (inr e) = Keeps-handle_job_failure L C kept w o fl job e _ _ _ own
        ran job own (inl result) =
            Keeps-bind _ _ (Keeps-ignore _ (Keeps-send job _ _ _ _ _ _ u))
              λ _. Keeps-ignore _ (Keeps-complete L C kept w o job result _ _ own)
