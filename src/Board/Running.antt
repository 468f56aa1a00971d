-- ===== src/Board/Running.antt =====
-- The run of a job on a server that is up: what the processor returns decides where the job goes.
use bullmq_go.Prelude.{
  Bytes, codes, ◌++◌, ◌≡◌, refl, sym, subst, ap, ◌∙◌, ◌⊎◌, inl, inr, List, [], ◌∷◌, Option, none,
  some, if◌then◌else◌, ==_iff, arith,
}
use bullmq_go.Prelude.Int.{ℤ}
use bullmq_go.Errors.{Error, wrapped, plain, is_empty}
use bullmq_go.Redis.{Server, Laws, IsHealthy}
use bullmq_go.Redis.Values.{Result, ok, hgetall, h_get}
use bullmq_go.Redis.Action.{Action, pure, fail, ignore, ◌>>◌, bind_of_ok}
use bullmq_go.Redis.Touches.{
  Touches, here, Touches-exec, Touches-pure, Touches-fail, Touches-if, Touches-bind,
}
use bullmq_go.Keys
use bullmq_go.Keys.Distinct.{
  key_of, apart, IsJobId, tag, job_name, delayed_name, prioritized_name, wait_name, events_name,
}
use bullmq_go.Jobs.{Job, Codec}
use bullmq_go.Retry.{Float64}
use bullmq_go.Queue.{Queue, add}
use bullmq_go.Queue.Manage.{unix_milli}
use bullmq_go.Events.{emit_active}
use bullmq_go.Keys.{KeyBuilder}
use bullmq_go.Worker.{Worker, WorkerOptions, keys_of, ResultsQueueConfig}
use bullmq_go.Worker.Run.{
  Turn, get_job_data, job_from_hash, json_field, send_to_results_queue, result_payload,
  handle_job_failure, handle_job_success, process_job,
}
use bullmq_go.Invariant.Keeps.{Consistent}
use bullmq_go.Invariant.Rules.{IsOwnEmitter}
use bullmq_go.Invariant.Running.{
  SendsElsewhere, IsElsewhere, add_keys, add-Touches, Keeps-send, Keeps-get_job_data,
  Returns-get_job_data,
}
use bullmq_go.Board.{Board, view, end_well, end_badly}
use bullmq_go.Board.Views.{board_of-cong}
use bullmq_go.Board.Doing.{Does, same, Does-ignore, Does-then, Does-as, Does-emit}
use bullmq_go.Board.Ending.{Does-complete, Does-handle_job_failure, due_at, is_final}

module _ {R : Server} (L : Laws R) (C : Codec) (w : Worker) (ks : List Bytes) where
  json_field-Touches :
      {A : Type 0} (parse : Bytes → Bytes ⊎ A) (m : Bytes) (default : A) (name : Bytes)
      (fs : List (Bytes × Bytes))
      → Touches R ks (json_field R C parse m default name fs)
  unfolding json_field
  json_field-Touches {A} parse m default name fs = field (h_get name fs)
    where
      parsed :
          (r : Bytes ⊎ A)
          → Touches R ks {A = A}
              (elim r [ inl reason ↦ fail (wrapped m (plain reason)) | inr a ↦ pure a ])
      parsed (inl reason) = Touches-fail _
      parsed (inr a) = Touches-pure a

      field :
          (o : Option Bytes)
          → Touches R ks {A = A} (elim o [
            | none ↦ pure default
            | some text ↦ if is_empty text then pure default else elim (parse text) [
              | inl reason ↦ fail (wrapped m (plain reason))
              | inr a ↦ pure a
            ]
          ])
      field none = Touches-pure default
      field (some text) =
          Touches-if (is_empty text) _ _ (Touches-pure default) (parsed (parse text))

  job_from_hash-Touches :
      (id : Bytes) (fs : List (Bytes × Bytes)) → Touches R ks (job_from_hash R C w id fs)
  unfolding job_from_hash
  job_from_hash-Touches id fs =
      Touches-bind _ _ (json_field-Touches _ _ _ _ fs)
        λ payload. Touches-bind _ _ (json_field-Touches _ _ _ _ fs) λ opts. Touches-pure _

-- What the processor's answer does to the job `id`, on the board.
abbrev pub ending :
    {C : Codec} {fl : Float64}
    → WorkerOptions
    → Turn C fl
    → Job C.Any
    → Bytes
    → Option C.Any ⊎ Error
    → Board
    → Board
ending opts t job id (inl result) = end_well job.opts.remove_on_complete id t.end_time_ms
ending {fl = fl} opts t job id (inr e) =
    end_badly (is_final job e) job.opts.remove_on_fail id (unix_milli t.end_time)
      (due_at fl opts job t.random t.end_time)

abbrev IsQuiet : (R : Server) → KeyBuilder → Action R.Store Unit → Type 0
IsQuiet R kb m = (s : R.Store) → view R kb (m s).1 ≡ view R kb s

module _ {R : Server} (L : Laws R) (C : Codec) (w : Worker) where
  get_job_data-Touches :
      (id : Bytes) → Touches R (Keys.job (keys_of w) id ∷ []) (get_job_data R C w id)
  unfolding get_job_data
  get_job_data-Touches id =
      Touches-bind _ _ (Touches-exec L _ (hgetall (Keys.job (keys_of w) id)) here) cases
    where
      cases :
          (fs : List (Bytes × Bytes))
          → Touches R (Keys.job (keys_of w) id ∷ []) {A = Job C.Any} (elim fs [
            | [] ↦ fail (plain (codes "job not found: " ++ id))
            | f ∷ rest ↦ job_from_hash R C w id (f ∷ rest)
          ])
      cases [] = Touches-fail _
      cases (f ∷ rest) = job_from_hash-Touches L C w _ id (f ∷ rest)

  view-get_job_data :
      (id : Bytes) (s : R.Store)
      → IsJobId id
      → view R (keys_of w) (get_job_data R C w id s).1 ≡ view R (keys_of w) s
  view-get_job_data id s i = board_of-cong _ _ λ n v p.
      (get_job_data-Touches id).keeps s (key_of (keys_of w) n)
        (apart (keys_of w) n (job_name id) v i (ground (arith, ==_iff (tag n) 8)), tt)

  module _ (a : SendsElsewhere w) where
    -- What is sent to a results queue stays away from the board.
    send-Touches :
        (q : Queue) (config : Option ResultsQueueConfig) (job : Job C.Any) (result : C.Any)
        (unix process_time : ℤ) (uuid : Bytes) (now later : ℤ)
        → IsElsewhere (keys_of w) q
        → Touches R (add_keys q.key_builder uuid) {A = Unit {0}} (elim config [
          | none ↦ pure tt
          | some cfg ↦
              add R C q
                (codes "process-result")
                (result_payload R C w job result unix process_time)
                cfg.options
                uuid
                now
                later
              >> pure tt
        ])
    send-Touches q none job result unix process_time uuid now later e = Touches-pure tt
    send-Touches q (some cfg) job result unix process_time uuid now later e =
        Touches-bind _ _ (add-Touches L C q e.own_events _ _ cfg.options uuid now later)
          (λ x. Touches-pure tt)

    view-send :
        (found : Option Queue) (job : Job C.Any) (result : C.Any) (unix process_time : ℤ)
        (uuid : Bytes) (now later : ℤ)
        → ((q : Queue) → found ≡ some q → IsElsewhere (keys_of w) q)
        → IsJobId uuid
        → IsQuiet R (keys_of w) (elim found [
          | none ↦ pure tt
          | some q ↦ elim w.results_queue_config [
            | none ↦ pure tt
            | some config ↦
                add R C q
                  (codes "process-result")
                  (result_payload R C w job result unix process_time)
                  config.options
                  uuid
                  now
                  later
                >> pure tt
          ]
        ])
    unfolding pure
    view-send none job result unix process_time uuid now later h u = λ s. refl
    view-send (some q) job result unix process_time uuid now later h u = λ s.
        let e = h q refl in
        board_of-cong _ _ λ n v p.
          (send-Touches q w.results_queue_config job result unix process_time uuid now later
              e).keeps
            s (key_of (keys_of w) n)
            (
              e.other_keys n (job_name uuid) v u,
              (
                e.other_keys n delayed_name v tt,
                (
                  e.other_keys n prioritized_name v tt,
                  (e.other_keys n wait_name v tt, (e.other_keys n events_name v tt, tt)),
                ),
              ),
            )

    module _ (o : IsOwnEmitter (keys_of w) w.event_emitter) (H : IsHealthy R) (fl : Float64)
        (t : Turn C fl) (u : IsJobId t.uuid) where
      Does-send :
          (job : Job C.Any) (result : C.Any)
          → Does R (keys_of w) same (
              ignore (
                send_to_results_queue R C w job result t.unix t.process_time t.uuid t.end_time_ms
                  t.event_time))
      unfolding send_to_results_queue
      Does-send job result =
          Does-ignore same _
            (λ s h.
              view-send w.results_queue job result t.unix t.process_time t.uuid t.end_time_ms
                t.event_time a.elsewhere u s)
            (Keeps-send L C none w o a job result t.unix t.process_time t.uuid t.end_time_ms
              t.event_time u)

      Does-handle_job_success :
          (job : Job C.Any) (result : Option C.Any)
          → IsJobId job.id
          → Does R
              (keys_of w)
              (end_well job.opts.remove_on_complete job.id t.end_time_ms)
              (handle_job_success R C w job result t.end_time_ms t.event_time)
      unfolding handle_job_success
      Does-handle_job_success job result i =
          let done = Does-complete L H C w o job result t.end_time_ms t.event_time i in
          Does-ignore _ _ done.moves done.stays

      Does-ending :
          (job : Job C.Any) (answer : Option C.Any ⊎ Error)
          → IsJobId job.id
          → Does R (keys_of w) (ending w.opts t job job.id answer) (elim answer [
            | inr e ↦ handle_job_failure R C fl w job e t.random t.end_time t.event_time
            | inl result ↦
                ignore (
                  send_to_results_queue R C w job
                    (elim result [ none ↦ t.nil_value | some v ↦ v ])
                    t.unix
                    t.process_time
                    t.uuid
                    t.end_time_ms
                    t.event_time)
                >> handle_job_success R C w job result t.end_time_ms t.event_time
          ])
      Does-ending job (inr e) i =
          Does-handle_job_failure L H C w o fl job e t.random t.end_time t.event_time i
      Does-ending job (inl result) i =
          Does-as
            (Does-then (Does-send job (elim result [ none ↦ t.nil_value | some v ↦ v ]))
              (Does-handle_job_success job result i))
            (λ b. refl)

      pub process_job-ending :
          (id : Bytes) (s : R.Store) (found : Job C.Any)
          → IsJobId id
          → Consistent R (keys_of w) none s
          → (get_job_data R C w id s).0 ≡ ok found
          → let job = record found { worker_id = w.opts.worker_id } in
            view R (keys_of w) (process_job R C fl w id t s).1
            ≡ ending w.opts t job id (t.processor job) (view R (keys_of w) s)
      unfolding process_job emit_active
      process_job-ending id s found i inv e =
          let job = record found { worker_id = w.opts.worker_id } in
          let own = (Returns-get_job_data L C none w o id i).returns s inv found e in
          let run =
            Does-then (Does-emit L (keys_of w) C w.event_emitter _ o)
              (Does-ending job (t.processor job) (subst IsJobId (sym own) i)) in
          ap (λ (r : Result Unit × R.Store). view R (keys_of w) r.1)
            (bind_of_ok (get_job_data R C w id) _ s found e)
          ∙ run.moves _ ((Keeps-get_job_data L C none w o id i).keeps s inv)
          ∙ ap (ending w.opts t job job.id (t.processor job)) (view-get_job_data id s i)
          ∙ ap (λ n. ending w.opts t job n (t.processor job) (view R (keys_of w) s)) own
