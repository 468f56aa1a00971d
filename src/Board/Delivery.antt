-- ===== src/Board/Delivery.antt =====
-- From `Add` to the end of the run: a queue and a worker together, on a server that is up.
pub mod Kept
use bullmq_go.Prelude.{
  Bytes, codes, bytes_eq_refl, ◌≡◌, refl, sym, subst, ap, ◌∙◌, true, false, Bool-cases, inl, inr,
  List, [], ◌∷◌, none, arith, if◌then◌else◌, Option, Bool,
}
use bullmq_go.Prelude.Int.{ℤ, pos, ◌≤ℤ◌}
use bullmq_go.Redis.{Server, Laws, IsHealthy}
use bullmq_go.Redis.Values.{
  Result, ok, err, absent, hash, fields, hget, z_place, z_remove, remove_count,
}
use bullmq_go.Errors.{is_redis_nil}
use bullmq_go.Keys
use bullmq_go.Keys.Distinct.{IsJobId, meta_name}
use bullmq_go.Jobs.{JobOptions, Job, Codec}
use bullmq_go.Retry.{Float64}
use bullmq_go.Queue.{new_queue, apply_defaults, new_job, add}
use bullmq_go.Board.Submitting.{add-submit}
use bullmq_go.Board.Running.{ending, process_job-ending}
use bullmq_go.Invariant.Queues.{Keeps-add}
use bullmq_go.Invariant.Pickups.{Keeps-pickup_job}
use bullmq_go.Queue.Submit.{IsOwnQueue}
use bullmq_go.Redis.Replies.{hget_keeps}
use bullmq_go.Worker.Run.Taking.{unpaused}
use bullmq_go.Invariant.Fits.{z_has}
use bullmq_go.Invariant.Keeps.{Consistent}
use bullmq_go.Invariant.Rules.{IsOwnEmitter}
use bullmq_go.Invariant.Running.{SendsElsewhere}
use bullmq_go.Board.{Board, Picked, took, view, finish, submit, end_well}
use bullmq_go.Board.Views.{as_hash-fits}
use bullmq_go.Board.Popping.{picked, seen, pick_waiting}
use bullmq_go.Board.Picking.{pickup_job-pick, IsRunning-view}
use bullmq_go.Worker.{Worker, keys_of}
use bullmq_go.Worker.Run.{Pickup, Turn, pickup_job, process_job}
use bullmq_go.Worker.Run.Reading.{
  ReadsBack, as_read, stored_fields, add-stored, get_job_data-stored,
}
use bullmq_go.Board.Delivery.Kept.{rest_run, rest-hash}

remove_count-head : (id : Bytes) (xs : List Bytes) → remove_count 1 id (id ∷ xs) ≡ xs
unfolding remove_count
remove_count-head id [] = ground (arith, bytes_eq_refl id)
remove_count-head id (x ∷ xs) = ground (arith, bytes_eq_refl id)

-- A job that was taken from a board and ended well: the board is as before but for that job.
end_well-taken :
    (is_removed : Bool) (id : Bytes) (at : ℤ) (b : Board)
    → b.waiting ≡ []
    → end_well is_removed id at (record b { waiting = []; active = id ∷ b.active }) ≡ (
        if is_removed
        then b
        else record b { completed = z_place (id, at) (z_remove id b.completed) })
unfolding end_well finish
end_well-taken is_removed id at b e = ground (arith, remove_count-head id b.active, e)

submit-waits :
    {A : Type 0} (job : Job A) (b : Board)
    → job.delay ≤ℤ pos 0
    → job.opts.priority ≤ℤ pos 0
    → b.waiting ≡ []
    → submit job b ≡ record b { waiting = job.id ∷ [] }
unfolding submit
submit-waits job b d p e = ground (arith, e)

own_queue : (w : Worker) → IsOwnQueue (new_queue w.queue_name w.redis_client)
unfolding new_queue
own_queue w = record { same_events = refl }

own_emitter :
    (w : Worker)
    → IsOwnEmitter
        (new_queue w.queue_name w.redis_client).key_builder
        (new_queue w.queue_name w.redis_client).event_emitter
unfolding new_queue
own_emitter w = record { same_events = refl }

picked_id :
    (r : Result Pickup) (id : Bytes)
    → picked r ≡ took id
    → (p : Pickup) × (r ≡ ok p) × (p.job_id ≡ id)
picked_id (ok p) id e = (p, refl, ground arith)
picked_id (err x) id e = elim (Bool-cases (is_redis_nil x)) [
  | inl q ↦ ground (arith, q)
  | inr q ↦ ground (arith, q)
]

module _ {R : Server} (L : Laws R) (H : IsHealthy R) (w : Worker)
    (d : pos 1 ≤ℤ w.opts.lock_duration) (c : w.is_connected ≡ true) (C : Codec) (fl : Float64)
    (t : Turn C fl) (o : IsOwnEmitter (keys_of w) w.event_emitter) (a : SendsElsewhere w)
    (u : IsJobId t.uuid) where
  -- The pickup of the one job that waits.
  taken_alone :
      (s : R.Store) (id token : Bytes)
      → Consistent R (keys_of w) none s
      → (view R (keys_of w) s).is_paused ≡ false
      → (view R (keys_of w) s).prioritized ≡ []
      → (view R (keys_of w) s).waiting ≡ id ∷ []
      → seen R w (pickup_job R w token s) ≡ (
        took id,
        record (view R (keys_of w) s) { waiting = []; active = id ∷ (view R (keys_of w) s).active },
      )
  unfolding z_has
  taken_alone s id token inv p e f =
      pickup_job-pick L H w d s token c inv (ap (z_has []) e)
      ∙ pick_waiting (view R (keys_of w) s) id [] p e f

  hash_after :
      (s : R.Store) (token : Bytes) (p : Pickup)
      → IsJobId p.job_id
      → Consistent R (keys_of w) none s
      → (view R (keys_of w) s).is_paused ≡ false
      → (pickup_job R w token s).0 ≡ ok p
      → R.value (pickup_job R w token s).1 (Keys.job (keys_of w) p.job_id)
        ≡ R.value s (Keys.job (keys_of w) p.job_id)
  hash_after s token p i inv running e =
      let kb = keys_of w in
      let s1 = (R.exec (hget (Keys.meta kb) (codes "paused")) s).1 in
      let (paused, asks, goes) =
        unpaused L H w d s _ (as_hash-fits _ (inv.at meta_name tt))
          (IsRunning-view (fields (R.value s (Keys.meta kb))) running) in
      let run = rest_run L w s s1 paused token c asks goes in
      ap (λ (r : Result Pickup × R.Store). R.value r.1 (Keys.job kb p.job_id)) run
      ∙ rest-hash L w s1 token p i (ap (λ (r : Result Pickup × R.Store). r.0) (sym run) ∙ e)
      ∙ hget_keeps L (Keys.meta kb) (codes "paused") s (Keys.job kb p.job_id)

  -- The pickup and the run of a job that was stored and is the only one that waits.
  run_alone :
      (j : Job C.Any) (body settings token : Bytes) (s : R.Store) (b : Board)
      (result : Option C.Any)
      → IsJobId j.id
      → ReadsBack C j.payload j.opts body settings
      → Consistent R (keys_of w) none s
      → view R (keys_of w) s ≡ record b { waiting = j.id ∷ [] }
      → b.is_paused ≡ false
      → b.prioritized ≡ []
      → b.waiting ≡ []
      → R.value s (Keys.job (keys_of w) j.id) ≡ hash (stored_fields C j body settings)
      → t.processor (record (as_read C w j) { worker_id = w.opts.worker_id }) ≡ inl result
      → let (r, s2) = pickup_job R w token s in
        (picked r ≡ took j.id)
        × (view R (keys_of w) (process_job R C fl w j.id t s2).1 ≡ (
            if j.opts.remove_on_complete then b else record b {
              completed = z_place (j.id, t.end_time_ms) (z_remove j.id b.completed);
            }))
  run_alone j body settings token s b result i r inv v p e f stored done =
      let running = ap (λ (x : Board). x.is_paused) v ∙ p in
      let picks =
        taken_alone s j.id token inv running (ap (λ (x : Board). x.prioritized) v ∙ e)
          (ap (λ (x : Board). x.waiting) v) in
      let took_it = ap (λ (x : Picked × Board). x.0) picks in
      let (got, answered, own) = picked_id (pickup_job R w token s).0 j.id took_it in
      let s2 = (pickup_job R w token s).1 in
      let inv2 = (Keeps-pickup_job L none w token).keeps s inv in
      let still =
        subst (λ n. R.value s2 (Keys.job (keys_of w) n) ≡ R.value s (Keys.job (keys_of w) n)) own
          (hash_after s token got (subst IsJobId (sym own) i) inv running answered)
        ∙ stored in
      let job = record (as_read C w j) { worker_id = w.opts.worker_id } in
      (
        took_it,
        process_job-ending L C w a o H fl t u j.id s2 (as_read C w j) i inv2
              (get_job_data-stored H C w j body settings s2 still r)
            ∙ ap (λ answer. ending w.opts t job j.id answer (view R (keys_of w) s2)) done
            ∙ ap (end_well j.opts.remove_on_complete j.id t.end_time_ms) (
                ap (λ (x : Picked × Board). x.1) picks
                ∙ ap (λ (x : Board). record x { waiting = []; active = j.id ∷ x.active }) v)
            ∙ end_well-taken j.opts.remove_on_complete j.id t.end_time_ms b f,
      )

  -- On a server that is up and where the queue's data is consistent, for a connected worker with a
  -- lock duration above 0, which writes its events to its queue's own stream and whose results
  -- queue, if it has one, shares no key with its own queue, and a queue of the same name and client
  -- that is not paused and has no job prioritized or waiting: when `Add` returns a job without
  -- delay and priority, under an id like those of `Add` whose hash is absent and with a payload and
  -- options whose JSON reads back, the next pickup takes that job; the processor is given the job
  -- that was added, and if it succeeds, the board is as before `Add` but for the job, which is in
  -- the completed set at the time of its end, or nowhere if it is to be removed.
  pub process_job-pickup_job-add :
      (name : Bytes) (payload : List (Bytes × C.Any)) (given : JobOptions) (id : Bytes)
      (now later : ℤ) (body settings token : Bytes)
      → IsJobId id
      → ReadsBack C payload (apply_defaults given) body settings
      → (s : R.Store) (job : Job C.Any) (result : Option C.Any) → Consistent R (keys_of w) none s
      → R.value s (Keys.job (keys_of w) id) ≡ absent
      → (view R (keys_of w) s).is_paused ≡ false
      → (view R (keys_of w) s).prioritized ≡ []
      → (view R (keys_of w) s).waiting ≡ []
      → (add R C (new_queue w.queue_name w.redis_client) name payload given id now later s).0
        ≡ ok job
      → job.delay ≤ℤ pos 0
      → job.opts.priority ≤ℤ pos 0
      → t.processor
          (record job { queue_name = w.queue_name; connected = true; worker_id = w.opts.worker_id })
        ≡ inl result
      → let s1 =
          (add R C (new_queue w.queue_name w.redis_client) name payload given id now later s).1 in
        let (r, s2) = pickup_job R w token s1 in
        let s3 = (process_job R C fl w id t s2).1 in
        (picked r ≡ took id)
        × (view R (keys_of w) s3 ≡ (
            if job.opts.remove_on_complete
            then view R (keys_of w) s
            else record (view R (keys_of w) s) {
              completed =
                  z_place (id, t.end_time_ms) (z_remove id (view R (keys_of w) s).completed);
            }))
  unfolding new_queue keys_of submit new_job
  process_job-pickup_job-add name payload given id now later body settings token i r s job result
        inv fresh running e f h dl pr done =
      let q = new_queue w.queue_name w.redis_client in
      let s1 = (add R C q name payload given id now later s).1 in
      let made = new_job R C id name payload (apply_defaults given) now in
      let (same, stored) =
        add-stored L C q (own_queue w) name payload given id now later body settings i r s job fresh
          h in
      let placed = add-submit L H C q (own_queue w) name payload given id now later i s job inv h in
      let inv1 =
        (Keeps-add L C none q (own_emitter w) name payload given id now later i).keeps s inv in
      let run =
        run_alone made body settings token s1 (view R (keys_of w) s) result i r inv1
          (placed
            ∙ ap (λ (j : Job C.Any). submit j (view R (keys_of w) s)) same
            ∙ submit-waits made (view R (keys_of w) s)
                (subst (λ (j : Job C.Any). j.delay ≤ℤ pos 0) same dl)
                (subst (λ (j : Job C.Any). j.opts.priority ≤ℤ pos 0) same pr) f)
          running e f stored
          (ap
              (λ (j : Job C.Any). t.processor (record j {
                queue_name = w.queue_name;
                connected = true;
                worker_id = w.opts.worker_id;
              }))
              (sym same)
            ∙ done) in
      (
        run.0,
        run.1
            ∙ ap
                (λ (j : Job C.Any).
                  if j.opts.remove_on_complete
                  then view R (keys_of w) s
                  else record (view R (keys_of w) s) {
                    completed =
                        z_place (id, t.end_time_ms) (z_remove id (view R (keys_of w) s).completed);
                  })
                (sym same),
      )
