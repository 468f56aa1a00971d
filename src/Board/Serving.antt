-- ===== src/Board/Serving.antt =====
-- The loop of Start on a server that is up, while there is room: every job that is prioritized or
-- waits is started.
use bullmq_go.Prelude.{
  ◌+◌, ◌<◌, ◌≤◌, Bool, Bool-cases, inl, inr, lt→ltb, Bytes, ◌≡◌, refl, sym, subst, ap, ◌∙◌, true,
  false, List, [], ◌∷◌, ◌++◌, append_assoc, map, length, none, arith,
}
use bullmq_go.Prelude.Int.{ℤ, pos, ◌≤ℤ◌}
use mathlib.Core.List.{reverse, reverse-cons}
use bullmq_go.Errors.{is_redis_nil}
use bullmq_go.Redis.{Server, Laws, IsHealthy}
use bullmq_go.Redis.Values.{Result, ok, err, names}
use bullmq_go.Worker.{Worker, keys_of}
use bullmq_go.Worker.Run.{Pickup, pickup_job}
use bullmq_go.Worker.Start.{LoopState, Pass, returned, again, capacity, after_pickup, loop_pass}
use bullmq_go.Invariant.Fits.{z_has}
use bullmq_go.Invariant.Keeps.{Consistent}
use bullmq_go.Invariant.Pickups.{Keeps-pickup_job}
use bullmq_go.Board.{Board, Picked, took, pick, view}
use bullmq_go.Board.Popping.{picked, pick_prioritized, pick_waiting}
use bullmq_go.Board.Picking.{pickup_job-pick}

-- The jobs that a worker takes, in the order in which it takes them.
unfoldable pub line : Board → List Bytes
line b = names b.prioritized ++ b.waiting

abbrev pub job_ids : List Pickup → List Bytes
job_ids = map (λ (p : Pickup). p.job_id)

-- A board from which jobs are taken.
pub record IsOpen (b : Board) : Type 0 where
  pub running : b.is_paused ≡ false
  pub no_empty : z_has [] b.prioritized ≡ false

abbrev pub Takes : Bytes → List Bytes → Picked × Board → Type 0
Takes id rest r = (r.0 ≡ took id) × (line r.1 ≡ rest) × IsOpen r.1

Takes-prioritized :
    (b : Board) (id m : Bytes) (sc : ℤ) (rest : List Bytes) (zs : List (Bytes × ℤ))
    → IsOpen b
    → b.prioritized ≡ (m, sc) ∷ zs
    → line b ≡ id ∷ rest
    → Takes id rest (took m, record b { prioritized = zs; active = m ∷ b.active })
unfolding line z_has
Takes-prioritized b id m sc rest zs o h e = (
  ground (arith, h),
  ground (arith, h),
  record { running = o.running; no_empty = ground (arith, h, o.no_empty) },
)

Takes-waiting :
    (b : Board) (id m : Bytes) (rest ms : List Bytes)
    → IsOpen b
    → b.prioritized ≡ []
    → b.waiting ≡ m ∷ ms
    → line b ≡ id ∷ rest
    → Takes id rest (took m, record b { waiting = ms; active = m ∷ b.active })
unfolding line z_has
Takes-waiting b id m rest ms o h k e = (
  ground (arith, h, k),
  ground (arith, h, k),
  record { running = o.running; no_empty = o.no_empty },
)

-- A pick takes the head of the line.
pub Takes-pick :
    (b : Board) (id : Bytes) (rest : List Bytes)
    → IsOpen b
    → line b ≡ id ∷ rest
    → Takes id rest (pick b)
unfolding line
Takes-pick b id rest o e = by_priority b.prioritized b.waiting refl refl
  where
    by_priority :
        (zs : List (Bytes × ℤ)) (ms : List Bytes)
        → b.prioritized ≡ zs
        → b.waiting ≡ ms
        → Takes id rest (pick b)
    by_priority ((m, sc) ∷ zs) ms h k =
        subst (Takes id rest) (sym (pick_prioritized b m sc zs o.running h))
          (Takes-prioritized b id m sc rest zs o h e)
    by_priority [] (m ∷ ms) h k =
        subst (Takes id rest) (sym (pick_waiting b m ms o.running h k))
          (Takes-waiting b id m rest ms o h k e)
    by_priority [] [] h k = ground (arith, h, k)

module _ (R : Server) (w : Worker) where
  -- Where the loop stands after a pass; it has ended where the pass returns.
  abbrev pub next_of : LoopState R.Store → Pass R.Store → LoopState R.Store
  next_of l (returned r) = l
  next_of l (again sleep l') = l'

  -- One pass for each token.
  unfoldable pub passes_of : List Bytes → LoopState R.Store → LoopState R.Store
  passes_of [] l = l
  passes_of (token ∷ tokens) l = passes_of tokens (next_of l (loop_pass R w token true l))

  -- The state after a pass that started a job.
  record IsStarted (id : Bytes) (l l' : LoopState R.Store) (s : R.Store) : Type 0 where
    store_now : l'.store ≡ s
    counted : l'.semaphore ≡ l.semaphore + 1
    started : job_ids l'.running ≡ id ∷ job_ids l.running
    goes_on : l'.is_stopping ≡ false

  after_pickup-IsStarted :
      (l : LoopState R.Store) (r : Result Pickup × R.Store) (id : Bytes)
      → l.is_stopping ≡ false
      → picked r.0 ≡ took id
      → IsStarted id l (next_of l (after_pickup R l r)) r.1
  after_pickup-IsStarted l (ok p, s) id g e = record {
    store_now = refl;
    counted = refl;
    started = ground arith;
    goes_on = g;
  }
  after_pickup-IsStarted l (err x, s) id g e = elim (Bool-cases (is_redis_nil x)) [
    | inl q ↦ ground (arith, q)
    | inr q ↦ ground (arith, q)
  ]

  loop_pass_runs :
      (l : LoopState R.Store) (token : Bytes) (in_time : Bool)
      → l.is_stopping ≡ false
      → l.semaphore < capacity w
      → loop_pass R w token in_time l ≡ after_pickup R l (pickup_job R w token l.store)
  unfolding loop_pass
  loop_pass_runs l token in_time g room = ground (arith, g, lt→ltb _ _ room)

  loop_pass-IsStarted :
      (l : LoopState R.Store) (token id : Bytes)
      → l.is_stopping ≡ false
      → l.semaphore < capacity w
      → picked (pickup_job R w token l.store).0 ≡ took id
      → IsStarted id l (next_of l (loop_pass R w token true l)) (pickup_job R w token l.store).1
  loop_pass-IsStarted l token id g room e =
      subst (λ pass. IsStarted id l (next_of l pass) (pickup_job R w token l.store).1)
        (sym (loop_pass_runs l token true g room))
        (after_pickup-IsStarted l (pickup_job R w token l.store) id g e)

module _ {R : Server} (L : Laws R) (H : IsHealthy R) (w : Worker)
    (d : pos 1 ≤ℤ w.opts.lock_duration) (c : w.is_connected ≡ true) where
  -- On a server that is up and where the queue's data is consistent, for a connected worker with a
  -- lock duration above 0, a queue that is not paused and no empty id prioritized: as many passes
  -- of the loop as there are jobs prioritized or waiting, with room for them, start each of these
  -- jobs, by priority and then by age, and leave none.
  pub passes_of-line :
      (tokens ids : List Bytes) (l : LoopState R.Store)
      → l.is_stopping ≡ false
      → l.semaphore + length tokens ≤ capacity w
      → Consistent R (keys_of w) none l.store
      → IsOpen (view R (keys_of w) l.store)
      → length tokens ≡ length ids
      → line (view R (keys_of w) l.store) ≡ ids
      → let l' = passes_of R w tokens l in
        (job_ids l'.running ≡ reverse ids ++ job_ids l.running)
        × (line (view R (keys_of w) l'.store) ≡ [])
  unfolding passes_of
  passes_of-line [] [] l g room inv o n e = (refl, e)
  passes_of-line [] (id ∷ ids) l g room inv o n e = ground arith
  passes_of-line (token ∷ tokens) [] l g room inv o n e = ground arith
  passes_of-line (token ∷ tokens) (id ∷ ids) l g room inv o n e =
      let refines = pickup_job-pick L H w d l.store token c inv o.no_empty in
      let (got, left, still) = Takes-pick (view R (keys_of w) l.store) id ids o e in
      let s' = (pickup_job R w token l.store).1 in
      let started =
        loop_pass-IsStarted R w l token id g (omega (arith, room))
          (ap (λ (r : Picked × Board). r.0) refines ∙ got) in
      let l' = next_of R w l (loop_pass R w token true l) in
      let board =
        ap (λ (s : R.Store). view R (keys_of w) s) started.store_now
        ∙ ap (λ (r : Picked × Board). r.1) refines in
      let inv' =
        subst (Consistent R (keys_of w) none) (sym started.store_now)
          ((Keeps-pickup_job L none w token).keeps l.store inv) in
      let (order, empty) =
        passes_of-line tokens ids l' started.goes_on (omega (arith, room, started.counted)) inv'
          (subst IsOpen (sym board) still) (omega (arith, n)) (ap line board ∙ left) in
      (
        order
            ∙ ap (λ xs. reverse ids ++ xs) started.started
            ∙ sym (append_assoc (reverse ids) (id ∷ []) (job_ids l.running))
            ∙ ap (λ xs. xs ++ job_ids l.running) (sym (reverse-cons id ids)),
        empty,
      )
