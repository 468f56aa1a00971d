-- ===== src/System/Sound.antt =====
-- What holds of a worker and its queue in every state that the steps lead to.
use bullmq_go.Prelude.{
  ◌≤◌, ◌<◌, ltb, ltb→lt, Bytes, bytes_eq, eq_of_bytes_eq, bytes_eq_refl, ◌≡◌, refl, sym, subst, ◌∙◌,
  ap, Bool, true, Bool-cases, List, [], ◌∷◌, ◌++◌, length, length-append, inl, inr, Option, arith,
}
use bullmq_go.Prelude.Int.{ℤ, pos}
use bullmq_go.Redis.{Server, Laws}
use bullmq_go.Redis.Values.{Result, ok, err}
use bullmq_go.Keys
use bullmq_go.Keys.{KeyBuilder}
use bullmq_go.Keys.Distinct.{key_of, IsJobId, lock_name, key_of-injective}
use bullmq_go.Jobs.{Codec}
use bullmq_go.Retry.{Float64}
use bullmq_go.Worker.{Worker, keys_of}
use bullmq_go.Worker.Run.{Pickup, Turn, pickup_job}
use bullmq_go.Worker.Start.{
  LoopState, again, capacity, new_loop, after_pickup, loop_pass, finish_job, stop,
}
use bullmq_go.Invariant.Fits.{shape, fits}
use bullmq_go.Invariant.Keeps.{Consistent}
use bullmq_go.Invariant.Pickups.{Keeps-pickup_job, Returns-pickup_job}
use bullmq_go.Invariant.Running.{Keeps-process_job}
use bullmq_go.System.{
  WorksOn, IsExpiry, Step, passes, finishes, stops, meanwhile, expires, Reach, begins, steps,
}
use bullmq_go.System.Operations.{Keeps-perform}

-- Every job that runs was picked up under a job id.
abbrev pub AllJobIds : List Pickup → Type 0
AllJobIds [] = Unit {0}
AllJobIds (p ∷ ps) = IsJobId p.job_id × AllJobIds ps

AllJobIds-removed :
    (before : List Pickup) (p : Pickup) (after : List Pickup)
    → AllJobIds (before ++ (p ∷ after))
    → IsJobId p.job_id × AllJobIds (before ++ after)
AllJobIds-removed [] p after h = h
AllJobIds-removed (q ∷ before) p after (i, h) =
    let (mine, rest) = AllJobIds-removed before p after h in (mine, (i, rest))

-- The queue's data is consistent, and the semaphore counts the running jobs, at most as many as
-- the worker has room for.
pub record IsSound (R : Server) (w : Worker) (kept : Option Bytes) (l : LoopState R.Store)
    : Type 0 where
  pub consistent : Consistent R (keys_of w) kept l.store
  pub job_ids : AllJobIds l.running
  pub counted : l.semaphore ≡ length l.running
  pub bounded : l.semaphore ≤ capacity w

again_injective : {St : Type 0} (n m : ℤ) (l l' : LoopState St) → again n l ≡ again m l' → l ≡ l'
again_injective n m l l' e = cc

-- A lock that expires leaves the queue's data consistent.
Consistent-expiry :
    {R : Server} (kb : KeyBuilder) (kept : Option Bytes) (id : Bytes) (s s' : R.Store)
    → IsJobId id
    → IsExpiry R (Keys.lock kb id) s s'
    → Consistent R kb kept s
    → Consistent R kb kept s'
Consistent-expiry {R} kb kept id s s' i x c = record {
  at = λ n v. elim (Bool-cases (bytes_eq (key_of kb n) (Keys.lock kb id))) [
    | inl same ↦
        let here = key_of-injective kb (lock_name id) n i v (sym (eq_of_bytes_eq _ _ same)) in
        subst (λ m. fits (shape kept m) (R.value s' (key_of kb m)) ≡ true) here
          (ap (fits (shape kept (lock_name id))) x.gone)
    | inr other ↦
        ap (fits (shape kept n))
          (x.others (key_of kb n) (λ e. cc (other, bytes_eq_refl (key_of kb n))))
        ∙ c.at n v
  ];
}

module _ {R : Server} (L : Laws R) (C : Codec) (fl : Float64) (w : Worker)
    (kept : Option Bytes) where
  IsSound-after_pickup :
      (l l' : LoopState R.Store) (sleep : ℤ) (r : Result Pickup × R.Store)
      → IsSound R w kept l
      → l.semaphore < capacity w
      → Consistent R (keys_of w) kept r.1
      → ((p : Pickup) → r.0 ≡ ok p → IsJobId p.job_id)
      → after_pickup R l r ≡ again sleep l'
      → IsSound R w kept l'
  IsSound-after_pickup l l' sleep (ok p, s) h room c i e =
      subst (IsSound R w kept) (again_injective _ sleep _ l' e) (record {
        consistent = c;
        job_ids = (i p refl, h.job_ids);
        counted = omega (arith, h.counted);
        bounded = omega (arith, room);
      })
  IsSound-after_pickup l l' sleep (err x, s) h room c i e =
      subst (IsSound R w kept) (again_injective _ sleep _ l' e)
        (record { consistent = c; job_ids = h.job_ids; counted = h.counted; bounded = h.bounded })

  IsSound-loop_pass :
      (l l' : LoopState R.Store) (token : Bytes) (in_time : Bool) (sleep : ℤ)
      → IsSound R w kept l
      → loop_pass R w token in_time l ≡ again sleep l'
      → IsSound R w kept l'
  unfolding loop_pass
  IsSound-loop_pass l l' token in_time sleep h e = elim (Bool-cases l.is_stopping) [
    | inl stopping ↦ cc
    | inr going ↦ elim (Bool-cases (ltb l.semaphore (capacity w))) [
      | inl room ↦
          IsSound-after_pickup l l' sleep (pickup_job R w token l.store) h (ltb→lt _ _ room)
            ((Keeps-pickup_job L kept w token).keeps l.store h.consistent)
            ((Returns-pickup_job L kept w token).returns l.store h.consistent) (ground arith)
      | inr full ↦
          subst (IsSound R w kept) (again_injective (pos 100000000) sleep l l' (ground arith)) h
    ]
  ]

  module _ (o : WorksOn (keys_of w) w) where
    IsSound-finish_job :
        (l : LoopState R.Store) (p : Pickup) (t : Turn C fl) (before after : List Pickup)
        → l.running ≡ before ++ (p ∷ after)
        → IsJobId t.uuid
        → IsSound R w kept l
        → IsSound R w kept (finish_job R C fl w p t (before ++ after) l)
    unfolding finish_job
    IsSound-finish_job l p t before after e u h =
        let (i, rest) = AllJobIds-removed before p after (subst AllJobIds e h.job_ids) in
        record {
          consistent =
              (Keeps-process_job L C kept w o.own_events o.elsewhere fl p.job_id t i u).keeps
                l.store h.consistent;
          job_ids = rest;
          counted = omega (
            arith,
            h.counted,
            ap length e,
            length-append before (p ∷ after),
            length-append before after,
          );
          bounded = omega (arith, h.bounded);
        }

    pub IsSound-Step :
        (l l' : LoopState R.Store)
        → Step R C fl w kept l l'
        → IsSound R w kept l
        → IsSound R w kept l'
    unfolding stop
    IsSound-Step l l' (passes token in_time sleep e) h =
        IsSound-loop_pass l l' token in_time sleep h e
    IsSound-Step l l' (finishes p t before after e u) h =
        IsSound-finish_job l p t before after e u h
    IsSound-Step l l' stops h = record {
      consistent = h.consistent;
      job_ids = h.job_ids;
      counted = h.counted;
      bounded = h.bounded;
    }
    IsSound-Step l l' (meanwhile op a) h = record {
      consistent = (Keeps-perform L C fl (keys_of w) kept op a).keeps l.store h.consistent;
      job_ids = h.job_ids;
      counted = h.counted;
      bounded = h.bounded;
    }
    IsSound-Step l l' (expires id s' i x) h = record {
      consistent = Consistent-expiry (keys_of w) kept id l.store s' i x h.consistent;
      job_ids = h.job_ids;
      counted = h.counted;
      bounded = h.bounded;
    }

    -- For workers whose results queues, where they have one, share no key with this queue: in every
    -- state that the worker may come to from its start on a server where the queue's data is
    -- consistent, whatever the server refuses and whichever replies are lost, whatever clients and
    -- other workers call meanwhile and whichever locks expire: the data is consistent, the
    -- semaphore counts the running jobs, these are at most as many as opts.Concurrency, and each
    -- has a job id.
    pub Reach-IsSound :
        (s : R.Store) (l : LoopState R.Store)
        → Consistent R (keys_of w) kept s
        → Reach R C fl w kept s l
        → IsSound R w kept l
    unfolding new_loop
    Reach-IsSound s l c begins = record {
      consistent = c;
      job_ids = tt;
      counted = refl;
      bounded = omega arith;
    }
    Reach-IsSound s l c (steps {l = before} r step) =
        IsSound-Step before l step (Reach-IsSound s before c r)
