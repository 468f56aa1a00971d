-- ===== src/Invariant/Queues.antt =====
-- The operations of a queue keep its data consistent.
use bullmq_go.Prelude.{
  ℕ, Bytes, ◌≡◌, refl, true, if◌then◌else◌, List, [], ◌∷◌, Option, none, arith, length, ap, sym,
  ◌∙◌,
}
use bullmq_go.Prelude.Int.{ℤ, pos, ltb_ℤ, pos_part}
use bullmq_go.Redis.{Server, Laws}
use bullmq_go.Redis.Values.{Command, lpush, zadd, zrem, hset, hdel, zrangebyscore}
use bullmq_go.Redis.Action.{pure, ◌>>=◌}
use bullmq_go.Redis.Pipeline.{pipeline}
use bullmq_go.Keys
use bullmq_go.Keys.Distinct.{KeyName, IsJobId, IsValid, key_of, completed_name, failed_name}
use bullmq_go.Jobs.{Job, JobOptions, Codec}
use bullmq_go.Events.{emit_waiting}
use bullmq_go.Queue.{Queue, store_job_hash, enqueue_job, add, pause, resume}
use bullmq_go.Queue.Manage.{remove_job, clean_key, clean_commands, clean, del_jobs}
use bullmq_go.Invariant.Fits.{
  all_ids, spares, IsJobId-is_job_id, is_job_id-IsJobId, shape, fits, allowed, scores,
}
use bullmq_go.Invariant.Replies.{zrangebyscore_reply}
use bullmq_go.Invariant.Keeps.{
  Keeps, Consistent, keeps_rules, Keeps-bind, Keeps-bind-with, Keeps-if, Keeps-fail, Keeps-pure,
  Keeps-marshalled, Keeps-exec, Returns-exec,
}
use bullmq_go.Invariant.Rules.{
  key_rules, Keeps-job, Keeps-meta, Keeps-wait, Keeps-delayed, Keeps-prioritized, IsOwnEmitter,
  Keeps-emit,
}

module _ (R : Server) {I : R.Store → Type 0} where
  pub Keeps-pipeline_nil : Keeps I (pipeline R [])
  unfolding pipeline
  Keeps-pipeline_nil = record { keeps = λ s h. h }

  pub Keeps-pipeline_cons :
      (c : Command) (cs : List Command)
      → Keeps I (R.exec c)
      → Keeps I (pipeline R cs)
      → Keeps I (pipeline R (c ∷ cs))
  unfolding pipeline
  Keeps-pipeline_cons c cs kc ks = record { keeps = λ s h. ks.keeps _ (kc.keeps s h) }

module _ {R : Server} (L : Laws R) (C : Codec) (kept : Option Bytes) (q : Queue)
    (o : IsOwnEmitter q.key_builder q.event_emitter) where
  pub Keeps-store_job_hash :
      (job : Job C.Any)
      → IsJobId job.id
      → Keeps (Consistent R q.key_builder kept) (store_job_hash R C q job)
  unfolding store_job_hash
  Keeps-store_job_hash job i = Keeps-bind _ _ (Keeps-marshalled _ _) λ payload.
      Keeps-bind _ _ (Keeps-marshalled _ _) λ opts.
        Keeps-job L q.key_builder kept (hset (Keys.job q.key_builder job.id) _) job.id refl refl i

  Keeps-enqueue_job :
      (job : Job C.Any)
      → IsJobId job.id
      → Keeps (Consistent R q.key_builder kept) (enqueue_job R C q job)
  unfolding enqueue_job
  Keeps-enqueue_job job i =
      let id_ok = IsJobId-is_job_id job.id i in
      Keeps-if _ _ _
        (Keeps-delayed L q.key_builder kept (zadd (Keys.delayed q.key_builder) _ job.id) refl id_ok)
        (Keeps-if _ _ _
          (Keeps-prioritized L q.key_builder kept (zadd (Keys.prioritized q.key_builder) _ job.id)
            refl id_ok)
          (Keeps-wait L q.key_builder kept (lpush (Keys.wait q.key_builder) job.id) refl id_ok))

  pub Keeps-add :
      (name : Bytes) (payload : List (Bytes × C.Any)) (given : JobOptions) (id : Bytes)
      (now later : ℤ)
      → IsJobId id
      → Keeps (Consistent R q.key_builder kept) (add R C q name payload given id now later)
  unfolding add emit_waiting
  Keeps-add name payload given id now later i =
      search (keeps_rules, Keeps-store_job_hash, Keeps-enqueue_job, Keeps-emit) depth 24

  pub Keeps-pause : Keeps (Consistent R q.key_builder kept) (pause R C q)
  unfolding pause
  Keeps-pause = Keeps-meta L q.key_builder kept (hset (Keys.meta q.key_builder) _) refl refl

  pub Keeps-resume : Keeps (Consistent R q.key_builder kept) (resume R C q)
  unfolding resume
  Keeps-resume = Keeps-meta L q.key_builder kept (hdel (Keys.meta q.key_builder) _) refl refl

  pub Keeps-remove_job :
      (id : Bytes)
      → IsJobId id
      → spares kept id ≡ true
      → Keeps (Consistent R q.key_builder kept) (remove_job R q id)
  unfolding remove_job
  Keeps-remove_job id i sp = search (key_rules, Keeps-pipeline_nil, Keeps-pipeline_cons) depth 16

  Keeps-clean_commands :
      (key : KeyName) (cleaned : List Bytes)
      → IsValid key
      → ((id : Bytes) → allowed (shape kept key) (zrem (key_of q.key_builder key) id) ≡ true)
      → all_ids cleaned ≡ true
      → Keeps
          (Consistent R q.key_builder kept)
          (pipeline R (clean_commands q.key_builder (key_of q.key_builder key) cleaned))
  unfolding clean_commands all_ids
  Keeps-clean_commands key [] v a h = Keeps-pipeline_nil R
  Keeps-clean_commands key (id ∷ cleaned) v a h =
      let i = is_job_id-IsJobId id (ground arith) in
      Keeps-pipeline_cons R _ _
        (Keeps-exec L q.key_builder kept key (zrem (key_of q.key_builder key) id) v refl (a id))
        (Keeps-pipeline_cons R _ _ (search key_rules) (
          Keeps-pipeline_cons R _ _ (search key_rules) (
            Keeps-pipeline_cons R _ _ (search key_rules)
              (Keeps-clean_commands key cleaned v a (ground arith)))))

  pub Keeps-del_jobs :
      (gone : List Bytes)
      → all_ids gone ≡ true
      → Keeps (Consistent R q.key_builder kept) (pipeline R (del_jobs q.key_builder gone))
  unfolding del_jobs all_ids
  Keeps-del_jobs [] h = Keeps-pipeline_nil R
  Keeps-del_jobs (id ∷ gone) h =
      let i = is_job_id-IsJobId id (ground arith) in
      Keeps-pipeline_cons R _ _ (search key_rules) (
        Keeps-pipeline_cons R _ _ (search key_rules)
          (Keeps-pipeline_cons R _ _ (search key_rules) (Keeps-del_jobs gone (ground arith))))

  Keeps-clean_key :
      (key : KeyName) (cutoff limit : ℤ)
      → IsValid key
      → shape kept key ≡ scores none
      → Keeps
          (Consistent R q.key_builder kept)
          (clean_key R q.key_builder (key_of q.key_builder key) cutoff limit)
  unfolding clean_key
  Keeps-clean_key key cutoff limit v e =
      let read =
        zrangebyscore (key_of q.key_builder key) cutoff
          (if ltb_ℤ (pos 0) limit then pos_part limit else 0) in
      Keeps-bind-with (λ found. all_ids found ≡ true) _ _
        (Keeps-exec L q.key_builder kept key read v refl (ap (λ sh. allowed sh read) e))
        (Returns-exec L q.key_builder kept key read (λ found. all_ids found ≡ true) v refl
          (λ value found h a.
            zrangebyscore_reply _ _ _ value found none (ap (λ sh. fits sh value) (sym e) ∙ h) a))
        cases
    where
      cases :
          (found : List Bytes)
          → all_ids found ≡ true
          → Keeps (Consistent R q.key_builder kept) (elim found [
            | [] ↦ pure {A = ℕ} 0
            | x ∷ xs ↦
                pipeline R (clean_commands q.key_builder (key_of q.key_builder key) (x ∷ xs))
                >>= λ _. pure (length (x ∷ xs))
          ])
      cases [] h = Keeps-pure 0
      cases (x ∷ xs) h =
          Keeps-bind _ _
            (Keeps-clean_commands key (x ∷ xs) v
              (λ id. ap (λ sh. allowed sh (zrem (key_of q.key_builder key) id)) e) h)
            λ _. Keeps-pure _

  pub Keeps-clean :
      (now age limit : ℤ) (job_type : Bytes)
      → Keeps (Consistent R q.key_builder kept) (clean R q now age limit job_type)
  unfolding clean
  Keeps-clean now age limit job_type =
      Keeps-if _ _ _ (Keeps-clean_key completed_name _ limit tt refl)
        (Keeps-if _ _ _ (Keeps-clean_key failed_name _ limit tt refl) (Keeps-fail _))
