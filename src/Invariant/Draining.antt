-- ===== src/Invariant/Draining.antt =====
-- Draining a queue and retrying a failed job keep the queue's data consistent.
use bullmq_go.Prelude.{
  Bytes, ◌≡◌, refl, true, List, [], ◌∷◌, Option, none, inl, inr, arith, ap, sym, ◌∙◌, Bool-cases,
  subst, ◌⊎◌,
}
use bullmq_go.Prelude.Int.{pos, negsuc}
use bullmq_go.Redis.{Server, Laws}
use bullmq_go.Redis.Values.{ok, zrem, del, zscore, lrange, zrange}
use bullmq_go.Redis.Action.{Action, ◌>>=◌}
use bullmq_go.Redis.Facts.{Result-cases}
use bullmq_go.Redis.Pipeline.{pipeline}
use bullmq_go.Keys
use bullmq_go.Keys.Distinct.{
  KeyName, IsJobId, IsValid, key_of, completed_name, failed_name, wait_name, active_name,
  prioritized_name, delayed_name,
}
use bullmq_go.Jobs.{Codec}
use bullmq_go.Queue.{Queue}
use bullmq_go.Queue.Manage.{del_jobs, add_ids, has_id, drain, or_empty, retry_job}
use bullmq_go.Invariant.Fits.{all_ids, IsJobId-is_job_id, shape, fits, allowed, ids, scores}
use bullmq_go.Invariant.Replies.{lrange_reply, zrange_reply}
use bullmq_go.Invariant.Keeps.{
  Keeps, Consistent, Returns, keeps_rules, Keeps-bind, Keeps-bind-with, Keeps-elim_result, Keeps-if,
  Keeps-fail, Keeps-pure, Keeps-attempt, Keeps-explain, Keeps-exec, Returns-exec,
}
use bullmq_go.Invariant.Rules.{key_rules, Keeps-failed, IsOwnEmitter}
use bullmq_go.Invariant.Queues.{Keeps-pipeline_nil, Keeps-pipeline_cons, Keeps-del_jobs}

pub all_ids-add_ids :
    (set xs : List Bytes) → all_ids set ≡ true → all_ids xs ≡ true → all_ids (add_ids set xs) ≡ true
unfolding all_ids add_ids
all_ids-add_ids set [] h k = h
all_ids-add_ids set (x ∷ xs) h k = elim (Bool-cases (has_id x set)) [
  | inl old ↦ rw old (all_ids-add_ids set xs h (ground arith))
  | inr new ↦ rw new (all_ids-add_ids (x ∷ set) xs (ground arith) (ground arith))
]

module _ (R : Server) (text : Bytes) (m : Action R.Store (List Bytes)) where
  pub or_empty_state : (s : R.Store) → (or_empty R text m s).1 ≡ (m s).1
  unfolding or_empty
  or_empty_state s = ground arith

  or_empty_reply :
      (s : R.Store) (found : List Bytes)
      → (or_empty R text m s).0 ≡ ok found
      → ((m s).0 ≡ ok found) ⊎ (found ≡ [])
  unfolding or_empty
  or_empty_reply s found e = elim (Result-cases (m s).0) [
    | inl (a, answered) ↦ inl (ground arith)
    | inr (x, refused) ↦ inr (ground arith)
  ]

  module _ {I : R.Store → Type 0} where
    Keeps-or_empty : Keeps I m → Keeps I (or_empty R text m)
    Keeps-or_empty k = record { keeps = λ s h. subst I (sym (or_empty_state s)) (k.keeps s h) }

    Returns-or_empty :
        Returns I (λ found. all_ids found ≡ true) m
        → Returns I (λ found. all_ids found ≡ true) (or_empty R text m)
    unfolding all_ids
    Returns-or_empty r = record {
      returns = λ s h found e. elim (or_empty_reply s found e) [
        | inl answered ↦ r.returns s h found answered
        | inr empty ↦ rw empty refl
      ];
    }

module _ {R : Server} (L : Laws R) (C : Codec) (q : Queue)
    (o : IsOwnEmitter q.key_builder q.event_emitter) where
  -- The rest of `drain` may use that what a read returns are job ids.
  module _ {A : Type 0} (text : Bytes) (f : List Bytes → Action R.Store A) where
    after_list :
        (key : KeyName)
        → IsValid key
        → shape none key ≡ ids
        → ((found : List Bytes)
            → all_ids found ≡ true
            → Keeps (Consistent R q.key_builder none) (f found))
        → Keeps
            (Consistent R q.key_builder none)
            (or_empty R text (R.exec (lrange (key_of q.key_builder key) (pos 0) (negsuc 0))) >>= f)
    after_list key v e k =
        let read = lrange (key_of q.key_builder key) (pos 0) (negsuc 0) in
        Keeps-bind-with (λ found. all_ids found ≡ true) _ f
          (Keeps-or_empty R text _
            (Keeps-exec L q.key_builder none key read v refl (ap (λ sh. allowed sh read) e)))
          (Returns-or_empty R text _ (
            Returns-exec L q.key_builder none key read (λ found. all_ids found ≡ true) v refl
              (λ value found h a.
                lrange_reply _ _ _ value found (ap (λ sh. fits sh value) (sym e) ∙ h) a)))
          k

    after_set :
        (key : KeyName)
        → IsValid key
        → shape none key ≡ scores none
        → ((found : List Bytes)
            → all_ids found ≡ true
            → Keeps (Consistent R q.key_builder none) (f found))
        → Keeps
            (Consistent R q.key_builder none)
            (or_empty R text (R.exec (zrange (key_of q.key_builder key) (pos 0) (negsuc 0))) >>= f)
    after_set key v e k =
        let read = zrange (key_of q.key_builder key) (pos 0) (negsuc 0) in
        Keeps-bind-with (λ found. all_ids found ≡ true) _ f
          (Keeps-or_empty R text _
            (Keeps-exec L q.key_builder none key read v refl (ap (λ sh. allowed sh read) e)))
          (Returns-or_empty R text _ (
            Returns-exec L q.key_builder none key read (λ found. all_ids found ≡ true) v refl
              (λ value found h a.
                zrange_reply _ _ _ value found none (ap (λ sh. fits sh value) (sym e) ∙ h) a)))
          k

  Keeps-drain_commands :
      (gone : List Bytes)
      → all_ids gone ≡ true
      → Keeps (Consistent R q.key_builder none) (
          pipeline R (
            del (Keys.wait q.key_builder)
            ∷ del (Keys.prioritized q.key_builder)
            ∷ del (Keys.delayed q.key_builder)
            ∷ del (Keys.active q.key_builder)
            ∷ del (Keys.completed q.key_builder)
            ∷ del (Keys.failed q.key_builder)
            ∷ del (Keys.events q.key_builder)
            ∷ del_jobs q.key_builder gone))
  Keeps-drain_commands gone h = Keeps-pipeline_cons R _ _ (search key_rules) (
      Keeps-pipeline_cons R _ _ (search key_rules) (
        Keeps-pipeline_cons R _ _ (search key_rules) (
          Keeps-pipeline_cons R _ _ (search key_rules) (
            Keeps-pipeline_cons R _ _ (search key_rules) (
              Keeps-pipeline_cons R _ _ (search key_rules) (
                Keeps-pipeline_cons R _ _ (search key_rules)
                  (Keeps-del_jobs L C none q o gone h)))))))

  pub Keeps-drain : Keeps (Consistent R q.key_builder none) (drain R q)
  unfolding drain all_ids
  Keeps-drain = after_list _ _ wait_name tt refl λ waiting h1.
      after_set _ _ prioritized_name tt refl λ prioritized h2.
        after_set _ _ delayed_name tt refl λ delayed h3.
          after_list _ _ active_name tt refl λ active h4.
            after_set _ _ completed_name tt refl λ completed h5.
              after_set _ _ failed_name tt refl λ failed h6.
                Keeps-bind _ _
                  (Keeps-explain _ _ (
                    Keeps-drain_commands _ (
                      all_ids-add_ids _ failed
                        (all_ids-add_ids _ completed
                          (all_ids-add_ids _ active
                            (all_ids-add_ids _ delayed
                              (all_ids-add_ids _ prioritized (all_ids-add_ids [] waiting refl h1)
                                h2)
                              h3)
                            h4)
                          h5)
                        h6)))
                  λ _. Keeps-pure _

module _ {R : Server} (L : Laws R) (C : Codec) (kept : Option Bytes) (q : Queue)
    (o : IsOwnEmitter q.key_builder q.event_emitter) where
  pub Keeps-retry_job :
      (id : Bytes) → IsJobId id → Keeps (Consistent R q.key_builder kept) (retry_job R q id)
  unfolding retry_job
  Keeps-retry_job id i =
      let id_ok = IsJobId-is_job_id id i in
      Keeps-bind _ _
        (Keeps-attempt _
          (Keeps-failed L q.key_builder kept (zscore (Keys.failed q.key_builder) id) refl refl))
        λ answer.
          Keeps-elim_result answer _ _
            (λ score.
              Keeps-bind _ _
                (Keeps-failed L q.key_builder kept (zrem (Keys.failed q.key_builder) id) refl refl)
                λ _.
                  Keeps-bind _ _
                    (Keeps-attempt _
                      (search (key_rules, Keeps-pipeline_nil, Keeps-pipeline_cons) depth 16))
                    λ moved.
                      Keeps-elim_result moved _ _ (λ _. Keeps-pure tt)
                        (λ e. search (keeps_rules, key_rules)))
            (λ e. Keeps-if _ _ _ (Keeps-fail _) (Keeps-fail e))
