-- ===== src/Invariant/Logging.antt =====
-- Logs and progress keep the queue's data consistent.
use bullmq_go.Prelude.{ℕ, Bytes, refl, ◌⊎◌, inl, inr, Option}
use bullmq_go.Prelude.Int.{ℤ, pos, negsuc}
use bullmq_go.Redis.{Server, Laws}
use bullmq_go.Redis.Values.{exists, rpush, ltrim, hget, hset, xadd}
use bullmq_go.Redis.Action.{Action}
use bullmq_go.Keys
use bullmq_go.Keys.{KeyBuilder, RedisClient, new_key_builder}
use bullmq_go.Keys.Distinct.{IsJobId}
use bullmq_go.Jobs.{Codec}
use bullmq_go.Logs.{
  LogCodec, LogManager, add_log_script, add_log, get_or_set_max_events, update_progress_script,
  update_progress,
}
use bullmq_go.Invariant.Keeps.{
  Keeps, Consistent, Keeps-bind, Keeps-elim_result, Keeps-if, Keeps-fail, Keeps-pure, Keeps-attempt,
  Keeps-explain,
}
use bullmq_go.Invariant.Rules.{Keeps-job, Keeps-logs, Keeps-meta, Keeps-events}

module _ {St : Type 0} {I : St → Type 0} {B : Type 0} where
  Keeps-elim_int :
      (n : ℤ) (f g : ℕ → Action St B)
      → ((m : ℕ) → Keeps I (f m))
      → ((m : ℕ) → Keeps I (g m))
      → Keeps I (elim n [ pos m ↦ f m | negsuc m ↦ g m ])
  Keeps-elim_int (pos m) f g kf kg = kf m
  Keeps-elim_int (negsuc m) f g kf kg = kg m

  Keeps-elim_either :
      (r : Bytes ⊎ Bytes) (f g : Bytes → Action St B)
      → ((a : Bytes) → Keeps I (f a))
      → ((a : Bytes) → Keeps I (g a))
      → Keeps I (elim r [ inl a ↦ f a | inr a ↦ g a ])
  Keeps-elim_either (inl a) f g kf kg = kf a
  Keeps-elim_either (inr a) f g kf kg = kg a

module _ {R : Server} (L : Laws R) (kept : Option Bytes) where
  Keeps-add_log_script :
      (kb : KeyBuilder) (id entry : Bytes) (keep : ℕ)
      → IsJobId id
      → Keeps
          (Consistent R kb kept)
          (add_log_script R (Keys.job kb id) (Keys.logs kb id) entry keep)
  unfolding add_log_script
  Keeps-add_log_script kb id entry keep i =
      Keeps-bind _ _ (Keeps-job L kb kept (exists (Keys.job kb id)) id refl refl i) λ found.
        Keeps-if _ _ _
          (Keeps-bind _ _ (Keeps-logs L kb kept (rpush (Keys.logs kb id) entry) id refl refl i)
            λ count.
              Keeps-bind _ _ (Keeps-logs L kb kept (ltrim (Keys.logs kb id) _ _) id refl refl i)
                λ _. Keeps-pure _)
          (Keeps-pure _)

  pub Keeps-add_log :
      (LC : LogCodec) (lm : LogManager) (id message : Bytes) (now : ℤ)
      → IsJobId id
      → Keeps
          (Consistent R (new_key_builder lm.queue_name lm.redis_client) kept)
          (add_log R LC lm id message now)
  unfolding add_log
  Keeps-add_log LC lm id message now i =
      Keeps-elim_either (LC.marshal_entry (record { timestamp = now; message = message })) _ _
        (λ reason. Keeps-fail _)
        λ text.
          Keeps-bind _ _
            (Keeps-explain _ _ (
              Keeps-add_log_script (new_key_builder lm.queue_name lm.redis_client) id text
                lm.max_logs i))
            λ count.
              Keeps-elim_int count _ _ (λ n. Keeps-pure _)
                λ n. Keeps-if _ _ _ (Keeps-fail _) (Keeps-pure _)

  Keeps-get_or_set_max_events :
      (C : Codec) (kb : KeyBuilder)
      → Keeps (Consistent R kb kept) (get_or_set_max_events R C (Keys.meta kb))
  unfolding get_or_set_max_events
  Keeps-get_or_set_max_events C kb =
      Keeps-bind _ _ (Keeps-attempt _ (Keeps-meta L kb kept (hget (Keys.meta kb) _) refl refl))
        λ answer.
          Keeps-elim_result answer _ _ (λ text. Keeps-pure _)
            λ e.
              Keeps-if _ _ _
                (Keeps-bind _ _ (Keeps-meta L kb kept (hset (Keys.meta kb) _) refl refl)
                  λ _. Keeps-pure _)
                (Keeps-fail _)

  Keeps-update_progress_script :
      (C : Codec) (kb : KeyBuilder) (id progress : Bytes)
      → IsJobId id
      → Keeps
          (Consistent R kb kept)
          (update_progress_script R C (Keys.job kb id) (Keys.events kb) (Keys.meta kb) id progress)
  unfolding update_progress_script
  Keeps-update_progress_script C kb id progress i =
      Keeps-bind _ _ (Keeps-job L kb kept (exists (Keys.job kb id)) id refl refl i) λ found.
        Keeps-if _ _ _
          (Keeps-bind _ _ (Keeps-get_or_set_max_events C kb) λ max_events.
            Keeps-bind _ _ (Keeps-job L kb kept (hset (Keys.job kb id) _) id refl refl i) λ _.
              Keeps-bind _ _ (Keeps-events L kb kept (xadd (Keys.events kb) _ _) refl refl)
                λ _. Keeps-pure _)
          (Keeps-pure _)

  pub Keeps-update_progress :
      (C : Codec) (name : Bytes) (client : RedisClient) (id : Bytes) (progress : ℤ)
      → IsJobId id
      → Keeps
          (Consistent R (new_key_builder name client) kept)
          (update_progress R C name client id progress)
  unfolding update_progress
  Keeps-update_progress C name client id progress i = Keeps-if _ _ _ (Keeps-fail _) (
      Keeps-bind _ _
        (Keeps-explain _ _ (Keeps-update_progress_script C (new_key_builder name client) id _ i))
        λ code.
          Keeps-elim_int code _ _ (λ n. Keeps-pure _)
            λ n. Keeps-if _ _ _ (Keeps-fail _) (Keeps-pure _))
