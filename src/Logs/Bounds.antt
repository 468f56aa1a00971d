-- ===== src/Logs/Bounds.antt =====
-- The log list of a job on a server that is up.
use bullmq_go.Prelude.{
  ℕ, suc, ◌+◌, ◌-◌, Bytes, ◌++◌, ◌≡◌, refl, ◌∙◌, ap, sym, ◌<◌, false, List, [], ◌∷◌, some, inr,
  arith, length, drop, length-append, length-drop, take-length, zero,
}
use bullmq_go.Prelude.Int.{ℤ, pos, negsuc, sub_ℕ}
use bullmq_go.Redis.{Server, Laws, IsHealthy}
use bullmq_go.Redis.Values.{
  list, ok, exists, rpush, ltrim, outcome, effect, settle, as_list, items, of_items, range,
  is_absent, when,
}
use bullmq_go.Redis.Action.{◌>>=◌}
use bullmq_go.Redis.Facts.{value_self, items-as_list}
use bullmq_go.Redis.Replies.{exists_answer, exists_keeps}
use bullmq_go.Keys
use bullmq_go.Keys.{new_key_builder}
use bullmq_go.Logs.{LogCodec, LogManager, add_log_script, add_log, min_of}

range_last :
    (k : ℕ) (xs : List Bytes) → range (sub_ℕ 0 (suc k)) (negsuc 0) xs ≡ drop (length xs - suc k) xs
unfolding range
range_last k xs = ground (arith, take-length xs)

items-of_items : (xs : List Bytes) → items (of_items xs) ≡ xs
items-of_items [] = refl
items-of_items (x ∷ xs) = refl

-- The list of the last entries.
abbrev pub newest : ℕ → List Bytes → List Bytes
newest n xs = drop (length xs - n) xs

module _ {R : Server} (L : Laws R) (H : IsHealthy R) where
  rpush_run :
      (k x : Bytes) (s : R.Store) (xs : List Bytes)
      → as_list (R.value s k) ≡ some xs
      → ((R.exec (rpush k x) s).0 ≡ ok (length xs + 1))
        × (R.value (R.exec (rpush k x) s).1 k ≡ list (xs ++ x ∷ []))
  unfolding outcome effect
  rpush_run k x s xs e = (
    H.answers (rpush k x) s ∙ rw (e, when) refl,
    value_self L H (rpush k x) s
        ∙ rw (e, settle) (ap (λ ys. list (ys ++ x ∷ [])) (items-as_list (R.value s k) xs e)),
  )

  ltrim_run :
      (k : Bytes) (n : ℕ) (s : R.Store) (xs : List Bytes)
      → R.value s k ≡ list xs
      → ((R.exec (ltrim k (sub_ℕ 0 (suc n)) (negsuc 0)) s).0 ≡ ok tt)
        × (R.value (R.exec (ltrim k (sub_ℕ 0 (suc n)) (negsuc 0)) s).1 k
            ≡ of_items (newest (suc n) xs))
  unfolding outcome effect
  ltrim_run k n s xs e = (
    H.answers (ltrim k (sub_ℕ 0 (suc n)) (negsuc 0)) s ∙ rw (e, when) refl,
    value_self L H (ltrim k (sub_ℕ 0 (suc n)) (negsuc 0)) s ∙ rw e (ap of_items (range_last n xs)),
  )

  add_log_script_run :
      (job_key logs_key x : Bytes) (n : ℕ) (s : R.Store) (xs : List Bytes)
      → is_absent (R.value s job_key) ≡ false
      → as_list (R.value s logs_key) ≡ some xs
      → let (r, s') = add_log_script R job_key logs_key x (suc n) s in
        (r ≡ ok (pos (min_of (suc n) (length xs + 1))))
        × (R.value s' logs_key ≡ of_items (newest (suc n) (xs ++ x ∷ [])))
  unfolding add_log_script ◌>>=◌
  add_log_script_run job_key logs_key x n s xs p e =
      let s1 = (R.exec (exists job_key) s).1 in
      let (a, b) =
        rpush_run logs_key x s1 xs (ap as_list (exists_keeps L job_key s logs_key) ∙ e) in
      let (c, d) = ltrim_run logs_key n (R.exec (rpush logs_key x) s1).1 (xs ++ x ∷ []) b in
      rw (exists_answer H job_key s p, a, c) (refl, d)

  -- The same for a bound that is not in the form of a successor.
  add_log_script_keeps :
      (job_key logs_key x : Bytes) (keep : ℕ) (s : R.Store) (xs : List Bytes)
      → 0 < keep
      → is_absent (R.value s job_key) ≡ false
      → as_list (R.value s logs_key) ≡ some xs
      → let (r, s') = add_log_script R job_key logs_key x keep s in
        (r ≡ ok (pos (min_of keep (length xs + 1))))
        × (R.value s' logs_key ≡ of_items (newest keep (xs ++ x ∷ [])))
  add_log_script_keeps job_key logs_key x zero s xs h p e = absurd (omega arith)
  add_log_script_keeps job_key logs_key x (suc n) s xs h p e =
      add_log_script_run job_key logs_key x n s xs p e

length-newest :
    (n : ℕ) (xs : List Bytes) (x : Bytes)
    → length (newest n (xs ++ x ∷ [])) ≡ min_of n (length xs + 1)
length-newest n xs x =
    ground
      (arith, length-drop (length (xs ++ x ∷ []) - n) (xs ++ x ∷ []), length-append xs (x ∷ []))

abbrev pub logs_key : LogManager → Bytes → Bytes
logs_key lm id = Keys.logs (new_key_builder lm.queue_name lm.redis_client) id

abbrev pub job_key : LogManager → Bytes → Bytes
job_key lm id = Keys.job (new_key_builder lm.queue_name lm.redis_client) id

module _ (R : Server) (J : LogCodec) (lm : LogManager) (id message text : Bytes) (now : ℤ) where
  add_log_run :
      (s : R.Store) (c : ℕ)
      → J.marshal_entry (record { timestamp = now; message = message }) ≡ inr text
      → (add_log_script R (job_key lm id) (logs_key lm id) text lm.max_logs s).0 ≡ ok (pos c)
      → add_log R J lm id message now s
        ≡ (ok (pos c), (add_log_script R (job_key lm id) (logs_key lm id) text lm.max_logs s).1)
  unfolding add_log ◌>>=◌
  add_log_run s c m r = ground (arith, m, r)

  -- On a server that is up, for a bound of at least 1, a job that exists, a log key that is a list
  -- or absent, and an entry that can be marshalled: `AddLog` appends the entry and keeps the newest
  -- entries up to the bound, in their order, and it returns how many it keeps.
  pub add_log-newest :
      Laws R
      → IsHealthy R
      → (s : R.Store) (xs : List Bytes) → 0 < lm.max_logs
      → J.marshal_entry (record { timestamp = now; message = message }) ≡ inr text
      → is_absent (R.value s (job_key lm id)) ≡ false
      → as_list (R.value s (logs_key lm id)) ≡ some xs
      → let (r, s') = add_log R J lm id message now s in
        (r ≡ ok (pos (length (items (R.value s' (logs_key lm id))))))
        × (length (items (R.value s' (logs_key lm id))) ≡ min_of lm.max_logs (length xs + 1))
        × (items (R.value s' (logs_key lm id)) ≡ newest lm.max_logs (xs ++ text ∷ []))
  add_log-newest L H s xs b m p e =
      let (r, v) =
        add_log_script_keeps L H (job_key lm id) (logs_key lm id) text lm.max_logs s xs b p e in
      let kept = ap items v ∙ items-of_items (newest lm.max_logs (xs ++ text ∷ [])) in
      let counted = ap length kept ∙ length-newest lm.max_logs xs text in
      rw (add_log_run s (min_of lm.max_logs (length xs + 1)) m r)
        (ap (λ n. ok (pos n)) (sym counted), counted, kept)
