-- ===== src/Worker/Stalled/Locked.antt =====
-- A check that finds every active job locked.
use bullmq_go.Prelude.{Bytes, ℕ, ◌≡◌, refl, ◌∙◌, ap, false, List, [], ◌∷◌, some}
use bullmq_go.Prelude.Int.{ℤ, pos, negsuc}
use bullmq_go.Redis.{Server, Laws, IsHealthy}
use bullmq_go.Redis.Values.{ok, exists, lrange, as_list, is_absent, effect}
use bullmq_go.Redis.Action.{◌>>=◌}
use bullmq_go.Redis.Facts.{read_keeps}
use bullmq_go.Redis.Replies.{exists_answer, exists_keeps, lrange_all}
use bullmq_go.Keys
use bullmq_go.Jobs.{Codec}
use bullmq_go.Worker.{Worker, keys_of}
use bullmq_go.Worker.Stalled.{
  StalledChecker, bump64, is_job_stalled, check_each, check_stalled_jobs,
}

-- Every job of the list has its lock.
abbrev pub AllLocked : (R : Server) → Worker → R.Store → List Bytes → Type 0
AllLocked R w s [] = Unit {0}
AllLocked R w s (id ∷ ids) =
    (is_absent (R.value s (Keys.lock (keys_of w) id)) ≡ false) × AllLocked R w s ids

module _ {R : Server} (L : Laws R) (H : IsHealthy R) (C : Codec) (w : Worker)
    (clock : Bytes → ℤ) where
  AllLocked-of_same :
      (ids : List Bytes) (s t : R.Store)
      → ((k : Bytes) → R.value t k ≡ R.value s k)
      → AllLocked R w s ids
      → AllLocked R w t ids
  AllLocked-of_same [] s t same locked = tt
  AllLocked-of_same (id ∷ ids) s t same (here, rest) =
      (ap is_absent (same _) ∙ here, AllLocked-of_same ids s t same rest)

  step_run :
      (id : Bytes) (ids : List Bytes) (count : ℕ) (s : R.Store)
      → is_absent (R.value s (Keys.lock (keys_of w) id)) ≡ false
      → check_each R C w clock (id ∷ ids) count s
        ≡ check_each R C w clock ids count (R.exec (exists (Keys.lock (keys_of w) id)) s).1
  unfolding check_each is_job_stalled ◌>>=◌
  step_run id ids count s e = rw (exists_answer H (Keys.lock (keys_of w) id) s e) refl

  check_each_locked :
      (ids : List Bytes) (count : ℕ) (s : R.Store)
      → AllLocked R w s ids
      → let (r, s') = check_each R C w clock ids count s in
        (r ≡ ok count) × ((k : Bytes) → R.value s' k ≡ R.value s k)
  unfolding check_each ◌>>=◌
  check_each_locked [] count s locked = (refl, λ k. refl)
  check_each_locked (id ∷ ids) count s (here, rest) =
      let s1 = (R.exec (exists (Keys.lock (keys_of w) id)) s).1 in
      let same = exists_keeps L (Keys.lock (keys_of w) id) s in
      let (r, kept) = check_each_locked ids count s1 (AllLocked-of_same ids s s1 same rest) in
      rw (step_run id ids count s here) (r, λ k. kept k ∙ same k)

  lrange_keeps :
      (k : Bytes) (s : R.Store) (j : Bytes)
      → R.value (R.exec (lrange k (pos 0) (negsuc 0)) s).1 j ≡ R.value s j
  unfolding effect
  lrange_keeps k = read_keeps L (lrange k (pos 0) (negsuc 0)) (λ v. refl)

  -- On a server that is up, when every job of the active list has its lock, a check of the stalled
  -- jobs changes no key and recovers none; it counts itself.
  pub check_stalled_jobs_locked :
      (sc : StalledChecker) (s : R.Store) (ids : List Bytes)
      → as_list (R.value s (Keys.active (keys_of w))) ≡ some ids
      → AllLocked R w s ids
      → let (r, s') = check_stalled_jobs R C w clock sc s in
        (r ≡ ok (record sc { check_count = bump64 sc.check_count }))
        × ((k : Bytes) → R.value s' k ≡ R.value s k)
  unfolding check_stalled_jobs ◌>>=◌
  check_stalled_jobs_locked sc s ids e locked =
      let k = Keys.active (keys_of w) in
      let s1 = (R.exec (lrange k (pos 0) (negsuc 0)) s).1 in
      let (r, kept) =
        check_each_locked ids sc.recovered_count s1
          (AllLocked-of_same ids s s1 (lrange_keeps k s) locked) in
      rw (lrange_all H k s ids e, r) (refl, λ j. kept j ∙ lrange_keeps k s j)
