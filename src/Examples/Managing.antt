-- ===== src/Examples/Managing.antt =====
-- The calls that manage the example queue, and a check that races with the end of a job.
use bullmq_go.Prelude.{
  ℕ, ◌∙◌, Option, refl, sym, subst, ap, bytes_eq_refl, ◌≡◌, [], ◌∷◌, codes, none, some, true, false,
  bytes_eq, eq_of_bytes_eq, Bytes, List, inl, inr, Bool-cases, if◌then◌else◌, contains_byte, length,
}
use bullmq_go.Prelude.Int.{pos, ◌-ℤ◌}
use bullmq_go.Redis.Values.{
  Value, Result, ok, err, hash, zset, text, absent, fields, h_get, items, members, wrong_type,
  z_score,
}
use bullmq_go.Redis.Memory.{memory, memory-Laws, memory-IsHealthy, never}
use bullmq_go.Keys
use bullmq_go.Keys.Distinct.{
  KeyName, key_of, IsValid, job_name, failed_name, completed_name, key_of-injective, is_reserved,
}
use bullmq_go.Queue.{new_queue}
use bullmq_go.Queue.Manage.{remove_job, drain, clean, retry_job, unix_milli}
use bullmq_go.Worker.{keys_of, new_worker}
use bullmq_go.Invariant.Fits.{shape, fits, all_members}
use bullmq_go.Invariant.Keeps.{Consistent}
use bullmq_go.Board.{
  view, discard, emptied, again, is_on, in_list, in_set, no_repeats, expire_first,
}
use bullmq_go.Board.Managing.Removing.{remove_job-discard}
use bullmq_go.Board.Managing.Deleting.{its_job}
use bullmq_go.Board.Managing.Draining.{drain-emptied}
use bullmq_go.Board.Managing.Retrying.{retry_job-again}
use bullmq_go.Board.Managing.Retrying.Rollback.{retry_job_twice}
use bullmq_go.Board.Managing.Cleaning.{clean-sweeps}
use bullmq_go.Examples.{mail, first_id, first_id-IsJobId, second_id}
use bullmq_go.Examples.Running.{posts}
use bullmq_go.Examples.Steps.{later_mail, later_mail-Consistent}
use bullmq_go.Examples.Reading.{nothing_yet, nothing_yet-Consistent}

-- A server with one more value.
abbrev pub with_value : KeyName → Value → (Bytes → Value) → Bytes → Value
with_value n v s k = if bytes_eq k (key_of mail n) then v else s k

with_value_self :
    (n : KeyName) (v : Value) (s : Bytes → Value) → with_value n v s (key_of mail n) ≡ v
with_value_self n v s = rw (bytes_eq_refl (key_of mail n)) refl

pub with_value-Consistent :
    (n : KeyName) (v : Value) (s : Bytes → Value)
    → IsValid n
    → fits (shape none n) v ≡ true
    → Consistent (memory never) mail none s
    → Consistent (memory never) mail none (with_value n v s)
with_value-Consistent n v s u f h = record {
  at = λ m i. elim (Bool-cases (bytes_eq (key_of mail m) (key_of mail n))) [
    | inl same ↦
        subst (λ x. fits (shape none x) (with_value n v s (key_of mail x)) ≡ true)
          (key_of-injective mail n m u i (sym (eq_of_bytes_eq _ _ same)))
          (ap (fits (shape none n)) (with_value_self n v s) ∙ f)
    | inr other ↦ rw other (h.at m i)
  ];
}

-- The first job has failed.
abbrev failed_mail : Bytes → Value
failed_mail = with_value failed_name (zset ((first_id, pos 7) ∷ [])) (
    with_value (job_name first_id)
      (hash ((codes "failedReason", codes "no route") ∷ (codes "attemptsMade", codes "3") ∷ []))
      nothing_yet)

failed_mail-Consistent : Consistent (memory never) mail none failed_mail
unfolding all_members contains_byte is_reserved bytes_eq
failed_mail-Consistent =
    with_value-Consistent failed_name _ _ tt refl
      (with_value-Consistent (job_name first_id) _ _ first_id-IsJobId refl nothing_yet-Consistent)

-- Both jobs are completed, the first one long ago.
abbrev completed_mail : Bytes → Value
completed_mail =
    with_value completed_name (zset ((first_id, pos 5) ∷ (second_id, pos 9) ∷ [])) nothing_yet

completed_mail-Consistent : Consistent (memory never) mail none completed_mail
unfolding all_members contains_byte is_reserved bytes_eq
completed_mail-Consistent = with_value-Consistent completed_name _ _ tt refl nothing_yet-Consistent

abbrev removed : Result (Unit {0}) × (Bytes → Value)
removed = remove_job (memory never) posts first_id later_mail

remove_job-discard_example :
    (removed.0 ≡ ok tt)
    × (view (memory never) mail removed.1 ≡ discard first_id (view (memory never) mail later_mail))
    × (is_on first_id (view (memory never) mail removed.1) ≡ false)
    × (removed.1 (Keys.job mail first_id) ≡ absent)
    × (removed.1 (Keys.lock mail first_id) ≡ absent)
    × (removed.1 (Keys.logs mail first_id) ≡ absent)
unfolding new_queue keys_of new_worker all_members contains_byte is_reserved bytes_eq Keys.delayed
    Keys.wait
remove_job-discard_example =
    remove_job-discard (memory-Laws never) memory-IsHealthy posts first_id later_mail
      first_id-IsJobId (later_mail-Consistent none refl)

abbrev drained : Result ℕ × (Bytes → Value)
drained = drain (memory never) posts later_mail

drain-emptied_example :
    (gone : List Bytes) × (drained.0 ≡ ok (length gone))
    × (no_repeats gone ≡ true)
    × ((j : Bytes) → in_list j gone ≡ is_on j (view (memory never) mail later_mail))
    × (view (memory never) mail drained.1 ≡ emptied (view (memory never) mail later_mail))
    × (drained.1 (Keys.job mail first_id) ≡ (
        if is_on first_id (view (memory never) mail later_mail)
        then absent
        else later_mail (Keys.job mail first_id)))
unfolding new_queue keys_of new_worker all_members contains_byte is_reserved bytes_eq Keys.delayed
    Keys.wait
drain-emptied_example =
    drain-emptied (memory-Laws never) memory-IsHealthy posts later_mail first_id (job_name first_id)
      first_id-IsJobId its_job (later_mail-Consistent none refl)

abbrev retried : Result (Unit {0}) × (Bytes → Value)
retried = retry_job (memory never) posts first_id failed_mail

abbrev hash_at : (Bytes → Value) → Bytes → Option Bytes
hash_at s f = h_get f (fields (s (Keys.job mail first_id)))

retry_job-again_example :
    (retried.0 ≡ ok tt)
    × (view (memory never) mail retried.1 ≡ again first_id (view (memory never) mail failed_mail))
    × (hash_at retried.1 (codes "attemptsMade") ≡ some (codes "0"))
    × (hash_at retried.1 (codes "failedReason") ≡ none)
unfolding new_queue keys_of new_worker in_set bytes_eq Keys.failed again
retry_job-again_example =
    retry_job-again (memory-Laws never) memory-IsHealthy posts first_id failed_mail first_id-IsJobId
      failed_mail-Consistent

-- Something else has written a text to the key of the job's hash.
abbrev spoilt_mail : Bytes → Value
spoilt_mail = with_value (job_name first_id) (text (codes "?")) failed_mail

abbrev retried_twice : Result (Unit {0}) × (Bytes → Value)
retried_twice = retry_job (memory never) posts first_id spoilt_mail

retry_job_twice_example :
    (retried_twice.0 ≡ err wrong_type)
    × (in_list first_id (items (retried_twice.1 (Keys.wait mail))) ≡ true)
    × (in_set first_id (members (retried_twice.1 (Keys.failed mail))) ≡ true)
unfolding new_queue keys_of new_worker bytes_eq Keys.wait Keys.job Keys.failed z_score
retry_job_twice_example =
    retry_job_twice (memory-Laws never) memory-IsHealthy posts first_id spoilt_mail []
      ((first_id, pos 7) ∷ []) (pos 7) first_id-IsJobId refl refl refl refl

abbrev cleaned : Result ℕ × (Bytes → Value)
cleaned =
    clean (memory never) posts (pos 8_000_000) (pos 0) (pos 0) (codes "completed") completed_mail

clean-sweeps_example :
    (cleaned.0 ≡ ok 1)
    × (view (memory never) mail cleaned.1
        ≡ record (view (memory never) mail completed_mail) { completed = (second_id, pos 9) ∷ [] })
    × (cleaned.1 (Keys.job mail first_id) ≡ absent)
unfolding new_queue keys_of new_worker bytes_eq expire_first in_set no_repeats Keys.completed
    unix_milli ◌-ℤ◌
clean-sweeps_example =
    clean-sweeps (memory-Laws never) memory-IsHealthy posts true (pos 8_000_000) (pos 0) (pos 0)
      completed_mail first_id (job_name first_id) first_id-IsJobId its_job completed_mail-Consistent
      refl
