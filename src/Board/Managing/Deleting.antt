-- ===== src/Board/Managing/Deleting.antt =====
-- What the deletion of jobs does to the keys of the jobs themselves.
use bullmq_go.Prelude.{
  Bytes, bytes_eq, bytes_eq_refl, eq_of_bytes_eq, bytes_eq_sym, ◌≡◌, refl, ap, sym, subst, ◌∙◌,
  true, false, List, [], ◌∷◌, arith, if◌then◌else◌, Bool-cases, inl, inr, ltb, ==_iff,
}
use bullmq_go.Redis.{Server, Laws, IsHealthy}
use bullmq_go.Redis.Values.{absent, del, zrem}
use bullmq_go.Redis.Facts.{value_other, del_self}
use bullmq_go.Redis.Pipeline.{pipeline}
use bullmq_go.Keys
use bullmq_go.Keys.{KeyBuilder}
use bullmq_go.Keys.Distinct.{
  KeyName, IsJobId, IsValid, key_of, key_of-injective, job_name, lock_name, logs_name, apart, tag,
}
use bullmq_go.Queue.Manage.{del_jobs, clean_commands}
use bullmq_go.Invariant.Fits.{all_ids, is_job_id-IsJobId}
use bullmq_go.Board.{in_list}

-- The three keys of a job.
pub data IsOf (id : Bytes) : KeyName → Type 0 where
  its_job : IsOf id (job_name id)
  its_lock : IsOf id (lock_name id)
  its_logs : IsOf id (logs_name id)

IsOf-IsValid : {id : Bytes} {m : KeyName} → IsOf id m → IsJobId id → IsValid m
IsOf-IsValid its_job i = i
IsOf-IsValid its_lock i = i
IsOf-IsValid its_logs i = i

owner : KeyName → Bytes
owner (job_name id) = id
owner (lock_name id) = id
owner (logs_name id) = id
owner n = []

owner-IsOf : {id : Bytes} {m : KeyName} → IsOf id m → owner m ≡ id
unfolding owner
owner-IsOf its_job = refl
owner-IsOf its_lock = refl
owner-IsOf its_logs = refl

module _ {R : Server} (L : Laws R) (H : IsHealthy R) (kb : KeyBuilder) where
  -- The keys of different jobs are different.
  pub keys_differ :
      (id j : Bytes) (m n : KeyName)
      → IsJobId id
      → IsJobId j
      → IsOf id m
      → IsOf j n
      → bytes_eq id j ≡ false
      → bytes_eq (key_of kb m) (key_of kb n) ≡ false
  keys_differ id j m n i k om on ne = elim (Bool-cases (bytes_eq (key_of kb m) (key_of kb n))) [
    | inl equal ↦
        let same = ap owner (
          key_of-injective kb m n (IsOf-IsValid om i) (IsOf-IsValid on k)
            (eq_of_bytes_eq _ _ equal)) in
        cc (sym (owner-IsOf om) ∙ same ∙ owner-IsOf on, bytes_eq_refl id)
    | inr other ↦ other
  ]

  -- A command on a key of the queue itself leaves them alone.
  IsOf-apart :
      {id : Bytes} {m : KeyName} (n : KeyName)
      → IsOf id m
      → IsJobId id
      → IsValid n
      → ltb (tag n) 8 ≡ true
      → bytes_eq (key_of kb m) (key_of kb n) ≡ false
  IsOf-apart {id} n its_job i v p = apart kb (job_name id) n i v (ground (arith, ==_iff 8 (tag n)))
  IsOf-apart {id} n its_lock i v p =
      apart kb (lock_name id) n i v (ground (arith, ==_iff 9 (tag n)))
  IsOf-apart {id} n its_logs i v p =
      apart kb (logs_name id) n i v (ground (arith, ==_iff 10 (tag n)))

  pub IsOf-other :
      {id : Bytes} {m : KeyName}
      → IsOf id m
      → IsJobId id
      → (n : KeyName) (s : R.Store) → IsValid n
      → ltb (tag n) 8 ≡ true
      → R.value (R.exec (del (key_of kb n)) s).1 (key_of kb m) ≡ R.value s (key_of kb m)
  IsOf-other {id} {m} o i n s v p = value_other L _ s (key_of kb m) (IsOf-apart n o i v p)

  abbrev three : Bytes → R.Store → R.Store
  three id s =
      (R.exec (del (Keys.logs kb id))
        (R.exec (del (Keys.lock kb id)) (R.exec (del (Keys.job kb id)) s).1).1).1

  three_own :
      (id : Bytes) (m : KeyName) (s : R.Store)
      → IsJobId id
      → IsOf id m
      → R.value (three id s) (key_of kb m) ≡ absent
  three_own id m s i its_job =
      value_other L _ _ _ (apart kb (job_name id) (logs_name id) i i refl)
      ∙ value_other L _ _ _ (apart kb (job_name id) (lock_name id) i i refl)
      ∙ del_self L H _ _
  three_own id m s i its_lock =
      value_other L _ _ _ (apart kb (lock_name id) (logs_name id) i i refl) ∙ del_self L H _ _
  three_own id m s i its_logs = del_self L H _ _

  three_other :
      (id j : Bytes) (m : KeyName) (s : R.Store)
      → IsJobId id
      → IsJobId j
      → IsOf id m
      → bytes_eq id j ≡ false
      → R.value (three j s) (key_of kb m) ≡ R.value s (key_of kb m)
  three_other id j m s i k o ne =
      value_other L _ _ _ (keys_differ id j m _ i k o its_logs ne)
      ∙ value_other L _ _ _ (keys_differ id j m _ i k o its_lock ne)
      ∙ value_other L _ _ _ (keys_differ id j m _ i k o its_job ne)

  three_value :
      (id j : Bytes) (m : KeyName) (s : R.Store)
      → IsJobId id
      → IsJobId j
      → IsOf id m
      → R.value (three j s) (key_of kb m)
        ≡ (if bytes_eq j id then absent else R.value s (key_of kb m))
  three_value id j m s i k o = elim (Bool-cases (bytes_eq j id)) [
    | inl equal ↦ rw equal (
        subst (λ x. R.value (three x s) (key_of kb m) ≡ absent) (sym (eq_of_bytes_eq j id equal))
          (three_own id m s i o))
    | inr other ↦ rw other (three_other id j m s i k o (bytes_eq_sym id j ∙ other))
  ]

  -- Deleting jobs takes their keys away, and those of no other job.
  pub del_jobs-value :
      (id : Bytes) (m : KeyName) (gone : List Bytes) (s : R.Store)
      → IsJobId id
      → IsOf id m
      → all_ids gone ≡ true
      → R.value (pipeline R (del_jobs kb gone) s).1 (key_of kb m)
        ≡ (if in_list id gone then absent else R.value s (key_of kb m))
  unfolding del_jobs pipeline in_list all_ids
  del_jobs-value id m [] s i o h = refl
  del_jobs-value id m (j ∷ rest) s i o h =
      let k = is_job_id-IsJobId j (ground arith) in
      ground
        (arith, del_jobs-value id m rest (three j s) i o (ground arith), three_value id j m s i k o)

  -- The same for Clean, which takes each job out of one of the queue's own sets as well.
  pub clean_commands-value :
      (id : Bytes) (m n : KeyName) (gone : List Bytes) (s : R.Store)
      → IsJobId id
      → IsOf id m
      → IsValid n
      → ltb (tag n) 8 ≡ true
      → all_ids gone ≡ true
      → R.value (pipeline R (clean_commands kb (key_of kb n) gone) s).1 (key_of kb m)
        ≡ (if in_list id gone then absent else R.value s (key_of kb m))
  unfolding clean_commands pipeline in_list all_ids
  clean_commands-value id m n [] s i o v p h = refl
  clean_commands-value id m n (j ∷ rest) s i o v p h =
      let k = is_job_id-IsJobId j (ground arith) in
      let s1 = (R.exec (zrem (key_of kb n) j) s).1 in
      ground (
        arith,
        clean_commands-value id m n rest (three j s1) i o v p (ground arith),
        three_value id j m s1 i k o,
        value_other L (zrem (key_of kb n) j) s (key_of kb m) (IsOf-apart n o i v p),
      )
