-- ===== src/Keys/Distinct.antt =====
-- The keys of one queue are pairwise different, for job ids that are like the UUIDs of `Add`: no
-- colon in them, and none of the words that name the queue's own keys.
use bullmq_go.Prelude.{
  ℕ, Bytes, codes, bytes_eq, bytes_eq_refl, bytes_eq_sym, bytes_eq-append, eq_of_bytes_eq,
  contains_byte, bytes_eq_of_contains, ◌≡◌, refl, sym, ◌∙◌, ap, Bool, true, false, ◌||◌, [], ◌∷◌,
  ◌++◌, append_assoc, arith, ltb, ◌==◌, Bool-cases, inl, inr, if◌then◌else◌,
}
use mathlib.Core.List.{append_cancel_left, append_cancel_right}
use bullmq_go.Keys.{
  KeyBuilder, wait, prioritized, delayed, active, completed, failed, events, meta, job, lock, logs,
}

-- The keys of a queue, by their methods.
pub data KeyName : Type 0 where
  wait_name prioritized_name delayed_name active_name : KeyName
  completed_name failed_name events_name meta_name : KeyName
  job_name lock_name logs_name : Bytes → KeyName

abbrev pub key_of : KeyBuilder → KeyName → Bytes
key_of kb wait_name = wait kb
key_of kb prioritized_name = prioritized kb
key_of kb delayed_name = delayed kb
key_of kb active_name = active kb
key_of kb completed_name = completed kb
key_of kb failed_name = failed kb
key_of kb events_name = events kb
key_of kb meta_name = meta kb
key_of kb (job_name id) = job kb id
key_of kb (lock_name id) = lock kb id
key_of kb (logs_name id) = logs kb id

abbrev pub suffix : KeyName → Bytes
suffix wait_name = codes "wait"
suffix prioritized_name = codes "prioritized"
suffix delayed_name = codes "delayed"
suffix active_name = codes "active"
suffix completed_name = codes "completed"
suffix failed_name = codes "failed"
suffix events_name = codes "events"
suffix meta_name = codes "meta"
suffix (job_name id) = id
suffix (lock_name id) = id ++ codes ":lock"
suffix (logs_name id) = id ++ codes ":logs"

abbrev pub start_of : Bool → Bytes → Bytes
start_of tags q =
    if tags then codes "bull:{" ++ (q ++ codes "}:") else codes "bull:" ++ (q ++ codes ":")

abbrev pub prefix : KeyBuilder → Bytes
prefix kb = start_of kb.use_hash_tags kb.queue_name

start_of-append :
    (tags : Bool) (q w : Bytes)
    → (if tags
        then codes "bull:{" ++ (q ++ (codes "}:" ++ w))
        else codes "bull:" ++ (q ++ (codes ":" ++ w)))
      ≡ start_of tags q ++ w
start_of-append true q w = ap (◌++◌ (codes "bull:{")) (sym (append_assoc q (codes "}:") w))
start_of-append false q w = ap (◌++◌ (codes "bull:")) (sym (append_assoc q (codes ":") w))

-- Every key is the queue's prefix and a suffix.
pub key_of-prefix : (kb : KeyBuilder) (n : KeyName) → key_of kb n ≡ prefix kb ++ suffix n
unfolding wait prioritized delayed active completed failed events meta job lock logs
key_of-prefix kb wait_name = start_of-append kb.use_hash_tags kb.queue_name (suffix wait_name)
key_of-prefix kb n = start_of-append kb.use_hash_tags kb.queue_name (suffix n)

-- The words that a job id must not be.
unfoldable pub is_reserved : Bytes → Bool
is_reserved id =
    bytes_eq id (codes "wait")
    || (bytes_eq id (codes "prioritized")
        || (bytes_eq id (codes "delayed")
            || (bytes_eq id (codes "active")
                || (bytes_eq id (codes "completed")
                    || (bytes_eq id (codes "failed")
                        || (bytes_eq id (codes "events") || bytes_eq id (codes "meta")))))))

-- Ids without a colon that are none of those words: all UUIDs are.
pub record IsJobId (id : Bytes) : Type 0 where
  pub no_colon : contains_byte b':' id ≡ false
  pub not_reserved : is_reserved id ≡ false

abbrev pub IsValid : KeyName → Type 0
IsValid (job_name id) = IsJobId id
IsValid (lock_name id) = IsJobId id
IsValid (logs_name id) = IsJobId id
IsValid n = Unit

abbrev pub tag : KeyName → ℕ
tag wait_name = 0
tag prioritized_name = 1
tag delayed_name = 2
tag active_name = 3
tag completed_name = 4
tag failed_name = 5
tag events_name = 6
tag meta_name = 7
tag (job_name id) = 8
tag (lock_name id) = 9
tag (logs_name id) = 10

-- The word of a key that belongs to the queue itself.
plain_suffix :
    (n : KeyName)
    → ltb (tag n) 8 ≡ true
    → (contains_byte b':' (suffix n) ≡ false) × (is_reserved (suffix n) ≡ true)
unfolding contains_byte is_reserved bytes_eq
plain_suffix (job_name id) h = cc
plain_suffix (lock_name id) h = cc
plain_suffix (logs_name id) h = cc
plain_suffix wait_name h = (refl, refl)
plain_suffix n h = (refl, refl)

colon_after : (id : Bytes) (w : Bytes) → contains_byte b':' (id ++ (b':' ∷ w)) ≡ true
unfolding contains_byte
colon_after [] w = refl
colon_after (c ∷ id) w = ground (arith, colon_after id w)

-- A lock and a log key differ behind the colon, whatever the ids are.
lock_logs_apart :
    (i j : Bytes)
    → contains_byte b':' i ≡ false
    → contains_byte b':' j ≡ false
    → bytes_eq (i ++ codes ":lock") (j ++ codes ":logs") ≡ false
unfolding contains_byte bytes_eq
lock_logs_apart [] [] p q = refl
lock_logs_apart [] (d ∷ j) p q = ground arith
lock_logs_apart (c ∷ i) [] p q = ground arith
lock_logs_apart (c ∷ i) (d ∷ j) p q = ground (arith, lock_logs_apart i j)

ne_of_reserved : (s t : Bytes) → is_reserved s ≡ true → is_reserved t ≡ false → bytes_eq s t ≡ false
ne_of_reserved s t p q = ground (arith, eq_of_bytes_eq s t)

-- The row of a queue key.
plain_apart :
    (n m : KeyName)
    → ltb (tag n) 8 ≡ true
    → IsValid m
    → (tag n == tag m) ≡ false
    → bytes_eq (suffix n) (suffix m) ≡ false
unfolding bytes_eq
plain_apart n (job_name j) h v e = ne_of_reserved _ j (plain_suffix n h).1 v.not_reserved
plain_apart n (lock_name j) h v e =
    bytes_eq_of_contains b':' _ _ (plain_suffix n h).0 (colon_after j _)
plain_apart n (logs_name j) h v e =
    bytes_eq_of_contains b':' _ _ (plain_suffix n h).0 (colon_after j _)
plain_apart (job_name j) m h v e = cc
plain_apart (lock_name j) m h v e = cc
plain_apart (logs_name j) m h v e = cc
plain_apart wait_name wait_name h v e = cc
plain_apart n m h v e = ground arith

suffix_apart :
    (n m : KeyName)
    → IsValid n
    → IsValid m
    → (tag n == tag m) ≡ false
    → bytes_eq (suffix n) (suffix m) ≡ false
suffix_apart (job_name i) (job_name j) u v e = cc
suffix_apart (job_name i) (lock_name j) u v e =
    bytes_eq_of_contains b':' _ _ u.no_colon (colon_after j _)
suffix_apart (job_name i) (logs_name j) u v e =
    bytes_eq_of_contains b':' _ _ u.no_colon (colon_after j _)
suffix_apart (lock_name i) (lock_name j) u v e = cc
suffix_apart (lock_name i) (logs_name j) u v e = lock_logs_apart i j u.no_colon v.no_colon
suffix_apart (lock_name i) (job_name j) u v e =
    bytes_eq_sym _ _ ∙ bytes_eq_of_contains b':' _ _ v.no_colon (colon_after i _)
suffix_apart (logs_name i) (logs_name j) u v e = cc
suffix_apart (logs_name i) (lock_name j) u v e =
    bytes_eq_sym _ _ ∙ lock_logs_apart j i v.no_colon u.no_colon
suffix_apart (logs_name i) (job_name j) u v e =
    bytes_eq_sym _ _ ∙ bytes_eq_of_contains b':' _ _ v.no_colon (colon_after i _)
suffix_apart (job_name i) m u v e = bytes_eq_sym _ _ ∙ plain_apart m (job_name i) refl u refl
suffix_apart (lock_name i) m u v e = bytes_eq_sym _ _ ∙ plain_apart m (lock_name i) refl u refl
suffix_apart (logs_name i) m u v e = bytes_eq_sym _ _ ∙ plain_apart m (logs_name i) refl u refl
suffix_apart n m u v e = plain_apart n m refl v e

pub apart :
    (kb : KeyBuilder) (n m : KeyName)
    → IsValid n
    → IsValid m
    → (tag n == tag m) ≡ false
    → bytes_eq (key_of kb n) (key_of kb m) ≡ false
apart kb n m u v e =
    rw (key_of-prefix kb n, key_of-prefix kb m)
      (bytes_eq-append (prefix kb) (suffix n) (suffix m) ∙ suffix_apart n m u v e)

suffix_injective : (n m : KeyName) → (tag n == tag m) ≡ true → suffix n ≡ suffix m → n ≡ m
suffix_injective (job_name i) (job_name j) h e = ap job_name e
suffix_injective (lock_name i) (lock_name j) h e =
    ap lock_name (append_cancel_right i j (codes ":lock") e)
suffix_injective (logs_name i) (logs_name j) h e =
    ap logs_name (append_cancel_right i j (codes ":logs") e)
suffix_injective wait_name wait_name h e = refl
suffix_injective n m h e = ground arith

-- Two keys that the methods of one key builder make are equal only if they are the same method's,
-- for the same job id.
pub key_of-injective :
    (kb : KeyBuilder) (n m : KeyName) → IsValid n → IsValid m → key_of kb n ≡ key_of kb m → n ≡ m
key_of-injective kb n m u v e = elim (Bool-cases (tag n == tag m)) [
  | inl same ↦
      suffix_injective n m same
        (append_cancel_left (prefix kb) _ _ (sym (key_of-prefix kb n) ∙ e ∙ key_of-prefix kb m))
  | inr differ ↦ cc (apart kb n m u v differ, bytes_eq_refl (key_of kb n))
]
