-- ===== src/Cluster/Slots.antt =====
-- The slots of a queue's keys under hash tags.
use bullmq_go.Prelude.{
  ℕ, ◌+◌, ◌%◌, ◌<◌, ◌≡◌, ◌↔◌, refl, sym, ◌∙◌, ap, Bytes, codes, ◌==◌, true, List, [], ◌∷◌, ◌++◌,
  map, none, some, arith, if◌then◌else◌, length, take, append_assoc, inl, inr, Bool-cases,
}
use bullmq_go.Keys.{KeyBuilder}
use bullmq_go.Keys.Distinct.{KeyName, key_of, key_of-prefix, suffix}
use bullmq_go.Cluster.{
  find_byte, hash_tag, get_cluster_slot, calculate_crc16, redis_cluster_slots, compare_slots,
  validate_hash_tags,
}

-- The bytes before the first closing brace.
unfoldable pub name_tag : Bytes → Bytes
name_tag [] = []
name_tag (c ∷ q) = if c == b'}' then [] else c ∷ name_tag q

find_brace :
    (i : ℕ) (q r : Bytes) → find_byte b'}' i (q ++ (b'}' ∷ r)) ≡ some (i + length (name_tag q))
unfolding find_byte name_tag
find_brace i [] r = ground arith
find_brace i (c ∷ q) r = ground (arith, find_brace (i + 1) q r)

take_tag : (q r : Bytes) → take (length (name_tag q)) (q ++ (b'}' ∷ r)) ≡ name_tag q
unfolding name_tag
take_tag [] r = refl
take_tag (c ∷ q) r = elim (Bool-cases (c == b'}')) [
  | inl e ↦ ground arith
  | inr e ↦ ground (arith, take_tag q r)
]

tagged : Bytes → Bytes → Bytes
tagged q w = codes "bull:{" ++ (q ++ (codes "}:" ++ w))

hash_tag-tagged :
    (q w : Bytes) → 0 < length (name_tag q) → hash_tag (tagged q w) ≡ some (name_tag q)
unfolding hash_tag tagged
hash_tag-tagged q w h = ground (arith, find_brace 6 q (codes ":" ++ w), take_tag q (codes ":" ++ w))

hash_tag-untagged : (q w : Bytes) → length (name_tag q) ≡ 0 → hash_tag (tagged q w) ≡ none
unfolding hash_tag tagged
hash_tag-untagged q w h = ground (arith, find_brace 6 q (codes ":" ++ w))

slot_of_tag :
    (key tag : Bytes)
    → hash_tag key ≡ some tag
    → get_cluster_slot key ≡ calculate_crc16 tag % redis_cluster_slots
unfolding get_cluster_slot
slot_of_tag key tag e = rw e

slot_of_none :
    (key : Bytes)
    → hash_tag key ≡ none
    → get_cluster_slot key ≡ calculate_crc16 key % redis_cluster_slots
unfolding get_cluster_slot
slot_of_none key e = rw e

key_of-tagged :
    (kb : KeyBuilder) (n : KeyName)
    → kb.use_hash_tags ≡ true
    → key_of kb n ≡ tagged kb.queue_name (suffix n)
unfolding tagged
key_of-tagged kb n h =
    key_of-prefix kb n
    ∙ rw h (ap (λ x. codes "bull:{" ++ x) (append_assoc kb.queue_name (codes "}:") (suffix n)))

-- With hash tags every key of a queue lies in the slot of the queue's name up to its first closing
-- brace, if that part is not empty: the method and the job id do not matter.
pub get_cluster_slot-key_of :
    (kb : KeyBuilder) (n : KeyName)
    → kb.use_hash_tags ≡ true
    → 0 < length (name_tag kb.queue_name)
    → get_cluster_slot (key_of kb n)
      ≡ calculate_crc16 (name_tag kb.queue_name) % redis_cluster_slots
get_cluster_slot-key_of kb n h pos =
    ap get_cluster_slot (key_of-tagged kb n h)
    ∙ slot_of_tag _ _ (hash_tag-tagged kb.queue_name (suffix n) pos)

-- All keys of the list lie in the slot.
abbrev pub AllIn : ℕ → List Bytes → Type 0
AllIn first [] = Unit {0}
AllIn first (key ∷ keys) = (get_cluster_slot key ≡ first) × AllIn first keys

all_of_compare :
    (first : ℕ) (keys : List Bytes) → (compare_slots first keys).0 ≡ true → AllIn first keys
unfolding compare_slots
all_of_compare first [] h = tt
all_of_compare first (key ∷ keys) h = ground (arith, all_of_compare first keys)

compare_of_all :
    (first : ℕ) (keys : List Bytes) → AllIn first keys → (compare_slots first keys).0 ≡ true
unfolding compare_slots
compare_of_all first [] h = refl
compare_of_all first (key ∷ keys) h = ground (arith, compare_of_all first keys)

-- ValidateHashTags accepts a list exactly when all its keys lie in the slot of the first, and it
-- reports that slot in either case.
pub validate_hash_tags_lem :
    (key : Bytes) (keys : List Bytes)
    → (((validate_hash_tags (key ∷ keys)).0 ≡ true) ↔ AllIn (get_cluster_slot key) keys)
      × ((validate_hash_tags (key ∷ keys)).1 ≡ get_cluster_slot key)
unfolding validate_hash_tags
validate_hash_tags_lem key keys = (
  (
    λ h. (all_of_compare (get_cluster_slot key) (key ∷ keys) h).1,
    λ h. compare_of_all (get_cluster_slot key) (key ∷ keys) (refl, h),
  ),
  refl,
)

keys_in_slot :
    (kb : KeyBuilder) (first : ℕ) (ns : List KeyName)
    → kb.use_hash_tags ≡ true
    → 0 < length (name_tag kb.queue_name)
    → calculate_crc16 (name_tag kb.queue_name) % redis_cluster_slots ≡ first
    → AllIn first (map (key_of kb) ns)
keys_in_slot kb first [] h p e = tt
keys_in_slot kb first (n ∷ ns) h p e =
    (get_cluster_slot-key_of kb n h p ∙ e, keys_in_slot kb first ns h p e)

-- ValidateHashTags accepts any keys that one key builder with hash tags makes, where the name is
-- not empty and does not begin with a closing brace.
pub validate_hash_tags-key_of :
    (kb : KeyBuilder) (ns : List KeyName)
    → kb.use_hash_tags ≡ true
    → 0 < length (name_tag kb.queue_name)
    → (validate_hash_tags (map (key_of kb) ns)).0 ≡ true
unfolding validate_hash_tags
validate_hash_tags-key_of kb [] h p = refl
validate_hash_tags-key_of kb (n ∷ ns) h p =
    (validate_hash_tags_lem (key_of kb n) (map (key_of kb) ns)).0.1
      (keys_in_slot kb _ ns h p (sym (get_cluster_slot-key_of kb n h p)))

-- With hash tags and a name that is empty or begins with a closing brace, each key is hashed whole.
get_cluster_slot-untagged :
    (kb : KeyBuilder) (n : KeyName)
    → kb.use_hash_tags ≡ true
    → length (name_tag kb.queue_name) ≡ 0
    → get_cluster_slot (key_of kb n) ≡ calculate_crc16 (key_of kb n) % redis_cluster_slots
get_cluster_slot-untagged kb n h p =
    slot_of_none _
      (ap hash_tag (key_of-tagged kb n h) ∙ hash_tag-untagged kb.queue_name (suffix n) p)
