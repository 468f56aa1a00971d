-- ===== src/Examples/Texts.antt =====
-- Keys, slots, errors, options and delays.
use bullmq_go.Prelude.{
  refl, [], ◌∷◌, codes, none, ◌≡◌, ◌≢◌, ◌↔◌, ◌⊎◌, true, arith, ◌%◌, ◌^◌, ◌-◌, AllBytes,
}
use bullmq_go.Prelude.Int.{pos, negsuc, ◌≤ℤ◌, ◌<ℤ◌}
use bullmq_go.Errors.{Error, wrapped, validation}
use bullmq_go.Keys.{KeyBuilder}
use bullmq_go.Keys.Distinct.{lock_name, job_name, key_of, key_of-injective}
use bullmq_go.Cluster.{get_cluster_slot, calculate_crc16, validate_hash_tags, redis_cluster_slots}
use bullmq_go.Cluster.Division.{crc16_bitwise, calculate_crc16-crc16_bitwise}
use bullmq_go.Cluster.Slots.{AllIn, get_cluster_slot-key_of, validate_hash_tags_lem, name_tag}
use bullmq_go.Jobs.Validation.{validate_job_options, format_bytes}
use bullmq_go.Jobs.Validation.Size.{
  IsAcceptable, validate_job_options-IsAcceptable, format_bytes-ne-none,
}
use bullmq_go.Retry.{calculate_backoff}
use bullmq_go.Retry.Bounds.{calculate_backoff-cap, calculate_backoff_overflow, uncapped}
use bullmq_go.Examples.{plain_codec, tenths, tenths-IsAmd64, first_id, first_id-IsJobId, mail, kept}

-- A validation error whose field is spelled like an answer of Redis, inside a wrapper.
abbrev loading : Error
loading = wrapped (codes "job refused") (validation (codes "LOADING") (codes "is required"))

key_of-injective_example : lock_name first_id ≡ lock_name first_id
key_of-injective_example =
    key_of-injective mail (lock_name first_id) (lock_name first_id) first_id-IsJobId
      first_id-IsJobId refl

calculate_crc16-crc16_bitwise_example : calculate_crc16 (codes "123456789") ≡ 0x31C3
unfolding crc16_bitwise
calculate_crc16-crc16_bitwise_example =
    let nine_bytes : AllBytes (codes "123456789") = ground arith in
    calculate_crc16-crc16_bitwise (codes "123456789") nine_bytes

-- Only the part of the name before its closing brace makes the slot.
abbrev tagged_queue : KeyBuilder
tagged_queue = record { queue_name = codes "a}b"; use_hash_tags = true }

get_cluster_slot-key_of_example :
    get_cluster_slot (key_of tagged_queue (job_name first_id))
    ≡ calculate_crc16 (codes "a") % redis_cluster_slots
unfolding name_tag
get_cluster_slot-key_of_example =
    get_cluster_slot-key_of tagged_queue (job_name first_id) refl (omega arith)

validate_hash_tags_lem_example :
    (((validate_hash_tags (codes "{a}x" ∷ codes "{a}y" ∷ [])).0 ≡ true)
      ↔ AllIn (get_cluster_slot (codes "{a}x")) (codes "{a}y" ∷ []))
    × ((validate_hash_tags (codes "{a}x" ∷ codes "{a}y" ∷ [])).1 ≡ get_cluster_slot (codes "{a}x"))
validate_hash_tags_lem_example = validate_hash_tags_lem (codes "{a}x") (codes "{a}y" ∷ [])

validate_job_options-IsAcceptable_example :
    (validate_job_options plain_codec kept ≡ none) ↔ IsAcceptable kept
validate_job_options-IsAcceptable_example = validate_job_options-IsAcceptable plain_codec kept

format_bytes-ne-none_example : format_bytes plain_codec (2 ^ 63 - 1) ≢ none
format_bytes-ne-none_example = format_bytes-ne-none plain_codec (2 ^ 63 - 1) (omega arith)

-- Two seconds, within a maximum of an hour.
calculate_backoff-cap_example :
    (calculate_backoff tenths (pos 2) (pos 1_000_000_000) (pos 3_600_000_000_000) 5
      ≤ℤ pos 3_600_000_000_000)
    × ((calculate_backoff tenths (pos 2) (pos 1_000_000_000) (pos 3_600_000_000_000) 5
          ≡ tenths.to_int (uncapped tenths (pos 2) (pos 1_000_000_000) 5))
        ⊎ ((pos 3_600_000_000_000 <ℤ tenths.to_int (uncapped tenths (pos 2) (pos 1_000_000_000) 5))
            × (calculate_backoff tenths (pos 2) (pos 1_000_000_000) (pos 3_600_000_000_000) 5
                ≡ pos 3_600_000_000_000)))
calculate_backoff-cap_example =
    calculate_backoff-cap tenths (pos 2) (pos 1_000_000_000) (pos 3_600_000_000_000) 5 (omega arith)

-- The fortieth attempt of a backoff of one second.
calculate_backoff_overflow_example :
    calculate_backoff tenths (pos 40) (pos 1_000_000_000) (pos 3_600_000_000_000) 5
    ≡ negsuc (2 ^ 63 - 1)
unfolding tenths-IsAmd64
calculate_backoff_overflow_example =
    calculate_backoff_overflow tenths tenths-IsAmd64 1_000_000_000 39 (pos 3_600_000_000_000) 5
      (omega arith) (omega arith) (omega arith) refl
