-- ===== src/Worker/Slots.antt =====
-- What a worker reports about the slots of its keys when it starts.
use bullmq_go.Prelude.{◌%◌, ◌<◌, ◌≡◌, ap, ◌∙◌, [], ◌∷◌, codes, length, map, arith}
use bullmq_go.Keys.{cluster, is_redis_cluster}
use bullmq_go.Keys.Distinct.{
  key_of, wait_name, active_name, prioritized_name, meta_name, job_name, lock_name,
}
use bullmq_go.Cluster.{calculate_crc16, redis_cluster_slots}
use bullmq_go.Cluster.Slots.{
  name_tag, get_cluster_slot-key_of, validate_hash_tags_lem, validate_hash_tags-key_of,
}
use bullmq_go.Worker.{Worker, keys_of}
use bullmq_go.Worker.Start.{keys_validated, validate_cluster_compatibility}

-- On a cluster, a worker whose queue has a name that is not empty and does not begin with a
-- closing brace reports its keys as valid, with the slot of the name up to its first closing brace.
pub validate_cluster_compatibility-cluster :
    (w : Worker)
    → w.redis_client ≡ cluster
    → 0 < length (name_tag w.queue_name)
    → validate_cluster_compatibility w
      ≡ keys_validated (calculate_crc16 (name_tag w.queue_name) % redis_cluster_slots)
unfolding validate_cluster_compatibility keys_of
validate_cluster_compatibility-cluster w c p =
    let kb = keys_of w in
    let tagged = ap is_redis_cluster c in
    let others =
      active_name
      ∷ prioritized_name
      ∷ meta_name
      ∷ job_name (codes "sample-id")
      ∷ lock_name (codes "sample-id")
      ∷ [] in
    let valid = validate_hash_tags-key_of kb (wait_name ∷ others) tagged p in
    let slot =
      (validate_hash_tags_lem (key_of kb wait_name) (map (key_of kb) others)).1
      ∙ get_cluster_slot-key_of kb wait_name tagged p in
    ground (arith, valid, slot, c)
