-- ===== src/Keys.antt =====
-- pkg/bullmq/keys.go: the Redis keys of a queue, with hash tags on a cluster.
pub mod Distinct
use bullmq_go.Prelude.{Bytes, codes, ◌++◌, Bool, true, false, if◌then◌else◌}

-- The dynamic type of the client that NewKeyBuilder is given.
pub data RedisClient : Type 0 where
  single cluster other : RedisClient

-- cluster.go, IsRedisCluster.
unfoldable pub is_redis_cluster : RedisClient → Bool
is_redis_cluster cluster = true
is_redis_cluster c = false

pub record KeyBuilder : Type 0 where
  pub queue_name : Bytes
  pub use_hash_tags : Bool

unfoldable pub new_key_builder : Bytes → RedisClient → KeyBuilder
unfolding is_redis_cluster
new_key_builder name client = record { queue_name = name; use_hash_tags = is_redis_cluster client }

unfoldable pub new_key_builder_with_hash_tags : Bytes → Bool → KeyBuilder
new_key_builder_with_hash_tags name tags = record { queue_name = name; use_hash_tags = tags }

unfoldable pub wait : KeyBuilder → Bytes
wait kb =
    if kb.use_hash_tags
    then codes "bull:{" ++ (kb.queue_name ++ codes "}:wait")
    else codes "bull:" ++ (kb.queue_name ++ codes ":wait")

unfoldable pub prioritized : KeyBuilder → Bytes
prioritized kb =
    if kb.use_hash_tags
    then codes "bull:{" ++ (kb.queue_name ++ codes "}:prioritized")
    else codes "bull:" ++ (kb.queue_name ++ codes ":prioritized")

unfoldable pub delayed : KeyBuilder → Bytes
delayed kb =
    if kb.use_hash_tags
    then codes "bull:{" ++ (kb.queue_name ++ codes "}:delayed")
    else codes "bull:" ++ (kb.queue_name ++ codes ":delayed")

unfoldable pub active : KeyBuilder → Bytes
active kb =
    if kb.use_hash_tags
    then codes "bull:{" ++ (kb.queue_name ++ codes "}:active")
    else codes "bull:" ++ (kb.queue_name ++ codes ":active")

unfoldable pub completed : KeyBuilder → Bytes
completed kb =
    if kb.use_hash_tags
    then codes "bull:{" ++ (kb.queue_name ++ codes "}:completed")
    else codes "bull:" ++ (kb.queue_name ++ codes ":completed")

unfoldable pub failed : KeyBuilder → Bytes
failed kb =
    if kb.use_hash_tags
    then codes "bull:{" ++ (kb.queue_name ++ codes "}:failed")
    else codes "bull:" ++ (kb.queue_name ++ codes ":failed")

unfoldable pub events : KeyBuilder → Bytes
events kb =
    if kb.use_hash_tags
    then codes "bull:{" ++ (kb.queue_name ++ codes "}:events")
    else codes "bull:" ++ (kb.queue_name ++ codes ":events")

unfoldable pub meta : KeyBuilder → Bytes
meta kb =
    if kb.use_hash_tags
    then codes "bull:{" ++ (kb.queue_name ++ codes "}:meta")
    else codes "bull:" ++ (kb.queue_name ++ codes ":meta")

unfoldable pub job : KeyBuilder → Bytes → Bytes
job kb id =
    if kb.use_hash_tags
    then codes "bull:{" ++ (kb.queue_name ++ (codes "}:" ++ id))
    else codes "bull:" ++ (kb.queue_name ++ (codes ":" ++ id))

unfoldable pub lock : KeyBuilder → Bytes → Bytes
lock kb id =
    if kb.use_hash_tags
    then codes "bull:{" ++ (kb.queue_name ++ (codes "}:" ++ (id ++ codes ":lock")))
    else codes "bull:" ++ (kb.queue_name ++ (codes ":" ++ (id ++ codes ":lock")))

unfoldable pub logs : KeyBuilder → Bytes → Bytes
logs kb id =
    if kb.use_hash_tags
    then codes "bull:{" ++ (kb.queue_name ++ (codes "}:" ++ (id ++ codes ":logs")))
    else codes "bull:" ++ (kb.queue_name ++ (codes ":" ++ (id ++ codes ":logs")))
