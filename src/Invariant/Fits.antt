-- ===== src/Invariant/Fits.antt =====
-- Which values fit a key of a queue, and which commands keep them so.
use bullmq_go.Prelude.{
  Bytes, bytes_eq, contains_byte, ◌≡◌, Bool, true, false, not, ◌&&◌, List, [], ◌∷◌, Option, none,
  some, arith, if◌then◌else◌,
}
use bullmq_go.Prelude.Int.{ℤ}
use bullmq_go.Redis.Values.{
  Value, absent, stream, text, list, zset, hash, Command, lpush, rpush, rpop, llen, lrem, lrange,
  ltrim, zadd, zrem, zscore, zpopmin, zcard, zrange, zrevrange, zrangebyscore, hset, hdel, hget,
  hgetall, setex, get, del, exists, expire, xadd,
}
use bullmq_go.Keys.Distinct.{
  KeyName, wait_name, prioritized_name, delayed_name, active_name, completed_name, failed_name,
  events_name, meta_name, job_name, lock_name, logs_name, IsJobId, is_reserved,
}

-- `IsJobId` as a test.
abbrev pub is_job_id : Bytes → Bool
is_job_id id = not (contains_byte b':' id) && not (is_reserved id)

pub is_job_id-IsJobId : (id : Bytes) → is_job_id id ≡ true → IsJobId id
is_job_id-IsJobId id h = record { no_colon = ground arith; not_reserved = ground arith }

pub IsJobId-is_job_id : (id : Bytes) → IsJobId id → is_job_id id ≡ true
IsJobId-is_job_id id i = ground (arith, i.no_colon, i.not_reserved)

unfoldable pub all_ids : List Bytes → Bool
all_ids [] = true
all_ids (x ∷ xs) = let rest = all_ids xs in is_job_id x && rest

unfoldable pub all_members : List (Bytes × ℤ) → Bool
all_members [] = true
all_members (z ∷ zs) = let rest = all_members zs in is_job_id z.0 && rest

unfoldable pub z_has : Bytes → List (Bytes × ℤ) → Bool
z_has id [] = false
z_has id (z ∷ zs) = let rest = z_has id zs in if bytes_eq z.0 id then true else rest

-- `none` asks for no member.
abbrev pub holds : Option Bytes → List (Bytes × ℤ) → Bool
holds none zs = true
holds (some id) zs = z_has id zs

abbrev pub is_none : Option Bytes → Bool
is_none none = true
is_none (some id) = false

-- A set of job ids may be asked to hold a member.
pub data Shape : Type 0 where
  ids : Shape
  scores : Option Bytes → Shape
  hashes token lines log_stream : Shape

-- `kept` is the member that the delayed set must hold.
abbrev pub shape : Option Bytes → KeyName → Shape
shape kept wait_name = ids
shape kept active_name = ids
shape kept delayed_name = scores kept
shape kept prioritized_name = scores none
shape kept completed_name = scores none
shape kept failed_name = scores none
shape kept events_name = log_stream
shape kept meta_name = hashes
shape kept (job_name id) = hashes
shape kept (lock_name id) = token
shape kept (logs_name id) = lines

abbrev pub fits : Shape → Value → Bool
fits ids (list xs) = all_ids xs
fits ids absent = true
fits (scores o) (zset zs) = all_members zs && holds o zs
fits (scores o) absent = is_none o
fits hashes (hash fs) = true
fits hashes absent = true
fits token (text x) = true
fits token absent = true
fits lines (list xs) = true
fits lines absent = true
fits log_stream stream = true
fits log_stream absent = true
fits sh v = false

abbrev pub is_read : Command → Bool
is_read (llen k) = true
is_read (lrange k i j) = true
is_read (zscore k m) = true
is_read (zcard k) = true
is_read (zrange k i j) = true
is_read (zrevrange k i j) = true
is_read (zrangebyscore k b n) = true
is_read (hget k f) = true
is_read (hgetall k) = true
is_read (get k) = true
is_read (exists k) = true
is_read c = false

-- A set that must hold a member may lose another one.
abbrev pub spares : Option Bytes → Bytes → Bool
spares none m = true
spares (some id) m = not (bytes_eq id m)

-- The commands that a key of the shape may be sent: it keeps its shape then.
abbrev pub allowed : Shape → Command → Bool
allowed ids (lpush k x) = is_job_id x
allowed ids (lrem k n x) = true
allowed ids (rpop k) = true
allowed ids (del k) = true
allowed (scores o) (zadd k sc m) = is_job_id m
allowed (scores o) (zrem k m) = spares o m
allowed (scores o) (zpopmin k) = is_none o
allowed (scores o) (del k) = is_none o
allowed hashes (hset k fs) = true
allowed hashes (hdel k f) = true
allowed hashes (del k) = true
allowed token (setex k x t) = true
allowed token (expire k t) = true
allowed token (del k) = true
allowed lines (rpush k x) = true
allowed lines (ltrim k i j) = true
allowed lines (del k) = true
allowed log_stream (xadd k n fs) = true
allowed log_stream (del k) = true
allowed sh c = is_read c
