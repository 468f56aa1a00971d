-- ===== src/Redis/Values.antt =====
-- Redis values, the commands that pkg/bullmq sends, and what Redis documents about each: the type
-- of value it wants, its answer, and the value that it leaves at its key.
use bullmq_go.Prelude.{
  Bytes, codes, bytes_eq, ℕ, suc, ◌+◌, ◌-◌, ◌==◌, ltb, Bool, true, false, ◌||◌, ◌&&◌, List, [], ◌∷◌,
  ◌++◌, map, Option, none, some, if◌then◌else◌, length, take, drop,
}
use bullmq_go.Prelude.Int.{ℤ, pos, negsuc, ltb_ℤ, leb_ℤ}
use bullmq_go.Errors.{Error, redis_nil, plain}
use mathlib.Core.List.{reverse}

pub data Result (A : Type 0) : Type 0 where
  ok : A → Result A
  err : Error → Result A

-- A sorted set is the list of its members with their scores, in the order of ZRANGE. Scores are
-- integers that a float64 holds exactly. Of a stream only its type is seen.
pub data Value : Type 0 where
  absent stream : Value
  text : Bytes → Value
  list : List Bytes → Value
  zset : List (Bytes × ℤ) → Value
  hash : List (Bytes × Bytes) → Value

-- Each with its key first. `lrem` has the count 0 for all; `zrangebyscore` goes from -inf to its
-- bound, with the count 0 for no limit; `zpopmin` takes one member.
pub data Command : Type 0 where
  lpush rpush : Bytes → Bytes → Command
  rpop llen : Bytes → Command
  lrem : Bytes → ℕ → Bytes → Command
  lrange ltrim : Bytes → ℤ → ℤ → Command
  zadd : Bytes → ℤ → Bytes → Command
  zrem zscore : Bytes → Bytes → Command
  zpopmin zcard : Bytes → Command
  zrange zrevrange : Bytes → ℤ → ℤ → Command
  zrangebyscore : Bytes → ℤ → ℕ → Command
  hset : Bytes → List (Bytes × Bytes) → Command
  hdel hget : Bytes → Bytes → Command
  hgetall : Bytes → Command
  setex : Bytes → Bytes → ℤ → Command
  get del exists : Bytes → Command
  expire : Bytes → ℤ → Command
  xadd : Bytes → ℤ → List (Bytes × Bytes) → Command

abbrev pub key : Command → Bytes
key (lpush k x) = k
key (rpush k x) = k
key (rpop k) = k
key (llen k) = k
key (lrem k n x) = k
key (lrange k i j) = k
key (ltrim k i j) = k
key (zadd k sc m) = k
key (zrem k m) = k
key (zscore k m) = k
key (zpopmin k) = k
key (zcard k) = k
key (zrange k i j) = k
key (zrevrange k i j) = k
key (zrangebyscore k b n) = k
key (hset k fs) = k
key (hdel k f) = k
key (hget k f) = k
key (hgetall k) = k
key (setex k v t) = k
key (get k) = k
key (del k) = k
key (exists k) = k
key (expire k t) = k
key (xadd k n fs) = k

-- What the call's Result() holds; `Unit` where the package reads only the error.
abbrev pub Answer : Command → Type 0
Answer (lpush k x) = Unit
Answer (rpush k x) = ℕ
Answer (rpop k) = Bytes
Answer (llen k) = ℕ
Answer (lrem k n x) = ℕ
Answer (lrange k i j) = List Bytes
Answer (ltrim k i j) = Unit
Answer (zadd k sc m) = Unit
Answer (zrem k m) = ℕ
Answer (zscore k m) = ℤ
Answer (zpopmin k) = List (Bytes × ℤ)
Answer (zcard k) = ℕ
Answer (zrange k i j) = List Bytes
Answer (zrevrange k i j) = List Bytes
Answer (zrangebyscore k b n) = List Bytes
Answer (hset k fs) = Unit
Answer (hdel k f) = Unit
Answer (hget k f) = Bytes
Answer (hgetall k) = List (Bytes × Bytes)
Answer (setex k v t) = Unit
Answer (get k) = Bytes
Answer (del k) = Unit
Answer (exists k) = ℕ
Answer (expire k t) = ℕ
Answer (xadd k n fs) = Unit

-- An absent key counts as the empty list, set or hash.
abbrev pub as_list : Value → Option (List Bytes)
as_list absent = some []
as_list (list xs) = some xs
as_list v = none

abbrev pub as_zset : Value → Option (List (Bytes × ℤ))
as_zset absent = some []
as_zset (zset zs) = some zs
as_zset v = none

abbrev pub as_hash : Value → Option (List (Bytes × Bytes))
as_hash absent = some []
as_hash (hash fs) = some fs
as_hash v = none

abbrev pub items : Value → List Bytes
items (list xs) = xs
items v = []

abbrev pub members : Value → List (Bytes × ℤ)
members (zset zs) = zs
members v = []

abbrev pub fields : Value → List (Bytes × Bytes)
fields (hash fs) = fs
fields v = []

-- Redis removes a key whose last element is removed.
abbrev pub of_items : List Bytes → Value
of_items [] = absent
of_items (x ∷ xs) = list (x ∷ xs)

abbrev pub of_members : List (Bytes × ℤ) → Value
of_members [] = absent
of_members (z ∷ zs) = zset (z ∷ zs)

abbrev pub of_fields : List (Bytes × Bytes) → Value
of_fields [] = absent
of_fields (f ∷ fs) = hash (f ∷ fs)

unfoldable pub remove_all : Bytes → List Bytes → List Bytes
remove_all x [] = []
remove_all x (y ∷ ys) = let rest = remove_all x ys in if bytes_eq y x then rest else y ∷ rest

-- Up to n occurrences from the head.
unfoldable pub remove_count : ℕ → Bytes → List Bytes → List Bytes
remove_count n x [] = []
remove_count n x (y ∷ ys) =
    let gone = remove_count (n - 1) x ys in
    let kept = y ∷ remove_count n x ys in
    if n == 0 then y ∷ ys else if bytes_eq y x then gone else kept

unfoldable pub count_item : Bytes → List Bytes → ℕ
count_item x [] = 0
count_item x (y ∷ ys) = let rest = count_item x ys in if bytes_eq y x then suc rest else rest

-- The last element and the others.
unfoldable pub pop_last : List Bytes → Option (Bytes × List Bytes)
pop_last [] = none
pop_last (x ∷ xs) = elim (pop_last xs) [ none ↦ some (x, []) | some (y, ys) ↦ some (y, x ∷ ys) ]

-- A negative index counts from the end.
unfoldable pub index_of : ℕ → ℤ → ℕ
index_of n (pos i) = i
index_of n (negsuc i) = n - suc i

-- One past the last index: -k stands for n - k.
unfoldable pub end_of : ℕ → ℤ → ℕ
end_of n (pos j) = suc j
end_of n (negsuc j) = n - j

unfoldable pub range {ℓ} : {A : Type ℓ} → ℤ → ℤ → List A → List A
unfolding index_of end_of
range i j xs = let from = index_of (length xs) i in drop from (take (end_of (length xs) j) xs)

-- The order of members with equal scores.
unfoldable pub bytes_ltb : Bytes → Bytes → Bool
bytes_ltb s [] = false
bytes_ltb [] (d ∷ t) = true
bytes_ltb (c ∷ s) (d ∷ t) = ltb c d || (c == d && bytes_ltb s t)

unfoldable pub z_remove : Bytes → List (Bytes × ℤ) → List (Bytes × ℤ)
z_remove m [] = []
z_remove m (z ∷ zs) = let rest = z_remove m zs in if bytes_eq z.0 m then rest else z ∷ rest

unfoldable pub z_before : Bytes × ℤ → Bytes × ℤ → Bool
unfolding bytes_ltb
z_before (m, sc) (m', sc') = ltb_ℤ sc sc' || (leb_ℤ sc sc' && bytes_ltb m m')

unfoldable pub z_place : Bytes × ℤ → List (Bytes × ℤ) → List (Bytes × ℤ)
unfolding z_before
z_place z [] = z ∷ []
z_place z (y ∷ ys) = if z_before z y then z ∷ y ∷ ys else y ∷ z_place z ys

unfoldable pub z_score : Bytes → List (Bytes × ℤ) → Option ℤ
z_score m [] = none
z_score m (z ∷ zs) = if bytes_eq z.0 m then some z.1 else z_score m zs

unfoldable pub z_up_to : ℤ → List (Bytes × ℤ) → List Bytes
z_up_to b [] = []
z_up_to b (z ∷ zs) = let rest = z_up_to b zs in if leb_ℤ z.1 b then z.0 ∷ rest else rest

abbrev pub names : List (Bytes × ℤ) → List Bytes
names = map (λ z. z.0)

unfoldable pub h_get : Bytes → List (Bytes × Bytes) → Option Bytes
h_get f [] = none
h_get f (e ∷ fs) = if bytes_eq e.0 f then some e.1 else h_get f fs

unfoldable pub h_del : Bytes → List (Bytes × Bytes) → List (Bytes × Bytes)
h_del f [] = []
h_del f (e ∷ fs) = let rest = h_del f fs in if bytes_eq e.0 f then rest else e ∷ rest

unfoldable pub h_set : List (Bytes × Bytes) → List (Bytes × Bytes) → List (Bytes × Bytes)
unfolding h_del
h_set [] fs = fs
h_set (e ∷ es) fs = h_set es (e ∷ h_del e.0 fs)

abbrev pub limit_to : ℕ → List Bytes → List Bytes
limit_to n xs = if n == 0 then xs else take n xs

abbrev pub is_absent : Value → Bool
is_absent absent = true
is_absent v = false

-- The value that an accepted command leaves at its key.
unfoldable pub effect : Command → Value → Value
effect (lpush k x) v = list (x ∷ items v)
effect (rpush k x) v = list (items v ++ x ∷ [])
effect (rpop k) v = elim (pop_last (items v)) [ none ↦ v | some (y, ys) ↦ of_items ys ]
effect (lrem k n x) v =
    of_items (if n == 0 then remove_all x (items v) else remove_count n x (items v))
effect (ltrim k i j) v = of_items (range i j (items v))
effect (zadd k sc m) v = zset (z_place (m, sc) (z_remove m (members v)))
effect (zrem k m) v = of_members (z_remove m (members v))
effect (zpopmin k) v = elim (members v) [ [] ↦ v | z ∷ zs ↦ of_members zs ]
effect (hset k fs) v = of_fields (h_set fs (fields v))
effect (hdel k f) v = of_fields (h_del f (fields v))
effect (setex k x t) v = text x
effect (del k) v = absent
effect (expire k t) v = if leb_ℤ t (pos 0) then absent else v
effect (xadd k n fs) v = stream
effect c v = v

abbrev pub wrong_type : Error
wrong_type = plain (codes "WRONGTYPE Operation against a key holding the wrong kind of value")

abbrev pub invalid_expire : Error
invalid_expire = plain (codes "ERR invalid expire time in 'setex' command")

abbrev pub when : {A B : Type 0} → Option A → (A → Result B) → Result B
when none f = err wrong_type
when (some a) f = f a

abbrev pub or_nil : {A : Type 0} → Option A → Result A
or_nil none = err redis_nil
or_nil (some a) = ok a

-- What a server that is up returns; redis.Nil where there is nothing to return.
unfoldable pub outcome : (c : Command) → Value → Result (Answer c)
outcome (lpush k x) v = when (as_list v) λ xs. ok tt
outcome (rpush k x) v = when (as_list v) λ xs. ok (length xs + 1)
outcome (rpop k) v =
    when (as_list v) λ xs. elim (pop_last xs) [ none ↦ err redis_nil | some (y, ys) ↦ ok y ]
outcome (llen k) v = when (as_list v) λ xs. ok (length xs)
outcome (lrem k n x) v =
    when (as_list v)
      λ xs. ok (let c = count_item x xs in if n == 0 then c else if ltb c n then c else n)
outcome (lrange k i j) v = when (as_list v) λ xs. ok (range i j xs)
outcome (ltrim k i j) v = when (as_list v) λ xs. ok tt
outcome (zadd k sc m) v = when (as_zset v) λ zs. ok tt
outcome (zrem k m) v = when (as_zset v) λ zs. ok (elim (z_score m zs) [ none ↦ 0 | some sc ↦ 1 ])
outcome (zscore k m) v = when (as_zset v) λ zs. or_nil (z_score m zs)
outcome (zpopmin k) v = when (as_zset v) λ zs. ok (take 1 zs)
outcome (zcard k) v = when (as_zset v) λ zs. ok (length zs)
outcome (zrange k i j) v = when (as_zset v) λ zs. ok (range i j (names zs))
outcome (zrevrange k i j) v = when (as_zset v) λ zs. ok (range i j (reverse (names zs)))
outcome (zrangebyscore k b n) v = when (as_zset v) λ zs. ok (limit_to n (z_up_to b zs))
outcome (hset k fs) v = when (as_hash v) λ es. ok tt
outcome (hdel k f) v = when (as_hash v) λ es. ok tt
outcome (hget k f) v = when (as_hash v) λ es. or_nil (h_get f es)
outcome (hgetall k) v = when (as_hash v) λ es. ok es
outcome (setex k x t) v = if leb_ℤ t (pos 0) then err invalid_expire else ok tt
outcome (get k) absent = err redis_nil
outcome (get k) (text x) = ok x
outcome (get k) v = err wrong_type
outcome (del k) v = ok tt
outcome (exists k) v = ok (if is_absent v then 0 else 1)
outcome (expire k t) v = ok (if is_absent v then 0 else 1)
outcome (xadd k n fs) absent = ok tt
outcome (xadd k n fs) stream = ok tt
outcome (xadd k n fs) v = err wrong_type

-- The value after a command of a server that is up.
abbrev pub settle : Command → Value → Value
settle c v = elim (outcome c v) [ ok a ↦ effect c v | err e ↦ v ]
