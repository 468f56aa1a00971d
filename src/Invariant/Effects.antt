-- ===== src/Invariant/Effects.antt =====
-- The commands that a key may be sent keep its shape, and what they answer.
use bullmq_go.Prelude.{
  ℕ, zero, suc, ◌==◌, Bytes, bytes_eq, bytes_eq_refl, eq_of_bytes_eq, ◌≡◌, refl, true, false, List,
  [], ◌∷◌, Option, none, some, arith, if◌then◌else◌, Bool-cases, Option-cases, inl, inr,
}
use bullmq_go.Prelude.Int.{ℤ}
use bullmq_go.Redis.Values.{
  Value, absent, zset, Command, lpush, rpop, lrem, ltrim, zadd, zrem, zpopmin, hset, hdel, del,
  effect, items, members, fields, of_items, of_members, of_fields, remove_all, remove_count,
  pop_last, z_place, z_remove, range, h_set, h_del,
}
use bullmq_go.Invariant.Fits.{
  is_job_id, all_ids, all_members, z_has, holds, Shape, ids, scores, hashes, token, lines,
  log_stream, fits, spares, allowed,
}

all_ids-remove_all :
    (x : Bytes) (xs : List Bytes) → all_ids xs ≡ true → all_ids (remove_all x xs) ≡ true
unfolding all_ids remove_all
all_ids-remove_all x [] h = refl
all_ids-remove_all x (y ∷ xs) h = ground (arith, all_ids-remove_all x xs)

all_ids-remove_count :
    (n : ℕ) (x : Bytes) (xs : List Bytes) → all_ids xs ≡ true → all_ids (remove_count n x xs) ≡ true
unfolding all_ids remove_count
all_ids-remove_count n x [] h = ground arith
all_ids-remove_count zero x (y ∷ xs) h = h
all_ids-remove_count (suc n) x (y ∷ xs) h =
    ground (arith, all_ids-remove_count n x xs, all_ids-remove_count (suc n) x xs)

pub pop_last-all_ids :
    (xs ys : List Bytes) (y : Bytes)
    → all_ids xs ≡ true
    → pop_last xs ≡ some (y, ys)
    → (is_job_id y ≡ true) × (all_ids ys ≡ true)
unfolding all_ids pop_last
pop_last-all_ids [] ys y h e = cc
pop_last-all_ids (x ∷ xs) ys y h e = elim (Option-cases (pop_last xs)) [
  | inl none_left ↦ ground arith
  | inr (p, left) ↦ ground (arith, pop_last-all_ids xs p.1 p.0)
]

all_members-z_remove :
    (m : Bytes) (zs : List (Bytes × ℤ)) → all_members zs ≡ true → all_members (z_remove m zs) ≡ true
unfolding all_members z_remove
all_members-z_remove m [] h = refl
all_members-z_remove m (z ∷ zs) h = ground (arith, all_members-z_remove m zs)

all_members-z_place :
    (z : Bytes × ℤ) (zs : List (Bytes × ℤ))
    → is_job_id z.0 ≡ true
    → all_members zs ≡ true
    → all_members (z_place z zs) ≡ true
unfolding all_members z_place
all_members-z_place z [] i h = ground arith
all_members-z_place z (y ∷ zs) i h = ground (arith, all_members-z_place z zs)

z_has-z_remove :
    (id m : Bytes) (zs : List (Bytes × ℤ))
    → bytes_eq id m ≡ false
    → z_has id (z_remove m zs) ≡ z_has id zs
unfolding z_has z_remove
z_has-z_remove id m [] ne = refl
z_has-z_remove id m (z ∷ zs) ne =
    ground
      (arith, z_has-z_remove id m zs, eq_of_bytes_eq z.0 m, eq_of_bytes_eq z.0 id, bytes_eq_refl id)

z_has-z_place :
    (id : Bytes) (z : Bytes × ℤ) (zs : List (Bytes × ℤ))
    → z_has id (z_place z zs) ≡ (if bytes_eq z.0 id then true else z_has id zs)
unfolding z_has z_place
z_has-z_place id z [] = ground arith
z_has-z_place id z (y ∷ zs) = ground (arith, z_has-z_place id z zs)

-- Adding a member keeps the others, and the member itself if it was there.
holds-zadd :
    (o : Option Bytes) (m : Bytes) (sc : ℤ) (zs : List (Bytes × ℤ))
    → holds o zs ≡ true
    → holds o (z_place (m, sc) (z_remove m zs)) ≡ true
holds-zadd none m sc zs h = refl
holds-zadd (some id) m sc zs h = ground (
  arith,
  z_has-z_place id (m, sc) (z_remove m zs),
  z_has-z_remove id m zs,
  eq_of_bytes_eq id m,
  bytes_eq_refl m,
)

holds-zrem :
    (o : Option Bytes) (m : Bytes) (zs : List (Bytes × ℤ))
    → spares o m ≡ true
    → holds o zs ≡ true
    → holds o (z_remove m zs) ≡ true
holds-zrem none m zs s h = refl
holds-zrem (some id) m zs s h = ground (arith, z_has-z_remove id m zs)

fits-of_items : (xs : List Bytes) → all_ids xs ≡ true → fits ids (of_items xs) ≡ true
fits-of_items [] h = refl
fits-of_items (x ∷ xs) h = h

fits-of_members :
    (o : Option Bytes) (zs : List (Bytes × ℤ))
    → all_members zs ≡ true
    → holds o zs ≡ true
    → fits (scores o) (of_members zs) ≡ true
unfolding z_has
fits-of_members none [] h k = refl
fits-of_members (some id) [] h k = cc
fits-of_members o (z ∷ zs) h k = ground arith

pub all_ids-items : (v : Value) → fits ids v ≡ true → all_ids (items v) ≡ true
unfolding all_ids
all_ids-items v h = ground arith

pub all_members-members :
    (o : Option Bytes) (v : Value) → fits (scores o) v ≡ true → all_members (members v) ≡ true
unfolding all_members
all_members-members o v h = ground arith

holds-members :
    (o : Option Bytes) (v : Value) → fits (scores o) v ≡ true → holds o (members v) ≡ true
unfolding z_has
holds-members none v h = refl
holds-members (some id) v h = ground arith

fits-lpush :
    (k x : Bytes) (v : Value)
    → fits ids v ≡ true
    → is_job_id x ≡ true
    → fits ids (effect (lpush k x) v) ≡ true
unfolding effect all_ids
fits-lpush k x v h a = ground (arith, all_ids-items v)

fits-lrem :
    (k : Bytes) (n : ℕ) (x : Bytes) (v : Value)
    → fits ids v ≡ true
    → fits ids (effect (lrem k n x) v) ≡ true
unfolding effect
fits-lrem k n x v h = elim (Bool-cases (n == 0)) [
  | inl e ↦ rw e (fits-of_items _ (all_ids-remove_all x (items v) (all_ids-items v h)))
  | inr e ↦ rw e (fits-of_items _ (all_ids-remove_count n x (items v) (all_ids-items v h)))
]

fits-rpop : (k : Bytes) (v : Value) → fits ids v ≡ true → fits ids (effect (rpop k) v) ≡ true
unfolding effect
fits-rpop k v h = elim (Option-cases (pop_last (items v))) [
  | inl e ↦ rw (e, fits) h
  | inr (p, e) ↦
      rw (e, fits) (fits-of_items p.1 (pop_last-all_ids (items v) p.1 p.0 (all_ids-items v h) e).1)
]

fits-zadd :
    (o : Option Bytes) (k : Bytes) (sc : ℤ) (m : Bytes) (v : Value)
    → fits (scores o) v ≡ true
    → is_job_id m ≡ true
    → fits (scores o) (effect (zadd k sc m) v) ≡ true
unfolding effect
fits-zadd o k sc m v h a = ground (
  arith,
  all_members-z_place (m, sc) (z_remove m (members v)),
  all_members-z_remove m (members v),
  all_members-members o v,
  holds-members o v,
  holds-zadd o m sc (members v),
)

fits-zrem :
    (o : Option Bytes) (k m : Bytes) (v : Value)
    → fits (scores o) v ≡ true
    → spares o m ≡ true
    → fits (scores o) (effect (zrem k m) v) ≡ true
unfolding effect
fits-zrem o k m v h a =
    fits-of_members o _ (all_members-z_remove m (members v) (all_members-members o v h))
      (holds-zrem o m (members v) a (holds-members o v h))

fits-zpopmin :
    (k : Bytes) (v : Value)
    → fits (scores none) v ≡ true
    → fits (scores none) (effect (zpopmin k) v) ≡ true
unfolding effect all_members
fits-zpopmin k (zset []) h = h
fits-zpopmin k (zset (z ∷ zs)) h = fits-of_members none zs (ground arith) refl
fits-zpopmin k absent h = refl
fits-zpopmin k v h = ground arith

effect-ids :
    (c : Command) (v : Value)
    → fits ids v ≡ true
    → allowed ids c ≡ true
    → fits ids (effect c v) ≡ true
unfolding effect
effect-ids (lpush k x) v h a = fits-lpush k x v h a
effect-ids (lrem k n x) v h a = fits-lrem k n x v h
effect-ids (rpop k) v h a = fits-rpop k v h
effect-ids (del k) v h a = refl
effect-ids c v h a = ground arith

effect-scores :
    (o : Option Bytes) (c : Command) (v : Value)
    → fits (scores o) v ≡ true
    → allowed (scores o) c ≡ true
    → fits (scores o) (effect c v) ≡ true
unfolding effect
effect-scores o (zadd k sc m) v h a = fits-zadd o k sc m v h a
effect-scores o (zrem k m) v h a = fits-zrem o k m v h a
effect-scores none (zpopmin k) v h a = fits-zpopmin k v h
effect-scores none (del k) v h a = refl
effect-scores (some id) (zpopmin k) v h a = cc
effect-scores o c v h a = ground arith

fits-of_fields : (fs : List (Bytes × Bytes)) → fits hashes (of_fields fs) ≡ true
fits-of_fields [] = refl
fits-of_fields (f ∷ fs) = refl

fits_lines-of_items : (xs : List Bytes) → fits lines (of_items xs) ≡ true
fits_lines-of_items [] = refl
fits_lines-of_items (x ∷ xs) = refl

effect-lines :
    (c : Command) (v : Value)
    → fits lines v ≡ true
    → allowed lines c ≡ true
    → fits lines (effect c v) ≡ true
unfolding effect
effect-lines (ltrim k i j) v h a = fits_lines-of_items (range i j (items v))
effect-lines c v h a = ground arith

effect-hashes :
    (c : Command) (v : Value)
    → fits hashes v ≡ true
    → allowed hashes c ≡ true
    → fits hashes (effect c v) ≡ true
unfolding effect
effect-hashes (hset k fs) v h a = fits-of_fields (h_set fs (fields v))
effect-hashes (hdel k f) v h a = fits-of_fields (h_del f (fields v))
effect-hashes c v h a = ground arith

pub effect-fits :
    (sh : Shape) (c : Command) (v : Value)
    → fits sh v ≡ true
    → allowed sh c ≡ true
    → fits sh (effect c v) ≡ true
unfolding effect
effect-fits ids c v h a = effect-ids c v h a
effect-fits (scores o) c v h a = effect-scores o c v h a
effect-fits hashes c v h a = effect-hashes c v h a
effect-fits lines c v h a = effect-lines c v h a
effect-fits token c v h a = ground arith
effect-fits log_stream c v h a = ground arith
