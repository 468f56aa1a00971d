-- ===== src/Invariant/Replies.antt =====
-- The ids that the server answers with are job ids.
use bullmq_go.Prelude.{
  ℕ, zero, suc, ◌==◌, Bytes, ◌≡◌, refl, true, List, [], ◌∷◌, Option, some, arith, Bool-cases,
  Option-cases, inl, inr, take, drop,
}
use bullmq_go.Prelude.Int.{ℤ}
use bullmq_go.Redis.Values.{
  Value, zset, ok, rpop, zpopmin, lrange, zrange, zrangebyscore, outcome, pop_last, range, names,
  limit_to, z_up_to, as_list, as_zset,
}
use bullmq_go.Invariant.Fits.{is_job_id, all_ids, all_members, ids, scores, fits}
use bullmq_go.Invariant.Effects.{pop_last-all_ids}

all_ids-take : (n : ℕ) (xs : List Bytes) → all_ids xs ≡ true → all_ids (take n xs) ≡ true
unfolding all_ids
all_ids-take zero xs h = refl
all_ids-take (suc n) [] h = refl
all_ids-take (suc n) (x ∷ xs) h = ground (arith, all_ids-take n xs)

all_ids-drop : (n : ℕ) (xs : List Bytes) → all_ids xs ≡ true → all_ids (drop n xs) ≡ true
unfolding all_ids
all_ids-drop zero xs h = h
all_ids-drop (suc n) [] h = refl
all_ids-drop (suc n) (x ∷ xs) h = all_ids-drop n xs (ground arith)

all_ids-range : (i j : ℤ) (xs : List Bytes) → all_ids xs ≡ true → all_ids (range i j xs) ≡ true
unfolding range
all_ids-range i j xs h = all_ids-drop _ _ (all_ids-take _ xs h)

pub all_ids-names : (zs : List (Bytes × ℤ)) → all_members zs ≡ true → all_ids (names zs) ≡ true
unfolding all_ids all_members
all_ids-names [] h = refl
all_ids-names (z ∷ zs) h = ground (arith, all_ids-names zs)

all_ids-z_up_to :
    (b : ℤ) (zs : List (Bytes × ℤ)) → all_members zs ≡ true → all_ids (z_up_to b zs) ≡ true
unfolding all_ids all_members z_up_to
all_ids-z_up_to b [] h = refl
all_ids-z_up_to b (z ∷ zs) h = ground (arith, all_ids-z_up_to b zs)

all_ids-limit_to : (n : ℕ) (xs : List Bytes) → all_ids xs ≡ true → all_ids (limit_to n xs) ≡ true
all_ids-limit_to n xs h = elim (Bool-cases (n == 0)) [
  | inl e ↦ rw e h
  | inr e ↦ rw e (all_ids-take n xs h)
]

fits-as_list :
    (v : Value) (xs : List Bytes) → fits ids v ≡ true → as_list v ≡ some xs → all_ids xs ≡ true
unfolding all_ids
fits-as_list v xs h e = ground arith

fits-as_zset :
    (o : Option Bytes) (v : Value) (zs : List (Bytes × ℤ))
    → fits (scores o) v ≡ true
    → as_zset v ≡ some zs
    → all_members zs ≡ true
unfolding all_members
fits-as_zset o v zs h e = ground arith

pub rpop_reply :
    (k x : Bytes) (v : Value) → fits ids v ≡ true → outcome (rpop k) v ≡ ok x → is_job_id x ≡ true
unfolding outcome
rpop_reply k x v h e = elim (Option-cases (as_list v)) [
  | inl wrong ↦ ground arith
  | inr (xs, found) ↦ elim (Option-cases (pop_last xs)) [
    | inl empty ↦ ground arith
    | inr (p, last) ↦ ground (arith, pop_last-all_ids xs p.1 p.0 (fits-as_list v xs h found) last)
  ]
]

pub zpopmin_reply :
    (k : Bytes) (v : Value) (zs : List (Bytes × ℤ)) (o : Option Bytes)
    → fits (scores o) v ≡ true
    → outcome (zpopmin k) v ≡ ok zs
    → all_members zs ≡ true
unfolding outcome all_members
zpopmin_reply k (zset []) zs o h e = ground arith
zpopmin_reply k (zset (y ∷ ys)) zs o h e = ground arith
zpopmin_reply k v zs o h e = ground arith

pub lrange_reply :
    (k : Bytes) (i j : ℤ) (v : Value) (xs : List Bytes)
    → fits ids v ≡ true
    → outcome (lrange k i j) v ≡ ok xs
    → all_ids xs ≡ true
unfolding outcome
lrange_reply k i j v xs h e = elim (Option-cases (as_list v)) [
  | inl wrong ↦ ground arith
  | inr (ys, found) ↦ ground (arith, all_ids-range i j ys (fits-as_list v ys h found))
]

pub zrange_reply :
    (k : Bytes) (i j : ℤ) (v : Value) (xs : List Bytes) (o : Option Bytes)
    → fits (scores o) v ≡ true
    → outcome (zrange k i j) v ≡ ok xs
    → all_ids xs ≡ true
unfolding outcome
zrange_reply k i j v xs o h e = elim (Option-cases (as_zset v)) [
  | inl wrong ↦ ground arith
  | inr (zs, found) ↦
      ground (arith, all_ids-range i j (names zs) (all_ids-names zs (fits-as_zset o v zs h found)))
]

pub zrangebyscore_reply :
    (k : Bytes) (b : ℤ) (n : ℕ) (v : Value) (xs : List Bytes) (o : Option Bytes)
    → fits (scores o) v ≡ true
    → outcome (zrangebyscore k b n) v ≡ ok xs
    → all_ids xs ≡ true
unfolding outcome
zrangebyscore_reply k b n v xs o h e = elim (Option-cases (as_zset v)) [
  | inl wrong ↦ ground arith
  | inr (zs, found) ↦ ground (
    arith,
    all_ids-limit_to n (z_up_to b zs) (all_ids-z_up_to b zs (fits-as_zset o v zs h found)),
  )
]
