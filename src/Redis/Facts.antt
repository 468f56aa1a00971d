-- ===== src/Redis/Facts.antt =====
-- What a key holds after one command, for proofs that keep the server abstract.
use bullmq_go.Prelude.{
  ℕ, ◌==◌, ltb, if◌then◌else◌, Bytes, bytes_eq, bytes_eq_refl, eq_of_bytes_eq, Bool-cases, sym,
  subst, ◌≡◌, refl, ◌∙◌, ap, false, ◌⊎◌, inl, inr, List, ◌∷◌, some, arith, ◌==◌, if◌then◌else◌,
}
use bullmq_go.Prelude.Int.{ℤ, pos, ◌≤ℤ◌}
use bullmq_go.Errors.{Error}
use bullmq_go.Redis.{Server, Laws, IsHealthy}
use bullmq_go.Redis.Values.{
  Value, absent, text, list, zset, Command, Result, ok, err, key, outcome, effect, settle, as_list,
  as_zset, as_hash, items, members, fields, of_items, of_members, of_fields, lpush, lrem, zadd,
  zrem, hset, hdel, setex, del, remove_all, remove_count, z_place, z_remove, h_set, h_del,
  count_item, when,
}

pub Result-cases :
    {A : Type 0} (r : Result A) → ((a : A) × (r ≡ ok a)) ⊎ ((e : Error) × (r ≡ err e))
Result-cases (ok a) = inl (a, refl)
Result-cases (err e) = inr (e, refl)

pub items-as_list : (v : Value) (xs : List Bytes) → as_list v ≡ some xs → items v ≡ xs
items-as_list absent xs e = cc
items-as_list v xs e = ground arith

members-as_zset : (v : Value) (zs : List (Bytes × ℤ)) → as_zset v ≡ some zs → members v ≡ zs
members-as_zset absent zs e = cc
members-as_zset v zs e = ground arith

fields-as_hash : (v : Value) (fs : List (Bytes × Bytes)) → as_hash v ≡ some fs → fields v ≡ fs
fields-as_hash absent fs e = cc
fields-as_hash v fs e = ground arith

settle-lpush :
    (k x : Bytes) (v : Value) (xs : List Bytes)
    → as_list v ≡ some xs
    → settle (lpush k x) v ≡ list (x ∷ xs)
unfolding outcome effect
settle-lpush k x v xs e = rw (e, settle) (ap (λ ys. list (x ∷ ys)) (items-as_list v xs e))

settle-lrem :
    (k : Bytes) (n : ℕ) (x : Bytes) (v : Value) (xs : List Bytes)
    → as_list v ≡ some xs
    → settle (lrem k n x) v ≡ of_items (if n == 0 then remove_all x xs else remove_count n x xs)
unfolding outcome effect
settle-lrem k n x v xs e =
    rw (e, settle)
      (ap (λ ys. of_items (if n == 0 then remove_all x ys else remove_count n x ys))
        (items-as_list v xs e))

settle-zadd :
    (k : Bytes) (sc : ℤ) (m : Bytes) (v : Value) (zs : List (Bytes × ℤ))
    → as_zset v ≡ some zs
    → settle (zadd k sc m) v ≡ zset (z_place (m, sc) (z_remove m zs))
unfolding outcome effect
settle-zadd k sc m v zs e =
    rw (e, settle) (ap (λ ys. zset (z_place (m, sc) (z_remove m ys))) (members-as_zset v zs e))

settle-zrem :
    (k m : Bytes) (v : Value) (zs : List (Bytes × ℤ))
    → as_zset v ≡ some zs
    → settle (zrem k m) v ≡ of_members (z_remove m zs)
unfolding outcome effect
settle-zrem k m v zs e =
    rw (e, settle) (ap (λ ys. of_members (z_remove m ys)) (members-as_zset v zs e))

settle-hset :
    (k : Bytes) (es : List (Bytes × Bytes)) (v : Value) (fs : List (Bytes × Bytes))
    → as_hash v ≡ some fs
    → settle (hset k es) v ≡ of_fields (h_set es fs)
unfolding outcome effect
settle-hset k es v fs e =
    rw (e, settle) (ap (λ ys. of_fields (h_set es ys)) (fields-as_hash v fs e))

settle-hdel :
    (k f : Bytes) (v : Value) (fs : List (Bytes × Bytes))
    → as_hash v ≡ some fs
    → settle (hdel k f) v ≡ of_fields (h_del f fs)
unfolding outcome effect
settle-hdel k f v fs e = rw (e, settle) (ap (λ ys. of_fields (h_del f ys)) (fields-as_hash v fs e))

settle-setex : (k v : Bytes) (t : ℤ) (w : Value) → pos 1 ≤ℤ t → settle (setex k v t) w ≡ text v
unfolding outcome effect
settle-setex k v t w h = ground arith

module _ {R : Server} (L : Laws R) where
  pub value_other :
      (c : Command) (s : R.Store) (k : Bytes)
      → bytes_eq k (key c) ≡ false
      → R.value (R.exec c s).1 k ≡ R.value s k
  value_other c s k e = L.framed c s k λ p. cc (p, bytes_eq_refl (key c))

  -- What holds of a value and of the command's effect on it holds after the command, failed or not.
  pub after_exec :
      (P : Value → Type 0) (c : Command) (s : R.Store)
      → P (R.value s (key c))
      → P (effect c (R.value s (key c)))
      → P (R.value (R.exec c s).1 (key c))
  after_exec P c s same ran = elim (Result-cases (R.exec c s).0) [
    | inl (a, e) ↦ subst P (sym (L.accepted c s a e).1) ran
    | inr (x, e) ↦ elim (L.failed c s x e) [
      | inl kept ↦ subst P (sym kept) same
      | inr (a, o, lost) ↦ subst P (sym lost) ran
    ]
  ]

  module _ (H : IsHealthy R) where
    pub value_self :
        (c : Command) (s : R.Store) → R.value (R.exec c s).1 (key c) ≡ settle c (R.value s (key c))
    value_self c s = elim (Result-cases (outcome c (R.value s (key c)))) [
      | inl (a, e) ↦ rw (e, settle) (L.accepted c s a (H.answers c s ∙ e)).1
      | inr (x, e) ↦
          rw (e, settle)
            (elim (L.failed c s x (H.answers c s ∙ e)) [ inl kept ↦ kept | inr (a, o, lost) ↦ cc ])
    ]

    -- A command that a server that is up refuses changes nothing.
    pub refused :
        (c : Command) (s : R.Store) (x : Error)
        → (R.exec c s).0 ≡ err x
        → (k : Bytes) → R.value (R.exec c s).1 k ≡ R.value s k
    refused c s x e k = elim (Bool-cases (bytes_eq k (key c))) [
      | inl same ↦
          subst (λ j. R.value (R.exec c s).1 j ≡ R.value s j) (sym (eq_of_bytes_eq k (key c) same))
            (value_self c s ∙ rw (sym (H.answers c s) ∙ e, settle) refl)
      | inr other ↦ value_other c s k other
    ]

    -- The same for each command that writes, at a value of its type.
    pub lpush_self :
        (k x : Bytes) (s : R.Store) (xs : List Bytes)
        → as_list (R.value s k) ≡ some xs
        → R.value (R.exec (lpush k x) s).1 k ≡ list (x ∷ xs)
    lpush_self k x s xs e = value_self (lpush k x) s ∙ settle-lpush k x (R.value s k) xs e

    pub lrem_self :
        (k : Bytes) (n : ℕ) (x : Bytes) (s : R.Store) (xs : List Bytes)
        → as_list (R.value s k) ≡ some xs
        → R.value (R.exec (lrem k n x) s).1 k
          ≡ of_items (if n == 0 then remove_all x xs else remove_count n x xs)
    lrem_self k n x s xs e = value_self (lrem k n x) s ∙ settle-lrem k n x (R.value s k) xs e

    pub zadd_self :
        (k : Bytes) (sc : ℤ) (m : Bytes) (s : R.Store) (zs : List (Bytes × ℤ))
        → as_zset (R.value s k) ≡ some zs
        → R.value (R.exec (zadd k sc m) s).1 k ≡ zset (z_place (m, sc) (z_remove m zs))
    zadd_self k sc m s zs e = value_self (zadd k sc m) s ∙ settle-zadd k sc m (R.value s k) zs e

    pub zrem_self :
        (k m : Bytes) (s : R.Store) (zs : List (Bytes × ℤ))
        → as_zset (R.value s k) ≡ some zs
        → R.value (R.exec (zrem k m) s).1 k ≡ of_members (z_remove m zs)
    zrem_self k m s zs e = value_self (zrem k m) s ∙ settle-zrem k m (R.value s k) zs e

    pub hset_self :
        (k : Bytes) (es : List (Bytes × Bytes)) (s : R.Store) (fs : List (Bytes × Bytes))
        → as_hash (R.value s k) ≡ some fs
        → R.value (R.exec (hset k es) s).1 k ≡ of_fields (h_set es fs)
    hset_self k es s fs e = value_self (hset k es) s ∙ settle-hset k es (R.value s k) fs e

    pub hdel_self :
        (k f : Bytes) (s : R.Store) (fs : List (Bytes × Bytes))
        → as_hash (R.value s k) ≡ some fs
        → R.value (R.exec (hdel k f) s).1 k ≡ of_fields (h_del f fs)
    hdel_self k f s fs e = value_self (hdel k f) s ∙ settle-hdel k f (R.value s k) fs e

    pub setex_self :
        (k v : Bytes) (t : ℤ) (s : R.Store)
        → pos 1 ≤ℤ t
        → R.value (R.exec (setex k v t) s).1 k ≡ text v
    unfolding outcome effect
    setex_self k v t s h = value_self (setex k v t) s ∙ settle-setex k v t (R.value s k) h

    pub del_self : (k : Bytes) (s : R.Store) → R.value (R.exec (del k) s).1 k ≡ absent
    unfolding outcome effect
    del_self k s = value_self (del k) s

-- The replies of a server that is up.
module _ {R : Server} (H : IsHealthy R) where
  pub lrem_ok :
      (k : Bytes) (n : ℕ) (x : Bytes) (s : R.Store) (xs : List Bytes)
      → as_list (R.value s k) ≡ some xs
      → (m : ℕ) × ((R.exec (lrem k n x) s).0 ≡ ok m)
  unfolding outcome
  lrem_ok k n x s xs e = (
    if n == 0 then count_item x xs else if ltb (count_item x xs) n then count_item x xs else n,
    H.answers (lrem k n x) s ∙ rw (e, when) refl,
  )

  pub lpush_ok :
      (k x : Bytes) (s : R.Store) (xs : List Bytes)
      → as_list (R.value s k) ≡ some xs
      → (R.exec (lpush k x) s).0 ≡ ok tt
  unfolding outcome
  lpush_ok k x s xs e = H.answers (lpush k x) s ∙ rw (e, when) refl

module _ {R : Server} (L : Laws R) where
  -- A command that reads changes nothing, accepted or not.
  pub read_keeps :
      (c : Command)
      → ((v : Value) → effect c v ≡ v)
      → (s : R.Store) (k : Bytes) → R.value (R.exec c s).1 k ≡ R.value s k
  read_keeps c h s k = elim (Bool-cases (bytes_eq k (key c))) [
    | inl same ↦
        subst (λ j. R.value (R.exec c s).1 j ≡ R.value s j) (sym (eq_of_bytes_eq k (key c) same))
          (after_exec L (λ v. v ≡ R.value s (key c)) c s refl (h (R.value s (key c))))
    | inr other ↦ value_other L c s k other
  ]
