-- ===== src/Redis/Replies.antt =====
-- What a server that is up replies to the commands that read or pop, and what a pop leaves.
use bullmq_go.Prelude.{Bytes, ◌≡◌, ◌∙◌, refl, List, ◌∷◌, some, take, take-length, false, ap, arith}
use bullmq_go.Prelude.Int.{ℤ, pos, negsuc}
use bullmq_go.Redis.{Server, Laws, IsHealthy}
use bullmq_go.Redis.Values.{
  Value, ok, hget, hgetall, exists, lrange, zrange, names, is_absent, range, zpopmin, rpop, outcome,
  effect, as_list, as_hash, as_zset, of_items, of_members, h_get, pop_last, when, or_nil, settle,
}
use bullmq_go.Redis.Facts.{read_keeps}

pub settle-zpopmin :
    (k m : Bytes) (sc : ℤ) (v : Value) (zs : List (Bytes × ℤ))
    → as_zset v ≡ some ((m, sc) ∷ zs)
    → settle (zpopmin k) v ≡ of_members zs
unfolding outcome effect
settle-zpopmin k m sc v zs e = ground arith

pub settle-rpop :
    (k : Bytes) (v : Value) (xs : List Bytes) (x : Bytes) (rest : List Bytes)
    → as_list v ≡ some xs
    → pop_last xs ≡ some (x, rest)
    → settle (rpop k) v ≡ of_items rest
unfolding outcome effect
settle-rpop k v xs x rest e p = ground arith

module _ {R : Server} (L : Laws R) where
  pub hget_keeps :
      (k f : Bytes) (s : R.Store) (j : Bytes) → R.value (R.exec (hget k f) s).1 j ≡ R.value s j
  unfolding effect
  hget_keeps k f = read_keeps L (hget k f) (λ v. refl)

  pub hgetall_keeps :
      (k : Bytes) (s : R.Store) (j : Bytes) → R.value (R.exec (hgetall k) s).1 j ≡ R.value s j
  unfolding effect
  hgetall_keeps k = read_keeps L (hgetall k) (λ v. refl)

  pub exists_keeps :
      (k : Bytes) (s : R.Store) (j : Bytes) → R.value (R.exec (exists k) s).1 j ≡ R.value s j
  unfolding effect
  exists_keeps k = read_keeps L (exists k) (λ v. refl)

module _ {R : Server} (H : IsHealthy R) where
  pub hget_answer :
      (k f : Bytes) (s : R.Store) (fs : List (Bytes × Bytes))
      → as_hash (R.value s k) ≡ some fs
      → (R.exec (hget k f) s).0 ≡ or_nil (h_get f fs)
  unfolding outcome
  hget_answer k f s fs e = H.answers (hget k f) s ∙ rw (e, when) refl

  pub zpopmin_answer :
      (k : Bytes) (s : R.Store) (zs : List (Bytes × ℤ))
      → as_zset (R.value s k) ≡ some zs
      → (R.exec (zpopmin k) s).0 ≡ ok (take 1 zs)
  unfolding outcome
  zpopmin_answer k s zs e = H.answers (zpopmin k) s ∙ rw (e, when) refl

  pub rpop_answer :
      (k : Bytes) (s : R.Store) (xs : List Bytes) (x : Bytes) (rest : List Bytes)
      → as_list (R.value s k) ≡ some xs
      → pop_last xs ≡ some (x, rest)
      → (R.exec (rpop k) s).0 ≡ ok x
  unfolding outcome
  rpop_answer k s xs x rest e p = H.answers (rpop k) s ∙ rw (e, when, p) refl

  pub hash_answer :
      (k : Bytes) (s : R.Store) (fs : List (Bytes × Bytes))
      → as_hash (R.value s k) ≡ some fs
      → (R.exec (hgetall k) s).0 ≡ ok fs
  unfolding outcome
  hash_answer k s fs e = H.answers (hgetall k) s ∙ rw (e, when) refl

  pub exists_answer :
      (k : Bytes) (s : R.Store) → is_absent (R.value s k) ≡ false → (R.exec (exists k) s).0 ≡ ok 1
  unfolding outcome
  exists_answer k s e = H.answers (exists k) s ∙ rw e refl

  pub lrange_all :
      (k : Bytes) (s : R.Store) (xs : List Bytes)
      → as_list (R.value s k) ≡ some xs
      → (R.exec (lrange k (pos 0) (negsuc 0)) s).0 ≡ ok xs
  unfolding outcome range
  lrange_all k s xs e =
      H.answers (lrange k (pos 0) (negsuc 0)) s
      ∙ rw (e, when) (ap ok (ground (arith, take-length xs)))

  pub zrange_all :
      (k : Bytes) (s : R.Store) (zs : List (Bytes × ℤ))
      → as_zset (R.value s k) ≡ some zs
      → (R.exec (zrange k (pos 0) (negsuc 0)) s).0 ≡ ok (names zs)
  unfolding outcome range
  zrange_all k s zs e =
      H.answers (zrange k (pos 0) (negsuc 0)) s
      ∙ rw (e, when) (ap ok (ground (arith, take-length (names zs))))
