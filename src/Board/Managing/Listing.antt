-- ===== src/Board/Managing/Listing.antt =====
-- The reads with which Drain collects the jobs: they answer what the keys hold and change nothing.
use bullmq_go.Prelude.{Bytes, ◌≡◌, refl, ap, sym, ◌∙◌, List, none, arith}
use bullmq_go.Prelude.Int.{pos, negsuc}
use bullmq_go.Redis.{Server, Laws, IsHealthy}
use bullmq_go.Redis.Values.{ok, lrange, zrange, names, items, members, as_list, as_zset, effect}
use bullmq_go.Redis.Action.{Action, ◌>>=◌, bind_of_ok}
use bullmq_go.Redis.Facts.{read_keeps}
use bullmq_go.Redis.Replies.{lrange_all, zrange_all}
use bullmq_go.Keys.Distinct.{KeyName, key_of, IsValid}
use bullmq_go.Queue.{Queue}
use bullmq_go.Queue.Manage.{or_empty}
use bullmq_go.Invariant.Fits.{shape, fits, ids, scores}
use bullmq_go.Invariant.Keeps.{Consistent}
use bullmq_go.Invariant.Draining.{or_empty_state}
use bullmq_go.Board.Views.{as_list-fits, as_zset-fits}

or_empty_answer :
    (R : Server) (text : Bytes) (m : Action R.Store (List Bytes)) (xs : List Bytes) (t : R.Store)
    → (m t).0 ≡ ok xs
    → (or_empty R text m t).0 ≡ ok xs
unfolding or_empty
or_empty_answer R text m xs t e = ground arith

module _ {R : Server} (L : Laws R) (H : IsHealthy R) (q : Queue) where
  -- A read of Drain answers what the key holds, and changes nothing.
  abbrev Reads : List Bytes → R.Store → Action R.Store (List Bytes) → Type 0
  Reads xs t m = ((m t).0 ≡ ok xs) × ((j : Bytes) → R.value (m t).1 j ≡ R.value t j)

  Reads-or_empty :
      (text : Bytes) (m : Action R.Store (List Bytes)) (xs : List Bytes) (t : R.Store)
      → Reads xs t m
      → Reads xs t (or_empty R text m)
  Reads-or_empty text m xs t (answered, kept) = (
    or_empty_answer R text m xs t answered,
    λ j. ap (λ (u : R.Store). R.value u j) (or_empty_state R text m t) ∙ kept j,
  )

  lrange_keeps :
      (k : Bytes) (t : R.Store) (j : Bytes)
      → R.value (R.exec (lrange k (pos 0) (negsuc 0)) t).1 j ≡ R.value t j
  unfolding effect
  lrange_keeps k = read_keeps L (lrange k (pos 0) (negsuc 0)) (λ v. refl)

  zrange_keeps :
      (k : Bytes) (t : R.Store) (j : Bytes)
      → R.value (R.exec (zrange k (pos 0) (negsuc 0)) t).1 j ≡ R.value t j
  unfolding effect
  zrange_keeps k = read_keeps L (zrange k (pos 0) (negsuc 0)) (λ v. refl)

  -- In a state with the values of `s`, the action comes to `rest` with those values still there.
  abbrev pub LeadsTo : {A : Type 0} → R.Store → Action R.Store A → Action R.Store A → Type 0
  LeadsTo s rest m =
      (t : R.Store)
      → ((j : Bytes) → R.value t j ≡ R.value s j)
      → (u : R.Store) × ((j : Bytes) → R.value u j ≡ R.value s j) × (m t ≡ rest u)

  module _ {A : Type 0} (text : Bytes) (n : KeyName) (v : IsValid n) (s : R.Store)
      (h : Consistent R q.key_builder none s) (rest : Action R.Store A) where
    after_read :
        (m : Action R.Store (List Bytes)) (xs : List Bytes) (f : List Bytes → Action R.Store A)
        → ((t : R.Store) → ((j : Bytes) → R.value t j ≡ R.value s j) → Reads xs t m)
        → LeadsTo s rest (f xs)
        → LeadsTo s rest (or_empty R text m >>= f)
    after_read m xs f reads leads t k =
        let (answered, kept) = Reads-or_empty text m xs t (reads t k) in
        let (u, ku, e) = leads (or_empty R text m t).1 (λ j. kept j ∙ k j) in
        (u, ku, bind_of_ok (or_empty R text m) f t xs answered ∙ e)

    pub after_list :
        (f : List Bytes → Action R.Store A)
        → shape none n ≡ ids
        → LeadsTo s rest (f (items (R.value s (key_of q.key_builder n))))
        → LeadsTo s rest
            (or_empty R text (R.exec (lrange (key_of q.key_builder n) (pos 0) (negsuc 0))) >>= f)
    after_list f e =
        let k = key_of q.key_builder n in
        after_read (R.exec (lrange k (pos 0) (negsuc 0))) (items (R.value s k)) f λ t kept. (
          lrange_all H k t _ (
              ap as_list (kept k)
              ∙ as_list-fits _ (ap (λ sh. fits sh (R.value s k)) (sym e) ∙ h.at n v)),
          lrange_keeps k t,
        )

    pub after_set :
        (f : List Bytes → Action R.Store A)
        → shape none n ≡ scores none
        → LeadsTo s rest (f (names (members (R.value s (key_of q.key_builder n)))))
        → LeadsTo s rest
            (or_empty R text (R.exec (zrange (key_of q.key_builder n) (pos 0) (negsuc 0))) >>= f)
    after_set f e =
        let k = key_of q.key_builder n in
        after_read (R.exec (zrange k (pos 0) (negsuc 0))) (names (members (R.value s k))) f
          λ t kept. (
            zrange_all H k t _ (
                ap as_zset (kept k)
                ∙ as_zset-fits none _ (ap (λ sh. fits sh (R.value s k)) (sym e) ∙ h.at n v)),
            zrange_keeps k t,
          )
