-- ===== src/Queue/Pausing.antt =====
-- Pausing and resuming a queue on a server that is up.
use bullmq_go.Prelude.{
  Bytes, codes, bytes_eq, ◌≡◌, refl, ◌∙◌, ap, true, false, List, [], ◌∷◌, Option, none, some, arith,
}
use bullmq_go.Redis.{Server, Laws, IsHealthy}
use bullmq_go.Redis.Values.{ok, hset, hdel, as_hash, of_fields, h_get, h_set, h_del, outcome, when}
use bullmq_go.Redis.Action.{◌>>=◌}
use bullmq_go.Redis.Facts.{hset_self, hdel_self}
use bullmq_go.Redis.Replies.{hget_answer}
use bullmq_go.Keys
use bullmq_go.Jobs.{Codec}
use bullmq_go.Queue.{Queue, pause, resume, is_paused}

as_hash-of_fields : (fs : List (Bytes × Bytes)) → as_hash (of_fields fs) ≡ some fs
as_hash-of_fields [] = refl
as_hash-of_fields (f ∷ fs) = refl

pub h_get-h_del : (f : Bytes) (fs : List (Bytes × Bytes)) → h_get f (h_del f fs) ≡ none
unfolding h_get h_del
h_get-h_del f [] = refl
h_get-h_del f (e ∷ fs) = ground (arith, h_get-h_del f fs)

set_found :
    (fs : List (Bytes × Bytes))
    → h_get (codes "paused") (h_set ((codes "paused", codes "1") ∷ []) fs) ≡ some (codes "1")
unfolding h_get h_set bytes_eq
set_found fs = refl

module _ {R : Server} (L : Laws R) (H : IsHealthy R) (C : Codec) (q : Queue) where
  hset_ok :
      (k : Bytes) (es : List (Bytes × Bytes)) (s : R.Store) (fs : List (Bytes × Bytes))
      → as_hash (R.value s k) ≡ some fs
      → (R.exec (hset k es) s).0 ≡ ok tt
  unfolding outcome
  hset_ok k es s fs e = H.answers (hset k es) s ∙ rw (e, when) refl

  hdel_ok :
      (k f : Bytes) (s : R.Store) (fs : List (Bytes × Bytes))
      → as_hash (R.value s k) ≡ some fs
      → (R.exec (hdel k f) s).0 ≡ ok tt
  unfolding outcome
  hdel_ok k f s fs e = H.answers (hdel k f) s ∙ rw (e, when) refl

  is_paused-of_found :
      (s : R.Store) (fs : List (Bytes × Bytes)) (found : Option Bytes)
      → as_hash (R.value s (Keys.meta q.key_builder)) ≡ some fs
      → h_get (codes "paused") fs ≡ found
      → (is_paused R C q s).0 ≡ ok (elim found [ none ↦ false | some p ↦ bytes_eq p (codes "1") ])
  unfolding is_paused ◌>>=◌
  is_paused-of_found s fs none e h =
      ground (arith, hget_answer H (Keys.meta q.key_builder) (codes "paused") s fs e)
  is_paused-of_found s fs (some p) e h =
      ground (arith, hget_answer H (Keys.meta q.key_builder) (codes "paused") s fs e)

  -- On a server that is up, with the queue's meta key a hash or absent: after `Pause` has succeeded
  -- the queue is paused, after `Resume` it is not, and both succeed.
  pub is_paused-pause-resume :
      (s : R.Store) (fs : List (Bytes × Bytes))
      → as_hash (R.value s (Keys.meta q.key_builder)) ≡ some fs
      → let (paused, s1) = pause R C q s in
        let (resumed, s2) = resume R C q s1 in
        (paused ≡ ok tt)
        × ((is_paused R C q s1).0 ≡ ok true)
        × (resumed ≡ ok tt)
        × ((is_paused R C q s2).0 ≡ ok false)
  unfolding pause resume is_paused bytes_eq
  is_paused-pause-resume s fs e =
      let k = Keys.meta q.key_builder in
      let es = (codes "paused", codes "1") ∷ [] in
      let s1 = (R.exec (hset k es) s).1 in
      let e1 = ap as_hash (hset_self L H k es s fs e) ∙ as_hash-of_fields (h_set es fs) in
      let e2 =
        ap as_hash (hdel_self L H k (codes "paused") s1 (h_set es fs) e1)
        ∙ as_hash-of_fields (h_del (codes "paused") (h_set es fs)) in
      (
        hset_ok k es s fs e,
        is_paused-of_found s1 (h_set es fs) (some (codes "1")) e1 (set_found fs),
        hdel_ok k (codes "paused") s1 (h_set es fs) e1,
        is_paused-of_found _ (h_del (codes "paused") (h_set es fs)) none e2
            (h_get-h_del (codes "paused") (h_set es fs)),
      )
