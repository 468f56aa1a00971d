-- ===== src/Board/Commands.antt =====
-- What single commands, and pipelines of them, do to the board.
use bullmq_go.Prelude.{
  ℕ, Bytes, ◌≡◌, refl, ap, sym, ◌∙◌, true, false, ltb, List, [], ◌∷◌, ◌++◌, none, some, arith,
  bytes_eq, append-nil, Bool-cases, inl, inr,
}
use mathlib.Core.List.{reverse, reverse-cons}
use bullmq_go.Redis.{Server, Laws, IsHealthy}
use bullmq_go.Redis.Values.{
  Value, Command, Answer, ok, key, lrem, hset, hdel, zrem, del, lpush, items, members, z_remove,
  remove_all, settle, count_item, z_score, outcome, effect, when, absent,
}
use bullmq_go.Redis.Pipeline.{pipeline, first_error}
use bullmq_go.Redis.Facts.{value_self}
use bullmq_go.Keys
use bullmq_go.Keys.{KeyBuilder}
use bullmq_go.Keys.Distinct.{
  KeyName, key_of, IsValid, IsJobId, tag, active_name, delayed_name, completed_name, failed_name,
  wait_name, prioritized_name, job_name, lock_name, logs_name,
}
use bullmq_go.Invariant.Fits.{shape, allowed, fits, ids, scores, hashes, IsJobId-is_job_id}
use bullmq_go.Invariant.Keeps.{Keeps-exec}
use bullmq_go.Invariant.Queues.{Keeps-pipeline_nil, Keeps-pipeline_cons}
use bullmq_go.Board.{Board, board_of, values}
use bullmq_go.Board.Views.{
  update, view-exec, view-aside, as_list-fits, as_zset-fits, as_hash-fits, items-of_items,
  members-of_members,
}
use bullmq_go.Board.Doing.{Does, same}

-- A command that every value of the shape takes.
abbrev pub IsTaken : (n : KeyName) → Command → Type 0
IsTaken n c = (v : Value) → fits (shape none n) v ≡ true → (a : Answer c) × (outcome c v ≡ ok a)

settle_taken :
    (c : Command) (v : Value) (a : Answer c) → outcome c v ≡ ok a → settle c v ≡ effect c v
settle_taken c v a e = rw (e, settle) refl

remove_all-append :
    (x : Bytes) (xs ys : List Bytes) → remove_all x (xs ++ ys) ≡ remove_all x xs ++ remove_all x ys
unfolding remove_all
remove_all-append x [] ys = refl
remove_all-append x (y ∷ xs) ys = ground (arith, remove_all-append x xs ys)

remove_all-reverse :
    (x : Bytes) (xs : List Bytes) → reverse (remove_all x xs) ≡ remove_all x (reverse xs)
unfolding remove_all
remove_all-reverse x [] = refl
remove_all-reverse x (y ∷ xs) = elim (Bool-cases (bytes_eq y x)) [
  | inl e ↦
      rw (e, reverse-cons y xs, remove_all-append x (reverse xs) (y ∷ []))
        (rw (e, append-nil) (remove_all-reverse x xs))
  | inr e ↦
      rw (e, reverse-cons y xs, remove_all-append x (reverse xs) (y ∷ []))
        (rw (e, reverse-cons y (remove_all x xs))
          (ap (λ zs. zs ++ (y ∷ [])) (remove_all-reverse x xs)))
]

-- The commands that a value of the shape takes.
module _ (k x : Bytes) (v : Value) where
  taken_lrem : fits ids v ≡ true → (a : ℕ) × (outcome (lrem k 0 x) v ≡ ok a)
  unfolding outcome
  taken_lrem h = (count_item x (items v), rw (as_list-fits v h, when) refl)

  taken_lpush : fits ids v ≡ true → (a : Unit {0}) × (outcome (lpush k x) v ≡ ok a)
  unfolding outcome
  taken_lpush h = (tt, rw (as_list-fits v h, when) refl)

  taken_zrem : fits (scores none) v ≡ true → (a : ℕ) × (outcome (zrem k x) v ≡ ok a)
  unfolding outcome
  taken_zrem h = (
    elim (z_score x (members v)) [ none ↦ 0 | some sc ↦ 1 ],
    rw (as_zset-fits none v h, when) refl,
  )

module _ (k f : Bytes) (v : Value) where
  taken_hset :
      (fs : List (Bytes × Bytes))
      → fits hashes v ≡ true
      → (a : Unit {0}) × (outcome (hset k fs) v ≡ ok a)
  unfolding outcome
  taken_hset fs h = (tt, rw (as_hash-fits v h, when) refl)

  taken_hdel : fits hashes v ≡ true → (a : Unit {0}) × (outcome (hdel k f) v ≡ ok a)
  unfolding outcome
  taken_hdel h = (tt, rw (as_hash-fits v h, when) refl)

taken_del : (k : Bytes) (v : Value) → (a : Unit {0}) × (outcome (del k) v ≡ ok a)
unfolding outcome
taken_del k v = (tt, refl)

module _ {R : Server} (kb : KeyBuilder) where
  pub Does-pipeline_nil : Does R kb same (pipeline R [])
  unfolding pipeline
  Does-pipeline_nil = record {
    moves = λ s h. refl;
    succeeds = λ s h. (tt, refl);
    stays = Keeps-pipeline_nil R;
  }

  pub Does-pipeline_cons :
      (f g : Board → Board) (c : Command) (cs : List Command)
      → Does R kb f (R.exec c)
      → Does R kb g (pipeline R cs)
      → Does R kb (λ b. g (f b)) (pipeline R (c ∷ cs))
  unfolding pipeline
  Does-pipeline_cons f g c cs dc ds = record {
    moves = λ s h. ds.moves (R.exec c s).1 (dc.stays.keeps s h) ∙ ap g (dc.moves s h);
    succeeds = λ s h.
        let (a, e) = dc.succeeds s h in
        let (u, done) = ds.succeeds (R.exec c s).1 (dc.stays.keeps s h) in
        (u, rw (e, first_error) done);
    stays = Keeps-pipeline_cons R c cs dc.stays ds.stays;
  }

module _ {R : Server} (L : Laws R) (H : IsHealthy R) (kb : KeyBuilder) where
  -- A command on a key of the queue itself.
  Does-place :
      (n : KeyName) (c : Command) (f : Board → Board)
      → IsValid n
      → ltb (tag n) 8 ≡ true
      → key c ≡ key_of kb n
      → allowed (shape none n) c ≡ true
      → IsTaken n c
      → ((g : KeyName → Value) → board_of (update n (effect c (g n)) g) ≡ f (board_of g))
      → Does R kb f (R.exec c)
  Does-place n c f v p e a taken moved = record {
    moves = λ s h.
        let (ans, out) = taken (R.value s (key_of kb n)) (h.at n v) in
        view-exec L kb c s n v p e
        ∙ ap (λ val. board_of (update n val (values R kb s)))
            (ap (R.value (R.exec c s).1) (sym e)
              ∙ value_self L H c s
              ∙ ap (λ k. settle c (R.value s k)) e
              ∙ settle_taken c _ ans out)
        ∙ moved (values R kb s);
    succeeds = λ s h.
        let (ans, out) = taken (R.value s (key_of kb n)) (h.at n v) in
        (ans, H.answers c s ∙ ap (λ k. outcome c (R.value s k)) e ∙ out);
    stays = Keeps-exec L kb none n c v e a;
  }

  -- A command on a job's own key.
  Does-own :
      (n : KeyName) (c : Command)
      → IsValid n
      → ltb (tag n) 8 ≡ false
      → key c ≡ key_of kb n
      → allowed (shape none n) c ≡ true
      → IsTaken n c
      → Does R kb same (R.exec c)
  Does-own n c v p e a taken = record {
    moves = λ s h. view-aside L kb c s n v p e;
    succeeds = λ s h.
        let (ans, out) = taken (R.value s (key_of kb n)) (h.at n v) in
        (ans, H.answers c s ∙ ap (λ k. outcome c (R.value s k)) e ∙ out);
    stays = Keeps-exec L kb none n c v e a;
  }

  module _ (id : Bytes) where
    pub Does-drop_waiting :
        Does R kb
          (λ b. record b { waiting = remove_all id b.waiting })
          (R.exec (lrem (Keys.wait kb) 0 id))
    unfolding effect
    Does-drop_waiting =
        Does-place wait_name (lrem (Keys.wait kb) 0 id) _ tt refl refl refl (taken_lrem _ id) λ g.
          ap (λ xs. record (board_of g) { waiting = xs })
            (ap reverse (items-of_items (remove_all id (items (g wait_name))))
              ∙ remove_all-reverse id (items (g wait_name)))

    pub Does-drop_active :
        Does R kb
          (λ b. record b { active = remove_all id b.active })
          (R.exec (lrem (Keys.active kb) 0 id))
    unfolding effect
    Does-drop_active =
        Does-place active_name (lrem (Keys.active kb) 0 id) _ tt refl refl refl (taken_lrem _ id)
          λ g. ap (λ xs. record (board_of g) { active = xs }) (items-of_items _)

    pub Does-drop_prioritized :
        Does R kb
          (λ b. record b { prioritized = z_remove id b.prioritized })
          (R.exec (zrem (Keys.prioritized kb) id))
    unfolding effect
    Does-drop_prioritized =
        Does-place prioritized_name (zrem (Keys.prioritized kb) id) _ tt refl refl refl
          (taken_zrem _ id)
          λ g. ap (λ zs. record (board_of g) { prioritized = zs }) (members-of_members _)

    pub Does-drop_delayed :
        Does R kb
          (λ b. record b { delayed = z_remove id b.delayed })
          (R.exec (zrem (Keys.delayed kb) id))
    unfolding effect
    Does-drop_delayed =
        Does-place delayed_name (zrem (Keys.delayed kb) id) _ tt refl refl refl (taken_zrem _ id)
          λ g. ap (λ zs. record (board_of g) { delayed = zs }) (members-of_members _)

    pub Does-drop_completed :
        Does R kb
          (λ b. record b { completed = z_remove id b.completed })
          (R.exec (zrem (Keys.completed kb) id))
    unfolding effect
    Does-drop_completed =
        Does-place completed_name (zrem (Keys.completed kb) id) _ tt refl refl refl
          (taken_zrem _ id)
          λ g. ap (λ zs. record (board_of g) { completed = zs }) (members-of_members _)

    pub Does-drop_failed :
        Does R kb
          (λ b. record b { failed = z_remove id b.failed })
          (R.exec (zrem (Keys.failed kb) id))
    unfolding effect
    Does-drop_failed =
        Does-place failed_name (zrem (Keys.failed kb) id) _ tt refl refl refl (taken_zrem _ id)
          λ g. ap (λ zs. record (board_of g) { failed = zs }) (members-of_members _)

    module _ (i : IsJobId id) where
      pub Does-push_waiting :
          Does R kb
            (λ b. record b { waiting = b.waiting ++ (id ∷ []) })
            (R.exec (lpush (Keys.wait kb) id))
      unfolding effect
      Does-push_waiting =
          Does-place wait_name (lpush (Keys.wait kb) id) _ tt refl refl (IsJobId-is_job_id id i)
            (taken_lpush _ id)
            λ g.
              ap (λ xs. record (board_of g) { waiting = xs })
                (reverse-cons id (items (g wait_name)))

      pub Does-del_job : Does R kb same (R.exec (del (Keys.job kb id)))
      Does-del_job =
          Does-own (job_name id) (del (Keys.job kb id)) i refl refl refl
            (λ v h. taken_del (Keys.job kb id) v)

      pub Does-set_job :
          (fs : List (Bytes × Bytes)) → Does R kb same (R.exec (hset (Keys.job kb id) fs))
      Does-set_job fs =
          Does-own (job_name id) (hset (Keys.job kb id) fs) i refl refl refl
            (λ v h. taken_hset (Keys.job kb id) id v fs h)

      pub Does-del_field : (f : Bytes) → Does R kb same (R.exec (hdel (Keys.job kb id) f))
      Does-del_field f =
          Does-own (job_name id) (hdel (Keys.job kb id) f) i refl refl refl
            (taken_hdel (Keys.job kb id) f)

      pub Does-del_lock : Does R kb same (R.exec (del (Keys.lock kb id)))
      Does-del_lock =
          Does-own (lock_name id) (del (Keys.lock kb id)) i refl refl refl
            (λ v h. taken_del (Keys.lock kb id) v)

      pub Does-del_logs : Does R kb same (R.exec (del (Keys.logs kb id)))
      Does-del_logs =
          Does-own (logs_name id) (del (Keys.logs kb id)) i refl refl refl
            (λ v h. taken_del (Keys.logs kb id) v)

  module _ (n : KeyName) (v : IsValid n) where
    -- The deletion of a queue's own key.
    pub Does-clear :
        (f : Board → Board)
        → ltb (tag n) 8 ≡ true
        → allowed (shape none n) (del (key_of kb n)) ≡ true
        → ((g : KeyName → Value) → board_of (update n absent g) ≡ f (board_of g))
        → Does R kb f (R.exec (del (key_of kb n)))
    unfolding effect
    Does-clear f p a moved =
        Does-place n (del (key_of kb n)) f v p refl a (λ val h. taken_del (key_of kb n) val) moved
