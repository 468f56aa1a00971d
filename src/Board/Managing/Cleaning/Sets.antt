-- ===== src/Board/Managing/Cleaning/Sets.antt =====
-- The part of Clean after the choice of the set.
use bullmq_go.Prelude.{
  ℕ, ◌-◌, ◌&&◌, not, Bytes, codes, ◌≡◌, refl, ap, sym, ◌∙◌, Bool, true, false, List, [], ◌∷◌, none,
  some, arith, if◌then◌else◌, length, take, ltb,
}
use bullmq_go.Prelude.Int.{ℤ, pos, pos_part, ltb_ℤ}
use bullmq_go.Redis.{Server, Laws, IsHealthy}
use bullmq_go.Redis.Values.{
  Command, ok, absent, zrem, zrangebyscore, z_remove, z_up_to, names, as_zset, outcome, effect,
  when,
}
use bullmq_go.Redis.Action.{Action, ◌>>◌, bind_of_ok, pure}
use bullmq_go.Redis.Facts.{read_keeps}
use bullmq_go.Redis.Pipeline.{pipeline}
use bullmq_go.Keys.{KeyBuilder}
use bullmq_go.Keys.Distinct.{KeyName, IsJobId, IsValid, key_of, tag, completed_name, failed_name}
use bullmq_go.Queue.Manage.{clean_key, clean_commands}
use bullmq_go.Invariant.Fits.{shape, fits, scores, all_ids, is_job_id-IsJobId}
use bullmq_go.Invariant.Keeps.{Consistent}
use bullmq_go.Invariant.Replies.{zrangebyscore_reply}
use bullmq_go.Board.{Board, view, in_list, in_set, no_repeats, expire_first}
use bullmq_go.Board.Views.{view-same, as_zset-fits}
use bullmq_go.Board.Doing.{Does, same, Does-as}
use bullmq_go.Board.Commands.{
  Does-pipeline_nil, Does-pipeline_cons, Does-drop_completed, Does-drop_failed, Does-del_job,
  Does-del_lock, Does-del_logs,
}
use bullmq_go.Board.Managing.Deleting.{IsOf, clean_commands-value}
use bullmq_go.Board.Managing.Sweeping.{
  z_remove_each, z_remove_each-take, length-take-z_up_to, quota, limit_to-take, in_list-gone,
}

abbrev pub set_name : Bool → KeyName
set_name true = completed_name
set_name false = failed_name

abbrev pub job_type_of : Bool → Bytes
job_type_of true = codes "completed"
job_type_of false = codes "failed"

-- A limit of 0 or less asks for all.
abbrev pub asked : ℤ → ℕ
asked limit = if ltb_ℤ (pos 0) limit then pos_part limit else 0

abbrev pub set_of : Bool → Board → List (Bytes × ℤ)
set_of true b = b.completed
set_of false b = b.failed

abbrev pub with_set : Bool → List (Bytes × ℤ) → Board → Board
with_set true zs b = record b { completed = zs }
with_set false zs b = record b { failed = zs }

module _ {R : Server} (L : Laws R) (H : IsHealthy R) (kb : KeyBuilder) where
  Does-drop :
      (c : Bool) (id : Bytes)
      → Does R kb
          (λ b. with_set c (z_remove id (set_of c b)) b)
          (R.exec (zrem (key_of kb (set_name c)) id))
  Does-drop true id = Does-drop_completed L H kb id
  Does-drop false id = Does-drop_failed L H kb id

  with_set-again :
      (c : Bool) (x : Bytes) (xs : List Bytes) (b : Board)
      → with_set c
          (z_remove_each xs (set_of c (with_set c (z_remove x (set_of c b)) b)))
          (with_set c (z_remove x (set_of c b)) b)
        ≡ with_set c (z_remove_each (x ∷ xs) (set_of c b)) b
  unfolding z_remove_each
  with_set-again true x xs b = refl
  with_set-again false x xs b = refl

  with_set-none : (c : Bool) (b : Board) → b ≡ with_set c (z_remove_each [] (set_of c b)) b
  unfolding z_remove_each
  with_set-none true b = refl
  with_set-none false b = refl

  Does-clean_commands :
      (c : Bool) (gone : List Bytes)
      → all_ids gone ≡ true
      → Does R kb
          (λ b. with_set c (z_remove_each gone (set_of c b)) b)
          (pipeline R (clean_commands kb (key_of kb (set_name c)) gone))
  unfolding clean_commands all_ids
  Does-clean_commands c [] h = Does-as (Does-pipeline_nil kb) (with_set-none c)
  Does-clean_commands c (id ∷ rest) h =
      let i = is_job_id-IsJobId id (ground arith) in
      Does-as
        (Does-pipeline_cons kb _ _ _ _ (Does-drop c id) (
          Does-pipeline_cons kb same _ _ _ (Does-del_job L H kb id i) (
            Does-pipeline_cons kb same _ _ _ (Does-del_lock L H kb id i) (
              Does-pipeline_cons kb same _ _ _ (Does-del_logs L H kb id i)
                (Does-clean_commands c rest (ground arith))))))
        (with_set-again c id rest)

  module _ (c : Bool) (cutoff limit : ℤ) where
    abbrev read_old : Command
    read_old = zrangebyscore (key_of kb (set_name c)) cutoff (asked limit)

    read_old_keeps : (s : R.Store) (j : Bytes) → R.value (R.exec read_old s).1 j ≡ R.value s j
    unfolding effect
    read_old_keeps = read_keeps L read_old (λ v. refl)

    read_old_answer :
        (s : R.Store) (zs : List (Bytes × ℤ))
        → as_zset (R.value s (key_of kb (set_name c))) ≡ some zs
        → (R.exec read_old s).0 ≡ ok (take (quota (asked limit) zs) (z_up_to cutoff zs))
    unfolding outcome
    read_old_answer s zs e =
        H.answers read_old s ∙ rw (e, when) (ap ok (limit_to-take (asked limit) cutoff zs))

    clean_found :
        (t : R.Store) (gone : List Bytes)
        → all_ids gone ≡ true
        → Consistent R kb none t
        → let cleaned : Action R.Store ℕ = elim gone [
          | [] ↦ pure {A = ℕ} 0
          | x ∷ xs ↦
              pipeline R (clean_commands kb (key_of kb (set_name c)) (x ∷ xs))
              >> pure (length (x ∷ xs))
        ] in
          cleaned t
          ≡ (ok (length gone), (pipeline R (clean_commands kb (key_of kb (set_name c)) gone) t).1)
    unfolding pure pipeline clean_commands
    clean_found t [] h con = refl
    clean_found t (x ∷ xs) h con =
        let (u, done) = (Does-clean_commands c (x ∷ xs) h).succeeds t con in
        bind_of_ok (pipeline R (clean_commands kb (key_of kb (set_name c)) (x ∷ xs)))
          (λ _. pure (length (x ∷ xs))) t u done

    clean_key_run :
        (s : R.Store) (zs : List (Bytes × ℤ))
        → Consistent R kb none s
        → as_zset (R.value s (key_of kb (set_name c))) ≡ some zs
        → all_ids (take (quota (asked limit) zs) (z_up_to cutoff zs)) ≡ true
        → let gone = take (quota (asked limit) zs) (z_up_to cutoff zs) in
          clean_key R kb (key_of kb (set_name c)) cutoff limit s ≡ (
            ok (length gone),
            (pipeline R (clean_commands kb (key_of kb (set_name c)) gone) (R.exec read_old s).1).1,
          )
    unfolding clean_key
    clean_key_run s zs con e h =
        bind_of_ok (R.exec read_old) _ s _ (read_old_answer s zs e)
        ∙ clean_found (R.exec read_old s).1 (take (quota (asked limit) zs) (z_up_to cutoff zs)) h
            (record { at = λ n v. ap (fits (shape none n)) (read_old_keeps s _) ∙ con.at n v })

    set-IsValid : (d : Bool) → IsValid (set_name d)
    set-IsValid true = tt
    set-IsValid false = tt

    set_tag : (d : Bool) → ltb (tag (set_name d)) 8 ≡ true
    set_tag true = refl
    set_tag false = refl

    set_taken :
        (s : R.Store)
        → Consistent R kb none s
        → as_zset (R.value s (key_of kb (set_name c))) ≡ some (set_of c (view R kb s))
    set_taken s con = taken c
      where
        taken :
            (d : Bool)
            → as_zset (R.value s (key_of kb (set_name d))) ≡ some (set_of d (view R kb s))
        taken true = as_zset-fits none _ (con.at completed_name tt)
        taken false = as_zset-fits none _ (con.at failed_name tt)

    swept_ids :
        (s : R.Store)
        → Consistent R kb none s
        → let zs = set_of c (view R kb s) in
          all_ids (take (quota (asked limit) zs) (z_up_to cutoff zs)) ≡ true
    swept_ids s con =
        zrangebyscore_reply (key_of kb (set_name c)) cutoff (asked limit)
          (R.value s (key_of kb (set_name c))) _ none (set_fits c)
          (sym (H.answers read_old s) ∙ read_old_answer s _ (set_taken s con))
      where
        set_fits : (d : Bool) → fits (scores none) (R.value s (key_of kb (set_name d))) ≡ true
        set_fits true = con.at completed_name tt
        set_fits false = con.at failed_name tt

    -- Clean of one of the two sets, once its type is told.
    pub clean_key-sweeps :
        (s : R.Store) (id : Bytes) (m : KeyName)
        → IsJobId id
        → IsOf id m
        → Consistent R kb none s
        → no_repeats (names (set_of c (view R kb s))) ≡ true
        → let (r, s') = clean_key R kb (key_of kb (set_name c)) cutoff limit s in
          let b = view R kb s in
          let zs = set_of c b in
          let kept = expire_first (quota (asked limit) zs) cutoff zs in
          (r ≡ ok (length zs - length kept))
          × (view R kb s' ≡ with_set c kept b)
          × (R.value s' (key_of kb m)
              ≡ (if in_set id zs && not (in_set id kept) then absent else R.value s (key_of kb m)))
    clean_key-sweeps s id m i o con distinct =
        let zs = set_of c (view R kb s) in
        let gone = take (quota (asked limit) zs) (z_up_to cutoff zs) in
        let t = (R.exec read_old s).1 in
        let con' : Consistent R kb none t = record {
          at = λ n v. ap (fits (shape none n)) (read_old_keeps s _) ∙ con.at n v;
        } in
        let known = swept_ids s con in
        rw (clean_key_run s zs con (set_taken s con) known) (
          ap ok (omega (arith, length-take-z_up_to (quota (asked limit) zs) cutoff zs)),
          (Does-clean_commands c gone known).moves t con'
              ∙ ap (λ b. with_set c (z_remove_each gone (set_of c b)) b)
                  (view-same R kb s t (read_old_keeps s))
              ∙ ap (λ ys. with_set c ys (view R kb s))
                  (z_remove_each-take (quota (asked limit) zs) cutoff zs distinct),
          clean_commands-value L H kb id m (set_name c) gone t i o (set-IsValid c) (set_tag c) known
              ∙ ap (λ v. if in_list id gone then absent else v) (read_old_keeps s _)
              ∙ ap (λ d. if d then absent else R.value s (key_of kb m))
                  (in_list-gone id (quota (asked limit) zs) cutoff zs distinct),
        )
