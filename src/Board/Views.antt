-- ===== src/Board/Views.antt =====
-- How one command of a server that is up changes the board.
use bullmq_go.Prelude.{
  ℕ, Bytes, bytes_eq, ◌≡◌, refl, sym, ap, ◌∙◌, true, false, Bool-cases, inl, inr, ltb, ◌==◌, ==_iff,
  get_or, Option-cases, List, [], ◌∷◌, ◌++◌, Option, none, some, if◌then◌else◌, arith,
}
use bullmq_go.Prelude.Int.{ℤ}
use mathlib.Core.List.{reverse, reverse-append}
use bullmq_go.Redis.{Server, Laws}
use bullmq_go.Redis.Values.{
  Value, Command, key, absent, list, zset, hash, as_list, as_zset, as_hash, items, members, fields,
  of_items, of_members, pop_last,
}
use bullmq_go.Redis.Facts.{value_other}
use bullmq_go.Keys.{KeyBuilder}
use bullmq_go.Keys.Distinct.{
  KeyName, key_of, apart, tag, IsValid, meta_name, prioritized_name, wait_name, active_name,
  delayed_name, completed_name, failed_name, events_name, job_name, lock_name, logs_name,
}
use bullmq_go.Invariant.Fits.{fits, ids, scores, hashes}
use bullmq_go.Board.{board_of, values, view}

-- What the places hold when one of them changes.
abbrev pub update : KeyName → Value → (KeyName → Value) → KeyName → Value
update n v f m = if tag m == tag n then v else f m

-- The keys of the queue itself, by their tags.
abbrev by_tag : ℕ → KeyName
by_tag n =
    let queue_names =
      wait_name ∷ prioritized_name ∷ delayed_name ∷ active_name ∷ completed_name ∷ failed_name
      ∷ events_name ∷ [] in
    get_or queue_names n meta_name

by_tag-tag : (n : KeyName) → ltb (tag n) 8 ≡ true → by_tag (tag n) ≡ n
by_tag-tag (job_name id) h = cc
by_tag-tag (lock_name id) h = cc
by_tag-tag (logs_name id) h = cc
by_tag-tag wait_name h = refl
by_tag-tag n h = refl

pub board_of-cong :
    (f g : KeyName → Value)
    → ((n : KeyName) → IsValid n → ltb (tag n) 8 ≡ true → f n ≡ g n)
    → board_of f ≡ board_of g
board_of-cong f g h = cc (
  h meta_name tt refl,
  h prioritized_name tt refl,
  h wait_name tt refl,
  h active_name tt refl,
  h delayed_name tt refl,
  h completed_name tt refl,
  h failed_name tt refl,
)

module _ {R : Server} (L : Laws R) (kb : KeyBuilder) (c : Command) (s : R.Store) where
  -- A command on a key of the queue itself changes one place.
  pub view-exec :
      (n : KeyName)
      → IsValid n
      → ltb (tag n) 8 ≡ true
      → key c ≡ key_of kb n
      → view R kb (R.exec c s).1
        ≡ board_of (update n (R.value (R.exec c s).1 (key_of kb n)) (values R kb s))
  view-exec n v p e =
      board_of-cong (values R kb (R.exec c s).1)
        (update n (R.value (R.exec c s).1 (key_of kb n)) (values R kb s))
        λ m u q. elim (Bool-cases (tag m == tag n)) [
          | inl same ↦ rw same (
              ap (λ k. R.value (R.exec c s).1 (key_of kb k))
                (sym (by_tag-tag m q)
                  ∙ ap by_tag (ground (arith, ==_iff (tag m) (tag n)))
                  ∙ by_tag-tag n p))
          | inr other ↦ rw other (
              value_other L c s (key_of kb m)
                (ap (bytes_eq (key_of kb m)) e ∙ apart kb m n u v other))
        ]

  -- A command on a job's own key or on the events changes no place.
  pub view-aside :
      (n : KeyName)
      → IsValid n
      → ltb (tag n) 8 ≡ false
      → key c ≡ key_of kb n
      → view R kb (R.exec c s).1 ≡ view R kb s
  view-aside n v p e = board_of-cong _ _ λ m u q.
      value_other L c s (key_of kb m)
        (ap (bytes_eq (key_of kb m)) e ∙ apart kb m n u v (ground (arith, ==_iff (tag m) (tag n))))

pub view-same :
    (R : Server) (kb : KeyBuilder) (s s' : R.Store)
    → ((k : Bytes) → R.value s' k ≡ R.value s k)
    → view R kb s' ≡ view R kb s
view-same R kb s s' h = board_of-cong _ _ λ n v p. h (key_of kb n)

-- The values that fit their places.
pub as_list-fits : (v : Value) → fits ids v ≡ true → as_list v ≡ some (items v)
as_list-fits absent h = refl
as_list-fits (list xs) h = refl
as_list-fits v h = cc

pub as_zset-fits :
    (o : Option Bytes) (v : Value) → fits (scores o) v ≡ true → as_zset v ≡ some (members v)
as_zset-fits o absent h = refl
as_zset-fits o (zset zs) h = refl
as_zset-fits o v h = cc

pub as_hash-fits : (v : Value) → fits hashes v ≡ true → as_hash v ≡ some (fields v)
as_hash-fits absent h = refl
as_hash-fits (hash fs) h = refl
as_hash-fits v h = cc

pub items-of_items : (xs : List Bytes) → items (of_items xs) ≡ xs
items-of_items [] = refl
items-of_items (x ∷ xs) = refl

pub members-of_members : (zs : List (Bytes × ℤ)) → members (of_members zs) ≡ zs
members-of_members [] = refl
members-of_members (z ∷ zs) = refl

pop_last-none : (xs : List Bytes) → pop_last xs ≡ none → xs ≡ []
unfolding pop_last
pop_last-none [] h = refl
pop_last-none (x ∷ xs) h = elim (Option-cases (pop_last xs)) [
  | inl e ↦ ground arith
  | inr (p, e) ↦ ground arith
]

-- The end of a list is the head of the list turned round.
pop_last-append :
    (xs : List Bytes) (y : Bytes) (ys : List Bytes)
    → pop_last xs ≡ some (y, ys)
    → xs ≡ ys ++ (y ∷ [])
unfolding pop_last
pop_last-append [] y ys h = cc
pop_last-append (x ∷ xs) y ys h = elim (Option-cases (pop_last xs)) [
  | inl e ↦ ground (arith, pop_last-none xs e)
  | inr ((z, zs), e) ↦ ground (arith, pop_last-append xs z zs e)
]

pub pop_last-nil : (xs : List Bytes) → pop_last xs ≡ none → reverse xs ≡ []
pop_last-nil xs h = ap reverse (pop_last-none xs h)

pub reverse-pop_last :
    (xs : List Bytes) (y : Bytes) (ys : List Bytes)
    → pop_last xs ≡ some (y, ys)
    → reverse xs ≡ y ∷ reverse ys
reverse-pop_last xs y ys h = ap reverse (pop_last-append xs y ys h) ∙ reverse-append ys (y ∷ [])
