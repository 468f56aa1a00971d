-- ===== src/Board.antt =====
-- What a queue promises, without Redis: where each job is and in which order jobs are taken. The
-- wait list of pkg/bullmq is read from its end, so the board has it the other way round.
pub mod Views
pub mod Members
pub mod Popping
pub mod Picking
pub mod Serving
pub mod Sharing
pub mod Losing
pub mod Doing
pub mod Ending
pub mod Running
pub mod Submitting
pub mod Delivery
pub mod Commands
pub mod Managing
use bullmq_go.Prelude.{
  ℕ, Bytes, codes, bytes_eq, Bool, true, false, ◌≡◌, List, [], ◌∷◌, ◌++◌, Option, none, some,
  if◌then◌else◌, ◌-◌, ◌==◌, ◌||◌,
}
use bullmq_go.Prelude.Int.{ℤ, pos, ◌+ℤ◌, ◌-ℤ◌, ltb_ℤ, leb_ℤ}
use bullmq_go.Jobs.{Job}
use mathlib.Core.List.{reverse}
use bullmq_go.Redis.{Server}
use bullmq_go.Redis.Values.{
  Value, items, members, fields, h_get, z_place, z_remove, remove_count, remove_all,
}
use bullmq_go.Keys.{KeyBuilder}
use bullmq_go.Keys.Distinct.{
  KeyName, key_of, meta_name, prioritized_name, wait_name, active_name, delayed_name,
  completed_name, failed_name,
}

-- `waiting` has the oldest job first, `active` the newest.
pub record Board : Type 0 where
  pub is_paused : Bool
  pub prioritized : List (Bytes × ℤ)
  pub waiting : List Bytes
  pub active : List Bytes
  pub delayed : List (Bytes × ℤ)
  pub completed : List (Bytes × ℤ)
  pub failed : List (Bytes × ℤ)

pub Board-eq :
    (a b : Board)
    → a.is_paused ≡ b.is_paused
    → a.prioritized ≡ b.prioritized
    → a.waiting ≡ b.waiting
    → a.active ≡ b.active
    → a.delayed ≡ b.delayed
    → a.completed ≡ b.completed
    → a.failed ≡ b.failed
    → a ≡ b
Board-eq a b p q r s t u v = cc

abbrev pub is_one : Option Bytes → Bool
is_one none = false
is_one (some text) = bytes_eq text (codes "1")

-- The board that the values of the queue's keys make.
abbrev pub board_of : (KeyName → Value) → Board
board_of v = record {
  is_paused = is_one (h_get (codes "paused") (fields (v meta_name)));
  prioritized = members (v prioritized_name);
  waiting = reverse (items (v wait_name));
  active = items (v active_name);
  delayed = members (v delayed_name);
  completed = members (v completed_name);
  failed = members (v failed_name);
}

abbrev pub values : (R : Server) → KeyBuilder → R.Store → KeyName → Value
values R kb s n = R.value s (key_of kb n)

abbrev pub view : (R : Server) → KeyBuilder → R.Store → Board
view R kb s = board_of (values R kb s)

-- What a worker gets when it asks for a job.
pub data Picked : Type 0 where
  refused nothing : Picked
  took : Bytes → Picked

-- The first job by priority, else the oldest that waits.
unfoldable pub pick : Board → Picked × Board
pick b = if b.is_paused then (refused, b) else elim b.prioritized [
  | (id, sc) ∷ zs ↦ (took id, record b { prioritized = zs; active = id ∷ b.active })
  | [] ↦ elim b.waiting [
    | [] ↦ (nothing, b)
    | id ∷ ids ↦ (took id, record b { waiting = ids; active = id ∷ b.active })
  ]
]

-- One occurrence of a job leaves the active list, and the job enters another place at a time.
abbrev pub leave : Bytes → Board → Board
leave id b = record b { active = remove_count 1 id b.active }

unfoldable pub finish : Bytes → ℤ → Board → Board
finish id at b = record (leave id b) { completed = z_place (id, at) (z_remove id b.completed) }

unfoldable pub give_up : Bytes → ℤ → Board → Board
give_up id at b = record (leave id b) { failed = z_place (id, at) (z_remove id b.failed) }

unfoldable pub postpone : Bytes → ℤ → Board → Board
postpone id due b = record (leave id b) { delayed = z_place (id, due) (z_remove id b.delayed) }

-- A job that ran well is kept with the time of its end, or leaves the board.
unfoldable pub end_well : Bool → Bytes → ℤ → Board → Board
unfolding finish
end_well is_removed id at b = if is_removed then leave id b else finish id at b

-- A job that failed is done with, and kept or not, or it is due again later.
unfoldable pub end_badly : Bool → Bool → Bytes → ℤ → ℤ → Board → Board
unfolding give_up postpone
end_badly is_last is_removed id at due b =
    if is_last then if is_removed then leave id b else give_up id at b else postpone id due b

-- A new job is due later, or has a priority, or waits behind all others.
unfoldable pub submit : {A : Type 0} → Job A → Board → Board
submit job b =
    if ltb_ℤ (pos 0) job.delay
    then record b {
      delayed = z_place (job.id, job.timestamp +ℤ job.delay) (z_remove job.id b.delayed);
    }
    else if ltb_ℤ (pos 0) job.opts.priority
    then record b {
      prioritized = z_place (job.id, pos 0 -ℤ job.opts.priority) (z_remove job.id b.prioritized);
    }
    else record b { waiting = b.waiting ++ (job.id ∷ []) }

-- A job leaves all its places.
unfoldable pub discard : Bytes → Board → Board
discard id b = record b {
  prioritized = z_remove id b.prioritized;
  waiting = remove_all id b.waiting;
  active = remove_all id b.active;
  delayed = z_remove id b.delayed;
  completed = z_remove id b.completed;
  failed = z_remove id b.failed;
}

-- No job is left; the queue is paused or not as before.
unfoldable pub emptied : Board → Board
emptied b = record {
  is_paused = b.is_paused;
  prioritized = [];
  waiting = [];
  active = [];
  delayed = [];
  completed = [];
  failed = [];
}

-- A failed job waits again, behind all others.
unfoldable pub again : Bytes → Board → Board
again id b = record b { failed = z_remove id b.failed; waiting = b.waiting ++ (id ∷ []) }

-- The first members of a set that are not above a bound, as many as are asked for, leave it.
unfoldable pub expire_first : ℕ → ℤ → List (Bytes × ℤ) → List (Bytes × ℤ)
expire_first n bound [] = []
expire_first n bound (z ∷ zs) =
    let gone = expire_first (n - 1) bound zs in
    let kept = z ∷ expire_first n bound zs in
    if n == 0 then z ∷ zs else if leb_ℤ z.1 bound then gone else kept

-- Whether a job is in some place.
unfoldable pub in_list : Bytes → List Bytes → Bool
in_list id [] = false
in_list id (x ∷ xs) = let rest = in_list id xs in if bytes_eq x id then true else rest

unfoldable pub in_set : Bytes → List (Bytes × ℤ) → Bool
in_set id [] = false
in_set id (z ∷ zs) = let rest = in_set id zs in if bytes_eq z.0 id then true else rest

abbrev pub is_on : Bytes → Board → Bool
is_on id b =
    in_list id b.waiting
    || (in_set id b.prioritized
        || (in_set id b.delayed
            || (in_list id b.active || (in_set id b.completed || in_set id b.failed))))

-- No member twice.
unfoldable pub no_repeats : List Bytes → Bool
unfolding in_list
no_repeats [] = true
no_repeats (x ∷ xs) = let rest = no_repeats xs in if in_list x xs then false else rest
