-- ===== src/Board/Managing/Merging.antt =====
-- The job ids that Drain collects in a Go map, each once.
use bullmq_go.Prelude.{
  Bytes, eq_of_bytes_eq, ◌≡◌, refl, true, ◌||◌, List, [], ◌∷◌, ◌++◌, append_assoc, arith,
  if◌then◌else◌, Bool-cases, inl, inr,
}
use bullmq_go.Queue.Manage.{add_ids, has_id}
use bullmq_go.Invariant.Fits.{all_ids}
use bullmq_go.Board.{in_list, no_repeats}

has_id-in_list : (x : Bytes) (ys : List Bytes) → has_id x ys ≡ in_list x ys
unfolding has_id in_list
has_id-in_list x [] = refl
has_id-in_list x (y ∷ ys) = ground (arith, has_id-in_list x ys)

pub in_list-add_ids :
    (y : Bytes) (set xs : List Bytes) → in_list y (add_ids set xs) ≡ (in_list y set || in_list y xs)
unfolding in_list add_ids
in_list-add_ids y set [] = ground arith
in_list-add_ids y set (x ∷ xs) = elim (Bool-cases (has_id x set)) [
  | inl old ↦
      rw old (ground (arith, in_list-add_ids y set xs, has_id-in_list x set, eq_of_bytes_eq x y))
  | inr new ↦ rw new (ground (arith, in_list-add_ids y (x ∷ set) xs))
]

pub no_repeats-add_ids :
    (set xs : List Bytes) → no_repeats set ≡ true → no_repeats (add_ids set xs) ≡ true
unfolding no_repeats add_ids
no_repeats-add_ids set [] h = h
no_repeats-add_ids set (x ∷ xs) h = elim (Bool-cases (has_id x set)) [
  | inl old ↦ rw old (no_repeats-add_ids set xs h)
  | inr new ↦ rw new (no_repeats-add_ids (x ∷ set) xs (ground (arith, has_id-in_list x set)))
]

add_ids-add_ids : (set xs ys : List Bytes) → add_ids (add_ids set xs) ys ≡ add_ids set (xs ++ ys)
unfolding add_ids
add_ids-add_ids set [] ys = refl
add_ids-add_ids set (x ∷ xs) ys = add_ids-add_ids (if has_id x set then set else x ∷ set) xs ys

pub add_ids_six :
    (a b c d e f : List Bytes)
    → add_ids (add_ids (add_ids (add_ids (add_ids (add_ids [] a) b) c) d) e) f
      ≡ add_ids [] (a ++ (b ++ (c ++ (d ++ (e ++ f)))))
add_ids_six a b c d e f = simp (add_ids-add_ids, append_assoc)

pub all_ids-append :
    (xs ys : List Bytes) → all_ids xs ≡ true → all_ids ys ≡ true → all_ids (xs ++ ys) ≡ true
unfolding all_ids
all_ids-append [] ys h k = k
all_ids-append (x ∷ xs) ys h k = ground (arith, all_ids-append xs ys)
