-- ===== src/Board/Members.antt =====
-- Which jobs a place holds after it changes.
use bullmq_go.Prelude.{
  Bytes, bytes_eq_refl, ◌≡◌, refl, ap, ◌∙◌, true, false, ◌||◌, List, [], ◌∷◌, ◌++◌, arith,
}
use bullmq_go.Prelude.Int.{ℤ}
use mathlib.Core.List.{reverse, reverse-cons}
use bullmq_go.Redis.Values.{names, remove_all, z_remove, z_place}
use bullmq_go.Board.{in_list, in_set}

pub in_list-remove_all : (id : Bytes) (xs : List Bytes) → in_list id (remove_all id xs) ≡ false
unfolding in_list remove_all
in_list-remove_all id [] = refl
in_list-remove_all id (x ∷ xs) = ground (arith, in_list-remove_all id xs)

pub in_set-z_remove : (id : Bytes) (zs : List (Bytes × ℤ)) → in_set id (z_remove id zs) ≡ false
unfolding in_set z_remove
in_set-z_remove id [] = refl
in_set-z_remove id (z ∷ zs) = ground (arith, in_set-z_remove id zs)

pub in_set-z_place :
    (id : Bytes) (sc : ℤ) (zs : List (Bytes × ℤ)) → in_set id (z_place (id, sc) zs) ≡ true
unfolding in_set z_place
in_set-z_place id sc [] = rw (bytes_eq_refl id) refl
in_set-z_place id sc (z ∷ zs) = ground (arith, in_set-z_place id sc zs, bytes_eq_refl id)

pub in_list_head : (id : Bytes) (xs : List Bytes) → in_list id (id ∷ xs) ≡ true
unfolding in_list
in_list_head id xs = rw (bytes_eq_refl id) refl

pub in_list-append :
    (y : Bytes) (xs ys : List Bytes) → in_list y (xs ++ ys) ≡ (in_list y xs || in_list y ys)
unfolding in_list
in_list-append y [] ys = refl
in_list-append y (x ∷ xs) ys = ground (arith, in_list-append y xs ys)

pub in_list-reverse : (y : Bytes) (xs : List Bytes) → in_list y (reverse xs) ≡ in_list y xs
unfolding in_list
in_list-reverse y [] = refl
in_list-reverse y (x ∷ xs) =
    ap (in_list y) (reverse-cons x xs)
    ∙ in_list-append y (reverse xs) (x ∷ [])
    ∙ ground (arith, in_list-reverse y xs)

pub in_list-names : (y : Bytes) (zs : List (Bytes × ℤ)) → in_list y (names zs) ≡ in_set y zs
unfolding in_list in_set
in_list-names y [] = refl
in_list-names y (z ∷ zs) = ground (arith, in_list-names y zs)
