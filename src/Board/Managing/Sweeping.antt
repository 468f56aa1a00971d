-- ===== src/Board/Managing/Sweeping.antt =====
-- Which members of a set Clean takes out, on the lists of members.
use bullmq_go.Prelude.{
  ℕ, ◌&&◌, not, zero, suc, ◌-◌, ◌+◌, ◌==◌, Bytes, bytes_eq_refl, eq_of_bytes_eq, ◌≡◌, refl, ap, sym,
  ◌≤◌, true, false, List, [], ◌∷◌, arith, if◌then◌else◌, Bool-cases, inl, inr, length, take,
}
use bullmq_go.Prelude.Int.{ℤ, leb_ℤ}
use bullmq_go.Redis.Values.{z_remove, z_up_to, names, limit_to}
use bullmq_go.Board.{in_list, in_set, no_repeats, expire_first}
use bullmq_go.Board.Members.{in_list-names}

-- The members that the commands of Clean remove, one after the other.
unfoldable pub z_remove_each : List Bytes → List (Bytes × ℤ) → List (Bytes × ℤ)
z_remove_each [] zs = zs
z_remove_each (x ∷ xs) zs = z_remove_each xs (z_remove x zs)

z_remove_absent :
    (x : Bytes) (zs : List (Bytes × ℤ)) → in_list x (names zs) ≡ false → z_remove x zs ≡ zs
unfolding z_remove in_list
z_remove_absent x [] h = refl
z_remove_absent x (z ∷ zs) h = ground (arith, z_remove_absent x zs)

-- A member that is not removed stays at the head.
z_remove_each-cons :
    (z : Bytes × ℤ) (xs : List Bytes) (zs : List (Bytes × ℤ))
    → in_list z.0 xs ≡ false
    → z_remove_each xs (z ∷ zs) ≡ z ∷ z_remove_each xs zs
unfolding z_remove_each z_remove in_list
z_remove_each-cons z [] zs h = refl
z_remove_each-cons z (x ∷ xs) zs h =
    ground (arith, z_remove_each-cons z xs (z_remove x zs), eq_of_bytes_eq z.0 x, bytes_eq_refl x)

in_list-take :
    (x : Bytes) (n : ℕ) (xs : List Bytes) → in_list x xs ≡ false → in_list x (take n xs) ≡ false
unfolding in_list
in_list-take x zero xs h = refl
in_list-take x (suc n) [] h = refl
in_list-take x (suc n) (y ∷ xs) h = ground (arith, in_list-take x n xs)

in_list-z_up_to :
    (x : Bytes) (bound : ℤ) (zs : List (Bytes × ℤ))
    → in_list x (names zs) ≡ false
    → in_list x (z_up_to bound zs) ≡ false
unfolding in_list z_up_to
in_list-z_up_to x bound [] h = refl
in_list-z_up_to x bound (z ∷ zs) h = ground (arith, in_list-z_up_to x bound zs)

-- Where no member is twice, as many as are asked for of those not above the bound are removed.
pub z_remove_each-take :
    (n : ℕ) (bound : ℤ) (zs : List (Bytes × ℤ))
    → no_repeats (names zs) ≡ true
    → z_remove_each (take n (z_up_to bound zs)) zs ≡ expire_first n bound zs
unfolding z_up_to expire_first no_repeats z_remove_each z_remove
z_remove_each-take zero bound [] h = refl
z_remove_each-take (suc n) bound [] h = refl
z_remove_each-take zero bound (z ∷ zs) h = refl
z_remove_each-take (suc n) bound (z ∷ zs) h = elim (Bool-cases (leb_ℤ z.1 bound)) [
  | inl old ↦
      ground (arith, bytes_eq_refl z.0, z_remove_absent z.0 zs, z_remove_each-take n bound zs)
  | inr young ↦ ground (
    arith,
    z_remove_each-cons z (take (suc n) (z_up_to bound zs)) zs,
    in_list-take z.0 (suc n) (z_up_to bound zs),
    in_list-z_up_to z.0 bound zs,
    z_remove_each-take (suc n) bound zs,
  )
]

pub length-take-z_up_to :
    (n : ℕ) (bound : ℤ) (zs : List (Bytes × ℤ))
    → length (take n (z_up_to bound zs)) + length (expire_first n bound zs) ≡ length zs
unfolding z_up_to expire_first
length-take-z_up_to zero bound [] = refl
length-take-z_up_to (suc n) bound [] = refl
length-take-z_up_to zero bound (z ∷ zs) = omega arith
length-take-z_up_to (suc n) bound (z ∷ zs) =
    ground (arith, length-take-z_up_to n bound zs, length-take-z_up_to (suc n) bound zs)

take_enough : (n : ℕ) (xs : List Bytes) → length xs ≤ n → take n xs ≡ xs
take_enough zero [] h = refl
take_enough (suc n) [] h = refl
take_enough zero (x ∷ xs) h = absurd (omega arith)
take_enough (suc n) (x ∷ xs) h = ap (◌∷◌ x) (take_enough n xs (omega arith))

length-z_up_to : (bound : ℤ) (zs : List (Bytes × ℤ)) → length (z_up_to bound zs) ≤ length zs
unfolding z_up_to
length-z_up_to bound [] = omega arith
length-z_up_to bound (z ∷ zs) = ground (arith, length-z_up_to bound zs)

-- The count 0 asks for all.
abbrev pub quota : ℕ → List (Bytes × ℤ) → ℕ
quota n zs = if n == 0 then length zs else n

pub limit_to-take :
    (n : ℕ) (bound : ℤ) (zs : List (Bytes × ℤ))
    → limit_to n (z_up_to bound zs) ≡ take (quota n zs) (z_up_to bound zs)
limit_to-take n bound zs = elim (Bool-cases (n == 0)) [
  | inl all ↦ rw all (sym (take_enough (length zs) (z_up_to bound zs) (length-z_up_to bound zs)))
  | inr some_only ↦ rw some_only refl
]

in_set-expire_first :
    (x : Bytes) (n : ℕ) (bound : ℤ) (zs : List (Bytes × ℤ))
    → in_set x zs ≡ false
    → in_set x (expire_first n bound zs) ≡ false
unfolding in_set expire_first
in_set-expire_first x n bound [] h = refl
in_set-expire_first x n bound (z ∷ zs) h =
    ground (arith, in_set-expire_first x n bound zs, in_set-expire_first x (n - 1) bound zs)

-- The ids that are removed are those that were in the set and are not any more.
pub in_list-gone :
    (x : Bytes) (n : ℕ) (bound : ℤ) (zs : List (Bytes × ℤ))
    → no_repeats (names zs) ≡ true
    → in_list x (take n (z_up_to bound zs))
      ≡ (in_set x zs && not (in_set x (expire_first n bound zs)))
unfolding in_set in_list z_up_to expire_first no_repeats
in_list-gone x zero bound [] h = refl
in_list-gone x (suc n) bound [] h = refl
in_list-gone x zero bound (z ∷ zs) h = ground arith
in_list-gone x (suc n) bound (z ∷ zs) h = elim (Bool-cases (leb_ℤ z.1 bound)) [
  | inl old ↦ ground (
    arith,
    in_list-gone x n bound zs,
    in_set-expire_first x n bound zs,
    in_list-names x zs,
    eq_of_bytes_eq z.0 x,
  )
  | inr young ↦ ground (
    arith,
    in_list-gone x (suc n) bound zs,
    in_list-take x (suc n) (z_up_to bound zs),
    in_list-z_up_to x bound zs,
    in_list-names x zs,
    eq_of_bytes_eq z.0 x,
  )
]
