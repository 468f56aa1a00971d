-- ===== src/Prelude/Hex.antt =====
-- encoding/hex, which worker ids and the digests of scripts are written in.
use bullmq_go.Prelude.{
  ℕ, ◌+◌, ◌-◌, ◌/◌, ◌%◌, ◌<◌, Bytes, AllBytes, ◌≡◌, refl, [], ◌∷◌, arith, if◌then◌else◌, ltb,
}

unfoldable hex_digit : ℕ → ℕ
hex_digit n = if ltb n 10 then b'0' + n else b'a' + n - 10

unfoldable pub encode_to_string : Bytes → Bytes
unfolding hex_digit
encode_to_string [] = []
encode_to_string (b ∷ bs) = hex_digit (b / 16) ∷ hex_digit (b % 16) ∷ encode_to_string bs

hex_digit-injective : (a b : ℕ) → a < 16 → b < 16 → hex_digit a ≡ hex_digit b → a ≡ b
unfolding hex_digit
hex_digit-injective a b p q e = ground arith

head_tail : (x y : ℕ) (xs ys : Bytes) → x ∷ xs ≡ y ∷ ys → (x ≡ y) × (xs ≡ ys)
head_tail x y xs ys e = (cc, cc)

pub encode_to_string-injective :
    (xs ys : Bytes)
    → AllBytes xs
    → AllBytes ys
    → encode_to_string xs ≡ encode_to_string ys
    → xs ≡ ys
unfolding encode_to_string
encode_to_string-injective [] [] p q e = refl
encode_to_string-injective [] (y ∷ ys) p q e = cc
encode_to_string-injective (x ∷ xs) [] p q e = cc
encode_to_string-injective (x ∷ xs) (y ∷ ys) (px, p) (qy, q) e =
    let (high, rest) = head_tail (hex_digit (x / 16)) (hex_digit (y / 16)) _ _ e in
    let (low, tails) = head_tail (hex_digit (x % 16)) (hex_digit (y % 16)) _ _ rest in
    let upper = hex_digit-injective (x / 16) (y / 16) (omega arith) (omega arith) high in
    let lower = hex_digit-injective (x % 16) (y % 16) (omega arith) (omega arith) low in
    let heads : x ≡ y = omega arith in cc (heads, encode_to_string-injective xs ys p q tails)
