-- ===== src/Cluster/Xor.antt =====
-- The exclusive or of the binary digits of two numbers, on which CRC16 rests.
use Prim.Native.Nat.{bit_xor, digits, differ, bit_xor-bitwise}
use bullmq_go.Prelude.{ℕ, zero, suc, ◌+◌, ◌*◌, ◌/◌, ◌%◌, ◌≤◌, ◌<◌, ◌≡◌, refl, sym, ap, ◌∙◌, arith}

-- 2 to the power of k, and a number shifted to the left by k digits.
abbrev pub pow : ℕ → ℕ
pow zero = 1
pow (suc k) = pow k * 2

abbrev pub shift : ℕ → ℕ → ℕ
shift zero a = a
shift (suc k) a = shift k a * 2

differ-digits : (i j : ℕ) → i < 2 → j < 2 → differ i j ≡ (i + j) % 2
differ-digits zero j p q = omega arith
differ-digits (suc zero) zero p q = refl
differ-digits (suc zero) (suc zero) p q = refl
differ-digits (suc zero) (suc (suc j)) p q = absurd (omega arith)
differ-digits (suc (suc i)) j p q = absurd (omega arith)

abbrev xor_of : ℕ → ℕ → ℕ → ℕ
xor_of n a b = digits (λ d. d) differ n a b

-- Any count of digits to go will do that is no less than the first number.
xor_of-enough : (n m a b : ℕ) → a ≤ n → a ≤ m → xor_of n a b ≡ xor_of m a b
xor_of-enough zero zero a b p q = refl
xor_of-enough zero (suc m) zero b p q = refl
xor_of-enough zero (suc m) (suc a) b p q = absurd (omega arith)
xor_of-enough (suc n) zero zero b p q = refl
xor_of-enough (suc n) zero (suc a) b p q = absurd (omega arith)
xor_of-enough (suc n) (suc m) zero b p q = refl
xor_of-enough (suc n) (suc m) (suc a) b p q =
    omega (arith, xor_of-enough n m (suc a / 2) (b / 2) (omega arith) (omega arith))

pub zero-bit_xor : (b : ℕ) → bit_xor 0 b ≡ b
zero-bit_xor b = bit_xor-bitwise 0 b

-- The lowest digit, and the others.
bit_xor_step : (a b : ℕ) → bit_xor a b ≡ bit_xor (a / 2) (b / 2) * 2 + (a % 2 + b % 2) % 2
bit_xor_step zero b = omega (arith, zero-bit_xor b, zero-bit_xor (b / 2))
bit_xor_step (suc a) b = omega (
  arith,
  bit_xor-bitwise (suc a) b,
  bit_xor-bitwise (suc a / 2) (b / 2),
  xor_of-enough a (suc a / 2) (suc a / 2) (b / 2) (omega arith) (omega arith),
  differ-digits (suc a % 2) (b % 2) (omega arith) (omega arith),
)

half-bit_xor : (a b : ℕ) → bit_xor a b / 2 ≡ bit_xor (a / 2) (b / 2)
half-bit_xor a b = omega (arith, bit_xor_step a b)

-- Induction on the digits of a number.
by_halves_within :
    (P : ℕ → Type 0) → P 0 → ((a : ℕ) → P (suc a / 2) → P (suc a)) → (n a : ℕ) → a ≤ n → P a
by_halves_within P z s n zero h = z
by_halves_within P z s zero (suc a) h = absurd (omega arith)
by_halves_within P z s (suc n) (suc a) h = s a (by_halves_within P z s n (suc a / 2) (omega arith))

by_halves : (P : ℕ → Type 0) → P 0 → ((a : ℕ) → P (suc a / 2) → P (suc a)) → (a : ℕ) → P a
by_halves P z s a = by_halves_within P z s a a (omega arith)

pub bit_xor-zero : (a : ℕ) → bit_xor a 0 ≡ a
bit_xor-zero =
    by_halves (λ a. bit_xor a 0 ≡ a) refl (λ a h. omega (arith, bit_xor_step (suc a) 0, h))

pub bit_xor_comm : (a b : ℕ) → bit_xor a b ≡ bit_xor b a
bit_xor_comm =
    by_halves (λ a. (b : ℕ) → bit_xor a b ≡ bit_xor b a)
      (λ b. zero-bit_xor b ∙ sym (bit_xor-zero b))
      (λ a h b. omega (arith, bit_xor_step (suc a) b, bit_xor_step b (suc a), h (b / 2)))

pub bit_xor_assoc : (a b c : ℕ) → bit_xor (bit_xor a b) c ≡ bit_xor a (bit_xor b c)
bit_xor_assoc =
    by_halves (λ a. (b c : ℕ) → bit_xor (bit_xor a b) c ≡ bit_xor a (bit_xor b c))
      (λ b c. ap (λ x. bit_xor x c) (zero-bit_xor b) ∙ sym (zero-bit_xor (bit_xor b c)))
      (λ a h b c. omega (
        arith,
        bit_xor_step (bit_xor (suc a) b) c,
        bit_xor_step (suc a) (bit_xor b c),
        bit_xor_step (suc a) b,
        bit_xor_step b c,
        ap (λ x. bit_xor x (c / 2)) (half-bit_xor (suc a) b),
        ap (λ x. bit_xor (suc a / 2) x) (half-bit_xor b c),
        h (b / 2) (c / 2),
      ))

bit_xor-double : (a b : ℕ) → bit_xor (a * 2) (b * 2) ≡ bit_xor a b * 2
bit_xor-double a b =
    let left : a * 2 / 2 ≡ a = omega arith in
    let right : b * 2 / 2 ≡ b = omega arith in
    omega (
      arith,
      bit_xor_step (a * 2) (b * 2),
      ap (λ x. bit_xor x (b * 2 / 2)) left,
      ap (λ y. bit_xor a y) right,
    )

pub bit_xor-shift : (k a b : ℕ) → bit_xor (shift k a) (shift k b) ≡ shift k (bit_xor a b)
bit_xor-shift zero a b = refl
bit_xor-shift (suc k) a b =
    bit_xor-double (shift k a) (shift k b) ∙ ap (λ x. x * 2) (bit_xor-shift k a b)

pub bit_xor_bound : (k a b : ℕ) → a < pow k → b < pow k → bit_xor a b < pow k
bit_xor_bound zero a b p q =
    let none_left : a ≡ 0 = omega arith in
    omega (arith, ap (λ x. bit_xor x b) none_left, zero-bit_xor b)
bit_xor_bound (suc k) a b p q =
    omega (arith, bit_xor_step a b, bit_xor_bound k (a / 2) (b / 2) (omega arith) (omega arith))

-- A digit above those of both numbers stays.
pub bit_xor_top : (k a b : ℕ) → a < pow k → b < pow k → bit_xor (pow k + a) b ≡ pow k + bit_xor a b
bit_xor_top zero a b p q =
    let no_a : a ≡ 0 = omega arith in let no_b : b ≡ 0 = omega arith in rw (no_a, no_b) refl
bit_xor_top (suc k) a b p q =
    let upper : (pow k * 2 + a) / 2 ≡ pow k + a / 2 = omega arith in
    omega (
      arith,
      bit_xor_step (pow k * 2 + a) b,
      bit_xor_step a b,
      ap (λ x. bit_xor x (b / 2)) upper,
      bit_xor_top k (a / 2) (b / 2) (omega arith) (omega arith),
    )

-- Numbers that share no digit are added.
pub bit_xor_apart : (k a b : ℕ) → b < pow k → bit_xor (shift k a) b ≡ shift k a + b
bit_xor_apart zero a b p = let no_b : b ≡ 0 = omega arith in rw no_b (bit_xor-zero a ∙ omega arith)
bit_xor_apart (suc k) a b p =
    let upper : shift k a * 2 / 2 ≡ shift k a = omega arith in
    omega (
      arith,
      bit_xor_step (shift k a * 2) b,
      ap (λ x. bit_xor x (b / 2)) upper,
      bit_xor_apart k a (b / 2) (omega arith),
    )
