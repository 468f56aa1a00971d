-- ===== src/Cluster/Division.antt =====
-- CRC16 of cluster.go, which works by a table, against the division one bit at a time.
use Prim.Native.Nat.{bit_and, bit_xor}
use bullmq_go.Prelude.{
  ℕ, zero, suc, ◌+◌, ◌-◌, ◌*◌, ◌/◌, ◌%◌, ◌≤◌, ◌<◌, ◌≡◌, refl, sym, ap, ◌∙◌, arith, leb, Bytes,
  AllBytes, [], ◌∷◌, ◌==◌, ◌&&◌, Bool, Bool-cases, subst, inl, inr, get_or, true, false,
}
use bullmq_go.Cluster.{crc16tab, crc16_round, crc16_from, calculate_crc16}
use bullmq_go.Cluster.Table.{divide_step, divide_steps, remainder_of, crc16tab_entries}
use bullmq_go.Cluster.Xor.{
  bit_xor_comm, bit_xor_assoc, bit_xor-shift, bit_xor_bound, bit_xor_top, bit_xor_apart, shift,
}

-- The CRC16 of a text without a table: a byte is added at the top, then divided for eight steps.
unfoldable pub crc16_bitwise : ℕ → Bytes → ℕ
crc16_bitwise r [] = r
crc16_bitwise r (b ∷ bytes) = crc16_bitwise (divide_steps 8 (bit_xor r (b * 256))) bytes

divide_step_low : (r : ℕ) → r < 32768 → divide_step r ≡ r * 2
divide_step_low r p = let low : leb 32768 r ≡ false = ground arith in rw low refl

divide_step_high : (r : ℕ) → r < 32768 → divide_step (32768 + r) ≡ bit_xor (r * 2) 0x1021
divide_step_high r p =
    let high : leb 32768 (32768 + r) ≡ true = ground arith in
    let dropped : (32768 + r) * 2 % 65536 ≡ r * 2 = omega arith in
    rw high (ap (λ x. bit_xor x 0x1021) dropped)

-- Below the highest digit, or with it.
by_top :
    (P : ℕ → Type 0)
    → ((r : ℕ) → r < 32768 → P r)
    → ((r : ℕ) → r < 32768 → P (32768 + r))
    → (r : ℕ) → r < 65536
    → P r
by_top P low high r p =
    let below : leb 32768 r ≡ true → 32768 + (r - 32768) ≡ r = λ e. ground arith in
    elim (Bool-cases (leb 32768 r)) [
      | inl e ↦ subst P (below e) (high (r - 32768) (ground arith))
      | inr e ↦ low r (ground arith)
    ]

divide_step_bound : (r : ℕ) → r < 65536 → divide_step r < 65536
divide_step_bound =
    by_top (λ r. divide_step r < 65536) (λ r p. omega (arith, divide_step_low r p))
      (λ r p.
        let small : bit_xor (r * 2) 0x1021 < 65536 =
          bit_xor_bound 16 (r * 2) 0x1021 (omega arith) (omega arith) in
        omega (arith, divide_step_high r p, small))

swap_last : (a b c : ℕ) → bit_xor (bit_xor a b) c ≡ bit_xor (bit_xor a c) b
swap_last a b c =
    bit_xor_assoc a b c ∙ ap (bit_xor a) (bit_xor_comm b c) ∙ sym (bit_xor_assoc a c b)

-- What lies below the highest digit is only shifted.
divide_step-bit_xor :
    (s : ℕ)
    → s < 32768
    → (r : ℕ) → r < 65536
    → divide_step (bit_xor r s) ≡ bit_xor (divide_step r) (s * 2)
divide_step-bit_xor s q =
    by_top (λ r. divide_step (bit_xor r s) ≡ bit_xor (divide_step r) (s * 2))
      (λ r p.
        divide_step_low (bit_xor r s) (bit_xor_bound 15 r s p q)
        ∙ sym (bit_xor-shift 1 r s)
        ∙ ap (λ x. bit_xor x (s * 2)) (sym (divide_step_low r p)))
      (λ r p.
        ap divide_step (bit_xor_top 15 r s p q)
        ∙ divide_step_high (bit_xor r s) (bit_xor_bound 15 r s p q)
        ∙ ap (λ x. bit_xor x 0x1021) (sym (bit_xor-shift 1 r s))
        ∙ swap_last (r * 2) (s * 2) 0x1021
        ∙ ap (λ x. bit_xor x (s * 2)) (sym (divide_step_high r p)))

abbrev doubled : ℕ → ℕ → ℕ
doubled zero s = s
doubled (suc n) s = doubled n (s * 2)

doubled-grows : (n s : ℕ) → s ≤ doubled n s
doubled-grows zero s = omega arith
doubled-grows (suc n) s = omega (arith, doubled-grows n (s * 2))

divide_steps-doubled :
    (n s r : ℕ)
    → r < 65536
    → doubled n s < 65536
    → divide_steps n (bit_xor r s) ≡ bit_xor (divide_steps n r) (doubled n s)
divide_steps-doubled zero s r p q = refl
divide_steps-doubled (suc n) s r p q =
    ap (divide_steps n) (divide_step-bit_xor s (omega (arith, doubled-grows n (s * 2))) r p)
    ∙ divide_steps-doubled n (s * 2) (divide_step r) (divide_step_bound r p) q

-- Eight steps: the low byte comes to the top.
divide_steps-bit_xor :
    (r s : ℕ)
    → r < 65536
    → s < 256
    → divide_steps 8 (bit_xor r s) ≡ bit_xor (divide_steps 8 r) (s * 256)
divide_steps-bit_xor r s p q =
    divide_steps-doubled 8 s r p (omega arith) ∙ ap (bit_xor (divide_steps 8 r)) (omega arith)

masked_below : ℕ → Bool
masked_below zero = true
masked_below (suc n) = let rest = masked_below n in bit_and n 0x00FF == n && rest

bit_and-masked : (n x : ℕ) → masked_below n ≡ true → x < n → bit_and x 0x00FF ≡ x
unfolding masked_below
bit_and-masked zero x h p = absurd (omega arith)
bit_and-masked (suc n) x h p = ground (arith, bit_and-masked n x)

bytes_masked : masked_below 256 ≡ true
unfolding masked_below
bytes_masked = refl

bit_and-byte : (x : ℕ) → x < 256 → bit_and x 0x00FF ≡ x
bit_and-byte x p = bit_and-masked 256 x bytes_masked p

shift_eight : (a : ℕ) → shift 8 a ≡ a * 256
shift_eight a = omega arith

bytes-bit_xor : (a b : ℕ) → bit_xor (a * 256) (b * 256) ≡ bit_xor a b * 256
bytes-bit_xor a b =
    rw (sym (shift_eight a), sym (shift_eight b)) (bit_xor-shift 8 a b) ∙ shift_eight (bit_xor a b)

-- A byte that is added at the top leaves the low byte below.
added_at_top :
    (crc b : ℕ) → bit_xor crc (b * 256) ≡ bit_xor (bit_xor (crc / 256) b * 256) (crc % 256)
added_at_top crc b =
    let hi = crc / 256 in
    let lo = crc % 256 in
    let parts : crc ≡ bit_xor (hi * 256) lo = sym (
      ap (λ x. bit_xor x lo) (sym (shift_eight hi))
      ∙ bit_xor_apart 8 hi lo (omega arith)
      ∙ omega arith) in
    ap (λ x. bit_xor x (b * 256)) parts
    ∙ swap_last (hi * 256) lo (b * 256)
    ∙ ap (λ x. bit_xor x lo) (bytes-bit_xor hi b)

-- The table's round is eight steps of the division.
crc16_round_divides :
    (crc b : ℕ) → crc < 65536 → b < 256 → crc16_round crc b ≡ divide_steps 8 (bit_xor crc (b * 256))
unfolding crc16_round
crc16_round_divides crc b p q =
    let x = bit_xor (crc / 256) b in
    let small : x < 256 = bit_xor_bound 8 (crc / 256) b (omega arith) q in
    let low_byte : crc * 256 % 65536 ≡ crc % 256 * 256 = omega arith in
    ap (bit_xor (crc * 256 % 65536))
      (ap (λ i. get_or crc16tab i 0) (bit_and-byte x small) ∙ crc16tab_entries x small)
    ∙ bit_xor_comm (crc * 256 % 65536) (remainder_of x)
    ∙ ap (bit_xor (remainder_of x)) low_byte
    ∙ sym (divide_steps-bit_xor (x * 256) (crc % 256) (omega arith) (omega arith))
    ∙ ap (divide_steps 8) (sym (added_at_top crc b))

divide_steps_bound : (n r : ℕ) → r < 65536 → divide_steps n r < 65536
divide_steps_bound zero r p = p
divide_steps_bound (suc n) r p = divide_steps_bound n (divide_step r) (divide_step_bound r p)

crc16_round_bound : (crc b : ℕ) → crc < 65536 → b < 256 → crc16_round crc b < 65536
crc16_round_bound crc b p q =
    subst (λ r. r < 65536) (sym (crc16_round_divides crc b p q))
      (divide_steps_bound 8 (bit_xor crc (b * 256))
        (bit_xor_bound 16 crc (b * 256) p (omega arith)))

crc16_from-divides :
    (crc : ℕ) (bytes : Bytes)
    → crc < 65536
    → AllBytes bytes
    → crc16_from crc bytes ≡ crc16_bitwise crc bytes
unfolding crc16_from crc16_bitwise
crc16_from-divides crc [] p q = refl
crc16_from-divides crc (b ∷ bytes) p (byte, q) =
    crc16_from-divides (crc16_round crc b) bytes (crc16_round_bound crc b p byte) q
    ∙ ap (λ r. crc16_bitwise r bytes) (crc16_round_divides crc b p byte)

-- CalculateCRC16 of any bytes is the remainder of the division by the CCITT polynomial x^16 + x^12
-- + x^5 + 1, taken one bit at a time from 0, each byte added at the top.
pub calculate_crc16-crc16_bitwise :
    (bytes : Bytes) → AllBytes bytes → calculate_crc16 bytes ≡ crc16_bitwise 0 bytes
unfolding calculate_crc16
calculate_crc16-crc16_bitwise bytes q = crc16_from-divides 0 bytes (omega arith) q
