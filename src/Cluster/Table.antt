-- ===== src/Cluster/Table.antt =====
-- The table of cluster.go against the polynomial that it stands for.
use Prim.Native.Nat.{bit_xor}
use bullmq_go.Prelude.{
  ℕ, zero, suc, ◌*◌, ◌%◌, ◌<◌, ◌≡◌, refl, ◌==◌, leb, Bool, true, ◌&&◌, arith, if◌then◌else◌, get_or,
  length, List, [], ◌∷◌, ◌+◌, ap, ◌∙◌,
}
use bullmq_go.Cluster.{crc16tab}

-- One step of the division by x^16 + x^12 + x^5 + 1, on 16 bits.
abbrev pub divide_step : ℕ → ℕ
divide_step r = if leb 0x8000 r then bit_xor (r * 2 % 65536) 0x1021 else r * 2

abbrev pub divide_steps : ℕ → ℕ → ℕ
divide_steps zero r = r
divide_steps (suc n) r = divide_steps n (divide_step r)

-- The remainder of a byte, by eight steps.
abbrev pub remainder_of : ℕ → ℕ
remainder_of b = divide_steps 8 (b * 256)

-- The entries are the values of a function from the index `i` on.
tabulates : (ℕ → ℕ) → ℕ → List ℕ → Bool
tabulates f i [] = true
tabulates f i (entry ∷ entries) = let rest = tabulates f (i + 1) entries in entry == f i && rest

get_or-of_tabulates :
    (f : ℕ → ℕ) (i : ℕ) (entries : List ℕ) (b : ℕ)
    → tabulates f i entries ≡ true
    → b < length entries
    → get_or entries b 0 ≡ f (i + b)
unfolding tabulates
get_or-of_tabulates f i [] b h lt = absurd (omega arith)
get_or-of_tabulates f i (entry ∷ entries) zero h lt = ground (arith, ap f)
get_or-of_tabulates f i (entry ∷ entries) (suc b) h lt =
    get_or-of_tabulates f (i + 1) entries b (ground arith) (omega arith) ∙ ap f (omega arith)

crc16tab_remainders : tabulates remainder_of 0 crc16tab ≡ true
unfolding tabulates crc16tab
crc16tab_remainders = refl

length-crc16tab : length crc16tab ≡ 256
unfolding crc16tab
length-crc16tab = refl

-- Every entry of the table is the remainder of its index, shifted by a byte, in the division by
-- the CCITT polynomial.
pub crc16tab_entries : (b : ℕ) → b < 256 → get_or crc16tab b 0 ≡ remainder_of b
crc16tab_entries b h =
    get_or-of_tabulates remainder_of 0 crc16tab b crc16tab_remainders
      (omega (arith, length-crc16tab))
    ∙ ap remainder_of (omega arith)
