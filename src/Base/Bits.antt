-- ===== src/Base/Bits.antt =====
-- `|` and `^` on bytes: what a pair of bytes gives is read off the table of all pairs.
use Prim.Native.Nat.{bit_or, bit_xor}
use native.Mathlib.Nat.{eq-or-lt_of_le}
use open_crate.Base.{
  ℕ, zero, suc, ◌<◌, ◌≤◌, ◌≡◌, refl, Bool, true, false, ◌&&◌, ◌||◌, not, arith, ltb, ◌==◌,
  if◌then◌else◌, inl, inr,
}

-- The test holds at `k` and at all numbers below.
down_from : (ℕ → Bool) → ℕ → Bool
down_from test zero = test zero
down_from test (suc k) = if test (suc k) then down_from test k else false

read_off : (test : ℕ → Bool) (k b : ℕ) → down_from test k ≡ true → b ≤ k → test b ≡ true
unfolding down_from
read_off test zero zero table h = table
read_off test zero (suc b) table h = absurd (omega arith)
read_off test (suc k) b table h = elim (eq-or-lt_of_le h) [
  | inl e ↦ rw e (ground arith)
  | inr lt ↦ read_off test k b (ground arith) (omega arith)
]

-- A test of all pairs of bytes.
abbrev on_pairs : (ℕ → ℕ → Bool) → Bool
on_pairs test = down_from (λ a. down_from (test a) 255) 255

pair_read_off :
    (test : ℕ → ℕ → Bool) → on_pairs test ≡ true → (a b : ℕ) → a < 256 → b < 256 → test a b ≡ true
pair_read_off test table a b ha hb =
    read_off (test a) 255 b (read_off (λ c. down_from (test c) 255) 255 a table (omega arith))
      (omega arith)

-- The result is a byte, and it is 0 only for equal bytes, and for them.
abbrev xor_cell : ℕ → ℕ → Bool
xor_cell a b =
    ltb (bit_xor a b) 256 && (if a == b then bit_xor a b == 0 else not (bit_xor a b == 0))

-- The result is a byte, and it is 0 only for two zeros.
abbrev or_cell : ℕ → ℕ → Bool
or_cell a b = ltb (bit_or a b) 256 && (a == 0 && b == 0 || not (bit_or a b == 0))

xor_cells : on_pairs xor_cell ≡ true
unfolding down_from
xor_cells = refl

or_cells : on_pairs or_cell ≡ true
unfolding down_from
or_cells = refl

pub bit_xor-byte : (a b : ℕ) → a < 256 → b < 256 → bit_xor a b < 256
bit_xor-byte a b ha hb = ground (arith, pair_read_off xor_cell xor_cells a b ha hb)

pub eq_of_bit_xor : (a b : ℕ) → a < 256 → b < 256 → bit_xor a b ≡ 0 → a ≡ b
eq_of_bit_xor a b ha hb h = ground (arith, pair_read_off xor_cell xor_cells a b ha hb)

pub bit_xor_self : (a : ℕ) → a < 256 → bit_xor a a ≡ 0
bit_xor_self a ha = ground (arith, pair_read_off xor_cell xor_cells a a ha ha)

pub bit_or-byte : (a b : ℕ) → a < 256 → b < 256 → bit_or a b < 256
bit_or-byte a b ha hb = ground (arith, pair_read_off or_cell or_cells a b ha hb)

pub zero_of_bit_or : (a b : ℕ) → a < 256 → b < 256 → bit_or a b ≡ 0 → (a ≡ 0) × (b ≡ 0)
zero_of_bit_or a b ha hb h = ground (arith, pair_read_off or_cell or_cells a b ha hb)
