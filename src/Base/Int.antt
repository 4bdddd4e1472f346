-- ===== src/Base/Int.antt =====
-- Signed integers over the native numbers, and Rust's `i64` arithmetic on them.
use open_crate.Base.{ℕ, suc, ◌+◌, ◌-◌, ◌^◌, ◌≤◌, ◌<◌, ◌≡◌, Bool, arith, ltb, leb, if◌then◌else◌}

-- `negsuc n` is -(n + 1).
pub data ℤ : Type 0 where
  pos : ℕ → ℤ
  negsuc : ℕ → ℤ

abbrev pub pos_part : ℤ → ℕ
pos_part (pos n) = n
pos_part (negsuc n) = 0

abbrev pub neg_part : ℤ → ℕ
neg_part (pos n) = 0
neg_part (negsuc n) = suc n

-- a - b, as an integer.
abbrev sub_ℕ : ℕ → ℕ → ℤ
sub_ℕ a b = if leb b a then pos (a - b) else negsuc (b - a - 1)

infix 50 ◌≤ℤ◌ ◌<ℤ◌
abbrev pub ◌≤ℤ◌ : ℤ → ℤ → Type 0
a ≤ℤ b = pos_part a + neg_part b ≤ pos_part b + neg_part a

abbrev pub ◌<ℤ◌ : ℤ → ℤ → Type 0
a <ℤ b = pos_part a + neg_part b < pos_part b + neg_part a

abbrev pub ltb_ℤ : ℤ → ℤ → Bool
ltb_ℤ a b = ltb (pos_part a + neg_part b) (pos_part b + neg_part a)

unfoldable pub min_ℤ : ℤ → ℤ → ℤ
min_ℤ a b = if ltb_ℤ b a then b else a

unfoldable pub max_ℤ : ℤ → ℤ → ℤ
max_ℤ a b = if ltb_ℤ b a then a else b

-- `i64::MAX` and `i64::MIN`.
abbrev pub i64_max : ℤ
i64_max = pos (2 ^ 63 - 1)

abbrev pub i64_min : ℤ
i64_min = negsuc (2 ^ 63 - 1)

abbrev pub IsI64 : ℤ → Type 0
IsI64 a = (pos_part a < 2 ^ 63) × (neg_part a ≤ 2 ^ 63)

-- What saturating arithmetic makes of the exact result p - n.
unfoldable saturate : ℕ → ℕ → ℤ
saturate p n =
    if ltb (n + (2 ^ 63 - 1)) p then i64_max else if ltb (p + 2 ^ 63) n then i64_min else sub_ℕ p n

-- `i64::saturating_sub` and `i64::saturating_add`.
unfoldable pub saturating_sub : ℤ → ℤ → ℤ
unfolding saturate
saturating_sub a b = saturate (pos_part a + neg_part b) (neg_part a + pos_part b)

unfoldable pub saturating_add : ℤ → ℤ → ℤ
unfolding saturate
saturating_add a b = saturate (pos_part a + pos_part b) (neg_part a + neg_part b)

pub min_ℤ_comm : (a b : ℤ) → min_ℤ a b ≡ min_ℤ b a
unfolding min_ℤ
min_ℤ_comm a b = ground arith

pub max_ℤ_comm : (a b : ℤ) → max_ℤ a b ≡ max_ℤ b a
unfolding max_ℤ
max_ℤ_comm a b = ground arith

pub min_ℤ_assoc : (a b c : ℤ) → min_ℤ (min_ℤ a b) c ≡ min_ℤ a (min_ℤ b c)
unfolding min_ℤ
min_ℤ_assoc a b c = ground arith

pub max_ℤ_assoc : (a b c : ℤ) → max_ℤ (max_ℤ a b) c ≡ max_ℤ a (max_ℤ b c)
unfolding max_ℤ
max_ℤ_assoc a b c = ground arith

pub min_ℤ-i64_max : (a : ℤ) → IsI64 a → min_ℤ a i64_max ≡ a
unfolding min_ℤ
min_ℤ-i64_max a h = ground arith

pub min_ℤ-i64_min : (a : ℤ) → IsI64 a → min_ℤ a i64_min ≡ i64_min
unfolding min_ℤ
min_ℤ-i64_min a h = ground arith

pub max_ℤ-i64_max : (a : ℤ) → IsI64 a → max_ℤ a i64_max ≡ i64_max
unfolding max_ℤ
max_ℤ-i64_max a h = ground arith
