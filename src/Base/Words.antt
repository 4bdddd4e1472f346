-- ===== src/Base/Words.antt =====
-- `u32`, `u64` and a 64-bit `usize`: checked and saturating arithmetic, conversions.
use open_crate.Base.{
  ℕ, suc, ◌+◌, ◌-◌, ◌*◌, ◌^◌, ◌<◌, ◌≡◌, arith, Bool, false, ◌||◌, zero, Option, none, some, ltb,
  ◌==◌, if◌then◌else◌,
}

abbrev u32_max : ℕ
u32_max = 2 ^ 32 - 1

abbrev u64_max : ℕ
u64_max = 2 ^ 64 - 1

-- `u64::checked_add`, `checked_sub` and `checked_mul`.
unfoldable pub checked_add : ℕ → ℕ → Option ℕ
checked_add a b = if ltb (a + b) (2 ^ 64) then some (a + b) else none

unfoldable pub checked_sub : ℕ → ℕ → Option ℕ
checked_sub a b = if ltb a b then none else some (a - b)

unfoldable pub checked_mul : ℕ → ℕ → Option ℕ
checked_mul a b = if ltb (a * b) (2 ^ 64) then some (a * b) else none

unfoldable pub saturating_add : ℕ → ℕ → ℕ
saturating_add a b = if ltb u64_max (a + b) then u64_max else a + b

unfoldable pub saturating_mul : ℕ → ℕ → ℕ
saturating_mul a b = if ltb u64_max (a * b) then u64_max else a * b

-- `u32::try_from(n).ok()` and `u16::try_from(n).ok()`.
unfoldable pub to_u32 : ℕ → Option ℕ
to_u32 n = if ltb n (2 ^ 32) then some n else none

-- `u32::checked_add`
unfoldable pub checked_add_u32 : ℕ → ℕ → Option ℕ
checked_add_u32 a b = if ltb (a + b) (2 ^ 32) then some (a + b) else none

unfoldable pub power_within : ℕ → ℕ → Bool
power_within zero n = false
power_within (suc k) n = (n == 2 ^ k) || power_within k n

-- `is_power_of_two` of a number below 2^32
unfoldable pub is_power_of_two : ℕ → Bool
unfolding power_within
is_power_of_two n = power_within 32 n

pub checked_add_lem : (a b : ℕ) → a + b < 2 ^ 64 → checked_add a b ≡ some (a + b)
unfolding checked_add
checked_add_lem a b h = ground arith

pub to_u32_lem : (n : ℕ) → n < 2 ^ 32 → to_u32 n ≡ some n
unfolding to_u32
to_u32_lem n h = ground arith

pub saturating_add_lem : (a b : ℕ) → a + b < 2 ^ 64 → saturating_add a b ≡ a + b
unfolding saturating_add
saturating_add_lem a b h = ground arith
