-- ===== src/Crypto/Merkle/Consistency/RightPlace.antt =====
-- The right half of a slice that `subproof` of crates/oc-crypto/src/merkle.rs halves, and where it stands.
use open_crate.Base.{
  ℕ, zero, suc, ◌+◌, ◌-◌, ◌*◌, ◌^◌, ◌%◌, ◌<◌, ◌≤◌, ◌≡◌, refl, ap, ◌∙◌, arith, ◌⊎◌, inl, inr,
}
use native.Mathlib.Nat.{mul-pos}
use open_crate.Crypto.Merkle.{split_point}
use open_crate.Crypto.Merkle.Reference.{SplitAt}
use open_crate.Crypto.Merkle.Consistency.Heads.{exponent_below, IsHeight-exists}
use open_crate.Crypto.Merkle.Consistency.Shift.{double_power, some_power}
use open_crate.Crypto.Merkle.Consistency.Place.{digit_of, Stands, Halved, Halved-Stands}

power_split : (g d e : ℕ) → g * 2 ^ d * 2 ^ e ≡ g * 2 ^ (d + e)
power_split g d zero =
    let same : 2 ^ (d + 0) ≡ 2 ^ d = ap (λ (i : ℕ). 2 ^ i) (omega arith) in
    omega (arith, ap (λ p. g * p) same)
power_split g d (suc e) =
    let same : 2 ^ (d + suc e) ≡ 2 ^ suc (d + e) = ap (λ (i : ℕ). 2 ^ i) (omega arith) in
    omega (
      arith,
      ap (λ p. g * p) same,
      double_power (g * 2 ^ d) e,
      double_power g (d + e),
      power_split g d e,
    )

-- The right half: its place, shifted to the level of the left half, is odd.
pub record RightHalf (m n i a t f s : ℕ) : Type 0 where
  pub shift : ℕ
  pub digit : ℕ
  pub height : ℕ
  pub node : ℕ
  pub last : ℕ
  pub lower : ℕ
  pub half : Stands (m - 2 ^ i) (n - 2 ^ i) height node last lower f s
  pub small : digit < 2
  pub at_node : node ≡ (2 * a + 1) * 2 ^ shift
  pub at_last : last ≡ (2 * t + digit) * 2 ^ shift
  pub some_last : 0 < last
  pub turn : (node % 2 ≡ 1) ⊎ (node ≡ last)

-- The right half of a full slice is full, and as high as the left one.
right_full :
    (m n i a t r f s : ℕ)
    → n < 2 ^ 32
    → 2 ^ i < m
    → m < n
    → Halved m n a t r f s i
    → n ≡ 2 * 2 ^ i
    → a < t
    → RightHalf m n i a t f s
right_full m n i a t r f s small over less h full ahead =
    let bit = digit_of r (2 ^ i) (omega (arith, h.width)) in
    record {
      shift = 0;
      digit = bit.digit;
      height = i;
      node = 2 * a + 1;
      last = 2 * t + bit.digit;
      lower = bit.lower;
      half = record {
        some_old = omega (arith, over);
        within = omega (arith, less);
        small = omega (arith, small);
        tall = record { fits = omega (arith, full); least = omega (arith, full, some_power i) };
        place = inl (omega (arith, full), omega (arith, ahead));
        whole = λ at_end. absurd (omega (arith, at_end, over, less));
        last_old = omega (arith, h.halved_old, over);
        last_new = omega (arith, h.halved_new, bit.sum);
        below = bit.rest;
      };
      small = bit.small;
      at_node = omega arith;
      at_last = omega arith;
      some_last = omega (arith, ahead);
      turn = inl (omega arith);
    }

-- The right half of a slice that ends with the new tree ends with it as well, and may be lower.
right_edge :
    (m n i a t r f s : ℕ)
    → n < 2 ^ 32
    → 2 ^ i < m
    → m < n
    → n ≤ 2 ^ i + 2 ^ i
    → Halved m n a t r f s i
    → t ≡ a
    → r + 1 ≡ n
    → RightHalf m n i a t f s
right_edge m n i a t r f s small over less most h same edge =
    let (e, tall) =
      IsHeight-exists (n - 2 ^ i) (omega (arith, over, less)) (omega (arith, small)) in
    let lower = exponent_below e i (omega (arith, tall.least, most)) in
    let d = i - e in
    let level : 2 ^ (d + e) ≡ 2 ^ i = ap (λ (x : ℕ). 2 ^ x) (omega (arith, lower)) in
    let at = power_split (2 * a + 1) d e ∙ ap (λ p. (2 * a + 1) * p) level in
    let product : (2 * a + 1) * 2 ^ i ≡ 2 * (a * 2 ^ i) + 2 ^ i = omega arith in
    let same_product : t * 2 ^ i ≡ a * 2 ^ i = ap (λ x. x * 2 ^ i) same in
    let some_node : 0 < 2 * a + 1 = omega arith in
    record {
      shift = d;
      digit = 1;
      height = e;
      node = (2 * a + 1) * 2 ^ d;
      last = (2 * a + 1) * 2 ^ d;
      lower = n - 2 ^ i - 1;
      half = record {
        some_old = omega (arith, over);
        within = omega (arith, less);
        small = omega (arith, small);
        tall = tall;
        place = inr (refl, omega (arith, over, less));
        whole = λ at_end. absurd (omega (arith, at_end, over, less));
        last_old = omega (arith, h.halved_old, over, at, product);
        last_new = omega (arith, h.halved_new, at, product, same_product, edge, over, less);
        below = omega (arith, tall.fits, over, less);
      };
      small = omega arith;
      at_node = refl;
      at_last = ap (λ x. (2 * x + 1) * 2 ^ d) (omega (arith, same));
      some_last = mul-pos some_node (some_power d);
      turn = inr refl;
    }

pub Stands-right :
    (m n e a t r f s : ℕ) (split : SplitAt n (split_point n))
    → Stands m n e a t r f s
    → split_point n < m
    → m < n
    → RightHalf m n split.exponent a t f s
Stands-right m n e a t r f s split stands on_right less =
    let i = split.exponent in
    let h = Halved-Stands m n e a t r f s split stands in
    let over : 2 ^ i < m = omega (arith, on_right, split.power) in
    elim h.halved_place [
      | inl (full, ahead) ↦ right_full m n i a t r f s stands.small over less h full ahead
      | inr (same, edge) ↦
          right_edge m n i a t r f s stands.small over less (omega (arith, split.half, split.power))
            h same edge
    ]
