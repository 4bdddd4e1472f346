-- ===== src/Crypto/Merkle/Consistency/Place.antt =====
-- Where a slice of leaves stands in both trees while `subproof` of crates/oc-crypto/src/merkle.rs halves it.
use open_crate.Base.{
  ℕ, ◌+◌, ◌-◌, ◌*◌, ◌^◌, ◌%◌, ◌<◌, ◌≤◌, ◌≡◌, refl, ap, ◌∙◌, ltb, arith, ◌⊎◌, inl, inr, Bool-cases,
  ltb→lt,
}
use open_crate.Crypto.Merkle.{split_point}
use open_crate.Crypto.Merkle.Reference.{SplitAt}
use open_crate.Crypto.Merkle.Consistency.Heads.{IsHeight, height-split}
use open_crate.Crypto.Merkle.Consistency.Shift.{double_power, some_power}

-- The first binary digit of a number below 2 * p, and the rest of it.
pub record TopBit (r p : ℕ) : Type 0 where
  pub digit : ℕ
  pub lower : ℕ
  pub sum : r ≡ digit * p + lower
  pub small : digit < 2
  pub rest : lower < p
  pub high : p ≤ r → digit ≡ 1

pub digit_of : (r p : ℕ) → r < p + p → TopBit r p
digit_of r p below = elim (Bool-cases (ltb r p)) [
  | inl less ↦
      let under = ltb→lt r p less in
      record {
        digit = 0;
        lower = r;
        sum = omega arith;
        small = omega arith;
        rest = under;
        high = λ h. absurd (omega (arith, h, under));
      }
  | inr more ↦
      let over : p ≤ r = ground (arith, more) in
      record {
        digit = 1;
        lower = r - p;
        sum = omega (arith, over);
        small = omega arith;
        rest = omega (arith, below, over);
        high = λ h. refl;
      }
]

-- A slice of n leaves is the a-th node at its height e in the new tree, whose last leaf is under the t-th one there.
-- It is full and before that node, or it ends with the tree, r leaves after its first. The old tree ends after m of
-- its leaves; f and s are the last leaves of both trees.
pub record Stands (m n e a t r f s : ℕ) : Type 0 where
  pub some_old : 0 < m
  pub within : m ≤ n
  pub small : n < 2 ^ 32
  pub tall : IsHeight n e
  pub place : ((n ≡ 2 ^ e) × (a < t)) ⊎ ((t ≡ a) × (r + 1 ≡ n))
  pub whole : m ≡ n → (n ≡ 2 ^ e) × (a % 2 ≡ 0)
  pub last_old : f + 1 ≡ a * 2 ^ e + m
  pub last_new : s ≡ t * 2 ^ e + r
  pub below : r < 2 ^ e

-- The same with the height and the two places counted in the level of the halves.
pub record Halved (m n a t r f s i : ℕ) : Type 0 where
  pub width : r < 2 * 2 ^ i
  pub halved_old : f + 1 ≡ 2 * (a * 2 ^ i) + m
  pub halved_new : s ≡ 2 * (t * 2 ^ i) + r
  pub halved_place : ((n ≡ 2 * 2 ^ i) × (a < t)) ⊎ ((t ≡ a) × (r + 1 ≡ n))

pub Halved-Stands :
    (m n e a t r f s : ℕ) (split : SplitAt n (split_point n))
    → Stands m n e a t r f s
    → Halved m n a t r f s split.exponent
Halved-Stands m n e a t r f s split stands =
    let i = split.exponent in
    let higher = height-split n e split stands.tall in
    let wide : 2 ^ e ≡ 2 * 2 ^ i = ap (λ (x : ℕ). 2 ^ x) higher ∙ omega arith in
    let wide_old : a * 2 ^ e ≡ 2 * (a * 2 ^ i) =
      ap (λ (x : ℕ). a * 2 ^ x) higher ∙ double_power a i in
    let wide_new : t * 2 ^ e ≡ 2 * (t * 2 ^ i) =
      ap (λ (x : ℕ). t * 2 ^ x) higher ∙ double_power t i in
    record {
      width = omega (arith, stands.below, wide);
      halved_old = omega (arith, stands.last_old, wide_old);
      halved_new = omega (arith, stands.last_new, wide_new);
      halved_place = elim stands.place [
        | inl (full, ahead) ↦ inl (full ∙ wide, ahead)
        | inr edge ↦ inr edge
      ];
    }

-- The left half is full, and the last leaf of the new tree is not under it.
pub Stands-left :
    (m n e a t r f s : ℕ) (split : SplitAt n (split_point n))
    → Stands m n e a t r f s
    → m ≤ split_point n
    → (b : ℕ) × (lower : ℕ) × Stands m (split_point n) split.exponent (2 * a) (2 * t + b) lower f s
      × (2 * a < 2 * t + b)
      × (b < 2)
Stands-left m n e a t r f s split stands on_left =
    let i = split.exponent in
    let h = Halved-Stands m n e a t r f s split stands in
    let bit = digit_of r (2 ^ i) (omega (arith, h.width)) in
    let before : 2 * a < 2 * t + bit.digit = elim h.halved_place [
      | inl (full, ahead) ↦ omega (arith, ahead)
      | inr (same, edge) ↦
          let one = bit.high (omega (arith, edge, split.below, split.power)) in
          omega (arith, same, one)
    ] in
    (
      bit.digit,
      bit.lower,
      record {
        some_old = stands.some_old;
        within = on_left;
        small = omega (arith, split.below, stands.small);
        tall = record {
          fits = omega (arith, split.power);
          least = omega (arith, split.power, some_power i);
        };
        place = inl (split.power, before);
        whole = λ at_end. (split.power, omega arith);
        last_old = omega (arith, h.halved_old);
        last_new = omega (arith, h.halved_new, bit.sum);
        below = bit.rest;
      },
      before,
      bit.small,
    )
