-- ===== src/Crypto/Merkle/Consistency/Shift.antt =====
-- The inner loops of `verify_consistency` in crates/oc-crypto/src/merkle.rs: how far they shift the two nodes.
use open_crate.Base.{
  ℕ, zero, suc, ◌+◌, ◌*◌, ◌^◌, ◌/◌, ◌%◌, ◌<◌, ◌≡◌, ap, ◌∙◌, true, false, not, ◌==◌, ◌&&◌, arith,
}
use native.Mathlib.Nat.{mul-pos}
use open_crate.Crypto.Merkle.Consistency.{strip_odd, strip_even}

double_product : (a p : ℕ) → a * (2 * p) ≡ 2 * (a * p)
double_product a p = omega arith

pub double_power : (a e : ℕ) → a * 2 ^ suc e ≡ 2 * (a * 2 ^ e)
double_power a e =
    let double : 2 ^ suc e ≡ 2 * 2 ^ e = omega arith in
    ap (λ p. a * p) double ∙ double_product a (2 ^ e)

pub some_power : (e : ℕ) → 0 < 2 ^ e
some_power zero = omega arith
some_power (suc e) = omega (arith, some_power e)

pub strip_odd_lem :
    (fuel e a t r f s : ℕ)
    → a % 2 ≡ 0
    → f + 1 ≡ a * 2 ^ e + 2 ^ e
    → s ≡ t * 2 ^ e + r
    → r < 2 ^ e
    → f < fuel
    → strip_odd fuel f s ≡ (a, t)
unfolding strip_odd
strip_odd_lem zero e a t r f s even old new within enough = absurd (omega (arith, enough))
strip_odd_lem (suc fuel) zero a t r f s even old new within enough =
    let same : f ≡ a = omega (arith, old) in
    let other : s ≡ t = omega (arith, new, within) in
    let stop : (f % 2 == 1) ≡ false = ground (arith, even, same) in
    rw (strip_odd, stop) (cc (same, other))
strip_odd_lem (suc fuel) (suc e) a t r f s even old new within enough =
    let wide = double_power a e in
    let high = double_power t e in
    let more : (f % 2 == 1) ≡ true = ground (arith, old, wide) in
    rw (strip_odd, more)
      (strip_odd_lem fuel e a t (r / 2) (f / 2) (s / 2) even (omega (arith, old, wide))
        (omega (arith, new, high)) (omega (arith, within)) (omega (arith, old, wide, enough)))

pub strip_even_lem :
    (fuel d g h f s : ℕ)
    → g % 2 ≡ 1
    → f ≡ g * 2 ^ d
    → s ≡ h * 2 ^ d
    → f < fuel
    → strip_even fuel f s ≡ (g, h)
unfolding strip_even
strip_even_lem zero d g h f s odd old new enough = absurd (omega (arith, enough))
strip_even_lem (suc fuel) zero g h f s odd old new enough =
    let same : f ≡ g = omega (arith, old) in
    let other : s ≡ h = omega (arith, new) in
    let stop : ((f % 2 == 0) && not (f == 0)) ≡ false = ground (arith, odd, same) in
    rw (strip_even, stop) (cc (same, other))
strip_even_lem (suc fuel) (suc d) g h f s odd old new enough =
    let wide = double_power g d in
    let high = double_power h d in
    let some_node : 0 < g = omega (arith, odd) in
    let some_left : 0 < g * 2 ^ d = mul-pos some_node (some_power d) in
    let more : ((f % 2 == 0) && not (f == 0)) ≡ true = ground (arith, old, wide, some_left) in
    rw (strip_even, more)
      (strip_even_lem fuel d g h (f / 2) (s / 2) odd (omega (arith, old, wide))
        (omega (arith, new, high)) (omega (arith, old, wide, some_left, enough)))
