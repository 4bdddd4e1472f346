-- ===== src/Crypto/Merkle/Consistency/Induction.antt =====
-- `subproof` in crates/oc-crypto/src/merkle.rs, by recursion on the halves of the slice.
use open_crate.Base.{
  ℕ, zero, suc, ◌+◌, ◌*◌, ◌-◌, ◌^◌, ◌<◌, ◌≤◌, ◌≡◌, ◌∙◌, List, leb, ◌==◌, length, take, drop, arith,
  inl, inr, Bool-cases, length-take, length-drop,
}
use open_crate.Crypto.Merkle.{Hash, split_point}
use open_crate.Crypto.Merkle.Reference.{split_point-SplitAt}
use open_crate.Crypto.Merkle.Consistency.Walk.{Ascends, Ascends-whole, Ascends-left, Ascends-right}
use open_crate.Crypto.Merkle.Consistency.Shift.{some_power}
use open_crate.Crypto.Merkle.Consistency.Place.{Stands, Stands-left}
use open_crate.Crypto.Merkle.Consistency.RightPlace.{Stands-right}

module _ (blake3 : List ℕ → Hash) where
  pub subproof-Ascends :
      (fuel m e a t r f s : ℕ) (leaves : List Hash)
      → length leaves ≤ fuel
      → Stands m (length leaves) e a t r f s
      → Ascends blake3 fuel m leaves f s a t
  subproof-Ascends zero m e a t r f s leaves enough stands =
      absurd (omega (arith, stands.some_old, stands.within, enough))
  subproof-Ascends (suc fuel) m e a t r f s leaves enough stands =
      elim (Bool-cases (m == length leaves)) [
        | inl last ↦
            let same : m ≡ length leaves = ground (arith, last) in
            let (full, even) = stands.whole same in
            rw same (
              Ascends-whole blake3 fuel e a t r f s leaves
                (omega (arith, stands.some_old, stands.within)) stands.small even
                (omega (arith, stands.last_old, same, full)) stands.last_new stands.below)
        | inr other ↦
            let less : m < length leaves = ground (arith, other, stands.within) in
            let more : 1 < length leaves = omega (arith, stands.some_old, less) in
            let k = split_point (length leaves) in
            let split = split_point-SplitAt (length leaves) more (omega (arith, stands.small)) in
            let i = split.exponent in
            let left_length : length (take k leaves) ≡ k =
              length-take k leaves ∙ omega (arith, split.below) in
            elim (Bool-cases (leb m k)) [
              | inl lower ↦
                  let on_left : m ≤ k = ground (arith, lower) in
                  let (b, rest, half, before, bit) =
                    Stands-left m (length leaves) e a t r f s split stands on_left in
                  Ascends-left blake3 fuel m a t b f s leaves more stands.small on_left before bit (
                    subproof-Ascends fuel m i (2 * a) (2 * t + b) rest f s (take k leaves)
                      (omega (arith, left_length, split.below, enough)) (rw left_length half))
              | inr upper ↦
                  let on_right : k < m = ground (arith, upper) in
                  let half =
                    Stands-right m (length leaves) e a t r f s split stands on_right less in
                  let over : 2 ^ i < m = omega (arith, on_right, split.power) in
                  let right_length = length-drop (2 ^ i) leaves in
                  Ascends-right blake3 fuel m i half.shift a t half.digit half.node half.last f s
                    leaves over less (omega (arith, split.half, split.power)) stands.small
                    half.small half.at_node half.at_last half.some_last half.turn
                    (subproof-Ascends fuel (m - 2 ^ i) half.height half.node half.last half.lower f
                      s (drop (2 ^ i) leaves) (omega (arith, right_length, some_power i, enough))
                      (rw right_length half.half))
            ]
      ]
