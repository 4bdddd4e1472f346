-- ===== src/Crypto/Merkle/Consistency/Heads.antt =====
-- The head of a slice of leaves in crates/oc-crypto/src/merkle.rs: what `mth` gives for it, and where it is split.
use open_crate.Base.{
  ℕ, zero, suc, ◌+◌, ◌-◌, ◌^◌, ◌<◌, ◌≤◌, ◌≡◌, ap, sym, ◌∙◌, some, List, length, take, drop, arith,
  ltb, ltb→lt, Bool-cases, inl, inr, length-take, length-drop,
}
use open_crate.Crypto.Merkle.{Hash, top, zeros, first_or, node_of, levels_of, split_point, mth}
use open_crate.Crypto.Merkle.Reference.{SplitAt, split_point-SplitAt, mth-split, mth-top}

-- The least height of a tree of n leaves.
pub record IsHeight (n e : ℕ) : Type 0 where
  pub fits : n ≤ 2 ^ e
  pub least : 2 ^ e < n + n

pub power_grows : (i d : ℕ) → 2 ^ i ≤ 2 ^ (i + d)
power_grows i zero =
    let same : 2 ^ (i + 0) ≡ 2 ^ i = ap (λ (e : ℕ). 2 ^ e) (omega arith) in omega (arith, same)
power_grows i (suc d) =
    let same : 2 ^ (i + suc d) ≡ 2 ^ suc (i + d) = ap (λ (e : ℕ). 2 ^ e) (omega arith) in
    omega (arith, same, power_grows i d)

-- A smaller power of two is at most half of it.
power_below : (i j : ℕ) → i < j → 2 ^ i + 2 ^ i ≤ 2 ^ j
power_below i j below =
    let same : 2 ^ (suc i + (j - suc i)) ≡ 2 ^ j = ap (λ (e : ℕ). 2 ^ e) (omega (arith, below)) in
    omega (arith, same, power_grows (suc i) (j - suc i))

pub exponent_below : (i j : ℕ) → 2 ^ i < 2 ^ j + 2 ^ j → i ≤ j
exponent_below i j below = elim (Bool-cases (ltb j i)) [
  | inl over ↦ absurd (omega (arith, below, power_below j i (ltb→lt j i over)))
  | inr within ↦ ground (arith, within)
]

same_exponent : (i j n : ℕ) → 2 ^ i < n → n ≤ 2 ^ i + 2 ^ i → 2 ^ j < n → n ≤ 2 ^ j + 2 ^ j → i ≡ j
same_exponent i j n below_i half_i below_j half_j =
    let up = exponent_below i j (omega (arith, below_i, half_j)) in
    let down = exponent_below j i (omega (arith, below_j, half_i)) in omega (arith, up, down)

-- The split is the only power of two below n that is at least half of it.
pub split_point-power :
    (n j : ℕ) → 2 ^ j < n → n ≤ 2 ^ j + 2 ^ j → n < 2 ^ 32 → split_point n ≡ 2 ^ j
split_point-power n j below half small =
    let some_leaf : 0 < 2 ^ j = omega arith in
    let split = split_point-SplitAt n (omega (arith, below, some_leaf)) (omega (arith, small)) in
    let same =
      same_exponent split.exponent j n (omega (arith, split.below, split.power))
        (omega (arith, split.half, split.power)) below half in
    split.power ∙ ap (λ (e : ℕ). 2 ^ e) same

pub IsHeight-exists : (n : ℕ) → 0 < n → n < 2 ^ 32 → (e : ℕ) × IsHeight n e
IsHeight-exists n some_leaf small = elim (Bool-cases (ltb 1 n)) [
  | inl more ↦
      let split = split_point-SplitAt n (ltb→lt 1 n more) (omega (arith, small)) in
      (
        suc split.exponent,
        record {
          fits = omega (arith, split.half, split.power);
          least = omega (arith, split.below, split.power);
        },
      )
  | inr one ↦
      let single : n ≡ 1 = ground (arith, one, some_leaf) in
      (0, record { fits = omega (arith, single); least = omega (arith, single) })
]

-- The tree over two leaves or more is one higher than its left half.
pub height-split :
    (n e : ℕ) (split : SplitAt n (split_point n)) → IsHeight n e → e ≡ suc split.exponent
height-split n e split tall =
    let i = split.exponent in
    let up = exponent_below e (suc i) (omega (arith, tall.least, split.half, split.power)) in
    let down = exponent_below (suc i) e (omega (arith, tall.fits, split.below, split.power)) in
    omega (arith, up, down)

module _ (blake3 : List ℕ → Hash) where
  -- The one node of the top level over the leaves.
  pub head : List Hash → Hash
  head leaves = first_or (zeros 32) (top (levels_of blake3 (length leaves) leaves))

  pub mth-head :
      (fuel : ℕ) (leaves : List Hash)
      → 0 < length leaves
      → length leaves ≤ fuel
      → length leaves < 2 ^ 32
      → mth blake3 fuel leaves ≡ some (head leaves)
  unfolding head
  mth-head fuel leaves some_leaf enough small =
      let (h, made, one) =
        mth-top blake3 fuel (length leaves) leaves some_leaf enough (omega arith) small in
      made ∙ ap (λ (level : List Hash). some (first_or (zeros 32) level)) (sym one)

  -- The head of two leaves or more is the node of the heads of its halves.
  pub head-split :
      (leaves : List Hash) (k : ℕ)
      → split_point (length leaves) ≡ k
      → 1 < length leaves
      → length leaves < 2 ^ 32
      → head leaves ≡ node_of blake3 (head (take k leaves)) (head (drop k leaves))
  head-split leaves k same more small =
      let split = split_point-SplitAt (length leaves) more (omega (arith, small)) in
      let s = split_point (length leaves) in
      let some_left : 0 < s = omega (arith, split.power) in
      let left : length (take s leaves) ≡ s = length-take s leaves ∙ omega (arith, split.below) in
      let right = length-drop s leaves in
      let whole =
        mth-split blake3 (length leaves) leaves (head (take s leaves)) (head (drop s leaves)) more
          (omega (arith, split.below))
          (mth-head (length leaves) (take s leaves) (omega (arith, left, some_left))
            (omega (arith, left, split.below)) (omega (arith, left, split.below, small)))
          (mth-head (length leaves) (drop s leaves) (omega (arith, right, split.below))
            (omega (arith, right)) (omega (arith, right, small))) in
      let made = mth-head (suc (length leaves)) leaves (omega (arith, more)) (omega arith) small in
      rw (sym same) (cc (made, whole))
