-- ===== src/Crypto/Merkle/Height.antt =====
-- How high the tree of crates/oc-crypto/src/merkle.rs grows: `MerkleTree::build` and its loop.
use open_crate.Base.{
  ℕ, zero, suc, ◌+◌, ◌^◌, ◌*◌, ◌<◌, ◌≤◌, ◌≡◌, List, ltb, length, ok, arith, Bool-cases, inl, inr,
}
use open_crate.Base.Words.{to_u32}
use open_crate.Crypto.Merkle.{Hash, MerkleTree, build, top, next_level, levels_of}
use open_crate.Crypto.Merkle.Levels.{length-next_level, top-cons-levels_of}

half_power : (d n : ℕ) → 1 < n → n ≤ 2 ^ d → (d' : ℕ) × (d ≡ d' + 1) × (n ≤ 2 * 2 ^ d')
half_power zero n more few = absurd (omega (arith, more, few))
half_power (suc d) n more few = (d, omega arith, omega (arith, few))

module _ (blake3 : List ℕ → Hash) where
  length-levels_of :
      (fuel d : ℕ) (l : List Hash)
      → 0 < length l
      → length l ≤ fuel + 1
      → length l ≤ 2 ^ d
      → (length (top (levels_of blake3 fuel l)) ≡ 1) × (length (levels_of blake3 fuel l) ≤ d + 1)
  unfolding levels_of
  length-levels_of zero d l some_leaf enough few = (omega (arith, some_leaf, enough), omega arith)
  length-levels_of (suc fuel) d l some_leaf enough few = elim (Bool-cases (ltb 1 (length l))) [
    | inl e ↦
        let more : 1 < length l = ground (arith, e) in
        let (d', deeper, below) = half_power d (length l) more few in
        let half = length-next_level blake3 l in
        let (one, high) =
          length-levels_of fuel d' (next_level blake3 l) (omega (arith, half, more))
            (omega (arith, half, more, enough)) (omega (arith, half, below)) in
        rw e (
          rw (top-cons-levels_of blake3 l fuel (next_level blake3 l)) one,
          omega (arith, high, deeper),
        )
    | inr e ↦ rw e (ground (arith, e), omega arith)
  ]

  -- From one leaf up to 2 ^ 32 - 1, `build` gives a tree: its loop ends at a level of one node, and a tree of at most
  -- 2 ^ d leaves has at most d + 1 levels.
  pub build-levels_bound :
      (leaves : List Hash) (d : ℕ)
      → 0 < length leaves
      → length leaves < 2 ^ 32
      → length leaves ≤ 2 ^ d
      → (t : MerkleTree) × (build blake3 leaves ≡ ok t)
        × (length (top t.levels) ≡ 1)
        × (length t.levels ≤ d + 1)
  unfolding build to_u32
  build-levels_bound leaves d some_leaf small few =
      let (one, high) = length-levels_of (length leaves) d leaves some_leaf (omega arith) few in
      (
        record { levels = levels_of blake3 (length leaves) leaves },
        ground (arith, some_leaf, small),
        one,
        high,
      )
