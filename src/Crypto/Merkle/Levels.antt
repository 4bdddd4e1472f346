-- ===== src/Crypto/Merkle/Levels.antt =====
-- The levels of the tree of crates/oc-crypto/src/merkle.rs: what stands above a node.
use open_crate.Base.{
  ℕ, zero, suc, ◌+◌, ◌^◌, ◌/◌, ◌%◌, ◌<◌, ◌≤◌, ◌≡◌, refl, ap, ◌∙◌, true, false, some, List, [], ◌∷◌,
  ltb, ◌==◌, if◌then◌else◌, length, get_elem?, ok, arith, lt→ltb, le→ltb, Bool-cases, inl, inr,
}
use open_crate.Base.Words.{to_u32}
use open_crate.Crypto.Merkle.{
  Hash, MerkleTree, build, leaf_count, is_promoted, top, bottom, sibling_of, node_of, next_level,
  levels_of,
}

pub sibling_two : (i : ℕ) → sibling_of (suc (suc i)) ≡ suc (suc (sibling_of i))
sibling_two i = ground arith

leaf_count-bottom :
    (t : MerkleTree) (leaves : List Hash)
    → bottom t.levels ≡ leaves
    → length leaves < 2 ^ 32
    → leaf_count t ≡ length leaves
unfolding leaf_count
leaf_count-bottom t leaves e small = rw e (ground (arith, small))

module _ (blake3 : List ℕ → Hash) where
  pub length-next_level : (c : List Hash) → length (next_level blake3 c) ≡ (length c + 1) / 2
  unfolding next_level
  length-next_level [] = omega arith
  length-next_level (x ∷ []) = omega arith
  length-next_level (x ∷ y ∷ rest) = omega (arith, length-next_level rest)

  -- A node that is promoted stands above itself.
  pub get-next_level-promoted :
      (c : List Hash) (i : ℕ) (h : Hash)
      → is_promoted (length c) i ≡ true
      → get_elem? c i ≡ some h
      → get_elem? (next_level blake3 c) (i / 2) ≡ some h
  unfolding next_level is_promoted
  get-next_level-promoted [] i h p e = cc
  get-next_level-promoted (x ∷ []) zero h p e = e
  get-next_level-promoted (x ∷ []) (suc i) h p e = cc
  get-next_level-promoted (x ∷ y ∷ rest) zero h p e = absurd (ground arith)
  get-next_level-promoted (x ∷ y ∷ rest) (suc zero) h p e = absurd (ground arith)
  get-next_level-promoted (x ∷ y ∷ rest) (suc (suc i)) h p e =
      let half : suc (suc i) / 2 ≡ suc (i / 2) = omega arith in
      rw half (get-next_level-promoted rest i h (ground arith) e)

  -- The pair of a node and its sibling, in their order.
  abbrev pub pair_above : ℕ → Hash → Hash → Hash
  pair_above i h s = if i % 2 == 0 then node_of blake3 h s else node_of blake3 s h

  -- A node that is not promoted has a sibling, and the node of both stands above it.
  pub get-next_level-pair :
      (c : List Hash) (i : ℕ) (h : Hash)
      → is_promoted (length c) i ≡ false
      → get_elem? c i ≡ some h
      → (s : Hash) × (get_elem? c (sibling_of i) ≡ some s)
        × (get_elem? (next_level blake3 c) (i / 2) ≡ some (pair_above i h s))
  unfolding next_level is_promoted
  get-next_level-pair [] i h p e = cc
  get-next_level-pair (x ∷ []) zero h p e = cc
  get-next_level-pair (x ∷ []) (suc i) h p e = cc
  get-next_level-pair (x ∷ y ∷ rest) zero h p e = (y, refl, cc e)
  get-next_level-pair (x ∷ y ∷ rest) (suc zero) h p e = (x, refl, cc e)
  get-next_level-pair (x ∷ y ∷ rest) (suc (suc i)) h p e =
      let (s, sib, above) = get-next_level-pair rest i h (ground arith) e in
      let half : suc (suc i) / 2 ≡ suc (i / 2) = omega arith in
      let same_parity : suc (suc i) % 2 ≡ i % 2 = omega arith in
      (s, ap (get_elem? (x ∷ y ∷ rest)) (sibling_two i) ∙ sib, rw (half, same_parity) above)

  pub levels_of-one : (fuel : ℕ) (c : List Hash) → length c ≤ 1 → levels_of blake3 fuel c ≡ c ∷ []
  unfolding levels_of
  levels_of-one zero c h = refl
  levels_of-one (suc fuel) c h = rw (le→ltb 1 (length c) h) refl

  pub levels_of-more :
      (fuel : ℕ) (c : List Hash)
      → 1 < length c
      → levels_of blake3 (suc fuel) c ≡ c ∷ levels_of blake3 fuel (next_level blake3 c)
  unfolding levels_of
  levels_of-more fuel c h = rw (lt→ltb 1 (length c) h) refl

  -- The level at the top does not change when a level is put below.
  pub top-cons-levels_of :
      (level : List Hash) (fuel : ℕ) (c : List Hash)
      → top (level ∷ levels_of blake3 fuel c) ≡ top (levels_of blake3 fuel c)
  unfolding levels_of
  top-cons-levels_of level zero c = refl
  top-cons-levels_of level (suc fuel) c = elim (Bool-cases (ltb 1 (length c))) [
    | inl more ↦ rw more refl
    | inr one ↦ rw one refl
  ]

  pub shrinks :
      (fuel : ℕ) (c : List Hash)
      → length c ≤ fuel + 2
      → 1 < length c
      → length (next_level blake3 c) ≤ fuel + 1
  shrinks fuel c h k = omega (arith, length-next_level c)

  pub bottom-levels_of : (fuel : ℕ) (c : List Hash) → bottom (levels_of blake3 fuel c) ≡ c
  unfolding levels_of
  bottom-levels_of zero c = refl
  bottom-levels_of (suc fuel) c = elim (Bool-cases (ltb 1 (length c))) [
    | inl more ↦ rw more refl
    | inr one ↦ rw one refl
  ]

  -- What is built: the levels over the leaves, between 1 and 2^32 - 1 of them.
  pub build-levels :
      (leaves : List Hash) (t : MerkleTree)
      → build blake3 leaves ≡ ok t
      → (t ≡ record { levels = levels_of blake3 (length leaves) leaves })
        × (0 < length leaves)
        × (length leaves < 2 ^ 32)
  unfolding build to_u32
  build-levels leaves t e = ground (arith, e)

  pub leaf_count-build :
      (leaves : List Hash)
      → length leaves < 2 ^ 32
      → leaf_count (record { levels = levels_of blake3 (length leaves) leaves }) ≡ length leaves
  leaf_count-build leaves small =
      leaf_count-bottom (record { levels = levels_of blake3 (length leaves) leaves }) leaves
        (bottom-levels_of (length leaves) leaves) small
