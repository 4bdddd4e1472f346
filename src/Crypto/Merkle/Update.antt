-- ===== src/Crypto/Merkle/Update.antt =====
-- `update_leaf` of crates/oc-crypto/src/merkle.rs: the path that is computed anew.
use open_crate.Base.{
  ℕ, zero, suc, ◌+◌, ◌-◌, ◌/◌, ◌%◌, ◌^◌, ◌<◌, ◌≤◌, ◌≡◌, refl, ap, sym, ◌∙◌, ◌&&◌, List, [], ◌∷◌,
  ltb, ◌==◌, length, set, drop, ok, arith, le→leb, ltb→lt, Bool-cases, inl, inr,
}
use open_crate.Base.Words.{to_u32}
use open_crate.Crypto.Merkle.{
  Hash, MerkleTree, is_promoted, node_of, parent_of, next_level, levels_of, bottom, build, root,
  leaf_count, update_path, update_leaf,
}
use open_crate.Crypto.Merkle.Levels.{
  length-next_level, levels_of-one, levels_of-more, bottom-levels_of, build-levels,
  leaf_count-build, shrinks,
}

length-set : (c : List Hash) (i : ℕ) (h : Hash) → length (set c i h) ≡ length c
length-set [] i h = refl
length-set (x ∷ c) zero h = refl
length-set (x ∷ c) (suc i) h = ap suc (length-set c i h)

module _ (blake3 : List ℕ → Hash) where
  parent_of-two :
      (x y : Hash) (c : List Hash) (i : ℕ)
      → parent_of blake3 (x ∷ y ∷ c) (suc (suc i)) ≡ parent_of blake3 c i
  unfolding parent_of is_promoted
  parent_of-two x y c i =
      let even : suc (suc i) - suc (suc i) % 2 ≡ suc (suc (i - i % 2)) = ground arith in
      let odd : suc (suc i) - suc (suc i) % 2 + 1 ≡ suc (suc (i - i % 2 + 1)) = ground arith in
      let short : (suc (suc (length c)) % 2 == 1) && (suc (suc i) + 1 == suc (suc (length c)))
          ≡ (length c % 2 == 1) && (i + 1 == length c) =
        ground arith in
      rw (short, odd, even) refl

  -- Putting a node into a level puts its parent into the level above.
  next_level-set :
      (c : List Hash) (i : ℕ) (h : Hash)
      → i < length c
      → (parent : Hash) × (parent_of blake3 (set c i h) i ≡ ok parent)
        × (next_level blake3 (set c i h) ≡ set (next_level blake3 c) (i / 2) parent)
  unfolding parent_of is_promoted next_level
  next_level-set [] i h small = absurd (omega (arith, small))
  next_level-set (x ∷ []) zero h small = (h, refl, refl)
  next_level-set (x ∷ []) (suc i) h small = absurd (omega (arith, small))
  next_level-set (x ∷ y ∷ c) zero h small = (node_of blake3 h y, ground arith, refl)
  next_level-set (x ∷ y ∷ c) (suc zero) h small = (node_of blake3 x h, ground arith, refl)
  next_level-set (x ∷ y ∷ c) (suc (suc i)) h small =
      let (parent, made, above) = next_level-set c i h (omega (arith, small)) in
      let half : suc (suc i) / 2 ≡ suc (i / 2) = omega arith in
      (parent, parent_of-two x y (set c i h) i ∙ made, rw (half, above) refl)

  levels_of-bottom :
      (fuel : ℕ) (c : List Hash) → levels_of blake3 fuel c ≡ c ∷ drop 1 (levels_of blake3 fuel c)
  unfolding levels_of
  levels_of-bottom zero c = refl
  levels_of-bottom (suc fuel) c = elim (Bool-cases (ltb 1 (length c))) [
    | inl more ↦ rw more refl
    | inr one ↦ rw one refl
  ]

  update_path-one :
      (c : List Hash) (levels : List (List Hash)) (i : ℕ)
      → length c ≤ 1
      → update_path blake3 c levels i ≡ ok (c ∷ levels)
  unfolding update_path
  update_path-one c [] i one = rw (le→leb (length c) 1 one) refl
  update_path-one c (above ∷ levels) i one = rw (le→leb (length c) 1 one) refl

  update_path-more :
      (c above : List Hash) (levels made : List (List Hash)) (i : ℕ) (parent : Hash)
      → 1 < length c
      → i / 2 < length above
      → parent_of blake3 c i ≡ ok parent
      → update_path blake3 (set above (i / 2) parent) levels (i / 2) ≡ ok made
      → update_path blake3 c (above ∷ levels) i ≡ ok (c ∷ made)
  unfolding update_path
  update_path-more c above levels made i parent more within p e = ground (arith, p, e)

  update_path-levels_of :
      (fuel : ℕ) (c : List Hash) (i : ℕ) (h : Hash)
      → length c ≤ fuel + 1
      → i < length c
      → update_path blake3 (set c i h) (drop 1 (levels_of blake3 fuel c)) i
        ≡ ok (levels_of blake3 fuel (set c i h))
  update_path-levels_of zero c i h few small =
      let one : length c ≤ 1 = omega (arith, few) in
      rw
        (
          levels_of-one blake3 0 c one,
          levels_of-one blake3 0 (set c i h) (rw (length-set c i h) one),
        )
        (update_path-one (set c i h) [] i (rw (length-set c i h) one))
  update_path-levels_of (suc fuel) c i h few small = elim (Bool-cases (ltb 1 (length c))) [
    | inl more ↦
        let more = ltb→lt 1 (length c) more in
        let still : 1 < length (set c i h) = rw (length-set c i h) more in
        let next = next_level blake3 c in
        let (parent, made, above) = next_level-set c i h small in
        let within : i / 2 < length next = rw (length-next_level blake3 c) (omega (arith, small)) in
        let rest =
          update_path-levels_of fuel next (i / 2) parent
            (shrinks blake3 fuel c (omega (arith, few)) more) within in
        rw
          (
            levels_of-more blake3 fuel c more,
            levels_of-more blake3 fuel (set c i h) still,
            levels_of-bottom fuel next,
            above,
          )
          (update_path-more (set c i h) next _ _ i parent still within made rest)
    | inr one ↦
        let one : length c ≤ 1 = ground arith in
        rw
          (
            levels_of-one blake3 (suc fuel) c one,
            levels_of-one blake3 (suc fuel) (set c i h) (rw (length-set c i h) one),
          )
          (update_path-one (set c i h) [] i (rw (length-set c i h) one))
  ]

  update_leaf-path :
      (t : MerkleTree) (index : ℕ) (leaf : Hash) (levels : List (List Hash))
      → index < leaf_count t
      → index < length (bottom t.levels)
      → update_path blake3 (set (bottom t.levels) index leaf) (drop 1 t.levels) index ≡ ok levels
      → update_leaf blake3 t index leaf
        ≡ ok (record { levels = levels }, root blake3 (record { levels = levels }))
  unfolding update_leaf
  update_leaf-path t index leaf levels within small made = ground (arith, within, small, made)

  build-made :
      (leaves : List Hash)
      → 0 < length leaves
      → length leaves < 2 ^ 32
      → build blake3 leaves ≡ ok (record { levels = levels_of blake3 (length leaves) leaves })
  unfolding build to_u32
  build-made leaves some_leaf small = ground (arith, some_leaf, small)

  updated :
      (leaves : List Hash) (index : ℕ) (leaf : Hash)
      → length leaves < 2 ^ 32
      → index < length leaves
      → (t : MerkleTree) × (build blake3 (set leaves index leaf) ≡ ok t)
        × (update_leaf blake3
              (record { levels = levels_of blake3 (length leaves) leaves })
              index
              leaf
            ≡ ok (t, root blake3 t))
  updated leaves index leaf small within =
      let same_length = length-set leaves index leaf in
      let path = update_path-levels_of (length leaves) leaves index leaf (omega arith) within in
      (
        record { levels = levels_of blake3 (length leaves) (set leaves index leaf) },
        build-made (set leaves index leaf) (rw same_length (omega (arith, within)))
              (rw same_length small)
            ∙ ap (λ (n : ℕ). ok (record { levels = levels_of blake3 n (set leaves index leaf) }))
                same_length,
        update_leaf-path _ index leaf _ (rw (leaf_count-build blake3 leaves small) within)
            (rw (bottom-levels_of blake3 (length leaves) leaves) within)
            (rw (bottom-levels_of blake3 (length leaves) leaves) path),
      )

  -- For an index within a tree that is built, `update_leaf` gives the tree that is built from the leaves with the new
  -- leaf at the index, and the root of that tree.
  pub update_leaf-build :
      (leaves : List Hash) (t : MerkleTree) (index : ℕ) (leaf : Hash)
      → build blake3 leaves ≡ ok t
      → index < leaf_count t
      → (new : MerkleTree) × (build blake3 (set leaves index leaf) ≡ ok new)
        × (update_leaf blake3 t index leaf ≡ ok (new, root blake3 new))
  update_leaf-build leaves t index leaf e within =
      let (same, some_leaf, small) = build-levels blake3 leaves t e in
      let counted : leaf_count t ≡ length leaves =
        ap leaf_count same ∙ leaf_count-build blake3 leaves small in
      rw same (updated leaves index leaf small (rw (sym counted) within))
