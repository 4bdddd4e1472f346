-- ===== src/Crypto/Merkle/Reference.antt =====
-- The levels of crates/oc-crypto/src/merkle.rs against its recursive `mth`, the definition of RFC 6962.
use open_crate.Base.{
  ℕ, zero, suc, ◌+◌, ◌-◌, ◌*◌, ◌%◌, ◌^◌, ◌<◌, ◌≤◌, ◌≡◌, refl, ap, sym, ◌∙◌, some, List, [], ◌∷◌,
  ◌++◌, ltb, length, take, drop, take-append-drop, length-take, length-drop, ok, arith, ltb→lt,
  Bool-cases, inl, inr, length-append,
}
use open_crate.Crypto.Merkle.{
  Hash, MerkleTree, top, node_of, next_level, levels_of, build, apex, double_below, split_point,
  mth,
}
use open_crate.Crypto.Merkle.Levels.{
  length-next_level, levels_of-one, levels_of-more, top-cons-levels_of, build-levels,
}

module _ (blake3 : List ℕ → Hash) where
  next_level-append :
      (l r : List Hash)
      → length l % 2 ≡ 0
      → next_level blake3 (l ++ r) ≡ next_level blake3 l ++ next_level blake3 r
  unfolding next_level
  next_level-append [] r even = refl
  next_level-append (x ∷ []) r even = absurd (omega (arith, even))
  next_level-append (x ∷ y ∷ l) r even =
      ap (λ rest. node_of blake3 x y ∷ rest) (next_level-append l r (omega (arith, even)))

  top-more :
      (fuel : ℕ) (c : List Hash)
      → 1 < length c
      → top (levels_of blake3 (suc fuel) c) ≡ top (levels_of blake3 fuel (next_level blake3 c))
  top-more fuel c more =
      rw (levels_of-more blake3 fuel c more)
        (top-cons-levels_of blake3 c fuel (next_level blake3 c))

  top-one : (fuel : ℕ) (x : Hash) → top (levels_of blake3 fuel (x ∷ [])) ≡ x ∷ []
  top-one fuel x = ap top (levels_of-one blake3 fuel (x ∷ []) (omega arith))

  -- One level up, a list of at most one node is itself.
  top-next_level :
      (fuel : ℕ) (c : List Hash)
      → 0 < length c
      → top (levels_of blake3 (suc fuel) c) ≡ top (levels_of blake3 fuel (next_level blake3 c))
  unfolding next_level
  top-next_level fuel [] some_node = absurd (omega (arith, some_node))
  top-next_level fuel (x ∷ []) some_node = top-one (suc fuel) x ∙ sym (top-one fuel x)
  top-next_level fuel (x ∷ y ∷ c) some_node = top-more fuel (x ∷ y ∷ c) (omega arith)

  top-two :
      (fuel : ℕ) (l r : List Hash) (a b : Hash)
      → length l ≡ 1
      → length r ≡ 1
      → 0 < fuel
      → top (levels_of blake3 fuel l) ≡ a ∷ []
      → top (levels_of blake3 fuel r) ≡ b ∷ []
      → top (levels_of blake3 fuel (l ++ r)) ≡ node_of blake3 a b ∷ []
  unfolding next_level
  top-two zero l r a b one other deep la rb = absurd (omega (arith, deep))
  top-two (suc fuel) [] r a b one other deep la rb = absurd (omega (arith, one))
  top-two (suc fuel) (x ∷ y ∷ l) r a b one other deep la rb = absurd (omega (arith, one))
  top-two (suc fuel) (x ∷ []) [] a b one other deep la rb = absurd (omega (arith, other))
  top-two (suc fuel) (x ∷ []) (y ∷ z ∷ r) a b one other deep la rb = absurd (omega (arith, other))
  top-two (suc fuel) (x ∷ []) (y ∷ []) a b one other deep la rb =
      let left : x ≡ a = cc (sym (top-one (suc fuel) x) ∙ la) in
      let right : y ≡ b = cc (sym (top-one (suc fuel) y) ∙ rb) in
      top-more fuel (x ∷ y ∷ []) (omega arith)
      ∙ top-one fuel (node_of blake3 x y)
      ∙ cc (left, right)

  -- A full tree on the left and one no larger on the right have the node of both on top.
  top-append :
      (k fuel : ℕ) (l r : List Hash) (a b : Hash)
      → length l ≡ 2 ^ k
      → 0 < length r
      → length r ≤ 2 ^ k
      → length l + length r ≤ fuel + 1
      → top (levels_of blake3 fuel l) ≡ a ∷ []
      → top (levels_of blake3 fuel r) ≡ b ∷ []
      → top (levels_of blake3 fuel (l ++ r)) ≡ node_of blake3 a b ∷ []
  top-append zero fuel l r a b full some_node small few la rb =
      top-two fuel l r a b full (omega (arith, some_node, small))
        (omega (arith, few, full, some_node)) la rb
  top-append (suc k) zero l r a b full some_node small few la rb =
      absurd (omega (arith, full, some_node, few))
  top-append (suc k) (suc fuel) l r a b full some_node small few la rb =
      let some_left : 0 < length l = omega (arith, full) in
      top-next_level fuel (l ++ r) (rw (length-append l r) (omega (arith, some_node)))
      ∙ ap (λ (c : List Hash). top (levels_of blake3 fuel c))
          (next_level-append l r (omega (arith, full)))
      ∙ top-append k fuel (next_level blake3 l) (next_level blake3 r) a b
          (rw (length-next_level blake3 l) (omega (arith, full)))
          (rw (length-next_level blake3 r) (omega (arith, some_node)))
          (rw (length-next_level blake3 r) (omega (arith, small)))
          (rw (length-next_level blake3 l, length-next_level blake3 r)
            (omega (arith, few, full, some_node)))
          (sym (top-next_level fuel l some_left) ∙ la) (sym (top-next_level fuel r some_node) ∙ rb)

-- A power of two below n that is at least half of it.
pub record SplitAt (n k : ℕ) : Type 0 where
  pub exponent : ℕ
  pub power : k ≡ 2 ^ exponent
  pub below : k < n
  pub half : n ≤ k + k

double_below-SplitAt :
    (fuel n i : ℕ) → 2 ^ i < n → n ≤ 2 ^ (i + fuel) → SplitAt n (double_below fuel n (2 ^ i))
unfolding double_below
double_below-SplitAt zero n i below within =
    let same : 2 ^ (i + 0) ≡ 2 ^ i = ap (λ (e : ℕ). 2 ^ e) (omega arith) in
    absurd (omega (arith, below, within, same))
double_below-SplitAt (suc fuel) n i below within = elim (Bool-cases (ltb (2 ^ i * 2) n)) [
  | inl more ↦
      let doubled : 2 ^ i * 2 ≡ 2 ^ suc i = omega arith in
      let later : 2 ^ (i + suc fuel) ≡ 2 ^ (suc i + fuel) = ap (λ (e : ℕ). 2 ^ e) (omega arith) in
      let rest =
        double_below-SplitAt fuel n (suc i) (omega (arith, ltb→lt (2 ^ i * 2) n more))
          (omega (arith, within, later)) in
      rw (more, doubled) rest
  | inr last ↦
      rw last (record { exponent = i; power = refl; below = below; half = ground (arith, last) })
]

pub split_point-SplitAt : (n : ℕ) → 1 < n → n ≤ 2 ^ 64 → SplitAt n (split_point n)
unfolding split_point
split_point-SplitAt n more small = double_below-SplitAt 64 n 0 more small

module _ (blake3 : List ℕ → Hash) where
  pub mth-split :
      (fuel : ℕ) (l : List Hash) (a b : Hash)
      → 1 < length l
      → split_point (length l) ≤ length l
      → mth blake3 fuel (take (split_point (length l)) l) ≡ some a
      → mth blake3 fuel (drop (split_point (length l)) l) ≡ some b
      → mth blake3 (suc fuel) l ≡ some (node_of blake3 a b)
  unfolding mth
  mth-split fuel [] a b more within la rb = absurd (omega (arith, more))
  mth-split fuel (x ∷ []) a b more within la rb = absurd (omega (arith, more))
  mth-split fuel (x ∷ y ∷ l) a b more within la rb = ground (arith, within, la, rb)

  mth-one : (fuel : ℕ) (x : Hash) → mth blake3 (suc fuel) (x ∷ []) ≡ some x
  unfolding mth
  mth-one fuel x = refl

  pub mth-top :
      (fuel deep : ℕ) (l : List Hash)
      → 0 < length l
      → length l ≤ fuel
      → length l ≤ deep + 1
      → length l < 2 ^ 32
      → (h : Hash) × (mth blake3 fuel l ≡ some h) × (top (levels_of blake3 deep l) ≡ h ∷ [])
  mth-top fuel deep [] some_node enough few small = absurd (omega (arith, some_node))
  mth-top zero deep (x ∷ l) some_node enough few small = absurd (omega (arith, enough))
  mth-top (suc fuel) deep (x ∷ []) some_node enough few small =
      (x, mth-one fuel x, top-one blake3 deep x)
  mth-top (suc fuel) deep (x ∷ y ∷ rest) some_node enough few small =
      let l : List Hash = x ∷ y ∷ rest in
      let more : 1 < length l = omega arith in
      let k = split_point (length l) in
      let split = split_point-SplitAt (length l) more (omega (arith, small)) in
      let left_length : length (take k l) ≡ k = length-take k l ∙ omega (arith, split.below) in
      let right_length : length (drop k l) ≡ length l - k = length-drop k l in
      let some_left : 0 < k = omega (arith, split.power) in
      let (a, la, ta) =
        mth-top fuel deep (take k l) (rw left_length some_left)
          (rw left_length (omega (arith, split.below, enough)))
          (rw left_length (omega (arith, split.below, few)))
          (rw left_length (omega (arith, split.below, small))) in
      let (b, rb, tb) =
        mth-top fuel deep (drop k l) (rw right_length (omega (arith, split.below)))
          (rw right_length (omega (arith, enough, some_left)))
          (rw right_length (omega (arith, few))) (rw right_length (omega (arith, small))) in
      let joined =
        top-append blake3 split.exponent deep (take k l) (drop k l) a b (left_length ∙ split.power)
          (rw right_length (omega (arith, split.below)))
          (rw (right_length, sym split.power) (omega (arith, split.half)))
          (rw (left_length, right_length) (omega (arith, split.below, few))) ta tb in
      (
        node_of blake3 a b,
        mth-split fuel l a b more (omega (arith, split.below)) la rb,
        ap (λ (c : List Hash). top (levels_of blake3 deep c)) (sym (take-append-drop k l)) ∙ joined,
      )

  -- The apex of a tree that is built is the tree head that `mth` computes from the leaves, by recursion on halves; the
  -- number of leaves is fuel enough for `mth`.
  pub apex-mth :
      (leaves : List Hash) (t : MerkleTree)
      → build blake3 leaves ≡ ok t
      → mth blake3 (length leaves) leaves ≡ some (apex t)
  unfolding apex
  apex-mth leaves t e =
      let (same, some_leaf, small) = build-levels blake3 leaves t e in
      let (h, made, one) =
        mth-top (length leaves) (length leaves) leaves some_leaf (omega arith) (omega arith)
          small in
      made ∙ cc (one, same)
