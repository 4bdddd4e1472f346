-- ===== src/Crypto/Merkle/Consistency/Complete.antt =====
-- `MerkleTree::consistency` and `MerkleTree::verify_consistency` of crates/oc-crypto/src/merkle.rs, for a tree and a
-- longer one.
use open_crate.Base.{
  ℕ, ◌-◌, ◌^◌, ◌<◌, ◌≡◌, refl, ap, sym, ◌∙◌, true, false, some, List, [], ◌∷◌, ◌++◌, ltb, ◌==◌,
  ◌||◌, length, take, ok, arith, inl, inr, Bool-cases, length-append, length-take, take-append,
  nil_of_length,
}
use mathlib.Core.List.{append-nil}
use open_crate.Base.Words.{is_power_of_two}
use open_crate.Base.Bytes.{bytes_eq, bytes_eq_iff}
use open_crate.Crypto.Merkle.{Hash, MerkleTree, build, bottom, root, root_of, apex, leaf_count}
use open_crate.Crypto.Merkle.Levels.{build-levels, bottom-levels_of, leaf_count-build}
use open_crate.Crypto.Merkle.Reference.{apex-mth}
use open_crate.Crypto.Merkle.Consistency.{
  check_roots, check_path, verify_consistency, old_apex, subproof, consistency,
}
use open_crate.Crypto.Merkle.Consistency.Heads.{IsHeight-exists, head, mth-head}
use open_crate.Crypto.Merkle.Consistency.Walk.{Ascends}
use open_crate.Crypto.Merkle.Consistency.Induction.{subproof-Ascends}
use open_crate.Crypto.Merkle.Consistency.Prefix.{before, subproof_complete}

bytes_eq_refl : (bytes : List ℕ) → bytes_eq bytes bytes ≡ true
bytes_eq_refl bytes = (bytes_eq_iff bytes bytes).1 refl

some_levels :
    (levels : List (List Hash)) → 0 < length (bottom levels) → (length levels == 0) ≡ false
some_levels [] some_leaf = absurd (omega (arith, some_leaf))
some_levels (level ∷ levels) some_leaf = ground arith

module _ (blake3 : List ℕ → Hash) where
  -- The whole tree stands at the only node of its height.
  Ascends-tree :
      (m : ℕ) (leaves : List Hash)
      → 0 < m
      → m < length leaves
      → length leaves < 2 ^ 32
      → Ascends blake3 (length leaves) m leaves (m - 1) (length leaves - 1) 0 0
  Ascends-tree m leaves some_old less small =
      let (e, tall) = IsHeight-exists (length leaves) (omega (arith, less)) small in
      subproof-Ascends blake3 (length leaves) m e 0 0 (length leaves - 1) (m - 1)
        (length leaves - 1) leaves (omega arith)
        (record {
          some_old = some_old;
          within = omega (arith, less);
          small = small;
          tall = tall;
          place = inr (refl, omega (arith, less));
          whole = λ at_end. absurd (omega (arith, at_end, less));
          last_old = omega (arith, some_old);
          last_new = omega arith;
          below = omega (arith, tall.fits, less);
        })

  check_path-Ascends :
      (m : ℕ) (leaves : List Hash)
      (up : Ascends blake3 (length leaves) m leaves (m - 1) (length leaves - 1) 0 0)
      → check_path blake3 m
          (root_of blake3 m (head blake3 (take m leaves)))
          (length leaves)
          (root_of blake3 (length leaves) (head blake3 leaves))
          (up.first ∷ up.rest)
        ≡ true
  unfolding check_path check_roots
  check_path-Ascends m leaves up = rw up.there (
      rw
        (
          bytes_eq_refl (root_of blake3 m (head blake3 (take m leaves))),
          bytes_eq_refl (root_of blake3 (length leaves) (head blake3 leaves)),
        )
        refl)

  old_apex-before :
      (m : ℕ) (leaves : List Hash)
      → 0 < length (take m leaves)
      → length (take m leaves) < 2 ^ 32
      → old_apex blake3 m leaves ≡ ok (before blake3 m leaves)
  unfolding old_apex
  old_apex-before m leaves some_old small =
      let made =
        mth-head blake3 (length (take m leaves)) (take m leaves) some_old (omega arith) small in
      elim (Bool-cases (is_power_of_two m)) [
        | inl power ↦ rw (power, made) refl
        | inr other ↦ rw other refl
      ]

  root-head :
      (leaves : List Hash) (t : MerkleTree)
      → build blake3 leaves ≡ ok t
      → (leaf_count t ≡ length leaves)
        × (root blake3 t ≡ root_of blake3 (length leaves) (head blake3 leaves))
        × (bottom t.levels ≡ leaves)
  unfolding root
  root-head leaves t e =
      let (same, some_leaf, small) = build-levels blake3 leaves t e in
      let made = mth-head blake3 (length leaves) leaves some_leaf (omega arith) small in
      let known = apex-mth blake3 leaves t e in
      let top_hash : apex t ≡ head blake3 leaves = ground (arith, made, known) in
      let count : leaf_count t ≡ length leaves =
        ap leaf_count same ∙ leaf_count-build blake3 leaves small in
      (
        count,
        ap (λ n. root_of blake3 n (apex t)) count
            ∙ ap (λ (h : Hash). root_of blake3 (length leaves) h) top_hash,
        ap (λ (s : MerkleTree). bottom s.levels) same
            ∙ bottom-levels_of blake3 (length leaves) leaves,
      )

  consistency-path :
      (m : ℕ) (leaves rest : List Hash) (t : MerkleTree)
      → 0 < m
      → m < length leaves
      → length leaves < 2 ^ 32
      → bottom t.levels ≡ leaves
      → subproof blake3 (length leaves) m leaves true ≡ some rest
      → consistency blake3 t m ≡ ok (before blake3 m leaves ++ rest)
  unfolding consistency
  consistency-path m leaves rest t some_old less small same found =
      let has_levels =
        some_levels t.levels (omega (arith, ap (λ (l : List Hash). length l) same, less)) in
      let old_length : length (take m leaves) ≡ m = length-take m leaves ∙ omega (arith, less) in
      let prefix =
        old_apex-before m leaves (omega (arith, old_length, some_old))
          (omega (arith, old_length, less, small)) in
      let in_range : ((m == 0) || ltb (length leaves) m) ≡ false = ground (arith, some_old, less) in
      let apart : (m == length leaves) ≡ false = ground (arith, less) in
      rw (has_levels, same, in_range, apart, prefix, found) refl

  consistency-longer :
      (m : ℕ) (start leaves : List Hash) (t : MerkleTree)
      → 0 < m
      → m < length leaves
      → length leaves < 2 ^ 32
      → bottom t.levels ≡ leaves
      → take m leaves ≡ start
      → (path : List Hash) × (consistency blake3 t m ≡ ok path)
        × (verify_consistency blake3 m
              (root_of blake3 m (head blake3 start))
              (length leaves)
              (root_of blake3 (length leaves) (head blake3 leaves))
              path
            ≡ true)
  unfolding verify_consistency
  consistency-longer m start leaves t some_old less small same prefix =
      let up = Ascends-tree m leaves some_old less small in
      let (rest, found, joined) =
        subproof_complete blake3 (length leaves) m leaves (up.first ∷ up.rest) some_old
          (omega (arith, less)) small (λ at_end. absurd (omega (arith, at_end, less))) up.path in
      let in_range : ((m == 0) || ltb (length leaves) m) ≡ false = ground (arith, some_old, less) in
      let apart : (m == length leaves) ≡ false = ground (arith, less) in
      (
        up.first ∷ up.rest,
        consistency-path m leaves rest t some_old less small same found ∙ ap ok (sym joined),
        rw (in_range, apart, sym prefix) (check_path-Ascends m leaves up),
      )

  -- Of the same number of leaves, the path is empty.
  consistency-same :
      (leaves : List Hash) (t : MerkleTree) (hash : Hash)
      → 0 < length leaves
      → bottom t.levels ≡ leaves
      → (consistency blake3 t (length leaves) ≡ ok [])
        × (verify_consistency blake3 (length leaves) hash (length leaves) hash [] ≡ true)
  unfolding consistency verify_consistency
  consistency-same leaves t hash some_leaf same =
      let has_levels =
        some_levels t.levels (omega (arith, ap (λ (l : List Hash). length l) same, some_leaf)) in
      let in_range : ((length leaves == 0) || ltb (length leaves) (length leaves)) ≡ false =
        ground (arith, some_leaf) in
      let equal : (length leaves == length leaves) ≡ true = ground arith in
      (rw (has_levels, same, in_range, equal) refl, rw (in_range, equal) (bytes_eq_refl hash))

  -- A tree with leaves added at its end proves that it extends the tree before: `consistency` gives a path for the
  -- number of leaves of the old tree, and `verify_consistency` accepts it with both numbers and both roots.
  pub verify_consistency-consistency :
      (leaves added : List Hash) (old new : MerkleTree)
      → build blake3 leaves ≡ ok old
      → build blake3 (leaves ++ added) ≡ ok new
      → (path : List Hash) × (consistency blake3 new (leaf_count old) ≡ ok path)
        × (verify_consistency blake3
              (leaf_count old)
              (root blake3 old)
              (leaf_count new)
              (root blake3 new)
              path
            ≡ true)
  verify_consistency-consistency leaves added old new from_old from_new =
      let (old_count, old_root, old_bottom) = root-head leaves old from_old in
      let (new_count, new_root, new_bottom) = root-head (leaves ++ added) new from_new in
      let (old_levels, some_old, small_old) = build-levels blake3 leaves old from_old in
      let (new_levels, some_new, small) = build-levels blake3 (leaves ++ added) new from_new in
      let longer = length-append leaves added in
      elim (Bool-cases (length added == 0)) [
        | inr some_added ↦
            let less : length leaves < length (leaves ++ added) =
              ground (arith, some_added, longer) in
            rw (old_count, new_count, old_root, new_root)
              (consistency-longer (length leaves) leaves (leaves ++ added) new some_old less small
                new_bottom (take-append leaves added))
        | inl none_added ↦
            let nothing : added ≡ [] = nil_of_length added (ground (arith, none_added)) in
            let equal : leaves ++ added ≡ leaves =
              ap (λ (l : List Hash). leaves ++ l) nothing ∙ append-nil leaves in
            let (made, accepted) =
              consistency-same leaves new (root_of blake3 (length leaves) (head blake3 leaves))
                some_old (new_bottom ∙ equal) in
            rw (old_count, new_count, old_root, new_root, equal) ([], made, accepted)
      ]
