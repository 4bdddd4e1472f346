-- ===== src/Crypto/Merkle/Proofs.antt =====
-- `proof` and `verify_proof` of crates/oc-crypto/src/merkle.rs: what the tree proves is accepted.
use open_crate.Base.{
  ℕ, zero, suc, ◌+◌, ◌/◌, ◌<◌, ◌≤◌, ◌≡◌, refl, sym, ◌∙◌, true, false, some, List, [], ◌∷◌, ◌++◌,
  ltb, length, get_elem?, ok, arith, le→leb, ltb→lt, Bool-cases, inl, inr, length-append,
  get-some-lt,
}
use open_crate.Base.Bytes.{bytes_eq_iff}
use open_crate.Crypto.Merkle.{
  Hash, MerkleTree, zeros, is_promoted, top, first_or, sibling_of, next_level, levels_of, build,
  root, root_of, apex, leaf_count, climb, check_root, verify_proof, proof_path, proof,
}
use open_crate.Crypto.Merkle.Levels.{
  get-next_level-promoted, get-next_level-pair, pair_above, length-next_level, levels_of-one,
  levels_of-more, build-levels, leaf_count-build, top-cons-levels_of, shrinks,
}
use mathlib.Core.List.{append_assoc}

get-middle :
    (pre : List Hash) (x : Hash) (post : List Hash)
    → get_elem? (pre ++ (x ∷ post)) (length pre) ≡ some x
get-middle [] x post = refl
get-middle (y ∷ pre) x post = get-middle pre x post

-- From a node of a level up: the path that the tree gives, and where the verifier gets with it, whatever
-- path elements stand before.
record Climbs (blake3 : List ℕ → Hash) (levels : List (List Hash)) (fuel len position : ℕ)
    (h : Hash) : Type 0 where
  path : List Hash
  given : proof_path levels position ≡ ok path
  accepted :
      (pre : List Hash) (z : Hash)
      → climb blake3 fuel len position h (length pre) (pre ++ path)
        ≡ some (length pre + length path, first_or z (top levels))

module _ (blake3 : List ℕ → Hash) where
  pub climb-promoted :
      (fuel len position : ℕ) (h : Hash) (used : ℕ) (p : List Hash)
      → 1 < len
      → is_promoted len position ≡ true
      → climb blake3 (suc fuel) len position h used p
        ≡ climb blake3 fuel ((len + 1) / 2) (position / 2) h used p
  unfolding climb
  climb-promoted fuel len position h used p more e = ground (arith, e)

  pub climb-pair :
      (fuel len position : ℕ) (h s : Hash) (used : ℕ) (p : List Hash)
      → 1 < len
      → is_promoted len position ≡ false
      → get_elem? p used ≡ some s
      → climb blake3 (suc fuel) len position h used p
        ≡ climb blake3 fuel
            ((len + 1) / 2)
            (position / 2)
            (pair_above blake3 position h s)
            (used + 1)
            p
  unfolding climb
  climb-pair fuel len position h s used p more e g = ground (arith, e, g)

  pub climb-one :
      (fuel len position : ℕ) (h : Hash) (used : ℕ) (p : List Hash)
      → len ≤ 1
      → climb blake3 fuel len position h used p ≡ some (used, h)
  unfolding climb
  climb-one zero len position h used p one = refl
  climb-one (suc fuel) len position h used p one = rw (le→leb len 1 one) refl

  path-promoted :
      (c : List Hash) (levels : List (List Hash)) (position : ℕ)
      → 1 < length c
      → is_promoted (length c) position ≡ true
      → proof_path (c ∷ levels) position ≡ proof_path levels (position / 2)
  unfolding proof_path
  path-promoted c levels position more e = ground (arith, e)

  path-pair :
      (c : List Hash) (levels : List (List Hash)) (position : ℕ) (s : Hash) (path : List Hash)
      → 1 < length c
      → is_promoted (length c) position ≡ false
      → get_elem? c (sibling_of position) ≡ some s
      → proof_path levels (position / 2) ≡ ok path
      → proof_path (c ∷ levels) position ≡ ok (s ∷ path)
  unfolding proof_path
  path-pair c levels position s path more e g h = ground (arith, e, g, h)

  path-one :
      (c : List Hash) (levels : List (List Hash)) (position : ℕ)
      → length c ≤ 1
      → proof_path (c ∷ levels) position ≡ ok []
  unfolding proof_path
  path-one c levels position one = rw (le→leb (length c) 1 one) refl

  only_one :
      (c : List Hash) (position : ℕ) (h z : Hash)
      → length c ≤ 1
      → get_elem? c position ≡ some h
      → first_or z c ≡ h
  only_one [] position h z one e = cc
  only_one (x ∷ []) zero h z one e = cc
  only_one (x ∷ []) (suc i) h z one e = cc
  only_one (x ∷ y ∷ rest) position h z one e = absurd (omega (arith, one))

  one_level :
      (fuel : ℕ) (c : List Hash) (position : ℕ) (h : Hash)
      → length c ≤ 1
      → get_elem? c position ≡ some h
      → Climbs blake3 (c ∷ []) fuel (length c) position h
  one_level fuel c position h one e = record {
    path = [];
    given = path-one c [] position one;
    accepted = λ pre z.
        let counted : length pre + 0 ≡ length pre = omega arith in
        climb-one fuel (length c) position h (length pre) (pre ++ []) one
        ∙ rw (only_one c position h z one e, counted) refl;
  }

  over_promoted :
      (fuel : ℕ) (c : List Hash) (levels : List (List Hash)) (position : ℕ) (h : Hash)
      → 1 < length c
      → top (c ∷ levels) ≡ top levels
      → is_promoted (length c) position ≡ true
      → Climbs blake3 levels fuel ((length c + 1) / 2) (position / 2) h
      → Climbs blake3 (c ∷ levels) (suc fuel) (length c) position h
  over_promoted fuel c levels position h more same e up = record {
    path = up.path;
    given = path-promoted c levels position more e ∙ up.given;
    accepted = λ pre z.
        climb-promoted fuel (length c) position h (length pre) (pre ++ up.path) more e
        ∙ rw same (up.accepted pre z);
  }

  over_pair :
      (fuel : ℕ) (c : List Hash) (levels : List (List Hash)) (position : ℕ) (h s : Hash)
      → 1 < length c
      → top (c ∷ levels) ≡ top levels
      → is_promoted (length c) position ≡ false
      → get_elem? c (sibling_of position) ≡ some s
      → Climbs blake3 levels fuel
          ((length c + 1) / 2)
          (position / 2)
          (pair_above blake3 position h s)
      → Climbs blake3 (c ∷ levels) (suc fuel) (length c) position h
  over_pair fuel c levels position h s more same e g up = record {
    path = s ∷ up.path;
    given = path-pair c levels position s up.path more e g up.given;
    accepted = λ pre z.
        let next = up.accepted (pre ++ (s ∷ [])) z in
        let longer : length (pre ++ (s ∷ [])) ≡ length pre + 1 = length-append pre (s ∷ []) in
        let joined : (pre ++ (s ∷ [])) ++ up.path ≡ pre ++ (s ∷ up.path) =
          append_assoc pre (s ∷ []) up.path in
        climb-pair fuel (length c) position h s (length pre) (pre ++ (s ∷ up.path)) more e
          (get-middle pre s up.path)
        ∙ (let counted : length pre + 1 + length up.path ≡ length pre + suc (length up.path) =
              omega arith in
            cc (next, longer, joined, same, counted));
  }

  climbs :
      (fuel : ℕ) (c : List Hash) (position : ℕ) (h : Hash)
      → length c ≤ fuel + 1
      → get_elem? c position ≡ some h
      → Climbs blake3 (levels_of blake3 fuel c) fuel (length c) position h
  climbs zero c position h few e =
      rw (levels_of-one blake3 0 c (omega (arith, few)))
        (one_level 0 c position h (omega (arith, few)) e)
  climbs (suc fuel) c position h few e = elim (Bool-cases (ltb 1 (length c))) [
    | inl more ↦
        let more = ltb→lt 1 (length c) more in
        let next = next_level blake3 c in
        let small = shrinks blake3 fuel c (omega (arith, few)) more in
        let same = top-cons-levels_of blake3 c fuel next in
        rw (levels_of-more blake3 fuel c more)
          (elim (Bool-cases (is_promoted (length c) position)) [
            | inl p ↦
                let up =
                  climbs fuel next (position / 2) h small
                    (get-next_level-promoted blake3 c position h p e) in
                over_promoted fuel c (levels_of blake3 fuel next) position h more same p
                  (rw (sym (length-next_level blake3 c)) up)
            | inr p ↦
                let (s, sib, above) = get-next_level-pair blake3 c position h p e in
                let up =
                  climbs fuel next (position / 2) (pair_above blake3 position h s) small above in
                over_pair fuel c (levels_of blake3 fuel next) position h s more same p sib
                  (rw (sym (length-next_level blake3 c)) up)
          ])
    | inr one ↦
        let one : length c ≤ 1 = ground arith in
        rw (levels_of-one blake3 (suc fuel) c one) (one_level (suc fuel) c position h one e)
  ]

  proof-given :
      (t : MerkleTree) (index : ℕ) (path : List Hash)
      → index < leaf_count t
      → proof_path t.levels index ≡ ok path
      → proof t index ≡ ok path
  unfolding proof
  proof-given t index path small e = ground (arith, e, small)

  accepted-root :
      (root apex : Hash) (index count : ℕ) (leaf : Hash) (path : List Hash)
      → index < count
      → root_of blake3 count apex ≡ root
      → climb blake3 count count index leaf 0 path ≡ some (length path, apex)
      → verify_proof blake3 root index count leaf path ≡ true
  unfolding verify_proof check_root
  accepted-root root apex index count leaf path small r e =
      let same = (bytes_eq_iff (root_of blake3 count apex) root).1 r in
      ground (arith, same, small, e)

  from_bottom :
      (count position : ℕ) (levels : List (List Hash)) (h : Hash)
      → (up : Climbs blake3 levels count count position h)
      → climb blake3 count count position h 0 up.path
        ≡ some (length up.path, first_or (zeros 32) (top levels))
  from_bottom count position levels h up =
      let counted : 0 + length up.path ≡ length up.path = omega arith in
      up.accepted [] (zeros 32) ∙ rw counted refl

  proved :
      (count index : ℕ) (t : MerkleTree) (leaf : Hash)
      → leaf_count t ≡ count
      → index < count
      → Climbs blake3 t.levels count count index leaf
      → (path : List Hash) × (proof t index ≡ ok path)
        × (verify_proof blake3 (root blake3 t) index (leaf_count t) leaf path ≡ true)
  unfolding root apex
  proved count index t leaf counted within up = rw counted (
    up.path,
    proof-given t index up.path (rw counted within) up.given,
    accepted-root (root_of blake3 count (apex t)) (apex t) index count leaf up.path within refl
        (from_bottom count index t.levels leaf up),
  )

  -- For every leaf of a tree that is built, `proof` gives a path, and `verify_proof` accepts the leaf with this path at
  -- its index, for the tree's leaf count and root.
  pub verify_proof-proof :
      (leaves : List Hash) (t : MerkleTree) (index : ℕ) (leaf : Hash)
      → build blake3 leaves ≡ ok t
      → get_elem? leaves index ≡ some leaf
      → (path : List Hash) × (proof t index ≡ ok path)
        × (verify_proof blake3 (root blake3 t) index (leaf_count t) leaf path ≡ true)
  verify_proof-proof leaves t index leaf e g =
      let (same, some_leaf, small) = build-levels blake3 leaves t e in
      rw same (
        proved (length leaves) index (record { levels = levels_of blake3 (length leaves) leaves })
          leaf (leaf_count-build blake3 leaves small) (get-some-lt leaves index leaf g)
          (climbs (length leaves) leaves index leaf (omega arith) g))
