-- ===== src/Crypto/Merkle/Consistency.antt =====
-- crates/oc-crypto/src/merkle.rs: the proof that one tree is a prefix of another, `consistency`,
-- `verify_consistency` and `subproof` (RFC 9162, 2.1.4).
pub mod Heads
pub mod Shift
pub mod Walk
pub mod Place
pub mod RightPlace
pub mod Induction
pub mod Prefix
pub mod Complete
use open_crate.Base.{
  ℕ, zero, suc, ◌+◌, ◌-◌, ◌/◌, ◌%◌, Bool, true, false, not, ◌&&◌, ◌||◌, Option, none, some, List,
  [], ◌∷◌, ◌++◌, ltb, leb, ◌==◌, if◌then◌else◌, length, take, ok, ◌>>=◌, ◌>>◌, fail_if, ok_or,
}
use open_crate.Base.Words.{is_power_of_two}
use open_crate.Base.Bytes.{bytes_eq}
use open_crate.Crypto.{Checked, index_out_of_range, tree_mismatch}
use open_crate.Crypto.Merkle.{
  Hash, MerkleTree, bottom, split_point, split_at_checked, node_of, root_of, mth,
}

-- The variables of the loop of `verify_consistency`.
pub record Ascent : Type 0 where
  pub fnode : ℕ
  pub snode : ℕ
  pub old_acc : Hash
  pub new_acc : Hash

-- `while fnode % 2 == 1`; the fuel is more than fnode, which each round halves.
unfoldable pub strip_odd : ℕ → ℕ → ℕ → ℕ × ℕ
strip_odd zero fnode snode = (fnode, snode)
strip_odd (suc fuel) fnode snode = elim (fnode % 2 == 1) [
  | true ↦ strip_odd fuel (fnode / 2) (snode / 2)
  | false ↦ (fnode, snode)
]

-- `while fnode % 2 == 0 && fnode != 0`, by the same fuel.
unfoldable pub strip_even : ℕ → ℕ → ℕ → ℕ × ℕ
strip_even zero fnode snode = (fnode, snode)
strip_even (suc fuel) fnode snode = elim ((fnode % 2 == 0) && not (fnode == 0)) [
  | true ↦ strip_even fuel (fnode / 2) (snode / 2)
  | false ↦ (fnode, snode)
]

module _ (blake3 : List ℕ → Hash) where
  -- One round of `for sibling in rest`.
  unfoldable pub take_sibling : Ascent → Hash → Option Ascent
  take_sibling a sibling =
      if a.snode == 0
      then none
      else if (a.fnode % 2 == 1) || (a.fnode == a.snode)
      then some (record {
        fnode = (strip_even (a.fnode + 1) a.fnode a.snode).0 / 2;
        snode = (strip_even (a.fnode + 1) a.fnode a.snode).1 / 2;
        old_acc = node_of blake3 sibling a.old_acc;
        new_acc = node_of blake3 sibling a.new_acc;
      })
      else some (record {
        fnode = a.fnode / 2;
        snode = a.snode / 2;
        old_acc = a.old_acc;
        new_acc = node_of blake3 a.new_acc sibling;
      })

  unfoldable pub take_siblings : Ascent → List Hash → Option Ascent
  take_siblings a [] = some a
  take_siblings a (sibling ∷ rest) = elim (take_sibling a sibling) [
    | none ↦ none
    | some next ↦ take_siblings next rest
  ]

  -- What `verify_consistency` does after the loop.
  unfoldable pub check_roots : ℕ → Hash → ℕ → Hash → Option Ascent → Bool
  check_roots old_count old_root new_count new_root none = false
  check_roots old_count old_root new_count new_root (some a) =
      (a.snode == 0)
      && (bytes_eq (root_of blake3 old_count a.old_acc) old_root
          && bytes_eq (root_of blake3 new_count a.new_acc) new_root)

  -- The loop from the first hash of the path on.
  unfoldable pub ascend : ℕ → ℕ → Hash → List Hash → Option Ascent
  ascend fnode snode first rest =
      take_siblings
        (record {
          fnode = (strip_odd (fnode + 1) fnode snode).0;
          snode = (strip_odd (fnode + 1) fnode snode).1;
          old_acc = first;
          new_acc = first;
        })
        rest

  unfoldable pub check_path : ℕ → Hash → ℕ → Hash → List Hash → Bool
  check_path old_count old_root new_count new_root [] = false
  check_path old_count old_root new_count new_root (first ∷ rest) =
      check_roots old_count old_root new_count new_root
        (ascend (old_count - 1) (new_count - 1) first rest)

  -- `MerkleTree::verify_consistency`
  unfoldable pub verify_consistency : ℕ → Hash → ℕ → Hash → List Hash → Bool
  verify_consistency old_count old_root new_count new_root proof =
      if (old_count == 0) || ltb new_count old_count
      then false
      else if old_count == new_count
      then (length proof == 0) && bytes_eq old_root new_root
      else check_path old_count old_root new_count new_root proof

  -- `subproof`: the hashes it pushes, in their order. The fuel is the length of the slice.
  pub subproof : ℕ → ℕ → List Hash → Bool → Option (List Hash)
  subproof zero m leaves complete = none
  subproof (suc fuel) m leaves complete = elim (m == length leaves) [
    | true ↦
        if complete
        then some []
        else elim (mth blake3 (length leaves) leaves) [ none ↦ none | some h ↦ some (h ∷ []) ]
    | false ↦ elim (split_at_checked (split_point (length leaves)) leaves) [
      | none ↦ none
      | some (left, right) ↦ elim (leb m (split_point (length leaves))) [
        | true ↦ elim (subproof fuel m left complete) [
          | none ↦ none
          | some path ↦ elim (mth blake3 (length right) right) [
            | none ↦ none
            | some h ↦ some (path ++ (h ∷ []))
          ]
        ]
        | false ↦ elim (subproof fuel (m - split_point (length leaves)) right false) [
          | none ↦ none
          | some path ↦ elim (mth blake3 (length left) left) [
            | none ↦ none
            | some h ↦ some (path ++ (h ∷ []))
          ]
        ]
      ]
    ]
  ]

  -- What `consistency` pushes before it calls `subproof`.
  pub old_apex : ℕ → List Hash → Checked (List Hash)
  old_apex m leaves =
      if is_power_of_two m
      then (do
        h ← ok_or (mth blake3 (length (take m leaves)) (take m leaves)) tree_mismatch
        ok (h ∷ []))
      else ok []

  -- `MerkleTree::consistency`
  pub consistency : MerkleTree → ℕ → Checked (List Hash)
  consistency t old_count = do
    fail_if ((length t.levels == 0)) tree_mismatch
    fail_if ((old_count == 0) || ltb (length (bottom t.levels)) old_count) index_out_of_range
    if old_count == length (bottom t.levels) then ok [] else (do
      prefix ← old_apex old_count (bottom t.levels)
      path ←
          ok_or (subproof (length (bottom t.levels)) old_count (bottom t.levels) true) tree_mismatch
      ok (prefix ++ path))
