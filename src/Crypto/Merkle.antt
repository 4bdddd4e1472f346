-- ===== src/Crypto/Merkle.antt =====
-- crates/oc-crypto/src/merkle.rs: the integrity tree. BLAKE3 is a parameter, a function of the bytes that the
-- `update` calls add up. A hash is the list of its bytes, and the tree the list of its levels, from the leaves up.
pub mod Levels
pub mod Proofs
pub mod Messages
pub mod Apart
pub mod Sound
pub mod Update
pub mod Height
pub mod Reference
pub mod Consistency
use open_crate.Base.{
  ℕ, zero, suc, ◌+◌, ◌-◌, ◌*◌, ◌/◌, ◌%◌, ◌^◌, Bool, true, false, not, ◌&&◌, ◌||◌, Option, none,
  some, List, [], ◌∷◌, ◌++◌, ltb, leb, ◌==◌, if◌then◌else◌, length, get_elem?, set, take, drop, ok,
  err, ◌>>=◌, ◌>>◌, fail_if, ok_or,
}
use open_crate.Base.Words.{to_u32}
use open_crate.Base.Bytes.{to_be, bytes_eq}
use open_crate.Crypto.Labels.{leaf_label, node_label}
use open_crate.Crypto.{Checked, bad_length, index_out_of_range, tree_mismatch}

abbrev pub Hash : Type 0
Hash = List ℕ

-- What is hashed for a leaf, a node and a root.
unfoldable pub leaf_message : ℕ → List ℕ → List ℕ → List ℕ → List ℕ
leaf_message index nonce tag ct =
    (0 ∷ leaf_label) ++ (to_be 4 index ++ (to_be 8 (length ct) ++ (nonce ++ (tag ++ ct))))

unfoldable pub node_message : Hash → Hash → List ℕ
node_message left right = (1 ∷ node_label) ++ (left ++ right)

unfoldable pub root_message : ℕ → Hash → List ℕ
root_message leaf_count apex = (2 ∷ node_label) ++ (to_be 4 leaf_count ++ apex)

unfoldable pub is_promoted : ℕ → ℕ → Bool
is_promoted len index = (len % 2 == 1) && (index + 1 == len)

pub record MerkleTree : Type 0 where
  pub levels : List (List Hash)

-- The bottom level, and the node of the top one.
abbrev pub bottom : List (List Hash) → List Hash
bottom [] = []
bottom (level ∷ levels) = level

abbrev pub top : List (List Hash) → List Hash
top [] = []
top (level ∷ []) = level
top (level ∷ next ∷ levels) = top (next ∷ levels)

abbrev pub zeros : ℕ → Hash
zeros zero = []
zeros (suc n) = 0 ∷ zeros n

abbrev pub first_or : Hash → List Hash → Hash
first_or other [] = other
first_or other (hash ∷ rest) = hash

unfoldable pub apex : MerkleTree → Hash
apex t = first_or (zeros 32) (top t.levels)

-- `u32::try_from(n).unwrap_or(u32::MAX)`
abbrev pub u32_or_max : ℕ → ℕ
u32_or_max n = if ltb n (2 ^ 32) then n else 2 ^ 32 - 1

unfoldable pub leaf_count : MerkleTree → ℕ
leaf_count t = u32_or_max (length (bottom t.levels))

-- The index of the other child of the same node.
abbrev pub sibling_of : ℕ → ℕ
sibling_of position = if position % 2 == 0 then position + 1 else position - 1

-- The loop of `split_point`: 64 doublings leave the range of a `usize`, where a saturating product ends it as well.
pub double_below : ℕ → ℕ → ℕ → ℕ
double_below zero n k = k
double_below (suc fuel) n k =
    let doubled = double_below fuel n (k * 2) in if ltb (k * 2) n then doubled else k

pub split_point : ℕ → ℕ
unfolding double_below
split_point n = double_below 64 n 1

-- `slice::split_at_checked`
abbrev pub split_at_checked : ℕ → List Hash → Option (List Hash × List Hash)
split_at_checked k hashes =
    if leb k (length hashes) then some (take k hashes, drop k hashes) else none

module _ (blake3 : List ℕ → Hash) where
  unfoldable pub leaf_of : ℕ → List ℕ → List ℕ → List ℕ → Hash
  leaf_of index nonce tag ct = blake3 (leaf_message index nonce tag ct)

  unfoldable pub node_of : Hash → Hash → Hash
  node_of left right = blake3 (node_message left right)

  unfoldable pub root_of : ℕ → Hash → Hash
  root_of leaf_count apex = blake3 (root_message leaf_count apex)

  pub parent_of : List Hash → ℕ → Checked Hash
  parent_of level index =
      if is_promoted (length level) index
      then ok_or (get_elem? level index) index_out_of_range
      else (do
        left ← ok_or (get_elem? level (index - index % 2)) index_out_of_range
        right ← ok_or (get_elem? level (index - index % 2 + 1)) index_out_of_range
        ok (node_of left right))

  -- `for pair in current.chunks(2)`
  unfoldable pub next_level : List Hash → List Hash
  next_level [] = []
  next_level (left ∷ []) = left ∷ []
  next_level (left ∷ right ∷ rest) = node_of left right ∷ next_level rest

  -- `while current.len() > 1`; the length of the leaves is fuel enough.
  unfoldable pub levels_of : ℕ → List Hash → List (List Hash)
  levels_of zero current = current ∷ []
  levels_of (suc fuel) current =
      let rest = levels_of fuel (next_level current) in
      if ltb 1 (length current) then current ∷ rest else current ∷ []

  -- `MerkleTree::build`
  unfoldable pub build : List Hash → Checked MerkleTree
  build leaves = do
    fail_if (length leaves == 0) bad_length
    count ← ok_or (to_u32 (length leaves)) bad_length
    ok (record { levels = levels_of (length leaves) leaves })

  -- `MerkleTree::root`
  unfoldable pub root : MerkleTree → Hash
  root t = root_of (leaf_count t) (apex t)

  -- The loop of `MerkleTree::update_leaf`: the level at `depth`, and the levels above it.
  pub update_path : List Hash → List (List Hash) → ℕ → Checked (List (List Hash))
  update_path level [] position =
      if leb (length level) 1
      then ok (level ∷ [])
      else (do parent ← parent_of level position; err tree_mismatch)
  update_path level (above ∷ levels) position =
      if leb (length level) 1 then ok (level ∷ above ∷ levels) else (do
        parent ← parent_of level position
        fail_if (leb (length above) (position / 2)) tree_mismatch
        done ← update_path (set above (position / 2) parent) levels (position / 2)
        ok (level ∷ done))

  -- `MerkleTree::update_leaf`: the changed levels and the new root.
  pub update_leaf : MerkleTree → ℕ → Hash → Checked (MerkleTree × Hash)
  update_leaf t index leaf = do
    fail_if (leb (leaf_count t) index) index_out_of_range
    fail_if (leb (length (bottom t.levels)) index) index_out_of_range
    levels ← update_path (set (bottom t.levels) index leaf) (drop 1 t.levels) index
    ok (record { levels = levels }, root (record { levels = levels }))

  -- The loop of `MerkleTree::verify_proof`: how far the path is used, and what has been accumulated.
  unfoldable pub climb : ℕ → ℕ → ℕ → Hash → ℕ → List Hash → Option (ℕ × Hash)
  climb zero len position accumulator used proof = some (used, accumulator)
  climb (suc fuel) len position accumulator used proof =
      if leb len 1
      then some (used, accumulator)
      else if is_promoted len position
      then climb fuel ((len + 1) / 2) (position / 2) accumulator used proof
      else elim (get_elem? proof used) [
        | none ↦ none
        | some sibling ↦
            climb fuel ((len + 1) / 2) (position / 2)
              (if position % 2 == 0
                then node_of accumulator sibling
                else node_of sibling accumulator)
              (used + 1) proof
      ]

  -- What `verify_proof` does after the loop.
  unfoldable pub check_root : Hash → ℕ → List Hash → Option (ℕ × Hash) → Bool
  check_root root leaf_count proof none = false
  check_root root leaf_count proof (some (used, accumulator)) =
      (used == length proof) && bytes_eq (root_of leaf_count accumulator) root

  -- `MerkleTree::verify_proof`; the loop has at most as many rounds as there are leaves.
  unfoldable pub verify_proof : Hash → ℕ → ℕ → Hash → List Hash → Bool
  verify_proof root index leaf_count leaf proof =
      if leaf_count == 0 || leb leaf_count index
      then false
      else check_root root leaf_count proof (climb leaf_count leaf_count index leaf 0 proof)

  -- `mth`, by fuel that stands for the length of the slice.
  pub mth : ℕ → List Hash → Option Hash
  mth zero leaves = none
  mth (suc fuel) [] = none
  mth (suc fuel) (only ∷ []) = some only
  mth (suc fuel) (a ∷ b ∷ rest) =
      elim (split_at_checked (split_point (length (a ∷ b ∷ rest))) (a ∷ b ∷ rest)) [
        | none ↦ none
        | some (left, right) ↦ elim (mth fuel left) [
          | none ↦ none
          | some left_hash ↦ elim (mth fuel right) [
            | none ↦ none
            | some right_hash ↦ some (node_of left_hash right_hash)
          ]
        ]
      ]

-- `MerkleTree::proof`, a loop over the levels.
pub proof_path : List (List Hash) → ℕ → Checked (List Hash)
proof_path [] position = ok []
proof_path (level ∷ levels) position =
    if leb (length level) 1
    then ok []
    else if is_promoted (length level) position
    then proof_path levels (position / 2)
    else (do
      sibling ← ok_or (get_elem? level (sibling_of position)) tree_mismatch
      path ← proof_path levels (position / 2)
      ok (sibling ∷ path))

pub proof : MerkleTree → ℕ → Checked (List Hash)
proof t index = do fail_if (leb (leaf_count t) index) index_out_of_range; proof_path t.levels index
