-- ===== src/Crypto/Merkle/Messages.antt =====
-- What the tree and the verifier of crates/oc-crypto/src/merkle.rs hash: the messages between which a collision of
-- the hash would have to be found to cheat the verifier.
use open_crate.Base.{
  ℕ, zero, suc, ◌+◌, ◌/◌, ◌%◌, Bool, true, not, ◌&&◌, ◌||◌, none, some, List, [], ◌∷◌, ◌++◌, leb,
  ◌==◌, if◌then◌else◌, get_elem?,
}
use open_crate.Base.Bytes.{bytes_eq}
use open_crate.Crypto.Merkle.{
  Hash, MerkleTree, node_message, root_message, is_promoted, apex, leaf_count,
}
use open_crate.Crypto.Merkle.Levels.{pair_above}

-- The messages of the nodes of the levels above the given ones, and of the root.
abbrev pub level_messages : List Hash → List (List ℕ)
level_messages [] = []
level_messages (left ∷ []) = []
level_messages (left ∷ right ∷ rest) = node_message left right ∷ level_messages rest

abbrev pub node_messages : List (List Hash) → List (List ℕ)
node_messages [] = []
node_messages (level ∷ levels) = level_messages level ++ node_messages levels

unfoldable pub tree_messages : MerkleTree → List (List ℕ)
tree_messages t = root_message (leaf_count t) (apex t) ∷ node_messages t.levels

-- The message of the node above a node and its sibling.
abbrev pub pair_message : ℕ → Hash → Hash → List ℕ
pair_message i h s = if i % 2 == 0 then node_message h s else node_message s h

module _ (blake3 : List ℕ → Hash) where
  -- The messages that `verify_proof` hashes on its way up, and the root's.
  unfoldable pub climb_messages : ℕ → ℕ → ℕ → ℕ → Hash → ℕ → List Hash → List (List ℕ)
  climb_messages count zero len position accumulator used proof =
      root_message count accumulator ∷ []
  climb_messages count (suc fuel) len position accumulator used proof =
      if leb len 1
      then root_message count accumulator ∷ []
      else if is_promoted len position
      then climb_messages count fuel ((len + 1) / 2) (position / 2) accumulator used proof
      else elim (get_elem? proof used) [
        | none ↦ []
        | some sibling ↦
            pair_message position accumulator sibling
            ∷ climb_messages count fuel ((len + 1) / 2) (position / 2)
                (pair_above blake3 position accumulator sibling) (used + 1) proof
      ]

  unfoldable pub proof_messages : ℕ → ℕ → Hash → List Hash → List (List ℕ)
  proof_messages index count leaf proof = climb_messages count count count index leaf 0 proof

  -- No message of one list has the hash of another message of the other list.
  unfoldable pub apart_from : List ℕ → List (List ℕ) → Bool
  apart_from x [] = true
  apart_from x (y ∷ ys) = (not (bytes_eq (blake3 x) (blake3 y)) || bytes_eq x y) && apart_from x ys

  unfoldable pub collision_free : List (List ℕ) → List (List ℕ) → Bool
  collision_free [] ys = true
  collision_free (x ∷ xs) ys = apart_from x ys && collision_free xs ys
