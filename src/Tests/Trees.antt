-- ===== src/Tests/Trees.antt =====
-- The tree of crates/oc-crypto/src/merkle.rs with a hash that keeps the first bytes of a message.
use open_crate.Base.{
  ◌≤◌, ◌+◌, length, ℕ, ◌≡◌, refl, Option, some, true, false, List, [], ◌∷◌, ◌++◌, take, length-take,
  length-append, ok, arith, set,
}
use open_crate.Base.Words.{to_u32}
use open_crate.Base.Bytes.{to_be, to_le, bytes_eq}
use open_crate.Crypto.Labels.{all_labels, grant_label}
use open_crate.Crypto.Transcript.{new_transcript-Unambiguous}
use open_crate.Crypto.Merkle.{
  Hash, MerkleTree, top, zeros, build, levels_of, next_level, node_of, node_message, root, root_of,
  root_message, apex, leaf_count, proof, is_promoted, verify_proof, climb, check_root, update_leaf,
  mth,
}
use open_crate.Crypto.Merkle.Consistency.{
  consistency, verify_consistency, check_path, check_roots, ascend, take_siblings, take_sibling,
  strip_odd, strip_even,
}
use open_crate.Crypto.Merkle.Consistency.Complete.{verify_consistency-consistency}
use open_crate.Crypto.Merkle.Height.{build-levels_bound}
use open_crate.Crypto.Merkle.Messages.{
  tree_messages, proof_messages, climb_messages, collision_free, apart_from,
}
use open_crate.Crypto.Merkle.Apart.{Sized}
use open_crate.Crypto.Merkle.Proofs.{verify_proof-proof}
use open_crate.Crypto.Merkle.Sound.{verify_proof-Sound}
use open_crate.Crypto.Merkle.Update.{update_leaf-build}
use open_crate.Crypto.Merkle.Reference.{apex-mth}
use mathlib.Core.List.Memᴰ

toy_hash : List ℕ → Hash
toy_hash message = take 32 (message ++ zeros 32)

toy_hash-Sized : (message : List ℕ) → Sized (toy_hash message)
unfolding toy_hash
toy_hash-Sized message =
    omega (arith, length-take 32 (message ++ zeros 32), length-append message (zeros 32))

abbrev leaf_hash : ℕ → Hash
leaf_hash n = n ∷ zeros 31

abbrev three_leaves : List Hash
three_leaves = leaf_hash 5 ∷ leaf_hash 6 ∷ leaf_hash 7 ∷ []

abbrev three_tree : MerkleTree
three_tree = record { levels = levels_of toy_hash 3 three_leaves }

three_built : build toy_hash three_leaves ≡ ok three_tree
unfolding build to_u32
three_built = refl

verify_proof-proof_example :
    (path : List Hash) × (proof three_tree 2 ≡ ok path)
    × (verify_proof toy_hash (root toy_hash three_tree) 2 (leaf_count three_tree) (leaf_hash 7) path
        ≡ true)
verify_proof-proof_example =
    verify_proof-proof toy_hash three_leaves three_tree 2 (leaf_hash 7) three_built refl

apex-mth_example : mth toy_hash 3 three_leaves ≡ some (apex three_tree)
apex-mth_example = apex-mth toy_hash three_leaves three_tree three_built

three_count : leaf_count three_tree ≡ 3
unfolding leaf_count levels_of next_level
three_count = refl

update_leaf-build_example :
    (new : MerkleTree) × (build toy_hash (set three_leaves 1 (leaf_hash 9)) ≡ ok new)
    × (update_leaf toy_hash three_tree 1 (leaf_hash 9) ≡ ok (new, root toy_hash new))
update_leaf-build_example =
    update_leaf-build toy_hash three_leaves three_tree 1 (leaf_hash 9) three_built
      (rw three_count (omega arith))

abbrev two_leaves : List Hash
two_leaves = leaf_hash 5 ∷ leaf_hash 6 ∷ []

abbrev two_tree : MerkleTree
two_tree = record { levels = levels_of toy_hash 2 two_leaves }

two_built : build toy_hash two_leaves ≡ ok two_tree
unfolding build to_u32
two_built = refl

verify_consistency-consistency_example :
    (path : List Hash) × (consistency toy_hash three_tree (leaf_count two_tree) ≡ ok path)
    × (verify_consistency toy_hash
          (leaf_count two_tree)
          (root toy_hash two_tree)
          (leaf_count three_tree)
          (root toy_hash three_tree)
          path
        ≡ true)
verify_consistency-consistency_example =
    verify_consistency-consistency toy_hash two_leaves (leaf_hash 7 ∷ []) two_tree three_tree
      two_built three_built

-- A path with a hash too many is refused.
long_path_refused :
    verify_consistency toy_hash 2
      (root toy_hash two_tree)
      3
      (root toy_hash three_tree)
      (root toy_hash two_tree ∷ leaf_hash 7 ∷ leaf_hash 7 ∷ [])
    ≡ false
unfolding verify_consistency check_path check_roots ascend take_siblings take_sibling strip_odd
    strip_even
long_path_refused = refl

abbrev three_path : List Hash
three_path = leaf_hash 6 ∷ leaf_hash 7 ∷ []

three_accepted :
    verify_proof toy_hash
      (root toy_hash three_tree)
      0
      (leaf_count three_tree)
      (leaf_hash 5)
      three_path
    ≡ true
unfolding verify_proof root toy_hash leaf_count levels_of next_level node_of node_message root_of
    root_message apex climb check_root is_promoted to_be to_le bytes_eq
three_accepted = refl

three_free :
    collision_free toy_hash
      (tree_messages three_tree)
      (proof_messages toy_hash 0 (leaf_count three_tree) (leaf_hash 5) three_path)
    ≡ true
unfolding collision_free apart_from tree_messages proof_messages climb_messages toy_hash leaf_count
    levels_of next_level node_of node_message root_message apex is_promoted to_be to_le bytes_eq
three_free = refl

verify_proof-Sound_example : ◌≡◌ {A = Option Hash} (some (leaf_hash 5)) (some (leaf_hash 5))
verify_proof-Sound_example =
    verify_proof-Sound toy_hash toy_hash-Sized three_leaves three_tree 0 (leaf_hash 5) three_path
      (refl, (refl, (refl, tt))) refl (refl, (refl, tt)) three_built three_accepted three_free

new_transcript-Unambiguous_example :
    (grant_label ≡ grant_label) × (◌≡◌ {A = List ℕ} (1 ∷ []) (1 ∷ []))
unfolding all_labels
new_transcript-Unambiguous_example =
    new_transcript-Unambiguous grant_label grant_label (1 ∷ []) (1 ∷ [])
      (Memᴰ.tail (Memᴰ.tail (Memᴰ.head refl))) (Memᴰ.tail (Memᴰ.tail (Memᴰ.head refl))) refl

build-levels_bound_example :
    (t : MerkleTree) × (build toy_hash three_leaves ≡ ok t)
    × (length (top t.levels) ≡ 1)
    × (length t.levels ≤ 2 + 1)
build-levels_bound_example =
    build-levels_bound toy_hash three_leaves 2 (omega arith) (omega arith) (omega arith)
