-- ===== src/Crypto/Merkle/Sound.antt =====
-- `verify_proof` of crates/oc-crypto/src/merkle.rs accepts nothing but the tree's leaves.
use open_crate.Base.{
  ℕ, zero, suc, ◌+◌, ◌/◌, ◌<◌, ◌≤◌, ◌≡◌, refl, ap, sym, ◌∙◌, true, false, some, List, ◌∷◌, ◌++◌,
  ltb, length, get_elem?, All, ok, arith, ltb→lt, Bool-cases, Option-cases, inl, inr,
}
use open_crate.Base.Bytes.{bytes_eq, bytes_eq_iff}
use open_crate.Crypto.Merkle.{
  Hash, MerkleTree, zeros, is_promoted, top, first_or, sibling_of, root_message, next_level,
  levels_of, build, root, root_of, apex, leaf_count, climb, check_root, verify_proof,
}
use open_crate.Crypto.Merkle.Levels.{
  get-next_level-promoted, get-next_level-pair, pair_above, length-next_level, levels_of-one,
  levels_of-more, build-levels, leaf_count-build, top-cons-levels_of,
}
use open_crate.Crypto.Merkle.Proofs.{climb-promoted, climb-pair, climb-one}
use open_crate.Crypto.Merkle.Messages.{
  level_messages, node_messages, tree_messages, climb_messages, proof_messages, collision_free,
  pair_message,
}
use mathlib.Core.List.{Memᴰ}
use mathlib.Core.List.Memᴰ
use open_crate.Crypto.Merkle.Apart.{
  Sized, Apart, root_message-inj, pair_message-inj, get-All, mem-level_messages,
  collision_free-Apart, pair_above-blake3, climb_messages-promoted, climb_messages-pair, climb-used,
  All-next_level, get-lt-some, mem-climb_messages, only_node,
}

module _ (blake3 : List ℕ → Hash) where
  node_messages-more :
      (fuel : ℕ) (c : List Hash)
      → 1 < length c
      → node_messages (levels_of blake3 (suc fuel) c)
        ≡ level_messages c ++ node_messages (levels_of blake3 fuel (next_level blake3 c))
  node_messages-more fuel c more = ap node_messages (levels_of-more blake3 fuel c more)

  top-more :
      (fuel : ℕ) (c : List Hash)
      → 1 < length c
      → top (levels_of blake3 (suc fuel) c) ≡ top (levels_of blake3 fuel (next_level blake3 c))
  top-more fuel c more =
      rw (levels_of-more blake3 fuel c more)
        (top-cons-levels_of blake3 c fuel (next_level blake3 c))

  -- What a climb is given: a level of the tree, a position in it, hashes of the right length, and no collision
  -- between what the tree above hashes and what the climb hashes.
  record Way (count fuel len : ℕ) (c : List Hash) (position : ℕ) (h : Hash) (used : ℕ)
      (p : List Hash) : Type 0 where
    counted : length c ≡ len
    few : len ≤ fuel + 1
    within : position < len
    sized : Sized h
    level_sized : All Sized c
    apart :
        Apart blake3
          (node_messages (levels_of blake3 fuel c))
          (climb_messages blake3 count fuel len position h used p)

  module _ (sized : (x : List ℕ) → Sized (blake3 x)) (count : ℕ) where
    Way-promoted :
        (fuel len : ℕ) (c : List Hash) (position : ℕ) (h : Hash) (used : ℕ) (p : List Hash)
        → 1 < len
        → is_promoted len position ≡ true
        → Way count (suc fuel) len c position h used p
        → Way count fuel ((len + 1) / 2) (next_level blake3 c) (position / 2) h used p
    Way-promoted fuel len c position h used p more up way = record {
      counted = length-next_level blake3 c ∙ ap (λ (n : ℕ). (n + 1) / 2) way.counted;
      few = omega (arith, way.few, more);
      within = omega (arith, way.within);
      sized = way.sized;
      level_sized = All-next_level blake3 sized c way.level_sized;
      apart = λ x y m n e.
          way.apart x y
            (rw (node_messages-more fuel c (rw way.counted more))
              (Memᴰ.append_right (level_messages c) m))
            (rw (climb_messages-promoted blake3 count fuel len position h used p more up) n) e;
    }

    Way-pair :
        (fuel len : ℕ) (c : List Hash) (position : ℕ) (h s : Hash) (used : ℕ) (p : List Hash)
        → 1 < len
        → is_promoted len position ≡ false
        → get_elem? p used ≡ some s
        → Way count (suc fuel) len c position h used p
        → Way count fuel
            ((len + 1) / 2)
            (next_level blake3 c)
            (position / 2)
            (pair_above blake3 position h s)
            (used + 1)
            p
    Way-pair fuel len c position h s used p more pair given way = record {
      counted = length-next_level blake3 c ∙ ap (λ (n : ℕ). (n + 1) / 2) way.counted;
      few = omega (arith, way.few, more);
      within = omega (arith, way.within);
      sized = rw (pair_above-blake3 blake3 position h s) (sized (pair_message position h s));
      level_sized = All-next_level blake3 sized c way.level_sized;
      apart = λ x y m n e.
          way.apart x y
            (rw (node_messages-more fuel c (rw way.counted more))
              (Memᴰ.append_right (level_messages c) m))
            (rw (climb_messages-pair blake3 count fuel len position h s used p more pair given)
              (Memᴰ.tail n))
            e;
    }

    from_pair :
        (fuel len : ℕ) (c : List Hash) (position : ℕ) (h s : Hash) (used : ℕ) (p : List Hash)
        → All Sized p
        → 1 < len
        → is_promoted len position ≡ false
        → get_elem? p used ≡ some s
        → Way count (suc fuel) len c position h used p
        → get_elem? (next_level blake3 c) (position / 2) ≡ some (pair_above blake3 position h s)
        → get_elem? c position ≡ some h
    from_pair fuel len c position h s used p path_sized more pair given way above =
        let (h', there) = get-lt-some blake3 c position (rw way.counted way.within) in
        let (s', sib, above') =
          get-next_level-pair blake3 c position h' (rw way.counted pair) there in
        let same_hash : blake3 (pair_message position h' s') ≡ blake3 (pair_message position h s) =
          rw
            (
              sym (pair_above-blake3 blake3 position h s),
              sym (pair_above-blake3 blake3 position h' s'),
            )
            (cc (above, above')) in
        let in_tree : Memᴰ (pair_message position h' s')
            (node_messages (levels_of blake3 (suc fuel) c)) =
          rw (node_messages-more fuel c (rw way.counted more)) (
            Memᴰ.append_left (node_messages (levels_of blake3 fuel (next_level blake3 c)))
              (mem-level_messages c position h' s' (rw way.counted pair) there sib)) in
        let hashed : Memᴰ (pair_message position h s)
            (climb_messages blake3 count (suc fuel) len position h used p) =
          rw (climb_messages-pair blake3 count fuel len position h s used p more pair given)
            (Memᴰ.head refl) in
        let same =
          pair_message-inj position h' h s' s (get-All Sized c position h' way.level_sized there)
            way.sized (get-All Sized c (sibling_of position) s' way.level_sized sib)
            (get-All Sized p used s path_sized given) (way.apart _ _ in_tree hashed same_hash) in
        there ∙ ap some same

    from_promoted :
        (fuel len : ℕ) (c : List Hash) (position : ℕ) (h : Hash) (used : ℕ) (p : List Hash)
        → is_promoted len position ≡ true
        → Way count (suc fuel) len c position h used p
        → get_elem? (next_level blake3 c) (position / 2) ≡ some h
        → get_elem? c position ≡ some h
    from_promoted fuel len c position h used p up way above =
        let (h', there) = get-lt-some blake3 c position (rw way.counted way.within) in
        let above' = get-next_level-promoted blake3 c position h' (rw way.counted up) there in
        there ∙ sym above' ∙ above

    at_top :
        (fuel len : ℕ) (c : List Hash) (position : ℕ) (h : Hash) (used : ℕ) (p : List Hash) (n : ℕ)
        (z : Hash)
        → Way count fuel len c position h used p
        → len ≤ 1
        → climb blake3 fuel len position h used p
          ≡ some (n, first_or z (top (levels_of blake3 fuel c)))
        → get_elem? c position ≡ some h
    at_top fuel len c position h used p n z way one e =
        let few : length c ≤ 1 = rw way.counted one in
        let single = levels_of-one blake3 fuel c few in
        let ended = climb-one blake3 fuel len position h used p one in
        only_node blake3 c position h z few (rw way.counted way.within) (cc (e, ended, single))

    down :
        (fuel len : ℕ) (c : List Hash) (position : ℕ) (h : Hash) (used : ℕ) (p : List Hash) (n : ℕ)
        (z : Hash)
        → All Sized p
        → Way count fuel len c position h used p
        → climb blake3 fuel len position h used p
          ≡ some (n, first_or z (top (levels_of blake3 fuel c)))
        → get_elem? c position ≡ some h
    down zero len c position h used p n z path_sized way e =
        at_top 0 len c position h used p n z way way.few e
    down (suc fuel) len c position h used p n z path_sized way e = elim (Bool-cases (ltb 1 len)) [
      | inl more ↦
          let more = ltb→lt 1 len more in
          let reached =
            e
            ∙ ap (λ (level : List Hash). some (n, first_or z level))
                (top-more fuel c (rw way.counted more)) in
          elim (Bool-cases (is_promoted len position)) [
            | inl up ↦
                let above =
                  down fuel ((len + 1) / 2) (next_level blake3 c) (position / 2) h used p n z
                    path_sized (Way-promoted fuel len c position h used p more up way)
                    (sym (climb-promoted blake3 fuel len position h used p more up) ∙ reached) in
                from_promoted fuel len c position h used p up way above
            | inr pair ↦
                let (s, given) = climb-used blake3 fuel len position h used p _ more pair e in
                let above =
                  down fuel ((len + 1) / 2) (next_level blake3 c) (position / 2)
                    (pair_above blake3 position h s) (used + 1) p n z path_sized
                    (Way-pair fuel len c position h s used p more pair given way)
                    (sym (climb-pair blake3 fuel len position h s used p more pair given)
                      ∙ reached) in
                from_pair fuel len c position h s used p path_sized more pair given way above
          ]
      | inr one ↦ at_top (suc fuel) len c position h used p n z way (ground (arith, one)) e
    ]

  accepted-parts :
      (given : Hash) (index count : ℕ) (leaf : Hash) (path : List Hash)
      → verify_proof blake3 given index count leaf path ≡ true
      → (index < count)
        × ((a : Hash) × (climb blake3 count count index leaf 0 path ≡ some (length path, a))
            × (root_of blake3 count a ≡ given))
  unfolding verify_proof check_root
  accepted-parts given index count leaf path v =
      elim (Option-cases (climb blake3 count count index leaf 0 path)) [
        | inl stuck ↦ absurd (ground (arith, stuck, v))
        | inr ((used, a), reached) ↦
            let ended : used ≡ length path = ground (arith, reached, v) in
            let same : bytes_eq (root_of blake3 count a) given ≡ true =
              ground (arith, reached, v) in
            (
              ground (arith, v),
              (a, cc (reached, ended), (bytes_eq_iff (root_of blake3 count a) given).0 same),
            )
      ]

  module _ (sized : (x : List ℕ) → Sized (blake3 x)) where
    reached_leaf :
        (leaves : List Hash) (levels : List (List Hash)) (index count : ℕ) (leaf : Hash)
        (path : List Hash) (a : Hash)
        → All Sized leaves
        → Sized leaf
        → All Sized path
        → length leaves ≡ count
        → levels ≡ levels_of blake3 count leaves
        → index < count
        → climb blake3 count count index leaf 0 path ≡ some (length path, a)
        → root_of blake3 count a ≡ root_of blake3 count (first_or (zeros 32) (top levels))
        → Apart blake3
            (root_message count (first_or (zeros 32) (top levels)) ∷ node_messages levels)
            (climb_messages blake3 count count count index leaf 0 path)
        → get_elem? leaves index ≡ some leaf
    unfolding root_of
    reached_leaf leaves levels index count leaf path a all one given counted built within reached
          rooted free =
        let hashed =
          mem-climb_messages blake3 count count count index leaf 0 path (length path) a reached in
        let same = root_message-inj count _ a (free _ _ (Memᴰ.head refl) hashed (sym rooted)) in
        down sized count count count leaves index leaf 0 path (length path) (zeros 32) given
          (record {
            counted = counted;
            few = omega arith;
            within = within;
            sized = one;
            level_sized = all;
            apart = λ x y m n e. free x y (Memᴰ.tail (rw built m)) n e;
          })
          (reached ∙ cc (same, built))

    -- A leaf that the verifier accepts for a tree's root and leaf count is the tree's leaf at the index, unless the hash
    -- takes the same value at two different messages, one that the tree hashes and one that the verifier hashes.
    -- Hashes are 32 bytes long, those that are given and those that are computed.
    pub verify_proof-Sound :
        (leaves : List Hash) (t : MerkleTree) (index : ℕ) (leaf : Hash) (path : List Hash)
        → All Sized leaves
        → Sized leaf
        → All Sized path
        → build blake3 leaves ≡ ok t
        → verify_proof blake3 (root blake3 t) index (leaf_count t) leaf path ≡ true
        → collision_free blake3
            (tree_messages t)
            (proof_messages blake3 index (leaf_count t) leaf path)
          ≡ true
        → get_elem? leaves index ≡ some leaf
    unfolding root apex tree_messages proof_messages
    verify_proof-Sound leaves t index leaf path all one given e v free =
        let (same, some_leaf, small) = build-levels blake3 leaves t e in
        let counted : length leaves ≡ leaf_count t =
          sym (ap leaf_count same ∙ leaf_count-build blake3 leaves small) in
        let built : t.levels ≡ levels_of blake3 (leaf_count t) leaves =
          ap MerkleTree.levels same ∙ ap (λ (n : ℕ). levels_of blake3 n leaves) counted in
        let (within, (a, reached, rooted)) = accepted-parts _ index (leaf_count t) leaf path v in
        reached_leaf leaves t.levels index (leaf_count t) leaf path a all one given counted built
          within reached rooted (collision_free-Apart blake3 _ _ free)
