-- ===== src/Crypto/Merkle/Consistency/Walk.antt =====
-- The rounds of `verify_consistency` in crates/oc-crypto/src/merkle.rs along the hashes that `subproof` pushes.
use open_crate.Base.{
  ℕ, suc, ◌+◌, ◌-◌, ◌*◌, ◌^◌, ◌/◌, ◌%◌, ◌<◌, ◌≤◌, ◌≡◌, refl, ap, ◌∙◌, Bool, true, false, some, List,
  [], ◌∷◌, ◌++◌, leb, ◌==◌, ◌||◌, length, take, drop, arith, ◌⊎◌, inl, inr, Option-cases,
  length-take, length-drop, take_all, take-take, drop-take,
}
use open_crate.Crypto.Merkle.{Hash, split_point, node_of, mth}
use open_crate.Crypto.Merkle.Reference.{split_point-SplitAt}
use open_crate.Crypto.Merkle.Consistency.{
  Ascent, strip_odd, take_sibling, take_siblings, ascend, subproof,
}
use open_crate.Crypto.Merkle.Consistency.Heads.{head, mth-head, head-split, split_point-power}
use open_crate.Crypto.Merkle.Consistency.Shift.{strip_odd_lem, strip_even_lem, some_power}

abbrev pub state : ℕ → ℕ → Hash → Hash → Ascent
state fnode snode old_acc new_acc = record {
  fnode = fnode;
  snode = snode;
  old_acc = old_acc;
  new_acc = new_acc;
}

module _ (blake3 : List ℕ → Hash) where
  take_sibling-right :
      (f s : ℕ) (old new sibling : Hash)
      → f % 2 ≡ 0
      → f < s
      → take_sibling blake3 (state f s old new) sibling
        ≡ some (state (f / 2) (s / 2) old (node_of blake3 new sibling))
  unfolding take_sibling
  take_sibling-right f s old new sibling even below = ground (arith, even, below)

  take_sibling-left :
      (d g h f s : ℕ) (old new sibling : Hash)
      → g % 2 ≡ 1
      → f ≡ g * 2 ^ d
      → s ≡ h * 2 ^ d
      → 0 < s
      → (f % 2 ≡ 1) ⊎ (f ≡ s)
      → take_sibling blake3 (state f s old new) sibling
        ≡ some (state (g / 2) (h / 2) (node_of blake3 sibling old) (node_of blake3 sibling new))
  unfolding take_sibling
  take_sibling-left d g h f s old new sibling odd at_old at_new more left =
      let there = strip_even_lem (f + 1) d g h f s odd at_old at_new (omega arith) in
      let some_node : (s == 0) ≡ false = ground (arith, more) in
      let joins : ((f % 2 == 1) || (f == s)) ≡ true = elim left [
        | inl e ↦ ground (arith, e)
        | inr e ↦ ground (arith, e)
      ] in
      rw (some_node, joins, there) refl

  take_siblings-snoc :
      (a b c : Ascent) (rest : List Hash) (sibling : Hash)
      → take_siblings blake3 a rest ≡ some b
      → take_sibling blake3 b sibling ≡ some c
      → take_siblings blake3 a (rest ++ (sibling ∷ [])) ≡ some c
  unfolding take_siblings
  take_siblings-snoc a b c [] sibling all one = ground (arith, all, one)
  take_siblings-snoc a b c (x ∷ rest) sibling all one =
      elim (Option-cases (take_sibling blake3 a x)) [
        | inl e ↦ absurd (ground (arith, all, e))
        | inr (next, e) ↦
            let later : take_siblings blake3 next rest ≡ some b = ground (arith, all, e) in
            let onward = take_siblings-snoc next b c rest sibling later one in
            ground (arith, onward, e)
      ]

  -- The path for the first m leaves of a slice leads from the nodes of the last leaves of both trees to the node of
  -- the slice, with the heads of both.
  pub record Ascends (fuel m : ℕ) (leaves : List Hash) (f s a t : ℕ) : Type 0 where
    pub first : Hash
    pub rest : List Hash
    pub path : subproof blake3 fuel m leaves false ≡ some (first ∷ rest)
    pub there :
        ascend blake3 f s first rest
        ≡ some (state a t (head blake3 (take m leaves)) (head blake3 leaves))

  -- The old tree ends where the slice does.
  pub Ascends-whole :
      (fuel e a t r f s : ℕ) (leaves : List Hash)
      → 0 < length leaves
      → length leaves < 2 ^ 32
      → a % 2 ≡ 0
      → f + 1 ≡ a * 2 ^ e + 2 ^ e
      → s ≡ t * 2 ^ e + r
      → r < 2 ^ e
      → Ascends (suc fuel) (length leaves) leaves f s a t
  unfolding subproof ascend take_siblings
  Ascends-whole fuel e a t r f s leaves some_leaf small even old new within =
      let h = head blake3 leaves in
      let made : mth blake3 (length leaves) leaves ≡ some h =
        mth-head blake3 (length leaves) leaves some_leaf (omega arith) small in
      let same : (length leaves == length leaves) ≡ true = ground arith in
      let stripped = strip_odd_lem (f + 1) e a t r f s even old new within (omega arith) in
      record {
        first = h;
        rest = [];
        path = rw (subproof, same, made) refl;
        there = rw (stripped, (take_all (length leaves) leaves (omega arith)).0) refl;
      }

  ascend-snoc :
      (f s : ℕ) (first : Hash) (rest : List Hash) (b c : Ascent) (sibling : Hash)
      → ascend blake3 f s first rest ≡ some b
      → take_sibling blake3 b sibling ≡ some c
      → ascend blake3 f s first (rest ++ (sibling ∷ [])) ≡ some c
  unfolding ascend
  ascend-snoc f s first rest b c sibling all one =
      take_siblings-snoc (state (strip_odd (f + 1) f s).0 (strip_odd (f + 1) f s).1 first first) b c
        rest sibling all one

  -- In the left half the path of the half is followed by the head of the right one.
  pub subproof-left :
      (fuel m : ℕ) (leaves inner : List Hash) (complete : Bool)
      → 1 < length leaves
      → length leaves < 2 ^ 32
      → m ≤ split_point (length leaves)
      → subproof blake3 fuel m (take (split_point (length leaves)) leaves) complete ≡ some inner
      → subproof blake3 (suc fuel) m leaves complete
        ≡ some (inner ++ (head blake3 (drop (split_point (length leaves)) leaves) ∷ []))
  unfolding subproof
  subproof-left fuel m leaves inner complete more small within found =
      let k = split_point (length leaves) in
      let split = split_point-SplitAt (length leaves) more (omega (arith, small)) in
      let right = length-drop k leaves in
      let made =
        mth-head blake3 (length (drop k leaves)) (drop k leaves) (omega (arith, right, split.below))
          (omega arith) (omega (arith, right, small)) in
      let apart : (m == length leaves) ≡ false = ground (arith, within, split.below) in
      let fits : leb k (length leaves) ≡ true = ground (arith, split.below) in
      let lower : leb m k ≡ true = ground (arith, within) in
      rw (subproof, apart, fits, lower, found, made) refl

  -- The old tree ends in the left half, whose sibling is on the right.
  pub Ascends-left :
      (fuel m a t b f s : ℕ) (leaves : List Hash)
      → 1 < length leaves
      → length leaves < 2 ^ 32
      → m ≤ split_point (length leaves)
      → 2 * a < 2 * t + b
      → b < 2
      → Ascends fuel m (take (split_point (length leaves)) leaves) f s (2 * a) (2 * t + b)
      → Ascends (suc fuel) m leaves f s a t
  Ascends-left fuel m a t b f s leaves more small within below bit sub =
      let k = split_point (length leaves) in
      let sibling = head blake3 (drop k leaves) in
      let step =
        take_sibling-right (2 * a) (2 * t + b) (head blake3 (take m (take k leaves)))
          (head blake3 (take k leaves)) sibling (omega arith) below in
      let half_old : 2 * a / 2 ≡ a = omega arith in
      let half_new : (2 * t + b) / 2 ≡ t = omega (arith, bit) in
      let next =
        ascend-snoc f s sub.first sub.rest
          (state (2 * a) (2 * t + b) (head blake3 (take m (take k leaves)))
            (head blake3 (take k leaves)))
          (state (2 * a / 2) ((2 * t + b) / 2) (head blake3 (take m (take k leaves)))
            (node_of blake3 (head blake3 (take k leaves)) sibling))
          sibling sub.there step in
      record {
        first = sub.first;
        rest = sub.rest ++ (sibling ∷ []);
        path = subproof-left fuel m leaves (sub.first ∷ sub.rest) false more small within sub.path;
        there =
            next
            ∙ rw
                (
                  half_old,
                  half_new,
                  take-take m k leaves within,
                  head-split blake3 leaves k refl more small,
                )
                refl;
      }

  -- The old tree ends in the right half, whose sibling is on the left.
  pub Ascends-right :
      (fuel m j d a t b a' t' f s : ℕ) (leaves : List Hash)
      → 2 ^ j < m
      → m < length leaves
      → length leaves ≤ 2 ^ j + 2 ^ j
      → length leaves < 2 ^ 32
      → b < 2
      → a' ≡ (2 * a + 1) * 2 ^ d
      → t' ≡ (2 * t + b) * 2 ^ d
      → 0 < t'
      → (a' % 2 ≡ 1) ⊎ (a' ≡ t')
      → Ascends fuel (m - 2 ^ j) (drop (2 ^ j) leaves) f s a' t'
      → Ascends (suc fuel) m leaves f s a t
  unfolding subproof
  Ascends-right fuel m j d a t b a' t' f s leaves over below half small bit at_old at_new some_node
        turn sub =
      let k = 2 ^ j in
      let same = split_point-power (length leaves) j (omega (arith, over, below)) half small in
      let left : length (take k leaves) ≡ k = length-take k leaves ∙ omega (arith, over, below) in
      let old_length : length (take m leaves) ≡ m = length-take m leaves ∙ omega (arith, below) in
      let sibling = head blake3 (take k leaves) in
      let made : mth blake3 (length (take k leaves)) (take k leaves) ≡ some sibling =
        mth-head blake3 (length (take k leaves)) (take k leaves) (omega (arith, left, some_power j))
          (omega arith) (omega (arith, left, over, below, small)) in
      let apart : (m == length leaves) ≡ false = ground (arith, below) in
      let fits : leb (split_point (length leaves)) (length leaves) ≡ true =
        ground (arith, same, over, below) in
      let upper : leb m (split_point (length leaves)) ≡ false = ground (arith, same, over) in
      let old = head blake3 (take (m - k) (drop k leaves)) in
      let new = head blake3 (drop k leaves) in
      let step =
        take_sibling-left d (2 * a + 1) (2 * t + b) a' t' old new sibling (omega arith) at_old
          at_new some_node turn in
      let half_old : (2 * a + 1) / 2 ≡ a = omega arith in
      let half_new : (2 * t + b) / 2 ≡ t = omega (arith, bit) in
      let next =
        ascend-snoc f s sub.first sub.rest (state a' t' old new)
          (state ((2 * a + 1) / 2) ((2 * t + b) / 2) (node_of blake3 sibling old)
            (node_of blake3 sibling new))
          sibling sub.there step in
      let old_head : head blake3 (take m leaves) ≡ node_of blake3 sibling old =
        head-split blake3 (take m leaves) k
          (ap split_point old_length
            ∙ split_point-power m j over (omega (arith, below, half)) (omega (arith, below, small)))
          (omega (arith, old_length, over, some_power j)) (omega (arith, old_length, below, small))
        ∙ ap
            (λ (l : List Hash).
              node_of blake3 (head blake3 l) (head blake3 (drop k (take m leaves))))
            (take-take k m leaves (omega (arith, over)))
        ∙ ap (λ (l : List Hash). node_of blake3 sibling (head blake3 l))
            (drop-take k (m - k) m leaves (omega (arith, over))) in
      let new_head : head blake3 leaves ≡ node_of blake3 sibling new =
        head-split blake3 leaves k same (omega (arith, over, below, some_power j)) small in
      record {
        first = sub.first;
        rest = sub.rest ++ (sibling ∷ []);
        path = rw (subproof, apart, fits, upper, same, sub.path, same, made) refl;
        there = next ∙ rw (half_old, half_new, old_head, new_head) refl;
      }
