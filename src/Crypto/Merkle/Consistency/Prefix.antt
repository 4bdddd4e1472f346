-- ===== src/Crypto/Merkle/Consistency/Prefix.antt =====
-- Where `consistency` of crates/oc-crypto/src/merkle.rs puts the head of the old tree: before the path when its number
-- of leaves is a power of two, and where `subproof` comes to it otherwise.
use open_crate.Base.{
  ℕ, zero, suc, ◌+◌, ◌-◌, ◌^◌, ◌<◌, ◌≤◌, ◌≡◌, refl, ap, ◌∙◌, true, false, none, some, List, [], ◌∷◌,
  ◌++◌, leb, ◌==◌, if◌then◌else◌, length, take, drop, arith, inl, inr, Bool-cases, Option-cases,
  length-take, take_all, take-take, ltb, ltb→lt,
}
use mathlib.Core.List.{append_assoc}
use open_crate.Base.Words.{is_power_of_two, power_within}
use open_crate.Crypto.Merkle.{Hash, split_point}
use open_crate.Crypto.Merkle.Reference.{split_point-SplitAt}
use open_crate.Crypto.Merkle.Consistency.{subproof}
use open_crate.Crypto.Merkle.Consistency.Walk.{subproof-left}
use open_crate.Crypto.Merkle.Consistency.Heads.{power_grows, exponent_below, head, mth-head}

power_within-exponent : (k n : ℕ) → power_within k n ≡ true → (e : ℕ) × (n ≡ 2 ^ e)
unfolding power_within
power_within-exponent zero n h = cc
power_within-exponent (suc k) n h = elim (Bool-cases (n == 2 ^ k)) [
  | inl here ↦ (k, ground (arith, here))
  | inr other ↦ power_within-exponent k n (ground (arith, h, other))
]

power_within-power : (k e : ℕ) → e < k → power_within k (2 ^ e) ≡ true
unfolding power_within
power_within-power zero e below = absurd (omega (arith, below))
power_within-power (suc k) e below = elim (Bool-cases (e == k)) [
  | inl here ↦
      let same : 2 ^ e ≡ 2 ^ k = ap (λ (x : ℕ). 2 ^ x) (ground (arith, here)) in
      ground (arith, same)
  | inr other ↦
      let later = power_within-power k e (ground (arith, below, other)) in ground (arith, later)
]

is_power_of_two-power : (e : ℕ) → 2 ^ e < 2 ^ 32 → is_power_of_two (2 ^ e) ≡ true
unfolding is_power_of_two
is_power_of_two-power e small = elim (Bool-cases (ltb e 32)) [
  | inl below ↦ power_within-power 32 e (ltb→lt e 32 below)
  | inr over ↦
      let above : 32 ≤ e = ground (arith, over) in
      let same : 2 ^ (32 + (e - 32)) ≡ 2 ^ e = ap (λ (x : ℕ). 2 ^ x) (omega (arith, above)) in
      absurd (omega (arith, small, same, power_grows 32 (e - 32)))
]

-- Between a power of two and its double there is none.
is_power_of_two-between : (i m : ℕ) → 2 ^ i < m → m < 2 ^ i + 2 ^ i → is_power_of_two m ≡ false
unfolding is_power_of_two
is_power_of_two-between i m over under = elim (Bool-cases (power_within 32 m)) [
  | inr none_of ↦ none_of
  | inl found ↦
      let (e, same) = power_within-exponent 32 m found in
      let below = exponent_below e i (omega (arith, under, same)) in
      let level : 2 ^ (e + (i - e)) ≡ 2 ^ i = ap (λ (x : ℕ). 2 ^ x) (omega (arith, below)) in
      absurd (omega (arith, over, same, level, power_grows e (i - e)))
]

join_ends :
    (path inner other start rest end : List Hash)
    → path ≡ inner ++ end
    → inner ≡ other ++ rest
    → other ≡ start
    → path ≡ start ++ (rest ++ end)
join_ends path inner other start rest end whole joined same =
    rw (whole, joined, same) (append_assoc start rest end)

power_at_end : (i m : ℕ) → m ≡ 2 ^ i → 2 ^ i < 2 ^ 32 → is_power_of_two m ≡ true
power_at_end i m same small = rw same (is_power_of_two-power i small)

module _ (blake3 : List ℕ → Hash) where
  -- What stands before the path that `subproof` gives with `complete`.
  abbrev pub before : ℕ → List Hash → List Hash
  before m leaves = if is_power_of_two m then head blake3 (take m leaves) ∷ [] else []

  subproof-inner :
      (fuel m : ℕ) (leaves path : List Hash)
      → m < length leaves
      → leb (split_point (length leaves)) (length leaves) ≡ true
      → leb m (split_point (length leaves)) ≡ true
      → subproof blake3 (suc fuel) m leaves false ≡ some path
      → (inner : List Hash) × (subproof blake3 fuel m
            (take (split_point (length leaves)) leaves)
            false
          ≡ some inner)
  unfolding subproof
  subproof-inner fuel m leaves path less fits lower e =
      let half = subproof blake3 fuel m (take (split_point (length leaves)) leaves) false in
      elim (Option-cases half) [
        | inr found ↦ found
        | inl absent ↦
            let apart : (m == length leaves) ≡ false = ground (arith, less) in
            let nothing : subproof blake3 (suc fuel) m leaves false ≡ none =
              rw (subproof, apart, fits, lower, absent) refl in
            cc (e, nothing)
      ]

  pub subproof_complete :
      (fuel m : ℕ) (leaves path : List Hash)
      → 0 < m
      → m ≤ length leaves
      → length leaves < 2 ^ 32
      → (m ≡ length leaves → is_power_of_two m ≡ true)
      → subproof blake3 fuel m leaves false ≡ some path
      → (rest : List Hash) × (subproof blake3 fuel m leaves true ≡ some rest)
        × (path ≡ before m leaves ++ rest)
  unfolding subproof
  subproof_complete zero m leaves path some_old within small full e = cc
  subproof_complete (suc fuel) m leaves path some_old within small full e =
      elim (Bool-cases (m == length leaves)) [
        | inl last ↦
            let same : m ≡ length leaves = ground (arith, last) in
            let made =
              mth-head blake3 (length leaves) leaves (omega (arith, some_old, within)) (omega arith)
                small in
            let whole = (take_all m leaves (omega (arith, same))).0 in
            let one : path ≡ head blake3 leaves ∷ [] = ground (arith, e, last, made) in
            ([], ground (arith, last), one ∙ rw (full same, whole) refl)
        | inr other ↦
            let less : m < length leaves = ground (arith, other, within) in
            let more : 1 < length leaves = omega (arith, some_old, less) in
            let k = split_point (length leaves) in
            let split = split_point-SplitAt (length leaves) more (omega (arith, small)) in
            let i = split.exponent in
            let fits : leb k (length leaves) ≡ true = ground (arith, split.below) in
            elim (Bool-cases (leb m k)) [
              | inr upper ↦
                  let over : 2 ^ i < m = ground (arith, upper, split.power) in
                  let under : m < 2 ^ i + 2 ^ i = omega (arith, less, split.half, split.power) in
                  let same : subproof blake3 (suc fuel) m leaves true
                      ≡ subproof blake3 (suc fuel) m leaves false =
                    rw (subproof, other, fits, upper) refl in
                  (path, same ∙ e, rw (is_power_of_two-between i m over under) refl)
              | inl lower ↦
                  let on_left : m ≤ k = ground (arith, lower) in
                  let left_length : length (take k leaves) ≡ k =
                    length-take k leaves ∙ omega (arith, split.below) in
                  let sibling = head blake3 (drop k leaves) in
                  let (inner, found) = subproof-inner fuel m leaves path less fits lower e in
                  let outer =
                    subproof-left blake3 fuel m leaves inner false more small on_left found in
                  let (rest, short, joined) =
                    subproof_complete fuel m (take k leaves) inner some_old
                      (omega (arith, left_length, on_left))
                      (omega (arith, left_length, split.below, small))
                      (λ at_end.
                        power_at_end i m (at_end ∙ left_length ∙ split.power)
                          (omega (arith, split.power, split.below, small)))
                      found in
                  (
                    rest ++ (sibling ∷ []),
                    subproof-left blake3 fuel m leaves rest true more small on_left short,
                    join_ends path inner (before m (take k leaves)) (before m leaves) rest
                        (sibling ∷ []) (cc (e, outer)) joined
                        (rw (take-take m k leaves on_left) refl),
                  )
            ]
      ]
