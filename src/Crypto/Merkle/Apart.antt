-- ===== src/Crypto/Merkle/Apart.antt =====
-- Messages of crates/oc-crypto/src/merkle.rs: what their equality tells, and which of them a tree and a climb hash.
use open_crate.Base.{
  ℕ, zero, suc, ◌+◌, ◌/◌, ◌%◌, ◌<◌, ◌≤◌, ◌≡◌, refl, ap, sym, ◌∙◌, true, false, some, List, [], ◌∷◌,
  ◌++◌, ltb, ◌==◌, length, get_elem?, All, arith, le→leb, ltb→lt, Bool-cases, Option-cases, inl,
  inr,
}
use open_crate.Base.Bytes.{to_be, bytes_eq_iff}
use open_crate.Crypto.Merkle.{
  Hash, is_promoted, first_or, sibling_of, node_of, node_message, root_message, next_level, climb,
}
use open_crate.Crypto.Merkle.Levels.{sibling_two, pair_above}
use open_crate.Crypto.Merkle.Proofs.{climb-promoted, climb-pair, climb-one}
use open_crate.Crypto.Merkle.Messages.{
  level_messages, climb_messages, collision_free, apart_from, pair_message,
}
use mathlib.Core.List.{Memᴰ}
use mathlib.Core.List.Memᴰ
use mathlib.Core.Path.{subst}

abbrev pub Sized : Hash → Type 0
Sized h = length h ≡ 32

append-inj : (l l' r r' : List ℕ) → length l ≡ length l' → l ++ r ≡ l' ++ r' → (l ≡ l') × (r ≡ r')
append-inj [] [] r r' n e = (refl, e)
append-inj [] (x ∷ l') r r' n e = absurd (omega (arith, n))
append-inj (x ∷ l) [] r r' n e = absurd (omega (arith, n))
append-inj (x ∷ l) (y ∷ l') r r' n e =
    let (same, rest) = append-inj l l' r r' (omega (arith, n)) (cc e) in (cc (e, same), rest)

node_message-inj :
    (l l' r r' : Hash)
    → Sized l
    → Sized l'
    → node_message l r ≡ node_message l' r'
    → (l ≡ l') × (r ≡ r')
unfolding node_message
node_message-inj l l' r r' m n e = append-inj l l' r r' (m ∙ sym n) (cc e)

pub root_message-inj :
    (count : ℕ) (a b : Hash) → root_message count a ≡ root_message count b → a ≡ b
unfolding root_message
root_message-inj count a b e = (append-inj (to_be 4 count) (to_be 4 count) a b refl (cc e)).1

pub pair_message-inj :
    (i : ℕ) (h h' s s' : Hash)
    → Sized h
    → Sized h'
    → Sized s
    → Sized s'
    → pair_message i h s ≡ pair_message i h' s'
    → h ≡ h'
pair_message-inj i h h' s s' a b c d e = elim (Bool-cases (i % 2 == 0)) [
  | inl even ↦ (node_message-inj h h' s s' a b (ground (arith, even, e))).0
  | inr odd ↦ (node_message-inj s s' h h' c d (ground (arith, odd, e))).1
]

pub get-All :
    (P : Hash → Type 0) (xs : List Hash) (i : ℕ) (x : Hash)
    → All P xs
    → get_elem? xs i ≡ some x
    → P x
get-All P [] i x p e = cc
get-All P (y ∷ ys) zero x p e = subst P (cc e) p.0
get-All P (y ∷ ys) (suc i) x p e = get-All P ys i x p.1 e

pub mem-level_messages :
    (c : List Hash) (i : ℕ) (h s : Hash)
    → is_promoted (length c) i ≡ false
    → get_elem? c i ≡ some h
    → get_elem? c (sibling_of i) ≡ some s
    → Memᴰ (pair_message i h s) (level_messages c)
unfolding is_promoted
mem-level_messages [] i h s p e g = cc
mem-level_messages (x ∷ []) zero h s p e g = cc
mem-level_messages (x ∷ []) (suc i) h s p e g = cc
mem-level_messages (x ∷ y ∷ rest) zero h s p e g = Memᴰ.head (cc (e, g))
mem-level_messages (x ∷ y ∷ rest) (suc zero) h s p e g = Memᴰ.head (cc (e, g))
mem-level_messages (x ∷ y ∷ rest) (suc (suc i)) h s p e g =
    let same_parity : suc (suc i) % 2 ≡ i % 2 = omega arith in
    Memᴰ.tail (
      rw same_parity (
        mem-level_messages rest i h s (ground arith) e
          (ap (get_elem? (x ∷ y ∷ rest)) (sym (sibling_two i)) ∙ g)))

module _ (blake3 : List ℕ → Hash) where
  -- Between the messages of two lists the hash has no collision.
  abbrev pub Apart : List (List ℕ) → List (List ℕ) → Type 0
  Apart xs ys = (x y : List ℕ) → Memᴰ x xs → Memᴰ y ys → blake3 x ≡ blake3 y → x ≡ y

  apart_from-lem :
      (x : List ℕ) (ys : List (List ℕ))
      → apart_from blake3 x ys ≡ true
      → (y : List ℕ) → Memᴰ y ys
      → blake3 x ≡ blake3 y
      → x ≡ y
  unfolding apart_from
  apart_from-lem x [] h y m e = absurd (Memᴰ.not-nil m)
  apart_from-lem x (z ∷ ys) h y (Memᴰ.head same) e =
      let collides = (bytes_eq_iff (blake3 x) (blake3 z)).1 (cc (e, same)) in
      (bytes_eq_iff x z).0 (ground (arith, h, collides)) ∙ sym same
  apart_from-lem x (z ∷ ys) h y (Memᴰ.tail m) e = apart_from-lem x ys (ground (arith, h)) y m e

  pub collision_free-Apart :
      (xs ys : List (List ℕ)) → collision_free blake3 xs ys ≡ true → Apart xs ys
  unfolding collision_free
  collision_free-Apart [] ys h x y m n e = absurd (Memᴰ.not-nil m)
  collision_free-Apart (z ∷ xs) ys h x y (Memᴰ.head same) n e =
      same ∙ apart_from-lem z ys (ground (arith, h)) y n (cc (e, same))
  collision_free-Apart (z ∷ xs) ys h x y (Memᴰ.tail m) n e =
      collision_free-Apart xs ys (ground (arith, h)) x y m n e

  pub pair_above-blake3 :
      (i : ℕ) (h s : Hash) → pair_above blake3 i h s ≡ blake3 (pair_message i h s)
  unfolding node_of
  pair_above-blake3 i h s = ground arith

  pub climb_messages-promoted :
      (count fuel len position : ℕ) (h : Hash) (used : ℕ) (p : List Hash)
      → 1 < len
      → is_promoted len position ≡ true
      → climb_messages blake3 count (suc fuel) len position h used p
        ≡ climb_messages blake3 count fuel ((len + 1) / 2) (position / 2) h used p
  unfolding climb_messages
  climb_messages-promoted count fuel len position h used p more e = ground (arith, e)

  pub climb_messages-pair :
      (count fuel len position : ℕ) (h s : Hash) (used : ℕ) (p : List Hash)
      → 1 < len
      → is_promoted len position ≡ false
      → get_elem? p used ≡ some s
      → climb_messages blake3 count (suc fuel) len position h used p
        ≡ pair_message position h s
          ∷ climb_messages blake3 count fuel
              ((len + 1) / 2)
              (position / 2)
              (pair_above blake3 position h s)
              (used + 1)
              p
  unfolding climb_messages
  climb_messages-pair count fuel len position h s used p more e g = ground (arith, e, g)

  climb_messages-one :
      (count fuel len position : ℕ) (h : Hash) (used : ℕ) (p : List Hash)
      → len ≤ 1
      → climb_messages blake3 count fuel len position h used p ≡ root_message count h ∷ []
  unfolding climb_messages
  climb_messages-one count zero len position h used p one = refl
  climb_messages-one count (suc fuel) len position h used p one = rw (le→leb len 1 one) refl

  -- A climb that ends has used a path element where the position has a sibling.
  pub climb-used :
      (fuel len position : ℕ) (h : Hash) (used : ℕ) (p : List Hash) (end : ℕ × Hash)
      → 1 < len
      → is_promoted len position ≡ false
      → climb blake3 (suc fuel) len position h used p ≡ some end
      → (s : Hash) × (get_elem? p used ≡ some s)
  unfolding climb
  climb-used fuel len position h used p end more e c = elim (Option-cases (get_elem? p used)) [
    | inl missing ↦ absurd (ground (arith, e, more, missing, c))
    | inr found ↦ found
  ]

  pub All-next_level :
      ((x : List ℕ) → Sized (blake3 x))
      → (c : List Hash) → All Sized c
      → All Sized (next_level blake3 c)
  unfolding next_level node_of
  All-next_level sized [] all = tt
  All-next_level sized (x ∷ []) all = all
  All-next_level sized (x ∷ y ∷ rest) all = (sized _, All-next_level sized rest all.1.1)

  pub get-lt-some : (c : List Hash) (i : ℕ) → i < length c → (h : Hash) × (get_elem? c i ≡ some h)
  get-lt-some [] i small = absurd (omega (arith, small))
  get-lt-some (x ∷ c) zero small = (x, refl)
  get-lt-some (x ∷ c) (suc i) small = get-lt-some c i (omega (arith, small))

  mem-climb_messages-zero :
      (count len position : ℕ) (h : Hash) (used : ℕ) (p : List Hash) (n : ℕ) (a : Hash)
      → climb blake3 0 len position h used p ≡ some (n, a)
      → Memᴰ (root_message count a) (climb_messages blake3 count 0 len position h used p)
  unfolding climb climb_messages
  mem-climb_messages-zero count len position h used p n a e =
      let same : a ≡ h = cc e in Memᴰ.head (ap (root_message count) same)

  pub mem-climb_messages :
      (count fuel len position : ℕ) (h : Hash) (used : ℕ) (p : List Hash) (n : ℕ) (a : Hash)
      → climb blake3 fuel len position h used p ≡ some (n, a)
      → Memᴰ (root_message count a) (climb_messages blake3 count fuel len position h used p)
  mem-climb_messages count zero len position h used p n a e =
      mem-climb_messages-zero count len position h used p n a e
  mem-climb_messages count (suc fuel) len position h used p n a e = elim (Bool-cases (ltb 1 len)) [
    | inl more ↦
        let more = ltb→lt 1 len more in
        elim (Bool-cases (is_promoted len position)) [
          | inl up ↦ rw (climb_messages-promoted count fuel len position h used p more up) (
              mem-climb_messages count fuel ((len + 1) / 2) (position / 2) h used p n a
                (sym (climb-promoted blake3 fuel len position h used p more up) ∙ e))
          | inr pair ↦
              let (s, given) = climb-used fuel len position h used p (n, a) more pair e in
              rw (climb_messages-pair count fuel len position h s used p more pair given) (
                Memᴰ.tail (
                  mem-climb_messages count fuel ((len + 1) / 2) (position / 2)
                    (pair_above blake3 position h s) (used + 1) p n a
                    (sym (climb-pair blake3 fuel len position h s used p more pair given) ∙ e)))
        ]
    | inr one ↦
        let one : len ≤ 1 = ground arith in
        let same : h ≡ a = cc (climb-one blake3 (suc fuel) len position h used p one, e) in
        rw (climb_messages-one count (suc fuel) len position h used p one)
          (Memᴰ.head (ap (root_message count) (sym same)))
  ]

  pub only_node :
      (c : List Hash) (position : ℕ) (h z : Hash)
      → length c ≤ 1
      → position < length c
      → h ≡ first_or z c
      → get_elem? c position ≡ some h
  only_node [] position h z one small e = absurd (omega (arith, small))
  only_node (x ∷ []) zero h z one small e = cc
  only_node (x ∷ []) (suc i) h z one small e = absurd (omega (arith, small))
  only_node (x ∷ y ∷ rest) position h z one small e = absurd (omega (arith, one))
