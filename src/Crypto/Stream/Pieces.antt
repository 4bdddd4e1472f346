-- ===== src/Crypto/Stream/Pieces.antt =====
-- The pieces in which crates/oc-crypto/src/stream.rs seals an input: what they add up to, how long and how many they are.
use open_crate.Base.{
  ℕ, le→leb, leb→le, zero, suc, ◌*◌, ◌<◌, ◌≤◌, ◌≡◌, List, [], ◌∷◌, ◌++◌, length, drop, All, leb,
  arith, length-take, length-drop, take-append-drop, Bool-cases, inl, inr,
}
use open_crate.Crypto.Stream.Chunks.{pieces}
use native.Mathlib.Nat.{mul-suc}
use mathlib.Core.List.{append-nil}

abbrev pub joined : List (List ℕ) → List ℕ
joined [] = []
joined (piece ∷ rest) = piece ++ joined rest

pub joined-pieces : (n room : ℕ) (input : List ℕ) → joined (pieces n room input) ≡ input
joined-pieces zero room input = append-nil input
joined-pieces (suc n) room input = elim (Bool-cases (leb (length input) room)) [
  | inl short ↦ rw short (append-nil input)
  | inr long ↦ rw (long, joined-pieces n room (drop room input)) (take-append-drop room input)
]

pub pieces-All :
    (n room : ℕ) (input : List ℕ)
    → 0 < room
    → length input ≤ n
    → All (λ piece. length piece ≤ room) (pieces n room input)
pieces-All zero room input some_room enough = (omega (arith, enough), tt)
pieces-All (suc n) room input some_room enough = elim (Bool-cases (leb (length input) room)) [
  | inl short ↦ rw short (leb→le (length input) room short, tt)
  | inr long ↦ rw long (
    omega (arith, length-take room input),
    pieces-All n room (drop room input) some_room
        (omega (arith, length-drop room input, enough, some_room)),
  )
]

pub length-pieces :
    (n room k : ℕ) (input : List ℕ)
    → 0 < k
    → length input ≤ room * k
    → length (pieces n room input) ≤ k
length-pieces zero room k input some_piece few = omega (arith, some_piece)
length-pieces (suc n) room zero input some_piece few = absurd (omega (arith, some_piece))
length-pieces (suc n) room (suc zero) input some_piece few =
    rw (le→leb (length input) room (omega (arith, few))) (omega arith)
length-pieces (suc n) room (suc (suc k)) input some_piece few =
    elim (Bool-cases (leb (length input) room)) [
      | inl short ↦ rw short (omega arith)
      | inr long ↦
          let after =
            length-pieces n room (suc k) (drop room input) (omega arith)
              (omega (arith, few, mul-suc room (suc k), length-drop room input)) in
          rw long (omega (arith, after))
    ]

pub some_pieces : (n room : ℕ) (input : List ℕ) → 0 < length (pieces n room input)
some_pieces zero room input = omega arith
some_pieces (suc n) room input = elim (Bool-cases (leb (length input) room)) [
  | inl short ↦ rw short (omega arith)
  | inr long ↦ rw long (omega arith)
]
