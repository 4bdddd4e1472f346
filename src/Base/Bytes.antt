-- ===== src/Base/Bytes.antt =====
-- Byte strings: slices, and Rust's `to_le_bytes`, `from_le_bytes` and their big-endian forms.
use open_crate.Base.{
  ℕ, zero, suc, ◌+◌, ◌-◌, ◌*◌, ◌/◌, ◌%◌, ◌^◌, ◌≤◌, ◌<◌, ◌≡◌, refl, sym, ap, ◌∙◌, Bool, true, false,
  ◌&&◌, Option, none, some, List, [], ◌∷◌, ◌++◌, arith, ltb, leb, ◌==◌, if◌then◌else◌, length, take,
  drop, All, take-append-drop, length-take, length-drop, drop-append, take-append, length-append,
  drop-drop, ◌↔◌,
}
use open_crate.Base.Int.{ℤ, pos, negsuc, IsI64}
use native.Mathlib.Nat.{pow-suc}
use mathlib.Core.List.{reverse}

abbrev pub IsByte : ℕ → Type 0
IsByte b = b < 256

abbrev pub IsBytes : List ℕ → Type 0
IsBytes = All IsByte

-- `buf.get(a..b)`
unfoldable pub slice : List ℕ → ℕ → ℕ → Option (List ℕ)
slice buf a b = if leb a b && leb b (length buf) then some (take (b - a) (drop a buf)) else none

-- `<[u8; n]>::try_from(bytes)`
unfoldable pub array : ℕ → List ℕ → Option (List ℕ)
array n bytes = if length bytes == n then some bytes else none

unfoldable pub to_le : ℕ → ℕ → List ℕ
to_le zero n = []
to_le (suc k) n = (n % 256) ∷ to_le k (n / 256)

unfoldable pub from_le : List ℕ → ℕ
from_le [] = 0
from_le (b ∷ bs) = b + 256 * from_le bs

unfoldable pub to_be : ℕ → ℕ → List ℕ
unfolding to_le
to_be k n = reverse (to_le k n)

unfoldable from_be : List ℕ → ℕ
unfolding from_le
from_be bs = from_le (reverse bs)

pub length-to_le : (k n : ℕ) → length (to_le k n) ≡ k
unfolding to_le
length-to_le zero n = refl
length-to_le (suc k) n = ap suc (length-to_le k (n / 256))

pub from_le-to_le : (k n : ℕ) → n < 256 ^ k → from_le (to_le k n) ≡ n
unfolding to_le from_le
from_le-to_le zero n h = omega arith
from_le-to_le (suc k) n h = omega (arith, from_le-to_le k (n / 256) (omega arith))

pub from_le-lt : (bs : List ℕ) → IsBytes bs → from_le bs < 256 ^ length bs
unfolding from_le
from_le-lt [] h = omega arith
from_le-lt (b ∷ bs) h = simp pow-suc (omega (arith, from_le-lt bs h.1, h.0))

pub to_le-from_le : (bs : List ℕ) → IsBytes bs → to_le (length bs) (from_le bs) ≡ bs
unfolding to_le from_le
to_le-from_le [] h = refl
to_le-from_le (b ∷ bs) h =
    let low : (b + 256 * from_le bs) % 256 ≡ b = omega (arith, h.0) in
    let high : (b + 256 * from_le bs) / 256 ≡ from_le bs = omega (arith, h.0) in
    rw (low, high, to_le-from_le bs h.1)

-- The bit pattern of an `i64`, as a `u64`, and back.
unfoldable pub bits64 : ℤ → ℕ
bits64 (pos n) = n
bits64 (negsuc n) = 2 ^ 64 - 1 - n

unfoldable pub signed64 : ℕ → ℤ
signed64 w = if ltb w (2 ^ 63) then pos w else negsuc (2 ^ 64 - 1 - w)

pub signed64-bits64 : (a : ℤ) → IsI64 a → signed64 (bits64 a) ≡ a
unfolding bits64 signed64
signed64-bits64 (pos n) h = ground arith
signed64-bits64 (negsuc n) h = ground arith

pub bits64-lt : (a : ℤ) → IsI64 a → bits64 a < 2 ^ 64
unfolding bits64
bits64-lt (pos n) h = omega arith
bits64-lt (negsuc n) h = omega arith

-- What a slice that exists is.
pub slice-some :
    (buf : List ℕ) (a b : ℕ) (s : List ℕ)
    → slice buf a b ≡ some s
    → (a ≤ b) × (b ≤ length buf) × (s ≡ take (b - a) (drop a buf))
unfolding slice
slice-some buf a b s h = ground arith

slice_lem :
    (buf : List ℕ) (a b : ℕ)
    → a ≤ b
    → b ≤ length buf
    → slice buf a b ≡ some (take (b - a) (drop a buf))
unfolding slice
slice_lem buf a b h k = ground arith

-- From `a` on, the buffer is the slice and then what follows `b`.
pub drop-slice :
    (buf : List ℕ) (a b : ℕ) (s : List ℕ)
    → slice buf a b ≡ some s
    → (drop a buf ≡ s ++ drop b buf) × (length s ≡ b - a)
drop-slice buf a b s h =
    let (ab, fits, e) = slice-some buf a b s h in
    let a_to_b : a + (b - a) ≡ b = omega arith in
    let rest : drop (b - a) (drop a buf) ≡ drop b buf =
      drop-drop (b - a) a buf ∙ ap (λ (n : ℕ). drop n buf) a_to_b in
    (
      sym (take-append-drop (b - a) (drop a buf)) ∙ cc (e, rest),
      rw (e, length-take, length-drop) (omega arith),
    )

pub array-some :
    (n : ℕ) (bytes s : List ℕ) → array n bytes ≡ some s → (length bytes ≡ n) × (s ≡ bytes)
unfolding array
array-some n bytes s h = ground arith

pub array_lem : (n : ℕ) (bytes : List ℕ) → length bytes ≡ n → array n bytes ≡ some bytes
unfolding array
array_lem n bytes h = ground arith

unfoldable pub bytes_eq : List ℕ → List ℕ → Bool
bytes_eq [] [] = true
bytes_eq [] (y ∷ ys) = false
bytes_eq (x ∷ xs) [] = false
bytes_eq (x ∷ xs) (y ∷ ys) = (x == y) && bytes_eq xs ys

pub bytes_eq_iff : (xs ys : List ℕ) → (bytes_eq xs ys ≡ true) ↔ (xs ≡ ys)
unfolding bytes_eq
bytes_eq_iff [] [] = (λ h. refl, λ h. refl)
bytes_eq_iff [] (y ∷ ys) = (λ h. cc, λ h. cc)
bytes_eq_iff (x ∷ xs) [] = (λ h. cc, λ h. cc)
bytes_eq_iff (x ∷ xs) (y ∷ ys) =
    (λ h. ground (arith, (bytes_eq_iff xs ys).0), λ h. ground (arith, (bytes_eq_iff xs ys).1))

-- Where a buffer goes on with `s` from `a` on, the slice there is `s`, and what follows it is the rest.
pub slice_at :
    (buf s rest : List ℕ) (a b : ℕ)
    → drop a buf ≡ s ++ rest
    → a ≤ length buf
    → b ≡ a + length s
    → (slice buf a b ≡ some s) × (drop b buf ≡ rest) × (b ≤ length buf)
slice_at buf s rest a b e h hb =
    let total : length buf ≡ a + length s + length rest =
      omega (arith, length-drop a buf, ap length e, length-append s rest) in
    let width : b - a ≡ length s = omega arith in
    (
      slice_lem buf a b (omega arith) (omega arith) ∙ ap some (rw (width, e) (take-append s rest)),
      ap (λ (n : ℕ). drop n buf) hb ∙ sym (drop-drop (length s) a buf) ∙ rw e (drop-append s rest),
      omega arith,
    )
