-- ===== src/Crypto/Transcript.antt =====
-- crates/oc-crypto/src/transcript.rs: the bytes that are signed. A transcript is its buffer, and a method that appends
-- to it returns the new one.
use open_crate.Base.{
  ℕ, ◌-◌, ◌^◌, ◌≡◌, refl, ap, sym, ◌∙◌, Bool, true, not, ◌&&◌, List, [], ◌∷◌, ◌++◌, ltb, ◌==◌,
  if◌then◌else◌, length, arith,
}
use open_crate.Base.Bytes.{to_le, to_be}
use open_crate.Crypto.Labels.{Label, all_labels}
use mathlib.Core.List.{Memᴰ, append_assoc}
use mathlib.Core.List.Memᴰ

abbrev pub Transcript : Type 0
Transcript = List ℕ

unfoldable pub new_transcript : Label → Transcript
new_transcript label = label ++ (0 ∷ [])

unfoldable put_u8 : Transcript → ℕ → Transcript
put_u8 t value = t ++ (value ∷ [])

unfoldable put_u32le : Transcript → ℕ → Transcript
put_u32le t value = t ++ to_le 4 value

unfoldable put_u32be : Transcript → ℕ → Transcript
put_u32be t value = t ++ to_be 4 value

unfoldable put_u64be : Transcript → ℕ → Transcript
put_u64be t value = t ++ to_be 8 value

-- `fixed`, and `tail_after_declared_length`
unfoldable pub put_fixed : Transcript → List ℕ → Transcript
put_fixed t value = t ++ value

-- `u32::try_from(n).unwrap_or(u32::MAX)`
abbrev pub u32_or_max : ℕ → ℕ
u32_or_max n = if ltb n (2 ^ 32) then n else 2 ^ 32 - 1

unfoldable pub put_field : Transcript → List ℕ → Transcript
put_field t value = (t ++ to_le 4 (u32_or_max (length value))) ++ value

zero_free : List ℕ → Bool
zero_free [] = true
zero_free (b ∷ bs) = not (b == 0) && zero_free bs

all_zero_free : List Label → Bool
unfolding zero_free
all_zero_free [] = true
all_zero_free (label ∷ labels) = zero_free label && all_zero_free labels

registry-zero_free : all_zero_free all_labels ≡ true
unfolding all_zero_free zero_free all_labels
registry-zero_free = refl

zero_free-mem :
    (labels : List Label) (a : Label)
    → all_zero_free labels ≡ true
    → Memᴰ a labels
    → zero_free a ≡ true
unfolding all_zero_free
zero_free-mem [] a h m = absurd (Memᴰ.not-nil m)
zero_free-mem (label ∷ labels) a h (Memᴰ.head e) = ap zero_free e ∙ ground (arith, h)
zero_free-mem (label ∷ labels) a h (Memᴰ.tail m) = zero_free-mem labels a (ground (arith, h)) m

-- Up to the first zero.
cut_at_zero :
    (a b x y : List ℕ)
    → zero_free a ≡ true
    → zero_free b ≡ true
    → a ++ (0 ∷ x) ≡ b ++ (0 ∷ y)
    → (a ≡ b) × (x ≡ y)
unfolding zero_free
cut_at_zero [] [] x y h k e = (refl, cc e)
cut_at_zero [] (c ∷ b) x y h k e = let z : c ≡ 0 = cc e in absurd (ground (arith, z, k))
cut_at_zero (c ∷ a) [] x y h k e = let z : c ≡ 0 = cc e in absurd (ground (arith, z, h))
cut_at_zero (c ∷ a) (d ∷ b) x y h k e =
    let (same, rest) = cut_at_zero a b x y (ground (arith, h)) (ground (arith, k)) (cc e) in
    (cc (e, same), rest)

-- A transcript determines its label among those of the registry, and what was appended to it.
pub new_transcript-Unambiguous :
    (a b : Label) (x y : List ℕ)
    → Memᴰ a all_labels
    → Memᴰ b all_labels
    → put_fixed (new_transcript a) x ≡ put_fixed (new_transcript b) y
    → (a ≡ b) × (x ≡ y)
unfolding new_transcript put_fixed
new_transcript-Unambiguous a b x y m n e =
    cut_at_zero a b x y (zero_free-mem all_labels a registry-zero_free m)
      (zero_free-mem all_labels b registry-zero_free n)
      (sym (append_assoc a (0 ∷ []) x) ∙ e ∙ append_assoc b (0 ∷ []) y)
