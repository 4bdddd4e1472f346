-- ===== src/Format/Tlv/Encoding.antt =====
-- What a TLV buffer of crates/oc-format/src/tlv.rs is: its fields, one after the other.
use open_crate.Base.{
  ℕ, ◌≤◌, ◌*◌, ◌+◌, ◌^◌, ◌<◌, ◌≡◌, Option, none, some, List, [], ◌∷◌, ◌++◌, length, arith,
  length-append,
}
use open_crate.Base.Bytes.{to_le, length-to_le}

-- A tag and a value.
abbrev pub Entry : Type 0
Entry = ℕ × List ℕ

-- The record of a field: tag, length and value.
unfoldable pub encode_field : Entry → List ℕ
encode_field (tag, value) = to_le 2 tag ++ (to_le 4 (length value) ++ value)

unfoldable pub encode_fields : List Entry → List ℕ
unfolding encode_field
encode_fields [] = []
encode_fields (e ∷ es) = encode_field e ++ encode_fields es

-- The tag is a `u16`, and the length a `u32`.
abbrev pub IsEntry : Entry → Type 0
IsEntry (tag, value) = (tag < 2 ^ 16) × (length value < 2 ^ 32)

abbrev pub After : Option ℕ → ℕ → Type 0
After none tag = Unit {0}
After (some prev) tag = prev < tag

-- Entries in range whose tags increase, from the tag `last` on.
abbrev pub IsOrdered : Option ℕ → List Entry → Type 0
IsOrdered last [] = Unit {0}
IsOrdered last ((tag, value) ∷ es) = After last tag × IsEntry (tag, value) × IsOrdered (some tag) es

pub length-encode_field :
    (tag : ℕ) (value : List ℕ) → length (encode_field (tag, value)) ≡ 6 + length value
unfolding encode_field
length-encode_field tag value = omega (
  arith,
  length-append (to_le 2 tag) (to_le 4 (length value) ++ value),
  length-append (to_le 4 (length value)) value,
  length-to_le 2 tag,
  length-to_le 4 (length value),
)

-- The entries have 32-bit lengths, so a few of them cannot fill an address space.
pub length-ordered :
    (es : List Entry) (last : Option ℕ)
    → IsOrdered last es
    → length (encode_fields es) ≤ (2 ^ 32 + 6) * length es
unfolding encode_fields
length-ordered [] last ord = omega arith
length-ordered ((tag, value) ∷ es) last (after, entry, ord) = omega (
  arith,
  length-ordered es (some tag) ord,
  length-append (encode_field (tag, value)) (encode_fields es),
  length-encode_field tag value,
  entry.1,
)
