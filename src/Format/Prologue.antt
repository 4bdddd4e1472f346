-- ===== src/Format/Prologue.antt =====
-- `Prologue` of crates/oc-format/src/lib.rs: the magic, the signed header and its signature, cut out of a buffer.
pub mod Split
use open_crate.Base.{
  ℕ, ◌+◌, ◌^◌, ◌<◌, ◌≤◌, ◌≡◌, refl, ap, sym, ◌∙◌, Bool, not, Option, none, some, List, [], ◌∷◌,
  ◌++◌, ltb, length, ok, err, ◌>>=◌, ◌>>◌, fail_if, ok_or, arith, ◌↔◌, length-append,
}
use open_crate.Base.Words.{checked_add, checked_add_lem}
use open_crate.Base.Bytes.{
  IsBytes, slice, array, from_le, to_le, bytes_eq, bytes_eq_iff, slice_at, drop-slice, slice-some,
  array-some, array_lem, from_le-to_le, to_le-from_le, length-to_le, from_le-lt,
}
use open_crate.Format.{Parsed, truncated, bad_magic, header_too_large, offset_overflow}

-- `MAGIC`: the bytes of "CLOSECR1".
abbrev pub magic : List ℕ
magic = 0x43 ∷ 0x4C ∷ 0x4F ∷ 0x53 ∷ 0x45 ∷ 0x43 ∷ 0x52 ∷ 0x31 ∷ []

abbrev sig_len : ℕ
sig_len = 64

abbrev pub max_header_len : ℕ
max_header_len = 2 ^ 20

abbrev header_len_offset : ℕ
header_len_offset = 8

abbrev header_offset : ℕ
header_offset = 12

-- `header` and `signature` borrow from the buffer; here they are the bytes.
pub record Prologue : Type 0 where
  pub header : List ℕ
  pub signature : List ℕ
  pub after_signature : ℕ
  pub declared_len : ℕ

-- `buf.get(a..b).and_then(|s| <[u8; n]>::try_from(s).ok())`
unfoldable pub get_array : List ℕ → ℕ → ℕ → ℕ → Option (List ℕ)
get_array buf a b n = elim (slice buf a b) [ none ↦ none | some s ↦ array n s ]

unfoldable pub split : List ℕ → Parsed Prologue
split buf = do
  found ← ok_or (slice buf 0 header_len_offset) (truncated header_offset (length buf))
  fail_if (not (bytes_eq found magic)) bad_magic
  len_bytes ←
      ok_or (get_array buf header_len_offset header_offset 4) (truncated header_offset (length buf))
  let declared = from_le len_bytes
  fail_if (ltb max_header_len declared) (header_too_large declared)
  header_end ← ok_or (checked_add header_offset declared) offset_overflow
  sig_end ← ok_or (checked_add header_end sig_len) offset_overflow
  header ← ok_or (slice buf header_offset header_end) (truncated sig_end (length buf))
  signature ← ok_or (get_array buf header_end sig_end sig_len) (truncated sig_end (length buf))
  ok (record {
    header = header;
    signature = signature;
    after_signature = sig_end;
    declared_len = declared;
  })
