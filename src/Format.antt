-- ===== src/Format.antt =====
-- crates/oc-format: the errors that its parsers and writers share (src/lib.rs).
pub mod Layout
pub mod Prologue
pub mod Tlv
pub mod Frame
pub mod Footer
pub mod PolicyCodec
use open_crate.Base.{ℕ, Bool}
use open_crate.Base.{Result}

pub data FormatError : Type 0 where
  bad_magic : FormatError
  header_too_large : ℕ → FormatError
  truncated : ℕ → ℕ → FormatError
  offset_overflow : FormatError
  bad_chunk_size : ℕ → FormatError
  chunk_count_mismatch : ℕ → ℕ → FormatError
  chunk_out_of_range : ℕ → ℕ → FormatError
  bad_field_length : ℕ → ℕ → FormatError
  fields_out_of_order : ℕ → ℕ → FormatError
  unknown_critical_field : ℕ → FormatError
  missing_field : ℕ → FormatError
  degenerate_key : ℕ → FormatError
  bad_address_byte : ℕ → ℕ → FormatError
  bad_note_char : ℕ → ℕ → FormatError
  not_utf8 : ℕ → FormatError
  reader_too_old : ℕ → ℕ → FormatError
  unsupported_class : ℕ → FormatError
  unsupported_container_version : ℕ → ℕ → ℕ → FormatError
  unsupported_lease_version : ℕ → FormatError
  content_desc_too_large : ℕ → FormatError
  bad_content_mac : FormatError
  bad_header_signature : FormatError

abbrev pub Parsed {ℓ} : Type ℓ → Type ℓ
Parsed A = Result FormatError A
