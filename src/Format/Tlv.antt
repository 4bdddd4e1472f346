-- ===== src/Format/Tlv.antt =====
-- crates/oc-format/src/tlv.rs: fields with increasing tags. A reader and a writer are their records, and a
-- method that changes one returns the new record. `Vec::with_capacity` and wiping leave no trace here.
pub mod Encoding
pub mod Reader
pub mod Sound
pub mod Writer
pub mod Loop
pub mod RoundTrip
use open_crate.Base.{
  ℕ, zero, suc, ◌+◌, ◌^◌, Bool, true, false, not, Option, none, some, List, [], ◌∷◌, ◌++◌, ltb, leb,
  if◌then◌else◌, length, ok, err, ◌>>=◌, ◌>>◌, fail_if, ok_or,
}
use open_crate.Base.Words.{checked_add, saturating_add, to_u32}
use open_crate.Base.Bytes.{slice, array, from_le, to_le}
use open_crate.Format.{Parsed, truncated, offset_overflow, fields_out_of_order, bad_field_length}

-- `CRIT_TAG_MAX`
abbrev crit_tag_max : ℕ
crit_tag_max = 0x7FFF

abbrev field_prefix_len : ℕ
field_prefix_len = 6

-- `span` is the range of the value in the buffer.
pub record Field : Type 0 where
  pub tag : ℕ
  pub value : List ℕ
  pub span : ℕ × ℕ

-- `<[u8; N]>::try_from(self.value)`
unfoldable pub field_array : ℕ → Field → Parsed (List ℕ)
field_array n f = ok_or (array n f.value) (bad_field_length f.tag (length f.value))

abbrev only_byte : List ℕ → Option ℕ
only_byte [] = none
only_byte (b ∷ []) = some b
only_byte (b ∷ c ∷ rest) = none

unfoldable pub field_u8 : Field → Parsed ℕ
field_u8 f = ok_or (only_byte f.value) (bad_field_length f.tag (length f.value))

-- `Field::u16`, `u32` and `u64` for 2, 4 and 8 bytes.
unfoldable pub field_uint : ℕ → Field → Parsed ℕ
field_uint n f = do bytes ← field_array n f; ok (from_le bytes)

pub record TlvReader : Type 0 where
  pub buf : List ℕ
  pub pos : ℕ
  pub last_tag : Option ℕ

unfoldable pub new_reader : List ℕ → TlvReader
new_reader buf = record { buf = buf; pos = 0; last_tag = none }

unfoldable pub is_exhausted : TlvReader → Bool
is_exhausted r = leb (length r.buf) r.pos

-- `match self.last_tag { Some(prev) if tag <= prev => return Err(…), _ => {} }`
unfoldable pub check_order : Option ℕ → ℕ → Parsed (Unit {0})
check_order none tag = ok tt
check_order (some prev) tag = fail_if (leb tag prev) (fields_out_of_order prev tag)

-- `prefix.get(a..b).and_then(|s| <[u8; n]>::try_from(s).ok()).map(from_le_bytes)`
unfoldable pub prefix_number : List ℕ → ℕ → ℕ → ℕ → Option ℕ
prefix_number prefix a b n = elim (slice prefix a b) [
  | none ↦ none
  | some s ↦ elim (array n s) [ none ↦ none | some bytes ↦ some (from_le bytes) ]
]

abbrev no_field : Option Field
no_field = none

unfoldable pub read_field : TlvReader → Parsed (Option Field × TlvReader)
read_field r = do
  header_end ← ok_or (checked_add r.pos field_prefix_len) offset_overflow
  prefix ← ok_or (slice r.buf r.pos header_end) (truncated header_end (length r.buf))
  tag ← ok_or (prefix_number prefix 0 2 2) offset_overflow
  len ← ok_or (prefix_number prefix 2 6 4) offset_overflow
  check_order r.last_tag tag
  value_end ← ok_or (checked_add header_end len) offset_overflow
  value ← ok_or (slice r.buf header_end value_end) (truncated value_end (length r.buf))
  ok (
    some (record { tag = tag; value = value; span = (header_end, value_end) }),
    record r { pos = value_end; last_tag = some tag },
  )

-- `TlvReader::next_field`
unfoldable pub next_field : TlvReader → Parsed (Option Field × TlvReader)
next_field r = if is_exhausted r then ok (no_field, r) else read_field r

pub record TlvWriter : Type 0 where
  pub buf : List ℕ
  pub last_tag : Option ℕ

unfoldable pub new_writer : TlvWriter
new_writer = record { buf = []; last_tag = none }

-- `TlvWriter::reserve` fails only if the length overflows; the capacity is not modelled.
unfoldable pub reserve : TlvWriter → ℕ → Parsed (Unit {0})
reserve w extra = do needed ← ok_or (checked_add (length w.buf) extra) offset_overflow; ok tt

unfoldable pub put : TlvWriter → ℕ → List ℕ → Parsed TlvWriter
put w tag value = do
  check_order w.last_tag tag
  len ← ok_or (to_u32 (length value)) (bad_field_length tag (length value))
  reserve w (saturating_add field_prefix_len (length value))
  ok (record { buf = ((w.buf ++ to_le 2 tag) ++ to_le 4 len) ++ value; last_tag = some tag })

unfoldable put_opt : TlvWriter → ℕ → Option (List ℕ) → Parsed TlvWriter
put_opt w tag none = ok w
put_opt w tag (some v) = put w tag v

-- `TlvWriter::finish`
abbrev pub finish : TlvWriter → List ℕ
finish w = w.buf

pub data UnknownTag : Type 0 where
  refuse ignore : UnknownTag

unfoldable pub unknown_tag_action : ℕ → UnknownTag
unknown_tag_action tag = if leb tag crit_tag_max then refuse else ignore

-- `while let Some(field) = reader.next_field()? { … }` with a body that may fail. The fuel is one more
-- than the length of the buffer; each round takes at least six bytes, so the last clause is not reached.
module _ {S : Type 0} (body : S → Field → Parsed S) where
  unfoldable pub each_field : ℕ → TlvReader → S → Parsed S
  each_field zero r s = err offset_overflow
  each_field (suc fuel) r s = elim (next_field r) [
    | err e ↦ err e
    | ok (none, r') ↦ ok s
    | ok (some f, r') ↦ elim (body s f) [ err e ↦ err e | ok s' ↦ each_field fuel r' s' ]
  ]

  unfoldable pub read_fields : List ℕ → S → Parsed S
  unfolding each_field new_reader
  read_fields buf s = each_field (suc (length buf)) (new_reader buf) s
