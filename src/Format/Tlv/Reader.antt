-- ===== src/Format/Tlv/Reader.antt =====
-- `TlvReader::next_field` of crates/oc-format/src/tlv.rs, on a buffer that goes on with a field, at the
-- end of the buffer, and on any buffer.
use open_crate.Base.{
  ℕ, ◌+◌, ◌^◌, ◌<◌, ◌≤◌, ◌≡◌, refl, sym, ◌∙◌, Option, none, some, List, [], ◌++◌, length, arith, ok,
  drop, length-append,
}
use open_crate.Base.Words.{checked_add_lem}
use open_crate.Base.Bytes.{to_le, length-to_le, from_le-to_le, slice_at, array_lem}
use open_crate.Format.Tlv.{
  Field, TlvReader, check_order, prefix_number, read_field, is_exhausted, next_field,
}
use open_crate.Format.Tlv.Encoding.{encode_field, IsEntry, After}
use mathlib.Core.List.{append_assoc, append-nil}

abbrev pub field_at : TlvReader → ℕ → List ℕ → Field
field_at r tag value = record {
  tag = tag;
  value = value;
  span = (r.pos + 6, r.pos + 6 + length value);
}

abbrev pub after_field : TlvReader → ℕ → List ℕ → TlvReader
after_field r tag value = record r { pos = r.pos + 6 + length value; last_tag = some tag }

pub check_order_lem : (last : Option ℕ) (tag : ℕ) → After last tag → check_order last tag ≡ ok tt
unfolding check_order
check_order_lem none tag h = refl
check_order_lem (some p) tag h = ground arith

-- The two numbers of a field's prefix.
prefix_lem :
    (tag len : ℕ)
    → tag < 2 ^ 16
    → len < 2 ^ 32
    → let prefix = to_le 2 tag ++ to_le 4 len in
      (prefix_number prefix 0 2 2 ≡ some tag) × (prefix_number prefix 2 6 4 ≡ some len)
unfolding prefix_number
prefix_lem tag len ht hl =
    let prefix = to_le 2 tag ++ to_le 4 len in
    let total : length prefix ≡ 6 =
      omega (
        arith,
        length-append (to_le 2 tag) (to_le 4 len),
        length-to_le 2 tag,
        length-to_le 4 len,
      ) in
    let first =
      slice_at prefix (to_le 2 tag) (to_le 4 len) 0 2 refl (omega arith)
        (omega (arith, length-to_le 2 tag)) in
    let second =
      slice_at prefix (to_le 4 len) [] 2 6 (first.1 ∙ sym (append-nil (to_le 4 len))) (omega arith)
        (omega (arith, length-to_le 4 len)) in
    (
      ground
          (arith, first.0, array_lem 2 (to_le 2 tag) (length-to_le 2 tag), from_le-to_le 2 tag ht),
      ground
          (arith, second.0, array_lem 4 (to_le 4 len) (length-to_le 4 len), from_le-to_le 4 len hl),
    )

-- A buffer that goes on with a field in range whose tag comes after the last one gives that field.
pub next_field-encode_field :
    (r : TlvReader) (tag : ℕ) (value rest : List ℕ)
    → drop r.pos r.buf ≡ encode_field (tag, value) ++ rest
    → r.pos ≤ length r.buf
    → length r.buf < 2 ^ 63
    → IsEntry (tag, value)
    → After r.last_tag tag
    → (next_field r ≡ ok (some (field_at r tag value), after_field r tag value))
      × (drop (r.pos + 6 + length value) r.buf ≡ rest)
      × (r.pos + 6 + length value ≤ length r.buf)
unfolding next_field read_field is_exhausted encode_field
next_field-encode_field r tag value rest e inside small (ht, hl) h =
    let prefix = to_le 2 tag ++ to_le 4 (length value) in
    let six : length prefix ≡ 6 = omega (
      arith,
      length-append (to_le 2 tag) (to_le 4 (length value)),
      length-to_le 2 tag,
      length-to_le 4 (length value),
    ) in
    let split : drop r.pos r.buf ≡ prefix ++ (value ++ rest) = e ∙ simp append_assoc in
    let head = slice_at r.buf prefix (value ++ rest) r.pos (r.pos + 6) split inside (omega arith) in
    let body =
      slice_at r.buf value rest (r.pos + 6) (r.pos + 6 + length value) head.1 head.2 refl in
    let numbers = prefix_lem tag (length value) ht hl in
    (
      ground (
        arith,
        checked_add_lem r.pos 6 (omega arith),
        head.0,
        numbers.0,
        numbers.1,
        check_order_lem r.last_tag tag h,
        checked_add_lem (r.pos + 6) (length value) (omega arith),
        body.0,
      ),
      body.1,
      body.2,
    )
