-- ===== src/Format/Tlv/Writer.antt =====
-- `TlvWriter::put` of crates/oc-format/src/tlv.rs, on every branch, and in a row.
use open_crate.Base.{
  ℕ, Result-cases, inl, inr, ◌+◌, ◌^◌, ◌<◌, ◌≤◌, ◌≡◌, refl, ◌∙◌, Option, none, some, List, [], ◌∷◌,
  ◌++◌, length, arith, ok, err, ◌>>=◌, length-append,
}
use open_crate.Base.Words.{to_u32, checked_add_lem, to_u32_lem, saturating_add_lem}
use open_crate.Base.Bytes.{to_le}
use open_crate.Format.{Parsed, fields_out_of_order, bad_field_length}
use open_crate.Format.Tlv.{TlvWriter, new_writer, check_order, reserve, put}
use open_crate.Format.Tlv.Encoding.{Entry, encode_field, encode_fields, IsEntry, After, IsOrdered}
use open_crate.Format.Tlv.Reader.{check_order_lem}
use mathlib.Core.List.{append_assoc, append-nil}

-- A field in range whose tag comes after the last one is appended.
pub put_lem :
    (w : TlvWriter) (tag : ℕ) (value : List ℕ)
    → After w.last_tag tag
    → IsEntry (tag, value)
    → length w.buf < 2 ^ 63
    → put w tag value
      ≡ ok (record { buf = w.buf ++ encode_field (tag, value); last_tag = some tag })
unfolding put reserve encode_field
put_lem w tag value h (ht, hl) small = ground (
  arith,
  check_order_lem w.last_tag tag h,
  to_u32_lem (length value) hl,
  saturating_add_lem 6 (length value) (omega arith),
  checked_add_lem (length w.buf) (6 + length value) (omega arith),
  append_assoc (w.buf ++ to_le 2 tag) (to_le 4 (length value)) value,
  append_assoc w.buf (to_le 2 tag) (to_le 4 (length value) ++ value),
)

-- A tag that is not above the last one is refused, whatever the value.
put_refused :
    (w : TlvWriter) (tag prev : ℕ) (value : List ℕ)
    → w.last_tag ≡ some prev
    → tag ≤ prev
    → put w tag value ≡ err (fields_out_of_order prev tag)
unfolding put check_order
put_refused w tag prev value e h = ground arith

-- A value whose length is no `u32` is refused.
put_too_long :
    (w : TlvWriter) (tag : ℕ) (value : List ℕ)
    → After w.last_tag tag
    → 2 ^ 32 ≤ length value
    → put w tag value ≡ err (bad_field_length tag (length value))
unfolding put to_u32
put_too_long w tag value h long = ground (arith, check_order_lem w.last_tag tag h)

unfoldable pub put_all : TlvWriter → List Entry → Parsed TlvWriter
put_all w [] = ok w
put_all w ((tag, value) ∷ es) = put w tag value >>= λ w'. put_all w' es

pub put_all-append :
    (w : TlvWriter) (es more : List Entry)
    → put_all w (es ++ more) ≡ (put_all w es >>= λ w'. put_all w' more)
unfolding put_all
put_all-append w [] more = refl
put_all-append w ((tag, value) ∷ es) more = elim (Result-cases (put w tag value)) [
  | inl (w', e) ↦ rw e (put_all-append w' es more)
  | inr (x, e) ↦ rw e refl
]

last_of : Option ℕ → List Entry → Option ℕ
last_of last [] = last
last_of last ((tag, value) ∷ es) = last_of (some tag) es

put_all_from :
    (w : TlvWriter) (es : List Entry)
    → IsOrdered w.last_tag es
    → length w.buf + length (encode_fields es) < 2 ^ 63
    → put_all w es
      ≡ ok (record { buf = w.buf ++ encode_fields es; last_tag = last_of w.last_tag es })
unfolding put_all encode_fields last_of
put_all_from w [] h small = rw (append-nil w.buf)
put_all_from w ((tag, value) ∷ es) (after, entry, rest) small =
    let field = encode_field (tag, value) in
    let fits : length (w.buf ++ field) + length (encode_fields es) < 2 ^ 63 =
      omega (arith, length-append field (encode_fields es), length-append w.buf field) in
    rw (put_lem w tag value after entry (omega (arith, length-append field (encode_fields es)))) (
      put_all_from (record { buf = w.buf ++ field; last_tag = some tag }) es rest fits
      ∙ rw (append_assoc w.buf field (encode_fields es)))

-- Fields in range with increasing tags are written one after the other.
pub put_all_lem :
    (es : List Entry)
    → IsOrdered none es
    → length (encode_fields es) < 2 ^ 63
    → (w : TlvWriter) × (put_all new_writer es ≡ ok w) × (w.buf ≡ encode_fields es)
unfolding new_writer
put_all_lem es h small = (
  record { buf = encode_fields es; last_tag = last_of none es },
  put_all_from new_writer es h (omega arith),
  refl,
)
