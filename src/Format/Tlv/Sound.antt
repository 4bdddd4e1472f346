-- ===== src/Format/Tlv/Sound.antt =====
-- What `TlvReader::next_field` of crates/oc-format/src/tlv.rs has read, on any buffer of bytes.
use open_crate.Base.{
  ℕ, ◌+◌, ◌-◌, ◌*◌, ◌^◌, ◌<◌, ◌≤◌, ◌≡◌, sym, ap, ◌∙◌, Option, none, some, List, [], ◌∷◌, ◌++◌,
  length, arith, ok, drop, All-drop, All-take, Option-cases, inl, inr,
}
use open_crate.Base.Words.{checked_add}
use open_crate.Base.Bytes.{IsByte, IsBytes, slice, array, from_le, to_le, slice-some, drop-slice}
use open_crate.Format.Tlv.{
  Field, TlvReader, check_order, prefix_number, read_field, is_exhausted, next_field,
}
use open_crate.Format.Tlv.Encoding.{encode_field, IsEntry, After}
use open_crate.Format.Tlv.Reader.{field_at, after_field}
use mathlib.Core.List.{append_assoc}

-- The two numbers of a prefix of six bytes are its bytes.
prefix_sound :
    (prefix : List ℕ) (tag len : ℕ)
    → IsBytes prefix
    → length prefix ≡ 6
    → prefix_number prefix 0 2 2 ≡ some tag
    → prefix_number prefix 2 6 4 ≡ some len
    → (prefix ≡ to_le 2 tag ++ to_le 4 len) × (tag < 2 ^ 16) × (len < 2 ^ 32)
unfolding prefix_number slice array from_le to_le
prefix_sound [] tag len b six t l = absurd (omega arith)
prefix_sound (a ∷ []) tag len b six t l = absurd (omega arith)
prefix_sound (a ∷ c ∷ []) tag len b six t l = absurd (omega arith)
prefix_sound (a ∷ c ∷ d ∷ []) tag len b six t l = absurd (omega arith)
prefix_sound (a ∷ c ∷ d ∷ e ∷ []) tag len b six t l = absurd (omega arith)
prefix_sound (a ∷ c ∷ d ∷ e ∷ f ∷ []) tag len b six t l = absurd (omega arith)
prefix_sound (a ∷ c ∷ d ∷ e ∷ f ∷ g ∷ []) tag len b six t l =
    let tag_eq : tag ≡ a + 256 * (c + 256 * 0) = ground arith in
    let len_eq : len ≡ d + 256 * (e + 256 * (f + 256 * (g + 256 * 0))) = ground arith in
    rw (tag_eq, len_eq) (ground arith, omega arith, omega arith)
prefix_sound (a ∷ c ∷ d ∷ e ∷ f ∷ g ∷ x ∷ xs) tag len b six t l = absurd (omega arith)

After-of_check : (last : Option ℕ) (tag : ℕ) → check_order last tag ≡ ok tt → After last tag
unfolding check_order
After-of_check none tag h = tt
After-of_check (some p) tag h = ground arith

-- What a successful read has found, one step after the other.
record Found (r : TlvReader) (f : Field) (r' : TlvReader) : Type 0 where
  prefix : List ℕ
  prefix_read : slice r.buf r.pos (r.pos + 6) ≡ some prefix
  tag_read : prefix_number prefix 0 2 2 ≡ some f.tag
  len_read : prefix_number prefix 2 6 4 ≡ some (length f.value)
  ordered : check_order r.last_tag f.tag ≡ ok tt
  value_read : slice r.buf (r.pos + 6) (r.pos + 6 + length f.value) ≡ some f.value
  field : f ≡ field_at r f.tag f.value
  next : r' ≡ after_field r f.tag f.value

length-slice :
    (buf : List ℕ) (a len : ℕ) (s : List ℕ) → slice buf a (a + len) ≡ some s → len ≡ length s
length-slice buf a len s h = omega (arith, (drop-slice buf a (a + len) s h).1)

read_field-Found : (r r' : TlvReader) (f : Field) → read_field r ≡ ok (some f, r') → Found r f r'
unfolding read_field checked_add
read_field-Found r r' f h = elim (Option-cases (slice r.buf r.pos (r.pos + 6))) [
  | inl e ↦ absurd (ground arith)
  | inr (prefix, e) ↦ elim (Option-cases (prefix_number prefix 2 6 4)) [
    | inl e' ↦ absurd (ground arith)
    | inr (len, e') ↦
        let read : slice r.buf (r.pos + 6) (r.pos + 6 + len) ≡ some f.value = ground arith in
        let width : len ≡ length f.value = length-slice r.buf (r.pos + 6) len f.value read in
        record {
          prefix = prefix;
          prefix_read = e;
          tag_read = ground arith;
          len_read = e' ∙ ap some width;
          ordered = ground arith;
          value_read = ap (λ (n : ℕ). slice r.buf (r.pos + 6) (r.pos + 6 + n)) (sym width) ∙ read;
          field = ground arith;
          next = ground arith;
        }
  ]
]

rejoin :
    (whole prefix middle value rest tag len : List ℕ)
    → whole ≡ prefix ++ middle
    → prefix ≡ tag ++ len
    → middle ≡ value ++ rest
    → whole ≡ (tag ++ (len ++ value)) ++ rest
rejoin whole prefix middle value rest tag len p q m = p ∙ rw (q, m) (simp append_assoc)

-- What the buffer held, by what was found.
pub record Consumed (r : TlvReader) (f : Field) (r' : TlvReader) : Type 0 where
  pub bytes :
      drop r.pos r.buf ≡ encode_field (f.tag, f.value) ++ drop (r.pos + 6 + length f.value) r.buf
  pub entry : IsEntry (f.tag, f.value)
  pub after : After r.last_tag f.tag
  pub field : f ≡ field_at r f.tag f.value
  pub next : r' ≡ after_field r f.tag f.value
  pub inside : r.pos + 6 + length f.value ≤ length r.buf

Found-Consumed : (r r' : TlvReader) (f : Field) → IsBytes r.buf → Found r f r' → Consumed r f r'
unfolding encode_field
Found-Consumed r r' f bytes found =
    let p = found.prefix in
    let at_prefix = drop-slice r.buf r.pos (r.pos + 6) p found.prefix_read in
    let value_end = r.pos + 6 + length f.value in
    let at_value = drop-slice r.buf (r.pos + 6) value_end f.value found.value_read in
    let in_value = slice-some r.buf (r.pos + 6) value_end f.value found.value_read in
    let in_prefix = slice-some r.buf r.pos (r.pos + 6) p found.prefix_read in
    let prefix_bytes : IsBytes p = rw in_prefix.2 (
      All-take IsByte (r.pos + 6 - r.pos) (drop r.pos r.buf) (All-drop IsByte r.pos r.buf bytes)) in
    let numbers =
      prefix_sound p f.tag (length f.value) prefix_bytes (omega (arith, at_prefix.1)) found.tag_read
        found.len_read in
    record {
      bytes =
          rejoin (drop r.pos r.buf) p (drop (r.pos + 6) r.buf) f.value (drop value_end r.buf)
            (to_le 2 f.tag) (to_le 4 (length f.value)) at_prefix.0 numbers.0 at_value.0;
      entry = (numbers.1, numbers.2);
      after = After-of_check r.last_tag f.tag found.ordered;
      field = found.field;
      next = found.next;
      inside = in_value.1;
    }

-- On any buffer of bytes, a successful read gives a field in range whose tag comes after the last one;
-- the buffer went on with just the encoding of that field, and the reader stands behind it.
pub next_field_sound :
    (r r' : TlvReader) (f : Field)
    → IsBytes r.buf
    → next_field r ≡ ok (some f, r')
    → Consumed r f r'
unfolding next_field is_exhausted
next_field_sound r r' f bytes h =
    Found-Consumed r r' f bytes (read_field-Found r r' f (ground arith))
