-- ===== src/Format/Footer/Decode.antt =====
-- `Footer::decode` of crates/oc-format/src/footer.rs: what it accepts, and that it reads what `encode` wrote.
use open_crate.Base.{
  ℕ, ◌+◌, ◌<◌, ◌≤◌, ◌≡◌, refl, ap, sym, ◌∙◌, Option, none, some, List, [], ◌∷◌, leb, length, ok,
  arith, ◌↔◌, Bool-cases, leb→le, inl, inr,
}
use open_crate.Base.Bytes.{IsBytes}
use open_crate.Format.Tlv.{new_writer, read_fields, unknown_tag_action}
use open_crate.Format.Tlv.Encoding.{
  Entry, encode_field, encode_fields, IsOrdered, length-encode_field,
}
use open_crate.Format.Tlv.Loop.{fold_entries}
use open_crate.Format.Tlv.RoundTrip.{read_fields_iff, read_fields-encode_fields}
use open_crate.Format.Tlv.Writer.{put_lem}
use open_crate.Format.Footer.{
  Footer, bad_token, encode, take_token, skip_field, decode_field, decode, max_footer_len,
  max_token_len,
}
use mathlib.Core.List.{append-nil}

abbrev pub IsToken : List ℕ → Type 0
IsToken token = (1 ≤ length token) × (length token ≤ max_token_len)

-- Behind the critical tags every field is skipped.
fold_skips :
    (es : List Entry) (pos last : ℕ) (s : Option (List ℕ))
    → 0x7FFF ≤ last
    → IsOrdered (some last) es
    → fold_entries decode_field pos es s ≡ ok s
unfolding decode_field skip_field unknown_tag_action
fold_skips [] pos last s h ord = refl
fold_skips ((tag, value) ∷ es) pos last s h (after, entry, ord) =
    let rest = fold_skips es (pos + 6 + length value) tag s (omega arith) ord in ground arith

-- Behind the timestamp no critical tag is accepted.
fold_refuses :
    (es : List Entry) (pos : ℕ) (s t : Option (List ℕ))
    → IsOrdered (some 1) es
    → fold_entries decode_field pos es s ≡ ok t
    → IsOrdered (some 0x7FFF) es × (s ≡ t)
unfolding decode_field skip_field unknown_tag_action
fold_refuses [] pos s t ord h = (tt, ground arith)
fold_refuses ((tag, value) ∷ es) pos s t (after, entry, ord) h =
    let high : 0x7FFF < tag = ground arith in
    let rest = fold_skips es (pos + 6 + length value) tag s (omega arith) ord in
    ((high, entry, ord), ground arith)

first_tag :
    (es : List Entry) (tag : ℕ) (value t : List ℕ)
    → IsOrdered (some tag) es
    → fold_entries decode_field 0 ((tag, value) ∷ es) none ≡ ok (some t)
    → (tag ≡ 1)
      × IsToken value
      × (fold_entries decode_field (6 + length value) es (some value) ≡ ok (some t))
unfolding decode_field take_token skip_field unknown_tag_action bad_token
first_tag es tag value t ord h = elim (Bool-cases (leb 0x8000 tag)) [
  | inl high ↦
      let skipped =
        fold_skips es (6 + length value) tag none (ground (arith, leb→le 0x8000 tag high)) ord in
      absurd (ground arith)
  | inr low ↦ (ground arith, (ground arith, ground arith), ground arith)
]

Decoded : List Entry → List ℕ → Type 0
Decoded es t = (rest : List Entry) × (es ≡ (1, t) ∷ rest) × IsOrdered (some 0x7FFF) rest × IsToken t

first_entry :
    (es : List Entry) (t : List ℕ)
    → IsOrdered none es
    → fold_entries decode_field 0 es none ≡ ok (some t)
    → Decoded es t
unfolding Decoded
first_entry [] t ord h = absurd (ground arith)
first_entry ((tag, value) ∷ es) t (after, entry, ord) h =
    let (one, token, rest) = first_tag es tag value t ord h in
    let (critical, same) =
      fold_refuses es (6 + length value) (some value) (some t) (rw (sym one) ord) rest in
    let value_eq : value ≡ t = ground arith in
    (es, rw (one, value_eq) refl, critical, rw (sym value_eq) token)

decoded_entries :
    (es rest : List Entry) (t : List ℕ)
    → es ≡ (1, t) ∷ rest
    → IsOrdered (some 0x7FFF) rest
    → IsToken t
    → IsOrdered none es × (fold_entries decode_field 0 es none ≡ ok (some t))
unfolding decode_field take_token bad_token
decoded_entries es rest t e ord token =
    let skipped = fold_skips rest (6 + length t) 0x7FFF (some t) (omega arith) ord in
    rw e ((tt, (omega arith, omega arith), after_one rest ord), ground arith)
  where
    after_one : (rest : List Entry) → IsOrdered (some 0x7FFF) rest → IsOrdered (some 1) rest
    after_one [] ord = tt
    after_one ((tag, value) ∷ rest) (after, entry, ord) = (omega arith, entry, ord)

decode_reads :
    (bytes : List ℕ) (f : Footer)
    → decode bytes ≡ ok f
    → (length bytes ≤ max_footer_len)
      × (read_fields decode_field bytes none ≡ ok (some f.timestamp))
unfolding decode
decode_reads bytes f h = ground arith

decode_entries :
    (bytes : List ℕ) (f : Footer) (rest : List Entry)
    → bytes ≡ encode_fields ((1, f.timestamp) ∷ rest)
    → IsOrdered (some 0x7FFF) rest
    → IsToken f.timestamp
    → length bytes ≤ max_footer_len
    → decode bytes ≡ ok f
unfolding decode
decode_entries bytes f rest e ord token small =
    let es = (1, f.timestamp) ∷ rest in
    let (ordered, folded) = decoded_entries es rest f.timestamp refl ord token in
    let read : read_fields decode_field bytes none ≡ ok (some f.timestamp) =
      ap (λ b. read_fields decode_field b none) e
      ∙ read_fields-encode_fields decode_field es none ordered (omega (arith, ap length e))
      ∙ folded in
    ground arith

-- On bytes of any kind, `decode` gives a footer exactly if the bytes are at most 32 KiB and are the
-- encoding of the timestamp, of 1 to 16384 bytes, followed by fields that all lie in the range a reader
-- may skip.
pub footer_decode_iff :
    (bytes : List ℕ) (f : Footer)
    → IsBytes bytes
    → (decode bytes ≡ ok f) ↔ (
        (rest : List Entry) × (bytes ≡ encode_fields ((1, f.timestamp) ∷ rest))
        × IsOrdered (some 0x7FFF) rest
        × IsToken f.timestamp
        × (length bytes ≤ max_footer_len))
unfolding Decoded
footer_decode_iff bytes f b = (
  λ h.
      let (small, read) = decode_reads bytes f h in
      let (es, e, ord, folded) =
        (read_fields_iff decode_field bytes none (some f.timestamp) b (omega arith)).0 read in
      let (rest, is, critical, token) = first_entry es f.timestamp ord folded in
      (rest, e ∙ ap encode_fields is, critical, token, small),
  λ (rest, e, ord, token, small). decode_entries bytes f rest e ord token small,
)

-- A footer whose timestamp has 1 to 16384 bytes is encoded, and `decode` gives the same footer back from
-- the bytes.
pub footer_round_trip :
    (f : Footer)
    → IsToken f.timestamp
    → (bytes : List ℕ) × (encode f ≡ ok bytes) × (decode bytes ≡ ok f)
unfolding encode bad_token new_writer encode_fields
footer_round_trip f token =
    let t = f.timestamp in
    let bytes = encode_field (1, t) in
    let written = put_lem new_writer 1 t tt (omega arith, omega arith) (omega arith) in
    let size : length bytes ≤ max_footer_len = omega (arith, length-encode_field 1 t) in
    (
      bytes,
      ground (arith, written),
      decode_entries bytes f [] (sym (append-nil bytes)) tt token size,
    )
