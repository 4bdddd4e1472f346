-- ===== src/Tests/Containers.antt =====
-- crates/oc-format on concrete layouts, buffers and policies.
use open_crate.Base.{
  ℕ, ◌^◌, ◌<◌, ◌≤◌, ◌≡◌, refl, ◌↔◌, ◌>>=◌, true, none, some, List, [], ◌∷◌, ◌++◌, length, ok, err,
  arith,
}
use open_crate.Base.Int.{pos}
use open_crate.Base.Bytes.{IsBytes, to_le, from_le, slice, array, bytes_eq}
use open_crate.Base.Words.{checked_add, is_power_of_two}
use open_crate.Format.{Parsed, offset_overflow}
use open_crate.Format.Layout.{Layout, new, chunks_for, ciphertext_span}
use open_crate.Format.Layout.Chunks.{IsLayout, new-IsLayout}
use open_crate.Format.Layout.Spans.{
  plaintext_len_sum, plaintext_lens_total, ciphertext_spans_adjacent,
}
use open_crate.Format.Layout.Reads.{Reads, LiesIn, chunks_for_exact}
use open_crate.Format.Tlv.{
  Field, TlvReader, new_reader, new_writer, next_field, is_exhausted, read_field, check_order,
  prefix_number, read_fields,
}
use open_crate.Format.Tlv.Encoding.{Entry, encode_field, encode_fields, IsOrdered}
use open_crate.Format.Tlv.Sound.{Consumed, next_field_sound}
use open_crate.Format.Tlv.Loop.{fold_entries}
use open_crate.Format.Tlv.Writer.{put_all}
use open_crate.Format.Tlv.RoundTrip.{read_fields_iff, write_read}
use open_crate.Format.Prologue.{Prologue, get_array, split}
use open_crate.Format.Prologue.Split.{Signed, split_iff}
use open_crate.Format.Frame.{header, body_len, header-body_len, body_len-header}
use open_crate.Format.Footer.{Footer, max_footer_len}
use open_crate.Format.Footer
use open_crate.Format.Footer.Decode.{IsToken, footer_decode_iff, footer_round_trip}
use open_crate.Policy.{Policy, view, window, hardware, hardware_attested, edit, Network}
use open_crate.Policy.Rules.{deny_all, allow_action, insert}
use open_crate.Policy.Intersect.Order.{SamePolicy}
use open_crate.Format.PolicyCodec.Encode.{encode}
use open_crate.Format.PolicyCodec.Decode.{decode}
use open_crate.Format.PolicyCodec.{tag_to_action}
use open_crate.Format.PolicyCodec.Pieces.{IsEncodable}
use open_crate.Format.PolicyCodec.RoundTrip.{policy_round_trip}

-- 10000 bytes in three chunks of 4 KiB.
abbrev three_chunks : Layout
three_chunks = record {
  chunk_size = 4_096;
  chunk_count = 3;
  total_len = 10_000;
  payload_offset = 500;
}

three_accepted : new 4_096 3 10_000 500 ≡ ok three_chunks
unfolding new is_power_of_two
three_accepted = refl

new-IsLayout_example : IsLayout three_chunks × (three_chunks ≡ three_chunks)
new-IsLayout_example = new-IsLayout 4_096 3 10_000 500 three_chunks (omega arith) three_accepted

three_IsLayout : IsLayout three_chunks
three_IsLayout = (new-IsLayout 4_096 3 10_000 500 three_chunks (omega arith) three_accepted).0

plaintext_lens_total_example : plaintext_len_sum three_chunks 3 ≡ ok 10_000
plaintext_lens_total_example = plaintext_lens_total three_chunks three_IsLayout

ciphertext_spans_adjacent_example :
    (ciphertext_span three_chunks 1 ≡ ok (4_636, 8_772))
    × ((span_end : ℕ) × (ciphertext_span three_chunks 2 ≡ ok (8_772, span_end))
        × (span_end ≤ 12_908))
ciphertext_spans_adjacent_example =
    ciphertext_spans_adjacent three_chunks three_IsLayout (omega arith) 1 (omega arith)

chunks_for_exact_example :
    (first : ℕ) × (range_end : ℕ) × (chunks_for three_chunks 4_000 200
      ≡ ok (some (first, range_end)))
    × ((i : ℕ)
        → ((first ≤ i) × (i < range_end))
          ↔ ((b : ℕ) × Reads three_chunks 4_000 200 b × LiesIn three_chunks b i))
chunks_for_exact_example =
    chunks_for_exact three_chunks three_IsLayout 4_000 200 (omega arith) (omega arith) (omega arith)

-- Two fields, of the tags 1 and 3.
abbrev two_fields : List ℕ
two_fields = 1 ∷ 0 ∷ 2 ∷ 0 ∷ 0 ∷ 0 ∷ 5 ∷ 6 ∷ 3 ∷ 0 ∷ 1 ∷ 0 ∷ 0 ∷ 0 ∷ 7 ∷ []

abbrev two_entries : List Entry
two_entries = (1, 5 ∷ 6 ∷ []) ∷ (3, 7 ∷ []) ∷ []

-- The body of a loop that keeps the tags.
abbrev keep_tag : List ℕ → Field → Parsed (List ℕ)
keep_tag tags f = ok (f.tag ∷ tags)

two_IsBytes : IsBytes two_fields
two_IsBytes = omega arith

abbrev first_read : TlvReader
first_read = record { buf = two_fields; pos = 8; last_tag = some 1 }

abbrev first_field : Field
first_field = record { tag = 1; value = 5 ∷ 6 ∷ []; span = (6, 8) }

reader_steps : next_field (new_reader two_fields) ≡ ok (some first_field, first_read)
unfolding next_field is_exhausted read_field check_order prefix_number slice array from_le
    checked_add new_reader
reader_steps = refl

new_reader_buf : (new_reader two_fields).buf ≡ two_fields
unfolding new_reader
new_reader_buf = refl

next_field_sound_example : Consumed (new_reader two_fields) first_field first_read
next_field_sound_example =
    next_field_sound (new_reader two_fields) first_read first_field (rw new_reader_buf two_IsBytes)
      reader_steps

read_fields_iff_example : (read_fields keep_tag two_fields [] ≡ ok (3 ∷ 1 ∷ [])) ↔ (
    (es : List Entry) × (two_fields ≡ encode_fields es)
    × IsOrdered none es
    × (fold_entries keep_tag 0 es [] ≡ ok (3 ∷ 1 ∷ [])))
read_fields_iff_example =
    read_fields_iff keep_tag two_fields [] (3 ∷ 1 ∷ []) two_IsBytes (omega arith)

two_encoded : encode_fields two_entries ≡ two_fields
unfolding encode_fields encode_field to_le
two_encoded = refl

two_small : length (encode_fields two_entries) < 2 ^ 63
two_small = rw two_encoded (omega arith)

write_read_example :
    (put_all new_writer two_entries >>= λ w. read_fields keep_tag w.buf []) ≡ ok (3 ∷ 1 ∷ [])
write_read_example = write_read keep_tag two_entries [] (omega arith) two_small

abbrev sample_signature : List ℕ
sample_signature =
    90 ∷ 90 ∷ 90 ∷ 90 ∷ 90 ∷ 90 ∷ 90 ∷ 90 ∷ 90 ∷ 90 ∷ 90 ∷ 90 ∷ 90 ∷ 90 ∷ 90 ∷ 90 ∷ 90 ∷ 90 ∷ 90
    ∷ 90 ∷ 90 ∷ 90 ∷ 90 ∷ 90 ∷ 90 ∷ 90 ∷ 90 ∷ 90 ∷ 90 ∷ 90 ∷ 90 ∷ 90 ∷ 90 ∷ 90 ∷ 90 ∷ 90 ∷ 90 ∷ 90
    ∷ 90 ∷ 90 ∷ 90 ∷ 90 ∷ 90 ∷ 90 ∷ 90 ∷ 90 ∷ 90 ∷ 90 ∷ 90 ∷ 90 ∷ 90 ∷ 90 ∷ 90 ∷ 90 ∷ 90 ∷ 90 ∷ 90
    ∷ 90 ∷ 90 ∷ 90 ∷ 90 ∷ 90 ∷ 90 ∷ 90 ∷ []

-- The magic, a header of two bytes, the signature, and one byte that is not signed.
abbrev sealed : List ℕ
sealed =
    0x43
    ∷ 0x4C
    ∷ 0x4F
    ∷ 0x53
    ∷ 0x45
    ∷ 0x43
    ∷ 0x52
    ∷ 0x31
    ∷ 2
    ∷ 0
    ∷ 0
    ∷ 0
    ∷ 161
    ∷ 178
    ∷ (sample_signature ++ (255 ∷ []))

abbrev sealed_prologue : Prologue
sealed_prologue = record {
  header = 161 ∷ 178 ∷ [];
  signature = sample_signature;
  after_signature = 78;
  declared_len = 2;
}

sealed-IsBytes : IsBytes sealed
sealed-IsBytes = omega arith

split_iff_example : (split sealed ≡ ok sealed_prologue) ↔ Signed sealed sealed_prologue
split_iff_example = split_iff sealed sealed_prologue sealed-IsBytes

split_runs : split sealed ≡ ok sealed_prologue
unfolding split slice array bytes_eq from_le checked_add get_array
split_runs = refl

header-body_len_example :
    (head : List ℕ) × (header 300 1_000 ≡ ok head)
    × (length head ≡ 4)
    × (body_len head 200 ≡ err offset_overflow)
header-body_len_example = header-body_len 300 1_000 200 (omega arith) (omega arith)

frame_read : body_len (44 ∷ 1 ∷ 0 ∷ 0 ∷ []) 1_000 ≡ ok 300
unfolding body_len from_le
frame_read = refl

body_len-header_example : (300 ≤ 1_000) × (header 300 1_000 ≡ ok (44 ∷ 1 ∷ 0 ∷ 0 ∷ []))
body_len-header_example =
    body_len-header (44 ∷ 1 ∷ 0 ∷ 0 ∷ []) 1_000 300 (omega arith) refl frame_read

abbrev stamped : Footer
stamped = record { timestamp = 0x30 ∷ 0x03 ∷ 0x02 ∷ 0x01 ∷ 0x01 ∷ [] }

abbrev stamped_bytes : List ℕ
stamped_bytes = 1 ∷ 0 ∷ 5 ∷ 0 ∷ 0 ∷ 0 ∷ 0x30 ∷ 0x03 ∷ 0x02 ∷ 0x01 ∷ 0x01 ∷ []

footer_decode_iff_example : (Footer.decode stamped_bytes ≡ ok stamped) ↔ (
    (rest : List Entry) × (stamped_bytes ≡ encode_fields ((1, stamped.timestamp) ∷ rest))
    × IsOrdered (some 0x7FFF) rest
    × IsToken stamped.timestamp
    × (length stamped_bytes ≤ max_footer_len))
footer_decode_iff_example = footer_decode_iff stamped_bytes stamped (omega arith)

footer_round_trip_example :
    (bytes : List ℕ) × (Footer.encode stamped ≡ ok bytes) × (Footer.decode bytes ≡ ok stamped)
footer_round_trip_example = footer_round_trip stamped (omega arith)

-- A window, a lease, a limit, a level for editing, and actions of a later version.
abbrev pub rich_policy : Policy
rich_policy = record (allow_action deny_all view) {
  validity = window (pos 1_700_000_000) (pos 1_800_000_000);
  network = Network.lease (pos 28_800) (pos 28_800);
  min_binding = hardware;
  max_opens = some 5;
  action_binding = insert (λ _. none) edit hardware_attested;
  watermark = true;
  unknown_actions = 0 ∷ 7 ∷ 999 ∷ [];
}

pub rich_IsEncodable : IsEncodable rich_policy
unfolding tag_to_action
rich_IsEncodable = record {
  ranges = record { validity = omega arith; network = omega arith; unknown = omega arith };
  opens = omega arith;
  tags = omega arith;
  unknown = (refl, (refl, (refl, tt)));
}

policy_round_trip_example :
    (bytes : List ℕ) × (encode 4 rich_policy ≡ ok bytes)
    × ((q : Policy) × (decode 4 bytes ≡ ok q) × SamePolicy q rich_policy)
policy_round_trip_example = policy_round_trip 4 rich_policy rich_IsEncodable
