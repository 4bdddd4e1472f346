-- ===== src/Protocol/Revocations/Signed.antt =====
-- `encode`, `decode` and `verify_signed` of crates/oc-protocol/src/revocation.rs together.
use open_crate.Base.{
  ℕ, ◌^◌, ◌<◌, ◌≡◌, refl, ap, ◌∙◌, none, List, [], ◌∷◌, ◌++◌, length, length-append, ok, err, ◌>>=◌,
  arith, if◌then◌else◌,
}
use open_crate.Base.Int.{IsI64}
use open_crate.Base.Bytes.{to_le, length-to_le}
use open_crate.Format.{Parsed, bad_header_signature}
use open_crate.Format.Tlv.{new_writer}
use open_crate.Format.Tlv.Encoding.{
  Entry, encode_field, encode_fields, IsOrdered, length-encode_field,
}
use open_crate.Format.Tlv.Writer.{put_all, put_all_lem}
use open_crate.Format.Tlv.Loop.{fold_entries}
use open_crate.Format.Tlv.RoundTrip.{read_fields-encode_fields}
use open_crate.Format.PolicyCodec.Values.{i64_le}
use open_crate.Format.PolicyCodec.Fields.{i64_from_le-i64_le, length-i64_le}
use open_crate.Protocol.{Verifier}
use open_crate.Protocol.Actions.Grant.{field_i64}
use open_crate.Protocol.Documents.{field_array_lem, field_uint_lem, signed_read}
use open_crate.Protocol.Revocations.{
  Revocation, no_fields, revocation_field, revocation_of, encode, decode, verify_signed,
  signing_transcript,
}

-- A revocation that the types of the program allow.
pub record IsRevocation (r : Revocation) : Type 0 where
  pub file_id : length r.file_id ≡ 16
  pub epoch : r.epoch < 2 ^ 64
  pub at : IsI64 r.at

abbrev entries : Revocation → List Entry
entries r = (1, to_le 2 1) ∷ (2, r.file_id) ∷ (3, to_le 8 r.epoch) ∷ (4, i64_le r.at) ∷ []

entries-IsOrdered : (r : Revocation) → IsRevocation r → IsOrdered none (entries r)
entries-IsOrdered r h =
    let a = length-to_le 2 1 in
    let b = length-to_le 8 r.epoch in
    let c = length-i64_le r.at in
    let d = h.file_id in
    (
      tt,
      (omega arith, omega (arith, a)),
      (
        omega arith,
        (omega arith, omega (arith, d)),
        (
          omega arith,
          (omega arith, omega (arith, b)),
          (omega arith, (omega arith, omega (arith, c)), tt),
        ),
      ),
    )

folded :
    (r : Revocation)
    → IsRevocation r
    → (fold_entries revocation_field 0 (entries r) no_fields >>= λ st. revocation_of st) ≡ ok r
unfolding revocation_field revocation_of no_fields field_i64
folded r h =
    rw
      (
        (λ (pos : ℕ). field_uint_lem 2 1 pos 1 (omega arith)),
        (λ (pos : ℕ). field_array_lem 16 2 pos r.file_id h.file_id),
        (λ (pos : ℕ). field_uint_lem 8 3 pos r.epoch (omega (arith, h.epoch))),
        (λ (pos : ℕ). field_array_lem 8 4 pos (i64_le r.at) (length-i64_le r.at)),
        i64_from_le-i64_le r.at h.at,
      )
      refl

length-entries : (r : Revocation) → IsRevocation r → length (encode_fields (entries r)) < 2 ^ 63
unfolding encode_fields
length-entries r h = omega (
  arith,
  length-append (encode_field (1, to_le 2 1)) (
      encode_field (2, r.file_id)
      ++ (encode_field (3, to_le 8 r.epoch) ++ (encode_field (4, i64_le r.at) ++ []))),
  length-append (encode_field (2, r.file_id))
      (encode_field (3, to_le 8 r.epoch) ++ (encode_field (4, i64_le r.at) ++ [])),
  length-append (encode_field (3, to_le 8 r.epoch)) (encode_field (4, i64_le r.at) ++ []),
  length-append (encode_field (4, i64_le r.at)) [],
  length-encode_field 1 (to_le 2 1),
  length-encode_field 2 r.file_id,
  length-encode_field 3 (to_le 8 r.epoch),
  length-encode_field 4 (i64_le r.at),
  length-to_le 2 1,
  length-to_le 8 r.epoch,
  length-i64_le r.at,
  h.file_id,
)

encode_puts : (r : Revocation) → encode r ≡ (put_all new_writer (entries r) >>= λ w. ok w.buf)
unfolding encode put_all
encode_puts r = ground arith

encode_entries : (r : Revocation) → IsRevocation r → encode r ≡ ok (encode_fields (entries r))
encode_entries r h =
    let (w, written, bytes) =
      put_all_lem (entries r) (entries-IsOrdered r h) (length-entries r h) in
    encode_puts r ∙ rw (written, bytes) refl

decode_entries : (r : Revocation) → IsRevocation r → decode (encode_fields (entries r)) ≡ ok r
unfolding decode
decode_entries r h =
    rw
      (read_fields-encode_fields revocation_field (entries r) no_fields (entries-IsOrdered r h)
        (length-entries r h))
      (folded r h)

verify_signed-signed :
    (verify : Verifier) (key signature body : List ℕ) (r : Revocation)
    → length signature ≡ 64
    → decode body ≡ ok r
    → verify_signed verify (signature ++ body) key
      ≡ (if verify key (signing_transcript body) signature then ok r else err bad_header_signature)
unfolding verify_signed
verify_signed-signed verify key signature body r h d =
    signed_read verify key signature body signing_transcript decode h
    ∙ ap
        (λ (read_back : Parsed Revocation).
          if verify key (signing_transcript body) signature
          then read_back
          else err bad_header_signature)
        d

-- A revocation whose file identifier has 16 bytes and whose numbers are in range is encoded, and decoded as the same
-- revocation. With 64 bytes of signature before it, `verify_signed` gives the revocation if the signature is right, and
-- an error of the signature otherwise.
pub revocation_round_trip :
    (verify : Verifier) (key signature : List ℕ) (r : Revocation)
    → IsRevocation r
    → length signature ≡ 64
    → (body : List ℕ) × (encode r ≡ ok body)
      × (decode body ≡ ok r)
      × (verify_signed verify (signature ++ body) key ≡ (
          if verify key (signing_transcript body) signature
          then ok r
          else err bad_header_signature))
revocation_round_trip verify key signature r h long =
    let d = decode_entries r h in
    (
      encode_fields (entries r),
      encode_entries r h,
      d,
      verify_signed-signed verify key signature (encode_fields (entries r)) r long d,
    )
