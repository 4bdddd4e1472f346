-- ===== src/Protocol/Revocations.antt =====
-- crates/oc-protocol/src/revocation.rs: that a file was revoked, signed by the server.
use open_crate.Base.{
  ℕ, ◌==◌, not, Option, none, some, List, ok, err, ◌>>=◌, ◌>>◌, fail_if, ok_or, if◌then◌else◌,
}
use open_crate.Base.Int.{ℤ}
use open_crate.Base.Bytes.{to_le}
use open_crate.Crypto.Labels.{revocation_label}
use open_crate.Crypto.Transcript.{Transcript, new_transcript, put_field}
use open_crate.Format.{Parsed, missing_field, unknown_critical_field, bad_header_signature}
use open_crate.Format.Tlv.{Field, field_array, field_uint, read_fields, new_writer, put, finish}
use open_crate.Format.PolicyCodec.Values.{i64_le}
use open_crate.Protocol.{Verifier, refuse_if_critical, split_signature}
use open_crate.Protocol.Actions.Grant.{field_i64}
pub mod Signed

abbrev revocation_version : ℕ
revocation_version = 1

-- The tags `tag`.
abbrev version_tag : ℕ
version_tag = 1

abbrev file_id_tag : ℕ
file_id_tag = 2

abbrev epoch_tag : ℕ
epoch_tag = 3

abbrev pub at_tag : ℕ
at_tag = 4

pub record Revocation : Type 0 where
  pub file_id : List ℕ
  pub epoch : ℕ
  pub at : ℤ

unfoldable pub signing_transcript : List ℕ → Transcript
signing_transcript body = put_field (new_transcript revocation_label) body

unfoldable pub encode : Revocation → Parsed (List ℕ)
encode revocation = do
  w ← put new_writer version_tag (to_le 2 revocation_version)
  w ← put w file_id_tag revocation.file_id
  w ← put w epoch_tag (to_le 8 revocation.epoch)
  w ← put w at_tag (i64_le revocation.at)
  ok (finish w)

-- The variables of the loop of `decode`.
pub record RevocationFields : Type 0 where
  pub version : Option ℕ
  pub file_id : Option (List ℕ)
  pub epoch : Option ℕ
  pub at : Option ℤ

pub no_fields : RevocationFields
no_fields = record { version = none; file_id = none; epoch = none; at = none }

pub revocation_field : RevocationFields → Field → Parsed RevocationFields
revocation_field st f =
    if f.tag == version_tag
    then (do v ← field_uint 2 f; ok (record st { version = some v }))
    else if f.tag == file_id_tag
    then (do v ← field_array 16 f; ok (record st { file_id = some v }))
    else if f.tag == epoch_tag
    then (do v ← field_uint 8 f; ok (record st { epoch = some v }))
    else if f.tag == at_tag
    then (do v ← field_i64 f; ok (record st { at = some v }))
    else (do refuse_if_critical f.tag; ok st)

-- What `decode` does after the loop.
pub revocation_of : RevocationFields → Parsed Revocation
revocation_of st = do
  version ← ok_or st.version (missing_field version_tag)
  fail_if (not (version == revocation_version)) (unknown_critical_field version_tag)
  file_id ← ok_or st.file_id (missing_field file_id_tag)
  epoch ← ok_or st.epoch (missing_field epoch_tag)
  at ← ok_or st.at (missing_field at_tag)
  ok (record { file_id = file_id; epoch = epoch; at = at })

unfoldable pub decode : List ℕ → Parsed Revocation
decode body = do st ← read_fields revocation_field body no_fields; revocation_of st

module _ (verify : Verifier) where
  unfoldable pub verify_signed : List ℕ → List ℕ → Parsed Revocation
  verify_signed bytes lease_verify_key = do
    (signature, body) ← split_signature bytes
    fail_if (not (verify lease_verify_key (signing_transcript body) signature)) bad_header_signature
    decode body
