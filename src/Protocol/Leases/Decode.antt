-- ===== src/Protocol/Leases/Decode.antt =====
-- `decode` and `verify_signed` of crates/oc-protocol/src/lease.rs.
use open_crate.Base.{
  ℕ, Bool, true, false, not, ◌&&◌, ◌||◌, Option, none, some, List, [], ◌∷◌, length, ◌==◌,
  if◌then◌else◌, ok, err, ◌>>=◌, ◌>>◌, fail_if, ok_or,
}
use open_crate.Base.Int.{ℤ}
use open_crate.Base.Bytes.{array, slice, from_le}
use open_crate.Format.{
  Parsed, bad_field_length, missing_field, unknown_critical_field, unsupported_lease_version,
  bad_header_signature,
}
use open_crate.Format.Tlv.{Field, field_array, field_u8, field_uint, read_fields}
use open_crate.Format.PolicyCodec.Values.{i64_from_le}
use open_crate.Format.PolicyCodec.Decode as PolicyDecode
use open_crate.Policy.{Policy, Attestation, vendor_certificate, enrolled_ek, TpmClock}
use open_crate.Policy.Rules.{is_some}
use open_crate.Protocol.{Verifier, refuse_if_critical, split_signature}
use open_crate.Protocol.Agents.Decode.{supported_reader_version}
use open_crate.Protocol.Leases.{
  Lease, signing_transcript, lease_version, lease_version_with_server_policy,
  lease_version_with_attestation,
}

-- `u64_le` and `u32_le` for 8 and 4 bytes: the error does not know the tag.
unfoldable pub uint_le : ℕ → List ℕ → Parsed ℕ
uint_le n value = do
  bytes ← ok_or (array n value) (bad_field_length 0 (length value))
  ok (from_le bytes)

-- `i64_le`
unfoldable pub int_le : List ℕ → Parsed ℤ
int_le value = do
  bytes ← ok_or (array 8 value) (bad_field_length 0 (length value))
  ok (i64_from_le bytes)

unfoldable pub decode_clock : List ℕ → Parsed TpmClock
decode_clock value = do
  reset ← ok_or (slice value 0 4) (bad_field_length 11 (length value))
  ms ← ok_or (slice value 4 12) (bad_field_length 11 (length value))
  fail_if (not (length value == 12)) (bad_field_length 11 (length value))
  reset ← ok_or (array 4 reset) (bad_field_length 11 4)
  ms ← ok_or (array 8 ms) (bad_field_length 11 8)
  ok (record { reset_count = from_le reset; clock_ms = from_le ms })

abbrev pub status_of : ℕ → Parsed Bool
status_of byte =
    if byte == 1 then ok false else if byte == 2 then ok true else err (bad_field_length 9 1)

unfoldable pub opens_of : List ℕ → Parsed (Option ℕ)
opens_of [] = ok none
opens_of (b ∷ bs) = do n ← uint_le 4 (b ∷ bs); ok (some n)

abbrev pub attestation_of : ℕ → Parsed Attestation
attestation_of byte =
    if byte == 1
    then ok vendor_certificate
    else if byte == 2
    then ok enrolled_ek
    else err (bad_field_length 13 1)

-- The variables of the loop of `decode`.
pub record LeaseFields : Type 0 where
  pub version : Option ℕ
  pub file_id : Option (List ℕ)
  pub device_fpr : Option (List ℕ)
  pub policy_hash : Option (List ℕ)
  pub seq : Option ℕ
  pub epoch : Option ℕ
  pub issued_at : Option ℤ
  pub expires_at : Option ℤ
  pub status : Option Bool
  pub opens_remaining : Option (Option ℕ)
  pub tpm_clock : Option TpmClock
  pub server_policy : Option Policy
  pub attested : Option Attestation

unfoldable pub no_lease_fields : LeaseFields
no_lease_fields = record {
  version = none;
  file_id = none;
  device_fpr = none;
  policy_hash = none;
  seq = none;
  epoch = none;
  issued_at = none;
  expires_at = none;
  status = none;
  opens_remaining = none;
  tpm_clock = none;
  server_policy = none;
  attested = none;
}

unfoldable pub lease_field : LeaseFields → Field → Parsed LeaseFields
lease_field st f =
    if f.tag == 1
    then (do v ← field_uint 2 f; ok (record st { version = some v }))
    else if f.tag == 2
    then (do v ← field_array 16 f; ok (record st { file_id = some v }))
    else if f.tag == 3
    then (do v ← field_array 32 f; ok (record st { device_fpr = some v }))
    else if f.tag == 4
    then (do v ← field_array 32 f; ok (record st { policy_hash = some v }))
    else if f.tag == 5
    then (do v ← uint_le 8 f.value; ok (record st { seq = some v }))
    else if f.tag == 6
    then (do v ← uint_le 8 f.value; ok (record st { epoch = some v }))
    else if f.tag == 7
    then (do v ← int_le f.value; ok (record st { issued_at = some v }))
    else if f.tag == 8
    then (do v ← int_le f.value; ok (record st { expires_at = some v }))
    else if f.tag == 9
    then (do byte ← field_u8 f; v ← status_of byte; ok (record st { status = some v }))
    else if f.tag == 10
    then (do v ← opens_of f.value; ok (record st { opens_remaining = some v }))
    else if f.tag == 11
    then (do v ← decode_clock f.value; ok (record st { tpm_clock = some v }))
    else if f.tag == 12
    then (do
      v ← PolicyDecode.decode supported_reader_version f.value
      ok (record st { server_policy = some v }))
    else if f.tag == 13
    then (do byte ← field_u8 f; v ← attestation_of byte; ok (record st { attested = some v }))
    else (do refuse_if_critical f.tag; ok st)

-- `match (version, server_policy.is_some(), attested.is_some())`
unfoldable pub check_version : ℕ → Bool → Bool → Parsed (Unit {0})
check_version version policy attested =
    let first = version == lease_version in
    let second = version == lease_version_with_server_policy in
    let third = version == lease_version_with_attestation in
    if (first && not policy && not attested)
      || (second && policy && not attested)
      || (third && attested)
    then ok tt
    else if (first || second) && attested
    then err (unknown_critical_field 13)
    else if third && not attested
    then err (missing_field 13)
    else if first && policy
    then err (unknown_critical_field 12)
    else if second && not policy
    then err (missing_field 12)
    else err (unsupported_lease_version version)

-- What `decode` does after the loop.
unfoldable pub lease_of : LeaseFields → Parsed Lease
lease_of st = do
  version ← ok_or st.version (missing_field 1)
  check_version version (is_some st.server_policy) (is_some st.attested)
  file_id ← ok_or st.file_id (missing_field 2)
  device_fpr ← ok_or st.device_fpr (missing_field 3)
  policy_hash ← ok_or st.policy_hash (missing_field 4)
  seq ← ok_or st.seq (missing_field 5)
  epoch ← ok_or st.epoch (missing_field 6)
  issued_at ← ok_or st.issued_at (missing_field 7)
  expires_at ← ok_or st.expires_at (missing_field 8)
  opens_remaining ← ok_or st.opens_remaining (missing_field 10)
  revoked ← ok_or st.status (missing_field 9)
  ok (record {
    file_id = file_id;
    facts = record {
      device_fingerprint = device_fpr;
      policy_hash = policy_hash;
      seq = seq;
      epoch = epoch;
      issued_at = issued_at;
      expires_at = expires_at;
      opens_remaining = opens_remaining;
      revoked = revoked;
      server_policy = st.server_policy;
      attested = st.attested;
      tpm_clock = st.tpm_clock;
    };
  })

unfoldable pub decode : List ℕ → Parsed Lease
decode body = do st ← read_fields lease_field body no_lease_fields; lease_of st

module _ (verify : Verifier) where
  unfoldable pub verify_signed : List ℕ → List ℕ → Parsed Lease
  verify_signed bytes lease_verify_key = do
    (signature, body) ← split_signature bytes
    fail_if (not (verify lease_verify_key (signing_transcript body) signature)) bad_header_signature
    decode body
