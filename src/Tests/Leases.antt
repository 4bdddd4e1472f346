-- ===== src/Tests/Leases.antt =====
-- The theorem on crates/oc-protocol/src/lease.rs at a lease with a policy of the server and a clock.
use open_crate.Base.{
  ℕ, ap, sym, ◌∙◌, ◌<◌, ◌^◌, ◌≡◌, ◌>>=◌, refl, false, Option, some, List, [], ◌∷◌, ◌++◌, length, ok,
  err, arith, if◌then◌else◌,
}
use open_crate.Base.Int.{pos}
use open_crate.Base.Bytes.{to_le, bits64}
use open_crate.Format.{Parsed, bad_header_signature}
use open_crate.Format.Tlv.{check_order, reserve, put, new_writer}
use open_crate.Format.PolicyCodec.Encode as PolicyEncode
use open_crate.Format.PolicyCodec.Values.{encode_validity, encode_network, encode_max_opens, i64_le}
use open_crate.Policy.Rules.{rule}
use open_crate.Base.Words.{to_u32, checked_add, saturating_add}
use open_crate.Policy.{Policy, vendor_certificate, edit}
use open_crate.Protocol.{zero_bytes, no_signature}
use open_crate.Protocol.Leases.{
  Lease, put_required, put_optional, container_version, encode, signing_transcript,
}
use open_crate.Protocol.Leases.Decode.{decode, verify_signed}
use open_crate.Protocol.Leases.Entries.{IsLease, with_policy}
use open_crate.Protocol.Leases.Signed.{SameIfAny, lease_round_trip}
use open_crate.Tests.Containers.{rich_policy, rich_IsEncodable}
use open_crate.Tests.Delegation.{toy_verify, toy_verify-accepts}
use open_crate.Tests.Decisions.{half_past}
use open_crate.Policy.Evaluate.{evaluate}
use open_crate.Protocol.Leases.Decided.{lease_decided_same}
use open_crate.Tests.Revocations.{signature-length}

abbrev rich_lease : Lease
rich_lease = record {
  file_id = zero_bytes 16;
  facts = record {
    device_fingerprint = zero_bytes 32;
    policy_hash = zero_bytes 32;
    seq = 7;
    epoch = 2;
    issued_at = pos 1_700_000_000;
    expires_at = pos 1_700_003_600;
    opens_remaining = some 3;
    revoked = false;
    server_policy = some rich_policy;
    attested = some vendor_certificate;
    tpm_clock = some (record { reset_count = 1; clock_ms = 1_000 });
  };
}

rich_lease-IsLease : IsLease rich_lease
rich_lease-IsLease = record {
  file_id = refl;
  device_fingerprint = refl;
  policy_hash = refl;
  seq = omega arith;
  epoch = omega arith;
  issued_at = (omega arith, omega arith);
  expires_at = (omega arith, omega arith);
  opens_remaining = omega arith;
  tpm_clock = (omega arith, omega arith);
}

written_length :
    (PolicyEncode.encode container_version rich_policy >>= λ bytes. ok (length bytes)) ≡ ok 187
unfolding PolicyEncode.encode PolicyEncode.put_rules PolicyEncode.put_levels
    PolicyEncode.put_action_binding PolicyEncode.actions_by_tag PolicyEncode.insert_rules
    PolicyEncode.insert_unknown PolicyEncode.insert put check_order reserve new_writer to_le i64_le
    bits64 encode_validity encode_network encode_max_opens rule to_u32 checked_add saturating_add
written_length = refl

rich_policy-short :
    (bytes : List ℕ)
    → PolicyEncode.encode container_version rich_policy ≡ ok bytes
    → length bytes < 2 ^ 32
rich_policy-short bytes h =
    let e : ◌≡◌ {A = Parsed ℕ} (ok (length bytes)) (ok 187) =
      ap (λ (r : Parsed (List ℕ)). r >>= λ b. ok (length b)) (sym h) ∙ written_length in
    let n : length bytes ≡ 187 = cc e in omega (arith, n)

lease_round_trip_example :
    (body : List ℕ) × (q : Option Policy) × (encode rich_lease ≡ ok body)
    × (decode body ≡ ok (with_policy rich_lease q))
    × SameIfAny q (some rich_policy)
    × (verify_signed toy_verify (no_signature ++ body) (1 ∷ []) ≡ (
        if toy_verify (1 ∷ []) (signing_transcript body) no_signature
        then ok (with_policy rich_lease q)
        else err bad_header_signature))
lease_round_trip_example =
    lease_round_trip toy_verify (1 ∷ []) no_signature rich_lease rich_lease-IsLease
      (rich_IsEncodable, rich_policy-short) signature-length

abbrev made : Parsed (List ℕ) → List ℕ
made (ok bytes) = bytes
made (err x) = []

abbrev rich_body : List ℕ
rich_body = made (encode rich_lease)

rich_encoded : encode rich_lease ≡ ok rich_body
unfolding encode put_required put_optional PolicyEncode.encode PolicyEncode.put_rules
    PolicyEncode.put_levels PolicyEncode.put_action_binding PolicyEncode.actions_by_tag
    PolicyEncode.insert_rules PolicyEncode.insert_unknown PolicyEncode.insert put check_order
    reserve new_writer to_le i64_le bits64 encode_validity encode_network encode_max_opens rule
    to_u32 checked_add saturating_add
rich_encoded = refl

abbrev server_key : List ℕ
server_key = zero_bytes 32

lease_decided_same_example :
    (received : Lease) × (verify_signed toy_verify (no_signature ++ rich_body) server_key
      ≡ ok received)
    × (received.file_id ≡ zero_bytes 16)
    × (evaluate rich_policy (some received.facts) edit half_past
        ≡ evaluate rich_policy (some rich_lease.facts) edit half_past)
lease_decided_same_example =
    lease_decided_same toy_verify server_key no_signature rich_body rich_lease rich_policy edit
      half_past rich_lease-IsLease (rich_IsEncodable, rich_policy-short) signature-length
      rich_encoded (toy_verify-accepts (signing_transcript rich_body))
