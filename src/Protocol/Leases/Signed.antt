-- ===== src/Protocol/Leases/Signed.antt =====
-- `encode`, `decode` and `verify_signed` of crates/oc-protocol/src/lease.rs together.
use open_crate.Base.{
  ℕ, ◌^◌, ◌<◌, ◌≡◌, ap, ◌∙◌, Option, none, some, List, [], ◌++◌, length, ok, err, if◌then◌else◌,
}
use open_crate.Format.{Parsed, bad_header_signature}
use open_crate.Format.Tlv.Encoding.{encode_fields}
use open_crate.Format.Tlv.RoundTrip.{read_fields-encode_fields}
use open_crate.Format.PolicyCodec.Encode as PolicyEncode
use open_crate.Policy.{Policy}
use open_crate.Protocol.{Verifier}
use open_crate.Protocol.Documents.{signed_read}
use open_crate.Protocol.Leases.{Lease, encode, container_version, signing_transcript}
use open_crate.Protocol.Leases.Decode.{lease_field, no_lease_fields, decode, verify_signed}
use open_crate.Protocol.Leases.Entries.{
  Carries, no_policy, some_policy, IsLease, with_policy, entries, entries-IsOrdered, length-entries,
}
use open_crate.Protocol.Leases.Written.{encode_entries}
use open_crate.Protocol.Leases.Fields.{folded, lease_of-after_fields}
use open_crate.Format.PolicyCodec.Pieces.{IsEncodable}
use open_crate.Format.PolicyCodec.RoundTrip.{policy_round_trip}
use open_crate.Policy.Intersect.Order.{SamePolicy}

decode_entries :
    (l : Lease) (q : Option Policy) (bytes : List ℕ)
    → IsLease l
    → Carries l.facts.server_policy bytes q
    → decode (encode_fields (entries l bytes)) ≡ ok (with_policy l q)
unfolding decode
decode_entries l q bytes h k =
    rw
      (
        read_fields-encode_fields lease_field (entries l bytes) no_lease_fields
            (entries-IsOrdered l q bytes h k) (length-entries l q bytes h k),
        folded l q bytes h k,
      )
      (lease_of-after_fields l.file_id l.facts l.facts.server_policy q l.facts.attested bytes k)

-- The policy can be encoded, and what is written for it is no longer than the length of a field says.
abbrev pub PolicyFits : Option Policy → Type 0
PolicyFits none = Unit {0}
PolicyFits (some p) =
    IsEncodable p
    × ((bytes : List ℕ)
        → PolicyEncode.encode container_version p ≡ ok bytes
        → length bytes < 2 ^ 32)

abbrev pub SameIfAny : Option Policy → Option Policy → Type 0
SameIfAny none none = Unit {0}
SameIfAny (some q) (some p) = SamePolicy q p
SameIfAny none (some p) = ⊥
SameIfAny (some q) none = ⊥

carried :
    (p : Option Policy)
    → PolicyFits p
    → (q : Option Policy) × (bytes : List ℕ) × Carries p bytes q × SameIfAny q p
carried none h = (none, [], no_policy, tt)
carried (some p) (encodable, short) =
    let (bytes, written, (q, read_back, same)) = policy_round_trip container_version p encodable in
    (some q, bytes, some_policy written read_back (short bytes written), same)

-- A lease whose identifiers have their lengths, whose numbers are in range and whose policy can be encoded in a field
-- is encoded, and decoded as the same lease with a policy that says the same, or with none if it had none. With 64 bytes
-- of signature before it, `verify_signed` gives that lease if the signature is right, and an error of the signature
-- otherwise.
pub lease_round_trip :
    (verify : Verifier) (key signature : List ℕ) (l : Lease)
    → IsLease l
    → PolicyFits l.facts.server_policy
    → length signature ≡ 64
    → (body : List ℕ) × (q : Option Policy) × (encode l ≡ ok body)
      × (decode body ≡ ok (with_policy l q))
      × SameIfAny q l.facts.server_policy
      × (verify_signed verify (signature ++ body) key ≡ (
          if verify key (signing_transcript body) signature
          then ok (with_policy l q)
          else err bad_header_signature))
unfolding verify_signed
lease_round_trip verify key signature l h fits long =
    let (q, bytes, k, same) = carried l.facts.server_policy fits in
    let body = encode_fields (entries l bytes) in
    let d = decode_entries l q bytes h k in
    (
      body,
      q,
      encode_entries l q bytes h k,
      d,
      same,
      signed_read verify key signature body signing_transcript decode long
          ∙ ap
              (λ (read_back : Parsed Lease).
                if verify key (signing_transcript body) signature
                then read_back
                else err bad_header_signature)
              d,
    )
