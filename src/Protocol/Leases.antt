-- ===== src/Protocol/Leases.antt =====
-- crates/oc-protocol/src/lease.rs: the server's permission to open one file on one device. `Decode` reads the document.
use open_crate.Base.{
  ℕ, Bool, true, false, Option, none, some, List, [], ◌∷◌, ◌++◌, if◌then◌else◌, ok, ◌>>=◌,
}
use open_crate.Base.Bytes.{to_le}
use open_crate.Crypto.Labels.{lease_label}
use open_crate.Crypto.Transcript.{Transcript, new_transcript, put_field}
use open_crate.Format.{Parsed}
use open_crate.Format.Tlv.{TlvWriter, new_writer, put, finish}
use open_crate.Format.PolicyCodec.Values.{i64_le}
use open_crate.Format.PolicyCodec.Encode as PolicyEncode
use open_crate.Policy.{Policy, Attestation, vendor_certificate, enrolled_ek, TpmClock, LeaseFacts}
pub mod Decode
pub mod Entries
pub mod Written
pub mod Fields
pub mod Signed
pub mod Decided

abbrev pub lease_version : ℕ
lease_version = 1

abbrev pub lease_version_with_server_policy : ℕ
lease_version_with_server_policy = 2

abbrev pub lease_version_with_attestation : ℕ
lease_version_with_attestation = 3

-- `CONTAINER_VERSION` of crates/oc-format/src/header.rs
abbrev pub container_version : ℕ
container_version = 5

pub record Lease : Type 0 where
  pub file_id : List ℕ
  pub facts : LeaseFacts

unfoldable pub signing_transcript : List ℕ → Transcript
signing_transcript body = put_field (new_transcript lease_label) body

-- The version that `encode` writes.
abbrev pub version_for : LeaseFacts → ℕ
version_for facts = elim facts.attested [
  | some a ↦ lease_version_with_attestation
  | none ↦ elim facts.server_policy [
    | some p ↦ lease_version_with_server_policy
    | none ↦ lease_version
  ]
]

abbrev pub status_byte : Bool → ℕ
status_byte revoked = if revoked then 2 else 1

abbrev pub opens_bytes : Option ℕ → List ℕ
opens_bytes none = []
opens_bytes (some n) = to_le 4 n

abbrev pub clock_bytes : TpmClock → List ℕ
clock_bytes clock = to_le 4 clock.reset_count ++ to_le 8 clock.clock_ms

abbrev pub basis_byte : Attestation → ℕ
basis_byte vendor_certificate = 1
basis_byte enrolled_ek = 2

abbrev pub put_clock : TlvWriter → Option TpmClock → Parsed TlvWriter
put_clock w none = ok w
put_clock w (some clock) = put w 11 (clock_bytes clock)

abbrev pub put_policy : TlvWriter → Option Policy → Parsed TlvWriter
put_policy w none = ok w
put_policy w (some policy) = do bytes ← PolicyEncode.encode container_version policy; put w 12 bytes

abbrev pub put_attested : TlvWriter → Option Attestation → Parsed TlvWriter
put_attested w none = ok w
put_attested w (some attested) = put w 13 (basis_byte attested ∷ [])

-- The fields that `encode` always writes, and those that it may write.
unfoldable pub put_required : Lease → Parsed TlvWriter
put_required l = do
  w ← put new_writer 1 (to_le 2 (version_for l.facts))
  w ← put w 2 l.file_id
  w ← put w 3 l.facts.device_fingerprint
  w ← put w 4 l.facts.policy_hash
  w ← put w 5 (to_le 8 l.facts.seq)
  w ← put w 6 (to_le 8 l.facts.epoch)
  w ← put w 7 (i64_le l.facts.issued_at)
  w ← put w 8 (i64_le l.facts.expires_at)
  w ← put w 9 (status_byte l.facts.revoked ∷ [])
  w ← put w 10 (opens_bytes l.facts.opens_remaining)
  ok w

unfoldable pub put_optional : TlvWriter → LeaseFacts → Parsed TlvWriter
put_optional w facts = do
  w ← put_clock w facts.tpm_clock
  w ← put_policy w facts.server_policy
  put_attested w facts.attested

unfoldable pub encode : Lease → Parsed (List ℕ)
encode l = do w ← put_required l; w ← put_optional w l.facts; ok (finish w)
