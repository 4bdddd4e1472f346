-- ===== src/Protocol/Leases/Entries.antt =====
-- The fields of a lease of crates/oc-protocol/src/lease.rs in their order.
use open_crate.Base.{
  ℕ, ◌^◌, ◌<◌, ◌≤◌, ◌≡◌, Option, none, some, List, [], ◌∷◌, ◌++◌, length, length-append, ok, arith,
}
use open_crate.Base.Int.{IsI64}
use open_crate.Base.Bytes.{to_le, length-to_le}
use open_crate.Format.Tlv.Encoding.{length-ordered, Entry, encode_fields, IsOrdered}
use open_crate.Format.PolicyCodec.Values.{i64_le}
use open_crate.Format.PolicyCodec.Fields.{OpensInRange, length-i64_le}
use open_crate.Format.PolicyCodec.Encode as PolicyEncode
use open_crate.Format.PolicyCodec.Decode as PolicyDecode
use open_crate.Policy.{Policy, Attestation, TpmClock, LeaseFacts}
use open_crate.Protocol.Agents.Decode.{supported_reader_version}
use open_crate.Protocol.Leases.{
  Lease, container_version, version_for, status_byte, opens_bytes, clock_bytes, basis_byte,
}

abbrev pub ClockFits : Option TpmClock → Type 0
ClockFits none = Unit {0}
ClockFits (some c) = (c.reset_count < 2 ^ 32) × (c.clock_ms < 2 ^ 64)

-- What is written for a policy of the server, and what is read back.
pub data Carries : Option Policy → List ℕ → Option Policy → Type 0 where
  no_policy : Carries none [] none
  some_policy :
      {p q : Policy} {bytes : List ℕ}
      → PolicyEncode.encode container_version p ≡ ok bytes
      → PolicyDecode.decode supported_reader_version bytes ≡ ok q
      → length bytes < 2 ^ 32
      → Carries (some p) bytes (some q)

abbrev pub clock_entry : Option TpmClock → List Entry
clock_entry none = []
clock_entry (some c) = (11, clock_bytes c) ∷ []

abbrev pub policy_entry : Option Policy → List ℕ → List Entry
policy_entry none bytes = []
policy_entry (some p) bytes = (12, bytes) ∷ []

abbrev pub attested_entry : Option Attestation → List Entry
attested_entry none = []
attested_entry (some a) = (13, basis_byte a ∷ []) ∷ []

abbrev pub optional_entries : LeaseFacts → List ℕ → List Entry
optional_entries f bytes =
    clock_entry f.tpm_clock ++ (policy_entry f.server_policy bytes ++ attested_entry f.attested)

abbrev pub required_entries : Lease → List Entry
required_entries l =
    (1, to_le 2 (version_for l.facts))
    ∷ (2, l.file_id)
    ∷ (3, l.facts.device_fingerprint)
    ∷ (4, l.facts.policy_hash)
    ∷ (5, to_le 8 l.facts.seq)
    ∷ (6, to_le 8 l.facts.epoch)
    ∷ (7, i64_le l.facts.issued_at)
    ∷ (8, i64_le l.facts.expires_at)
    ∷ (9, status_byte l.facts.revoked ∷ [])
    ∷ (10, opens_bytes l.facts.opens_remaining)
    ∷ []

abbrev pub entries : Lease → List ℕ → List Entry
entries l bytes = required_entries l ++ optional_entries l.facts bytes

-- A lease that the types of the program allow, but for its policy.
pub record IsLease (l : Lease) : Type 0 where
  pub file_id : length l.file_id ≡ 16
  pub device_fingerprint : length l.facts.device_fingerprint ≡ 32
  pub policy_hash : length l.facts.policy_hash ≡ 32
  pub seq : l.facts.seq < 2 ^ 64
  pub epoch : l.facts.epoch < 2 ^ 64
  pub issued_at : IsI64 l.facts.issued_at
  pub expires_at : IsI64 l.facts.expires_at
  pub opens_remaining : OpensInRange l.facts.opens_remaining
  pub tpm_clock : ClockFits l.facts.tpm_clock

abbrev pub with_policy : Lease → Option Policy → Lease
with_policy l q = record l { facts = record l.facts { server_policy = q } }

length-opens_bytes : (o : Option ℕ) → length (opens_bytes o) ≤ 4
length-opens_bytes none = omega arith
length-opens_bytes (some n) = omega (arith, length-to_le 4 n)

attested_entry-IsOrdered :
    (a : Option Attestation) (last : ℕ) → last < 13 → IsOrdered (some last) (attested_entry a)
attested_entry-IsOrdered none last h = tt
attested_entry-IsOrdered (some a) last h = (h, (omega arith, omega arith), tt)

policy_entry-IsOrdered :
    (p q : Option Policy) (bytes : List ℕ) (a : Option Attestation) (last : ℕ)
    → Carries p bytes q
    → last < 12
    → IsOrdered (some last) (policy_entry p bytes ++ attested_entry a)
policy_entry-IsOrdered none q bytes a last k h = attested_entry-IsOrdered a last (omega (arith, h))
policy_entry-IsOrdered (some p) none bytes a last k h = elim k [ ]
policy_entry-IsOrdered (some p) (some q) bytes a last (some_policy written read_back short) h =
    (h, (omega arith, short), attested_entry-IsOrdered a 12 (omega arith))

optional_entries-IsOrdered :
    (f : List ℕ) (g : LeaseFacts) (q : Option Policy) (bytes : List ℕ) (c : Option TpmClock)
    → Carries g.server_policy bytes q
    → IsOrdered (some 10) (optional_entries (record g { tpm_clock = c }) bytes)
optional_entries-IsOrdered f g q bytes none k =
    policy_entry-IsOrdered g.server_policy q bytes g.attested 10 k (omega arith)
optional_entries-IsOrdered f g q bytes (some c) k = (
  omega arith,
  (
    omega arith,
    omega (
      arith,
      length-append (to_le 4 c.reset_count) (to_le 8 c.clock_ms),
      length-to_le 4 c.reset_count,
      length-to_le 8 c.clock_ms,
    ),
  ),
  policy_entry-IsOrdered g.server_policy q bytes g.attested 11 k (omega arith),
)

pub entries-IsOrdered :
    (l : Lease) (q : Option Policy) (bytes : List ℕ)
    → IsLease l
    → Carries l.facts.server_policy bytes q
    → IsOrdered none (entries l bytes)
entries-IsOrdered l q bytes h k = (
  tt,
  (omega arith, omega (arith, length-to_le 2 (version_for l.facts))),
  (
    omega arith,
    (omega arith, omega (arith, h.file_id)),
    (
      omega arith,
      (omega arith, omega (arith, h.device_fingerprint)),
      (
        omega arith,
        (omega arith, omega (arith, h.policy_hash)),
        (
          omega arith,
          (omega arith, omega (arith, length-to_le 8 l.facts.seq)),
          (
            omega arith,
            (omega arith, omega (arith, length-to_le 8 l.facts.epoch)),
            (
              omega arith,
              (omega arith, omega (arith, length-i64_le l.facts.issued_at)),
              (
                omega arith,
                (omega arith, omega (arith, length-i64_le l.facts.expires_at)),
                (
                  omega arith,
                  (omega arith, omega arith),
                  (
                    omega arith,
                    (omega arith, omega (arith, length-opens_bytes l.facts.opens_remaining)),
                    optional_entries-IsOrdered l.file_id l.facts q bytes l.facts.tpm_clock k,
                  ),
                ),
              ),
            ),
          ),
        ),
      ),
    ),
  ),
)

length-clock_entry : (c : Option TpmClock) → length (clock_entry c) ≤ 1
length-clock_entry none = omega arith
length-clock_entry (some c) = omega arith

length-policy_entry : (p : Option Policy) (bytes : List ℕ) → length (policy_entry p bytes) ≤ 1
length-policy_entry none bytes = omega arith
length-policy_entry (some p) bytes = omega arith

length-attested_entry : (a : Option Attestation) → length (attested_entry a) ≤ 1
length-attested_entry none = omega arith
length-attested_entry (some a) = omega arith

optional_entries_le : (f : LeaseFacts) (bytes : List ℕ) → length (optional_entries f bytes) ≤ 3
optional_entries_le f bytes = omega (
  arith,
  length-append (clock_entry f.tpm_clock)
      (policy_entry f.server_policy bytes ++ attested_entry f.attested),
  length-append (policy_entry f.server_policy bytes) (attested_entry f.attested),
  length-clock_entry f.tpm_clock,
  length-policy_entry f.server_policy bytes,
  length-attested_entry f.attested,
)

entries_le : (l : Lease) (bytes : List ℕ) → length (entries l bytes) ≤ 13
entries_le l bytes = omega (arith, optional_entries_le l.facts bytes)

pub length-entries :
    (l : Lease) (q : Option Policy) (bytes : List ℕ)
    → IsLease l
    → Carries l.facts.server_policy bytes q
    → length (encode_fields (entries l bytes)) < 2 ^ 63
length-entries l q bytes h k = omega (
  arith,
  length-ordered (entries l bytes) none (entries-IsOrdered l q bytes h k),
  entries_le l bytes,
)
