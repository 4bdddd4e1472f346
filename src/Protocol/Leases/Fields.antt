-- ===== src/Protocol/Leases/Fields.antt =====
-- What the loop of `decode` of crates/oc-protocol/src/lease.rs has, when the fields of a lease are read.
use open_crate.Base.{
  ℕ, ◌^◌, ◌<◌, ◌≡◌, refl, ap, ◌∙◌, Bool, true, false, Option, none, some, List, [], ◌∷◌, ok, ◌>>=◌,
  arith,
}
use open_crate.Base.Int.{ℤ, IsI64}
use open_crate.Base.Bytes.{to_le, from_le, from_le-to_le, length-to_le, array, array_lem, slice}
use open_crate.Format.{Parsed}
use open_crate.Format.Tlv.{field_u8}
use open_crate.Format.Tlv.Loop.{fold-append, fold_entries}
use open_crate.Format.PolicyCodec.Values.{i64_le}
use open_crate.Format.PolicyCodec.Fields.{OpensInRange, i64_from_le-i64_le, length-i64_le}
use open_crate.Policy.{Policy, Attestation, vendor_certificate, enrolled_ek, TpmClock, LeaseFacts}
use open_crate.Protocol.Documents.{field_array_lem, field_uint_lem}
use open_crate.Protocol.Leases.{
  Lease, version_for, status_byte, opens_bytes, clock_bytes, basis_byte,
}
use open_crate.Protocol.Leases.Decode.{
  LeaseFields, uint_le, int_le, decode_clock, status_of, opens_of, attestation_of, lease_field,
  no_lease_fields, lease_of, check_version,
}
use open_crate.Protocol.Leases.Entries.{
  Carries, no_policy, some_policy, ClockFits, IsLease, clock_entry, policy_entry, attested_entry,
  optional_entries, required_entries, entries,
}

uint_le_lem : (n k : ℕ) → k < 256 ^ n → uint_le n (to_le n k) ≡ ok k
unfolding uint_le
uint_le_lem n k h = rw (array_lem n (to_le n k) (length-to_le n k), from_le-to_le n k h) refl

int_le_lem : (k : ℤ) → IsI64 k → int_le (i64_le k) ≡ ok k
unfolding int_le
int_le_lem k h = rw (array_lem 8 (i64_le k) (length-i64_le k), i64_from_le-i64_le k h) refl

status_of_lem : (b : Bool) → status_of (status_byte b) ≡ ok b
status_of_lem false = refl
status_of_lem true = refl

attestation_of_lem : (a : Attestation) → attestation_of (basis_byte a) ≡ ok a
attestation_of_lem vendor_certificate = refl
attestation_of_lem enrolled_ek = refl

opens_of_lem : (o : Option ℕ) → OpensInRange o → opens_of (opens_bytes o) ≡ ok o
unfolding opens_of to_le
opens_of_lem none h = refl
opens_of_lem (some n) h = ap (λ (r : Parsed ℕ). r >>= λ k. ok (some k)) (uint_le_lem 4 n h)

decode_clock_lem : (c : TpmClock) → ClockFits (some c) → decode_clock (clock_bytes c) ≡ ok c
unfolding decode_clock to_le slice array
decode_clock_lem c (h, k) =
    let reset : from_le (to_le 4 c.reset_count) ≡ c.reset_count = from_le-to_le 4 c.reset_count h in
    let ms : from_le (to_le 8 c.clock_ms) ≡ c.clock_ms =
      from_le-to_le 8 c.clock_ms (omega (arith, k)) in
    ap (λ (n : ℕ). ok (record { reset_count = n; clock_ms = from_le (to_le 8 c.clock_ms) })) reset
    ∙ ap (λ (n : ℕ). ok (record { reset_count = c.reset_count; clock_ms = n })) ms

-- The variables of the loop, when the fields up to tag 10 are read, and those that may follow.
abbrev after_fields : Lease → Option TpmClock → Option Policy → Option Attestation → LeaseFields
after_fields l c p a = record {
  version = some (version_for l.facts);
  file_id = some l.file_id;
  device_fpr = some l.facts.device_fingerprint;
  policy_hash = some l.facts.policy_hash;
  seq = some l.facts.seq;
  epoch = some l.facts.epoch;
  issued_at = some l.facts.issued_at;
  expires_at = some l.facts.expires_at;
  status = some l.facts.revoked;
  opens_remaining = some l.facts.opens_remaining;
  tpm_clock = c;
  server_policy = p;
  attested = a;
}

version_for-lt : (f : LeaseFacts) → version_for f < 2 ^ 16
version_for-lt f = ground arith

fold-required_entries :
    (l : Lease)
    → IsLease l
    → fold_entries lease_field 0 (required_entries l) no_lease_fields
      ≡ ok (after_fields l none none none)
unfolding lease_field no_lease_fields field_u8
fold-required_entries l h =
    rw
      (
        (λ (pos : ℕ).
            field_uint_lem 2 1 pos (version_for l.facts) (omega (arith, version_for-lt l.facts))),
        (λ (pos : ℕ). field_array_lem 16 2 pos l.file_id h.file_id),
        (λ (pos : ℕ). field_array_lem 32 3 pos l.facts.device_fingerprint h.device_fingerprint),
        (λ (pos : ℕ). field_array_lem 32 4 pos l.facts.policy_hash h.policy_hash),
        uint_le_lem 8 l.facts.seq (omega (arith, h.seq)),
        uint_le_lem 8 l.facts.epoch (omega (arith, h.epoch)),
        int_le_lem l.facts.issued_at h.issued_at,
        int_le_lem l.facts.expires_at h.expires_at,
        status_of_lem l.facts.revoked,
        opens_of_lem l.facts.opens_remaining h.opens_remaining,
      )
      refl

fold-clock_entry :
    (l : Lease) (c : Option TpmClock) (pos : ℕ)
    → ClockFits c
    → fold_entries lease_field pos (clock_entry c) (after_fields l none none none)
      ≡ ok (after_fields l c none none)
unfolding lease_field
fold-clock_entry l none pos h = refl
fold-clock_entry l (some c) pos h = rw (decode_clock_lem c h) refl

fold-policy_entry :
    (l : Lease) (c : Option TpmClock) (p q : Option Policy) (bytes : List ℕ) (pos : ℕ)
    → Carries p bytes q
    → fold_entries lease_field pos (policy_entry p bytes) (after_fields l c none none)
      ≡ ok (after_fields l c q none)
unfolding lease_field
fold-policy_entry l c none none [] pos no_policy = refl
fold-policy_entry l c none none (_ ∷ _) pos k = elim k [ ]
fold-policy_entry l c none (some q) bytes pos k = elim k [ ]
fold-policy_entry l c (some p) none bytes pos k = elim k [ ]
fold-policy_entry l c (some p) (some q) bytes pos (some_policy written read_back short) =
    rw read_back refl

fold-attested_entry :
    (l : Lease) (c : Option TpmClock) (q : Option Policy) (a : Option Attestation) (pos : ℕ)
    → fold_entries lease_field pos (attested_entry a) (after_fields l c q none)
      ≡ ok (after_fields l c q a)
unfolding lease_field field_u8
fold-attested_entry l c q none pos = refl
fold-attested_entry l c q (some a) pos = rw (attestation_of_lem a) refl

pub folded :
    (l : Lease) (q : Option Policy) (bytes : List ℕ)
    → IsLease l
    → Carries l.facts.server_policy bytes q
    → fold_entries lease_field 0 (entries l bytes) no_lease_fields
      ≡ ok (after_fields l l.facts.tpm_clock q l.facts.attested)
folded l q bytes h k =
    fold-append lease_field (required_entries l) (optional_entries l.facts bytes) 0 no_lease_fields
      (after_fields l none none none) (fold-required_entries l h)
    ∙ fold-append lease_field (clock_entry l.facts.tpm_clock) _ _ (after_fields l none none none)
        (after_fields l l.facts.tpm_clock none none)
        (fold-clock_entry l l.facts.tpm_clock _ h.tpm_clock)
    ∙ fold-append lease_field (policy_entry l.facts.server_policy bytes) _ _
        (after_fields l l.facts.tpm_clock none none) (after_fields l l.facts.tpm_clock q none)
        (fold-policy_entry l l.facts.tpm_clock l.facts.server_policy q bytes _ k)
    ∙ fold-attested_entry l l.facts.tpm_clock q l.facts.attested _

pub lease_of-after_fields :
    (f : List ℕ) (g : LeaseFacts) (p q : Option Policy) (a : Option Attestation) (bytes : List ℕ)
    → Carries p bytes q
    → lease_of (
        after_fields
          (record { file_id = f; facts = record g { server_policy = p; attested = a } })
          g.tpm_clock
          q
          a)
      ≡ ok (record { file_id = f; facts = record g { server_policy = q; attested = a } })
unfolding lease_of check_version
lease_of-after_fields f g none none none [] no_policy = refl
lease_of-after_fields f g none none (some a) [] no_policy = refl
lease_of-after_fields f g none none a (_ ∷ _) k = elim k [ ]
lease_of-after_fields f g none (some q) a bytes k = elim k [ ]
lease_of-after_fields f g (some p) none a bytes k = elim k [ ]
lease_of-after_fields f g (some p) (some q) none bytes k = refl
lease_of-after_fields f g (some p) (some q) (some a) bytes k = refl
