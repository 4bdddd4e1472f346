-- ===== src/Tests/Revocations.antt =====
-- The theorems on crates/oc-protocol/src/revocation.rs at one revocation.
use open_crate.Base.{
  ℕ, ◌≡◌, refl, ap, true, false, ◌&&◌, inr, take, drop, List, ◌∷◌, ◌++◌, [], length, ok, err, arith,
  if◌then◌else◌,
}
use open_crate.Base.Int.{pos}
use open_crate.Base.Bytes.{bytes_eq, to_le}
use open_crate.Crypto.Labels.{Label, all_labels, revocation_label, lease_label}
use open_crate.Format.{bad_header_signature}
use open_crate.Protocol.{Verifier, zero_bytes, no_signature, signature_len}
use open_crate.Protocol.Revocations.{Revocation, encode, decode, verify_signed, signing_transcript}
use open_crate.Protocol.Revocations.Signed.{IsRevocation, revocation_round_trip}
use open_crate.Protocol.Leases.Decode as Leases
use open_crate.Protocol.Signatures.{lease_document, document_message, unsigned-bad_header_signature}
use open_crate.Tests.Delegation.{toy_verify}
use mathlib.Core.List.{Memᴰ}
use mathlib.Core.List.Memᴰ

abbrev revoked : Revocation
revoked = record { file_id = zero_bytes 16; epoch = 3; at = pos 1700000000 }

revoked-IsRevocation : IsRevocation revoked
revoked-IsRevocation = record {
  file_id = refl;
  epoch = omega arith;
  at = (omega arith, omega arith);
}

pub signature-length : length no_signature ≡ 64
unfolding no_signature
signature-length = refl

revocation_round_trip_example :
    (body : List ℕ) × (encode revoked ≡ ok body)
    × (decode body ≡ ok revoked)
    × (verify_signed toy_verify (no_signature ++ body) (1 ∷ []) ≡ (
        if toy_verify (1 ∷ []) (signing_transcript body) no_signature
        then ok revoked
        else err bad_header_signature))
revocation_round_trip_example =
    revocation_round_trip toy_verify (1 ∷ []) no_signature revoked revoked-IsRevocation
      signature-length

-- A verifier for which one signature of zeros is right: the one over the body 9 of a revocation.
abbrev revocation_message : List ℕ
revocation_message = document_message revocation_label (9 ∷ [])

abbrev one_message : Verifier
one_message key transcript signature =
    bytes_eq transcript revocation_message && bytes_eq signature no_signature

one_message-right :
    one_message (2 ∷ []) revocation_message (take signature_len (no_signature ++ (9 ∷ []))) ≡ true
unfolding document_message bytes_eq no_signature to_le
one_message-right = refl

one_message-wrong :
    one_message
      (2 ∷ [])
      (document_message lease_label (9 ∷ []))
      (take signature_len (no_signature ++ (9 ∷ [])))
    ≡ false
unfolding document_message bytes_eq no_signature to_le
one_message-wrong = refl

abbrev signed_revocation : List (Label × List ℕ)
signed_revocation = (revocation_label, 9 ∷ []) ∷ []

revocation-registered :
    (entry : Label × List ℕ) → Memᴰ entry signed_revocation → Memᴰ entry.0 all_labels
unfolding all_labels
revocation-registered entry m =
    Memᴰ.cast (ap (λ (e : Label × List ℕ). e.0) (Memᴰ.eq_of_singleton m))
      (Memᴰ.tail (Memᴰ.head refl))

other_label : ¬ Memᴰ (lease_label, drop signature_len (no_signature ++ (9 ∷ []))) signed_revocation
other_label m =
    let same : lease_label ≡ revocation_label =
      ap (λ (e : Label × List ℕ). e.0) (Memᴰ.eq_of_singleton m) in
    cc same

-- The signature of the revocation before the body of the revocation is no lease.
unsigned-bad_header_signature_example :
    Leases.verify_signed one_message (no_signature ++ (9 ∷ [])) (2 ∷ []) ≡ err bad_header_signature
unfolding no_signature
unsigned-bad_header_signature_example =
    unsigned-bad_header_signature lease_document one_message (2 ∷ []) (no_signature ++ (9 ∷ []))
      signed_revocation revocation-registered (λ right. cc (right, one_message-wrong))
      (inr other_label)
