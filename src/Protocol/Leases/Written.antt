-- ===== src/Protocol/Leases/Written.antt =====
-- What `encode` of crates/oc-protocol/src/lease.rs writes.
use open_crate.Base.{
  ℕ, Result-cases, >>=-cong, ◌≡◌, refl, sym, ◌∙◌, inl, inr, Option, none, some, List, ◌++◌, ok,
  ◌>>=◌, arith,
}
use open_crate.Format.Tlv.{TlvWriter, new_writer}
use open_crate.Format.Tlv.Encoding.{encode_fields}
use open_crate.Format.Tlv.Writer.{put_all-append, put_all, put_all_lem}
use open_crate.Policy.{Policy, Attestation, TpmClock, LeaseFacts}
use open_crate.Protocol.Leases.{
  Lease, put_clock, put_policy, put_attested, put_required, put_optional, encode,
}
use open_crate.Protocol.Leases.Entries.{
  Carries, some_policy, IsLease, clock_entry, policy_entry, attested_entry, optional_entries,
  required_entries, entries, entries-IsOrdered, length-entries,
}

put_attested_lem :
    (w : TlvWriter) (a : Option Attestation) → put_attested w a ≡ put_all w (attested_entry a)
unfolding put_all
put_attested_lem w none = refl
put_attested_lem w (some a) = ground arith

put_policy_lem :
    (w : TlvWriter) (p q : Option Policy) (bytes : List ℕ)
    → Carries p bytes q
    → put_policy w p ≡ put_all w (policy_entry p bytes)
unfolding put_all
put_policy_lem w none q bytes k = refl
put_policy_lem w (some p) none bytes k = elim k [ ]
put_policy_lem w (some p) (some q) bytes (some_policy written read_back short) =
    rw written (ground arith)

put_clock_lem : (w : TlvWriter) (c : Option TpmClock) → put_clock w c ≡ put_all w (clock_entry c)
unfolding put_all
put_clock_lem w none = refl
put_clock_lem w (some c) = ground arith

put_required_lem : (l : Lease) → put_required l ≡ put_all new_writer (required_entries l)
unfolding put_required put_all
put_required_lem l = refl

put_later :
    (w : TlvWriter) (f : LeaseFacts) (q : Option Policy) (bytes : List ℕ)
    → Carries f.server_policy bytes q
    → (put_policy w f.server_policy >>= λ w'. put_attested w' f.attested)
      ≡ put_all w (policy_entry f.server_policy bytes ++ attested_entry f.attested)
put_later w f q bytes k =
    let entry = policy_entry f.server_policy bytes in
    rw (put_policy_lem w f.server_policy q bytes k) (
      >>=-cong (put_all w entry) _ _ (λ w'. put_attested_lem w' f.attested)
      ∙ sym (put_all-append w entry (attested_entry f.attested)))

put_optional_lem :
    (w : TlvWriter) (f : LeaseFacts) (q : Option Policy) (bytes : List ℕ)
    → Carries f.server_policy bytes q
    → put_optional w f ≡ put_all w (optional_entries f bytes)
unfolding put_optional
put_optional_lem w f q bytes k =
    let entry = clock_entry f.tpm_clock in
    rw (put_clock_lem w f.tpm_clock) (
      >>=-cong (put_all w entry) _ _ (λ w'. put_later w' f q bytes k)
      ∙ sym (put_all-append w entry _))

encode_puts :
    (l : Lease) (q : Option Policy) (bytes : List ℕ)
    → Carries l.facts.server_policy bytes q
    → encode l ≡ (put_all new_writer (entries l bytes) >>= λ w. ok w.buf)
unfolding encode
encode_puts l q bytes k =
    rw
      (
        put_required_lem l,
        put_all-append new_writer (required_entries l) (optional_entries l.facts bytes),
      )
      (elim (Result-cases (put_all new_writer (required_entries l))) [
        | inl (w, e) ↦ rw (e, put_optional_lem w l.facts q bytes k) refl
        | inr (x, e) ↦ rw e refl
      ])

pub encode_entries :
    (l : Lease) (q : Option Policy) (bytes : List ℕ)
    → IsLease l
    → Carries l.facts.server_policy bytes q
    → encode l ≡ ok (encode_fields (entries l bytes))
encode_entries l q bytes h k =
    let (w, written, same) =
      put_all_lem (entries l bytes) (entries-IsOrdered l q bytes h k)
        (length-entries l q bytes h k) in
    encode_puts l q bytes k ∙ rw (written, same) refl
