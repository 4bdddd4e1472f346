-- ===== src/Protocol/Leases/Decided.antt =====
-- A lease of crates/oc-protocol/src/lease.rs on its way from the server to `evaluate` of crates/oc-policy/src/lib.rs.
use mathlib.Core.Path.{subst}
use open_crate.Base.{
  ℕ, ◌∙◌, ◌≡◌, refl, true, Option, none, some, List, ◌++◌, length, ok, err, if◌then◌else◌,
}
use open_crate.Format.{bad_header_signature}
use open_crate.Policy.{Policy, Action, LeaseFacts, Context}
use open_crate.Policy.Evaluate.{evaluate}
use open_crate.Policy.Evaluate.Same.{under, evaluate_same}
use open_crate.Protocol.{Verifier}
use open_crate.Protocol.Leases.{Lease, encode, signing_transcript}
use open_crate.Protocol.Leases.Decode.{verify_signed}
use open_crate.Protocol.Leases.Entries.{IsLease, with_policy}
use open_crate.Protocol.Leases.Signed.{PolicyFits, SameIfAny, lease_round_trip}

same_verdict :
    (author : Policy) (l : LeaseFacts) (q p : Option Policy) (a : Action) (ctx : Context)
    → SameIfAny q p
    → evaluate author (some (under l q)) a ctx ≡ evaluate author (some (under l p)) a ctx
same_verdict author l none none a ctx h = refl
same_verdict author l (some q) (some p) a ctx h = evaluate_same author q p l a ctx h
same_verdict author l none (some p) a ctx h = absurd h
same_verdict author l (some q) none a ctx h = absurd h

-- A lease whose identifiers have their lengths, whose numbers are in range and whose policy can be encoded in a field
-- is sent as a signature of 64 bytes that is right for its encoding, and that encoding. `verify_signed` gives a lease for
-- the same file, on which `evaluate` decides each action in each context as on the lease that was encoded.
pub lease_decided_same :
    (verify : Verifier) (key signature body : List ℕ) (l : Lease) (author : Policy) (a : Action)
    (ctx : Context)
    → IsLease l
    → PolicyFits l.facts.server_policy
    → length signature ≡ 64
    → encode l ≡ ok body
    → verify key (signing_transcript body) signature ≡ true
    → (received : Lease) × (verify_signed verify (signature ++ body) key ≡ ok received)
      × (received.file_id ≡ l.file_id)
      × (evaluate author (some received.facts) a ctx ≡ evaluate author (some l.facts) a ctx)
lease_decided_same verify key signature body l author a ctx h fits long sent right =
    let (bytes, q, written, read_back, same, v) =
      lease_round_trip verify key signature l h fits long in
    let arrived : bytes ≡ body = cc (written, sent) in
    let w : verify_signed verify (signature ++ body) key ≡ (
        if verify key (signing_transcript body) signature
        then ok (with_policy l q)
        else err bad_header_signature) =
      subst
        (λ (b : List ℕ). verify_signed verify (signature ++ b) key ≡ (
          if verify key (signing_transcript b) signature
          then ok (with_policy l q)
          else err bad_header_signature))
        arrived v in
    (
      with_policy l q,
      w ∙ rw right refl,
      refl,
      same_verdict author l.facts q l.facts.server_policy a ctx same,
    )
