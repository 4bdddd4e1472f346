-- ===== src/Protocol.antt =====
-- crates/oc-protocol: the documents that an author, a server and a door exchange. The check of an Ed25519 signature is
-- third-party code: a parameter, a function of the key, the transcript and the signature.
pub mod Actions
pub mod Agents
pub mod Documents
pub mod Leases
pub mod Revocations
pub mod Signatures
use open_crate.Base.{
  ℕ, zero, suc, [], ◌∷◌, Bool, List, ok, err, ok_or, ◌>>=◌, leb, if◌then◌else◌, length, take, drop,
  fail_if, ◌>>◌, not, Option, none, some, ltb,
}
use open_crate.Format.{Parsed, unknown_critical_field, bad_header_signature}
use open_crate.Format.Tlv.{unknown_tag_action, refuse, ignore}

abbrev pub Verifier : Type 0
Verifier = List ℕ → List ℕ → List ℕ → Bool

-- `refuse_if_critical` of src/unknown.rs
unfoldable pub refuse_if_critical : ℕ → Parsed (Unit {0})
refuse_if_critical tag = elim (unknown_tag_action tag) as (λ _. Parsed (Unit {0})) [
  | refuse ↦ err (unknown_critical_field tag)
  | ignore ↦ ok tt
]

abbrev pub signature_len : ℕ
signature_len = 64

-- `split_signature` of src/agent.rs and of src/action.rs
unfoldable pub split_signature : List ℕ → Parsed (List ℕ × List ℕ)
split_signature bytes = do
  fail_if (ltb (length bytes) signature_len) bad_header_signature
  ok (take signature_len bytes, drop signature_len bytes)

-- `[0; SIGNATURE_LEN]`, until the signature is put in.
abbrev pub zero_bytes : ℕ → List ℕ
zero_bytes zero = []
zero_bytes (suc n) = 0 ∷ zero_bytes n

unfoldable pub no_signature : List ℕ
no_signature = zero_bytes signature_len
