-- ===== src/Protocol/Signatures.antt =====
-- What the readers of the signed documents of crates/oc-protocol/src/agent.rs, action.rs, revocation.rs and lease.rs
-- take for a signature.
use open_crate.Base.{
  ℕ, ◌<◌, ◌≡◌, refl, ap, sym, ◌∙◌, Bool, true, false, ◌||◌, ◌⊎◌, inl, inr, Bool-cases, List, [],
  ◌∷◌, ◌++◌, map, length, take, drop, drop-append, err, arith,
}
use open_crate.Base.Bytes.{to_le, length-to_le, bytes_eq, bytes_eq_iff}
use open_crate.Crypto.Labels.{
  Label, all_labels, agent_grant_label, delegation_label, action_grant_label, revocation_label,
  lease_label,
}
use open_crate.Crypto.Transcript.{
  Transcript, new_transcript, put_fixed, put_field, u32_or_max, new_transcript-Unambiguous,
}
use open_crate.Format.{Parsed, bad_header_signature}
use open_crate.Protocol.{Verifier, signature_len}
use open_crate.Protocol.Actions.Grant as ActionGrants
use open_crate.Protocol.Actions.Grant.{ActionGrant}
use open_crate.Protocol.Agents as Agents
use open_crate.Protocol.Agents.{AgentGrant, Delegation}
use open_crate.Protocol.Agents.Decode as AgentDecode
use open_crate.Protocol.Revocations as Revocations
use open_crate.Protocol.Revocations.{Revocation}
use open_crate.Protocol.Leases as Leases
use open_crate.Protocol.Leases.{Lease}
use open_crate.Protocol.Leases.Decode as LeaseDecode
use open_crate.Protocol.Documents.{unsigned_refused}
use mathlib.Core.List.{Memᴰ, append_assoc}
use mathlib.Core.List.Memᴰ

-- The kinds of signed documents, what their readers give, and the readers.
pub data SignedDocument : Type 0 where
  grant_document delegation_document action_grant_document revocation_document lease_document :
      SignedDocument

abbrev Contents : SignedDocument → Type 0
Contents grant_document = AgentGrant
Contents delegation_document = Delegation
Contents action_grant_document = ActionGrant
Contents revocation_document = Revocation
Contents lease_document = Lease

abbrev read_document : (d : SignedDocument) → Verifier → List ℕ → List ℕ → Parsed (Contents d)
read_document grant_document verify bytes key = AgentDecode.decode_grant verify bytes key
read_document delegation_document verify bytes key = AgentDecode.decode_delegation verify bytes key
read_document action_grant_document verify bytes key = ActionGrants.decode_grant verify bytes key
read_document revocation_document verify bytes key = Revocations.verify_signed verify bytes key
read_document lease_document verify bytes key = LeaseDecode.verify_signed verify bytes key

-- The label of a kind, and the message that is signed for a body under a label: the label, a zero, the length of the
-- body in four bytes, and the body.
abbrev label_of : SignedDocument → Label
label_of grant_document = agent_grant_label
label_of delegation_document = delegation_label
label_of action_grant_document = action_grant_label
label_of revocation_document = revocation_label
label_of lease_document = lease_label

unfoldable pub document_message : Label → List ℕ → Transcript
document_message label body = label ++ (0 ∷ (to_le 4 (u32_or_max (length body)) ++ body))

-- The messages that the holder of a key signed, from labels and bodies.
pub messages : List (Label × List ℕ) → List Transcript
messages signed = map (λ (entry : Label × List ℕ). document_message entry.0 entry.1) signed

put_field-document_message :
    (label : Label) (body : List ℕ)
    → put_field (new_transcript label) body ≡ document_message label body
unfolding put_field new_transcript document_message
put_field-document_message label body =
    append_assoc (label ++ (0 ∷ [])) (to_le 4 (u32_or_max (length body))) body
    ∙ append_assoc label (0 ∷ []) (to_le 4 (u32_or_max (length body)) ++ body)

body_of : (n : ℕ) (body : List ℕ) → drop 4 (to_le 4 n ++ body) ≡ body
body_of n body =
    ap (λ (k : ℕ). drop k (to_le 4 n ++ body)) (sym (length-to_le 4 n))
    ∙ drop-append (to_le 4 n) body

document_message-Unambiguous :
    (a b : Label) (x y : List ℕ)
    → Memᴰ a all_labels
    → Memᴰ b all_labels
    → document_message a x ≡ document_message b y
    → (a ≡ b) × (x ≡ y)
unfolding document_message new_transcript put_fixed
document_message-Unambiguous a b x y m n e =
    let head = to_le 4 (u32_or_max (length x)) in
    let other = to_le 4 (u32_or_max (length y)) in
    let (label, rest) =
      new_transcript-Unambiguous a b (head ++ x) (other ++ y) m n
        (append_assoc a (0 ∷ []) (head ++ x) ∙ e ∙ sym (append_assoc b (0 ∷ []) (other ++ y))) in
    (
      label,
      sym (body_of (u32_or_max (length x)) x)
          ∙ ap (λ (l : List ℕ). drop 4 l) rest
          ∙ body_of (u32_or_max (length y)) y,
    )

is_listed : Label → List Label → Bool
is_listed label [] = false
is_listed label (other ∷ labels) = bytes_eq label other || is_listed label labels

is_listed-Memᴰ :
    (label : Label) (labels : List Label) → is_listed label labels ≡ true → Memᴰ label labels
unfolding is_listed
is_listed-Memᴰ label [] h = cc
is_listed-Memᴰ label (other ∷ labels) h = elim (Bool-cases (bytes_eq label other)) [
  | inl same ↦ Memᴰ.head ((bytes_eq_iff label other).0 same)
  | inr apart ↦ Memᴰ.tail (is_listed-Memᴰ label labels (ground (arith, h, apart)))
]

label_of-is_listed : (d : SignedDocument) → is_listed (label_of d) all_labels ≡ true
unfolding is_listed all_labels bytes_eq
label_of-is_listed grant_document = refl
label_of-is_listed delegation_document = refl
label_of-is_listed action_grant_document = refl
label_of-is_listed revocation_document = refl
label_of-is_listed lease_document = refl

-- No signature: too few bytes, or 64 bytes that do not verify for the message of the rest of them.
IsUnsigned : Verifier → List ℕ → List ℕ → (List ℕ → Transcript) → Type 0
IsUnsigned verify key bytes message =
    (length bytes < signature_len)
    ⊎ (verify key (message (drop signature_len bytes)) (take signature_len bytes) ≡ false)

IsUnsigned-put_field :
    (verify : Verifier) (key bytes : List ℕ) (label : Label)
    → IsUnsigned verify key bytes (document_message label)
    → IsUnsigned verify key bytes (λ body. put_field (new_transcript label) body)
unfolding IsUnsigned
IsUnsigned-put_field verify key bytes label (inl short) = inl short
IsUnsigned-put_field verify key bytes label (inr wrong) =
    inr (rw (put_field-document_message label (drop signature_len bytes)) wrong)

read_document-refused :
    (d : SignedDocument) (verify : Verifier) (key bytes : List ℕ)
    → IsUnsigned verify key bytes (document_message (label_of d))
    → read_document d verify bytes key ≡ err bad_header_signature
unfolding IsUnsigned AgentDecode.decode_grant AgentDecode.decode_delegation
    ActionGrants.decode_grant Revocations.verify_signed LeaseDecode.verify_signed
    Agents.grant_transcript Agents.delegation_transcript ActionGrants.grant_transcript
    Revocations.signing_transcript Leases.signing_transcript
read_document-refused grant_document verify key bytes wrong =
    unsigned_refused verify key bytes _ _
      (IsUnsigned-put_field verify key bytes agent_grant_label wrong)
read_document-refused delegation_document verify key bytes wrong =
    unsigned_refused verify key bytes _ _
      (IsUnsigned-put_field verify key bytes delegation_label wrong)
read_document-refused action_grant_document verify key bytes wrong =
    unsigned_refused verify key bytes _ _
      (IsUnsigned-put_field verify key bytes action_grant_label wrong)
read_document-refused revocation_document verify key bytes wrong =
    unsigned_refused verify key bytes _ _
      (IsUnsigned-put_field verify key bytes revocation_label wrong)
read_document-refused lease_document verify key bytes wrong =
    unsigned_refused verify key bytes _ _ (IsUnsigned-put_field verify key bytes lease_label wrong)

-- Let the holder of a key have signed some bodies, each under a label of the registry, and let the first 64 bytes of a
-- buffer verify under that key for the message of this kind of document and of the rest of the buffer only if it is one
-- of the signed messages. When there are fewer than 64 bytes, or the holder has not signed just this rest under just
-- the label of this kind, the reader of the kind refuses the buffer with the error of the signature, whatever else was
-- signed and whatever the rest is.
pub unsigned-bad_header_signature :
    (d : SignedDocument) (verify : Verifier) (key bytes : List ℕ) (signed : List (Label × List ℕ))
    → ((entry : Label × List ℕ) → Memᴰ entry signed → Memᴰ entry.0 all_labels)
    → (verify key
            (document_message (label_of d) (drop signature_len bytes))
            (take signature_len bytes)
          ≡ true
        → Memᴰ (document_message (label_of d) (drop signature_len bytes)) (messages signed))
    → (length bytes < signature_len) ⊎ ¬ Memᴰ (label_of d, drop signature_len bytes) signed
    → read_document d verify bytes key ≡ err bad_header_signature
unfolding messages IsUnsigned
unsigned-bad_header_signature d verify key bytes signed registered unforged (inl short) =
    read_document-refused d verify key bytes (inl short)
unsigned-bad_header_signature d verify key bytes signed registered unforged (inr other) =
    let body = drop signature_len bytes in
    let message = document_message (label_of d) body in
    elim (Bool-cases (verify key message (take signature_len bytes))) [
      | inr wrong ↦ read_document-refused d verify key bytes (inr wrong)
      | inl right ↦
          let (entry, m, same) = Memᴰ.of_map _ signed (unforged right) in
          let listed = is_listed-Memᴰ (label_of d) all_labels (label_of-is_listed d) in
          let (label, rest) =
            document_message-Unambiguous entry.0 (label_of d) entry.1 body (registered entry m)
              listed same in
          absurd (other (Memᴰ.cast (cc (sym label, sym rest)) m))
    ]
