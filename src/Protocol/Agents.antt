-- ===== src/Protocol/Agents.antt =====
-- crates/oc-protocol/src/agent.rs: grants to an agent's door, and delegations of them.
pub mod Decode
pub mod Chain
pub mod Narrowed
pub mod Links
pub mod Shapes
pub mod Safety
pub mod Allowed
use open_crate.Base.{
  ℕ, Bool, true, false, not, ◌&&◌, ◌||◌, Option, none, some, List, [], ◌∷◌, ltb, leb, ◌==◌,
  if◌then◌else◌, length, ok, err, ◌>>=◌, ◌>>◌, fail_if, ok_or, ◌+◌,
}
use open_crate.Base.Int.{ℤ, ltb_ℤ}
use open_crate.Base.Bytes.{bytes_eq}
use open_crate.Crypto.Labels.{agent_grant_label, delegation_label}
use open_crate.Crypto.Transcript.{Transcript, new_transcript, put_field}
use open_crate.Format.{Parsed, bad_field_length, fields_out_of_order}
use open_crate.Policy.{Policy}
use open_crate.Protocol.Actions.{ActionRule}
use open_crate.Protocol.Actions.Grant.{check_rules}
use open_crate.Protocol.Actions.Decode.{max_action_rules}

abbrev pub max_grant_files : ℕ
max_grant_files = 256

abbrev pub max_grant_depth : ℕ
max_grant_depth = 4

abbrev door_kem_x25519 : ℕ
door_kem_x25519 = 1

-- `Blob` of src/access.rs
pub record Blob : Type 0 where
  pub enc : List ℕ
  pub nonce : List ℕ
  pub ct : List ℕ

pub record Entry : Type 0 where
  pub file_id : List ℕ
  pub share_b : Blob

pub record AgentGrant : Type 0 where
  pub grant_id : List ℕ
  pub door_fpr : List ℕ
  pub door_kem : ℕ
  pub door_public : List ℕ
  pub door_verify : List ℕ
  pub entries : List Entry
  pub issued_at : ℤ
  pub expires_at : ℤ
  pub tightening : Option Policy
  pub max_depth : ℕ
  pub author_key : List ℕ
  pub signature : List ℕ

pub record Delegation : Type 0 where
  pub grant_id : List ℕ
  pub parent_fpr : List ℕ
  pub child_fpr : List ℕ
  pub child_kem : ℕ
  pub child_public : List ℕ
  pub child_verify : List ℕ
  pub entries : List Entry
  pub expires_at : ℤ
  pub tightening : Option Policy
  pub depth : ℕ
  pub actions : List ActionRule
  pub signature : List ℕ

unfoldable pub grant_transcript : List ℕ → Transcript
grant_transcript body = put_field (new_transcript agent_grant_label) body

unfoldable pub delegation_transcript : List ℕ → Transcript
delegation_transcript body = put_field (new_transcript delegation_label) body

-- `check_holder_name`. The fingerprint of an X25519 key is the key (`device_fpr` of crates/oc-crypto/src/kdf.rs),
-- and no other mechanism comes so far.
unfoldable pub check_holder_name : List ℕ → ℕ → List ℕ → ℕ → ℕ → Parsed (Unit {0})
check_holder_name fpr kem public kem_tag fpr_tag =
    fail_if (not (kem == door_kem_x25519)) (bad_field_length kem_tag 1)
    >> fail_if (not (length public == 32)) (bad_field_length fpr_tag (length public))
    >> fail_if (not (bytes_eq fpr public)) (bad_field_length fpr_tag 32)

-- `a >= b` on arrays of the same length.
unfoldable pub bytes_ge : List ℕ → List ℕ → Bool
bytes_ge a [] = true
bytes_ge [] (y ∷ b) = false
bytes_ge (x ∷ a) (y ∷ b) = if x == y then bytes_ge a b else ltb y x

-- The loop of `check_entries` over pairs, from an index on.
unfoldable pub check_increasing : ℕ → List Entry → Parsed (Unit {0})
check_increasing index [] = ok tt
check_increasing index (a ∷ []) = ok tt
check_increasing index (a ∷ b ∷ rest) =
    fail_if (bytes_ge a.file_id b.file_id) (fields_out_of_order index (index + 1))
    >> check_increasing (index + 1) (b ∷ rest)

unfoldable pub check_entries : List Entry → ℕ → Parsed (Unit {0})
check_entries entries list_tag =
    fail_if (ltb max_grant_files (length entries)) (bad_field_length list_tag (length entries))
    >> check_increasing 0 entries

-- The tags `tag` and `link_tag` that the checks of shape name.
unfoldable pub check_grant_shape : AgentGrant → Parsed (Unit {0})
check_grant_shape grant =
    check_holder_name grant.door_fpr grant.door_kem grant.door_public 3 2
    >> check_entries grant.entries 6
    >> fail_if (ltb max_grant_depth grant.max_depth) (bad_field_length 10 grant.max_depth)
    >> fail_if (ltb_ℤ grant.expires_at grant.issued_at) (bad_field_length 8 8)

abbrev pub actions_tag : ℕ
actions_tag = 0x8001

unfoldable pub check_delegation_shape : Delegation → Parsed (Unit {0})
check_delegation_shape link =
    check_holder_name link.child_fpr link.child_kem link.child_public 4 3
    >> check_entries link.entries 7
    >> fail_if (ltb max_grant_depth link.depth) (bad_field_length 10 link.depth)
    >> fail_if (ltb max_action_rules (length link.actions))
        (bad_field_length actions_tag (length link.actions))
    >> check_rules link.actions
