-- ===== src/Protocol/Agents/Decode.antt =====
-- Parsing of grants and delegations in crates/oc-protocol/src/agent.rs.
use open_crate.Base.{
  ℕ, not, Option, none, some, List, [], ◌∷◌, ◌++◌, leb, ◌==◌, if◌then◌else◌, length, ok, ◌>>=◌,
  ◌>>◌, fail_if, ok_or,
}
use open_crate.Base.Int.{ℤ}
use open_crate.Base.Bytes.{bytes_eq}
use open_crate.Format.{Parsed, bad_field_length, missing_field, bad_header_signature}
use open_crate.Format.Tlv.{Field, field_array, field_u8, read_fields}
use open_crate.Format.PolicyCodec.Decode as PolicyDecode
use open_crate.Policy.{Policy}
use open_crate.Protocol.{refuse_if_critical, Verifier, no_signature, split_signature}
use open_crate.Protocol.Actions.{ActionRule}
use open_crate.Protocol.Actions.Decode.{decode_rules}
use open_crate.Protocol.Actions.Grant.{field_i64}
use open_crate.Protocol.Agents.{
  Entry, AgentGrant, Delegation, max_grant_files, check_entries, check_grant_shape,
  check_delegation_shape, grant_transcript, delegation_transcript, actions_tag,
}

-- `SUPPORTED_READER_VERSION` of crates/oc-format/src/header.rs
abbrev pub supported_reader_version : ℕ
supported_reader_version = 5

unfoldable pub decode_tightening : List ℕ → Parsed Policy
decode_tightening bytes = PolicyDecode.decode supported_reader_version bytes

-- The variables of the loop of `decode_entry`, with the tags `entry_tag` 1 to 4.
pub record EntryFields : Type 0 where
  pub file_id : Option (List ℕ)
  pub enc : Option (List ℕ)
  pub nonce : Option (List ℕ)
  pub ct : Option (List ℕ)

unfoldable pub no_entry_fields : EntryFields
no_entry_fields = record { file_id = none; enc = none; nonce = none; ct = none }

unfoldable pub entry_field : EntryFields → Field → Parsed EntryFields
entry_field st f =
    if f.tag == 1
    then (do id ← field_array 16 f; ok (record st { file_id = some id }))
    else if f.tag == 2
    then ok (record st { enc = some f.value })
    else if f.tag == 3
    then (do nonce ← field_array 24 f; ok (record st { nonce = some nonce }))
    else if f.tag == 4
    then ok (record st { ct = some f.value })
    else (do refuse_if_critical f.tag; ok st)

unfoldable pub decode_entry : List ℕ → Parsed Entry
decode_entry bytes = do
  st ← read_fields entry_field bytes no_entry_fields
  file_id ← ok_or st.file_id (missing_field 1)
  enc ← ok_or st.enc (missing_field 2)
  nonce ← ok_or st.nonce (missing_field 3)
  ct ← ok_or st.ct (missing_field 4)
  ok (record { file_id = file_id; share_b = record { enc = enc; nonce = nonce; ct = ct } })

unfoldable pub push_entry : ℕ → List Entry → Field → Parsed (List Entry)
push_entry list_tag out f = do
  fail_if (leb max_grant_files (length out)) (bad_field_length list_tag (length out))
  entry ← decode_entry f.value
  ok (out ++ (entry ∷ []))

unfoldable pub decode_entries : List ℕ → ℕ → Parsed (List Entry)
decode_entries bytes list_tag = do
  out ← read_fields (push_entry list_tag) bytes []
  check_entries out list_tag
  ok out

-- The variables of the loop of `decode_grant_body`, with the tags `tag` 1 to 11.
pub record GrantFields : Type 0 where
  pub grant_id : Option (List ℕ)
  pub door_fpr : Option (List ℕ)
  pub door_kem : Option ℕ
  pub door_public : Option (List ℕ)
  pub door_verify : Option (List ℕ)
  pub entries : Option (List Entry)
  pub issued_at : Option ℤ
  pub expires_at : Option ℤ
  pub tightening : Option Policy
  pub max_depth : Option ℕ
  pub author_key : Option (List ℕ)

unfoldable pub no_grant_fields : GrantFields
no_grant_fields = record {
  grant_id = none;
  door_fpr = none;
  door_kem = none;
  door_public = none;
  door_verify = none;
  entries = none;
  issued_at = none;
  expires_at = none;
  tightening = none;
  max_depth = none;
  author_key = none;
}

unfoldable pub grant_field : GrantFields → Field → Parsed GrantFields
grant_field st f =
    if f.tag == 1
    then (do v ← field_array 16 f; ok (record st { grant_id = some v }))
    else if f.tag == 2
    then (do v ← field_array 32 f; ok (record st { door_fpr = some v }))
    else if f.tag == 3
    then (do v ← field_u8 f; ok (record st { door_kem = some v }))
    else if f.tag == 4
    then ok (record st { door_public = some f.value })
    else if f.tag == 5
    then (do v ← field_array 32 f; ok (record st { door_verify = some v }))
    else if f.tag == 6
    then (do v ← decode_entries f.value 6; ok (record st { entries = some v }))
    else if f.tag == 7
    then (do v ← field_i64 f; ok (record st { issued_at = some v }))
    else if f.tag == 8
    then (do v ← field_i64 f; ok (record st { expires_at = some v }))
    else if f.tag == 9
    then (do v ← decode_tightening f.value; ok (record st { tightening = some v }))
    else if f.tag == 10
    then (do v ← field_u8 f; ok (record st { max_depth = some v }))
    else if f.tag == 11
    then (do v ← field_array 32 f; ok (record st { author_key = some v }))
    else (do refuse_if_critical f.tag; ok st)

-- The grant that the fields make up.
unfoldable pub grant_of : GrantFields → Parsed AgentGrant
grant_of st = do
  grant_id ← ok_or st.grant_id (missing_field 1)
  door_fpr ← ok_or st.door_fpr (missing_field 2)
  door_kem ← ok_or st.door_kem (missing_field 3)
  door_public ← ok_or st.door_public (missing_field 4)
  door_verify ← ok_or st.door_verify (missing_field 5)
  entries ← ok_or st.entries (missing_field 6)
  issued_at ← ok_or st.issued_at (missing_field 7)
  expires_at ← ok_or st.expires_at (missing_field 8)
  max_depth ← ok_or st.max_depth (missing_field 10)
  author_key ← ok_or st.author_key (missing_field 11)
  ok (record {
    grant_id = grant_id;
    door_fpr = door_fpr;
    door_kem = door_kem;
    door_public = door_public;
    door_verify = door_verify;
    entries = entries;
    issued_at = issued_at;
    expires_at = expires_at;
    tightening = st.tightening;
    max_depth = max_depth;
    author_key = author_key;
    signature = no_signature;
  })

unfoldable pub decode_grant_body : List ℕ → Parsed AgentGrant
decode_grant_body body = do
  st ← read_fields grant_field body no_grant_fields
  grant ← grant_of st
  check_grant_shape grant
  ok grant

-- The variables of the loop of `decode_delegation_body`, with the tags `link_tag`.
pub record LinkFields : Type 0 where
  pub grant_id : Option (List ℕ)
  pub parent_fpr : Option (List ℕ)
  pub child_fpr : Option (List ℕ)
  pub child_kem : Option ℕ
  pub child_public : Option (List ℕ)
  pub child_verify : Option (List ℕ)
  pub entries : Option (List Entry)
  pub expires_at : Option ℤ
  pub tightening : Option Policy
  pub depth : Option ℕ
  pub actions : List ActionRule

unfoldable pub no_link_fields : LinkFields
no_link_fields = record {
  grant_id = none;
  parent_fpr = none;
  child_fpr = none;
  child_kem = none;
  child_public = none;
  child_verify = none;
  entries = none;
  expires_at = none;
  tightening = none;
  depth = none;
  actions = [];
}

unfoldable pub link_field : LinkFields → Field → Parsed LinkFields
link_field st f =
    if f.tag == 1
    then (do v ← field_array 16 f; ok (record st { grant_id = some v }))
    else if f.tag == 2
    then (do v ← field_array 32 f; ok (record st { parent_fpr = some v }))
    else if f.tag == 3
    then (do v ← field_array 32 f; ok (record st { child_fpr = some v }))
    else if f.tag == 4
    then (do v ← field_u8 f; ok (record st { child_kem = some v }))
    else if f.tag == 5
    then ok (record st { child_public = some f.value })
    else if f.tag == 6
    then (do v ← field_array 32 f; ok (record st { child_verify = some v }))
    else if f.tag == 7
    then (do v ← decode_entries f.value 7; ok (record st { entries = some v }))
    else if f.tag == 8
    then (do v ← field_i64 f; ok (record st { expires_at = some v }))
    else if f.tag == 9
    then (do v ← decode_tightening f.value; ok (record st { tightening = some v }))
    else if f.tag == 10
    then (do v ← field_u8 f; ok (record st { depth = some v }))
    else if f.tag == actions_tag
    then (do v ← decode_rules f.value; ok (record st { actions = v }))
    else (do refuse_if_critical f.tag; ok st)

unfoldable pub link_of : LinkFields → Parsed Delegation
link_of st = do
  grant_id ← ok_or st.grant_id (missing_field 1)
  parent_fpr ← ok_or st.parent_fpr (missing_field 2)
  child_fpr ← ok_or st.child_fpr (missing_field 3)
  child_kem ← ok_or st.child_kem (missing_field 4)
  child_public ← ok_or st.child_public (missing_field 5)
  child_verify ← ok_or st.child_verify (missing_field 6)
  entries ← ok_or st.entries (missing_field 7)
  expires_at ← ok_or st.expires_at (missing_field 8)
  depth ← ok_or st.depth (missing_field 10)
  ok (record {
    grant_id = grant_id;
    parent_fpr = parent_fpr;
    child_fpr = child_fpr;
    child_kem = child_kem;
    child_public = child_public;
    child_verify = child_verify;
    entries = entries;
    expires_at = expires_at;
    tightening = st.tightening;
    depth = depth;
    actions = st.actions;
    signature = no_signature;
  })

unfoldable pub decode_delegation_body : List ℕ → Parsed Delegation
decode_delegation_body body = do
  st ← read_fields link_field body no_link_fields
  link ← link_of st
  check_delegation_shape link
  ok link

-- `peek_grant` and `peek_delegation`: no signature is checked.
unfoldable pub peek_grant : List ℕ → Parsed AgentGrant
peek_grant bytes = do
  (signature, body) ← split_signature bytes
  grant ← decode_grant_body body
  ok (record grant { signature = signature })

unfoldable peek_delegation : List ℕ → Parsed Delegation
peek_delegation bytes = do
  (signature, body) ← split_signature bytes
  link ← decode_delegation_body body
  ok (record link { signature = signature })

module _ (verify : Verifier) where
  unfoldable pub decode_grant : List ℕ → List ℕ → Parsed AgentGrant
  decode_grant bytes author_key = do
    (signature, body) ← split_signature bytes
    fail_if (not (verify author_key (grant_transcript body) signature)) bad_header_signature
    grant ← decode_grant_body body
    fail_if (not (bytes_eq grant.author_key author_key)) (bad_field_length 11 32)
    ok (record grant { signature = signature })

  unfoldable pub decode_delegation : List ℕ → List ℕ → Parsed Delegation
  decode_delegation bytes parent_verify = do
    (signature, body) ← split_signature bytes
    fail_if (not (verify parent_verify (delegation_transcript body) signature)) bad_header_signature
    link ← decode_delegation_body body
    ok (record link { signature = signature })
