-- ===== src/Protocol/Actions/Grant.antt =====
-- Action grants of crates/oc-protocol/src/action.rs: the signature is checked on the raw body before it is parsed.
use open_crate.Base.{
  ℕ, not, Option, none, some, List, [], ◌∷◌, ltb, ◌==◌, if◌then◌else◌, length, ok, ◌>>=◌, ◌>>◌,
  fail_if, ok_or,
}
use open_crate.Base.Int.{ℤ, ltb_ℤ}
use open_crate.Base.Bytes.{bytes_eq}
use open_crate.Crypto.Labels.{action_grant_label}
use open_crate.Crypto.Transcript.{Transcript, new_transcript, put_field}
use open_crate.Format.{Parsed, bad_field_length, missing_field, bad_header_signature}
use open_crate.Format.Tlv.{Field, field_array, read_fields}
use open_crate.Format.PolicyCodec.Values.{i64_from_le}
use open_crate.Protocol.{refuse_if_critical, Verifier, no_signature, split_signature}
use open_crate.Protocol.Actions.{ActionRule}
use open_crate.Protocol.Actions.Text.{check_rule_shape}
use open_crate.Protocol.Actions.Decode.{decode_rules, max_action_rules}

pub record ActionGrant : Type 0 where
  pub grant_id : List ℕ
  pub rules : List ActionRule
  pub issued_at : ℤ
  pub expires_at : ℤ
  pub author_key : List ℕ
  pub signature : List ℕ

-- The tags `grant_tag`.
abbrev grant_id_tag : ℕ
grant_id_tag = 1

abbrev rules_tag : ℕ
rules_tag = 2

abbrev issued_at_tag : ℕ
issued_at_tag = 3

abbrev expires_at_tag : ℕ
expires_at_tag = 4

abbrev pub author_key_tag : ℕ
author_key_tag = 5

unfoldable pub grant_transcript : List ℕ → Transcript
grant_transcript body = put_field (new_transcript action_grant_label) body

-- The loop of `check_grant_shape` over the rules.
unfoldable pub check_rules : List ActionRule → Parsed (Unit {0})
check_rules [] = ok tt
check_rules (rule ∷ rules) = check_rule_shape rule >> check_rules rules

unfoldable pub check_grant_shape : ActionGrant → Parsed (Unit {0})
check_grant_shape grant =
    fail_if (ltb max_action_rules (length grant.rules))
      (bad_field_length rules_tag (length grant.rules))
    >> check_rules grant.rules
    >> fail_if (ltb_ℤ grant.expires_at grant.issued_at) (bad_field_length expires_at_tag 8)

-- The variables of the loop of `decode_grant_body`.
pub record GrantFields : Type 0 where
  pub grant_id : Option (List ℕ)
  pub rules : Option (List ActionRule)
  pub issued_at : Option ℤ
  pub expires_at : Option ℤ
  pub author_key : Option (List ℕ)

unfoldable pub no_grant_fields : GrantFields
no_grant_fields = record {
  grant_id = none;
  rules = none;
  issued_at = none;
  expires_at = none;
  author_key = none;
}

unfoldable pub field_i64 : Field → Parsed ℤ
field_i64 f = do word ← field_array 8 f; ok (i64_from_le word)

unfoldable pub grant_field : GrantFields → Field → Parsed GrantFields
grant_field st f =
    if f.tag == grant_id_tag
    then (do id ← field_array 16 f; ok (record st { grant_id = some id }))
    else if f.tag == rules_tag
    then (do rules ← decode_rules f.value; ok (record st { rules = some rules }))
    else if f.tag == issued_at_tag
    then (do at ← field_i64 f; ok (record st { issued_at = some at }))
    else if f.tag == expires_at_tag
    then (do at ← field_i64 f; ok (record st { expires_at = some at }))
    else if f.tag == author_key_tag
    then (do key ← field_array 32 f; ok (record st { author_key = some key }))
    else (do refuse_if_critical f.tag; ok st)

unfoldable pub grant_of : GrantFields → Parsed ActionGrant
grant_of st = do
  grant_id ← ok_or st.grant_id (missing_field grant_id_tag)
  rules ← ok_or st.rules (missing_field rules_tag)
  issued_at ← ok_or st.issued_at (missing_field issued_at_tag)
  expires_at ← ok_or st.expires_at (missing_field expires_at_tag)
  author_key ← ok_or st.author_key (missing_field author_key_tag)
  ok (record {
    grant_id = grant_id;
    rules = rules;
    issued_at = issued_at;
    expires_at = expires_at;
    author_key = author_key;
    signature = no_signature;
  })

unfoldable pub decode_grant_body : List ℕ → Parsed ActionGrant
decode_grant_body body = do
  st ← read_fields grant_field body no_grant_fields
  grant ← grant_of st
  check_grant_shape grant
  ok grant

-- `peek_grant`: no signature is checked.
unfoldable pub peek_grant : List ℕ → Parsed ActionGrant
peek_grant bytes = do
  (signature, body) ← split_signature bytes
  grant ← decode_grant_body body
  ok (record grant { signature = signature })

module _ (verify : Verifier) where
  unfoldable pub decode_grant : List ℕ → List ℕ → Parsed ActionGrant
  decode_grant bytes author_key = do
    (signature, body) ← split_signature bytes
    fail_if (not (verify author_key (grant_transcript body) signature)) bad_header_signature
    grant ← decode_grant_body body
    fail_if (not (bytes_eq grant.author_key author_key)) (bad_field_length author_key_tag 32)
    ok (record grant { signature = signature })
