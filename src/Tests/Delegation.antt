-- ===== src/Tests/Delegation.antt =====
-- A chain of crates/oc-protocol/src/agent.rs with one link and an action grant. A signature of the toy verifier is the
-- key, twice.
use open_crate.Base.{
  ℕ, zero, suc, ◌/◌, ◌%◌, ◌≡◌, refl, true, false, none, some, List, [], ◌∷◌, ◌++◌, length, ok,
}
use open_crate.Base.Int.{pos}
use open_crate.Base.Utf8.{is_utf8, utf8_from}
use open_crate.Base.Words.{checked_add}
use open_crate.Base.Bytes.{slice, array, from_le, bytes_eq, signed64}
use open_crate.Format.Tlv.{
  new_reader, next_field, is_exhausted, read_field, check_order, prefix_number, each_field,
  read_fields, field_array, field_u8, field_uint,
}
use open_crate.Format.PolicyCodec.Values.{i64_from_le}
use open_crate.Crypto.Transcript.{Transcript}
use open_crate.Protocol.{Verifier, no_signature, zero_bytes, split_signature, refuse_if_critical}
use open_crate.Protocol.Actions.{ActionRule, remove_under, tree_remove}
use open_crate.Protocol.Actions.Text as Text
use open_crate.Protocol.Actions.Within.{narrower, uses_within, narrower_prefix, narrower_constraint}
use open_crate.Protocol.Actions.Decode as RuleDecode
use open_crate.Protocol.Actions.Grant as ActionGrants
use open_crate.Protocol.Actions.Grant.{ActionGrant}
use open_crate.Protocol.Agents.{
  AgentGrant, Delegation, Entry, check_grant_shape, check_delegation_shape, check_holder_name,
  check_entries, check_increasing, bytes_ge,
}
use open_crate.Protocol.Agents.Decode as AgentDecode
use open_crate.Protocol.Agents.Chain.{
  ChainFacts, verify_grant_chain_with_actions, root_actions, follow_all, follow, check_link,
  link_actions, narrow_actions, check_children, try_parents, same_kind, file_in, all_in, root_facts,
  link_facts,
}

abbrev repeat : ℕ → ℕ → List ℕ
repeat zero byte = []
repeat (suc n) byte = byte ∷ repeat n byte

pub toy_verify : Verifier
toy_verify key transcript signature = bytes_eq signature (key ++ key)

-- Zeros are a signature under the key of zeros.
pub toy_verify-accepts : (t : Transcript) → toy_verify (zero_bytes 32) t no_signature ≡ true
unfolding toy_verify bytes_eq no_signature
toy_verify-accepts t = refl

abbrev tagged : ℕ → ℕ → List ℕ → List ℕ
tagged low high value = low ∷ high ∷ (length value % 256) ∷ (length value / 256) ∷ 0 ∷ 0 ∷ value

abbrev entry_bytes : ℕ → List ℕ → List ℕ
entry_bytes tag value = tagged tag 0 value

abbrev pub author : List ℕ
author = repeat 32 9

abbrev pub door : List ℕ
door = repeat 32 7

abbrev pub child : List ℕ
child = repeat 32 6

abbrev file_bytes : ℕ → List ℕ
file_bytes n =
    entry_bytes 1 (repeat 16 n)
    ++ (entry_bytes 2 [] ++ (entry_bytes 3 (repeat 24 0) ++ entry_bytes 4 []))

abbrev pub seconds : ℕ → List ℕ
seconds n = n ∷ repeat 7 0

abbrev pub grant_body : List ℕ
grant_body =
    entry_bytes 1 (repeat 16 1)
    ++ (entry_bytes 2 door
        ++ (entry_bytes 3 (1 ∷ [])
            ++ (entry_bytes 4 door
                ++ (entry_bytes 5 (repeat 32 8)
                    ++ (entry_bytes 6 (entry_bytes 0 (file_bytes 3) ++ entry_bytes 1 (file_bytes 4))
                        ++ (entry_bytes 7 (seconds 10)
                            ++ (entry_bytes 8 (seconds 90)
                                ++ (entry_bytes 10 (2 ∷ []) ++ entry_bytes 11 author))))))))

abbrev link_rule : List ℕ → ℕ → List ℕ
link_rule prefix delegable =
    entry_bytes 1 (2 ∷ 0 ∷ [])
    ++ (entry_bytes 2 (entry_bytes 3 prefix)
        ++ (entry_bytes 3 (0 ∷ 0 ∷ 0 ∷ 0 ∷ [])
            ++ (entry_bytes 4 (0 ∷ []) ++ entry_bytes 5 (delegable ∷ []))))

-- "src" and "src/a"
abbrev pub src_prefix : List ℕ
src_prefix = 115 ∷ 114 ∷ 99 ∷ []

abbrev pub src_a_prefix : List ℕ
src_a_prefix = 115 ∷ 114 ∷ 99 ∷ 47 ∷ 97 ∷ []

abbrev link_body : List ℕ
link_body =
    entry_bytes 1 (repeat 16 1)
    ++ (entry_bytes 2 door
        ++ (entry_bytes 3 child
            ++ (entry_bytes 4 (1 ∷ [])
                ++ (entry_bytes 5 child
                    ++ (entry_bytes 6 (repeat 32 5)
                        ++ (entry_bytes 7 (entry_bytes 0 (file_bytes 4))
                            ++ (entry_bytes 8 (seconds 50)
                                ++ (entry_bytes 10 (1 ∷ [])
                                    ++ (tagged 1 128
                                        ((entry_bytes 0 (link_rule src_a_prefix 0))))))))))))

abbrev actions_body : List ℕ
actions_body =
    entry_bytes 1 (repeat 16 1)
    ++ (entry_bytes 2 (entry_bytes 0 (link_rule src_prefix 1))
        ++ (entry_bytes 3 (seconds 10) ++ (entry_bytes 4 (seconds 80) ++ entry_bytes 5 author)))

abbrev pub signed_by : List ℕ → List ℕ → List ℕ
signed_by key body = (key ++ key) ++ body

abbrev pub link_bytes : List ℕ
link_bytes = signed_by (repeat 32 8) link_body

abbrev pub child_rule : ActionRule
child_rule = record {
  kind = tree_remove;
  constraint = remove_under src_a_prefix;
  max_uses = 0;
  confirm = false;
  delegable = false;
}

abbrev pub child_facts : ChainFacts
child_facts = record {
  grant_id = repeat 16 1;
  holder_fpr = child;
  holder_verify = repeat 32 5;
  files = repeat 16 4 ∷ [];
  expires_at = pos 50;
  tightening = [];
  depth_left = 1;
  actions = child_rule ∷ [];
}

abbrev entry_of : ℕ → Entry
entry_of n = record {
  file_id = repeat 16 n;
  share_b = record { enc = []; nonce = repeat 24 0; ct = [] };
}

abbrev the_grant : AgentGrant
the_grant = record {
  grant_id = repeat 16 1;
  door_fpr = door;
  door_kem = 1;
  door_public = door;
  door_verify = repeat 32 8;
  entries = entry_of 3 ∷ entry_of 4 ∷ [];
  issued_at = pos 10;
  expires_at = pos 90;
  tightening = none;
  max_depth = 2;
  author_key = author;
  signature = author ++ author;
}

grant_decoded :
    AgentDecode.decode_grant toy_verify (signed_by author grant_body) author ≡ ok the_grant
unfolding toy_verify bytes_eq split_signature refuse_if_critical AgentDecode.decode_grant
    AgentDecode.decode_grant_body AgentDecode.grant_field AgentDecode.no_grant_fields
    AgentDecode.grant_of AgentDecode.decode_entries AgentDecode.push_entry AgentDecode.decode_entry
    AgentDecode.entry_field AgentDecode.no_entry_fields check_grant_shape check_holder_name
    check_entries check_increasing bytes_ge ActionGrants.field_i64 i64_from_le signed64 from_le
    read_fields each_field new_reader next_field is_exhausted read_field check_order prefix_number
    slice array checked_add field_array field_u8 field_uint
grant_decoded = refl

abbrev the_link : Delegation
the_link = record {
  grant_id = repeat 16 1;
  parent_fpr = door;
  child_fpr = child;
  child_kem = 1;
  child_public = child;
  child_verify = repeat 32 5;
  entries = entry_of 4 ∷ [];
  expires_at = pos 50;
  tightening = none;
  depth = 1;
  actions = child_rule ∷ [];
  signature = repeat 32 8 ++ repeat 32 8;
}

link_decoded : AgentDecode.decode_delegation toy_verify link_bytes (repeat 32 8) ≡ ok the_link
unfolding toy_verify bytes_eq split_signature refuse_if_critical AgentDecode.decode_delegation
    AgentDecode.decode_delegation_body AgentDecode.link_field AgentDecode.no_link_fields
    AgentDecode.link_of AgentDecode.decode_entries AgentDecode.push_entry AgentDecode.decode_entry
    AgentDecode.entry_field AgentDecode.no_entry_fields check_delegation_shape check_holder_name
    check_entries check_increasing bytes_ge ActionGrants.field_i64 ActionGrants.check_rules
    RuleDecode.decode_rules RuleDecode.push_rule RuleDecode.decode_rule RuleDecode.rule_field
    RuleDecode.no_rule_fields RuleDecode.flag RuleDecode.decode_constraint RuleDecode.constraint_of
    RuleDecode.limit_field RuleDecode.no_limits RuleDecode.text is_utf8 utf8_from
    Text.check_rule_shape Text.check_constraint_shape Text.check_tree_path Text.check_alphabet
    Text.find_other Text.name_char_ok Text.check_path_parts Text.check_parts Text.split_on
    i64_from_le signed64 from_le read_fields each_field new_reader next_field is_exhausted
    read_field check_order prefix_number slice array checked_add field_array field_u8 field_uint
link_decoded = refl

abbrev pub root_rule : ActionRule
root_rule = record {
  kind = tree_remove;
  constraint = remove_under src_prefix;
  max_uses = 0;
  confirm = false;
  delegable = true;
}

abbrev the_actions : ActionGrant
the_actions = record {
  grant_id = repeat 16 1;
  rules = root_rule ∷ [];
  issued_at = pos 10;
  expires_at = pos 80;
  author_key = author;
  signature = author ++ author;
}

abbrev pub actions_bytes : List ℕ
actions_bytes = signed_by author actions_body

actions_decoded : ActionGrants.decode_grant toy_verify actions_bytes author ≡ ok the_actions
unfolding toy_verify bytes_eq split_signature refuse_if_critical ActionGrants.decode_grant
    ActionGrants.decode_grant_body ActionGrants.grant_field ActionGrants.no_grant_fields
    ActionGrants.grant_of ActionGrants.field_i64 ActionGrants.check_grant_shape
    ActionGrants.check_rules RuleDecode.decode_rules RuleDecode.push_rule RuleDecode.decode_rule
    RuleDecode.rule_field RuleDecode.no_rule_fields RuleDecode.flag RuleDecode.decode_constraint
    RuleDecode.constraint_of RuleDecode.limit_field RuleDecode.no_limits RuleDecode.text is_utf8
    utf8_from Text.check_rule_shape Text.check_constraint_shape Text.check_tree_path
    Text.check_alphabet Text.find_other Text.name_char_ok Text.check_path_parts Text.check_parts
    Text.split_on i64_from_le signed64 from_le read_fields each_field new_reader next_field
    is_exhausted read_field check_order prefix_number slice array checked_add field_array field_u8
    field_uint
actions_decoded = refl

pub child-narrower : narrower child_rule root_rule ≡ ok tt
unfolding narrower narrower_constraint narrower_prefix uses_within Text.path_under Text.components
    Text.nonempty_parts Text.begins_with Text.split_on bytes_eq
child-narrower = refl

link-checked : check_link (root_facts the_grant (root_rule ∷ [])) the_link (pos 20) 0 ≡ ok tt
unfolding check_link root_facts bytes_eq all_in file_in
link-checked = refl

link-narrowed :
    link_actions true (root_facts the_grant (root_rule ∷ [])) the_link 0 ≡ ok (child_rule ∷ [])
unfolding link_actions root_facts narrow_actions check_children same_kind try_parents narrower
    uses_within narrower_constraint narrower_prefix Text.path_under Text.begins_with Text.components
    Text.nonempty_parts Text.split_on bytes_eq
link-narrowed = refl

roots-found :
    root_actions toy_verify author the_grant (some actions_bytes) (pos 20) ≡ ok (root_rule ∷ [])
unfolding root_actions bytes_eq
roots-found = rw actions_decoded refl

link-followed :
    follow_all toy_verify true (root_facts the_grant (root_rule ∷ [])) (link_bytes ∷ []) (pos 20) 0
    ≡ ok child_facts
unfolding follow_all follow link_facts root_facts
link-followed = rw (link_decoded, link-checked, link-narrowed) refl

pub chain_accepted :
    verify_grant_chain_with_actions toy_verify author
      (signed_by author grant_body)
      (link_bytes ∷ [])
      (some actions_bytes)
      (pos 20)
    ≡ ok child_facts
unfolding verify_grant_chain_with_actions
chain_accepted = rw (grant_decoded, roots-found) link-followed
