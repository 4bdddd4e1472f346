-- ===== src/Format/PolicyCodec/Decode.antt =====
-- `decode` of crates/oc-format/src/policy_codec.rs. The variables of the loop are a record; the body of each
-- loop is a function of it and a field.
use open_crate.Base.{
  ℕ, Bool, true, false, not, ◌&&◌, ◌==◌, none, some, List, leb, if◌then◌else◌, ok, err, ◌>>=◌, ◌>>◌,
  fail_if,
}
use open_crate.Format.{Parsed, unknown_critical_field, missing_field}
use open_crate.Format.Tlv.{Field, field_u8, read_fields}
use open_crate.Policy.{Rule, Binding, Policy}
use open_crate.Policy.Rules
use open_crate.Policy.Rules.{deny_all, level}
use open_crate.Policy.Sets.{insert}
use open_crate.Format.PolicyCodec.{
  actions_tag, validity_tag, network_tag, min_binding_tag, max_opens_tag, watermark_tag,
  action_binding_tag, rule_allow, opens_when_the_field_is_absent, first_action_binding_version,
  tag_to_action, decode_binding,
}
use open_crate.Format.PolicyCodec.Values.{decode_validity, decode_network, decode_max_opens}

-- What a rule byte does for a known action, and for a tag that is none.
unfoldable pub apply_rule : Policy → ℕ → ℕ → Policy
apply_rule p tag byte = elim (tag_to_action tag) [
  | none ↦ record p { unknown_actions = insert tag p.unknown_actions }
  | some a ↦
      if byte == rule_allow then record p { actions = Rules.insert p.actions a Rule.allow } else p
]

-- The body of the loop of `decode_actions`.
unfoldable pub action_field : Policy → Field → Parsed Policy
action_field p f = do byte ← field_u8 f; ok (apply_rule p f.tag byte)

unfoldable pub decode_actions : List ℕ → Policy → Parsed Policy
decode_actions bytes p = read_fields action_field bytes p

-- What a level does for a tag: the weakest level, and a tag of no action, change nothing.
unfoldable pub apply_level : Policy → ℕ → Binding → Policy
apply_level p tag b = if level b == 0 then p else elim (tag_to_action tag) [
  | none ↦ p
  | some a ↦ record p { action_binding = Rules.insert p.action_binding a b }
]

-- The body of the loop of `decode_action_binding`.
unfoldable pub level_field : Policy → Field → Parsed Policy
level_field p f = do byte ← field_u8 f; b ← decode_binding f.tag byte; ok (apply_level p f.tag b)

unfoldable pub decode_action_binding : List ℕ → Policy → Parsed Policy
decode_action_binding bytes p = read_fields level_field bytes p

-- The variables of the loop of `decode`.
pub record Decoding : Type 0 where
  pub policy : Policy
  pub seen_actions : Bool
  pub seen_validity : Bool
  pub seen_network : Bool
  pub seen_binding : Bool
  pub seen_action_binding : Bool

-- Before the loop: a watermark is due, and one open is left.
unfoldable pub start : Decoding
start = record {
  policy = record deny_all { watermark = true; max_opens = some opens_when_the_field_is_absent };
  seen_actions = false;
  seen_validity = false;
  seen_network = false;
  seen_binding = false;
  seen_action_binding = false;
}

-- The branches of the loop of `decode`.
unfoldable pub take_actions : Decoding → Field → Parsed Decoding
take_actions st f = do
  p ← decode_actions f.value st.policy
  ok (record st { policy = p; seen_actions = true })

unfoldable pub take_validity : Decoding → Field → Parsed Decoding
take_validity st f = do
  v ← decode_validity f.tag f.value
  ok (record st { policy = record st.policy { validity = v }; seen_validity = true })

unfoldable pub take_network : Decoding → Field → Parsed Decoding
take_network st f = do
  n ← decode_network f.tag f.value
  ok (record st { policy = record st.policy { network = n }; seen_network = true })

unfoldable pub take_min_binding : Decoding → Field → Parsed Decoding
take_min_binding st f = do
  byte ← field_u8 f
  b ← decode_binding f.tag byte
  ok (record st { policy = record st.policy { min_binding = b }; seen_binding = true })

unfoldable pub take_max_opens : Decoding → Field → Parsed Decoding
take_max_opens st f = do
  opens ← decode_max_opens f.tag f.value
  ok (record st { policy = record st.policy { max_opens = opens } })

unfoldable pub take_watermark : Decoding → Field → Parsed Decoding
take_watermark st f = do
  byte ← field_u8 f
  ok (record st { policy = record st.policy { watermark = not (byte == 0) } })

unfoldable pub take_action_binding : Decoding → Field → Parsed Decoding
take_action_binding st f = do
  p ← decode_action_binding f.value st.policy
  ok (record st { policy = p; seen_action_binding = true })

-- The body of the loop of `decode`.
unfoldable pub decode_field : ℕ → Decoding → Field → Parsed Decoding
decode_field version st f =
    if f.tag == actions_tag
    then take_actions st f
    else if f.tag == validity_tag
    then take_validity st f
    else if f.tag == network_tag
    then take_network st f
    else if f.tag == min_binding_tag
    then take_min_binding st f
    else if f.tag == max_opens_tag
    then take_max_opens st f
    else if f.tag == watermark_tag
    then take_watermark st f
    else if (f.tag == action_binding_tag) && leb first_action_binding_version version
    then take_action_binding st f
    else err (unknown_critical_field f.tag)

-- The fields that must be present are.
unfoldable pub check_seen : ℕ → Decoding → Parsed (Unit {0})
check_seen version st = do
  fail_if (not st.seen_actions) (missing_field actions_tag)
  fail_if (not st.seen_validity) (missing_field validity_tag)
  fail_if (not st.seen_network) (missing_field network_tag)
  fail_if (not st.seen_binding) (missing_field min_binding_tag)
  fail_if (leb first_action_binding_version version && not st.seen_action_binding)
      (missing_field action_binding_tag)

unfoldable pub decode : ℕ → List ℕ → Parsed Policy
decode version bytes = do
  st ← read_fields (decode_field version) bytes start
  check_seen version st
  ok st.policy
