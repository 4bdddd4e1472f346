-- ===== src/Format/PolicyCodec/Encode.antt =====
-- `encode` of crates/oc-format/src/policy_codec.rs. A `BTreeMap<u16, u8>` is the list of its entries, with
-- increasing keys; a loop that writes fields passes the writer on.
use open_crate.Base.{ℕ, Bool, ◌==◌, List, [], ◌∷◌, ltb, leb, if◌then◌else◌, ok, ◌>>=◌}
use open_crate.Format.{Parsed}
use open_crate.Format.Tlv.{TlvWriter, new_writer, put, finish}
use open_crate.Policy.{Action, all_actions, Policy}
use open_crate.Policy.Rules.{rule, software_or}
use open_crate.Format.PolicyCodec.{
  actions_tag, validity_tag, network_tag, min_binding_tag, max_opens_tag, watermark_tag,
  action_binding_tag, rule_deny, rule_byte, first_action_binding_version, action_to_tag,
  encode_binding,
}
use open_crate.Format.PolicyCodec.Values.{encode_validity, encode_network, encode_max_opens}

-- `BTreeMap::insert`
unfoldable pub insert : ℕ → ℕ → List (ℕ × ℕ) → List (ℕ × ℕ)
insert k v [] = (k, v) ∷ []
insert k v ((k', v') ∷ m) =
    let rest = (k', v') ∷ insert k v m in
    if ltb k k' then (k, v) ∷ (k', v') ∷ m else if k == k' then (k, v) ∷ m else rest

-- `for unknown in &policy.unknown_actions`
unfoldable pub insert_unknown : List ℕ → List (ℕ × ℕ) → List (ℕ × ℕ)
insert_unknown [] m = m
insert_unknown (u ∷ us) m = insert_unknown us (insert u rule_deny m)

-- `for action in […]`
unfoldable pub insert_rules : Policy → List Action → List (ℕ × ℕ) → List (ℕ × ℕ)
insert_rules p [] m = m
insert_rules p (a ∷ rest) m =
    insert_rules p rest (insert (action_to_tag a) (rule_byte (rule p a)) m)

unfoldable pub actions_by_tag : Policy → List (ℕ × ℕ)
actions_by_tag p = insert_rules p all_actions (insert_unknown p.unknown_actions [])

-- `for (action_tag, rule) in &actions_by_tag`
unfoldable pub put_rules : List (ℕ × ℕ) → TlvWriter → Parsed TlvWriter
put_rules [] w = ok w
put_rules ((tag, byte) ∷ m) w = do w' ← put w tag (byte ∷ []); put_rules m w'

-- `for action in ALL_ACTIONS`, with the level of each action.
unfoldable pub put_levels : Policy → List Action → TlvWriter → Parsed TlvWriter
put_levels p [] w = ok w
put_levels p (a ∷ rest) w = do
  w' ← put w (action_to_tag a) (encode_binding (software_or (p.action_binding a)) ∷ [])
  put_levels p rest w'

-- The field that exists from version 4 on.
unfoldable pub put_action_binding : ℕ → Policy → TlvWriter → Parsed TlvWriter
put_action_binding version p w =
    if leb first_action_binding_version version
    then (do
      bindings ← put_levels p all_actions new_writer
      put w action_binding_tag (finish bindings))
    else ok w

-- `u8::from(bool)`
abbrev pub bool_byte : Bool → ℕ
bool_byte b = if b then 1 else 0

unfoldable pub encode : ℕ → Policy → Parsed (List ℕ)
encode version p = do
  actions ← put_rules (actions_by_tag p) new_writer
  w1 ← put new_writer actions_tag (finish actions)
  w2 ← put w1 validity_tag (encode_validity p.validity)
  w3 ← put w2 network_tag (encode_network p.network)
  w4 ← put w3 min_binding_tag (encode_binding p.min_binding ∷ [])
  w5 ← put w4 max_opens_tag (encode_max_opens p.max_opens)
  w6 ← put w5 watermark_tag (bool_byte p.watermark ∷ [])
  w ← put_action_binding version p w6
  ok (finish w)
