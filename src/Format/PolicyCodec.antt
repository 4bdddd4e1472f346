-- ===== src/Format/PolicyCodec.antt =====
-- crates/oc-format/src/policy_codec.rs: the numbers that stand for actions and levels in the author-signed bytes.
-- The values of single fields, `encode` and `decode` are in the modules below.
pub mod Values
pub mod Encode
pub mod Decode
pub mod Fields
pub mod Maps
pub mod Actions
pub mod Bindings
pub mod Pieces
pub mod Assembled
pub mod RoundTrip
pub mod Rounds
pub mod Absent
use open_crate.Base.{
  ℕ, ◌≡◌, Bool, ◌==◌, Option, none, some, if◌then◌else◌, ok, err, arith, refl, ◌<◌, ◌^◌,
}
use open_crate.Format.{Parsed, bad_field_length}
use open_crate.Policy.{
  Action, view, edit, print, clipboard, export, screenshot, Rule, Binding, software, hardware,
  hardware_attested,
}
use open_crate.Policy.Rules.{is_allow}

-- The field tags of a policy.
abbrev pub actions_tag : ℕ
actions_tag = 1

abbrev pub validity_tag : ℕ
validity_tag = 2

abbrev pub network_tag : ℕ
network_tag = 3

abbrev pub min_binding_tag : ℕ
min_binding_tag = 4

abbrev pub max_opens_tag : ℕ
max_opens_tag = 5

abbrev pub watermark_tag : ℕ
watermark_tag = 6

abbrev pub action_binding_tag : ℕ
action_binding_tag = 7

-- `RULE_ALLOW`, and `RULE_DENY`.
abbrev pub rule_allow : ℕ
rule_allow = 1

abbrev pub rule_deny : ℕ
rule_deny = 0

abbrev pub opens_when_the_field_is_absent : ℕ
opens_when_the_field_is_absent = 1

abbrev pub first_action_binding_version : ℕ
first_action_binding_version = 4

abbrev pub action_to_tag : Action → ℕ
action_to_tag view = 1
action_to_tag edit = 2
action_to_tag print = 3
action_to_tag clipboard = 4
action_to_tag export = 5
action_to_tag screenshot = 6

unfoldable pub tag_to_action : ℕ → Option Action
tag_to_action tag =
    if tag == 1
    then some view
    else if tag == 2
    then some edit
    else if tag == 3
    then some print
    else if tag == 4
    then some clipboard
    else if tag == 5
    then some export
    else if tag == 6
    then some screenshot
    else none

abbrev pub encode_binding : Binding → ℕ
encode_binding software = 1
encode_binding hardware = 2
encode_binding hardware_attested = 3

unfoldable pub decode_binding : ℕ → ℕ → Parsed Binding
decode_binding tag value =
    if value == 1
    then ok software
    else if value == 2
    then ok hardware
    else if value == 3
    then ok hardware_attested
    else err (bad_field_length tag 1)

-- The byte of a rule: `RULE_ALLOW` for a permission, and `RULE_DENY` for all else.
abbrev pub rule_byte : Rule → ℕ
rule_byte r = if is_allow r then rule_allow else rule_deny

pub tag_to_action-action_to_tag : (a : Action) → tag_to_action (action_to_tag a) ≡ some a
unfolding tag_to_action
tag_to_action-action_to_tag view = refl
tag_to_action-action_to_tag edit = refl
tag_to_action-action_to_tag print = refl
tag_to_action-action_to_tag clipboard = refl
tag_to_action-action_to_tag export = refl
tag_to_action-action_to_tag screenshot = refl

action_to_tag-tag_to_action :
    (tag : ℕ) (a : Action) → tag_to_action tag ≡ some a → tag ≡ action_to_tag a
unfolding tag_to_action
action_to_tag-tag_to_action tag a h = ground arith

pub decode_binding-encode_binding :
    (tag : ℕ) (b : Binding) → decode_binding tag (encode_binding b) ≡ ok b
unfolding decode_binding
decode_binding-encode_binding tag software = refl
decode_binding-encode_binding tag hardware = refl
decode_binding-encode_binding tag hardware_attested = refl
