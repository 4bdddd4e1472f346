-- ===== src/Protocol/Actions/Decode.antt =====
-- Parsing of constraints and rules in crates/oc-protocol/src/action.rs. The variables of a loop over fields are a
-- record.
use open_crate.Base.{
  ℕ, Bool, true, false, not, Option, none, some, List, [], ◌∷◌, ◌++◌, leb, ◌==◌, if◌then◌else◌,
  length, ok, err, ◌>>=◌, ◌>>◌, fail_if, ok_or,
}
use open_crate.Base.Utf8.{is_utf8}
use open_crate.Format.{Parsed, bad_field_length, missing_field, not_utf8}
use open_crate.Format.Tlv.{Field, field_u8, field_uint, read_fields}
use open_crate.Protocol.{refuse_if_critical}
use open_crate.Protocol.Actions.{
  Text, ActionKind, git_push, tree_remove, tree_rename, http_request, kind_from_u16, Method,
  method_from_u8, Constraint, push_to, remove_under, rename_under, request_to, ActionRule,
}
use open_crate.Protocol.Actions.Text.{
  remote_tag, branch_tag, path_tag, from_tag, to_tag, host_tag, methods_tag, path_prefix_tag,
  secret_ref_tag, check_methods, check_constraint_shape, check_rule_shape,
}

unfoldable pub text : Field → ℕ → Parsed Text
text f tag = do fail_if (not (is_utf8 f.value)) (not_utf8 tag); ok f.value

unfoldable pub collect_methods : List ℕ → ℕ → Parsed (List Method)
collect_methods [] tag = ok []
collect_methods (byte ∷ bytes) tag = do
  method ← method_from_u8 byte tag
  methods ← collect_methods bytes tag
  ok (method ∷ methods)

unfoldable pub decode_methods : List ℕ → ℕ → Parsed (List Method)
decode_methods bytes tag = do
  methods ← collect_methods bytes tag
  check_methods tag methods
  ok methods

-- The variables of the loop of `decode_constraint`.
pub record Limits : Type 0 where
  pub remote : Option Text
  pub branch : Option Text
  pub path : Option Text
  pub from : Option Text
  pub to : Option Text
  pub host : Option Text
  pub methods : Option (List Method)
  pub path_prefix : Option Text
  pub secret_ref : Option Text

unfoldable pub no_limits : Limits
no_limits = record {
  remote = none;
  branch = none;
  path = none;
  from = none;
  to = none;
  host = none;
  methods = none;
  path_prefix = none;
  secret_ref = none;
}

abbrev unknown_limit : Limits → Field → Parsed Limits
unknown_limit st f = do refuse_if_critical f.tag; ok st

-- The arms of the loop, by kind.
unfoldable pub limit_field : ActionKind → Limits → Field → Parsed Limits
limit_field git_push st f =
    if f.tag == remote_tag
    then (do t ← text f remote_tag; ok (record st { remote = some t }))
    else if f.tag == branch_tag
    then (do t ← text f branch_tag; ok (record st { branch = some t }))
    else unknown_limit st f
limit_field tree_remove st f =
    if f.tag == path_tag
    then (do t ← text f path_tag; ok (record st { path = some t }))
    else unknown_limit st f
limit_field tree_rename st f =
    if f.tag == from_tag
    then (do t ← text f from_tag; ok (record st { from = some t }))
    else if f.tag == to_tag
    then (do t ← text f to_tag; ok (record st { to = some t }))
    else unknown_limit st f
limit_field http_request st f =
    if f.tag == host_tag
    then (do t ← text f host_tag; ok (record st { host = some t }))
    else if f.tag == methods_tag
    then (do ms ← decode_methods f.value methods_tag; ok (record st { methods = some ms }))
    else if f.tag == path_prefix_tag
    then (do t ← text f path_prefix_tag; ok (record st { path_prefix = some t }))
    else if f.tag == secret_ref_tag
    then (do t ← text f secret_ref_tag; ok (record st { secret_ref = some t }))
    else unknown_limit st f

unfoldable pub constraint_of : ActionKind → Limits → Parsed Constraint
constraint_of git_push st = do
  remote ← ok_or st.remote (missing_field remote_tag)
  branch ← ok_or st.branch (missing_field branch_tag)
  ok (push_to remote branch)
constraint_of tree_remove st = do
  prefix ← ok_or st.path (missing_field path_tag)
  ok (remove_under prefix)
constraint_of tree_rename st = do
  from_prefix ← ok_or st.from (missing_field from_tag)
  to_prefix ← ok_or st.to (missing_field to_tag)
  ok (rename_under from_prefix to_prefix)
constraint_of http_request st = do
  host ← ok_or st.host (missing_field host_tag)
  methods ← ok_or st.methods (missing_field methods_tag)
  path_prefix ← ok_or st.path_prefix (missing_field path_prefix_tag)
  ok (request_to host methods path_prefix st.secret_ref)

unfoldable pub decode_constraint : List ℕ → ActionKind → Parsed Constraint
decode_constraint bytes kind = do
  st ← read_fields (limit_field kind) bytes no_limits
  limit ← constraint_of kind st
  check_constraint_shape limit
  ok limit

-- The tags `rule_tag`.
abbrev kind_tag : ℕ
kind_tag = 1

abbrev constraint_tag : ℕ
constraint_tag = 2

abbrev max_uses_tag : ℕ
max_uses_tag = 3

abbrev confirm_tag : ℕ
confirm_tag = 4

abbrev delegable_tag : ℕ
delegable_tag = 5

-- A flag is 0 or 1.
unfoldable pub flag : ℕ → ℕ → Parsed Bool
flag value tag =
    if value == 0 then ok false else if value == 1 then ok true else err (bad_field_length tag 1)

-- The variables of the loop of `decode_rule`.
pub record RuleFields : Type 0 where
  pub kind : Option ActionKind
  raw_limit : Option (List ℕ)
  pub max_uses : Option ℕ
  pub confirm : Option Bool
  pub delegable : Option Bool

unfoldable pub no_rule_fields : RuleFields
no_rule_fields = record {
  kind = none;
  raw_limit = none;
  max_uses = none;
  confirm = none;
  delegable = none;
}

unfoldable pub rule_field : RuleFields → Field → Parsed RuleFields
rule_field st f =
    if f.tag == kind_tag
    then (do
      number ← field_uint 2 f
      kind ← kind_from_u16 number kind_tag
      ok (record st { kind = some kind }))
    else if f.tag == constraint_tag
    then ok (record st { raw_limit = some f.value })
    else if f.tag == max_uses_tag
    then (do uses ← field_uint 4 f; ok (record st { max_uses = some uses }))
    else if f.tag == confirm_tag
    then (do byte ← field_u8 f; set ← flag byte confirm_tag; ok (record st { confirm = some set }))
    else if f.tag == delegable_tag
    then (do
      byte ← field_u8 f
      set ← flag byte delegable_tag
      ok (record st { delegable = some set }))
    else (do refuse_if_critical f.tag; ok st)

unfoldable pub decode_rule : List ℕ → Parsed ActionRule
decode_rule bytes = do
  st ← read_fields rule_field bytes no_rule_fields
  kind ← ok_or st.kind (missing_field kind_tag)
  raw_limit ← ok_or st.raw_limit (missing_field constraint_tag)
  constraint ← decode_constraint raw_limit kind
  max_uses ← ok_or st.max_uses (missing_field max_uses_tag)
  confirm ← ok_or st.confirm (missing_field confirm_tag)
  delegable ← ok_or st.delegable (missing_field delegable_tag)
  let rule : ActionRule = record {
    kind = kind;
    constraint = constraint;
    max_uses = max_uses;
    confirm = confirm;
    delegable = delegable;
  }
  check_rule_shape rule
  ok rule

abbrev pub max_action_rules : ℕ
max_action_rules = 32

-- The body of the loop of `decode_rules`.
unfoldable pub push_rule : ℕ → List ActionRule → Field → Parsed (List ActionRule)
push_rule tag out f = do
  fail_if (leb max_action_rules (length out)) (bad_field_length tag (length out))
  rule ← decode_rule f.value
  ok (out ++ (rule ∷ []))

unfoldable pub decode_rules : List ℕ → Parsed (List ActionRule)
decode_rules bytes = read_fields (push_rule 2) bytes []
