-- ===== src/Tests/Agents.antt =====
-- The theorems on crates/oc-protocol/src/action.rs and agent.rs at a chain with one link.
use open_crate.Base.{ℕ, ◌+◌, ◌≤◌, ◌≡◌, refl, true, false, some, List, [], ◌∷◌, ◌++◌, ok}
use open_crate.Base.Int.{pos, ◌≤ℤ◌}
use open_crate.Base.Utf8.{}
use open_crate.Base.Bytes.{bytes_eq}
use open_crate.Protocol.Actions.{ActionRule, remove, remove_under, tree_remove, prefix_limit}
use open_crate.Protocol.Actions.Text as Text
use open_crate.Protocol.Actions.Within.{
  args_within, narrower, constraint_within, under_tree_prefix, uses_within, narrower_prefix,
  narrower_constraint,
}
use open_crate.Protocol.Actions.Narrowing.{narrower-args_within, narrower_trans}
use open_crate.Protocol.Actions.Paths.{resolve, under_tree_prefix-resolve}
use open_crate.Protocol.Actions.Grant as ActionGrants
use open_crate.Protocol.Actions.Grant.{ActionGrant}
use open_crate.Protocol.Agents.{AgentGrant, max_grant_depth}
use open_crate.Protocol.Agents.Decode as AgentDecode
use open_crate.Protocol.Agents.Chain.{file_in, files_of}
use open_crate.Protocol.Agents.Safety.{verify_grant_chain_iff, verify_grant_chain-Within, IsGranted}
use open_crate.Protocol.Agents.Allowed.{verify_grant_chain-allowed}
use mathlib.Core.List.{Memᴰ}
use open_crate.Tests.Delegation.{
  toy_verify, child-narrower, chain_accepted, author, signed_by, grant_body, link_bytes,
  actions_bytes, child_facts, root_rule, child_rule, src_prefix, src_a_prefix,
}

-- "src/a/b"
abbrev some_path : List ℕ
some_path = 115 ∷ 114 ∷ 99 ∷ 47 ∷ 97 ∷ 47 ∷ 98 ∷ []

child-allows : args_within child_rule (remove some_path) ≡ ok tt
unfolding args_within constraint_within under_tree_prefix Text.path_under Text.components
    Text.nonempty_parts Text.begins_with Text.split_on Text.check_tree_path Text.check_alphabet
    Text.find_other Text.name_char_ok Text.check_path_parts Text.check_parts bytes_eq
child-allows = refl

root-shaped : Text.check_rule_shape root_rule ≡ ok tt
unfolding Text.check_rule_shape Text.check_constraint_shape Text.split_on Text.check_tree_path
    Text.check_alphabet Text.find_other Text.name_char_ok Text.check_path_parts Text.check_parts
    bytes_eq
root-shaped = refl

narrower-args_within_example : args_within root_rule (remove some_path) ≡ ok tt
narrower-args_within_example =
    narrower-args_within child_rule root_rule (remove some_path) root-shaped child-narrower
      child-allows

abbrev delegable_rule : ActionRule
delegable_rule = record {
  kind = tree_remove;
  constraint = remove_under src_a_prefix;
  max_uses = 3;
  confirm = false;
  delegable = true;
}

delegable-narrower : narrower delegable_rule root_rule ≡ ok tt
unfolding narrower narrower_constraint narrower_prefix uses_within Text.path_under Text.components
    Text.nonempty_parts Text.begins_with Text.split_on bytes_eq
delegable-narrower = refl

abbrev once_rule : ActionRule
once_rule = record child_rule { max_uses = 1 }

once-narrower : narrower once_rule delegable_rule ≡ ok tt
unfolding narrower narrower_constraint narrower_prefix uses_within Text.path_under Text.components
    Text.nonempty_parts Text.begins_with Text.split_on bytes_eq
once-narrower = refl

narrower_trans_example : narrower once_rule root_rule ≡ ok tt
narrower_trans_example =
    narrower_trans once_rule delegable_rule root_rule once-narrower delegable-narrower

path-allowed : under_tree_prefix src_prefix some_path prefix_limit ≡ ok tt
unfolding under_tree_prefix Text.path_under Text.components Text.nonempty_parts Text.begins_with
    Text.split_on Text.check_tree_path Text.check_alphabet Text.find_other Text.name_char_ok
    Text.check_path_parts Text.check_parts bytes_eq
path-allowed = refl

under_tree_prefix-resolve_example :
    (below : List (List ℕ)) × (resolve [] some_path ≡ below ++ resolve [] src_prefix)
under_tree_prefix-resolve_example =
    under_tree_prefix-resolve [] src_prefix some_path prefix_limit path-allowed

verify_grant_chain_iff_example :
    IsGranted toy_verify author
      (signed_by author grant_body)
      (link_bytes ∷ [])
      (some actions_bytes)
      (pos 20)
      child_facts
verify_grant_chain_iff_example =
    (verify_grant_chain_iff toy_verify author (signed_by author grant_body) (link_bytes ∷ [])
        (some actions_bytes) (pos 20) child_facts).0
      chain_accepted

verify_grant_chain-Within_example :
    (grant : AgentGrant) × (AgentDecode.decode_grant toy_verify (signed_by author grant_body) author
      ≡ ok grant)
    × (child_facts.grant_id ≡ grant.grant_id)
    × ((file : List ℕ)
        → file_in child_facts.files file ≡ true
        → file_in (files_of grant.entries) file ≡ true)
    × (child_facts.expires_at ≤ℤ grant.expires_at)
    × (grant.issued_at ≤ℤ pos 20)
    × (pos 20 ≤ℤ child_facts.expires_at)
    × (child_facts.depth_left + 1 ≤ grant.max_depth)
    × (1 ≤ max_grant_depth)
verify_grant_chain-Within_example =
    verify_grant_chain-Within toy_verify author (signed_by author grant_body) (link_bytes ∷ [])
      (some actions_bytes) (pos 20) child_facts chain_accepted

verify_grant_chain-allowed_example :
    (bytes : List ℕ) × (signed : ActionGrant) × (root : ActionRule) × (some actions_bytes
      ≡ some bytes)
    × (ActionGrants.decode_grant toy_verify bytes author ≡ ok signed)
    × (signed.grant_id ≡ child_facts.grant_id)
    × Memᴰ root signed.rules
    × (args_within root (remove some_path) ≡ ok tt)
verify_grant_chain-allowed_example =
    verify_grant_chain-allowed toy_verify author (signed_by author grant_body) (link_bytes ∷ [])
      (some actions_bytes) (pos 20) child_facts child_rule (remove some_path) chain_accepted
      (Memᴰ.head refl) child-allows
