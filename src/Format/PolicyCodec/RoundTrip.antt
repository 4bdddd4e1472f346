-- ===== src/Format/PolicyCodec/RoundTrip.antt =====
-- `encode` and `decode` of crates/oc-format/src/policy_codec.rs together.
use open_crate.Base.{
  ℕ, ◌≡◌, refl, ap, ap₂, ◌∙◌, true, false, ◌&&◌, ◌==◌, none, List, [], ◌∷◌, arith, ok,
  if◌then◌else◌, All, leb, Bool-cases, ==_iff, inl, inr,
}
use open_crate.Format.Tlv.Encoding.{encode_fields}
use open_crate.Policy.{Action, ActionMap, Rule, Policy, software, all_actions}
use open_crate.Policy.Rules.{
  rule, is_allow, binding_for, software_or, deny_all, binding_max, rule_or_default,
}
use open_crate.Policy.Sets.{contains, increasing_ext}
use open_crate.Policy.Intersect.Order.{SamePolicy}
use open_crate.Format.PolicyCodec.{tag_to_action, action_to_tag, first_action_binding_version}
use open_crate.Format.PolicyCodec.Encode.{actions_by_tag, insert_unknown, encode}
use open_crate.Format.PolicyCodec.Decode.{start, decode}
use open_crate.Format.PolicyCodec.Maps.{
  has, permits, known, member, insert_unknown-IsMap, has-insert_unknown, has-insert_rules,
  permits-insert_rules,
}
use open_crate.Format.PolicyCodec.Actions.{
  rule-apply_rules, is_unknown, unknown-apply_rules, apply_rules-IsIncreasing,
  apply_rules-SameModifiers,
}
use open_crate.Format.PolicyCodec.Bindings.{
  own_level, apply_levels, own_level-apply_levels, apply_levels-SameBesidesLevels,
}
use open_crate.Format.PolicyCodec.Pieces.{IsEncodable, read_back, after_shared}
use open_crate.Format.PolicyCodec.Assembled.{fields, after_all, encode-bytes, decode-fields}

-- What a version of the format can say of a policy: the levels of single actions from version 4 on.
abbrev at_version : ℕ → Policy → Policy
at_version version p =
    if leb first_action_binding_version version then p else record p { action_binding = λ _. none }

permits-actions_by_tag :
    (p : Policy) (a : Action)
    → IsEncodable p
    → permits (action_to_tag a) (actions_by_tag p) ≡ is_allow (rule p a)
unfolding actions_by_tag member
permits-actions_by_tag p a h =
    let unknown = insert_unknown p.unknown_actions [] in
    let all =
      permits-insert_rules p a all_actions unknown
        (insert_unknown-IsMap p.unknown_actions [] h.tags tt) in
    let listed : member a all_actions ≡ true = ground arith in all ∙ rw listed refl

rule-start : (a : Action) → is_allow (rule start.policy a) ≡ false
unfolding rule start deny_all
rule-start a = refl

rules-read_back :
    (p : Policy) (a : Action)
    → IsEncodable p
    → is_allow (rule (read_back p) a) ≡ is_allow (rule p a)
unfolding read_back rule
rules-read_back p a h = ground (
  arith,
  rule-apply_rules start.policy a (actions_by_tag p),
  permits-actions_by_tag p a h,
  rule-start a,
)

known-is_unknown : (x : ℕ) → (known x all_actions && is_unknown x) ≡ false
unfolding known tag_to_action
known-is_unknown x = ground arith

listed-is_unknown :
    (x : ℕ) (us : List ℕ)
    → All (λ u. tag_to_action u ≡ none) us
    → (contains x us && is_unknown x) ≡ contains x us
unfolding contains
listed-is_unknown x [] h = refl
listed-is_unknown x (u ∷ us) (e, h) = elim (Bool-cases (x == u)) [
  | inl is ↦
      let here : tag_to_action x ≡ none = ap tag_to_action ((==_iff x u).0 is) ∙ e in
      ground (arith, here)
  | inr ne ↦ rw ne (listed-is_unknown x us h)
]

contains-read_back :
    (p : Policy) (x : ℕ)
    → IsEncodable p
    → contains x (read_back p).unknown_actions ≡ contains x p.unknown_actions
unfolding read_back actions_by_tag has start deny_all contains
contains-read_back p x h = ground (
  arith,
  unknown-apply_rules start.policy x (actions_by_tag p),
  has-insert_rules x p all_actions (insert_unknown p.unknown_actions []),
  has-insert_unknown x p.unknown_actions [],
  known-is_unknown x,
  listed-is_unknown x p.unknown_actions h.unknown,
)

unknown-read_back : (p : Policy) → IsEncodable p → (read_back p).unknown_actions ≡ p.unknown_actions
unfolding read_back start deny_all
unknown-read_back p h =
    increasing_ext (read_back p).unknown_actions p.unknown_actions
      (apply_rules-IsIncreasing start.policy (actions_by_tag p) tt) h.ranges.unknown
      (λ x. contains-read_back p x h)

own_level-read_back : (p : Policy) (a : Action) → own_level (read_back p) a ≡ software
unfolding read_back start deny_all
own_level-read_back p a =
    let kept = apply_rules-SameModifiers start.policy (actions_by_tag p) in
    ap (λ m. software_or (m a)) kept.action_binding

same_read_back :
    (p : Policy)
    → IsEncodable p
    → SamePolicy (read_back p) (record p { action_binding = λ _. none })
unfolding read_back binding_for rule
same_read_back p h = record {
  rules = λ a. rules-read_back p a h;
  validity = refl;
  max_opens = refl;
  network = refl;
  bindings = λ a. ap (binding_max p.min_binding) (own_level-read_back p a);
  watermark = refl;
  unknown = unknown-read_back p h;
}

min_binding-read_back : (p : Policy) → (read_back p).min_binding ≡ p.min_binding
unfolding read_back
min_binding-read_back p = refl

same_with_levels :
    (p : Policy) → IsEncodable p → SamePolicy (apply_levels (read_back p) p all_actions) p
unfolding binding_for rule
same_with_levels p h =
    let q = apply_levels (read_back p) p all_actions in
    let kept = apply_levels-SameBesidesLevels (read_back p) p all_actions in
    let same = same_read_back p h in
    record {
      rules = λ a.
          ap (λ (m : ActionMap Rule). is_allow (rule_or_default (m a))) kept.actions ∙ same.rules a;
      validity = kept.validity ∙ same.validity;
      max_opens = kept.max_opens ∙ same.max_opens;
      network = kept.network ∙ same.network;
      bindings = λ a.
          ap₂ binding_max (kept.min_binding ∙ min_binding-read_back p)
            (own_level-apply_levels p (read_back p) a (own_level-read_back p a));
      watermark = kept.watermark ∙ same.watermark;
      unknown = kept.unknown ∙ same.unknown;
    }

same_at_version :
    (version : ℕ) (p : Policy)
    → IsEncodable p
    → SamePolicy (after_all version p).policy (at_version version p)
unfolding after_all after_shared
same_at_version version p h = elim (Bool-cases (leb first_action_binding_version version)) [
  | inl since ↦ rw since (same_with_levels p h)
  | inr before ↦ rw before (same_read_back p h)
]

-- A policy in the ranges of its types, whose unknown actions are none of the known ones, is encoded in
-- every version, and `decode` in the same version gives from the bytes a policy with the same rule for
-- each action, the same level of binding for each action, the same validity, network, open limit and
-- watermark and the same unknown actions; before version 4, the levels of single actions are dropped.
pub policy_round_trip :
    (version : ℕ) (p : Policy)
    → IsEncodable p
    → (bytes : List ℕ) × (encode version p ≡ ok bytes)
      × ((q : Policy) × (decode version bytes ≡ ok q) × SamePolicy q (at_version version p))
policy_round_trip version p h = (
  encode_fields (fields version p),
  encode-bytes version p h,
  ((after_all version p).policy, decode-fields version p h, same_at_version version p h),
)
