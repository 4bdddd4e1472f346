-- ===== src/Format/PolicyCodec/Actions.antt =====
-- The action rules of crates/oc-format/src/policy_codec.rs, from the map through the bytes to a policy.
use open_crate.Base.{
  ℕ, ◌+◌, ◌*◌, ◌^◌, ◌<◌, ◌≤◌, ◌≡◌, refl, ap, ◌∙◌, Bool, true, false, ◌||◌, ◌&&◌, ◌==◌, none, some,
  List, [], ◌∷◌, length, arith, ok, ◌>>=◌, fun_ext, length-append,
}
use open_crate.Format.Tlv.{TlvWriter, new_writer, put, field_u8}
use open_crate.Format.Tlv.Encoding.{
  Entry, encode_field, encode_fields, IsOrdered, length-encode_field,
}
use open_crate.Format.Tlv.Writer.{put_all, put_all_lem}
use open_crate.Format.Tlv.Loop.{fold_entries}
use open_crate.Format.Tlv.RoundTrip.{read_fields-encode_fields}
use open_crate.Policy.{Action, Policy}
use open_crate.Policy.Rules
use open_crate.Policy.Rules.{rule, is_allow, is_some}
use open_crate.Policy.Sets.{contains, contains-insert, IsIncreasing, insert-IsIncreasing}
use open_crate.Format.PolicyCodec.{rule_allow, tag_to_action, action_to_tag}
use open_crate.Format.PolicyCodec.Encode.{put_rules}
use open_crate.Format.PolicyCodec.Decode.{apply_rule, action_field, decode_actions}
use open_crate.Format.PolicyCodec.Maps.{IsMap, has, permits}

-- The fields of a map.
abbrev pub entries : List (ℕ × ℕ) → List Entry
entries [] = []
entries ((k, v) ∷ m) = (k, v ∷ []) ∷ entries m

put_rules_lem : (m : List (ℕ × ℕ)) (w : TlvWriter) → put_rules m w ≡ put_all w (entries m)
unfolding put_rules put_all
put_rules_lem [] w = refl
put_rules_lem ((k, v) ∷ m) w = ap (λ c. put w k (v ∷ []) >>= c) (fun_ext (λ w'. put_rules_lem m w'))

entries-IsOrdered : (m : List (ℕ × ℕ)) → IsMap m → IsOrdered none (entries m)
entries-IsOrdered [] i = tt
entries-IsOrdered ((k, v) ∷ []) (small, b, i) = (tt, (small, omega arith), tt)
entries-IsOrdered ((k, v) ∷ (k', v') ∷ m) (small, b, i) =
    let (_, entry, rest) = entries-IsOrdered ((k', v') ∷ m) i in
    (tt, (small, omega arith), (b, entry, rest))

length-entries : (m : List (ℕ × ℕ)) → length (encode_fields (entries m)) ≡ 7 * length m
unfolding encode_fields
length-entries [] = refl
length-entries ((k, v) ∷ m) = omega (
  arith,
  length-entries m,
  length-append (encode_field (k, v ∷ [])) (encode_fields (entries m)),
  length-encode_field k (v ∷ []),
)

-- A map has at most as many entries as there are 16-bit keys.
length_bound : (k v : ℕ) (m : List (ℕ × ℕ)) → IsMap ((k, v) ∷ m) → k + length m < 2 ^ 16
length_bound k v [] (small, b, i) = omega arith
length_bound k v ((k', v') ∷ m) (small, b, i) = omega (arith, length_bound k' v' m i)

length_map : (m : List (ℕ × ℕ)) → IsMap m → length m ≤ 2 ^ 16
length_map [] i = omega arith
length_map ((k, v) ∷ m) i = omega (arith, length_bound k v m i)

pub length-encode_entries :
    (m : List (ℕ × ℕ)) → IsMap m → length (encode_fields (entries m)) ≤ 7 * 2 ^ 16
length-encode_entries m i = omega (arith, length-entries m, length_map m i)

-- The rules that are written, in bytes.
pub put_rules-entries :
    (m : List (ℕ × ℕ))
    → IsMap m
    → (w : TlvWriter) × (put_rules m new_writer ≡ ok w) × (w.buf ≡ encode_fields (entries m))
put_rules-entries m i =
    let (w, written, bytes) =
      put_all_lem (entries m) (entries-IsOrdered m i) (omega (arith, length-encode_entries m i)) in
    (w, put_rules_lem m new_writer ∙ written, bytes)

-- The entries of a map, applied in order.
pub apply_rules : Policy → List (ℕ × ℕ) → Policy
apply_rules p [] = p
apply_rules p ((k, v) ∷ m) = apply_rules (apply_rule p k v) m

fold-action_field :
    (m : List (ℕ × ℕ)) (pos : ℕ) (p : Policy)
    → fold_entries action_field pos (entries m) p ≡ ok (apply_rules p m)
unfolding action_field field_u8 apply_rules
fold-action_field [] pos p = refl
fold-action_field ((k, v) ∷ m) pos p = fold-action_field m (pos + 6 + 1) (apply_rule p k v)

pub decode_actions-entries :
    (m : List (ℕ × ℕ)) (p : Policy)
    → IsMap m
    → decode_actions (encode_fields (entries m)) p ≡ ok (apply_rules p m)
unfolding decode_actions
decode_actions-entries m p i =
    read_fields-encode_fields action_field (entries m) p (entries-IsOrdered m i)
      (omega (arith, length-encode_entries m i))
    ∙ fold-action_field m 0 p

rule-apply_rule :
    (p : Policy) (a : Action) (k v : ℕ)
    → is_allow (rule (apply_rule p k v) a)
      ≡ (((action_to_tag a == k) && (v == rule_allow)) || is_allow (rule p a))
unfolding apply_rule rule tag_to_action Rules.insert
rule-apply_rule p a k v = ground arith

pub rule-apply_rules :
    (p : Policy) (a : Action) (m : List (ℕ × ℕ))
    → is_allow (rule (apply_rules p m) a) ≡ (permits (action_to_tag a) m || is_allow (rule p a))
unfolding apply_rules permits
rule-apply_rules p a [] = refl
rule-apply_rules p a ((k, v) ∷ m) =
    ground (arith, rule-apply_rules (apply_rule p k v) a m, rule-apply_rule p a k v)

abbrev pub is_unknown : ℕ → Bool
is_unknown tag = elim (tag_to_action tag) [ none ↦ true | some a ↦ false ]

unknown-apply_rule :
    (p : Policy) (x k v : ℕ)
    → contains x (apply_rule p k v).unknown_actions
      ≡ (((x == k) && is_unknown x) || contains x p.unknown_actions)
unfolding apply_rule
unknown-apply_rule p x k v = ground (arith, contains-insert x k p.unknown_actions)

pub unknown-apply_rules :
    (p : Policy) (x : ℕ) (m : List (ℕ × ℕ))
    → contains x (apply_rules p m).unknown_actions
      ≡ ((has x m && is_unknown x) || contains x p.unknown_actions)
unfolding apply_rules has
unknown-apply_rules p x [] = refl
unknown-apply_rules p x ((k, v) ∷ m) =
    ground (arith, unknown-apply_rules (apply_rule p k v) x m, unknown-apply_rule p x k v)

apply_rule-IsIncreasing :
    (p : Policy) (k v : ℕ)
    → IsIncreasing p.unknown_actions
    → IsIncreasing (apply_rule p k v).unknown_actions
unfolding apply_rule
apply_rule-IsIncreasing p k v i = ground (arith, insert-IsIncreasing k p.unknown_actions i)

pub apply_rules-IsIncreasing :
    (p : Policy) (m : List (ℕ × ℕ))
    → IsIncreasing p.unknown_actions
    → IsIncreasing (apply_rules p m).unknown_actions
unfolding apply_rules
apply_rules-IsIncreasing p [] i = i
apply_rules-IsIncreasing p ((k, v) ∷ m) i =
    apply_rules-IsIncreasing (apply_rule p k v) m (apply_rule-IsIncreasing p k v i)

-- Two policies that differ in their rules and unknown actions only.
pub record SameModifiers (p q : Policy) : Type 0 where
  pub validity : p.validity ≡ q.validity
  pub max_opens : p.max_opens ≡ q.max_opens
  pub network : p.network ≡ q.network
  pub min_binding : p.min_binding ≡ q.min_binding
  pub action_binding : p.action_binding ≡ q.action_binding
  pub watermark : p.watermark ≡ q.watermark

apply_rule-SameModifiers : (p : Policy) (k v : ℕ) → SameModifiers (apply_rule p k v) p
unfolding apply_rule
apply_rule-SameModifiers p k v = ground arith

SameModifiers-trans : (p q r : Policy) → SameModifiers p q → SameModifiers q r → SameModifiers p r
SameModifiers-trans p q r h k = record {
  validity = h.validity ∙ k.validity;
  max_opens = h.max_opens ∙ k.max_opens;
  network = h.network ∙ k.network;
  min_binding = h.min_binding ∙ k.min_binding;
  action_binding = h.action_binding ∙ k.action_binding;
  watermark = h.watermark ∙ k.watermark;
}

pub apply_rules-SameModifiers : (p : Policy) (m : List (ℕ × ℕ)) → SameModifiers (apply_rules p m) p
unfolding apply_rules
apply_rules-SameModifiers p [] = record {
  validity = refl;
  max_opens = refl;
  network = refl;
  min_binding = refl;
  action_binding = refl;
  watermark = refl;
}
apply_rules-SameModifiers p ((k, v) ∷ m) =
    SameModifiers-trans (apply_rules (apply_rule p k v) m) (apply_rule p k v) p
      (apply_rules-SameModifiers (apply_rule p k v) m) (apply_rule-SameModifiers p k v)
