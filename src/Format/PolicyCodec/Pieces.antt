-- ===== src/Format/PolicyCodec/Pieces.antt =====
-- `encode` of crates/oc-format/src/policy_codec.rs in fields, and the loop of `decode` over them.
use open_crate.Base.{
  ℕ, ◌^◌, ◌<◌, ◌≡◌, refl, Bool, true, false, not, ◌==◌, none, List, [], ◌∷◌, ◌++◌, arith, ok, ◌>>=◌,
  if◌then◌else◌, All, leb,
}
use open_crate.Format.Tlv.{new_writer, field_u8}
use open_crate.Format.Tlv.Encoding.{Entry, encode_fields}
use open_crate.Format.Tlv.Writer.{put_all}
use open_crate.Format.Tlv.Loop.{fold_entries}
use open_crate.Policy.{Policy, all_actions}
use open_crate.Policy.Intersect.Order.{IsPolicy}
use open_crate.Format.PolicyCodec.{
  tag_to_action, encode_binding, decode_binding-encode_binding, first_action_binding_version,
}
use open_crate.Format.PolicyCodec.Values.{encode_validity, encode_network, encode_max_opens}
use open_crate.Format.PolicyCodec.Fields.{
  decode_validity-encode_validity, decode_network-encode_network, decode_max_opens-encode_max_opens,
  OpensInRange,
}
use open_crate.Format.PolicyCodec.Encode.{
  actions_by_tag, insert_unknown, put_action_binding, bool_byte, encode,
}
use open_crate.Format.PolicyCodec.Decode.{
  Decoding, start, decode_field, take_actions, take_validity, take_network, take_min_binding,
  take_max_opens, take_watermark,
}
use open_crate.Format.PolicyCodec.Maps.{IsMap, insert_unknown-IsMap, insert_rules-IsMap}
use open_crate.Format.PolicyCodec.Actions.{
  entries, put_rules-entries, apply_rules, decode_actions-entries,
}
use open_crate.Format.PolicyCodec.Bindings.{levels, put_levels-levels}

-- A policy that the types of the program allow, whose unknown actions are none that is known.
pub record IsEncodable (p : Policy) : Type 0 where
  pub ranges : IsPolicy p
  pub opens : OpensInRange p.max_opens
  pub tags : All (λ u. u < 2 ^ 16) p.unknown_actions
  pub unknown : All (λ u. tag_to_action u ≡ none) p.unknown_actions

-- The fields that every version writes, and the one of version 4.
unfoldable pub shared_fields : Policy → List Entry
shared_fields p =
    (1, encode_fields (entries (actions_by_tag p)))
    ∷ (2, encode_validity p.validity)
    ∷ (3, encode_network p.network)
    ∷ (4, encode_binding p.min_binding ∷ [])
    ∷ (5, encode_max_opens p.max_opens)
    ∷ (6, bool_byte p.watermark ∷ [])
    ∷ []

unfoldable pub level_fields : ℕ → Policy → List Entry
level_fields version p =
    if leb first_action_binding_version version
    then (7, encode_fields (levels p all_actions)) ∷ []
    else []

pub actions_by_tag-IsMap : (p : Policy) → IsEncodable p → IsMap (actions_by_tag p)
unfolding actions_by_tag
actions_by_tag-IsMap p h =
    insert_rules-IsMap p all_actions (insert_unknown p.unknown_actions [])
      (insert_unknown-IsMap p.unknown_actions [] h.tags tt)

pub encode_lem :
    (version : ℕ) (p : Policy)
    → IsEncodable p
    → encode version p
      ≡ (put_all new_writer (shared_fields p ++ level_fields version p) >>= λ w. ok w.buf)
unfolding encode put_action_binding put_all shared_fields level_fields
encode_lem version p h =
    let (w, written, bytes) = put_rules-entries (actions_by_tag p) (actions_by_tag-IsMap p h) in
    let (v, levels_written, levels_bytes) = put_levels-levels p in
    rw (written, levels_written, bytes, levels_bytes) (ground arith)

bool_byte_lem : (b : Bool) → not (bool_byte b == 0) ≡ b
bool_byte_lem true = refl
bool_byte_lem false = refl

-- The policy when the shared fields are read.
unfoldable pub read_back : Policy → Policy
read_back p = record (apply_rules start.policy (actions_by_tag p)) {
  validity = p.validity;
  network = p.network;
  min_binding = p.min_binding;
  max_opens = p.max_opens;
  watermark = p.watermark;
}

unfoldable pub after_shared : Policy → Decoding
after_shared p = record {
  policy = read_back p;
  seen_actions = true;
  seen_validity = true;
  seen_network = true;
  seen_binding = true;
  seen_action_binding = false;
}

start_unseen : start.seen_action_binding ≡ false
unfolding start
start_unseen = refl

pub fold-shared_fields :
    (version : ℕ) (p : Policy)
    → IsEncodable p
    → fold_entries (decode_field version) 0 (shared_fields p) start ≡ ok (after_shared p)
unfolding shared_fields decode_field take_actions take_validity take_network take_min_binding
    take_max_opens take_watermark field_u8 after_shared read_back
fold-shared_fields version p h =
    rw
      (
        decode_actions-entries (actions_by_tag p) start.policy (actions_by_tag-IsMap p h),
        decode_validity-encode_validity 2 p.validity h.ranges.validity,
        decode_network-encode_network 3 p.network h.ranges.network,
        decode_binding-encode_binding 4 p.min_binding,
        decode_max_opens-encode_max_opens 5 p.max_opens h.opens,
        bool_byte_lem p.watermark,
        start_unseen,
      )
      refl
