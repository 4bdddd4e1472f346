-- ===== src/Format/PolicyCodec/Assembled.antt =====
-- What `encode` of crates/oc-format/src/policy_codec.rs writes as a whole, and what `decode` makes of it.
use open_crate.Base.{
  ℕ, ◌^◌, ◌<◌, ◌≤◌, ◌≡◌, refl, ap, ◌∙◌, true, none, some, List, [], ◌∷◌, ◌++◌, length, arith, ok,
  if◌then◌else◌, leb, Bool-cases, inl, inr,
}
use open_crate.Format.Tlv.Encoding.{length-ordered, Entry, encode_fields, IsOrdered}
use open_crate.Format.Tlv.Writer.{put_all_lem}
use open_crate.Format.Tlv.Loop.{end_of, fold-append, fold_entries}
use open_crate.Format.Tlv.RoundTrip.{read_fields-encode_fields}
use open_crate.Policy.{Policy, all_actions}
use open_crate.Format.PolicyCodec.{first_action_binding_version}
use open_crate.Format.PolicyCodec.Fields.{
  length-encode_validity, length-encode_network, length-encode_max_opens,
}
use open_crate.Format.PolicyCodec.Encode.{actions_by_tag, encode}
use open_crate.Format.PolicyCodec.Decode.{
  Decoding, start, decode_field, take_action_binding, check_seen, decode,
}
use open_crate.Format.PolicyCodec.Actions.{length-encode_entries}
use open_crate.Format.PolicyCodec.Bindings.{
  levels, length-encode_levels, apply_levels, decode_action_binding-levels,
}
use open_crate.Format.PolicyCodec.Pieces.{
  IsEncodable, shared_fields, level_fields, actions_by_tag-IsMap, encode_lem, read_back,
  after_shared, fold-shared_fields,
}

pub fields : ℕ → Policy → List Entry
fields version p = shared_fields p ++ level_fields version p

-- What the loop of `decode` has, when all fields are read.
unfoldable pub after_all : ℕ → Policy → Decoding
after_all version p =
    if leb first_action_binding_version version
    then record (after_shared p) {
      policy = apply_levels (read_back p) p all_actions;
      seen_action_binding = true;
    }
    else after_shared p

fold-level_fields :
    (version : ℕ) (p : Policy) (pos : ℕ)
    → fold_entries (decode_field version) pos (level_fields version p) (after_shared p)
      ≡ ok (after_all version p)
unfolding level_fields after_all decode_field take_action_binding after_shared
fold-level_fields version p pos = elim (Bool-cases (leb first_action_binding_version version)) [
  | inl since ↦ ground (arith, since, decode_action_binding-levels p (read_back p))
  | inr before ↦ rw before refl
]

shared-IsOrdered :
    (p : Policy) (more : List Entry)
    → IsEncodable p
    → IsOrdered (some 6) more
    → IsOrdered none (shared_fields p ++ more)
unfolding shared_fields
shared-IsOrdered p more h ord =
    let actions = length-encode_entries (actions_by_tag p) (actions_by_tag-IsMap p h) in
    let validity = length-encode_validity p.validity in
    let network = length-encode_network p.network in
    let opens = length-encode_max_opens p.max_opens in
    (
      tt,
      (omega arith, omega arith),
      (
        omega arith,
        (omega arith, omega arith),
        (
          omega arith,
          (omega arith, omega arith),
          (
            omega arith,
            (omega arith, omega arith),
            (
              omega arith,
              (omega arith, omega arith),
              (omega arith, (omega arith, omega arith), ord),
            ),
          ),
        ),
      ),
    )

fields-IsOrdered : (version : ℕ) (p : Policy) → IsEncodable p → IsOrdered none (fields version p)
unfolding fields level_fields
fields-IsOrdered version p h =
    let size = length-encode_levels p in
    elim (Bool-cases (leb first_action_binding_version version)) [
      | inl since ↦ rw since (
          shared-IsOrdered p ((7, encode_fields (levels p all_actions)) ∷ []) h
            (omega arith, (omega arith, omega arith), tt))
      | inr before ↦ rw before (shared-IsOrdered p [] h tt)
    ]

length-fields_le : (version : ℕ) (p : Policy) → length (fields version p) ≤ 7
unfolding fields shared_fields level_fields
length-fields_le version p = elim (Bool-cases (leb first_action_binding_version version)) [
  | inl since ↦ rw since (omega arith)
  | inr before ↦ rw before (omega arith)
]

length-fields :
    (version : ℕ) (p : Policy) → IsEncodable p → length (encode_fields (fields version p)) < 2 ^ 63
length-fields version p h = omega (
  arith,
  length-ordered (fields version p) none (fields-IsOrdered version p h),
  length-fields_le version p,
)

pub encode-bytes :
    (version : ℕ) (p : Policy)
    → IsEncodable p
    → encode version p ≡ ok (encode_fields (fields version p))
unfolding fields
encode-bytes version p h =
    let (w, written, bytes) =
      put_all_lem (fields version p) (fields-IsOrdered version p h) (length-fields version p h) in
    encode_lem version p h ∙ rw written (ap ok bytes)

check_seen-after_all : (version : ℕ) (p : Policy) → check_seen version (after_all version p) ≡ ok tt
unfolding check_seen after_all after_shared
check_seen-after_all version p = elim (Bool-cases (leb first_action_binding_version version)) [
  | inl since ↦ rw since refl
  | inr before ↦ rw before refl
]

pub decode-fields :
    (version : ℕ) (p : Policy)
    → IsEncodable p
    → decode version (encode_fields (fields version p)) ≡ ok (after_all version p).policy
unfolding decode fields
decode-fields version p h =
    let read =
      read_fields-encode_fields (decode_field version) (fields version p) start
        (fields-IsOrdered version p h) (length-fields version p h)
      ∙ fold-append (decode_field version) (shared_fields p) (level_fields version p) 0 start
          (after_shared p) (fold-shared_fields version p h)
      ∙ fold-level_fields version p (end_of 0 (shared_fields p)) in
    rw (read, check_seen-after_all version p) refl
