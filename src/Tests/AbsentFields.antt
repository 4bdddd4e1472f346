-- ===== src/Tests/AbsentFields.antt =====
-- crates/oc-format/src/policy_codec.rs on a policy without an open limit and a watermark.
use open_crate.Base.{ℕ, ◌≡◌, refl, true, none, some, List, [], ◌∷◌, ok, arith}
use open_crate.Base.Bytes.{slice, array, from_le}
use open_crate.Base.Words.{checked_add}
use open_crate.Format.Tlv.{
  new_reader, next_field, is_exhausted, read_field, check_order, prefix_number, each_field,
  read_fields, field_u8,
}
use open_crate.Format.Tlv.Encoding.{Entry, encode_fields, IsOrdered}
use open_crate.Policy.{Policy}
use open_crate.Policy.Rules.{deny_all}
use open_crate.Format.PolicyCodec.{decode_binding}
use open_crate.Format.PolicyCodec.Values.{decode_validity, decode_network, split_kind}
use open_crate.Format.PolicyCodec.Decode.{
  start, decode_field, take_actions, take_validity, take_network, take_min_binding, decode_actions,
  check_seen, decode,
}
use open_crate.Format.PolicyCodec.Absent.{Complete, decode-Complete}

-- No rules, always valid, strictly online, software binding.
abbrev four_fields : List ℕ
four_fields =
    1 ∷ 0 ∷ 0 ∷ 0 ∷ 0 ∷ 0 ∷ 2 ∷ 0 ∷ 1 ∷ 0 ∷ 0 ∷ 0 ∷ 1 ∷ 3 ∷ 0 ∷ 1 ∷ 0 ∷ 0 ∷ 0 ∷ 1 ∷ 4 ∷ 0 ∷ 1 ∷ 0
    ∷ 0 ∷ 0 ∷ 1 ∷ []

abbrev narrow_policy : Policy
narrow_policy = record deny_all { max_opens = some 1; watermark = true }

four_decoded : decode 1 four_fields ≡ ok narrow_policy
unfolding decode read_fields each_field new_reader next_field is_exhausted read_field check_order
    prefix_number slice array from_le checked_add decode_field take_actions take_validity
    take_network take_min_binding decode_actions decode_validity decode_network decode_binding
    split_kind field_u8 check_seen start deny_all
four_decoded = refl

decode-Complete_example :
    (es : List Entry) × (four_fields ≡ encode_fields es)
    × IsOrdered none es
    × Complete 1 narrow_policy es
decode-Complete_example =
    decode-Complete 1 four_fields narrow_policy (omega arith) (omega arith) four_decoded
