-- ===== src/Format/PolicyCodec/Absent.antt =====
-- `decode` of crates/oc-format/src/policy_codec.rs on a policy in which fields are absent.
use open_crate.Base.{
  ℕ, ◌^◌, ◌<◌, ◌≤◌, ◌≡◌, refl, sym, ◌∙◌, Bool, true, false, ◌||◌, ◌==◌, none, some, List, [], ◌∷◌,
  length, arith, ok, >>=-eq-ok, ◌+◌,
}
use open_crate.Base.Bytes.{IsBytes}
use open_crate.Format.Tlv.{read_fields}
use open_crate.Format.Tlv.Encoding.{Entry, encode_fields, IsOrdered}
use open_crate.Format.Tlv.Loop.{fold_entries, entry_field}
use open_crate.Format.Tlv.RoundTrip.{read_fields_iff}
use open_crate.Policy.{Policy}
use open_crate.Policy.Rules.{deny_all}
use open_crate.Format.PolicyCodec.Decode.{Decoding, start, decode_field, check_seen, decode}
use open_crate.Format.PolicyCodec.Rounds.{decode_field-Round}

-- A field with this tag is among the entries.
pub mentions : ℕ → List Entry → Bool
mentions k [] = false
mentions k ((tag, value) ∷ es) = tag == k || mentions k es

record Rounds (es : List Entry) (st st' : Decoding) : Type 0 where
  actions : st'.seen_actions ≡ (st.seen_actions || mentions 1 es)
  validity : st'.seen_validity ≡ (st.seen_validity || mentions 2 es)
  network : st'.seen_network ≡ (st.seen_network || mentions 3 es)
  binding : st'.seen_binding ≡ (st.seen_binding || mentions 4 es)
  action_binding : st'.seen_action_binding ≡ (st.seen_action_binding || mentions 7 es)
  opens : mentions 5 es ≡ false → st'.policy.max_opens ≡ st.policy.max_opens
  watermark : mentions 6 es ≡ false → st'.policy.watermark ≡ st.policy.watermark

or_assoc : (a b c x y : Bool) → b ≡ (a || x) → c ≡ (b || y) → c ≡ (a || (x || y))
or_assoc a b c x y h k = ground arith

or_false : (x y : Bool) → (x || y) ≡ false → (x ≡ false) × (y ≡ false)
or_false x y h = ground arith

fold-Rounds :
    (version : ℕ) (es : List Entry) (pos : ℕ) (st st' : Decoding)
    → fold_entries (decode_field version) pos es st ≡ ok st'
    → Rounds es st st'
unfolding mentions
fold-Rounds version [] pos st st' h =
    let is : st ≡ st' = ground arith in
    rw (sym is) (record {
      actions = ground arith;
      validity = ground arith;
      network = ground arith;
      binding = ground arith;
      action_binding = ground arith;
      opens = λ n. refl;
      watermark = λ n. refl;
    })
fold-Rounds version ((tag, value) ∷ es) pos st st' h =
    let (t, first, rest) = >>=-eq-ok (decode_field version st (entry_field pos tag value)) _ h in
    let one = decode_field-Round version st t (entry_field pos tag value) first in
    let more = fold-Rounds version es (pos + 6 + length value) t st' rest in
    record {
      actions = or_assoc _ _ _ (tag == 1) (mentions 1 es) one.actions more.actions;
      validity = or_assoc _ _ _ (tag == 2) (mentions 2 es) one.validity more.validity;
      network = or_assoc _ _ _ (tag == 3) (mentions 3 es) one.network more.network;
      binding = or_assoc _ _ _ (tag == 4) (mentions 4 es) one.binding more.binding;
      action_binding =
          or_assoc _ _ _ (tag == 7) (mentions 7 es) one.action_binding more.action_binding;
      opens = λ n. let (a, b) = or_false (tag == 5) (mentions 5 es) n in more.opens b ∙ one.opens a;
      watermark = λ n.
          let (a, b) = or_false (tag == 6) (mentions 6 es) n in more.watermark b ∙ one.watermark a;
    }

-- What `decode` promises of fields that are absent.
pub record Complete (version : ℕ) (p : Policy) (es : List Entry) : Type 0 where
  pub actions : mentions 1 es ≡ true
  pub validity : mentions 2 es ≡ true
  pub network : mentions 3 es ≡ true
  pub min_binding : mentions 4 es ≡ true
  pub opens : mentions 5 es ≡ false → p.max_opens ≡ some 1
  pub watermark : mentions 6 es ≡ false → p.watermark ≡ true
  pub action_binding : 4 ≤ version → mentions 7 es ≡ true

decode-parts :
    (version : ℕ) (bytes : List ℕ) (p : Policy)
    → decode version bytes ≡ ok p
    → (st : Decoding) × (read_fields (decode_field version) bytes start ≡ ok st)
      × (check_seen version st ≡ ok tt)
      × (st.policy ≡ p)
unfolding decode
decode-parts version bytes p h =
    let (st, read, checked) = >>=-eq-ok (read_fields (decode_field version) bytes start) _ h in
    (st, read, ground arith, ground arith)

Rounds-Complete :
    (version : ℕ) (st : Decoding) (es : List Entry)
    → check_seen version st ≡ ok tt
    → Rounds es start st
    → Complete version st.policy es
unfolding check_seen start deny_all
Rounds-Complete version st es h r = record {
  actions = ground (arith, r.actions);
  validity = ground (arith, r.validity);
  network = ground (arith, r.network);
  min_binding = ground (arith, r.binding);
  opens = r.opens;
  watermark = r.watermark;
  action_binding = λ since. ground (arith, r.action_binding, since);
}

-- What `decode` accepts, on fewer than 2^63 bytes of any kind, is the encoding of entries with increasing tags, in which
-- the fields for actions, validity, network and least binding are present, and from version 4 on that for
-- the levels of actions; if the open limit is absent, the policy permits one open, and if the watermark
-- is absent, the policy demands one.
pub decode-Complete :
    (version : ℕ) (bytes : List ℕ) (p : Policy)
    → IsBytes bytes
    → length bytes < 2 ^ 63
    → decode version bytes ≡ ok p
    → (es : List Entry) × (bytes ≡ encode_fields es) × IsOrdered none es × Complete version p es
decode-Complete version bytes p b small h =
    let (st, read, checked, is) = decode-parts version bytes p h in
    let (es, e, ord, folded) =
      (read_fields_iff (decode_field version) bytes start st b small).0 read in
    (
      es,
      e,
      ord,
      rw (sym is)
          (Rounds-Complete version st es checked (fold-Rounds version es 0 start st folded)),
    )
