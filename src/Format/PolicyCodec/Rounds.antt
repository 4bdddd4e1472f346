-- ===== src/Format/PolicyCodec/Rounds.antt =====
-- What one round of the loop of `decode` of crates/oc-format/src/policy_codec.rs does, for each field.
use open_crate.Base.{
  ℕ, zero, suc, ◌≡◌, ap, sym, ◌∙◌, Bool, true, false, not, ◌||◌, ◌==◌, Option, none, some, List,
  length, arith, ok, Bool-cases, ==_iff, inl, inr, Result-cases, >>=-eq-ok,
}
use open_crate.Format.{Parsed}
use open_crate.Format.Tlv.{
  Field, TlvReader, new_reader, next_field, each_field, read_fields, field_u8,
}
use open_crate.Policy.{Policy, Binding}
use open_crate.Format.PolicyCodec.{decode_binding}
use open_crate.Format.PolicyCodec.Values.{decode_validity, decode_network, decode_max_opens}
use open_crate.Format.PolicyCodec.Decode.{
  Decoding, decode_field, take_actions, take_validity, take_network, take_min_binding,
  take_max_opens, take_watermark, take_action_binding, decode_actions, decode_action_binding,
  action_field, apply_rule, level_field, apply_level,
}

-- A loop keeps what its body keeps.
module _ {S X : Type 0} (body : S → Field → Parsed S) (view : S → X)
    (keeps : (s : S) (f : Field) (s' : S) → body s f ≡ ok s' → view s' ≡ view s) where
  each_field_keeps :
      (fuel : ℕ) (r : TlvReader) (s s' : S) → each_field body fuel r s ≡ ok s' → view s' ≡ view s
  unfolding each_field
  each_field_keeps zero r s s' h = cc
  each_field_keeps (suc fuel) r s s' h = elim (Result-cases (next_field r)) [
    | inr (x, e) ↦ absurd (ground (arith, e))
    | inl ((none, r'), e) ↦ ap view (ground (arith, e))
    | inl ((some f, r'), e) ↦ elim (Result-cases (body s f)) [
      | inr (x, b) ↦ absurd (ground (arith, e, b))
      | inl (t, b) ↦ each_field_keeps fuel r' t s' (ground (arith, e, b)) ∙ keeps s f t b
    ]
  ]

  read_fields_keeps : (buf : List ℕ) (s s' : S) → read_fields body buf s ≡ ok s' → view s' ≡ view s
  unfolding read_fields
  read_fields_keeps buf s s' h = each_field_keeps (suc (length buf)) (new_reader buf) s s' h

-- The open limit and the watermark of a policy.
abbrev modifiers : Policy → Option ℕ × Bool
modifiers p = (p.max_opens, p.watermark)

apply_rule_keeps : (p : Policy) (tag byte : ℕ) → modifiers (apply_rule p tag byte) ≡ modifiers p
unfolding apply_rule
apply_rule_keeps p tag byte = ground arith

apply_level_keeps :
    (p : Policy) (tag : ℕ) (b : Binding) → modifiers (apply_level p tag b) ≡ modifiers p
unfolding apply_level
apply_level_keeps p tag b = ground arith

action_field_keeps :
    (p : Policy) (f : Field) (q : Policy) → action_field p f ≡ ok q → modifiers q ≡ modifiers p
unfolding action_field
action_field_keeps p f q h =
    let (byte, e, made) = >>=-eq-ok (field_u8 f) _ h in
    let is : apply_rule p f.tag byte ≡ q = ground arith in
    ap modifiers (sym is) ∙ apply_rule_keeps p f.tag byte

level_field_keeps :
    (p : Policy) (f : Field) (q : Policy) → level_field p f ≡ ok q → modifiers q ≡ modifiers p
unfolding level_field
level_field_keeps p f q h =
    let (byte, e, made) = >>=-eq-ok (field_u8 f) _ h in
    let (b, e', made') = >>=-eq-ok (decode_binding f.tag byte) _ made in
    let is : apply_level p f.tag b ≡ q = ground arith in
    ap modifiers (sym is) ∙ apply_level_keeps p f.tag b

decode_actions_keeps :
    (bytes : List ℕ) (p q : Policy) → decode_actions bytes p ≡ ok q → modifiers q ≡ modifiers p
unfolding decode_actions
decode_actions_keeps bytes p q h =
    read_fields_keeps action_field modifiers action_field_keeps bytes p q h

decode_action_binding_keeps :
    (bytes : List ℕ) (p q : Policy)
    → decode_action_binding bytes p ≡ ok q
    → modifiers q ≡ modifiers p
unfolding decode_action_binding
decode_action_binding_keeps bytes p q h =
    read_fields_keeps level_field modifiers level_field_keeps bytes p q h

-- What one round of the loop of `decode` does to its variables.
pub record Round (tag : ℕ) (st st' : Decoding) : Type 0 where
  pub actions : st'.seen_actions ≡ (st.seen_actions || tag == 1)
  pub validity : st'.seen_validity ≡ (st.seen_validity || tag == 2)
  pub network : st'.seen_network ≡ (st.seen_network || tag == 3)
  pub binding : st'.seen_binding ≡ (st.seen_binding || tag == 4)
  pub action_binding : st'.seen_action_binding ≡ (st.seen_action_binding || tag == 7)
  pub opens : (tag == 5) ≡ false → st'.policy.max_opens ≡ st.policy.max_opens
  pub watermark : (tag == 6) ≡ false → st'.policy.watermark ≡ st.policy.watermark

take_actions-Round : (st st' : Decoding) (f : Field) → take_actions st f ≡ ok st' → Round 1 st st'
unfolding take_actions
take_actions-Round st st' f h =
    let (q, e, made) = >>=-eq-ok (decode_actions f.value st.policy) _ h in
    let is : record st { policy = q; seen_actions = true } ≡ st' = ground arith in
    let kept = decode_actions_keeps f.value st.policy q e in
    rw (sym is) (record {
      actions = ground arith;
      validity = ground arith;
      network = ground arith;
      binding = ground arith;
      action_binding = ground arith;
      opens = λ n. ground (arith, n);
      watermark = λ n. ground (arith, n);
    })

take_validity-Round : (st st' : Decoding) (f : Field) → take_validity st f ≡ ok st' → Round 2 st st'
unfolding take_validity
take_validity-Round st st' f h =
    let (q, e, made) = >>=-eq-ok (decode_validity f.tag f.value) _ h in
    let is : record st { policy = record st.policy { validity = q }; seen_validity = true } ≡ st' =
      ground arith in
    rw (sym is) (record {
      actions = ground arith;
      validity = ground arith;
      network = ground arith;
      binding = ground arith;
      action_binding = ground arith;
      opens = λ n. ground (arith, n);
      watermark = λ n. ground (arith, n);
    })

take_network-Round : (st st' : Decoding) (f : Field) → take_network st f ≡ ok st' → Round 3 st st'
unfolding take_network
take_network-Round st st' f h =
    let (q, e, made) = >>=-eq-ok (decode_network f.tag f.value) _ h in
    let is : record st { policy = record st.policy { network = q }; seen_network = true } ≡ st' =
      ground arith in
    rw (sym is) (record {
      actions = ground arith;
      validity = ground arith;
      network = ground arith;
      binding = ground arith;
      action_binding = ground arith;
      opens = λ n. ground (arith, n);
      watermark = λ n. ground (arith, n);
    })

take_max_opens-Round :
    (st st' : Decoding) (f : Field) → take_max_opens st f ≡ ok st' → Round 5 st st'
unfolding take_max_opens
take_max_opens-Round st st' f h =
    let (q, e, made) = >>=-eq-ok (decode_max_opens f.tag f.value) _ h in
    let is : record st { policy = record st.policy { max_opens = q } } ≡ st' = ground arith in
    rw (sym is) (record {
      actions = ground arith;
      validity = ground arith;
      network = ground arith;
      binding = ground arith;
      action_binding = ground arith;
      opens = λ n. ground (arith, n);
      watermark = λ n. ground (arith, n);
    })

take_watermark-Round :
    (st st' : Decoding) (f : Field) → take_watermark st f ≡ ok st' → Round 6 st st'
unfolding take_watermark
take_watermark-Round st st' f h =
    let (q, e, made) = >>=-eq-ok (field_u8 f) _ h in
    let is : record st { policy = record st.policy { watermark = not (q == 0) } } ≡ st' =
      ground arith in
    rw (sym is) (record {
      actions = ground arith;
      validity = ground arith;
      network = ground arith;
      binding = ground arith;
      action_binding = ground arith;
      opens = λ n. ground (arith, n);
      watermark = λ n. ground (arith, n);
    })

take_action_binding-Round :
    (st st' : Decoding) (f : Field) → take_action_binding st f ≡ ok st' → Round 7 st st'
unfolding take_action_binding
take_action_binding-Round st st' f h =
    let (q, e, made) = >>=-eq-ok (decode_action_binding f.value st.policy) _ h in
    let is : record st { policy = q; seen_action_binding = true } ≡ st' = ground arith in
    let kept = decode_action_binding_keeps f.value st.policy q e in
    rw (sym is) (record {
      actions = ground arith;
      validity = ground arith;
      network = ground arith;
      binding = ground arith;
      action_binding = ground arith;
      opens = λ n. ground (arith, n);
      watermark = λ n. ground (arith, n);
    })

take_min_binding-Round :
    (st st' : Decoding) (f : Field) → take_min_binding st f ≡ ok st' → Round 4 st st'
unfolding take_min_binding
take_min_binding-Round st st' f h =
    let (byte, e, made) = >>=-eq-ok (field_u8 f) _ h in
    let (b, e', made') = >>=-eq-ok (decode_binding f.tag byte) _ made in
    let is : record st { policy = record st.policy { min_binding = b }; seen_binding = true }
        ≡ st' =
      ground arith in
    rw (sym is) (record {
      actions = ground arith;
      validity = ground arith;
      network = ground arith;
      binding = ground arith;
      action_binding = ground arith;
      opens = λ n. ground (arith, n);
      watermark = λ n. ground (arith, n);
    })

at_tag : (tag n : ℕ) (st st' : Decoding) → (tag == n) ≡ true → Round n st st' → Round tag st st'
at_tag tag n st st' e r = rw ((==_iff tag n).0 e) r

pub decode_field-Round :
    (version : ℕ) (st st' : Decoding) (f : Field)
    → decode_field version st f ≡ ok st'
    → Round f.tag st st'
unfolding decode_field
decode_field-Round version st st' f h = elim (Bool-cases (f.tag == 1)) [
  | inl e ↦ at_tag f.tag 1 st st' e (take_actions-Round st st' f (ground (arith, e)))
  | inr n1 ↦ elim (Bool-cases (f.tag == 2)) [
    | inl e ↦ at_tag f.tag 2 st st' e (take_validity-Round st st' f (ground (arith, e, n1)))
    | inr n2 ↦ elim (Bool-cases (f.tag == 3)) [
      | inl e ↦ at_tag f.tag 3 st st' e (take_network-Round st st' f (ground (arith, e, n1, n2)))
      | inr n3 ↦ elim (Bool-cases (f.tag == 4)) [
        | inl e ↦ at_tag f.tag 4 st st' e (take_min_binding-Round st st' f (ground (arith, e)))
        | inr n4 ↦ elim (Bool-cases (f.tag == 5)) [
          | inl e ↦ at_tag f.tag 5 st st' e (take_max_opens-Round st st' f (ground (arith, e)))
          | inr n5 ↦ elim (Bool-cases (f.tag == 6)) [
            | inl e ↦ at_tag f.tag 6 st st' e (take_watermark-Round st st' f (ground (arith, e)))
            | inr n6 ↦ elim (Bool-cases (f.tag == 7)) [
              | inl e ↦
                  at_tag f.tag 7 st st' e (take_action_binding-Round st st' f (ground (arith, e)))
              | inr n7 ↦ absurd (ground (arith, n1, n2, n3, n4, n5, n6, n7))
            ]
          ]
        ]
      ]
    ]
  ]
]
