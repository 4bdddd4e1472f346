-- ===== src/Format/PolicyCodec/Bindings.antt =====
-- The levels of the actions in crates/oc-format/src/policy_codec.rs, through the bytes to a policy.
use open_crate.Base.{
  ℕ, ◌+◌, ◌≡◌, refl, ap, sym, ◌∙◌, fun_ext, true, false, ◌==◌, none, List, [], ◌∷◌, length, arith,
  ok, ◌>>=◌, if◌then◌else◌, length-append, Bool-cases, ◌⊎◌, inl, inr, ◌*◌,
}
use open_crate.Format.Tlv.{TlvWriter, new_writer, put, field_u8}
use open_crate.Format.Tlv.Encoding.{
  Entry, encode_field, encode_fields, IsOrdered, length-encode_field,
}
use open_crate.Format.Tlv.Writer.{put_all, put_all_lem}
use open_crate.Format.Tlv.Loop.{fold_entries}
use open_crate.Format.Tlv.RoundTrip.{read_fields-encode_fields}
use open_crate.Policy.{Action, Policy, Binding, software, all_actions}
use open_crate.Policy.Rules
use open_crate.Policy.Rules.{software_or, level, same, eq_of_rank, eq_of_level}
use open_crate.Format.PolicyCodec.{
  action_to_tag, tag_to_action-action_to_tag, encode_binding, decode_binding-encode_binding,
}
use open_crate.Format.PolicyCodec.Encode.{put_levels}
use open_crate.Format.PolicyCodec.Decode.{apply_level, level_field, decode_action_binding}
use open_crate.Format.PolicyCodec.Maps.{member}

-- The level that a policy asks for an action itself.
abbrev pub own_level : Policy → Action → Binding
own_level p a = software_or (p.action_binding a)

abbrev pub levels : Policy → List Action → List Entry
levels p [] = []
levels p (a ∷ rest) = (action_to_tag a, encode_binding (own_level p a) ∷ []) ∷ levels p rest

put_levels_lem :
    (p : Policy) (actions : List Action) (w : TlvWriter)
    → put_levels p actions w ≡ put_all w (levels p actions)
unfolding put_levels put_all
put_levels_lem p [] w = refl
put_levels_lem p (a ∷ rest) w =
    ap (λ c. put w (action_to_tag a) (encode_binding (own_level p a) ∷ []) >>= c)
      (fun_ext (λ w'. put_levels_lem p rest w'))

levels-IsOrdered : (p : Policy) → IsOrdered none (levels p all_actions)
levels-IsOrdered p = ground arith

length-encode_some :
    (p : Policy) (actions : List Action)
    → length (encode_fields (levels p actions)) ≡ 7 * length actions
unfolding encode_fields
length-encode_some p [] = refl
length-encode_some p (a ∷ rest) =
    let field : Entry = (action_to_tag a, encode_binding (own_level p a) ∷ []) in
    omega (
      arith,
      length-encode_some p rest,
      length-append (encode_field field) (encode_fields (levels p rest)),
      length-encode_field (action_to_tag a) (encode_binding (own_level p a) ∷ []),
    )

pub length-encode_levels : (p : Policy) → length (encode_fields (levels p all_actions)) ≡ 42
length-encode_levels p = length-encode_some p all_actions

pub put_levels-levels :
    (p : Policy)
    → (w : TlvWriter) × (put_levels p all_actions new_writer ≡ ok w)
      × (w.buf ≡ encode_fields (levels p all_actions))
put_levels-levels p =
    let (w, written, bytes) =
      put_all_lem (levels p all_actions) (levels-IsOrdered p)
        (omega (arith, length-encode_levels p)) in
    (w, put_levels_lem p all_actions new_writer ∙ written, bytes)

-- The levels of `p` for the actions, put into `q` one by one.
pub apply_levels : Policy → Policy → List Action → Policy
apply_levels q p [] = q
apply_levels q p (a ∷ rest) = apply_levels (apply_level q (action_to_tag a) (own_level p a)) p rest

fold-level_field :
    (p : Policy) (actions : List Action) (pos : ℕ) (q : Policy)
    → fold_entries level_field pos (levels p actions) q ≡ ok (apply_levels q p actions)
unfolding level_field field_u8 apply_levels
fold-level_field p [] pos q = refl
fold-level_field p (a ∷ rest) pos q =
    rw (decode_binding-encode_binding (action_to_tag a) (own_level p a))
      (fold-level_field p rest (pos + 6 + 1) (apply_level q (action_to_tag a) (own_level p a)))

pub decode_action_binding-levels :
    (p q : Policy)
    → decode_action_binding (encode_fields (levels p all_actions)) q
      ≡ ok (apply_levels q p all_actions)
unfolding decode_action_binding
decode_action_binding-levels p q =
    read_fields-encode_fields level_field (levels p all_actions) q (levels-IsOrdered p)
      (omega (arith, length-encode_levels p))
    ∙ fold-level_field p all_actions 0 q

own_level-apply_level :
    (q : Policy) (a b : Action) (l : Binding)
    → own_level (apply_level q (action_to_tag b) l) a
      ≡ (if same a b then (if level l == 0 then own_level q a else l) else own_level q a)
unfolding apply_level Rules.insert
own_level-apply_level q a b l = rw (tag_to_action-action_to_tag b) (ground arith)

own_level-same :
    (p q : Policy) (a b : Action)
    → same a b ≡ true
    → (own_level q a ≡ own_level p a) ⊎ (own_level q a ≡ software)
    → own_level (apply_level q (action_to_tag b) (own_level p b)) a ≡ own_level p a
own_level-same p q a b s h =
    let ab : a ≡ b = eq_of_rank a b (ground arith) in
    own_level-apply_level q a b (own_level p b)
    ∙ rw (s, ab) (choose (own_level q b) (own_level p b) (rw (sym ab) h))
  where
    choose : (l k : Binding) → (l ≡ k) ⊎ (l ≡ software) → (if level k == 0 then l else k) ≡ k
    choose l k h = ground arith

own_level-other :
    (p q : Policy) (a b : Action)
    → same a b ≡ false
    → own_level (apply_level q (action_to_tag b) (own_level p b)) a ≡ own_level q a
own_level-other p q a b s = own_level-apply_level q a b (own_level p b) ∙ rw s refl

-- What is set already stays.
apply_levels_stays :
    (p q : Policy) (a : Action) (actions : List Action)
    → own_level q a ≡ own_level p a
    → own_level (apply_levels q p actions) a ≡ own_level p a
unfolding apply_levels
apply_levels_stays p q a [] h = h
apply_levels_stays p q a (b ∷ rest) h =
    let q' = apply_level q (action_to_tag b) (own_level p b) in
    apply_levels_stays p q' a rest (elim (Bool-cases (same a b)) [
      | inl s ↦ own_level-same p q a b s (inl h)
      | inr n ↦ own_level-other p q a b n ∙ h
    ])

apply_levels_sets :
    (p q : Policy) (a : Action) (actions : List Action)
    → own_level q a ≡ software
    → member a actions ≡ true
    → own_level (apply_levels q p actions) a ≡ own_level p a
unfolding apply_levels member
apply_levels_sets p q a [] h m = cc
apply_levels_sets p q a (b ∷ rest) h m =
    let q' = apply_level q (action_to_tag b) (own_level p b) in
    elim (Bool-cases (same a b)) [
      | inl s ↦ apply_levels_stays p q' a rest (own_level-same p q a b s (inr h))
      | inr n ↦ apply_levels_sets p q' a rest (own_level-other p q a b n ∙ h) (ground (arith, n, m))
    ]

pub own_level-apply_levels :
    (p q : Policy) (a : Action)
    → own_level q a ≡ software
    → own_level (apply_levels q p all_actions) a ≡ own_level p a
unfolding member
own_level-apply_levels p q a h = apply_levels_sets p q a all_actions h (ground arith)

-- Two policies that differ in the levels of their actions only.
pub record SameBesidesLevels (p q : Policy) : Type 0 where
  pub actions : p.actions ≡ q.actions
  pub validity : p.validity ≡ q.validity
  pub max_opens : p.max_opens ≡ q.max_opens
  pub network : p.network ≡ q.network
  pub min_binding : p.min_binding ≡ q.min_binding
  pub watermark : p.watermark ≡ q.watermark
  pub unknown : p.unknown_actions ≡ q.unknown_actions

apply_level-SameBesidesLevels :
    (q : Policy) (tag : ℕ) (l : Binding) → SameBesidesLevels (apply_level q tag l) q
unfolding apply_level
apply_level-SameBesidesLevels q tag l = ground arith

SameBesidesLevels-trans :
    (p q r : Policy) → SameBesidesLevels p q → SameBesidesLevels q r → SameBesidesLevels p r
SameBesidesLevels-trans p q r h k = record {
  actions = h.actions ∙ k.actions;
  validity = h.validity ∙ k.validity;
  max_opens = h.max_opens ∙ k.max_opens;
  network = h.network ∙ k.network;
  min_binding = h.min_binding ∙ k.min_binding;
  watermark = h.watermark ∙ k.watermark;
  unknown = h.unknown ∙ k.unknown;
}

pub apply_levels-SameBesidesLevels :
    (q p : Policy) (actions : List Action) → SameBesidesLevels (apply_levels q p actions) q
unfolding apply_levels
apply_levels-SameBesidesLevels q p [] = record {
  actions = refl;
  validity = refl;
  max_opens = refl;
  network = refl;
  min_binding = refl;
  watermark = refl;
  unknown = refl;
}
apply_levels-SameBesidesLevels q p (a ∷ rest) =
    let q' = apply_level q (action_to_tag a) (own_level p a) in
    SameBesidesLevels-trans (apply_levels q' p rest) q' q (apply_levels-SameBesidesLevels q' p rest)
      (apply_level-SameBesidesLevels q (action_to_tag a) (own_level p a))
