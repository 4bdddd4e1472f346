-- ===== src/Format/Footer.antt =====
-- crates/oc-format/src/footer.rs: the footer of a container, a timestamp in one field.
pub mod Decode
use open_crate.Base.{
  ℕ, ◌+◌, ◌*◌, ◌^◌, ◌<◌, ◌≤◌, ◌≡◌, refl, ap, sym, ◌∙◌, Bool, ◌||◌, ◌==◌, Option, none, some, List,
  [], ◌∷◌, ◌++◌, ltb, leb, length, ok, err, ◌>>=◌, ◌>>◌, fail_if, ok_or, arith, ◌↔◌, if◌then◌else◌,
}
use open_crate.Base.Bytes.{IsBytes}
use open_crate.Format.{Parsed, bad_field_length, missing_field, unknown_critical_field}
use open_crate.Format.Tlv.{
  Field, TlvWriter, new_writer, put, finish, read_fields, unknown_tag_action, refuse, ignore,
  UnknownTag,
}

-- `tag::TIMESTAMP`
abbrev timestamp_tag : ℕ
timestamp_tag = 1

abbrev pub max_footer_len : ℕ
max_footer_len = 32 * 1024

abbrev pub max_token_len : ℕ
max_token_len = 16 * 1024

pub record Footer : Type 0 where
  pub timestamp : List ℕ

-- `token.is_empty() || token.len() > MAX_TOKEN_LEN`
pub bad_token : List ℕ → Bool
bad_token token = (length token == 0) || ltb max_token_len (length token)

unfoldable pub encode : Footer → Parsed (List ℕ)
encode footer = do
  fail_if (bad_token footer.timestamp) (bad_field_length timestamp_tag (length footer.timestamp))
  w ← put new_writer timestamp_tag footer.timestamp
  ok (finish w)

-- The two branches of the loop of `decode`.
pub take_token : Field → Parsed (Option (List ℕ))
take_token f = do
  fail_if (bad_token f.value) (bad_field_length f.tag (length f.value))
  ok (some f.value)

pub skip_field : ℕ → Option (List ℕ) → Parsed (Option (List ℕ))
skip_field tag timestamp = elim (unknown_tag_action tag) as (λ _. Parsed (Option (List ℕ))) [
  | refuse ↦ err (unknown_critical_field tag)
  | ignore ↦ ok timestamp
]

unfoldable pub decode_field : Option (List ℕ) → Field → Parsed (Option (List ℕ))
decode_field timestamp f =
    if f.tag == timestamp_tag then take_token f else skip_field f.tag timestamp

unfoldable pub decode : List ℕ → Parsed Footer
decode bytes = do
  fail_if (ltb max_footer_len (length bytes)) (bad_field_length 0 (length bytes))
  found ← read_fields decode_field bytes none
  timestamp ← ok_or found (missing_field timestamp_tag)
  ok (record { timestamp = timestamp })
