-- ===== src/Protocol/Actions/Text.antt =====
-- The shape of text fields in crates/oc-protocol/src/action.rs.
use open_crate.Base.{
  ℕ, ◌*◌, Bool, true, false, not, ◌&&◌, ◌||◌, Option, none, some, List, [], ◌∷◌, ltb, leb, ◌==◌,
  if◌then◌else◌, length, ok, err, ◌>>◌, fail_if,
}
use open_crate.Base.Bytes.{bytes_eq}
use open_crate.Format.{Parsed, bad_field_length, bad_address_byte, fields_out_of_order}
use open_crate.Protocol.Actions.{
  Text, Method, method_as_u8, Constraint, push_to, remove_under, rename_under, request_to,
  constraint_kind, kind_eq, ActionRule, Args, push, remove, rename, request,
}

abbrev max_action_name : ℕ
max_action_name = 128

abbrev pub max_action_path : ℕ
max_action_path = 512

abbrev pub max_body_len : ℕ
max_body_len = 1024 * 1024

-- The tags `field_tag`.
abbrev pub remote_tag : ℕ
remote_tag = 1

abbrev pub branch_tag : ℕ
branch_tag = 2

abbrev pub path_tag : ℕ
path_tag = 3

abbrev pub from_tag : ℕ
from_tag = 4

abbrev pub to_tag : ℕ
to_tag = 5

abbrev pub host_tag : ℕ
host_tag = 6

abbrev pub methods_tag : ℕ
methods_tag = 7

abbrev pub path_prefix_tag : ℕ
path_prefix_tag = 8

abbrev pub secret_ref_tag : ℕ
secret_ref_tag = 9

abbrev body_digest_tag : ℕ
body_digest_tag = 10

abbrev body_len_tag : ℕ
body_len_tag = 11

-- ASCII classes of bytes.
abbrev is_digit : ℕ → Bool
is_digit c = leb 48 c && leb c 57

abbrev is_upper : ℕ → Bool
is_upper c = leb 65 c && leb c 90

abbrev is_lower : ℕ → Bool
is_lower c = leb 97 c && leb c 122

unfoldable pub name_char_ok : ℕ → Bool
name_char_ok c = is_digit c || is_upper c || is_lower c || (c == 45) || (c == 95) || (c == 46)

-- `text.bytes().find(|b| !allowed(b))`
unfoldable pub find_other : (ℕ → Bool) → Text → Option ℕ
find_other allowed [] = none
find_other allowed (c ∷ text) = if allowed c then find_other allowed text else some c

-- `text.split(separator)`
abbrev onto_first : ℕ → List Text → List Text
onto_first c [] = (c ∷ []) ∷ []
onto_first c (part ∷ parts) = (c ∷ part) ∷ parts

unfoldable pub split_on : ℕ → Text → List Text
split_on separator [] = [] ∷ []
split_on separator (c ∷ text) =
    let parts = split_on separator text in if c == separator then [] ∷ parts else onto_first c parts

abbrev pub is_empty : Text → Bool
is_empty [] = true
is_empty (c ∷ text) = false

abbrev starts_with : ℕ → Text → Bool
starts_with first [] = false
starts_with first (c ∷ text) = c == first

abbrev ends_with : ℕ → Text → Bool
ends_with last [] = false
ends_with last (c ∷ []) = c == last
ends_with last (c ∷ d ∷ text) = ends_with last (d ∷ text)

-- A length and an alphabet.
unfoldable pub check_alphabet : (ℕ → Bool) → ℕ → ℕ → Text → Parsed (Unit {0})
check_alphabet allowed tag limit text =
    fail_if (is_empty text || ltb limit (length text)) (bad_field_length tag (length text))
    >> elim (find_other allowed text) [ none ↦ ok tt | some byte ↦ err (bad_address_byte tag byte) ]

unfoldable pub check_name : ℕ → Text → Parsed (Unit {0})
check_name tag text =
    check_alphabet name_char_ok tag max_action_name text
    >> fail_if (starts_with 45 text) (bad_address_byte tag 45)

abbrev bad_label : Text → Bool
bad_label label = is_empty label || starts_with 45 label || ends_with 45 label

unfoldable pub check_labels : ℕ → List Text → Parsed (Unit {0})
check_labels tag [] = ok tt
check_labels tag (label ∷ labels) =
    fail_if (bad_label label) (bad_address_byte tag 46) >> check_labels tag labels

abbrev host_char_ok : ℕ → Bool
host_char_ok c = is_lower c || is_digit c || (c == 45) || (c == 46)

unfoldable pub check_host : ℕ → Text → Parsed (Unit {0})
check_host tag text =
    check_alphabet host_char_ok tag max_action_name text >> check_labels tag (split_on 46 text)

abbrev secret_char_ok : ℕ → Bool
secret_char_ok c = is_upper c || is_digit c || (c == 95)

unfoldable pub check_secret_ref : ℕ → Text → Parsed (Unit {0})
check_secret_ref tag text = check_alphabet secret_char_ok tag max_action_name text

abbrev pub dot : Text
dot = 46 ∷ []

abbrev pub dot_dot : Text
dot_dot = 46 ∷ 46 ∷ []

-- `check_path_parts`
abbrev bad_part : Text → Bool
bad_part part = is_empty part || bytes_eq part dot || bytes_eq part dot_dot

unfoldable pub check_parts : ℕ → List Text → Parsed (Unit {0})
check_parts tag [] = ok tt
check_parts tag (part ∷ parts) =
    fail_if (bad_part part) (bad_address_byte tag 46) >> check_parts tag parts

unfoldable pub check_path_parts : ℕ → Text → Parsed (Unit {0})
check_path_parts tag text = check_parts tag (split_on 47 text)

abbrev pub tree_char_ok : ℕ → Bool
tree_char_ok c = name_char_ok c || (c == 47)

unfoldable pub check_tree_path : ℕ → Text → Parsed (Unit {0})
check_tree_path tag text =
    check_alphabet tree_char_ok tag max_action_path text
    >> fail_if (starts_with 47 text) (bad_address_byte tag 47)
    >> check_path_parts tag text

abbrev http_char_ok : ℕ → Bool
http_char_ok c = name_char_ok c || (c == 47) || (c == 126) || (c == 37)

-- What `check_http_path` does after the alphabet: `strip_prefix('/')` and the parts.
abbrev check_below_root : ℕ → Text → Parsed (Unit {0})
check_below_root tag [] = err (bad_address_byte tag 47)
check_below_root tag (c ∷ rest) =
    fail_if (not (c == 47)) (bad_address_byte tag 47)
    >> (if is_empty rest then ok tt else check_path_parts tag rest)

unfoldable pub check_http_path : ℕ → Text → Parsed (Unit {0})
check_http_path tag text =
    check_alphabet http_char_ok tag max_action_path text >> check_below_root tag text

-- `components`, and `path_under`
unfoldable pub nonempty_parts : List Text → List Text
nonempty_parts [] = []
nonempty_parts (part ∷ parts) =
    if is_empty part then nonempty_parts parts else part ∷ nonempty_parts parts

unfoldable pub components : Text → List Text
components path = nonempty_parts (split_on 47 path)

unfoldable pub begins_with : List Text → List Text → Bool
begins_with [] got = true
begins_with (want ∷ wanted) [] = false
begins_with (want ∷ wanted) (part ∷ got) = bytes_eq part want && begins_with wanted got

unfoldable pub path_under : Text → Text → Bool
path_under prefix path = begins_with (components prefix) (components path)

-- `check_methods`: not empty, and strictly ascending.
unfoldable pub check_ascending : List Method → Parsed (Unit {0})
check_ascending [] = ok tt
check_ascending (a ∷ []) = ok tt
check_ascending (a ∷ b ∷ rest) =
    fail_if (leb (method_as_u8 b) (method_as_u8 a))
      (fields_out_of_order (method_as_u8 a) (method_as_u8 b))
    >> check_ascending (b ∷ rest)

abbrev no_methods : List Method → Bool
no_methods [] = true
no_methods (m ∷ methods) = false

unfoldable pub check_methods : ℕ → List Method → Parsed (Unit {0})
check_methods tag methods =
    fail_if (no_methods methods) (bad_field_length tag 0) >> check_ascending methods

abbrev check_secret : Option Text → Parsed (Unit {0})
check_secret none = ok tt
check_secret (some reference) = check_secret_ref secret_ref_tag reference

unfoldable pub check_constraint_shape : Constraint → Parsed (Unit {0})
check_constraint_shape (push_to remote branch) =
    check_name remote_tag remote >> check_tree_path branch_tag branch
check_constraint_shape (remove_under prefix) = check_tree_path path_tag prefix
check_constraint_shape (rename_under from_prefix to_prefix) =
    check_tree_path from_tag from_prefix >> check_tree_path to_tag to_prefix
check_constraint_shape (request_to host methods path_prefix secret_ref) =
    check_host host_tag host
    >> check_methods methods_tag methods
    >> check_http_path path_prefix_tag path_prefix
    >> check_secret secret_ref

unfoldable check_args_shape : Args → Parsed (Unit {0})
check_args_shape (push remote branch) =
    check_name remote_tag remote >> check_tree_path branch_tag branch
check_args_shape (remove path) = check_tree_path path_tag path
check_args_shape (rename from to) = check_tree_path from_tag from >> check_tree_path to_tag to
check_args_shape (request host method path body_digest body_len) =
    check_host host_tag host
    >> check_http_path path_prefix_tag path
    >> fail_if (ltb max_body_len body_len) (bad_field_length body_len_tag body_len)

unfoldable pub check_rule_shape : ActionRule → Parsed (Unit {0})
check_rule_shape rule =
    fail_if (not (kind_eq rule.kind (constraint_kind rule.constraint))) (bad_field_length 1 2)
    >> check_constraint_shape rule.constraint
