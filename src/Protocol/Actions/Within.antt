-- ===== src/Protocol/Actions/Within.antt =====
-- `args_within` and `narrower` of crates/oc-protocol/src/action.rs.
use open_crate.Base.{
  ℕ, Bool, true, false, not, ◌&&◌, ◌||◌, Option, none, some, List, [], ◌∷◌, ltb, leb, ◌==◌,
  if◌then◌else◌, ok, err, ◌>>◌, fail_if,
}
use open_crate.Base.Bytes.{bytes_eq}
use open_crate.Format.{Parsed}
use open_crate.Protocol.Actions.{
  Text, Method, method_as_u8, Constraint, push_to, remove_under, rename_under, request_to,
  constraint_kind, kind_eq, ActionRule, Args, push, remove, rename, request, args_kind, Allowed,
  Limiter, remote_limit, branch_limit, prefix_limit, from_limit, to_limit, host_limit,
  methods_limit, path_limit, wrong_kind, not_equal, outside_prefix, bad_path, method_not_allowed,
  body_too_large, confirm_not_delegable, not_delegable, more_uses, wider_limiter,
  secret_ref_changed,
}
use open_crate.Protocol.Actions.Text.{
  check_tree_path, check_http_path, path_under, path_tag, path_prefix_tag, max_body_len,
}

-- `result.is_err()`
abbrev is_err : Parsed (Unit {0}) → Bool
is_err (ok checked) = false
is_err (err failure) = true

-- `methods.contains(method)`
unfoldable pub contains : List Method → Method → Bool
contains [] method = false
contains (m ∷ methods) method = (method_as_u8 m == method_as_u8 method) || contains methods method

unfoldable pub under_tree_prefix : Text → Text → Limiter → Allowed (Unit {0})
under_tree_prefix prefix path limiter =
    fail_if (is_err (check_tree_path path_tag path) || is_err (check_tree_path path_tag prefix))
      (bad_path limiter)
    >> fail_if (not (path_under prefix path)) (outside_prefix limiter)

-- The arms of `args_within`, in the order of its checks.
unfoldable pub constraint_within : Constraint → Args → Allowed (Unit {0})
constraint_within (push_to remote branch) (push want_remote want_branch) =
    fail_if (not (bytes_eq remote want_remote)) (not_equal remote_limit)
    >> fail_if (not (bytes_eq branch want_branch)) (not_equal branch_limit)
constraint_within (remove_under prefix) (remove path) = under_tree_prefix prefix path prefix_limit
constraint_within (rename_under from_prefix to_prefix) (rename from to) =
    under_tree_prefix from_prefix from from_limit >> under_tree_prefix to_prefix to to_limit
constraint_within (request_to host methods path_prefix secret_ref)
      (request want_host method path body_digest body_len) =
    fail_if (not (bytes_eq host want_host)) (not_equal host_limit)
    >> fail_if (not (contains methods method)) method_not_allowed
    >> fail_if
        (is_err (check_http_path path_prefix_tag path)
          || is_err (check_http_path path_prefix_tag path_prefix))
        (bad_path path_limit)
    >> fail_if (not (path_under path_prefix path)) (outside_prefix path_limit)
    >> fail_if (ltb max_body_len body_len) (body_too_large body_len)
constraint_within _ _ = err wrong_kind

unfoldable pub args_within : ActionRule → Args → Allowed (Unit {0})
args_within rule args =
    fail_if
      (not (kind_eq rule.kind (args_kind args))
        || not (kind_eq (constraint_kind rule.constraint) (args_kind args)))
      wrong_kind
    >> constraint_within rule.constraint args

-- `0` stands for no limit.
unfoldable pub uses_within : ℕ → ℕ → Bool
uses_within child parent = if parent == 0 then true else not (child == 0) && leb child parent

unfoldable pub narrower_prefix : Text → Text → Limiter → Allowed (Unit {0})
narrower_prefix parent child limiter =
    fail_if (not (path_under parent child)) (wider_limiter limiter)

-- `methods.iter().all(|m| parent_methods.contains(m))`
unfoldable pub all_contained : List Method → List Method → Bool
all_contained [] parent = true
all_contained (m ∷ methods) parent = contains parent m && all_contained methods parent

unfoldable pub narrower_secret : Option Text → Option Text → Allowed (Unit {0})
narrower_secret none parent = ok tt
narrower_secret (some mine) none = err secret_ref_changed
narrower_secret (some mine) (some theirs) = fail_if (not (bytes_eq mine theirs)) secret_ref_changed

-- The arms of `narrower`.
unfoldable pub narrower_constraint : Constraint → Constraint → Allowed (Unit {0})
narrower_constraint (push_to remote branch) (push_to parent_remote parent_branch) =
    fail_if (not (bytes_eq remote parent_remote)) (wider_limiter remote_limit)
    >> fail_if (not (bytes_eq branch parent_branch)) (wider_limiter branch_limit)
narrower_constraint (remove_under prefix) (remove_under parent_prefix) =
    narrower_prefix parent_prefix prefix prefix_limit
narrower_constraint (rename_under from_prefix to_prefix) (rename_under parent_from parent_to) =
    narrower_prefix parent_from from_prefix from_limit
    >> narrower_prefix parent_to to_prefix to_limit
narrower_constraint (request_to host methods path_prefix secret_ref)
      (request_to parent_host parent_methods parent_prefix parent_secret) =
    fail_if (not (bytes_eq host parent_host)) (wider_limiter host_limit)
    >> fail_if (not (all_contained methods parent_methods)) (wider_limiter methods_limit)
    >> narrower_prefix parent_prefix path_prefix path_limit
    >> narrower_secret secret_ref parent_secret
narrower_constraint _ _ = err wrong_kind

unfoldable pub narrower : ActionRule → ActionRule → Allowed (Unit {0})
narrower child parent =
    fail_if (not (kind_eq child.kind parent.kind)) wrong_kind
    >> fail_if parent.confirm confirm_not_delegable
    >> fail_if (not parent.delegable) not_delegable
    >> fail_if (not (uses_within child.max_uses parent.max_uses)) more_uses
    >> narrower_constraint child.constraint parent.constraint
