-- ===== src/Protocol/Actions.antt =====
-- crates/oc-protocol/src/action.rs: kinds of actions, rules of a grant, arguments of an execution. A string is the
-- list of its bytes, in which the code counts and searches.
pub mod Text
pub mod Within
pub mod Narrowing
pub mod Paths
pub mod Decode
pub mod Grant
use open_crate.Base.{ℕ, ◌==◌, if◌then◌else◌, Bool, Option, List, Result, ok, err}
use open_crate.Format.{Parsed, bad_field_length}

abbrev pub Text : Type 0
Text = List ℕ

pub data ActionKind : Type 0 where
  git_push tree_remove tree_rename http_request : ActionKind

-- `ActionKind::as_u16` and `ActionKind::from_u16`
abbrev kind_as_u16 : ActionKind → ℕ
kind_as_u16 git_push = 1
kind_as_u16 tree_remove = 2
kind_as_u16 tree_rename = 3
kind_as_u16 http_request = 4

abbrev pub kind_from_u16 : ℕ → ℕ → Parsed ActionKind
kind_from_u16 value tag =
    if value == 1
    then ok git_push
    else if value == 2
    then ok tree_remove
    else if value == 3
    then ok tree_rename
    else if value == 4
    then ok http_request
    else err (bad_field_length tag 2)

abbrev pub kind_eq : ActionKind → ActionKind → Bool
kind_eq a b = kind_as_u16 a == kind_as_u16 b

pub data Method : Type 0 where
  get head post put patch delete : Method

-- `Method::as_u8` and `Method::from_u8`
abbrev pub method_as_u8 : Method → ℕ
method_as_u8 get = 1
method_as_u8 head = 2
method_as_u8 post = 3
method_as_u8 put = 4
method_as_u8 patch = 5
method_as_u8 delete = 6

abbrev pub method_from_u8 : ℕ → ℕ → Parsed Method
method_from_u8 value tag =
    if value == 1
    then ok get
    else if value == 2
    then ok head
    else if value == 3
    then ok post
    else if value == 4
    then ok put
    else if value == 5
    then ok patch
    else if value == 6
    then ok delete
    else err (bad_field_length tag 1)

-- `Constraint`
pub data Constraint : Type 0 where
  push_to : Text → Text → Constraint
  remove_under : Text → Constraint
  rename_under : Text → Text → Constraint
  request_to : Text → List Method → Text → Option Text → Constraint

-- `Constraint::kind`
abbrev pub constraint_kind : Constraint → ActionKind
constraint_kind (push_to remote branch) = git_push
constraint_kind (remove_under prefix) = tree_remove
constraint_kind (rename_under from_prefix to_prefix) = tree_rename
constraint_kind (request_to host methods path_prefix secret_ref) = http_request

pub record ActionRule : Type 0 where
  pub kind : ActionKind
  pub constraint : Constraint
  pub max_uses : ℕ
  pub confirm : Bool
  pub delegable : Bool

-- `Args`
pub data Args : Type 0 where
  push : Text → Text → Args
  remove : Text → Args
  rename : Text → Text → Args
  request : Text → Method → Text → List ℕ → ℕ → Args

-- `Args::kind`
abbrev pub args_kind : Args → ActionKind
args_kind (push remote branch) = git_push
args_kind (remove path) = tree_remove
args_kind (rename from to) = tree_rename
args_kind (request host method path body_digest body_len) = http_request

-- The names by which a refusal says what limit was passed.
pub data Limiter : Type 0 where
  remote_limit branch_limit prefix_limit from_limit to_limit host_limit methods_limit path_limit :
      Limiter

pub data ActionRefusal : Type 0 where
  wrong_kind : ActionRefusal
  not_equal : Limiter → ActionRefusal
  outside_prefix : Limiter → ActionRefusal
  bad_path : Limiter → ActionRefusal
  method_not_allowed : ActionRefusal
  body_too_large : ℕ → ActionRefusal
  confirm_not_delegable : ActionRefusal
  not_delegable : ActionRefusal
  more_uses : ActionRefusal
  wider_limiter : Limiter → ActionRefusal
  secret_ref_changed : ActionRefusal

abbrev pub Allowed {ℓ} : Type ℓ → Type ℓ
Allowed A = Result ActionRefusal A
