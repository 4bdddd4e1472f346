-- ===== src/Protocol/Actions/Narrowing.antt =====
-- What `narrower` of crates/oc-protocol/src/action.rs promises: a delegated rule allows nothing that its parent does not.
use open_crate.Base.{
  ℕ, Bool, true, ◌≡◌, refl, sym, ◌∙◌, Option, none, some, List, [], ◌∷◌, ok, arith, inl, inr, ◌⊎◌,
}
use open_crate.Base.Bytes.{bytes_eq, bytes_eq_iff}
use open_crate.Protocol.Actions.{
  Text, Method, method_as_u8, Constraint, push_to, remove_under, rename_under, request_to,
  ActionRule, Args, push, remove, rename, request, Limiter, from_limit, to_limit, path_limit,
}
use open_crate.Protocol.Actions.Text.{
  check_alphabet, check_parts, check_path_parts, split_on, tree_char_ok, max_action_path,
  check_tree_path, path_under, begins_with, check_constraint_shape, check_rule_shape, components,
  path_tag, from_tag, to_tag,
}
use open_crate.Protocol.Actions.Within.{
  contains, under_tree_prefix, constraint_within, args_within, uses_within, narrower_prefix,
  all_contained, narrower_secret, narrower_constraint, narrower,
}

begins_with_trans :
    (a b c : List Text) → begins_with a b ≡ true → begins_with b c ≡ true → begins_with a c ≡ true
unfolding begins_with
begins_with_trans [] b c h k = refl
begins_with_trans (x ∷ a) [] c h k = cc
begins_with_trans (x ∷ a) (y ∷ b) [] h k = cc
begins_with_trans (x ∷ a) (y ∷ b) (z ∷ c) h k =
    let rest = begins_with_trans a b c (ground (arith, h)) (ground (arith, k)) in
    let first : y ≡ x = (bytes_eq_iff y x).0 (ground (arith, h)) in
    let second : z ≡ y = (bytes_eq_iff z y).0 (ground (arith, k)) in
    let both = (bytes_eq_iff z x).1 (second ∙ first) in ground (arith, both, rest)

path_under_trans :
    (a b c : Text) → path_under a b ≡ true → path_under b c ≡ true → path_under a c ≡ true
unfolding path_under
path_under_trans a b c h k = begins_with_trans (components a) (components b) (components c) h k

contains-none : (m : Method) → contains [] m ≡ true → ⊥
unfolding contains
contains-none m h = cc

contains-cases :
    (a : Method) (ms : List Method) (m : Method)
    → contains (a ∷ ms) m ≡ true
    → (method_as_u8 a ≡ method_as_u8 m) ⊎ (contains ms m ≡ true)
unfolding contains
contains-cases a ms m h = ground (arith, h)

contains-same :
    (ns : List Method) (a m : Method)
    → method_as_u8 a ≡ method_as_u8 m
    → contains ns a ≡ true
    → contains ns m ≡ true
unfolding contains
contains-same [] a m e h = cc
contains-same (n ∷ ns) a m e h = ground (arith, e, h, contains-same ns a m e)

contains_trans :
    (ms ns : List Method) (m : Method)
    → all_contained ms ns ≡ true
    → contains ms m ≡ true
    → contains ns m ≡ true
unfolding all_contained
contains_trans [] ns m h k = absurd (contains-none m k)
contains_trans (a ∷ ms) ns m h k = elim (contains-cases a ms m k) [
  | inl same ↦ contains-same ns a m same (ground (arith, h))
  | inr rest ↦ contains_trans ms ns m (ground (arith, h)) rest
]

bytes_eq-joins : (a b c : Text) → bytes_eq a b ≡ true → bytes_eq a c ≡ true → bytes_eq b c ≡ true
bytes_eq-joins a b c h k =
    (bytes_eq_iff b c).1 (sym ((bytes_eq_iff a b).0 h) ∙ (bytes_eq_iff a c).0 k)

check_parts-tag :
    (t u : ℕ) (parts : List Text) → check_parts t parts ≡ ok tt → check_parts u parts ≡ ok tt
unfolding check_parts
check_parts-tag t u [] h = refl
check_parts-tag t u (part ∷ parts) h = ground (arith, h, check_parts-tag t u parts)

check_alphabet-tag :
    (allowed : ℕ → Bool) (t u limit : ℕ) (text : Text)
    → check_alphabet allowed t limit text ≡ ok tt
    → check_alphabet allowed u limit text ≡ ok tt
unfolding check_alphabet
check_alphabet-tag allowed t u limit text h = ground (arith, h)

-- The tag is only part of the errors.
check_tree_path-tag :
    (t u : ℕ) (text : Text) → check_tree_path t text ≡ ok tt → check_tree_path u text ≡ ok tt
unfolding check_tree_path check_path_parts
check_tree_path-tag t u text h = ground (
  arith,
  h,
  check_alphabet-tag tree_char_ok t u max_action_path text,
  check_parts-tag t u (split_on 47 text),
)

under_tree_prefix_trans :
    (parent prefix path : Text) (tag : ℕ) (limiter wider : Limiter)
    → check_tree_path tag parent ≡ ok tt
    → narrower_prefix parent prefix wider ≡ ok tt
    → under_tree_prefix prefix path limiter ≡ ok tt
    → under_tree_prefix parent path limiter ≡ ok tt
unfolding narrower_prefix under_tree_prefix
under_tree_prefix_trans parent prefix path tag limiter wider s n w =
    let shape = check_tree_path-tag tag path_tag parent s in
    ground (arith, shape, n, w, path_under_trans parent prefix path)

narrower_prefix-under :
    (parent prefix : Text) (limiter : Limiter)
    → narrower_prefix parent prefix limiter ≡ ok tt
    → path_under parent prefix ≡ true
unfolding narrower_prefix
narrower_prefix-under parent prefix limiter h = ground (arith, h)

-- Arguments that a narrower constraint allows, its parent allows, if the parent is well formed.
narrower_constraint-within :
    (child parent : Constraint) (args : Args)
    → check_constraint_shape parent ≡ ok tt
    → narrower_constraint child parent ≡ ok tt
    → constraint_within child args ≡ ok tt
    → constraint_within parent args ≡ ok tt
unfolding narrower_constraint constraint_within check_constraint_shape
narrower_constraint-within (push_to r b) (push_to r' b') (push r'' b'') s n w =
    ground (arith, n, w, bytes_eq-joins r r' r'', bytes_eq-joins b b' b'')
narrower_constraint-within (remove_under p) (remove_under p') (remove q) s n w =
    under_tree_prefix_trans p' p q path_tag _ _ s n w
narrower_constraint-within (rename_under f t) (rename_under f' t') (rename x y) s n w = ground (
  arith,
  s,
  n,
  w,
  under_tree_prefix_trans f' f x from_tag from_limit from_limit,
  under_tree_prefix_trans t' t y to_tag to_limit to_limit,
)
narrower_constraint-within (request_to h ms p r) (request_to h' ms' p' r') (request x m q d l) s n
      w =
    ground (
      arith,
      s,
      n,
      w,
      bytes_eq-joins h h' x,
      contains_trans ms ms' m,
      narrower_prefix-under p' p path_limit,
      path_under_trans p' p q,
    )
narrower_constraint-within _ _ _ s n w = cc

-- When `narrower` accepts a rule under a parent rule, the parent allows all arguments that the rule allows, if the
-- parent has the shape that parsing demands.
pub narrower-args_within :
    (child parent : ActionRule) (args : Args)
    → check_rule_shape parent ≡ ok tt
    → narrower child parent ≡ ok tt
    → args_within child args ≡ ok tt
    → args_within parent args ≡ ok tt
unfolding check_rule_shape narrower args_within
narrower-args_within child parent args s n w =
    let parts = narrower_constraint-within child.constraint parent.constraint args in
    ground (arith, s, n, w, parts)

uses_within_trans :
    (a b c : ℕ) → uses_within a b ≡ true → uses_within b c ≡ true → uses_within a c ≡ true
unfolding uses_within
uses_within_trans a b c h k = ground (arith, h, k)

narrower_prefix_trans :
    (a b c : Text) (limiter : Limiter)
    → narrower_prefix b a limiter ≡ ok tt
    → narrower_prefix c b limiter ≡ ok tt
    → narrower_prefix c a limiter ≡ ok tt
unfolding narrower_prefix
narrower_prefix_trans a b c limiter h k = ground (arith, h, k, path_under_trans c b a)

all_contained_trans :
    (a b c : List Method)
    → all_contained a b ≡ true
    → all_contained b c ≡ true
    → all_contained a c ≡ true
unfolding all_contained
all_contained_trans [] b c h k = refl
all_contained_trans (m ∷ a) b c h k =
    ground (arith, h, k, contains_trans b c m, all_contained_trans a b c)

bytes_eq_trans : (a b c : Text) → bytes_eq a b ≡ true → bytes_eq b c ≡ true → bytes_eq a c ≡ true
bytes_eq_trans a b c h k = (bytes_eq_iff a c).1 ((bytes_eq_iff a b).0 h ∙ (bytes_eq_iff b c).0 k)

narrower_secret_trans :
    (a b c : Option Text)
    → narrower_secret a b ≡ ok tt
    → narrower_secret b c ≡ ok tt
    → narrower_secret a c ≡ ok tt
unfolding narrower_secret
narrower_secret_trans none b c h k = refl
narrower_secret_trans (some a) none c h k = cc
narrower_secret_trans (some a) (some b) none h k = cc
narrower_secret_trans (some a) (some b) (some c) h k = ground (arith, h, k, bytes_eq_trans a b c)

narrower_constraint_trans :
    (a b c : Constraint)
    → narrower_constraint a b ≡ ok tt
    → narrower_constraint b c ≡ ok tt
    → narrower_constraint a c ≡ ok tt
unfolding narrower_constraint
narrower_constraint_trans (push_to r b) (push_to r' b') (push_to r'' b'') n w =
    ground (arith, n, w, bytes_eq_trans r r' r'', bytes_eq_trans b b' b'')
narrower_constraint_trans (remove_under p) (remove_under p') (remove_under q) n w =
    narrower_prefix_trans p p' q _ n w
narrower_constraint_trans (rename_under f t) (rename_under f' t') (rename_under f'' t'') n w =
    ground (
      arith,
      n,
      w,
      narrower_prefix_trans f f' f'' from_limit,
      narrower_prefix_trans t t' t'' to_limit,
    )
narrower_constraint_trans (request_to h ms p r) (request_to h' ms' p' r')
      (request_to h'' ms'' p'' r'') n w =
    ground (
      arith,
      n,
      w,
      bytes_eq_trans h h' h'',
      all_contained_trans ms ms' ms'',
      narrower_prefix_trans p p' p'' path_limit,
      narrower_secret_trans r r' r'',
    )
narrower_constraint_trans _ _ _ n w = cc

-- Along a chain of delegations, a rule that is narrower than its parent is narrower than what the parent is narrower
-- than.
pub narrower_trans :
    (a b c : ActionRule) → narrower a b ≡ ok tt → narrower b c ≡ ok tt → narrower a c ≡ ok tt
unfolding narrower
narrower_trans a b c n w = ground (
  arith,
  n,
  w,
  uses_within_trans a.max_uses b.max_uses c.max_uses,
  narrower_constraint_trans a.constraint b.constraint c.constraint,
)
