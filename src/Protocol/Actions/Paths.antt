-- ===== src/Protocol/Actions/Paths.antt =====
-- Paths of crates/oc-protocol/src/action.rs, and the directory or file that a path leads to.
use open_crate.Base.{
  ℕ, true, ◌||◌, ◌≡◌, refl, sym, ◌∙◌, ap, List, [], ◌∷◌, ◌++◌, if◌then◌else◌, ok, arith,
}
use open_crate.Base.Bytes.{bytes_eq, bytes_eq_iff}
use open_crate.Protocol.Actions.{Text, Limiter}
use open_crate.Protocol.Actions.Text.{
  is_empty, dot, dot_dot, split_on, check_parts, check_path_parts, check_tree_path, nonempty_parts,
  components, begins_with, path_under, path_tag,
}
use open_crate.Protocol.Actions.Within.{under_tree_prefix}
use mathlib.Core.List.{append_assoc}

-- Where a walk along the parts of a path ends, as a filesystem does it: from the innermost directory outwards.
abbrev parent_directory : List Text → List Text
parent_directory [] = []
parent_directory (name ∷ above) = above

walk : List Text → List Text → List Text
walk place [] = place
walk place (part ∷ parts) =
    let stay = walk place parts in
    let up = walk (parent_directory place) parts in
    let into = walk (part ∷ place) parts in
    if is_empty part || bytes_eq part dot then stay else if bytes_eq part dot_dot then up else into

pub resolve : List Text → Text → List Text
resolve place path = walk place (split_on 47 path)

onto : List Text → List Text → List Text
onto place [] = place
onto place (part ∷ parts) = onto (part ∷ place) parts

walk-onto :
    (tag : ℕ) (parts place : List Text)
    → check_parts tag parts ≡ ok tt
    → walk place parts ≡ onto place parts
unfolding walk onto check_parts
walk-onto tag [] place h = refl
walk-onto tag (part ∷ parts) place h = ground (arith, h, walk-onto tag parts (part ∷ place))

nonempty_parts-same :
    (tag : ℕ) (parts : List Text) → check_parts tag parts ≡ ok tt → nonempty_parts parts ≡ parts
unfolding nonempty_parts check_parts
nonempty_parts-same tag [] h = refl
nonempty_parts-same tag (part ∷ parts) h = ground (arith, h, nonempty_parts-same tag parts)

begins_with-append :
    (wanted got : List Text)
    → begins_with wanted got ≡ true
    → (rest : List Text) × (got ≡ wanted ++ rest)
unfolding begins_with
begins_with-append [] got h = (got, refl)
begins_with-append (want ∷ wanted) [] h = cc
begins_with-append (want ∷ wanted) (part ∷ got) h =
    let (rest, e) = begins_with-append wanted got (ground (arith, h)) in
    let same : part ≡ want = (bytes_eq_iff part want).0 (ground (arith, h)) in (rest, cc (same, e))

onto-append : (place xs ys : List Text) → onto place (xs ++ ys) ≡ onto (onto place xs) ys
unfolding onto
onto-append place [] ys = refl
onto-append place (x ∷ xs) ys = onto-append (x ∷ place) xs ys

onto-below : (place parts : List Text) → onto place parts ≡ onto [] parts ++ place
unfolding onto
onto-below place [] = refl
onto-below place (part ∷ parts) =
    onto-below (part ∷ place) parts
    ∙ sym (append_assoc (onto [] parts) (part ∷ []) place)
    ∙ sym (ap (λ (l : List Text). l ++ place) (onto-below (part ∷ []) parts))

check_tree_path-parts :
    (tag : ℕ) (path : Text)
    → check_tree_path tag path ≡ ok tt
    → check_parts tag (split_on 47 path) ≡ ok tt
unfolding check_tree_path check_path_parts
check_tree_path-parts tag path h = ground (arith, h)

under_tree_prefix-parts :
    (prefix path : Text) (limiter : Limiter)
    → under_tree_prefix prefix path limiter ≡ ok tt
    → (check_tree_path path_tag path ≡ ok tt)
      × (check_tree_path path_tag prefix ≡ ok tt)
      × (path_under prefix path ≡ true)
unfolding under_tree_prefix
under_tree_prefix-parts prefix path limiter h = ground (arith, h)

-- From any directory, a path that is accepted under a prefix leads below the place to which the prefix leads, or to
-- that place, although empty parts, "." and ".." are followed as a filesystem does.
pub under_tree_prefix-resolve :
    (place : List Text) (prefix path : Text) (limiter : Limiter)
    → under_tree_prefix prefix path limiter ≡ ok tt
    → (below : List Text) × (resolve place path ≡ below ++ resolve place prefix)
unfolding resolve path_under components
under_tree_prefix-resolve place prefix path limiter h =
    let (good, good_prefix, under) = under_tree_prefix-parts prefix path limiter h in
    let parts = check_tree_path-parts path_tag path good in
    let prefix_parts = check_tree_path-parts path_tag prefix good_prefix in
    let (rest, e) = begins_with-append _ _ under in
    let joined : split_on 47 path ≡ split_on 47 prefix ++ rest =
      sym (nonempty_parts-same path_tag _ parts)
      ∙ e
      ∙ ap (λ (l : List Text). l ++ rest) (nonempty_parts-same path_tag _ prefix_parts) in
    (
      onto [] rest,
      walk-onto path_tag _ place parts
          ∙ ap (onto place) joined
          ∙ onto-append place (split_on 47 prefix) rest
          ∙ onto-below (onto place (split_on 47 prefix)) rest
          ∙ ap (λ (l : List Text). onto [] rest ++ l)
              (sym (walk-onto path_tag _ place prefix_parts)),
    )
