-- ===== src/Policy/Intersect/Order.antt =====
-- `intersect` of crates/oc-policy/src/lib.rs as a meet: when two policies are the same to `evaluate`,
-- and the order of the two does not matter.
use open_crate.Base.{ℕ, ◌≡◌, refl, Option, List, arith, ap, sym, ◌∙◌}
use open_crate.Base.Int.{IsI64, min_ℤ_comm, max_ℤ_comm}
use open_crate.Policy.{
  Action, Binding, Validity, always, window, from_first_open, Network, strict_online, Policy,
}
use open_crate.Policy.Sets.{union, IsIncreasing, union-IsIncreasing, contains-union, increasing_ext}
use open_crate.Policy.Rules.{rule, is_allow, binding_for, binding_max}
use open_crate.Policy.Intersect.{intersect, tighten_network, tighten_validity, min_opens}
use open_crate.Policy.Intersect.Meet.{rule-intersect, binding_for-intersect}

-- The same in all that `evaluate` reads.
pub record SamePolicy (p q : Policy) : Type 0 where
  pub rules : (a : Action) → is_allow (rule p a) ≡ is_allow (rule q a)
  pub validity : p.validity ≡ q.validity
  pub max_opens : p.max_opens ≡ q.max_opens
  pub network : p.network ≡ q.network
  pub bindings : (a : Action) → binding_for p a ≡ binding_for q a
  pub watermark : p.watermark ≡ q.watermark
  pub unknown : p.unknown_actions ≡ q.unknown_actions

abbrev pub ValidityInRange : Validity → Type 0
ValidityInRange always = Unit {0}
ValidityInRange (window f t) = IsI64 f × IsI64 t
ValidityInRange (from_first_open s) = IsI64 s

abbrev pub NetworkInRange : Network → Type 0
NetworkInRange strict_online = Unit {0}
NetworkInRange (Network.lease s o) = IsI64 s × IsI64 o

-- The `i64`s are in range, and the set is a set.
pub record IsPolicy (p : Policy) : Type 0 where
  pub validity : ValidityInRange p.validity
  pub network : NetworkInRange p.network
  pub unknown : IsIncreasing p.unknown_actions

tighten_validity_comm : (u v : Validity) → tighten_validity u v ≡ tighten_validity v u
unfolding tighten_validity
tighten_validity_comm always always = refl
tighten_validity_comm always (window f t) = refl
tighten_validity_comm always (from_first_open s) = refl
tighten_validity_comm (window f t) always = refl
tighten_validity_comm (window f t) (window f' t') = cc (max_ℤ_comm f f', min_ℤ_comm t t')
tighten_validity_comm (window f t) (from_first_open s) = refl
tighten_validity_comm (from_first_open s) always = refl
tighten_validity_comm (from_first_open s) (window f t) = refl
tighten_validity_comm (from_first_open s) (from_first_open s') =
    ap from_first_open (min_ℤ_comm s s')

tighten_network_comm : (m n : Network) → tighten_network m n ≡ tighten_network n m
unfolding tighten_network
tighten_network_comm strict_online strict_online = refl
tighten_network_comm strict_online (Network.lease s o) = refl
tighten_network_comm (Network.lease s o) strict_online = refl
tighten_network_comm (Network.lease s o) (Network.lease t p) = cc (min_ℤ_comm s t, min_ℤ_comm o p)

min_opens_comm : (m n : Option ℕ) → min_opens m n ≡ min_opens n m
unfolding min_opens
min_opens_comm m n = ground arith

union_comm : (xs ys : List ℕ) → IsIncreasing xs → IsIncreasing ys → union xs ys ≡ union ys xs
union_comm xs ys i j =
    increasing_ext (union xs ys) (union ys xs) (union-IsIncreasing xs ys j)
      (union-IsIncreasing ys xs i)
      (λ a. rw (contains-union a xs ys, contains-union a ys xs) (ground arith))

binding_max_comm : (a b : Binding) → binding_max a b ≡ binding_max b a
unfolding binding_max
binding_max_comm a b = ground arith

-- Swapping two policies in the ranges of their types in an intersection changes nothing that `evaluate`
-- reads.
pub intersect_comm :
    (p q : Policy) → IsPolicy p → IsPolicy q → SamePolicy (intersect p q) (intersect q p)
unfolding intersect
intersect_comm p q hp hq = record {
  rules = λ a. ground (arith, rule-intersect p q a, rule-intersect q p a);
  validity = tighten_validity_comm p.validity q.validity;
  max_opens = min_opens_comm p.max_opens q.max_opens;
  network = tighten_network_comm p.network q.network;
  bindings = λ a.
      binding_for-intersect p q a
      ∙ binding_max_comm (binding_for p a) (binding_for q a)
      ∙ sym (binding_for-intersect q p a);
  watermark = ground arith;
  unknown = union_comm p.unknown_actions q.unknown_actions hp.unknown hq.unknown;
}
