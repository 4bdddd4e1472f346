-- ===== src/Policy/Intersect/Identity.antt =====
-- `intersect` and `Policy::no_tightening` of crates/oc-policy/src/lib.rs.
use open_crate.Base.{ℕ, ◌≡◌, refl, true, Option, none, some, arith, ap₂, ◌∙◌}
use open_crate.Base.Int.{i64_max, min_ℤ-i64_max}
use open_crate.Policy.{
  Action, view, edit, print, clipboard, export, screenshot, Binding, software, Validity, always,
  window, from_first_open, Network, strict_online, Policy,
}
use open_crate.Policy.Sets.{union-nil}
use open_crate.Policy.Rules.{rule, is_allow, binding_for, binding_max, no_tightening, insert}
use open_crate.Policy.Intersect.{intersect, tighten_network, tighten_validity, min_opens}
use open_crate.Policy.Intersect.Meet.{rule-intersect, binding_for-intersect}
use open_crate.Policy.Intersect.Order.{SamePolicy, IsPolicy, NetworkInRange}

tighten_validity-always : (v : Validity) → tighten_validity v always ≡ v
unfolding tighten_validity
tighten_validity-always always = refl
tighten_validity-always (window f t) = refl
tighten_validity-always (from_first_open s) = refl

tighten_network-widest :
    (n : Network) → NetworkInRange n → tighten_network n (Network.lease i64_max i64_max) ≡ n
unfolding tighten_network
tighten_network-widest strict_online h = refl
tighten_network-widest (Network.lease s o) h =
    ap₂ Network.lease (min_ℤ-i64_max s h.0) (min_ℤ-i64_max o h.1)

min_opens-none : (m : Option ℕ) → min_opens m none ≡ m
unfolding min_opens
min_opens-none none = refl
min_opens-none (some m) = refl

no_tightening_allows : (a : Action) → is_allow (rule no_tightening a) ≡ true
unfolding no_tightening rule insert
no_tightening_allows view = refl
no_tightening_allows edit = refl
no_tightening_allows print = refl
no_tightening_allows clipboard = refl
no_tightening_allows export = refl
no_tightening_allows screenshot = refl

binding_max-software : (b : Binding) → binding_max b software ≡ b
unfolding binding_max
binding_max-software b = ground arith

software_least : (a : Action) → binding_for no_tightening a ≡ software
unfolding no_tightening binding_for
software_least a = refl

-- Intersecting a policy in the ranges of its types with the profile `no_tightening` changes nothing that
-- `evaluate` reads.
pub intersect-no_tightening : (p : Policy) → IsPolicy p → SamePolicy (intersect p no_tightening) p
intersect-no_tightening p h = record {
  rules = λ a. rule-intersect p no_tightening a ∙ rw no_tightening_allows (ground arith);
  validity = unfold intersect no_tightening in tighten_validity-always p.validity;
  max_opens = unfold intersect no_tightening in min_opens-none p.max_opens;
  network = unfold intersect no_tightening in tighten_network-widest p.network h.network;
  bindings = λ a.
      binding_for-intersect p no_tightening a
      ∙ rw software_least (binding_max-software (binding_for p a));
  watermark = unfold intersect no_tightening in ground arith;
  unknown = unfold intersect no_tightening in union-nil p.unknown_actions h.unknown;
}
