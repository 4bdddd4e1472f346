-- ===== src/Policy/Intersect/Cong.antt =====
-- Policies that say the same are narrowed to policies that say the same: `intersect` of crates/oc-policy/src/lib.rs.
use open_crate.Base.{ap, ◌∙◌, sym, ◌&&◌, ◌||◌}
use open_crate.Policy.{Policy}
use open_crate.Policy.Rules.{rule, is_allow, binding_for, binding_max}
use open_crate.Policy.Intersect.{intersect, tighten_validity, tighten_network, min_opens}
use open_crate.Policy.Sets.{union}
use open_crate.Policy.Intersect.Meet.{rule-intersect, binding_for-intersect}
use open_crate.Policy.Intersect.Order.{SamePolicy}

pub intersect-SamePolicy :
    (author p q : Policy) → SamePolicy p q → SamePolicy (intersect author p) (intersect author q)
unfolding intersect
intersect-SamePolicy author p q h = record {
  rules = λ a.
      rule-intersect author p a
      ∙ ap (λ allowed. is_allow (rule author a) && allowed) (h.rules a)
      ∙ sym (rule-intersect author q a);
  validity = ap (tighten_validity author.validity) h.validity;
  max_opens = ap (min_opens author.max_opens) h.max_opens;
  network = ap (tighten_network author.network) h.network;
  bindings = λ a.
      binding_for-intersect author p a
      ∙ ap (binding_max (binding_for author a)) (h.bindings a)
      ∙ sym (binding_for-intersect author q a);
  watermark = ap (λ watermark. author.watermark || watermark) h.watermark;
  unknown = ap (union author.unknown_actions) h.unknown;
}
