-- ===== src/Policy/Intersect.antt =====
-- `intersect` of crates/oc-policy/src/lib.rs: the author's policy narrowed by the server's.
pub mod Meet
pub mod Order
pub mod Cong
pub mod Assoc
pub mod Identity
use open_crate.Base.{◌&&◌, ◌||◌, Option, none, some, List, [], ◌∷◌, if◌then◌else◌, ltb, ℕ}
use open_crate.Base.Int.{min_ℤ, max_ℤ, i64_max, i64_min}
use open_crate.Policy.{
  Action, all_actions, Rule, Binding, Validity, always, window, from_first_open, Network,
  strict_online, ActionMap, Policy,
}
use open_crate.Policy.Rules.{rule_or_default, is_allow, insert, binding_max}
use open_crate.Policy.Sets.{union}

-- `result.actions.retain(…)`: an entry stays if it allows and the server's map allows too.
abbrev retain : ActionMap Rule → ActionMap Rule → ActionMap Rule
retain author server a = elim (author a) [
  | none ↦ none
  | some r ↦ if is_allow r && is_allow (rule_or_default (server a)) then some r else none
]

-- `let slot = entry(action).or_insert(binding); *slot = (*slot).max(binding);`
abbrev or_insert : Option Binding → Binding → Binding
or_insert none b = b
or_insert (some slot) b = slot

unfoldable raise_slot : ActionMap Binding → Action → Binding → ActionMap Binding
unfolding insert binding_max
raise_slot m a b = insert m a (binding_max (or_insert (m a) b) b)

pub visit : ActionMap Binding → Action → Option Binding → ActionMap Binding
unfolding raise_slot
visit m a none = m
visit m a (some b) = raise_slot m a b

-- `for (action, binding) in &server.action_binding`
pub raise_slots : List Action → ActionMap Binding → ActionMap Binding → ActionMap Binding
unfolding visit
raise_slots [] server m = m
raise_slots (a ∷ rest) server m = raise_slots rest server (visit m a (server a))

abbrev min_ℕ : ℕ → ℕ → ℕ
min_ℕ a b = if ltb b a then b else a

unfoldable pub min_opens : Option ℕ → Option ℕ → Option ℕ
min_opens (some a) (some b) = some (min_ℕ a b)
min_opens (some a) none = some a
min_opens none b = b

unfoldable pub tighten_network : Network → Network → Network
unfolding min_ℤ
tighten_network strict_online b = strict_online
tighten_network (Network.lease a ao) strict_online = strict_online
tighten_network (Network.lease a ao) (Network.lease b bo) = Network.lease (min_ℤ a b) (min_ℤ ao bo)

-- `IMPOSSIBLE`
abbrev pub impossible : Validity
impossible = window i64_max i64_min

unfoldable pub tighten_validity : Validity → Validity → Validity
unfolding min_ℤ max_ℤ
tighten_validity always other = other
tighten_validity (window f t) always = window f t
tighten_validity (from_first_open s) always = from_first_open s
tighten_validity (window af at) (window bf bt) = window (max_ℤ af bf) (min_ℤ at bt)
tighten_validity (from_first_open a) (from_first_open b) = from_first_open (min_ℤ a b)
tighten_validity (window f t) (from_first_open s) = impossible
tighten_validity (from_first_open s) (window f t) = impossible

unfoldable pub intersect : Policy → Policy → Policy
unfolding raise_slots min_opens tighten_network tighten_validity union binding_max
intersect author server = record {
  actions = retain author.actions server.actions;
  validity = tighten_validity author.validity server.validity;
  max_opens = min_opens author.max_opens server.max_opens;
  network = tighten_network author.network server.network;
  min_binding = binding_max author.min_binding server.min_binding;
  action_binding = raise_slots all_actions server.action_binding author.action_binding;
  watermark = author.watermark || server.watermark;
  unknown_actions = union author.unknown_actions server.unknown_actions;
}
