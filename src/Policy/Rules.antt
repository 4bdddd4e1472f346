-- ===== src/Policy/Rules.antt =====
-- crates/oc-policy/src/lib.rs: the methods of `Policy` and the levels of device binding.
use open_crate.Base.{
  ℕ, ◌≤◌, ◌≡◌, Bool, true, false, Option, none, some, List, [], ◌∷◌, arith, ltb, ◌==◌,
  if◌then◌else◌,
}
use open_crate.Base.Int.{i64_max}
use open_crate.Policy.{
  Action, view, edit, print, clipboard, export, screenshot, all_actions, Rule, Binding, software,
  hardware, hardware_attested, always, Network, strict_online, ActionMap, Policy, LeaseFacts,
}

-- The position of an action in their order.
abbrev rank : Action → ℕ
rank view = 0
rank edit = 1
rank print = 2
rank clipboard = 3
rank export = 4
rank screenshot = 5

abbrev pub same : Action → Action → Bool
same a b = rank a == rank b

-- `BTreeMap::insert`
unfoldable pub insert : {V : Type 0} → ActionMap V → Action → V → ActionMap V
insert m a v b = if same a b then some v else m b

-- `Policy::deny_all`
unfoldable pub deny_all : Policy
deny_all = record {
  actions = λ _. none;
  validity = always;
  max_opens = none;
  network = strict_online;
  min_binding = software;
  action_binding = λ _. none;
  watermark = false;
  unknown_actions = [];
}

abbrev pub rule_or_default : Option Rule → Rule
rule_or_default none = Rule.deny
rule_or_default (some r) = r

-- `Policy::rule`
unfoldable pub rule : Policy → Action → Rule
rule p a = rule_or_default (p.actions a)

abbrev pub is_allow : Rule → Bool
is_allow Rule.allow = true
is_allow Rule.deny = false

-- `Policy::allow`
unfoldable pub allow_action : Policy → Action → Policy
unfolding insert
allow_action p a = record p { actions = insert p.actions a Rule.allow }

allow_all : Policy → List Action → Policy
unfolding allow_action
allow_all p [] = p
allow_all p (a ∷ rest) = allow_all (allow_action p a) rest

-- `Policy::no_tightening`
unfoldable pub no_tightening : Policy
unfolding allow_all deny_all
no_tightening = record (allow_all deny_all all_actions) { network = Network.lease i64_max i64_max }

-- The order of `Binding`, and `Ord::max` on it.
abbrev pub level : Binding → ℕ
level software = 0
level hardware = 1
level hardware_attested = 2

unfoldable pub binding_max : Binding → Binding → Binding
binding_max a b = if ltb (level b) (level a) then a else b

abbrev pub software_or : Option Binding → Binding
software_or none = software
software_or (some b) = b

-- `Policy::binding_for`
unfoldable pub binding_for : Policy → Action → Binding
unfolding binding_max
binding_for p a = binding_max p.min_binding (software_or (p.action_binding a))

abbrev pub is_some {ℓ} : {A : Type ℓ} → Option A → Bool
is_some none = false
is_some (some _) = true

-- `lease.is_some_and(|l| l.attested.is_some())`
abbrev is_attested : Option LeaseFacts → Bool
is_attested none = false
is_attested (some l) = is_some l.attested

-- `effective_binding`
unfoldable pub effective_binding : Binding → Option LeaseFacts → Binding
effective_binding software l = software
effective_binding hardware l = if is_attested l then hardware_attested else hardware
effective_binding hardware_attested l = if is_attested l then hardware_attested else hardware

pub level-binding_max-left : (a b : Binding) → level a ≤ level (binding_max a b)
unfolding binding_max
level-binding_max-left a b = ground arith

pub eq_of_level : (a b : Binding) → level a ≡ level b → a ≡ b
eq_of_level a b h = ground arith

pub eq_of_rank : (a b : Action) → rank a ≡ rank b → a ≡ b
eq_of_rank a b h = ground arith
