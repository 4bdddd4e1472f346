-- ===== src/Policy/Intersect/Meet.antt =====
-- What `intersect` does to the rule of an action and to the binding that it needs.
use open_crate.Base.{◌≡◌, ◌&&◌, Option, none, some, arith, if◌then◌else◌}
use open_crate.Policy.{
  Action, view, edit, print, clipboard, export, screenshot, all_actions, Binding, ActionMap, Policy,
}
use open_crate.Policy.Rules.{
  same, insert, rule, is_allow, binding_max, binding_for, eq_of_rank, software_or,
}
use open_crate.Policy.Intersect.{visit, raise_slots, intersect}

abbrev pub higher : Option Binding → Option Binding → Option Binding
higher a none = a
higher none (some b) = some b
higher (some a) (some b) = some (binding_max a b)

visit_lem :
    (m : ActionMap Binding) (a x : Action) (o : Option Binding)
    → visit m a o x ≡ (if same a x then higher (m x) o else m x)
unfolding visit insert binding_max
visit_lem m a x none = ground arith
visit_lem m a x (some b) = ground (arith, eq_of_rank a x)

-- Every slot is raised to the server's, and no other changes.
raise_slots_lem :
    (server m : ActionMap Binding) (x : Action)
    → raise_slots all_actions server m x ≡ higher (m x) (server x)
unfolding raise_slots
raise_slots_lem server m view = simp visit_lem
raise_slots_lem server m edit = simp visit_lem
raise_slots_lem server m print = simp visit_lem
raise_slots_lem server m clipboard = simp visit_lem
raise_slots_lem server m export = simp visit_lem
raise_slots_lem server m screenshot = simp visit_lem

-- An action is allowed by the intersection exactly if both policies allow it.
pub rule-intersect :
    (author server : Policy) (a : Action)
    → is_allow (rule (intersect author server) a)
      ≡ (is_allow (rule author a) && is_allow (rule server a))
unfolding intersect rule
rule-intersect author server a = ground arith

-- The binding that the intersection requires is the stronger of the two.
pub binding_for-intersect :
    (author server : Policy) (a : Action)
    → binding_for (intersect author server) a
      ≡ binding_max (binding_for author a) (binding_for server a)
unfolding intersect binding_for
binding_for-intersect author server a =
    rw (raise_slots_lem server.action_binding author.action_binding a) (
      mixed author.min_binding server.min_binding (author.action_binding a)
        (server.action_binding a))
  where
    mixed :
        (m n : Binding) (p q : Option Binding)
        → binding_max (binding_max m n) (software_or (higher p q))
          ≡ binding_max (binding_max m (software_or p)) (binding_max n (software_or q))
    mixed m n p q = ground arith
