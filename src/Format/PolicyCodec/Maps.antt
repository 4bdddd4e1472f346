-- ===== src/Format/PolicyCodec/Maps.antt =====
-- The map from tags to rule bytes that `encode` of crates/oc-format/src/policy_codec.rs fills.
use open_crate.Base.{
  ℕ, ◌^◌, ◌<◌, ◌≤◌, ◌≡◌, refl, ap, ◌∙◌, Bool, true, false, ◌||◌, ◌&&◌, ◌==◌, List, [], ◌∷◌, ltb,
  if◌then◌else◌, arith, All, ◌⊎◌, lt→ltb, le→ltb, Bool-cases, ltb→lt, ==_iff, inl, inr,
}
use native.Mathlib.Nat.{eq-or-lt_of_le}
use open_crate.Policy.{Action, Policy}
use open_crate.Policy.Rules.{rule, is_allow, same, eq_of_rank}
use open_crate.Policy.Sets.{contains}
use open_crate.Format.PolicyCodec.{rule_byte, action_to_tag, rule_deny, rule_allow}
use open_crate.Format.PolicyCodec.Encode.{insert, insert_unknown, insert_rules}

abbrev Below : ℕ → List (ℕ × ℕ) → Type 0
Below k [] = Unit {0}
Below k ((k', v) ∷ m) = k < k'

-- The keys increase and are 16-bit numbers.
abbrev pub IsMap : List (ℕ × ℕ) → Type 0
IsMap [] = Unit {0}
IsMap ((k, v) ∷ m) = (k < 2 ^ 16) × Below k m × IsMap m

unfoldable pub has : ℕ → List (ℕ × ℕ) → Bool
has k [] = false
has k ((k', v) ∷ m) = k == k' || has k m

-- Whether the map permits what the tag stands for.
unfoldable pub permits : ℕ → List (ℕ × ℕ) → Bool
permits k [] = false
permits k ((k', v) ∷ m) = ((k == k') && (v == rule_allow)) || permits k m

insert_front :
    (k v k' v' : ℕ) (m : List (ℕ × ℕ)) → k < k' → insert k v ((k', v') ∷ m) ≡ (k, v) ∷ (k', v') ∷ m
unfolding insert
insert_front k v k' v' m h = rw (lt→ltb k k' h) refl

insert_here : (k v v' : ℕ) (m : List (ℕ × ℕ)) → insert k v ((k, v') ∷ m) ≡ (k, v) ∷ m
unfolding insert
insert_here k v v' m = rw (le→ltb k k (omega arith), (==_iff k k).1 refl) refl

insert_behind :
    (k v k' v' : ℕ) (m : List (ℕ × ℕ))
    → k' < k
    → insert k v ((k', v') ∷ m) ≡ (k', v') ∷ insert k v m
unfolding insert
insert_behind k v k' v' m h = ground arith

lt-or-eq-or-gt : (a b : ℕ) → (a < b) ⊎ ((a ≡ b) ⊎ (b < a))
lt-or-eq-or-gt a b = elim (Bool-cases (ltb a b)) [
  | inl h ↦ inl (ltb→lt a b h)
  | inr h ↦ elim (Bool-cases (a == b)) [
    | inl e ↦ inr (inl ((==_iff a b).0 e))
    | inr n ↦ inr (inr (ground arith))
  ]
]

Below-insert : (j k v : ℕ) (m : List (ℕ × ℕ)) → j < k → Below j m → Below j (insert k v m)
unfolding insert
Below-insert j k v [] h b = h
Below-insert j k v ((k', v') ∷ m) h b = ground arith

insert_nil : (k v : ℕ) → insert k v [] ≡ (k, v) ∷ []
unfolding insert
insert_nil k v = refl

insert-IsMap : (k v : ℕ) (m : List (ℕ × ℕ)) → k < 2 ^ 16 → IsMap m → IsMap (insert k v m)
insert-IsMap k v [] h i = rw (insert_nil k v) (h, tt, tt)
insert-IsMap k v ((k', v') ∷ m) h (small, b, i) = elim (lt-or-eq-or-gt k k') [
  | inl lt ↦ rw (insert_front k v k' v' m lt) (h, lt, (small, b, i))
  | inr (inl e) ↦ rw (e, insert_here k' v v' m) (small, b, i)
  | inr (inr gt) ↦
      rw (insert_behind k v k' v' m gt) (small, Below-insert k' k v m gt b, insert-IsMap k v m h i)
]

has-insert : (x k v : ℕ) (m : List (ℕ × ℕ)) → has x (insert k v m) ≡ (x == k || has x m)
unfolding has insert
has-insert x k v [] = refl
has-insert x k v ((k', v') ∷ m) = ground (arith, has-insert x k v m)

permits-Below : (k : ℕ) (m : List (ℕ × ℕ)) → Below k m → IsMap m → permits k m ≡ false
unfolding permits
permits-Below k [] b i = refl
permits-Below k ((k', v) ∷ m) b i = ground (arith, permits-Below k m)

Below-trans : (j k : ℕ) (m : List (ℕ × ℕ)) → j < k → Below k m → Below j m
Below-trans j k [] h b = tt
Below-trans j k ((k', v) ∷ m) h b = omega arith

permits_up_to : (x k : ℕ) (m : List (ℕ × ℕ)) → Below k m → IsMap m → x ≤ k → permits x m ≡ false
permits_up_to x k m b i h = elim (eq-or-lt_of_le h) [
  | inl e ↦ rw e (permits-Below k m b i)
  | inr lt ↦ permits-Below x m (Below-trans x k m lt b) i
]

-- An entry before the map, against the key k' of its first entry and what its rest permits.
permits_front :
    (x k v k' : ℕ) (first rest : Bool)
    → k < k'
    → (x ≤ k' → rest ≡ false)
    → (((x == k) && (v == rule_allow)) || (((x == k') && first) || rest))
      ≡ (if x == k then v == rule_allow else ((x == k') && first) || rest)
permits_front x k v k' first rest lt up_to = ground arith

permits_here :
    (x k v : ℕ) (first rest : Bool)
    → (x ≤ k → rest ≡ false)
    → (((x == k) && (v == rule_allow)) || rest)
      ≡ (if x == k then v == rule_allow else ((x == k) && first) || rest)
permits_here x k v first rest up_to = ground arith

permits_behind :
    (x k v k' v' : ℕ) (m : List (ℕ × ℕ))
    → k' < k
    → permits x (insert k v m) ≡ (if x == k then v == rule_allow else permits x m)
    → permits x ((k', v') ∷ insert k v m)
      ≡ (if x == k then v == rule_allow else permits x ((k', v') ∷ m))
unfolding permits
permits_behind x k v k' v' m gt h = ground arith

permits-insert :
    (x k v : ℕ) (m : List (ℕ × ℕ))
    → IsMap m
    → permits x (insert k v m) ≡ (if x == k then v == rule_allow else permits x m)
unfolding permits
permits-insert x k v [] i = rw (insert_nil k v) (ground arith)
permits-insert x k v ((k', v') ∷ m) (small, b, i) = elim (lt-or-eq-or-gt k k') [
  | inl lt ↦
      rw (insert_front k v k' v' m lt)
        (permits_front x k v k' (v' == rule_allow) (permits x m) lt (permits_up_to x k' m b i))
  | inr (inl e) ↦
      rw (e, insert_here k' v v' m)
        (permits_here x k' v (v' == rule_allow) (permits x m) (permits_up_to x k' m b i))
  | inr (inr gt) ↦
      rw (insert_behind k v k' v' m gt) (permits_behind x k v k' v' m gt (permits-insert x k v m i))
]

pub insert_unknown-IsMap :
    (us : List ℕ) (m : List (ℕ × ℕ))
    → All (λ u. u < 2 ^ 16) us
    → IsMap m
    → IsMap (insert_unknown us m)
unfolding insert_unknown
insert_unknown-IsMap [] m h i = i
insert_unknown-IsMap (u ∷ us) m (hu, h) i =
    insert_unknown-IsMap us (insert u rule_deny m) h (insert-IsMap u rule_deny m hu i)

pub has-insert_unknown :
    (x : ℕ) (us : List ℕ) (m : List (ℕ × ℕ))
    → has x (insert_unknown us m) ≡ (contains x us || has x m)
unfolding insert_unknown contains
has-insert_unknown x [] m = refl
has-insert_unknown x (u ∷ us) m =
    ground (arith, has-insert_unknown x us (insert u rule_deny m), has-insert x u rule_deny m)

pub insert_rules-IsMap :
    (p : Policy) (acts : List Action) (m : List (ℕ × ℕ)) → IsMap m → IsMap (insert_rules p acts m)
unfolding insert_rules
insert_rules-IsMap p [] m i = i
insert_rules-IsMap p (a ∷ acts) m i =
    let small : action_to_tag a < 2 ^ 16 = ground arith in
    insert_rules-IsMap p acts (insert (action_to_tag a) (rule_byte (rule p a)) m)
      (insert-IsMap (action_to_tag a) (rule_byte (rule p a)) m small i)

unfoldable pub member : Action → List Action → Bool
member a [] = false
member a (b ∷ bs) = same a b || member a bs

unfoldable pub known : ℕ → List Action → Bool
known x [] = false
known x (a ∷ acts) = x == action_to_tag a || known x acts

pub has-insert_rules :
    (x : ℕ) (p : Policy) (acts : List Action) (m : List (ℕ × ℕ))
    → has x (insert_rules p acts m) ≡ (known x acts || has x m)
unfolding insert_rules known
has-insert_rules x p [] m = refl
has-insert_rules x p (a ∷ acts) m =
    let m' = insert (action_to_tag a) (rule_byte (rule p a)) m in
    ground
      (arith, has-insert_rules x p acts m', has-insert x (action_to_tag a) (rule_byte (rule p a)) m)

tag_eq : (a b : Action) → (action_to_tag a == action_to_tag b) ≡ same a b
tag_eq a b = ground arith

rule_of_same : (p : Policy) (a b : Action) → same a b ≡ true → rule p a ≡ rule p b
rule_of_same p a b h = ap (rule p) (eq_of_rank a b (ground arith))

pub permits-insert_rules :
    (p : Policy) (a : Action) (acts : List Action) (m : List (ℕ × ℕ))
    → IsMap m
    → permits (action_to_tag a) (insert_rules p acts m)
      ≡ (if member a acts then is_allow (rule p a) else permits (action_to_tag a) m)
unfolding insert_rules member
permits-insert_rules p a [] m i = refl
permits-insert_rules p a (b ∷ bs) m i =
    let small : action_to_tag b < 2 ^ 16 = ground arith in
    let byte = rule_byte (rule p b) in
    let rest =
      permits-insert_rules p a bs (insert (action_to_tag b) byte m)
        (insert-IsMap (action_to_tag b) byte m small i) in
    let here = permits-insert (action_to_tag a) (action_to_tag b) byte m i in
    rest ∙ rw (here, tag_eq a b) (ground (arith, rule_of_same p a b))
