-- ===== src/Policy/Sets.antt =====
-- `BTreeSet<u16>` as the increasing list of its elements.
use open_crate.Base.{
  ap₂, ℕ, ◌<◌, ◌≡◌, refl, ap, sym, ◌∙◌, Bool, true, false, ◌||◌, List, [], ◌∷◌, arith, ltb, ◌==◌,
  if◌then◌else◌,
}

-- `BTreeSet::insert`
unfoldable pub insert : ℕ → List ℕ → List ℕ
insert x [] = x ∷ []
insert x (y ∷ ys) =
    let rest = y ∷ insert x ys in if ltb x y then x ∷ y ∷ ys else if x == y then y ∷ ys else rest

-- `a.union(&b).copied().collect()`
unfoldable pub union : List ℕ → List ℕ → List ℕ
unfolding insert
union [] ys = ys
union (x ∷ xs) ys = insert x (union xs ys)

unfoldable pub contains : ℕ → List ℕ → Bool
contains x [] = false
contains x (y ∷ ys) = x == y || contains x ys

abbrev AllAbove : ℕ → List ℕ → Type 0
AllAbove x [] = Unit {0}
AllAbove x (y ∷ ys) = x < y

abbrev pub IsIncreasing : List ℕ → Type 0
IsIncreasing [] = Unit {0}
IsIncreasing (x ∷ xs) = AllAbove x xs × IsIncreasing xs

AllAbove-insert : (x y : ℕ) (ys : List ℕ) → y < x → AllAbove y ys → AllAbove y (insert x ys)
unfolding insert
AllAbove-insert x y [] h a = h
AllAbove-insert x y (z ∷ zs) h a = ground arith

pub insert-IsIncreasing : (x : ℕ) (ys : List ℕ) → IsIncreasing ys → IsIncreasing (insert x ys)
unfolding insert
insert-IsIncreasing x [] h = (tt, tt)
insert-IsIncreasing x (y ∷ ys) h = ground (arith, insert-IsIncreasing x ys, AllAbove-insert x y ys)

pub union-IsIncreasing : (xs ys : List ℕ) → IsIncreasing ys → IsIncreasing (union xs ys)
unfolding union
union-IsIncreasing [] ys h = h
union-IsIncreasing (x ∷ xs) ys h = insert-IsIncreasing x (union xs ys) (union-IsIncreasing xs ys h)

pub contains-insert : (a x : ℕ) (ys : List ℕ) → contains a (insert x ys) ≡ (a == x || contains a ys)
unfolding contains insert
contains-insert a x [] = refl
contains-insert a x (y ∷ ys) = ground (arith, contains-insert a x ys)

pub contains-union :
    (a : ℕ) (xs ys : List ℕ) → contains a (union xs ys) ≡ (contains a xs || contains a ys)
unfolding contains union
contains-union a [] ys = refl
contains-union a (x ∷ xs) ys =
    ground (arith, contains-union a xs ys, contains-insert a x (union xs ys))

-- A union is empty only if both sets are.
insert_not_empty : (x : ℕ) (ys : List ℕ) → insert x ys ≡ [] → ⊥
unfolding insert
insert_not_empty x [] h = cc
insert_not_empty x (y ∷ ys) h = ground arith

pub union_empty : (xs ys : List ℕ) → union xs ys ≡ [] → (xs ≡ []) × (ys ≡ [])
unfolding union
union_empty [] ys h = (refl, h)
union_empty (x ∷ xs) ys h = absurd (insert_not_empty x (union xs ys) h)

-- An element below all others goes to the front.
insert-head : (x : ℕ) (ys : List ℕ) → AllAbove x ys → insert x ys ≡ x ∷ ys
unfolding insert
insert-head x [] a = refl
insert-head x (y ∷ ys) a = ground arith

pub union-nil : (xs : List ℕ) → IsIncreasing xs → union xs [] ≡ xs
unfolding union
union-nil [] h = refl
union-nil (x ∷ xs) h = ap (insert x) (union-nil xs h.1) ∙ insert-head x xs h.0

not_below :
    (x y : ℕ) (ys : List ℕ) → y < x → AllAbove x ys → IsIncreasing ys → contains y ys ≡ false
unfolding contains
not_below x y [] h a i = refl
not_below x y (z ∷ zs) h a i = ground (arith, not_below z y zs)

not_in_tail : (x : ℕ) (xs : List ℕ) → IsIncreasing (x ∷ xs) → contains x xs ≡ false
unfolding contains
not_in_tail x [] i = refl
not_in_tail x (z ∷ zs) i = ground (arith, not_below z x zs)

same_head :
    (x y : ℕ) (xs ys : List ℕ)
    → IsIncreasing (x ∷ xs)
    → IsIncreasing (y ∷ ys)
    → contains x (y ∷ ys) ≡ true
    → contains y (x ∷ xs) ≡ true
    → x ≡ y
unfolding contains
same_head x y xs ys i j h k = ground (arith, not_below y x ys, not_below x y xs)

same_tail :
    (a x : ℕ) (xs ys : List ℕ)
    → IsIncreasing (x ∷ xs)
    → IsIncreasing (x ∷ ys)
    → contains a (x ∷ xs) ≡ contains a (x ∷ ys)
    → contains a xs ≡ contains a ys
unfolding contains
same_tail a x xs ys i j h = ground (arith, not_in_tail x xs i, not_in_tail x ys j)

contains_head : (x : ℕ) (xs : List ℕ) → contains x (x ∷ xs) ≡ true
unfolding contains
contains_head x xs = ground arith

contains_nil : (x : ℕ) → contains x [] ≡ false
unfolding contains
contains_nil x = refl

-- An increasing list is determined by its elements.
pub increasing_ext :
    (xs ys : List ℕ)
    → IsIncreasing xs
    → IsIncreasing ys
    → ((a : ℕ) → contains a xs ≡ contains a ys)
    → xs ≡ ys
increasing_ext [] [] i j h = refl
increasing_ext [] (y ∷ ys) i j h = cc (h y, contains_head y ys, contains_nil y)
increasing_ext (x ∷ xs) [] i j h = cc (h x, contains_head x xs, contains_nil x)
increasing_ext (x ∷ xs) (y ∷ ys) i j h =
    let same : x ≡ y =
      same_head x y xs ys i j (sym (h x) ∙ contains_head x xs) (h y ∙ contains_head y ys) in
    let j' : IsIncreasing (x ∷ ys) = rw same j in
    ap₂ ◌∷◌ same (
      increasing_ext xs ys i.1 j.1
        (λ a. same_tail a x xs ys i j' (h a ∙ ap (λ (z : ℕ). contains a (z ∷ ys)) (sym same))))
