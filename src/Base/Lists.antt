-- ===== src/Base/Lists.antt =====
-- Lists measured and cut by native numbers, under the library's names.
use Prim.Native.Nat.{ℕ, zero, suc, ◌+◌, ◌-◌, ◌<◌, ◌≤◌, min}
use mathlib.Core.Path.{◌≡◌, refl, ap}
use mathlib.Core.List.{List, [], ◌∷◌, ◌++◌}
use mathlib.Core.Option.{Option, none, some}
use native.Mathlib.Omega.{arith}
use native.Mathlib.Nat.{suc-add}

module _ {ℓ} {A : Type ℓ} where
  abbrev pub length : List A → ℕ
  length [] = 0
  length (x ∷ xs) = suc (length xs)

  abbrev pub get_elem? : List A → ℕ → Option A
  get_elem? [] i = none
  get_elem? (x ∷ xs) zero = some x
  get_elem? (x ∷ xs) (suc i) = get_elem? xs i

  abbrev pub set : List A → ℕ → A → List A
  set [] i v = []
  set (x ∷ xs) zero v = v ∷ xs
  set (x ∷ xs) (suc i) v = x ∷ set xs i v

  abbrev pub take : ℕ → List A → List A
  take zero xs = []
  take (suc n) [] = []
  take (suc n) (x ∷ xs) = x ∷ take n xs

  abbrev pub drop : ℕ → List A → List A
  drop zero xs = xs
  drop (suc n) [] = []
  drop (suc n) (x ∷ xs) = drop n xs

  abbrev pub All {κ} : (A → Type κ) → List A → Type κ
  All P [] = Unit {κ}
  All P (x ∷ xs) = P x × All P xs

module _ {ℓ} {A : Type ℓ} where
  pub length-append : (xs ys : List A) → length (xs ++ ys) ≡ length xs + length ys
  length-append [] ys = omega arith
  length-append (x ∷ xs) ys = omega (arith, length-append xs ys)

  pub take-append-drop : (n : ℕ) (xs : List A) → take n xs ++ drop n xs ≡ xs
  take-append-drop zero xs = refl
  take-append-drop (suc n) [] = refl
  take-append-drop (suc n) (x ∷ xs) = ap (λ r. x ∷ r) (take-append-drop n xs)

  pub get-some-lt : (xs : List A) (i : ℕ) (x : A) → get_elem? xs i ≡ some x → i < length xs
  get-some-lt [] i x e = cc
  get-some-lt (y ∷ ys) zero x e = omega arith
  get-some-lt (y ∷ ys) (suc i) x e = omega (arith, get-some-lt ys i x e)

  pub length-take : (n : ℕ) (xs : List A) → length (take n xs) ≡ min n (length xs)
  length-take zero xs = omega arith
  length-take (suc n) [] = omega arith
  length-take (suc n) (x ∷ xs) = omega (arith, length-take n xs)

  pub length-drop : (n : ℕ) (xs : List A) → length (drop n xs) ≡ length xs - n
  length-drop zero xs = omega arith
  length-drop (suc n) [] = omega arith
  length-drop (suc n) (x ∷ xs) = omega (arith, length-drop n xs)

  pub drop-append : (xs ys : List A) → drop (length xs) (xs ++ ys) ≡ ys
  drop-append [] ys = refl
  drop-append (x ∷ xs) ys = drop-append xs ys

  pub take-append : (xs ys : List A) → take (length xs) (xs ++ ys) ≡ xs
  take-append [] ys = refl
  take-append (x ∷ xs) ys = ap (λ r. x ∷ r) (take-append xs ys)

  drop-nil : (m : ℕ) → ◌≡◌ {A = List A} (drop m []) []
  drop-nil zero = refl
  drop-nil (suc m) = refl

  pub drop-drop : (m n : ℕ) (xs : List A) → drop m (drop n xs) ≡ drop (n + m) xs
  drop-drop m zero xs = ap (λ (k : ℕ). drop k xs) (omega arith)
  drop-drop m (suc n) [] = rw suc-add (drop-nil m)
  drop-drop m (suc n) (x ∷ xs) = rw suc-add (drop-drop m n xs)

module _ {ℓ κ} {A : Type ℓ} (P : A → Type κ) where
  All-append : (xs ys : List A) → All P xs → All P ys → All P (xs ++ ys)
  All-append [] ys p q = q
  All-append (x ∷ xs) ys p q = (p.0, All-append xs ys p.1 q)

  pub All-take : (n : ℕ) (xs : List A) → All P xs → All P (take n xs)
  All-take zero xs p = tt
  All-take (suc n) [] p = tt
  All-take (suc n) (x ∷ xs) p = (p.0, All-take n xs p.1)

  pub All-drop : (n : ℕ) (xs : List A) → All P xs → All P (drop n xs)
  All-drop zero xs p = p
  All-drop (suc n) [] p = tt
  All-drop (suc n) (x ∷ xs) p = All-drop n xs p.1

pub take_all {ℓ} :
    {A : Type ℓ} (n : ℕ) (xs : List A) → length xs ≤ n → (take n xs ≡ xs) × (drop n xs ≡ [])
take_all zero [] h = (refl, refl)
take_all zero (x ∷ xs) h = absurd (omega (arith, h))
take_all (suc n) [] h = (refl, refl)
take_all (suc n) (x ∷ xs) h =
    let (a, b) = take_all n xs (omega (arith, h)) in (ap (λ r. x ∷ r) a, b)

pub nil_of_length {ℓ} : {A : Type ℓ} (xs : List A) → length xs ≡ 0 → xs ≡ []
nil_of_length [] h = refl
nil_of_length (x ∷ xs) h = absurd (omega (arith, h))

pub take-take {ℓ} : {A : Type ℓ} (m k : ℕ) (xs : List A) → m ≤ k → take m (take k xs) ≡ take m xs
take-take zero k xs h = refl
take-take (suc m) zero xs h = absurd (omega (arith, h))
take-take (suc m) (suc k) [] h = refl
take-take (suc m) (suc k) (x ∷ xs) h = ap (λ r. x ∷ r) (take-take m k xs (omega (arith, h)))

pub drop-take {ℓ} :
    {A : Type ℓ} (k m n : ℕ) (xs : List A) → n ≡ k + m → drop k (take n xs) ≡ take m (drop k xs)
drop-take zero m n xs h = ap (λ i. take i xs) (omega (arith, h))
drop-take (suc k) m zero xs h = absurd (omega (arith, h))
drop-take (suc k) zero (suc n) [] h = refl
drop-take (suc k) (suc m) (suc n) [] h = refl
drop-take (suc k) m (suc n) (x ∷ xs) h = drop-take k m n xs (omega (arith, h))
