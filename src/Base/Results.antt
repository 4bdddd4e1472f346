-- ===== src/Base/Results.antt =====
-- Fallible code: Rust's `Result<A, E>` and its `?`.
use mathlib.Core.Path.{◌≡◌, refl}
use mathlib.Core.Bool.{Bool, true, false}
use mathlib.Core.Logic.{◌⊎◌, inl, inr}
use mathlib.Core.Option.{Option, none, some}

pub data Result {ℓ} (E : Type 0) (A : Type ℓ) : Type ℓ where
  ok : A → Result E A
  err : E → Result E A

infixl 5 ◌>>=◌
abbrev pub ◌>>=◌ {ℓ κ} :
    {E : Type 0} {A : Type ℓ} {B : Type κ} → Result E A → (A → Result E B) → Result E B
(err failure) >>= next = err failure
(ok result) >>= next = next result

-- `check?;`
infixl 5 ◌>>◌
abbrev pub ◌>>◌ {κ} : {E : Type 0} {B : Type κ} → Result E (Unit {0}) → Result E B → Result E B
(err failure) >> next = err failure
(ok _) >> next = next

-- `if bad { return Err(e) }`
abbrev pub fail_if : {E : Type 0} → Bool → E → Result E (Unit {0})
fail_if true e = err e
fail_if false e = ok tt

-- `Option::ok_or`
abbrev pub ok_or {ℓ} : {E : Type 0} {A : Type ℓ} → Option A → E → Result E A
ok_or none e = err e
ok_or (some a) e = ok a

-- What a chain that succeeds has made on the way.
pub >>=-eq-ok {ℓ κ} :
    {E : Type 0} {A : Type ℓ} {B : Type κ} (first : Result E A) (next : A → Result E B) {made : B}
    → (first >>= next) ≡ ok made
    → (between : A) × (first ≡ ok between) × (next between ≡ ok made)
>>=-eq-ok (err failure) next h = cc
>>=-eq-ok (ok between) next h = (between, refl, h)

pub Result-cases {ℓ} :
    {E : Type 0} {A : Type ℓ} (r : Result E A)
    → ((made : A) × (r ≡ ok made)) ⊎ ((failure : E) × (r ≡ err failure))
Result-cases (err failure) = inr (failure, refl)
Result-cases (ok made) = inl (made, refl)

pub >>-eq-ok {κ} :
    {E : Type 0} {B : Type κ} (first : Result E (Unit {0})) (next : Result E B) {made : B}
    → (first >> next) ≡ ok made
    → (first ≡ ok tt) × (next ≡ ok made)
>>-eq-ok (err failure) next h = cc
>>-eq-ok (ok checked) next h = (refl, h)

pub fail_if-eq-ok {κ} :
    {E : Type 0} {B : Type κ} (bad : Bool) (failure : E) (next : Result E B) {made : B}
    → (fail_if bad failure >> next) ≡ ok made
    → (bad ≡ false) × (next ≡ ok made)
fail_if-eq-ok true failure next h = cc
fail_if-eq-ok false failure next h = (refl, h)

pub >>=-cong {ℓ κ} :
    {E : Type 0} {A : Type ℓ} {B : Type κ} (first : Result E A) (next other : A → Result E B)
    → ((a : A) → next a ≡ other a)
    → (first >>= next) ≡ (first >>= other)
>>=-cong (ok a) next other h = h a
>>=-cong (err failure) next other h = refl
