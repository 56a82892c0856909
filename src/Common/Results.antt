-- ===== src/Common/Results.antt =====
-- The outcome of code that may raise: a value, or the exception.
use mathlib.Core.Path.{◌≡◌, refl}
use mathlib.Core.Logic.{◌⊎◌, inl, inr}
use mathlib.Core.Bool.{Bool, true, false}
use mathlib.Core.List.{List, [], ◌∷◌}

pub data Result {ℓ κ} (E : Type ℓ) (A : Type κ) : Type (ℓ ⊔ κ) where
  ok : A → Result E A
  err : E → Result E A

infixl 5 ◌>>=◌ ◌>>◌
abbrev pub ◌>>=◌ {ℓ₁ ℓ₂ ℓ₃} :
    {Error : Type ℓ₁} {From : Type ℓ₂} {To : Type ℓ₃}
    → Result Error From
    → (From → Result Error To)
    → Result Error To
◌>>=◌ (err raised) next = err raised
◌>>=◌ (ok value) next = next value

abbrev pub ◌>>◌ {ℓ₁ ℓ₂ ℓ₃} :
    {Error : Type ℓ₁} {From : Type ℓ₂} {To : Type ℓ₃}
    → Result Error From
    → Result Error To
    → Result Error To
first >> second = first >>= λ _. second

-- `if not b: raise e`
abbrev pub require {ℓ} : {E : Type ℓ} → Bool → E → Result E (Unit {0})
require true e = ok tt
require false e = err e

-- A comprehension whose element expression may raise.
unfoldable pub traverse {ℓ κ ι} :
    {E : Type ℓ} {A : Type κ} {B : Type ι} → (A → Result E B) → List A → Result E (List B)
traverse f [] = ok []
traverse f (x ∷ xs) = do y ← f x; ys ← traverse f xs; ok (y ∷ ys)

-- A sequence that returned: so did its first part, with a value for which the second returned.
pub >>=-eq-ok {ℓ₁ ℓ₂ ℓ₃} :
    {Error : Type ℓ₁} {From : Type ℓ₂} {To : Type ℓ₃}
    → (first : Result Error From) (next : From → Result Error To) {result : To}
    → (first >>= next) ≡ ok result
    → (value : From) × (first ≡ ok value) × (next value ≡ ok result)
>>=-eq-ok (err raised) next returned = cc
>>=-eq-ok (ok value) next returned = (value, refl, returned)

pub ok_injective {ℓ₁ ℓ₂} :
    {Error : Type ℓ₁} {From : Type ℓ₂} {left right : From}
    → ◌≡◌ {A = Result Error From} (ok left) (ok right)
    → left ≡ right
ok_injective same = cc

pub Result-cases {ℓ₁ ℓ₂} :
    {Error : Type ℓ₁} {Value : Type ℓ₂} (outcome : Result Error Value)
    → ((value : Value) × (outcome ≡ ok value)) ⊎ ((raised : Error) × (outcome ≡ err raised))
Result-cases (err raised) = inr (raised, refl)
Result-cases (ok value) = inl (value, refl)
