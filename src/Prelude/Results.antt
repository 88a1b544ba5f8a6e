-- ===== src/Prelude/Results.antt =====
-- What a Go function comes back with: values and a nil error, an error, or a panic.
use mathlib.Core.Path.{◌≡◌, refl, ap, ◌∙◌}
use mathlib.Core.Logic.{◌≢◌}
use ghostunnel.Prelude.Tests.{if◌then◌else◌}
use mathlib.Core.Bool.{Bool, true, false}

pub data Result {ℓ κ} (E : Type ℓ) (A : Type κ) : Type (ℓ ⊔ κ) where
  ok : A → Result E A
  err : E → Result E A
  panic : Result E A

infixl 5 ◌>>=◌ ◌>>◌
abbrev pub ◌>>=◌ {ℓ κ ι} :
    {E : Type ℓ} {A : Type κ} {B : Type ι} → Result E A → (A → Result E B) → Result E B
panic >>= next = panic
err x >>= next = err x
ok value >>= next = next value

abbrev pub ◌>>◌ {ℓ κ} : {E : Type ℓ} {B : Type κ} → Result E (Unit {0}) → Result E B → Result E B
first >> second = first >>= λ _. second

-- `if bad { return err }`
abbrev pub fail_if {ℓ} : {E : Type ℓ} → Bool → E → Result E (Unit {0})
fail_if true e = err e
fail_if false e = ok tt

-- A step that came to `out` had a first part that came to some value.
pub >>=-eq-ok {ℓ κ ι} :
    {E : Type ℓ} {A : Type κ} {B : Type ι} (first : Result E A) (next : A → Result E B) {out : B}
    → (first >>= next) ≡ ok out
    → (value : A) × (first ≡ ok value) × (next value ≡ ok out)
>>=-eq-ok panic next e = cc
>>=-eq-ok (err x) next e = cc
>>=-eq-ok (ok value) next e = (value, refl, e)

-- If both parts of a step come to a value, so does the step.
pub >>=-ok {ℓ κ ι} :
    {E : Type ℓ} {A : Type κ} {B : Type ι} (first : Result E A) (next : A → Result E B) {a : A}
    → first ≡ ok a
    → (out : B) × (next a ≡ ok out)
    → (out : B) × ((first >>= next) ≡ ok out)
>>=-ok first next e (out, h) = (out, ap (λ r. r >>= next) e ∙ h)

pub ok-injective {ℓ κ} :
    {E : Type ℓ} {A : Type κ} {a b : A} → ◌≡◌ {A = Result E A} (ok a) (ok b) → a ≡ b
ok-injective h = cc

-- No panic, and a value has the property.
abbrev pub Holds {ℓ κ} : {E : Type ℓ} {A : Type κ} → (A → Type 0) → Result E A → Type 0
Holds P (ok a) = P a
Holds P (err e) = Unit
Holds P panic = ⊥

abbrev pub Returns {ℓ κ} : {E : Type ℓ} {A : Type κ} → Result E A → Type 0
Returns r = Holds (λ _. Unit) r

pub Returns-no_panic {ℓ κ} : {E : Type ℓ} {A : Type κ} (r : Result E A) → Returns r → r ≢ panic
Returns-no_panic (ok a) h = λ e. cc
Returns-no_panic (err x) h = λ e. cc
Returns-no_panic panic h = absurd h

-- A step comes back if both of its parts do.
pub >>=-Returns {ℓ κ ι} :
    {E : Type ℓ} {A : Type κ} {B : Type ι} (P : A → Type 0) (r : Result E A) (next : A → Result E B)
    → Holds P r
    → ((a : A) → P a → Returns (next a))
    → Returns (r >>= next)
>>=-Returns P (ok a) next p f = f a p
>>=-Returns P (err e) next p f = tt
>>=-Returns P panic next p f = absurd p

pub ite-Returns {ℓ κ} :
    {E : Type ℓ} {A : Type κ} (b : Bool) (r s : Result E A)
    → Returns r
    → Returns s
    → Returns (if b then r else s)
ite-Returns true r s h k = h
ite-Returns false r s h k = k

-- A step that panics after a first part that comes back panics in its second part.
pub >>=-eq-panic {ℓ κ ι} :
    {E : Type ℓ} {A : Type κ} {B : Type ι} (first : Result E A) (next : A → Result E B)
    → Returns first
    → (first >>= next) ≡ panic
    → (value : A) × (first ≡ ok value) × (next value ≡ panic)
>>=-eq-panic (ok value) next r e = (value, refl, e)
>>=-eq-panic (err x) next r e = cc
>>=-eq-panic panic next r e = absurd r
