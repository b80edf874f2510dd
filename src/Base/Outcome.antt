-- ===== src/Base/Outcome.antt =====
-- The result of code that may raise: a value or an exception. `do` blocks read `◌>>=◌` and `◌>>◌`.
use mathlib.Core.Path.{◌≡◌, refl}
use mathlib.Core.Bool.{Bool, true, false}

pub data Result {ℓ κ} (E : Type ℓ) (A : Type κ) : Type (ℓ ⊔ κ) where
  ok : A → Result E A
  err : E → Result E A

infixl 5 ◌>>=◌ ◌>>◌
abbrev pub ◌>>=◌ {ℓ κ μ} :
    {E : Type ℓ} {A : Type κ} {B : Type μ} → Result E A → (A → Result E B) → Result E B
ok a >>= f = f a
err e >>= f = err e

abbrev pub ◌>>◌ {ℓ κ} : {E : Type ℓ} {B : Type κ} → Result E (Unit {0}) → Result E B → Result E B
m >> k = m >>= λ _. k

abbrev pub is_ok {ℓ κ} : {E : Type ℓ} {A : Type κ} → Result E A → Bool
is_ok (ok a) = true
is_ok (err e) = false

-- A chain that returns has passed a value on from its first step.
pub ok-chain {ℓ κ μ} :
    {E : Type ℓ} {A : Type κ} {B : Type μ} {last : B} (first : Result E A) (second : A → Result E B)
    → first >>= second ≡ ok last
    → (v : A) × (first ≡ ok v) × (second v ≡ ok last)
ok-chain (err x) second returned = absurd (cc returned)
ok-chain (ok v) second returned = (v, refl, returned)

-- `if not condition: raise error`
abbrev pub require {ℓ} : {E : Type ℓ} → Bool → E → Result E (Unit {0})
require true e = ok tt
require false e = err e

-- A step on a state that may raise; the state outlives the exception.
abbrev pub and_then {ℓ κ μ ν} :
    {S : Type ℓ} {E : Type κ} {A : Type μ} {B : Type ν}
    → S × Result E A
    → (A → S → S × Result E B)
    → S × Result E B
and_then (s, ok a) f = f a s
and_then (s, err e) f = (s, err e)

pub and_then_ind {ℓ κ μ ν ξ} :
    {S : Type ℓ} {E : Type κ} {A : Type μ} {B : Type ν} (P : S × Result E B → Type ξ)
    (t : S × Result E A) {f : A → S → S × Result E B}
    → ((s : S) (a : A) → t ≡ (s, ok a) → P (f a s))
    → ((s : S) (e : E) → t ≡ (s, err e) → P (s, err e))
    → P (and_then t f)
and_then_ind P (s, ok a) done failed = done s a refl
and_then_ind P (s, err e) done failed = failed s e refl

-- Where a chain returns, its first step returned, and the chain is its second step from there.
pub and_then-eq-ok {ℓ κ μ ν} :
    {S : Type ℓ} {E : Type κ} {A : Type μ} {B : Type ν} (t : S × Result E A)
    (f : A → S → S × Result E B) {b : B}
    → (and_then t f).1 ≡ ok b
    → (a : A) × (t.1 ≡ ok a) × (and_then t f ≡ f a t.0)
and_then-eq-ok (s, ok a) f h = (a, refl, refl)
and_then-eq-ok (s, err e) f h = cc

pub ok-injective {ℓ κ} :
    {E : Type ℓ} {A : Type κ} {a b : A} → ◌≡◌ {A = Result E A} (ok a) (ok b) → a ≡ b
ok-injective h = cc

-- `try`: what is done with the exception, and with the value.
abbrev pub attempt {ℓ κ μ} :
    {E : Type ℓ} {A : Type κ} {B : Type μ} → Result E A → (E → B) → (A → B) → B
attempt (ok a) f g = g a
attempt (err e) f g = f e

pub attempt_ind {ℓ κ μ ν} :
    {E : Type ℓ} {A : Type κ} {B : Type μ} (P : B → Type ν) (t : Result E A) {f : E → B} {g : A → B}
    → ((e : E) → t ≡ err e → P (f e))
    → ((a : A) → t ≡ ok a → P (g a))
    → P (attempt t f g)
attempt_ind P (ok a) failing done = done a refl
attempt_ind P (err e) failing done = failing e refl
