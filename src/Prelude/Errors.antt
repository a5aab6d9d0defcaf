-- ===== src/Prelude/Errors.antt =====
-- C++ exceptions as values. A throw carries the class of the exception; message texts are dropped.
use mathlib.Core.Path.{◌≡◌, refl}
use mathlib.Core.Option.{Option, none, some}
use mathlib.Core.Bool.{Bool, true, false}

-- `undefined_behaviour` is no exception: it marks a run that leaves the language's contract, such
-- as an access through a dangling pointer.
pub data Exception : Type 0 where
  runtime_error invalid_argument system_error overflow_error bad_alloc : Exception
  undefined_behaviour : Exception

pub data Result {ℓ} (A : Type ℓ) : Type ℓ where
  ok : A → Result A
  err : Exception → Result A

-- A throw skips the rest of the function.
abbrev pub ◌>>=◌ {ρ σ} : {S : Type ρ} {T : Type σ} → Result S → (S → Result T) → Result T
err thrown >>= rest = err thrown
ok s >>= rest = rest s

infixl 5 ◌>>=◌ ◌>>◌
-- `if (!condition) throw e`
abbrev pub require : Bool → Exception → Result (Unit {0})
require true e = ok tt
require false e = err e

abbrev pub or_throw {ℓ} : {A : Type ℓ} → Option A → Exception → Result A
or_throw none e = err e
or_throw (some a) e = ok a

abbrev pub ◌>>◌ {σ} : {T : Type σ} → Result (Unit {0}) → Result T → Result T
err thrown >> rest = err thrown
ok s >> rest = rest

-- `P` holds of a result: `Returns` also says that nothing was thrown, `IfReturns` does not.
abbrev pub Returns {ℓ} : {A : Type ℓ} → (A → Type 0) → Result A → Type 0
Returns P (ok a) = P a
Returns P (err e) = ⊥

abbrev pub IfReturns {ℓ κ} : {A : Type ℓ} → (A → Type κ) → Result A → Type κ
IfReturns P (ok a) = P a
IfReturns P (err e) = Unit

module _ {ℓ κ} {A : Type ℓ} {B : Type κ} (P : A → Type 0) (Q : B → Type 0) where
  pub Returns-bind :
      (m : Result A) (f : A → Result B)
      → Returns P m
      → ((a : A) → P a → Returns Q (f a))
      → Returns Q (m >>= f)
  Returns-bind (ok a) f h k = k a h
  Returns-bind (err e) f h k = h

  pub IfReturns-bind :
      (m : Result A) (f : A → Result B)
      → IfReturns P m
      → ((a : A) → P a → IfReturns Q (f a))
      → IfReturns Q (m >>= f)
  IfReturns-bind (ok a) f h k = k a h
  IfReturns-bind (err e) f h k = tt

pub IfReturns-require {ℓ κ} :
    {B : Type ℓ} (Q : B → Type κ) (b : Bool) (e : Exception) (f : Unit {0} → Result B)
    → (b ≡ true → IfReturns Q (f tt))
    → IfReturns Q (require b e >>= f)
IfReturns-require Q true e f k = k refl
IfReturns-require Q false e f k = tt

pub IfReturns-or_throw {ℓ κ μ} :
    {A : Type ℓ} {B : Type κ} (Q : B → Type μ) (o : Option A) (e : Exception) (f : A → Result B)
    → ((a : A) → o ≡ some a → IfReturns Q (f a))
    → IfReturns Q (or_throw o e >>= f)
IfReturns-or_throw Q none e f k = tt
IfReturns-or_throw Q (some a) e f k = k a refl

pub IfReturns-any {ℓ} : {A : Type ℓ} (m : Result A) → IfReturns (λ a. Unit {0}) m
IfReturns-any (ok a) = tt
IfReturns-any (err e) = tt

pub IfReturns-of_Returns {ℓ κ} :
    {A : Type ℓ} (P : A → Type 0) (Q : A → Type κ) (m : Result A)
    → Returns P m
    → ((a : A) → P a → Q a)
    → IfReturns Q m
IfReturns-of_Returns P Q (ok a) h k = k a h
IfReturns-of_Returns P Q (err e) h k = tt

pub Returns-imp {ℓ} :
    {A : Type ℓ} (P Q : A → Type 0) (m : Result A)
    → Returns P m
    → ((a : A) → P a → Q a)
    → Returns Q m
Returns-imp P Q (ok a) h k = k a h
Returns-imp P Q (err e) h k = h

pub ok-inj {ℓ} : {A : Type ℓ} {a b : A} → ok a ≡ ok b → a ≡ b
ok-inj h = cc

-- What returns after a step has a step that returned.
pub bind-ok {ℓ κ} :
    {A : Type ℓ} {B : Type κ} (m : Result A) (f : A → Result B) (b : B)
    → (m >>= f) ≡ ok b
    → (a : A) × ((m ≡ ok a) × (f a ≡ ok b))
bind-ok (ok a) f b h = (a, (refl, h))
bind-ok (err e) f b h = cc

pub bind_assoc {ℓ κ μ} :
    {A : Type ℓ} {B : Type κ} {C : Type μ} (m : Result A) (f : A → Result B) (g : B → Result C)
    → ((m >>= λ a. (f a >>= g)) ≡ (m >>= f >>= g))
bind_assoc (ok a) f g = refl
bind_assoc (err e) f g = refl

pub Returns-ok {ℓ} :
    {A : Type ℓ} (P : A → Type 0) (m : Result A) → Returns P m → (a : A) × ((m ≡ ok a) × P a)
Returns-ok P (ok a) h = (a, (refl, h))
Returns-ok P (err e) h = absurd h

pub bind_congr {ℓ κ} :
    {A : Type ℓ} {B : Type κ} (m : Result A) (f g : A → Result B)
    → ((a : A) → f a ≡ g a)
    → ((m >>= f) ≡ (m >>= g))
bind_congr (ok a) f g h = h a
bind_congr (err e) f g h = refl

pub Returns-both {ℓ} :
    {A : Type ℓ} (P Q : A → Type 0) (m : Result A)
    → Returns P m
    → Returns Q m
    → Returns (λ a. P a × Q a) m
Returns-both P Q (ok a) p q = (p, q)
Returns-both P Q (err e) p q = p

-- Two continuations that agree on what the step returns.
pub bind_congr_ok {ℓ κ} :
    {A : Type ℓ} {B : Type κ} (m : Result A) (f g : A → Result B)
    → ((a : A) → m ≡ ok a → f a ≡ g a)
    → ((m >>= f) ≡ (m >>= g))
bind_congr_ok (ok a) f g h = h a refl
bind_congr_ok (err e) f g h = refl
