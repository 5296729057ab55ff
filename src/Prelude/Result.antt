-- ===== src/Prelude/Result.antt =====
-- A computation that ends with a value or with an error of the program.
use mathlib.Core.Bool.{Bool, true, false}
use mathlib.Core.Path.{◌≡◌, refl}

pub data Result {ℓ} (E A : Type ℓ) : Type ℓ where
  ok : A → Result E A
  err : E → Result E A

infixl 5 ◌>>=◌ ◌>>◌
abbrev pub ◌>>=◌ {ℓ} : {E A B : Type ℓ} → Result E A → (A → Result E B) → Result E B
ok a >>= f = f a
err e >>= f = err e

abbrev pub ◌>>◌ {ℓ} : {E B : Type ℓ} → Result E (Unit {ℓ}) → Result E B → Result E B
m >> k = m >>= λ _. k

-- `if (!test) err_fatal(...)`
abbrev pub guard {ℓ} : {E : Type ℓ} → Bool → E → Result E (Unit {ℓ})
guard true e = ok tt
guard false e = err e

-- The computation ends with a value that satisfies `P`.
abbrev pub Returns {ℓ} : {E A : Type ℓ} → Result E A → (A → Type 0) → Type 0
Returns (ok a) P = P a
Returns (err e) P = ⊥

-- The rule for one step of a chain.
pub Returns-bind {ℓ} :
    {E A B : Type ℓ} (m : Result E A) (f : A → Result E B) (P : A → Type 0) (Q : B → Type 0)
    → Returns m P
    → ((a : A) → P a → Returns (f a) Q)
    → Returns (m >>= f) Q
Returns-bind (ok a) f P Q h k = k a h
Returns-bind (err e) f P Q h k = absurd h

pub Returns-map {ℓ} :
    {E A : Type ℓ} (m : Result E A) (P Q : A → Type 0)
    → Returns m P
    → ((a : A) → P a → Q a)
    → Returns m Q
Returns-map (ok a) P Q h k = k a h
Returns-map (err e) P Q h k = absurd h

pub Returns-self :
    {E A : Type 0} (m : Result E A) (P : A → Type 0) → Returns m P → Returns m (λ a. m ≡ ok a)
Returns-self (ok a) P h = refl
Returns-self (err e) P h = absurd h

pub Returns-assoc {ℓ} :
    {E A B C : Type ℓ} (m : Result E A) (f : A → Result E B) (g : B → Result E C) (Q : C → Type 0)
    → Returns ((m >>= f) >>= g) Q
    → Returns (m >>= λ a. f a >>= g) Q
Returns-assoc (ok a) f g Q h = h
Returns-assoc (err e) f g Q h = h

pub bind_cong {ℓ} :
    {E A B : Type ℓ} (m : Result E A) (f g : A → Result E B)
    → ((a : A) → f a ≡ g a)
    → (m >>= f) ≡ (m >>= g)
bind_cong (ok a) f g h = h a
bind_cong (err e) f g h = refl

-- If the computation gives a value, the value satisfies `P`.
abbrev pub Keeps {ℓ} : {E A : Type ℓ} → Result E A → (A → Type 0) → Type 0
Keeps (ok a) P = P a
Keeps (err e) P = Unit

pub Keeps-bind {ℓ} :
    {E A B : Type ℓ} (m : Result E A) (f : A → Result E B) (P : A → Type 0) (Q : B → Type 0)
    → Keeps m P
    → ((a : A) → P a → Keeps (f a) Q)
    → Keeps (m >>= f) Q
Keeps-bind (ok a) f P Q h k = k a h
Keeps-bind (err e) f P Q h k = tt

pub bind_ok {ℓ} : {E A : Type ℓ} (m : Result E A) → m ≡ (m >>= λ a. ok a)
bind_ok (ok a) = refl
bind_ok (err e) = refl
