-- ===== src/Base/Outcome.antt =====
-- How a run of C code ends, and how two parts of it follow one another.
use mathlib.Core.Bool.{Bool, true, false}
use mathlib.Core.Path.{◌≡◌, refl, subst}

-- `fault` is undefined behaviour, as an access outside an object; `hang` is a loop that never ends;
-- `stop` is `exit` or a failed `assert`; `starved` says that the model's fuel ran out.
pub data Outcome {ℓ} (A : Type ℓ) : Type ℓ where
  ok : A → Outcome A
  fault hang stop starved : Outcome A

infixl 5 ◌>>=◌
abbrev pub ◌>>=◌ {ℓ κ} : {A : Type ℓ} {B : Type κ} → Outcome A → (A → Outcome B) → Outcome B
ok a >>= f = f a
fault >>= f = fault
hang >>= f = hang
stop >>= f = stop
starved >>= f = starved

-- A part that is run after two others is run after the second.
pub then_assoc {ℓ κ μ} :
    {A : Type ℓ} {B : Type κ} {C : Type μ} (o : Outcome A) (f : A → Outcome B) (g : B → Outcome C)
    → ((o >>= f) >>= g) ≡ (o >>= λ a. f a >>= g)
then_assoc (ok a) f g = refl
then_assoc fault f g = refl
then_assoc hang f g = refl
then_assoc stop f g = refl
then_assoc starved f g = refl

-- What follows can be replaced by what agrees with it.
pub then_ext {ℓ κ} :
    {A : Type ℓ} {B : Type κ} (o : Outcome A) (f g : A → Outcome B)
    → ((a : A) → f a ≡ g a)
    → (o >>= f) ≡ (o >>= g)
then_ext (ok a) f g h = h a
then_ext fault f g h = refl
then_ext hang f g h = refl
then_ext stop f g h = refl
then_ext starved f g h = refl

-- What holds of the result of a run, if there is one.
abbrev pub IfOk {ℓ κ} : {A : Type ℓ} → (A → Type κ) → Outcome A → Type κ
IfOk P (ok a) = P a
IfOk P fault = Unit
IfOk P hang = Unit
IfOk P stop = Unit
IfOk P starved = Unit

pub IfOk-then {ℓ κ μ ν} :
    {A : Type ℓ} {B : Type κ} (P : A → Type μ) (Q : B → Type ν) (o : Outcome A) (f : A → Outcome B)
    → IfOk P o
    → ((a : A) → P a → IfOk Q (f a))
    → IfOk Q (o >>= f)
IfOk-then P Q (ok a) f h k = k a h
IfOk-then P Q fault f h k = tt
IfOk-then P Q hang f h k = tt
IfOk-then P Q stop f h k = tt
IfOk-then P Q starved f h k = tt

pub IfOk-any {ℓ} : {A : Type ℓ} (o : Outcome A) → IfOk (λ _. Unit {0}) o
IfOk-any (ok a) = tt
IfOk-any fault = tt
IfOk-any hang = tt
IfOk-any stop = tt
IfOk-any starved = tt

pub IfOk-ok {ℓ κ} :
    {A : Type ℓ} (P : A → Type κ) (o : Outcome A) (a : A) → IfOk P o → o ≡ ok a → P a
IfOk-ok P o a h e = subst (IfOk P) e h

pub IfOk-imp {ℓ κ μ} :
    {A : Type ℓ} (P : A → Type κ) (Q : A → Type μ) (o : Outcome A)
    → IfOk P o
    → ((a : A) → P a → Q a)
    → IfOk Q o
IfOk-imp P Q (ok a) h k = k a h
IfOk-imp P Q fault h k = tt
IfOk-imp P Q hang h k = tt
IfOk-imp P Q stop h k = tt
IfOk-imp P Q starved h k = tt

-- A run that does not want for fuel.
abbrev pub Ends {ℓ} : {A : Type ℓ} → Outcome A → Type 0
Ends (ok a) = Unit
Ends fault = Unit
Ends hang = Unit
Ends stop = Unit
Ends starved = ⊥

pub Ends-then {ℓ κ} :
    {A : Type ℓ} {B : Type κ} (o : Outcome A) (f : A → Outcome B)
    → Ends o
    → ((a : A) → Ends (f a))
    → Ends (o >>= f)
Ends-then (ok a) f h k = k a
Ends-then fault f h k = tt
Ends-then hang f h k = tt
Ends-then stop f h k = tt
Ends-then starved f h k = absurd h

pub either-Ends {ℓ} :
    {A : Type ℓ} (b : Bool) (x y : Outcome A)
    → Ends x
    → Ends y
    → Ends (elim b [ true ↦ x | false ↦ y ])
either-Ends true x y h k = h
either-Ends false x y h k = k

-- A run that does not want for fuel, and what holds of its result, if there is one.
abbrev pub Gives {ℓ} : {A : Type ℓ} → (A → Type 0) → Outcome A → Type 0
Gives P (ok a) = P a
Gives P fault = Unit
Gives P hang = Unit
Gives P stop = Unit
Gives P starved = ⊥

pub Gives-then {ℓ κ} :
    {A : Type ℓ} {B : Type κ} (P : A → Type 0) (Q : B → Type 0) (o : Outcome A) (f : A → Outcome B)
    → Gives P o
    → ((a : A) → P a → Gives Q (f a))
    → Gives Q (o >>= f)
Gives-then P Q (ok a) f h k = k a h
Gives-then P Q fault f h k = tt
Gives-then P Q hang f h k = tt
Gives-then P Q stop f h k = tt
Gives-then P Q starved f h k = absurd h

pub Ends-Gives {ℓ κ} :
    {A : Type ℓ} {B : Type κ} (Q : B → Type 0) (o : Outcome A) (f : A → Outcome B)
    → Ends o
    → ((a : A) → Gives Q (f a))
    → Gives Q (o >>= f)
Ends-Gives Q (ok a) f h k = k a
Ends-Gives Q fault f h k = tt
Ends-Gives Q hang f h k = tt
Ends-Gives Q stop f h k = tt
Ends-Gives Q starved f h k = absurd h

pub Gives-imp {ℓ} :
    {A : Type ℓ} (P : A → Type 0) (Q : A → Type 0) (o : Outcome A)
    → Gives P o
    → ((a : A) → P a → Q a)
    → Gives Q o
Gives-imp P Q (ok a) h k = k a h
Gives-imp P Q fault h k = tt
Gives-imp P Q hang h k = tt
Gives-imp P Q stop h k = tt
Gives-imp P Q starved h k = absurd h

pub Gives-Ends-then {ℓ κ} :
    {A : Type ℓ} {B : Type κ} (P : A → Type 0) (o : Outcome A) (f : A → Outcome B)
    → Gives P o
    → ((a : A) → P a → Ends (f a))
    → Ends (o >>= f)
Gives-Ends-then P (ok a) f h k = k a h
Gives-Ends-then P fault f h k = tt
Gives-Ends-then P hang f h k = tt
Gives-Ends-then P stop f h k = tt
Gives-Ends-then P starved f h k = absurd h

-- What follows can be replaced by what agrees with it on the results that there can be.
pub then_ext_ok {ℓ κ} :
    {A : Type ℓ} {B : Type κ} (P : A → Type 0) (o : Outcome A) (f g : A → Outcome B)
    → Gives P o
    → ((a : A) → P a → f a ≡ g a)
    → (o >>= f) ≡ (o >>= g)
then_ext_ok P (ok a) f g h k = k a h
then_ext_ok P fault f g h k = refl
then_ext_ok P hang f g h k = refl
then_ext_ok P stop f g h k = refl
then_ext_ok P starved f g h k = absurd h
