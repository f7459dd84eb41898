-- ===== src/Prelude/Options.antt =====
-- Steps that may fail: chains of them, and what they return.
use mathlib.Core.Path.{◌≡◌, refl, subst}
use mathlib.Core.Option.{Option, none, some}
use mathlib.Core.Bool.{Bool, true, false}
use spines.Prelude.Tests.{if◌then◌else◌}
use native.Mathlib.Omega.{arith}

infixl 5 ◌>>=◌
abbrev pub ◌>>=◌ {ℓ κ} : {A : Type ℓ} {B : Type κ} → Option A → (A → Option B) → Option B
none >>= f = none
some a >>= f = f a

-- What returns something returned something on the way.
pub bind-some {ℓ κ} :
    {A : Type ℓ} {B : Type κ} (o : Option A) (f : A → Option B) (b : B)
    → (o >>= f) ≡ some b
    → (a : A) × (o ≡ some a) × (f a ≡ some b)
bind-some none f b h = ground arith
bind-some (some a) f b h = (a, refl, h)

-- Something is returned, and it meets the condition.
abbrev pub Returns {ℓ} : {A : Type ℓ} → Option A → (A → Type 0) → Type 0
Returns none P = ⊥
Returns (some a) P = P a

pub Returns-bind {ℓ κ} :
    {A : Type ℓ} {B : Type κ} (Q : A → Type 0) (P : B → Type 0) (o : Option A) (f : A → Option B)
    → Returns o Q
    → ((a : A) → Q a → Returns (f a) P)
    → Returns (o >>= f) P
Returns-bind Q P none f r k = absurd r
Returns-bind Q P (some a) f r k = k a r

pub Returns-if {ℓ} :
    {A : Type ℓ} (P : A → Type 0) (b : Bool) (o o' : Option A)
    → (b ≡ true → Returns o P)
    → (b ≡ false → Returns o' P)
    → Returns (if b then o else o') P
Returns-if P true o o' t f = t refl
Returns-if P false o o' t f = f refl

pub Returns-map {ℓ} :
    {A : Type ℓ} (Q P : A → Type 0) (o : Option A)
    → Returns o Q
    → ((a : A) → Q a → P a)
    → Returns o P
Returns-map Q P none r k = r
Returns-map Q P (some a) r k = k a r

-- What is returned, if anything is, meets the condition.
abbrev pub Whenever {ℓ} : {A : Type ℓ} → Option A → (A → Type 0) → Type 0
Whenever none P = Unit
Whenever (some a) P = P a

pub Whenever-bind {ℓ κ} :
    {A : Type ℓ} {B : Type κ} (Q : A → Type 0) (P : B → Type 0) (o : Option A) (f : A → Option B)
    → Whenever o Q
    → ((a : A) → Q a → Whenever (f a) P)
    → Whenever (o >>= f) P
Whenever-bind Q P none f r k = tt
Whenever-bind Q P (some a) f r k = k a r

pub Whenever-if {ℓ} :
    {A : Type ℓ} (P : A → Type 0) (b : Bool) (o o' : Option A)
    → (b ≡ true → Whenever o P)
    → (b ≡ false → Whenever o' P)
    → Whenever (if b then o else o') P
Whenever-if P true o o' t f = t refl
Whenever-if P false o o' t f = f refl

pub Returns-Whenever {ℓ} : {A : Type ℓ} (P : A → Type 0) (o : Option A) → Returns o P → Whenever o P
Returns-Whenever P none r = tt
Returns-Whenever P (some a) r = r

pub Whenever-some {ℓ} :
    {A : Type ℓ} (P : A → Type 0) (o : Option A) {a : A} → o ≡ some a → Whenever o P → P a
Whenever-some P o e r = subst (λ t. Whenever t P) e r

pub Returns-some {ℓ} :
    {A : Type ℓ} (P : A → Type 0) (o : Option A) {a : A} → o ≡ some a → Returns o P → P a
Returns-some P o e r = subst (λ t. Returns t P) e r
