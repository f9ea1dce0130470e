-- ===== src/Base/Partial.antt =====
-- Code that may panic, as chains of Option, and what holds of its result where there is one.
use bft.Base.Tests.{if◌then◌else◌}
use mathlib.Core.Path.{◌≡◌, refl, subst}
use mathlib.Core.Bool.{Bool, true, false}
use mathlib.Core.Option.{Option, none, some}
use native.Mathlib.Omega.{arith}

infixl 5 ◌>>=◌
abbrev pub ◌>>=◌ {ℓ κ} : {A : Type ℓ} {B : Type κ} → Option A → (A → Option B) → Option B
none >>= f = none
some a >>= f = f a

-- P holds of the result, if there is one.
abbrev pub Post {ℓ κ} : {A : Type ℓ} → Option A → (A → Type κ) → Type κ
Post none P = Unit
Post (some a) P = P a

pub bind-Post {ℓ κ μ ν} :
    {A : Type ℓ} {B : Type κ} (m : Option A) (f : A → Option B) (P : A → Type μ) (Q : B → Type ν)
    → Post m P
    → ((a : A) → P a → Post (f a) Q)
    → Post (m >>= f) Q
bind-Post none f P Q h k = _
bind-Post (some a) f P Q h k = k a h

pub if-Post {ℓ κ} :
    {A : Type ℓ} (b : Bool) (x y : Option A) (P : A → Type κ)
    → (b ≡ true → Post x P)
    → (b ≡ false → Post y P)
    → Post (if b then x else y) P
if-Post true x y P h k = h refl
if-Post false x y P h k = k refl

-- The same with the equation that says where the result comes from.
pub eq-Post {ℓ κ} :
    {A : Type ℓ} (m : Option A) (P : A → Type κ) → ((a : A) → m ≡ some a → P a) → Post m P
eq-Post none P h = _
eq-Post (some a) P h = h a refl

pub Post-eq {ℓ κ} :
    {A : Type ℓ} (m : Option A) (a : A) (P : A → Type κ) → Post m P → m ≡ some a → P a
Post-eq none a P h e = absurd (cc e)
Post-eq (some b) a P h e = subst P {x = b} {y = a} (ground (arith, e)) h

-- The steps after one that may give anything.
pub then-Post {ℓ κ ν} :
    {A : Type ℓ} {B : Type κ} (m : Option A) (f : A → Option B) (Q : B → Type ν)
    → ((a : A) → m ≡ some a → Post (f a) Q)
    → Post (m >>= f) Q
then-Post none f Q k = _
then-Post (some a) f Q k = k a refl
