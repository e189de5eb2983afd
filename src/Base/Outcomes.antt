-- ===== src/Base/Outcomes.antt =====
-- What holds of a result whenever there is one, through the steps of a computation.
use mathlib.Core.Bool.{Bool, true, false}
use mathlib.Core.Option.{Option, none, some}
use cosimus.Base.Tests.{if◌then◌else◌, ◌>>=◌}

-- What holds of the result, if there is one.
abbrev pub Always {ℓ} : {A : Type ℓ} → (A → Type 0) → Option A → Type 0
Always P none = Unit
Always P (some a) = P a

pub Always-bind {ℓ κ} :
    {A : Type ℓ} {B : Type κ} (P : B → Type 0) (o : Option A) (f : A → Option B)
    → ((a : A) → Always P (f a))
    → Always P (o >>= f)
Always-bind P none f h = tt
Always-bind P (some a) f h = h a

pub Always-then {ℓ κ} :
    {A : Type ℓ} {B : Type κ} (Q : A → Type 0) (P : B → Type 0) (o : Option A) (f : A → Option B)
    → Always Q o
    → ((a : A) → Q a → Always P (f a))
    → Always P (o >>= f)
Always-then Q P none f q h = tt
Always-then Q P (some a) f q h = h a q

pub Always-if {ℓ} :
    {A : Type ℓ} (P : A → Type 0) (b : Bool) (x y : Option A)
    → Always P x
    → Always P y
    → Always P (if b then x else y)
Always-if P true x y p q = p
Always-if P false x y p q = q

pub either {ℓ} :
    {A : Type ℓ} (P : A → Type 0) (b : Bool) (x y : A) → P x → P y → P (if b then x else y)
either P true x y p q = p
either P false x y p q = q

pub Always-weaken {ℓ} :
    {A : Type ℓ} (P Q : A → Type 0) (o : Option A) → ((a : A) → P a → Q a) → Always P o → Always Q o
Always-weaken P Q none h q = tt
Always-weaken P Q (some a) h q = h a q
