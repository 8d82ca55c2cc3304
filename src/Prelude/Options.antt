-- ===== src/Prelude/Options.antt =====
-- Options in sequence, for `do` blocks.
use mathlib.Core.Bool.{Bool, true, false}
use recon_ledger.Prelude.Tests.{if◌then◌else◌}
use mathlib.Core.Option.{Option, none, some}

infixl 5 ◌>>=◌
abbrev pub ◌>>=◌ {ℓ κ} : {A : Type ℓ} {B : Type κ} → Option A → (A → Option B) → Option B
none >>= f = none
some a >>= f = f a

-- What holds of a result, if there is one.
abbrev pub IfAny {ℓ κ} : {A : Type ℓ} → (A → Type κ) → Option A → Type κ
IfAny P none = Unit
IfAny P (some a) = P a

module _ {ℓ κ μ ν} {A : Type ℓ} {B : Type κ} (P : A → Type μ) (Q : B → Type ν) where
  pub IfAny-then :
      (o : Option A) (k : A → Option B)
      → IfAny P o
      → ((a : A) → P a → IfAny Q (k a))
      → IfAny Q (o >>= k)
  IfAny-then none k h f = tt
  IfAny-then (some a) k h f = f a h

pub IfAny-then_any {ℓ κ ν} :
    {A : Type ℓ} {B : Type κ} (Q : B → Type ν) (o : Option A) (k : A → Option B)
    → ((a : A) → IfAny Q (k a))
    → IfAny Q (o >>= k)
IfAny-then_any Q none k f = tt
IfAny-then_any Q (some a) k f = f a

pub IfAny-if {ℓ κ} :
    {A : Type ℓ} (P : A → Type κ) (b : Bool) (o q : Option A)
    → IfAny P o
    → IfAny P q
    → IfAny P (if b then o else q)
IfAny-if P true o q h k = h
IfAny-if P false o q h k = k

pub IfAny-imp {ℓ κ μ} :
    {A : Type ℓ} (P : A → Type κ) (Q : A → Type μ) (o : Option A)
    → ((a : A) → P a → Q a)
    → IfAny P o
    → IfAny Q o
IfAny-imp P Q none k h = tt
IfAny-imp P Q (some a) k h = k a h
