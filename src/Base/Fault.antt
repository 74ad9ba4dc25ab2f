-- ===== src/Base/Fault.antt =====
-- Code that may fault: `none` is a read or a write outside a buffer, which C leaves undefined.
use mathlib.Core.Bool.{Bool, true, false}
use mathlib.Core.Option.{Option, none, some}

infixl 5 ◌>>=◌
abbrev pub ◌>>=◌ {ℓ κ} : {A : Type ℓ} {B : Type κ} → Option A → (A → Option B) → Option B
none >>= f = none
some a >>= f = f a

-- An access that is allowed only if the test holds.
abbrev pub checked {ℓ} : {A : Type ℓ} → Bool → A → Option A
checked true a = some a
checked false a = none
