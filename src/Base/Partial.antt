-- ===== src/Base/Partial.antt =====
-- Code that may meet undefined behaviour: `none` is a read or write through a null or dangling
-- pointer, or a failed assertion.
use mathlib.Core.Path.{◌≡◌, ap}
use mathlib.Core.Option.{Option, none, some}

infixl 5 ◌>>=◌
abbrev pub ◌>>=◌ {ℓ κ} : {A : Type ℓ} {B : Type κ} → Option A → (A → Option B) → Option B
none >>= k = none
some a >>= k = k a

pub bind_some {ℓ κ} :
    {A : Type ℓ} {B : Type κ} {m : Option A} {a : A} (k : A → Option B)
    → m ≡ some a
    → (m >>= k) ≡ k a
bind_some k e = ap (λ m. m >>= k) e
