-- ===== src/Base/Result.antt =====
-- What a Go call gives: its value, its error, or a run-time panic.
use mathlib.Core.Logic.{◌⊎◌, inl, inr}
use mathlib.Core.Path.{◌≡◌, refl}

pub data Res {ℓ} (E : Type 0) (A : Type ℓ) : Type ℓ where
  ok : A → Res E A
  fail : E → Res E A
  panic : Res E A

infixl 5 ◌>>=◌
abbrev pub ◌>>=◌ {ℓ κ} : {E : Type 0} {A : Type ℓ} {B : Type κ} → Res E A → (A → Res E B) → Res E B
ok a >>= f = f a
fail e >>= f = fail e
panic >>= f = panic

pub Res-cases {ℓ} :
    {E : Type 0} {A : Type ℓ} (r : Res E A)
    → ((a : A) × (r ≡ ok a)) ⊎ (((e : E) × (r ≡ fail e)) ⊎ (r ≡ panic))
Res-cases (ok a) = inl (a, refl)
Res-cases (fail e) = inr (inl (e, refl))
Res-cases panic = inr (inr refl)
