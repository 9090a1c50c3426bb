-- ===== src/Filesystem/Block/Engine/Binds.antt =====
-- How a step of the block store and what follows it can end.
use tick_framework.Base.{◌≡◌, ◌≢◌, ◌⊎◌, inl, inr, arith, ok, fail, panic, Res-cases}
use tick_framework.Utility.Kvstore.{Error}
use tick_framework.Filesystem.Block.Engine.{Store, M, ◌>>=◌}

stop_fail :
    {A B : Type 0} (m : M A) (f : A → M B) (s : Store) (x : Error)
    → (m s).0 ≡ fail x
    → (m >>= f) s ≡ (fail x, (m s).1)
stop_fail m f s x e = rw (e, ◌>>=◌)

stop_panic :
    {A B : Type 0} (m : M A) (f : A → M B) (s : Store)
    → (m s).0 ≡ panic
    → (m >>= f) s ≡ (panic, (m s).1)
stop_panic m f s e = rw (e, ◌>>=◌)

pub >>=_cases :
    {A B : Type 0} (m : M A) (f : A → M B) (s : Store)
    → ((a : A) × ((m s).0 ≡ ok a) × ((m >>= f) s ≡ f a (m s).1))
      ⊎ ((((m >>= f) s).1 ≡ (m s).1) × ((b : B) → ((m >>= f) s).0 ≢ ok b))
>>=_cases m f s = elim (Res-cases (m s).0) [
  | inl (a, e) ↦ inl (a, e, rw (e, ◌>>=◌))
  | inr (inl (x, e)) ↦
      let stop = stop_fail m f s x e in inr (rw stop, λ b h. absurd (ground (arith, stop)))
  | inr (inr e) ↦
      let stop = stop_panic m f s e in inr (rw stop, λ b h. absurd (ground (arith, stop)))
]
