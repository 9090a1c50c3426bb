-- ===== src/Base/Lists.antt =====
-- Lists measured and cut by native numbers, under the library's names.
use Prim.Native.Nat.{ℕ, zero, suc, ◌+◌, ◌-◌, ◌≤◌, min}
use mathlib.Core.Path.{◌≡◌, refl, ap}
use mathlib.Core.List.{List, [], ◌∷◌, ◌++◌}
use native.Mathlib.Omega.{arith}

module _ {ℓ} {A : Type ℓ} where
  abbrev pub length : List A → ℕ
  length [] = 0
  length (x ∷ xs) = suc (length xs)

  abbrev pub take : ℕ → List A → List A
  take zero xs = []
  take (suc n) [] = []
  take (suc n) (x ∷ xs) = x ∷ take n xs

  abbrev pub drop : ℕ → List A → List A
  drop zero xs = xs
  drop (suc n) [] = []
  drop (suc n) (x ∷ xs) = drop n xs

  abbrev pub replicate : ℕ → A → List A
  replicate zero a = []
  replicate (suc n) a = a ∷ replicate n a

  pub length-append : (xs ys : List A) → length (xs ++ ys) ≡ length xs + length ys
  length-append [] ys = omega arith
  length-append (x ∷ xs) ys = omega (arith, length-append xs ys)

  pub length-take : (n : ℕ) (xs : List A) → length (take n xs) ≡ min n (length xs)
  length-take zero xs = omega arith
  length-take (suc n) [] = omega arith
  length-take (suc n) (x ∷ xs) = omega (arith, length-take n xs)

  pub length-drop : (n : ℕ) (xs : List A) → length (drop n xs) ≡ length xs - n
  length-drop zero xs = omega arith
  length-drop (suc n) [] = omega arith
  length-drop (suc n) (x ∷ xs) = omega (arith, length-drop n xs)

  -- The first list is exactly what a cut at its length takes off.
  pub take-append : (xs ys : List A) (n : ℕ) → n ≡ length xs → take n (xs ++ ys) ≡ xs
  take-append [] ys zero h = refl
  take-append [] ys (suc n) h = absurd (omega arith)
  take-append (x ∷ xs) ys zero h = absurd (omega arith)
  take-append (x ∷ xs) ys (suc n) h = ap (◌∷◌ x) (take-append xs ys n (omega arith))

  pub drop-append : (xs ys : List A) (n : ℕ) → n ≡ length xs → drop n (xs ++ ys) ≡ ys
  drop-append [] ys zero h = refl
  drop-append [] ys (suc n) h = absurd (omega arith)
  drop-append (x ∷ xs) ys zero h = absurd (omega arith)
  drop-append (x ∷ xs) ys (suc n) h = drop-append xs ys n (omega arith)

  pub take_of_length-le : (n : ℕ) (xs : List A) → length xs ≤ n → take n xs ≡ xs
  take_of_length-le zero [] bound = refl
  take_of_length-le (suc n) [] bound = refl
  take_of_length-le zero (x ∷ rest) bound = absurd (omega arith)
  take_of_length-le (suc n) (x ∷ rest) bound =
      ap (λ l. x ∷ l) (take_of_length-le n rest (omega arith))

module _ {ℓ} {A : Type ℓ} where
  pub drop_of_length-le : (n : ℕ) (xs : List A) → length xs ≤ n → drop n xs ≡ []
  drop_of_length-le zero [] bound = refl
  drop_of_length-le (suc n) [] bound = refl
  drop_of_length-le zero (x ∷ rest) bound = absurd (omega arith)
  drop_of_length-le (suc n) (x ∷ rest) bound = drop_of_length-le n rest (omega arith)

  pub take-nil : (n : ℕ) → take {A = A} n [] ≡ []
  take-nil zero = refl
  take-nil (suc n) = refl

  pub drop_past : (before r : List A) (lo : ℕ) → drop (length before + lo) (before ++ r) ≡ drop lo r
  drop_past [] r lo = let same : 0 + lo ≡ lo = omega arith in rw same refl
  drop_past (x ∷ before) r lo =
      let step : suc (length before) + lo ≡ suc (length before + lo) = omega arith in
      rw step (drop_past before r lo)

  pub take_within : (n : ℕ) (r rest : List A) → n ≤ length r → take n (r ++ rest) ≡ take n r
  take_within zero r rest h = refl
  take_within (suc n) [] rest h = absurd (omega arith)
  take_within (suc n) (x ∷ r) rest h = ap (◌∷◌ x) (take_within n r rest (omega arith))

  pub drop_within :
      (lo : ℕ) (r rest : List A) → lo ≤ length r → drop lo (r ++ rest) ≡ drop lo r ++ rest
  drop_within zero r rest h = refl
  drop_within (suc lo) [] rest h = absurd (omega arith)
  drop_within (suc lo) (x ∷ r) rest h = drop_within lo r rest (omega arith)

  -- A window on a piece that stands between two others.
  pub window_within :
      (before r rest : List A) (lo n : ℕ)
      → lo + n ≤ length r
      → take n (drop (length before + lo) (before ++ (r ++ rest))) ≡ take n (drop lo r)
  window_within before r rest lo n h = rw (
    drop_past before (r ++ rest) lo,
    drop_within lo r rest (omega arith),
    take_within n (drop lo r) rest (omega (arith, length-drop lo r)),
  )

  pub take-append-drop : (n : ℕ) (r : List A) → take n r ++ drop n r ≡ r
  take-append-drop zero r = refl
  take-append-drop (suc n) [] = refl
  take-append-drop (suc n) (x ∷ r) = ap (◌∷◌ x) (take-append-drop n r)

module _ {ℓ κ} {A : Type ℓ} (P : A → Type κ) where
  abbrev pub All : List A → Type κ
  All [] = Unit
  All (x ∷ xs) = P x × All xs

  pub All-append : (xs ys : List A) → All xs → All ys → All (xs ++ ys)
  All-append [] ys _ hy = hy
  All-append (x ∷ xs) ys (px, hx) hy = (px, All-append xs ys hx hy)
