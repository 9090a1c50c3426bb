-- ===== src/Registry/Sweep.antt =====
-- Removal inside `range`: `for i, x := range s { if p(x) { s = append(s[:i], s[i+1:]...) } }`.
use tick_framework.Base.{
  ℕ, zero, suc, ◌-◌, ◌≤◌, ◌≡◌, refl, ap, sym, ◌∙◌, Bool, true, false, List, [], ◌∷◌, ◌++◌, Option,
  none, some, length, take, drop, ◌==◌, if◌then◌else◌, All, arith, Bool-cases, inl, inr,
  take_of_length-le, take-nil, take-append, length-append, length-drop, All-append,
}
use native.Mathlib.Nat.{le_refl}

-- On to the next cell: a live one is kept.
unfoldable pub pass : {A : Type 0} → (ℕ → List A → Option (List A)) → ℕ → List A → Option (List A)
pass later live [] = some []
pass later live (h ∷ t) = elim (later (live - 1) t) [
  | none ↦ none
  | some rest ↦ some (if live == 0 then rest else h ∷ rest)
]

pub pass_live :
    {A : Type 0} (later : ℕ → List A → Option (List A)) (n : ℕ) (h : A) (t rest : List A)
    → later n t ≡ some rest
    → pass later (suc n) (h ∷ t) ≡ some (h ∷ rest)
unfolding pass
pass_live later n h t rest e =
    let less : suc n - 1 ≡ n = omega arith in rw (less, e, pass) (ground arith)

-- The list without what the test accepts.
unfoldable pub reject : {A : Type 0} → (A → Bool) → List A → List A
reject p [] = []
reject p (x ∷ r) = if p x then reject p r else x ∷ reject p r

module _ {A : Type 0} (p : A → Bool) where
  -- `range` walks the cells of the array as it was at the start, `live` counts those from here on
  -- that still belong to the slice. A removal moves the live cells behind it one place down and
  -- leaves the last one as it was; it panics outside the slice. The cell here is not visited again.
  -- The fuel is the number of cells.
  unfoldable pub sweep : ℕ → ℕ → List A → Option (List A)
  sweep zero live cells = some []
  sweep (suc fuel) live [] = some []
  sweep (suc fuel) live (x ∷ r) =
      let moved = pass (sweep fuel) (live - 1) (take (live - 1) r ++ drop (live - 1) (x ∷ r)) in
      let stays = pass (sweep fuel) live (x ∷ r) in
      if p x then (if live == 0 then none else moved) else stays

  unfoldable pub remove_in_range : List A → Option (List A)
  remove_in_range cells = sweep (length cells) (length cells) cells

  -- The test accepts one element at most.
  abbrev pub AcceptsOnce : List A → Type 0
  AcceptsOnce [] = Unit
  AcceptsOnce (x ∷ r) = if p x then All (λ y. p y ≡ false) r else AcceptsOnce r

  sweep_none :
      (fuel live : ℕ) (cells : List A)
      → length cells ≤ fuel
      → All (λ y. p y ≡ false) cells
      → sweep fuel live cells ≡ some (take live cells)
  unfolding sweep pass
  sweep_none zero live [] h a = rw take-nil
  sweep_none zero live (x ∷ r) h a = absurd (omega arith)
  sweep_none (suc fuel) live [] h a = rw take-nil
  sweep_none (suc fuel) zero (x ∷ r) h (n, a) = rw (n, sweep_none fuel 0 r (omega arith) a, pass)
  sweep_none (suc fuel) (suc live) (x ∷ r) h (n, a) =
      rw n (pass_live (sweep fuel) live x r (take live r) (sweep_none fuel live r (omega arith) a))

  All-drop : (P : A → Type 0) (n : ℕ) (r : List A) → All P r → All P (drop n r)
  All-drop P zero r a = a
  All-drop P (suc n) [] a = tt
  All-drop P (suc n) (x ∷ r) (_, a) = All-drop P n r a

  -- The cell of the removed element holds the next one, which is passed over.
  sweep_head :
      (x : A) (r : List A)
      → p x ≡ true
      → All (λ y. p y ≡ false) r
      → sweep (suc (length r)) (suc (length r)) (x ∷ r) ≡ some r
  unfolding sweep pass
  sweep_head x [] e a = rw e refl
  sweep_head x (h ∷ t) e (n, a) =
      let less : suc (suc (length t)) - 1 ≡ suc (length t) = omega arith in
      let last = drop (length t) (h ∷ t) in
      let others =
        sweep_none (suc (length t)) (length t) (t ++ last)
          (omega (arith, length-append t last, length-drop (length t) (h ∷ t)))
          (All-append (λ y. p y ≡ false) t last a
            (All-drop (λ y. p y ≡ false) (length t) (h ∷ t) (n, a)))
        ∙ ap some (take-append t last (length t) refl) in
      rw (e, less, take_of_length-le (length t) t (le_refl _))
        (ground (arith, pass_live (sweep (suc (length t))) (length t) h (t ++ last) t others))

  reject_none : (r : List A) → All (λ y. p y ≡ false) r → reject p r ≡ r
  unfolding reject
  reject_none [] a = refl
  reject_none (x ∷ r) (n, a) = rw (n, reject_none r a)

  sweep_keep :
      (n : ℕ) (x : A) (r rest : List A)
      → p x ≡ false
      → sweep n n r ≡ some rest
      → sweep (suc n) (suc n) (x ∷ r) ≡ some (x ∷ rest)
  unfolding sweep pass
  sweep_keep n x r rest e h = rw e (pass_live (sweep n) n x r rest h)

  -- `range` with a removal inside takes exactly the accepted element out, if there is one at most.
  pub remove_in_range_once :
      (cells : List A) → AcceptsOnce cells → remove_in_range cells ≡ some (reject p cells)
  unfolding remove_in_range reject
  remove_in_range_once [] a = unfold sweep in refl
  remove_in_range_once (x ∷ r) a = elim (Bool-cases (p x)) [
    | inl e ↦
        let others : All (λ y. p y ≡ false) r = rw e at a in
        rw e (sweep_head x r e others ∙ ap some (sym (reject_none r others)))
    | inr n ↦
        let others : AcceptsOnce r = rw n at a in
        rw n (
          sweep_keep (length r) x r (reject p r) n
            (unfold remove_in_range in remove_in_range_once r others))
  ]
