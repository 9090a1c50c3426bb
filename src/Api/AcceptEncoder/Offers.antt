-- ===== src/Api/AcceptEncoder/Offers.antt =====
-- api/acceptencoder/acceptencoder.go: the entries of the header, and which one is the best.
pub mod Best
use tick_framework.Base.{
  ◌≡◌, ◌≢◌, ◌⊎◌, inl, inr, refl, sym, ◌∙◌, ap, subst, true, false, List, [], ◌∷◌, Option, none,
  some, Bytes, Bool-cases, Option-cases, some_eq, split, All,
}
use tick_framework.Api.AcceptEncoder.{
  Encoder, encoder_name, Floats, Offer, skipped, plain, weighted, Q, offer, better, choose, Request,
  parse_accepted,
}

-- What the code relies on of `>` on float64: it holds neither in a circle nor across a gap. A NaN is
-- greater than nothing, and nothing is greater than it.
pub record IsOrdered {F : Type 0} (floats : Floats F) : Type 0 where
  pub greater_irrefl : (f : F) → floats.greater f f ≡ false
  pub greater_trans :
      (f g h : F)
      → floats.greater f g ≡ true
      → floats.greater g h ≡ true
      → floats.greater f h ≡ true

pub Offer-cases :
    {F : Type 0} (o : Offer F)
    → (o ≡ skipped)
      ⊎ (((e : Encoder) × (o ≡ plain e)) ⊎ ((e : Encoder) × ((f : F) × (o ≡ weighted e f))))
Offer-cases skipped = inl refl
Offer-cases (plain e) = inr (inl (e, refl))
Offer-cases (weighted e f) = inr (inr (e, (f, refl)))

module _ {F : Type 0} (floats : Floats F) where
  -- The name of the first entry without a parameter.
  abbrev pub first_of : Offer F → Option Bytes → Option Bytes
  first_of skipped later = later
  first_of (plain e) later = some (encoder_name e)
  first_of (weighted e f) later = later

  abbrev pub first_plain : List Bytes → Option Bytes
  first_plain [] = none
  first_plain (v ∷ vs) = first_of (offer floats v) (first_plain vs)

  -- The entry offers the encoding with the weight, which is not zero.
  abbrev pub Offers : Bytes → Q F → Type 0
  Offers v q =
      (e : Encoder) × (offer floats v ≡ weighted e q.value)
      × (q.name ≡ encoder_name e)
      × (floats.is_zero q.value ≡ false)

  abbrev pub SomeOffers : List Bytes → Q F → Type 0
  SomeOffers [] q = ⊥
  SomeOffers (v ∷ vs) q = Offers v q ⊎ SomeOffers vs q

  -- The entry offers no greater weight.
  abbrev pub IsAtMost : F → Bytes → Type 0
  IsAtMost g v =
      (e : Encoder) (f : F)
      → offer floats v ≡ weighted e f
      → floats.is_zero f ≡ false
      → floats.greater f g ≡ false

  -- The result is `last`, or an entry with a greater weight, and none has a greater one.
  abbrev pub IsBest : List Bytes → Q F → Bytes → Type 0
  IsBest vs last name =
      (q : Q F) × (name ≡ q.name)
      × ((q ≡ last) ⊎ (SomeOffers vs q × (floats.greater q.value last.value ≡ true)))
      × All (IsAtMost q.value) vs

  pub choose-plain :
      (vs : List Bytes) (last : Q F) {name : Bytes}
      → first_plain vs ≡ some name
      → choose floats vs last ≡ name
  unfolding choose
  choose-plain [] last h = absurd cc
  choose-plain (v ∷ vs) last {name} h = elim (Offer-cases (offer floats v)) [
    | inl e ↦
        let h' : first_plain vs ≡ some name =
          subst (λ o. first_of o (first_plain vs) ≡ some name) e h in
        rw (choose, e) (choose-plain vs last h')
    | inr (inl (k, e)) ↦
        let h' : some (encoder_name k) ≡ some name =
          subst (λ o. first_of o (first_plain vs) ≡ some name) e h in
        rw (choose, e) (some_eq h')
    | inr (inr (k, (f, e))) ↦
        let h' : first_plain vs ≡ some name =
          subst (λ o. first_of o (first_plain vs) ≡ some name) e h in
        rw (choose, e) (choose-plain vs (better floats k f last) h')
  ]

  pub better_last :
      (last : Q F) (k : Encoder) (g : F)
      → ((better floats k g last ≡ last)
          × ((floats.is_zero g ≡ true) ⊎ (floats.greater g last.value ≡ false)))
        ⊎ ((better floats k g last ≡ record { name = encoder_name k; value = g })
            × (floats.is_zero g ≡ false)
            × (floats.greater g last.value ≡ true))
  unfolding better
  better_last last k g = elim (Bool-cases (floats.is_zero g)) [
    | inl z ↦ inl (rw z, inl z)
    | inr z ↦ elim (Bool-cases (floats.greater g last.value)) [
      | inl more ↦ inr (rw (z, more), z, more)
      | inr less ↦ inl (rw (z, less), inr less)
    ]
  ]
