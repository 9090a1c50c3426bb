-- ===== src/Api/AcceptEncoder/Offers/Best.antt =====
-- api/acceptencoder/acceptencoder.go: parseEncoding takes the best entry of the header.
use tick_framework.Base.{
  ◌≡◌, ◌≢◌, ◌⊎◌, inl, inr, refl, sym, ◌∙◌, ap, subst, true, false, List, [], ◌∷◌, none, some, Bytes,
  Bool-cases, Option-cases, split, All,
}
use tick_framework.Api.AcceptEncoder.{
  Encoder, encoder_name, Floats, weighted, Q, offer, better, choose, Request, parse_accepted,
}
use tick_framework.Api.AcceptEncoder.Offers.{
  IsOrdered, Offer-cases, first_of, first_plain, IsAtMost, IsBest, choose-plain, better_last,
}

module _ {F : Type 0} (floats : Floats F) (ordered : IsOrdered floats) where
  not_greater :
      (f g h : F)
      → floats.greater f h ≡ false
      → (h ≡ g) ⊎ (floats.greater g h ≡ true)
      → floats.greater f g ≡ false
  not_greater f g h less from = elim (Bool-cases (floats.greater f g)) [
    | inr e ↦ e
    | inl e ↦ elim from [
      | inl same ↦ ap (floats.greater f) (sym same) ∙ less
      | inr more ↦ absurd (let up = ordered.greater_trans f g h e more in cc)
    ]
  ]

  weighted_value : {k e : Encoder} {g f : F} → weighted k g ≡ weighted e f → g ≡ f
  weighted_value h = cc

  own_weight :
      (v : Bytes) (k : Encoder) (g : F) → offer floats v ≡ weighted k g → IsAtMost floats g v
  own_weight v k g h e f h' nonzero =
      subst (λ x. floats.greater x g ≡ false) (weighted_value (sym h ∙ h'))
        (ordered.greater_irrefl g)

  IsBest-skip :
      (v : Bytes) (vs : List Bytes) (last : Q F) (name : Bytes)
      → IsAtMost floats last.value v
      → IsBest floats vs last name
      → IsBest floats (v ∷ vs) last name
  IsBest-skip v vs last name low (q, e, inl same, most) =
      (q, e, inl same, (subst (λ r. IsAtMost floats r.value v) (sym same) low, most))
  IsBest-skip v vs last name low (q, e, inr (offers, more), most) = (
    q,
    e,
    inr (inr offers, more),
    ((λ k f h nonzero. not_greater f q.value last.value (low k f h nonzero) (inr more)), most),
  )

  IsBest-take :
      (v : Bytes) (vs : List Bytes) (last : Q F) (name : Bytes) (k : Encoder) (g : F)
      → offer floats v ≡ weighted k g
      → floats.is_zero g ≡ false
      → floats.greater g last.value ≡ true
      → IsBest floats vs (record { name = encoder_name k; value = g }) name
      → IsBest floats (v ∷ vs) last name
  IsBest-take v vs last name k g h nonzero more (q, e, inl same, most) = (
    record { name = encoder_name k; value = g },
    e ∙ ap (λ r. r.name) same,
    inr (inl (k, h, refl, nonzero), more),
    (own_weight v k g h, subst (λ r. All (IsAtMost floats r.value) vs) same most),
  )
  IsBest-take v vs last name k g h nonzero more (q, e, inr (offers, up), most) = (
    q,
    e,
    inr (inr offers, ordered.greater_trans q.value g last.value up more),
    (
      (λ k' f h' nonzero'. not_greater f q.value g (own_weight v k g h k' f h' nonzero') (inr up)),
      most,
    ),
  )

  left_low :
      (v : Bytes) (last : Q F) (k : Encoder) (g : F)
      → offer floats v ≡ weighted k g
      → (floats.is_zero g ≡ true) ⊎ (floats.greater g last.value ≡ false)
      → IsAtMost floats last.value v
  left_low v last k g h low e f h' nonzero =
      let same : g ≡ f = weighted_value (sym h ∙ h') in
      elim low [
        | inl z ↦
            absurd
              (let z' : floats.is_zero f ≡ true = subst (λ x. floats.is_zero x ≡ true) same z in cc)
        | inr less ↦ subst (λ x. floats.greater x last.value ≡ false) same less
      ]

  -- the choice among the entries from here on, when none is without a parameter
  choose-IsBest :
      (vs : List Bytes) (last : Q F)
      → first_plain floats vs ≡ none
      → IsBest floats vs last (choose floats vs last)
  unfolding choose
  choose-IsBest [] last h = (last, refl, inl refl, tt)
  choose-IsBest (v ∷ vs) last h = elim (Offer-cases (offer floats v)) [
    | inl e ↦
        let h' : first_plain floats vs ≡ none =
          subst (λ o. first_of floats o (first_plain floats vs) ≡ none) e h in
        let best =
          IsBest-skip v vs last _ (λ k f e' nonzero. absurd cc) (choose-IsBest vs last h') in
        let same : choose floats (v ∷ vs) last ≡ choose floats vs last = rw (choose, e) in
        subst (IsBest floats (v ∷ vs) last) (sym same) best
    | inr (inl (k, e)) ↦
        let h' : some (encoder_name k) ≡ none =
          subst (λ o. first_of floats o (first_plain floats vs) ≡ none) e h in
        absurd cc
    | inr (inr (k, (f, e))) ↦
        let h' : first_plain floats vs ≡ none =
          subst (λ o. first_of floats o (first_plain floats vs) ≡ none) e h in
        let best = choose-IsBest vs (better floats k f last) h' in
        let same : choose floats (v ∷ vs) last ≡ choose floats vs (better floats k f last) =
          rw (choose, e) in
        subst (IsBest floats (v ∷ vs) last) (sym same) (elim (better_last floats last k f) [
          | inr (taken, nonzero, more) ↦ IsBest-take v vs last _ k f e nonzero more (
              subst (λ r. IsBest floats vs r (choose floats vs (better floats k f last))) taken
                best)
          | inl (kept, low) ↦ IsBest-skip v vs last _ (left_low v last k f e low) (
              subst (λ r. IsBest floats vs r (choose floats vs (better floats k f last))) kept best)
        ])
  ]

  choose_lem :
      (vs : List Bytes) (last : Q F)
      → (first_plain floats vs ≡ some (choose floats vs last))
        ⊎ ((first_plain floats vs ≡ none) × IsBest floats vs last (choose floats vs last))
  choose_lem vs last = elim (Option-cases (first_plain floats vs)) [
    | inl e ↦ inr (e, choose-IsBest vs last e)
    | inr (name, e) ↦ inl (e ∙ ap some (sym (choose-plain floats vs last e)))
  ]

  choose_header :
      (header : Bytes)
      → header ≢ []
      → (method : Bytes)
      → parse_accepted floats (record { request_method = method; accept_encoding = header })
        ≡ choose floats (split b',' header) (record { name = []; value = floats.zero_float })
  unfolding parse_accepted
  choose_header [] nonempty method = absurd (nonempty refl)
  choose_header (c ∷ t) nonempty method = refl

  -- With a comparison of weights that is irreflexive and transitive, a header that is not empty gives
  -- its first known entry without a parameter; without such an entry it gives one whose weight is
  -- positive and which no other weight exceeds, and no encoding where no weight is positive.
  pub parse_accepted_lem :
      (r : Request)
      → r.accept_encoding ≢ []
      → let entries = split b',' r.accept_encoding in
        (first_plain floats entries ≡ some (parse_accepted floats r))
        ⊎ ((first_plain floats entries ≡ none)
            × IsBest floats entries
                (record { name = []; value = floats.zero_float })
                (parse_accepted floats r))
  parse_accepted_lem r nonempty =
      let entries = split b',' r.accept_encoding in
      let start : Q F = record { name = []; value = floats.zero_float } in
      subst
        (λ n.
          (first_plain floats entries ≡ some n)
          ⊎ ((first_plain floats entries ≡ none) × IsBest floats entries start n))
        (sym (choose_header r.accept_encoding nonempty r.request_method)) (choose_lem entries start)
