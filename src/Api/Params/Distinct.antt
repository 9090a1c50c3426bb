-- ===== src/Api/Params/Distinct.antt =====
-- api/api_handler.go: what replacing a parameter does, and that equal descriptions stay.
use tick_framework.Base.{
  ℕ, suc, zero, ◌+◌, ◌≡◌, ◌≢◌, refl, ap, ◌∙◌, Bool, true, false, Bool-cases, List, [], ◌∷◌, ◌++◌,
  some, Option-cases, Bytes, GoMap, lookup, assign, lookup-assign, bytes_eq, bytes_eq_refl, length,
  length-append, All, All-append, if◌then◌else◌, ℤ, pos, negsuc, inl, inr, arith,
}
use tick_framework.Api.Params.{
  Param, get, replace_loop, replace, ApiParam, param_key, merge, add_info, collect_infos,
  pick_infos, distinct_and_sorted,
}

-- What `Get` finds behind `Replace`.
abbrev replaced : Bytes → Bytes → List Param → Bytes × Bool
replaced name value ps = if (get name ps).1 then (value, true) else ([], false)

get-replace_loop :
    (name value : Bytes) (n : ℕ) (ps : List Param)
    → (get name (replace_loop name value (suc n) ps).1 ≡ replaced name value ps)
      × ((replace_loop name value (suc n) ps).0 ≡ (get name ps).1)
unfolding replace_loop get
get-replace_loop name value n [] = (refl, refl)
get-replace_loop name value n (p ∷ ps) = elim (Bool-cases (bytes_eq p.key name)) [
  | inl e ↦ rw (e, replace_loop, get, e) (refl, refl)
  | inr e ↦ rw (e, replace_loop, get, e) (get-replace_loop name value n ps)
]

-- Replace with a limit that is negative, or positive, answers whether there is a parameter of the
-- name; if there is, Get finds the new value, and none otherwise.
pub get-replace :
    (name value : Bytes) (n : ℤ) (ps : List Param)
    → n ≢ pos 0
    → (get name (replace name value n ps).1
        ≡ (if (get name ps).1 then (value, true) else ([], false)))
      × ((replace name value n ps).0 ≡ (get name ps).1)
unfolding replace replace_loop get
get-replace name value (pos zero) ps nonzero = absurd (nonzero refl)
get-replace name value (pos (suc n)) ps nonzero = get-replace_loop name value n ps
get-replace name value (negsuc n) [] nonzero = (refl, refl)
get-replace name value (negsuc n) (p ∷ ps) nonzero =
    get-replace_loop name value (length ps) (p ∷ ps)

module _ {T : Type 0} where
  abbrev IsPresent : GoMap (ApiParam T) → Bytes → Type 0
  IsPresent m k = (info : ApiParam T) × (lookup k m ≡ some info)

  assign-IsPresent :
      (k j : Bytes) (v : ApiParam T) (m : GoMap (ApiParam T))
      → IsPresent m j
      → IsPresent (assign k v m) j
  assign-IsPresent k j v m (info, e) = elim (Bool-cases (bytes_eq k j)) [
    | inl q ↦ (v, lookup-assign k j v m ∙ rw q refl)
    | inr q ↦ (info, lookup-assign k j v m ∙ rw q e)
  ]

  assigned : (k : Bytes) (v : ApiParam T) (m : GoMap (ApiParam T)) → IsPresent (assign k v m) k
  assigned k v m = (v, lookup-assign k k v m ∙ rw (bytes_eq_refl k) refl)

  add_info-IsPresent :
      (info : ApiParam T) (j : Bytes) (m : GoMap (ApiParam T))
      → IsPresent m j
      → IsPresent (add_info info m) j
  unfolding add_info
  add_info-IsPresent info j m h = elim (Option-cases (lookup (param_key info) m)) [
    | inl e ↦ rw (e, add_info) (assign-IsPresent (param_key info) j info m h)
    | inr (old, e) ↦ rw (e, add_info) (assign-IsPresent (param_key info) j (merge old info) m h)
  ]

  added :
      (info : ApiParam T) (m : GoMap (ApiParam T)) → IsPresent (add_info info m) (param_key info)
  unfolding add_info
  added info m = elim (Option-cases (lookup (param_key info) m)) [
    | inl e ↦ rw (e, add_info) (assigned (param_key info) info m)
    | inr (old, e) ↦ rw (e, add_info) (assigned (param_key info) (merge old info) m)
  ]

  all-IsPresent :
      (info : ApiParam T) (ks : List Bytes) (m : GoMap (ApiParam T))
      → All (IsPresent m) ks
      → All (IsPresent (add_info info m)) ks
  all-IsPresent info [] m _ = tt
  all-IsPresent info (k ∷ ks) m (h, hs) =
      (add_info-IsPresent info k m h, all-IsPresent info ks m hs)

  collect_infos_keys :
      (infos : List (ApiParam T)) (ks : List Bytes) (m : GoMap (ApiParam T))
      → All (IsPresent m) ks
      → All (IsPresent (collect_infos infos ks m).1) (collect_infos infos ks m).0
        × (length (collect_infos infos ks m).0 ≡ length ks + length infos)
  unfolding collect_infos
  collect_infos_keys [] ks m h = (h, omega arith)
  collect_infos_keys (info ∷ infos) ks m h =
      let (found, counted) =
        collect_infos_keys infos (ks ++ param_key info ∷ []) (add_info info m) (
          All-append (IsPresent (add_info info m)) ks (param_key info ∷ [])
            (all-IsPresent info ks m h) (added info m, tt)) in
      let one = length-append ks (param_key info ∷ []) in (found, omega arith)

  length-pick_infos :
      (ks : List Bytes) (m : GoMap (ApiParam T))
      → All (IsPresent m) ks
      → length (pick_infos ks m) ≡ length ks
  unfolding pick_infos
  length-pick_infos [] m _ = refl
  length-pick_infos (k ∷ ks) m ((info, e), hs) =
      rw (e, pick_infos) (ap suc (length-pick_infos ks m hs))

  -- With a sorting that keeps what holds of all texts, and their number: the description has as many
  -- parameters as it is given, so that parameters of one name and position are not made one.
  pub length-distinct_and_sorted :
      (sort : List Bytes → List Bytes) (infos : List (ApiParam T))
      → ((P : Bytes → Type 0) (ks : List Bytes) → All P ks → All P (sort ks))
      → ((ks : List Bytes) → length (sort ks) ≡ length ks)
      → length (distinct_and_sorted sort infos) ≡ length infos
  unfolding distinct_and_sorted
  length-distinct_and_sorted sort infos keeps_all keeps_length =
      let found = (collect_infos_keys infos [] [] tt).0 in
      let counted : length (collect_infos infos [] []).0 ≡ 0 + length infos =
        (collect_infos_keys infos [] [] tt).1 in
      let ks = (collect_infos infos [] []).0 in
      let m = (collect_infos infos [] []).1 in
      let count : length ks ≡ length infos = omega arith in
      length-pick_infos (sort ks) m (keeps_all (IsPresent m) ks found) ∙ keeps_length ks ∙ count
