-- ===== src/Api/Params.antt =====
-- api/api_handler.go: the parameters of a request by name, and those of a description.
pub mod Distinct
mod Tests
use tick_framework.Base.{
  ℕ, suc, zero, Bool, true, false, ◌&&◌, ◌||◌, not, List, [], ◌∷◌, ◌++◌, Option, none, some, Bytes,
  GoMap, lookup, assign, bytes_eq, length, if◌then◌else◌, ℤ, pos, negsuc,
}

-- `ApiParam`
pub record Param : Type 0 where
  pub key : Bytes
  pub value : Bytes

-- `ByName`
unfoldable pub by_name : Bytes → List Param → Bytes
by_name name [] = []
by_name name (p ∷ ps) = let rest = by_name name ps in if bytes_eq p.key name then p.value else rest

-- `Get`
unfoldable pub get : Bytes → List Param → Bytes × Bool
get name [] = ([], false)
get name (p ∷ ps) = let rest = get name ps in if bytes_eq p.key name then (p.value, true) else rest

-- The loop of `Replace`: whether something has changed, and the parameters.
unfoldable pub replace_loop : Bytes → Bytes → ℕ → List Param → Bool × List Param
replace_loop name value zero ps = (false, ps)
replace_loop name value (suc n) [] = (false, [])
replace_loop name value (suc n) (p ∷ ps) =
    let more = replace_loop name value (if bytes_eq p.key name then n else suc n) ps in
    if bytes_eq p.key name
    then (true, record p { value = value } ∷ more.1)
    else (more.0, p ∷ more.1)

abbrev limit : ℤ → List Param → ℕ
limit (pos n) ps = n
limit (negsuc n) ps = length ps

-- `Replace`
unfoldable pub replace : Bytes → Bytes → ℤ → List Param → Bool × List Param
replace name value n ps = replace_loop name value (limit n ps) ps

-- `APIParam`, of which the name, the position, the description and the requirement matter here
pub record ApiParam (T : Type 0) : Type 0 where
  pub name : Bytes
  pub position : Bytes
  pub required : Bool
  pub desc : Bytes
  pub model : T

abbrev is_empty : Bytes → Bool
is_empty [] = true
is_empty (c ∷ s) = false

module _ {T : Type 0} where
  abbrev pub param_key : ApiParam T → Bytes
  param_key p = p.name ++ 60 ∷ 13 ∷ 45 ∷ 10 ∷ 45 ∷ 9 ∷ 62 ∷ p.position

  -- What a later parameter of the same key adds.
  unfoldable pub merge : ApiParam T → ApiParam T → ApiParam T
  merge old info = record old {
    required = old.required || info.required;
    desc = if is_empty old.desc && not (is_empty info.desc) then info.desc else old.desc;
  }

  unfoldable pub add_info : ApiParam T → GoMap (ApiParam T) → GoMap (ApiParam T)
  add_info info m = elim (lookup (param_key info) m) [
    | none ↦ assign (param_key info) info m
    | some old ↦ assign (param_key info) (merge old info) m
  ]

  -- The first loop of `distinctAndSortedApiParams`: the keys and the map.
  unfoldable pub collect_infos :
      List (ApiParam T) → List Bytes → GoMap (ApiParam T) → List Bytes × GoMap (ApiParam T)
  collect_infos [] ks m = (ks, m)
  collect_infos (info ∷ infos) ks m =
      collect_infos infos (ks ++ param_key info ∷ []) (add_info info m)

  -- The second loop; a missing key, which does not come up, is left out here.
  unfoldable pub pick_infos : List Bytes → GoMap (ApiParam T) → List (ApiParam T)
  pick_infos [] m = []
  pick_infos (k ∷ ks) m = elim (lookup k m) [
    | none ↦ pick_infos ks m
    | some info ↦ info ∷ pick_infos ks m
  ]

  -- `distinctAndSortedApiParams`, with `sort.Strings` as a parameter
  unfoldable pub distinct_and_sorted :
      (List Bytes → List Bytes) → List (ApiParam T) → List (ApiParam T)
  distinct_and_sorted sort infos =
      let collected = collect_infos infos [] [] in pick_infos (sort collected.0) collected.1
