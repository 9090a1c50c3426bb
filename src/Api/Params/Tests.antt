-- ===== src/Api/Params/Tests.antt =====
-- Runs of parameters.
use tick_framework.Base.{
  ◌≡◌, ◌≢◌, refl, true, false, List, [], ◌∷◌, Bytes, codes, length, if◌then◌else◌, negsuc, pos,
  arith,
}
use tick_framework.Api.Params.{Param, get, replace, ApiParam, distinct_and_sorted}
use tick_framework.Api.Params.Distinct.{get-replace, length-distinct_and_sorted}

abbrev params : List Param
params =
    record { key = codes "a"; value = codes "1" }
    ∷ record { key = codes "b"; value = codes "2" }
    ∷ record { key = codes "a"; value = codes "3" }
    ∷ []

not_zero : negsuc 0 ≢ pos 0
not_zero e = ground arith

get-replace_example :
    (get (codes "a") (replace (codes "a") (codes "9") (negsuc 0) params).1
      ≡ (if (get (codes "a") params).1 then (codes "9", true) else ([], false)))
    × ((replace (codes "a") (codes "9") (negsuc 0) params).0 ≡ (get (codes "a") params).1)
get-replace_example = get-replace (codes "a") (codes "9") (negsuc 0) params not_zero

abbrev described : Bytes → ApiParam Bytes
described desc = record {
  name = codes "p";
  position = codes "query";
  required = true;
  desc = desc;
  model = [];
}

-- two descriptions of one parameter stay two, and are the same
length-distinct_and_sorted_example :
    length (distinct_and_sorted (λ ks. ks) (described (codes "x") ∷ described [] ∷ []))
    ≡ length (described (codes "x") ∷ described [] ∷ [])
length-distinct_and_sorted_example =
    length-distinct_and_sorted (λ ks. ks) (described (codes "x") ∷ described [] ∷ []) (λ P ks h. h)
      (λ ks. refl)
