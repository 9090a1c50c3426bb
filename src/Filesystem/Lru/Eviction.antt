-- ===== src/Filesystem/Lru/Eviction.antt =====
-- `checkCapacity` drops the least recent keys.
use tick_framework.Base.{
  ℕ, zero, suc, ◌-◌, ◌≤◌, ◌<◌, ◌≡◌, refl, ap, sym, ◌∙◌, subst, true, false, List, [], ◌∷◌, ◌++◌,
  none, some, Bytes, length, take, drop, bytes_eq, delete, lookup-delete, ltb, take_of_length-le,
  drop_of_length-le, length-take, length-drop, take-append-drop, take_within, drop_within,
  if◌then◌else◌, arith, Bool-cases, inl, inr,
}
use mathlib.Core.List.{reverse, reverse-cons}
use tick_framework.Filesystem.Lru.{Element, Lru, pop_back, evict}
use tick_framework.Filesystem.Lru.Elements.{
  keys, pop_back_lem, Distinct-take, All-take, find_key-take, keys-take, length-keys,
}
use tick_framework.Filesystem.Lru.Consistent.{IsConsistent}

-- What evicting must give: a consistent list with the first keys, and the others reported from the
-- back.
pub record Evicts (lru : Lru) (r : Lru × List Bytes) : Type 0 where
  pub consistent : IsConsistent r.0
  pub kept : keys r.0.list ≡ take lru.capacity (keys lru.list)
  pub reported : reverse r.1 ≡ drop lru.capacity (keys lru.list)
  pub same_capacity : r.0.capacity ≡ lru.capacity

-- The state after one eviction.
abbrev evicted_last : Lru → Element → List Element → Lru
evicted_last lru last rest = record lru {
  list = rest;
  table = delete last.1 lru.table;
  size = lru.size - 1;
}

evict_step :
    (fuel : ℕ) (lru : Lru) (last : Element) (rest : List Element)
    → ltb lru.capacity lru.size ≡ true
    → pop_back lru.list ≡ some (last, rest)
    → evict (suc fuel) lru ≡ (
      (evict fuel (evicted_last lru last rest)).0,
      last.1 ∷ (evict fuel (evicted_last lru last rest)).1,
    )
unfolding evict
evict_step fuel lru last rest over popped = rw (over, popped, evict)

evict_done :
    (fuel : ℕ) (lru : Lru) → ltb lru.capacity lru.size ≡ false → evict (suc fuel) lru ≡ (lru, [])
unfolding evict
evict_done fuel lru within = rw (within, evict)

Evicts-within :
    (lru : Lru) → IsConsistent lru → ltb lru.capacity lru.size ≡ false → Evicts lru (lru, [])
Evicts-within lru c within =
    let fits : length (keys lru.list) ≤ lru.capacity =
      ground (arith, length-keys lru.list, c.counted) in
    record {
      consistent = c;
      kept = sym (take_of_length-le lru.capacity (keys lru.list) fits);
      reported = sym (drop_of_length-le lru.capacity (keys lru.list) fits);
      same_capacity = refl;
    }

evicted_last-IsConsistent :
    (lru : Lru) (n : ℕ) (last : Element)
    → IsConsistent lru
    → length lru.list ≡ suc n
    → pop_back lru.list ≡ some (last, take n lru.list)
    → IsConsistent (evicted_last lru last (take n lru.list))
evicted_last-IsConsistent lru n last c long popped = record {
  found = λ key.
      lookup-delete last.1 key lru.table
      ∙ ap (λ o. if bytes_eq last.1 key then none else o) (c.found key)
      ∙ sym (find_key-take n lru.list last key c.distinct long popped);
  distinct = Distinct-take n lru.list c.distinct;
  counted = omega (arith, c.counted, length-take n lru.list);
  fresh = All-take (λ e. e.0 < lru.next_id) n lru.list c.fresh;
}

-- One eviction before those of the shorter list.
Evicts-step :
    (lru : Lru) (n : ℕ) (last : Element) (r : Lru × List Bytes)
    → lru.capacity ≤ n
    → drop n (keys lru.list) ≡ last.1 ∷ []
    → Evicts (evicted_last lru last (take n lru.list)) r
    → Evicts lru (r.0, last.1 ∷ r.1)
Evicts-step lru n last r exceeds back ih =
    let front = take n (keys lru.list) in
    let whole : front ++ last.1 ∷ [] ≡ keys lru.list =
      ap (λ t. front ++ t) (sym back) ∙ take-append-drop n (keys lru.list) in
    let enough : lru.capacity ≤ length front =
      omega (arith, length-take n (keys lru.list), ap length back, length-drop n (keys lru.list)) in
    record {
      consistent = ih.consistent;
      kept =
          ih.kept
          ∙ ap (take lru.capacity) (keys-take n lru.list)
          ∙ sym (take_within lru.capacity front (last.1 ∷ []) enough)
          ∙ ap (take lru.capacity) whole;
      reported =
          reverse-cons last.1 r.1
          ∙ ap (λ t. t ++ last.1 ∷ []) (ih.reported ∙ ap (drop lru.capacity) (keys-take n lru.list))
          ∙ sym (drop_within lru.capacity front (last.1 ∷ []) enough)
          ∙ ap (drop lru.capacity) whole;
      same_capacity = ih.same_capacity;
    }

pub evict_lem :
    (fuel : ℕ) (lru : Lru) → IsConsistent lru → length lru.list < fuel → Evicts lru (evict fuel lru)
evict_lem zero lru c h = absurd (omega arith)
evict_lem (suc fuel) lru c h = elim (Bool-cases (ltb lru.capacity lru.size)) [
  | inr within ↦ subst (Evicts lru) (sym (evict_done fuel lru within)) (Evicts-within lru c within)
  | inl over ↦
      let n = length lru.list - 1 in
      let exceeds : lru.capacity < length lru.list = ground (arith, c.counted) in
      let long : length lru.list ≡ suc n = omega arith in
      let (last, popped, back) = pop_back_lem n lru.list long in
      let ih =
        evict_lem fuel (evicted_last lru last (take n lru.list))
          (evicted_last-IsConsistent lru n last c long popped)
          (omega (arith, length-take n lru.list)) in
      subst (Evicts lru) (sym (evict_step fuel lru last (take n lru.list) over popped))
        (Evicts-step lru n last _ (omega arith) back ih)
]
