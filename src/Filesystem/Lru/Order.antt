-- ===== src/Filesystem/Lru/Order.antt =====
-- The recency list against its specification: the keys, most recently used first, cut at the
-- capacity.
use tick_framework.Base.{
  suc, ◌<◌, ◌≡◌, ap, sym, ◌∙◌, ◌∷◌, none, some, Bytes, length, take, drop, bytes_eq, lookup,
  lookup-delete, if◌then◌else◌, arith, Option-cases, inl, inr,
}
use mathlib.Core.Path.{ap₂}
use mathlib.Core.List.{reverse}
use tick_framework.Filesystem.Lru.{Lru, check_capacity, touch, add, del}
use tick_framework.Filesystem.Lru.Elements.{
  find_key, keys, without, Distinct-remove_element, found_key, find_key-remove_element,
  All-remove_element, without_absent,
}
use tick_framework.Filesystem.Lru.Consistent.{IsConsistent}
use tick_framework.Filesystem.Lru.Eviction.{evict_lem}
use tick_framework.Filesystem.Lru.Touch.{Touches, Touches-new, Touches-old}

Touches-touch : (key : Bytes) (lru : Lru) → IsConsistent lru → Touches key lru (touch key lru)
Touches-touch key lru c = elim (Option-cases (lookup key lru.table)) [
  | inl absent ↦ Touches-new key lru c absent
  | inr (id, present) ↦ Touches-old key lru id c present
]

-- `Add` keeps the list and the table consistent; it moves the key to the front and keeps, in order,
-- as many keys as the capacity allows; `delFunc` is called on exactly the others, the last first.
pub add-Order :
    (key : Bytes) (lru : Lru)
    → IsConsistent lru
    → IsConsistent (add key lru).0
      × (keys (add key lru).0.list ≡ take lru.capacity (key ∷ without key (keys lru.list)))
      × (reverse (add key lru).1 ≡ drop lru.capacity (key ∷ without key (keys lru.list)))
      × ((add key lru).0.capacity ≡ lru.capacity)
unfolding add check_capacity
add-Order key lru c =
    let t = Touches-touch key lru c in
    let e =
      evict_lem (suc (length (touch key lru).list)) (touch key lru) t.consistent (omega arith) in
    (
      e.consistent,
      e.kept ∙ ap₂ take t.same_capacity t.front,
      e.reported ∙ ap₂ drop t.same_capacity t.front,
      e.same_capacity ∙ t.same_capacity,
    )

-- `Del` keeps the list and the table consistent, and takes the key, and only it, from the list.
pub del-Order :
    (key : Bytes) (lru : Lru)
    → IsConsistent lru
    → IsConsistent (del key lru) × (keys (del key lru).list ≡ without key (keys lru.list))
unfolding del
del-Order key lru c = elim (Option-cases (lookup key lru.table)) [
  | inl absent ↦
      rw (absent, del) (c, sym (without_absent key lru.list (sym (c.found key) ∙ absent)).0)
  | inr (id, present) ↦
      let there : find_key key lru.list ≡ some id = sym (c.found key) ∙ present in
      let (_, without_it, shorter) = found_key key id lru.list c.distinct there in
      rw (present, del)
        (
          record {
            found = λ j.
                lookup-delete key j lru.table
                ∙ ap (λ o. if bytes_eq key j then none else o) (c.found j)
                ∙ sym (find_key-remove_element key id lru.list j c.distinct there);
            distinct = Distinct-remove_element id lru.list c.distinct;
            counted = omega (arith, c.counted, shorter);
            fresh = All-remove_element (λ e. e.0 < lru.next_id) id lru.list c.fresh;
          },
          without_it,
        )
]
