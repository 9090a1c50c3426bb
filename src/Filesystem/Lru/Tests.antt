-- ===== src/Filesystem/Lru/Tests.antt =====
-- Runs of the recency list.
use tick_framework.Base.{◌≡◌, refl, [], ◌∷◌, Bytes, codes, take, drop}
use mathlib.Core.List.{reverse}
use tick_framework.Filesystem.Lru.{Lru, new_lru_instance, add, del}
use tick_framework.Filesystem.Lru.Elements.{keys, without}
use tick_framework.Filesystem.Lru.Consistent.{IsConsistent}
use tick_framework.Filesystem.Lru.Order.{add-Order}

abbrev empty : Lru
empty = new_lru_instance 1

empty-IsConsistent : IsConsistent empty
unfolding tick_framework.Filesystem.Lru.Elements.find_key tick_framework.Base.lookup
empty-IsConsistent = record { found = λ key. refl; distinct = tt; counted = refl; fresh = tt }

-- one key in a list of capacity one
abbrev full : Lru
full = (add (codes "a") empty).0

full-IsConsistent : IsConsistent full
full-IsConsistent = (add-Order (codes "a") empty empty-IsConsistent).0

add_evicts : (add (codes "b") full).1 ≡ codes "a" ∷ []
unfolding add tick_framework.Filesystem.Lru.check_capacity tick_framework.Filesystem.Lru.evict
    tick_framework.Filesystem.Lru.touch tick_framework.Base.lookup tick_framework.Base.assign
    tick_framework.Base.bytes_eq tick_framework.Filesystem.Lru.pop_back
add_evicts = refl

add-Order_example :
    IsConsistent (add (codes "b") full).0
    × (keys (add (codes "b") full).0.list
        ≡ take full.capacity (codes "b" ∷ without (codes "b") (keys full.list)))
    × (reverse (add (codes "b") full).1
        ≡ drop full.capacity (codes "b" ∷ without (codes "b") (keys full.list)))
    × ((add (codes "b") full).0.capacity ≡ full.capacity)
add-Order_example = add-Order (codes "b") full full-IsConsistent
