-- ===== src/Filesystem/Lru.antt =====
-- filesystem/lru_file.go: the recency list over the keys.
pub mod Elements
pub mod Consistent
pub mod Eviction
pub mod Touch
pub mod Order
mod Tests
use tick_framework.Base.{
  ℕ, zero, suc, ◌+◌, ◌-◌, Bool, true, false, not, List, [], ◌∷◌, Option, none, some, Bytes, GoMap,
  lookup, assign, delete, length, bytes_eq, ltb, ◌==◌, if◌then◌else◌,
}

-- An element of `container/list`: its identity and its value.
abbrev pub Element : Type 0
Element = ℕ × Bytes

-- `next_id` is the identity of the next new element.
pub record Lru : Type 0 where
  pub list : List Element
  pub table : GoMap ℕ
  pub size : ℕ
  pub capacity : ℕ
  pub next_id : ℕ

abbrev pub new_lru_instance : ℕ → Lru
new_lru_instance capacity = record {
  list = [];
  table = [];
  size = 0;
  capacity = capacity;
  next_id = 0;
}

-- `list.Remove`
unfoldable pub remove_element : ℕ → List Element → List Element
remove_element id [] = []
remove_element id ((i, key) ∷ es) =
    if i == id then remove_element id es else (i, key) ∷ remove_element id es

unfoldable pub find_element : ℕ → List Element → Option Element
find_element id [] = none
find_element id ((i, key) ∷ es) = if i == id then some (i, key) else find_element id es

-- `list.MoveToFront`; an element of no list stays out of it.
unfoldable pub move_to_front : ℕ → List Element → List Element
move_to_front id es = elim (find_element id es) [ none ↦ es | some e ↦ e ∷ remove_element id es ]

-- `list.Back`, with the list that `list.Remove` leaves
unfoldable pub pop_back : List Element → Option (Element × List Element)
pop_back [] = none
pop_back (e ∷ es) = elim (pop_back es) [
  | none ↦ some (e, [])
  | some (last, rest) ↦ some (last, e ∷ rest)
]

-- The loop of `checkCapacity`, on fuel; beside the new state, the keys that `delFunc` is called on,
-- in order.
unfoldable pub evict : ℕ → Lru → Lru × List Bytes
evict zero lru = (lru, [])
evict (suc fuel) lru = elim (ltb lru.capacity lru.size) [
  | false ↦ (lru, [])
  | true ↦ elim (pop_back lru.list) [
    | none ↦ (lru, [])
    | some (last, rest) ↦
        let (lru', keys) =
          evict fuel
            (record lru { list = rest; table = delete last.1 lru.table; size = lru.size - 1 }) in
        (lru', last.1 ∷ keys)
  ]
]

-- Each round takes an element from the list.
unfoldable pub check_capacity : Lru → Lru × List Bytes
check_capacity lru = evict (suc (length lru.list)) lru

unfoldable pub touch : Bytes → Lru → Lru
touch key lru = elim (lookup key lru.table) [
  | some id ↦ record lru { list = move_to_front id lru.list }
  | none ↦ record lru {
    list = (lru.next_id, key) ∷ lru.list;
    table = assign key lru.next_id lru.table;
    size = lru.size + 1;
    next_id = lru.next_id + 1;
  }
]

unfoldable pub add : Bytes → Lru → Lru × List Bytes
add key lru = check_capacity (touch key lru)

unfoldable pub del : Bytes → Lru → Lru
del key lru = elim (lookup key lru.table) [
  | none ↦ lru
  | some id ↦ record lru {
    list = remove_element id lru.list;
    table = delete key lru.table;
    size = lru.size - 1;
  }
]
