-- ===== src/Filesystem/Lru/Consistent.antt =====
-- The recency list's two views of its keys agree.
use tick_framework.Base.{◌<◌, ◌≡◌, Bytes, length, All, lookup}
use tick_framework.Filesystem.Lru.{Lru}
use tick_framework.Filesystem.Lru.Elements.{find_key, Distinct}

-- The table finds exactly the elements of the list, and `size` counts them.
pub record IsConsistent (lru : Lru) : Type 0 where
  pub found : (key : Bytes) → lookup key lru.table ≡ find_key key lru.list
  pub distinct : Distinct lru.list
  pub counted : lru.size ≡ length lru.list
  pub fresh : All (λ e. e.0 < lru.next_id) lru.list
