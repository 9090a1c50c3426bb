-- ===== src/Convert.antt =====
-- convert_types.go: values, slices and maps of a type turned into pointers and back.
pub mod Types
pub mod RoundTrip
pub mod Time
mod Tests
use tick_framework.Base.{
  ℕ, zero, suc, ◌+◌, List, [], ◌∷◌, ◌++◌, map, Option, none, some, Bytes, GoMap, assign, length,
}

-- The memory cells that hold values of one type; an address is an index.
abbrev pub Heap : Type 0 → Type 0
Heap V = List V

-- nil, or the address of a cell
abbrev pub Pointer : Type 0
Pointer = Option ℕ

-- A slice in memory: its first cell and its length.
pub record Slice : Type 0 where
  pub base : ℕ
  pub count : ℕ

-- `dst[i] = &(src[i])`: the pointers are to the cells of the source.
unfoldable pub addresses : ℕ → ℕ → List Pointer
addresses base zero = []
addresses base (suc count) = some base ∷ addresses (suc base) count

unfoldable pub slice : Slice → List Pointer
slice s = addresses s.base s.count

module _ {V : Type 0} where
  -- The value in a cell; `zero_value` is that of the type, and stands for what no program can read.
  unfoldable pub read : V → Heap V → ℕ → V
  read zero_value [] a = zero_value
  read zero_value (v ∷ cells) zero = v
  read zero_value (v ∷ cells) (suc a) = read zero_value cells a

  -- `*p = v`
  unfoldable pub write : Heap V → ℕ → V → Heap V
  write [] a v = []
  write (w ∷ cells) zero v = v ∷ cells
  write (w ∷ cells) (suc a) v = w ∷ write cells a v

  -- `return &v`: the parameter's own cell is new.
  unfoldable pub pointer : V → Heap V → Pointer × Heap V
  pointer v cells = (some (length cells), cells ++ v ∷ [])

  unfoldable pub value : V → Heap V → Pointer → V
  value zero_value cells none = zero_value
  value zero_value cells (some a) = read zero_value cells a

  -- A nil pointer leaves the zero value that `make` has put there.
  unfoldable pub value_slice : V → Heap V → List Pointer → List V
  value_slice zero_value cells = map (value zero_value cells)

  -- One round for each entry, in the order of the iteration: `v := val` is a new cell.
  unfoldable pub map_from : GoMap V → GoMap Pointer → Heap V → GoMap Pointer × Heap V
  map_from [] dst cells = (dst, cells)
  map_from ((k, val) ∷ src) dst cells =
      map_from src (assign k (some (length cells)) dst) (cells ++ val ∷ [])

  unfoldable pub pointer_map : GoMap V → Heap V → GoMap Pointer × Heap V
  pointer_map src cells = map_from src [] cells

  -- A nil pointer gives no entry.
  unfoldable pub value_map_from : V → Heap V → GoMap Pointer → GoMap V → GoMap V
  value_map_from zero_value cells [] dst = dst
  value_map_from zero_value cells ((k, none) ∷ src) dst = value_map_from zero_value cells src dst
  value_map_from zero_value cells ((k, some a) ∷ src) dst =
      value_map_from zero_value cells src (assign k (read zero_value cells a) dst)

  unfoldable pub value_map : V → Heap V → GoMap Pointer → GoMap V
  value_map zero_value cells src = value_map_from zero_value cells src []
