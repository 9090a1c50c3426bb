-- ===== src/Convert/Types.antt =====
-- The functions of convert_types.go for each type. `Int` and `Int64` hold their values in the range of
-- the type; floats and times are any types with their zero values.
use tick_framework.Base.{Bytes, Bool, false, List, [], GoMap, ℤ, pos}
use tick_framework.Convert.{
  Heap, Pointer, Slice, pointer, value, slice, value_slice, pointer_map, value_map,
}

unfoldable pub string_pointer : Bytes → Heap Bytes → Pointer × Heap Bytes
string_pointer = pointer

unfoldable pub string_value : Heap Bytes → Pointer → Bytes
string_value = value []

unfoldable pub string_slice : Slice → List Pointer
string_slice = slice

unfoldable pub string_value_slice : Heap Bytes → List Pointer → List Bytes
string_value_slice = value_slice []

unfoldable pub string_map : GoMap Bytes → Heap Bytes → GoMap Pointer × Heap Bytes
string_map = pointer_map

unfoldable pub string_value_map : Heap Bytes → GoMap Pointer → GoMap Bytes
string_value_map = value_map []

unfoldable pub bool_pointer : Bool → Heap Bool → Pointer × Heap Bool
bool_pointer = pointer

unfoldable pub bool_value : Heap Bool → Pointer → Bool
bool_value = value false

unfoldable pub bool_slice : Slice → List Pointer
bool_slice = slice

unfoldable pub bool_value_slice : Heap Bool → List Pointer → List Bool
bool_value_slice = value_slice false

unfoldable pub bool_map : GoMap Bool → Heap Bool → GoMap Pointer × Heap Bool
bool_map = pointer_map

unfoldable pub bool_value_map : Heap Bool → GoMap Pointer → GoMap Bool
bool_value_map = value_map false

unfoldable pub int_pointer : ℤ → Heap ℤ → Pointer × Heap ℤ
int_pointer = pointer

unfoldable pub int_value : Heap ℤ → Pointer → ℤ
int_value = value (pos 0)

unfoldable pub int_slice : Slice → List Pointer
int_slice = slice

unfoldable pub int_value_slice : Heap ℤ → List Pointer → List ℤ
int_value_slice = value_slice (pos 0)

unfoldable pub int_map : GoMap ℤ → Heap ℤ → GoMap Pointer × Heap ℤ
int_map = pointer_map

unfoldable pub int_value_map : Heap ℤ → GoMap Pointer → GoMap ℤ
int_value_map = value_map (pos 0)

unfoldable pub int64_pointer : ℤ → Heap ℤ → Pointer × Heap ℤ
int64_pointer = pointer

unfoldable pub int64_value : Heap ℤ → Pointer → ℤ
int64_value = value (pos 0)

unfoldable pub int64_slice : Slice → List Pointer
int64_slice = slice

unfoldable pub int64_value_slice : Heap ℤ → List Pointer → List ℤ
int64_value_slice = value_slice (pos 0)

unfoldable pub int64_map : GoMap ℤ → Heap ℤ → GoMap Pointer × Heap ℤ
int64_map = pointer_map

unfoldable pub int64_value_map : Heap ℤ → GoMap Pointer → GoMap ℤ
int64_value_map = value_map (pos 0)

unfoldable pub float64_slice : Slice → List Pointer
float64_slice = slice

module _ {F : Type 0} (zero_float : F) where
  unfoldable pub float64_pointer : F → Heap F → Pointer × Heap F
  float64_pointer = pointer

  unfoldable pub float64_value : Heap F → Pointer → F
  float64_value = value zero_float

  unfoldable pub float64_value_slice : Heap F → List Pointer → List F
  float64_value_slice = value_slice zero_float

  unfoldable pub float64_map : GoMap F → Heap F → GoMap Pointer × Heap F
  float64_map = pointer_map

  unfoldable pub float64_value_map : Heap F → GoMap Pointer → GoMap F
  float64_value_map = value_map zero_float

unfoldable pub time_slice : Slice → List Pointer
time_slice = slice

module _ {T : Type 0} (zero_time : T) where
  unfoldable pub time_pointer : T → Heap T → Pointer × Heap T
  time_pointer = pointer

  unfoldable pub time_value : Heap T → Pointer → T
  time_value = value zero_time

  unfoldable pub time_value_slice : Heap T → List Pointer → List T
  time_value_slice = value_slice zero_time

  unfoldable pub time_map : GoMap T → Heap T → GoMap Pointer × Heap T
  time_map = pointer_map

  unfoldable pub time_value_map : Heap T → GoMap Pointer → GoMap T
  time_value_map = value_map zero_time
