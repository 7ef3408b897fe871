-- ===== src/Struct/Vector.antt =====
-- `BblVec` of src/bbl.h and `readVecElem`, `writeVecElem` and `packValue` of src/bbl.cpp. A `memcpy`
-- past the end is the error `overrun`.
pub mod Whole
pub mod Accepts
pub mod Elements
use bbl.Prelude.{
  ℕ, zero, suc, ◌+◌, ◌*◌, ◌/◌, ◌^◌, ◌<◌, Bool, true, false, not, ◌||◌, ltb, leb, ◌==◌,
  if◌then◌else◌, Option, none, some, List, [], ◌∷◌, ◌++◌, length, take, drop, replicate,
}
use bbl.Prelude.Int.{ℤ, pos, negsuc, wrap}
use bbl.Prelude.Result.{Result, ok, err}
use bbl.Lexer.{Bytes, bytes_eq}
use bbl.Value.{ValueType, value_type, as_ptr, int_val, bool_val, make_int, make_float, make_bool}
use bbl.Struct.{StructDesc, BblStruct, StructEnv, find_desc, to_le, from_le, peek, poke, signed}
use bbl.Struct.Access.{FieldValue, word, fresh, alloc_data, is_type}

pub record BblVec : Type 0 where
  pub elem_type : Bytes
  pub elem_type_tag : ValueType
  pub elem_size : ℕ
  pub data_bytes : Bytes

pub data VecError : Type 0 where
  out_of_bounds : ℕ → ℕ → VecError
  expected_int expected_float expected_bool : ValueType → VecError
  expected_struct unknown_struct : Bytes → VecError
  unsupported overrun : VecError

unfoldable pub vec_length : BblVec → ℕ
vec_length v = if ltb 0 v.elem_size then length v.data_bytes / v.elem_size else 0

-- `toIndex`
unfoldable pub to_index : ℤ → ℕ → Option ℕ
to_index (pos n) len = if leb len n then none else some n
to_index (negsuc n) len = none

-- the bytes that `readVecElem` copies
unfoldable pub elem_copied : ValueType → ℕ → ℕ
elem_copied ValueType.int size = 8
elem_copied ValueType.float size = 8
elem_copied ValueType.bool size = 1
elem_copied _ size = size

unfoldable pub elem_struct : List StructDesc → BblVec → Bytes → Result VecError FieldValue
elem_struct descs vec bytes = elim (find_desc vec.elem_type descs) [
  | none ↦ err (unknown_struct vec.elem_type)
  | some d ↦
      let s = alloc_data d in
      if ltb d.total_size vec.elem_size
      then err overrun
      else ok (fresh (record s { data_bytes = poke 0 bytes s.data_bytes }))
]

-- the value that the bytes of an element stand for
unfoldable pub elem_value :
    StructEnv → List StructDesc → BblVec → ValueType → Bytes → Result VecError FieldValue
elem_value env descs vec ValueType.int bytes =
    ok (word (make_int env.to_double (signed 64 (from_le bytes))))
elem_value env descs vec ValueType.float bytes = ok (word (make_float (from_le bytes)))
elem_value env descs vec ValueType.bool bytes = ok (word (make_bool (not (from_le bytes == 0))))
elem_value env descs vec ValueType.struct bytes = elem_struct descs vec bytes
elem_value env descs vec _ bytes = err unsupported

unfoldable pub read_vec_elem : StructEnv → List StructDesc → BblVec → ℕ → Result VecError FieldValue
read_vec_elem env descs vec i =
    let size = elem_copied vec.elem_type_tag vec.elem_size in
    if leb (vec_length vec) i
    then err (out_of_bounds i (vec_length vec))
    else if ltb (length vec.data_bytes) (i * vec.elem_size + size)
    then err overrun
    else elem_value env descs vec vec.elem_type_tag (peek (i * vec.elem_size) size vec.data_bytes)

unfoldable pub struct_bytes : StructEnv → BblVec → ℕ → Result VecError Bytes
struct_bytes env vec v =
    let s = env.struct_at (as_ptr v) in
    if not (is_type env v ValueType.struct) || not (bytes_eq s.desc.name vec.elem_type)
    then err (expected_struct vec.elem_type)
    else if ltb (length s.data_bytes) vec.elem_size
    then err overrun
    else ok (take vec.elem_size s.data_bytes)

-- the bytes of a value as an element, behind the tests of `writeVecElem`
unfoldable pub elem_bytes : StructEnv → BblVec → ValueType → ℕ → Result VecError Bytes
elem_bytes env vec ValueType.int v =
    if is_type env v ValueType.int
    then ok (to_le 8 (wrap (2 ^ 64) (int_val v)))
    else err (expected_int (value_type env.kind v))
elem_bytes env vec ValueType.float v =
    if is_type env v ValueType.float
    then ok (to_le 8 v)
    else if is_type env v ValueType.int
    then ok (to_le 8 (env.to_double (int_val v)))
    else err (expected_float (value_type env.kind v))
elem_bytes env vec ValueType.bool v =
    if is_type env v ValueType.bool
    then ok ((if bool_val v then 1 else 0) ∷ [])
    else err (expected_bool (value_type env.kind v))
elem_bytes env vec ValueType.struct v = struct_bytes env vec v
elem_bytes env vec _ v = err unsupported

unfoldable pub write_vec_elem : StructEnv → BblVec → ℕ → ℕ → Result VecError BblVec
write_vec_elem env vec i v =
    if leb (vec_length vec) i
    then err (out_of_bounds i (vec_length vec))
    else elim (elem_bytes env vec vec.elem_type_tag v) [
      | err e ↦ err e
      | ok bytes ↦
          if ltb (length vec.data_bytes) (i * vec.elem_size + length bytes)
          then err overrun
          else ok (record vec { data_bytes = poke (i * vec.elem_size) bytes vec.data_bytes })
    ]

-- `resize` of a vector to a smaller size
unfoldable pub rolled_back : BblVec → ℕ → BblVec
rolled_back vec old_size = record vec { data_bytes = take old_size vec.data_bytes }

-- `memcpy` of the bytes of a new element
unfoldable pub appended : BblVec → ℕ → Bytes → BblVec × Option VecError
appended vec old_size bytes =
    if ltb (length vec.data_bytes) (old_size + length bytes)
    then (vec, some overrun)
    else (record vec { data_bytes = poke old_size bytes vec.data_bytes }, none)

-- the switch of `packValue`, on the vector that has grown
unfoldable pub pack_switch : StructEnv → BblVec → ℕ → ValueType → ℕ → BblVec × Option VecError
pack_switch env vec old_size ValueType.int v =
    if not (is_type env v ValueType.int)
    then (rolled_back vec old_size, some (expected_int (value_type env.kind v)))
    else appended vec old_size (to_le 8 (wrap (2 ^ 64) (int_val v)))
pack_switch env vec old_size ValueType.float v =
    if is_type env v ValueType.float
    then appended vec old_size (to_le 8 v)
    else if is_type env v ValueType.int
    then appended vec old_size (to_le 8 (env.to_double (int_val v)))
    else (rolled_back vec old_size, some (expected_float (value_type env.kind v)))
pack_switch env vec old_size ValueType.bool v =
    if not (is_type env v ValueType.bool)
    then (rolled_back vec old_size, some (expected_bool (value_type env.kind v)))
    else appended vec old_size ((if bool_val v then 1 else 0) ∷ [])
pack_switch env vec old_size ValueType.struct v =
    let s = env.struct_at (as_ptr v) in
    if not (is_type env v ValueType.struct) || not (bytes_eq s.desc.name vec.elem_type)
    then (rolled_back vec old_size, some (expected_struct vec.elem_type))
    else if ltb (length s.data_bytes) vec.elem_size
    then (vec, some overrun)
    else appended vec old_size (take vec.elem_size s.data_bytes)
pack_switch env vec old_size _ v = (rolled_back vec old_size, some unsupported)

-- The vector behind the call, and the error if it throws.
unfoldable pub pack_value : StructEnv → BblVec → ℕ → BblVec × Option VecError
pack_value env vec v =
    pack_switch env (record vec { data_bytes = vec.data_bytes ++ replicate vec.elem_size 0 })
      (length vec.data_bytes) vec.elem_type_tag v
