-- ===== src/Struct.antt =====
-- src/bbl.h and src/bbl.cpp: packed structs. `StructBuilder`, `registerStruct`, `readField`,
-- `writeField` and `constructStruct`. Memory is a list of bytes, numbers are little-endian in it; a
-- `memcpy` past the end, which is undefined in the source, is the error `overrun` here. The
-- conversions of the floating-point unit and the heap's structs are parameters.
pub mod Access
pub mod Layout
pub mod Memory
pub mod Fields
pub mod Words
pub mod Kept
pub mod Vector
pub mod Tests
use bbl.Prelude.{
  ℕ, zero, suc, ◌+◌, ◌-◌, ◌*◌, ◌/◌, ◌%◌, ◌^◌, Bool, true, false, not, ◌&&◌, ◌||◌, ltb, leb, ◌==◌,
  if◌then◌else◌, Option, none, some, List, [], ◌∷◌, ◌++◌, length, take, drop, replicate,
}
use bbl.Prelude.Int.{ℤ, pos, negsuc, wrap, signed64}
use bbl.Prelude.Result.{Result, ok, err, ◌>>=◌}
use bbl.Value.{
  ValueType, GcType, value_type, type_eq, as_ptr, int_val, bool_val, make_int, make_float,
  make_bool,
}
use bbl.Lexer.{Bytes, bytes_eq}

-- `enum class CType`
pub data CType : Type 0 where
  int8 uint8 int16 uint16 int32 uint32 int64 uint64 float32 float64 bool struct : CType

pub record FieldDesc : Type 0 where
  pub name : Bytes
  pub offset : ℕ
  pub size : ℕ
  pub ctype : CType
  pub struct_type : Bytes

pub record StructDesc : Type 0 where
  pub name : Bytes
  pub total_size : ℕ
  pub fields : List FieldDesc

pub record BblStruct : Type 0 where
  pub desc : StructDesc
  pub data_bytes : Bytes

pub data StructError : Type 0 where
  exceeds_total_size : Bytes → Bytes → StructError
  overlaps : Bytes → Bytes → Bytes → StructError
  unknown_struct : Bytes → Bytes → Bytes → StructError

-- `StructBuilder` keeps what a `StructDesc` has.
abbrev end_of : ℕ → ℕ → ℕ
end_of offset size = (offset + size) % 2 ^ 64

-- the loop of `addField` over the fields: the name of the first that the new one overlaps
unfoldable pub overlapped : List FieldDesc → ℕ → ℕ → Option Bytes
overlapped [] offset size = none
overlapped (f ∷ fs) offset size =
    let rest = overlapped fs offset size in
    if ltb f.offset (end_of offset size) && ltb offset (end_of f.offset f.size)
    then some f.name
    else rest

unfoldable pub add_field :
    StructDesc → Bytes → ℕ → ℕ → CType → Bytes → Result StructError StructDesc
add_field b field offset size ctype struct_type =
    if ltb b.total_size (end_of offset size)
    then err (exceeds_total_size b.name field)
    else elim (overlapped b.fields offset size) [
      | some other ↦ err (overlaps b.name field other)
      | none ↦ ok (record b {
        fields =
            b.fields
            ++ record {
              name = field;
              offset = offset;
              size = size;
              ctype = ctype;
              struct_type = struct_type;
            }
              ∷ [];
      })
    ]

-- `sizeof` of the C++ type, which `field<T>` hands over
unfoldable pub ctype_size : CType → ℕ
ctype_size CType.int8 = 1
ctype_size CType.uint8 = 1
ctype_size CType.int16 = 2
ctype_size CType.uint16 = 2
ctype_size CType.int32 = 4
ctype_size CType.uint32 = 4
ctype_size CType.int64 = 8
ctype_size CType.uint64 = 8
ctype_size CType.float32 = 4
ctype_size CType.float64 = 8
ctype_size CType.bool = 1
ctype_size CType.struct = 0

-- `field<T>`, and `structField` for `struct`
unfoldable pub builder_field :
    StructDesc → Bytes → ℕ → CType → Bytes → Result StructError StructDesc
builder_field b field offset ctype struct_type =
    add_field b field offset (ctype_size ctype) ctype struct_type

unfoldable pub find_desc : Bytes → List StructDesc → Option StructDesc
find_desc n [] = none
find_desc n (d ∷ ds) = let rest = find_desc n ds in if bytes_eq d.name n then some d else rest

-- the loop of `registerStruct`: the fields with the sizes of nested structs
unfoldable pub resolve_fields :
    List StructDesc → Bytes → List FieldDesc → Result StructError (List FieldDesc)
resolve_fields descs owner [] = ok []
resolve_fields descs owner (f ∷ fs) =
    let rest = resolve_fields descs owner fs in
    elim f.ctype [
      | CType.struct ↦ elim (find_desc f.struct_type descs) [
        | none ↦ err (unknown_struct owner f.name f.struct_type)
        | some d ↦ rest >>= (λ others. ok (record f { size = d.total_size } ∷ others))
      ]
      | _ ↦ rest >>= (λ others. ok (f ∷ others))
    ]

unfoldable pub register_struct : List StructDesc → StructDesc → Result StructError (List StructDesc)
register_struct descs b = elim (find_desc b.name descs) [
  | some _ ↦ ok descs
  | none ↦
      resolve_fields descs b.name b.fields >>= (λ fields. ok (record b { fields = fields } ∷ descs))
]

-- What structs read of the heap and of the floating-point unit; patterns of floats are numbers.
pub record StructEnv : Type 0 where
  pub kind : ℕ → GcType
  pub struct_at : ℕ → BblStruct
  pub to_double : ℤ → ℕ
  pub to_float : ℤ → ℕ
  pub narrow : ℕ → ℕ
  pub widen : ℕ → ℕ

-- the bytes of a number in memory
unfoldable pub to_le : ℕ → ℕ → Bytes
to_le zero n = []
to_le (suc k) n = n % 256 ∷ to_le k (n / 256)

unfoldable pub from_le : Bytes → ℕ
from_le [] = 0
from_le (b ∷ bs) = b + 256 * from_le bs

-- `memcpy` from and to an offset
abbrev pub peek : ℕ → ℕ → Bytes → Bytes
peek offset n bytes = take n (drop offset bytes)

unfoldable pub poke : ℕ → Bytes → Bytes → Bytes
poke offset new bytes = take offset bytes ++ new ++ drop (length new) (drop offset bytes)

-- the `intN_t` that a pattern of `w` bits stands for
unfoldable pub signed : ℕ → ℕ → ℤ
signed w n = if ltb (n * 2) (2 ^ w) then pos n else negsuc (2 ^ w - n - 1)
