-- ===== src/Value.antt =====
-- src/bbl.h: `Type`, `GcType` and the NaN-boxed `BblValue`; src/bbl.cpp: the equality of values and
-- of table keys.
-- A value is its pattern, a number below 2 ^ 64. `& QNAN`, `& TAG_MASK` and `& PAYLOAD_MASK` select
-- the top 13 bits, the top 16 bits and the low 48 bits, so they are written by `/` and `%`; `|` of
-- a tag and a payload below 2 ^ 48 is a sum. A pointer is its address. What needs the heap or the
-- floating-point unit is a parameter: the object kind at an address, the equality of two doubles
-- and the conversion of an integer to a double, on patterns.
pub mod Boxing
pub mod Equality
pub mod Tests
use bbl.Prelude.{
  ℕ, ◌+◌, ◌-◌, ◌*◌, ◌/◌, ◌%◌, ◌^◌, Bool, true, false, not, ◌&&◌, ◌||◌, ltb, leb, ◌==◌,
  if◌then◌else◌, eq_Bool,
}
use bbl.Prelude.Int.{ℤ, pos, negsuc, ltb_ℤ, eq_ℤ, wrap, signed64}

-- `enum class Type`
pub data ValueType : Type 0 where
  null bool int float string binary fn vector table struct user_data : ValueType

-- `enum class GcType`
pub data GcType : Type 0 where
  string binary struct vec table fn closure user_data : GcType

unfoldable pub type_index : ValueType → ℕ
type_index ValueType.null = 0
type_index ValueType.bool = 1
type_index ValueType.int = 2
type_index ValueType.float = 3
type_index ValueType.string = 4
type_index ValueType.binary = 5
type_index ValueType.fn = 6
type_index ValueType.vector = 7
type_index ValueType.table = 8
type_index ValueType.struct = 9
type_index ValueType.user_data = 10

-- `a.type() == b.type()`
unfoldable pub type_eq : ValueType → ValueType → Bool
unfolding type_index
type_eq s t = type_index s == type_index t

abbrev pub qnan : ℕ
qnan = 0xFFF8_0000_0000_0000

abbrev pub tag_null : ℕ
tag_null = 0xFFF8_0000_0000_0000

abbrev pub tag_bool : ℕ
tag_bool = 0xFFF9_0000_0000_0000

abbrev pub tag_int : ℕ
tag_int = 0xFFFA_0000_0000_0000

abbrev pub tag_closure : ℕ
tag_closure = 0xFFFB_0000_0000_0000

abbrev pub tag_cfn : ℕ
tag_cfn = 0xFFFC_0000_0000_0000

abbrev pub tag_fn : ℕ
tag_fn = 0xFFFD_0000_0000_0000

abbrev pub tag_string : ℕ
tag_string = 0xFFFE_0000_0000_0000

abbrev pub tag_object : ℕ
tag_object = 0xFFFF_0000_0000_0000

unfoldable pub is_double : ℕ → Bool
is_double bits = not (bits / 2 ^ 51 == 0x1FFF)

-- `bits & TAG_MASK`
unfoldable pub tag_of : ℕ → ℕ
tag_of bits = bits / 2 ^ 48 * 2 ^ 48

-- `asPtr`, `bits & PAYLOAD_MASK`
unfoldable pub as_ptr : ℕ → ℕ
as_ptr bits = bits % 2 ^ 48

-- the switch over `gcType` of an object value
unfoldable pub object_type : GcType → ValueType
object_type GcType.table = ValueType.table
object_type GcType.vec = ValueType.vector
object_type GcType.struct = ValueType.struct
object_type GcType.binary = ValueType.binary
object_type GcType.user_data = ValueType.user_data
object_type _ = ValueType.null

-- `BblValue::type`; `kind` is the `gcType` of the object at an address
unfoldable pub value_type : (ℕ → GcType) → ℕ → ValueType
unfolding is_double tag_of as_ptr object_type
value_type kind bits =
    if is_double bits
    then ValueType.float
    else let tag = tag_of bits in
      if tag == tag_null
      then ValueType.null
      else if tag == tag_bool
      then ValueType.bool
      else if tag == tag_int
      then ValueType.int
      else if tag == tag_closure || (tag == tag_cfn || tag == tag_fn)
      then ValueType.fn
      else if tag == tag_string
      then ValueType.string
      else if tag == tag_object
      then object_type (kind (as_ptr bits))
      else ValueType.null

unfoldable pub int_val : ℕ → ℤ
unfolding signed64
int_val bits =
    let r = bits % 2 ^ 48 in
    if r / 2 ^ 47 % 2 == 1 then signed64 (r + (2 ^ 64 - 2 ^ 48)) else signed64 r

unfoldable pub bool_val : ℕ → Bool
bool_val bits = bits % 2 == 1

unfoldable pub is_closure : ℕ → Bool
unfolding tag_of
is_closure bits = tag_of bits == tag_closure

unfoldable pub is_cfn : ℕ → Bool
unfolding tag_of
is_cfn bits = tag_of bits == tag_cfn

-- a double is its own pattern
unfoldable pub make_float : ℕ → ℕ
make_float d = d

abbrev pub make_null : ℕ
make_null = tag_null

-- `int64_t` to `BblValue`: 48 bits, or a double
unfoldable pub make_int : (ℤ → ℕ) → ℤ → ℕ
unfolding wrap
make_int to_double n =
    if ltb_ℤ n (negsuc (2 ^ 47 - 1)) || not (ltb_ℤ n (pos (2 ^ 47)))
    then make_float (to_double n)
    else tag_int + wrap (2 ^ 64) n % 2 ^ 48

unfoldable pub make_bool : Bool → ℕ
make_bool b = tag_bool + (if b then 1 else 0)

unfoldable pub make_string : ℕ → ℕ
make_string p = tag_string + p

unfoldable pub make_fn : ℕ → ℕ
make_fn p = tag_fn + p

unfoldable pub make_cfn : ℕ → ℕ
make_cfn p = tag_cfn + p

unfoldable pub make_closure : ℕ → ℕ
make_closure p = tag_closure + p

-- `makeBinary`, `makeStruct`, `makeVector`, `makeTable` and `makeUserData` are one function
unfoldable pub make_object : ℕ → ℕ
make_object p = tag_object + p

-- `BblState::isGcPointer`
unfoldable pub is_gc_pointer : ℕ → Bool
unfolding is_double
is_gc_pointer bits =
    if is_double bits then false else let tag = bits / 2 ^ 48 % 8 in leb 3 tag && not (tag == 4)

-- `BblValue::operator==`
unfoldable pub value_eq : (ℕ → ℕ → Bool) → ℕ → ℕ → Bool
unfolding is_double
value_eq float_eq a b = if is_double a && is_double b then float_eq a b else a == b

-- `bblValueKeyEqual`
unfoldable pub key_equal : (ℕ → GcType) → (ℕ → ℕ → Bool) → ℕ → ℕ → Bool
unfolding value_type as_ptr int_val bool_val type_eq
key_equal kind float_eq a b =
    let s = value_type kind a in
    if not (type_eq s (value_type kind b))
    then false
    else if type_eq s ValueType.string
    then as_ptr a == as_ptr b
    else if type_eq s ValueType.int
    then eq_ℤ (int_val a) (int_val b)
    else if type_eq s ValueType.float
    then float_eq a b
    else if type_eq s ValueType.bool
    then eq_Bool (bool_val a) (bool_val b)
    else a == b
