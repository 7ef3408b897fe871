-- ===== src/Struct/Access.antt =====
-- `readField`, `writeField` and `constructStruct` of src/bbl.cpp.
use bbl.Prelude.{
  ℕ, ◌+◌, ◌^◌, Bool, not, ◌||◌, ltb, ◌==◌, if◌then◌else◌, none, some, List, [], ◌∷◌, length, take,
  replicate,
}
use bbl.Prelude.Int.{ℤ, pos, wrap}
use bbl.Prelude.Result.{Result, ok, err, ◌>>=◌}
use bbl.Value.{
  ValueType, value_type, type_eq, as_ptr, int_val, bool_val, make_int, make_float, make_bool,
}
use bbl.Lexer.{Bytes, bytes_eq}
use bbl.Struct.{
  CType, FieldDesc, StructDesc, BblStruct, StructEnv, find_desc, to_le, from_le, peek, poke, signed,
}

pub data FieldError : Type 0 where
  expected_int expected_numeric expected_bool : ValueType → FieldError
  expected_struct unknown_struct_type : Bytes → FieldError
  expected_arguments : Bytes → ℕ → ℕ → FieldError
  overrun : FieldError

-- `allocStruct`: zeros
unfoldable pub alloc_data : StructDesc → BblStruct
alloc_data d = record { desc = d; data_bytes = replicate d.total_size 0 }

-- the bytes that `memcpy` copies for a field of a size
unfoldable pub copied : CType → ℕ → ℕ
copied CType.int8 size = 1
copied CType.uint8 size = 1
copied CType.int16 size = 2
copied CType.uint16 size = 2
copied CType.int32 size = 4
copied CType.uint32 size = 4
copied CType.int64 size = 8
copied CType.uint64 size = 8
copied CType.float32 size = 4
copied CType.float64 size = 8
copied CType.bool size = 1
copied CType.struct size = size

abbrev pub width : FieldDesc → ℕ
width fd = copied fd.ctype fd.size

-- what `readField` returns: a value, or a new struct
pub data FieldValue : Type 0 where
  word : ℕ → FieldValue
  fresh : BblStruct → FieldValue

-- the case of `readField` for nested structs
unfoldable pub read_inner : List StructDesc → FieldDesc → Bytes → Result FieldError FieldValue
read_inner descs fd bytes = elim (find_desc fd.struct_type descs) [
  | none ↦ err (unknown_struct_type fd.struct_type)
  | some d ↦
      let inner = alloc_data d in
      if ltb d.total_size fd.size
      then err overrun
      else ok (fresh (record inner { data_bytes = poke 0 bytes inner.data_bytes }))
]

-- the value that the bytes of a field stand for
unfoldable pub decode :
    StructEnv → List StructDesc → FieldDesc → CType → Bytes → Result FieldError FieldValue
decode env descs fd CType.int8 bytes = ok (word (make_int env.to_double (signed 8 (from_le bytes))))
decode env descs fd CType.uint8 bytes = ok (word (make_int env.to_double (pos (from_le bytes))))
decode env descs fd CType.int16 bytes =
    ok (word (make_int env.to_double (signed 16 (from_le bytes))))
decode env descs fd CType.uint16 bytes = ok (word (make_int env.to_double (pos (from_le bytes))))
decode env descs fd CType.int32 bytes =
    ok (word (make_int env.to_double (signed 32 (from_le bytes))))
decode env descs fd CType.uint32 bytes = ok (word (make_int env.to_double (pos (from_le bytes))))
decode env descs fd CType.int64 bytes =
    ok (word (make_int env.to_double (signed 64 (from_le bytes))))
decode env descs fd CType.uint64 bytes =
    ok (word (make_int env.to_double (signed 64 (from_le bytes))))
decode env descs fd CType.float32 bytes = ok (word (make_float (env.widen (from_le bytes))))
decode env descs fd CType.float64 bytes = ok (word (make_float (from_le bytes)))
decode env descs fd CType.bool bytes = ok (word (make_bool (not (from_le bytes == 0))))
decode env descs fd CType.struct bytes = read_inner descs fd bytes

unfoldable pub read_field :
    StructEnv → List StructDesc → BblStruct → FieldDesc → Result FieldError FieldValue
read_field env descs s fd =
    if ltb (length s.data_bytes) (fd.offset + width fd)
    then err overrun
    else decode env descs fd fd.ctype (peek fd.offset (width fd) s.data_bytes)

abbrev pub is_type : StructEnv → ℕ → ValueType → Bool
is_type env v t = type_eq (value_type env.kind v) t

-- `static_cast<intN_t>` of an int, `w` bits
unfoldable pub encode_int : StructEnv → ℕ → ℕ → Result FieldError ℕ
encode_int env w v =
    if is_type env v ValueType.int
    then ok (wrap (2 ^ w) (int_val v))
    else err (expected_int (value_type env.kind v))

-- a float, or an int that is converted
unfoldable pub encode_float : StructEnv → (ℕ → ℕ) → (ℤ → ℕ) → ℕ → Result FieldError ℕ
encode_float env of_float of_int v =
    if is_type env v ValueType.float
    then ok (of_float v)
    else if is_type env v ValueType.int
    then ok (of_int (int_val v))
    else err (expected_numeric (value_type env.kind v))

unfoldable pub encode_bool : StructEnv → ℕ → Result FieldError ℕ
encode_bool env v =
    if is_type env v ValueType.bool
    then ok (if bool_val v then 1 else 0)
    else err (expected_bool (value_type env.kind v))

-- the bytes of a struct value
unfoldable pub encode_struct : StructEnv → FieldDesc → ℕ → Result FieldError Bytes
encode_struct env fd v =
    let s = env.struct_at (as_ptr v) in
    if not (is_type env v ValueType.struct) || not (bytes_eq s.desc.name fd.struct_type)
    then err (expected_struct fd.struct_type)
    else if ltb (length s.data_bytes) fd.size
    then err overrun
    else ok (take fd.size s.data_bytes)

-- the bytes of `k` that hold a number
abbrev pub number_bytes : ℕ → Result FieldError ℕ → Result FieldError Bytes
number_bytes k r = r >>= (λ n. ok (to_le k n))

unfoldable pub encode : StructEnv → FieldDesc → CType → ℕ → Result FieldError Bytes
encode env fd CType.int8 v = number_bytes 1 (encode_int env 8 v)
encode env fd CType.uint8 v = number_bytes 1 (encode_int env 8 v)
encode env fd CType.int16 v = number_bytes 2 (encode_int env 16 v)
encode env fd CType.uint16 v = number_bytes 2 (encode_int env 16 v)
encode env fd CType.int32 v = number_bytes 4 (encode_int env 32 v)
encode env fd CType.uint32 v = number_bytes 4 (encode_int env 32 v)
encode env fd CType.int64 v = number_bytes 8 (encode_int env 64 v)
encode env fd CType.uint64 v = number_bytes 8 (encode_int env 64 v)
encode env fd CType.float32 v = number_bytes 4 (encode_float env env.narrow env.to_float v)
encode env fd CType.float64 v = number_bytes 8 (encode_float env (λ d. d) env.to_double v)
encode env fd CType.bool v = number_bytes 1 (encode_bool env v)
encode env fd CType.struct v = encode_struct env fd v

unfoldable pub write_field : StructEnv → BblStruct → FieldDesc → ℕ → Result FieldError BblStruct
write_field env s fd v = encode env fd fd.ctype v >>= (λ bytes.
    if ltb (length s.data_bytes) (fd.offset + width fd)
    then err overrun
    else ok (record s { data_bytes = poke fd.offset bytes s.data_bytes }))

-- the loop of `constructStruct`
unfoldable pub write_fields :
    StructEnv → BblStruct → List FieldDesc → List ℕ → Result FieldError BblStruct
write_fields env s [] args = ok s
write_fields env s (fd ∷ fds) [] = ok s
write_fields env s (fd ∷ fds) (v ∷ vs) = write_field env s fd v >>= (λ t. write_fields env t fds vs)

unfoldable pub construct_struct : StructEnv → StructDesc → List ℕ → Result FieldError BblStruct
construct_struct env d args =
    if not (length args == length d.fields)
    then err (expected_arguments d.name (length d.fields) (length args))
    else write_fields env (alloc_data d) d.fields args
