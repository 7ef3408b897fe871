-- ===== src/Struct/Tests.antt =====
-- Runs of the structs and vectors of src/bbl.cpp on small ones.
use bbl.Prelude.{
  ℕ, true, List, ◌+◌, ◌≡◌, refl, arith, none, some, [], ◌∷◌, ◌++◌, set, inl, inr, length, ◌⊎◌,
}
use bbl.Prelude.Int.{wrap, pos}
use bbl.Prelude.Result.{ok}
use bbl.Lexer.{Bytes}
use bbl.Value.{
  GcType, ValueType, value_type, type_eq, type_index, is_double, tag_of, int_val, bool_val, tag_int,
  tag_bool, make_int, make_float, make_bool,
}
use bbl.Struct.{CType, FieldDesc, StructDesc, BblStruct, StructEnv, add_field, overlapped, to_le}
use bbl.Struct.Access.{word, FieldValue, decode, encode, construct_struct, copied}
use bbl.Struct.Layout.{IsLayout, AllApart, add_field-IsLayout}
use bbl.Struct.Fields.{AllSized}
use bbl.Struct.Kept.{Kept, AllKept, AllRead, construct_struct-AllRead}
use bbl.Struct.Words.{InRange, decode-encode}
use bbl.Struct.Vector.{
  BblVec, VecError, elem_value, elem_bytes, pack_value, write_vec_elem, elem_copied,
}
use bbl.Struct.Vector.Whole.{IsVec}
use bbl.Struct.Vector.Accepts.{Accepts, IsLong}
use bbl.Struct.Vector.Elements.{
  elements, pack_value-elements, pack_value-Accepts, write_vec_elem-elements,
}

abbrev x_field : FieldDesc
x_field = record { name = 120 ∷ []; offset = 0; size = 4; ctype = CType.int32; struct_type = [] }

abbrev on_field : FieldDesc
on_field = record { name = 111 ∷ []; offset = 4; size = 1; ctype = CType.bool; struct_type = [] }

abbrev x_only : StructDesc
x_only = record { name = 112 ∷ []; total_size = 8; fields = x_field ∷ [] }

abbrev pair : StructDesc
pair = record { name = 112 ∷ []; total_size = 8; fields = x_field ∷ on_field ∷ [] }

abbrev env : StructEnv
env = record {
  kind = λ p. GcType.struct;
  struct_at = λ p. record { desc = pair; data_bytes = [] };
  to_double = λ n. 4607182418800017408;
  to_float = λ n. 1065353216;
  narrow = λ d. 1065353216;
  widen = λ f. 4607182418800017408;
}

abbrev seven : ℕ
seven = tag_int + 7

abbrev yes : ℕ
yes = tag_bool + 1

x_only-IsLayout : IsLayout 8 (x_field ∷ [])
unfolding IsLayout AllApart
x_only-IsLayout = (omega arith, tt, tt)

pair_lem : add_field x_only (111 ∷ []) 4 1 CType.bool [] ≡ ok pair
unfolding add_field overlapped
pair_lem = refl

add_field-IsLayout_example : IsLayout 8 (x_field ∷ on_field ∷ [])
add_field-IsLayout_example =
    add_field-IsLayout x_only pair (111 ∷ []) 4 1 CType.bool [] (omega arith) (omega arith)
      x_only-IsLayout pair_lem

-- a struct of a byte, a double and a flag
abbrev byte_field : FieldDesc
byte_field = record { name = 98 ∷ []; offset = 0; size = 1; ctype = CType.uint8; struct_type = [] }

abbrev real_field : FieldDesc
real_field = record {
  name = 114 ∷ [];
  offset = 8;
  size = 8;
  ctype = CType.float64;
  struct_type = [];
}

abbrev sample : StructDesc
sample = record {
  name = 115 ∷ [];
  total_size = 16;
  fields = byte_field ∷ real_field ∷ on_field ∷ [];
}

-- 300, the double 1, and true
abbrev sample_args : List ℕ
sample_args = (tag_int + 300) ∷ 4607182418800017408 ∷ yes ∷ []

-- 300 is 44 in a byte
abbrev sample_values : List FieldValue
sample_values =
    word (make_int env.to_double (pos 44))
    ∷ word (make_float 4607182418800017408)
    ∷ word (make_bool true)
    ∷ []

sample-AllKept : AllKept env [] sample.fields sample_args sample_values
unfolding AllKept Kept InRange value_type is_double tag_of int_val bool_val wrap
sample-AllKept = (
  (refl, (pos 44, ((omega arith, omega arith), (refl, refl)))),
  (inl (refl, (omega arith, refl)), ((refl, refl), tt)),
)

sample-IsLayout : IsLayout 16 sample.fields
unfolding IsLayout AllApart
sample-IsLayout = (
  omega arith,
  (inr (omega arith), (inr (omega arith), tt)),
  (omega arith, (inl (omega arith), tt), (omega arith, tt, tt)),
)

sample-AllSized : AllSized env sample.fields
unfolding AllSized copied
sample-AllSized = (refl, (refl, (refl, tt)))

construct_struct-AllRead_example :
    (s : BblStruct) × ((construct_struct env sample sample_args ≡ ok s)
      × ((length s.data_bytes ≡ 16) × AllRead env [] s sample.fields sample_values))
construct_struct-AllRead_example =
    construct_struct-AllRead env [] sample sample_args sample_values sample-IsLayout sample-AllSized
      sample-AllKept

seven_int : value_type env.kind seven ≡ ValueType.int
unfolding value_type is_double tag_of
seven_int = refl

seven-InRange : InRange CType.uint16 (int_val seven)
unfolding InRange int_val
seven-InRange = (omega arith, omega arith)

decode-encode_example :
    (bs : Bytes) × (encode env x_field CType.uint16 seven ≡ ok bs)
    × (decode env [] x_field CType.uint16 bs ≡ ok (word seven))
decode-encode_example =
    decode-encode env seven seven_int [] x_field CType.uint16 (omega arith) seven-InRange

abbrev numbers : BblVec
numbers = record {
  elem_type = [];
  elem_type_tag = ValueType.int;
  elem_size = 8;
  data_bytes = 5 ∷ 0 ∷ 0 ∷ 0 ∷ 0 ∷ 0 ∷ 0 ∷ 0 ∷ [];
}

numbers-IsVec : IsVec numbers 1
unfolding elem_copied
numbers-IsVec = record { whole = refl; full = omega arith; sized = refl }

abbrev seven_bytes : Bytes
seven_bytes = 7 ∷ 0 ∷ 0 ∷ 0 ∷ 0 ∷ 0 ∷ 0 ∷ 0 ∷ []

seven_lem : elem_bytes env numbers ValueType.int seven ≡ ok seven_bytes
unfolding elem_bytes value_type type_eq type_index is_double tag_of int_val to_le wrap
seven_lem = refl

pack_value-elements_example :
    (w : BblVec) × (pack_value env numbers seven ≡ (w, none))
    × IsVec w 2
    × (elements env [] w 2
        ≡ elements env [] numbers 1 ++ elem_value env [] numbers ValueType.int seven_bytes ∷ [])
pack_value-elements_example =
    pack_value-elements env [] numbers 1 seven seven_bytes numbers-IsVec seven_lem

numbers-IsLong : IsLong env numbers yes
unfolding IsLong
numbers-IsLong e = absurd (cc e)

pack_value-Accepts_example :
    (Accepts env numbers yes ValueType.int
      × ((w : BblVec) × ((pack_value env numbers yes ≡ (w, none))
            × IsVec w 2
            × (elements env [] w 1 ≡ elements env [] numbers 1))))
    ⊎ (¬ (Accepts env numbers yes ValueType.int)
        × ((e : VecError) × (pack_value env numbers yes ≡ (numbers, some e))))
pack_value-Accepts_example = pack_value-Accepts env [] numbers 1 yes numbers-IsVec numbers-IsLong

write_vec_elem-elements_example :
    (w : BblVec) × (write_vec_elem env numbers 0 seven ≡ ok w)
    × IsVec w 1
    × (elements env [] w 1
        ≡ set (elements env [] numbers 1) 0 (elem_value env [] numbers ValueType.int seven_bytes))
write_vec_elem-elements_example =
    write_vec_elem-elements env [] numbers 1 0 seven seven_bytes numbers-IsVec (omega arith)
      seven_lem
