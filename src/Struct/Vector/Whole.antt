-- ===== src/Struct/Vector/Whole.antt =====
-- A `BblVec` of src/bbl.h with whole elements, and the bytes that src/bbl.cpp writes for one.
use bbl.Prelude.{
  ℕ, suc, ◌+◌, ◌*◌, ◌/◌, ◌^◌, ◌≤◌, ◌<◌, ◌≡◌, ◌≢◌, refl, sym, ap, ◌∙◌, subst, Bool, true, false, not,
  ltb, ◌||◌, if◌then◌else◌, ◌⊎◌, inl, inr, List, length, length-take, arith, Bool-cases,
}
use bbl.Prelude.Result.{ok, err, ok_injective}
use bbl.Lexer.{Bytes, bytes_eq}
use bbl.Prelude.Int.{wrap}
use bbl.Value.{ValueType, as_ptr, value_type, int_val}
use bbl.Struct.{StructDesc, StructEnv, to_le}
use bbl.Struct.Access.{is_type}
use bbl.Struct.Memory.{length-to_le}
use bbl.Struct.Vector.{
  BblVec, VecError, expected_float, overrun, vec_length, elem_copied, elem_struct, elem_value,
  struct_bytes, elem_bytes,
}

pub mul_div : (n e : ℕ) → 0 < e → n * e / e ≡ n
mul_div n e h = grind arith

pub mul_room : (i n e : ℕ) → i < n → i * e + e ≤ n * e
mul_room i n e h = grind arith

pub mul_next : (n e : ℕ) → suc n * e ≡ n * e + e
mul_next n e = grind arith

-- two elements lie apart
pub beside : (i j e k : ℕ) → k ≡ e → j ≢ i → (j * e + e ≤ i * e) ⊎ (i * e + k ≤ j * e)
beside i j e k same ne = elim (Bool-cases (ltb j i)) [
  | inl z ↦ inl (mul_room j i e (ground arith))
  | inr z ↦
      let less : i < j = ground arith in
      inr (subst (λ m. i * e + m ≤ j * e) (sym same) (mul_room i j e less))
]

-- `n` elements of the size that their type has
pub record IsVec (vec : BblVec) (n : ℕ) : Type 0 where
  pub whole : length vec.data_bytes ≡ n * vec.elem_size
  pub full : 0 < vec.elem_size
  pub sized : elem_copied vec.elem_type_tag vec.elem_size ≡ vec.elem_size

pub vec_length-IsVec : (vec : BblVec) (n : ℕ) → IsVec vec n → vec_length vec ≡ n
unfolding vec_length
vec_length-IsVec vec n v =
    let pos : ltb 0 vec.elem_size ≡ true = let f = v.full in ground arith in
    rw pos (ap (λ l. l / vec.elem_size) v.whole ∙ mul_div n vec.elem_size v.full)

pub struct_bytes-length :
    (env : StructEnv) (vec : BblVec) (v : ℕ) (bs : Bytes)
    → struct_bytes env vec v ≡ ok bs
    → length bs ≡ vec.elem_size
unfolding struct_bytes
struct_bytes-length env vec v bs =
    let s = env.struct_at (as_ptr v) in
    elim (Bool-cases
      (not (is_type env v ValueType.struct) || not (bytes_eq s.desc.name vec.elem_type))) [
        | inl z ↦ rw z (λ h. absurd (cc h))
        | inr z ↦ rw z (elim (Bool-cases (ltb (length s.data_bytes) vec.elem_size)) [
          | inl y ↦ rw y (λ h. absurd (cc h))
          | inr y ↦ rw y (λ h.
              ap length (sym (ok_injective h))
              ∙ length-take vec.elem_size s.data_bytes (ground arith))
        ])
      ]

-- one test before the bytes
pub tested :
    (t : Bool) (a bs : Bytes) (e : VecError) (k : ℕ)
    → length a ≡ k
    → (if t then ok a else err e) ≡ ok bs
    → length bs ≡ k
tested true a bs e k l h = ap length (sym (ok_injective h)) ∙ l
tested false a bs e k l h = absurd (cc h)

pub elem_bytes-length :
    (env : StructEnv) (vec : BblVec) (tag : ValueType) (v : ℕ) (bs : Bytes)
    → elem_bytes env vec tag v ≡ ok bs
    → length bs ≡ elem_copied tag vec.elem_size
unfolding elem_bytes elem_copied
elem_bytes-length env vec ValueType.null v bs h = absurd (cc h)
elem_bytes-length env vec ValueType.bool v bs h =
    tested (is_type env v ValueType.bool) _ bs _ 1 refl h
elem_bytes-length env vec ValueType.int v bs h =
    tested (is_type env v ValueType.int) _ bs _ 8 (length-to_le 8 (wrap (2 ^ 64) (int_val v))) h
elem_bytes-length env vec ValueType.float v bs h =
    elim (Bool-cases (is_type env v ValueType.float)) [
      | inl z ↦ tested true (to_le 8 v) bs overrun 8 (length-to_le 8 v) (sym (rw z refl) ∙ h)
      | inr z ↦
          tested (is_type env v ValueType.int) (to_le 8 (env.to_double (int_val v))) bs
            (expected_float (value_type env.kind v)) 8 (length-to_le 8 (env.to_double (int_val v)))
            (sym (rw z refl) ∙ h)
    ]
elem_bytes-length env vec ValueType.string v bs h = absurd (cc h)
elem_bytes-length env vec ValueType.binary v bs h = absurd (cc h)
elem_bytes-length env vec ValueType.fn v bs h = absurd (cc h)
elem_bytes-length env vec ValueType.vector v bs h = absurd (cc h)
elem_bytes-length env vec ValueType.table v bs h = absurd (cc h)
elem_bytes-length env vec ValueType.struct v bs h = struct_bytes-length env vec v bs h
elem_bytes-length env vec ValueType.user_data v bs h = absurd (cc h)

-- what bytes stand for does not depend on the other elements
pub elem_value_same :
    (env : StructEnv) (descs : List StructDesc) (vec : BblVec) (d : Bytes) (tag : ValueType)
    (bs : Bytes)
    → elem_value env descs (record vec { data_bytes = d }) tag bs ≡ elem_value env descs vec tag bs
unfolding elem_value elem_struct
elem_value_same env descs vec d ValueType.null bs = refl
elem_value_same env descs vec d ValueType.bool bs = refl
elem_value_same env descs vec d ValueType.int bs = refl
elem_value_same env descs vec d ValueType.float bs = refl
elem_value_same env descs vec d ValueType.string bs = refl
elem_value_same env descs vec d ValueType.binary bs = refl
elem_value_same env descs vec d ValueType.fn bs = refl
elem_value_same env descs vec d ValueType.vector bs = refl
elem_value_same env descs vec d ValueType.table bs = refl
elem_value_same env descs vec d ValueType.struct bs = refl
elem_value_same env descs vec d ValueType.user_data bs = refl
