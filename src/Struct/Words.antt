-- ===== src/Struct/Words.antt =====
-- Numbers in the fields of structs of src/bbl.cpp: what `readField` makes of the bytes that `writeField`
-- stores.
use bbl.Prelude.{ℕ, ◌-◌, ◌%◌, ◌^◌, ◌<◌, ◌≡◌, refl, sym, ap, ◌∙◌, subst, List, arith}
use bbl.Prelude.Int.{ℤ, pos, negsuc, wrap, signed64, ◌≤ℤ◌}
use bbl.Prelude.Result.{Result, ok}
use bbl.Lexer.{Bytes}
use bbl.Value.{ValueType, GcType, value_type, type_eq, type_index, int_val, make_int}
use bbl.Value.Boxing.{FitsInt48}
use bbl.Struct.{CType, FieldDesc, StructDesc, StructEnv, to_le, from_le, signed}
use bbl.Struct.Access.{FieldError, word, FieldValue, decode, encode_int, encode, number_bytes}
use bbl.Struct.Memory.{from_le-to_le}

pub int_val-FitsInt48 : (v : ℕ) → FitsInt48 (int_val v)
unfolding int_val signed64
int_val-FitsInt48 v = ground arith

-- an int is boxed again to itself
make_int-int_val :
    (kind : ℕ → GcType) (to_double : ℤ → ℕ) (v : ℕ)
    → v < 2 ^ 64
    → value_type kind v ≡ ValueType.int
    → make_int to_double (int_val v) ≡ v
unfolding value_type make_int int_val
make_int-int_val kind to_double v small h = ground arith

pub signed-wrap8 : (n : ℤ) → negsuc 127 ≤ℤ n → n ≤ℤ pos 127 → signed 8 (wrap (2 ^ 8) n) ≡ n
unfolding signed wrap
signed-wrap8 (pos n) lo hi = ground arith
signed-wrap8 (negsuc n) lo hi = ground arith

pub signed-wrap16 : (n : ℤ) → negsuc 32767 ≤ℤ n → n ≤ℤ pos 32767 → signed 16 (wrap (2 ^ 16) n) ≡ n
unfolding signed wrap
signed-wrap16 (pos n) lo hi = ground arith
signed-wrap16 (negsuc n) lo hi = ground arith

pub signed-wrap32 :
    (n : ℤ) → negsuc (2 ^ 31 - 1) ≤ℤ n → n ≤ℤ pos (2 ^ 31 - 1) → signed 32 (wrap (2 ^ 32) n) ≡ n
unfolding signed wrap
signed-wrap32 (pos n) lo hi = ground arith
signed-wrap32 (negsuc n) lo hi = ground arith

pub signed-wrap64 :
    (n : ℤ) → negsuc (2 ^ 63 - 1) ≤ℤ n → n ≤ℤ pos (2 ^ 63 - 1) → signed 64 (wrap (2 ^ 64) n) ≡ n
unfolding signed wrap
signed-wrap64 (pos n) lo hi = ground arith
signed-wrap64 (negsuc n) lo hi = ground arith

-- the integers that a field of a type holds
abbrev pub Between : ℤ → ℤ → ℤ → Type 0
Between lo hi n = (lo ≤ℤ n) × (n ≤ℤ hi)

unfoldable pub InRange : CType → ℤ → Type 0
InRange CType.int8 n = Between (negsuc 127) (pos 127) n
InRange CType.uint8 n = Between (pos 0) (pos 255) n
InRange CType.int16 n = Between (negsuc 32767) (pos 32767) n
InRange CType.uint16 n = Between (pos 0) (pos 65535) n
InRange CType.int32 n = Between (negsuc 2147483647) (pos 2147483647) n
InRange CType.uint32 n = Between (pos 0) (pos 4294967295) n
InRange CType.int64 n = Unit
InRange CType.uint64 n = Unit
InRange CType.float32 n = ⊥
InRange CType.float64 n = ⊥
InRange CType.bool n = ⊥
InRange CType.struct n = ⊥

pub wrap-lt : (m : ℕ) (n : ℤ) → 0 < m → wrap m n < m
unfolding wrap
wrap-lt m (pos n) h = grind arith
wrap-lt m (negsuc n) h = omega arith

mod_small : (m n : ℕ) → n < m → n % m ≡ n
mod_small m n h = grind arith

pub pos-wrap : (m : ℕ) (n : ℤ) → pos 0 ≤ℤ n → n ≤ℤ pos (m - 1) → 0 < m → pos (wrap m n) ≡ n
unfolding wrap
pos-wrap m (pos n) lo hi h = ap (λ k. pos k) (mod_small m n (omega arith))
pos-wrap m (negsuc n) lo hi h = absurd (omega arith)

module _ (env : StructEnv) (v : ℕ) (is_int : value_type env.kind v ≡ ValueType.int) where
  encode_int_ok : (w : ℕ) → encode_int env w v ≡ ok (wrap (2 ^ w) (int_val v))
  unfolding encode_int type_eq type_index
  encode_int_ok w = rw is_int refl

  -- the bytes of an int
  pub number :
      (k w : ℕ) → number_bytes k (encode_int env w v) ≡ ok (to_le k (wrap (2 ^ w) (int_val v)))
  number k w = ap (number_bytes k) (encode_int_ok w)

  pub back :
      (k w : ℕ)
      → 256 ^ k ≡ 2 ^ w
      → 0 < 2 ^ w
      → from_le (to_le k (wrap (2 ^ w) (int_val v))) ≡ wrap (2 ^ w) (int_val v)
  back k w e h =
      from_le-to_le k (wrap (2 ^ w) (int_val v))
        (subst (λ m. wrap (2 ^ w) (int_val v) < m) (sym e) (wrap-lt (2 ^ w) (int_val v) h))

  same :
      {n : ℤ}
      → v < 2 ^ 64
      → n ≡ int_val v
      → ◌≡◌ {A = Result FieldError FieldValue} (ok (word (make_int env.to_double n))) (ok (word v))
  same small e =
      ap (λ m. ok (word (make_int env.to_double m))) e
      ∙ ap (λ u. ok (word u)) (make_int-int_val env.kind env.to_double v small is_int)

  -- A pattern that is an int, in the range of an integer field, is stored, and the bytes that are stored read
  -- as the same pattern.
  pub decode-encode :
      (descs : List StructDesc) (fd : FieldDesc) (c : CType)
      → v < 2 ^ 64
      → InRange c (int_val v)
      → (bs : Bytes) × (encode env fd c v ≡ ok bs) × (decode env descs fd c bs ≡ ok (word v))
  unfolding encode decode InRange
  decode-encode descs fd CType.int8 small range = (
    to_le 1 (wrap (2 ^ 8) (int_val v)),
    number 1 8,
    same small (
        ap (λ m. signed 8 m) (back 1 8 refl (omega arith))
        ∙ signed-wrap8 (int_val v) range.0 range.1),
  )
  decode-encode descs fd CType.uint8 small range = (
    to_le 1 (wrap (2 ^ 8) (int_val v)),
    number 1 8,
    same small (
        ap (λ m. pos m) (back 1 8 refl (omega arith))
        ∙ pos-wrap (2 ^ 8) (int_val v) range.0 range.1 (omega arith)),
  )
  decode-encode descs fd CType.int16 small range = (
    to_le 2 (wrap (2 ^ 16) (int_val v)),
    number 2 16,
    same small (
        ap (λ m. signed 16 m) (back 2 16 refl (omega arith))
        ∙ signed-wrap16 (int_val v) range.0 range.1),
  )
  decode-encode descs fd CType.uint16 small range = (
    to_le 2 (wrap (2 ^ 16) (int_val v)),
    number 2 16,
    same small (
        ap (λ m. pos m) (back 2 16 refl (omega arith))
        ∙ pos-wrap (2 ^ 16) (int_val v) range.0 range.1 (omega arith)),
  )
  decode-encode descs fd CType.int32 small range = (
    to_le 4 (wrap (2 ^ 32) (int_val v)),
    number 4 32,
    same small (
        ap (λ m. signed 32 m) (back 4 32 refl (omega arith))
        ∙ signed-wrap32 (int_val v) range.0 range.1),
  )
  decode-encode descs fd CType.uint32 small range = (
    to_le 4 (wrap (2 ^ 32) (int_val v)),
    number 4 32,
    same small (
        ap (λ m. pos m) (back 4 32 refl (omega arith))
        ∙ pos-wrap (2 ^ 32) (int_val v) range.0 range.1 (omega arith)),
  )
  decode-encode descs fd CType.int64 small range =
      let fits = int_val-FitsInt48 v in
      (
        to_le 8 (wrap (2 ^ 64) (int_val v)),
        number 8 64,
        same small (
            ap (λ m. signed 64 m) (back 8 64 refl (omega arith))
            ∙ signed-wrap64 (int_val v) (omega (arith, fits.0)) (omega (arith, fits.1))),
      )
  decode-encode descs fd CType.uint64 small range =
      let fits = int_val-FitsInt48 v in
      (
        to_le 8 (wrap (2 ^ 64) (int_val v)),
        number 8 64,
        same small (
            ap (λ m. signed 64 m) (back 8 64 refl (omega arith))
            ∙ signed-wrap64 (int_val v) (omega (arith, fits.0)) (omega (arith, fits.1))),
      )
  decode-encode descs fd CType.float32 small range = absurd range
  decode-encode descs fd CType.float64 small range = absurd range
  decode-encode descs fd CType.bool small range = absurd range
  decode-encode descs fd CType.struct small range = absurd range
