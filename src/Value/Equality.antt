-- ===== src/Value/Equality.antt =====
-- `bblValueKeyEqual` of src/bbl.cpp on keys that are not doubles: it compares the patterns.
use bbl.Prelude.{
  ℕ, ap, if◌then◌else◌, ◌+◌, ◌%◌, ◌<◌, ◌≤◌, ◌^◌, ◌≡◌, refl, Bool, true, false, ◌==◌, arith,
  Bool-cases, inl, inr, ==_iff, ==_ne, eq_Bool, ◌∙◌, sym,
}
use bbl.Prelude.Int.{ℤ, eq_ℤ}
use bbl.Value.{
  ValueType, GcType, value_type, int_val, bool_val, as_ptr, tag_of, is_double, key_equal, type_eq,
  type_index, tag_bool, tag_string, tag_int, object_type,
}

-- A pattern that one of the makers other than `makeFloat` gives.
pub record IsKey (k : ℕ) : Type 0 where
  pub word : k < 2 ^ 64
  pub no_double : is_double k ≡ false
  pub canonical_bool : tag_of k ≡ tag_bool → k ≤ tag_bool + 1

module _ (kind : ℕ → GcType) (k : ℕ) (d : is_double k ≡ false) where
  tag_of_string : type_eq (value_type kind k) ValueType.string ≡ true → tag_of k ≡ tag_string
  unfolding value_type type_eq object_type
  tag_of_string h = ground arith

  tag_of_int : type_eq (value_type kind k) ValueType.int ≡ true → tag_of k ≡ tag_int
  unfolding value_type type_eq object_type
  tag_of_int h = ground arith

  tag_of_bool : type_eq (value_type kind k) ValueType.bool ≡ true → tag_of k ≡ tag_bool
  unfolding value_type type_eq object_type
  tag_of_bool h = ground arith

  not_float : type_eq (value_type kind k) ValueType.float ≡ false
  unfolding value_type type_eq object_type
  not_float = ground arith

int_val-injective : (a b : ℕ) → eq_ℤ (int_val a) (int_val b) ≡ true → a % 2 ^ 48 ≡ b % 2 ^ 48
unfolding int_val
int_val-injective a b h = ground arith

eq_ℤ_refl : (a : ℤ) → eq_ℤ a a ≡ true
eq_ℤ_refl a = ground arith

eq_Bool_refl : (a : Bool) → eq_Bool a a ≡ true
eq_Bool_refl true = refl
eq_Bool_refl false = refl

pub type_eq_refl : (t : ValueType) → type_eq t t ≡ true
unfolding type_eq
type_eq_refl t = ground arith

-- `type_index` backwards
of_index : ℕ → ValueType
of_index n =
    if n == 0
    then ValueType.null
    else if n == 1
    then ValueType.bool
    else if n == 2
    then ValueType.int
    else if n == 3
    then ValueType.float
    else if n == 4
    then ValueType.string
    else if n == 5
    then ValueType.binary
    else if n == 6
    then ValueType.fn
    else if n == 7
    then ValueType.vector
    else if n == 8
    then ValueType.table
    else if n == 9
    then ValueType.struct
    else ValueType.user_data

of_index-type_index : (t : ValueType) → of_index (type_index t) ≡ t
unfolding of_index type_index
of_index-type_index ValueType.null = refl
of_index-type_index ValueType.bool = refl
of_index-type_index ValueType.int = refl
of_index-type_index ValueType.float = refl
of_index-type_index ValueType.string = refl
of_index-type_index ValueType.binary = refl
of_index-type_index ValueType.fn = refl
of_index-type_index ValueType.vector = refl
of_index-type_index ValueType.table = refl
of_index-type_index ValueType.struct = refl
of_index-type_index ValueType.user_data = refl

type_eq_eq : (s t : ValueType) → type_eq s t ≡ true → type_index s ≡ type_index t
unfolding type_eq
type_eq_eq s t h = ground arith

pub type_eq_same : (s t : ValueType) → type_eq s t ≡ true → s ≡ t
type_eq_same s t h =
    sym (of_index-type_index s) ∙ ap of_index (type_eq_eq s t h) ∙ of_index-type_index t

type_eq_trans : (s t u : ValueType) → type_eq s t ≡ true → type_eq s u ≡ true → type_eq t u ≡ true
unfolding type_eq
type_eq_trans s t u h g = ground arith

same_word : (a b : ℕ) → tag_of a ≡ tag_of b → as_ptr a ≡ as_ptr b → a ≡ b
unfolding tag_of as_ptr
same_word a b t p = omega arith

same_bool :
    (a b : ℕ)
    → tag_of a ≡ tag_bool
    → tag_of b ≡ tag_bool
    → a ≤ tag_bool + 1
    → b ≤ tag_bool + 1
    → eq_Bool (bool_val a) (bool_val b) ≡ true
    → a ≡ b
unfolding tag_of bool_val
same_bool a b s t x y h = ground arith

module _ (kind : ℕ → GcType) (float_eq : ℕ → ℕ → Bool) where
  module _ (a b : ℕ) (ka : IsKey a) (kb : IsKey b) where
    key_equal-eq : key_equal kind float_eq a b ≡ true → a ≡ b
    unfolding key_equal
    key_equal-eq h =
        let s = value_type kind a in
        let t = value_type kind b in
        elim (Bool-cases (type_eq s t)) [
          | inr differ ↦ cc (rw (differ, key_equal) at h)
          | inl same ↦ elim (Bool-cases (type_eq s ValueType.string)) [
            | inl x ↦
                let y = type_eq_trans s t ValueType.string same x in
                same_word a b
                  (tag_of_string kind a ka.no_double x ∙ sym (tag_of_string kind b kb.no_double y))
                  (ground (arith, same, x))
            | inr nx ↦ elim (Bool-cases (type_eq s ValueType.int)) [
              | inl x ↦
                  let y = type_eq_trans s t ValueType.int same x in
                  same_word a b
                    (tag_of_int kind a ka.no_double x ∙ sym (tag_of_int kind b kb.no_double y))
                    (unfold as_ptr in int_val-injective a b (ground (arith, same, nx, x)))
              | inr ni ↦ elim (Bool-cases (type_eq s ValueType.bool)) [
                | inl x ↦
                    let y = type_eq_trans s t ValueType.bool same x in
                    let tx = tag_of_bool kind a ka.no_double x in
                    let ty = tag_of_bool kind b kb.no_double y in
                    same_bool a b tx ty (ka.canonical_bool tx) (kb.canonical_bool ty)
                      (ground (arith, same, nx, ni, x, not_float kind a ka.no_double))
                | inr nb ↦
                    (==_iff a b).0
                      (rw (same, nx, ni, not_float kind a ka.no_double, nb, key_equal) at h)
              ]
            ]
          ]
        ]

  key_equal_refl : (k : ℕ) → IsKey k → key_equal kind float_eq k k ≡ true
  unfolding key_equal
  key_equal_refl k v = ground (
    arith,
    type_eq_refl (value_type kind k),
    not_float kind k v.no_double,
    eq_ℤ_refl (int_val k),
    eq_Bool_refl (bool_val k),
  )

  -- On keys that are no doubles, key equality is equality of the patterns.
  pub key_equal_lem : (a b : ℕ) → IsKey a → IsKey b → key_equal kind float_eq a b ≡ (a == b)
  key_equal_lem a b ka kb = elim (Bool-cases (a == b)) [
    | inl same ↦ let e = (==_iff a b).0 same in rw (same, ← e) (key_equal_refl a ka)
    | inr differ ↦ elim (Bool-cases (key_equal kind float_eq a b)) [
      | inl x ↦ absurd (==_ne a b differ (key_equal-eq a b ka kb x))
      | inr nx ↦ rw (nx, differ)
    ]
  ]

-- Integer keys with the same value have the same pattern.
pub int_key_injective :
    (kind : ℕ → GcType) (a b : ℕ)
    → IsKey a
    → IsKey b
    → type_eq (value_type kind a) ValueType.int ≡ true
    → type_eq (value_type kind b) ValueType.int ≡ true
    → int_val a ≡ int_val b
    → a ≡ b
int_key_injective kind a b ka kb x y e =
    same_word a b (tag_of_int kind a ka.no_double x ∙ sym (tag_of_int kind b kb.no_double y))
      (unfold as_ptr in int_val-injective a b (rw e (eq_ℤ_refl (int_val b))))
