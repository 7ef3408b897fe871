-- ===== src/Struct/Vector/Accepts.antt =====
-- Which values `packValue` of src/bbl.cpp takes, and the branches of its switch.
use bbl.Prelude.{
  ℕ, ◌^◌, ◌≤◌, ◌≡◌, refl, sym, ap, subst, true, false, not, ltb, ◌||◌, if◌then◌else◌, ◌⊎◌, inl, inr,
  Option, some, [], ◌∷◌, length, take, arith, Bool-cases,
}
use bbl.Prelude.Result.{ok, ok_injective}
use bbl.Prelude.Int.{wrap}
use bbl.Lexer.{Bytes, bytes_eq}
use bbl.Lexer.Names.{bytes_eq_same, bytes_eq_refl}
use bbl.Value.{ValueType, value_type, type_eq, as_ptr, int_val, bool_val}
use bbl.Value.Equality.{type_eq_same, type_eq_refl}
use bbl.Struct.{StructEnv, to_le}
use bbl.Struct.Access.{is_type}
use bbl.Struct.Vector.{
  BblVec, VecError, expected_int, expected_float, expected_bool, expected_struct, unsupported,
  struct_bytes, elem_bytes, rolled_back, appended, pack_switch,
}

-- the values that a vector with elements of a type takes
unfoldable pub Accepts : StructEnv → BblVec → ℕ → ValueType → Type 0
Accepts env vec v ValueType.int = value_type env.kind v ≡ ValueType.int
Accepts env vec v ValueType.float =
    (value_type env.kind v ≡ ValueType.float) ⊎ (value_type env.kind v ≡ ValueType.int)
Accepts env vec v ValueType.bool = value_type env.kind v ≡ ValueType.bool
Accepts env vec v ValueType.struct =
    (value_type env.kind v ≡ ValueType.struct)
    × ((env.struct_at (as_ptr v)).desc.name ≡ vec.elem_type)
Accepts env vec v _ = ⊥

-- the structs in the heap are not shorter than the elements of their type
unfoldable pub IsLong : StructEnv → BblVec → ℕ → Type 0
IsLong env vec v =
    (env.struct_at (as_ptr v)).desc.name ≡ vec.elem_type
    → vec.elem_size ≤ length (env.struct_at (as_ptr v)).data_bytes

module _ (env : StructEnv) (vec : BblVec) (v : ℕ) (d : Bytes) (old_size : ℕ) where
  abbrev grown : BblVec
  grown = record vec { data_bytes = d }

  -- taken with these bytes, or refused and rolled back
  abbrev pub Verdict : ValueType → Type 0
  Verdict t =
      (Accepts env vec v t × ((bs : Bytes) × (elem_bytes env vec t v ≡ ok bs)))
      ⊎ (¬ (Accepts env vec v t)
          × ((e : VecError) × ◌≡◌ {A = BblVec × Option VecError}
                (pack_switch env grown old_size t v) (rolled_back grown old_size, some e)))

  yes : (t : ValueType) → is_type env v t ≡ true → value_type env.kind v ≡ t
  yes t h = type_eq_same (value_type env.kind v) t h

  no : (t : ValueType) → is_type env v t ≡ false → ¬ (value_type env.kind v ≡ t)
  no t h e = absurd (cc (h, subst (λ u. type_eq u t ≡ true) (sym e) (type_eq_refl t)))

  pub verdict : (t : ValueType) → IsLong env vec v → Verdict t
  unfolding IsLong Accepts elem_bytes struct_bytes pack_switch
  verdict ValueType.int long = elim (Bool-cases (is_type env v ValueType.int)) [
    | inl z ↦
        inl (yes ValueType.int z, (to_le 8 (wrap (2 ^ 64) (int_val v)), rw (z, elem_bytes) refl))
    | inr z ↦
        inr (no ValueType.int z, (expected_int (value_type env.kind v), rw (z, pack_switch) refl))
  ]
  verdict ValueType.float long = elim (Bool-cases (is_type env v ValueType.float)) [
    | inl z ↦ inl (inl (yes ValueType.float z), (to_le 8 v, rw (z, elem_bytes) refl))
    | inr z ↦ elim (Bool-cases (is_type env v ValueType.int)) [
      | inl y ↦ inl (
        inr (yes ValueType.int y),
        (to_le 8 (env.to_double (int_val v)), rw (z, y, elem_bytes) refl),
      )
      | inr y ↦ inr (
        λ a. elim a [ inl e ↦ no ValueType.float z e | inr e ↦ no ValueType.int y e ],
        (expected_float (value_type env.kind v), rw (z, y, pack_switch) refl),
      )
    ]
  ]
  verdict ValueType.bool long = elim (Bool-cases (is_type env v ValueType.bool)) [
    | inl z ↦
        inl (yes ValueType.bool z, ((if bool_val v then 1 else 0) ∷ [], rw (z, elem_bytes) refl))
    | inr z ↦
        inr (no ValueType.bool z, (expected_bool (value_type env.kind v), rw (z, pack_switch) refl))
  ]
  verdict ValueType.struct long =
      let s = env.struct_at (as_ptr v) in
      elim (Bool-cases (is_type env v ValueType.struct)) [
        | inr z ↦ inr (
          λ a. no ValueType.struct z a.0,
          (expected_struct vec.elem_type, rw (z, pack_switch) refl),
        )
        | inl z ↦ elim (Bool-cases (bytes_eq s.desc.name vec.elem_type)) [
          | inr y ↦ inr (
            λ a. absurd (
                cc (y, subst (λ n. bytes_eq s.desc.name n ≡ true) a.1 (bytes_eq_refl s.desc.name))),
            (expected_struct vec.elem_type, rw (z, y, pack_switch) refl),
          )
          | inl y ↦
              let named = bytes_eq_same s.desc.name vec.elem_type y in
              let whole : ltb (length s.data_bytes) vec.elem_size ≡ false =
                let l = long named in ground arith in
              inl (
                (yes ValueType.struct z, named),
                (take vec.elem_size s.data_bytes, rw (z, y, whole, elem_bytes, struct_bytes) refl),
              )
        ]
      ]
  verdict ValueType.null long = inr (λ a. a, (unsupported, refl))
  verdict ValueType.string long = inr (λ a. a, (unsupported, refl))
  verdict ValueType.binary long = inr (λ a. a, (unsupported, refl))
  verdict ValueType.fn long = inr (λ a. a, (unsupported, refl))
  verdict ValueType.vector long = inr (λ a. a, (unsupported, refl))
  verdict ValueType.table long = inr (λ a. a, (unsupported, refl))
  verdict ValueType.user_data long = inr (λ a. a, (unsupported, refl))

  -- where there are bytes for the value they are appended
  pub pack_switch-appended :
      (t : ValueType) (bs : Bytes)
      → elem_bytes env vec t v ≡ ok bs
      → pack_switch env grown old_size t v ≡ appended grown old_size bs
  unfolding elem_bytes struct_bytes pack_switch
  pack_switch-appended ValueType.int bs = elim (Bool-cases (is_type env v ValueType.int)) [
    | inl z ↦ rw z (λ h. ap (appended grown old_size) (ok_injective h))
    | inr z ↦ rw z (λ h. absurd (cc h))
  ]
  pack_switch-appended ValueType.float bs = elim (Bool-cases (is_type env v ValueType.float)) [
    | inl z ↦ rw z (λ h. ap (appended grown old_size) (ok_injective h))
    | inr z ↦ rw z (elim (Bool-cases (is_type env v ValueType.int)) [
      | inl y ↦ rw y (λ h. ap (appended grown old_size) (ok_injective h))
      | inr y ↦ rw y (λ h. absurd (cc h))
    ])
  ]
  pack_switch-appended ValueType.bool bs = elim (Bool-cases (is_type env v ValueType.bool)) [
    | inl z ↦ rw z (λ h. ap (appended grown old_size) (ok_injective h))
    | inr z ↦ rw z (λ h. absurd (cc h))
  ]
  pack_switch-appended ValueType.struct bs =
      let s = env.struct_at (as_ptr v) in
      elim (Bool-cases
        (not (is_type env v ValueType.struct) || not (bytes_eq s.desc.name vec.elem_type))) [
          | inl z ↦ rw z (λ h. absurd (cc h))
          | inr z ↦ rw z (elim (Bool-cases (ltb (length s.data_bytes) vec.elem_size)) [
            | inl y ↦ rw y (λ h. absurd (cc h))
            | inr y ↦ rw y (λ h. ap (appended grown old_size) (ok_injective h))
          ])
        ]
  pack_switch-appended ValueType.null bs = λ h. absurd (cc h)
  pack_switch-appended ValueType.string bs = λ h. absurd (cc h)
  pack_switch-appended ValueType.binary bs = λ h. absurd (cc h)
  pack_switch-appended ValueType.fn bs = λ h. absurd (cc h)
  pack_switch-appended ValueType.vector bs = λ h. absurd (cc h)
  pack_switch-appended ValueType.table bs = λ h. absurd (cc h)
  pack_switch-appended ValueType.user_data bs = λ h. absurd (cc h)
