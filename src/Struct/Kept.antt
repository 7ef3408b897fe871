-- ===== src/Struct/Kept.antt =====
-- What a field of a struct of src/bbl.cpp reads as, said of the argument of `constructStruct` alone.
use bbl.Prelude.{
  ℕ, ◌^◌, ◌≤◌, ◌<◌, ◌≡◌, refl, sym, ap, ◌∙◌, subst, true, false, not, ltb, ◌==◌, ◌⊎◌, inl, inr,
  some, List, [], ◌∷◌, ◌++◌, length, take, drop, length-take, length-replicate, replicate, arith,
  Bool-cases,
}
use bbl.Prelude.Int.{ℤ, pos, wrap}
use bbl.Prelude.Result.{Result, ok}
use bbl.Lexer.{Bytes, bytes_eq}
use bbl.Lexer.Names.{bytes_eq_refl}
use bbl.Value.{
  ValueType, value_type, type_eq, type_index, as_ptr, int_val, bool_val, make_int, make_float,
  make_bool,
}
use bbl.Struct.{
  CType, FieldDesc, StructDesc, BblStruct, StructEnv, find_desc, to_le, from_le, poke, signed,
}
use bbl.Struct.Access.{
  FieldError, FieldValue, word, fresh, alloc_data, decode, read_field, read_inner, encode,
  encode_struct, encode_float, encode_bool, construct_struct, number_bytes,
}
use bbl.Struct.Memory.{from_le-to_le}
use bbl.Struct.Layout.{IsLayout}
use bbl.Struct.Fields.{AllSized, Encodes, Reads, construct_struct-Reads}
use bbl.Struct.Words.{
  InRange, signed-wrap8, signed-wrap16, signed-wrap32, signed-wrap64, pos-wrap, int_val-FitsInt48,
  number, back,
}

drop_all : (bs zs : Bytes) → length zs ≡ length bs → drop (length bs) (drop 0 zs) ≡ []
drop_all [] [] e = refl
drop_all [] (z ∷ zs) e = absurd (omega (arith, e))
drop_all (b ∷ bs) [] e = refl
drop_all (b ∷ bs) (z ∷ zs) e = drop_all bs zs (omega (arith, e))

append_nil : (bs : Bytes) → bs ++ [] ≡ bs
append_nil [] = refl
append_nil (b ∷ bs) = ap (λ l. b ∷ l) (append_nil bs)

module _ (env : StructEnv) (descs : List StructDesc) where
  -- an int in a field of `w` bits: the integer of the field's range that is the argument modulo 2^w
  abbrev pub IsInteger : CType → ℕ → ℕ → FieldValue → Type 0
  IsInteger c w v r =
      (value_type env.kind v ≡ ValueType.int)
      × ((m : ℤ) × (InRange c m
            × ((wrap (2 ^ w) m ≡ wrap (2 ^ w) (int_val v))
                × (r ≡ word (make_int env.to_double m)))))

  -- an int in a field of 64 bits
  abbrev pub IsLongInteger : ℕ → FieldValue → Type 0
  IsLongInteger v r =
      (value_type env.kind v ≡ ValueType.int) × (r ≡ word (make_int env.to_double (int_val v)))

  -- a float that is stored in a pattern below a bound, or an int that is converted
  abbrev pub IsFloat : ℕ → (ℕ → ℕ) → (ℤ → ℕ) → (ℕ → ℕ) → ℕ → FieldValue → Type 0
  IsFloat bound of_float of_int loaded v r =
      ((value_type env.kind v ≡ ValueType.float)
        × ((of_float v < bound) × (r ≡ word (make_float (loaded (of_float v))))))
      ⊎ ((value_type env.kind v ≡ ValueType.int)
          × ((of_int (int_val v) < bound) × (r ≡ word (make_float (loaded (of_int (int_val v)))))))

  -- What a field of a type reads as, behind a write of a value: an int is itself if it is in the field's
  -- range, and else what it is modulo the field's width; a double is itself; a bool is itself; a
  -- struct has the bytes of the argument.
  unfoldable pub Kept : FieldDesc → CType → ℕ → FieldValue → Type 0
  Kept fd CType.int8 v r = IsInteger CType.int8 8 v r
  Kept fd CType.uint8 v r = IsInteger CType.uint8 8 v r
  Kept fd CType.int16 v r = IsInteger CType.int16 16 v r
  Kept fd CType.uint16 v r = IsInteger CType.uint16 16 v r
  Kept fd CType.int32 v r = IsInteger CType.int32 32 v r
  Kept fd CType.uint32 v r = IsInteger CType.uint32 32 v r
  Kept fd CType.int64 v r = IsLongInteger v r
  Kept fd CType.uint64 v r = IsLongInteger v r
  Kept fd CType.float32 v r = IsFloat (2 ^ 32) env.narrow env.to_float env.widen v r
  Kept fd CType.float64 v r = IsFloat (2 ^ 64) (λ d. d) env.to_double (λ d. d) v r
  Kept fd CType.bool v r =
      (value_type env.kind v ≡ ValueType.bool) × (r ≡ word (make_bool (bool_val v)))
  Kept fd CType.struct v r =
      (value_type env.kind v ≡ ValueType.struct)
      × (((env.struct_at (as_ptr v)).desc.name ≡ fd.struct_type)
          × ((fd.size ≤ length (env.struct_at (as_ptr v)).data_bytes)
              × ((d : StructDesc) × ((find_desc fd.struct_type descs ≡ some d)
                    × ((d.total_size ≡ fd.size)
                        × (r
                            ≡ fresh (record {
                              desc = d;
                              data_bytes = take fd.size (env.struct_at (as_ptr v)).data_bytes;
                            })))))))

  -- bytes are stored, and they read as the value
  abbrev Stored : FieldDesc → CType → ℕ → FieldValue → Type 0
  Stored fd c v r = (bs : Bytes) × ((encode env fd c v ≡ ok bs) × (decode env descs fd c bs ≡ ok r))

  value :
      {m n : ℤ} {r : FieldValue}
      → m ≡ n
      → r ≡ word (make_int env.to_double n)
      → ◌≡◌ {A = Result FieldError FieldValue} (ok (word (make_int env.to_double m))) (ok r)
  value e h = ap (λ k. ok (word (make_int env.to_double k))) e ∙ ap (λ u. ok u) (sym h)

  float_stored :
      (k bound : ℕ) (of_float : ℕ → ℕ) (of_int : ℤ → ℕ) (loaded : ℕ → ℕ) (v : ℕ) (r : FieldValue)
      → 256 ^ k ≡ bound
      → IsFloat bound of_float of_int loaded v r
      → (bs : Bytes) × ((number_bytes k (encode_float env of_float of_int v) ≡ ok bs)
          × (word (make_float (loaded (from_le bs))) ≡ r))
  unfolding encode_float type_eq type_index
  float_stored k bound of_float of_int loaded v r wide (inl (t, (small, e))) = (
    to_le k (of_float v),
    (
      rw t refl,
      ap (λ n. word (make_float (loaded n)))
            (from_le-to_le k (of_float v) (subst (λ b. of_float v < b) (sym wide) small))
          ∙ sym e,
    ),
  )
  float_stored k bound of_float of_int loaded v r wide (inr (t, (small, e))) = (
    to_le k (of_int (int_val v)),
    (
      rw t refl,
      ap (λ n. word (make_float (loaded n)))
            (from_le-to_le k (of_int (int_val v))
              (subst (λ b. of_int (int_val v) < b) (sym wide) small))
          ∙ sym e,
    ),
  )

  bool_stored :
      (v : ℕ)
      → value_type env.kind v ≡ ValueType.bool
      → (bs : Bytes) × ((number_bytes 1 (encode_bool env v) ≡ ok bs)
          × (not (from_le bs == 0) ≡ bool_val v))
  unfolding encode_bool type_eq type_index to_le from_le
  bool_stored v t = elim (Bool-cases (bool_val v)) [
    | inl z ↦ (to_le 1 1, (rw (t, z) refl, sym z))
    | inr z ↦ (to_le 1 0, (rw (t, z) refl, sym z))
  ]

  poke_zeros : (bs zs : Bytes) → length zs ≡ length bs → poke 0 bs zs ≡ bs
  unfolding poke
  poke_zeros bs zs e = ap (λ l. bs ++ l) (drop_all bs zs e) ∙ append_nil bs

  struct_stored :
      (fd : FieldDesc) (v : ℕ) (r : FieldValue)
      → Kept fd CType.struct v r
      → (bs : Bytes) × ((encode_struct env fd v ≡ ok bs) × (read_inner descs fd bs ≡ ok r))
  unfolding Kept encode_struct read_inner type_eq type_index alloc_data
  struct_stored fd v r (t, (named, (long, (d, (found, (size, e)))))) =
      let s = env.struct_at (as_ptr v) in
      let same : bytes_eq s.desc.name fd.struct_type ≡ true =
        subst (λ n. bytes_eq s.desc.name n ≡ true) named (bytes_eq_refl s.desc.name) in
      let room : ltb (length s.data_bytes) fd.size ≡ false = ground arith in
      let whole : ltb d.total_size fd.size ≡ false = ground arith in
      let taken : length (take fd.size s.data_bytes) ≡ fd.size =
        length-take fd.size s.data_bytes long in
      let laid =
        poke_zeros (take fd.size s.data_bytes) (replicate d.total_size 0)
          (length-replicate d.total_size 0 ∙ size ∙ sym taken) in
      (
        take fd.size s.data_bytes,
        (
          rw (t, same, room, encode_struct) refl,
          rw (found, whole, laid, read_inner) (ap (λ u. ok u) (sym e)),
        ),
      )

  Kept-Stored :
      (fd : FieldDesc) (c : CType) (v : ℕ) (r : FieldValue) → Kept fd c v r → Stored fd c v r
  unfolding Kept encode decode InRange
  Kept-Stored fd CType.int8 v r (t, (m, (range, (same, e)))) = (
    to_le 1 (wrap (2 ^ 8) (int_val v)),
    (
      number env v t 1 8,
      value
          (ap (λ n. signed 8 n) (back env v t 1 8 refl (omega arith) ∙ sym same)
            ∙ signed-wrap8 m range.0 range.1)
          e,
    ),
  )
  Kept-Stored fd CType.uint8 v r (t, (m, (range, (same, e)))) = (
    to_le 1 (wrap (2 ^ 8) (int_val v)),
    (
      number env v t 1 8,
      value
          (ap (λ n. pos n) (back env v t 1 8 refl (omega arith) ∙ sym same)
            ∙ pos-wrap (2 ^ 8) m range.0 range.1 (omega arith))
          e,
    ),
  )
  Kept-Stored fd CType.int16 v r (t, (m, (range, (same, e)))) = (
    to_le 2 (wrap (2 ^ 16) (int_val v)),
    (
      number env v t 2 16,
      value
          (ap (λ n. signed 16 n) (back env v t 2 16 refl (omega arith) ∙ sym same)
            ∙ signed-wrap16 m range.0 range.1)
          e,
    ),
  )
  Kept-Stored fd CType.uint16 v r (t, (m, (range, (same, e)))) = (
    to_le 2 (wrap (2 ^ 16) (int_val v)),
    (
      number env v t 2 16,
      value
          (ap (λ n. pos n) (back env v t 2 16 refl (omega arith) ∙ sym same)
            ∙ pos-wrap (2 ^ 16) m range.0 range.1 (omega arith))
          e,
    ),
  )
  Kept-Stored fd CType.int32 v r (t, (m, (range, (same, e)))) = (
    to_le 4 (wrap (2 ^ 32) (int_val v)),
    (
      number env v t 4 32,
      value
          (ap (λ n. signed 32 n) (back env v t 4 32 refl (omega arith) ∙ sym same)
            ∙ signed-wrap32 m range.0 range.1)
          e,
    ),
  )
  Kept-Stored fd CType.uint32 v r (t, (m, (range, (same, e)))) = (
    to_le 4 (wrap (2 ^ 32) (int_val v)),
    (
      number env v t 4 32,
      value
          (ap (λ n. pos n) (back env v t 4 32 refl (omega arith) ∙ sym same)
            ∙ pos-wrap (2 ^ 32) m range.0 range.1 (omega arith))
          e,
    ),
  )
  Kept-Stored fd CType.int64 v r (t, e) =
      let fits = int_val-FitsInt48 v in
      (
        to_le 8 (wrap (2 ^ 64) (int_val v)),
        (
          number env v t 8 64,
          value
              (ap (λ n. signed 64 n) (back env v t 8 64 refl (omega arith))
                ∙ signed-wrap64 (int_val v) (omega (arith, fits.0)) (omega (arith, fits.1)))
              e,
        ),
      )
  Kept-Stored fd CType.uint64 v r (t, e) =
      let fits = int_val-FitsInt48 v in
      (
        to_le 8 (wrap (2 ^ 64) (int_val v)),
        (
          number env v t 8 64,
          value
              (ap (λ n. signed 64 n) (back env v t 8 64 refl (omega arith))
                ∙ signed-wrap64 (int_val v) (omega (arith, fits.0)) (omega (arith, fits.1)))
              e,
        ),
      )
  Kept-Stored fd CType.float32 v r h =
      let (bs, (run, e)) = float_stored 4 (2 ^ 32) env.narrow env.to_float env.widen v r refl h in
      (bs, (run, ap (λ u. ok u) e))
  Kept-Stored fd CType.float64 v r h =
      let (bs, (run, e)) = float_stored 8 (2 ^ 64) (λ d. d) env.to_double (λ d. d) v r refl h in
      (bs, (run, ap (λ u. ok u) e))
  Kept-Stored fd CType.bool v r (t, e) =
      let (bs, (run, same)) = bool_stored v t in
      (bs, (run, ap (λ b. ok (word (make_bool b))) same ∙ ap (λ u. ok u) (sym e)))
  Kept-Stored fd CType.struct v r h = struct_stored fd v r h

  -- every argument gives its field's value
  unfoldable pub AllKept : List FieldDesc → List ℕ → List FieldValue → Type 0
  AllKept [] [] [] = Unit
  AllKept (f ∷ fs) (v ∷ vs) (r ∷ rs) = Kept f f.ctype v r × AllKept fs vs rs
  AllKept _ _ _ = ⊥

  -- the fields read as these values
  unfoldable pub AllRead : BblStruct → List FieldDesc → List FieldValue → Type 0
  AllRead s [] rs = Unit
  AllRead s (f ∷ fs) [] = ⊥
  AllRead s (f ∷ fs) (r ∷ rs) = (read_field env descs s f ≡ ok r) × AllRead s fs rs

  -- the bytes of the arguments
  AllKept-Encodes :
      (fds : List FieldDesc) (vs : List ℕ) (rs : List FieldValue)
      → AllKept fds vs rs
      → (bss : List Bytes) × (Encodes env fds vs bss
          × ((s : BblStruct) → Reads env descs s fds bss → AllRead s fds rs))
  unfolding AllKept AllRead Encodes Reads
  AllKept-Encodes [] [] [] h = ([], (tt, λ s reads. tt))
  AllKept-Encodes [] [] (r ∷ rs) h = absurd h
  AllKept-Encodes [] (v ∷ vs) rs h = absurd h
  AllKept-Encodes (f ∷ fs) [] rs h = absurd h
  AllKept-Encodes (f ∷ fs) (v ∷ vs) [] h = absurd h
  AllKept-Encodes (f ∷ fs) (v ∷ vs) (r ∷ rs) h =
      let (bs, (run, back)) = Kept-Stored f f.ctype v r h.0 in
      let (bss, (codes, read)) = AllKept-Encodes fs vs rs h.1 in
      (bs ∷ bss, ((run, codes), λ s reads. (reads.0 ∙ back, read s reads.1)))

  -- A struct whose fields make a layout, sized by their types, is constructed from arguments of the
  -- fields' types, one for each, and every field then reads as its own argument: an int as the integer of
  -- the field's range that it is modulo the field's width (itself where it is in range), a float as
  -- itself or, in a 32-bit field, as what narrowing and widening leave of it, an int in a floating
  -- field as the converted one, a bool as itself, a struct as a new one with the same bytes. Structs
  -- are assumed to be no shorter than their fields, and float patterns to fit the field.
  pub construct_struct-AllRead :
      (d : StructDesc) (args : List ℕ) (rs : List FieldValue)
      → IsLayout d.total_size d.fields
      → AllSized env d.fields
      → AllKept d.fields args rs
      → (s : BblStruct) × ((construct_struct env d args ≡ ok s)
          × ((length s.data_bytes ≡ d.total_size) × AllRead s d.fields rs))
  construct_struct-AllRead d args rs layout sized kept =
      let (bss, (codes, read)) = AllKept-Encodes d.fields args rs kept in
      let (s, run, size, reads) = construct_struct-Reads env descs d args bss layout sized codes in
      (s, (run, (size, read s reads)))
