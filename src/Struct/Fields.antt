-- ===== src/Struct/Fields.antt =====
-- `constructStruct` and `readField` of src/bbl.cpp: every field reads as it was written.
use bbl.Prelude.{
  ℕ, suc, ◌+◌, ◌≤◌, ◌≡◌, refl, sym, ap, ◌∙◌, true, false, not, ltb, ◌==◌, ◌||◌, ⊎_elim, inl, inr,
  List, [], ◌∷◌, length, length-take, length-replicate, arith, Bool-cases, ==_iff,
}
use bbl.Prelude.Result.{Result, ok, err, ◌>>=◌, ok_injective}
use bbl.Lexer.{Bytes, bytes_eq}
use bbl.Value.{ValueType, as_ptr}
use bbl.Struct.{CType, FieldDesc, StructDesc, BblStruct, StructEnv, peek, poke}
use bbl.Struct.Access.{
  FieldError, alloc_data, copied, width, decode, read_field, is_type, number_bytes, encode_struct,
  encode, write_field, write_fields, construct_struct, encode_int, encode_float, encode_bool,
}
use bbl.Struct.Memory.{length-to_le, length-poke, peek-poke, peek-poke_apart}
use bbl.Struct.Layout.{AllApart, IsLayout}

number_length :
    (k : ℕ) (r : Result FieldError ℕ) (bs : Bytes) → number_bytes k r ≡ ok bs → length bs ≡ k
number_length k (ok n) bs h = ap length (sym (ok_injective h)) ∙ length-to_le k n
number_length k (err e) bs h = absurd (cc h)

module _ (env : StructEnv) where
  struct_length :
      (fd : FieldDesc) (v : ℕ) (bs : Bytes) → encode_struct env fd v ≡ ok bs → length bs ≡ fd.size
  unfolding encode_struct
  struct_length fd v bs =
      let s = env.struct_at (as_ptr v) in
      elim (Bool-cases
        (not (is_type env v ValueType.struct) || not (bytes_eq s.desc.name fd.struct_type))) [
          | inl z ↦ rw z (λ h. absurd (cc h))
          | inr z ↦ rw z (elim (Bool-cases (ltb (length s.data_bytes) fd.size)) [
            | inl y ↦ rw y (λ h. absurd (cc h))
            | inr y ↦ rw y (λ h.
                ap length (sym (ok_injective h)) ∙ length-take fd.size s.data_bytes (ground arith))
          ])
        ]

  -- a value that is taken gives the bytes of the field
  encode-length :
      (fd : FieldDesc) (c : CType) (v : ℕ) (bs : Bytes)
      → encode env fd c v ≡ ok bs
      → length bs ≡ copied c fd.size
  unfolding encode copied
  encode-length fd CType.int8 v bs h = number_length 1 (encode_int env 8 v) bs h
  encode-length fd CType.uint8 v bs h = number_length 1 (encode_int env 8 v) bs h
  encode-length fd CType.int16 v bs h = number_length 2 (encode_int env 16 v) bs h
  encode-length fd CType.uint16 v bs h = number_length 2 (encode_int env 16 v) bs h
  encode-length fd CType.int32 v bs h = number_length 4 (encode_int env 32 v) bs h
  encode-length fd CType.uint32 v bs h = number_length 4 (encode_int env 32 v) bs h
  encode-length fd CType.int64 v bs h = number_length 8 (encode_int env 64 v) bs h
  encode-length fd CType.uint64 v bs h = number_length 8 (encode_int env 64 v) bs h
  encode-length fd CType.float32 v bs h =
      number_length 4 (encode_float env env.narrow env.to_float v) bs h
  encode-length fd CType.float64 v bs h =
      number_length 8 (encode_float env (λ d. d) env.to_double v) bs h
  encode-length fd CType.bool v bs h = number_length 1 (encode_bool env v) bs h
  encode-length fd CType.struct v bs h = struct_length fd v bs h

  -- the sizes of the fields are those of their types
  unfoldable pub AllSized : List FieldDesc → Type 0
  AllSized [] = Unit
  AllSized (f ∷ fs) = (width f ≡ f.size) × AllSized fs

  -- every argument is of its field's type, and these are its bytes
  unfoldable pub Encodes : List FieldDesc → List ℕ → List Bytes → Type 0
  Encodes [] [] [] = Unit
  Encodes (f ∷ fs) (v ∷ vs) (b ∷ bs) = (encode env f f.ctype v ≡ ok b) × Encodes fs vs bs
  Encodes _ _ _ = ⊥

  -- the fields read as their bytes
  unfoldable pub Reads : List StructDesc → BblStruct → List FieldDesc → List Bytes → Type 0
  Reads descs s [] bs = Unit
  Reads descs s (f ∷ fs) [] = ⊥
  Reads descs s (f ∷ fs) (b ∷ bs) =
      (read_field env descs s f ≡ decode env descs f f.ctype b) × Reads descs s fs bs

  abbrev poked : BblStruct → FieldDesc → Bytes → BblStruct
  poked s f b = record s { data_bytes = poke f.offset b s.data_bytes }

  write_field_ok :
      (s : BblStruct) (f : FieldDesc) (v : ℕ) (b : Bytes)
      → f.offset + width f ≤ length s.data_bytes
      → encode env f f.ctype v ≡ ok b
      → write_field env s f v ≡ ok (poked s f b)
  unfolding write_field
  write_field_ok s f v b fits h =
      let inside : ltb (length s.data_bytes) (f.offset + width f) ≡ false = ground arith in
      rw (h, inside) refl

  read_field-peek :
      (descs : List StructDesc) (s : BblStruct) (f : FieldDesc) (b : Bytes)
      → f.offset + width f ≤ length s.data_bytes
      → peek f.offset (width f) s.data_bytes ≡ b
      → read_field env descs s f ≡ decode env descs f f.ctype b
  unfolding read_field
  read_field-peek descs s f b fits h =
      let inside : ltb (length s.data_bytes) (f.offset + width f) ≡ false = ground arith in
      rw (inside, h) refl

  Encodes-length :
      (fds : List FieldDesc) (vs : List ℕ) (bss : List Bytes)
      → Encodes fds vs bss
      → length vs ≡ length fds
  unfolding Encodes
  Encodes-length [] [] [] c = refl
  Encodes-length [] [] (b ∷ bs) c = absurd c
  Encodes-length [] (v ∷ vs) bs c = absurd c
  Encodes-length (f ∷ fs) [] bs c = absurd c
  Encodes-length (f ∷ fs) (v ∷ vs) [] c = absurd c
  Encodes-length (f ∷ fs) (v ∷ vs) (b ∷ bs) c = ap suc (Encodes-length fs vs bs c.1)

  -- the loop over the fields: fields apart from all of them stay, all of them read as written
  record WritesAll (total : ℕ) (s t : BblStruct) (fds : List FieldDesc) (vs : List ℕ)
      (bss : List Bytes) : Type 0 where
    sized : length t.data_bytes ≡ total
    apart :
        (g : FieldDesc)
        → AllApart fds g
        → peek g.offset g.size t.data_bytes ≡ peek g.offset g.size s.data_bytes
    reads : (descs : List StructDesc) → Reads descs t fds bss
    run : write_fields env s fds vs ≡ ok t

  write_fields-WritesAll :
      (total : ℕ) (s : BblStruct) (fds : List FieldDesc) (vs : List ℕ) (bss : List Bytes)
      → length s.data_bytes ≡ total
      → IsLayout total fds
      → AllSized fds
      → Encodes fds vs bss
      → (t : BblStruct) × WritesAll total s t fds vs bss
  unfolding AllSized Encodes Reads IsLayout AllApart write_fields
  write_fields-WritesAll total s [] vs bss size layout sized codes =
      (s, record { sized = size; apart = λ g a. refl; reads = λ descs. tt; run = refl })
  write_fields-WritesAll total s (f ∷ fs) [] [] size layout sized codes = absurd codes
  write_fields-WritesAll total s (f ∷ fs) [] (b ∷ bss) size layout sized codes = absurd codes
  write_fields-WritesAll total s (f ∷ fs) (v ∷ vs) [] size layout sized codes = absurd codes
  write_fields-WritesAll total s (f ∷ fs) (v ∷ vs) (b ∷ bss) size layout sized codes =
      let long : length b ≡ width f = encode-length f f.ctype v b codes.0 in
      let fits : f.offset + width f ≤ length s.data_bytes =
        omega (arith, layout.0, sized.0, size) in
      let fits_b : f.offset + length b ≤ length s.data_bytes = omega (arith, fits, long) in
      let same : length (poked s f b).data_bytes ≡ total =
        length-poke f.offset b s.data_bytes fits_b ∙ size in
      let (t, w) =
        write_fields-WritesAll total (poked s f b) fs vs bss same layout.2 sized.1 codes.1 in
      let kept = w.apart f layout.1 in
      (
        t,
        record {
          sized = w.sized;
          apart = λ g a.
              w.apart g a.1
              ∙ peek-poke_apart g.offset g.size f.offset b s.data_bytes fits_b
                  (⊎_elim (λ l. inr (omega (arith, l, long, sized.0))) (λ r. inl r) a.0);
          reads = λ descs. (
            read_field-peek descs t f b (omega (arith, fits, size, w.sized)) (
                ap (λ n. peek f.offset n t.data_bytes) sized.0
                ∙ kept
                ∙ ap (λ n. peek f.offset n (poke f.offset b s.data_bytes)) (sym sized.0 ∙ sym long)
                ∙ peek-poke f.offset b s.data_bytes fits_b),
            w.reads descs,
          );
          run =
              ap (λ r. r >>= (λ t. write_fields env t fs vs)) (write_field_ok s f v b fits codes.0)
              ∙ w.run;
        },
      )

  -- A struct whose fields make a layout, sized by their types, is constructed from arguments of the
  -- fields' types, one for each; every field of it reads as the bytes of its argument.
  pub construct_struct-Reads :
      (descs : List StructDesc) (d : StructDesc) (args : List ℕ) (bss : List Bytes)
      → IsLayout d.total_size d.fields
      → AllSized d.fields
      → Encodes d.fields args bss
      → (s : BblStruct) × (construct_struct env d args ≡ ok s)
        × (length s.data_bytes ≡ d.total_size)
        × Reads descs s d.fields bss
  unfolding construct_struct alloc_data
  construct_struct-Reads descs d args bss layout sized codes =
      let (t, w) =
        write_fields-WritesAll d.total_size (alloc_data d) d.fields args bss
          (length-replicate d.total_size 0) layout sized codes in
      let counted : (length args == length d.fields) ≡ true =
        (==_iff (length args) (length d.fields)).1 (Encodes-length d.fields args bss codes) in
      (t, rw counted w.run, w.sized, w.reads descs)
