-- ===== src/Struct/Vector/Elements.antt =====
-- The elements of a `BblVec` of src/bbl.cpp behind `packValue` and `writeVecElem`.
use bbl.Prelude.{
  ℕ, zero, suc, ◌+◌, ◌*◌, ◌≤◌, ◌<◌, ◌≡◌, ◌≢◌, refl, sym, ap, ◌∙◌, false, ltb, leb, ◌==◌, none, some,
  inl, inr, ◌⊎◌, List, [], ◌∷◌, ◌++◌, length, replicate, length-append, set, length-replicate,
  arith, Bool-cases, ==_iff,
}
use bbl.Prelude.Result.{Result, ok}
use bbl.Lexer.{Bytes}
use bbl.Struct.{StructDesc, StructEnv, peek, poke}
use bbl.Struct.Access.{FieldValue}
use bbl.Struct.Memory.{length-poke, peek-poke, peek-poke_apart, peek-append, take_all}
use bbl.Struct.Vector.{
  BblVec, VecError, elem_value, read_vec_elem, elem_bytes, write_vec_elem, pack_value, appended,
  rolled_back,
}
use bbl.Struct.Vector.Accepts.{Accepts, IsLong, verdict, pack_switch-appended}
use bbl.Struct.Vector.Whole.{
  IsVec, beside, elem_bytes-length, elem_value_same, mul_next, mul_room, vec_length-IsVec,
}

module _ {ℓ} {A : Type ℓ} where
  set_past : (xs : List A) (i : ℕ) (r : A) → length xs ≤ i → set xs i r ≡ xs
  set_past [] i r h = refl
  set_past (x ∷ xs) zero r h = absurd (omega arith)
  set_past (x ∷ xs) (suc i) r h = ap (λ l. x ∷ l) (set_past xs i r (omega arith))

  set_last : (xs : List A) (i : ℕ) (x r : A) → length xs ≡ i → set (xs ++ x ∷ []) i r ≡ xs ++ r ∷ []
  set_last [] zero x r h = refl
  set_last [] (suc i) x r h = absurd (omega (arith, h))
  set_last (y ∷ xs) zero x r h = absurd (omega (arith, h))
  set_last (y ∷ xs) (suc i) x r h = ap (λ l. y ∷ l) (set_last xs i x r (omega (arith, h)))

  set_front :
      (xs : List A) (i : ℕ) (x r : A)
      → length xs ≢ i
      → set (xs ++ x ∷ []) i r ≡ set xs i r ++ x ∷ []
  set_front [] zero x r h = absurd (h refl)
  set_front [] (suc i) x r h = refl
  set_front (y ∷ xs) zero x r h = refl
  set_front (y ∷ xs) (suc i) x r h = ap (λ l. y ∷ l) (set_front xs i x r (λ e. h (ap suc e)))

module _ (env : StructEnv) (descs : List StructDesc) where
  read_at :
      (w : BblVec) (n i : ℕ)
      → IsVec w n
      → i < n
      → read_vec_elem env descs w i
        ≡ elem_value env descs w w.elem_type_tag (peek (i * w.elem_size) w.elem_size w.data_bytes)
  unfolding read_vec_elem
  read_at w n i v h =
      let counted = vec_length-IsVec w n v in
      let there : leb n i ≡ false = ground arith in
      let inside : ltb (length w.data_bytes) (i * w.elem_size + w.elem_size) ≡ false =
        ground (arith, mul_room i n w.elem_size h, v.whole) in
      rw (counted, there, v.sized, inside) refl

  -- a value of the element's type behind the others
  pack_value-IsVec :
      (vec : BblVec) (n v : ℕ) (bs : Bytes)
      → IsVec vec n
      → elem_bytes env vec vec.elem_type_tag v ≡ ok bs
      → (w : BblVec) × (pack_value env vec v ≡ (w, none))
        × IsVec w (suc n)
        × (read_vec_elem env descs w n ≡ elem_value env descs vec vec.elem_type_tag bs)
        × ((i : ℕ) → i < n → read_vec_elem env descs w i ≡ read_vec_elem env descs vec i)
  unfolding pack_value appended
  pack_value-IsVec vec n v bs whole code =
      let e = vec.elem_size in
      let grown = vec.data_bytes ++ replicate e 0 in
      let long : length bs ≡ e =
        elem_bytes-length env vec vec.elem_type_tag v bs code ∙ whole.sized in
      let size : length grown ≡ length vec.data_bytes + e =
        length-append vec.data_bytes (replicate e 0)
        ∙ ap (λ k. length vec.data_bytes + k) (length-replicate e 0) in
      let fits : length vec.data_bytes + length bs ≤ length grown = omega (arith, long, size) in
      let w = record vec { data_bytes = poke (length vec.data_bytes) bs grown } in
      let room : ltb (length grown) (length vec.data_bytes + length bs) ≡ false = ground arith in
      let after : IsVec w (suc n) = record {
        whole =
            length-poke (length vec.data_bytes) bs grown fits
            ∙ omega (arith, size, whole.whole, mul_next n e);
        full = whole.full;
        sized = whole.sized;
      } in
      (
        w,
        pack_switch-appended env vec v grown (length vec.data_bytes) vec.elem_type_tag bs code
            ∙ rw (room, appended) refl,
        after,
        read_at w (suc n) n after (omega arith)
            ∙ ap (λ l. elem_value env descs w w.elem_type_tag l)
                (ap (λ k. peek (n * e) k w.data_bytes) (sym long)
                  ∙ ap (λ k. peek k (length bs) w.data_bytes) (sym whole.whole)
                  ∙ peek-poke (length vec.data_bytes) bs grown fits)
            ∙ elem_value_same env descs vec w.data_bytes vec.elem_type_tag bs,
        λ i h.
            read_at w (suc n) i after (omega (arith, h))
            ∙ ap (λ l. elem_value env descs w w.elem_type_tag l)
                (peek-poke_apart (i * e) e (length vec.data_bytes) bs grown fits
                    (inl (omega (arith, mul_room i n e h, whole.whole)))
                  ∙ peek-append (i * e) e vec.data_bytes (replicate e 0)
                      (omega (arith, mul_room i n e h, whole.whole)))
            ∙ elem_value_same env descs vec w.data_bytes vec.elem_type_tag
                (peek (i * e) e vec.data_bytes)
            ∙ sym (read_at vec n i whole h),
      )

  -- a value of the element's type in the place of another
  write_vec_elem-IsVec :
      (vec : BblVec) (n i v : ℕ) (bs : Bytes)
      → IsVec vec n
      → i < n
      → elem_bytes env vec vec.elem_type_tag v ≡ ok bs
      → (w : BblVec) × (write_vec_elem env vec i v ≡ ok w)
        × IsVec w n
        × (read_vec_elem env descs w i ≡ elem_value env descs vec vec.elem_type_tag bs)
        × ((j : ℕ) → j < n → j ≢ i → read_vec_elem env descs w j ≡ read_vec_elem env descs vec j)
  unfolding write_vec_elem
  write_vec_elem-IsVec vec n i v bs whole h code =
      let e = vec.elem_size in
      let long : length bs ≡ e =
        elem_bytes-length env vec vec.elem_type_tag v bs code ∙ whole.sized in
      let fits : i * e + length bs ≤ length vec.data_bytes =
        omega (arith, long, whole.whole, mul_room i n e h) in
      let w = record vec { data_bytes = poke (i * e) bs vec.data_bytes } in
      let counted = vec_length-IsVec vec n whole in
      let there : leb n i ≡ false = ground arith in
      let inside : ltb (length vec.data_bytes) (i * e + length bs) ≡ false = ground arith in
      let after : IsVec w n = record {
        whole = length-poke (i * e) bs vec.data_bytes fits ∙ whole.whole;
        full = whole.full;
        sized = whole.sized;
      } in
      (
        w,
        rw (counted, there, code, inside) refl,
        after,
        read_at w n i after h
            ∙ ap (λ l. elem_value env descs w w.elem_type_tag l)
                (ap (λ k. peek (i * e) k w.data_bytes) (sym long)
                  ∙ peek-poke (i * e) bs vec.data_bytes fits)
            ∙ elem_value_same env descs vec w.data_bytes vec.elem_type_tag bs,
        λ j k ne.
            read_at w n j after k
            ∙ ap (λ l. elem_value env descs w w.elem_type_tag l)
                (peek-poke_apart (j * e) e (i * e) bs vec.data_bytes fits
                  (beside i j e (length bs) long ne))
            ∙ elem_value_same env descs vec w.data_bytes vec.elem_type_tag
                (peek (j * e) e vec.data_bytes)
            ∙ sym (read_at vec n j whole k),
      )

  -- the elements as they are read, the first `k`
  unfoldable pub elements : BblVec → ℕ → List (Result VecError FieldValue)
  elements vec zero = []
  elements vec (suc k) = elements vec k ++ read_vec_elem env descs vec k ∷ []

  length-elements : (vec : BblVec) (k : ℕ) → length (elements vec k) ≡ k
  unfolding elements
  length-elements vec zero = refl
  length-elements vec (suc k) = omega (
    arith,
    length-append (elements vec k) (read_vec_elem env descs vec k ∷ []),
    length-elements vec k,
  )

  elements_same :
      (w vec : BblVec) (k : ℕ)
      → ((i : ℕ) → i < k → read_vec_elem env descs w i ≡ read_vec_elem env descs vec i)
      → elements w k ≡ elements vec k
  unfolding elements
  elements_same w vec zero same = refl
  elements_same w vec (suc k) same =
      ap (λ l. l ++ read_vec_elem env descs w k ∷ [])
        (elements_same w vec k (λ i h. same i (omega (arith, h))))
      ∙ ap (λ r. elements vec k ++ r ∷ []) (same k (omega arith))

  elements-set :
      (w vec : BblVec) (k i : ℕ) (r : Result VecError FieldValue)
      → read_vec_elem env descs w i ≡ r
      → ((j : ℕ) → j < k → j ≢ i → read_vec_elem env descs w j ≡ read_vec_elem env descs vec j)
      → elements w k ≡ set (elements vec k) i r
  unfolding elements
  elements-set w vec zero i r here others = refl
  elements-set w vec (suc k) i r here others =
      let front = elements-set w vec k i r here (λ j h ne. others j (omega (arith, h)) ne) in
      let size = length-elements vec k in
      elim (Bool-cases (k == i)) [
        | inl z ↦
            let same : k ≡ i = (==_iff k i).0 z in
            ap (λ l. l ++ read_vec_elem env descs w k ∷ [])
              (front ∙ set_past (elements vec k) i r (omega (arith, size, same)))
            ∙ ap (λ q. elements vec k ++ q ∷ []) (ap (λ m. read_vec_elem env descs w m) same ∙ here)
            ∙ sym (set_last (elements vec k) i (read_vec_elem env descs vec k) r (size ∙ same))
        | inr z ↦
            let ne : k ≢ i = λ e. absurd (cc (z, (==_iff k i).1 e)) in
            ap (λ l. l ++ read_vec_elem env descs w k ∷ []) front
            ∙ ap (λ q. set (elements vec k) i r ++ q ∷ []) (others k (omega arith) ne)
            ∙ sym (
                set_front (elements vec k) i (read_vec_elem env descs vec k) r
                  (λ e. ne (sym size ∙ e)))
      ]

  -- A vector stands for the list of its elements: appending a value of the element's type ends well and
  -- puts what its bytes stand for behind them.
  pub pack_value-elements :
      (vec : BblVec) (n v : ℕ) (bs : Bytes)
      → IsVec vec n
      → elem_bytes env vec vec.elem_type_tag v ≡ ok bs
      → (w : BblVec) × (pack_value env vec v ≡ (w, none))
        × IsVec w (suc n)
        × (elements w (suc n)
            ≡ elements vec n ++ elem_value env descs vec vec.elem_type_tag bs ∷ [])
  unfolding elements
  pack_value-elements vec n v bs whole code =
      let (w, run, after, last, others) = pack_value-IsVec vec n v bs whole code in
      (
        w,
        run,
        after,
        ap (λ l. l ++ read_vec_elem env descs w n ∷ []) (elements_same w vec n others)
            ∙ ap (λ r. elements vec n ++ r ∷ []) last,
      )

  -- What `packValue` does with any value, of a vector of whole elements and of a struct that is not too
  -- short: a value that the vector accepts is appended without an error, and the earlier elements
  -- read as before; any other throws, and the vector is as it was.
  pub pack_value-Accepts :
      (vec : BblVec) (n v : ℕ)
      → IsVec vec n
      → IsLong env vec v
      → (Accepts env vec v vec.elem_type_tag
          × ((w : BblVec) × ((pack_value env vec v ≡ (w, none))
                × IsVec w (suc n)
                × (elements w n ≡ elements vec n))))
        ⊎ (¬ (Accepts env vec v vec.elem_type_tag)
            × ((e : VecError) × (pack_value env vec v ≡ (vec, some e))))
  unfolding pack_value rolled_back
  pack_value-Accepts vec n v whole long =
      let grown = vec.data_bytes ++ replicate vec.elem_size 0 in
      let old_size = length vec.data_bytes in
      elim (verdict env vec v grown old_size vec.elem_type_tag long) [
        | inl (taken, (bs, code)) ↦
            let (w, run, after, last, others) = pack_value-IsVec vec n v bs whole code in
            inl (taken, (w, (run, after, elements_same w vec n others)))
        | inr (refused, (e, thrown)) ↦ inr (
          refused,
          (
            e,
            thrown
                ∙ ap (λ l. (record vec { data_bytes = l }, some e))
                    (take_all vec.data_bytes (replicate vec.elem_size 0)),
          ),
        )
      ]

  -- Writing a value of the element's type at an index ends well and replaces the element there in the list
  -- of elements.
  pub write_vec_elem-elements :
      (vec : BblVec) (n i v : ℕ) (bs : Bytes)
      → IsVec vec n
      → i < n
      → elem_bytes env vec vec.elem_type_tag v ≡ ok bs
      → (w : BblVec) × (write_vec_elem env vec i v ≡ ok w)
        × IsVec w n
        × (elements w n ≡ set (elements vec n) i (elem_value env descs vec vec.elem_type_tag bs))
  write_vec_elem-elements vec n i v bs whole h code =
      let (w, run, after, here, others) = write_vec_elem-IsVec vec n i v bs whole h code in
      (
        w,
        run,
        after,
        elements-set w vec n i (elem_value env descs vec vec.elem_type_tag bs) here others,
      )
