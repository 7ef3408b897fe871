-- ===== src/Table/Order.antt =====
-- `BblTable::ensureOrder` of src/bbl.cpp: the list of the keys.
use mathlib.Core.List.Memᴰ
use mathlib.Core.List.{Memᴰ}
use bbl.Prelude.Int.{pos}
use bbl.Value.{make_int}
use bbl.Prelude.{
  ℕ, zero, suc, ◌+◌, ◌≡◌, ◌≢◌, ◌==◌, ◌↔◌, get_or, ==_iff, Bool-cases, inl, inr, true, false, subst,
  ap, sym, ◌∙◌, refl, none, some, List, [], ◌∷◌, ◌++◌, length, arith, length-append,
}
use bbl.Table.{
  Env, Entry, Table, is_occupied, empty_key, tombstone_key, array_keys, bucket_keys, ensure_order,
}
use bbl.Table.Buckets.{occupied}
use bbl.Table.Invariant.{IsValid, filled}

length-array_keys : (env : Env) (i : ℕ) (vs : List ℕ) → length (array_keys env i vs) ≡ filled vs
unfolding array_keys filled
length-array_keys env i [] = refl
length-array_keys env i (v ∷ vs) = ground (arith, length-array_keys env (i + 1) vs)

length-bucket_keys : (env : Env) (bs : List Entry) → length (bucket_keys env bs) ≡ occupied bs
unfolding bucket_keys occupied
length-bucket_keys env [] = refl
length-bucket_keys env (e ∷ es) = ground (arith, length-bucket_keys env es)

-- the keys of a table: the indices of the array's values, and the keys of the occupied buckets
pub data IsKeyOf (env : Env) (t : Table) : ℕ → Type 0 where
  slot : (i : ℕ) → get_or t.array i 0 ≢ 0 → IsKeyOf env t (make_int env.to_double (pos i))
  bucket :
      (e : Entry)
      → Memᴰ e t.buckets
      → e.key ≢ empty_key
      → e.key ≢ tombstone_key
      → IsKeyOf env t e.key

module _ (env : Env) where
  array_keys-slot :
      (i : ℕ) (vs : List ℕ) {k : ℕ}
      → Memᴰ k (array_keys env i vs)
      → (j : ℕ) × ((get_or vs j 0 ≢ 0) × (k ≡ make_int env.to_double (pos (i + j))))
  unfolding array_keys
  array_keys-slot i [] = λ m. absurd (Memᴰ.not-nil m)
  array_keys-slot i (v ∷ vs) = elim (Bool-cases (v == 0)) [
    | inl z ↦ rw z (λ m.
        let (j, (some_value, e)) = array_keys-slot (i + 1) vs m in
        (suc j, (some_value, e ∙ ap (λ n. make_int env.to_double (pos n)) (omega arith))))
    | inr z ↦ rw z (λ m. elim (Memᴰ.cases_cons m) [
      | inl e ↦ (
        zero,
        (
          λ h. absurd (cc (z, (==_iff v 0).1 h)),
          e ∙ ap (λ n. make_int env.to_double (pos n)) (omega arith),
        ),
      )
      | inr later ↦
          let (j, (some_value, e)) = array_keys-slot (i + 1) vs later in
          (suc j, (some_value, e ∙ ap (λ n. make_int env.to_double (pos n)) (omega arith)))
    ])
  ]

  slot-array_keys :
      (i : ℕ) (vs : List ℕ) (j : ℕ)
      → get_or vs j 0 ≢ 0
      → Memᴰ (make_int env.to_double (pos (i + j))) (array_keys env i vs)
  unfolding array_keys
  slot-array_keys i [] j h = absurd (h refl)
  slot-array_keys i (v ∷ vs) zero h =
      let some_value : (v == 0) ≡ false = ground (arith, h) in
      rw some_value (Memᴰ.head (ap (λ n. make_int env.to_double (pos n)) (omega arith)))
  slot-array_keys i (v ∷ vs) (suc j) h =
      let there =
        subst (λ n. Memᴰ (make_int env.to_double (pos n)) (array_keys env (i + 1) vs)) (omega arith)
          (slot-array_keys (i + 1) vs j h) in
      elim (Bool-cases (v == 0)) [ inl z ↦ rw z there | inr z ↦ rw z (Memᴰ.tail there) ]

  bucket_keys-bucket :
      (bs : List Entry) {k : ℕ}
      → Memᴰ k (bucket_keys env bs)
      → (e : Entry) × (Memᴰ e bs × ((is_occupied e ≡ true) × (k ≡ e.key)))
  unfolding bucket_keys
  bucket_keys-bucket [] = λ m. absurd (Memᴰ.not-nil m)
  bucket_keys-bucket (e ∷ es) = elim (Bool-cases (is_occupied e)) [
    | inr z ↦
        rw z (λ m. let (b, (here, rest)) = bucket_keys-bucket es m in (b, (Memᴰ.tail here, rest)))
    | inl z ↦ rw z (λ m. elim (Memᴰ.cases_cons m) [
      | inl same ↦ (e, (Memᴰ.head refl, (z, same)))
      | inr later ↦
          let (b, (here, rest)) = bucket_keys-bucket es later in (b, (Memᴰ.tail here, rest))
    ])
  ]

  bucket-bucket_keys :
      (bs : List Entry) (e : Entry)
      → is_occupied e ≡ true
      → Memᴰ e bs
      → Memᴰ e.key (bucket_keys env bs)
  unfolding bucket_keys
  bucket-bucket_keys [] e z m = absurd (Memᴰ.not-nil m)
  bucket-bucket_keys (b ∷ bs) e z m = elim (Memᴰ.cases_cons m) [
    | inl same ↦
        let here : is_occupied b ≡ true = subst (λ u. is_occupied u ≡ true) same z in
        rw here (Memᴰ.head (ap (λ u. u.key) same))
    | inr later ↦
        let there = bucket-bucket_keys bs e z later in
        elim (Bool-cases (is_occupied b)) [ inl y ↦ rw y (Memᴰ.tail there) | inr y ↦ rw y there ]
  ]

  listed :
      (t : Table) {k : ℕ}
      → IsKeyOf env t k
      → Memᴰ k (array_keys env 0 t.array ++ bucket_keys env t.buckets)
  listed t (slot i h) = Memᴰ.append_left (bucket_keys env t.buckets) (
      subst (λ n. Memᴰ (make_int env.to_double (pos n)) (array_keys env 0 t.array)) (omega arith)
        (slot-array_keys 0 t.array i h))
  listed t (bucket e m a b) =
      Memᴰ.append_right (array_keys env 0 t.array)
        (bucket-bucket_keys t.buckets e (ground (arith, a, b)) m)

  keys_iff :
      (t : Table) (k : ℕ)
      → Memᴰ k (array_keys env 0 t.array ++ bucket_keys env t.buckets) ↔ IsKeyOf env t k
  keys_iff t k = (
    λ m. elim (Memᴰ.append_cases (array_keys env 0 t.array) m) [
      | inl a ↦
          let (j, (some_value, e)) = array_keys-slot 0 t.array a in
          subst (IsKeyOf env t) (sym (e ∙ ap (λ n. make_int env.to_double (pos n)) (omega arith)))
            (slot j some_value)
      | inr b ↦
          let (e, (here, (z, same))) = bucket_keys-bucket t.buckets b in
          subst (IsKeyOf env t) (sym same) (
            bucket e here (λ h. absurd (ground (arith, z, h))) (λ h. absurd (ground (arith, z, h))))
    ],
    λ h. listed t h,
  )

-- `ensureOrder` on a valid table that has no list of keys makes one with as many keys as `count`
-- says, exactly the indices of the array's values and the keys of the occupied buckets, and changes
-- nothing else.
pub ensure_order-count :
    (env : Env) {t : Table}
    → IsValid t
    → t.order ≡ none
    → (keys : List ℕ) × ((ensure_order env t ≡ record t { order = some keys })
        × ((length keys ≡ t.count) × ((k : ℕ) → Memᴰ k keys ↔ IsKeyOf env t k)))
unfolding ensure_order
ensure_order-count env {t} valid h = (
  array_keys env 0 t.array ++ bucket_keys env t.buckets,
  (
    rw h refl,
    (
      omega (
        arith,
        length-append (array_keys env 0 t.array) (bucket_keys env t.buckets),
        length-array_keys env 0 t.array,
        length-bucket_keys env t.buckets,
        valid.counted,
      ),
      λ k. keys_iff env t k,
    ),
  ),
)
