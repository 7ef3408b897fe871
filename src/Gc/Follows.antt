-- ===== src/Gc/Follows.antt =====
-- The loops of the collector of src/bbl.cpp go through exactly the roots and what objects refer to.
use mathlib.Core.List.Memᴰ
use mathlib.Core.List.{Memᴰ}
use bbl.Prelude.{
  ℕ, zero, suc, ◌^◌, ◌<◌, ◌≡◌, ◌≢◌, refl, sym, ap, ◌∙◌, subst, true, false, ◌==◌, none, some, ◌⊎◌,
  inl, inr, ◌↔◌, ⊎_elim, List, [], ◌∷◌, get_or, arith, Bool-cases,
}
use bbl.Value.{
  ValueType, GcType, value_type, object_type, as_ptr, tag_of, is_double, is_cfn, tag_string,
  tag_closure, tag_fn, make_string, make_closure, make_fn, make_object,
}
use bbl.Table.{Table, Entry, empty_entry, is_occupied}
use bbl.Gc.{
  Content, text, table, closure, fn, opaque, array_values, bucket_values, table_values, env_value,
  children, target,
}
use bbl.Gc.State.{remembered_content}
use bbl.Value.Boxing.{as_ptr-make_object}
use bbl.Gc.Live.{InTable, Refers, Scanned, IsHeapKind, Points}

-- membership in a list with a head
mem_cases :
    {P : Type 0} (x v : ℕ) (xs : List ℕ) → (v ≡ x → P) → (Memᴰ v xs → P) → Memᴰ v (x ∷ xs) → P
mem_cases x v xs f g m = ⊎_elim f g (Memᴰ.cases_cons m)

array-mem : (vs : List ℕ) (i v : ℕ) → get_or vs i 0 ≡ v → v ≢ 0 → Memᴰ v (array_values vs)
unfolding array_values
array-mem [] i v e ne = absurd (ne (sym e))
array-mem (x ∷ vs) zero v e ne =
    let full : (x == 0) ≡ false = ground (arith, ne) in rw full (Memᴰ.head (sym e))
array-mem (x ∷ vs) (suc i) v e ne =
    let later = array-mem vs i v e ne in
    elim (Bool-cases (x == 0)) [ inl z ↦ rw z later | inr z ↦ rw z (Memᴰ.tail later) ]

mem-array :
    (vs : List ℕ) (v : ℕ) → Memᴰ v (array_values vs) → (i : ℕ) × (get_or vs i 0 ≡ v) × (v ≢ 0)
unfolding array_values
mem-array [] v = λ m. absurd (Memᴰ.not-nil m)
mem-array (x ∷ vs) v = elim (Bool-cases (x == 0)) [
  | inl z ↦ rw z (λ m. let (i, e, ne) = mem-array vs v m in (suc i, e, ne))
  | inr z ↦ rw z (λ m. elim (Memᴰ.cases_cons m) [
    | inl same ↦ (zero, sym same, λ e. absurd (ground arith))
    | inr later ↦ let (i, e, ne) = mem-array vs v later in (suc i, e, ne)
  ])
]

bucket-mem :
    (es : List Entry) (i : ℕ) (e : Entry)
    → get_or es i empty_entry ≡ e
    → is_occupied e ≡ true
    → Memᴰ e.key (bucket_values es) × Memᴰ e.val (bucket_values es)
unfolding bucket_values
bucket-mem [] i e h occ = absurd (cc (ap (λ d. is_occupied d) h, occ))
bucket-mem (d ∷ es) zero e h occ =
    let occ_d : is_occupied d ≡ true = ap (λ u. is_occupied u) h ∙ occ in
    rw occ_d (Memᴰ.head (ap (λ u. u.key) (sym h)), Memᴰ.tail (Memᴰ.head (ap (λ u. u.val) (sym h))))
bucket-mem (d ∷ es) (suc i) e h occ =
    let (k, v) = bucket-mem es i e h occ in
    elim (Bool-cases (is_occupied d)) [
      | inl z ↦ rw z (Memᴰ.tail (Memᴰ.tail k), Memᴰ.tail (Memᴰ.tail v))
      | inr z ↦ rw z (k, v)
    ]

mem-bucket :
    (es : List Entry) (v : ℕ)
    → Memᴰ v (bucket_values es)
    → (i : ℕ) × (is_occupied (get_or es i empty_entry) ≡ true)
      × ((v ≡ (get_or es i empty_entry).key) ⊎ (v ≡ (get_or es i empty_entry).val))
unfolding bucket_values
mem-bucket [] v = λ m. absurd (Memᴰ.not-nil m)
mem-bucket (d ∷ es) v = elim (Bool-cases (is_occupied d)) [
  | inr z ↦ rw z (λ m. let (i, occ, at) = mem-bucket es v m in (suc i, occ, at))
  | inl z ↦ rw z (λ m. elim (Memᴰ.cases_cons m) [
    | inl same ↦ (zero, z, inl same)
    | inr later ↦ elim (Memᴰ.cases_cons later) [
      | inl same ↦ (zero, z, inr same)
      | inr rest ↦ let (i, occ, at) = mem-bucket es v rest in (suc i, occ, at)
    ]
  ])
]

pub InTable-mem : (t : Table) (v : ℕ) → InTable t v ↔ Memᴰ v (table_values t)
InTable-mem t v = (there, back)
  where
    there : {v : ℕ} → InTable t v → Memᴰ v (table_values t)
    there (InTable.slot i v e ne) =
        Memᴰ.append_left (bucket_values t.buckets) (array-mem t.array i v e ne)
    there (InTable.bucket_key i e h occ) =
        Memᴰ.append_right (array_values t.array) (bucket-mem t.buckets i e h occ).0
    there (InTable.bucket_val i e h occ) =
        Memᴰ.append_right (array_values t.array) (bucket-mem t.buckets i e h occ).1

    back : {v : ℕ} → Memᴰ v (table_values t) → InTable t v
    back {v} m = elim (Memᴰ.append_cases (array_values t.array) m) [
      | inl l ↦ let (i, e, ne) = mem-array t.array v l in InTable.slot i v e ne
      | inr r ↦
          let (i, occ, at) = mem-bucket t.buckets v r in
          let e = get_or t.buckets i empty_entry in
          elim at [
            | inl same ↦ subst (InTable t) (sym same) (InTable.bucket_key i e refl occ)
            | inr same ↦ subst (InTable t) (sym same) (InTable.bucket_val i e refl occ)
          ]
    ]

-- an address that may be null
pub env-mem : (a : ℕ) → a ≢ 0 → Memᴰ (make_object a) (env_value a)
unfolding env_value
env-mem a ne = let full : (a == 0) ≡ false = ground (arith, ne) in rw full (Memᴰ.head refl)

pub mem-env : (a v : ℕ) → Memᴰ v (env_value a) → (a ≢ 0) × (v ≡ make_object a)
unfolding env_value
mem-env a v = elim (Bool-cases (a == 0)) [
  | inl z ↦ rw z (λ m. absurd (Memᴰ.not-nil m))
  | inr z ↦ rw z (λ m. (λ e. absurd (ground arith), Memᴰ.eq_of_singleton m))
]

pub Refers-children : {c : Content} {v : ℕ} → Refers c v → Memᴰ v (children c)
unfolding children
Refers-children (Refers.in_table t r) = (InTable-mem t _).0 r
Refers-children (Refers.captured cs env ks proto m) = Memᴰ.append_left (env_value env) m
Refers-children (Refers.environment cs env ks proto ne) = Memᴰ.append_right cs (env-mem env ne)
Refers-children (Refers.fn_captured cs m) = m

pub children-Refers : (c : Content) (v : ℕ) → Memᴰ v (children c) → Refers c v
unfolding children
children-Refers (text b) v m = absurd (Memᴰ.not-nil m)
children-Refers (table t) v m = Refers.in_table t ((InTable-mem t v).1 m)
children-Refers (closure cs env ks proto) v m = elim (Memᴰ.append_cases cs m) [
  | inl l ↦ Refers.captured cs env ks proto l
  | inr r ↦
      let (ne, same) = mem-env env v r in
      subst (Refers (closure cs env ks proto)) (sym same) (Refers.environment cs env ks proto ne)
]
children-Refers (fn cs) v m = Refers.fn_captured cs m
children-Refers opaque v m = absurd (Memᴰ.not-nil m)

pub Scanned-content : {c : Content} {v : ℕ} → Scanned c v → Memᴰ v (remembered_content c)
unfolding remembered_content
Scanned-content (Scanned.in_table t r) = (InTable-mem t _).0 r
Scanned-content (Scanned.captured cs env ks proto m) = m

pub content-Scanned : (c : Content) (v : ℕ) → Memᴰ v (remembered_content c) → Scanned c v
unfolding remembered_content
content-Scanned (text b) v m = absurd (Memᴰ.not-nil m)
content-Scanned (table t) v m = Scanned.in_table t ((InTable-mem t v).1 m)
content-Scanned (closure cs env ks proto) v m = Scanned.captured cs env ks proto m
content-Scanned (fn cs) v m = absurd (Memᴰ.not-nil m)
content-Scanned opaque v m = absurd (Memᴰ.not-nil m)

-- the object kinds whose values are looked at
heap_target :
    (kind : ℕ → GcType) (v a : ℕ) {k : GcType}
    → IsHeapKind k
    → value_type kind v ≡ object_type k
    → as_ptr v ≡ a
    → a ≢ 0
    → target kind v ≡ some a
unfolding target object_type
heap_target kind v a IsHeapKind.table_kind t p ne =
    let full : (a == 0) ≡ false = ground (arith, ne) in rw (t, p, full, target) refl
heap_target kind v a IsHeapKind.vec_kind t p ne =
    let full : (a == 0) ≡ false = ground (arith, ne) in rw (t, p, full, target) refl
heap_target kind v a IsHeapKind.struct_kind t p ne =
    let full : (a == 0) ≡ false = ground (arith, ne) in rw (t, p, full, target) refl
heap_target kind v a IsHeapKind.binary_kind t p ne =
    let full : (a == 0) ≡ false = ground (arith, ne) in rw (t, p, full, target) refl
heap_target kind v a IsHeapKind.user_data_kind t p ne =
    let full : (a == 0) ≡ false = ground (arith, ne) in rw (t, p, full, target) refl

heap_cases : (k : GcType) → IsHeapKind k ⊎ (object_type k ≡ ValueType.null)
unfolding object_type
heap_cases GcType.table = inl IsHeapKind.table_kind
heap_cases GcType.vec = inl IsHeapKind.vec_kind
heap_cases GcType.struct = inl IsHeapKind.struct_kind
heap_cases GcType.binary = inl IsHeapKind.binary_kind
heap_cases GcType.user_data = inl IsHeapKind.user_data_kind
heap_cases GcType.string = inr refl
heap_cases GcType.fn = inr refl
heap_cases GcType.closure = inr refl

target_null :
    (kind : ℕ → GcType) (v : ℕ) → value_type kind v ≡ ValueType.null → target kind v ≡ none
unfolding target
target_null kind v t = rw (t, target) refl

pub Points-target : {kind : ℕ → GcType} {v a : ℕ} → Points kind v a → target kind v ≡ some a
unfolding target value_type object_type is_cfn is_double tag_of as_ptr make_string make_closure
    make_fn
Points-target (Points.to_string a ne small) = ground (arith, ne)
Points-target (Points.to_closure a ne small) = ground (arith, ne)
Points-target (Points.to_fn a ne small) = ground (arith, ne)
Points-target {kind} (Points.to_object a ne small h) =
    let ((at_string, at_object), of_string, of_object, collectable) =
      as_ptr-make_object kind a small in
    heap_target kind (make_object a) a h of_object at_object ne

-- what a target is: the payload of a pattern with one of four tags
target_parts :
    (kind : ℕ → GcType) (v a : ℕ) → target kind v ≡ some a → (a ≢ 0) × (a < 2 ^ 48) × (as_ptr v ≡ a)
unfolding target value_type object_type is_cfn is_double tag_of as_ptr
target_parts kind v a h = ((λ e. ground arith), ground arith, ground arith)

target_tag :
    (kind : ℕ → GcType) (v a : ℕ)
    → target kind v ≡ some a
    → (v ≡ make_string a) ⊎ (v ≡ make_closure a) ⊎ (v ≡ make_fn a) ⊎ (v ≡ make_object a)
unfolding target value_type object_type is_cfn is_double tag_of as_ptr make_string make_closure
    make_fn make_object
target_tag kind v a h = elim (Bool-cases (tag_of v == tag_string)) [
  | inl z ↦ inl (ground arith)
  | inr z ↦ elim (Bool-cases (tag_of v == tag_closure)) [
    | inl y ↦ inr (inl (ground arith))
    | inr y ↦ elim (Bool-cases (tag_of v == tag_fn)) [
      | inl x ↦ inr (inr (inl (ground arith)))
      | inr x ↦ inr (inr (inr (ground arith)))
    ]
  ]
]

pub target-Points : (kind : ℕ → GcType) (v a : ℕ) → target kind v ≡ some a → Points kind v a
target-Points kind v a h =
    let (ne, small, at) = target_parts kind v a h in
    elim (target_tag kind v a h) [
      | inl e ↦ subst (λ w. Points kind w a) (sym e) (Points.to_string a ne small)
      | inr (inl e) ↦ subst (λ w. Points kind w a) (sym e) (Points.to_closure a ne small)
      | inr (inr (inl e)) ↦ subst (λ w. Points kind w a) (sym e) (Points.to_fn a ne small)
      | inr (inr (inr e)) ↦ elim (heap_cases (kind a)) [
        | inl k ↦ subst (λ w. Points kind w a) (sym e) (Points.to_object a ne small k)
        | inr none_such ↦
            let ((at_string, at_object), of_string, of_object, collectable) =
              as_ptr-make_object kind a small in
            let gone = target_null kind v (ap (value_type kind) e ∙ of_object ∙ none_such) in
            absurd (cc (gone, h))
      ]
    ]
