-- ===== src/Gc/Barrier.antt =====
-- `writeBarrier` of src/bbl.h keeps the remembered set complete while a table is written.
use mathlib.Core.List.Memᴰ
use mathlib.Core.List.{Memᴰ}
use bbl.Prelude.{
  ℕ, ◌≡◌, refl, sym, ap, subst, ◌∙◌, true, not, ◌==◌, if◌then◌else◌, some, List, [], ◌∷◌, ◌++◌,
  arith, Bool-cases, Option-cases, inl, inr, ◌⊎◌, ==_iff,
}
use bbl.Value.{GcType, value_type, object_type, as_ptr, tag_of, is_double, is_cfn, is_gc_pointer}
use bbl.Gc.{Object, objects, find_object, kind_in, target, children}
use bbl.Gc.State.{
  GcState, write_barrier, write_barriers, update_heap, set_dirty, remembered_content,
}
use bbl.Gc.Reach.{Aims}
use bbl.Gc.Sweep.{find-append_left}
use bbl.Gc.Quiet.{IsQuiet, IsTracked, found_tenured}
use bbl.Gc.Update.{
  IsQuiet-update_heap, written, found_update, kind_in-update_at, objects-update_heap,
}

-- what marking looks at is a collectable pointer, and its address is the payload
pub target-is_gc_pointer :
    (kind : ℕ → GcType) (v a : ℕ)
    → target kind v ≡ some a
    → (is_gc_pointer v ≡ true) × (as_ptr v ≡ a)
unfolding target value_type object_type is_gc_pointer is_cfn is_double tag_of as_ptr
target-is_gc_pointer kind v a h = (ground arith, ground arith)

-- The set is complete but for the values `vs` of the object at `x`, which are yet to be handed over.
pub record IsTrackedBut (s : GcState) (x : ℕ) (vs : List ℕ) : Type 0 where
  pub tracks :
      (a b v : ℕ) (o u : Object)
      → find_object a s.heap.tenured ≡ some o
      → Memᴰ v (children o.content)
      → target (kind_in (objects s.heap)) v ≡ some b
      → find_object b s.heap.nursery ≡ some u
      → ((a ≡ x) × Memᴰ v vs)
        ⊎ (Memᴰ a s.remembered_set
            × Aims (kind_in (objects s.heap)) (remembered_content o.content) b)
  pub dirty_in :
      (a : ℕ) (o : Object)
      → find_object a s.heap.tenured ≡ some o
      → o.dirty ≡ true
      → Memᴰ a s.remembered_set

pub IsTrackedBut-nil : (s : GcState) (x : ℕ) → IsTrackedBut s x [] → IsTracked s
IsTrackedBut-nil s x t = record {
  tracks = λ a b o u found aim young. elim (t.tracks a b aim.0 o u found aim.1 aim.2 young) [
    | inl e ↦ absurd (Memᴰ.not-nil e.1)
    | inr r ↦ r
  ];
  dirty_in = t.dirty_in;
}

-- what a collection looks at in the object is all that it refers to
abbrev pub IsEven : GcState → ℕ → Type 0
IsEven s x =
    (o : Object)
    → find_object x s.heap.tenured ≡ some o
    → remembered_content o.content ≡ children o.content

-- the state behind a barrier that marks the container
abbrev dirtied : ℕ → GcState → GcState
dirtied x s = record s {
  heap = update_heap set_dirty x s.heap;
  remembered_set = s.remembered_set ++ x ∷ [];
}

module _ (s : GcState) (x v : ℕ) (vs : List ℕ) (even : IsEven s x)
    (t : IsTrackedBut s x (v ∷ vs)) where
  abbrev kinds : ℕ → GcType
  kinds = kind_in (objects s.heap)

  written_content : (a : ℕ) (o : Object) → (written set_dirty x a o).content ≡ o.content
  written_content a o = elim (Bool-cases (a == x)) [ inl y ↦ rw y refl | inr y ↦ rw y refl ]

  -- a value in the object that is written is looked at there
  Aims-even :
      (a b w : ℕ) (o : Object)
      → find_object a s.heap.tenured ≡ some o
      → a ≡ x
      → Memᴰ w (children o.content)
      → target kinds w ≡ some b
      → Aims kinds (remembered_content o.content) b
  Aims-even a b w o found same mem aim =
      let here = subst (λ n. find_object n s.heap.tenured ≡ some o) same found in
      (w, subst (λ l. Memᴰ w l) (sym (even o here)) mem, aim)

  -- nothing to do where the container is remembered or the value needs no memory
  skipped :
      ((o u : Object) (b : ℕ)
        → find_object x s.heap.tenured ≡ some o
        → target kinds v ≡ some b
        → find_object b s.heap.nursery ≡ some u
        → Memᴰ x s.remembered_set)
      → IsTrackedBut s x vs
  skipped stay = record {
    tracks = λ a b w o u found mem aim young. elim (t.tracks a b w o u found mem aim young) [
      | inl e ↦ elim (Memᴰ.cases_cons e.1) [
        | inl same ↦
            let here = subst (λ n. find_object n s.heap.tenured ≡ some o) e.0 found in
            let aim_v = subst (λ n. target kinds n ≡ some b) same aim in
            inr (
              subst (λ n. Memᴰ n s.remembered_set) (sym e.0) (stay o u b here aim_v young),
              Aims-even a b w o found e.0 mem aim,
            )
        | inr later ↦ inl (e.0, later)
      ]
      | inr r ↦ inr r
    ];
    dirty_in = t.dirty_in;
  }

  same_kinds : kinds ≡ kind_in (objects (dirtied x s).heap)
  same_kinds = sym (
      ap kind_in (objects-update_heap set_dirty x (λ o. refl) s.heap)
      ∙ kind_in-update_at set_dirty x (λ o. refl) (λ o. refl) (objects s.heap))

  remembered :
      (a b w : ℕ) (o u : Object)
      → find_object a s.heap.tenured ≡ some o
      → Memᴰ w (children o.content)
      → target kinds w ≡ some b
      → find_object b s.heap.nursery ≡ some u
      → ((a ≡ x) × Memᴰ w vs)
        ⊎ (Memᴰ a (s.remembered_set ++ x ∷ []) × Aims kinds (remembered_content o.content) b)
  remembered a b w o u found mem aim young = elim (t.tracks a b w o u found mem aim young) [
    | inl e ↦ elim (Memᴰ.cases_cons e.1) [
      | inl same ↦ inr (
        subst (λ n. Memᴰ n (s.remembered_set ++ x ∷ [])) (sym e.0)
            (Memᴰ.append_right s.remembered_set (Memᴰ.head refl)),
        Aims-even a b w o found e.0 mem aim,
      )
      | inr later ↦ inl (e.0, later)
    ]
    | inr r ↦ inr (Memᴰ.append_left (x ∷ []) r.0, r.1)
  ]

  marked_dirty : IsTrackedBut (dirtied x s) x vs
  marked_dirty = record {
    tracks = λ a b w q r found mem aim young.
        let (o, found_o, eq) = found_update set_dirty x (λ p. refl) a s.heap.tenured found in
        let (u, young_u, eu) = found_update set_dirty x (λ p. refl) b s.heap.nursery young in
        let same : o.content ≡ q.content = sym (ap (λ p. p.content) eq ∙ written_content a o) in
        let mem_o = subst (λ c. Memᴰ w (children c)) (sym same) mem in
        let aim_o = subst (λ k. target k w ≡ some b) (sym same_kinds) aim in
        subst
          (λ c.
            ((a ≡ x) × Memᴰ w vs)
            ⊎ (Memᴰ a (s.remembered_set ++ x ∷ [])
                × Aims (kind_in (objects (dirtied x s).heap)) (remembered_content c) b))
          same
          (subst
            (λ k.
              ((a ≡ x) × Memᴰ w vs)
              ⊎ (Memᴰ a (s.remembered_set ++ x ∷ []) × Aims k (remembered_content o.content) b))
            same_kinds (remembered a b w o u found_o mem_o aim_o young_u));
    dirty_in = λ a q found d.
        let (o, found_o, eq) = found_update set_dirty x (λ p. refl) a s.heap.tenured found in
        elim (Bool-cases (a == x)) [
          | inl y ↦
              subst (λ n. Memᴰ n (s.remembered_set ++ x ∷ [])) (sym ((==_iff a x).0 y))
                (Memᴰ.append_right s.remembered_set (Memᴰ.head refl))
          | inr y ↦
              Memᴰ.append_left (x ∷ [])
                (t.dirty_in a o found_o (sym (ap (λ p. p.dirty) eq ∙ rw y refl) ∙ d))
        ];
  }

-- the barrier where both objects are there
barrier_found :
    (s : GcState) (x v : ℕ) (c o : Object)
    → find_object x (objects s.heap) ≡ some c
    → find_object (as_ptr v) (objects s.heap) ≡ some o
    → write_barrier x v s ≡ (
        if not c.old
        then s
        else if not (is_gc_pointer v)
        then s
        else if o.old
        then s
        else if c.dirty
        then s
        else dirtied x s)
unfolding write_barrier
barrier_found s x v c o h k = rw (h, k, write_barrier) refl

-- The barrier writes down the container, or is free to do nothing.
barrier_cases :
    (s : GcState) (x v : ℕ)
    → IsQuiet s.heap
    → ((o : Object)
        → find_object x s.heap.tenured ≡ some o
        → o.dirty ≡ true
        → Memᴰ x s.remembered_set)
    → (write_barrier x v s ≡ dirtied x s)
      ⊎ ((write_barrier x v s ≡ s)
          × ((o u : Object) (b : ℕ)
              → find_object x s.heap.tenured ≡ some o
              → target (kind_in (objects s.heap)) v ≡ some b
              → find_object b s.heap.nursery ≡ some u
              → Memᴰ x s.remembered_set))
barrier_cases s x v quiet dirty_in = elim (Option-cases (find_object x (objects s.heap))) [
  | inl z ↦ inr (
    unfold write_barrier in rw (z, write_barrier) refl,
    λ o u b old aim young. absurd (cc (z, (found_tenured s.heap x quiet.distinct old).1)),
  )
  | inr (c, z) ↦ elim (Option-cases (find_object (as_ptr v) (objects s.heap))) [
    | inl y ↦ inr (
      unfold write_barrier in rw (z, y, write_barrier) refl,
      λ o u b old aim young.
          let at = (target-is_gc_pointer (kind_in (objects s.heap)) v b aim).1 in
          absurd (cc (y, at, find-append_left b s.heap.nursery s.heap.tenured young)),
    )
    | inr (p, y) ↦
        let open_up = barrier_found s x v c p z y in
        elim (Bool-cases c.old) [
          | inr old ↦ inr (
            open_up ∙ rw old refl,
            λ o u b found aim young. absurd (
                cc (old, quiet.aged x o found, z, (found_tenured s.heap x quiet.distinct found).1)),
          )
          | inl old ↦ elim (Bool-cases (is_gc_pointer v)) [
            | inr gc ↦ inr (
              open_up ∙ rw (old, gc) refl,
              λ o u b found aim young.
                  absurd (cc (gc, (target-is_gc_pointer (kind_in (objects s.heap)) v b aim).0)),
            )
            | inl gc ↦ elim (Bool-cases p.old) [
              | inl tenured ↦ inr (
                open_up ∙ rw (old, gc, tenured) refl,
                λ o u b found aim young.
                    let at = (target-is_gc_pointer (kind_in (objects s.heap)) v b aim).1 in
                    absurd (
                      cc (
                        tenured,
                        y,
                        at,
                        quiet.fresh b u young,
                        find-append_left b s.heap.nursery s.heap.tenured young,
                      )),
              )
              | inr young_p ↦ elim (Bool-cases c.dirty) [
                | inl d ↦ inr (
                  open_up ∙ rw (old, gc, young_p, d) refl,
                  λ o u b found aim young.
                      dirty_in o found (cc (d, z, (found_tenured s.heap x quiet.distinct found).1)),
                )
                | inr d ↦ inl (open_up ∙ rw (old, gc, young_p, d) refl)
              ]
            ]
          ]
        ]
  ]
]

-- the handing over of one value
pub write_barrier-IsTrackedBut :
    (s : GcState) (x v : ℕ) (vs : List ℕ)
    → IsQuiet s.heap
    → IsEven s x
    → IsTrackedBut s x (v ∷ vs)
    → IsTrackedBut (write_barrier x v s) x vs
write_barrier-IsTrackedBut s x v vs quiet even t = elim (barrier_cases s x v quiet (t.dirty_in x)) [
  | inl e ↦ subst (λ r. IsTrackedBut r x vs) (sym e) (marked_dirty s x v vs even t)
  | inr e ↦ subst (λ r. IsTrackedBut r x vs) (sym e.0) (skipped s x v vs even t e.1)
]

IsEven-dirtied : (s : GcState) (x : ℕ) → IsEven s x → IsEven (dirtied x s) x
IsEven-dirtied s x even q found =
    let (o, found_o, e) = found_update set_dirty x (λ p. refl) x s.heap.tenured found in
    let same : q.content ≡ o.content =
      ap (λ p. p.content) e
      ∙ elim (Bool-cases (x == x)) [ inl y ↦ rw y refl | inr y ↦ rw y refl ] in
    subst (λ c. remembered_content c ≡ children c) (sym same) (even o found_o)

-- The values of an object that are handed over one by one leave the set complete.
pub write_barriers-IsTracked :
    (s : GcState) (x : ℕ) (vs : List ℕ)
    → IsQuiet s.heap
    → IsEven s x
    → IsTrackedBut s x vs
    → IsQuiet (write_barriers x vs s).heap × IsTracked (write_barriers x vs s)
unfolding write_barriers
write_barriers-IsTracked s x [] quiet even t = (quiet, IsTrackedBut-nil s x t)
write_barriers-IsTracked s x (v ∷ vs) quiet even t =
    let next = write_barriers-IsTracked (write_barrier x v s) x vs in
    elim (barrier_cases s x v quiet (t.dirty_in x)) [
      | inl e ↦
          let dirty =
            IsQuiet-update_heap set_dirty x s.heap (λ o. refl) (λ o. refl) (λ o. refl) quiet in
          next (subst (λ r. IsQuiet r.heap) (sym e) dirty)
            (subst (λ r. IsEven r x) (sym e) (IsEven-dirtied s x even))
            (write_barrier-IsTrackedBut s x v vs quiet even t)
      | inr e ↦
          next (subst (λ r. IsQuiet r.heap) (sym e.0) quiet)
            (subst (λ r. IsEven r x) (sym e.0) even)
            (write_barrier-IsTrackedBut s x v vs quiet even t)
    ]
