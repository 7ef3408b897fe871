-- ===== src/Gc/Quiet.antt =====
-- The heap of src/bbl.cpp between two collections.
use mathlib.Core.List.{Memᴰ}
use bbl.Prelude.{
  ℕ, ◌≡◌, sym, ap, ◌∙◌, Bool, true, false, none, some, [], Option-cases, inl, inr, ◌⊎◌,
}
use bbl.Gc.{Object, Heap, objects, find_object, kind_in, children}
use bbl.Gc.State.{GcState, remembered_content}
use bbl.Gc.Reach.{Aims}
use bbl.Gc.Objects.{shape, is_marked}
use bbl.Gc.Sweep.{Distinct, Distinct-append, find-append_left, find-append_right, cleaned}

-- No address stands twice, nothing is marked, and exactly the tenured objects are old.
pub record IsQuiet (h : Heap) : Type 0 where
  pub distinct : Distinct (objects h)
  pub bare : (a : ℕ) → is_marked (objects h) a ≡ false
  pub fresh : (a : ℕ) (o : Object) → find_object a h.nursery ≡ some o → o.old ≡ false
  pub aged : (a : ℕ) (o : Object) → find_object a h.tenured ≡ some o → o.old ≡ true

-- an object behind a collection that it survives
abbrev pub survivor : Object → Object
survivor o = record o { marked = false; old = true; dirty = false }

-- the generation that an object is found in
pub find_objects :
    (h : Heap) (a : ℕ) {o : Object}
    → Distinct (objects h)
    → find_object a (objects h) ≡ some o
    → ((find_object a h.nursery ≡ some o) × (find_object a h.tenured ≡ none))
      ⊎ ((find_object a h.nursery ≡ none) × (find_object a h.tenured ≡ some o))
find_objects h a {o} d found = elim (Option-cases (find_object a h.nursery)) [
  | inl x ↦ inr (x, sym (find-append_right a h.nursery h.tenured x) ∙ found)
  | inr (p, x) ↦
      let same : p ≡ o = cc (find-append_left a h.nursery h.tenured x, found) in
      let (dn, dt, apart) = Distinct-append h.nursery h.tenured d in
      inl (x ∙ ap (λ w. some w) same, apart a p x)
]

pub found_tenured :
    (h : Heap) (a : ℕ) {o : Object}
    → Distinct (objects h)
    → find_object a h.tenured ≡ some o
    → (find_object a h.nursery ≡ none) × (find_object a (objects h) ≡ some o)
found_tenured h a d found = elim (Option-cases (find_object a h.nursery)) [
  | inl x ↦ (x, find-append_right a h.nursery h.tenured x ∙ found)
  | inr (p, x) ↦
      let (dn, dt, apart) = Distinct-append h.nursery h.tenured d in
      absurd (cc (apart a p x, found))
]

abbrev with_age : Object → Bool → Object
with_age o b = record o { marked = false; old = b; dirty = false }

pub cleaned-shape : (o : Object) → o.old ≡ true → cleaned (shape o) ≡ survivor o
cleaned-shape o h = ap (λ b. with_age o b) h

-- Every old object that refers to a young one is in the remembered set, and refers to it by a value that
-- the collection looks at there; an old object that is dirty is in the set.
pub record IsTracked (s : GcState) : Type 0 where
  pub tracks :
      (a b : ℕ) (o u : Object)
      → find_object a s.heap.tenured ≡ some o
      → Aims (kind_in (objects s.heap)) (children o.content) b
      → find_object b s.heap.nursery ≡ some u
      → Memᴰ a s.remembered_set × Aims (kind_in (objects s.heap)) (remembered_content o.content) b
  pub dirty_in :
      (a : ℕ) (o : Object)
      → find_object a s.heap.tenured ≡ some o
      → o.dirty ≡ true
      → Memᴰ a s.remembered_set

pub nothing_found : (a : ℕ) {o : Object} → find_object a [] ≡ some o → ⊥
unfolding find_object
nothing_found a h = cc h
