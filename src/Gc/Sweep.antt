-- ===== src/Gc/Sweep.antt =====
-- `sweepList` and the lists of objects of src/bbl.cpp: what is found behind a sweep.
use mathlib.Core.Option
use bbl.Prelude.{
  ℕ, ◌≡◌, refl, sym, ap, subst, ◌∙◌, true, false, ◌==◌, Option, none, some, List, [], ◌∷◌, ◌++◌,
  arith, Bool-cases, Option-cases, inl, inr, ◌⊎◌, ==_iff,
}
use bbl.Gc.{Object, find_object}
use bbl.Gc.State.{sweep_list, promote, clean}
use bbl.Gc.Objects.{shape, shapes, same_missing}

-- No address stands twice.
unfoldable pub Distinct : List Object → Type 0
Distinct [] = Unit {0}
Distinct (o ∷ os) = (find_object o.address os ≡ none) × Distinct os

abbrev pub promoted : Object → Object
promoted o = record o { old = true; dirty = false }

abbrev pub cleaned : Object → Object
cleaned o = record o { dirty = false }

-- the object at the head of a list, or the search goes on
pub find_here :
    (a : ℕ) (x : Object) (os : List Object)
    → (x.address == a) ≡ true
    → find_object a (x ∷ os) ≡ some x
unfolding find_object
find_here a x os h = rw h refl

pub find_past :
    (a : ℕ) (x : Object) (os : List Object)
    → (x.address == a) ≡ false
    → find_object a (x ∷ os) ≡ find_object a os
unfolding find_object
find_past a x os h = rw h refl

pub find-append_left :
    (a : ℕ) (xs ys : List Object) {o : Object}
    → find_object a xs ≡ some o
    → find_object a (xs ++ ys) ≡ some o
find-append_left a [] ys h = absurd (unfold find_object in cc h)
find-append_left a (x ∷ xs) ys h = elim (Bool-cases (x.address == a)) [
  | inl y ↦ find_here a x (xs ++ ys) y ∙ sym (find_here a x xs y) ∙ h
  | inr y ↦ find_past a x (xs ++ ys) y ∙ find-append_left a xs ys (sym (find_past a x xs y) ∙ h)
]

pub find-append_right :
    (a : ℕ) (xs ys : List Object)
    → find_object a xs ≡ none
    → find_object a (xs ++ ys) ≡ find_object a ys
find-append_right a [] ys h = refl
find-append_right a (x ∷ xs) ys h = elim (Bool-cases (x.address == a)) [
  | inl y ↦ absurd (cc (find_here a x xs y, h))
  | inr y ↦ find_past a x (xs ++ ys) y ∙ find-append_right a xs ys (sym (find_past a x xs y) ∙ h)
]

pub find-promote :
    (a : ℕ) (os : List Object) → find_object a (promote os) ≡ Option.map promoted (find_object a os)
unfolding find_object promote
find-promote a [] = refl
find-promote a (x ∷ os) = elim (Bool-cases (x.address == a)) [
  | inl y ↦ rw y refl
  | inr y ↦ rw y (find-promote a os)
]

pub find-clean :
    (a : ℕ) (os : List Object) → find_object a (clean os) ≡ Option.map cleaned (find_object a os)
unfolding find_object clean
find-clean a [] = refl
find-clean a (x ∷ os) = elim (Bool-cases (x.address == a)) [
  | inl y ↦ rw y refl
  | inr y ↦ rw y (find-clean a os)
]

-- what has a mark is left, without the mark
pub find-sweep_list :
    (a : ℕ) (os : List Object) {o : Object}
    → find_object a os ≡ some o
    → o.marked ≡ true
    → find_object a (sweep_list os) ≡ some (shape o)
unfolding sweep_list find_object
find-sweep_list a [] h m = absurd (cc h)
find-sweep_list a (x ∷ os) {o} h m = elim (Bool-cases (x.address == a)) [
  | inl y ↦
      let e : x ≡ o = cc (rw (y, find_object) at h) in
      let w : x.marked ≡ true = ap (λ u. u.marked) e ∙ m in rw (w, y) (ap (λ u. some (shape u)) e)
  | inr y ↦
      let there = find-sweep_list a os (rw (y, find_object) at h) m in
      elim (Bool-cases x.marked) [ inl z ↦ rw (z, y) there | inr z ↦ rw z there ]
]

-- and nothing else
pub sweep_list-find :
    (a : ℕ) (os : List Object) {q : Object}
    → Distinct os
    → find_object a (sweep_list os) ≡ some q
    → (o : Object) × (find_object a os ≡ some o) × (o.marked ≡ true) × (q ≡ shape o)
unfolding sweep_list find_object Distinct
sweep_list-find a [] d h = absurd (cc h)
sweep_list-find a (x ∷ os) {q} d h = elim (Bool-cases x.marked) [
  | inl z ↦ elim (Bool-cases (x.address == a)) [
    | inl y ↦
        let e : shape x ≡ q = cc (rw (z, y, sweep_list, find_object) at h) in
        (x, rw y refl, z, sym e)
    | inr y ↦
        let (o, found, m, e) = sweep_list-find a os d.1 (rw (z, y, sweep_list, find_object) at h) in
        (o, rw y found, m, e)
  ]
  | inr z ↦
      let (o, found, m, e) = sweep_list-find a os d.1 (rw (z, sweep_list) at h) in
      elim (Bool-cases (x.address == a)) [
        | inl y ↦
            let same : x.address ≡ a = (==_iff x.address a).0 y in absurd (cc (d.0, same, found))
        | inr y ↦ (o, rw y found, m, e)
      ]
]

-- What a list of objects leaves out, its sublists leave out.
abbrev pub IsWithin : List Object → List Object → Type 0
IsWithin xs ys = (a : ℕ) → find_object a ys ≡ none → find_object a xs ≡ none

pub sweep_list-IsWithin : (os : List Object) → IsWithin (sweep_list os) os
unfolding sweep_list find_object
sweep_list-IsWithin [] a h = refl
sweep_list-IsWithin (x ∷ os) a h = elim (Bool-cases (x.address == a)) [
  | inl y ↦ absurd (cc (rw (y, find_object) at h))
  | inr y ↦
      let there = sweep_list-IsWithin os a (rw (y, find_object) at h) in
      elim (Bool-cases x.marked) [ inl z ↦ rw (z, y) there | inr z ↦ rw z there ]
]

pub promote-IsWithin : (os : List Object) → IsWithin (promote os) os
promote-IsWithin os a h = rw (find-promote a os, h) refl

pub clean-IsWithin : (os : List Object) → IsWithin (clean os) os
clean-IsWithin os a h = rw (find-clean a os, h) refl

pub Distinct-sweep_list : (os : List Object) → Distinct os → Distinct (sweep_list os)
unfolding Distinct sweep_list
Distinct-sweep_list [] d = d
Distinct-sweep_list (x ∷ os) d = elim (Bool-cases x.marked) [
  | inl z ↦ rw z (sweep_list-IsWithin os x.address d.0, Distinct-sweep_list os d.1)
  | inr z ↦ rw z (Distinct-sweep_list os d.1)
]

pub Distinct-promote : (os : List Object) → Distinct os → Distinct (promote os)
unfolding Distinct promote
Distinct-promote [] d = d
Distinct-promote (x ∷ os) d = (promote-IsWithin os x.address d.0, Distinct-promote os d.1)

pub Distinct-clean : (os : List Object) → Distinct os → Distinct (clean os)
unfolding Distinct clean
Distinct-clean [] d = d
Distinct-clean (x ∷ os) d = (clean-IsWithin os x.address d.0, Distinct-clean os d.1)

pub Distinct-shapes : (os ps : List Object) → shapes os ≡ shapes ps → Distinct os → Distinct ps
unfolding Distinct shapes
Distinct-shapes [] [] e d = tt
Distinct-shapes [] (p ∷ ps) e d = absurd (cc e)
Distinct-shapes (o ∷ os) [] e d = absurd (cc e)
Distinct-shapes (o ∷ os) (p ∷ ps) e d =
    let tails : shapes os ≡ shapes ps = cc e in
    let heads : shape o ≡ shape p = cc e in
    let at : o.address ≡ p.address = ap (λ u. u.address) heads in
    (
      subst (λ n. find_object n ps ≡ none) at (same_missing o.address os ps tails d.0),
      Distinct-shapes os ps tails d.1,
    )

pub missing-append :
    (a : ℕ) (xs ys : List Object)
    → find_object a (xs ++ ys) ≡ none
    → (find_object a xs ≡ none) × (find_object a ys ≡ none)
missing-append a xs ys h = elim (Option-cases (find_object a xs)) [
  | inl x ↦ (x, sym (find-append_right a xs ys x) ∙ h)
  | inr (o, x) ↦ absurd (cc (find-append_left a xs ys x, h))
]

-- two lists with nothing in common
abbrev pub IsApart : List Object → List Object → Type 0
IsApart xs ys = (a : ℕ) (o : Object) → find_object a xs ≡ some o → find_object a ys ≡ none

pub Distinct-append :
    (xs ys : List Object) → Distinct (xs ++ ys) → Distinct xs × Distinct ys × IsApart xs ys
unfolding Distinct
Distinct-append [] ys d = (tt, d, λ a o h. absurd (unfold find_object in cc h))
Distinct-append (x ∷ xs) ys d =
    let (dx, dy, apart) = Distinct-append xs ys d.1 in
    let (front, back) = missing-append x.address xs ys d.0 in
    (
      (front, dx),
      dy,
      λ a o h. elim (Bool-cases (x.address == a)) [
        | inl y ↦
            let at : x.address ≡ a = (==_iff x.address a).0 y in
            subst (λ n. find_object n ys ≡ none) at back
        | inr y ↦ apart a o (sym (find_past a x xs y) ∙ h)
      ],
    )

pub append-Distinct :
    (xs ys : List Object) → Distinct xs → Distinct ys → IsApart xs ys → Distinct (xs ++ ys)
unfolding Distinct
append-Distinct [] ys dx dy apart = dy
append-Distinct (x ∷ xs) ys dx dy apart = (
  find-append_right x.address xs ys dx.0
      ∙ apart x.address x (find_here x.address x xs (ground arith)),
  append-Distinct xs ys dx.1 dy (λ a o h. elim (Bool-cases (x.address == a)) [
    | inl y ↦ apart a x (find_here a x xs y)
    | inr y ↦ apart a o (find_past a x xs y ∙ h)
  ]),
)

some_of_map :
    {A B : Type 0} (f : A → B) (x : Option A) {b : B}
    → Option.map f x ≡ some b
    → (a : A) × (x ≡ some a) × (b ≡ f a)
some_of_map f none h = absurd (cc h)
some_of_map f (some a) h = (a, refl, cc h)

-- The list of tenured objects behind a collection.
module _ (kept live : List Object) (a : ℕ) where
  pub find_tenured :
      {u : Object}
      → find_object a kept ≡ some u
      → find_object a (clean (kept ++ promote live)) ≡ some (cleaned u)
  find_tenured h =
      find-clean a (kept ++ promote live)
      ∙ ap (Option.map cleaned) (find-append_left a kept (promote live) h)

  pub find_promoted :
      {u : Object}
      → find_object a kept ≡ none
      → find_object a live ≡ some u
      → find_object a (clean (kept ++ promote live)) ≡ some (cleaned (promoted u))
  find_promoted h g =
      find-clean a (kept ++ promote live)
      ∙ ap (Option.map cleaned) (
          find-append_right a kept (promote live) h
          ∙ find-promote a live
          ∙ ap (Option.map promoted) g)

  pub find_only :
      {q : Object}
      → find_object a (clean (kept ++ promote live)) ≡ some q
      → ((u : Object) × (find_object a kept ≡ some u) × (q ≡ cleaned u))
        ⊎ ((u : Object) × (find_object a live ≡ some u) × (q ≡ cleaned (promoted u)))
  find_only h =
      let (r, found, e) =
        some_of_map cleaned (find_object a (kept ++ promote live))
          (sym (find-clean a (kept ++ promote live)) ∙ h) in
      elim (Option-cases (find_object a kept)) [
        | inr (u, x) ↦
            let same : r ≡ u = cc (found, find-append_left a kept (promote live) x) in
            inl (u, x, e ∙ ap (λ w. cleaned w) same)
        | inl x ↦
            let (u, there, f) =
              some_of_map promoted (find_object a live)
                (sym (find-append_right a kept (promote live) x ∙ find-promote a live) ∙ found) in
            inr (u, there, e ∙ ap (λ w. cleaned w) f)
      ]

pub Distinct-joined :
    (kept live : List Object)
    → Distinct kept
    → Distinct live
    → IsApart kept live
    → Distinct (clean (kept ++ promote live))
Distinct-joined kept live dk dl apart = Distinct-clean (kept ++ promote live) (
    append-Distinct kept (promote live) dk (Distinct-promote live dl)
      (λ a o h. promote-IsWithin live a (apart a o h)))
