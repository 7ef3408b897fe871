-- ===== src/Gc/Update.antt =====
-- Writes through pointers to objects in the heap of src/bbl.cpp: what is found behind one.
use mathlib.Core.Option
use mathlib.Core.Path.{fun_ext}
use bbl.Prelude.{
  ℕ, ◌≡◌, refl, sym, ap, subst, ◌∙◌, true, false, ◌==◌, if◌then◌else◌, none, some, List, [], ◌∷◌,
  ◌++◌, Bool-cases, Option-cases, inl, inr, ==_iff,
}
use bbl.Value.{GcType}
use bbl.Gc.{Object, Heap, objects, find_object, kind_in}
use bbl.Gc.Sweep.{Distinct, find_here, find_past}
use bbl.Gc.State.{update_at, update_heap}
use bbl.Gc.Objects.{is_marked, is_marked_found, is_marked_missing}
use bbl.Gc.Quiet.{IsQuiet}

pub kind_found :
    (a : ℕ) (os : List Object) {o : Object} → find_object a os ≡ some o → kind_in os a ≡ o.gc_type
unfolding kind_in
kind_found a os h = rw (h, kind_in) refl

pub kind_missing :
    (a : ℕ) (os : List Object) → find_object a os ≡ none → kind_in os a ≡ GcType.string
unfolding kind_in
kind_missing a os h = rw (h, kind_in) refl

module _ (f : Object → Object) (a : ℕ) where
  pub update_at-append :
      (xs ys : List Object) → update_at f a (xs ++ ys) ≡ update_at f a xs ++ update_at f a ys
  unfolding update_at
  update_at-append [] ys = refl
  update_at-append (x ∷ xs) ys =
      ap (λ r. (if x.address == a then f x else x) ∷ r) (update_at-append xs ys)

  -- the object at an address behind the write
  abbrev pub written : ℕ → Object → Object
  written b o = if b == a then f o else o

  module _ (fixed : (o : Object) → (f o).address ≡ o.address) where
    pub find-update_at :
        (b : ℕ) (os : List Object)
        → find_object b (update_at f a os) ≡ Option.map (written b) (find_object b os)
    unfolding update_at
    find-update_at b [] = unfold find_object in refl
    find-update_at b (x ∷ os) = elim (Bool-cases (x.address == a)) [
      | inl z ↦
          let at : (f x).address ≡ x.address = fixed x in
          elim (Bool-cases (x.address == b)) [
            | inl y ↦
                let same : x.address ≡ b = (==_iff x.address b).0 y in
                let w : (b == a) ≡ true = ap (λ n. n == a) (sym same) ∙ z in
                rw z (
                  find_here b (f x) (update_at f a os) (ap (λ n. n == b) at ∙ y)
                  ∙ sym (ap (Option.map (written b)) (find_here b x os y) ∙ rw w refl))
            | inr y ↦ rw z (
                find_past b (f x) (update_at f a os) (ap (λ n. n == b) at ∙ y)
                ∙ find-update_at b os
                ∙ sym (ap (Option.map (written b)) (find_past b x os y)))
          ]
      | inr z ↦ elim (Bool-cases (x.address == b)) [
        | inl y ↦
            let same : x.address ≡ b = (==_iff x.address b).0 y in
            let w : (b == a) ≡ false = ap (λ n. n == a) (sym same) ∙ z in
            rw z (
              find_here b x (update_at f a os) y
              ∙ sym (ap (Option.map (written b)) (find_here b x os y) ∙ rw w refl))
        | inr y ↦ rw z (
            find_past b x (update_at f a os) y
            ∙ find-update_at b os
            ∙ sym (ap (Option.map (written b)) (find_past b x os y)))
      ]
    ]

    pub update_found :
        (b : ℕ) (os : List Object) {o : Object}
        → find_object b os ≡ some o
        → find_object b (update_at f a os) ≡ some (written b o)
    update_found b os h = find-update_at b os ∙ ap (Option.map (written b)) h

    pub update_missing :
        (b : ℕ) (os : List Object)
        → find_object b os ≡ none
        → find_object b (update_at f a os) ≡ none
    update_missing b os h = find-update_at b os ∙ ap (Option.map (written b)) h

    pub found_update :
        (b : ℕ) (os : List Object) {q : Object}
        → find_object b (update_at f a os) ≡ some q
        → (o : Object) × (find_object b os ≡ some o) × (q ≡ written b o)
    found_update b os {q} h = elim (Option-cases (find_object b os)) [
      | inl x ↦ absurd (cc (update_missing b os x, h))
      | inr (o, x) ↦ let same : q ≡ written b o = cc (update_found b os x, h) in (o, x, same)
    ]

    -- a write that keeps kinds keeps the kind at every address
    pub kind_in-update_at :
        ((o : Object) → (f o).gc_type ≡ o.gc_type)
        → (os : List Object) → kind_in (update_at f a os) ≡ kind_in os
    kind_in-update_at alike os = fun_ext (λ b. elim (Option-cases (find_object b os)) [
      | inl x ↦
          kind_missing b (update_at f a os) (update_missing b os x) ∙ sym (kind_missing b os x)
      | inr (o, x) ↦
          kind_found b (update_at f a os) (update_found b os x)
          ∙ elim (Bool-cases (b == a)) [ inl y ↦ rw y (alike o) | inr y ↦ rw y refl ]
          ∙ sym (kind_found b os x)
    ])

    pub Distinct-update_at : (os : List Object) → Distinct os → Distinct (update_at f a os)
    unfolding Distinct update_at
    Distinct-update_at [] d = d
    Distinct-update_at (x ∷ os) d = elim (Bool-cases (x.address == a)) [
      | inl y ↦ rw y (
        subst (λ n. find_object n (update_at f a os) ≡ none) (sym (fixed x))
            (update_missing x.address os d.0),
        Distinct-update_at os d.1,
      )
      | inr y ↦ rw y (update_missing x.address os d.0, Distinct-update_at os d.1)
    ]

    pub objects-update_heap : (h : Heap) → objects (update_heap f a h) ≡ update_at f a (objects h)
    objects-update_heap h = sym (update_at-append h.nursery h.tenured)

-- A write that leaves addresses, marks and ages alone keeps a heap as it is between collections.
pub IsQuiet-update_heap :
    (f : Object → Object) (a : ℕ) (h : Heap)
    → ((o : Object) → (f o).address ≡ o.address)
    → ((o : Object) → (f o).marked ≡ o.marked)
    → ((o : Object) → (f o).old ≡ o.old)
    → IsQuiet h
    → IsQuiet (update_heap f a h)
IsQuiet-update_heap f a h fixed mark age quiet =
    let os = objects-update_heap f a fixed h in
    let same_mark : (b : ℕ) (o : Object) → (written f a b o).marked ≡ o.marked =
      λ b o. elim (Bool-cases (b == a)) [ inl y ↦ rw y (mark o) | inr y ↦ rw y refl ] in
    let same_age : (b : ℕ) (o : Object) → (written f a b o).old ≡ o.old =
      λ b o. elim (Bool-cases (b == a)) [ inl y ↦ rw y (age o) | inr y ↦ rw y refl ] in
    record {
      distinct = subst Distinct (sym os) (Distinct-update_at f a fixed (objects h) quiet.distinct);
      bare = λ b. ap (λ l. is_marked l b) os ∙ elim (Option-cases (find_object b (objects h))) [
        | inl x ↦
            is_marked_missing (update_at f a (objects h)) b
              (update_missing f a fixed b (objects h) x)
        | inr (o, x) ↦
            is_marked_found (update_at f a (objects h)) b (update_found f a fixed b (objects h) x)
            ∙ same_mark b o
            ∙ sym (is_marked_found (objects h) b x)
            ∙ quiet.bare b
      ];
      fresh = λ b q x.
          let (o, found, e) = found_update f a fixed b h.nursery x in
          ap (λ u. u.old) e ∙ same_age b o ∙ quiet.fresh b o found;
      aged = λ b q x.
          let (o, found, e) = found_update f a fixed b h.tenured x in
          ap (λ u. u.old) e ∙ same_age b o ∙ quiet.aged b o found;
    }
