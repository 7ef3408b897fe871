-- ===== src/Gc/Objects.antt =====
-- The objects of a heap and their marks: how `mark_at` changes what is found at an address.
use bbl.Prelude.{
  ℕ, ◌+◌, ◌≤◌, ◌≡◌, refl, sym, ap, ◌∙◌, Bool, true, false, ◌&&◌, ◌||◌, ◌==◌, if◌then◌else◌, none,
  some, List, [], ◌∷◌, ◌++◌, length, arith, Bool-cases, Option-cases, inl, inr, ==_iff,
}
use bbl.Gc.{Object, Heap, objects, find_object, mark_at, set_mark}

-- an object without its mark
abbrev pub shape : Object → Object
shape o = record o { marked = false }

abbrev painted : Object → Object
painted o = record o { marked = true }

unfoldable pub shapes : List Object → List Object
shapes [] = []
shapes (o ∷ os) = shape o ∷ shapes os

abbrev pub is_marked : List Object → ℕ → Bool
is_marked os a = elim (find_object a os) [ none ↦ false | some o ↦ o.marked ]

-- marking stops at the address: there is a mark, or nothing to mark
abbrev pub settled : Bool → List Object → ℕ → Bool
settled young os a = elim (find_object a os) [ none ↦ true | some o ↦ o.marked || (young && o.old) ]

pub unmarked : List Object → ℕ
unmarked [] = 0
unmarked (o ∷ os) = (if o.marked then 0 else 1) + unmarked os

pub shapes-append : (xs ys : List Object) → shapes (xs ++ ys) ≡ shapes xs ++ shapes ys
unfolding shapes
shapes-append [] ys = refl
shapes-append (x ∷ xs) ys = ap (◌∷◌ (shape x)) (shapes-append xs ys)

pub find-shapes :
    (a : ℕ) (os : List Object) {o : Object}
    → find_object a os ≡ some o
    → find_object a (shapes os) ≡ some (shape o)
unfolding find_object shapes
find-shapes a [] h = absurd (cc h)
find-shapes a (x ∷ os) {o} h = elim (Bool-cases (x.address == a)) [
  | inl y ↦ let e : x ≡ o = cc (rw (y, find_object) at h) in rw (y, e) refl
  | inr y ↦ rw y (find-shapes a os (rw (y, find_object) at h))
]

pub find-shapes-none :
    (a : ℕ) (os : List Object) → find_object a os ≡ none → find_object a (shapes os) ≡ none
unfolding find_object shapes
find-shapes-none a [] h = refl
find-shapes-none a (x ∷ os) h = elim (Bool-cases (x.address == a)) [
  | inl y ↦ absurd (cc (rw (y, find_object) at h))
  | inr y ↦ rw y (find-shapes-none a os (rw (y, find_object) at h))
]

-- lists of the same shapes have objects of the same shape at an address
pub same_found :
    (a : ℕ) (os ps : List Object) {o : Object}
    → shapes os ≡ shapes ps
    → find_object a os ≡ some o
    → (p : Object) × (find_object a ps ≡ some p) × (shape o ≡ shape p)
same_found a os ps {o} e h = elim (Option-cases (find_object a ps)) [
  | inl x ↦ absurd (cc (find-shapes a os h, find-shapes-none a ps x, e))
  | inr (p, x) ↦ (p, x, cc (find-shapes a os h, find-shapes a ps x, e))
]

pub same_missing :
    (a : ℕ) (os ps : List Object)
    → shapes os ≡ shapes ps
    → find_object a os ≡ none
    → find_object a ps ≡ none
same_missing a os ps e h = elim (Option-cases (find_object a ps)) [
  | inl x ↦ x
  | inr (p, x) ↦ absurd (cc (find-shapes-none a os h, find-shapes a ps x, e))
]

pub shapes-mark_at : (a : ℕ) (os : List Object) → shapes (mark_at a os) ≡ shapes os
unfolding mark_at shapes
shapes-mark_at a [] = refl
shapes-mark_at a (o ∷ os) = elim (Bool-cases (o.address == a)) [
  | inl x ↦ rw x (ap (◌∷◌ (shape o)) (shapes-mark_at a os))
  | inr x ↦ rw x (ap (◌∷◌ (shape o)) (shapes-mark_at a os))
]

pub mark_at-append :
    (a : ℕ) (xs ys : List Object) → mark_at a (xs ++ ys) ≡ mark_at a xs ++ mark_at a ys
unfolding mark_at
mark_at-append a [] ys = refl
mark_at-append a (x ∷ xs) ys =
    ap (λ r. (if x.address == a then record x { marked = true } else x) ∷ r)
      (mark_at-append a xs ys)

pub objects-set_mark : (a : ℕ) (h : Heap) → objects (set_mark a h) ≡ mark_at a (objects h)
objects-set_mark a h = sym (mark_at-append a h.nursery h.tenured)

pub find-mark_at :
    (a b : ℕ) (os : List Object) {o : Object}
    → find_object b os ≡ some o
    → find_object b (mark_at a os) ≡ some (if b == a then record o { marked = true } else o)
unfolding find_object mark_at
find-mark_at a b [] h = absurd (cc h)
find-mark_at a b (x ∷ os) {o} h = elim (Bool-cases (x.address == b)) [
  | inl y ↦
      let e : x ≡ o = cc (rw (y, find_object) at h) in
      let same : x.address ≡ b = (==_iff x.address b).0 y in
      elim (Bool-cases (b == a)) [
        | inl z ↦
            let w : (x.address == a) ≡ true = ap (λ n. n == a) same ∙ z in
            rw (w, y, z) (ap (λ u. some (painted u)) e)
        | inr z ↦
            let w : (x.address == a) ≡ false = ap (λ n. n == a) same ∙ z in rw (w, y, z) (ap some e)
      ]
  | inr y ↦ elim (Bool-cases (x.address == a)) [
    | inl z ↦ rw (z, y) (find-mark_at a b os (rw (y, find_object) at h))
    | inr z ↦ rw (z, y) (find-mark_at a b os (rw (y, find_object) at h))
  ]
]

pub unmarked-mark_at : (a : ℕ) (os : List Object) → unmarked (mark_at a os) ≤ unmarked os
unfolding unmarked mark_at
unmarked-mark_at a [] = omega arith
unmarked-mark_at a (o ∷ os) = ground (arith, unmarked-mark_at a os)

pub unmarked-mark_at_lt :
    (a : ℕ) (os : List Object) {o : Object}
    → find_object a os ≡ some o
    → o.marked ≡ false
    → unmarked (mark_at a os) + 1 ≤ unmarked os
unfolding unmarked mark_at find_object
unmarked-mark_at_lt a [] h m = absurd (cc h)
unmarked-mark_at_lt a (x ∷ os) {o} h m = elim (Bool-cases (x.address == a)) [
  | inl y ↦
      let e : x ≡ o = cc (rw (y, find_object) at h) in
      let w : x.marked ≡ false = ap (λ u. u.marked) e ∙ m in
      rw (y, w) (omega (arith, unmarked-mark_at a os))
  | inr y ↦ rw y (omega (arith, unmarked-mark_at_lt a os (rw (y, find_object) at h) m))
]

pub unmarked-zero :
    (a : ℕ) (os : List Object) {o : Object}
    → unmarked os ≡ 0
    → find_object a os ≡ some o
    → o.marked ≡ true
unfolding unmarked find_object
unmarked-zero a [] z h = absurd (cc h)
unmarked-zero a (x ∷ os) {o} z h = elim (Bool-cases (x.address == a)) [
  | inl y ↦
      let e : x ≡ o = cc (rw (y, find_object) at h) in
      let w : x.marked ≡ true = ground (arith, z) in sym (ap (λ u. u.marked) e) ∙ w
  | inr y ↦ unmarked-zero a os (ground (arith, z)) (rw (y, find_object) at h)
]

pub unmarked-le : (os : List Object) → unmarked os ≤ length os
unfolding unmarked
unmarked-le [] = omega arith
unmarked-le (o ∷ os) = ground (arith, unmarked-le os)

module _ (os : List Object) (a : ℕ) where
  pub is_marked_found : {o : Object} → find_object a os ≡ some o → is_marked os a ≡ o.marked
  is_marked_found h = rw (h, is_marked) refl

  pub is_marked_missing : find_object a os ≡ none → is_marked os a ≡ false
  is_marked_missing h = rw (h, is_marked) refl

  pub settled_found :
      (young : Bool) {o : Object}
      → find_object a os ≡ some o
      → settled young os a ≡ (o.marked || (young && o.old))
  settled_found young h = rw (h, settled) refl

  pub settled_missing : (young : Bool) → find_object a os ≡ none → settled young os a ≡ true
  settled_missing young h = rw (h, settled) refl

  pub is_marked_object :
      is_marked os a ≡ true → (o : Object) × (find_object a os ≡ some o) × (o.marked ≡ true)
  is_marked_object h = elim (Option-cases (find_object a os)) [
    | inl x ↦ absurd (cc (is_marked_missing x, h))
    | inr (o, x) ↦ (o, x, sym (is_marked_found x) ∙ h)
  ]

  pub settled_marked : (young : Bool) → is_marked os a ≡ true → settled young os a ≡ true
  settled_marked young h =
      let (o, x, m) = is_marked_object h in ground (arith, settled_found young x, m)

-- the marks behind `mark_at` at an object
pub is_marked-mark_at :
    (a b : ℕ) (os : List Object) {o : Object}
    → find_object a os ≡ some o
    → is_marked (mark_at a os) b ≡ ((b == a) || is_marked os b)
is_marked-mark_at a b os h = elim (Option-cases (find_object b os)) [
  | inl x ↦
      let gone = same_missing b os (mark_at a os) (sym (shapes-mark_at a os)) x in
      elim (Bool-cases (b == a)) [
        | inl y ↦ let e : b ≡ a = (==_iff b a).0 y in absurd (cc (e, x, h))
        | inr y ↦ is_marked_missing (mark_at a os) b gone ∙ sym (rw y (is_marked_missing os b x))
      ]
  | inr (u, x) ↦
      let here = is_marked_found (mark_at a os) b (find-mark_at a b os x) in
      let was = is_marked_found os b x in
      elim (Bool-cases (b == a)) [ inl y ↦ rw (here, y) refl | inr y ↦ rw (here, was, y) refl ]
]
