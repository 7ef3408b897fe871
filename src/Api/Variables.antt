-- ===== src/Api/Variables.antt =====
-- `setGlobal` and `getGlobal` of src/vm.h, on the map and on the flat vector.
use bbl.Prelude.{
  ℕ, ◌%◌, ◌^◌, take, zero, suc, ◌+◌, ◌-◌, ◌≤◌, ◌<◌, ◌≡◌, ◌≢◌, refl, sym, ap, ◌∙◌, true, false, ◌&&◌,
  ltb, leb, ◌==◌, if◌then◌else◌, Option, some, List, [], ◌∷◌, ◌++◌, length, get_or, set, replicate,
  arith, Bool-cases, inl, inr, ==_iff, length-append, length-replicate, get_or-set_self,
  get_or-set_ne, get_or-append, get_or_past,
}
use bbl.Value.{tag_null}
use bbl.Api.{Globals, resize, lookup, assign, set_global, get_global}

pub lookup-assign_self : (i v : ℕ) (m : List (ℕ × ℕ)) → lookup i (assign i v m) ≡ some v
unfolding lookup assign
lookup-assign_self i v [] = let here : (i == i) ≡ true = (==_iff i i).1 refl in rw here refl
lookup-assign_self i v ((k, w) ∷ m) = elim (Bool-cases (k == i)) [
  | inl z ↦ rw z (rw z refl)
  | inr z ↦ rw z (rw z (lookup-assign_self i v m))
]

pub lookup-assign_ne : (i j v : ℕ) (m : List (ℕ × ℕ)) → i ≢ j → lookup j (assign i v m) ≡ lookup j m
unfolding lookup assign
lookup-assign_ne i j v [] ne = let apart : (i == j) ≡ false = ground arith in rw apart refl
lookup-assign_ne i j v ((k, w) ∷ m) ne = elim (Bool-cases (k == i)) [
  | inl z ↦ let apart : (k == j) ≡ false = ground arith in rw z (rw apart refl)
  | inr z ↦ rw z (ap (λ r. if k == j then some w else r) (lookup-assign_ne i j v m ne))
]

take_past : (n : ℕ) (xs : List ℕ) → length xs ≤ n → take n xs ≡ xs
take_past zero [] h = refl
take_past zero (x ∷ xs) h = absurd (omega (arith, h))
take_past (suc n) [] h = refl
take_past (suc n) (x ∷ xs) h = ap (λ l. x ∷ l) (take_past n xs (omega (arith, h)))

-- a `resize` that does not shrink, where `symId + 1` does not wrap around
resize_more :
    (i : ℕ) (flat : List ℕ)
    → i + 1 < 2 ^ 32
    → length flat ≤ i
    → resize ((i + 1) % 2 ^ 32) flat ≡ flat ++ replicate (i + 1 - length flat) tag_null
unfolding resize
resize_more i flat small more =
    let whole : (i + 1) % 2 ^ 32 ≡ i + 1 = omega (arith, small) in
    let all : take (i + 1) flat ≡ flat = take_past (i + 1) flat (omega (arith, more)) in
    rw whole (rw all refl)

-- the vector behind a `setGlobal`
abbrev grown : ℕ → List ℕ → List ℕ
grown i flat =
    if leb (length flat) i then flat ++ replicate (i + 1 - length flat) tag_null else flat

length-grown : (i : ℕ) (flat : List ℕ) → i < length (grown i flat)
length-grown i flat = elim (Bool-cases (leb (length flat) i)) [
  | inl z ↦ rw z (
      ground (
        arith,
        length-append flat (replicate (i + 1 - length flat) tag_null),
        length-replicate (i + 1 - length flat) tag_null,
      ))
  | inr z ↦ rw z (ground arith)
]

get_or-grown :
    (i j : ℕ) (flat : List ℕ) → j < length flat → get_or (grown i flat) j 0 ≡ get_or flat j 0
get_or-grown i j flat h = elim (Bool-cases (leb (length flat) i)) [
  | inl z ↦ rw z (get_or-append flat (replicate (i + 1 - length flat) tag_null) j 0 h)
  | inr z ↦ rw z refl
]

length-grown_same : (i : ℕ) (flat : List ℕ) → i < length flat → length (grown i flat) ≡ length flat
length-grown_same i flat h = let room : leb (length flat) i ≡ false = ground arith in rw room refl

length-grown_more : (i : ℕ) (flat : List ℕ) → length flat ≤ i → length (grown i flat) ≡ i + 1
length-grown_more i flat h =
    let short : leb (length flat) i ≡ true = ground arith in
    rw short (
      omega (
        arith,
        length-append flat (replicate (i + 1 - length flat) tag_null),
        length-replicate (i + 1 - length flat) tag_null,
      ))

get_or-append_past :
    (xs ys : List ℕ) (j : ℕ) → length xs ≤ j → get_or (xs ++ ys) j 0 ≡ get_or ys (j - length xs) 0
get_or-append_past [] ys j h = ap (λ k. get_or ys k 0) (omega arith)
get_or-append_past (x ∷ xs) ys zero h = absurd (omega arith)
get_or-append_past (x ∷ xs) ys (suc j) h =
    get_or-append_past xs ys j (omega arith) ∙ ap (λ k. get_or ys k 0) (omega arith)

get_or-replicate_in : (n j : ℕ) → j < n → get_or (replicate n tag_null) j 0 ≡ tag_null
get_or-replicate_in zero j h = absurd (omega arith)
get_or-replicate_in (suc n) zero h = refl
get_or-replicate_in (suc n) (suc j) h = get_or-replicate_in n j (omega arith)

-- what fills the gap up
get_or-grown_gap :
    (i j : ℕ) (flat : List ℕ) → length flat ≤ j → j ≤ i → get_or (grown i flat) j 0 ≡ tag_null
get_or-grown_gap i j flat h k =
    let short : leb (length flat) i ≡ true = ground arith in
    rw short (
      get_or-append_past flat (replicate (i + 1 - length flat) tag_null) j h
      ∙ get_or-replicate_in (i + 1 - length flat) (j - length flat) (omega arith))

-- the flat vector decides where it has a pattern that is not zero
abbrev pick : ℕ → Option ℕ → Option ℕ
pick v o = if v == 0 then o else some v

get_global-pick :
    (j : ℕ) (g : Globals) → get_global j g ≡ pick (get_or g.flat j 0) (lookup j g.by_id)
unfolding get_global
get_global-pick j g = elim (Bool-cases (ltb j (length g.flat))) [
  | inl z ↦
      rw z (elim (Bool-cases (get_or g.flat j 0 == 0)) [ inl y ↦ rw y refl | inr y ↦ rw y refl ])
  | inr z ↦ rw z (sym (ap (λ v. pick v (lookup j g.by_id)) (get_or_past g.flat j 0 (ground arith))))
]

pick_self : (v : ℕ) → pick v (some v) ≡ some v
pick_self v = elim (Bool-cases (v == 0)) [ inl z ↦ rw z refl | inr z ↦ rw z refl ]

-- what `setGlobal` leaves
set_global-grown :
    (i v : ℕ) (g : Globals)
    → i + 1 < 2 ^ 32
    → set_global i v g ≡ record { by_id = assign i v g.by_id; flat = set (grown i g.flat) i v }
unfolding set_global
set_global-grown i v g small = elim (Bool-cases (leb (length g.flat) i)) [
  | inl z ↦ rw (z, resize_more i g.flat small (ground arith)) refl
  | inr z ↦ rw z refl
]

read_self : (i v : ℕ) (g : Globals) → i + 1 < 2 ^ 32 → get_global i (set_global i v g) ≡ some v
read_self i v g small =
    ap (get_global i) (set_global-grown i v g small)
    ∙ get_global-pick i (record { by_id = assign i v g.by_id; flat = set (grown i g.flat) i v })
    ∙ ap (λ w. pick w (lookup i (assign i v g.by_id)))
        (get_or-set_self (grown i g.flat) i v 0 (length-grown i g.flat))
    ∙ ap (λ o. pick v o) (lookup-assign_self i v g.by_id)
    ∙ pick_self v

-- another variable reads what the vector has for it
read_other :
    (i j v w : ℕ) (g : Globals)
    → i + 1 < 2 ^ 32
    → i ≢ j
    → get_or (grown i g.flat) j 0 ≡ w
    → get_global j (set_global i v g) ≡ pick w (lookup j g.by_id)
read_other i j v w g small ne e =
    ap (get_global j) (set_global-grown i v g small)
    ∙ get_global-pick j (record { by_id = assign i v g.by_id; flat = set (grown i g.flat) i v })
    ∙ ap (λ o. pick (get_or (set (grown i g.flat) i v) j 0) o) (lookup-assign_ne i j v g.by_id ne)
    ∙ ap (λ u. pick u (lookup j g.by_id)) (get_or-set_ne (grown i g.flat) i j v 0 ne ∙ e)

get_or-grown_far :
    (i j : ℕ) (flat : List ℕ) → length flat ≤ j → i < j → get_or (grown i flat) j 0 ≡ 0
get_or-grown_far i j flat h k = elim (Bool-cases (leb (length flat) i)) [
  | inl z ↦ get_or_past (grown i flat) j 0 (omega (arith, length-grown_more i flat (ground arith)))
  | inr z ↦
      get_or_past (grown i flat) j 0 (omega (arith, length-grown_same i flat (ground arith), h))
]

-- What `getGlobal` reads of any variable behind a `setGlobal` of one whose index plus one is below
-- 2^32: the new value of that one; of one
-- that lies between the end of the vector and the one that is set, a null, whether it was ever set
-- or not; of every other, what it read before.
pub get_global-set_global :
    (i j v : ℕ) (g : Globals)
    → i + 1 < 2 ^ 32
    → get_global j (set_global i v g) ≡ (
        if j == i
        then some v
        else if leb (length g.flat) j && ltb j i
        then some tag_null
        else get_global j g)
get_global-set_global i j v g small = elim (Bool-cases (j == i)) [
  | inl z ↦
      rw z (ap (λ k. get_global k (set_global i v g)) ((==_iff j i).0 z) ∙ read_self i v g small)
  | inr z ↦
      let ne : i ≢ j = λ e. absurd (ground arith) in
      rw z (elim (Bool-cases (leb (length g.flat) j)) [
        | inr y ↦ rw y (
            read_other i j v (get_or g.flat j 0) g small ne (get_or-grown i j g.flat (ground arith))
            ∙ sym (get_global-pick j g))
        | inl y ↦ rw y (elim (Bool-cases (ltb j i)) [
          | inl x ↦ rw x (
              read_other i j v tag_null g small ne
                (get_or-grown_gap i j g.flat (ground arith) (ground arith)))
          | inr x ↦ rw x (
              read_other i j v 0 g small ne
                (get_or-grown_far i j g.flat (ground arith) (ground arith))
              ∙ sym (
                  get_global-pick j g
                  ∙ ap (λ u. pick u (lookup j g.by_id)) (get_or_past g.flat j 0 (ground arith))))
        ])
      ])
]
