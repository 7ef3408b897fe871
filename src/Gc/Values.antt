-- ===== src/Gc/Values.antt =====
-- The values in the two parts of a `BblTable` of src/bbl.h, all of which have a property.

use mathlib.Core.List.Memᴰ
use mathlib.Core.List.{Memᴰ}
use bbl.Prelude.{
  ℕ, zero, suc, ◌≡◌, refl, sym, subst, true, ◌==◌, List, [], ◌∷◌, ◌++◌, set, replicate, Bool-cases,
  inl, inr,
}
use bbl.Table.{Entry, empty_entry, is_occupied}
use bbl.Gc.{array_values, bucket_values}

abbrev pub Every : (ℕ → Type 0) → List ℕ → Type 0
Every P l = (w : ℕ) → Memᴰ w l → P w

module _ (P : ℕ → Type 0) where
  pub Every-nil : Every P []
  Every-nil w m = absurd (Memᴰ.not-nil m)

  pub Every-cons : (v : ℕ) (vs : List ℕ) → P v → Every P vs → Every P (v ∷ vs)
  Every-cons v vs p e w m = elim (Memᴰ.cases_cons m) [
    | inl same ↦ subst P (sym same) p
    | inr later ↦ e w later
  ]

  pub Every-head : (v : ℕ) (vs : List ℕ) → Every P (v ∷ vs) → P v
  Every-head v vs e = e v (Memᴰ.head refl)

  pub Every-tail : (v : ℕ) (vs : List ℕ) → Every P (v ∷ vs) → Every P vs
  Every-tail v vs e w m = e w (Memᴰ.tail m)

  pub Every-append : (xs ys : List ℕ) → Every P xs → Every P ys → Every P (xs ++ ys)
  Every-append xs ys a b w m = elim (Memᴰ.append_cases xs m) [ inl l ↦ a w l | inr r ↦ b w r ]

  pub Every-left : (xs ys : List ℕ) → Every P (xs ++ ys) → Every P xs
  Every-left xs ys e w m = e w (Memᴰ.append_left ys m)

  pub Every-right : (xs ys : List ℕ) → Every P (xs ++ ys) → Every P ys
  Every-right xs ys e w m = e w (Memᴰ.append_right xs m)

  pub array_values-cons :
      (v : ℕ) (vs : List ℕ) → P v → Every P (array_values vs) → Every P (array_values (v ∷ vs))
  unfolding array_values
  array_values-cons v vs p e = elim (Bool-cases (v == 0)) [
    | inl z ↦ rw z e
    | inr z ↦ rw z (Every-cons v (array_values vs) p e)
  ]

  pub array_values-tail :
      (v : ℕ) (vs : List ℕ) → Every P (array_values (v ∷ vs)) → Every P (array_values vs)
  unfolding array_values
  array_values-tail v vs = elim (Bool-cases (v == 0)) [
    | inl z ↦ rw z (λ e. e)
    | inr z ↦ rw z (λ e. Every-tail v (array_values vs) e)
  ]

  pub array_values-keep :
      (v : ℕ) (vs ws : List ℕ)
      → (Every P (array_values vs) → Every P (array_values ws))
      → Every P (array_values (v ∷ vs))
      → Every P (array_values (v ∷ ws))
  unfolding array_values
  array_values-keep v vs ws f = elim (Bool-cases (v == 0)) [
    | inl z ↦ rw z f
    | inr z ↦ rw z (λ e.
        Every-cons v (array_values ws) (Every-head v (array_values vs) e)
          (f (Every-tail v (array_values vs) e)))
  ]

  pub array_values-set :
      (vs : List ℕ) (k x : ℕ)
      → P x
      → Every P (array_values vs)
      → Every P (array_values (set vs k x))
  array_values-set [] k x p e = e
  array_values-set (v ∷ vs) zero x p e = array_values-cons x vs p (array_values-tail v vs e)
  array_values-set (v ∷ vs) (suc k) x p e =
      array_values-keep v vs (set vs k x) (array_values-set vs k x p) e

  pub array_values-zeros : (n : ℕ) → Every P (array_values (replicate n 0))
  unfolding array_values
  array_values-zeros zero = Every-nil
  array_values-zeros (suc n) = array_values-zeros n

  pub array_values-append :
      (vs : List ℕ) (n : ℕ)
      → Every P (array_values vs)
      → Every P (array_values (vs ++ replicate n 0))
  array_values-append [] n e = array_values-zeros n
  array_values-append (v ∷ vs) n e =
      array_values-keep v vs (vs ++ replicate n 0) (array_values-append vs n) e

  pub bucket_values-cons :
      (e : Entry) (es : List Entry)
      → P e.key
      → P e.val
      → Every P (bucket_values es)
      → Every P (bucket_values (e ∷ es))
  unfolding bucket_values
  bucket_values-cons e es k v h = elim (Bool-cases (is_occupied e)) [
    | inl z ↦
        rw z
          (Every-cons e.key (e.val ∷ bucket_values es) k (Every-cons e.val (bucket_values es) v h))
    | inr z ↦ rw z h
  ]

  pub bucket_values-here :
      (e : Entry) (es : List Entry)
      → is_occupied e ≡ true
      → Every P (bucket_values (e ∷ es))
      → P e.key × P e.val
  unfolding bucket_values
  bucket_values-here e es z = rw z (λ h. (
    Every-head e.key (e.val ∷ bucket_values es) h,
    Every-head e.val (bucket_values es) (Every-tail e.key (e.val ∷ bucket_values es) h),
  ))

  pub bucket_values-keep :
      (e : Entry) (es fs : List Entry)
      → (Every P (bucket_values es) → Every P (bucket_values fs))
      → Every P (bucket_values (e ∷ es))
      → Every P (bucket_values (e ∷ fs))
  unfolding bucket_values
  bucket_values-keep e es fs f = elim (Bool-cases (is_occupied e)) [
    | inl z ↦ rw z (λ h.
        let after = Every-tail e.key (e.val ∷ bucket_values es) h in
        Every-cons e.key (e.val ∷ bucket_values fs) (Every-head e.key (e.val ∷ bucket_values es) h)
          (Every-cons e.val (bucket_values fs) (Every-head e.val (bucket_values es) after)
            (f (Every-tail e.val (bucket_values es) after))))
    | inr z ↦ rw z f
  ]

  pub bucket_values-tail :
      (e : Entry) (es : List Entry) → Every P (bucket_values (e ∷ es)) → Every P (bucket_values es)
  unfolding bucket_values
  bucket_values-tail e es = elim (Bool-cases (is_occupied e)) [
    | inl z ↦
        rw z
          (λ h. Every-tail e.val (bucket_values es) (Every-tail e.key (e.val ∷ bucket_values es) h))
    | inr z ↦ rw z (λ h. h)
  ]

  pub bucket_values-set :
      (es : List Entry) (p : ℕ) (e : Entry)
      → P e.key
      → P e.val
      → Every P (bucket_values es)
      → Every P (bucket_values (set es p e))
  bucket_values-set [] p e k v h = h
  bucket_values-set (d ∷ es) zero e k v h = bucket_values-cons e es k v (bucket_values-tail d es h)
  bucket_values-set (d ∷ es) (suc p) e k v h =
      bucket_values-keep d es (set es p e) (bucket_values-set es p e k v) h

  pub bucket_values-empty : (n : ℕ) → Every P (bucket_values (replicate n empty_entry))
  unfolding bucket_values
  bucket_values-empty zero = Every-nil
  bucket_values-empty (suc n) = bucket_values-empty n
