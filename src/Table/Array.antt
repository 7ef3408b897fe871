-- ===== src/Table/Array.antt =====
-- The array part of `BblTable`: growing it and writing to it.
use native.Mathlib.Nat.{pow-suc}
use bbl.Prelude.{
  ℕ, zero, suc, ◌+◌, ◌-◌, ◌*◌, ◌%◌, ◌^◌, ◌≤◌, ◌<◌, ◌≡◌, refl, not, ◌==◌, ltb, if◌then◌else◌, List,
  [], ◌∷◌, length, get_or, set, replicate, arith, Bool-cases, inl, inr, ◌⊎◌, ◌++◌, get_or-replicate,
}
use bbl.Table.{Table, asize, grow_size, array_grow}
use bbl.Table.Buckets.{to_nat}
use bbl.Table.Invariant.{filled}

-- The most values that the array part can get: `set` grows it for indices below 1000000 only, at
-- most fourfold at a time.
abbrev pub array_limit : ℕ
array_limit = 4000000

mul_mono : (a b p : ℕ) → a ≤ b → a * p ≤ b * p
mul_mono a b p h = grind arith

-- With enough rounds the size is large enough, and it never runs past four times the request.
grow_size_bounds :
    (fuel factor min_size size : ℕ)
    → 2 ≤ factor
    → factor ≤ 4
    → min_size ≤ 1000000
    → min_size ≤ size * 2 ^ fuel
    → (min_size ≤ grow_size fuel factor min_size size)
      × (size ≤ grow_size fuel factor min_size size)
      × ((grow_size fuel factor min_size size ≤ array_limit)
          ⊎ (grow_size fuel factor min_size size ≡ size))
unfolding grow_size
grow_size_bounds zero factor m s lo hi top enough = (omega arith, omega arith, inr refl)
grow_size_bounds (suc fuel) factor m s lo hi top enough = elim (Bool-cases (ltb s m)) [
  | inl x ↦
      let small : s < m = ground (arith, x) in
      let step : s * factor ≤ s * 4 = grind arith in
      let up : s * 2 ≤ s * factor = grind arith in
      let fits : s * factor % 2 ^ 32 ≡ s * factor = omega arith in
      let wide = mul_mono (s * 2) (s * factor) (2 ^ fuel) up in
      let enough' : m ≤ s * factor * 2 ^ fuel = omega (arith, rw pow-suc at enough) in
      let (big, grew, cap') = grow_size_bounds fuel factor m (s * factor) lo hi top enough' in
      rw (x, fits) (big, omega arith, inl (omega arith))
  | inr x ↦ rw x (ground (arith, x), omega arith, inr refl)
]

-- `arrayGrow` for an index below a million makes the index valid, adds only zeros, and keeps the
-- limit.
pub array_grow_lem :
    (t : Table) (m : ℕ)
    → m ≤ 1000000
    → asize t ≤ array_limit
    → (n : ℕ) × (array_grow t m ≡ record t { array = t.array ++ replicate n 0 })
      × (m ≤ asize t + n)
      × (asize t + n ≤ array_limit)
unfolding array_grow
array_grow_lem t m top limit =
    let start = if asize t == 0 then 4 else asize t in
    let factor = if ltb 1024 start then 4 else 2 in
    let lo : 2 ≤ factor = ground arith in
    let hi : factor ≤ 4 = ground arith in
    let pos : 1 ≤ start = ground arith in
    let above : asize t ≤ start = ground arith in
    let below : start ≤ array_limit = ground arith in
    let enough : m ≤ start * 2 ^ 32 = omega arith in
    let (big, grew, most) = grow_size_bounds 32 factor m start lo hi top enough in
    let fits : grow_size 32 factor m start ≤ array_limit = omega (arith, most) in
    (grow_size 32 factor m start - asize t, refl, omega arith, omega arith)

pub filled-append_zeros : (xs : List ℕ) (n : ℕ) → filled (xs ++ replicate n 0) ≡ filled xs
unfolding filled
filled-append_zeros [] zero = refl
filled-append_zeros [] (suc n) = omega (arith, filled-append_zeros [] n)
filled-append_zeros (x ∷ xs) n = omega (arith, filled-append_zeros xs n)

pub get_or-append_zeros : (xs : List ℕ) (n i : ℕ) → get_or (xs ++ replicate n 0) i 0 ≡ get_or xs i 0
get_or-append_zeros [] n i = get_or-replicate n i 0
get_or-append_zeros (x ∷ xs) n zero = refl
get_or-append_zeros (x ∷ xs) n (suc i) = get_or-append_zeros xs n i

pub filled-set :
    (xs : List ℕ) (i v : ℕ)
    → i < length xs
    → filled (set xs i v) + to_nat (not (get_or xs i 0 == 0)) ≡ filled xs + to_nat (not (v == 0))
unfolding filled
filled-set [] i v h = elim h [ ]
filled-set (x ∷ xs) zero v h = omega arith
filled-set (x ∷ xs) (suc i) v h = omega (arith, filled-set xs i v (omega arith))

pub filled-le : (xs : List ℕ) → filled xs ≤ length xs
unfolding filled
filled-le [] = omega arith
filled-le (x ∷ xs) = ground (arith, filled-le xs)
