-- ===== src/Compiler/Captures.antt =====
-- The captures of src/compiler.cpp: what a captured variable stands for, and how captures are added.

use bbl.Prelude.{
  ℕ, zero, suc, ◌+◌, ◌^◌, ◌≤◌, ◌<◌, ◌≡◌, refl, subst, ◌&&◌, ◌==◌, ltb, if◌then◌else◌, Option, none,
  some, List, [], ◌∷◌, ◌++◌, length, arith, length-append, Bool-cases, Option-cases, inl, inr,
}
use bbl.Prelude.Result.{Result, ok, ok_injective}
use bbl.Compiler.{
  CompilerState, CompileError, CaptureInfo, find_capture, resolve_local, add_capture,
}

-- the capture at an index
abbrev pub capture_at : List CaptureInfo → ℕ → Option CaptureInfo
capture_at [] i = none
capture_at (c ∷ cs) zero = some c
capture_at (c ∷ cs) (suc i) = capture_at cs i

-- A variable of an enclosing function: how many functions out, and its register there.
abbrev pub outward : Option (ℕ × ℕ) → Option (ℕ × ℕ)
outward none = none
outward (some (level, r)) = some (level + 1, r)

module _ {V : Type 0} where
  -- the variable that the nearest enclosing function has under a symbol
  unfoldable pub nearest : ℕ → List (CompilerState V) → Option (ℕ × ℕ)
  nearest symbol_id [] = none
  nearest symbol_id (outer ∷ around) =
      let further = outward (nearest symbol_id around) in
      elim (resolve_local symbol_id outer) [ none ↦ further | some r ↦ some (0, r) ]

  -- the variable that a capture stands for, as a closure is made of it
  unfoldable pub follow : CompilerState V → List (CompilerState V) → ℕ → Option (ℕ × ℕ)
  follow cs [] i = none
  follow cs (outer ∷ around) i = elim (capture_at cs.captures i) [
    | none ↦ none
    | some c ↦
        let further = outward (follow outer around c.src_idx) in
        if c.src_type == 0 then some (0, c.src_idx) else further
  ]

  -- Captures are at most 255, and registers are bytes.
  pub record IsBounded (cs : CompilerState V) : Type 0 where
    pub capped : length cs.captures ≤ 255
    pub bytes : (symbol_id r : ℕ) → resolve_local symbol_id cs ≡ some r → r < 2 ^ 8

  abbrev pub AllBounded : List (CompilerState V) → Type 0
  AllBounded [] = Unit {0}
  AllBounded (cs ∷ around) = IsBounded cs × AllBounded around

capture_at-append :
    (xs ys : List CaptureInfo) (i : ℕ) {c : CaptureInfo}
    → capture_at xs i ≡ some c
    → capture_at (xs ++ ys) i ≡ some c
capture_at-append [] ys i h = absurd (cc h)
capture_at-append (x ∷ xs) ys zero h = h
capture_at-append (x ∷ xs) ys (suc i) h = capture_at-append xs ys i h

capture_at_last :
    (xs : List CaptureInfo) (c : CaptureInfo) → capture_at (xs ++ c ∷ []) (length xs) ≡ some c
capture_at_last [] c = refl
capture_at_last (x ∷ xs) c = capture_at_last xs c

pub capture_at-lt :
    (xs : List CaptureInfo) (i : ℕ) {c : CaptureInfo} → capture_at xs i ≡ some c → i < length xs
capture_at-lt [] i h = absurd (cc h)
capture_at-lt (x ∷ xs) zero h = omega arith
capture_at-lt (x ∷ xs) (suc i) h = omega (arith, capture_at-lt xs i h)

-- what `find_capture` finds, `k` behind the index it counts from
find_capture-some :
    (t d i : ℕ) (cs : List CaptureInfo) {j : ℕ}
    → find_capture t d i cs ≡ some j
    → (k : ℕ) × (j ≡ i + k) × (capture_at cs k ≡ some (record { src_type = t; src_idx = d }))
unfolding find_capture
find_capture-some t d i [] h = absurd (cc h)
find_capture-some t d i (c ∷ cs) {j} h = elim (Bool-cases (c.src_type == t && c.src_idx == d)) [
  | inl x ↦
      let at : some i ≡ some j = rw (x, find_capture) at h in
      let same_type : c.src_type ≡ t = ground (arith, x) in
      let same_idx : c.src_idx ≡ d = ground (arith, x) in
      (0, ground (arith, at), rw (← same_type, ← same_idx) refl)
  | inr x ↦
      let (k, e, at) = find_capture-some t d (i + 1) cs (rw (x, find_capture) at h) in
      (suc k, omega (arith, e), at)
]

module _ {V : Type 0} where
  abbrev pub KeepsEntries : CompilerState V → CompilerState V → Type 0
  KeepsEntries cs cs' =
      (j : ℕ) (c : CaptureInfo)
      → capture_at cs.captures j ≡ some c
      → capture_at cs'.captures j ≡ some c

  abbrev pub KeepsVariables :
      CompilerState V → List (CompilerState V) → CompilerState V → List (CompilerState V) → Type 0
  KeepsVariables cs around cs' around' =
      (j : ℕ) (v : ℕ × ℕ) → follow cs around j ≡ some v → follow cs' around' j ≡ some v

  -- The result of `add_capture`: the entry at the index, the entries before, and the bound.
  pub record Adds (t d : ℕ) (cs : CompilerState V) (i : ℕ) (cs' : CompilerState V) : Type 0 where
    pub entry : capture_at cs'.captures i ≡ some (record { src_type = t; src_idx = d })
    pub keeps : KeepsEntries cs cs'
    pub bounded : IsBounded cs'

  pub add_capture-Adds :
      (t d : ℕ) (cs : CompilerState V) {i : ℕ} {cs' : CompilerState V}
      → IsBounded cs
      → add_capture t d cs ≡ ok (i, cs')
      → Adds t d cs i cs'
  unfolding add_capture resolve_local
  add_capture-Adds t d cs {i} {cs'} bounded h =
      elim (Option-cases (find_capture t d 0 cs.captures)) [
        | inr (j, x) ↦
            let e : ◌≡◌ {A = Result CompileError (ℕ × CompilerState V)} (ok (j, cs)) (ok (i, cs')) =
              rw (x, add_capture) at h in
            let (k, at, here) = find_capture-some t d 0 cs.captures x in
            let same : k ≡ j = omega (arith, at) in
            subst (λ r. Adds t d cs r.0 r.1) (ok_injective e)
              (record {
                entry =
                    subst
                      (λ n. capture_at cs.captures n ≡ some (record { src_type = t; src_idx = d }))
                      same here;
                keeps = λ n c h. h;
                bounded = bounded;
              })
        | inl x ↦ elim (Bool-cases (ltb (length cs.captures) 255)) [
          | inr y ↦ absurd (cc (rw (x, y, add_capture) at h))
          | inl y ↦
              let c : CaptureInfo = record { src_type = t; src_idx = d } in
              subst (λ r. Adds t d cs r.0 r.1) (ok_injective (rw (x, y, add_capture) at h))
                (record {
                  entry = capture_at_last cs.captures c;
                  keeps = λ n e h. capture_at-append cs.captures (c ∷ []) n h;
                  bounded = record {
                    capped = ground (arith, y, length-append cs.captures (c ∷ []));
                    bytes = λ s r h. bounded.bytes s r h;
                  };
                })
        ]
      ]
