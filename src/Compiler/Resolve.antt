-- ===== src/Compiler/Resolve.antt =====
-- `resolveCapture` of src/compiler.cpp: which variable a captured one is.

use bbl.Prelude.{
  ℕ, ◌+◌, ◌%◌, ◌^◌, ◌<◌, ◌≡◌, refl, sym, ap, ◌∙◌, subst, true, ◌==◌, ltb, Option, none, some, List,
  [], ◌∷◌, ◌++◌, length, arith, Bool-cases, Option-cases, inl, inr,
}
use bbl.Prelude.Result.{Result, ok, ◌>>=◌, >>=-eq-ok, ok_injective}
use bbl.Compiler.{
  CompilerState, CompileError, CaptureInfo, find_capture, resolve_local, add_capture,
  resolve_capture,
}
use bbl.Compiler.Captures.{
  capture_at, capture_at-lt, outward, nearest, follow, IsBounded, AllBounded, KeepsEntries,
  KeepsVariables, Adds, add_capture-Adds,
}

byte : (n : ℕ) → n < 2 ^ 8 → n % 2 ^ 8 ≡ n
byte n h = omega arith

module _ {V : Type 0} where
  -- a captured variable that can be followed
  follow_entry :
      (cs outer : CompilerState V) (around : List (CompilerState V)) (i : ℕ) {v : ℕ × ℕ}
      → follow cs (outer ∷ around) i ≡ some v
      → (c : CaptureInfo) × (capture_at cs.captures i ≡ some c)
  unfolding follow
  follow_entry cs outer around i h = elim (Option-cases (capture_at cs.captures i)) [
    | inl x ↦ absurd (cc (rw (x, follow) at h))
    | inr (c, x) ↦ (c, x)
  ]

  follow-lt :
      (cs : CompilerState V) (around : List (CompilerState V)) (i : ℕ) {v : ℕ × ℕ}
      → follow cs around i ≡ some v
      → i < length cs.captures
  unfolding follow
  follow-lt cs [] i h = absurd (cc h)
  follow-lt cs (outer ∷ around) i h =
      let (c, at) = follow_entry cs outer around i h in capture_at-lt cs.captures i at

  -- What can be followed stays so when captures are added in front and further out.
  follow_keeps :
      (cs cs' outer outer' : CompilerState V) (around around' : List (CompilerState V))
      → KeepsEntries cs cs'
      → KeepsVariables outer around outer' around'
      → KeepsVariables cs (outer ∷ around) cs' (outer' ∷ around')
  unfolding follow
  follow_keeps cs cs' outer outer' around around' here there j v h =
      let (c, at) = follow_entry cs outer around j h in
      elim (Bool-cases (c.src_type == 0)) [
        | inl x ↦ rw (here j c at, x, follow) (rw (at, x, follow) at h)
        | inr x ↦ elim (Option-cases (follow outer around c.src_idx)) [
          | inl y ↦ absurd (cc (rw (at, x, y, follow) at h))
          | inr (w, y) ↦
              rw (here j c at, x, there c.src_idx w y, follow) (rw (at, x, y, follow) at h)
        ]
      ]

  -- what the answer of `resolveCapture` stands for
  abbrev pub denotes : CompilerState V → List (CompilerState V) → Option ℕ → Option (ℕ × ℕ)
  denotes cs around none = none
  denotes cs around (some i) = follow cs around i

  -- The answer of `resolveCapture` and the chain behind it.
  pub record Resolves (symbol_id : ℕ) (cs : CompilerState V) (around : List (CompilerState V))
      (r : Option ℕ × CompilerState V × List (CompilerState V)) : Type 0 where
    pub bounded : AllBounded (r.1 ∷ r.2)
    pub found : denotes r.1 r.2 r.0 ≡ nearest symbol_id around
    pub stands : (i : ℕ) → r.0 ≡ some i → (v : ℕ × ℕ) × (follow r.1 r.2 i ≡ some v)
    pub keeps : KeepsVariables cs around r.1 r.2

  -- the symbol is a variable of the next function
  local-Resolves :
      (symbol_id : ℕ) (cs outer : CompilerState V) (around : List (CompilerState V)) (reg i : ℕ)
      (cs' : CompilerState V)
      → AllBounded (outer ∷ around)
      → resolve_local symbol_id outer ≡ some reg
      → Adds 0 (reg % 2 ^ 8) cs i cs'
      → Resolves symbol_id cs (outer ∷ around) (some i, cs', outer ∷ around)
  unfolding follow nearest
  local-Resolves symbol_id cs outer around reg i cs' bounded x adds =
      let same = byte reg (bounded.0.bytes symbol_id reg x) in
      let here : follow cs' (outer ∷ around) i ≡ some (0, reg) =
        rw (adds.entry, same, follow) refl in
      record {
        bounded = (adds.bounded, bounded);
        found = rw (here, x, nearest) refl;
        stands = λ j e.
            let at : i ≡ j = cc e in
            ((0, reg), subst (λ n. follow cs' (outer ∷ around) n ≡ some (0, reg)) at here);
        keeps = follow_keeps cs cs' outer outer around around adds.keeps (λ j v e. e);
      }

  -- the symbol is a variable of a function further out
  further-Resolves :
      (symbol_id : ℕ) (cs outer : CompilerState V) (around : List (CompilerState V)) (c i : ℕ)
      (cs' outer' : CompilerState V) (around' : List (CompilerState V))
      → resolve_local symbol_id outer ≡ none
      → Resolves symbol_id outer around (some c, outer', around')
      → Adds 1 (c % 2 ^ 8) cs i cs'
      → Resolves symbol_id cs (outer ∷ around) (some i, cs', outer' ∷ around')
  unfolding follow nearest
  further-Resolves symbol_id cs outer around c i cs' outer' around' x further adds =
      let (v, at) = further.stands c refl in
      let same = byte c (omega (arith, follow-lt outer' around' c at, further.bounded.0.capped)) in
      let here : follow cs' (outer' ∷ around') i ≡ outward (some v) =
        rw (adds.entry, same, at, follow) refl in
      record {
        bounded = (adds.bounded, further.bounded);
        found = rw (here, x, nearest) (ap outward (sym at ∙ further.found));
        stands = λ j e.
            let there : i ≡ j = cc e in
            (
              (v.0 + 1, v.1),
              subst (λ n. follow cs' (outer' ∷ around') n ≡ outward (some v)) there here,
            );
        keeps = follow_keeps cs cs' outer outer' around around' adds.keeps further.keeps;
      }

  -- no function further out has the symbol
  nowhere-Resolves :
      (symbol_id : ℕ) (cs outer : CompilerState V) (around : List (CompilerState V))
      (outer' : CompilerState V) (around' : List (CompilerState V))
      → IsBounded cs
      → resolve_local symbol_id outer ≡ none
      → Resolves symbol_id outer around (none, outer', around')
      → Resolves symbol_id cs (outer ∷ around) (none, cs, outer' ∷ around')
  unfolding nearest
  nowhere-Resolves symbol_id cs outer around outer' around' bounded x further = record {
    bounded = (bounded, further.bounded);
    found = rw (x, nearest) (ap outward further.found);
    stands = λ j e. absurd (cc e);
    keeps = follow_keeps cs cs outer outer' around around' (λ j c e. e) further.keeps;
  }

  -- the rest of the body once the enclosing function has answered
  rest_of_Resolves :
      (symbol_id : ℕ) (cs outer : CompilerState V) (around : List (CompilerState V)) (f : Option ℕ)
      (outer' : CompilerState V) (around' : List (CompilerState V))
      {r : Option ℕ × CompilerState V × List (CompilerState V)}
      → IsBounded cs
      → resolve_local symbol_id outer ≡ none
      → Resolves symbol_id outer around (f, outer', around')
      → ◌≡◌ {A = Result CompileError (Option ℕ × CompilerState V × List (CompilerState V))}
          (elim f [
            | none ↦ ok (none, cs, outer' ∷ around')
            | some c ↦ add_capture 1 (c % 2 ^ 8) cs >>= λ a. ok (some a.0, a.1, outer' ∷ around')
          ])
          (ok r)
      → Resolves symbol_id cs (outer ∷ around) r
  rest_of_Resolves symbol_id cs outer around none outer' around' bounded x inner h =
      subst (Resolves symbol_id cs (outer ∷ around)) (ok_injective h)
        (nowhere-Resolves symbol_id cs outer around outer' around' bounded x inner)
  rest_of_Resolves symbol_id cs outer around (some c) outer' around' bounded x inner h =
      let ((i, cs'), adding, done) = >>=-eq-ok (add_capture 1 (c % 2 ^ 8) cs) _ h in
      subst (Resolves symbol_id cs (outer ∷ around)) (ok_injective done) (
        further-Resolves symbol_id cs outer around c i cs' outer' around' x inner
          (add_capture-Adds 1 (c % 2 ^ 8) cs bounded adding))

  -- An answer of `resolveCapture` is right: where captures are at most 255 in every function of the chain
  -- and registers are bytes, the index that is returned stands for the variable that the nearest
  -- enclosing function has under the symbol, and there is no index exactly if no enclosing function
  -- has one. The variables that captures stood for are those that they stand for behind it, and the
  -- bounds hold again.
  pub resolve_capture-Resolves :
      (symbol_id : ℕ) (cs : CompilerState V) (around : List (CompilerState V))
      {r : Option ℕ × CompilerState V × List (CompilerState V)}
      → AllBounded (cs ∷ around)
      → resolve_capture symbol_id cs around ≡ ok r
      → Resolves symbol_id cs around r
  unfolding resolve_capture nearest
  resolve_capture-Resolves symbol_id cs [] bounded h =
      subst (Resolves symbol_id cs []) (ok_injective h) (record {
        bounded = bounded;
        found = refl;
        stands = λ i e. absurd (cc e);
        keeps = λ j v e. e;
      })
  resolve_capture-Resolves symbol_id cs (outer ∷ around) bounded h =
      elim (Option-cases (resolve_local symbol_id outer)) [
        | inr (reg, x) ↦
            let run = rw (x, resolve_capture) at h in
            let ((i, cs'), adding, done) = >>=-eq-ok (add_capture 0 (reg % 2 ^ 8) cs) _ run in
            let adds = add_capture-Adds 0 (reg % 2 ^ 8) cs bounded.0 adding in
            subst (Resolves symbol_id cs (outer ∷ around)) (ok_injective done)
              (local-Resolves symbol_id cs outer around reg i cs' bounded.1 x adds)
        | inl x ↦
            let run = rw (x, resolve_capture) at h in
            let ((f, outer', around'), further, rest) =
              >>=-eq-ok (resolve_capture symbol_id outer around) _ run in
            let inner = resolve_capture-Resolves symbol_id outer around bounded.1 further in
            rest_of_Resolves symbol_id cs outer around f outer' around' bounded.0 x inner rest
      ]

  -- Every function of the chain has room for a capture.
  abbrev pub AllRoomy : List (CompilerState V) → Type 0
  AllRoomy [] = Unit {0}
  AllRoomy (cs ∷ around) = (length cs.captures < 255) × AllRoomy around

  add_capture_ok :
      (t d : ℕ) (cs : CompilerState V)
      → length cs.captures < 255
      → (i : ℕ) × (cs' : CompilerState V) × (add_capture t d cs ≡ ok (i, cs'))
  unfolding add_capture
  add_capture_ok t d cs h = elim (Option-cases (find_capture t d 0 cs.captures)) [
    | inr (j, x) ↦ (j, cs, rw (x, add_capture) refl)
    | inl x ↦
        let y : ltb (length cs.captures) 255 ≡ true = ground (arith, h) in
        (
          length cs.captures,
          record cs { captures = cs.captures ++ record { src_type = t; src_idx = d } ∷ [] },
          rw (x, y, add_capture) refl,
        )
  ]

  -- `resolveCapture` gives an answer, no error, where every function of the chain has fewer than 255
  -- captures.
  pub resolve_capture_ok :
      (symbol_id : ℕ) (cs : CompilerState V) (around : List (CompilerState V))
      → AllRoomy (cs ∷ around)
      → (r : Option ℕ × CompilerState V × List (CompilerState V)) × (resolve_capture symbol_id cs
            around
          ≡ ok r)
  unfolding resolve_capture
  resolve_capture_ok symbol_id cs [] roomy = (_, refl)
  resolve_capture_ok symbol_id cs (outer ∷ around) roomy =
      elim (Option-cases (resolve_local symbol_id outer)) [
        | inr (reg, x) ↦
            let (i, cs', adding) = add_capture_ok 0 (reg % 2 ^ 8) cs roomy.0 in
            ((some i, cs', outer ∷ around), rw (x, adding, resolve_capture) refl)
        | inl x ↦
            let ((f, outer', around'), further) =
              resolve_capture_ok symbol_id outer around roomy.1 in
            elim (Option-cases f) [
              | inl y ↦ ((none, cs, outer' ∷ around'), rw (x, further, y, resolve_capture) refl)
              | inr (c, y) ↦
                  let (i, cs', adding) = add_capture_ok 1 (c % 2 ^ 8) cs roomy.0 in
                  (
                    (some i, cs', outer' ∷ around'),
                    rw (x, further, y, adding, resolve_capture) refl,
                  )
            ]
      ]
