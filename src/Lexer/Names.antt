-- ===== src/Lexer/Names.antt =====
-- Comparing byte strings, as src/bbl.cpp does of names.
use bbl.Prelude.{◌≡◌, refl, ap, ◌∙◌, true, ◌==◌, [], ◌∷◌, arith, Bool-cases, inl, inr, ==_iff}
use bbl.Lexer.{Bytes, bytes_eq}

pub bytes_eq_same : (a b : Bytes) → bytes_eq a b ≡ true → a ≡ b
unfolding bytes_eq
bytes_eq_same [] [] h = refl
bytes_eq_same [] (y ∷ ys) h = absurd (cc h)
bytes_eq_same (x ∷ xs) [] h = absurd (cc h)
bytes_eq_same (x ∷ xs) (y ∷ ys) h = elim (Bool-cases (x == y)) [
  | inl z ↦
      ap (λ k. k ∷ xs) ((==_iff x y).0 z) ∙ ap (λ l. y ∷ l) (bytes_eq_same xs ys (ground arith))
  | inr z ↦ absurd (ground arith)
]

pub bytes_eq_refl : (a : Bytes) → bytes_eq a a ≡ true
unfolding bytes_eq
bytes_eq_refl [] = refl
bytes_eq_refl (x ∷ xs) =
    let here : (x == x) ≡ true = (==_iff x x).1 refl in rw (here, bytes_eq_refl xs) refl
