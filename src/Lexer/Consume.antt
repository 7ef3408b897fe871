-- ===== src/Lexer/Consume.antt =====
-- What each part of `BblLexer` of src/bbl.cpp reads: a piece of the source, with the position and
-- the line advanced by its bytes and its newlines.
use mathlib.Core.List.{append_assoc}
use bbl.Prelude.{
  ℕ, ◌+◌, ◌≡◌, refl, sym, ap, subst, ◌∙◌, Bool, true, false, ◌&&◌, ◌==◌, some, [], ◌∷◌, ◌++◌,
  length, arith, length-append, Bool-cases, Option-cases, inl, inr,
}
use bbl.Prelude.Result.{ok}
use bbl.Lexer.{
  Bytes, Lexer, Scan, newlines, skip_loop, skip_whitespace_and_comments, string_loop, span, after,
  is_space, escape_of, peek,
}

pub ok_state :
    {A : Type 0} {v w : A} {s t : Lexer} → ◌≡◌ {A = Scan A} (ok (v, s)) (ok (w, t)) → s ≡ t
ok_state h = ground arith

pub ok_value :
    {A : Type 0} {v w : A} {s t : Lexer} → ◌≡◌ {A = Scan A} (ok (v, s)) (ok (w, t)) → v ≡ w
ok_value h = ground arith

-- `s'` is `s` after some bytes were read.
pub record Consumes (s s' : Lexer) : Type 0 where
  pub piece : Bytes
  pub splits : s.rest ≡ piece ++ s'.rest
  pub moves : s'.position ≡ s.position + length piece
  pub counts : s'.line ≡ s.line + newlines piece

pub Consumes-refl : (s : Lexer) → Consumes s s
Consumes-refl s = record { piece = []; splits = refl; moves = omega arith; counts = omega arith }

pub newlines-append : (xs ys : Bytes) → newlines (xs ++ ys) ≡ newlines xs + newlines ys
newlines-append [] ys = omega arith
newlines-append (x ∷ xs) ys = omega (arith, newlines-append xs ys)

pub Consumes-trans : {s t u : Lexer} → Consumes s t → Consumes t u → Consumes s u
Consumes-trans a b = record {
  piece = a.piece ++ b.piece;
  splits = a.splits ∙ ap (◌++◌ a.piece) b.splits ∙ sym (append_assoc a.piece b.piece _);
  moves = omega (arith, a.moves, b.moves, length-append a.piece b.piece);
  counts = omega (arith, a.counts, b.counts, newlines-append a.piece b.piece);
}

-- one byte in front of a piece
pub Consumes-cons :
    {p l : ℕ} {cs : Bytes} (c : ℕ) {s' : Lexer}
    → Consumes (record { rest = cs; position = p + 1; line = after l c }) s'
    → Consumes (record { rest = c ∷ cs; position = p; line = l }) s'
Consumes-cons c a = record {
  piece = c ∷ a.piece;
  splits = ap (◌∷◌ c) a.splits;
  moves = omega (arith, a.moves);
  counts = ground (arith, a.counts);
}

-- the start of `skip_loop` at a byte
abbrev at : ℕ → ℕ → Bytes → Lexer
at p l cs = record { rest = cs; position = p; line = l }

skip_loop-Consumes :
    (comment : Bool) (p l : ℕ) (cs : Bytes) → Consumes (at p l cs) (skip_loop comment p l cs)
unfolding skip_loop
skip_loop-Consumes comment p l [] = Consumes-refl (at p l [])
skip_loop-Consumes true p l (c ∷ cs) = elim (Bool-cases (c == b'\n')) [
  | inl x ↦ rw x (Consumes-cons c (rw x (skip_loop-Consumes false (p + 1) (l + 1) cs)))
  | inr x ↦ rw x (Consumes-cons c (rw x (skip_loop-Consumes true (p + 1) l cs)))
]
skip_loop-Consumes false p l (c ∷ cs) = elim (Bool-cases (is_space c)) [
  | inl x ↦ rw x (Consumes-cons c (skip_loop-Consumes false (p + 1) (after l c) cs))
  | inr x ↦ elim (Bool-cases (c == b'/' && peek cs == b'/')) [
    | inl y ↦
        let same : (c == b'\n') ≡ false = ground (arith, y) in
        rw (x, y) (Consumes-cons c (rw same (skip_loop-Consumes true (p + 1) l cs)))
    | inr y ↦ rw (x, y) (Consumes-refl (at p l (c ∷ cs)))
  ]
]

pub skip-Consumes : (s : Lexer) → Consumes s (skip_whitespace_and_comments s)
unfolding skip_whitespace_and_comments
skip-Consumes s = skip_loop-Consumes _ s.position s.line s.rest

escape_line : (c b : ℕ) → escape_of c ≡ some b → (c == b'\n') ≡ false
unfolding escape_of
escape_line c b h = ground (arith, h)

pub string_loop-Consumes :
    (start : ℕ) (escaped : Bool) (result : Bytes) (p l : ℕ) (cs : Bytes) {v : Bytes} {s' : Lexer}
    → string_loop start escaped result p l cs ≡ ok (v, s')
    → Consumes (at p l cs) s'
unfolding string_loop
string_loop-Consumes start true result p l [] h = absurd (cc h)
string_loop-Consumes start false result p l [] h = absurd (cc h)
string_loop-Consumes start true result p l (c ∷ cs) h = elim (Option-cases (escape_of c)) [
  | inl x ↦ absurd (cc (rw (x, string_loop) at h))
  | inr (b, x) ↦ Consumes-cons c (
      rw (escape_line c b x) (
        string_loop-Consumes start false (result ++ b ∷ []) (p + 1) l cs
          (rw (x, string_loop) at h)))
]
string_loop-Consumes start false result p l (c ∷ cs) {v} {s'} h = elim (Bool-cases (c == b'"')) [
  | inl x ↦
      let e : ◌≡◌ {A = Scan Bytes} (ok (result, at (p + 1) l cs)) (ok (v, s')) =
        rw (x, string_loop) at h in
      let line : (c == b'\n') ≡ false = ground (arith, x) in
      subst (Consumes (at p l (c ∷ cs))) (ok_state e)
        (Consumes-cons c (rw line (Consumes-refl (at (p + 1) l cs))))
  | inr x ↦ elim (Bool-cases (c == b'\\')) [
    | inl y ↦
        let line : (c == b'\n') ≡ false = ground (arith, y) in
        Consumes-cons c (
          rw line
            (string_loop-Consumes start true result (p + 1) l cs (rw (x, y, string_loop) at h)))
    | inr y ↦ Consumes-cons c (
        string_loop-Consumes start false (result ++ c ∷ []) (p + 1) (after l c) cs
          (rw (x, y, string_loop) at h))
  ]
]

-- bytes passed over by a test that no newline passes
pub span-append : (test : ℕ → Bool) (cs : Bytes) → (span test cs).0 ++ (span test cs).1 ≡ cs
unfolding span
span-append test [] = refl
span-append test (c ∷ cs) = elim (Bool-cases (test c)) [
  | inl x ↦ rw x (ap (◌∷◌ c) (span-append test cs))
  | inr x ↦ rw x refl
]

pub newlines-span :
    (test : ℕ → Bool) (cs : Bytes)
    → ((c : ℕ) → test c ≡ true → (c == b'\n') ≡ false)
    → newlines (span test cs).0 ≡ 0
unfolding span
newlines-span test [] keep = refl
newlines-span test (c ∷ cs) keep = elim (Bool-cases (test c)) [
  | inl x ↦ rw (x, keep c x) (omega (arith, newlines-span test cs keep))
  | inr x ↦ rw x refl
]
