-- ===== src/Lexer/Progress.antt =====
-- `nextToken` of src/bbl.cpp reads a piece of the source: where the token stands, and what is left.
use bbl.Prelude.{
  ℕ, Bool, ◌↔◌, ◌≡◌, refl, sym, ap, subst, ◌∙◌, true, false, ◌&&◌, ◌||◌, ◌==◌, Option, [], ◌∷◌,
  arith, Bool-cases, inl, inr, ◌⊎◌,
}
use bbl.Prelude.Result.{ok, >>=-eq-ok}
use bbl.Lexer.{
  Bytes, Lexer, Scan, Token, TokenValue, skip_whitespace_and_comments, string_loop, read_string,
  advance, peek, peek_next, string, read_symbol_or_keyword, read_token, next_token, is_digit,
  is_operator_char, is_symbol_char, is_symbol_start, eof,
}
use bbl.Lexer.Blanks.{Skips, IsShebang, skip_whitespace-Skips}
use bbl.Lexer.Consume.{
  Consumes, Consumes-trans, skip-Consumes, string_loop-Consumes, span-append, newlines-span,
  ok_state, ok_value,
}
use bbl.Lexer.Numbers.{Reads, passed, operator_line, symbol_line, number-Reads, span_some}

zero_ends : (is_operator_char 0 ≡ false) × (is_symbol_char 0 ≡ false)
unfolding is_operator_char is_symbol_char is_symbol_start
zero_ends = (refl, refl)

-- `readSymbolOrKeyword` at a byte that it accepts
word-Reads :
    (s : Lexer) {v : TokenValue} {s' : Lexer}
    → (is_operator_char (peek s.rest) || is_symbol_char (peek s.rest)) ≡ true
    → read_symbol_or_keyword s ≡ ok (v, s')
    → Reads s s'
unfolding read_symbol_or_keyword
word-Reads s c h =
    let none_of : (is_operator_char 0 ≡ false) × (is_symbol_char 0 ≡ false) = zero_ends in
    elim (Bool-cases (is_operator_char (peek s.rest))) [
      | inl x ↦ subst (Reads s) (ok_state (rw (x, read_symbol_or_keyword) at h)) (
        passed s _ _ _ (sym (span-append is_operator_char s.rest))
            (newlines-span is_operator_char s.rest operator_line) refl,
        omega (arith, span_some is_operator_char s.rest x none_of.0),
      )
      | inr x ↦ subst (Reads s) (ok_state (rw (x, read_symbol_or_keyword) at h)) (
        passed s _ _ _ (sym (span-append is_symbol_char s.rest))
            (newlines-span is_symbol_char s.rest symbol_line) refl,
        omega (arith, span_some is_symbol_char s.rest (ground (arith, c, x)) none_of.1),
      )
    ]

-- `advance` at a byte
advance-Reads : (s : Lexer) (c : ℕ) (cs : Bytes) → s.rest ≡ c ∷ cs → Reads s (advance s)
unfolding advance
advance-Reads s c cs e = rw e (
  record { piece = c ∷ []; splits = refl; moves = omega arith; counts = ground arith },
  omega arith,
)

single-Reads :
    (s : Lexer) (c : ℕ) (cs : Bytes) (w : TokenValue) {v : TokenValue} {s' : Lexer}
    → s.rest ≡ c ∷ cs
    → ◌≡◌ {A = Scan TokenValue} (ok (w, advance s)) (ok (v, s'))
    → Reads s s'
single-Reads s c cs w e h = subst (Reads s) (ok_state h) (advance-Reads s c cs e)

string-Reads :
    (s : Lexer) (c : ℕ) (cs : Bytes) {v : TokenValue} {s' : Lexer}
    → s.rest ≡ c ∷ cs
    → read_string s ≡ ok (v, s')
    → Reads s s'
unfolding read_string
string-Reads s c cs {s' = s'} e h =
    let s₁ = advance s in
    let ((b, t), run, done) =
      >>=-eq-ok (string_loop s.line false [] s₁.position s₁.line s₁.rest)
        (λ r. ok (string r.0, r.1)) h in
    let behind : Consumes s₁ s' =
      subst (Consumes s₁) (ok_state done)
        (string_loop-Consumes s.line false [] s₁.position s₁.line s₁.rest run) in
    let quote = advance-Reads s c cs e in
    (Consumes-trans quote.0 behind, omega (arith, quote.1, behind.moves))

dash_word :
    (c : ℕ)
    → (c == b'-' || is_operator_char c) ≡ true
    → (is_operator_char c || is_symbol_char c) ≡ true
unfolding is_symbol_char
dash_word c h = ground (arith, h)

symbol_word : (c : ℕ) → is_symbol_start c ≡ true → (is_operator_char c || is_symbol_char c) ≡ true
unfolding is_symbol_char
symbol_word c h = ground (arith, h)

token-Reads :
    (convert : Bytes → Option ℕ) (s : Lexer) (c : ℕ) (cs : Bytes) {v : TokenValue} {s' : Lexer}
    → s.rest ≡ c ∷ cs
    → read_token convert c s ≡ ok (v, s')
    → Reads s s'
unfolding read_token peek
token-Reads convert s c cs e h =
    let shown : peek s.rest ≡ c = ap peek e ∙ refl in
    elim (Bool-cases (c == b'(')) [
      | inl a ↦ single-Reads s c cs _ e (rw (a, read_token) at h)
      | inr a ↦ elim (Bool-cases (c == b')')) [
        | inl b ↦ single-Reads s c cs _ e (rw (a, b, read_token) at h)
        | inr b ↦ elim (Bool-cases (c == b'"')) [
          | inl d ↦ string-Reads s c cs e (rw (a, b, d, read_token) at h)
          | inr d ↦ elim (Bool-cases (c == b'-' && is_digit (peek_next s.rest))) [
            | inl f ↦
                number-Reads convert s (rw shown (ground (arith, f)))
                  (rw (a, b, d, f, read_token) at h)
            | inr f ↦ elim (Bool-cases (is_digit c)) [
              | inl g ↦
                  number-Reads convert s (rw shown (ground (arith, g)))
                    (rw (a, b, d, f, g, read_token) at h)
              | inr g ↦ elim (Bool-cases (c == b'-' || is_operator_char c)) [
                | inl i ↦
                    word-Reads s (rw shown (dash_word c i)) (rw (a, b, d, f, g, i, read_token) at h)
                | inr i ↦ elim (Bool-cases (c == b'.')) [
                  | inl j ↦ single-Reads s c cs _ e (rw (a, b, d, f, g, i, j, read_token) at h)
                  | inr j ↦ elim (Bool-cases (c == b':')) [
                    | inl k ↦ single-Reads s c cs _ e (rw (a, b, d, f, g, i, j, k, read_token) at h)
                    | inr k ↦ elim (Bool-cases (is_symbol_start c)) [
                      | inl l ↦
                          word-Reads s (rw shown (symbol_word c l))
                            (rw (a, b, d, f, g, i, j, k, l, read_token) at h)
                      | inr l ↦ absurd (cc (rw (a, b, d, f, g, i, j, k, l, read_token) at h))
                    ]
                  ]
                ]
              ]
            ]
          ]
        ]
      ]
    ]

rest_cases : (xs : Bytes) → (xs ≡ []) ⊎ ((c : ℕ) × (cs : Bytes) × (xs ≡ c ∷ cs))
rest_cases [] = inl refl
rest_cases (c ∷ cs) = inr (c, cs, refl)

-- Where a token stands: exactly the white space and the comments in front, and a `#!` line at the
-- front of the source, are passed up to the token's start and line; from there to its end the token
-- is read, at least one byte unless the source is at its end.
pub record IsPlaced (s : Lexer) (t : Token) (s' : Lexer) : Type 0 where
  pub start : Lexer
  pub skipped : Consumes s start
  pub blanks : (b : Bool) × ((b ≡ true) ↔ IsShebang s) × Skips b s.rest start.rest
  pub starts : t.source_start ≡ start.position
  pub on_line : t.line ≡ start.line
  pub ends : t.source_end ≡ s'.position
  pub reads : Reads start s' ⊎ ((s'.rest ≡ []) × (s' ≡ start) × (t.value ≡ eof))

-- A token that `nextToken` returns stands where its fields say, whatever the lexer was at: the lexer
-- behind it is the one before it with a piece of the source read: exactly the white space and the
-- comments in front (and a `#!` line, at position 0), up to the first byte that is neither a space
-- nor the start of a comment, then the bytes from the token's start to its end; its line is the line that its first byte is
-- on, counting newlines; and at least one byte is read from the start on, unless the token is the end
-- of the source.
pub next_token-IsPlaced :
    (convert : Bytes → Option ℕ) (s : Lexer) {t : Token} {s' : Lexer}
    → next_token convert s ≡ ok (t, s')
    → IsPlaced s t s'
unfolding next_token
next_token-IsPlaced convert s {t} {s'} h =
    let s₁ = skip_whitespace_and_comments s in
    elim (rest_cases s₁.rest) [
      | inl x ↦
          let e = rw (x, next_token) at h in
          let behind : s₁ ≡ s' = ok_state e in
          let value = ok_value e in
          record {
            start = s₁;
            skipped = skip-Consumes s;
            blanks = skip_whitespace-Skips s;
            starts = sym (ap (λ u. u.source_start) value);
            on_line = sym (ap (λ u. u.line) value);
            ends = sym (ap (λ u. u.source_end) value) ∙ ap (λ u. u.position) behind;
            reads =
                inr (ap (λ u. u.rest) (sym behind) ∙ x, sym behind, sym (ap (λ u. u.value) value));
          }
      | inr (c, cs, x) ↦
          let e = rw (x, next_token) at h in
          let ((v, u), run, done) = >>=-eq-ok (read_token convert c s₁) _ e in
          let value = ok_value done in
          record {
            start = s₁;
            skipped = skip-Consumes s;
            blanks = skip_whitespace-Skips s;
            starts = sym (ap (λ u. u.source_start) value);
            on_line = sym (ap (λ u. u.line) value);
            ends = sym (ap (λ u. u.source_end) value) ∙ ap (λ u. u.position) (ok_state done);
            reads = inl (subst (Reads s₁) (ok_state done) (token-Reads convert s₁ c cs x run));
          }
    ]
