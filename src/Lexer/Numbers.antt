-- ===== src/Lexer/Numbers.antt =====
-- `readNumber`, `readBinary` and `readCompressedBinary` of src/bbl.cpp read a piece of the source.
use mathlib.Core.List.{append_assoc}
use bbl.Prelude.{
  ℕ, suc, ◌+◌, ◌≤◌, ◌<◌, ◌≡◌, refl, sym, ap, subst, ◌∙◌, Bool, true, false, ◌&&◌, ◌||◌, ◌==◌, leb,
  if◌then◌else◌, Option, [], ◌∷◌, ◌++◌, length, drop, take, arith, length-append, take-append-drop,
  length-take, Bool-cases, Option-cases, inl, inr,
}
use bbl.Prelude.Result.{ok}
use bbl.Lexer.{
  Bytes, Lexer, TokenValue, newlines, span, moved, peek, peek_next, read_binary, read_decimal,
  read_number, is_digit, is_operator_char, is_symbol_char, is_symbol_start, int_from_chars, stoull,
}
use bbl.Lexer.Consume.{Consumes, newlines-append, span-append, newlines-span, ok_state}

-- `s'` is `s` after at least one byte was read.
abbrev pub Reads : Lexer → Lexer → Type 0
Reads s s' = Consumes s s' × (s.position < s'.position)

-- Bytes with no newline that were passed over by `pos++`.
pub passed :
    (s : Lexer) (xs ys : Bytes) (n : ℕ)
    → s.rest ≡ xs ++ ys
    → newlines xs ≡ 0
    → n ≡ length xs
    → Consumes s (moved s n ys)
passed s xs ys n e none_of len = record {
  piece = xs;
  splits = e;
  moves = omega (arith, len);
  counts = omega (arith, none_of);
}

digit_line : (c : ℕ) → is_digit c ≡ true → (c == b'\n') ≡ false
unfolding is_digit
digit_line c h = ground (arith, h)

pub operator_line : (c : ℕ) → is_operator_char c ≡ true → (c == b'\n') ≡ false
unfolding is_operator_char
operator_line c h = ground (arith, h)

pub symbol_line : (c : ℕ) → is_symbol_char c ≡ true → (c == b'\n') ≡ false
unfolding is_symbol_char is_symbol_start
symbol_line c h = ground (arith, h)

-- a byte that `peek` shows
peek-drop : (c : ℕ) (xs : Bytes) → (peek xs == suc c) ≡ true → xs ≡ suc c ∷ drop 1 xs
unfolding peek
peek-drop c [] h = absurd (ground (arith, h))
peek-drop c (x ∷ xs) h = let e : x ≡ suc c = ground (arith, h) in rw e refl

-- a literal `0b` or `0z` with its content
binary_body :
    (s : Lexer) (c d : ℕ) (ds content : Bytes) (size : ℕ)
    → s.rest ≡ c ∷ d ∷ ds ++ b':' ∷ content
    → (c == b'\n') ≡ false
    → (d == b'\n') ≡ false
    → newlines ds ≡ 0
    → size ≤ length content
    → Consumes s (record {
      rest = drop size content;
      position = s.position + 2 + length ds + 1 + size;
      line = s.line + newlines (take size content);
    })
binary_body s c d ds content size e x y h b =
    let piece = ds ++ b':' ∷ take size content in
    record {
      piece = c ∷ d ∷ piece;
      splits =
          e
          ∙ ap (λ r. c ∷ d ∷ r)
              (ap (λ r. ds ++ b':' ∷ r) (sym (take-append-drop size content))
                ∙ sym (append_assoc ds (b':' ∷ take size content) (drop size content)));
      moves =
          omega (arith, length-append ds (b':' ∷ take size content), length-take size content b);
      counts = rw (x, y) (omega (arith, h, newlines-append ds (b':' ∷ take size content)));
    }

binary-Reads :
    (compressed : Bool) (s : Lexer) (c d : ℕ) (cs : Bytes) {v : TokenValue} {s' : Lexer}
    → s.rest ≡ c ∷ d ∷ cs
    → (c == b'\n') ≡ false
    → (d == b'\n') ≡ false
    → read_binary compressed s ≡ ok (v, s')
    → Reads s s'
unfolding read_binary
binary-Reads compressed s c d cs e x y h =
    let ds = (span is_digit (drop 2 s.rest)).0 in
    let behind = (span is_digit (drop 2 s.rest)).1 in
    elim (Bool-cases (peek behind == b':')) [
      | inr z ↦ absurd (cc (rw (z, read_binary) at h))
      | inl z ↦
          let layout : s.rest ≡ c ∷ d ∷ ds ++ b':' ∷ drop 1 behind =
            e
            ∙ ap (λ r. c ∷ d ∷ r)
                (sym (ap (drop 2) e)
                  ∙ sym (span-append is_digit (drop 2 s.rest))
                  ∙ ap (◌++◌ ds) (peek-drop 57 behind z)) in
          elim (Option-cases (stoull ds)) [
            | inl w ↦ absurd (cc (rw (z, w, read_binary) at h))
            | inr (size, w) ↦ elim (Bool-cases (leb size 100_000_000)) [
              | inr a ↦ absurd (cc (rw (z, w, a, read_binary) at h))
              | inl a ↦ elim (Bool-cases (leb size (length (drop 1 behind)))) [
                | inr b ↦ absurd (cc (rw (z, w, a, b, read_binary) at h))
                | inl b ↦ subst (Reads s) (ok_state (rw (z, w, a, b, read_binary) at h)) (
                  binary_body s c d ds (drop 1 behind) size layout x y
                      (newlines-span is_digit (drop 2 s.rest) digit_line) (ground (arith, b)),
                  omega arith,
                )
              ]
            ]
          ]
    ]

digit_zero : is_digit 0 ≡ false
unfolding is_digit
digit_zero = refl

-- an optional sign in front of bytes
abbrev signed_by : Bool → Bytes → Bytes
signed_by negative xs = if negative then b'-' ∷ xs else xs

signed_by-append :
    (negative : Bool) (xs ys : Bytes) → signed_by negative (xs ++ ys) ≡ signed_by negative xs ++ ys
signed_by-append true xs ys = refl
signed_by-append false xs ys = refl

newlines-signed_by :
    (negative : Bool) (xs : Bytes) → newlines xs ≡ 0 → newlines (signed_by negative xs) ≡ 0
newlines-signed_by true xs h = omega (arith, h)
newlines-signed_by false xs h = h

-- a test that the first byte passes, and the end of the source does not
pub span_some :
    (test : ℕ → Bool) (cs : Bytes)
    → test (peek cs) ≡ true
    → test 0 ≡ false
    → 0 < length (span test cs).0
unfolding span peek
span_some test [] h k = absurd (cc (h, k))
span_some test (c ∷ cs) h k = rw h (omega arith)

decimal-Reads :
    (convert : Bytes → Option ℕ) (negative : Bool) (body : Bytes) (s : Lexer) {v : TokenValue}
    {s' : Lexer}
    → s.rest ≡ signed_by negative body
    → 0 < length (signed_by negative (span is_digit body).0)
    → read_decimal convert negative body s ≡ ok (v, s')
    → Reads s s'
unfolding read_decimal
decimal-Reads convert negative body s e some_of h =
    let ds = (span is_digit body).0 in
    let behind = (span is_digit body).1 in
    let signed = signed_by negative ds in
    let layout : s.rest ≡ signed ++ behind =
      e
      ∙ ap (signed_by negative) (sym (span-append is_digit body))
      ∙ signed_by-append negative ds behind in
    let none_of : newlines signed ≡ 0 =
      newlines-signed_by negative ds (newlines-span is_digit body digit_line) in
    elim (Bool-cases (peek behind == b'.' && is_digit (peek_next behind))) [
      | inl x ↦
          let fs = (span is_digit (drop 1 behind)).0 in
          let split : drop 1 behind ≡ fs ++ (span is_digit (drop 1 behind)).1 =
            sym (span-append is_digit (drop 1 behind)) in
          elim (Option-cases (convert (signed ++ b'.' ∷ fs))) [
            | inl w ↦ absurd (cc (rw (x, w, read_decimal) at h))
            | inr (f, w) ↦ subst (Reads s) (ok_state (rw (x, w, read_decimal) at h)) (
              passed s (signed ++ b'.' ∷ fs) _ _
                  (layout
                    ∙ ap (◌++◌ signed)
                        (peek-drop 45 behind (ground (arith, x)) ∙ ap (◌∷◌ b'.') split)
                    ∙ sym (append_assoc signed (b'.' ∷ fs) _))
                  (omega (
                    arith,
                    none_of,
                    newlines-append signed (b'.' ∷ fs),
                    newlines-span is_digit (drop 1 behind) digit_line,
                  ))
                  (omega (arith, length-append signed (b'.' ∷ fs))),
              omega arith,
            )
          ]
      | inr x ↦ elim (Option-cases (int_from_chars negative ds)) [
        | inl w ↦ absurd (cc (rw (x, w, read_decimal) at h))
        | inr (f, w) ↦
            subst (Reads s) (ok_state (rw (x, w, read_decimal) at h))
              (passed s signed behind _ layout none_of refl, omega (arith, some_of))
      ]
    ]

-- the first two bytes
peek-split :
    (c d : ℕ) (xs : Bytes)
    → (peek xs == suc c) ≡ true
    → (peek_next xs == suc d) ≡ true
    → xs ≡ suc c ∷ suc d ∷ drop 2 xs
unfolding peek_next peek
peek-split c d [] h k = absurd (ground (arith, h))
peek-split c d (x ∷ []) h k = absurd (ground (arith, k))
peek-split c d (x ∷ y ∷ xs) h k =
    let e : x ≡ suc c = ground (arith, h) in let f : y ≡ suc d = ground (arith, k) in rw (e, f) refl

number_digit : (c : ℕ) → (c == b'-' || is_digit c) ≡ true → (c == b'-') ≡ false → is_digit c ≡ true
number_digit c h k = ground (arith, h, k)

pub number-Reads :
    (convert : Bytes → Option ℕ) (s : Lexer) {v : TokenValue} {s' : Lexer}
    → (peek s.rest == b'-' || is_digit (peek s.rest)) ≡ true
    → read_number convert s ≡ ok (v, s')
    → Reads s s'
unfolding read_number
number-Reads convert s c h = elim (Bool-cases (peek s.rest == b'-')) [
  | inl x ↦
      decimal-Reads convert true (drop 1 s.rest) s (peek-drop 44 s.rest x) (omega arith)
        (rw (x, read_number) at h)
  | inr x ↦ elim (Bool-cases (peek s.rest == b'0' && peek_next s.rest == b'b')) [
    | inl y ↦
        binary-Reads false s b'0' b'b' (drop 2 s.rest)
          (peek-split 47 97 s.rest (ground (arith, y)) (ground (arith, y))) refl refl
          (rw (x, y, read_number) at h)
    | inr y ↦ elim (Bool-cases (peek s.rest == b'0' && peek_next s.rest == b'z')) [
      | inl z ↦
          binary-Reads true s b'0' b'z' (drop 2 s.rest)
            (peek-split 47 121 s.rest (ground (arith, z)) (ground (arith, z))) refl refl
            (rw (x, y, z, read_number) at h)
      | inr z ↦
          decimal-Reads convert false s.rest s refl
            (span_some is_digit s.rest (number_digit (peek s.rest) c x) digit_zero)
            (rw (x, y, z, read_number) at h)
    ]
  ]
]
