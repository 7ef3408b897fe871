-- ===== src/Lexer/Strings.antt =====
-- `readString` of src/bbl.cpp: the literals that it accepts and what they mean.
use mathlib.Core.List.{append_assoc}
use bbl.Prelude.{
  ℕ, ◌+◌, ◌≡◌, refl, sym, ap, ◌∙◌, subst, Bool, true, false, ◌==◌, some, Option, [], ◌∷◌, ◌++◌,
  length, arith, Bool-cases, Option-cases, inl, inr, ==_iff,
}
use bbl.Prelude.Result.{ok, >>=-eq-ok, ok_injective}
use bbl.Lexer.{
  Bytes, Lexer, Scan, escape_of, string_loop, read_string, newlines, after, advance, string,
  TokenValue,
}

-- The byte behind a backslash, and the byte that the two stand for.
pub data Escapes : ℕ → ℕ → Type 0 where
  quote : Escapes b'"' b'"'
  backslash : Escapes b'\\' b'\\'
  newline : Escapes b'n' b'\n'
  tab : Escapes b't' b'\t'
  carriage_return : Escapes b'r' b'\r'
  zero_byte : Escapes b'0' 0

escape_of-Escapes : {c b : ℕ} → Escapes c b → escape_of c ≡ some b
unfolding escape_of
escape_of-Escapes quote = refl
escape_of-Escapes backslash = refl
escape_of-Escapes newline = refl
escape_of-Escapes tab = refl
escape_of-Escapes carriage_return = refl
escape_of-Escapes zero_byte = refl

one_of :
    {c b : ℕ} (k d : ℕ)
    → (c == k) ≡ true
    → ◌≡◌ {A = Option ℕ} (some d) (some b)
    → Escapes k d
    → Escapes c b
one_of {c} {b} k d x h e =
    let same : c ≡ k = (==_iff c k).0 x in
    let value : d ≡ b = ground (arith, h) in rw (same, ← value) e

Escapes-escape_of : (c b : ℕ) → escape_of c ≡ some b → Escapes c b
unfolding escape_of
Escapes-escape_of c b h = elim (Bool-cases (c == b'"')) [
  | inl x ↦ one_of b'"' b'"' x (rw (x, escape_of) at h) quote
  | inr x ↦ elim (Bool-cases (c == b'\\')) [
    | inl y ↦ one_of b'\\' b'\\' y (rw (x, y, escape_of) at h) backslash
    | inr y ↦ elim (Bool-cases (c == b'n')) [
      | inl z ↦ one_of b'n' b'\n' z (rw (x, y, z, escape_of) at h) newline
      | inr z ↦ elim (Bool-cases (c == b't')) [
        | inl u ↦ one_of b't' b'\t' u (rw (x, y, z, u, escape_of) at h) tab
        | inr u ↦ elim (Bool-cases (c == b'r')) [
          | inl v ↦ one_of b'r' b'\r' v (rw (x, y, z, u, v, escape_of) at h) carriage_return
          | inr v ↦ elim (Bool-cases (c == b'0')) [
            | inl w ↦ one_of b'0' 0 w (rw (x, y, z, u, v, w, escape_of) at h) zero_byte
            | inr w ↦ absurd (cc (rw (x, y, z, u, v, w, escape_of) at h))
          ]
        ]
      ]
    ]
  ]
]

-- The text between the quotes of a literal, and the bytes that it stands for.
pub data Writes : Bytes → Bytes → Type 0 where
  nothing : Writes [] []
  plain :
      (c : ℕ) {w v : Bytes}
      → (c == b'"') ≡ false
      → (c == b'\\') ≡ false
      → Writes w v
      → Writes (c ∷ w) (c ∷ v)
  escaped : (c b : ℕ) {w v : Bytes} → Escapes c b → Writes w v → Writes (b'\\' ∷ c ∷ w) (b ∷ v)

-- the lexer behind a literal's text and its closing quote
abbrev pub behind : ℕ → ℕ → Bytes → Bytes → Lexer
behind p l w rest = record { rest = rest; position = p + length w + 1; line = l + newlines w }

escape_line : (c b : ℕ) → escape_of c ≡ some b → newlines (b'\\' ∷ c ∷ []) ≡ 0
unfolding escape_of
escape_line c b h = ground (arith, h)

same_scan :
    (rest : Bytes) {v v' : Bytes} {p q l m : ℕ}
    → v ≡ v'
    → p ≡ q
    → l ≡ m
    → ◌≡◌ {A = Scan Bytes}
        (ok (v, record { rest = rest; position = p; line = l }))
        (ok (v', record { rest = rest; position = q; line = m }))
same_scan rest e f g = rw (e, f, g) refl

append_empty : (xs : Bytes) → xs ++ [] ≡ xs
append_empty [] = refl
append_empty (x ∷ xs) = ap (◌∷◌ x) (append_empty xs)

string_loop-Writes :
    (start p l : ℕ) (result rest : Bytes) {w v : Bytes}
    → Writes w v
    → string_loop start false result p l (w ++ b'"' ∷ rest) ≡ ok (result ++ v, behind p l w rest)
unfolding string_loop
string_loop-Writes start p l result rest nothing =
    same_scan rest (sym (append_empty result)) (omega arith) (omega arith)
string_loop-Writes start p l result rest (plain c {w} {v} x y more) =
    let tail = string_loop-Writes start (p + 1) (after l c) (result ++ c ∷ []) rest more in
    rw (x, y, tail) (same_scan rest (append_assoc result (c ∷ []) v) (omega arith) (ground arith))
string_loop-Writes start p l result rest (escaped c b {w} {v} e more) =
    let x = escape_of-Escapes e in
    let tail = string_loop-Writes start (p + 1 + 1) l (result ++ b ∷ []) rest more in
    rw (x, tail)
      (same_scan rest (append_assoc result (b ∷ []) v) (omega arith)
        (ground (arith, escape_line c b x)))

-- Every literal is read to what it stands for: a text that stands for some bytes, between quotes, is
-- read to the string of those bytes, and the lexer is then behind the closing quote, on the line that
-- the newlines of the text lead to.
pub read_string-Writes :
    (p l : ℕ) (rest : Bytes) {w v : Bytes}
    → Writes w v
    → read_string (record { rest = b'"' ∷ w ++ b'"' ∷ rest; position = p; line = l })
      ≡ ok (string v, behind (p + 1) l w rest)
unfolding read_string advance
read_string-Writes p l rest writes = rw (string_loop-Writes l (p + 1) l [] rest writes) refl

-- what an accepted text is, behind a backslash or not
abbrev pub Text : Bool → Bytes → Bytes → Type 0
Text true w v = Writes (b'\\' ∷ w) v
Text false w v = Writes w v

string_loop-Text :
    (start : ℕ) (escape : Bool) (result : Bytes) (p l : ℕ) (cs : Bytes) {r : Bytes} {s' : Lexer}
    → string_loop start escape result p l cs ≡ ok (r, s')
    → (w : Bytes) × (v : Bytes) × (cs ≡ w ++ b'"' ∷ s'.rest) × (r ≡ result ++ v) × Text escape w v
unfolding string_loop
string_loop-Text start true result p l [] h = absurd (cc h)
string_loop-Text start false result p l [] h = absurd (cc h)
string_loop-Text start true result p l (c ∷ cs) h = elim (Option-cases (escape_of c)) [
  | inl x ↦ absurd (cc (rw (x, string_loop) at h))
  | inr (b, x) ↦
      let (w, v, e, f, writes) =
        string_loop-Text start false (result ++ b ∷ []) (p + 1) l cs (rw (x, string_loop) at h) in
      (
        c ∷ w,
        b ∷ v,
        ap (◌∷◌ c) e,
        f ∙ append_assoc result (b ∷ []) v,
        escaped c b (Escapes-escape_of c b x) writes,
      )
]
string_loop-Text start false result p l (c ∷ cs) {r} {s'} h = elim (Bool-cases (c == b'"')) [
  | inl x ↦
      let same = ok_injective (rw (x, string_loop) at h) in
      let quote : c ≡ b'"' = (==_iff c b'"').0 x in
      (
        [],
        [],
        ap (λ n. n ∷ cs) quote ∙ ap (λ u. b'"' ∷ u.1.rest) same,
        sym (ap (λ u. u.0) same) ∙ sym (append_empty result),
        nothing,
      )
  | inr x ↦ elim (Bool-cases (c == b'\\')) [
    | inl y ↦
        let (w, v, e, f, writes) =
          string_loop-Text start true result (p + 1) l cs (rw (x, y, string_loop) at h) in
        let slash : c ≡ b'\\' = (==_iff c b'\\').0 y in
        (c ∷ w, v, ap (◌∷◌ c) e, f, subst (λ n. Writes (n ∷ w) v) (sym slash) writes)
    | inr y ↦
        let (w, v, e, f, writes) =
          string_loop-Text start false (result ++ c ∷ []) (p + 1) (after l c) cs
            (rw (x, y, string_loop) at h) in
        (c ∷ w, c ∷ v, ap (◌∷◌ c) e, f ∙ append_assoc result (c ∷ []) v, plain c x y writes)
  ]
]

-- Only literals are read: where `readString` at a quote gives a value, the source goes on with a text
-- that stands for some bytes and a closing quote, the value is the string of those bytes, and the
-- lexer is behind that quote.
pub Writes-read_string :
    (p l : ℕ) (cs : Bytes) {t : TokenValue} {s' : Lexer}
    → read_string (record { rest = b'"' ∷ cs; position = p; line = l }) ≡ ok (t, s')
    → (w : Bytes) × (v : Bytes) × Writes w v
      × (cs ≡ w ++ b'"' ∷ s'.rest)
      × (t ≡ string v)
      × (s' ≡ behind (p + 1) l w s'.rest)
unfolding read_string advance
Writes-read_string p l cs {t} {s'} h =
    let ((r, s₁), run, done) =
      >>=-eq-ok (string_loop l false [] (p + 1) l cs) (λ r. ok (string r.0, r.1)) h in
    let (w, v, e, f, writes) = string_loop-Text l false [] (p + 1) l cs run in
    let same = ok_injective done in
    let state : s₁ ≡ s' = ap (λ u. u.1) same in
    let again = string_loop-Writes l (p + 1) l [] s₁.rest writes in
    let place : s₁ ≡ behind (p + 1) l w s₁.rest =
      ap (λ u. u.1)
        (ok_injective
          (sym (subst (λ z. string_loop l false [] (p + 1) l z ≡ ok (r, s₁)) e run) ∙ again)) in
    (
      w,
      v,
      writes,
      e ∙ ap (λ u. w ++ b'"' ∷ u.rest) state,
      sym (ap (λ u. u.0) same) ∙ ap string f,
      subst (λ u. u ≡ behind (p + 1) l w u.rest) state place,
    )
