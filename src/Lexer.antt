-- ===== src/Lexer.antt =====
-- src/bbl.cpp: `BblLexer`.
-- The source text is a list of bytes. A lexer holds what `src + pos` points to, the position and the
-- line: `rest` has `len - pos` bytes, so `pos >= len` is an empty rest. The conversion of a decimal
-- text to a double, `std::from_chars`, is a parameter; so is nothing else.
pub mod Blanks
pub mod Consume
pub mod Names
pub mod Numbers
pub mod Progress
pub mod Strings
pub mod Tests
use bbl.Prelude.{
  ℕ, zero, suc, ◌+◌, ◌-◌, ◌*◌, ◌^◌, Bool, true, false, not, ◌&&◌, ◌||◌, ltb, leb, ◌==◌,
  if◌then◌else◌, Option, none, some, List, [], ◌∷◌, ◌++◌, length, drop, take,
}
use bbl.Prelude.Int.{ℤ, pos, negsuc, sub_ℕ}
use bbl.Prelude.Result.{Result, ok, err, ◌>>=◌, ◌>>◌, require}

abbrev pub Bytes : Type 0
Bytes = List ℕ

pub record Lexer : Type 0 where
  pub rest : Bytes
  pub position : ℕ
  pub line : ℕ

-- `BblLexer::BblLexer`
abbrev pub new_lexer : Bytes → Lexer
new_lexer source = record { rest = source; position = 0; line = 1 }

-- `TokenType` with the fields that the type uses; a binary literal is the place of its bytes
pub data TokenValue : Type 0 where
  lparen rparen null dot colon eof : TokenValue
  int : ℤ → TokenValue
  float : ℕ → TokenValue
  string : Bytes → TokenValue
  symbol : Bytes → TokenValue
  bool : Bool → TokenValue
  binary : ℕ → ℕ → Bool → TokenValue

pub record Token : Type 0 where
  pub value : TokenValue
  pub line : ℕ
  pub source_start : ℕ
  pub source_end : ℕ

-- The errors, with the line that the message names; the flag of the last four tells a compressed
-- literal.
pub data LexError : Type 0 where
  unterminated_string : ℕ → LexError
  unknown_escape : ℕ → ℕ → LexError
  invalid_float invalid_integer : ℕ → LexError
  unexpected_character : ℕ → ℕ → LexError
  invalid_binary invalid_binary_size binary_too_large insufficient_bytes : Bool → ℕ → LexError

abbrev pub Scan : Type 0 → Type 0
Scan A = Result LexError (A × Lexer)

unfoldable pub peek : Bytes → ℕ
peek [] = 0
peek (c ∷ cs) = c

-- `peek` one further, where the source tests `pos + 1 < len && src[pos + 1] == …`
unfoldable pub peek_next : Bytes → ℕ
peek_next [] = 0
peek_next (c ∷ cs) = peek cs

abbrev pub after : ℕ → ℕ → ℕ
after line c = if c == b'\n' then line + 1 else line

-- `advance` on a lexer that is not at the end: the byte is `peek`
unfoldable pub advance : Lexer → Lexer
advance s = elim s.rest [
  | [] ↦ s
  | c ∷ cs ↦ record { rest = cs; position = s.position + 1; line = after s.line c }
]

unfoldable pub is_digit : ℕ → Bool
is_digit c = leb b'0' c && leb c b'9'

unfoldable pub is_space : ℕ → Bool
is_space c = c == b' ' || (c == b'\t' || (c == b'\n' || c == b'\r'))

-- The loops of `skipWhitespaceAndComments`; the flag tells that a comment is being skipped, which
-- ends before the end of its line.
unfoldable pub skip_loop : Bool → ℕ → ℕ → Bytes → Lexer
skip_loop comment p l [] = record { rest = []; position = p; line = l }
skip_loop true p l (c ∷ cs) =
    let stop = skip_loop false (p + 1) (l + 1) cs in
    let next = skip_loop true (p + 1) l cs in if c == b'\n' then stop else next
skip_loop false p l (c ∷ cs) =
    let space = skip_loop false (p + 1) (after l c) cs in
    let next = skip_loop true (p + 1) l cs in
    if is_space c
    then space
    else if c == b'/' && peek cs == b'/'
    then next
    else record { rest = c ∷ cs; position = p; line = l }

unfoldable pub skip_whitespace_and_comments : Lexer → Lexer
skip_whitespace_and_comments s =
    let shebang = s.position == 0 && (peek s.rest == b'#' && peek_next s.rest == b'!') in
    skip_loop shebang s.position s.line s.rest

-- the switch over the byte behind a backslash
unfoldable pub escape_of : ℕ → Option ℕ
escape_of c =
    if c == b'"'
    then some b'"'
    else if c == b'\\'
    then some b'\\'
    else if c == b'n'
    then some b'\n'
    else if c == b't'
    then some b'\t'
    else if c == b'r'
    then some b'\r'
    else if c == b'0'
    then some 0
    else none

-- The loop of `readString`; the flag tells that a backslash was read.
pub string_loop : ℕ → Bool → Bytes → ℕ → ℕ → Bytes → Scan Bytes
string_loop start escaped result p l [] = err (unterminated_string start)
string_loop start true result p l (c ∷ cs) = elim (escape_of c) [
  | none ↦ err (unknown_escape c start)
  | some b ↦ string_loop start false (result ++ b ∷ []) (p + 1) l cs
]
string_loop start false result p l (c ∷ cs) =
    let escape = string_loop start true result (p + 1) l cs in
    let plain = string_loop start false (result ++ c ∷ []) (p + 1) (after l c) cs in
    if c == b'"'
    then ok (result, record { rest = cs; position = p + 1; line = l })
    else if c == b'\\'
    then escape
    else plain

-- on a lexer at the opening quote
unfoldable pub read_string : Lexer → Scan TokenValue
read_string s =
    let s' = advance s in
    (string_loop s.line false [] s'.position s'.line s'.rest) >>= λ r. ok (string r.0, r.1)

-- a loop `while (pos < len && test(peek())) pos++;`: the bytes passed over, and the rest
unfoldable pub span : (ℕ → Bool) → Bytes → Bytes × Bytes
span test [] = ([], [])
span test (c ∷ cs) =
    let (before, behind) = span test cs in if test c then (c ∷ before, behind) else ([], c ∷ cs)

-- The lexer after `n` bytes that were passed over by `pos++`, with `rest` behind them.
abbrev pub moved : Lexer → ℕ → Bytes → Lexer
moved s n behind = record s { rest = behind; position = s.position + n }

-- the number that decimal digits write
unfoldable pub decimal : ℕ → Bytes → ℕ
decimal acc [] = acc
decimal acc (c ∷ cs) = decimal (acc * 10 + (c - b'0')) cs

-- `std::from_chars` to an `int64_t`, on an optional sign and digits
unfoldable pub int_from_chars : Bool → Bytes → Option ℤ
int_from_chars negative ds =
    let n = decimal 0 ds in
    if negative
    then (if leb n (2 ^ 63) then some (sub_ℕ 0 n) else none)
    else (if ltb n (2 ^ 63) then some (pos n) else none)

-- `std::stoull` on digits
unfoldable pub stoull : Bytes → Option ℕ
stoull [] = none
stoull (d ∷ ds) = let n = decimal 0 (d ∷ ds) in if ltb n (2 ^ 64) then some n else none

abbrev pub newlines : Bytes → ℕ
newlines [] = 0
newlines (c ∷ cs) = (if c == b'\n' then 1 else 0) + newlines cs

-- `readBinary` and `readCompressedBinary` differ in the flag, and in the text of the errors.
unfoldable pub read_binary : Bool → Lexer → Scan TokenValue
read_binary compressed s =
    let (ds, behind) = span is_digit (drop 2 s.rest) in
    do
      require (peek behind == b':') (invalid_binary compressed s.line)
      size ← elim (stoull ds) [ none ↦ err (invalid_binary_size compressed s.line) | some n ↦ ok n ]
      require (leb size 100_000_000) (binary_too_large compressed s.line)
      let content = drop 1 behind
      let start = s.position + 2 + length ds + 1
      require (leb size (length content)) (insufficient_bytes compressed s.line)
      ok (
        binary start size compressed,
        record {
          rest = drop size content;
          position = start + size;
          line = s.line + newlines (take size content);
        },
      )

module _ (float_from_chars : Bytes → Option ℕ) where
  -- the part of `readNumber` behind the tests for binary literals; `body` is behind the sign
  unfoldable pub read_decimal : Bool → Bytes → Lexer → Scan TokenValue
  read_decimal negative body s =
      let (ds, behind) = span is_digit body in
      let signed = if negative then b'-' ∷ ds else ds in
      let n = length signed in
      if peek behind == b'.' && is_digit (peek_next behind)
      then (let (fs, behind') = span is_digit (drop 1 behind) in
          elim (float_from_chars (signed ++ b'.' ∷ fs)) [
            | none ↦ err (invalid_float s.line)
            | some d ↦ ok (float d, moved s (n + 1 + length fs) behind')
          ])
      else elim (int_from_chars negative ds) [
        | none ↦ err (invalid_integer s.line)
        | some v ↦ ok (int v, moved s n behind)
      ]

  unfoldable pub read_number : Lexer → Scan TokenValue
  read_number s =
      if peek s.rest == b'-'
      then read_decimal true (drop 1 s.rest) s
      else if peek s.rest == b'0' && peek_next s.rest == b'b'
      then read_binary false s
      else if peek s.rest == b'0' && peek_next s.rest == b'z'
      then read_binary true s
      else read_decimal false s.rest s

unfoldable pub is_symbol_start : ℕ → Bool
is_symbol_start c = (leb b'a' c && leb c b'z') || ((leb b'A' c && leb c b'Z') || c == b'_')

unfoldable pub is_symbol_char : ℕ → Bool
is_symbol_char c = is_symbol_start c || ((leb b'0' c && leb c b'9') || c == b'-')

unfoldable pub is_operator_char : ℕ → Bool
is_operator_char c =
    c == b'+'
    || (c == b'*'
        || (c == b'/' || (c == b'%' || (c == b'=' || (c == b'!' || (c == b'<' || c == b'>'))))))

-- equality of byte strings
unfoldable pub bytes_eq : Bytes → Bytes → Bool
bytes_eq [] [] = true
bytes_eq (a ∷ xs) (b ∷ ys) = let rest = bytes_eq xs ys in a == b && rest
bytes_eq _ _ = false

-- the keywords
unfoldable pub word : Bytes → TokenValue
word sv =
    if bytes_eq sv (b't' ∷ b'r' ∷ b'u' ∷ b'e' ∷ [])
    then bool true
    else if bytes_eq sv (b'f' ∷ b'a' ∷ b'l' ∷ b's' ∷ b'e' ∷ [])
    then bool false
    else if bytes_eq sv (b'n' ∷ b'u' ∷ b'l' ∷ b'l' ∷ [])
    then null
    else symbol sv

unfoldable pub read_symbol_or_keyword : Lexer → Scan TokenValue
read_symbol_or_keyword s =
    let test = if is_operator_char (peek s.rest) then is_operator_char else is_symbol_char in
    let (sv, behind) = span test s.rest in ok (word sv, moved s (length sv) behind)

-- a token of one byte, behind `advance`
abbrev pub single : TokenValue → Lexer → Scan TokenValue
single v s = ok (v, advance s)

module _ (float_from_chars : Bytes → Option ℕ) where
  -- the token at a byte that is neither white space nor a comment
  unfoldable pub read_token : ℕ → Lexer → Scan TokenValue
  read_token c s =
      if c == b'('
      then single lparen s
      else if c == b')'
      then single rparen s
      else if c == b'"'
      then read_string s
      else if c == b'-' && is_digit (peek_next s.rest)
      then read_number float_from_chars s
      else if is_digit c
      then read_number float_from_chars s
      else if c == b'-' || is_operator_char c
      then read_symbol_or_keyword s
      else if c == b'.'
      then single dot s
      else if c == b':'
      then single colon s
      else if is_symbol_start c
      then read_symbol_or_keyword s
      else err (unexpected_character c s.line)

  unfoldable pub next_token : Lexer → Scan Token
  next_token s =
      let s₁ = skip_whitespace_and_comments s in
      elim s₁.rest [
        | [] ↦ ok (
          record {
            value = eof;
            line = s₁.line;
            source_start = s₁.position;
            source_end = s₁.position;
          },
          s₁,
        )
        | c ∷ _ ↦ read_token c s₁ >>= λ r. ok (
          record {
            value = r.0;
            line = s₁.line;
            source_start = s₁.position;
            source_end = r.1.position;
          },
          r.1,
        )
      ]
