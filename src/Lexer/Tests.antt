-- ===== src/Lexer/Tests.antt =====
-- Runs of the `BblLexer` of src/bbl.cpp.
use bbl.Prelude.{ℕ, ◌≡◌, refl, Option, some, [], ◌∷◌, ◌++◌}
use bbl.Prelude.Int.{negsuc}
use bbl.Prelude.Result.{ok}
use bbl.Lexer.{
  Lexer, Token, Bytes, new_lexer, next_token, int, string, read_string, string_loop, advance,
  escape_of, skip_whitespace_and_comments, skip_loop, peek, is_space, read_token, is_digit,
  peek_next, read_number, read_decimal, span, int_from_chars, decimal,
}
use bbl.Lexer.Strings
use bbl.Lexer.Strings.{
  Writes, nothing, plain, escaped, newline, read_string-Writes, Writes-read_string,
}
use bbl.Lexer.Progress.{IsPlaced, next_token-IsPlaced}

-- every decimal text converts to the double 1
abbrev convert : Bytes → Option ℕ
convert text = some 4607182418800017408

-- a comment, a newline and the integer -12 in front of a parenthesis
abbrev source : Bytes
source = b'/' ∷ b'/' ∷ b'\n' ∷ b'-' ∷ b'1' ∷ b'2' ∷ b')' ∷ []

abbrev behind : Lexer
behind = record { rest = b')' ∷ []; position = 6; line = 2 }

abbrev twelve : Token
twelve = record { value = int (negsuc 11); line = 2; source_start = 3; source_end = 6 }

twelve_read : next_token convert (new_lexer source) ≡ ok (twelve, behind)
unfolding next_token skip_whitespace_and_comments skip_loop peek is_space read_token is_digit
    peek_next read_number read_decimal span int_from_chars decimal
twelve_read = refl

next_token-IsPlaced_example : IsPlaced (new_lexer source) twelve behind
next_token-IsPlaced_example = next_token-IsPlaced convert (new_lexer source) twelve_read

-- `a\n` with its newline escaped
abbrev text : Bytes
text = b'a' ∷ b'\\' ∷ b'n' ∷ []

text-Writes : Writes text (b'a' ∷ b'\n' ∷ [])
text-Writes = plain b'a' refl refl (escaped b'n' b'\n' newline nothing)

read_string-Writes_example :
    read_string (record { rest = b'"' ∷ text ++ b'"' ∷ b')' ∷ []; position = 4; line = 2 })
    ≡ ok (string (b'a' ∷ b'\n' ∷ []), Strings.behind 5 2 text (b')' ∷ []))
read_string-Writes_example = read_string-Writes 4 2 (b')' ∷ []) text-Writes

text_read :
    read_string (record { rest = b'"' ∷ text ++ b'"' ∷ b')' ∷ []; position = 4; line = 2 })
    ≡ ok (string (b'a' ∷ b'\n' ∷ []), record { rest = b')' ∷ []; position = 9; line = 2 })
unfolding read_string advance string_loop escape_of
text_read = refl

Writes-read_string_example :
    (w : Bytes) × (v : Bytes) × Writes w v
    × (text ++ b'"' ∷ b')' ∷ [] ≡ w ++ b'"' ∷ b')' ∷ [])
    × (string (b'a' ∷ b'\n' ∷ []) ≡ string v)
    × (record { rest = b')' ∷ []; position = 9; line = 2 } ≡ Strings.behind 5 2 w (b')' ∷ []))
Writes-read_string_example = Writes-read_string 4 2 (text ++ b'"' ∷ b')' ∷ []) text_read
