-- ===== src/Parser/Tests.antt =====
-- Runs of `parse` of src/bbl.cpp.
use bbl.Prelude.{ℕ, ◌≡◌, ◌≢◌, refl, Option, some, [], ◌∷◌}
use bbl.Prelude.Int.{pos}
use bbl.Prelude.Result.{ok, err}
use bbl.Lexer.{
  Bytes, new_lexer, next_token, skip_whitespace_and_comments, skip_loop, peek, is_space, read_token,
  is_digit, peek_next, read_number, read_decimal, span, int_from_chars, decimal, advance,
  is_operator_char, is_symbol_start, is_symbol_char, read_symbol_or_keyword, word, bytes_eq,
}
use bbl.Parser.{
  Nodes, int_literal, symbol_node, list_node, dot_access, no_nodes, node_then, out_of_fuel, parse,
  parse_expr, parse_primary, parse_access, parse_children, parse_loop, of_lexer, start_of,
  access_of, field_of, method_of, next_of,
}
use bbl.Parser.Depth.{AllFit, parse-AllFit}
use bbl.Parser.Total.{parse_ends}

-- every decimal text converts to the double 1
abbrev convert : Bytes → Option ℕ
convert text = some 4607182418800017408

-- a list of a field access and a number
abbrev source : Bytes
source = b'(' ∷ b'a' ∷ b'.' ∷ b'b' ∷ b' ' ∷ b'1' ∷ b')' ∷ []

abbrev tree : Nodes
tree =
    node_then
      (list_node 1 (
        node_then (dot_access 1 (b'b' ∷ []) (symbol_node 1 (b'a' ∷ [])))
          (node_then (int_literal 1 (pos 1)) no_nodes)))
      no_nodes

source_parsed : parse convert (new_lexer source) ≡ ok tree
unfolding next_token skip_whitespace_and_comments skip_loop peek is_space read_token is_digit
    peek_next read_number read_decimal span int_from_chars decimal advance is_operator_char
    is_symbol_start is_symbol_char read_symbol_or_keyword word bytes_eq parse parse_expr
    parse_primary parse_access parse_children parse_loop of_lexer start_of access_of field_of
    method_of next_of
source_parsed = refl

parse_ends_example : parse convert (new_lexer source) ≢ err out_of_fuel
parse_ends_example = parse_ends convert (new_lexer source)

parse-AllFit_example : AllFit 257 tree
parse-AllFit_example = parse-AllFit convert (new_lexer source) source_parsed
