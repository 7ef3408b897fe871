-- ===== src/Parser.antt =====
-- src/bbl.cpp: `parsePrimary`, `parseExpr` and `parse`; src/bbl.h: `AstNode`.
-- The current token `tok` and the lexer are passed along. `depth` counts down from the limit: 257 at
-- the top, and 0 is `depth > 256`. The loops have the bytes that are left as their fuel, as every
-- round reads some; `out_of_fuel` is no error of the source.
pub mod Depth
pub mod Total
pub mod Tests
use bbl.Prelude.{
  ℕ, zero, suc, ◌+◌, Bool, true, false, ltb, leb, not, if◌then◌else◌, Option, none, some, List, [],
  ◌∷◌, length,
}
use bbl.Prelude.Int.{ℤ}
use bbl.Prelude.Result.{Result, ok, err, ◌>>=◌, ◌>>◌, require}
use bbl.Lexer.{Bytes, Lexer, Token, TokenValue, LexError, Scan, next_token}

-- `AstNode`: the line, and for each `NodeType` the fields that it uses; a binary literal is the place of
-- its bytes, as in its token. `symbolId` and `isTailCall` are set by later passes.
mutual
  pub data Node : Type 0 where
    int_literal : ℕ → ℤ → Node
    float_literal : ℕ → ℕ → Node
    string_literal : ℕ → Bytes → Node
    bool_literal : ℕ → Bool → Node
    null_literal : ℕ → Node
    binary_literal : ℕ → ℕ → ℕ → Bool → Node
    symbol_node : ℕ → Bytes → Node
    list_node : ℕ → Nodes → Node
    dot_access : ℕ → Bytes → Node → Node
    dot_index : ℕ → ℤ → Node → Node
    colon_access : ℕ → Bytes → Node → Node

  pub data Nodes : Type 0 where
    no_nodes : Nodes
    node_then : Node → Nodes → Nodes

pub data ParseError : Type 0 where
  lexical : LexError → ParseError
  too_deep unexpected_token unexpected_rparen : ℕ → ParseError
  unclosed : ℕ → ℕ → ParseError
  expected_field expected_method : ℕ → ParseError
  out_of_fuel : ParseError

abbrev pub Parse : Type 0 → Type 0
Parse A = Result ParseError (A × Token × Lexer)

pub of_lexer : Scan Token → Result ParseError (Token × Lexer)
of_lexer (ok r) = ok r
of_lexer (err e) = err (lexical e)

-- what `parsePrimary` does at a token
pub data Start : Type 0 where
  leaf : Node → Start
  opens : Start
  none_starts : Start

pub start_of : ℕ → TokenValue → Start
start_of l (TokenValue.int n) = leaf (int_literal l n)
start_of l (TokenValue.float d) = leaf (float_literal l d)
start_of l (TokenValue.string s) = leaf (string_literal l s)
start_of l (TokenValue.bool b) = leaf (bool_literal l b)
start_of l TokenValue.null = leaf (null_literal l)
start_of l (TokenValue.binary p n z) = leaf (binary_literal l p n z)
start_of l (TokenValue.symbol s) = leaf (symbol_node l s)
start_of l TokenValue.lparen = opens
start_of l _ = none_starts

-- how `parseExpr` goes on at a token
pub data Access : Type 0 where
  by_dot by_colon no_access : Access

pub access_of : TokenValue → Access
access_of TokenValue.dot = by_dot
access_of TokenValue.colon = by_colon
access_of _ = no_access

pub field_of : ℕ → Node → TokenValue → Option Node
field_of l lhs (TokenValue.symbol s) = some (dot_access l s lhs)
field_of l lhs (TokenValue.int n) = some (dot_index l n lhs)
field_of l lhs _ = none

pub method_of : ℕ → Node → TokenValue → Option Node
method_of l lhs (TokenValue.symbol s) = some (colon_access l s lhs)
method_of l lhs _ = none

-- what a loop over expressions does at a token
pub data Next : Type 0 where
  at_rparen at_eof at_expr : Next

pub next_of : TokenValue → Next
next_of TokenValue.rparen = at_rparen
next_of TokenValue.eof = at_eof
next_of _ = at_expr

-- the loop of `parsePrimary` over a list's children
pub parse_children : (Lexer → Token → Parse Node) → ℕ → ℕ → Lexer → Token → Parse Nodes
parse_children parse_child zero open_line s tok = err out_of_fuel
parse_children parse_child (suc n) open_line s tok = elim (next_of tok.value) [
  | at_rparen ↦ ok (no_nodes, tok, s)
  | at_eof ↦ err (unclosed open_line s.line)
  | at_expr ↦ parse_child s tok >>= λ c.
      parse_children parse_child n open_line c.2 c.1 >>= λ r. ok (node_then c.0 r.0, r.1, r.2)
]

-- the loop of `parse`
pub parse_loop : (Lexer → Token → Parse Node) → ℕ → Lexer → Token → Result ParseError Nodes
parse_loop parse_child zero s tok = err out_of_fuel
parse_loop parse_child (suc n) s tok = elim (next_of tok.value) [
  | at_eof ↦ ok no_nodes
  | at_rparen ↦ err (unexpected_rparen tok.line)
  | at_expr ↦
      parse_child s tok >>= λ c. parse_loop parse_child n c.2 c.1 >>= λ r. ok (node_then c.0 r)
]

module _ (float_from_chars : Bytes → Option ℕ) where
  abbrev pub read : Lexer → Result ParseError (Token × Lexer)
  read s = of_lexer (next_token float_from_chars s)

  -- the loop of `parseExpr` over `.` and `:`
  pub parse_access : ℕ → Lexer → Node → Parse Node
  parse_access zero s lhs = err out_of_fuel
  parse_access (suc n) s lhs = read s >>= λ next. elim (access_of next.0.value) [
    | no_access ↦ ok (lhs, next.0, next.1)
    | by_dot ↦ read next.1 >>= λ field. elim (field_of next.0.line lhs field.0.value) [
      | none ↦ err (expected_field field.0.line)
      | some node ↦ parse_access n field.1 node
    ]
    | by_colon ↦ read next.1 >>= λ field. elim (method_of next.0.line lhs field.0.value) [
      | none ↦ err (expected_method field.0.line)
      | some node ↦ parse_access n field.1 node
    ]
  ]

  -- `parsePrimary` behind the test of the depth, with the parser of the children
  unfoldable pub parse_primary :
      (Lexer → Token → Parse Node) → Lexer → Token → Result ParseError (Node × Lexer)
  parse_primary parse_child s tok = elim (start_of tok.line tok.value) [
    | leaf node ↦ ok (node, s)
    | none_starts ↦ err (unexpected_token tok.line)
    | opens ↦ read s >>= λ first.
        parse_children parse_child (length first.1.rest + 2) tok.line first.1 first.0 >>= λ r.
        ok (list_node tok.line r.0, r.2)
  ]

  pub parse_expr : ℕ → Lexer → Token → Parse Node
  parse_expr zero s tok = err (too_deep tok.line)
  parse_expr (suc depth) s tok = parse_primary (parse_expr depth) s tok >>= λ lhs.
      parse_access (length lhs.1.rest + 1) lhs.1 lhs.0

  unfoldable pub parse : Lexer → Result ParseError Nodes
  parse s =
      read s >>= λ first. parse_loop (parse_expr 257) (length first.1.rest + 2) first.1 first.0
