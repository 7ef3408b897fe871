-- ===== src/Parser/Depth.antt =====
-- The limit of 256 levels in `parsePrimary` of src/bbl.cpp.
use bbl.Prelude.{ℕ, zero, suc, ◌+◌, ◌≡◌, subst, Option, none, some, length, Option-cases, inl, inr}
use bbl.Prelude.Result.{Result, ok, err, ◌>>=◌}
use bbl.Lexer.{Bytes, Lexer, Token, TokenValue}
use bbl.Parser.{
  Node, Nodes, list_node, dot_access, dot_index, colon_access, no_nodes, node_then, Parse,
  ParseError, Start, start_of, leaf, opens, none_starts, access_of, field_of, method_of, next_of,
  parse_children, parse_loop, read, parse_access, parse_primary, parse_expr, parse,
}
use bbl.Parser.Total.{access_cases, next_cases, start_cases}

-- No node of a tree, the tree itself included, lies in `d` or more lists of the tree.
mutual
  pub Fits : ℕ → Node → Type 0
  Fits zero n = ⊥
  Fits (suc d) (list_node l ns) = AllFit d ns
  Fits (suc d) (dot_access l s n) = Fits (suc d) n
  Fits (suc d) (dot_index l k n) = Fits (suc d) n
  Fits (suc d) (colon_access l s n) = Fits (suc d) n
  Fits (suc d) _ = Unit {0}

  pub AllFit : ℕ → Nodes → Type 0
  AllFit d no_nodes = Unit {0}
  AllFit d (node_then n ns) = Fits d n × AllFit d ns

-- what a good result has
abbrev Gives {ℓ} : {A : Type ℓ} → (A → Type 0) → Result ParseError A → Type 0
Gives P (ok a) = P a
Gives P (err e) = Unit {0}

Gives-bind :
    {A B : Type 0} (P : A → Type 0) (Q : B → Type 0) (m : Result ParseError A)
    (f : A → Result ParseError B)
    → Gives P m
    → ((a : A) → P a → Gives Q (f a))
    → Gives Q (m >>= f)
Gives-bind P Q (ok a) f h k = k a h
Gives-bind P Q (err e) f h k = tt

anything : {A : Type 0} (m : Result ParseError A) → Gives (λ a. Unit {0}) m
anything (ok a) = tt
anything (err e) = tt

abbrev FitsIfSome : ℕ → Option Node → Type 0
FitsIfSome d none = Unit {0}
FitsIfSome d (some n) = Fits d n

abbrev FitsIfLeaf : ℕ → Start → Type 0
FitsIfLeaf d (leaf n) = Fits d n
FitsIfLeaf d opens = Unit {0}
FitsIfLeaf d none_starts = Unit {0}

module _ (d : ℕ) where
  field_of-FitsIfSome :
      (l : ℕ) (lhs : Node) (v : TokenValue)
      → Fits (suc d) lhs
      → FitsIfSome (suc d) (field_of l lhs v)
  unfolding field_of Fits
  field_of-FitsIfSome l lhs (TokenValue.symbol s) h = h
  field_of-FitsIfSome l lhs (TokenValue.int n) h = h
  field_of-FitsIfSome l lhs _ h = tt

  method_of-FitsIfSome :
      (l : ℕ) (lhs : Node) (v : TokenValue)
      → Fits (suc d) lhs
      → FitsIfSome (suc d) (method_of l lhs v)
  unfolding method_of Fits
  method_of-FitsIfSome l lhs (TokenValue.symbol s) h = h
  method_of-FitsIfSome l lhs _ h = tt

  start_of-FitsIfLeaf : (l : ℕ) (v : TokenValue) → FitsIfLeaf (suc d) (start_of l v)
  unfolding start_of Fits
  start_of-FitsIfLeaf l TokenValue.lparen = tt
  start_of-FitsIfLeaf l TokenValue.rparen = tt
  start_of-FitsIfLeaf l TokenValue.null = tt
  start_of-FitsIfLeaf l TokenValue.dot = tt
  start_of-FitsIfLeaf l TokenValue.colon = tt
  start_of-FitsIfLeaf l TokenValue.eof = tt
  start_of-FitsIfLeaf l (TokenValue.int n) = tt
  start_of-FitsIfLeaf l (TokenValue.float n) = tt
  start_of-FitsIfLeaf l (TokenValue.string n) = tt
  start_of-FitsIfLeaf l (TokenValue.symbol n) = tt
  start_of-FitsIfLeaf l (TokenValue.bool n) = tt
  start_of-FitsIfLeaf l (TokenValue.binary a b c) = tt

  module _ (convert : Bytes → Option ℕ) where
    parse_access-Gives :
        (n : ℕ) (s : Lexer) (lhs : Node)
        → Fits (suc d) lhs
        → Gives (λ r. Fits (suc d) r.0) (parse_access convert n s lhs)
    unfolding parse_access
    parse_access-Gives zero s lhs h = tt
    parse_access-Gives (suc n) s lhs h =
        Gives-bind _ _ (read convert s) _ (anything (read convert s)) (λ next at.
          elim (access_cases (access_of next.0.value)) [
            | inl x ↦
                rw (x, parse_access)
                  (Gives-bind _ _ (read convert next.1) _ (anything (read convert next.1))
                    (λ field here. elim (Option-cases (field_of next.0.line lhs field.0.value)) [
                      | inl y ↦ rw y tt
                      | inr (node, y) ↦ rw y (
                          parse_access-Gives n field.1 node (
                            subst (FitsIfSome (suc d)) y
                              (field_of-FitsIfSome next.0.line lhs field.0.value h)))
                    ]))
            | inr (inl x) ↦
                rw (x, parse_access)
                  (Gives-bind _ _ (read convert next.1) _ (anything (read convert next.1))
                    (λ field here. elim (Option-cases (method_of next.0.line lhs field.0.value)) [
                      | inl y ↦ rw y tt
                      | inr (node, y) ↦ rw y (
                          parse_access-Gives n field.1 node (
                            subst (FitsIfSome (suc d)) y
                              (method_of-FitsIfSome next.0.line lhs field.0.value h)))
                    ]))
            | inr (inr x) ↦ rw (x, parse_access) h
          ])

module _ (d : ℕ) (child : Lexer → Token → Parse Node)
    (fits : (s : Lexer) (t : Token) → Gives (λ r. Fits d r.0) (child s t)) where
  parse_children-Gives :
      (n open_line : ℕ) (s : Lexer) (tok : Token)
      → Gives (λ r. AllFit d r.0) (parse_children child n open_line s tok)
  unfolding parse_children AllFit
  parse_children-Gives zero open_line s tok = tt
  parse_children-Gives (suc n) open_line s tok = elim (next_cases (next_of tok.value)) [
    | inl x ↦ rw (x, parse_children) tt
    | inr (inl x) ↦ rw (x, parse_children) tt
    | inr (inr x) ↦
        rw (x, parse_children)
          (Gives-bind _ _ (child s tok) _ (fits s tok) (λ c here.
            Gives-bind _ _ (parse_children child n open_line c.2 c.1) _
              (parse_children-Gives n open_line c.2 c.1) (λ r more. (here, more))))
  ]

  parse_loop-Gives :
      (n : ℕ) (s : Lexer) (tok : Token) → Gives (λ ns. AllFit d ns) (parse_loop child n s tok)
  unfolding parse_loop AllFit
  parse_loop-Gives zero s tok = tt
  parse_loop-Gives (suc n) s tok = elim (next_cases (next_of tok.value)) [
    | inl x ↦ rw (x, parse_loop) tt
    | inr (inl x) ↦ rw (x, parse_loop) tt
    | inr (inr x) ↦
        rw (x, parse_loop)
          (Gives-bind _ _ (child s tok) _ (fits s tok) (λ c here.
            Gives-bind _ _ (parse_loop child n c.2 c.1) _ (parse_loop-Gives n c.2 c.1)
              (λ r more. (here, more))))
  ]

module _ (convert : Bytes → Option ℕ) where
  parse_expr-Gives :
      (d : ℕ) (s : Lexer) (tok : Token) → Gives (λ r. Fits d r.0) (parse_expr convert d s tok)
  unfolding parse_expr parse_primary Fits
  parse_expr-Gives zero s tok = tt
  parse_expr-Gives (suc d) s tok =
      Gives-bind (λ r. Fits (suc d) r.0) _ (parse_primary convert (parse_expr convert d) s tok) _
        (elim (start_cases (start_of tok.line tok.value)) [
          | inl (node, x) ↦
              rw (x, parse_primary)
                (subst (FitsIfLeaf (suc d)) x (start_of-FitsIfLeaf d tok.line tok.value))
          | inr (inl x) ↦
              rw (x, parse_primary)
                (Gives-bind _ _ (read convert s) _ (anything (read convert s)) (λ first at.
                  Gives-bind _ _
                    (parse_children (parse_expr convert d) (length first.1.rest + 2) tok.line
                      first.1 first.0)
                    _
                    (parse_children-Gives d (parse_expr convert d) (parse_expr-Gives d)
                      (length first.1.rest + 2) tok.line first.1 first.0)
                    (λ r all. all)))
          | inr (inr x) ↦ rw (x, parse_primary) tt
        ])
        (λ lhs h. parse_access-Gives d convert (length lhs.1.rest + 1) lhs.1 lhs.0 h)

  -- Where `parse` gives nodes, none of them, and no node inside them, lies in more than 256 lists.
  pub parse-AllFit : (s : Lexer) {ns : Nodes} → parse convert s ≡ ok ns → AllFit 257 ns
  unfolding parse
  parse-AllFit s {ns} h =
      let all : Gives (λ ns. AllFit 257 ns) (parse convert s) =
        Gives-bind _ _ (read convert s) _ (anything (read convert s)) (λ first at.
          parse_loop-Gives 257 (parse_expr convert 257) (parse_expr-Gives 257)
            (length first.1.rest + 2) first.1 first.0) in
      subst (λ r. Gives (λ ns. AllFit 257 ns) r) h all
