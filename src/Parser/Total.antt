-- ===== src/Parser/Total.antt =====
-- `parse` of src/bbl.cpp ends: the loops read some of the source in every round.
use bbl.Prelude.{
  ℕ, zero, suc, ◌+◌, ◌≤◌, ◌<◌, ◌≡◌, ◌≢◌, refl, ap, subst, Option, none, some, length, arith,
  length-append, Option-cases, inl, inr, ◌⊎◌,
}
use bbl.Prelude.Result.{Result, ok, err, ◌>>=◌}
use bbl.Lexer.{Bytes, Lexer, Token, TokenValue, Scan, next_token, eof}
use bbl.Lexer.Consume.{Consumes}
use bbl.Lexer.Progress.{IsPlaced, next_token-IsPlaced}
use bbl.Parser.{
  Node, Parse, ParseError, out_of_fuel, of_lexer, Start, start_of, Access, access_of, by_dot,
  by_colon, no_access, expected_field, expected_method, field_of, method_of, Next, next_of,
  at_rparen, at_eof, at_expr, parse_children, parse_loop, read, parse_access, parse_primary,
  parse_expr, parse, leaf, opens, none_starts,
}

-- A result that is no lack of fuel, and what a good one has.
abbrev Ends {ℓ} : {A : Type ℓ} → (A → Type 0) → Result ParseError A → Type 0
Ends P (ok a) = P a
Ends P (err e) = e ≢ out_of_fuel

Ends-bind :
    {A B : Type 0} (P : A → Type 0) (Q : B → Type 0) (m : Result ParseError A)
    (f : A → Result ParseError B)
    → Ends P m
    → ((a : A) → P a → Ends Q (f a))
    → Ends Q (m >>= f)
Ends-bind P Q (ok a) f h k = k a h
Ends-bind P Q (err e) f h k = h

Ends-weaken :
    {A : Type 0} (P Q : A → Type 0) (m : Result ParseError A)
    → Ends P m
    → ((a : A) → P a → Q a)
    → Ends Q m
Ends-weaken P Q (ok a) h k = k a h
Ends-weaken P Q (err e) h k = h

-- The lexer is further on, or the token is the end of the source.
abbrev Advances : Lexer → Token → Lexer → Type 0
Advances s t s' = (length s'.rest < length s.rest) ⊎ ((t.value ≡ eof) × (length s'.rest ≡ 0))

not_longer : (s : Lexer) (t : Token) (s' : Lexer) → Advances s t s' → length s'.rest ≤ length s.rest
not_longer s t s' (inl h) = omega (arith, h)
not_longer s t s' (inr (e, h)) = omega (arith, h)

Consumes-length :
    {s s' : Lexer} → (a : Consumes s s') → length s.rest + s.position ≡ length s'.rest + s'.position
Consumes-length {s} {s'} a =
    omega (arith, ap length a.splits, length-append a.piece s'.rest, a.moves)

IsPlaced-Advances : {s s' : Lexer} {t : Token} → IsPlaced s t s' → Advances s t s'
IsPlaced-Advances {s} {s'} placed = elim placed.reads [
  | inl (a, lt) ↦
      inl
        (omega (arith, lt, Consumes-length a, Consumes-length placed.skipped, placed.skipped.moves))
  | inr (done, same, value) ↦ inr (value, ap length done)
]

of_lexer-Ends :
    (s : Lexer) (m : Scan Token)
    → ((t : Token) (s' : Lexer) → m ≡ ok (t, s') → Advances s t s')
    → Ends (λ r. Advances s r.0 r.1) (of_lexer m)
unfolding of_lexer
of_lexer-Ends s (ok (t, s')) h = h t s' refl
of_lexer-Ends s (err e) h = λ x. cc x

strict :
    (s : Lexer) (t : Token) (s' : Lexer)
    → Advances s t s'
    → t.value ≢ eof
    → length s'.rest < length s.rest
strict s t s' (inl h) other = h
strict s t s' (inr (e, h)) other = absurd (other e)

Advances-further :
    (s m : Lexer) (t : Token) (s' : Lexer)
    → length m.rest ≤ length s.rest
    → Advances m t s'
    → Advances s t s'
Advances-further s m t s' le (inl h) = inl (omega (arith, le, h))
Advances-further s m t s' le (inr e) = inr e

pub access_cases : (a : Access) → (a ≡ by_dot) ⊎ ((a ≡ by_colon) ⊎ (a ≡ no_access))
access_cases by_dot = inl refl
access_cases by_colon = inr (inl refl)
access_cases no_access = inr (inr refl)

pub next_cases : (n : Next) → (n ≡ at_rparen) ⊎ ((n ≡ at_eof) ⊎ (n ≡ at_expr))
next_cases at_rparen = inl refl
next_cases at_eof = inr (inl refl)
next_cases at_expr = inr (inr refl)

dot_goes_on : (v : TokenValue) → access_of v ≡ by_dot → v ≢ eof
unfolding access_of
dot_goes_on v h e =
    let none_here : access_of eof ≡ by_dot = subst (λ u. access_of u ≡ by_dot) e h in cc none_here

colon_goes_on : (v : TokenValue) → access_of v ≡ by_colon → v ≢ eof
unfolding access_of
colon_goes_on v h e =
    let none_here : access_of eof ≡ by_colon = subst (λ u. access_of u ≡ by_colon) e h in
    cc none_here

expr_goes_on : (v : TokenValue) → next_of v ≡ at_expr → v ≢ eof
unfolding next_of
expr_goes_on v h e =
    let none_here : next_of eof ≡ at_expr = subst (λ u. next_of u ≡ at_expr) e h in cc none_here

pub start_cases :
    (x : Start) → ((node : Node) × (x ≡ leaf node)) ⊎ ((x ≡ opens) ⊎ (x ≡ none_starts))
start_cases (leaf node) = inl (node, refl)
start_cases opens = inr (inl refl)
start_cases none_starts = inr (inr refl)

err_injective :
    {A : Type 0} {a b : ParseError} → ◌≡◌ {A = Result ParseError A} (err a) (err b) → a ≡ b
err_injective {a = a} h = ap (λ r. elim r [ ok x ↦ a | err e ↦ e ]) h

-- the fuel behind an expression
enough :
    (n : ℕ) (s : Lexer) (tok t : Token) (s' : Lexer)
    → (length s.rest + 2 ≤ suc n) ⊎ ((tok.value ≡ eof) × (1 ≤ suc n))
    → next_of tok.value ≡ at_expr
    → Advances s t s'
    → (length s'.rest + 2 ≤ n) ⊎ ((t.value ≡ eof) × (1 ≤ n))
enough n s tok t s' (inr (e, h)) x adv = absurd (expr_goes_on tok.value x e)
enough n s tok t s' (inl h) x (inl lt) = inl (omega (arith, h, lt))
enough n s tok t s' (inl h) x (inr (e, done)) = inr (e, omega (arith, h))

module _ (convert : Bytes → Option ℕ) where
  read-Ends : (s : Lexer) → Ends (λ r. Advances s r.0 r.1) (read convert s)
  read-Ends s =
      of_lexer-Ends s (next_token convert s)
        (λ t s' h. IsPlaced-Advances (next_token-IsPlaced convert s h))

  -- a field or a method's name behind `.` or `:`, and what follows
  name-Ends :
      (n : ℕ) (s m : Lexer) (name_of : TokenValue → Option Node) (wrong : ℕ → ParseError)
      → length m.rest < length s.rest
      → length s.rest < suc n
      → ((l : ℕ) → wrong l ≢ out_of_fuel)
      → ((s' : Lexer) (lhs : Node)
          → length s'.rest < n
          → Ends (λ r. Advances s' r.1 r.2) (parse_access convert n s' lhs))
      → Ends
          (λ r. Advances s r.1 r.2)
          (read convert m >>= λ field. elim (name_of field.0.value) [
            | none ↦ err (wrong field.0.line)
            | some node ↦ parse_access convert n field.1 node
          ])
  name-Ends n s m name_of wrong lt fuel bad more =
      Ends-bind _ _ (read convert m) _ (read-Ends m) (λ field adv.
        let le = not_longer m field.0 field.1 adv in
        elim (Option-cases (name_of field.0.value)) [
          | inl x ↦ rw x (bad field.0.line)
          | inr (node, x) ↦ rw x (
              Ends-weaken _ _ (parse_access convert n field.1 node)
                (more field.1 node (omega (arith, le, lt, fuel)))
                (λ r a. Advances-further s field.1 r.1 r.2 (omega (arith, le, lt)) a))
        ])

  parse_access-Ends :
      (n : ℕ) (s : Lexer) (lhs : Node)
      → length s.rest < n
      → Ends (λ r. Advances s r.1 r.2) (parse_access convert n s lhs)
  unfolding parse_access
  parse_access-Ends zero s lhs h = absurd (omega arith)
  parse_access-Ends (suc n) s lhs h = Ends-bind _ _ (read convert s) _ (read-Ends s) (λ next adv.
      elim (access_cases (access_of next.0.value)) [
        | inl x ↦ rw x (
            name-Ends n s next.1 (field_of next.0.line lhs) expected_field
              (strict s next.0 next.1 adv (dot_goes_on next.0.value x)) h (λ l e. cc e)
              (parse_access-Ends n))
        | inr (inl x) ↦ rw x (
            name-Ends n s next.1 (method_of next.0.line lhs) expected_method
              (strict s next.0 next.1 adv (colon_goes_on next.0.value x)) h (λ l e. cc e)
              (parse_access-Ends n))
        | inr (inr x) ↦ rw x adv
      ])

  module _ (child : Lexer → Token → Parse Node)
      (child-Ends : (s : Lexer) (t : Token) → Ends (λ r. Advances s r.1 r.2) (child s t)) where
    parse_children-Ends :
        (n open_line : ℕ) (s : Lexer) (tok : Token)
        → (length s.rest + 2 ≤ n) ⊎ ((tok.value ≡ eof) × (1 ≤ n))
        → Ends (λ r. length r.2.rest ≤ length s.rest) (parse_children child n open_line s tok)
    unfolding parse_children
    parse_children-Ends zero open_line s tok (inl h) = absurd (omega arith)
    parse_children-Ends zero open_line s tok (inr (e, h)) = absurd (omega arith)
    parse_children-Ends (suc n) open_line s tok fuel = elim (next_cases (next_of tok.value)) [
      | inl x ↦ rw (x, parse_children) (omega arith)
      | inr (inl x) ↦ rw (x, parse_children) (λ e. cc e)
      | inr (inr x) ↦
          rw (x, parse_children)
            (Ends-bind _ _ (child s tok) _ (child-Ends s tok) (λ c adv.
              let le = not_longer s c.1 c.2 adv in
              Ends-bind _ _ (parse_children child n open_line c.2 c.1) _
                (parse_children-Ends n open_line c.2 c.1 (enough n s tok c.1 c.2 fuel x adv))
                (λ r shorter. omega (arith, le, shorter))))
    ]

    parse_loop-Ends :
        (n : ℕ) (s : Lexer) (tok : Token)
        → (length s.rest + 2 ≤ n) ⊎ ((tok.value ≡ eof) × (1 ≤ n))
        → Ends (λ r. Unit {0}) (parse_loop child n s tok)
    unfolding parse_loop
    parse_loop-Ends zero s tok (inl h) = absurd (omega arith)
    parse_loop-Ends zero s tok (inr (e, h)) = absurd (omega arith)
    parse_loop-Ends (suc n) s tok fuel = elim (next_cases (next_of tok.value)) [
      | inl x ↦ rw (x, parse_loop) (λ e. cc e)
      | inr (inl x) ↦ rw (x, parse_loop) tt
      | inr (inr x) ↦
          rw (x, parse_loop)
            (Ends-bind _ _ (child s tok) _ (child-Ends s tok) (λ c adv.
              Ends-bind _ _ (parse_loop child n c.2 c.1) _
                (parse_loop-Ends n c.2 c.1 (enough n s tok c.1 c.2 fuel x adv)) (λ r done. tt)))
    ]

    parse_primary-Ends :
        (s : Lexer) (tok : Token)
        → Ends (λ r. length r.1.rest ≤ length s.rest) (parse_primary convert child s tok)
    unfolding parse_primary
    parse_primary-Ends s tok = elim (start_cases (start_of tok.line tok.value)) [
      | inl (node, x) ↦ rw (x, parse_primary) (omega arith)
      | inr (inl x) ↦
          rw (x, parse_primary)
            (Ends-bind _ _ (read convert s) _ (read-Ends s) (λ first adv.
              let le = not_longer s first.0 first.1 adv in
              Ends-bind _ _
                (parse_children child (length first.1.rest + 2) tok.line first.1 first.0) _
                (parse_children-Ends (length first.1.rest + 2) tok.line first.1 first.0
                  (inl (omega arith)))
                (λ r shorter. omega (arith, le, shorter))))
      | inr (inr x) ↦ rw (x, parse_primary) (λ e. cc e)
    ]

  parse_expr-Ends :
      (depth : ℕ) (s : Lexer) (tok : Token)
      → Ends (λ r. Advances s r.1 r.2) (parse_expr convert depth s tok)
  unfolding parse_expr
  parse_expr-Ends zero s tok = λ e. cc e
  parse_expr-Ends (suc depth) s tok =
      Ends-bind _ _ (parse_primary convert (parse_expr convert depth) s tok) _
        (parse_primary-Ends (parse_expr convert depth) (parse_expr-Ends depth) s tok)
        (λ lhs le.
          Ends-weaken _ _ (parse_access convert (length lhs.1.rest + 1) lhs.1 lhs.0)
            (parse_access-Ends (length lhs.1.rest + 1) lhs.1 lhs.0 (omega arith))
            (λ r a. Advances-further s lhs.1 r.1 r.2 le a))

  Ends-fuel : {A : Type 0} (m : Result ParseError A) → Ends (λ r. Unit {0}) m → m ≢ err out_of_fuel
  Ends-fuel (ok a) h e = cc e
  Ends-fuel (err x) h e = h (err_injective e)

  -- The parser ends on every source: with the bytes that are left as their fuel, its loops give the
  -- nodes or an error of the source, whatever the lexer is at.
  pub parse_ends : (s : Lexer) → parse convert s ≢ err out_of_fuel
  unfolding parse
  parse_ends s = Ends-fuel (parse convert s) (
      Ends-bind _ _ (read convert s) _ (read-Ends s) (λ first adv.
        parse_loop-Ends (parse_expr convert 257) (parse_expr-Ends 257) (length first.1.rest + 2)
          first.1 first.0 (inl (omega arith))))
