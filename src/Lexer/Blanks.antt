-- ===== src/Lexer/Blanks.antt =====
-- The bytes between two tokens, said without the loops of `skipWhitespaceAndComments` of src/bbl.cpp.
use bbl.Prelude.{
  ℕ, ◌≡◌, refl, sym, subst, true, false, Bool, ◌==◌, ◌&&◌, ◌↔◌, ◌+◌, [], ◌∷◌, arith, Bool-cases,
  inl, inr, ==_iff,
}
use bbl.Lexer.{
  Bytes, Lexer, is_space, peek, peek_next, skip_loop, skip_whitespace_and_comments, after,
}

-- a space, a tab, a newline, a carriage return
pub data IsSpaceByte : ℕ → Type 0 where
  space : IsSpaceByte b' '
  tab : IsSpaceByte b'\t'
  newline : IsSpaceByte b'\n'
  carriage : IsSpaceByte b'\r'

-- where a comment opens
pub IsComment : Bytes → Type 0
IsComment cs = (ds : Bytes) × (cs ≡ b'/' ∷ (b'/' ∷ ds))

-- where the source opens with `#!`
pub IsShebang : Lexer → Type 0
IsShebang s = (s.position ≡ 0) × ((ds : Bytes) × (s.rest ≡ b'#' ∷ (b'!' ∷ ds)))

-- From the first bytes on, white space and comments lead up to the second; the flag tells that the
-- first are in a comment, which ends before the end of its line.
pub data Skips : Bool → Bytes → Bytes → Type 0 where
  at_end : {b : Bool} → Skips b [] []
  blank : {c : ℕ} {cs r : Bytes} → IsSpaceByte c → Skips false cs r → Skips false (c ∷ cs) r
  opens : {c : ℕ} {cs r : Bytes} → IsComment (c ∷ cs) → Skips true cs r → Skips false (c ∷ cs) r
  inside : {c : ℕ} {cs r : Bytes} → ¬ (c ≡ b'\n') → Skips true cs r → Skips true (c ∷ cs) r
  closes : {c : ℕ} {cs r : Bytes} → c ≡ b'\n' → Skips false cs r → Skips true (c ∷ cs) r
  stands :
      {c : ℕ} {cs : Bytes}
      → ¬ (IsSpaceByte c)
      → ¬ (IsComment (c ∷ cs))
      → Skips false (c ∷ cs) (c ∷ cs)

is_space-IsSpaceByte : (c : ℕ) → is_space c ≡ true → IsSpaceByte c
unfolding is_space
is_space-IsSpaceByte c h = elim (Bool-cases (c == b' ')) [
  | inl x ↦ subst IsSpaceByte (sym ((==_iff c b' ').0 x)) space
  | inr x ↦ elim (Bool-cases (c == b'\t')) [
    | inl y ↦ subst IsSpaceByte (sym ((==_iff c b'\t').0 y)) tab
    | inr y ↦ elim (Bool-cases (c == b'\n')) [
      | inl z ↦ subst IsSpaceByte (sym ((==_iff c b'\n').0 z)) newline
      | inr z ↦ subst IsSpaceByte (sym ((==_iff c b'\r').0 (ground (arith, h, x, y, z)))) carriage
    ]
  ]
]

IsSpaceByte-is_space : {c : ℕ} → IsSpaceByte c → is_space c ≡ true
unfolding is_space
IsSpaceByte-is_space space = refl
IsSpaceByte-is_space tab = refl
IsSpaceByte-is_space newline = refl
IsSpaceByte-is_space carriage = refl

-- two bytes at the front
both_iff :
    (a b : ℕ) (c : ℕ) (cs : Bytes)
    → ¬ (b ≡ 0)
    → ((c == a && peek cs == b) ≡ true) ↔ ((ds : Bytes) × (c ∷ cs ≡ a ∷ (b ∷ ds)))
unfolding peek
both_iff a b c [] some_byte =
    (λ h. absurd (some_byte (ground (arith, h))), λ (ds, e). absurd (cc e))
both_iff a b c (d ∷ ds) some_byte = (
  λ h.
      let at : c ≡ a = ground (arith, h) in
      let then : d ≡ b = ground (arith, h) in (ds, cc (at, then)),
  λ (es, e). let at : c ≡ a = cc e in let then : d ≡ b = cc e in ground (arith, at, then),
)

shebang_iff :
    (p : ℕ) (xs : Bytes)
    → ((p == 0 && (peek xs == b'#' && peek_next xs == b'!')) ≡ true)
      ↔ ((p ≡ 0) × ((ds : Bytes) × (xs ≡ b'#' ∷ (b'!' ∷ ds))))
unfolding peek peek_next
shebang_iff p [] = (λ h. absurd (ground (arith, h)), λ (z, (ds, e)). absurd (cc e))
shebang_iff p (c ∷ cs) =
    let both = both_iff b'#' b'!' c cs (omega arith) in
    (
      λ h.
          let pair : (c == b'#' && peek cs == b'!') ≡ true = ground (arith, h) in
          (ground (arith, h), both.0 pair),
      λ (z, front). let pair = both.1 front in ground (arith, z, pair),
    )

skip-Skips :
    (comment : Bool) (p l : ℕ) (cs : Bytes) → Skips comment cs (skip_loop comment p l cs).rest
unfolding skip_loop IsComment
skip-Skips true p l [] = at_end
skip-Skips false p l [] = at_end
skip-Skips true p l (c ∷ cs) = elim (Bool-cases (c == b'\n')) [
  | inl x ↦ rw (x, skip_loop) (closes ((==_iff c b'\n').0 x) (skip-Skips false (p + 1) (l + 1) cs))
  | inr x ↦
      rw (x, skip_loop)
        (inside (λ e. absurd (cc (x, (==_iff c b'\n').1 e))) (skip-Skips true (p + 1) l cs))
]
skip-Skips false p l (c ∷ cs) = elim (Bool-cases (is_space c)) [
  | inl x ↦
      rw (x, skip_loop) (blank (is_space-IsSpaceByte c x) (skip-Skips false (p + 1) (after l c) cs))
  | inr x ↦ elim (Bool-cases (c == b'/' && peek cs == b'/')) [
    | inl y ↦
        rw (x, y, skip_loop)
          (opens ((both_iff b'/' b'/' c cs (omega arith)).0 y) (skip-Skips true (p + 1) l cs))
    | inr y ↦
        rw (x, y, skip_loop)
          (stands (λ w. absurd (cc (x, IsSpaceByte-is_space w)))
            (λ w. absurd (cc (y, (both_iff b'/' b'/' c cs (omega arith)).1 w))))
  ]
]

-- What `skipWhitespaceAndComments` leaves.
pub skip_whitespace-Skips :
    (s : Lexer)
    → (b : Bool) × ((b ≡ true) ↔ IsShebang s) × Skips b s.rest (skip_whitespace_and_comments s).rest
unfolding skip_whitespace_and_comments IsShebang
skip_whitespace-Skips s = (_, shebang_iff s.position s.rest, skip-Skips _ s.position s.line s.rest)
