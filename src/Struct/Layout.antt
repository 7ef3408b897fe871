-- ===== src/Struct/Layout.antt =====
-- `StructBuilder` of src/bbl.cpp lays fields out apart from each other and within the struct.
use bbl.Prelude.{
  ℕ, ◌+◌, ◌%◌, ◌^◌, ◌≤◌, ◌<◌, ◌≡◌, refl, sym, ◌∙◌, subst, Bool, true, false, ltb, ◌&&◌, none, some,
  ◌⊎◌, ⊎_elim, inl, inr, List, [], ◌∷◌, ◌++◌, arith, Bool-cases, Option-cases,
}
use bbl.Prelude.Result.{ok, ok_injective}
use bbl.Lexer.{Bytes}
use bbl.Struct.{CType, FieldDesc, StructDesc, overlapped, add_field}

-- two fields without a common byte
abbrev pub IsApart : FieldDesc → FieldDesc → Type 0
IsApart f g = (f.offset + f.size ≤ g.offset) ⊎ (g.offset + g.size ≤ f.offset)

unfoldable pub AllApart : List FieldDesc → FieldDesc → Type 0
AllApart [] g = Unit
AllApart (f ∷ fs) g = IsApart f g × AllApart fs g

-- within `total` bytes and apart from each other
unfoldable pub IsLayout : ℕ → List FieldDesc → Type 0
IsLayout total [] = Unit
IsLayout total (f ∷ fs) = (f.offset + f.size ≤ total) × AllApart fs f × IsLayout total fs

abbrev new_field : Bytes → ℕ → ℕ → CType → Bytes → FieldDesc
new_field field offset size ctype struct_type = record {
  name = field;
  offset = offset;
  size = size;
  ctype = ctype;
  struct_type = struct_type;
}

module _ (f : FieldDesc) (fs : List FieldDesc) (g : FieldDesc) where
  abbrev meets : Bool
  meets = ltb f.offset ((g.offset + g.size) % 2 ^ 64) && ltb g.offset ((f.offset + f.size) % 2 ^ 64)

  hit : meets ≡ true → overlapped (f ∷ fs) g.offset g.size ≡ some f.name
  unfolding overlapped
  hit z = rw z refl

  miss : meets ≡ false → overlapped (f ∷ fs) g.offset g.size ≡ overlapped fs g.offset g.size
  unfolding overlapped
  miss z = rw z refl

IsApart-of :
    (f g : FieldDesc)
    → (g.offset + g.size) % 2 ^ 64 ≡ g.offset + g.size
    → (f.offset + f.size) % 2 ^ 64 ≡ f.offset + f.size
    → (ltb f.offset ((g.offset + g.size) % 2 ^ 64) && ltb g.offset ((f.offset + f.size) % 2 ^ 64))
      ≡ false
    → IsApart f g
IsApart-of f g eg ef z = ground arith

-- what the loop of `addField` checks
overlapped-AllApart :
    (total : ℕ) (fs : List FieldDesc) (g : FieldDesc)
    → total < 2 ^ 64
    → g.offset + g.size ≤ total
    → IsLayout total fs
    → overlapped fs g.offset g.size ≡ none
    → AllApart fs g
unfolding overlapped AllApart IsLayout
overlapped-AllApart total [] g small within layout run = tt
overlapped-AllApart total (f ∷ fs) g small within layout run =
    let end_g : (g.offset + g.size) % 2 ^ 64 ≡ g.offset + g.size = omega arith in
    let end_f : (f.offset + f.size) % 2 ^ 64 ≡ f.offset + f.size = omega (arith, layout.0) in
    let test =
      ltb f.offset ((g.offset + g.size) % 2 ^ 64) && ltb g.offset ((f.offset + f.size) % 2 ^ 64) in
    elim (Bool-cases test) [
      | inl z ↦ absurd (cc (run, hit f fs g z))
      | inr z ↦ (
        IsApart-of f g end_g end_f z,
        overlapped-AllApart total fs g small within layout.2 (sym (miss f fs g z) ∙ run),
      )
    ]

AllApart-snoc :
    (fs : List FieldDesc) (g h : FieldDesc)
    → AllApart fs h
    → IsApart g h
    → AllApart (fs ++ g ∷ []) h
unfolding AllApart
AllApart-snoc [] g h all one = (one, tt)
AllApart-snoc (f ∷ fs) g h all one = (all.0, AllApart-snoc fs g h all.1 one)

IsLayout-snoc :
    (total : ℕ) (fs : List FieldDesc) (g : FieldDesc)
    → g.offset + g.size ≤ total
    → AllApart fs g
    → IsLayout total fs
    → IsLayout total (fs ++ g ∷ [])
unfolding AllApart IsLayout
IsLayout-snoc total [] g within apart layout = (within, tt, tt)
IsLayout-snoc total (f ∷ fs) g within apart layout = (
  layout.0,
  AllApart-snoc fs g f layout.1 (⊎_elim (λ l. inr l) (λ r. inl r) apart.0),
  IsLayout-snoc total fs g within apart.1 layout.2,
)

-- A field that `addField` takes, where sizes do not wrap, leaves a layout: every field lies within the
-- total size, and no two have a common byte.
pub add_field-IsLayout :
    (b b' : StructDesc) (field : Bytes) (offset size : ℕ) (ctype : CType) (struct_type : Bytes)
    → b.total_size < 2 ^ 64
    → offset + size < 2 ^ 64
    → IsLayout b.total_size b.fields
    → add_field b field offset size ctype struct_type ≡ ok b'
    → IsLayout b'.total_size b'.fields
unfolding add_field
add_field-IsLayout b b' field offset size ctype struct_type small no_wrap layout =
    elim (Bool-cases (ltb b.total_size ((offset + size) % 2 ^ 64))) [
      | inl z ↦ rw z (λ run. absurd (cc run))
      | inr z ↦ rw z (elim (Option-cases (overlapped b.fields offset size)) [
        | inr (n, y) ↦ rw y (λ run. absurd (cc run))
        | inl y ↦ rw y (λ run.
            let g = new_field field offset size ctype struct_type in
            let within : offset + size ≤ b.total_size = ground arith in
            subst (λ d. IsLayout d.total_size d.fields) (ok_injective run)
              (IsLayout-snoc b.total_size b.fields g within
                (overlapped-AllApart b.total_size b.fields g small within layout y) layout))
      ])
    ]
