-- ===== src/Api/Symbols.antt =====
-- `resolveSymbol`, `get` and `set` of `BblState` in src/bbl.cpp: globals by name.

use mathlib.Core.Option
use bbl.Prelude.{
  ℕ, ◌+◌, ◌%◌, ◌^◌, ◌≤◌, ◌<◌, ◌≡◌, ◌≢◌, refl, sym, ap, ◌∙◌, subst, true, false, if◌then◌else◌, none,
  some, ◌∷◌, arith, Bool-cases, Option-cases, inl, inr,
}
use bbl.Prelude.Result.{ok}
use bbl.Lexer.{Bytes, bytes_eq}
use bbl.Lexer.Names.{bytes_eq_same, bytes_eq_refl}
use bbl.Api.{
  ApiState, found, lookup, assign, set_global, find_symbol, resolve_symbol, get, set_value,
}
use bbl.Api.Variables.{lookup-assign_self, lookup-assign_ne}

-- Names have symbols of their own, which were given out, and so have the globals.
pub record IsSymbols (s : ApiState) : Type 0 where
  pub below : (n : Bytes) (i : ℕ) → find_symbol n s.symbol_ids ≡ some i → i < s.next_symbol_id
  pub distinct :
      (n m : Bytes) (i : ℕ)
      → find_symbol n s.symbol_ids ≡ some i
      → find_symbol m s.symbol_ids ≡ some i
      → n ≡ m
  pub fresh : (i : ℕ) → s.next_symbol_id ≤ i → lookup i s.globals.by_id ≡ none

module _ (n : Bytes) (s : ApiState) where
  resolve_known : (i : ℕ) → find_symbol n s.symbol_ids ≡ some i → resolve_symbol n s ≡ (i, s)
  unfolding resolve_symbol
  resolve_known i h = rw (h, resolve_symbol) refl

  -- the state with a symbol for the name
  abbrev named : ApiState
  named = record s {
    symbol_ids = (n, s.next_symbol_id) ∷ s.symbol_ids;
    next_symbol_id = (s.next_symbol_id + 1) % 2 ^ 32;
  }

  resolve_new : find_symbol n s.symbol_ids ≡ none → resolve_symbol n s ≡ (s.next_symbol_id, named)
  unfolding resolve_symbol
  resolve_new h = rw (h, resolve_symbol) refl

  found_at :
      (i : ℕ) → find_symbol n s.symbol_ids ≡ some i → (get n s).0 ≡ found (lookup i s.globals.by_id)
  unfolding get
  found_at i h = ap (λ r. found (lookup r.0 r.1.globals.by_id)) (resolve_known i h)

  found_new :
      find_symbol n s.symbol_ids ≡ none
      → (get n s).0 ≡ found (lookup s.next_symbol_id s.globals.by_id)
  unfolding get
  found_new h = ap (λ r. found (lookup r.0 r.1.globals.by_id)) (resolve_new h)

  -- what `set` writes to
  abbrev stored_to : ℕ → ℕ → ApiState → ApiState
  stored_to i v t = record t { globals = set_global i v t.globals }

  set_known : (i v : ℕ) → find_symbol n s.symbol_ids ≡ some i → set_value n v s ≡ stored_to i v s
  unfolding set_value
  set_known i v h = ap (λ r. stored_to r.0 v r.1) (resolve_known i h)

  set_new :
      (v : ℕ)
      → find_symbol n s.symbol_ids ≡ none
      → set_value n v s ≡ stored_to s.next_symbol_id v named
  unfolding set_value
  set_new v h = ap (λ r. stored_to r.0 v r.1) (resolve_new h)

find_named :
    (n m : Bytes) (s : ApiState)
    → bytes_eq n m ≡ false
    → find_symbol m (named n s).symbol_ids ≡ find_symbol m s.symbol_ids
unfolding find_symbol
find_named n m s h = rw h refl

find_named_self :
    (n m : Bytes) (s : ApiState)
    → bytes_eq n m ≡ true
    → find_symbol m (named n s).symbol_ids ≡ some s.next_symbol_id
unfolding find_symbol
find_named_self n m s h = rw h refl

-- where the write goes to another symbol
stored_ne :
    (n : Bytes) (s : ApiState) (i j v : ℕ)
    → i ≢ j
    → found (lookup j (stored_to n s i v s).globals.by_id) ≡ found (lookup j s.globals.by_id)
unfolding set_global
stored_ne n s i j v ne = ap found (lookup-assign_ne i j v s.globals.by_id ne)

stored_self :
    (n : Bytes) (s : ApiState) (i v : ℕ)
    → found (lookup i (stored_to n s i v s).globals.by_id) ≡ ok v
unfolding set_global
stored_self n s i v = ap found (lookup-assign_self i v s.globals.by_id)

-- a name that has a symbol is set
get-set_known :
    (n m : Bytes) (i v : ℕ) (s : ApiState)
    → IsSymbols s
    → find_symbol n s.symbol_ids ≡ some i
    → (get m (stored_to n s i v s)).0 ≡ (if bytes_eq n m then ok v else (get m s).0)
get-set_known n m i v s w h = elim (Bool-cases (bytes_eq n m)) [
  | inl z ↦
      let here : find_symbol m s.symbol_ids ≡ some i =
        subst (λ k. find_symbol k s.symbol_ids ≡ some i) (bytes_eq_same n m z) h in
      rw z (found_at m (stored_to n s i v s) i here ∙ stored_self n s i v)
  | inr z ↦ rw z (elim (Option-cases (find_symbol m s.symbol_ids)) [
    | inr (k, y) ↦
        let ne : i ≢ k = λ e. absurd (
          cc (
            z,
            bytes_eq_refl n,
            w.distinct n m i h (subst (λ l. find_symbol m s.symbol_ids ≡ some l) (sym e) y),
          )) in
        found_at m (stored_to n s i v s) k y ∙ stored_ne n s i k v ne ∙ sym (found_at m s k y)
    | inl y ↦
        let ne : i ≢ s.next_symbol_id = λ e. absurd (omega (arith, w.below n i h, e)) in
        found_new m (stored_to n s i v s) y
        ∙ stored_ne n s i s.next_symbol_id v ne
        ∙ sym (found_new m s y)
  ])
]

-- a new name is set
get-set_new :
    (n m : Bytes) (v : ℕ) (s : ApiState)
    → IsSymbols s
    → s.next_symbol_id + 1 < 2 ^ 32
    → find_symbol n s.symbol_ids ≡ none
    → (get m (stored_to n s s.next_symbol_id v (named n s))).0
      ≡ (if bytes_eq n m then ok v else (get m s).0)
unfolding set_global
get-set_new n m v s w room h =
    let next = s.next_symbol_id in
    let t = stored_to n s next v (named n s) in
    elim (Bool-cases (bytes_eq n m)) [
      | inl z ↦ rw z (found_at m t next (find_named_self n m s z) ∙ stored_self n s next v)
      | inr z ↦ rw z (elim (Option-cases (find_symbol m s.symbol_ids)) [
        | inr (k, y) ↦
            let ne : next ≢ k = λ e. absurd (omega (arith, w.below m k y, e)) in
            found_at m t k (find_named n m s z ∙ y)
            ∙ stored_ne n s next k v ne
            ∙ sym (found_at m s k y)
        | inl y ↦
            let after : (next + 1) % 2 ^ 32 ≡ next + 1 = omega (arith, room) in
            found_new m t (find_named n m s z ∙ y)
            ∙ ap (λ k. found (lookup k (assign next v s.globals.by_id))) after
            ∙ ap found (
                lookup-assign_ne next (next + 1) v s.globals.by_id (λ e. absurd (omega (arith, e)))
                ∙ w.fresh (next + 1) (omega arith)
                ∙ sym (w.fresh next (omega arith)))
            ∙ sym (found_new m s y)
      ])
    ]

known-IsSymbols :
    (n : Bytes) (i v : ℕ) (s : ApiState)
    → IsSymbols s
    → find_symbol n s.symbol_ids ≡ some i
    → IsSymbols (stored_to n s i v s)
unfolding set_global
known-IsSymbols n i v s w h = record {
  below = w.below;
  distinct = w.distinct;
  fresh = λ j far.
      lookup-assign_ne i j v s.globals.by_id (λ e. absurd (omega (arith, w.below n i h, e, far)))
      ∙ w.fresh j far;
}

new-IsSymbols :
    (n : Bytes) (v : ℕ) (s : ApiState)
    → IsSymbols s
    → s.next_symbol_id + 1 < 2 ^ 32
    → IsSymbols (stored_to n s s.next_symbol_id v (named n s))
unfolding set_global
new-IsSymbols n v s w room =
    let next = s.next_symbol_id in
    let after : (next + 1) % 2 ^ 32 ≡ next + 1 = omega (arith, room) in
    record {
      below = λ m i h. elim (Bool-cases (bytes_eq n m)) [
        | inl z ↦
            let same : next ≡ i =
              Option.some-injective next i (sym (find_named_self n m s z) ∙ h) in
            omega (arith, same, after)
        | inr z ↦ omega (arith, w.below m i (sym (find_named n m s z) ∙ h), after)
      ];
      distinct = λ a b i h k. elim (Bool-cases (bytes_eq n a)) [
        | inl z ↦ elim (Bool-cases (bytes_eq n b)) [
          | inl y ↦ sym (bytes_eq_same n a z) ∙ bytes_eq_same n b y
          | inr y ↦
              let same : next ≡ i =
                Option.some-injective next i (sym (find_named_self n a s z) ∙ h) in
              absurd (omega (arith, w.below b i (sym (find_named n b s y) ∙ k), same))
        ]
        | inr z ↦ elim (Bool-cases (bytes_eq n b)) [
          | inl y ↦
              let same : next ≡ i =
                Option.some-injective next i (sym (find_named_self n b s y) ∙ k) in
              absurd (omega (arith, w.below a i (sym (find_named n a s z) ∙ h), same))
          | inr y ↦ w.distinct a b i (sym (find_named n a s z) ∙ h) (sym (find_named n b s y) ∙ k)
        ]
      ];
      fresh = λ j far.
          lookup-assign_ne next j v s.globals.by_id (λ e. absurd (omega (arith, e, far, after)))
          ∙ w.fresh j (omega (arith, far, after));
    }

-- While fewer than 2 ^ 32 symbols are given out, `set` of a name keeps symbols in order, and `get` of a
-- name behind it gives the value that was set where the names are equal, and what it gave before, an
-- error included, where not.
pub get-set_value :
    (n m : Bytes) (v : ℕ) (s : ApiState)
    → IsSymbols s
    → s.next_symbol_id + 1 < 2 ^ 32
    → IsSymbols (set_value n v s)
      × ((get m (set_value n v s)).0 ≡ (if bytes_eq n m then ok v else (get m s).0))
get-set_value n m v s w room = elim (Option-cases (find_symbol n s.symbol_ids)) [
  | inr (i, h) ↦ (
    subst IsSymbols (sym (set_known n s i v h)) (known-IsSymbols n i v s w h),
    ap (λ t. (get m t).0) (set_known n s i v h) ∙ get-set_known n m i v s w h,
  )
  | inl h ↦ (
    subst IsSymbols (sym (set_new n s v h)) (new-IsSymbols n v s w room),
    ap (λ t. (get m t).0) (set_new n s v h) ∙ get-set_new n m v s w room h,
  )
]
