-- ===== src/Table/Probe.antt =====
-- `tableFindEntry` of src/bbl.cpp: what linear probing with tombstones finds.
use mathlib.Core.Option.{or_else}
use native.Mathlib.Nat.{mod-eq_of_lt}
use bbl.Prelude.{
  ℕ, zero, suc, ◌+◌, ◌-◌, ◌%◌, ◌≤◌, ◌<◌, bit_and, ◌≡◌, ◌≢◌, refl, sym, ap, ◌∙◌, subst, Bool, true,
  false, ◌==◌, ltb, if◌then◌else◌, Option, none, some, List, length, arith, Bool-cases, inl, inr,
  ◌⊎◌, ==_iff,
}
use bbl.Value.{key_equal, is_double}
use bbl.Value.Equality.{IsKey, key_equal_lem}
use bbl.Table.{
  Env, Entry, is_empty, is_tombstone, is_occupied, hash_value, find_loop, table_find_entry,
}
use bbl.Table.Buckets.{slot, keyed, keyed_at, keyed_once}
use bbl.Table.Mask.{IsPow2, mask-mod, IsPow2-pos}

-- the `d`-th place at which a key is looked for
unfoldable pub probe : ℕ → ℕ → ℕ → ℕ
probe k width d = (hash_value k % width + d) % width

pub probe-lt : (k width d : ℕ) → 0 < width → probe k width d < width
unfolding probe
probe-lt k width d h = omega arith

wrap_once : (x n : ℕ) → x < n → (x + n) % n ≡ x
wrap_once x n h = grind arith

-- a sum of two numbers below the modulus wraps at most once
mod_cases :
    (h c w : ℕ)
    → h < w
    → c < w
    → (((h + c) % w ≡ h + c) × (h + c < w)) ⊎ (((h + c) % w + w ≡ h + c) × (w ≤ h + c))
mod_cases h c w a b = elim (Bool-cases (ltb (h + c) w)) [
  | inl x ↦ inl (mod-eq_of_lt (ground (arith, x)), ground (arith, x))
  | inr x ↦
      let le : w ≤ h + c = ground (arith, x) in
      let e : h + c - w + w ≡ h + c = omega arith in
      let m : (h + c) % w ≡ h + c - w = rw e at (wrap_once (h + c - w) w (omega arith)) in
      inr (omega arith, le)
]

-- the first `width` places are different
pub probe_injective :
    (k width c d : ℕ) → c < width → d < width → probe k width c ≡ probe k width d → c ≡ d
unfolding probe
probe_injective k width c d hc hd e =
    let home = hash_value k % width in
    let h : home < width = omega arith in
    omega (arith, mod_cases home c width h hc, mod_cases home d width h hd)

-- the number of steps from the home place of the key to the place `p`
pub distance : ℕ → ℕ → ℕ → ℕ
distance k width p =
    let home = hash_value k % width in if ltb p home then p + width - home else p - home

distance_reaches :
    (home p w : ℕ)
    → home < w
    → p < w
    → (home + (if ltb p home then p + w - home else p - home)) % w ≡ p
distance_reaches home p w lt h = elim (Bool-cases (ltb p home)) [
  | inl x ↦ let e : home + (p + w - home) ≡ p + w = omega arith in rw (x, e) (wrap_once p w h)
  | inr x ↦ let e : home + (p - home) ≡ p = ground (arith, x) in rw (x, e) (mod-eq_of_lt h)
]

-- and every place is one of them
pub probe-distance :
    (k width p : ℕ)
    → p < width
    → (distance k width p < width) × (probe k width (distance k width p) ≡ p)
unfolding probe distance
probe-distance k width p h =
    let home = hash_value k % width in
    let lt : home < width = omega arith in
    let near : distance k width p < width = unfold distance in ground arith in
    (near, distance_reaches home p width lt h)

pub IsKey-ge_two : {k : ℕ} → IsKey k → 2 ≤ k
unfolding is_double
IsKey-ge_two {k} h = ground (arith, h.no_double)

-- Buckets that linear probing can search: a power of two of them, no key twice, and no empty entry
-- between the home place of a key and the place where it stands.
pub record IsProbed (bs : List Entry) : Type 0 where
  pub width : IsPow2 (length bs)
  pub clean : (p : ℕ) → p < length bs → is_occupied (slot bs p) ≡ true → IsKey (slot bs p).key
  pub once : (k : ℕ) → 2 ≤ k → keyed k bs ≤ 1
  pub chain :
      (k d j : ℕ)
      → 2 ≤ k
      → d < length bs
      → (slot bs (probe k (length bs) d)).key ≡ k
      → j < d
      → is_empty (slot bs (probe k (length bs) j)) ≡ false

pub extend : (P : ℕ → Type 0) (i : ℕ) → ((j : ℕ) → j < i → P j) → P i → (j : ℕ) → j < i + 1 → P j
extend P i below here j h = elim (Bool-cases (j == i)) [
  | inl e ↦ subst P (sym ((==_iff j i).0 e)) here
  | inr e ↦ below j (ground (arith, e))
]

-- `firstTombstone` after a visit of `e` at `p`
abbrev mark : Entry → ℕ → Option ℕ → Option ℕ
mark e p first = if is_tombstone e then or_else first (some p) else first

-- one round of the search, with the result of the rounds to come
abbrev visit : Entry → Bool → ℕ → Option ℕ → Option ℕ → Option ℕ
visit e same p first rest =
    if is_empty e
    then or_else first (some p)
    else if is_tombstone e
    then rest
    else if same
    then some p
    else rest

module _ (bs : List Entry) (key : ℕ) where
  -- the place of the `i`-th probe
  abbrev at : ℕ → ℕ
  at i = probe key (length bs) i

  -- the loop of `tableFindEntry` over the probes
  seek : ℕ → ℕ → Option ℕ → Option ℕ
  seek zero i first = first
  seek (suc n) i first =
      let e = slot bs (at i) in
      visit e (e.key == key) (at i) first (seek n (i + 1) (mark e (at i) first))

  seek_step :
      (n i : ℕ) (first : Option ℕ)
      → let e = slot bs (at i) in
        seek (suc n) i first
        ≡ visit e (e.key == key) (at i) first (seek n (i + 1) (mark e (at i) first))
  unfolding seek
  seek_step n i first = refl

  -- A free place that a search may return for an absent key; `none` if the first `i` probes are
  -- all taken.
  abbrev pub Vacant : ℕ → Option ℕ → Type 0
  Vacant i none = (j : ℕ) → j < i → is_occupied (slot bs (at j)) ≡ true
  Vacant i (some q) =
      (d : ℕ) × (d < length bs)
      × (q ≡ at d)
      × (is_occupied (slot bs q) ≡ false)
      × ((j : ℕ) → j < d → is_empty (slot bs (at j)) ≡ false)

module _ (env : Env) (bs : List Entry) (probed : IsProbed bs) (key : ℕ) (is_key : IsKey key) where
  place :
      (i : ℕ)
      → bit_and (bit_and (hash_value key) (length bs - 1) + i) (length bs - 1)
        ≡ probe key (length bs) i
  unfolding probe
  place i = rw (
    mask-mod (hash_value key) (length bs) probed.width,
    mask-mod (hash_value key % length bs + i) (length bs) probed.width,
  )

  find_loop_step :
      (idx width n i : ℕ) (first : Option ℕ)
      → let p = bit_and (idx + i) (width - 1) in
        find_loop env bs key idx width (suc n) i first
        ≡ visit
            (slot bs p)
            (key_equal env.kind env.float_eq (slot bs p).key key)
            p
            first
            (find_loop env bs key idx width n (i + 1) (mark (slot bs p) p first))
  unfolding find_loop
  find_loop_step idx width n i first = refl

  find_loop-seek :
      (n i : ℕ) (first : Option ℕ)
      → find_loop env bs key (bit_and (hash_value key) (length bs - 1)) (length bs) n i first
        ≡ seek bs key n i first
  find_loop-seek zero i first = unfold find_loop seek in refl
  find_loop-seek (suc n) i first =
      let p = probe key (length bs) i in
      let e = slot bs p in
      rw (find_loop_step, place i, find_loop-seek n (i + 1) (mark e p first), seek_step)
        (elim (Bool-cases (is_empty e)) [
          | inl x ↦ rw x
          | inr x ↦ elim (Bool-cases (is_tombstone e)) [
            | inl y ↦ rw (x, y)
            | inr y ↦
                rw
                  (key_equal_lem env.kind env.float_eq e.key key
                    (probed.clean _ (probe-lt key (length bs) i (IsPow2-pos _ probed.width))
                      (ground (arith, x, y)))
                    is_key)
                  refl
          ]
        ])

module _ (bs : List Entry) (key : ℕ) where
  -- the search stops at the place of the key, if it has one
  seek_present :
      (n i d : ℕ) (first : Option ℕ)
      → 2 ≤ key
      → d < length bs
      → (slot bs (at bs key d)).key ≡ key
      → ((j : ℕ) → j < d → is_empty (slot bs (at bs key j)) ≡ false)
      → ((j : ℕ) → j < d → (slot bs (at bs key j)).key ≢ key)
      → i ≤ d
      → d < i + n
      → seek bs key n i first ≡ some (at bs key d)
  unfolding seek
  seek_present zero i d first two lt e path other a b = absurd (omega arith)
  seek_present (suc n) i d first two lt e path other a b = elim (Bool-cases (i == d)) [
    | inl x ↦ let s = (==_iff i d).0 x in rw (seek_step, s) (ground (arith, e))
    | inr x ↦
        let p = at bs key i in
        let e' = slot bs p in
        let lt' : i < d = ground (arith, x) in
        let ne : (e'.key == key) ≡ false = ground (arith, other i lt') in
        let go =
          seek_present n (i + 1) d (mark e' p first) two lt e path other (omega arith)
            (omega arith) in
        rw (seek_step, path i lt', ne)
          (elim (Bool-cases (is_tombstone e')) [
            | inl y ↦ rw y (rw y at go)
            | inr y ↦ rw y (rw y at go)
          ])
  ]

  Vacant-here :
      (first : Option ℕ) (i m : ℕ)
      → Vacant bs key i first
      → i < length bs
      → is_occupied (slot bs (at bs key i)) ≡ false
      → ((j : ℕ) → j < i → is_empty (slot bs (at bs key j)) ≡ false)
      → Vacant bs key m (or_else first (some (at bs key i)))
  unfolding or_else
  Vacant-here none i m v lt free path = (i, lt, refl, free, path)
  Vacant-here (some q) i m v lt free path = v

  Vacant-past :
      (first : Option ℕ) (i : ℕ)
      → Vacant bs key i first
      → is_occupied (slot bs (at bs key i)) ≡ true
      → Vacant bs key (i + 1) first
  Vacant-past none i v taken = extend (λ j. is_occupied (slot bs (at bs key j)) ≡ true) i v taken
  Vacant-past (some q) i v taken = v

  -- the search for an absent key returns a free place, if there is one
  seek_absent :
      (n i : ℕ) (first : Option ℕ)
      → i + n ≡ length bs
      → ((j : ℕ) → j < length bs → (slot bs (at bs key j)).key ≢ key)
      → ((j : ℕ) → j < i → is_empty (slot bs (at bs key j)) ≡ false)
      → Vacant bs key i first
      → Vacant bs key (length bs) (seek bs key n i first)
  seek_absent zero i first e other path v =
      let all : i ≡ length bs = omega arith in
      unfold seek in subst (λ (m : ℕ). Vacant bs key m first) all v
  seek_absent (suc n) i first e other path v =
      let s = slot bs (at bs key i) in
      let lt : i < length bs = omega arith in
      let ne : (s.key == key) ≡ false = ground (arith, other i lt) in
      let step = λ (f : Option ℕ) (x : is_empty s ≡ false).
        seek_absent n (i + 1) f (omega arith) other
          (extend (λ j. is_empty (slot bs (at bs key j)) ≡ false) i path x) in
      rw seek_step (elim (Bool-cases (is_empty s)) [
        | inl x ↦ rw x (Vacant-here first i (length bs) v lt (ground (arith, x)) path)
        | inr x ↦ elim (Bool-cases (is_tombstone s)) [
          | inl y ↦ rw (x, y) (step _ x (Vacant-here first i (i + 1) v lt (ground (arith, y)) path))
          | inr y ↦ rw (x, y, ne) (step _ x (Vacant-past first i v (ground (arith, x, y))))
        ]
      ])

module _ (env : Env) (bs : List Entry) (probed : IsProbed bs) (key : ℕ) (is_key : IsKey key) where
  -- A key that is stored is found where it stands.
  pub table_find_entry_present :
      (p : ℕ)
      → p < length bs
      → (slot bs p).key ≡ key
      → table_find_entry env bs (length bs) key ≡ some p
  unfolding table_find_entry
  table_find_entry_present p lt e =
      let w = length bs in
      let d = distance key w p in
      let (dlt, dp) = probe-distance key w p lt in
      let two = IsKey-ge_two is_key in
      let here : (slot bs (probe key w d)).key ≡ key = rw dp e in
      rw (find_loop-seek env bs probed key is_key) (
        seek_present bs key w 0 d none two dlt here (λ j h. probed.chain key d j two dlt here h)
          (λ j h same.
            let pos = IsPow2-pos w probed.width in
            let eq = probe_injective key w j d (omega arith) dlt (
              keyed_once key bs _ _ (probe-lt key w j pos) (probe-lt key w d pos)
                (probed.once key two) same here) in
            omega arith)
          (omega arith) (omega arith)
        ∙ ap some dp)

  -- For a key that is not stored the search gives a free place, or none if every place is taken.
  pub table_find_entry_absent :
      keyed key bs ≡ 0 → Vacant bs key (length bs) (table_find_entry env bs (length bs) key)
  unfolding table_find_entry
  table_find_entry_absent none_of =
      let w = length bs in
      rw (find_loop-seek env bs probed key is_key) (
        seek_absent bs key w 0 none (omega arith)
          (λ j h same.
            absurd (
              omega (arith, keyed_at key bs _ (probe-lt key w j (IsPow2-pos w probed.width)) same)))
          (λ j h. absurd (omega arith)) (λ j h. absurd (omega arith)))
