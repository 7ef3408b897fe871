-- ===== src/Table/Invariant.antt =====
-- What a table means, and what `BblTable` keeps true of its fields.
use bbl.Prelude.{
  ℕ, ◌+◌, ◌≤◌, ◌≡◌, refl, sym, ap, ◌∙◌, Bool, true, false, not, ◌==◌, if◌then◌else◌, Option, none,
  some, List, [], ◌∷◌, length, arith, Bool-cases, inl, inr, ==_iff,
}
use bbl.Prelude.Result.{Result, ok, err}
use bbl.Prelude.Int.{ℤ, pos, negsuc}
use bbl.Value.{int_val}
use bbl.Value.Equality.{IsKey}
use bbl.Table.{
  Env, Entry, Table, GetError, not_found, capacity, is_occupied, table_find_entry, in_array,
  array_at, get, has, new_table, in_range,
}
use bbl.Table.Buckets.{
  slot, keyed, scan, occupied, scan_at, scan-eq-none, to_nat, keyed_place, occupied-replicate,
}
use bbl.Table.Mask.{IsPow2-pos}
use bbl.Table.Probe.{
  IsProbed, IsKey-ge_two, Vacant, table_find_entry_present, table_find_entry_absent,
}
use bbl.Table.Grow.{replicate-IsProbed}

-- a value of the array part: zero bits mean that there is none
abbrev pub nonzero : ℕ → Option ℕ
nonzero v = if v == 0 then none else some v

-- the number of values in the array part
unfoldable pub filled : List ℕ → ℕ
filled [] = 0
filled (v ∷ vs) = to_nat (not (v == 0)) + filled vs

-- The map that a table stands for: the array part has the keys that it covers, the buckets the
-- others.
unfoldable pub view : Env → Table → ℕ → Option ℕ
view env t key = if in_array env t key then nonzero (array_at t key) else scan key t.buckets

pub record IsValid (t : Table) : Type 0 where
  pub probed : IsProbed t.buckets
  pub counted : t.count ≡ occupied t.buckets + filled t.array

-- a lookup's answer as `std::expected`
abbrev pub expected : Option ℕ → Result GetError ℕ
expected none = err not_found
expected (some v) = ok v

abbrev pub is_some : Option ℕ → Bool
is_some none = false
is_some (some v) = true

-- the value of the entry that a search gave, if it is occupied
abbrev pub read_at : List Entry → Option ℕ → Option ℕ
read_at bs none = none
read_at bs (some p) = if is_occupied (slot bs p) then some (slot bs p).val else none

module _ (env : Env) (bs : List Entry) (probed : IsProbed bs) (key : ℕ) (is_key : IsKey key) where
  read-Vacant : (r : Option ℕ) → Vacant bs key (length bs) r → read_at bs r ≡ none
  read-Vacant none v = refl
  read-Vacant (some p) (d, lt, at, free, path) = rw free

  pub read_found : read_at bs (table_find_entry env bs (length bs) key) ≡ scan key bs
  read_found = elim (Bool-cases (keyed key bs == 0)) [
    | inl x ↦
        let h = (==_iff _ _).0 x in
        read-Vacant _ (table_find_entry_absent env bs probed key is_key h)
        ∙ sym (scan-eq-none key bs h)
    | inr x ↦
        let (p, lt, at) = keyed_place key bs (ground (arith, x)) in
        let two = IsKey-ge_two is_key in
        let occ : is_occupied (slot bs p) ≡ true = ground (arith, at, two) in
        rw (table_find_entry_present env bs probed key is_key p lt at, occ)
          (sym (scan_at key bs p lt (probed.once key two) at))
  ]

occupied_some : (k : ℕ) (bs : List Entry) → 2 ≤ k → occupied bs ≡ 0 → scan k bs ≡ none
unfolding occupied scan
occupied_some k [] two h = refl
occupied_some k (e ∷ es) two h = ground (arith, occupied_some k es two)

module _ (env : Env) {t : Table} (valid : IsValid t) (key : ℕ) (is_key : IsKey key) where
  pub not_empty : (capacity t == 0) ≡ false
  not_empty = ground (arith, IsPow2-pos (capacity t) valid.probed.width)

  pub none_counted : (t.count == 0) ≡ true → scan key t.buckets ≡ none
  none_counted x =
      occupied_some key t.buckets (IsKey-ge_two is_key) (ground (arith, x, valid.counted))

  get_bucket :
      (r : Option ℕ)
      → (elim r [
        | none ↦ err not_found
        | some p ↦
            let e = slot t.buckets p in if not (is_occupied e) then err not_found else ok e.val
      ])
        ≡ expected (read_at t.buckets r)
  get_bucket none = refl
  get_bucket (some p) = ground arith

  has_bucket :
      (r : Option ℕ)
      → (elim r [ none ↦ false | some p ↦ is_occupied (slot t.buckets p) ])
        ≡ is_some (read_at t.buckets r)
  has_bucket none = refl
  has_bucket (some p) = ground arith

  -- On a valid table, and for a key that is no double, `get` gives the value that the map of the table
  -- has under the key, or `NotFound`.
  pub get-view : get env t key ≡ expected (view env t key)
  unfolding get view
  get-view = elim (Bool-cases (in_array env t key)) [
    | inl x ↦ rw x (ground arith)
    | inr x ↦ elim (Bool-cases (t.count == 0)) [
      | inl y ↦ rw (x, y, none_counted y)
      | inr y ↦
          rw (x, y, not_empty, get_bucket)
            (ap expected (read_found env t.buckets valid.probed key is_key))
    ]
  ]

  -- On a valid table, and for a key that is no double, `has` tells whether the map of the table has
  -- the key.
  pub has-view : has env t key ≡ is_some (view env t key)
  unfolding has view
  has-view = elim (Bool-cases (in_array env t key)) [
    | inl x ↦ rw x (ground arith)
    | inr x ↦ elim (Bool-cases (t.count == 0)) [
      | inl y ↦ rw (x, y, none_counted y)
      | inr y ↦
          rw (x, y, not_empty, has_bucket)
            (ap is_some (read_found env t.buckets valid.probed key is_key))
    ]
  ]

no_range : (n : ℤ) → in_range n 0 ≡ false
no_range (pos n) = ground arith
no_range (negsuc n) = refl

-- A new table is valid.
pub new_table-IsValid : IsValid new_table
unfolding new_table filled
new_table-IsValid = record {
  probed = replicate-IsProbed 4 (2, refl);
  counted = sym (omega (arith, occupied-replicate 4));
}

-- The map of a new table is empty.
pub view-new_table : (env : Env) (key : ℕ) → IsKey key → view env new_table key ≡ none
unfolding new_table view scan in_array
view-new_table env key is_key = ground (arith, no_range (int_val key), IsKey-ge_two is_key)
