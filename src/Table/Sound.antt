-- ===== src/Table/Sound.antt =====
-- Tables on which the array part and the buckets of `BblTable` do not get in each other's way.

use bbl.Prelude.{
  ℕ, ◌≤◌, ◌<◌, ◌≡◌, refl, true, false, ◌==◌, if◌then◌else◌, none, some, replicate, arith,
  Bool-cases, inl, inr,
}
use bbl.Prelude.Int.{ℤ, pos, negsuc, pos_part}
use bbl.Value.{int_val}
use bbl.Value.Equality.{IsKey}
use bbl.Table.{Env, Table, new_table, asize, is_int_key, in_range, in_array, array_at, empty_entry}
use bbl.Table.Buckets.{keyed-replicate, scan, scan-eq-none}
use bbl.Table.Probe.{IsKey-ge_two}
use bbl.Table.Invariant.{new_table-IsValid, IsValid, view, nonzero}
use bbl.Table.Array.{array_limit}

-- An integer key that the array part may come to cover is one that `set` puts there.
abbrev pub IsApart : Env → ℕ → Type 0
IsApart env key =
    is_int_key env key ≡ true
    → in_range (int_val key) array_limit ≡ true
    → in_range (int_val key) 1000000 ≡ true

-- A valid table whose buckets hold no integer key that the array part may come to cover.
pub record IsSound (env : Env) (t : Table) : Type 0 where
  pub valid : IsValid t
  pub small : asize t ≤ array_limit
  pub separate :
      (j : ℕ)
      → IsKey j
      → is_int_key env j ≡ true
      → in_range (int_val j) array_limit ≡ true
      → scan j t.buckets ≡ none

-- The result of a write of `val` under `key`.
pub record Sets (env : Env) (t : Table) (key val : ℕ) (t' : Table) : Type 0 where
  pub sound : IsSound env t'
  pub reads : (j : ℕ) → IsKey j → view env t' j ≡ (if key == j then some val else view env t j)

-- the index of an integer key below a bound
pub range_index : (n : ℤ) (b : ℕ) → in_range n b ≡ true → (n ≡ pos (pos_part n)) × (pos_part n < b)
range_index (pos k) b h = (refl, ground (arith, h))
range_index (negsuc k) b h = absurd (cc h)

pub in_range_lt : (n : ℤ) (b : ℕ) → n ≡ pos (pos_part n) → pos_part n < b → in_range n b ≡ true
in_range_lt (pos k) b e h = ground arith
in_range_lt (negsuc k) b e h = cc

pub in_range_mono : (n : ℤ) (a b : ℕ) → a ≤ b → in_range n a ≡ true → in_range n b ≡ true
in_range_mono (pos k) a b h e = ground arith
in_range_mono (negsuc k) a b h e = e

pub not_in_range : (n : ℤ) (b : ℕ) → n ≡ pos (pos_part n) → in_range n b ≡ false → b ≤ pos_part n
not_in_range (pos k) b e h = ground (arith, h)
not_in_range (negsuc k) b e h = absurd (cc e)

pub not_range_mono : (n : ℤ) (a b : ℕ) → a ≤ b → in_range n b ≡ false → in_range n a ≡ false
not_range_mono (pos k) a b h e = ground arith
not_range_mono (negsuc k) a b h e = refl

module _ (env : Env) (t : Table) (j : ℕ) where
  pub view_covered :
      is_int_key env j ≡ true
      → in_range (int_val j) (asize t) ≡ true
      → view env t j ≡ nonzero (array_at t j)
  unfolding view in_array
  view_covered x y = rw (x, y)

  pub view_past : in_range (int_val j) (asize t) ≡ false → view env t j ≡ scan j t.buckets
  unfolding view in_array
  view_past y = elim (Bool-cases (is_int_key env j)) [ inl x ↦ rw (x, y) | inr x ↦ rw x ]

  pub view_other : is_int_key env j ≡ false → view env t j ≡ scan j t.buckets
  unfolding view in_array
  view_other x = rw x

-- A new table is sound.
pub new_table-IsSound : (env : Env) → IsSound env new_table
unfolding new_table
new_table-IsSound env = record {
  valid = new_table-IsValid;
  small = omega arith;
  separate = λ j jk int range.
      scan-eq-none j (replicate 4 empty_entry) (keyed-replicate j 4 (IsKey-ge_two jk));
}
