-- ===== src/Table/Methods.antt =====
-- `BblTable::set` of src/bbl.cpp as a whole.

use bbl.Prelude.{
  ℕ, ◌^◌, ◌<◌, ◌≡◌, ◌≢◌, refl, ◌==◌, if◌then◌else◌, some, List, [], ◌∷◌, Bool-cases, inl, inr,
}
use bbl.Prelude.Result.{ok}
use bbl.Value.Equality.{IsKey}
use bbl.Table.{Env, Table, capacity, is_array_key, set_array, set_table, get}
use bbl.Table.Invariant.{get-view}
use bbl.Table.Sound.{IsApart, IsSound, Sets}
use bbl.Table.SetArray.{set_array-Sets}
use bbl.Table.SetBucket.{set_bucket-Sets}

module _ (env : Env) {t : Table} (sound : IsSound env t) (roomy : capacity t < 2 ^ 30) where
  -- On a sound table of less than 2 ^ 30 buckets `set` succeeds for every key that is no double and
  -- no integer between 1000000 and 4000000, and every value but the one of zero bits: the result is
  -- sound again, the map of the table has the value under the key, and every other key is as
  -- before.
  pub set_table-Sets :
      (key val : ℕ)
      → IsKey key
      → IsApart env key
      → val ≢ 0
      → (t' : Table) × (written : List ℕ) × (set_table env t key val ≡ some (t', written))
        × Sets env t key val t'
  unfolding set_table
  set_table-Sets key val is_key apart some_val = elim (Bool-cases (is_array_key env key)) [
    | inl x ↦ (
      set_array env t key val,
      val ∷ [],
      rw x refl,
      set_array-Sets env sound key val is_key x some_val roomy,
    )
    | inr x ↦
        let (t', run, sets) = set_bucket-Sets env sound roomy key val is_key x apart in
        (t', key ∷ val ∷ [], rw (x, run) refl, sets)
  ]

  -- On a sound table of less than 2 ^ 30 buckets, for a key that is no double and no integer between
  -- 1000000 and 4000000 and a value that is not the one of zero bits, `set` succeeds, and `get` then
  -- gives the value under the key, and what it gave before under any other key that is no double.
  pub get-set_table :
      (key val j : ℕ)
      → IsKey key
      → IsApart env key
      → val ≢ 0
      → IsKey j
      → (t' : Table) × (written : List ℕ) × (set_table env t key val ≡ some (t', written))
        × (get env t' j ≡ (if key == j then ok val else get env t j))
  get-set_table key val j is_key apart some_val jk =
      let (t', written, run, sets) = set_table-Sets key val is_key apart some_val in
      let after = get-view env sets.sound.valid j jk in
      let before = get-view env sound.valid j jk in
      (
        t',
        written,
        run,
        rw (after, before, sets.reads j jk)
            (elim (Bool-cases (key == j)) [ inl x ↦ rw x | inr x ↦ rw x ]),
      )
