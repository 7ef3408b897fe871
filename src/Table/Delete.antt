-- ===== src/Table/Delete.antt =====
-- `BblTable::del` of src/bbl.cpp.
use bbl.Prelude.{
  ℕ, ◌+◌, ◌-◌, ◌%◌, ◌^◌, ◌≤◌, ◌<◌, ◌≡◌, ◌≢◌, refl, sym, ap, ◌∙◌, subst, Bool, true, false, not,
  ◌==◌, if◌then◌else◌, Option, none, some, set, arith, Bool-cases, inl, inr, ==_iff, ==_ne,
  get_or-set_self, get_or-set_ne, length-set,
}
use bbl.Prelude.Int.{pos, pos_part}
use bbl.Value.{int_val, make_null}
use bbl.Value.Equality.{IsKey, int_key_injective}
use bbl.Table.{
  Env, Entry, Table, capacity, asize, is_occupied, is_int_key, in_range, in_array, array_at,
  tombstone_key, del, del_in_array, empty_entry,
}
use bbl.Table.Buckets.{
  slot, keyed, scan, occupied, scan-eq-none, scan_at, keyed_place, occupied-le, occupied-set,
}
use bbl.Table.Probe.{IsKey-ge_two, Vacant, table_find_entry_present, table_find_entry_absent}
use bbl.Table.Insert.{MayStand, set-IsProbed, scan-set_tombstone}
use bbl.Table.Invariant.{view, nonzero, filled, is_some, not_empty}
use bbl.Table.Array.{array_limit, filled-set, filled-le}
use bbl.Table.Sound.{IsSound, range_index, in_range_mono, view_covered, view_past, view_other}

-- The result of a removal of `key`.
pub record Removes (env : Env) (t : Table) (key : ℕ) (r : Table × Bool) : Type 0 where
  pub answers : r.1 ≡ is_some (view env t key)
  pub sound : IsSound env r.0
  pub reads : (j : ℕ) → IsKey j → view env r.0 j ≡ (if key == j then none else view env t j)

module _ (env : Env) {t : Table} (sound : IsSound env t) (key : ℕ) (is_key : IsKey key) where
  nothing-Removes : view env t key ≡ none → Removes env t key (t, false)
  nothing-Removes h = record {
    answers = rw h refl;
    sound = sound;
    reads = λ j jk. elim (Bool-cases (key == j)) [
      | inl x ↦ rw (x, ← (==_iff key j).0 x) h
      | inr x ↦ rw x refl
    ];
  }

  -- the count after a removal
  one_less : 1 ≤ t.count → capacity t < 2 ^ 30 → (t.count + 2 ^ 32 - 1) % 2 ^ 32 + 1 ≡ t.count
  one_less h roomy =
      omega (arith, sound.valid.counted, occupied-le t.buckets, filled-le t.array, sound.small)

  abbrev array_removed : Table
  array_removed = record t {
    array = set t.array (pos_part (int_val key)) 0;
    count = (t.count + 2 ^ 32 - 1) % 2 ^ 32;
    order = none;
  }

  array_reads :
      is_int_key env key ≡ true
      → in_range (int_val key) (asize t) ≡ true
      → int_val key ≡ pos (pos_part (int_val key))
      → pos_part (int_val key) < asize t
      → (j : ℕ) → IsKey j
      → view env array_removed j ≡ (if key == j then none else view env t j)
  array_reads int here exact lt j jk =
      let k = pos_part (int_val key) in
      let long = length-set t.array k 0 in
      let still = λ (b : Bool) (m : ℕ) (h : in_range (int_val m) (asize t) ≡ b).
        subst (λ (n : ℕ). in_range (int_val m) n ≡ b) (sym long) h in
      elim (Bool-cases (key == j)) [
        | inl x ↦
            rw (x, ← (==_iff key j).0 x)
              (view_covered env array_removed key int (still true key here)
                ∙ ap nonzero (get_or-set_self t.array k 0 0 lt))
        | inr x ↦ elim (Bool-cases (is_int_key env j)) [
          | inr y ↦ rw x (view_other env array_removed j y ∙ sym (view_other env t j y))
          | inl y ↦ elim (Bool-cases (in_range (int_val j) (asize t))) [
            | inr z ↦
                rw x (view_past env array_removed j (still false j z) ∙ sym (view_past env t j z))
            | inl z ↦
                let (j_exact, _) = range_index (int_val j) (asize t) z in
                let other : k ≢ pos_part (int_val j) = λ e. absurd (
                  ==_ne key j x (
                    int_key_injective env.kind key j is_key jk (unfold is_int_key in int)
                      (unfold is_int_key in y) (exact ∙ ap pos e ∙ sym j_exact))) in
                rw x (
                  view_covered env array_removed j y (still true j z)
                  ∙ ap nonzero (get_or-set_ne t.array k (pos_part (int_val j)) 0 0 other)
                  ∙ sym (view_covered env t j y z))
          ]
        ]
      ]

  -- `del` in the array part: zero bits are no value
  array-Removes :
      is_int_key env key ≡ true
      → in_range (int_val key) (asize t) ≡ true
      → (array_at t key == 0) ≡ false
      → capacity t < 2 ^ 30
      → Removes env t key (array_removed, true)
  array-Removes int here full roomy =
      let k = pos_part (int_val key) in
      let (exact, lt) = range_index (int_val key) (asize t) here in
      let long = length-set t.array k 0 in
      let gone = filled-set t.array k 0 lt in
      let counted : t.count ≡ occupied t.buckets + filled t.array = sound.valid.counted in
      let less : 1 ≤ t.count → (t.count + 2 ^ 32 - 1) % 2 ^ 32 + 1 ≡ t.count =
        λ h. one_less h roomy in
      record {
        answers = rw (view_covered env t key int here, full) refl;
        sound = record {
          valid = record {
            probed = sound.valid.probed;
            counted = ground (arith, full, gone, counted, less);
          };
          small = rw long sound.small;
          separate = sound.separate;
        };
        reads = array_reads int here exact lt;
      }

  module _ (p : ℕ) (lt : p < capacity t) (at : (slot t.buckets p).key ≡ key) where
    abbrev tomb : Entry
    tomb = record { key = tombstone_key; val = make_null }

    abbrev bucket_removed : Table
    bucket_removed = record t {
      buckets = set t.buckets p tomb;
      count = (t.count + 2 ^ 32 - 1) % 2 ^ 32;
      order = none;
    }

    tomb_may : MayStand t.buckets p tomb
    tomb_may = record {
      inside = lt;
      solid = refl;
      clean_key = λ h. cc h;
      alone = λ k two. ground (arith, sound.valid.probed.once k two);
      reached = λ h. absurd (cc h);
    }

    tomb_scan :
        (j : ℕ)
        → 2 ≤ j
        → scan j bucket_removed.buckets ≡ (if key == j then none else scan j t.buckets)
    tomb_scan j two =
        subst
          (λ (m : ℕ). scan j bucket_removed.buckets ≡ (if m == j then none else scan j t.buckets))
          at
          (scan-set_tombstone t.buckets sound.valid.probed p tomb tomb_may j two refl
            (rw at (IsKey-ge_two is_key)))

    key_stored : scan key t.buckets ≡ some (slot t.buckets p).val
    key_stored = scan_at key t.buckets p lt (sound.valid.probed.once key (IsKey-ge_two is_key)) at

    -- a key of the buckets is not covered by the array part
    view_stored : view env t key ≡ scan key t.buckets
    view_stored = elim (Bool-cases (is_int_key env key)) [
      | inr x ↦ view_other env t key x
      | inl x ↦ elim (Bool-cases (in_range (int_val key) (asize t))) [
        | inr y ↦ view_past env t key y
        | inl y ↦
            let absent =
              sound.separate key is_key x
                (in_range_mono (int_val key) (asize t) array_limit sound.small y) in
            absurd (cc (sym absent ∙ key_stored))
      ]
    ]

    bucket_reads :
        (j : ℕ) → IsKey j → view env bucket_removed j ≡ (if key == j then none else view env t j)
    bucket_reads j jk = elim (Bool-cases (is_int_key env j)) [
      | inr y ↦
          view_other env bucket_removed j y
          ∙ tomb_scan j (IsKey-ge_two jk)
          ∙ ap (λ (o : Option ℕ). if key == j then none else o) (sym (view_other env t j y))
      | inl y ↦ elim (Bool-cases (in_range (int_val j) (asize t))) [
        | inr z ↦
            view_past env bucket_removed j z
            ∙ tomb_scan j (IsKey-ge_two jk)
            ∙ ap (λ (o : Option ℕ). if key == j then none else o) (sym (view_past env t j z))
        | inl z ↦
            let absent =
              sound.separate j jk y
                (in_range_mono (int_val j) (asize t) array_limit sound.small z) in
            let differ : (key == j) ≡ false = elim (Bool-cases (key == j)) [
              | inr d ↦ d
              | inl d ↦ absurd (
                  cc (
                    sym
                      (subst (λ (m : ℕ). scan m t.buckets ≡ none) (sym ((==_iff key j).0 d)) absent)
                    ∙ key_stored))
            ] in
            rw differ (view_covered env bucket_removed j y z ∙ sym (view_covered env t j y z))
      ]
    ]

    bucket-Removes : capacity t < 2 ^ 30 → Removes env t key (bucket_removed, true)
    bucket-Removes roomy =
        let emptied = occupied-set t.buckets p tomb lt in
        let stands : is_occupied (slot t.buckets p) ≡ true =
          ground (arith, at, IsKey-ge_two is_key) in
        record {
          answers = rw (view_stored, key_stored) refl;
          sound = record {
            valid = record {
              probed = set-IsProbed t.buckets sound.valid.probed p tomb tomb_may;
              counted = ground (
                arith,
                emptied,
                stands,
                sound.valid.counted,
                λ (h : 1 ≤ t.count). one_less h roomy,
              );
            };
            small = sound.small;
            separate = λ j jk int limit.
                tomb_scan j (IsKey-ge_two jk) ∙ ground (arith, sound.separate j jk int limit);
          };
          reads = bucket_reads;
        }

  absent_view : del_in_array env t key ≡ false → scan key t.buckets ≡ none → view env t key ≡ none
  unfolding del_in_array view
  absent_view x h = ground (arith, x, h)

  del-Vacant :
      (r : Option ℕ)
      → Vacant t.buckets key (capacity t) r
      → (elim r as (λ _. Table × Bool) [
        | none ↦ (t, false)
        | some p ↦
            let e = slot t.buckets p in
            if not (is_occupied e) then (t, false) else (
              record t {
                buckets = set t.buckets p (record { key = tombstone_key; val = make_null });
                count = (t.count + 2 ^ 32 - 1) % 2 ^ 32;
                order = none;
              },
              true,
            )
      ])
        ≡ (t, false)
  del-Vacant none v = refl
  del-Vacant (some p) (d, dlt, at, free, path) = rw free refl

  bucket_gone :
      capacity t < 2 ^ 30 → del_in_array env t key ≡ false → Removes env t key (del env t key)
  unfolding del
  bucket_gone roomy x = elim (Bool-cases (keyed key t.buckets == 0)) [
    | inl y ↦
        let h = (==_iff _ _).0 y in
        let v = table_find_entry_absent env t.buckets sound.valid.probed key is_key h in
        let none_here = nothing-Removes (absent_view x (scan-eq-none key t.buckets h)) in
        elim (Bool-cases (t.count == 0)) [
          | inl z ↦ rw (x, z) none_here
          | inr z ↦ rw (x, z, not_empty env sound.valid key is_key, del-Vacant _ v) none_here
        ]
    | inr y ↦
        let (p, lt, at) = keyed_place key t.buckets (ground (arith, y)) in
        let stands : is_occupied (slot t.buckets p) ≡ true =
          ground (arith, at, IsKey-ge_two is_key) in
        let found = table_find_entry_present env t.buckets sound.valid.probed key is_key p lt at in
        let counted : (t.count == 0) ≡ false =
          ground (arith, sound.valid.counted, occupied-set t.buckets p empty_entry lt, stands) in
        rw (x, counted, not_empty env sound.valid key is_key, found, stands)
          (bucket-Removes p lt at roomy)
  ]

  -- On a sound table of less than 2 ^ 30 buckets, and for a key that is no double, `del` tells whether the map of the table had the
  -- key, removes it, and leaves every other key as before; the result is sound again.
  pub del-Removes : capacity t < 2 ^ 30 → Removes env t key (del env t key)
  unfolding del del_in_array in_array
  del-Removes roomy = elim (Bool-cases (del_in_array env t key)) [
    | inr x ↦ bucket_gone roomy x
    | inl x ↦
        let int : is_int_key env key ≡ true = ground (arith, x) in
        let here : in_range (int_val key) (asize t) ≡ true = ground (arith, x) in
        let full : (array_at t key == 0) ≡ false = ground (arith, x) in
        rw x (array-Removes int here full roomy)
  ]
