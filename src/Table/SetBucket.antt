-- ===== src/Table/SetBucket.antt =====
-- The branch of `BblTable::set` for the buckets, and `set` itself.
use bbl.Prelude.{
  ℕ, ◌+◌, ◌*◌, ◌/◌, ◌%◌, ◌^◌, ◌≤◌, ◌<◌, ◌≡◌, refl, sym, ap, ◌∙◌, subst, Bool, true, false, not,
  ◌==◌, ltb, ◌||◌, if◌then◌else◌, Option, none, some, List, length, get_or, set, arith, Bool-cases,
  inl, inr, ==_iff,
}
use bbl.Prelude.Int.{pos_part}
use bbl.Value.{int_val}
use bbl.Value.Equality.{IsKey}
use bbl.Table.{
  Env, Entry, Table, capacity, asize, is_occupied, is_int_key, in_range, is_array_key, set_entry,
  set_bucket, table_grow, table_find_entry,
}
use bbl.Table.Buckets.{slot, scan, occupied, occupied-le, occupied-set}
use bbl.Table.Probe.{IsProbed, IsKey-ge_two}
use bbl.Table.Insert.{set-IsProbed, scan-set_fresh}
use bbl.Table.Dest.{Dest, find-Dest}
use bbl.Table.Grow.{table_grow-Holds, grown_lem}
use bbl.Table.Invariant.{view, nonzero, filled}
use bbl.Table.Array.{array_limit, filled-le}
use bbl.Table.Sound.{IsApart, IsSound, Sets, in_range_mono, view_covered, view_past, view_other}

-- The table that the search for a free entry is made in: some entry is free, and it reads as before.
record Prepared (t t₁ : Table) : Type 0 where
  probed : IsProbed t₁.buckets
  same_array : t₁.array ≡ t.array
  same_count : t₁.count ≡ t.count
  same_occupied : occupied t₁.buckets ≡ occupied t.buckets
  same_reads : (k : ℕ) → 2 ≤ k → scan k t₁.buckets ≡ scan k t.buckets
  room : occupied t₁.buckets < capacity t₁

abbrev crowded : Table → Bool
crowded t = capacity t == 0 || ltb (capacity t * 3 % 2 ^ 32 / 4) ((t.count + 1) % 2 ^ 32)

prepare : Env → Table → Option Table
prepare env t = if crowded t then table_grow env t else some t

set_bucket_run :
    (env : Env) (t t₁ : Table) (key val p : ℕ)
    → prepare env t ≡ some t₁
    → table_find_entry env t₁.buckets (capacity t₁) key ≡ some p
    → set_bucket env t key val ≡ some (set_entry env t₁ key val p)
unfolding set_bucket prepare
set_bucket_run env t t₁ key val p run found =
    let run' : (if crowded t then table_grow env t else some t) ≡ some t₁ = run in
    rw (run', set_bucket) (rw found)

module _ (env : Env) {t : Table} (sound : IsSound env t) (roomy : capacity t < 2 ^ 30) where
  count_bound : t.count + 1 < 2 ^ 32
  count_bound =
      omega
        (arith, sound.valid.counted, occupied-le t.buckets, filled-le t.array, sound.small, roomy)

  uncrowded : crowded t ≡ false → occupied t.buckets < capacity t
  uncrowded x =
      let fits : (t.count + 1) % 2 ^ 32 ≡ t.count + 1 = omega (arith, count_bound) in
      let thrice : capacity t * 3 % 2 ^ 32 ≡ capacity t * 3 = omega arith in
      let y : (capacity t == 0 || ltb (capacity t * 3 / 4) (t.count + 1)) ≡ false =
        rw (fits, thrice) at x in
      ground (arith, y, sound.valid.counted)

  prepare-Prepared : (t₁ : Table) × (prepare env t ≡ some t₁) × Prepared t t₁
  unfolding prepare
  prepare-Prepared = elim (Bool-cases (crowded t)) [
    | inl x ↦
        let (bs, run, holds) = table_grow-Holds env t sound.valid.probed roomy in
        let (pow, more) = grown_lem (capacity t) sound.valid.probed.width roomy in
        (
          record t { buckets = bs },
          rw x run,
          record {
            probed = holds.probed;
            same_array = refl;
            same_count = refl;
            same_occupied = holds.entries;
            same_reads = holds.reads;
            room = omega (arith, holds.size, holds.entries, occupied-le t.buckets);
          },
        )
    | inr x ↦ (
      t,
      rw x refl,
      record {
        probed = sound.valid.probed;
        same_array = refl;
        same_count = refl;
        same_occupied = refl;
        same_reads = λ k two. refl;
        room = uncrowded x;
      },
    )
  ]

  module _ (key val : ℕ) (is_key : IsKey key) (t₁ : Table) (p : Prepared t t₁)
      (dest : Dest env t₁.buckets key val) where
    abbrev t' : Table
    t' = set_entry env t₁ key val dest.index

    set_entry_fields :
        (t'.buckets ≡ set t₁.buckets dest.index (record { key = key; val = val }))
        × (t'.array ≡ t₁.array)
        × (t'.count ≡ (
            if not (is_occupied (slot t₁.buckets dest.index))
            then (t₁.count + 1) % 2 ^ 32
            else t₁.count))
    unfolding set_entry
    set_entry_fields = (refl, refl, refl)

    entry_count : t'.count ≡ occupied t'.buckets + filled t'.array
    entry_count =
        let two = IsKey-ge_two is_key in
        let (eb, ea, ec) = set_entry_fields in
        let e : Entry = record { key = key; val = val } in
        let moved = occupied-set t₁.buckets dest.index e dest.may.inside in
        let next : (t₁.count + 1) % 2 ^ 32 ≡ t₁.count + 1 =
          omega (arith, p.same_count, count_bound) in
        let counted : t₁.count ≡ occupied t₁.buckets + filled t₁.array =
          omega
            (arith, sound.valid.counted, p.same_count, p.same_occupied, ap filled p.same_array) in
        rw (eb, ea, ec, next) (ground (arith, dest.old, two, moved, counted))

    entry_scan :
        (j : ℕ) → 2 ≤ j → scan j t'.buckets ≡ (if key == j then some val else scan j t.buckets)
    entry_scan j two =
        let e : Entry = record { key = key; val = val } in
        ap (scan j) set_entry_fields.0
        ∙ scan-set_fresh t₁.buckets p.probed dest.index e dest.may j two
            (ground (arith, IsKey-ge_two is_key)) (ground (arith, dest.old))
        ∙ ap (λ (o : Option ℕ). if key == j then some val else o) (p.same_reads j two)

    entry-IsProbed : IsProbed t'.buckets
    entry-IsProbed =
        subst IsProbed (sym set_entry_fields.0)
          (set-IsProbed t₁.buckets p.probed dest.index (record { key = key; val = val }) dest.may)

    entry_array : t'.array ≡ t.array
    entry_array = set_entry_fields.1 ∙ p.same_array

    module _ (branch : is_array_key env key ≡ false) (apart : IsApart env key) where
      uncovered : is_int_key env key ≡ true → in_range (int_val key) array_limit ≡ true → ⊥
      unfolding is_array_key
      uncovered int limit = cc (rw (int, apart int limit, is_array_key) at branch)

      entry_reads :
          (j : ℕ) → IsKey j → view env t' j ≡ (if key == j then some val else view env t j)
      entry_reads j jk = elim (Bool-cases (is_int_key env j)) [
        | inr y ↦
            view_other env t' j y
            ∙ entry_scan j (IsKey-ge_two jk)
            ∙ ap (λ (o : Option ℕ). if key == j then some val else o) (sym (view_other env t j y))
        | inl y ↦ elim (Bool-cases (in_range (int_val j) (asize t))) [
          | inr z ↦
              view_past env t' j (
                subst (λ (a : List ℕ). in_range (int_val j) (length a) ≡ false) (sym entry_array) z)
              ∙ entry_scan j (IsKey-ge_two jk)
              ∙ ap (λ (o : Option ℕ). if key == j then some val else o) (sym (view_past env t j z))
          | inl z ↦
              let limit = in_range_mono (int_val j) (asize t) array_limit sound.small z in
              let differ : (key == j) ≡ false = elim (Bool-cases (key == j)) [
                | inr d ↦ d
                | inl d ↦
                    let e = sym ((==_iff key j).0 d) in
                    absurd (
                      uncovered (subst (λ (m : ℕ). is_int_key env m ≡ true) e y)
                        (subst (λ (m : ℕ). in_range (int_val m) array_limit ≡ true) e limit))
              ] in
              rw differ (
                view_covered env t' j y (
                  subst (λ (a : List ℕ). in_range (int_val j) (length a) ≡ true) (sym entry_array)
                    z)
                ∙ ap (λ (a : List ℕ). nonzero (get_or a (pos_part (int_val j)) 0)) entry_array
                ∙ sym (view_covered env t j y z))
        ]
      ]

      entry_separate :
          (j : ℕ)
          → IsKey j
          → is_int_key env j ≡ true
          → in_range (int_val j) array_limit ≡ true
          → scan j t'.buckets ≡ none
      entry_separate j jk int limit = elim (Bool-cases (key == j)) [
        | inl d ↦
            let e = sym ((==_iff key j).0 d) in
            absurd (
              uncovered (subst (λ (m : ℕ). is_int_key env m ≡ true) e int)
                (subst (λ (m : ℕ). in_range (int_val m) array_limit ≡ true) e limit))
        | inr d ↦ entry_scan j (IsKey-ge_two jk) ∙ rw d (sound.separate j jk int limit)
      ]

      entry-Sets : Sets env t key val t'
      entry-Sets = record {
        sound = record {
          valid = record { probed = entry-IsProbed; counted = entry_count };
          small = rw entry_array sound.small;
          separate = entry_separate;
        };
        reads = entry_reads;
      }

  -- The bucket branch finds an entry, writes its key and nothing else.
  pub set_bucket-Sets :
      (key val : ℕ)
      → IsKey key
      → is_array_key env key ≡ false
      → IsApart env key
      → (t' : Table) × (set_bucket env t key val ≡ some t') × Sets env t key val t'
  set_bucket-Sets key val is_key branch apart =
      let (t₁, run, p) = prepare-Prepared in
      let dest = find-Dest env t₁.buckets p.probed key val is_key p.room in
      (
        set_entry env t₁ key val dest.index,
        set_bucket_run env t t₁ key val dest.index run dest.found,
        entry-Sets key val is_key t₁ p dest branch apart,
      )
