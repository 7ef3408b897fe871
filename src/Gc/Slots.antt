-- ===== src/Gc/Slots.antt =====
-- `BblTable::set` of src/bbl.cpp: a table refers to nothing but what it did and what was written.
use mathlib.Core.Option
use bbl.Prelude.{
  ℕ, ◌+◌, ◌*◌, ◌%◌, ◌^◌, ◌/◌, ◌≡◌, refl, sym, ap, ◌∙◌, subst, true, false, ◌||◌, ◌==◌, ltb,
  if◌then◌else◌, Option, none, some, List, [], ◌∷◌, set, replicate, Bool-cases, Option-cases, inl,
  inr,
}
use bbl.Prelude.Int.{pos_part}
use bbl.Value.{int_val}
use bbl.Table.{
  Env, Entry, Table, capacity, asize, empty_entry, is_occupied, table_find_entry, move_entries,
  table_grow, array_grow, is_array_key, set_array, set_entry, set_bucket, set_table,
}
use bbl.Gc.{array_values, bucket_values, table_values}
use bbl.Gc.Values.{
  Every, Every-append, Every-head, Every-left, Every-right, Every-tail, array_values-append,
  array_values-set, bucket_values-empty, bucket_values-here, bucket_values-set, bucket_values-tail,
}

-- the runs of `set` in the buckets
module _ (env : Env) (t t₁ : Table) (key val : ℕ) where
  abbrev roomy : Option Table
  roomy =
      if capacity t == 0 || ltb (capacity t * 3 % 2 ^ 32 / 4) ((t.count + 1) % 2 ^ 32)
      then table_grow env t
      else some t

  abbrev placed : Option Table → Option Table
  placed none = none
  placed (some r) = elim (table_find_entry env r.buckets (capacity r) key) [
    | none ↦ none
    | some p ↦ some (set_entry env r key val p)
  ]

  set_bucket-placed : set_bucket env t key val ≡ placed roomy
  unfolding set_bucket
  set_bucket-placed =
      elim roomy
        as (λ r.
          elim r [
            | none ↦ none
            | some r₁ ↦ elim (table_find_entry env r₁.buckets (capacity r₁) key) [
              | none ↦ none
              | some p ↦ some (set_entry env r₁ key val p)
            ]
          ]
          ≡ placed r) [ none ↦ refl | some r ↦ refl ]

  no_room : roomy ≡ none → set_bucket env t key val ≡ none
  no_room z = set_bucket-placed ∙ ap placed z

  no_entry :
      roomy ≡ some t₁
      → table_find_entry env t₁.buckets (capacity t₁) key ≡ none
      → set_bucket env t key val ≡ none
  no_entry z y = set_bucket-placed ∙ ap placed z ∙ rw (y, placed) refl

  entry_there :
      (p : ℕ)
      → roomy ≡ some t₁
      → table_find_entry env t₁.buckets (capacity t₁) key ≡ some p
      → set_bucket env t key val ≡ some (set_entry env t₁ key val p)
  entry_there p z y = set_bucket-placed ∙ ap placed z ∙ rw (y, placed) refl

-- the rounds of `tableGrow`
module _ (env : Env) (width : ℕ) (e : Entry) (es fresh : List Entry) where
  skip_entry :
      is_occupied e ≡ false
      → move_entries env width (e ∷ es) fresh ≡ move_entries env width es fresh
  unfolding move_entries
  skip_entry z = rw z refl

  stuck :
      is_occupied e ≡ true
      → table_find_entry env fresh width e.key ≡ none
      → move_entries env width (e ∷ es) fresh ≡ none
  unfolding move_entries
  stuck z x = rw (z, x) refl

  move_entry :
      (p : ℕ)
      → is_occupied e ≡ true
      → table_find_entry env fresh width e.key ≡ some p
      → move_entries env width (e ∷ es) fresh ≡ move_entries env width es (set fresh p e)
  unfolding move_entries
  move_entry p z x = rw (z, x) refl

module _ (P : ℕ → Type 0) where
  -- what a table refers to, by its two parts
  abbrev Both : Table → Type 0
  Both t = Every P (array_values t.array) × Every P (bucket_values t.buckets)

  module _ (env : Env) where
    move_entries-Every :
        (width : ℕ) (es fresh bs : List Entry)
        → move_entries env width es fresh ≡ some bs
        → Every P (bucket_values es)
        → Every P (bucket_values fresh)
        → Every P (bucket_values bs)
    unfolding move_entries
    move_entries-Every width [] fresh bs run old new =
        subst (λ l. Every P (bucket_values l)) (Option.some-injective fresh bs run) new
    move_entries-Every width (e ∷ es) fresh bs run old new = elim (Bool-cases (is_occupied e)) [
      | inr z ↦
          move_entries-Every width es fresh bs (sym (skip_entry env width e es fresh z) ∙ run)
            (bucket_values-tail P e es old) new
      | inl z ↦ elim (Option-cases (table_find_entry env fresh width e.key)) [
        | inl x ↦ absurd (cc (run, stuck env width e es fresh z x))
        | inr (p, x) ↦
            let here = bucket_values-here P e es z old in
            move_entries-Every width es (set fresh p e) bs
              (sym (move_entry env width e es fresh p z x) ∙ run) (bucket_values-tail P e es old)
              (bucket_values-set P fresh p e here.0 here.1 new)
      ]
    ]

    table_grow-Both : (t t' : Table) → table_grow env t ≡ some t' → Both t → Both t'
    unfolding table_grow
    table_grow-Both t t' run both =
        let new_cap = if ltb (capacity t) 8 then 8 else capacity t * 2 % 2 ^ 32 in
        let (bs, moved, e) =
          (Option.map-eq-some_iff (λ l. record t { buckets = l })
              (move_entries env new_cap t.buckets (replicate new_cap empty_entry))).0
            run in
        subst Both e (
          both.0,
          move_entries-Every new_cap t.buckets (replicate new_cap empty_entry) bs moved both.1
              (bucket_values-empty P new_cap),
        )

    set_array-Both : (t : Table) (key val : ℕ) → P val → Both t → Both (set_array env t key val)
    unfolding set_array array_grow
    set_array-Both t key val p both =
        let k = pos_part (int_val key) in
        elim (Bool-cases (ltb k (asize t))) [
          | inl z ↦ rw z (array_values-set P t.array k val p both.0, both.1)
          | inr z ↦
              rw z (array_values-set P _ k val p (array_values-append P t.array _ both.0), both.1)
        ]

    set_entry-Both :
        (t : Table) (key val p : ℕ) → P key → P val → Both t → Both (set_entry env t key val p)
    unfolding set_entry
    set_entry-Both t key val p pk pv both =
        (both.0, bucket_values-set P t.buckets p (record { key = key; val = val }) pk pv both.1)

    set_bucket-Both :
        (t t' : Table) (key val : ℕ)
        → set_bucket env t key val ≡ some t'
        → P key
        → P val
        → Both t
        → Both t'
    set_bucket-Both t t' key val run pk pv both =
        let crowded =
          capacity t == 0 || ltb (capacity t * 3 % 2 ^ 32 / 4) ((t.count + 1) % 2 ^ 32) in
        elim (Option-cases (if crowded then table_grow env t else some t)) [
          | inl z ↦ absurd (cc (run, no_room env t t key val z))
          | inr (t₁, z) ↦ elim (Option-cases (table_find_entry env t₁.buckets (capacity t₁) key)) [
            | inl y ↦ absurd (cc (run, no_entry env t t₁ key val z y))
            | inr (p, y) ↦
                let both₁ : Both t₁ = elim (Bool-cases crowded) [
                  | inl c ↦ table_grow-Both t t₁ (sym (rw c refl) ∙ z) both
                  | inr c ↦ subst Both (Option.some-injective t t₁ (sym (rw c refl) ∙ z)) both
                ] in
                subst Both
                  (Option.some-injective (set_entry env t₁ key val p) t'
                    (sym (entry_there env t t₁ key val p z y) ∙ run))
                  (set_entry-Both t₁ key val p pk pv both₁)
          ]
        ]

    -- a set leaves what was there and what the barriers are given
    pub set_table-Every :
        (t t' : Table) (key val : ℕ) (written : List ℕ)
        → set_table env t key val ≡ some (t', written)
        → Every P (table_values t)
        → Every P written
        → Every P (table_values t')
    unfolding set_table
    set_table-Every t t' key val written run old new =
        let both : Both t = (
          Every-left P (array_values t.array) (bucket_values t.buckets) old,
          Every-right P (array_values t.array) (bucket_values t.buckets) old,
        ) in
        elim (Bool-cases (is_array_key env key)) [
          | inl z ↦
              let e =
                Option.some-injective (set_array env t key val, val ∷ []) (t', written)
                  (sym (rw z refl) ∙ run) in
              let p = Every-head P val [] (subst (λ l. Every P l) (sym (ap (λ r. r.1) e)) new) in
              let done = subst Both (ap (λ r. r.0) e) (set_array-Both t key val p both) in
              Every-append P (array_values t'.array) (bucket_values t'.buckets) done.0 done.1
          | inr z ↦
              let (r, found, e) =
                (Option.map-eq-some_iff (λ r. (r, key ∷ val ∷ [])) (set_bucket env t key val)).0
                  (sym (rw z refl) ∙ run) in
              let news = subst (λ l. Every P l) (sym (ap (λ q. q.1) e)) new in
              let done = subst Both (ap (λ q. q.0) e) (
                set_bucket-Both t r key val found (Every-head P key (val ∷ []) news)
                  (Every-head P val [] (Every-tail P key (val ∷ []) news)) both) in
              Every-append P (array_values t'.array) (bucket_values t'.buckets) done.0 done.1
        ]
