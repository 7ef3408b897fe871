-- ===== src/Table/SetArray.antt =====
-- The branch of `BblTable::set` for the array part.
use mathlib.Core.Path.{ap₂}
use bbl.Prelude.{
  ℕ, ◌+◌, ◌%◌, ◌^◌, ◌≤◌, ◌<◌, ◌≡◌, ◌≢◌, refl, sym, ap, ◌∙◌, subst, Bool, true, false, ◌==◌, ltb,
  if◌then◌else◌, some, length, get_or, set, replicate, arith, Bool-cases, inl, inr, ==_iff, ==_ne,
  ◌++◌, length-append, length-replicate, get_or-set_self, get_or-set_ne, length-set, get_or_past,
}
use bbl.Prelude.Int.{pos, pos_part}
use bbl.Value.{int_val}
use bbl.Value.Equality.{IsKey, int_key_injective}
use bbl.Table.{
  Env, Table, capacity, asize, is_int_key, in_range, is_array_key, set_array, array_grow,
}
use bbl.Table.Buckets.{scan, occupied, occupied-le}
use bbl.Table.Probe.{IsProbed}
use bbl.Table.Invariant.{view, nonzero, filled}
use bbl.Table.Array.{
  array_limit, array_grow_lem, filled-append_zeros, get_or-append_zeros, filled-set, filled-le,
}
use bbl.Table.Sound.{
  IsSound, Sets, range_index, in_range_lt, not_in_range, not_range_mono, view_covered, view_past,
  view_other,
}

module _ (t : Table) (key : ℕ) where
  -- the table before the write: the array part covers the key, and reads as before
  record Covers (t₁ : Table) : Type 0 where
    same_buckets : t₁.buckets ≡ t.buckets
    same_count : t₁.count ≡ t.count
    zeros : (i : ℕ) → get_or t₁.array i 0 ≡ get_or t.array i 0
    same_filled : filled t₁.array ≡ filled t.array
    wider : asize t ≤ asize t₁
    inside : pos_part (int_val key) < asize t₁
    limited : asize t₁ ≤ array_limit

  longer-Covers :
      (n : ℕ)
      → pos_part (int_val key) + 1 ≤ asize t + n
      → asize t + n ≤ array_limit
      → Covers (record t { array = t.array ++ replicate n 0 })
  longer-Covers n enough top =
      let total : length (t.array ++ replicate n 0) ≡ asize t + n =
        omega (arith, length-append t.array (replicate n 0), length-replicate {A = ℕ} n 0) in
      record {
        same_buckets = refl;
        same_count = refl;
        zeros = get_or-append_zeros t.array n;
        same_filled = filled-append_zeros t.array n;
        wider = rw total (omega arith);
        inside = rw total (omega arith);
        limited = rw total top;
      }

  covering : Table
  covering = let k = pos_part (int_val key) in if ltb k (asize t) then t else array_grow t (k + 1)

  covering-Covers : pos_part (int_val key) < 1000000 → asize t ≤ array_limit → Covers covering
  unfolding covering
  covering-Covers h small = elim (Bool-cases (ltb (pos_part (int_val key)) (asize t))) [
    | inl x ↦ rw x (record {
      same_buckets = refl;
      same_count = refl;
      zeros = λ i. refl;
      same_filled = refl;
      wider = omega arith;
      inside = ground (arith, x);
      limited = small;
    })
    | inr x ↦
        let (n, grown_to, enough, top) =
          array_grow_lem t (pos_part (int_val key) + 1) (omega arith) small in
        rw (x, grown_to) (longer-Covers n enough top)
  ]

  -- `isNew` of the array branch
  abbrev fresh_slot : Bool
  fresh_slot = get_or covering.array (pos_part (int_val key)) 0 == 0

  set_array_fields :
      (env : Env) (val : ℕ)
      → ((set_array env t key val).array ≡ set covering.array (pos_part (int_val key)) val)
        × ((set_array env t key val).buckets ≡ covering.buckets)
        × ((set_array env t key val).count
            ≡ (if fresh_slot then (covering.count + 1) % 2 ^ 32 else covering.count))
  unfolding set_array covering
  set_array_fields env val = (refl, refl, refl)

set_array_count :
    {env : Env} (t : Table) (key val : ℕ)
    → Covers t key (covering t key)
    → val ≢ 0
    → IsSound env t
    → capacity t < 2 ^ 30
    → (if fresh_slot t key then ((covering t key).count + 1) % 2 ^ 32 else (covering t key).count)
      ≡ occupied t.buckets + filled (set (covering t key).array (pos_part (int_val key)) val)
set_array_count t key val c some_val sound roomy =
    let written = filled-set (covering t key).array (pos_part (int_val key)) val c.inside in
    let ne : (val == 0) ≡ false = ground (arith, some_val) in
    let bound : t.count + 1 < 2 ^ 32 =
      omega (
        arith,
        sound.valid.counted,
        occupied-le t.buckets,
        filled-le t.array,
        sound.small,
        roomy,
      ) in
    elim (Bool-cases (fresh_slot t key)) [
      | inl x ↦
          let next : ((covering t key).count + 1) % 2 ^ 32 ≡ t.count + 1 =
            omega (arith, c.same_count, bound) in
          rw (x, next) (ground (arith, x, ne, written, c.same_filled, sound.valid.counted))
      | inr x ↦
          rw x (ground (arith, x, ne, written, c.same_filled, c.same_count, sound.valid.counted))
    ]

-- A table `t'` whose array is that of `t`, lengthened by zeros and written at the index of the key.
record Written (env : Env) (t : Table) (key val : ℕ) (t₁ t' : Table) : Type 0 where
  covers : Covers t key t₁
  array : t'.array ≡ set t₁.array (pos_part (int_val key)) val
  buckets : t'.buckets ≡ t.buckets
  is_int : is_int_key env key ≡ true
  exact : int_val key ≡ pos (pos_part (int_val key))
  some_val : val ≢ 0

module _ (env : Env) {t : Table} (sound : IsSound env t) (key val : ℕ) (is_key : IsKey key)
    {t₁ t' : Table} (w : Written env t key val t₁ t') where
  abbrev k : ℕ
  k = pos_part (int_val key)

  written_asize : asize t' ≡ asize t₁
  written_asize = ap length w.array ∙ length-set t₁.array k val

  written_here : view env t' key ≡ some val
  written_here =
      let covered =
        in_range_lt (int_val key) (asize t') w.exact (rw written_asize w.covers.inside) in
      let value : get_or t'.array k 0 ≡ val =
        rw w.array (get_or-set_self t₁.array k val 0 w.covers.inside) in
      let ne : (val == 0) ≡ false = ground (arith, w.some_val) in
      view_covered env t' key w.is_int covered ∙ rw (value, ne)

  -- an index other than the written one
  written_index : (n : ℕ) → k ≢ n → get_or t'.array n 0 ≡ get_or t.array n 0
  written_index n ne = rw w.array (get_or-set_ne t₁.array k n val 0 ne ∙ w.covers.zeros n)

  written_covered :
      (j : ℕ)
      → IsKey j
      → (key == j) ≡ false
      → is_int_key env j ≡ true
      → in_range (int_val j) (asize t') ≡ true
      → view env t' j ≡ view env t j
  written_covered j jk differ int here =
      let n = pos_part (int_val j) in
      let (j_exact, lt) = range_index (int_val j) (asize t') here in
      let other : k ≢ n = λ e. absurd (
        ==_ne key j differ (
          int_key_injective env.kind key j is_key jk (unfold is_int_key in w.is_int)
            (unfold is_int_key in int) (w.exact ∙ ap pos e ∙ sym j_exact))) in
      view_covered env t' j int here
      ∙ ap nonzero (written_index n other)
      ∙ elim (Bool-cases (in_range (int_val j) (asize t))) [
        | inl old ↦ sym (view_covered env t j int old)
        | inr new ↦
            let beyond : asize t ≤ n = not_in_range (int_val j) (asize t) j_exact new in
            let limit =
              in_range_lt (int_val j) array_limit j_exact
                (omega (arith, written_asize, w.covers.limited)) in
            rw (get_or_past t.array n 0 beyond)
              (sym (view_past env t j new ∙ sound.separate j jk int limit))
      ]

  written_reads : (j : ℕ) → IsKey j → view env t' j ≡ (if key == j then some val else view env t j)
  written_reads j jk = elim (Bool-cases (key == j)) [
    | inl x ↦ rw (x, ← (==_iff key j).0 x) written_here
    | inr x ↦ elim (Bool-cases (is_int_key env j)) [
      | inr y ↦ rw x (view_other env t' j y ∙ ap (scan j) w.buckets ∙ sym (view_other env t j y))
      | inl y ↦ elim (Bool-cases (in_range (int_val j) (asize t'))) [
        | inl z ↦ rw x (written_covered j jk x y z)
        | inr z ↦
            let before : in_range (int_val j) (asize t) ≡ false =
              not_range_mono (int_val j) (asize t) (asize t') (rw written_asize w.covers.wider) z in
            rw x (view_past env t' j z ∙ ap (scan j) w.buckets ∙ sym (view_past env t j before))
      ]
    ]
  ]

module _ (env : Env) {t : Table} (sound : IsSound env t) (key val : ℕ) (is_key : IsKey key) where
  -- The array branch writes its key and nothing else.
  pub set_array-Sets :
      is_array_key env key ≡ true
      → val ≢ 0
      → capacity t < 2 ^ 30
      → Sets env t key val (set_array env t key val)
  unfolding is_array_key
  set_array-Sets branch some_val roomy =
      let within : in_range (int_val key) 1000000 ≡ true = ground (arith, branch) in
      let (exact, lt) = range_index (int_val key) 1000000 within in
      let c = covering-Covers t key lt sound.small in
      let (ea, eb, ec) = set_array_fields t key env val in
      let t' = set_array env t key val in
      let w : Written env t key val (covering t key) t' = record {
        covers = c;
        array = ea;
        buckets = eb ∙ c.same_buckets;
        is_int = ground (arith, branch);
        exact = exact;
        some_val = some_val;
      } in
      record {
        sound = record {
          valid = record {
            probed = subst IsProbed (sym w.buckets) sound.valid.probed;
            counted =
                ec
                ∙ set_array_count t key val c some_val sound roomy
                ∙ ap₂ (λ (a b : ℕ). a + b) (sym (ap occupied w.buckets)) (sym (ap filled ea));
          };
          small = rw (written_asize env sound key val is_key w) c.limited;
          separate = λ j jk int limit. ap (scan j) w.buckets ∙ sound.separate j jk int limit;
        };
        reads = written_reads env sound key val is_key w;
      }
