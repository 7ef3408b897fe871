-- ===== src/Table/Dest.antt =====
-- The entry that `tableFindEntry` gives to a writer: there is one while a place is free, and linear
-- probing survives the write.
use bbl.Prelude.{
  ℕ, ◌≤◌, ◌<◌, ◌≡◌, refl, sym, subst, true, false, ◌==◌, Option, none, some, List, length, arith,
  Bool-cases, inl, inr, ◌⊎◌, ==_iff,
}
use bbl.Value.Equality.{IsKey}
use bbl.Table.{Env, Entry, is_occupied, table_find_entry}
use bbl.Table.Buckets.{slot, keyed, occupied, keyed_place, occupied_full}
use bbl.Table.Mask.{IsPow2-pos}
use bbl.Table.Probe.{
  IsProbed, probe, probe-lt, distance, probe-distance, IsKey-ge_two, Vacant,
  table_find_entry_present, table_find_entry_absent,
}
use bbl.Table.Insert.{MayStand}

-- The entry found for a key: it stands under the key, or it is free and the key is absent.
pub record Dest (env : Env) (bs : List Entry) (key val : ℕ) : Type 0 where
  pub index : ℕ
  pub found : table_find_entry env bs (length bs) key ≡ some index
  pub may : MayStand bs index (record { key = key; val = val })
  pub old :
      ((slot bs index).key ≡ key) ⊎ ((is_occupied (slot bs index) ≡ false) × (keyed key bs ≡ 0))

module _ (env : Env) (bs : List Entry) (probed : IsProbed bs) (key val : ℕ)
    (is_key : IsKey key) where
  Dest-present : 1 ≤ keyed key bs → Dest env bs key val
  Dest-present h =
      let w = length bs in
      let (p, lt, at) = keyed_place key bs h in
      let two = IsKey-ge_two is_key in
      let (dlt, dp) = probe-distance key w p lt in
      let here : (slot bs (probe key w (distance key w p))).key ≡ key = rw dp at in
      record {
        index = p;
        found = table_find_entry_present env bs probed key is_key p lt at;
        may = record {
          inside = lt;
          solid = ground arith;
          clean_key = λ _. is_key;
          alone = λ k k_two. ground (arith, probed.once k k_two, at);
          reached =
              λ _. (distance key w p, dlt, sym dp, λ j jd. probed.chain key _ j two dlt here jd);
        };
        old = inl at;
      }

  Dest-absent :
      keyed key bs ≡ 0
      → (r : Option ℕ) → table_find_entry env bs (length bs) key ≡ r
      → Vacant bs key (length bs) r
      → occupied bs < length bs
      → Dest env bs key val
  Dest-absent h none e v room =
      let w = length bs in
      let full = occupied_full bs (λ p lt.
        let (dlt, dp) = probe-distance key w p lt in
        subst (λ (m : ℕ). is_occupied (slot bs m) ≡ true) dp (v (distance key w p) dlt)) in
      absurd (omega arith)
  Dest-absent h (some p) e (d, dlt, at, free, path) room = record {
    index = p;
    found = e;
    may = record {
      inside = rw at (probe-lt key (length bs) d (IsPow2-pos _ probed.width));
      solid = ground (arith, IsKey-ge_two is_key);
      clean_key = λ _. is_key;
      alone = λ k k_two. ground (arith, probed.once k k_two, h);
      reached = λ _. (d, dlt, at, path);
    };
    old = inr (free, h);
  }

  -- While a place is free every key has its entry to write to.
  pub find-Dest : occupied bs < length bs → Dest env bs key val
  find-Dest room = elim (Bool-cases (keyed key bs == 0)) [
    | inl x ↦
        let h = (==_iff _ _).0 x in
        Dest-absent h _ refl (table_find_entry_absent env bs probed key is_key h) room
    | inr x ↦ Dest-present (ground (arith, x))
  ]
