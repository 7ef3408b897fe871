-- ===== src/Table/Insert.antt =====
-- One write to the buckets of `BblTable`: linear probing still works, and one key has changed.
use bbl.Prelude.{
  ℕ, ◌+◌, ◌≤◌, ◌<◌, ◌≡◌, sym, ap, ◌∙◌, subst, true, false, ◌==◌, if◌then◌else◌, none, some, List,
  length, set, arith, Bool-cases, inl, inr, ◌⊎◌, ==_iff, ==_ne, length-set, get_or-set_self,
  get_or-set_ne,
}
use bbl.Value.Equality.{IsKey}
use bbl.Table.{Entry, empty_entry, is_empty, is_occupied}
use bbl.Table.Buckets.{
  slot, keyed, scan, keyed_at, scan_at, scan-eq-none, to_nat, keyed-set, scan-set_other,
}
use bbl.Table.Mask.{IsPow2}
use bbl.Table.Probe.{IsProbed, probe, probe_injective}

pub slot-set :
    (bs : List Entry) (p q : ℕ) (e : Entry)
    → p < length bs
    → slot (set bs p e) q ≡ (if p == q then e else slot bs q)
slot-set bs p q e h = elim (Bool-cases (p == q)) [
  | inl x ↦ rw (x, ← (==_iff p q).0 x) (get_or-set_self bs p e empty_entry h)
  | inr x ↦ rw x (get_or-set_ne bs p q e empty_entry (==_ne p q x))
]

-- The entry `e` may be written to the place `p`: it is not empty; if it holds a key, the search for
-- that key passes `p`; and no other place holds the key.
pub record MayStand (bs : List Entry) (p : ℕ) (e : Entry) : Type 0 where
  pub inside : p < length bs
  pub solid : is_empty e ≡ false
  pub clean_key : is_occupied e ≡ true → IsKey e.key
  pub alone : (k : ℕ) → 2 ≤ k → keyed k bs + to_nat (e.key == k) ≤ 1 + to_nat ((slot bs p).key == k)
  pub reached :
      is_occupied e ≡ true
      → (d : ℕ) × (d < length bs)
        × (p ≡ probe e.key (length bs) d)
        × ((j : ℕ) → j < d → is_empty (slot bs (probe e.key (length bs) j)) ≡ false)

module _ (bs : List Entry) (probed : IsProbed bs) (p : ℕ) (e : Entry) (may : MayStand bs p e) where
  -- an entry that was not empty is not empty after the write
  still_solid : (q : ℕ) → is_empty (slot bs q) ≡ false → is_empty (slot (set bs p e) q) ≡ false
  still_solid q h = rw (slot-set bs p q e may.inside) (ground (arith, may.solid))

  set_chain :
      (k d j : ℕ)
      → 2 ≤ k
      → d < length bs
      → (slot (set bs p e) (probe k (length bs) d)).key ≡ k
      → j < d
      → is_empty (slot (set bs p e) (probe k (length bs) j)) ≡ false
  set_chain k d j two lt at below =
      let w = length bs in
      let q = probe k w d in
      elim (Bool-cases (p == q)) [
        | inl x ↦
            let same : e.key ≡ k = rw (slot-set bs p q e may.inside, x) at at in
            let (d', lt', here, path) = may.reached (ground (arith, same)) in
            let dd : d' ≡ d =
              probe_injective k w d' d lt' lt
                (subst (λ (m : ℕ). probe m w d' ≡ q) same (sym here ∙ (==_iff p q).0 x)) in
            still_solid _ (
              subst (λ (m : ℕ). is_empty (slot bs (probe m w j)) ≡ false) same
                (path j (omega arith)))
        | inr x ↦
            let old : (slot bs q).key ≡ k = rw (slot-set bs p q e may.inside, x) at at in
            still_solid _ (probed.chain k d j two lt old below)
      ]

  pub set-IsProbed : IsProbed (set bs p e)
  set-IsProbed = record {
    width = subst IsPow2 (sym (length-set bs p e)) probed.width;
    clean = λ q lt h. elim (Bool-cases (p == q)) [
      | inl x ↦
          rw (slot-set bs p q e may.inside, x)
            (may.clean_key (rw (slot-set bs p q e may.inside, x) at h))
      | inr x ↦
          rw (slot-set bs p q e may.inside, x)
            (probed.clean q (subst (λ (m : ℕ). q < m) (length-set bs p e) lt)
              (rw (slot-set bs p q e may.inside, x) at h))
    ];
    once =
        λ k two. ground (arith, may.alone k two, keyed-set k bs p e may.inside, probed.once k two);
    chain = rw (length-set bs p e) set_chain;
  }

  -- Only the key of the new entry and the key of the old one are changed.
  pub scan-set_fresh :
      (k : ℕ)
      → 2 ≤ k
      → is_occupied e ≡ true
      → ((slot bs p).key ≡ e.key) ⊎ (is_occupied (slot bs p) ≡ false)
      → scan k (set bs p e) ≡ (if e.key == k then some e.val else scan k bs)
  scan-set_fresh k two occ old = elim (Bool-cases (e.key == k)) [
    | inl x ↦
        let now : slot (set bs p e) p ≡ e = get_or-set_self bs p e empty_entry may.inside in
        let inside' : p < length (set bs p e) = rw (length-set bs p e) may.inside in
        let found =
          scan_at k (set bs p e) p inside' (set-IsProbed.once k two)
            (rw now ((==_iff e.key k).0 x)) in
        rw x (found ∙ ap (λ (s : Entry). some s.val) now)
    | inr x ↦ rw x (scan-set_other k bs p e x (ground (arith, x)))
  ]

  -- After an entry has become a tombstone its key is absent, and the others are as before.
  pub scan-set_tombstone :
      (k : ℕ)
      → 2 ≤ k
      → is_occupied e ≡ false
      → 2 ≤ (slot bs p).key
      → scan k (set bs p e) ≡ (if (slot bs p).key == k then none else scan k bs)
  scan-set_tombstone k two free old = elim (Bool-cases ((slot bs p).key == k)) [
    | inl x ↦ rw x (
        scan-eq-none k (set bs p e) (
          ground
            (arith, keyed-set k bs p e may.inside, probed.once k two, keyed_at k bs p may.inside)))
    | inr x ↦ rw x (scan-set_other k bs p e (ground (arith, free)) x)
  ]
