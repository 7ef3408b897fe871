-- ===== src/Table/Grow.antt =====
-- `tableGrow` of src/bbl.cpp: every entry is found again in the larger vector.
use mathlib.Core.Option
use mathlib.Core.Option.{or_else}
use bbl.Prelude.{
  ℕ, suc, ◌+◌, ◌*◌, ◌%◌, ◌^◌, ◌≤◌, ◌<◌, ◌≡◌, refl, sym, ap, ◌∙◌, subst, true, false, ◌==◌, ltb,
  if◌then◌else◌, Option, none, some, List, [], ◌∷◌, length, set, replicate, arith, Bool-cases, inl,
  inr, ==_iff, length-set, length-replicate, get_or-replicate,
}
use bbl.Value.Equality.{IsKey}
use bbl.Table.{
  Env, Entry, Table, capacity, empty_entry, is_occupied, table_find_entry, move_entries, table_grow,
}
use bbl.Table.Buckets.{
  slot, keyed, scan, occupied, keyed_at, scan-eq-none, keyed-set, occupied-set, keyed-replicate,
  occupied-replicate, occupied-le, to_nat,
}
use bbl.Table.Mask.{IsPow2, IsPow2-double}
use bbl.Table.Probe.{IsProbed, probe, IsKey-ge_two}
use bbl.Table.Insert.{set-IsProbed, scan-set_fresh}
use bbl.Table.Dest.{find-Dest}

-- Buckets that hold `total` entries under keys and read as `f`.
pub record Holds (width total : ℕ) (f : ℕ → Option ℕ) (bs : List Entry) : Type 0 where
  pub probed : IsProbed bs
  pub size : length bs ≡ width
  pub entries : occupied bs ≡ total
  pub reads : (k : ℕ) → 2 ≤ k → scan k bs ≡ f k

-- The old entries, not yet moved: their keys are well formed, and none is in the new vector.
record Pending (es fresh : List Entry) : Type 0 where
  clean : (p : ℕ) → p < length es → is_occupied (slot es p) ≡ true → IsKey (slot es p).key
  apart : (k : ℕ) → 2 ≤ k → keyed k es + keyed k fresh ≤ 1
  room : occupied es + occupied fresh < length fresh

skip :
    {e : Entry} {es fresh : List Entry}
    → is_occupied e ≡ false
    → Pending (e ∷ es) fresh
    → Pending es fresh
unfolding keyed occupied
skip {e} x pending = record {
  clean = λ p lt. pending.clean (suc p) (omega arith);
  apart = λ k two. omega (arith, pending.apart k two);
  room = omega (arith, pending.room);
}

occupied_cons :
    (e : Entry) (es : List Entry) → occupied (e ∷ es) ≡ to_nat (is_occupied e) + occupied es
unfolding occupied
occupied_cons e es = refl

-- the key at the front is in neither list
front_absent :
    (e : Entry) (es fresh : List Entry)
    → 2 ≤ e.key
    → Pending (e ∷ es) fresh
    → (keyed e.key es ≡ 0) × (keyed e.key fresh ≡ 0)
unfolding keyed
front_absent e es fresh two pending =
    (ground (arith, pending.apart e.key two), ground (arith, pending.apart e.key two))

moved-Pending :
    {e : Entry} {es fresh : List Entry} (p : ℕ)
    → is_occupied e ≡ true
    → p < length fresh
    → is_occupied (slot fresh p) ≡ false
    → Pending (e ∷ es) fresh
    → Pending es (set fresh p e)
unfolding keyed occupied
moved-Pending {e} {es} {fresh} p x lt free pending = record {
  clean = λ q h. pending.clean (suc q) (omega arith);
  apart = λ k two. ground (arith, pending.apart k two, keyed-set k fresh p e lt, free);
  room =
      rw (length-set fresh p e) (ground (arith, pending.room, occupied-set fresh p e lt, free, x));
}

module _ (env : Env) (width : ℕ) where
  move_skip :
      (e : Entry) (es fresh : List Entry)
      → is_occupied e ≡ false
      → move_entries env width (e ∷ es) fresh ≡ move_entries env width es fresh
  unfolding move_entries
  move_skip e es fresh x = rw x

  move_found :
      (e : Entry) (es fresh : List Entry) (p : ℕ)
      → is_occupied e ≡ true
      → table_find_entry env fresh width e.key ≡ some p
      → move_entries env width (e ∷ es) fresh ≡ move_entries env width es (set fresh p e)
  unfolding move_entries
  move_found e es fresh p x found = rw (x, found)

  -- what is read after a move, from what is read after the rest of the moves
  reads_moved :
      (e : Entry) (es fresh : List Entry) (k : ℕ)
      → is_occupied e ≡ true
      → (keyed e.key es ≡ 0) × (keyed e.key fresh ≡ 0)
      → or_else (if e.key == k then some e.val else scan k fresh) (scan k es)
        ≡ or_else (scan k fresh) (scan k (e ∷ es))
  unfolding scan or_else
  reads_moved e es fresh k x (none_es, none_fresh) = elim (Bool-cases (e.key == k)) [
    | inl y ↦
        let absent = scan-eq-none e.key fresh none_fresh in
        let here : scan k fresh ≡ none =
          subst (λ (m : ℕ). scan m fresh ≡ none) ((==_iff e.key k).0 y) absent in
        rw (y, here)
    | inr y ↦ rw y
  ]

  reads_skipped :
      (e : Entry) (es fresh : List Entry) (k : ℕ)
      → 2 ≤ k
      → is_occupied e ≡ false
      → scan k (e ∷ es) ≡ scan k es
  unfolding scan
  reads_skipped e es fresh k two x = let ne : (e.key == k) ≡ false = ground (arith, x) in rw ne

  move_entries-Holds :
      (es fresh : List Entry)
      → length fresh ≡ width
      → IsProbed fresh
      → Pending es fresh
      → (r : List Entry) × (move_entries env width es fresh ≡ some r)
        × Holds width (occupied es + occupied fresh) (λ k. or_else (scan k fresh) (scan k es)) r
  move_entries-Holds [] fresh size probed pending = (
    fresh,
    unfold move_entries in refl,
    record {
      probed = probed;
      size = size;
      entries = unfold occupied in omega arith;
      reads = λ k two. unfold scan or_else in ground arith;
    },
  )
  move_entries-Holds (e ∷ es) fresh size probed pending = elim (Bool-cases (is_occupied e)) [
    | inl x ↦
        let is_key = pending.clean 0 (omega arith) x in
        let absent = front_absent e es fresh (IsKey-ge_two is_key) pending in
        let room : occupied fresh < length fresh = omega (arith, pending.room) in
        let dest = find-Dest env fresh probed e.key e.val is_key room in
        let p = dest.index in
        let lt = dest.may.inside in
        let free : is_occupied (slot fresh p) ≡ false =
          ground (arith, dest.old, absent, keyed_at e.key fresh p lt) in
        let (r, run, holds) =
          move_entries-Holds es (set fresh p e) (length-set fresh p e ∙ size)
            (set-IsProbed fresh probed p e dest.may) (moved-Pending p x lt free pending) in
        (
          r,
          move_found e es fresh p x
                (subst (λ (w : ℕ). table_find_entry env fresh w e.key ≡ some p) size dest.found)
              ∙ run,
          record {
            probed = holds.probed;
            size = holds.size;
            entries =
                ground
                  (arith, holds.entries, occupied_cons e es, occupied-set fresh p e lt, free, x);
            reads = λ k two.
                holds.reads k two
                ∙ ap (λ (o : Option ℕ). or_else o (scan k es))
                    (scan-set_fresh fresh probed p e dest.may k two x (inr free))
                ∙ reads_moved e es fresh k x absent;
          },
        )
    | inr x ↦
        let (r, run, holds) = move_entries-Holds es fresh size probed (skip x pending) in
        (
          r,
          move_skip e es fresh x ∙ run,
          record {
            probed = holds.probed;
            size = holds.size;
            entries = ground (arith, holds.entries, occupied_cons e es, x);
            reads = λ k two.
                holds.reads k two
                ∙ ap (or_else (scan k fresh)) (sym (reads_skipped e es fresh k two x));
          },
        )
  ]

-- Fresh buckets can be searched.
pub replicate-IsProbed : (n : ℕ) → IsPow2 n → IsProbed (replicate n empty_entry)
replicate-IsProbed n pow = record {
  width = subst IsPow2 (sym (length-replicate n empty_entry)) pow;
  clean = λ p lt h. absurd (ground (arith, h, get_or-replicate n p empty_entry));
  once = λ k two. omega (arith, keyed-replicate k n two);
  chain = λ k d j two lt at below. absurd (
      ground
        (arith, at, get_or-replicate n (probe k (length (replicate n empty_entry)) d) empty_entry));
}

-- the capacity after `tableGrow`
abbrev pub grown : ℕ → ℕ
grown c = if ltb c 8 then 8 else c * 2 % 2 ^ 32

pub grown_lem : (c : ℕ) → IsPow2 c → c < 2 ^ 30 → IsPow2 (grown c) × (c < grown c)
grown_lem c pow lt = elim (Bool-cases (ltb c 8)) [
  | inl x ↦ rw x ((3, refl), ground (arith, x))
  | inr x ↦
      let e : c * 2 % 2 ^ 32 ≡ c * 2 = omega arith in
      rw (x, e) (IsPow2-double c pow, ground (arith, x))
]

-- On buckets in probing order, less than 2 ^ 30 of them, `tableGrow` finds a place for every entry:
-- the new buckets are in probing order, their number is the grown capacity, they have as many entries,
-- and under every key pattern but 0 and 1 they read as the old ones.
pub table_grow-Holds :
    (env : Env) (t : Table)
    → IsProbed t.buckets
    → capacity t < 2 ^ 30
    → (bs : List Entry) × (table_grow env t ≡ some (record t { buckets = bs }))
      × Holds (grown (capacity t)) (occupied t.buckets) (λ k. scan k t.buckets) bs
unfolding table_grow or_else
table_grow-Holds env t probed small =
    let n = grown (capacity t) in
    let (pow, more) = grown_lem (capacity t) probed.width small in
    let fresh : List Entry = replicate n empty_entry in
    let size = length-replicate n empty_entry in
    let pending : Pending t.buckets fresh = record {
      clean = probed.clean;
      apart = λ k two. omega (arith, probed.once k two, keyed-replicate k n two);
      room = omega (arith, occupied-replicate n, occupied-le t.buckets);
    } in
    let (r, run, holds) =
      move_entries-Holds env n t.buckets fresh size (replicate-IsProbed n pow) pending in
    (
      r,
      ap (Option.map (λ bs. record t { buckets = bs })) run,
      record {
        probed = holds.probed;
        size = holds.size;
        entries = omega (arith, holds.entries, occupied-replicate n);
        reads = λ k two.
            holds.reads k two
            ∙ ap (λ (o : Option ℕ). or_else o (scan k t.buckets))
                (scan-eq-none k fresh (keyed-replicate k n two));
      },
    )
