-- ===== src/Gc/TableSet.antt =====
-- `BblTable::set` of src/bbl.cpp on a table in the heap, with its write barriers.

use mathlib.Core.List.{Memᴰ}
use mathlib.Core.Option
use bbl.Prelude.{
  ℕ, ◌≡◌, refl, sym, ap, subst, ◌∙◌, ◌==◌, some, List, Bool-cases, Option-cases, inl, inr, ◌⊎◌,
  ==_iff,
}
use bbl.Table.{Env, Table, set_table}
use bbl.Gc.{
  Content, text, table, closure, fn, opaque, Object, objects, find_object, kind_in, target,
  children, table_values,
}
use bbl.Gc.State.{
  GcState, this, Current, guarded_barriers, write_barriers, update_heap, with_content, set_content,
  table_set, remembered_content,
}
use bbl.Gc.Reach.{Aims}
use bbl.Gc.Live.{IsComplete}
use bbl.Gc.Marked.{IsComplete-IsTracked, IsTracked-IsComplete}
use bbl.Gc.Quiet.{IsQuiet, IsTracked, found_tenured}
use bbl.Gc.Update.{
  written, found_update, kind_in-update_at, objects-update_heap, IsQuiet-update_heap,
}
use bbl.Gc.Slots.{set_table-Every}
use bbl.Gc.Barrier.{IsTrackedBut, IsEven, write_barriers-IsTracked}

-- only a table is set
set_content-table :
    (env : Env) (key val : ℕ) (c : Content) (r : Table × List ℕ)
    → set_content env key val c ≡ some r
    → (t : Table) × (c ≡ table t) × (set_table env t key val ≡ some r)
set_content-table env key val (table t) r run = (t, refl, run)
set_content-table env key val (text b) r run = absurd (Option.none-ne-some r run)
set_content-table env key val (closure l e ks p) r run = absurd (Option.none-ne-some r run)
set_content-table env key val (fn l) r run = absurd (Option.none-ne-some r run)
set_content-table env key val opaque r run = absurd (Option.none-ne-some r run)

module _ (s : GcState) (a : ℕ) (c : Content) where
  -- the state between the write and its barriers
  abbrev stored : GcState
  stored = record s { heap = update_heap (with_content c) a s.heap }

  here_content : (o : Object) → (written (with_content c) a a o).content ≡ c
  here_content o = elim (Bool-cases (a == a)) [
    | inl y ↦ rw y refl
    | inr y ↦ absurd (cc (y, (==_iff a a).1 refl))
  ]

  stored_kinds : kind_in (objects s.heap) ≡ kind_in (objects stored.heap)
  stored_kinds = sym (
      ap kind_in (objects-update_heap (with_content c) a (λ o. refl) s.heap)
      ∙ kind_in-update_at (with_content c) a (λ o. refl) (λ o. refl) (objects s.heap))

  stored_dirty : (b : ℕ) (o : Object) → (written (with_content c) a b o).dirty ≡ o.dirty
  stored_dirty b o = elim (Bool-cases (b == a)) [ inl y ↦ rw y refl | inr y ↦ rw y refl ]

-- A table with a new content needs barriers for the new values only.
stored-IsTrackedBut :
    (s : GcState) (a : ℕ) (o : Object) (t t' : Table) (vs : List ℕ)
    → IsQuiet s.heap
    → IsTracked s
    → find_object a (objects s.heap) ≡ some o
    → o.content ≡ table t
    → ((w : ℕ) → Memᴰ w (table_values t') → Memᴰ w (table_values t) ⊎ Memᴰ w vs)
    → IsTrackedBut (stored s a (table t')) a vs
unfolding children remembered_content
stored-IsTrackedBut s a o t t' vs quiet tracked there same from =
    let f = with_content (table t') in
    record {
      tracks = λ x b w q r found mem aim young.
          let (p, found_p, eq) = found_update f a (λ o. refl) x s.heap.tenured found in
          let (u, young_u, eu) = found_update f a (λ o. refl) b s.heap.nursery young in
          let back = sym (stored_kinds s a (table t')) in
          let aim_p = subst (λ k. target k w ≡ some b) back aim in
          elim (Bool-cases (x == a)) [
            | inl y ↦
                let now : q.content ≡ table t' = ap (λ r. r.content) eq ∙ rw y refl in
                let at =
                  subst (λ n. find_object n s.heap.tenured ≡ some p) ((==_iff x a).0 y) found_p in
                let was : p.content ≡ table t =
                  cc (same, there, (found_tenured s.heap a quiet.distinct at).1) in
                let mem_t = subst (λ c. Memᴰ w (children c)) now mem in
                elim (from w mem_t) [
                  | inl old ↦
                      let old_p = subst (λ c. Memᴰ w (children c)) (sym was) old in
                      let (in_set, looked) =
                        tracked.tracks x b p u found_p (w, old_p, aim_p) young_u in
                      inr (
                        in_set,
                        (w, subst (λ c. Memᴰ w (remembered_content c)) (sym now) mem_t, aim),
                      )
                  | inr new ↦ inl ((==_iff x a).0 y, new)
                ]
            | inr y ↦
                let now : q.content ≡ p.content = ap (λ r. r.content) eq ∙ rw y refl in
                let mem_p = subst (λ c. Memᴰ w (children c)) now mem in
                let (in_set, looked) = tracked.tracks x b p u found_p (w, mem_p, aim_p) young_u in
                inr (
                  in_set,
                  subst (λ k. Aims k (remembered_content q.content) b) (sym back)
                      (subst (λ c. Aims (kind_in (objects s.heap)) (remembered_content c) b)
                        (sym now) looked),
                )
          ];
      dirty_in = λ x q found d.
          let (p, found_p, eq) = found_update f a (λ o. refl) x s.heap.tenured found in
          tracked.dirty_in x p found_p
            (sym (ap (λ r. r.dirty) eq ∙ stored_dirty s a (table t') x p) ∙ d);
    }

table_set_run :
    (env : Env) (a key val : ℕ) (s s' : GcState) (current : Current)
    → table_set env a key val this s ≡ some (s', current)
    → (o : Object) × (t : Table) × (t' : Table) × (vs : List ℕ) × (find_object a (objects s.heap)
        ≡ some o)
      × (o.content ≡ table t)
      × (set_table env t key val ≡ some (t', vs))
      × (write_barriers a vs (stored s a (table t')) ≡ s')
unfolding table_set guarded_barriers
table_set_run env a key val s s' current = elim (Option-cases (find_object a (objects s.heap))) [
  | inl z ↦ λ run. absurd (Option.none-ne-some (s', current) (sym (rw (z, table_set) refl) ∙ run))
  | inr (o, z) ↦ elim (Option-cases (set_content env key val o.content)) [
    | inl y ↦
        λ run. absurd (Option.none-ne-some (s', current) (sym (rw (z, y, table_set) refl) ∙ run))
    | inr (r, y) ↦ λ run.
        let (t, same, set) = set_content-table env key val o.content r y in
        (
          o,
          t,
          r.0,
          r.1,
          z,
          same,
          set,
          let done : ◌≡◌ {A = GcState × Current}
                  (write_barriers a r.1 (stored s a (table r.0)), this) (s', current) =
                Option.some-injective _ (s', current) (sym (rw (z, y, table_set) refl) ∙ run) in
              ap (λ p. p.0) done,
        )
  ]
]

-- On a heap between collections whose remembered set is complete, a `set` of a table that succeeds
-- while the thread's current state is the table's own leaves such a heap with such a set, whatever
-- the ages of the table, the key and the value.
pub table_set-IsComplete :
    (env : Env) (a key val : ℕ) (s s' : GcState) (current : Current)
    → IsQuiet s.heap
    → IsComplete s
    → table_set env a key val this s ≡ some (s', current)
    → IsQuiet s'.heap × IsComplete s'
unfolding children remembered_content
table_set-IsComplete env a key val s s' current quiet complete run =
    let (o, t, t', vs, there, same, set, done) = table_set_run env a key val s s' current run in
    let f = with_content (table t') in
    let tracked = IsComplete-IsTracked s complete in
    let from =
      set_table-Every (λ w. Memᴰ w (table_values t) ⊎ Memᴰ w vs) env t t' key val vs set
        (λ w m. inl m) (λ w m. inr m) in
    let even : IsEven (stored s a (table t')) a = λ q found.
      let (p, found_p, eq) = found_update f a (λ o. refl) a s.heap.tenured found in
      let now : q.content ≡ table t' = ap (λ r. r.content) eq ∙ here_content s a (table t') p in
      subst (λ c. remembered_content c ≡ children c) (sym now) refl in
    subst (λ r. IsQuiet r.heap × IsComplete r) done
      (let (quiet', tracked') =
          write_barriers-IsTracked (stored s a (table t')) a vs
            (IsQuiet-update_heap f a s.heap (λ o. refl) (λ o. refl) (λ o. refl) quiet) even
            (stored-IsTrackedBut s a o t t' vs quiet tracked there same from) in
        (quiet', IsTracked-IsComplete _ tracked'))
