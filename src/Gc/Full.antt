-- ===== src/Gc/Full.antt =====
-- `gcFull` of src/bbl.cpp keeps exactly what the roots lead to.
use bbl.Prelude.{
  ℕ, ◌≡◌, refl, sym, ap, ◌∙◌, true, false, none, some, List, [], ◌++◌, length, arith, Option-cases,
  inl, inr, ◌↔◌,
}
use bbl.Value.{GcType}
use bbl.Gc.Live.{Live, IsRoot, IsComplete}
use bbl.Gc.Marked.{Live-roots, IsTracked-IsComplete}
use bbl.Gc.{Object, Heap, objects, find_object, kind_in}
use bbl.Gc.State.{Roots, root_values, GcState, marked_heap, gc_full, sweep_list, promote, clean}
use bbl.Gc.Objects.{
  shape, is_marked, settled, unmarked-le, is_marked_found, is_marked_missing, settled_found,
  same_missing,
}
use bbl.Gc.Reach.{Reach, root, step}
use bbl.Gc.Mark.{SameShape-sym, SameShape-objects, same_object, Marks, mark_all-Marks}
use bbl.Gc.Sweep.{
  Distinct, Distinct-append, Distinct-shapes, Distinct-sweep_list, Distinct-joined, IsApart,
  sweep_list-IsWithin, find-sweep_list, sweep_list-find, find_tenured, find_promoted, find_only,
  cleaned, promoted, find-append_left, find-append_right,
}
use bbl.Gc.Quiet.{nothing_found, IsQuiet, survivor, find_objects, found_tenured, cleaned-shape}

-- the address is one that the roots lead to
abbrev pub Reached : Roots → GcState → ℕ → Type 0
Reached roots s a = Reach (kind_in (objects s.heap)) (objects s.heap) (root_values roots) a

module _ (roots : Roots) (s : GcState) (quiet : IsQuiet s.heap) where
  abbrev kinds : ℕ → GcType
  kinds = kind_in (objects s.heap)

  abbrev after : Heap
  after = marked_heap false (root_values roots) s.heap

  spread : Marks (kind_in (objects s.heap)) false s.heap (root_values roots) s.heap after
  unfolding marked_heap
  spread =
      mark_all-Marks (kind_in (objects s.heap)) false s.heap (length (objects s.heap))
        (root_values roots) (unmarked-le (objects s.heap))

  Distinct-after : Distinct (objects after)
  Distinct-after =
      Distinct-shapes (objects s.heap) (objects after) (SameShape-objects spread.same)
        quiet.distinct

  settled_here :
      (a : ℕ) {o : Object}
      → find_object a (objects s.heap) ≡ some o
      → settled false (objects after) a ≡ true
      → is_marked (objects after) a ≡ true
  settled_here a found h =
      let (p, there, like) = same_object a spread.same found in
      is_marked_found (objects after) a there
      ∙ ground (arith, sym (settled_found (objects after) a false there) ∙ h)

  Reach-settled : (a : ℕ) → Reached roots s a → settled false (objects after) a ≡ true
  Reach-settled a (root aim) = spread.settles a aim
  Reach-settled a (step {a = b} {o = o} r found aim) =
      spread.closed b a o found (quiet.bare b) (settled_here b found (Reach-settled b r)) aim

  Reached-marked :
      (a : ℕ) {o : Object}
      → find_object a (objects s.heap) ≡ some o
      → Reached roots s a
      → is_marked (objects after) a ≡ true
  Reached-marked a found r = settled_here a found (Reach-settled a r)

  marked-Reached : (a : ℕ) → is_marked (objects after) a ≡ true → Reached roots s a
  marked-Reached a m = elim (spread.sound a m) [
    | inl x ↦ absurd (cc (x, quiet.bare a))
    | inr (r, fresh) ↦ r
  ]

  abbrev live : List Object
  live = sweep_list after.nursery

  abbrev kept : List Object
  kept = sweep_list after.tenured

  origin_tenured :
      (a : ℕ) {o : Object}
      → find_object a (objects s.heap) ≡ some o
      → find_object a after.nursery ≡ none
      → (find_object a s.heap.nursery ≡ none) × (find_object a s.heap.tenured ≡ some o)
  origin_tenured a origin gone =
      let empty = same_missing a after.nursery s.heap.nursery (sym spread.same.nursery) gone in
      (empty, sym (find-append_right a s.heap.nursery s.heap.tenured empty) ∙ origin)

  -- a marked object is found in the list that is left
  marked_kept :
      (a : ℕ) {o p : Object}
      → find_object a (objects s.heap) ≡ some o
      → find_object a (objects after) ≡ some p
      → shape o ≡ shape p
      → p.marked ≡ true
      → find_object a (clean (kept ++ promote live)) ≡ some (survivor o)
  marked_kept a {o} {p} origin found like m = elim (find_objects after a Distinct-after found) [
    | inl (here, gone) ↦
        find_promoted kept live a (sweep_list-IsWithin after.tenured a gone)
          (find-sweep_list a after.nursery here m)
        ∙ ap (λ u. some (survivor u)) (sym like)
    | inr (gone, here) ↦
        let (_, origin_here) = origin_tenured a origin gone in
        find_tenured kept live a (find-sweep_list a after.tenured here m)
        ∙ ap (λ u. some (cleaned u)) (sym like)
        ∙ ap (λ u. some u) (cleaned-shape o (quiet.aged a o origin_here))
  ]

  swept-IsApart : IsApart after.nursery after.tenured → IsApart kept live
  swept-IsApart apart a o h = elim (Option-cases (find_object a after.nursery)) [
    | inl x ↦ sweep_list-IsWithin after.nursery a x
    | inr (p, x) ↦ absurd (cc (sweep_list-IsWithin after.tenured a (apart a p x), h))
  ]

  -- what is left was marked
  kept_marked :
      (a : ℕ) {q : Object}
      → find_object a (clean (kept ++ promote live)) ≡ some q
      → (o : Object) × Reached roots s a
        × (find_object a (objects s.heap) ≡ some o)
        × (q ≡ survivor o)
  kept_marked a {q} h =
      let (dn, dt, apart) = Distinct-append after.nursery after.tenured Distinct-after in
      elim (find_only kept live a h) [
        | inl (u, x, e) ↦
            let (p, found, m, f) = sweep_list-find a after.tenured dt x in
            let (missing, there) = found_tenured after a Distinct-after found in
            let (o, origin, like) = same_object a (SameShape-sym spread.same) there in
            let (_, origin_here) = origin_tenured a origin missing in
            (
              o,
              marked-Reached a (is_marked_found (objects after) a there ∙ m),
              origin,
              e ∙ ap (λ w. cleaned w) (f ∙ like) ∙ cleaned-shape o (quiet.aged a o origin_here),
            )
        | inr (u, x, e) ↦
            let (p, found, m, f) = sweep_list-find a after.nursery dn x in
            let there = find-append_left a after.nursery after.tenured found in
            let (o, origin, like) = same_object a (SameShape-sym spread.same) there in
            (
              o,
              marked-Reached a (is_marked_found (objects after) a there ∙ m),
              origin,
              e ∙ ap (λ w. cleaned (promoted w)) (f ∙ like),
            )
      ]

  bare_again : (a : ℕ) → is_marked (clean (kept ++ promote live)) a ≡ false
  bare_again a = elim (Option-cases (find_object a (clean (kept ++ promote live)))) [
    | inl x ↦ is_marked_missing (clean (kept ++ promote live)) a x
    | inr (q, x) ↦
        let (o, r, found, e) = kept_marked a x in
        is_marked_found (clean (kept ++ promote live)) a x ∙ ap (λ u. u.marked) e
  ]

  -- What a full collection does.
  pub record Collects (s' : GcState) : Type 0 where
    pub survivors :
        (a : ℕ) (q : Object)
        → (find_object a (objects s'.heap) ≡ some q) ↔ (
            (o : Object) × Live (kind_in (objects s.heap)) (objects s.heap) (IsRoot roots) a
            × (find_object a (objects s.heap) ≡ some o)
            × (q ≡ survivor o))
    pub quiet_again : IsQuiet s'.heap
    pub empty_nursery : s'.heap.nursery ≡ []
    pub complete_again : IsComplete s'

  -- A full collection that is not already running, on a heap between collections: the objects behind it
  -- are exactly those that the roots lead to, with their kind and content, and old; the heap is again
  -- as it is between collections, with an empty nursery and a complete remembered set. A table
  -- leads to what its array and its occupied buckets hold, a closure to its captures and its
  -- environment, a function to its captures, other objects to nothing.
  pub gc_full-Collects : s.gc_running ≡ false → Collects (gc_full roots s)
  unfolding gc_full
  gc_full-Collects idle = rw idle (record {
    survivors = λ a q. (
      λ h.
          let (o, r, origin, e) = kept_marked a h in
          (o, (Live-roots roots kinds (objects s.heap) a).1 r, origin, e),
      λ (o, l, origin, e).
          let r = (Live-roots roots kinds (objects s.heap) a).0 l in
          let (p, found, like) = same_object a spread.same origin in
          marked_kept a origin found like
            (sym (is_marked_found (objects after) a found) ∙ Reached-marked a origin r)
          ∙ ap (λ u. some u) (sym e),
    );
    quiet_again = record {
      distinct =
          let (dn, dt, apart) = Distinct-append after.nursery after.tenured Distinct-after in
          Distinct-joined kept live (Distinct-sweep_list after.tenured dt)
            (Distinct-sweep_list after.nursery dn) (swept-IsApart apart);
      bare = λ a. bare_again a;
      fresh = λ a o h. absurd (nothing_found a h);
      aged = λ a q h. let (o, r, found, e) = kept_marked a h in ap (λ u. u.old) e;
    };
    empty_nursery = refl;
    complete_again = IsTracked-IsComplete _ (record {
      tracks = λ a b o u found aim h. absurd (nothing_found b h);
      dirty_in =
          λ a q h d. let (o, r, found, e) = kept_marked a h in absurd (cc (ap (λ u. u.dirty) e, d));
    });
  })
