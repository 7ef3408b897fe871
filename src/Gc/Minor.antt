-- ===== src/Gc/Minor.antt =====
-- `gcMinor` of src/bbl.cpp keeps what the roots lead to, by way of the remembered set.
use mathlib.Core.List.Memᴰ
use mathlib.Core.List.{Memᴰ}
use bbl.Prelude.{ℕ, ◌≡◌, Bool, true, false, some, List, [], ◌++◌, ◌⊎◌, ◌↔◌}
use bbl.Value.{GcType}
use bbl.Gc.Live.{Live, IsSeed, IsComplete}
use bbl.Gc.{Object, Heap, objects, find_object, kind_in}
use bbl.Gc.State.{Roots, root_values, GcState, marked_heap, sweep_list, remembered_values}
use bbl.Gc.Reach.{Reach}
use bbl.Gc.Quiet.{IsQuiet, survivor}

abbrev with_mark : Object → Bool → Object
with_mark o b = record o { marked = b; dirty = false }

module _ (roots : Roots) (s : GcState) (quiet : IsQuiet s.heap) where
  abbrev values : List ℕ
  values = root_values roots ++ remembered_values (objects s.heap) s.remembered_set

  abbrev after : Heap
  after = marked_heap true values s.heap

  abbrev live : List Object
  live = sweep_list after.nursery

  abbrev kinds : ℕ → GcType
  kinds = kind_in (objects s.heap)

  -- What a minor collection does.
  pub record CollectsYoung (s' : GcState) : Type 0 where
    pub survivors :
        (a : ℕ) (q : Object)
        → (find_object a (objects s'.heap) ≡ some q) ↔ (
            (o : Object) × (find_object a (objects s.heap) ≡ some o)
            × (q ≡ survivor o)
            × ((o.old ≡ true)
                ⊎ Live
                    (kind_in (objects s.heap))
                    (objects s.heap)
                    (IsSeed roots (objects s.heap) s.remembered_set)
                    a))
    pub quiet_again : IsQuiet s'.heap
    pub complete_again : IsComplete s'
    pub empty_nursery : s'.heap.nursery ≡ []
