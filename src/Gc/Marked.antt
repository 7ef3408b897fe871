-- ===== src/Gc/Marked.antt =====
-- What the loops of the collector of src/bbl.cpp reach is what is to be kept.
use bbl.Prelude.{ℕ, List, ◌++◌, ◌↔◌}
use bbl.Value.{GcType}
use bbl.Gc.{Object}
use bbl.Gc.State.{GcState, Roots, root_values, remembered_values}
use bbl.Gc.Reach.{Reach, root, step}
use bbl.Gc.Live.{Live, seed, follow, IsRoot, IsSeed, IsComplete}
use bbl.Gc.Quiet.{IsTracked}
use bbl.Gc.Follows.{
  Scanned-content, content-Scanned, Refers-children, children-Refers, Points-target, target-Points,
}
use bbl.Gc.RootValues.{IsRoot-values, values-IsRoot, IsSeed-values, values-IsSeed}
use mathlib.Core.List.{Memᴰ}

module _ (kind : ℕ → GcType) (os : List Object) (Seed : ℕ → Type 0) (vs : List ℕ) where
  Live-Reach : ((v : ℕ) → Seed v → Memᴰ v vs) → {a : ℕ} → Live kind os Seed a → Reach kind os vs a
  Live-Reach lead (seed {v} s p) = root (v, lead v s, Points-target p)
  Live-Reach lead (follow {v = v} l found refers p) =
      step (Live-Reach lead l) found (v, Refers-children refers, Points-target p)

  Reach-Live : ((v : ℕ) → Memᴰ v vs → Seed v) → {a : ℕ} → Reach kind os vs a → Live kind os Seed a
  Reach-Live lead {a} (root (v, m, e)) = seed (lead v m) (target-Points kind v a e)
  Reach-Live lead (step {b = b} {o = o} r found (v, m, e)) =
      follow (Reach-Live lead r) found (children-Refers o.content v m) (target-Points kind v b e)

module _ (r : Roots) (kind : ℕ → GcType) (os : List Object) (a : ℕ) where
  pub Live-roots : Live kind os (IsRoot r) a ↔ Reach kind os (root_values r) a
  Live-roots = (
    Live-Reach kind os (IsRoot r) (root_values r) (λ v h. IsRoot-values r h),
    Reach-Live kind os (IsRoot r) (root_values r) (values-IsRoot r),
  )

  pub Live-seeds :
      (set : List ℕ)
      → Live kind os (IsSeed r os set) a
        ↔ Reach kind os (root_values r ++ remembered_values os set) a
  Live-seeds set = (
    Live-Reach kind os (IsSeed r os set) (root_values r ++ remembered_values os set)
        (λ v h. IsSeed-values r os set h),
    Reach-Live kind os (IsSeed r os set) (root_values r ++ remembered_values os set)
        (values-IsSeed r os set),
  )

pub IsComplete-IsTracked : (s : GcState) → IsComplete s → IsTracked s
IsComplete-IsTracked s c = record {
  tracks = λ a b o u found (v, m, e) young.
      let (at, (w, sc, p)) =
        c.remembers a b v o u found (children-Refers o.content v m) (target-Points _ v b e) young in
      (at, (w, Scanned-content sc, Points-target p));
  dirty_in = c.dirty_in;
}

pub IsTracked-IsComplete : (s : GcState) → IsTracked s → IsComplete s
IsTracked-IsComplete s t = record {
  remembers = λ a b v o u found refers p young.
      let (at, (w, m, e)) =
        t.tracks a b o u found (v, Refers-children refers, Points-target p) young in
      (at, (w, content-Scanned o.content w m, target-Points _ w b e));
  dirty_in = t.dirty_in;
}
