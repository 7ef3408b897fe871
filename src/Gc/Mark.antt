-- ===== src/Gc/Mark.antt =====
-- `gcMark` and `gcMarkGen0` of src/bbl.cpp mark what the values lead to.
use mathlib.Core.List.Memᴰ
use mathlib.Core.List.{Memᴰ}
use bbl.Prelude.{
  ℕ, zero, suc, ◌≤◌, ◌≡◌, refl, sym, ap, subst, ◌∙◌, Bool, true, false, ◌&&◌, ◌||◌, ◌==◌, none,
  some, List, [], ◌∷◌, arith, Bool-cases, Option-cases, inl, inr, ◌⊎◌, ==_iff,
}
use bbl.Value.{GcType}
use bbl.Gc.{Object, Heap, objects, find_object, set_mark, target, children, each, mark}
use bbl.Gc.Objects.{
  shape, shapes, is_marked, settled, unmarked, shapes-append, same_found, same_missing,
  shapes-mark_at, objects-set_mark, unmarked-mark_at_lt, is_marked_found, settled_found,
  settled_missing, settled_marked, is_marked-mark_at, unmarked-zero,
}
use bbl.Gc.Reach.{Aims, Reach, root, step, Reach-through, Aims-head, Aims-tail, Aims-cons, Aims-one}

-- the same objects but for marks
pub record SameShape (h h' : Heap) : Type 0 where
  pub nursery : shapes h.nursery ≡ shapes h'.nursery
  pub tenured : shapes h.tenured ≡ shapes h'.tenured

pub SameShape-refl : (h : Heap) → SameShape h h
SameShape-refl h = record { nursery = refl; tenured = refl }

pub SameShape-trans : {h i j : Heap} → SameShape h i → SameShape i j → SameShape h j
SameShape-trans a b = record { nursery = a.nursery ∙ b.nursery; tenured = a.tenured ∙ b.tenured }

pub SameShape-sym : {h i : Heap} → SameShape h i → SameShape i h
SameShape-sym a = record { nursery = sym a.nursery; tenured = sym a.tenured }

pub SameShape-objects : {h i : Heap} → SameShape h i → shapes (objects h) ≡ shapes (objects i)
SameShape-objects {h} {i} a =
    cc (shapes-append h.nursery h.tenured, shapes-append i.nursery i.tenured, a.nursery, a.tenured)

SameShape-set_mark : (a : ℕ) (h : Heap) → SameShape h (set_mark a h)
SameShape-set_mark a h = record {
  nursery = sym (shapes-mark_at a h.nursery);
  tenured = sym (shapes-mark_at a h.tenured);
}

pub same_object :
    {h i : Heap} (a : ℕ) {o : Object}
    → SameShape h i
    → find_object a (objects h) ≡ some o
    → (p : Object) × (find_object a (objects i) ≡ some p) × (shape o ≡ shape p)
same_object {h} {i} a same found =
    same_found a (objects h) (objects i) (SameShape-objects same) found

module _ (kind : ℕ → GcType) (young : Bool) (h₀ : Heap) where
  -- What marking the values does to the heap: it sets marks only, the values' objects and those of
  -- what gets a mark are settled, and what gets a mark is reached and may get one.
  pub record Marks (vs : List ℕ) (h h' : Heap) : Type 0 where
    pub same : SameShape h h'
    pub keeps : (a : ℕ) → is_marked (objects h) a ≡ true → is_marked (objects h') a ≡ true
    pub fewer : unmarked (objects h') ≤ unmarked (objects h)
    pub settles : (a : ℕ) → Aims kind vs a → settled young (objects h') a ≡ true
    pub closed :
        (a b : ℕ) (o : Object)
        → find_object a (objects h₀) ≡ some o
        → is_marked (objects h) a ≡ false
        → is_marked (objects h') a ≡ true
        → Aims kind (children o.content) b
        → settled young (objects h') b ≡ true
    pub sound :
        (a : ℕ)
        → is_marked (objects h') a ≡ true
        → (is_marked (objects h) a ≡ true)
          ⊎ (Reach kind (objects h₀) vs a
              × ((o : Object) → find_object a (objects h₀) ≡ some o → (young && o.old) ≡ false))

  settled-keeps :
      {h i : Heap} (a : ℕ)
      → SameShape h i
      → ((b : ℕ) → is_marked (objects h) b ≡ true → is_marked (objects i) b ≡ true)
      → settled young (objects h) a ≡ true
      → settled young (objects i) a ≡ true
  settled-keeps {h} {i} a same keeps s = elim (Option-cases (find_object a (objects h))) [
    | inl x ↦
        settled_missing (objects i) a young
          (same_missing a (objects h) (objects i) (SameShape-objects same) x)
    | inr (o, x) ↦
        let (p, found, e) = same_object a same x in
        let aged : o.old ≡ p.old = ap (λ u. u.old) e in
        let was = sym (settled_found (objects h) a young x) ∙ s in
        elim (Bool-cases o.marked) [
          | inl y ↦
              settled_marked (objects i) a young (keeps a (is_marked_found (objects h) a x ∙ y))
          | inr y ↦ settled_found (objects i) a young found ∙ ground (arith, was, y, aged)
        ]
  ]

  Marks-nil : (h : Heap) → Marks [] h h
  Marks-nil h = record {
    same = SameShape-refl h;
    keeps = λ a m. m;
    fewer = omega arith;
    settles = λ a aim. absurd (Memᴰ.not-nil aim.1);
    closed = λ a b o x m n aim. absurd (cc (m, n));
    sound = λ a m. inl m;
  }

  Marks-cons :
      (v : ℕ) (vs : List ℕ) {h i j : Heap} → Marks (v ∷ []) h i → Marks vs i j → Marks (v ∷ vs) h j
  Marks-cons v vs {h} {i} {j} first then_all = record {
    same = SameShape-trans first.same then_all.same;
    keeps = λ a m. then_all.keeps a (first.keeps a m);
    fewer = omega (arith, first.fewer, then_all.fewer);
    settles = λ a aim. elim (Aims-cons kind v vs aim) [
      | inl x ↦ settled-keeps a then_all.same then_all.keeps (first.settles a x)
      | inr x ↦ then_all.settles a x
    ];
    closed = λ a b o x m n aim. elim (Bool-cases (is_marked (objects i) a)) [
      | inl y ↦ settled-keeps b then_all.same then_all.keeps (first.closed a b o x m y aim)
      | inr y ↦ then_all.closed a b o x y n aim
    ];
    sound = λ a m. elim (then_all.sound a m) [
      | inl x ↦ elim (first.sound a x) [
        | inl y ↦ inl y
        | inr (r, fresh) ↦ inr (Reach-through (λ b aim. root (Aims-head kind v vs aim)) r, fresh)
      ]
      | inr (r, fresh) ↦ inr (Reach-through (λ b aim. root (Aims-tail kind v vs aim)) r, fresh)
    ];
  }

  -- a loop over values, by what one round does
  each-Marks :
      (n : ℕ) (f : Heap → ℕ → Heap)
      → ((h : Heap) (v : ℕ) → SameShape h₀ h → unmarked (objects h) ≤ n → Marks (v ∷ []) h (f h v))
      → (vs : List ℕ) (h : Heap) → SameShape h₀ h
      → unmarked (objects h) ≤ n
      → Marks vs h (each f h vs)
  unfolding each
  each-Marks n f one [] h same le = Marks-nil h
  each-Marks n f one (v ∷ vs) h same le =
      let first = one h v same le in
      Marks-cons v vs first (
        each-Marks n f one vs (f h v) (SameShape-trans same first.same)
          (omega (arith, le, first.fewer)))

  all_settled : (a : ℕ) (h : Heap) → unmarked (objects h) ≡ 0 → settled young (objects h) a ≡ true
  all_settled a h e = elim (Option-cases (find_object a (objects h))) [
    | inl x ↦ settled_missing (objects h) a young x
    | inr (o, x) ↦
        settled_marked (objects h) a young
          (is_marked_found (objects h) a x ∙ unmarked-zero a (objects h) e x)
  ]

  aimless : (v : ℕ) {b : ℕ} → target kind v ≡ none → Aims kind (v ∷ []) b → ⊥
  aimless v e (w, m, f) = let same : w ≡ v = Memᴰ.eq_of_singleton m in cc (e, f, same)

  -- nothing is left to do for a value
  done-Marks :
      (v : ℕ) (h : Heap)
      → ((a : ℕ) → Aims kind (v ∷ []) a → settled young (objects h) a ≡ true)
      → Marks (v ∷ []) h h
  done-Marks v h settles = record {
    same = SameShape-refl h;
    keeps = λ a m. m;
    fewer = omega arith;
    settles = settles;
    closed = λ a b o x m n aim. absurd (cc (m, n));
    sound = λ a m. inl m;
  }

  -- an object that is there and whose mark is missing
  mark_new-Marks :
      (v a : ℕ) (o : Object) (h i : Heap)
      → SameShape h₀ h
      → target kind v ≡ some a
      → find_object a (objects h) ≡ some o
      → o.marked ≡ false
      → (young && o.old) ≡ false
      → Marks (children o.content) (set_mark a h) i
      → Marks (v ∷ []) h i
  mark_new-Marks v a o h i base aim found bare fresh deep =
      let paint = SameShape-set_mark a h in
      let (o₀, origin, like) = same_object a (SameShape-sym base) found in
      let content : o.content ≡ o₀.content = ap (λ u. u.content) like in
      let marks : (b : ℕ)
          → is_marked (objects (set_mark a h)) b ≡ ((b == a) || is_marked (objects h) b) =
        λ b.
          ap (λ os. is_marked os b) (objects-set_mark a h)
          ∙ is_marked-mark_at a b (objects h) found in
      let lead : Reach kind (objects h₀) (v ∷ []) a = root (v, Memᴰ.head refl, aim) in
      let here : is_marked (objects i) a ≡ true = deep.keeps a (marks a ∙ ground arith) in
      record {
        same = SameShape-trans paint deep.same;
        keeps = λ b m. deep.keeps b (marks b ∙ ground (arith, m));
        fewer = omega (
          arith,
          deep.fewer,
          unmarked-mark_at_lt a (objects h) found bare,
          ap unmarked (objects-set_mark a h),
        );
        settles = λ b t.
            subst (λ c. settled young (objects i) c ≡ true) (Aims-one kind v a aim t)
              (settled_marked (objects i) a young here);
        closed = λ x b u origin_x m n t. elim (Bool-cases (x == a)) [
          | inl y ↦
              let at : x ≡ a = (==_iff x a).0 y in
              let twin : u ≡ o₀ = cc (origin_x, origin, at) in
              deep.settles b
                (subst (λ c. Aims kind (children c) b) (ap (λ w. w.content) twin ∙ sym content) t)
          | inr y ↦ deep.closed x b u origin_x (marks x ∙ ground (arith, y, m)) n t
        ];
        sound = λ x m. elim (deep.sound x m) [
          | inl y ↦ elim (Bool-cases (x == a)) [
            | inl z ↦
                let at : a ≡ x = sym ((==_iff x a).0 z) in
                inr (
                  subst (Reach kind (objects h₀) (v ∷ [])) at lead,
                  λ u origin_x.
                      let twin : u ≡ o₀ = cc (origin_x, origin, at) in
                      let aged : o.old ≡ u.old =
                        ap (λ w. w.old) like ∙ sym (ap (λ w. w.old) twin) in
                      ground (arith, fresh, aged),
                )
            | inr z ↦ inl (ground (arith, marks x, y, z))
          ]
          | inr (r, fr) ↦ inr (
            Reach-through
                (λ b t. step lead origin (subst (λ c. Aims kind (children c) b) content t)) r,
            fr,
          )
        ];
      }

  mark-Marks :
      (n : ℕ) (h : Heap) (v : ℕ)
      → SameShape h₀ h
      → unmarked (objects h) ≤ n
      → Marks (v ∷ []) h (mark kind young n h v)
  unfolding mark
  mark-Marks zero h v base le = done-Marks v h (λ a t. all_settled a h (omega (arith, le)))
  mark-Marks (suc n) h v base le = elim (Option-cases (target kind v)) [
    | inl x ↦ rw (x, mark) (done-Marks v h (λ a t. absurd (aimless v x t)))
    | inr (a, x) ↦ elim (Option-cases (find_object a (objects h))) [
      | inl y ↦
          rw (x, y, mark)
            (done-Marks v h (λ b t.
              subst (λ c. settled young (objects h) c ≡ true) (Aims-one kind v a x t)
                (settled_missing (objects h) a young y)))
      | inr (o, y) ↦ elim (Bool-cases (o.marked || (young && o.old))) [
        | inl z ↦
            rw (x, y, z, mark)
              (done-Marks v h (λ b t.
                subst (λ c. settled young (objects h) c ≡ true) (Aims-one kind v a x t)
                  (settled_found (objects h) a young y ∙ z)))
        | inr z ↦
            let bare : o.marked ≡ false = ground (arith, z) in
            let paint = SameShape-trans base (SameShape-set_mark a h) in
            let less = unmarked-mark_at_lt a (objects h) y bare in
            rw (x, y, z, mark)
              (mark_new-Marks v a o h _ base x y bare (ground (arith, z)) (
                each-Marks n (mark kind young n) (mark-Marks n) (children o.content) (set_mark a h)
                  paint (omega (arith, le, less, ap unmarked (objects-set_mark a h)))))
      ]
    ]
  ]

  -- Marking values, with at least as much fuel as there are objects without a mark.
  pub mark_all-Marks :
      (n : ℕ) (vs : List ℕ)
      → unmarked (objects h₀) ≤ n
      → Marks vs h₀ (each (mark kind young n) h₀ vs)
  mark_all-Marks n vs le =
      each-Marks n (mark kind young n) (mark-Marks n) vs h₀ (SameShape-refl h₀) le
