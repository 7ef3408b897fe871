-- ===== src/Gc/Reach.antt =====
-- What the collector of src/bbl.cpp is to keep: the objects that the roots lead to.
use mathlib.Core.List.Memᴰ
use mathlib.Core.List.{Memᴰ}
use bbl.Prelude.{ℕ, ◌≡◌, some, List, [], ◌∷◌, ◌++◌, inl, inr, ◌⊎◌, ⊎_elim}
use bbl.Value.{GcType}
use bbl.Gc.{Object, find_object, target, children}

-- one of the values points to the address
abbrev pub Aims : (ℕ → GcType) → List ℕ → ℕ → Type 0
Aims kind vs a = (v : ℕ) × Memᴰ v vs × (target kind v ≡ some a)

-- The addresses that the values lead to, through the objects at the addresses on the way.
pub data Reach (kind : ℕ → GcType) (os : List Object) (vs : List ℕ) : ℕ → Type 0 where
  root : {a : ℕ} → Aims kind vs a → Reach kind os vs a
  step :
      {a b : ℕ} {o : Object}
      → Reach kind os vs a
      → find_object a os ≡ some o
      → Aims kind (children o.content) b
      → Reach kind os vs b

module _ {kind : ℕ → GcType} {os : List Object} where
  -- reaching by values that are all reached
  pub Reach-through :
      {vs ws : List ℕ}
      → ((a : ℕ) → Aims kind ws a → Reach kind os vs a)
      → {a : ℕ} → Reach kind os ws a
      → Reach kind os vs a
  Reach-through lead {a} (root aim) = lead a aim
  Reach-through lead (step r found aim) = step (Reach-through lead r) found aim

pub Aims-head :
    (kind : ℕ → GcType) (v : ℕ) (vs : List ℕ) {a : ℕ} → Aims kind (v ∷ []) a → Aims kind (v ∷ vs) a
Aims-head kind v vs (w, m, e) = (w, Memᴰ.head (Memᴰ.eq_of_singleton m), e)

pub Aims-tail :
    (kind : ℕ → GcType) (v : ℕ) (vs : List ℕ) {a : ℕ} → Aims kind vs a → Aims kind (v ∷ vs) a
Aims-tail kind v vs (w, m, e) = (w, Memᴰ.tail m, e)

pub Aims-cons :
    (kind : ℕ → GcType) (v : ℕ) (vs : List ℕ) {a : ℕ}
    → Aims kind (v ∷ vs) a
    → Aims kind (v ∷ []) a ⊎ Aims kind vs a
Aims-cons kind v vs (w, m, e) =
    ⊎_elim (λ h. inl (w, Memᴰ.head h, e)) (λ h. inr (w, h, e)) (Memᴰ.cases_cons m)

pub Aims-append_left :
    (kind : ℕ → GcType) (vs ws : List ℕ) {a : ℕ} → Aims kind vs a → Aims kind (vs ++ ws) a
Aims-append_left kind vs ws (w, m, e) = (w, Memᴰ.append_left ws m, e)

pub Aims-append_right :
    (kind : ℕ → GcType) (vs ws : List ℕ) {a : ℕ} → Aims kind ws a → Aims kind (vs ++ ws) a
Aims-append_right kind vs ws (w, m, e) = (w, Memᴰ.append_right vs m, e)

pub Aims-append :
    (kind : ℕ → GcType) (vs ws : List ℕ) {a : ℕ}
    → Aims kind (vs ++ ws) a
    → Aims kind vs a ⊎ Aims kind ws a
Aims-append kind vs ws (w, m, e) =
    ⊎_elim (λ h. inl (w, h, e)) (λ h. inr (w, h, e)) (Memᴰ.append_cases vs m)

-- the address that a single value points to
pub Aims-one :
    (kind : ℕ → GcType) (v a : ℕ) {b : ℕ} → target kind v ≡ some a → Aims kind (v ∷ []) b → a ≡ b
Aims-one kind v a e (w, m, f) = let same : w ≡ v = Memᴰ.eq_of_singleton m in cc (e, f, same)
