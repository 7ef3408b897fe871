-- ===== src/Table/Buckets.antt =====
-- The buckets of `BblTable` as a map: what is stored under a key, however it was placed.
use bbl.Prelude.{
  ℕ, zero, suc, ◌+◌, ◌≤◌, ◌<◌, ◌≡◌, refl, Bool, true, false, ◌==◌, if◌then◌else◌, Option, none,
  some, List, [], ◌∷◌, length, get_or, set, replicate, arith, inl, inr, Bool-cases,
}
use bbl.Table.{Entry, empty_entry, is_occupied}

abbrev pub to_nat : Bool → ℕ
to_nat true = 1
to_nat false = 0

-- the value of the first entry under the key
unfoldable pub scan : ℕ → List Entry → Option ℕ
scan k [] = none
scan k (e ∷ es) = let rest = scan k es in if e.key == k then some e.val else rest

-- the number of entries under the key
unfoldable pub keyed : ℕ → List Entry → ℕ
keyed k [] = 0
keyed k (e ∷ es) = to_nat (e.key == k) + keyed k es

unfoldable pub occupied : List Entry → ℕ
occupied [] = 0
occupied (e ∷ es) = to_nat (is_occupied e) + occupied es

abbrev pub slot : List Entry → ℕ → Entry
slot bs p = get_or bs p empty_entry

pub keyed-set :
    (k : ℕ) (bs : List Entry) (p : ℕ) (e : Entry)
    → p < length bs
    → keyed k (set bs p e) + to_nat ((slot bs p).key == k) ≡ keyed k bs + to_nat (e.key == k)
unfolding keyed
keyed-set k [] p e h = elim h [ ]
keyed-set k (x ∷ bs) zero e h = omega arith
keyed-set k (x ∷ bs) (suc p) e h = omega (arith, keyed-set k bs p e (omega arith))

pub occupied-set :
    (bs : List Entry) (p : ℕ) (e : Entry)
    → p < length bs
    → occupied (set bs p e) + to_nat (is_occupied (slot bs p))
      ≡ occupied bs + to_nat (is_occupied e)
unfolding occupied
occupied-set [] p e h = elim h [ ]
occupied-set (x ∷ bs) zero e h = omega arith
occupied-set (x ∷ bs) (suc p) e h = omega (arith, occupied-set bs p e (omega arith))

pub scan-set_other :
    (k : ℕ) (bs : List Entry) (p : ℕ) (e : Entry)
    → (e.key == k) ≡ false
    → ((slot bs p).key == k) ≡ false
    → scan k (set bs p e) ≡ scan k bs
unfolding scan
scan-set_other k [] p e h g = refl
scan-set_other k (x ∷ bs) zero e h g = ground arith
scan-set_other k (x ∷ bs) (suc p) e h g = ground (arith, scan-set_other k bs p e h g)

pub scan-eq-none : (k : ℕ) (bs : List Entry) → keyed k bs ≡ 0 → scan k bs ≡ none
unfolding scan keyed
scan-eq-none k [] h = refl
scan-eq-none k (e ∷ es) h = ground (arith, scan-eq-none k es)

pub keyed-eq-zero : (k : ℕ) (bs : List Entry) → scan k bs ≡ none → keyed k bs ≡ 0
unfolding scan keyed
keyed-eq-zero k [] h = refl
keyed-eq-zero k (e ∷ es) h = ground (arith, keyed-eq-zero k es)

pub keyed_at :
    (k : ℕ) (bs : List Entry) (p : ℕ) → p < length bs → (slot bs p).key ≡ k → 1 ≤ keyed k bs
unfolding keyed
keyed_at k [] p h e = elim h [ ]
keyed_at k (x ∷ bs) zero h e = ground arith
keyed_at k (x ∷ bs) (suc p) h e = omega (arith, keyed_at k bs p (omega arith) e)

-- with at most one entry under the key, any entry under it is the one that is found
pub scan_at :
    (k : ℕ) (bs : List Entry) (p : ℕ)
    → p < length bs
    → keyed k bs ≤ 1
    → (slot bs p).key ≡ k
    → scan k bs ≡ some (slot bs p).val
unfolding scan keyed
scan_at k [] p h u e = elim h [ ]
scan_at k (x ∷ bs) zero h u e = ground arith
scan_at k (x ∷ bs) (suc p) h u e = ground (arith, keyed_at k bs p, scan_at k bs p)

pub keyed_once :
    (k : ℕ) (bs : List Entry) (p q : ℕ)
    → p < length bs
    → q < length bs
    → keyed k bs ≤ 1
    → (slot bs p).key ≡ k
    → (slot bs q).key ≡ k
    → p ≡ q
unfolding keyed
keyed_once k [] p q hp hq u ep eq = elim hp [ ]
keyed_once k (x ∷ bs) zero zero hp hq u ep eq = refl
keyed_once k (x ∷ bs) zero (suc q) hp hq u ep eq = ground (arith, keyed_at k bs q)
keyed_once k (x ∷ bs) (suc p) zero hp hq u ep eq = ground (arith, keyed_at k bs p)
keyed_once k (x ∷ bs) (suc p) (suc q) hp hq u ep eq = ground (arith, keyed_once k bs p q)

-- the place of an entry under the key
pub keyed_place :
    (k : ℕ) (bs : List Entry) → 1 ≤ keyed k bs → (p : ℕ) × (p < length bs) × ((slot bs p).key ≡ k)
unfolding keyed
keyed_place k [] h = absurd (omega arith)
keyed_place k (x ∷ bs) h = elim (Bool-cases (x.key == k)) [
  | inl e ↦ (0, omega arith, ground arith)
  | inr e ↦ let (p, lt, at) = keyed_place k bs (ground arith) in (suc p, omega arith, at)
]

pub occupied-le : (bs : List Entry) → occupied bs ≤ length bs
unfolding occupied
occupied-le [] = omega arith
occupied-le (x ∷ bs) = ground (arith, occupied-le bs)

-- buckets with no free entry are all occupied
pub occupied_full :
    (bs : List Entry)
    → ((p : ℕ) → p < length bs → is_occupied (slot bs p) ≡ true)
    → occupied bs ≡ length bs
unfolding occupied
occupied_full [] h = refl
occupied_full (x ∷ bs) h =
    let first = h 0 (omega arith) in
    let rest = occupied_full bs (λ p lt. h (suc p) (omega arith)) in ground (arith, first, rest)

pub keyed-replicate : (k n : ℕ) → 2 ≤ k → keyed k (replicate n empty_entry) ≡ 0
unfolding keyed
keyed-replicate k zero h = refl
keyed-replicate k (suc n) h = ground (arith, keyed-replicate k n h)

pub occupied-replicate : (n : ℕ) → occupied (replicate n empty_entry) ≡ 0
unfolding occupied
occupied-replicate zero = refl
occupied-replicate (suc n) = omega (arith, occupied-replicate n)
