-- ===== src/Table.antt =====
-- src/bbl.h and src/bbl.cpp: `BblTable`, the hash table with linear probing and an array part.
-- `buckets` is the vector of `capacity` entries and `array` the one of `asize` values; whether the
-- buckets stand inline or on the heap is not modelled, nor is a failing allocation. `none` as the
-- result of a method is a write through a null entry. The call of `writeBarrier` is kept as the
-- list of the values that are handed to it.
pub mod Buckets
pub mod Mask
pub mod Probe
pub mod Insert
pub mod Dest
pub mod Grow
pub mod Invariant
pub mod Array
pub mod Sound
pub mod SetArray
pub mod SetBucket
pub mod Methods
pub mod Delete
pub mod Order
pub mod Shadow
pub mod Tests
use mathlib.Core.Option
use mathlib.Core.Option.{or_else}
use bbl.Prelude.{
  ℕ, zero, suc, ◌+◌, ◌-◌, ◌*◌, ◌/◌, ◌%◌, ◌^◌, bit_and, Bool, true, false, not, ◌&&◌, ◌||◌, ltb, leb,
  ◌==◌, if◌then◌else◌, Option, none, some, List, [], ◌∷◌, ◌++◌, length, get_or, set, replicate,
}
use bbl.Prelude.Int.{ℤ, pos, negsuc, pos_part, ltb_ℤ, ◌+ℤ◌}
use bbl.Prelude.Result.{Result, ok, err}
use bbl.Value.{ValueType, GcType, value_type, type_eq, int_val, key_equal, make_null, make_int}

pub data GetError : Type 0 where
  not_found type_mismatch : GetError

-- What a table reads of the heap and of the floating-point unit.
pub record Env : Type 0 where
  pub kind : ℕ → GcType
  pub float_eq : ℕ → ℕ → Bool
  pub to_double : ℤ → ℕ

pub record Entry : Type 0 where
  pub key : ℕ
  pub val : ℕ

abbrev pub empty_key : ℕ
empty_key = 0

abbrev pub tombstone_key : ℕ
tombstone_key = 1

abbrev pub empty_entry : Entry
empty_entry = record { key = 0; val = 0 }

abbrev pub is_empty : Entry → Bool
is_empty e = e.key == empty_key

abbrev pub is_tombstone : Entry → Bool
is_tombstone e = e.key == tombstone_key

abbrev pub is_occupied : Entry → Bool
is_occupied e = not (is_empty e) && not (is_tombstone e)

pub record Table : Type 0 where
  pub buckets : List Entry
  pub count : ℕ
  pub next_int_key : ℤ
  pub order : Option (List ℕ)
  pub array : List ℕ

abbrev pub capacity : Table → ℕ
capacity t = length t.buckets

abbrev pub asize : Table → ℕ
asize t = length t.array

-- `BblTable::BblTable`
unfoldable pub new_table : Table
new_table = record {
  buckets = replicate 4 empty_entry;
  count = 0;
  next_int_key = pos 0;
  order = none;
  array = [];
}

unfoldable pub hash_value : ℕ → ℕ
hash_value v = v * 11400714819323198485 % 2 ^ 64

-- `k >= 0 && static_cast<uint64_t>(k) < n`
abbrev pub in_range : ℤ → ℕ → Bool
in_range (pos k) n = ltb k n
in_range (negsuc k) n = false

abbrev pub array_at : Table → ℕ → ℕ
array_at t key = get_or t.array (pos_part (int_val key)) 0

module _ (env : Env) where
  -- The loop of `tableFindEntry`: `n` rounds are left, `first` is `firstTombstone`.
  unfoldable pub find_loop : List Entry → ℕ → ℕ → ℕ → ℕ → ℕ → Option ℕ → Option ℕ
  find_loop bs key idx width zero i first = first
  find_loop bs key idx width (suc n) i first =
      let p = bit_and (idx + i) (width - 1) in
      let e = get_or bs p empty_entry in
      let first' = if is_tombstone e then or_else first (some p) else first in
      let rest = find_loop bs key idx width n (i + 1) first' in
      if is_empty e
      then or_else first (some p)
      else if is_tombstone e
      then rest
      else if key_equal env.kind env.float_eq e.key key
      then some p
      else rest

  -- the index of the entry that the source points to
  unfoldable pub table_find_entry : List Entry → ℕ → ℕ → Option ℕ
  table_find_entry bs width key =
      find_loop bs key (bit_and (hash_value key) (width - 1)) width width 0 none

  -- the loop of `tableGrow` over the old entries
  unfoldable pub move_entries : ℕ → List Entry → List Entry → Option (List Entry)
  move_entries width [] fresh = some fresh
  move_entries width (e ∷ es) fresh =
      let moved : Option (List Entry) = elim (table_find_entry fresh width e.key) [
        | none ↦ none
        | some p ↦ move_entries width es (set fresh p e)
      ] in
      let rest = move_entries width es fresh in if is_occupied e then moved else rest

  unfoldable pub table_grow : Table → Option Table
  table_grow t =
      let new_cap = if ltb (capacity t) 8 then 8 else capacity t * 2 % 2 ^ 32 in
      Option.map (λ bs. record t { buckets = bs })
        (move_entries new_cap t.buckets (replicate new_cap empty_entry))

  -- `key.type() == Type::Int`
  unfoldable pub is_int_key : ℕ → Bool
  is_int_key key = type_eq (value_type env.kind key) ValueType.int

  -- the key is an integer that the array part covers
  unfoldable pub in_array : Table → ℕ → Bool
  in_array t key = is_int_key key && in_range (int_val key) (asize t)

  unfoldable pub get : Table → ℕ → Result GetError ℕ
  get t key =
      if in_array t key
      then (let v = array_at t key in if not (v == 0) then ok v else err not_found)
      else if t.count == 0 || capacity t == 0
      then err not_found
      else elim (table_find_entry t.buckets (capacity t) key) [
        | none ↦ err not_found
        | some p ↦
            let e = get_or t.buckets p empty_entry in
            if not (is_occupied e) then err not_found else ok e.val
      ]

  unfoldable pub has : Table → ℕ → Bool
  has t key =
      if in_array t key
      then not (array_at t key == 0)
      else if t.count == 0 || capacity t == 0
      then false
      else elim (table_find_entry t.buckets (capacity t) key) [
        | none ↦ false
        | some p ↦ is_occupied (get_or t.buckets p empty_entry)
      ]

-- `while (newSize < minSize) newSize *= growFactor;`
pub grow_size : ℕ → ℕ → ℕ → ℕ → ℕ
grow_size zero factor min_size size = size
grow_size (suc fuel) factor min_size size =
    let more = grow_size fuel factor min_size (size * factor % 2 ^ 32) in
    if ltb size min_size then more else size

-- Every round at least doubles the size and sizes start at 4, so 32 rounds reach any `minSize`
-- that `set` asks for.
unfoldable pub array_grow : Table → ℕ → Table
array_grow t min_size =
    let start = if asize t == 0 then 4 else asize t in
    let factor = if ltb 1024 start then 4 else 2 in
    let new_size = grow_size 32 factor min_size start in
    record t { array = t.array ++ replicate (new_size - asize t) 0 }

module _ (env : Env) where
  -- `k >= 0 && k < 1000000` of an integer key
  unfoldable pub is_array_key : ℕ → Bool
  is_array_key key = is_int_key env key && in_range (int_val key) 1000000

  -- the branch of `set` for the array part
  unfoldable pub set_array : Table → ℕ → ℕ → Table
  set_array t key val =
      let k = pos_part (int_val key) in
      let t₁ = if ltb k (asize t) then t else array_grow t (k + 1) in
      let is_new = get_or t₁.array k 0 == 0 in
      record t₁ {
        array = set t₁.array k val;
        count = if is_new then (t₁.count + 1) % 2 ^ 32 else t₁.count;
        order = if is_new then none else t₁.order;
        next_int_key = if ltb_ℤ (pos k) t₁.next_int_key then t₁.next_int_key else pos (k + 1);
      }

  -- the writes of `set` to the entry that was found
  unfoldable pub set_entry : Table → ℕ → ℕ → ℕ → Table
  set_entry t key val p =
      let is_new = not (is_occupied (get_or t.buckets p empty_entry)) in
      record t {
        buckets = set t.buckets p (record { key = key; val = val });
        count = if is_new then (t.count + 1) % 2 ^ 32 else t.count;
        order = if is_new then none else t.order;
        next_int_key =
            if is_int_key env key && not (ltb_ℤ (int_val key) t.next_int_key)
            then int_val key +ℤ pos 1
            else t.next_int_key;
      }

  -- the branch of `set` for the buckets
  unfoldable pub set_bucket : Table → ℕ → ℕ → Option Table
  set_bucket t key val =
      let crowded = capacity t == 0 || ltb (capacity t * 3 % 2 ^ 32 / 4) ((t.count + 1) % 2 ^ 32) in
      elim (if crowded then table_grow env t else some t) [
        | none ↦ none
        | some t₁ ↦ elim (table_find_entry env t₁.buckets (capacity t₁) key) [
          | none ↦ none
          | some p ↦ some (set_entry t₁ key val p)
        ]
      ]

  -- The new table, and the values that `set` hands to `writeBarrier` where there is a current state, in
  -- order; the barriers themselves are the collector's `guarded_barriers`.
  unfoldable pub set_table : Table → ℕ → ℕ → Option (Table × List ℕ)
  set_table t key val =
      if is_array_key key
      then some (set_array t key val, val ∷ [])
      else Option.map (λ t'. (t', key ∷ val ∷ [])) (set_bucket t key val)

  -- `array[k].bits != 0` for an integer key that the array part covers
  unfoldable pub del_in_array : Table → ℕ → Bool
  del_in_array t key = in_array env t key && not (array_at t key == 0)

  unfoldable pub del : Table → ℕ → Table × Bool
  del t key =
      if del_in_array t key
      then (
        record t {
          array = set t.array (pos_part (int_val key)) 0;
          count = (t.count + 2 ^ 32 - 1) % 2 ^ 32;
          order = none;
        },
        true,
      )
      else if t.count == 0 || capacity t == 0
      then (t, false)
      else elim (table_find_entry env t.buckets (capacity t) key) [
        | none ↦ (t, false)
        | some p ↦
            let e = get_or t.buckets p empty_entry in
            if not (is_occupied e) then (t, false) else (
              record t {
                buckets = set t.buckets p (record { key = tombstone_key; val = make_null });
                count = (t.count + 2 ^ 32 - 1) % 2 ^ 32;
                order = none;
              },
              true,
            )
      ]

  -- the two loops of `ensureOrder`
  pub array_keys : ℕ → List ℕ → List ℕ
  array_keys i [] = []
  array_keys i (v ∷ vs) =
      let rest = array_keys (i + 1) vs in
      if not (v == 0) then make_int env.to_double (pos i) ∷ rest else rest

  pub bucket_keys : List Entry → List ℕ
  bucket_keys [] = []
  bucket_keys (e ∷ es) = let rest = bucket_keys es in if is_occupied e then e.key ∷ rest else rest

  unfoldable pub ensure_order : Table → Table
  ensure_order t = elim t.order [
    | some _ ↦ t
    | none ↦ record t { order = some (array_keys 0 t.array ++ bucket_keys t.buckets) }
  ]
