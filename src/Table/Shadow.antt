-- ===== src/Table/Shadow.antt =====
-- What `BblTable` of src/bbl.cpp does where the array part and the buckets do get in each other's
-- way, and with values whose bits are zero.
use bbl.Prelude.{
  ℕ, ◌≤◌, ◌<◌, ◌≡◌, ◌≢◌, refl, ap, ◌∙◌, true, false, ltb, some, List, [], ◌∷◌, length, arith,
  length-set, length-replicate, replicate, set, get_or, get_or-replicate, get_or-set_ne,
  get_or-set_self,
}
use bbl.Prelude.Int.{pos}
use bbl.Prelude.Result.{err}
use bbl.Value.{int_val}
use bbl.Table.{
  Env, Table, not_found, asize, is_int_key, in_range, in_array, array_at, is_array_key, array_grow,
  grow_size, set_array, set_table, get,
}

-- the array part that an empty one becomes when index 999999 is asked for
grown_from_none : (t : Table) → t.array ≡ [] → (array_grow t 1000000).array ≡ replicate 1048576 0
unfolding array_grow grow_size
grown_from_none t h = rw h refl

get_hidden :
    (env : Env) (t' : Table) (j n k val w : ℕ)
    → t'.array ≡ set (replicate w 0) k val
    → is_int_key env j ≡ true
    → int_val j ≡ pos n
    → n < w
    → k ≢ n
    → get env t' j ≡ err not_found
unfolding get in_array
get_hidden env t' j n k val w e int at lt other =
    let long : asize t' ≡ w =
      ap length e ∙ length-set (replicate w 0) k val ∙ length-replicate {A = ℕ} w 0 in
    let here : in_range (int_val j) (asize t') ≡ true = rw (at, long) (ground arith) in
    let zero_at : array_at t' j ≡ 0 =
      rw (at, e) (get_or-set_ne (replicate w 0) k n val 0 other ∙ get_or-replicate {A = ℕ} w n 0) in
    rw (int, here, zero_at) refl

set_array_grown :
    (env : Env) (t : Table) (key val : ℕ)
    → t.array ≡ []
    → int_val key ≡ pos 999999
    → (set_array env t key val).array ≡ set (array_grow t 1000000).array 999999 val
unfolding set_array
set_array_grown env t key val h at =
    let short : ltb 999999 (asize t) ≡ false = rw h refl in rw (at, short) refl

-- On a table with no array part, `set` of any value under the integer key 999999 takes the branch
-- for the array part, and behind it `get` does not find an integer key from 1000000 to 1048575,
-- whatever the buckets hold under it.
pub get_shadowed :
    (env : Env) (t : Table) (key val j n : ℕ)
    → t.array ≡ []
    → is_int_key env key ≡ true
    → int_val key ≡ pos 999999
    → is_int_key env j ≡ true
    → int_val j ≡ pos n
    → 1000000 ≤ n
    → n < 1048576
    → (set_table env t key val ≡ some (set_array env t key val, val ∷ []))
      × (get env (set_array env t key val) j ≡ err not_found)
unfolding set_table is_array_key
get_shadowed env t key val j n h int_k at_k int at lo hi =
    let branch : in_range (int_val key) 1000000 ≡ true = rw at_k refl in
    (
      rw (int_k, branch) refl,
      get_hidden env (set_array env t key val) j n 999999 val 1048576
          (set_array_grown env t key val h at_k
            ∙ ap (λ (a : List ℕ). set a 999999 val) (grown_from_none t h))
          int at hi (omega arith),
    )

-- After the value of zero bits, the double 0.0, is stored under an integer key that the array part
-- covers, `get` does not find the key.
pub get_zero_value :
    (env : Env) (t : Table) (key k : ℕ)
    → is_int_key env key ≡ true
    → int_val key ≡ pos k
    → k < asize t
    → get env (set_array env t key 0) key ≡ err not_found
unfolding get in_array set_array
get_zero_value env t key k int at lt =
    let short : ltb k (asize t) ≡ true = ground arith in
    let long : length (set t.array k 0) ≡ asize t = length-set t.array k 0 in
    let gone : get_or (set t.array k 0) k 0 ≡ 0 = get_or-set_self t.array k 0 0 lt in
    rw (at, int, short, long, short, gone) refl
