-- ===== src/Table/Tests.antt =====
-- Runs of the `BblTable` of src/bbl.cpp on small tables.
use mathlib.Core.Option.{or_else}
use bbl.Prelude.{
  ◌↔◌, ℕ, ◌+◌, ◌^◌, ◌<◌, ◌≡◌, ◌≢◌, refl, subst, true, ◌==◌, if◌then◌else◌, none, some, List, [],
  ◌∷◌, arith, length,
}
use bbl.Prelude.Int.{pos}
use bbl.Prelude.Result.{ok, err}
use bbl.Value.{GcType, is_double, tag_of, tag_int, tag_string, int_val, value_type, type_eq}
use bbl.Value.Equality.{IsKey}
use bbl.Table.{
  Env, Entry, Table, new_table, set_table, get, has, del, capacity, ensure_order, table_grow,
  is_int_key, set_array, empty_entry, not_found, set_bucket, set_entry, table_find_entry, find_loop,
  hash_value, is_array_key,
}
use bbl.Table.Invariant.{view, expected, is_some, get-view, has-view}
use bbl.Table.Sound.{IsApart, IsSound, Sets, new_table-IsSound}
use bbl.Table.Delete.{Removes, del-Removes}
use bbl.Table.Grow.{Holds, grown, table_grow-Holds}
use bbl.Table.Buckets.{scan, occupied}
use bbl.Table.Order.{IsKeyOf, ensure_order-count}
use mathlib.Core.List.{Memᴰ}
use bbl.Table.Shadow.{get_shadowed, get_zero_value}
use bbl.Table.Methods.{set_table-Sets, get-set_table}

-- an environment where every object is a table and doubles are compared by pattern
abbrev test_env : Env
test_env = record {
  kind = λ p. GcType.table;
  float_eq = λ a b. a == b;
  to_double = λ n. 4607182418800017408;
}

abbrev name : ℕ
name = tag_string + 16

abbrev value : ℕ
value = tag_int + 7

name-IsKey : IsKey name
unfolding is_double tag_of
name-IsKey = record {
  word = omega arith;
  no_double = refl;
  canonical_bool = λ e. absurd (omega (arith, e));
}

name-IsApart : IsApart test_env name
unfolding is_int_key value_type type_eq is_double tag_of
name-IsApart x y = absurd (cc x)

-- the new table with a value under a name
abbrev one : Table
one = record {
  buckets = record { key = name; val = value } ∷ empty_entry ∷ empty_entry ∷ empty_entry ∷ [];
  count = 1;
  next_int_key = pos 0;
  order = none;
  array = [];
}

one_lem : set_table test_env new_table name value ≡ some (one, name ∷ value ∷ [])
unfolding set_table is_array_key is_int_key value_type type_eq is_double tag_of set_bucket set_entry
    new_table table_find_entry find_loop hash_value or_else
one_lem = refl

some_val : value ≢ 0
some_val e = absurd (omega (arith, e))

roomy : capacity new_table < 2 ^ 30
unfolding new_table
roomy = omega arith

set_table-Sets_example :
    (t' : Table) × (written : List ℕ) × (set_table test_env new_table name value
      ≡ some (t', written))
    × Sets test_env new_table name value t'
set_table-Sets_example =
    set_table-Sets test_env (new_table-IsSound test_env) roomy name value name-IsKey name-IsApart
      some_val

get-set_table_example :
    (t' : Table) × (written : List ℕ) × (set_table test_env new_table name value
      ≡ some (t', written))
    × (get test_env t' name ≡ (if name == name then ok value else get test_env new_table name))
get-set_table_example =
    get-set_table test_env (new_table-IsSound test_env) roomy name value name name-IsKey
      name-IsApart some_val name-IsKey

one-IsSound : IsSound test_env one
one-IsSound =
    let (t', written, run, sets) = set_table-Sets_example in
    let same : t' ≡ one = cc (run, one_lem) in subst (IsSound test_env) same sets.sound

get-view_example : get test_env one name ≡ expected (view test_env one name)
get-view_example = get-view test_env one-IsSound.valid name name-IsKey

has-view_example : has test_env one name ≡ is_some (view test_env one name)
has-view_example = has-view test_env one-IsSound.valid name name-IsKey

del-Removes_example : Removes test_env one name (del test_env one name)
del-Removes_example = del-Removes test_env one-IsSound name name-IsKey (omega arith)

table_grow-Holds_example :
    (bs : List Entry) × (table_grow test_env one ≡ some (record one { buckets = bs }))
    × Holds (grown (capacity one)) (occupied one.buckets) (λ k. scan k one.buckets) bs
table_grow-Holds_example = table_grow-Holds test_env one one-IsSound.valid.probed (omega arith)

ensure_order-count_example :
    (keys : List ℕ) × ((ensure_order test_env one ≡ record one { order = some keys })
      × ((length keys ≡ one.count) × ((k : ℕ) → Memᴰ k keys ↔ IsKeyOf test_env one k)))
ensure_order-count_example = ensure_order-count test_env one-IsSound.valid refl

abbrev last_key : ℕ
last_key = tag_int + 999999

abbrev first_bucket_key : ℕ
first_bucket_key = tag_int + 1000000

int_keys :
    ((is_int_key test_env last_key ≡ true) × (int_val last_key ≡ pos 999999))
    × ((is_int_key test_env first_bucket_key ≡ true) × (int_val first_bucket_key ≡ pos 1000000))
unfolding is_int_key int_val value_type type_eq is_double tag_of
int_keys = ((refl, refl), (refl, refl))

get_shadowed_example :
    (set_table test_env one last_key value
      ≡ some (set_array test_env one last_key value, value ∷ []))
    × (get test_env (set_array test_env one last_key value) first_bucket_key ≡ err not_found)
get_shadowed_example =
    get_shadowed test_env one last_key value first_bucket_key 1000000 refl int_keys.0.0 int_keys.0.1
      int_keys.1.0 int_keys.1.1 (omega arith) (omega arith)

abbrev small : Table
small = record one { array = value ∷ value ∷ 0 ∷ 0 ∷ []; count = 3 }

abbrev one_key : ℕ
one_key = tag_int + 1

one_key_int : (is_int_key test_env one_key ≡ true) × (int_val one_key ≡ pos 1)
unfolding is_int_key int_val value_type type_eq is_double tag_of
one_key_int = (refl, refl)

get_zero_value_example : get test_env (set_array test_env small one_key 0) one_key ≡ err not_found
get_zero_value_example =
    get_zero_value test_env small one_key 1 one_key_int.0 one_key_int.1 (omega arith)
