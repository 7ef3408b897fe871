-- ===== src/Gc/Tests.antt =====
-- Runs of the collector of src/bbl.cpp on a heap of a young string and an old table.
use mathlib.Core.Option
use mathlib.Core.Option.{or_else}
use mathlib.Core.List.Memᴰ
use mathlib.Core.List.{Memᴰ}
use bbl.Prelude.{
  ℕ, ◌+◌, ◌≡◌, refl, sym, ap, subst, ◌∙◌, true, false, ◌==◌, if◌then◌else◌, none, some, List, [],
  ◌∷◌, Bool-cases, Option-cases, inl, inr, ◌⊎◌,
}
use bbl.Prelude.Int.{pos}
use bbl.Value.{
  GcType, value_type, object_type, type_eq, is_double, is_cfn, as_ptr, tag_of, is_gc_pointer,
  tag_int, tag_string,
}
use bbl.Table.{
  Env, new_table, set_table, empty_entry, set_bucket, set_entry, table_find_entry, find_loop,
  hash_value, is_array_key, is_int_key,
}
use bbl.Gc.{text, table, Object, objects, find_object, children, array_values, bucket_values}
use bbl.Gc.State.{
  Roots, GcState, nobody, this, guarded_barriers, gc_full, table_set, write_barrier, write_barriers,
  update_at,
}
use bbl.Gc.Objects.{is_marked_found, is_marked_missing}
use bbl.Gc.Sweep.{Distinct, find_here, find_past}
use bbl.Gc.Quiet.{IsQuiet, IsTracked, nothing_found}
use bbl.Gc.Full.{Collects, gc_full-Collects}
use bbl.Gc.TableSet.{table_set-IsComplete}
use bbl.Gc.Live.{IsComplete}
use bbl.Gc.Marked.{IsTracked-IsComplete}

abbrev env : Env
env = record {
  kind = λ p. if p == 16 then GcType.string else GcType.table;
  float_eq = λ a b. a == b;
  to_double = λ n. 4607182418800017408;
}

abbrev young_string : Object
young_string = record {
  address = 16;
  gc_type = GcType.string;
  marked = false;
  old = false;
  dirty = false;
  content = text (104 ∷ []);
}

abbrev old_table : Object
old_table = record {
  address = 32;
  gc_type = GcType.table;
  marked = false;
  old = true;
  dirty = false;
  content = table new_table;
}

abbrev state : GcState
state = record {
  heap = record { nursery = young_string ∷ []; tenured = old_table ∷ [] };
  intern_table = [];
  remembered_set = [];
  alloc_count = 1;
  gen0_threshold = 256;
  gen1_threshold = 4096;
  gc_paused = false;
  gc_running = false;
}

abbrev key : ℕ
key = tag_string + 16

abbrev value : ℕ
value = tag_int + 7

abbrev roots : Roots
roots = record {
  call_args = key ∷ [];
  return_value = 0;
  last_recv_payload = 0;
  return_values = [];
  vm = none;
  current_env = 0;
  module_cache = [];
  method_names = [];
  symbol_names = [];
}

found_cons :
    (a : ℕ) (x : Object) (os : List Object) {o : Object}
    → find_object a (x ∷ os) ≡ some o
    → (o ≡ x) ⊎ (find_object a os ≡ some o)
found_cons a x os {o} h = elim (Bool-cases (x.address == a)) [
  | inl y ↦ inl (Option.some-injective o x (sym h ∙ find_here a x os y))
  | inr y ↦ inr (sym (find_past a x os y) ∙ h)
]

found_one : (a : ℕ) (x : Object) {o : Object} → find_object a (x ∷ []) ≡ some o → o ≡ x
found_one a x h = elim (found_cons a x [] h) [ inl e ↦ e | inr n ↦ absurd (nothing_found a n) ]

state-IsQuiet : IsQuiet state.heap
unfolding Distinct find_object
state-IsQuiet = record {
  distinct = (refl, (refl, tt));
  bare = λ a. elim (Option-cases (find_object a (objects state.heap))) [
    | inl x ↦ is_marked_missing (objects state.heap) a x
    | inr (o, x) ↦
        is_marked_found (objects state.heap) a x
        ∙ elim (found_cons a young_string (old_table ∷ []) x) [
          | inl e ↦ ap (λ u. u.marked) e
          | inr n ↦ ap (λ u. u.marked) (found_one a old_table n)
        ]
  ];
  fresh = λ a o h. ap (λ u. u.old) (found_one a young_string h);
  aged = λ a o h. ap (λ u. u.old) (found_one a old_table h);
}

state-IsTracked : IsTracked state
unfolding children new_table array_values bucket_values
state-IsTracked = record {
  tracks = λ a b o u found aim young. absurd (
      Memᴰ.not-nil (
        subst (λ c. Memᴰ aim.0 (children c)) (ap (λ u. u.content) (found_one a old_table found))
          aim.1));
  dirty_in = λ a o found d. absurd (cc (ap (λ u. u.dirty) (found_one a old_table found), d));
}

state-IsComplete : IsComplete state
state-IsComplete = IsTracked-IsComplete state state-IsTracked

gc_full-Collects_example : Collects roots state state-IsQuiet (gc_full roots state)
gc_full-Collects_example = gc_full-Collects roots state state-IsQuiet refl

-- the old table with the young string as its one key
abbrev written_table : Object
written_table = record old_table {
  content = table (record {
    buckets = record { key = key; val = value } ∷ empty_entry ∷ empty_entry ∷ empty_entry ∷ [];
    count = 1;
    next_int_key = pos 0;
    order = none;
    array = [];
  });
}

-- the state behind a set of the old table with the young string as the key
abbrev key_set : GcState
key_set = record state {
  heap = record {
    nursery = young_string ∷ [];
    tenured = record written_table { dirty = true } ∷ [];
  };
  remembered_set = 32 ∷ [];
}

key_set_lem : table_set env 32 key value this state ≡ some (key_set, this)
unfolding table_set guarded_barriers find_object update_at write_barriers write_barrier
    is_gc_pointer as_ptr is_cfn object_type set_table is_array_key is_int_key value_type type_eq
    is_double tag_of set_bucket set_entry new_table table_find_entry find_loop hash_value or_else
key_set_lem = refl

table_set-IsComplete_example : IsQuiet key_set.heap × IsComplete key_set
table_set-IsComplete_example =
    table_set-IsComplete env 32 key value state key_set this state-IsQuiet state-IsComplete
      key_set_lem

-- With no current state the write is the same, and the remembered set stays as it was.
key_unremembered :
    table_set env 32 key value nobody state
    ≡ some (
      record state { heap = record { nursery = young_string ∷ []; tenured = written_table ∷ [] } },
      nobody,
    )
unfolding table_set guarded_barriers find_object update_at set_table is_array_key is_int_key
    value_type type_eq is_double tag_of set_bucket as_ptr is_cfn object_type set_entry new_table
    table_find_entry find_loop hash_value or_else
key_unremembered = refl
