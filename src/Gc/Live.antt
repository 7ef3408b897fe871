-- ===== src/Gc/Live.antt =====
-- What the collector of src/bbl.cpp is to keep, said without its loops: the roots of `markRoots`, what an
-- object refers to, and which values are pointers. A closure's constants and its `jitProto` are not
-- followed, as in the source.

use mathlib.Core.List.{Memᴰ}
use bbl.Prelude.{ℕ, ◌^◌, ◌<◌, ◌≡◌, ◌≢◌, true, some, List, get_or}
use bbl.Value.{GcType, as_ptr, make_string, make_closure, make_fn, make_object}
use bbl.Table.{Table, Entry, empty_entry, is_occupied}
use bbl.Gc.{Content, table, closure, fn, Object, objects, kind_in, find_object}
use bbl.Gc.State.{GcState, VmRoots, Roots}

-- the values in a table's array part and in its buckets
pub data InTable (t : Table) : ℕ → Type 0 where
  slot : (i v : ℕ) → get_or t.array i 0 ≡ v → v ≢ 0 → InTable t v
  bucket_key :
      (i : ℕ) (e : Entry)
      → get_or t.buckets i empty_entry ≡ e
      → is_occupied e ≡ true
      → InTable t e.key
  bucket_val :
      (i : ℕ) (e : Entry)
      → get_or t.buckets i empty_entry ≡ e
      → is_occupied e ≡ true
      → InTable t e.val

pub data Refers : Content → ℕ → Type 0 where
  in_table : (t : Table) {v : ℕ} → InTable t v → Refers (table t) v
  captured :
      (cs : List ℕ) (env : ℕ) (ks : List ℕ) (proto : ℕ) {v : ℕ}
      → Memᴰ v cs
      → Refers (closure cs env ks proto) v
  environment :
      (cs : List ℕ) (env : ℕ) (ks : List ℕ) (proto : ℕ)
      → env ≢ 0
      → Refers (closure cs env ks proto) (make_object env)
  fn_captured : (cs : List ℕ) {v : ℕ} → Memᴰ v cs → Refers (fn cs) v

-- what a minor collection looks at of an object in the remembered set
pub data Scanned : Content → ℕ → Type 0 where
  in_table : (t : Table) {v : ℕ} → InTable t v → Scanned (table t) v
  captured :
      (cs : List ℕ) (env : ℕ) (ks : List ℕ) (proto : ℕ) {v : ℕ}
      → Memᴰ v cs
      → Scanned (closure cs env ks proto) v

-- the objects behind an object value
pub data IsHeapKind : GcType → Type 0 where
  table_kind : IsHeapKind GcType.table
  vec_kind : IsHeapKind GcType.vec
  struct_kind : IsHeapKind GcType.struct
  binary_kind : IsHeapKind GcType.binary
  user_data_kind : IsHeapKind GcType.user_data

-- a value that is a pointer to an address
pub data Points (kind : ℕ → GcType) : ℕ → ℕ → Type 0 where
  to_string : (a : ℕ) → a ≢ 0 → a < 2 ^ 48 → Points kind (make_string a) a
  to_closure : (a : ℕ) → a ≢ 0 → a < 2 ^ 48 → Points kind (make_closure a) a
  to_fn : (a : ℕ) → a ≢ 0 → a < 2 ^ 48 → Points kind (make_fn a) a
  to_object : (a : ℕ) → a ≢ 0 → a < 2 ^ 48 → IsHeapKind (kind a) → Points kind (make_object a) a

pub data IsRoot (r : Roots) : ℕ → Type 0 where
  call_arg : {v : ℕ} → Memᴰ v r.call_args → IsRoot r v
  return_value : IsRoot r r.return_value
  last_recv_payload : IsRoot r r.last_recv_payload
  returned : {v : ℕ} → Memᴰ v r.return_values → IsRoot r v
  on_stack : (vm : VmRoots) {v : ℕ} → r.vm ≡ some vm → Memᴰ v vm.stack → IsRoot r v
  frame :
      (vm : VmRoots) {v : ℕ}
      → r.vm ≡ some vm
      → Memᴰ v vm.frame_regs
      → as_ptr v ≢ 0
      → IsRoot r (make_closure (as_ptr v))
  global : (vm : VmRoots) {v : ℕ} → r.vm ≡ some vm → Memᴰ v vm.globals → IsRoot r v
  environment : r.current_env ≢ 0 → IsRoot r (make_object r.current_env)
  loaded_module : {a : ℕ} → Memᴰ a r.module_cache → a ≢ 0 → IsRoot r (make_object a)
  method_name : {a : ℕ} → Memᴰ a r.method_names → a ≢ 0 → IsRoot r (make_string a)
  symbol_name : {a : ℕ} → Memᴰ a r.symbol_names → a ≢ 0 → IsRoot r (make_string a)

-- the addresses that values of a kind lead to
pub data Live (kind : ℕ → GcType) (os : List Object) (Seed : ℕ → Type 0) : ℕ → Type 0 where
  seed : {v a : ℕ} → Seed v → Points kind v a → Live kind os Seed a
  follow :
      {a b v : ℕ} {o : Object}
      → Live kind os Seed a
      → find_object a os ≡ some o
      → Refers o.content v
      → Points kind v b
      → Live kind os Seed b

-- what a minor collection starts from
pub data IsSeed (r : Roots) (os : List Object) (set : List ℕ) : ℕ → Type 0 where
  from_root : {v : ℕ} → IsRoot r v → IsSeed r os set v
  from_remembered :
      {x v : ℕ} {o : Object}
      → Memᴰ x set
      → find_object x os ≡ some o
      → Scanned o.content v
      → IsSeed r os set v

-- Every old object that refers to a young one is in the remembered set, and a minor collection that looks
-- at it there comes to the young one; an old object that is dirty is in the set.
pub record IsComplete (s : GcState) : Type 0 where
  pub remembers :
      (a b v : ℕ) (o u : Object)
      → find_object a s.heap.tenured ≡ some o
      → Refers o.content v
      → Points (kind_in (objects s.heap)) v b
      → find_object b s.heap.nursery ≡ some u
      → Memᴰ a s.remembered_set
        × ((w : ℕ) × Scanned o.content w × Points (kind_in (objects s.heap)) w b)
  pub dirty_in :
      (a : ℕ) (o : Object)
      → find_object a s.heap.tenured ≡ some o
      → o.dirty ≡ true
      → Memᴰ a s.remembered_set
