-- ===== src/Gc/State.antt =====
-- src/bbl.cpp and src/bbl.h: roots, sweeping, the two collections, and the write barrier.
-- `liveCount` of `sweepList` is the length of the list that is left.
use bbl.Prelude.{
  ℕ, ◌+◌, ◌*◌, ◌%◌, ◌^◌, Bool, true, false, not, ◌&&◌, ltb, ◌==◌, if◌then◌else◌, Option, none, some,
  List, [], ◌∷◌, ◌++◌, length,
}
use bbl.Value.{as_ptr, is_gc_pointer, make_string, make_closure}
use bbl.Table.{Env, Table, set_table}
use bbl.Lexer.{bytes_eq}
use bbl.Gc.{
  Bytes, Content, text, table, closure, fn, opaque, Object, Heap, objects, find_object, kind_in,
  table_values, env_value, each, mark,
}

-- the virtual machine's part of the roots: the stack, `regs[0]` of every frame, the globals
pub record VmRoots : Type 0 where
  pub stack : List ℕ
  pub frame_regs : List ℕ
  pub globals : List ℕ

-- Where `markRoots` looks; tables and strings by their addresses, 0 for a null pointer.
pub record Roots : Type 0 where
  pub call_args : List ℕ
  pub return_value : ℕ
  pub last_recv_payload : ℕ
  pub return_values : List ℕ
  pub vm : Option VmRoots
  pub current_env : ℕ
  pub module_cache : List ℕ
  pub method_names : List ℕ
  pub symbol_names : List ℕ

unfoldable pub env_values : List ℕ → List ℕ
env_values [] = []
env_values (a ∷ rest) = env_value a ++ env_values rest

unfoldable pub string_values : List ℕ → List ℕ
string_values [] = []
string_values (a ∷ rest) = (if a == 0 then [] else make_string a ∷ []) ++ string_values rest

unfoldable pub frame_values : List ℕ → List ℕ
frame_values [] = []
frame_values (v ∷ rest) =
    (if as_ptr v == 0 then [] else make_closure (as_ptr v) ∷ []) ++ frame_values rest

unfoldable pub vm_values : Option VmRoots → List ℕ
vm_values none = []
vm_values (some vm) = vm.stack ++ (frame_values vm.frame_regs ++ vm.globals)

-- the values that `markRoots` marks, in order
unfoldable pub root_values : Roots → List ℕ
root_values r =
    r.call_args
    ++ (r.return_value
        ∷ (r.last_recv_payload
            ∷ (r.return_values
                ++ (vm_values r.vm
                    ++ (env_value r.current_env
                        ++ (env_values r.module_cache
                            ++ (string_values r.method_names ++ string_values r.symbol_names)))))))

pub record GcState : Type 0 where
  pub heap : Heap
  pub intern_table : List (Bytes × ℕ)
  pub remembered_set : List ℕ
  pub alloc_count : ℕ
  pub gen0_threshold : ℕ
  pub gen1_threshold : ℕ
  pub gc_paused : Bool
  pub gc_running : Bool

-- `internTable.erase`
unfoldable pub erase : Bytes → List (Bytes × ℕ) → List (Bytes × ℕ)
erase b [] = []
erase b ((k, a) ∷ rest) = let left = erase b rest in if bytes_eq k b then left else (k, a) ∷ left

abbrev pub forget : Content → List (Bytes × ℕ) → List (Bytes × ℕ)
forget (text b) interned = erase b interned
forget (table t) interned = interned
forget (closure c e ks p) interned = interned
forget (fn c) interned = interned
forget opaque interned = interned

-- `sweepList`: the strings that are still interned, and the list that is left
unfoldable pub sweep_interned : List (Bytes × ℕ) → List Object → List (Bytes × ℕ)
sweep_interned interned [] = interned
sweep_interned interned (o ∷ os) =
    let dead = sweep_interned (forget o.content interned) os in
    let live = sweep_interned interned os in if o.marked then live else dead

unfoldable pub sweep_list : List Object → List Object
sweep_list [] = []
sweep_list (o ∷ os) =
    let rest = sweep_list os in if o.marked then record o { marked = false } ∷ rest else rest

-- the loops over promoted and over tenured objects
unfoldable pub promote : List Object → List Object
promote [] = []
promote (o ∷ os) = record o { old = true; dirty = false } ∷ promote os

unfoldable pub clean : List Object → List Object
clean [] = []
clean (o ∷ os) = record o { dirty = false } ∷ clean os

-- what `gcMinor` marks of an object in the remembered set
unfoldable pub remembered_content : Content → List ℕ
remembered_content (text b) = []
remembered_content (table t) = table_values t
remembered_content (closure captures env constants proto) = captures
remembered_content (fn captures) = []
remembered_content opaque = []

unfoldable pub remembered_values : List Object → List ℕ → List ℕ
remembered_values os [] = []
remembered_values os (a ∷ rest) =
    elim (find_object a os) [ none ↦ [] | some o ↦ remembered_content o.content ]
    ++ remembered_values os rest

abbrev pub at_least : ℕ → ℕ → ℕ
at_least a b = if ltb b a then a else b

-- The recursion of marking is at most as deep as there are objects.
unfoldable pub marked_heap : Bool → List ℕ → Heap → Heap
marked_heap young values h = each (mark (kind_in (objects h)) young (length (objects h))) h values

unfoldable pub gc_minor : Roots → GcState → GcState
gc_minor roots s =
    let h =
      marked_heap true (root_values roots ++ remembered_values (objects s.heap) s.remembered_set)
        s.heap in
    let live = sweep_list h.nursery in
    let after = record s {
      heap = record { nursery = []; tenured = clean (h.tenured ++ promote live) };
      intern_table = sweep_interned s.intern_table h.nursery;
      remembered_set = [];
      gen0_threshold = at_least 256 (length live * 4 % 2 ^ 64);
      alloc_count = 0;
    } in
    if s.gc_running then s else after

unfoldable pub gc_full : Roots → GcState → GcState
gc_full roots s =
    let h = marked_heap false (root_values roots) s.heap in
    let live = sweep_list h.nursery in
    let kept = sweep_list h.tenured in
    let after = record s {
      heap = record { nursery = []; tenured = clean (kept ++ promote live) };
      intern_table = sweep_interned (sweep_interned s.intern_table h.nursery) h.tenured;
      remembered_set = [];
      gen1_threshold = at_least 4096 ((length live + length kept) * 2 % 2 ^ 64);
      alloc_count = 0;
    } in
    if s.gc_running then s else after

-- where a program runs on: a collection if one is due
unfoldable pub collect_if_due : Roots → GcState → GcState
collect_if_due roots s =
    let collected = gc_minor roots s in
    if not s.gc_paused && (not s.gc_running && not (ltb s.alloc_count s.gen0_threshold))
    then collected
    else s

-- a write through a pointer to an object
unfoldable pub update_at : (Object → Object) → ℕ → List Object → List Object
update_at f a [] = []
update_at f a (o ∷ os) = let rest = update_at f a os in (if o.address == a then f o else o) ∷ rest

abbrev pub update_heap : (Object → Object) → ℕ → Heap → Heap
update_heap f a h = record { nursery = update_at f a h.nursery; tenured = update_at f a h.tenured }

abbrev pub set_dirty : Object → Object
set_dirty o = record o { dirty = true }

abbrev pub with_content : Content → Object → Object
with_content c o = record o { content = c }

-- `writeBarrier` of the container at an address
unfoldable pub write_barrier : ℕ → ℕ → GcState → GcState
write_barrier container value s = elim (find_object container (objects s.heap)) [
  | none ↦ s
  | some c ↦ elim (find_object (as_ptr value) (objects s.heap)) [
    | none ↦ s
    | some o ↦
        if not c.old
        then s
        else if not (is_gc_pointer value)
        then s
        else if o.old
        then s
        else if c.dirty
        then s
        else record s {
          heap = update_heap set_dirty container s.heap;
          remembered_set = s.remembered_set ++ container ∷ [];
        }
  ]
]

-- the barriers of one method, in order
unfoldable pub write_barriers : ℕ → List ℕ → GcState → GcState
write_barriers container [] s = s
write_barriers container (v ∷ vs) s = write_barriers container vs (write_barrier container v s)

abbrev pub set_content : Env → ℕ → ℕ → Content → Option (Table × List ℕ)
set_content env key val (table t) = set_table env t key val
set_content env key val (text b) = none
set_content env key val (closure captures e ks p) = none
set_content env key val (fn captures) = none
set_content env key val opaque = none

-- the thread-local `g_currentBblState` where the table is written: null, the state that the table
-- is of, or another state, here by its remembered set
pub data Current : Type 0 where
  nobody : Current
  this : Current
  other : List ℕ → Current

-- The barriers run where there is a current state, and on that state.
unfoldable pub guarded_barriers : Current → ℕ → List ℕ → GcState → GcState × Current
guarded_barriers nobody a written s = (s, nobody)
guarded_barriers this a written s = (write_barriers a written s, this)
guarded_barriers (other remembered) a written s =
    let r = write_barriers a written (record s { remembered_set = remembered }) in
    (record r { remembered_set = s.remembered_set }, other r.remembered_set)

-- `BblTable::set` on the table at an address, its barriers included; `none` where there is no table
unfoldable pub table_set : Env → ℕ → ℕ → ℕ → Current → GcState → Option (GcState × Current)
table_set env a key val current s = elim (find_object a (objects s.heap)) [
  | none ↦ none
  | some o ↦ elim (set_content env key val o.content) [
    | none ↦ none
    | some (t', written) ↦ some (
        guarded_barriers current a written
          (record s { heap = update_heap (with_content (table t')) a s.heap }))
  ]
]
