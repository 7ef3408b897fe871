-- ===== src/Gc.antt =====
-- src/bbl.cpp and src/bbl.h: the collector of `BblState`, with its two generations, and allocation.
-- The intrusive lists that `nurseryHead` and `tenuredHead` start are lists of objects, and a pointer is
-- an object's address. What an object refers to is its content; binaries, structs, vectors and user
-- data hold no reference and are opaque here. The kinds of objects never change, so `kind`, which the
-- type of a value asks for, is read off the heap when a collection starts. The cache of slices, JIT
-- code and the destructors of user data are left out.
pub mod State
pub mod Alloc
pub mod Objects
pub mod Reach
pub mod Live
pub mod Follows
pub mod RootValues
pub mod Marked
pub mod Mark
pub mod Sweep
pub mod Quiet
pub mod Full
pub mod Minor
pub mod Update
pub mod Values
pub mod Slots
pub mod Barrier
pub mod TableSet
pub mod Tests
use bbl.Prelude.{
  ℕ, zero, suc, ◌+◌, ◌*◌, ◌%◌, ◌^◌, Bool, true, false, not, ◌&&◌, ◌||◌, ltb, ◌==◌, if◌then◌else◌,
  Option, none, some, List, [], ◌∷◌, ◌++◌, length,
}
use bbl.Value.{
  ValueType, GcType, value_type, as_ptr, is_cfn, is_gc_pointer, make_object, make_string,
  make_closure,
}
use bbl.Table.{Table, Entry, is_occupied, new_table}

abbrev pub Bytes : Type 0
Bytes = List ℕ

-- `closure` has the captured values, the address of `env`, the constants of its chunk and the address of
-- `jitProto`; addresses are 0 for none
pub data Content : Type 0 where
  text : Bytes → Content
  table : Table → Content
  closure : List ℕ → ℕ → List ℕ → ℕ → Content
  fn : List ℕ → Content
  opaque : Content

-- `GcObj` with what it is the header of
pub record Object : Type 0 where
  pub address : ℕ
  pub gc_type : GcType
  pub marked : Bool
  pub old : Bool
  pub dirty : Bool
  pub content : Content

pub record Heap : Type 0 where
  pub nursery : List Object
  pub tenured : List Object

abbrev pub objects : Heap → List Object
objects h = h.nursery ++ h.tenured

pub find_object : ℕ → List Object → Option Object
find_object a [] = none
find_object a (o ∷ os) = let other = find_object a os in if o.address == a then some o else other

-- the `gcType` at an address
unfoldable pub kind_in : List Object → ℕ → GcType
kind_in os a = elim (find_object a os) [ none ↦ GcType.string | some o ↦ o.gc_type ]

-- the loops over a table's array part and buckets
unfoldable pub array_values : List ℕ → List ℕ
array_values [] = []
array_values (v ∷ vs) = let rest = array_values vs in if not (v == 0) then v ∷ rest else rest

unfoldable pub bucket_values : List Entry → List ℕ
bucket_values [] = []
bucket_values (e ∷ es) =
    let rest = bucket_values es in if is_occupied e then e.key ∷ e.val ∷ rest else rest

abbrev pub table_values : Table → List ℕ
table_values t = array_values t.array ++ bucket_values t.buckets

-- the value of a pointer to a table that may be null
unfoldable pub env_value : ℕ → List ℕ
env_value a = if a == 0 then [] else make_object a ∷ []

-- The values that marking an object goes on to.
unfoldable pub children : Content → List ℕ
children (text b) = []
children (table t) = table_values t
children (closure captures env constants proto) = captures ++ env_value env
children (fn captures) = captures
children opaque = []

-- The object that `gcMark` looks at for a value.
unfoldable pub target : (ℕ → GcType) → ℕ → Option ℕ
target kind v =
    let p = as_ptr v in
    let there = if p == 0 then none else some p in
    elim (value_type kind v) [
      | ValueType.null ↦ none
      | ValueType.bool ↦ none
      | ValueType.int ↦ none
      | ValueType.float ↦ none
      | ValueType.fn ↦ if is_cfn v then none else there
      | _ ↦ there
    ]

pub mark_at : ℕ → List Object → List Object
mark_at a [] = []
mark_at a (o ∷ os) =
    let rest = mark_at a os in (if o.address == a then record o { marked = true } else o) ∷ rest

abbrev pub set_mark : ℕ → Heap → Heap
set_mark a h = record { nursery = mark_at a h.nursery; tenured = mark_at a h.tenured }

-- a loop over values
pub each : (Heap → ℕ → Heap) → Heap → List ℕ → Heap
each f h [] = h
each f h (v ∷ vs) = each f (f h v) vs

-- `gcMark`, and `gcMarkGen0` where `young` is set: that one stops at old objects.
pub mark : (ℕ → GcType) → Bool → ℕ → Heap → ℕ → Heap
mark kind young zero h v = h
mark kind young (suc n) h v = elim (target kind v) [
  | none ↦ h
  | some a ↦ elim (find_object a (objects h)) [
    | none ↦ h
    | some o ↦
        let deep = each (mark kind young n) (set_mark a h) (children o.content) in
        if o.marked || (young && o.old) then h else deep
  ]
]
