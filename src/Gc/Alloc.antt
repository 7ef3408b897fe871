-- ===== src/Gc/Alloc.antt =====
-- src/bbl.cpp: allocation and interning.
use bbl.Prelude.{
  ℕ, ◌+◌, ◌%◌, ◌^◌, Bool, false, ◌||◌, if◌then◌else◌, Option, none, some, List, [], ◌∷◌,
}
use bbl.Prelude.Result.{Result, ok, err}
use bbl.Value.{GcType}
use bbl.Table.{new_table}
use bbl.Lexer.{bytes_eq}
use bbl.Gc.{Bytes, Content, text, table, fn, opaque}
use bbl.Gc.State.{GcState}

-- A new object at the head of the nursery: `allocString`, `allocBinary`, `allocFn` and the others.
unfoldable pub alloc : ℕ → GcType → Content → GcState → GcState
alloc a kind content s = record s {
  heap = record s.heap {
    nursery =
        record {
          address = a;
          gc_type = kind;
          marked = false;
          old = false;
          dirty = false;
          content = content;
        }
        ∷ s.heap.nursery;
  };
  alloc_count = (s.alloc_count + 1) % 2 ^ 64;
}

abbrev pub alloc_string : ℕ → Bytes → GcState → GcState
alloc_string a b = alloc a GcType.string (text b)

abbrev pub alloc_binary : ℕ → GcState → GcState
alloc_binary a = alloc a GcType.binary opaque

abbrev pub alloc_fn : ℕ → GcState → GcState
alloc_fn a = alloc a GcType.fn (fn [])

abbrev pub alloc_struct : ℕ → GcState → GcState
alloc_struct a = alloc a GcType.struct opaque

abbrev pub alloc_vector : ℕ → GcState → GcState
alloc_vector a = alloc a GcType.vec opaque

abbrev pub alloc_table : ℕ → GcState → GcState
alloc_table a = alloc a GcType.table (table new_table)

unfoldable pub find_interned : Bytes → List (Bytes × ℕ) → Option ℕ
find_interned b [] = none
find_interned b ((k, a) ∷ rest) =
    let other = find_interned b rest in if bytes_eq k b then some a else other

-- `intern`, with the table of the parent's interned strings if there is a parent; `a` is the address
-- that `new` gives.
unfoldable pub intern : ℕ → Bytes → List (Bytes × ℕ) → GcState → ℕ × GcState
intern a b of_parent s = elim (find_interned b s.intern_table) [
  | some p ↦ (p, s)
  | none ↦ elim (find_interned b of_parent) [
    | some p ↦ (p, s)
    | none ↦ (a, record (alloc_string a b s) { intern_table = (b, a) ∷ s.intern_table })
  ]
]

-- `allocUserData`: `types` are the names in `userDataDescs`
pub data AllocError : Type 0 where
  unknown_type : Bytes → AllocError

unfoldable pub known : Bytes → List Bytes → Bool
known b [] = false
known b (k ∷ rest) = let other = known b rest in bytes_eq k b || other

unfoldable pub alloc_user_data : ℕ → Bytes → List Bytes → GcState → Result AllocError GcState
alloc_user_data a type_name types s =
    if known type_name types
    then ok (alloc a GcType.user_data opaque s)
    else err (unknown_type type_name)
