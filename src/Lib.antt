-- ===== src/Lib.antt =====
-- BBL is a small Lisp-like language with a compiler to register bytecode and a JIT. Source text goes
-- through the lexer to the parser, whose tree the compiler turns into chunks of 32-bit instructions;
-- running code handles 64-bit NaN-boxed values and tables of such values.
--
-- The files and the code they model:
--   Value: `BblValue` of src/bbl.h (kinds, tags, boxing) and the equalities of src/bbl.cpp. A value is
--     its bit pattern, a natural number; a pointer is its address. The object kind at an address, the
--     comparison of two doubles and the conversion of an integer to a double are parameters.
--   Table: `BblTable` of src/bbl.h and src/bbl.cpp, the hash table with an array part. Its methods
--     `get`, `set`, `has`, `del`, `arrayGrow`, `ensureOrder` are `get`, `set_table`, `has`, `del`,
--     `array_grow`, `ensure_order`; `tableFindEntry` and `tableGrow` are `table_find_entry` and
--     `table_grow`. A table reads of its surroundings only the record `Env`.
--   Chunk: the instruction formats and the code buffer of src/chunk.h.
--   Lexer: `BblLexer` of src/bbl.cpp; each `read...` method is a function from the lexer to a token's
--     value and the lexer behind it, or an error.
--   Parser: `parsePrimary`, `parseExpr` and `parse` of src/bbl.cpp, on the lexer; a tree is a `Node`.
--   Compiler: of src/compiler.h and src/compiler.cpp the registers, constants, jumps and captured
--     variables of `CompilerState`. A chain of functions is the innermost state and the list of those around it.
--   Gc: the collector of `BblState` in src/bbl.cpp. The lists that `nurseryHead` and `tenuredHead` start
--     are lists of objects with addresses. `gcMark` and `gcMarkGen0` are `mark`, `markRoots` is
--     `root_values`, `sweepList` is `sweep_list` with `sweep_interned`; `gcMinor`, `gcFull`,
--     `writeBarrier`, the `alloc...` methods and `intern` are named alike. `table_set` is
--     `BblTable::set` on a table in the heap, with its barriers, which run on the thread-local
--     `g_currentBblState`: nobody's, this one or another state (`Current`).
--   Struct: `StructBuilder`, `registerStruct`, `readField`, `writeField`, `constructStruct` and `BblVec`
--     with `readVecElem`, `writeVecElem` and `packValue`. Memory is a list of bytes; a `memcpy` past its
--     end, undefined in the source, is an error of the model. Conversions of floating-point numbers
--     are parameters.
--   Queue: `MessageQueue` and the end of a child in `stateDestructor`, as steps of three threads between
--     which any order is possible. A spurious wakeup of `wait` is a step of the system, apart from the
--     receiver's own.
--   Api: of `BblState` in src/bbl.cpp the globals by name, the typed getters and setters, and the arguments
--     and results of C functions; `setGlobal` and `getGlobal` of src/vm.h.
--   Prelude: numbers, lists and results that the others share.
-- The table's keys are values, so Table stands on Value, and its lookups on `bblValueKeyEqual`; the
-- compiler writes and patches the code of a Chunk; the collector looks at the values in tables, and
-- `set` hands what it writes to the write barrier.
--
-- Bounds and fuel: the loop of `arrayGrow` has 32 rounds, and a size of at least 4 that doubles
-- passes the 1000000 that `set` asks for at most within them; the loop of `tableFindEntry` has the
-- capacity as its bound, as in the source; the loops of the parser have the bytes that are left as
-- their fuel, and its recursion counts down from the limit of 256 levels; marking is at most as
-- deep as there are objects, since it goes on only from an object that it marks. Counters that the
-- source keeps in `uint32_t` wrap, written out; the theorems on writes to tables ask for less than
-- 2 ^ 30 buckets, below which none of them wraps.
--
-- The theorems on tables speak of keys that are no doubles (`IsKey`), for which key equality is equality
-- of patterns, and of tables that are sound (`IsSound`): probing reaches every entry before an empty
-- one, `count` is the number of values, and no bucket holds an integer key that the array part may come
-- to cover.
--
-- The theorems on the collector speak of a heap as it is between collections (`IsQuiet`): no address
-- stands twice, nothing is marked, exactly the tenured objects are old. What is to be kept is said
-- without the collector's own functions (`Live` in Gc/Live): the objects that a root's value points to,
-- and those that a table, a closure or a function that is kept refers to. An old object that refers to a
-- young one has to be in the remembered set (`IsComplete`). The contents of binaries, structs, vectors
-- and user data, the slice cache, JIT code, destructors, and the stores that the JIT compiles are left
-- out there. A closure's constants and `jitProto` are kept in the model of its content, and as in the
-- source neither is followed.
--
-- Not modelled: the compiler's translation of expressions; messages and the commands on child states;
-- lazy binaries; the JIT (src/jit.cpp), which emits machine code; the standard library, the language
-- server, the debug adapter and the command line, which are input and output; vendor/, other
-- projects' code.
pub mod Prelude
pub mod Chunk
pub mod Value
pub mod Table
pub mod Lexer
pub mod Gc
pub mod Struct
pub mod Queue
pub mod Api
pub mod Compiler
pub mod Parser
