-- ===== src/Api.antt =====
-- `BblState` of src/bbl.cpp as a host program uses it: names of globals, arguments and results of C
-- functions; with `setGlobal` and `getGlobal` of src/vm.h. A string, table or binary that is handed in
-- is its address.
pub mod Variables
pub mod Symbols
pub mod Tests
use bbl.Prelude.{
  ℕ, suc, ◌+◌, ◌-◌, ◌%◌, ◌^◌, Bool, true, false, not, ◌&&◌, ltb, leb, ◌==◌, if◌then◌else◌, Option,
  none, some, List, [], ◌∷◌, ◌++◌, length, take, get_or, set, replicate,
}
use bbl.Prelude.Int.{ℤ, pos, negsuc}
use bbl.Prelude.Result.{Result, ok, err, ◌>>=◌}
use bbl.Lexer.{Bytes, bytes_eq}
use bbl.Value.{
  ValueType, GcType, value_type, type_eq, as_ptr, int_val, bool_val, tag_null, make_null, make_int,
  make_float, make_bool, make_string, make_cfn, make_object,
}
use bbl.Table.{GetError, not_found, type_mismatch}

-- `globals` and `globalsFlat` of `VmState`
pub record Globals : Type 0 where
  pub by_id : List (ℕ × ℕ)
  pub flat : List ℕ

unfoldable pub lookup : ℕ → List (ℕ × ℕ) → Option ℕ
lookup i [] = none
lookup i ((k, v) ∷ rest) = let other = lookup i rest in if k == i then some v else other

unfoldable pub assign : ℕ → ℕ → List (ℕ × ℕ) → List (ℕ × ℕ)
assign i v [] = (i, v) ∷ []
assign i v ((k, w) ∷ rest) =
    let others = assign i v rest in if k == i then (k, v) ∷ rest else (k, w) ∷ others

-- `resize` of the flat vector, which fills up with nulls, the default of a `BblValue`
unfoldable pub resize : ℕ → List ℕ → List ℕ
resize n flat = take n flat ++ replicate (n - length flat) tag_null

unfoldable pub set_global : ℕ → ℕ → Globals → Globals
set_global i v g =
    let flat = if leb (length g.flat) i then resize ((i + 1) % 2 ^ 32) g.flat else g.flat in
    record { by_id = assign i v g.by_id; flat = set flat i v }

unfoldable pub get_global : ℕ → Globals → Option ℕ
get_global i g =
    let v = get_or g.flat i 0 in
    if ltb i (length g.flat) && not (v == 0) then some v else lookup i g.by_id

pub record ApiState : Type 0 where
  pub symbol_ids : List (Bytes × ℕ)
  pub next_symbol_id : ℕ
  pub globals : Globals
  pub call_args : List ℕ
  pub return_value : ℕ
  pub has_return : Bool
  pub return_values : List ℕ

unfoldable pub find_symbol : Bytes → List (Bytes × ℕ) → Option ℕ
find_symbol n [] = none
find_symbol n ((k, i) ∷ rest) =
    let other = find_symbol n rest in if bytes_eq k n then some i else other

unfoldable pub resolve_symbol : Bytes → ApiState → ℕ × ApiState
resolve_symbol n s = elim (find_symbol n s.symbol_ids) [
  | some i ↦ (i, s)
  | none ↦ (
    s.next_symbol_id,
    record s {
      symbol_ids = (n, s.next_symbol_id) ∷ s.symbol_ids;
      next_symbol_id = (s.next_symbol_id + 1) % 2 ^ 32;
    },
  )
]

abbrev pub found : Option ℕ → Result GetError ℕ
found none = err not_found
found (some v) = ok v

-- `BblState::get` and the typed getters: the result, and the state with the name's symbol
unfoldable pub get : Bytes → ApiState → Result GetError ℕ × ApiState
get n s = let (i, t) = resolve_symbol n s in (found (lookup i t.globals.by_id), t)

unfoldable pub has : Bytes → ApiState → Bool × ApiState
has n s =
    let (i, t) = resolve_symbol n s in
    (elim (lookup i t.globals.by_id) [ none ↦ false | some v ↦ true ], t)

-- a value that was got, if it is of the type
unfoldable pub of_type : (ℕ → GcType) → ValueType → Result GetError ℕ → Result GetError ℕ
of_type kind type r =
    r >>= (λ v. if type_eq (value_type kind v) type then ok v else err type_mismatch)

abbrev pub mapped : {A : Type 0} → (ℕ → A) → Result GetError ℕ → Result GetError A
mapped f r = r >>= (λ v. ok (f v))

module _ (kind : ℕ → GcType) (n : Bytes) (s : ApiState) where
  abbrev pub get_type : Result GetError ValueType
  get_type = mapped (value_type kind) (get n s).0

  abbrev pub get_int : Result GetError ℤ
  get_int = mapped int_val (of_type kind ValueType.int (get n s).0)

  abbrev pub get_float : Result GetError ℕ
  get_float = of_type kind ValueType.float (get n s).0

  abbrev pub get_bool : Result GetError Bool
  get_bool = mapped bool_val (of_type kind ValueType.bool (get n s).0)

  abbrev pub get_string : Result GetError ℕ
  get_string = mapped as_ptr (of_type kind ValueType.string (get n s).0)

  abbrev pub get_table : Result GetError ℕ
  get_table = mapped as_ptr (of_type kind ValueType.table (get n s).0)

  abbrev pub get_binary : Result GetError ℕ
  get_binary = mapped as_ptr (of_type kind ValueType.binary (get n s).0)

-- `BblState::set`
unfoldable pub set_value : Bytes → ℕ → ApiState → ApiState
set_value n v s = let (i, t) = resolve_symbol n s in record t { globals = set_global i v t.globals }

abbrev pub set_int : (ℤ → ℕ) → Bytes → ℤ → ApiState → ApiState
set_int to_double n i = set_value n (make_int to_double i)

abbrev pub set_float : Bytes → ℕ → ApiState → ApiState
set_float n d = set_value n (make_float d)

abbrev pub set_string : Bytes → ℕ → ApiState → ApiState
set_string n p = set_value n (make_string p)

abbrev pub set_binary : Bytes → ℕ → ApiState → ApiState
set_binary n p = set_value n (make_object p)

-- `defn`, of a function's address
abbrev pub defn : Bytes → ℕ → ApiState → ApiState
defn n p = set_value n (make_cfn p)

pub data ArgError : Type 0 where
  out_of_bounds : ℤ → ArgError
  mismatch : ValueType → ValueType → ArgError

unfoldable pub has_arg : ApiState → ℤ → Bool
has_arg s (pos i) = ltb i (length s.call_args)
has_arg s (negsuc i) = false

abbrev pub position : ℤ → ℕ
position (pos i) = i
position (negsuc i) = 0

-- `getArg`
unfoldable pub get_arg : ApiState → ℤ → Result ArgError ℕ
get_arg s i =
    if not (has_arg s i)
    then err (out_of_bounds i)
    else ok (get_or s.call_args (position i) tag_null)

unfoldable pub typed_arg : (ℕ → GcType) → ValueType → ApiState → ℤ → Result ArgError ℕ
typed_arg kind type s i = get_arg s i >>= (λ v.
    if type_eq (value_type kind v) type then ok v else err (mismatch type (value_type kind v)))

module _ (kind : ℕ → GcType) (s : ApiState) (i : ℤ) where
  abbrev pub get_arg_type : Result ArgError ValueType
  get_arg_type = get_arg s i >>= (λ v. ok (value_type kind v))

  abbrev pub get_int_arg : Result ArgError ℤ
  get_int_arg = typed_arg kind ValueType.int s i >>= (λ v. ok (int_val v))

  abbrev pub get_float_arg : Result ArgError ℕ
  get_float_arg = typed_arg kind ValueType.float s i

  abbrev pub get_bool_arg : Result ArgError Bool
  get_bool_arg = typed_arg kind ValueType.bool s i >>= (λ v. ok (bool_val v))

  abbrev pub get_string_arg : Result ArgError ℕ
  get_string_arg = typed_arg kind ValueType.string s i >>= (λ v. ok (as_ptr v))

  abbrev pub get_binary_arg : Result ArgError ℕ
  get_binary_arg = typed_arg kind ValueType.binary s i >>= (λ v. ok (as_ptr v))

unfoldable pub push_value : ℕ → ApiState → ApiState
push_value v s = record s {
  return_value = v;
  has_return = true;
  return_values = s.return_values ++ v ∷ [];
}

abbrev pub push_int : (ℤ → ℕ) → ℤ → ApiState → ApiState
push_int to_double i = push_value (make_int to_double i)

abbrev pub push_float : ℕ → ApiState → ApiState
push_float d = push_value (make_float d)

abbrev pub push_bool : Bool → ApiState → ApiState
push_bool b = push_value (make_bool b)

abbrev pub push_string : ℕ → ApiState → ApiState
push_string p = push_value (make_string p)

abbrev pub push_null : ApiState → ApiState
push_null = push_value make_null

abbrev pub push_table : ℕ → ApiState → ApiState
push_table p = push_value (make_object p)

abbrev pub push_binary : ℕ → ApiState → ApiState
push_binary p = push_value (make_object p)

-- `pushUserData` does not add to `returnValues`.
unfoldable pub push_user_data : ℕ → ApiState → ApiState
push_user_data p s = record s { return_value = make_object p; has_return = true }
