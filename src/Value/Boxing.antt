-- ===== src/Value/Boxing.antt =====
-- What the NaN boxing of src/bbl.h gives back: kinds and payloads of made values.
use bbl.Prelude.{ℕ, ◌-◌, ◌<◌, ◌^◌, ◌≡◌, refl, Bool, true, false, arith}
use bbl.Prelude.Int.{ℤ, pos, negsuc, ◌≤ℤ◌}
use bbl.Value.{
  ValueType, GcType, value_type, int_val, bool_val, as_ptr, make_int, make_bool, make_string,
  make_fn, make_cfn, make_closure, make_object, is_gc_pointer, is_closure, is_cfn, object_type,
  is_double, make_float,
}

-- The integers that fit 48 bits.
abbrev pub FitsInt48 : ℤ → Type 0
FitsInt48 n = (negsuc (2 ^ 47 - 1) ≤ℤ n) × (n ≤ℤ pos (2 ^ 47 - 1))

-- An integer of 48 bits is boxed as an Int, comes back unchanged, and is no collectable pointer.
pub int_val-make_int :
    (kind : ℕ → GcType) (to_double : ℤ → ℕ) (n : ℤ)
    → FitsInt48 n
    → (value_type kind (make_int to_double n) ≡ ValueType.int)
      × (int_val (make_int to_double n) ≡ n)
      × (is_gc_pointer (make_int to_double n) ≡ false)
unfolding value_type int_val make_int is_gc_pointer
int_val-make_int kind to_double (pos n) h = (ground arith, ground arith, ground arith)
int_val-make_int kind to_double (negsuc n) h = (ground arith, ground arith, ground arith)

-- An integer that does not fit 48 bits is boxed as the double that the conversion gives, when that has
-- the pattern of a double, and is then a Float.
pub make_int_wide :
    (kind : ℕ → GcType) (to_double : ℤ → ℕ) (n : ℤ)
    → ¬ FitsInt48 n
    → is_double (to_double n) ≡ true
    → (make_int to_double n ≡ to_double n)
      × (value_type kind (make_int to_double n) ≡ ValueType.float)
unfolding value_type make_int make_float is_double
make_int_wide kind to_double (pos n) h d = (ground arith, ground arith)
make_int_wide kind to_double (negsuc n) h d = (ground arith, ground arith)

-- A Boolean is boxed as a Bool, comes back, and is no collectable pointer.
pub bool_val-make_bool :
    (kind : ℕ → GcType) (b : Bool)
    → (value_type kind (make_bool b) ≡ ValueType.bool)
      × (bool_val (make_bool b) ≡ b)
      × (is_gc_pointer (make_bool b) ≡ false)
unfolding value_type make_bool bool_val is_gc_pointer
bool_val-make_bool kind true = (refl, refl, refl)
bool_val-make_bool kind false = (refl, refl, refl)

module _ (kind : ℕ → GcType) (p : ℕ) (h : p < 2 ^ 48) where
  -- A function pointer below 2 ^ 48 keeps its address when it is boxed, is a Fn, and closures and C
  -- functions are told from the other kinds; all but C functions are collectable.
  pub as_ptr-make_fn :
      ((as_ptr (make_fn p) ≡ p) × (as_ptr (make_cfn p) ≡ p) × (as_ptr (make_closure p) ≡ p))
      × (value_type kind (make_fn p) ≡ ValueType.fn)
      × (value_type kind (make_cfn p) ≡ ValueType.fn)
      × (value_type kind (make_closure p) ≡ ValueType.fn)
      × ((is_gc_pointer (make_fn p) ≡ true)
          × (is_gc_pointer (make_cfn p) ≡ false)
          × (is_gc_pointer (make_closure p) ≡ true))
      × ((is_closure (make_closure p) ≡ true) × (is_closure (make_fn p) ≡ false))
      × ((is_closure (make_cfn p) ≡ false) × (is_cfn (make_closure p) ≡ false))
      × ((is_cfn (make_cfn p) ≡ true) × (is_cfn (make_fn p) ≡ false))
  unfolding as_ptr make_fn make_cfn make_closure value_type is_gc_pointer is_closure is_cfn
  as_ptr-make_fn = (
    (omega arith, omega arith, omega arith),
    ground arith,
    ground arith,
    ground arith,
    (ground arith, ground arith, ground arith),
    (ground arith, ground arith),
    (ground arith, ground arith),
    (ground arith, ground arith),
  )

  -- A boxed string or heap object whose address is below 2 ^ 48 keeps its address, is a String or has
  -- the kind that the heap says, and is collectable.
  pub as_ptr-make_object :
      ((as_ptr (make_string p) ≡ p) × (as_ptr (make_object p) ≡ p))
      × (value_type kind (make_string p) ≡ ValueType.string)
      × (value_type kind (make_object p) ≡ object_type (kind p))
      × ((is_gc_pointer (make_string p) ≡ true) × (is_gc_pointer (make_object p) ≡ true))
  unfolding as_ptr make_string make_object value_type is_gc_pointer object_type
  as_ptr-make_object =
      ((omega arith, omega arith), ground arith, ground arith, (ground arith, ground arith))
