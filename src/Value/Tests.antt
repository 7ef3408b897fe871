-- ===== src/Value/Tests.antt =====
-- Boxed values of src/bbl.h.
use bbl.Prelude.{ℕ, ◌+◌, ◌^◌, ◌≡◌, ◌-◌, refl, true, false, ◌==◌, arith}
use bbl.Prelude.Int.{ℤ, negsuc}
use bbl.Value.{
  ValueType, GcType, value_type, int_val, as_ptr, make_int, make_string, make_fn, make_cfn,
  make_closure, make_object, is_gc_pointer, is_closure, is_cfn, object_type, is_double, key_equal,
  tag_of, tag_int, tag_string,
}
use bbl.Value.Boxing.{FitsInt48, int_val-make_int, as_ptr-make_fn, as_ptr-make_object}
use bbl.Value.Equality.{IsKey, key_equal_lem}

abbrev kind : ℕ → GcType
kind p = GcType.vec

abbrev to_double : ℤ → ℕ
to_double n = 0x42E0_0000_0000_0000

least_fits : FitsInt48 (negsuc (2 ^ 47 - 1))
least_fits = (omega arith, omega arith)

int_val-make_int_example :
    (value_type kind (make_int to_double (negsuc (2 ^ 47 - 1))) ≡ ValueType.int)
    × (int_val (make_int to_double (negsuc (2 ^ 47 - 1))) ≡ negsuc (2 ^ 47 - 1))
    × (is_gc_pointer (make_int to_double (negsuc (2 ^ 47 - 1))) ≡ false)
int_val-make_int_example = int_val-make_int kind to_double (negsuc (2 ^ 47 - 1)) least_fits

as_ptr-make_object_example :
    ((as_ptr (make_string 4096) ≡ 4096) × (as_ptr (make_object 4096) ≡ 4096))
    × (value_type kind (make_string 4096) ≡ ValueType.string)
    × (value_type kind (make_object 4096) ≡ object_type (kind 4096))
    × ((is_gc_pointer (make_string 4096) ≡ true) × (is_gc_pointer (make_object 4096) ≡ true))
as_ptr-make_object_example = as_ptr-make_object kind 4096 (omega arith)

as_ptr-make_fn_example :
    ((as_ptr (make_fn 4096) ≡ 4096)
      × (as_ptr (make_cfn 4096) ≡ 4096)
      × (as_ptr (make_closure 4096) ≡ 4096))
    × (value_type kind (make_fn 4096) ≡ ValueType.fn)
    × (value_type kind (make_cfn 4096) ≡ ValueType.fn)
    × (value_type kind (make_closure 4096) ≡ ValueType.fn)
    × ((is_gc_pointer (make_fn 4096) ≡ true)
        × (is_gc_pointer (make_cfn 4096) ≡ false)
        × (is_gc_pointer (make_closure 4096) ≡ true))
    × ((is_closure (make_closure 4096) ≡ true) × (is_closure (make_fn 4096) ≡ false))
    × ((is_closure (make_cfn 4096) ≡ false) × (is_cfn (make_closure 4096) ≡ false))
    × ((is_cfn (make_cfn 4096) ≡ true) × (is_cfn (make_fn 4096) ≡ false))
as_ptr-make_fn_example = as_ptr-make_fn kind 4096 (omega arith)

abbrev name : ℕ
name = tag_string + 4096

abbrev seven : ℕ
seven = tag_int + 7

name-IsKey : IsKey name
unfolding is_double tag_of
name-IsKey = record {
  word = omega arith;
  no_double = refl;
  canonical_bool = λ e. absurd (omega (arith, e));
}

seven-IsKey : IsKey seven
unfolding is_double tag_of
seven-IsKey = record {
  word = omega arith;
  no_double = refl;
  canonical_bool = λ e. absurd (omega (arith, e));
}

key_equal_lem_example : key_equal kind (λ a b. a == b) name seven ≡ (name == seven)
key_equal_lem_example = key_equal_lem kind (λ a b. a == b) name seven name-IsKey seven-IsKey
