-- ===== src/Api/Tests.antt =====
-- Runs of the host interface of src/bbl.cpp.
use bbl.Prelude.{◌+◌, ◌≡◌, refl, false, some, [], ◌∷◌, arith}
use bbl.Prelude.Result.{err}
use bbl.Lexer.{bytes_eq}
use bbl.Table.{not_found}
use bbl.Value.{tag_null, tag_int}
use bbl.Api.{ApiState, lookup, find_symbol, set_global, get_global, get, set_value, resolve_symbol}
use bbl.Api.Variables.{get_global-set_global}
use bbl.Api.Symbols.{IsSymbols, get-set_value}

abbrev new_state : ApiState
new_state = record {
  symbol_ids = [];
  next_symbol_id = 1;
  globals = record { by_id = []; flat = [] };
  call_args = [];
  return_value = tag_null;
  has_return = false;
  return_values = [];
}

new_state-IsSymbols : IsSymbols new_state
unfolding find_symbol lookup
new_state-IsSymbols = record {
  below = λ n i h. absurd (cc h);
  distinct = λ n m i h k. absurd (cc h);
  fresh = λ i h. refl;
}

-- a name that is not set stays so
get-set_value_example :
    IsSymbols (set_value (120 ∷ []) (tag_int + 7) new_state)
    × ((get (121 ∷ []) (set_value (120 ∷ []) (tag_int + 7) new_state)).0 ≡ err not_found)
unfolding bytes_eq get resolve_symbol lookup find_symbol
get-set_value_example =
    get-set_value (120 ∷ []) (121 ∷ []) (tag_int + 7) new_state new_state-IsSymbols (omega arith)

-- Variable 2 was never set and reads as null.
get_global-set_global_example :
    get_global 2 (set_global 5 (tag_int + 7) new_state.globals) ≡ some tag_null
get_global-set_global_example =
    get_global-set_global 5 2 (tag_int + 7) new_state.globals (omega arith)
