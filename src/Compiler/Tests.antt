-- ===== src/Compiler/Tests.antt =====
-- Runs of src/compiler.cpp on a small chain of functions.
use bbl.Prelude.{ℕ, ◌^◌, ◌<◌, ◌≡◌, refl, Option, none, some, List, [], ◌∷◌, ◌++◌, arith}
use bbl.Prelude.Int.{pos}
use bbl.Prelude.Result.{ok}
use bbl.Chunk.{Chunk, encode_asbx, encode_abc}
use bbl.Compiler.{
  CompilerState, emit_jump, patch_jump, resolve_capture, resolve_local, find_local, add_capture,
  find_capture,
}
use bbl.Compiler.Jumps.{with_body, patch_jump-emit_jump}
use bbl.Compiler.Captures.{AllBounded}
use bbl.Compiler.Resolve.{Resolves, resolve_capture-Resolves, resolve_capture_ok}

abbrev no_code : Chunk ℕ
no_code = record { code = []; constants = []; lines = []; num_regs = 2 }

-- a function with the registers of its variables
abbrev with_locals : List (ℕ × ℕ) → CompilerState ℕ
with_locals regs = record {
  chunk = no_code;
  local_regs = regs;
  captures = [];
  next_reg = 1;
  max_regs = 1;
}

abbrev innermost : CompilerState ℕ
innermost = with_locals []

abbrev middle : CompilerState ℕ
middle = with_locals ((9, 4) ∷ [])

abbrev outermost : CompilerState ℕ
outermost = with_locals ((7, 3) ∷ [])

-- the chain behind the capture of symbol 7
abbrev middle_after : CompilerState ℕ
middle_after = record middle { captures = record { src_type = 0; src_idx = 3 } ∷ [] }

abbrev innermost_after : CompilerState ℕ
innermost_after = record innermost { captures = record { src_type = 1; src_idx = 0 } ∷ [] }

captured :
    resolve_capture 7 innermost (middle ∷ outermost ∷ [])
    ≡ ok (some 0, innermost_after, middle_after ∷ outermost ∷ [])
unfolding resolve_capture resolve_local find_local add_capture find_capture
captured = refl

none_found : (symbol_id r : ℕ) → find_local symbol_id [] ≡ some r → ◌≡◌ {A = Option ℕ} none (some r)
unfolding find_local
none_found symbol_id r e = e

one_local :
    (s r symbol_id reg : ℕ)
    → reg < 2 ^ 8
    → find_local symbol_id ((s, reg) ∷ []) ≡ some r
    → r < 2 ^ 8
unfolding find_local
one_local s r symbol_id reg h e = ground (arith, e)

bounded : AllBounded (innermost ∷ middle ∷ outermost ∷ [])
unfolding resolve_local
bounded = (
  record { capped = omega arith; bytes = λ s r e. absurd (cc (none_found s r e)) },
  (
    record { capped = omega arith; bytes = λ s r e. one_local 9 r s 4 (omega arith) e },
    (record { capped = omega arith; bytes = λ s r e. one_local 7 r s 3 (omega arith) e }, tt),
  ),
)

resolve_capture-Resolves_example :
    Resolves 7 innermost
      (middle ∷ outermost ∷ [])
      (some 0, innermost_after, middle_after ∷ outermost ∷ [])
resolve_capture-Resolves_example =
    resolve_capture-Resolves 7 innermost (middle ∷ outermost ∷ []) bounded captured

resolve_capture_ok_example :
    (r : Option ℕ × CompilerState ℕ × List (CompilerState ℕ)) × (resolve_capture 7 innermost
        (middle ∷ outermost ∷ [])
      ≡ ok r)
resolve_capture_ok_example =
    resolve_capture_ok 7 innermost (middle ∷ outermost ∷ [])
      (omega arith, (omega arith, (omega arith, tt)))

-- a conditional jump over one move
patch_jump-emit_jump_example :
    let (offset, cs₁) = emit_jump 37 2 (pos 5) innermost in
    (cs₂ : CompilerState ℕ) × (patch_jump offset (with_body (encode_abc 29 1 2 0 ∷ []) cs₁)
      ≡ ok cs₂)
    × (cs₂.chunk.code ≡ [] ++ encode_asbx 37 2 (pos 1) ∷ encode_abc 29 1 2 0 ∷ [])
patch_jump-emit_jump_example =
    patch_jump-emit_jump 37 2 (pos 5) innermost (encode_abc 29 1 2 0 ∷ []) (omega arith)
      (omega arith) (omega arith)
