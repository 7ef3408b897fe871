-- ===== src/Compiler.antt =====
-- src/compiler.h and src/compiler.cpp: the compiler's state of one function, its registers, jumps,
-- constants and captured variables.
-- A chain of states stands for a function and those around it, the pointers `enclosing`, innermost
-- first. A map from symbols to registers is an association list, the newest entry first. `-1` for
-- "not found" is `none`.
pub mod Jumps
pub mod Captures
pub mod Resolve
pub mod Tests
use bbl.Prelude.{
  ℕ, zero, suc, ◌+◌, ◌-◌, ◌%◌, ◌^◌, Bool, true, false, not, ◌&&◌, ◌||◌, ltb, leb, ◌==◌,
  if◌then◌else◌, Option, none, some, List, [], ◌∷◌, ◌++◌, length,
}
use bbl.Prelude.Int.{ℤ, pos, negsuc, ◌+ℤ◌, ◌-ℤ◌, ltb_ℤ}
use bbl.Prelude.Result.{Result, ok, err, ◌>>=◌, ◌>>◌, require}
use bbl.Chunk.{Chunk, emit_asbx, add_constant, patch_sbx}

-- `CaptureInfo`: a register of the enclosing function or one of its captured variables
pub record CaptureInfo : Type 0 where
  pub src_type : ℕ
  pub src_idx : ℕ

-- `V` is the type of the constants.
pub record CompilerState (V : Type 0) : Type 0 where
  pub chunk : Chunk V
  pub local_regs : List (ℕ × ℕ)
  pub captures : List CaptureInfo
  pub next_reg : ℕ
  pub max_regs : ℕ

pub data CompileError : Type 0 where
  too_many_registers too_many_captures too_many_constants too_many_field_constants : CompileError
  jump_too_far : CompileError
  too_many_arguments : ℤ → CompileError

-- the register under a symbol in `localRegs`
pub find_local : ℕ → List (ℕ × ℕ) → Option ℕ
find_local symbol_id [] = none
find_local symbol_id ((s, r) ∷ rest) =
    let other = find_local symbol_id rest in if s == symbol_id then some r else other

-- the loop over `captures`, from index `i` on
pub find_capture : ℕ → ℕ → ℕ → List CaptureInfo → Option ℕ
find_capture src_type src_idx i [] = none
find_capture src_type src_idx i (c ∷ cs) =
    let later = find_capture src_type src_idx (i + 1) cs in
    if c.src_type == src_type && c.src_idx == src_idx then some i else later

unfoldable pub check_argc : ℕ → ℤ → Result CompileError ℕ
check_argc count line = require (leb count 255) (too_many_arguments line) >> ok (count % 2 ^ 8)

module _ {V : Type 0} where
  -- the register and the state behind
  unfoldable pub alloc_reg : CompilerState V → Result CompileError (ℕ × CompilerState V)
  alloc_reg cs = do
    require (ltb cs.next_reg 255) too_many_registers
    let next = (cs.next_reg + 1) % 2 ^ 8
    ok (
      cs.next_reg,
      record cs { next_reg = next; max_regs = if ltb cs.max_regs next then next else cs.max_regs },
    )

  unfoldable pub free_reg : CompilerState V → CompilerState V
  free_reg cs = record cs { next_reg = if ltb 0 cs.next_reg then cs.next_reg - 1 else cs.next_reg }

  unfoldable pub free_regs_to : ℕ → CompilerState V → CompilerState V
  free_regs_to r cs = record cs { next_reg = r }

  unfoldable pub resolve_local : ℕ → CompilerState V → Option ℕ
  resolve_local symbol_id cs = find_local symbol_id cs.local_regs

  -- The index of a capture, which is added where there is none.
  unfoldable pub add_capture : ℕ → ℕ → CompilerState V → Result CompileError (ℕ × CompilerState V)
  add_capture src_type src_idx cs = elim (find_capture src_type src_idx 0 cs.captures) [
    | some i ↦ ok (i, cs)
    | none ↦
        require (ltb (length cs.captures) 255) too_many_captures
        >> ok (
          length cs.captures,
          record cs {
            captures = cs.captures ++ record { src_type = src_type; src_idx = src_idx } ∷ [];
          },
        )
  ]

  -- The index of a symbol that an enclosing function has, and the chain behind.
  pub resolve_capture :
      ℕ
      → CompilerState V
      → List (CompilerState V)
      → Result CompileError (Option ℕ × CompilerState V × List (CompilerState V))
  resolve_capture symbol_id cs [] = ok (none, cs, [])
  resolve_capture symbol_id cs (outer ∷ around) =
      let further = resolve_capture symbol_id outer around in
      elim (resolve_local symbol_id outer) [
        | some r ↦ add_capture 0 (r % 2 ^ 8) cs >>= λ a. ok (some a.0, a.1, outer ∷ around)
        | none ↦ further >>= λ f. elim f.0 [
          | none ↦ ok (none, cs, f.1 ∷ f.2)
          | some c ↦ add_capture 1 (c % 2 ^ 8) cs >>= λ a. ok (some a.0, a.1, f.1 ∷ f.2)
        ]
      ]

  -- the offset of the jump, to be patched, and the state behind
  unfoldable pub emit_jump : ℕ → ℕ → ℤ → CompilerState V → ℕ × CompilerState V
  emit_jump op a line cs =
      (length cs.chunk.code, record cs { chunk = emit_asbx op a (pos 0) line cs.chunk })

  unfoldable pub patch_jump : ℕ → CompilerState V → Result CompileError (CompilerState V)
  patch_jump offset cs =
      let jump = pos (length cs.chunk.code) -ℤ pos offset -ℤ pos 1 in
      require (not (ltb_ℤ jump (negsuc 32766) || ltb_ℤ (pos 32767) jump)) jump_too_far
      >> ok (record cs { chunk = patch_sbx offset jump cs.chunk })

  unfoldable pub add_const_idx : V → CompilerState V → Result CompileError (ℕ × CompilerState V)
  add_const_idx val cs =
      let (ch, idx) = add_constant val cs.chunk in
      require (leb idx 65535) too_many_constants >> ok (idx % 2 ^ 16, record cs { chunk = ch })

  -- `addSymConst` and `addStrConst` differ in the constant and the text of the error
  unfoldable pub add_field_const : V → CompilerState V → Result CompileError (ℕ × CompilerState V)
  add_field_const val cs =
      let (ch, idx) = add_constant val cs.chunk in
      require (leb idx 255) too_many_field_constants >> ok (idx % 2 ^ 8, record cs { chunk = ch })
