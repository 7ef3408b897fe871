-- ===== src/Chunk.antt =====
-- src/chunk.h: the 32-bit instruction encodings and the code buffer of one function.
-- A `uint8_t` or `uint16_t` argument is a number below 2 ^ 8 or 2 ^ 16, so `|` of fields that are
-- shifted apart is a sum; `int` arguments are integers, and the casts wrap.
-- The per-loop traces and the debug register names of a chunk belong to the JIT and are left out.
pub mod Encoding
pub mod Patch
pub mod Tests
use bbl.Prelude.{ℕ, suc, ◌+◌, ◌-◌, ◌*◌, ◌/◌, ◌%◌, ◌^◌, List, [], ◌∷◌, ◌++◌, length, get_or, set}
use bbl.Prelude.Int.{ℤ, pos, ◌+ℤ◌, ◌-ℤ◌, wrap}

pub data OpCode : Type 0 where
  op_loadk op_loadnull op_loadbool op_loadint : OpCode
  op_add op_addk op_addi op_sub op_subi op_mul op_div op_mod : OpCode
  op_band op_bor op_bxor op_bnot op_shl op_shr : OpCode
  op_eq op_neq op_lt op_gt op_lte op_gte op_ltjmp op_lejmp op_gtjmp op_gejmp : OpCode
  op_not : OpCode
  op_move op_getglobal op_setglobal op_envget op_envset op_getcapture op_setcapture : OpCode
  op_jmp op_jmpfalse op_jmptrue op_loop : OpCode
  op_and op_or : OpCode
  op_closure op_call op_tailcall op_return : OpCode
  op_vector op_table op_struct op_binary : OpCode
  op_getfield op_setfield op_getindex op_setindex op_mcall : OpCode
  op_trybegin op_tryend : OpCode
  op_length op_sizeof op_exec op_execfile op_int : OpCode

-- The enumerator's value, as a `uint8_t`.
unfoldable pub code_of : OpCode → ℕ
code_of op_loadk = 0
code_of op_loadnull = 1
code_of op_loadbool = 2
code_of op_loadint = 3
code_of op_add = 4
code_of op_addk = 5
code_of op_addi = 6
code_of op_sub = 7
code_of op_subi = 8
code_of op_mul = 9
code_of op_div = 10
code_of op_mod = 11
code_of op_band = 12
code_of op_bor = 13
code_of op_bxor = 14
code_of op_bnot = 15
code_of op_shl = 16
code_of op_shr = 17
code_of op_eq = 18
code_of op_neq = 19
code_of op_lt = 20
code_of op_gt = 21
code_of op_lte = 22
code_of op_gte = 23
code_of op_ltjmp = 24
code_of op_lejmp = 25
code_of op_gtjmp = 26
code_of op_gejmp = 27
code_of op_not = 28
code_of op_move = 29
code_of op_getglobal = 30
code_of op_setglobal = 31
code_of op_envget = 32
code_of op_envset = 33
code_of op_getcapture = 34
code_of op_setcapture = 35
code_of op_jmp = 36
code_of op_jmpfalse = 37
code_of op_jmptrue = 38
code_of op_loop = 39
code_of op_and = 40
code_of op_or = 41
code_of op_closure = 42
code_of op_call = 43
code_of op_tailcall = 44
code_of op_return = 45
code_of op_vector = 46
code_of op_table = 47
code_of op_struct = 48
code_of op_binary = 49
code_of op_getfield = 50
code_of op_setfield = 51
code_of op_getindex = 52
code_of op_setindex = 53
code_of op_mcall = 54
code_of op_trybegin = 55
code_of op_tryend = 56
code_of op_length = 57
code_of op_sizeof = 58
code_of op_exec = 59
code_of op_execfile = 60
code_of op_int = 61

abbrev pub sbx_bias : ℕ
sbx_bias = 32767

unfoldable pub encode_abc : ℕ → ℕ → ℕ → ℕ → ℕ
encode_abc op a b c = op + a * 2 ^ 8 + b * 2 ^ 16 + c * 2 ^ 24

unfoldable pub encode_abx : ℕ → ℕ → ℕ → ℕ
encode_abx op a bx = op + a * 2 ^ 8 + bx * 2 ^ 16

unfoldable pub encode_asbx : ℕ → ℕ → ℤ → ℕ
unfolding encode_abx
encode_asbx op a sbx = encode_abx op a (wrap (2 ^ 16) (sbx +ℤ pos sbx_bias))

unfoldable pub decode_op : ℕ → ℕ
decode_op inst = inst % 2 ^ 8

unfoldable pub decode_a : ℕ → ℕ
decode_a inst = inst / 2 ^ 8 % 2 ^ 8

unfoldable pub decode_b : ℕ → ℕ
decode_b inst = inst / 2 ^ 16 % 2 ^ 8

unfoldable pub decode_c : ℕ → ℕ
decode_c inst = inst / 2 ^ 24 % 2 ^ 8

unfoldable pub decode_bx : ℕ → ℕ
decode_bx inst = inst / 2 ^ 16 % 2 ^ 16

unfoldable pub decode_sbx : ℕ → ℤ
unfolding decode_bx
decode_sbx inst = pos (decode_bx inst) -ℤ pos sbx_bias

-- `V` is the type of the constants.
pub record Chunk (V : Type 0) : Type 0 where
  pub code : List ℕ
  pub constants : List V
  pub lines : List ℤ
  pub num_regs : ℕ

module _ {V : Type 0} where
  unfoldable pub emit : ℕ → ℤ → Chunk V → Chunk V
  emit inst line ch = record ch { code = ch.code ++ inst ∷ []; lines = ch.lines ++ line ∷ [] }

  unfoldable pub emit_abc : ℕ → ℕ → ℕ → ℕ → ℤ → Chunk V → Chunk V
  unfolding emit
  emit_abc op a b c line ch = emit (encode_abc op a b c) line ch

  unfoldable pub emit_abx : ℕ → ℕ → ℕ → ℤ → Chunk V → Chunk V
  unfolding emit
  emit_abx op a bx line ch = emit (encode_abx op a bx) line ch

  unfoldable pub emit_asbx : ℕ → ℕ → ℤ → ℤ → Chunk V → Chunk V
  unfolding emit
  emit_asbx op a sbx line ch = emit (encode_asbx op a sbx) line ch

  -- the new chunk and the index of the constant
  unfoldable pub add_constant : V → Chunk V → Chunk V × ℕ
  add_constant val ch =
      let constants' = ch.constants ++ val ∷ [] in
      (record ch { constants = constants' }, length constants' - 1)

  -- A write past the end, undefined in the source, changes nothing here.
  unfoldable pub patch_sbx : ℕ → ℤ → Chunk V → Chunk V
  patch_sbx offset sbx ch =
      let inst = get_or ch.code offset 0 in
      record ch { code = set ch.code offset (encode_asbx (decode_op inst) (decode_a inst) sbx) }

  unfoldable pub patch_bx : ℕ → ℕ → Chunk V → Chunk V
  patch_bx offset bx ch =
      let inst = get_or ch.code offset 0 in
      record ch { code = set ch.code offset (encode_abx (decode_op inst) (decode_a inst) bx) }
