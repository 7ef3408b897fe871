-- ===== src/Chunk/Patch.antt =====
-- Emitting and patching in the code buffer of src/chunk.h: sizes, and what a patch leaves alone.
use bbl.Prelude.{
  ℕ, ◌<◌, ◌^◌, ◌≡◌, ◌≢◌, [], ◌∷◌, length, get_or, arith, length-append, length-set, get_or-set_self,
  get_or-set_ne,
}
use bbl.Prelude.Int.{ℤ}
use bbl.Chunk.{Chunk, emit, patch_sbx, decode_op, decode_a, decode_sbx}
use bbl.Chunk.Encoding.{
  FitsSbx, decode_op-encode_asbx, decode_a-encode_asbx, decode_sbx-encode_asbx,
}

-- Every instruction has a source line.
pub record IsLined {V : Type 0} (ch : Chunk V) : Type 0 where
  pub lined : length ch.lines ≡ length ch.code

decode_op-lt : (w : ℕ) → decode_op w < 2 ^ 8
unfolding decode_op
decode_op-lt w = omega arith

decode_a-lt : (w : ℕ) → decode_a w < 2 ^ 8
unfolding decode_a
decode_a-lt w = omega arith

module _ {V : Type 0} where
  pub emit-IsLined : (inst : ℕ) (line : ℤ) (ch : Chunk V) → IsLined ch → IsLined (emit inst line ch)
  unfolding emit
  emit-IsLined inst line ch v = record {
    lined =
        omega
          (arith, v.lined, length-append ch.code (inst ∷ []), length-append ch.lines (line ∷ []));
  }

  pub length-patch_sbx :
      (offset : ℕ) (s : ℤ) (ch : Chunk V) → length (patch_sbx offset s ch).code ≡ length ch.code
  unfolding patch_sbx
  length-patch_sbx offset s ch = length-set ch.code offset _

  pub patch_sbx_elsewhere :
      (offset j : ℕ) (s : ℤ) (ch : Chunk V)
      → offset ≢ j
      → get_or (patch_sbx offset s ch).code j 0 ≡ get_or ch.code j 0
  unfolding patch_sbx
  patch_sbx_elsewhere offset j s ch h = get_or-set_ne ch.code offset j _ 0 h

  -- Patching an instruction of the code keeps its opcode and its register, and the operand that it
  -- then decodes to is the new one, if that lies between -32767 and 32768.
  pub patch_sbx_here :
      (offset : ℕ) (s : ℤ) (ch : Chunk V)
      → offset < length ch.code
      → FitsSbx s
      → (decode_op (get_or (patch_sbx offset s ch).code offset 0)
          ≡ decode_op (get_or ch.code offset 0))
        × (decode_a (get_or (patch_sbx offset s ch).code offset 0)
            ≡ decode_a (get_or ch.code offset 0))
        × (decode_sbx (get_or (patch_sbx offset s ch).code offset 0) ≡ s)
  unfolding patch_sbx
  patch_sbx_here offset s ch h fits =
      let w = get_or ch.code offset 0 in
      let ho = decode_op-lt w in
      let ha = decode_a-lt w in
      rw (get_or-set_self ch.code offset _ 0 h) (
        decode_op-encode_asbx _ _ s ho ha,
        decode_a-encode_asbx _ _ s ho ha,
        (decode_sbx-encode_asbx _ _ s ho ha).1 fits,
      )
