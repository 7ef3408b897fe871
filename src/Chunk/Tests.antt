-- ===== src/Chunk/Tests.antt =====
-- Encodings of src/chunk.h on concrete operands.
use bbl.Prelude.{ℕ, ◌<◌, ◌^◌, ◌≡◌, ◌↔◌, [], ◌∷◌, arith, get_or}
use bbl.Prelude.Int.{pos, negsuc}
use bbl.Chunk.{
  Chunk, encode_abc, encode_abx, encode_asbx, decode_op, decode_a, decode_sbx, patch_sbx,
}
use bbl.Chunk.Encoding.{DecodesAbc, FitsSbx, decode-encode_abc, decode_sbx-encode_asbx}
use bbl.Chunk.Patch.{patch_sbx_here}

decode-encode_abc_example :
    (encode_abc 4 1 2 255 < 2 ^ 32) × DecodesAbc (encode_abc 4 1 2 255) 4 1 2 255
decode-encode_abc_example =
    decode-encode_abc 4 1 2 255 (omega arith) (omega arith) (omega arith) (omega arith)

-- `LOADINT` of -32768, the least integer that the compiler gives it
decode_sbx-encode_asbx_example :
    (decode_sbx (encode_asbx 3 0 (negsuc 32767)) ≡ negsuc 32767) ↔ FitsSbx (negsuc 32767)
decode_sbx-encode_asbx_example =
    decode_sbx-encode_asbx 3 0 (negsuc 32767) (omega arith) (omega arith)

-- a jump that is to be patched, behind a constant load
abbrev pending : Chunk ℕ
pending = record {
  code = encode_abx 0 3 1 ∷ encode_asbx 37 3 (pos 0) ∷ [];
  constants = 5 ∷ 6 ∷ [];
  lines = pos 1 ∷ pos 1 ∷ [];
  num_regs = 4;
}

backwards : FitsSbx (negsuc 1)
backwards = (omega arith, omega arith)

patch_sbx_here_example :
    (decode_op (get_or (patch_sbx 1 (negsuc 1) pending).code 1 0)
      ≡ decode_op (get_or pending.code 1 0))
    × (decode_a (get_or (patch_sbx 1 (negsuc 1) pending).code 1 0)
        ≡ decode_a (get_or pending.code 1 0))
    × (decode_sbx (get_or (patch_sbx 1 (negsuc 1) pending).code 1 0) ≡ negsuc 1)
patch_sbx_here_example = patch_sbx_here 1 (negsuc 1) pending (omega arith) backwards
