-- ===== src/Chunk/Encoding.antt =====
-- The instruction formats of src/chunk.h: what decoding gives back of an encoded instruction.
use bbl.Prelude.{ℕ, ◌<◌, ◌^◌, ◌≡◌, ◌↔◌, arith}
use bbl.Prelude.Int.{ℤ, pos, negsuc, ◌≤ℤ◌, ◌+ℤ◌, ◌-ℤ◌, wrap}
use bbl.Chunk.{
  encode_abc, encode_abx, encode_asbx, decode_op, decode_a, decode_b, decode_c, decode_bx,
  decode_sbx,
}

-- What an iABC instruction decodes to.
abbrev pub DecodesAbc : ℕ → ℕ → ℕ → ℕ → ℕ → Type 0
DecodesAbc inst op a b c =
    (decode_op inst ≡ op) × (decode_a inst ≡ a) × (decode_b inst ≡ b) × (decode_c inst ≡ c)

-- An iABC instruction built from four bytes fits 32 bits and decodes to those bytes.
pub decode-encode_abc :
    (op a b c : ℕ)
    → op < 2 ^ 8
    → a < 2 ^ 8
    → b < 2 ^ 8
    → c < 2 ^ 8
    → (encode_abc op a b c < 2 ^ 32) × DecodesAbc (encode_abc op a b c) op a b c
unfolding encode_abc decode_op decode_a decode_b decode_c
decode-encode_abc op a b c ho ha hb hc =
    (omega arith, (omega arith, omega arith, omega arith, omega arith))

-- An iABx instruction built from two bytes and a 16-bit operand decodes to those.
pub decode-encode_abx :
    (op a bx : ℕ)
    → op < 2 ^ 8
    → a < 2 ^ 8
    → bx < 2 ^ 16
    → (decode_op (encode_abx op a bx) ≡ op)
      × (decode_a (encode_abx op a bx) ≡ a)
      × (decode_bx (encode_abx op a bx) ≡ bx)
unfolding encode_abx decode_op decode_a decode_bx
decode-encode_abx op a bx ho ha hb = (omega arith, omega arith, omega arith)

pub wrap-lt : (s : ℤ) → wrap (2 ^ 16) s < 2 ^ 16
unfolding wrap
wrap-lt (pos n) = omega arith
wrap-lt (negsuc n) = omega arith

pub decode_op-encode_asbx :
    (op a : ℕ) (s : ℤ) → op < 2 ^ 8 → a < 2 ^ 8 → decode_op (encode_asbx op a s) ≡ op
unfolding encode_asbx
decode_op-encode_asbx op a s ho ha = (decode-encode_abx op a _ ho ha (wrap-lt _)).0

pub decode_a-encode_asbx :
    (op a : ℕ) (s : ℤ) → op < 2 ^ 8 → a < 2 ^ 8 → decode_a (encode_asbx op a s) ≡ a
unfolding encode_asbx
decode_a-encode_asbx op a s ho ha = (decode-encode_abx op a _ ho ha (wrap-lt _)).1

-- The operand that comes back is the wrapped one, less the bias.
decode_sbx-wrap :
    (op a : ℕ) (s : ℤ)
    → op < 2 ^ 8
    → a < 2 ^ 8
    → decode_sbx (encode_asbx op a s) ≡ pos (wrap (2 ^ 16) (s +ℤ pos 32767)) -ℤ pos 32767
unfolding decode_sbx encode_asbx
decode_sbx-wrap op a s ho ha =
    let w = wrap (2 ^ 16) (s +ℤ pos 32767) in
    rw ((decode-encode_abx op a w ho ha (wrap-lt (s +ℤ pos 32767))).2)

-- The operands that sBx can carry.
abbrev pub FitsSbx : ℤ → Type 0
FitsSbx s = (negsuc 32766 ≤ℤ s) × (s ≤ℤ pos 32768)

wrap_fits : (s : ℤ) → FitsSbx s → pos (wrap (2 ^ 16) (s +ℤ pos 32767)) -ℤ pos 32767 ≡ s
unfolding wrap ◌+ℤ◌ ◌-ℤ◌
wrap_fits (pos n) h = ground arith
wrap_fits (negsuc n) h = ground arith

wrap_only : (w : ℕ) (s : ℤ) → w < 2 ^ 16 → pos w -ℤ pos 32767 ≡ s → FitsSbx s
unfolding ◌-ℤ◌
wrap_only w s h e = ground arith

-- A signed operand comes back from an iAsBx instruction exactly when it lies between -32767 and
-- 32768.
pub decode_sbx-encode_asbx :
    (op a : ℕ) (s : ℤ) → op < 2 ^ 8 → a < 2 ^ 8 → (decode_sbx (encode_asbx op a s) ≡ s) ↔ FitsSbx s
decode_sbx-encode_asbx op a s ho ha =
    rw (decode_sbx-wrap op a s ho ha) ((λ e. wrap_only _ s (wrap-lt _) e), (λ h. wrap_fits s h))
