-- ===== src/Compiler/Jumps.antt =====
-- `emitJump` and `patchJump` of src/compiler.cpp: where a patched jump leads.
use mathlib.Core.List.{append_assoc}
use bbl.Prelude.{
  ℕ, ◌+◌, ◌^◌, ◌≤◌, ◌<◌, ◌≡◌, refl, ap, true, false, not, ◌||◌, List, [], ◌∷◌, ◌++◌, length, get_or,
  set, arith, length-append,
}
use bbl.Prelude.Int.{ℤ, pos, negsuc, ◌-ℤ◌, ltb_ℤ}
use bbl.Prelude.Result.{ok, err}
use bbl.Chunk.{Chunk, emit, emit_asbx, patch_sbx, encode_asbx}
use bbl.Chunk.Encoding.{decode_op-encode_asbx, decode_a-encode_asbx}
use bbl.Compiler.{CompilerState, jump_too_far, emit_jump, patch_jump}

-- the distance that `patchJump` stores
distance : (n offset k : ℕ) → n ≡ offset + 1 + k → pos n -ℤ pos offset -ℤ pos 1 ≡ pos k
unfolding ◌-ℤ◌
distance n offset k h = ground (arith, h)

near : (k : ℕ) → k ≤ 32767 → not (ltb_ℤ (pos k) (negsuc 32766) || ltb_ℤ (pos 32767) (pos k)) ≡ true
near k h = ground (arith, h)

far : (k : ℕ) → 32767 < k → not (ltb_ℤ (pos k) (negsuc 32766) || ltb_ℤ (pos 32767) (pos k)) ≡ false
far k h = ground (arith, h)

set-append :
    {A : Type 0} (xs ys : List A) (w v : A) → set (xs ++ w ∷ ys) (length xs) v ≡ xs ++ v ∷ ys
set-append [] ys w v = refl
set-append (x ∷ xs) ys w v = ap (◌∷◌ x) (set-append xs ys w v)

get_or_at : {A : Type 0} (xs ys : List A) (w d : A) → get_or (xs ++ w ∷ ys) (length xs) d ≡ w
get_or_at [] ys w d = refl
get_or_at (x ∷ xs) ys w d = get_or_at xs ys w d

module _ {V : Type 0} where
  -- A jump that is patched behind `k` instructions leads just behind them.
  patch_jump_at :
      (offset k : ℕ) (cs : CompilerState V)
      → length cs.chunk.code ≡ offset + 1 + k
      → k ≤ 32767
      → patch_jump offset cs ≡ ok (record cs { chunk = patch_sbx offset (pos k) cs.chunk })
  unfolding patch_jump
  patch_jump_at offset k cs h small =
      rw (distance (length cs.chunk.code) offset k h, near k small) refl

  -- A jump with `k` instructions behind it, more than 32767, cannot be patched: `patchJump` is an error.
  pub patch_jump_far :
      (offset k : ℕ) (cs : CompilerState V)
      → length cs.chunk.code ≡ offset + 1 + k
      → 32767 < k
      → patch_jump offset cs ≡ err jump_too_far
  unfolding patch_jump
  patch_jump_far offset k cs h large =
      rw (distance (length cs.chunk.code) offset k h, far k large) refl

  -- the state with more code behind it
  abbrev pub with_body : List ℕ → CompilerState V → CompilerState V
  with_body body cs = record cs { chunk = record cs.chunk { code = cs.chunk.code ++ body } }

  -- the code of a patched chunk
  patch_code :
      (ch : Chunk V) (xs body : List ℕ) (op a : ℕ) (old new : ℤ)
      → ch.code ≡ xs ++ encode_asbx op a old ∷ body
      → op < 2 ^ 8
      → a < 2 ^ 8
      → (patch_sbx (length xs) new ch).code ≡ xs ++ encode_asbx op a new ∷ body
  unfolding patch_sbx
  patch_code ch xs body op a old new e ho ha =
      let here : get_or ch.code (length xs) 0 ≡ encode_asbx op a old =
        rw e (get_or_at xs body _ 0) in
      rw (here, decode_op-encode_asbx op a old ho ha, decode_a-encode_asbx op a old ho ha, e)
        (set-append xs body _ _)

  -- `emitJump`, then at most 32767 further instructions, and then `patchJump` succeed: the code is what
  -- it was, with the jump and those instructions behind it, and the jump's operand is their number.
  pub patch_jump-emit_jump :
      (op a : ℕ) (line : ℤ) (cs : CompilerState V) (body : List ℕ)
      → op < 2 ^ 8
      → a < 2 ^ 8
      → length body ≤ 32767
      → let (offset, cs₁) = emit_jump op a line cs in
        (cs₂ : CompilerState V) × (patch_jump offset (with_body body cs₁) ≡ ok cs₂)
        × (cs₂.chunk.code ≡ cs.chunk.code ++ encode_asbx op a (pos (length body)) ∷ body)
  unfolding emit_jump emit_asbx emit
  patch_jump-emit_jump op a line cs body ho ha small =
      let (offset, cs₁) = emit_jump op a line cs in
      let xs = cs.chunk.code in
      let jump = encode_asbx op a (pos 0) in
      let size : length ((xs ++ jump ∷ []) ++ body) ≡ length xs + 1 + length body =
        omega (arith, length-append (xs ++ jump ∷ []) body, length-append xs (jump ∷ [])) in
      (
        _,
        patch_jump_at offset (length body) (with_body body cs₁) size small,
        patch_code (with_body body cs₁).chunk xs body op a (pos 0) (pos (length body))
            (append_assoc xs (jump ∷ []) body) ho ha,
      )
