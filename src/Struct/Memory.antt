-- ===== src/Struct/Memory.antt =====
-- Bytes in memory, as `memcpy` in src/bbl.cpp moves them: what is written is read, the rest stays.
use bbl.Prelude.{
  ℕ, zero, suc, ◌+◌, ◌/◌, ◌^◌, ◌≤◌, ◌<◌, ◌≡◌, refl, ap, ◌⊎◌, inl, inr, [], ◌∷◌, ◌++◌, length, take,
  drop, arith,
}
use bbl.Lexer.{Bytes}
use bbl.Struct.{to_le, from_le, peek, poke}

pub length-to_le : (k n : ℕ) → length (to_le k n) ≡ k
unfolding to_le
length-to_le zero n = refl
length-to_le (suc k) n = ap suc (length-to_le k (n / 256))

pub from_le-to_le : (k n : ℕ) → n < 256 ^ k → from_le (to_le k n) ≡ n
unfolding to_le from_le
from_le-to_le zero n h = omega arith
from_le-to_le (suc k) n h = omega (arith, from_le-to_le k (n / 256) (omega arith))

-- a write at the front
length-front :
    (new bytes : Bytes)
    → length new ≤ length bytes
    → length (new ++ drop (length new) bytes) ≡ length bytes
length-front [] bytes h = refl
length-front (x ∷ new) [] h = absurd (omega arith)
length-front (x ∷ new) (b ∷ bytes) h = ap suc (length-front new bytes (omega arith))

take-front : (new rest : Bytes) → take (length new) (new ++ rest) ≡ new
take-front [] rest = refl
take-front (x ∷ new) rest = ap (λ l. x ∷ l) (take-front new rest)

drop-front :
    (new bytes : Bytes) (i : ℕ)
    → length new ≤ i
    → length new ≤ length bytes
    → drop i (new ++ drop (length new) bytes) ≡ drop i bytes
drop-front [] bytes i h k = refl
drop-front (x ∷ new) [] i h k = absurd (omega arith)
drop-front (x ∷ new) (b ∷ bytes) zero h k = absurd (omega arith)
drop-front (x ∷ new) (b ∷ bytes) (suc i) h k = drop-front new bytes i (omega arith) (omega arith)

pub length-poke :
    (o : ℕ) (new bytes : Bytes)
    → o + length new ≤ length bytes
    → length (poke o new bytes) ≡ length bytes
unfolding poke
length-poke zero new bytes h = length-front new bytes (omega arith)
length-poke (suc o) new [] h = absurd (omega arith)
length-poke (suc o) new (b ∷ bytes) h = ap suc (length-poke o new bytes (omega arith))

pub peek-poke :
    (o : ℕ) (new bytes : Bytes)
    → o + length new ≤ length bytes
    → peek o (length new) (poke o new bytes) ≡ new
unfolding poke
peek-poke zero new bytes h = take-front new (drop (length new) bytes)
peek-poke (suc o) new [] h = absurd (omega arith)
peek-poke (suc o) new (b ∷ bytes) h = peek-poke o new bytes (omega arith)

peek_before :
    (i n o : ℕ) (new bytes : Bytes)
    → i + n ≤ o
    → o ≤ length bytes
    → peek i n (poke o new bytes) ≡ peek i n bytes
unfolding poke
peek_before i zero o new bytes h k = refl
peek_before i (suc n) zero new bytes h k = absurd (omega arith)
peek_before i (suc n) (suc o) new [] h k = absurd (omega arith)
peek_before zero (suc n) (suc o) new (b ∷ bytes) h k =
    ap (λ l. b ∷ l) (peek_before zero n o new bytes (omega arith) (omega arith))
peek_before (suc i) (suc n) (suc o) new (b ∷ bytes) h k =
    peek_before i (suc n) o new bytes (omega arith) (omega arith)

drop-poke :
    (i o : ℕ) (new bytes : Bytes)
    → o + length new ≤ i
    → o + length new ≤ length bytes
    → drop i (poke o new bytes) ≡ drop i bytes
unfolding poke
drop-poke i zero new bytes h k = drop-front new bytes i (omega arith) (omega arith)
drop-poke i (suc o) new [] h k = absurd (omega arith)
drop-poke zero (suc o) new (b ∷ bytes) h k = absurd (omega arith)
drop-poke (suc i) (suc o) new (b ∷ bytes) h k = drop-poke i o new bytes (omega arith) (omega arith)

-- What lies apart from a write reads as before.
pub peek-poke_apart :
    (i n o : ℕ) (new bytes : Bytes)
    → o + length new ≤ length bytes
    → (i + n ≤ o) ⊎ (o + length new ≤ i)
    → peek i n (poke o new bytes) ≡ peek i n bytes
peek-poke_apart i n o new bytes h (inl before) = peek_before i n o new bytes before (omega arith)
peek-poke_apart i n o new bytes h (inr after) = ap (λ l. take n l) (drop-poke i o new bytes after h)

take-append : (n : ℕ) (xs ys : Bytes) → n ≤ length xs → take n (xs ++ ys) ≡ take n xs
take-append zero xs ys h = refl
take-append (suc n) [] ys h = absurd (omega arith)
take-append (suc n) (x ∷ xs) ys h = ap (λ l. x ∷ l) (take-append n xs ys (omega arith))

pub peek-append : (o n : ℕ) (xs ys : Bytes) → o + n ≤ length xs → peek o n (xs ++ ys) ≡ peek o n xs
peek-append zero n xs ys h = take-append n xs ys (omega arith)
peek-append (suc o) zero [] ys h = absurd (omega arith)
peek-append (suc o) (suc n) [] ys h = absurd (omega arith)
peek-append (suc o) n (x ∷ xs) ys h = peek-append o n xs ys (omega arith)

pub take_all : (xs ys : Bytes) → take (length xs) (xs ++ ys) ≡ xs
take_all [] ys = refl
take_all (x ∷ xs) ys = ap (λ l. x ∷ l) (take_all xs ys)
