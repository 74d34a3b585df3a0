-- ===== src/Hash.antt =====
-- hash.c: P. J. Weinberger's hash over 32-bit unsigned integers.
-- `BitsInUnignedInt` is 32, so `OneEighth` is 4, `ThreeQuarters` is 24 and `HighBits` is the top
-- four bits: a mask by `HighBits` is `/ 2 ^ 28 * 2 ^ 28`, one by `~HighBits` is `% 2 ^ 28`.
use Prim.Native.Nat.{bit_xor}
use demostroage.Prelude.{
  ℕ, ◌+◌, ◌*◌, ◌/◌, ◌%◌, ◌^◌, ◌<◌, ◌≡◌, refl, [], ◌∷◌, ◌==◌, if◌then◌else◌, Bytes, arith, zero, suc,
  replicate,
}

abbrev pub high_bits : ℕ → ℕ
high_bits hash = hash / 2 ^ 28 * 2 ^ 28

-- one round of the loop
unfoldable pub hash_step : ℕ → ℕ → ℕ
hash_step hash c =
    let shifted = (hash * 2 ^ 4 + c) % 2 ^ 32 in
    let test = high_bits shifted in
    if test == 0 then shifted else bit_xor shifted (test / 2 ^ 24) % 2 ^ 28

unfoldable pub hash_loop : ℕ → Bytes → ℕ
unfolding hash_step
hash_loop hash [] = hash
hash_loop hash (c ∷ s) = hash_loop (hash_step hash c) s

unfoldable pub pjw_hash : Bytes → ℕ
unfolding hash_loop
pjw_hash key = hash_loop 0 key

hash_step-lt : (hash c : ℕ) → hash_step hash c < 2 ^ 28
unfolding hash_step
hash_step-lt hash c = ground arith

hash_loop-lt : (key : Bytes) (hash : ℕ) → hash < 2 ^ 28 → hash_loop hash key < 2 ^ 28
unfolding hash_loop
hash_loop-lt [] hash h = h
hash_loop-lt (c ∷ s) hash h = hash_loop-lt s (hash_step hash c) (hash_step-lt hash c)

-- The hash of any key fits in 28 bits.
pub pjw_hash-lt : (key : Bytes) → pjw_hash key < 2 ^ 28
unfolding pjw_hash
pjw_hash-lt key = hash_loop-lt key 0 (omega arith)

-- A key of NUL bytes has the hash 0.
pub pjw_hash-replicate : (n : ℕ) → pjw_hash (replicate n 0) ≡ 0
unfolding pjw_hash hash_step
pjw_hash-replicate zero = refl
pjw_hash-replicate (suc n) = pjw_hash-replicate n
