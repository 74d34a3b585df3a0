-- ===== src/Libc/Numbers.antt =====
-- Printed numbers are read back by `strtol` and `atoi`.
use demostroage.Prelude.{
  ℕ, zero, suc, ◌+◌, ◌*◌, ◌/◌, ◌%◌, ◌^◌, ◌<◌, ◌≤◌, ◌≡◌, refl, ◌∙◌, ap, Bool-cases, inl, inr, false,
  [], ◌∷◌, ◌++◌, append_assoc, append-nil, Bytes, arith, ltb, ◌==◌, All, All-append, ℤ, pos, negsuc,
  neg, to_int, word,
}
use native.Mathlib.Nat.{div-add-mod', div-lt_self, mod-lt}
use demostroage.Libc.{
  digit_value, digits_loop, digit, print_digits, skip_prefix, magnitude, signed_part, skip_spaces,
  strtol, strtoi, print_hex, atoi, print_int,
}

digit_value-digit : (d : ℕ) → d < 16 → digit_value (digit d) ≡ d
unfolding digit_value
digit_value-digit d h = ground arith

-- one digit
digits_loop-digit :
    (base acc d : ℕ) (rest : Bytes)
    → base ≤ 16
    → d < base
    → digits_loop base acc (digit d ∷ rest) ≡ digits_loop base (acc * base + d) rest
unfolding digits_loop
digits_loop-digit base acc d rest hi h = ground (arith, digit_value-digit d)

-- reading digits is a left fold
digits_loop-print_digits :
    (fuel base n : ℕ) (rest : Bytes)
    → 1 < base
    → base ≤ 16
    → n ≤ fuel
    → digits_loop base 0 (print_digits fuel base n ++ rest) ≡ digits_loop base n rest
unfolding print_digits
digits_loop-print_digits zero base n rest lo hi h =
    digits_loop-digit base 0 n rest hi (omega arith)
    ∙ ap (λ k. digits_loop base k rest) (omega arith)
digits_loop-print_digits (suc fuel) base n rest lo hi h = elim (Bool-cases (ltb n base)) [
  | inl small ↦ rw small (
      digits_loop-digit base 0 n rest hi (ground arith)
      ∙ ap (λ k. digits_loop base k rest) (omega arith))
  | inr big ↦
      rw (big, append_assoc)
        (digits_loop-print_digits fuel base (n / base) (digit (n % base) ∷ rest) lo hi
            (omega (arith, div-lt_self {n = n} {k = base} (ground arith) lo))
          ∙ digits_loop-digit base (n / base) (n % base) rest hi (mod-lt n (omega arith))
          ∙ ap (λ k. digits_loop base k rest) (div-add-mod' n base))
]

-- every byte is a digit or a lower case letter up to `f`
abbrev pub IsDigit : ℕ → Type 0
IsDigit c = digit_value c < 16

IsDigit-digit : (d : ℕ) → d < 16 → IsDigit (digit d)
IsDigit-digit d h = omega (arith, digit_value-digit d h)

-- the text of a number starts with a digit
pub print_digits_head :
    (fuel base n : ℕ)
    → 1 < base
    → base ≤ 16
    → n ≤ fuel
    → (c : ℕ) × (s : Bytes) × (print_digits fuel base n ≡ c ∷ s) × IsDigit c × All IsDigit s
unfolding print_digits
print_digits_head zero base n lo hi h = (digit n, [], refl, IsDigit-digit n (omega arith), tt)
print_digits_head (suc fuel) base n lo hi h = elim (Bool-cases (ltb n base)) [
  | inl small ↦ (digit n, [], rw small, IsDigit-digit n (ground arith), tt)
  | inr big ↦
      let less : n / base ≤ fuel =
        omega (arith, div-lt_self {n = n} {k = base} (ground arith) lo) in
      let (c, s, e, h, t) = print_digits_head fuel base (n / base) lo hi less in
      let last = IsDigit-digit (n % base) (omega (arith, mod-lt n {m = base} (omega arith))) in
      (c, s ++ digit (n % base) ∷ [], rw (big, e), h, All-append IsDigit s _ t (last, tt))
]

-- digits are neither blanks nor signs
skip_spaces-IsDigit : (c : ℕ) (s : Bytes) → IsDigit c → skip_spaces (c ∷ s) ≡ c ∷ s
unfolding skip_spaces digit_value
skip_spaces-IsDigit c s h = ground arith

skip_prefix-IsDigit : (base c : ℕ) (s : Bytes) → All IsDigit s → skip_prefix base (c ∷ s) ≡ c ∷ s
unfolding skip_prefix digit_value
skip_prefix-IsDigit base c [] h = refl
skip_prefix-IsDigit base c (x ∷ s) h = ground arith

IsDigit-sign : (c : ℕ) → IsDigit c → ((c == b'-') ≡ false) × ((c == b'+') ≡ false)
unfolding digit_value
IsDigit-sign c h = ground arith

magnitude-IsDigit :
    (base c n : ℕ) (s : Bytes)
    → All IsDigit s
    → digits_loop base 0 (c ∷ s) ≡ n
    → magnitude base (c ∷ s) ≡ n
unfolding magnitude
magnitude-IsDigit base c n s t e = rw (skip_prefix-IsDigit base c s t) e

-- `strtol` of digits is their value
signed_part-IsDigit :
    (base c n : ℕ) (s : Bytes)
    → IsDigit c
    → All IsDigit s
    → digits_loop base 0 (c ∷ s) ≡ n
    → n < 2 ^ 63
    → signed_part base (c ∷ s) ≡ pos n
unfolding signed_part
signed_part-IsDigit base c n s h t e b =
    rw ((IsDigit-sign c h).0, (IsDigit-sign c h).1, magnitude-IsDigit base c n s t e)
      (ap pos (omega arith))

digits_loop-nil : (base n : ℕ) → digits_loop base n [] ≡ n
unfolding digits_loop
digits_loop-nil base n = refl

digits_loop-print_digits_all :
    (base n : ℕ) → 1 < base → base ≤ 16 → digits_loop base 0 (print_digits n base n) ≡ n
digits_loop-print_digits_all base n lo hi =
    rw (← append-nil (print_digits n base n))
      (digits_loop-print_digits n base n [] lo hi (omega arith) ∙ digits_loop-nil base n)

-- the library reads back what it printed
strtol-print_digits :
    (base n : ℕ) → 1 < base → base ≤ 16 → n < 2 ^ 63 → strtol base (print_digits n base n) ≡ pos n
unfolding strtol
strtol-print_digits base n lo hi b =
    let (c, s, e, h, t) = print_digits_head n base n lo hi (omega arith) in
    rw (e, skip_spaces-IsDigit c s h)
      (signed_part-IsDigit base c n s h t (rw e at (digits_loop-print_digits_all base n lo hi)) b)

to_int_pos : (n : ℕ) → n < 2 ^ 31 → to_int (pos n) ≡ pos n
to_int_pos n h = ground arith

to_int_neg : (n : ℕ) → n < 2 ^ 31 → to_int (negsuc n) ≡ negsuc n
to_int_neg n h = ground arith

-- `%x` of a number that an `int` holds is read back by `strtol` in base 16
pub strtoi-print_hex : (n : ℕ) → n < 2 ^ 31 → strtoi 16 (print_hex n) ≡ pos n
unfolding strtoi print_hex
strtoi-print_hex n h =
    ap to_int (strtol-print_digits 16 n (omega arith) (omega arith) (omega arith)) ∙ to_int_pos n h

strtol_plus : (n : ℕ) → n < 2 ^ 31 → strtol 10 (print_int (pos n)) ≡ pos n
unfolding print_int
strtol_plus n h = strtol-print_digits 10 n (omega arith) (omega arith) (omega arith)

strtol_minus : (n : ℕ) → n < 2 ^ 31 → strtol 10 (print_int (negsuc n)) ≡ negsuc n
unfolding strtol print_int skip_spaces signed_part
strtol_minus n h =
    let (c, s, e, d, t) =
      print_digits_head (suc n) 10 (suc n) (omega arith) (omega arith) (omega arith) in
    let m : magnitude 10 (print_digits (suc n) 10 (suc n)) ≡ suc n = rw e (
      magnitude-IsDigit 10 c (suc n) s t
        (rw e at (digits_loop-print_digits_all 10 (suc n) (omega arith) (omega arith)))) in
    rw (m) (ap neg {y = suc n} (omega arith))

-- the values of an `int`
abbrev pub IsInt : ℤ → Type 0
IsInt (pos n) = n < 2 ^ 31
IsInt (negsuc n) = n < 2 ^ 31

-- `%d` of an `int` is read back by `atoi`
pub atoi-print_int : (z : ℤ) → IsInt z → atoi (print_int z) ≡ z
unfolding atoi strtoi
atoi-print_int (pos n) h = ap to_int (strtol_plus n h) ∙ to_int_pos n h
atoi-print_int (negsuc n) h = ap to_int (strtol_minus n h) ∙ to_int_neg n h

word-lt : (z : ℤ) → word z < 2 ^ 63
word-lt (pos n) = omega arith
word-lt (negsuc n) = omega arith

to_int-word : (z : ℤ) → IsInt z → to_int (pos (word z)) ≡ z
to_int-word (pos n) h = ground arith
to_int-word (negsuc n) h = ground arith

-- `%x` of an `int` prints its bit pattern, and `strtol` stored in an `int` gives it back
pub strtoi-print_hex-word : (z : ℤ) → IsInt z → strtoi 16 (print_hex (word z)) ≡ z
unfolding strtoi print_hex
strtoi-print_hex-word z h =
    ap to_int (strtol-print_digits 16 (word z) (omega arith) (omega arith) (word-lt z))
    ∙ to_int-word z h
