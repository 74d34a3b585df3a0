-- ===== src/Libc/Decimal.antt =====
-- What `%d` prints of an `int`: at most eleven bytes, each a digit or the sign.
use demostroage.Prelude.{
  ℕ, zero, suc, ◌*◌, ◌/◌, ◌%◌, ◌≤◌, ◌<◌, inl, inr, Bool-cases, [], ◌∷◌, arith, All, All-append,
  length, length-append, ltb, ℤ, pos, negsuc,
}
use demostroage.Libc.{digit, print_digits, print_int}
use demostroage.Libc.Numbers.{IsInt}

-- `-`, a digit, or one of the two bytes between them
abbrev pub IsDecimal : ℕ → Type 0
IsDecimal c = (45 ≤ c) × (c ≤ 57)

IsDecimal-digit : (d : ℕ) → d < 10 → IsDecimal (digit d)
IsDecimal-digit d h = ground arith

All-print_digits : (fuel n : ℕ) → n ≤ fuel → All IsDecimal (print_digits fuel 10 n)
unfolding print_digits
All-print_digits zero n h = (IsDecimal-digit n (omega arith), tt)
All-print_digits (suc fuel) n h = elim (Bool-cases (ltb n 10)) [
  | inl small ↦ let lt : n < 10 = ground arith in rw small (omega arith)
  | inr big ↦ rw big (
      All-append IsDecimal _ _ (All-print_digits fuel (n / 10) (ground arith))
        (IsDecimal-digit (n % 10) (omega arith), tt))
]

pub All-print_int : (z : ℤ) → All IsDecimal (print_int z)
unfolding print_int
All-print_int (pos n) = All-print_digits n n (omega arith)
All-print_int (negsuc n) =
    ((omega arith, omega arith), All-print_digits (suc n) (suc n) (omega arith))

-- 10 ^ k
abbrev tens : ℕ → ℕ
tens zero = 1
tens (suc k) = 10 * tens k

length-print_digits : (k fuel n : ℕ) → n < 10 * tens k → length (print_digits fuel 10 n) ≤ suc k
unfolding print_digits
length-print_digits k zero n h = omega arith
length-print_digits zero (suc fuel) n h = elim (Bool-cases (ltb n 10)) [
  | inl small ↦ rw small (omega arith)
  | inr big ↦ absurd (ground arith)
]
length-print_digits (suc k) (suc fuel) n h = elim (Bool-cases (ltb n 10)) [
  | inl small ↦ rw small (omega arith)
  | inr big ↦ rw big (
      omega (
        arith,
        length-append (print_digits fuel 10 (n / 10)) (digit (n % 10) ∷ []),
        length-print_digits k fuel (n / 10) (omega arith),
      ))
]

pub length-print_int : (z : ℤ) → IsInt z → length (print_int z) ≤ 11
unfolding print_int
length-print_int (pos n) h = omega (arith, length-print_digits 9 n n (omega arith))
length-print_int (negsuc n) h = omega (arith, length-print_digits 9 (suc n) (suc n) (omega arith))
