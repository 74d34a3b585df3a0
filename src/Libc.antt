-- ===== src/Libc.antt =====
-- What the program uses of the C library's string functions. A C string is the list of its bytes
-- before the terminating NUL; `cstr` reads the string that starts an array.
pub mod Numbers
pub mod Decimal
pub mod Sort
pub mod Order
use demostroage.Prelude.{
  ℕ, zero, suc, ◌+◌, ◌*◌, ◌-◌, ◌/◌, ◌%◌, ◌^◌, min, Bool, true, false, ◌&&◌, ◌||◌, Option, none,
  some, List, [], ◌∷◌, ◌++◌, ltb, leb, ◌==◌, if◌then◌else◌, Bytes, ℤ, pos, negsuc, neg, to_int,
}

-- the bytes before the first NUL
unfoldable pub cstr : Bytes → Bytes
cstr [] = []
cstr (c ∷ s) = if c == 0 then [] else c ∷ cstr s

-- `strchr`: the string from the first `c` on; a NUL is found at the end of the string
unfoldable pub strchr : ℕ → Bytes → Option Bytes
strchr c [] = if c == 0 then some [] else none
strchr c (x ∷ s) = if x == c then some (x ∷ s) else strchr c s

-- the sign of `strcmp`, as -1, 0 and 1; bytes compare as unsigned
unfoldable pub strcmp : Bytes → Bytes → ℤ
strcmp [] [] = pos 0
strcmp [] (y ∷ t) = negsuc 0
strcmp (x ∷ s) [] = pos 1
strcmp (x ∷ s) (y ∷ t) = if ltb x y then negsuc 0 else if ltb y x then pos 1 else strcmp s t

-- `isspace`
abbrev pub is_space : ℕ → Bool
is_space c = (leb 9 c && leb c 13) || c == 32

-- the value of a digit or letter in `strtol`; 99 for any other byte
unfoldable pub digit_value : ℕ → ℕ
digit_value c =
    if leb 48 c && leb c 57
    then c - 48
    else if leb 97 c && leb c 122
    then c - 87
    else if leb 65 c && leb c 90
    then c - 55
    else 99

unfoldable pub digits_loop : ℕ → ℕ → Bytes → ℕ
unfolding digit_value
digits_loop base acc [] = acc
digits_loop base acc (c ∷ s) =
    let rest = digits_loop base (acc * base + digit_value c) s in
    if ltb (digit_value c) base then rest else acc

unfoldable pub skip_spaces : Bytes → Bytes
skip_spaces [] = []
skip_spaces (c ∷ s) = if is_space c then skip_spaces s else c ∷ s

-- a leading 0x is skipped in base 16
unfoldable pub skip_prefix : ℕ → Bytes → Bytes
skip_prefix base (c ∷ x ∷ s) =
    if base == 16 && c == b'0' && (x == b'x' || x == b'X') then s else c ∷ x ∷ s
skip_prefix base s = s

unfoldable pub magnitude : ℕ → Bytes → ℕ
unfolding digits_loop skip_prefix
magnitude base s = digits_loop base 0 (skip_prefix base s)

-- the optional sign; a `long` saturates
unfoldable pub signed_part : ℕ → Bytes → ℤ
unfolding magnitude
signed_part base [] = pos 0
signed_part base (c ∷ s) =
    if c == b'-'
    then neg (min (magnitude base s) (2 ^ 63))
    else pos (min (magnitude base (if c == b'+' then s else c ∷ s)) (2 ^ 63 - 1))

-- `strtol(s, NULL, base)`
unfoldable pub strtol : ℕ → Bytes → ℤ
unfolding signed_part skip_spaces
strtol base s = signed_part base (skip_spaces s)

-- `strtol` stored in an `int`
unfoldable pub strtoi : ℕ → Bytes → ℤ
unfolding strtol
strtoi base s = to_int (strtol base s)

-- `atoi`
unfoldable pub atoi : Bytes → ℤ
unfolding strtoi
atoi s = strtoi 10 s

-- one digit, with lower case letters
abbrev pub digit : ℕ → ℕ
digit d = if ltb d 10 then d + 48 else d + 87

-- the digits of `n` in a base of at least two; `fuel` above `n` is enough
unfoldable pub print_digits : ℕ → ℕ → ℕ → Bytes
print_digits zero base n = digit n ∷ []
print_digits (suc fuel) base n =
    let more = print_digits fuel base (n / base) ++ digit (n % base) ∷ [] in
    if ltb n base then digit n ∷ [] else more

-- `%x`
unfoldable pub print_hex : ℕ → Bytes
unfolding print_digits
print_hex n = print_digits n 16 n

-- `%02X` of a byte
abbrev pub upper_digit : ℕ → ℕ
upper_digit d = if ltb d 10 then d + 48 else d + 55

unfoldable pub print_hex2 : ℕ → Bytes
print_hex2 n = upper_digit (n / 16) ∷ upper_digit (n % 16) ∷ []

-- `%d`
unfoldable pub print_int : ℤ → Bytes
unfolding print_digits
print_int (pos n) = print_digits n 10 n
print_int (negsuc n) = b'-' ∷ print_digits (suc n) 10 (suc n)

-- what `snprintf(buff, size, "%s", s)` leaves in an array of `suc size` bytes
abbrev pub truncated : ℕ → Bytes → Bytes
truncated zero s = []
truncated (suc n) [] = []
truncated (suc n) (c ∷ s) = c ∷ truncated n s
