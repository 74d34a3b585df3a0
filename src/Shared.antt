-- ===== src/Shared.antt =====
-- shared_func.c: trimming, splitting and byte order. Strings are C strings, without their NUL.
pub mod Trim
pub mod Trimmed
pub mod Split
use demostroage.Prelude.{
  ℕ, zero, suc, ◌+◌, ◌-◌, ◌/◌, ◌%◌, ◌^◌, Bool, ◌||◌, Option, none, some, List, [], ◌∷◌, ◌==◌,
  if◌then◌else◌, Bytes, length, get_or, take, drop,
}
use demostroage.Libc.{strchr}

-- the bytes that `trim` removes
abbrev pub is_blank : ℕ → Bool
is_blank c = b' ' == c || b'\n' == c || b'\r' == c || b'\t' == c

-- `chopPath`: a path loses one slash at its end. The empty path reads before the array there,
-- and is left alone here.
unfoldable pub chop_path : Bytes → Bytes
chop_path [] = []
chop_path (c ∷ s) = if get_or (c ∷ s) (length s) 0 == b'/' then take (length s) (c ∷ s) else c ∷ s

-- the loop of `trim_right`, `n` being the bytes up to and with `*p`
unfoldable pub trim_right_loop : Bytes → ℕ → ℕ
trim_right_loop s zero = zero
trim_right_loop s (suc n) =
    let rest = trim_right_loop s n in if is_blank (get_or s n 0) then rest else suc n

unfoldable pub trim_right : Bytes → Bytes
unfolding trim_right_loop
trim_right s = if length s == 0 then s else take (trim_right_loop s (length s)) s

-- the loop of `trim_left`: how many bytes it passes
unfoldable pub trim_left_loop : Bytes → ℕ
trim_left_loop [] = 0
trim_left_loop (c ∷ s) = let rest = suc (trim_left_loop s) in if is_blank c then rest else 0

unfoldable pub trim_left : Bytes → Bytes
unfolding trim_left_loop
trim_left s = if trim_left_loop s == 0 then s else drop (trim_left_loop s) s

unfoldable pub trim : Bytes → Bytes
unfolding trim_left trim_right
trim s = trim_left (trim_right s)

-- `int2buff` of an `int` given by its bit pattern
unfoldable pub int2buff : ℕ → Bytes
int2buff n = (n / 2 ^ 24) % 256 ∷ (n / 2 ^ 16) % 256 ∷ (n / 2 ^ 8) % 256 ∷ n % 256 ∷ []

-- the loop of `getOccurCount`, from the result of a `strchr`; `none` where there are no more rounds
unfoldable pub occur_loop : ℕ → ℕ → Option Bytes → ℕ → Option ℕ
occur_loop zero sep p count = none
occur_loop (suc fuel) sep none count = some count
occur_loop (suc fuel) sep (some p) count = occur_loop fuel sep (strchr sep (drop 1 p)) (count + 1)

-- `getOccurCount`: as many rounds as the string has bytes, its NUL included. A NUL for a separator is
-- found at the end again and again, where the code reads beyond the string: there is no count.
unfoldable pub occur_count : Bytes → ℕ → Option ℕ
unfolding occur_loop
occur_count src sep = occur_loop (length src + 1) sep (strchr sep src) 0

-- the bytes in front of the rest of a string that `strchr` found
abbrev pub before : Bytes → Bytes → Bytes
before s rest = take (length s - length rest) s

-- the loop of `splitEx`, whose separator is not NUL; `room` is `nMaxCols - count` after the column is taken
unfoldable pub split_loop : ℕ → ℕ → Bytes → List Bytes
split_loop zero sep p = p ∷ []
split_loop (suc room) sep p = elim (strchr sep p) [
  | none ↦ p ∷ []
  | some q ↦ before p q ∷ split_loop room sep (drop 1 q)
]

-- `splitEx`: the columns, each up to the NUL that replaced the separator behind it
unfoldable pub split_ex : Bytes → ℕ → ℕ → List Bytes
unfolding split_loop
split_ex src sep zero = []
split_ex src sep (suc room) = split_loop room sep src
