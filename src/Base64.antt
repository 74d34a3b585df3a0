-- ===== src/Base64.antt =====
-- fdfs_base64.c: the encoder, over the static variables that it reads.
pub mod Lengths
use demostroage.Prelude.{
  ℕ, ◌+◌, ◌*◌, ◌/◌, ◌%◌, ◌-◌, ◌^◌, Bool, true, false, [], ◌∷◌, ◌++◌, ltb, ◌==◌, if◌then◌else◌,
  Bytes, length, take,
}

-- the static variables of the file
pub record Context : Type 0 where
  pub line_separator : Bytes  -- its first `line_sep_len` bytes
  pub line_length : ℕ
  pub value_to_char : ℕ → ℕ
  pub pad_ch : ℕ

-- Their values in the program: nothing assigns the alphabet, so it is all zeroes.
abbrev pub initial : Context
initial = record { line_separator = []; line_length = 72; value_to_char = λ v. 0; pad_ch = 0 }

-- the four characters of three bytes
unfoldable pub encode_group : Context → ℕ → ℕ → ℕ → Bytes
encode_group x a b c =
    let combined = a * 2 ^ 16 + b * 2 ^ 8 + c in
    x.value_to_char (combined / 2 ^ 18 % 2 ^ 6)
    ∷ x.value_to_char (combined / 2 ^ 12 % 2 ^ 6)
    ∷ x.value_to_char (combined / 2 ^ 6 % 2 ^ 6)
    ∷ x.value_to_char (combined % 2 ^ 6)
    ∷ []

-- the line break in front of a group, and the new `linePos`
abbrev pub line_break : Context → ℕ → Bytes × ℕ
line_break x pos =
    if ltb x.line_length (pos + 4)
    then ((if x.line_length == 0 then [] else x.line_separator), 4)
    else ([], pos + 4)

-- the two rounds over `ppSrcs`: the whole groups, then `szPad` with the leftover bytes
unfoldable pub encode_loop : Context → ℕ → Bytes → Bytes
unfolding encode_group
encode_loop x pos [] = []
encode_loop x pos (a ∷ []) = (line_break x pos).0 ++ encode_group x a 0 0
encode_loop x pos (a ∷ b ∷ []) = (line_break x pos).0 ++ encode_group x a b 0
encode_loop x pos (a ∷ b ∷ c ∷ s) =
    (line_break x pos).0 ++ (encode_group x a b c ++ encode_loop x (line_break x pos).1 s)

-- the switch behind the loop: padding, or a cut
unfoldable pub finish : Context → ℕ → Bool → Bytes → Bytes
finish x leftover pad out =
    if leftover == 1
    then (if pad
        then take (length out - 2) out ++ (x.pad_ch ∷ x.pad_ch ∷ [])
        else take (length out - 2) out)
    else if leftover == 2
    then (if pad then take (length out - 1) out ++ (x.pad_ch ∷ []) else take (length out - 1) out)
    else out

-- `base64_encode_ex`: the first `*dest_len` bytes of `dest`
unfoldable pub encode : Context → Bytes → Bool → Bytes
unfolding encode_loop finish
encode x src pad = finish x (length src % 3) pad (encode_loop x 0 src)
