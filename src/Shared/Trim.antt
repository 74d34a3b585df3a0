-- ===== src/Shared/Trim.antt =====
-- `trim` removes the blanks at both ends and nothing else; `int2buff` is read back big-endian.
use demostroage.Prelude.{
  ℕ, zero, suc, ◌+◌, ◌*◌, ◌<◌, ◌≤◌, ◌^◌, ◌≡◌, refl, sym, ap, ◌∙◌, true, false, [], ◌∷◌, ◌++◌,
  append-nil, inl, inr, Bool-cases, arith, Bytes, All, All-append, append_assoc, ◌==◌, length,
  get_or, take, drop, take_all, take-append-drop,
}
use demostroage.Shared.{
  is_blank, trim_right_loop, trim_right, trim_left_loop, trim_left, trim, int2buff,
}

abbrev pub IsBlank : ℕ → Type 0
IsBlank c = is_blank c ≡ true

-- a string with no blank in front
abbrev pub StartsDark : Bytes → Type 0
StartsDark [] = Unit
StartsDark (c ∷ s) = is_blank c ≡ false

-- a string with no blank at its end
abbrev pub EndsDark : Bytes → Type 0
EndsDark [] = Unit
EndsDark (c ∷ []) = is_blank c ≡ false
EndsDark (c ∷ d ∷ s) = EndsDark (d ∷ s)

-- what `trim` has to give: `t` is `s` less blanks on both sides, and has none at either end
pub record IsTrimmed (s t : Bytes) : Type 0 where
  pub left : Bytes
  pub right : Bytes
  pub splits : s ≡ left ++ (t ++ right)
  pub left_blank : All IsBlank left
  pub right_blank : All IsBlank right
  pub starts : StartsDark t
  pub ends : EndsDark t

EndsDark-concat : (s : Bytes) (c : ℕ) → is_blank c ≡ false → EndsDark (s ++ c ∷ [])
EndsDark-concat [] c h = h
EndsDark-concat (x ∷ []) c h = h
EndsDark-concat (x ∷ y ∷ s) c h = EndsDark-concat (y ∷ s) c h

EndsDark-append : (s t : Bytes) → EndsDark (s ++ t) → EndsDark t
EndsDark-append [] t h = h
EndsDark-append (x ∷ []) [] h = tt
EndsDark-append (x ∷ []) (y ∷ t) h = h
EndsDark-append (x ∷ y ∷ s) t h = EndsDark-append (y ∷ s) t h

take-suc : (s : Bytes) (n : ℕ) → n < length s → take (suc n) s ≡ take n s ++ get_or s n 0 ∷ []
take-suc [] n h = elim h [ ]
take-suc (x ∷ s) zero h = refl
take-suc (x ∷ s) (suc n) h = ap (◌∷◌ x) (take-suc s n (omega arith))

-- the scan from the right: what it keeps ends dark, and what it passes is blank
record RightScan (s : Bytes) (n k : ℕ) : Type 0 where
  passed : Bytes
  splits : take n s ≡ take k s ++ passed
  blank : All IsBlank passed
  ends : EndsDark (take k s)

trim_right_loop-RightScan : (s : Bytes) (n : ℕ) → n ≤ length s → RightScan s n (trim_right_loop s n)
unfolding trim_right_loop
trim_right_loop-RightScan s zero h = record { passed = []; splits = refl; blank = tt; ends = tt }
trim_right_loop-RightScan s (suc n) h = elim (Bool-cases (is_blank (get_or s n 0))) [
  | inl blank ↦
      let r = trim_right_loop-RightScan s n (omega arith) in
      rw blank (record {
        passed = r.passed ++ get_or s n 0 ∷ [];
        splits =
            take-suc s n h
            ∙ ap (λ t. t ++ get_or s n 0 ∷ []) r.splits
            ∙ append_assoc (take (trim_right_loop s n) s) r.passed _;
        blank = All-append IsBlank r.passed _ r.blank (blank, tt);
        ends = r.ends;
      })
  | inr dark ↦ rw dark (record {
    passed = [];
    splits = sym (append-nil _);
    blank = tt;
    ends = rw (take-suc s n h) (EndsDark-concat (take n s) _ dark);
  })
]

trim_left_loop-IsBlank : (s : Bytes) → All IsBlank (take (trim_left_loop s) s)
unfolding trim_left_loop
trim_left_loop-IsBlank [] = tt
trim_left_loop-IsBlank (c ∷ s) = elim (Bool-cases (is_blank c)) [
  | inl blank ↦ rw blank (blank, trim_left_loop-IsBlank s)
  | inr dark ↦ rw dark tt
]

trim_left_loop-StartsDark : (s : Bytes) → StartsDark (drop (trim_left_loop s) s)
unfolding trim_left_loop
trim_left_loop-StartsDark [] = tt
trim_left_loop-StartsDark (c ∷ s) = elim (Bool-cases (is_blank c)) [
  | inl blank ↦ rw blank (trim_left_loop-StartsDark s)
  | inr dark ↦ rw dark dark
]

trim_left-drop : (s : Bytes) → trim_left s ≡ drop (trim_left_loop s) s
unfolding trim_left
trim_left-drop s = elim (Bool-cases (trim_left_loop s == 0)) [
  | inl none ↦ rw none (sym (ap (λ n. drop n s) {y = 0} (ground arith)))
  | inr some ↦ rw some
]

pub trim_right-take : (s : Bytes) → trim_right s ≡ take (trim_right_loop s (length s)) s
unfolding trim_right
trim_right-take [] = refl
trim_right-take (c ∷ s) = let e : (suc (length s) == 0) ≡ false = ground arith in rw e

-- `trim` takes away blanks at both ends, all of them, and nothing else.
pub trim-IsTrimmed : (s : Bytes) → IsTrimmed s (trim s)
unfolding trim
trim-IsTrimmed s =
    let k = trim_right_loop s (length s) in
    let r = trim_right_loop-RightScan s (length s) (omega arith) in
    let t = take k s in
    let j = trim_left_loop t in
    rw (trim_right-take s, trim_left-drop t)
      (record {
        left = take j t;
        right = r.passed;
        splits =
            sym (take_all (length s) s (omega arith))
            ∙ r.splits
            ∙ ap (λ u. u ++ r.passed) (sym (take-append-drop j t))
            ∙ append_assoc (take j t) (drop j t) r.passed;
        left_blank = trim_left_loop-IsBlank t;
        right_blank = r.blank;
        starts = trim_left_loop-StartsDark t;
        ends = EndsDark-append (take j t) (drop j t) (rw (take-append-drop j t) r.ends);
      })

-- the big-endian reader of four bytes
abbrev pub buff2int : Bytes → ℕ
buff2int (a ∷ b ∷ c ∷ d ∷ []) = a * 2 ^ 24 + b * 2 ^ 16 + c * 2 ^ 8 + d
buff2int _ = 0

-- `int2buff` of a 32-bit word writes four bytes that a big-endian reader takes for the same
-- word.
pub buff2int-int2buff :
    (n : ℕ) → n < 2 ^ 32 → (buff2int (int2buff n) ≡ n) × All (λ b. b < 256) (int2buff n)
unfolding int2buff
buff2int-int2buff n h = omega arith
