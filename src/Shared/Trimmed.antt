-- ===== src/Shared/Trimmed.antt =====
-- `trim` of a text with no blank at its ends, with and without a newline behind it.
use demostroage.Prelude.{
  ℕ, suc, ◌≡◌, refl, ◌∙◌, ap, true, false, [], ◌∷◌, ◌++◌, append-nil, arith, Bytes, length, get_or,
  take, take-append, take_all, length-append,
}
use demostroage.Shared.{is_blank, trim_right_loop, trim_right, trim_left_loop, trim_left, trim}
use demostroage.Shared.Trim.{StartsDark, EndsDark, trim_right-take}

get_or-last :
    (x : ℕ) (s t : Bytes) → EndsDark (x ∷ s) → is_blank (get_or (x ∷ s ++ t) (length s) 0) ≡ false
get_or-last x [] t h = h
get_or-last x (y ∷ s) t h = get_or-last y s t h

get_or-behind : (s : Bytes) (c : ℕ) → get_or (s ++ c ∷ []) (length s) 0 ≡ c
get_or-behind [] c = refl
get_or-behind (x ∷ s) c = get_or-behind s c

trim_right_loop-dark :
    (x : ℕ) (s t : Bytes)
    → EndsDark (x ∷ s)
    → trim_right_loop (x ∷ s ++ t) (suc (length s)) ≡ suc (length s)
unfolding trim_right_loop
trim_right_loop-dark x s t h = rw (get_or-last x s t h)

trim_right_loop-blank :
    (s : Bytes) (n : ℕ)
    → is_blank (get_or s n 0) ≡ true
    → trim_right_loop s (suc n) ≡ trim_right_loop s n
unfolding trim_right_loop
trim_right_loop-blank s n h = rw h

trim_left-dark : (s : Bytes) → StartsDark s → trim_left s ≡ s
unfolding trim_left trim_left_loop
trim_left-dark [] h = refl
trim_left-dark (x ∷ s) h = rw h

trim_right-dark : (x : ℕ) (s : Bytes) → EndsDark (x ∷ s) → trim_right (x ∷ s) ≡ x ∷ s
trim_right-dark x s k =
    trim_right-take (x ∷ s)
    ∙ ap (λ n. take n (x ∷ s)) (rw (append-nil s) at (trim_right_loop-dark x s [] k))
    ∙ take_all (suc (length s)) (x ∷ s) (omega arith)

-- the newline is blank, and is passed
trim_right_loop-newline :
    (x : ℕ) (s : Bytes)
    → EndsDark (x ∷ s)
    → trim_right_loop (x ∷ s ++ b'\n' ∷ []) (suc (suc (length s))) ≡ suc (length s)
trim_right_loop-newline x s k =
    trim_right_loop-blank (x ∷ s ++ b'\n' ∷ []) (suc (length s))
      (ap is_blank (get_or-behind s (b'\n')))
    ∙ trim_right_loop-dark x s (b'\n' ∷ []) k

trim_right-newline :
    (x : ℕ) (s : Bytes) → EndsDark (x ∷ s) → trim_right (x ∷ s ++ b'\n' ∷ []) ≡ x ∷ s
trim_right-newline x s k =
    trim_right-take (x ∷ s ++ b'\n' ∷ [])
    ∙ ap (λ n. take n (x ∷ s ++ b'\n' ∷ []))
        (ap (trim_right_loop (x ∷ s ++ b'\n' ∷ [])) {y = suc (suc (length s))}
            (omega (arith, length-append s (b'\n' ∷ [])))
          ∙ trim_right_loop-newline x s k)
    ∙ take-append (x ∷ s) (b'\n' ∷ []) (suc (length s)) refl

-- a text with no blank at its ends
pub trim-dark : (s : Bytes) → StartsDark s → EndsDark s → trim s ≡ s
unfolding trim trim_right trim_left trim_left_loop
trim-dark [] h k = refl
trim-dark (x ∷ s) h k = ap trim_left (trim_right-dark x s k) ∙ trim_left-dark (x ∷ s) h

-- the same with a newline behind it
pub trim-newline :
    (x : ℕ) (s : Bytes) → StartsDark (x ∷ s) → EndsDark (x ∷ s) → trim (x ∷ s ++ b'\n' ∷ []) ≡ x ∷ s
unfolding trim
trim-newline x s h k = ap trim_left (trim_right-newline x s k) ∙ trim_left-dark (x ∷ s) h
