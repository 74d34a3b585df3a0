-- ===== src/Base64/Lengths.antt =====
-- How long the encoded text is, and what it is in the program.
use mathlib.Core.Path.{subst}
use demostroage.Prelude.{
  zero, replicate, ℕ, suc, ◌+◌, ◌-◌, ◌*◌, ◌/◌, ◌%◌, ◌≡◌, refl, sym, ap, ◌∙◌, false, [], ◌∷◌, ◌++◌,
  arith, Bytes, All, length, take, ◌==◌, if◌then◌else◌, Bool-cases, inl, inr, take_all, length-take,
}
use demostroage.Base64.{initial, Context, encode_group, line_break, encode_loop, finish, encode}

-- no line break has a width, as in the program
abbrev pub NoBreak : Context → Type 0
NoBreak x = x.line_separator ≡ []

line_break-nil : (x : Context) (pos : ℕ) → NoBreak x → (line_break x pos).0 ≡ []
line_break-nil x pos h = ground arith

length-encode_group :
    (x : Context) (a b c : ℕ) (t : Bytes) → length (encode_group x a b c ++ t) ≡ 4 + length t
unfolding encode_group
length-encode_group x a b c t = omega arith

module _ (x : Context) (no_break : NoBreak x) where
  encode_loop_three :
      (pos a b c : ℕ) (s : Bytes)
      → encode_loop x pos (a ∷ b ∷ c ∷ s)
        ≡ encode_group x a b c ++ encode_loop x (line_break x pos).1 s
  unfolding encode_loop
  encode_loop_three pos a b c s = rw (line_break-nil x pos no_break)

  encode_loop_two : (pos a b : ℕ) → encode_loop x pos (a ∷ b ∷ []) ≡ encode_group x a b 0
  unfolding encode_loop
  encode_loop_two pos a b = rw (line_break-nil x pos no_break)

  encode_loop_one : (pos a : ℕ) → encode_loop x pos (a ∷ []) ≡ encode_group x a 0 0
  unfolding encode_loop
  encode_loop_one pos a = rw (line_break-nil x pos no_break)

  length-encode_loop :
      (pos : ℕ) (s : Bytes) → length (encode_loop x pos s) ≡ 4 * ((length s + 2) / 3)
  length-encode_loop pos [] = unfold encode_loop in refl
  length-encode_loop pos (a ∷ []) = rw encode_loop_one (unfold encode_group in refl)
  length-encode_loop pos (a ∷ b ∷ []) = rw encode_loop_two (unfold encode_group in refl)
  length-encode_loop pos (a ∷ b ∷ c ∷ s) = rw encode_loop_three (
      length-encode_group x a b c (encode_loop x (line_break x pos).1 s)
      ∙ omega (arith, length-encode_loop (line_break x pos).1 s))

-- what is left of the last group
abbrev cut : ℕ → ℕ → ℕ
cut leftover n = if leftover == 1 then n - 2 else if leftover == 2 then n - 1 else n

finish-take :
    (x : Context) (leftover : ℕ) (out : Bytes)
    → finish x leftover false out ≡ take (cut leftover (length out)) out
unfolding finish
finish-take x leftover out = elim (Bool-cases (leftover == 1)) [
  | inl one ↦ rw one
  | inr other ↦ elim (Bool-cases (leftover == 2)) [
    | inl two ↦ rw (other, two)
    | inr none_left ↦ rw (other, none_left) (sym (take_all (length out) out (omega arith)))
  ]
]

-- Without a line separator and padding, `n` bytes are encoded as `4 n / 3` characters, rounded
-- up.
pub length-encode :
    (x : Context) (s : Bytes) → NoBreak x → length (encode x s false) ≡ (4 * length s + 2) / 3
unfolding encode
length-encode x s no_break = rw (finish-take x (length s % 3) (encode_loop x 0 s)) (
    rw (length-take (cut (length s % 3) (length (encode_loop x 0 s))) (encode_loop x 0 s))
      (ground (arith, length-encode_loop x no_break 0 s)))

abbrev AreNuls : Bytes → Type 0
AreNuls s = All (λ c. c ≡ 0) s

AreNuls-group : (a b c : ℕ) (t : Bytes) → AreNuls t → AreNuls (encode_group initial a b c ++ t)
unfolding encode_group
AreNuls-group a b c t h = (refl, (refl, (refl, (refl, h))))

AreNuls-encode_loop : (pos : ℕ) (s : Bytes) → AreNuls (encode_loop initial pos s)
AreNuls-encode_loop pos [] = unfold encode_loop in tt
AreNuls-encode_loop pos (a ∷ []) =
    rw (encode_loop_one initial refl pos a)
      (unfold encode_group in (refl, (refl, (refl, (refl, tt)))))
AreNuls-encode_loop pos (a ∷ b ∷ []) =
    rw (encode_loop_two initial refl pos a b)
      (unfold encode_group in (refl, (refl, (refl, (refl, tt)))))
AreNuls-encode_loop pos (a ∷ b ∷ c ∷ s) =
    rw (encode_loop_three initial refl pos a b c s)
      (AreNuls-group a b c _ (AreNuls-encode_loop (line_break initial pos).1 s))

AreNuls-take : (n : ℕ) (s : Bytes) → AreNuls s → AreNuls (take n s)
AreNuls-take zero s h = tt
AreNuls-take (suc n) [] h = tt
AreNuls-take (suc n) (c ∷ s) h = (h.0, AreNuls-take n s h.1)

AreNuls-replicate : (s : Bytes) → AreNuls s → s ≡ replicate (length s) 0
AreNuls-replicate [] h = refl
AreNuls-replicate (c ∷ s) h = rw h.0 (ap (◌∷◌ 0) (AreNuls-replicate s h.1))

-- With the static variables as they are in the program, `n` bytes are encoded, without padding, as
-- `4 n / 3` NUL bytes, rounded up, whatever the bytes are.
pub encode-initial : (s : Bytes) → encode initial s false ≡ replicate ((4 * length s + 2) / 3) 0
unfolding encode
encode-initial s =
    let nuls =
      subst AreNuls (sym (finish-take initial (length s % 3) (encode_loop initial 0 s)))
        (AreNuls-take _ _ (AreNuls-encode_loop 0 s)) in
    AreNuls-replicate _ nuls ∙ ap (λ n. replicate n 0) (length-encode initial s refl)
