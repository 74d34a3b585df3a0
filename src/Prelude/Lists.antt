-- ===== src/Prelude/Lists.antt =====
-- Lists measured and indexed by native numbers, under the library's names.
use Prim.Native.Nat.{ℕ, zero, suc, ◌+◌, ◌-◌, ◌≤◌, compare, Ordering, min}
use mathlib.Core.Path.{◌≡◌, refl, ap}
use mathlib.Core.Logic.{◌↔◌}
use mathlib.Core.Bool.{Bool, true, false, ◌&&◌}
use mathlib.Core.List.{List, [], ◌∷◌, ◌++◌}
use native.Mathlib.Omega.{arith}

-- a byte string
abbrev pub Bytes : Type 0
Bytes = List ℕ

-- equality of byte strings as a test
abbrev pub eqb : Bytes → Bytes → Bool
eqb [] [] = true
eqb (x ∷ xs) (y ∷ ys) = (elim (compare x y) [ Ordering.eq ↦ true | _ ↦ false ]) && eqb xs ys
eqb _ _ = false

pub eqb_iff : (a b : Bytes) → (eqb a b ≡ true) ↔ (a ≡ b)
eqb_iff (x ∷ a) (y ∷ b) = ground (arith, eqb_iff a b)
eqb_iff _ _ = ground arith

pub eqb_refl : (a : Bytes) → eqb a a ≡ true
eqb_refl a = (eqb_iff a a).1 refl

-- every element satisfies `P`
abbrev pub All {ℓ κ} : {A : Type ℓ} → (A → Type κ) → List A → Type κ
All P [] = Unit
All P (x ∷ xs) = P x × All P xs

module _ {ℓ} {A : Type ℓ} where
  abbrev pub length : List A → ℕ
  length [] = 0
  length (x ∷ xs) = suc (length xs)

  abbrev pub get_or : List A → ℕ → A → A
  get_or [] i d = d
  get_or (x ∷ xs) zero d = x
  get_or (x ∷ xs) (suc i) d = get_or xs i d

  abbrev pub take : ℕ → List A → List A
  take zero xs = []
  take (suc n) [] = []
  take (suc n) (x ∷ xs) = x ∷ take n xs

  abbrev pub drop : ℕ → List A → List A
  drop zero xs = xs
  drop (suc n) [] = []
  drop (suc n) (x ∷ xs) = drop n xs

  abbrev pub replicate : ℕ → A → List A
  replicate zero a = []
  replicate (suc n) a = a ∷ replicate n a

  pub length-append : (xs ys : List A) → length (xs ++ ys) ≡ length xs + length ys
  length-append [] ys = omega arith
  length-append (x ∷ xs) ys = omega (arith, length-append xs ys)

  pub take-append-drop : (n : ℕ) (xs : List A) → take n xs ++ drop n xs ≡ xs
  take-append-drop zero xs = refl
  take-append-drop (suc n) [] = refl
  take-append-drop (suc n) (x ∷ xs) = ap (◌∷◌ x) (take-append-drop n xs)

  pub length-take : (n : ℕ) (xs : List A) → length (take n xs) ≡ min n (length xs)
  length-take zero xs = omega arith
  length-take (suc n) [] = omega arith
  length-take (suc n) (x ∷ xs) = omega (arith, length-take n xs)

  pub length-drop : (n : ℕ) (xs : List A) → length (drop n xs) ≡ length xs - n
  length-drop zero xs = omega arith
  length-drop (suc n) [] = omega arith
  length-drop (suc n) (x ∷ xs) = omega (arith, length-drop n xs)

  pub take_all : (n : ℕ) (xs : List A) → length xs ≤ n → take n xs ≡ xs
  take_all zero [] h = refl
  take_all zero (x ∷ xs) h = absurd (omega arith)
  take_all (suc n) [] h = refl
  take_all (suc n) (x ∷ xs) h = ap (◌∷◌ x) (take_all n xs (omega arith))

  pub take-append : (xs ys : List A) (n : ℕ) → n ≡ length xs → take n (xs ++ ys) ≡ xs
  take-append [] ys n h = rw h
  take-append (x ∷ xs) ys zero h = absurd (omega arith)
  take-append (x ∷ xs) ys (suc n) h = ap (◌∷◌ x) (take-append xs ys n (omega arith))

  pub drop-append : (xs ys : List A) (n : ℕ) → n ≡ length xs → drop n (xs ++ ys) ≡ ys
  drop-append [] ys n h = rw h
  drop-append (x ∷ xs) ys zero h = absurd (omega arith)
  drop-append (x ∷ xs) ys (suc n) h = drop-append xs ys n (omega arith)

  pub take-take-append :
      (k n : ℕ) (xs ys : List A) → k ≤ n → k ≤ length xs → take k (take n xs ++ ys) ≡ take k xs
  take-take-append zero n xs ys le h = refl
  take-take-append (suc k) zero xs ys le h = absurd (omega arith)
  take-take-append (suc k) (suc n) [] ys le h = absurd (omega arith)
  take-take-append (suc k) (suc n) (x ∷ xs) ys le h =
      ap (◌∷◌ x) (take-take-append k n xs ys (omega arith) (omega arith))

  pub drop-take-append :
      (k m n : ℕ) (xs ys : List A)
      → n ≡ k + m
      → k ≤ length xs
      → drop k (take n xs ++ ys) ≡ take m (drop k xs) ++ ys
  drop-take-append zero m n xs ys e h = ap (λ i. take i xs ++ ys) (omega arith)
  drop-take-append (suc k) m zero xs ys e h = absurd (omega arith)
  drop-take-append (suc k) m (suc n) [] ys e h = absurd (omega arith)
  drop-take-append (suc k) m (suc n) (x ∷ xs) ys e h =
      drop-take-append k m n xs ys (omega arith) (omega arith)

  pub drop-drop : (k m n : ℕ) (xs : List A) → n ≡ k + m → drop n xs ≡ drop m (drop k xs)
  drop-drop zero m n xs e = ap (λ i. drop i xs) (omega arith)
  drop-drop (suc k) m zero xs e = absurd (omega arith)
  drop-drop (suc k) zero (suc n) [] e = refl
  drop-drop (suc k) (suc m) (suc n) [] e = refl
  drop-drop (suc k) m (suc n) (x ∷ xs) e = drop-drop k m n xs (omega arith)

  pub length-replicate : (n : ℕ) (a : A) → length (replicate n a) ≡ n
  length-replicate zero a = refl
  length-replicate (suc n) a = ap suc (length-replicate n a)

module _ {ℓ κ} {A : Type ℓ} (P : A → Type κ) where
  pub All-append : (xs ys : List A) → All P xs → All P ys → All P (xs ++ ys)
  All-append [] ys hx hy = hy
  All-append (x ∷ xs) ys hx hy = (hx.0, All-append xs ys hx.1 hy)

pub get_or-last : (s : Bytes) (z : ℕ) → get_or (s ++ z ∷ []) (length s) 0 ≡ z
get_or-last [] z = refl
get_or-last (x ∷ s) z = get_or-last s z

pub length-snoc : (s : Bytes) (z : ℕ) → length (s ++ z ∷ []) ≡ suc (length s)
length-snoc s z = omega (arith, length-append s (z ∷ []))
