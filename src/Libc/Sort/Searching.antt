-- ===== src/Libc/Sort/Searching.antt =====
-- `bsearch` on a sorted array finds an element that compares as equal, if there is one.
use mathlib.Core.Path.{subst}
use demostroage.Prelude.{
  ℕ, zero, suc, ◌+◌, ◌-◌, ◌/◌, ◌≤◌, ◌<◌, ◌≡◌, refl, true, false, Option, none, some, List, [], ◌∷◌,
  arith, All, length, Bool-cases, Option-cases, inl, inr, ltb, ℤ, is_neg, is_pos, sym, ◌∙◌,
}
use demostroage.Libc.Order.{Comparison, against}
use demostroage.Libc.Sort.{get?, bsearch_loop, bsearch}
use demostroage.Libc.Sort.Sorted.{IsSorted}

-- the result of a comparison that finds its key
abbrev pub IsEqual : ℤ → Type 0
IsEqual z = (is_neg z ≡ false) × (is_pos z ≡ false)

some_inj : {A : Type 0} (x y : A) → some x ≡ some y → x ≡ y
some_inj x y h = cc

module _ {A : Type 0} where
  pub get?-lt : (xs : List A) (i : ℕ) {x : A} → get? xs i ≡ some x → i < length xs
  get?-lt [] i e = cc
  get?-lt (x ∷ xs) zero e = omega arith
  get?-lt (x ∷ xs) (suc i) e = omega (arith, get?-lt xs i e)

  get?-some : (xs : List A) (i : ℕ) → i < length xs → (x : A) × (get? xs i ≡ some x)
  get?-some [] i h = absurd (omega arith)
  get?-some (x ∷ xs) zero h = (x, refl)
  get?-some (x ∷ xs) (suc i) h = get?-some xs i (omega arith)

  All-get? : (P : A → Type 0) (xs : List A) (i : ℕ) (x : A) → All P xs → get? xs i ≡ some x → P x
  All-get? P [] i x h e = cc
  All-get? P (y ∷ xs) zero x h e = subst P (some_inj y x e) h.0
  All-get? P (y ∷ xs) (suc i) x h e = All-get? P xs i x h.1 e

  module _ (o : Comparison A) (xs : List A) where
    -- what a result tells about the elements from `lo` up to `hi`
    abbrev pub Locates : A → ℕ → ℕ → Option ℕ → Type 0
    Locates k lo hi none =
        (i : ℕ) (x : A) → lo ≤ i → i < hi → get? xs i ≡ some x → ¬ IsEqual (o.cmp k x)
    Locates k lo hi (some m) =
        (lo ≤ m) × (m < hi) × (x : A) × (get? xs m ≡ some x) × IsEqual (o.cmp k x)

  module _ (o : Comparison A) where
    IsSorted-get? :
        (xs : List A) (i j : ℕ) (x y : A)
        → IsSorted o xs
        → i < j
        → get? xs i ≡ some x
        → get? xs j ≡ some y
        → is_pos (o.cmp x y) ≡ false
    IsSorted-get? [] i j x y h lt e f = cc
    IsSorted-get? (a ∷ xs) zero zero x y h lt e f = absurd (omega arith)
    IsSorted-get? (a ∷ xs) zero (suc j) x y h lt e f =
        subst (λ z. is_pos (o.cmp z y) ≡ false) (some_inj a x e)
          (All-get? (λ z. is_pos (o.cmp a z) ≡ false) xs j y h.0 f)
    IsSorted-get? (a ∷ xs) (suc i) zero x y h lt e f = absurd (omega arith)
    IsSorted-get? (a ∷ xs) (suc i) (suc j) x y h lt e f =
        IsSorted-get? xs i j x y h.1 (omega arith) e f

    module _ (xs : List A) (sorted : IsSorted o xs) (k : A) where
      -- behind an element that is above the key all are above it
      not_behind :
          (i j : ℕ) (x y : A)
          → i ≤ j
          → get? xs i ≡ some x
          → get? xs j ≡ some y
          → is_neg (o.cmp k x) ≡ true
          → ¬ IsEqual (o.cmp k y)
      not_behind i j x y le e f h q = elim (Bool-cases (ltb i j)) [
        | inl lt ↦
            let g = o.lt_le k x y h (IsSorted-get? xs i j x y sorted (ground arith) e f) in cc
        | inr eq ↦
            let s : i ≡ j = ground arith in
            let t : x ≡ y = some_inj x y (sym e ∙ subst (λ n. get? xs n ≡ some y) (sym s) f) in
            let g = subst (λ z. is_neg (o.cmp k z) ≡ true) t h in cc
      ]

      -- in front of an element that is below the key all are below it
      not_before :
          (i j : ℕ) (x y : A)
          → i ≤ j
          → get? xs i ≡ some x
          → get? xs j ≡ some y
          → is_pos (o.cmp k y) ≡ true
          → ¬ IsEqual (o.cmp k x)
      not_before i j x y le e f h q = elim (Bool-cases (ltb i j)) [
        | inl lt ↦
            let g = o.gt_le k x y h (IsSorted-get? xs i j x y sorted (ground arith) e f) in cc
        | inr eq ↦
            let s : i ≡ j = ground arith in
            let t : x ≡ y = some_inj x y (sym e ∙ subst (λ n. get? xs n ≡ some y) (sym s) f) in
            let g = subst (λ z. is_pos (o.cmp k z) ≡ true) (sym t) h in cc
      ]

      abbrev mid : ℕ → ℕ → ℕ
      mid lo hi = (lo + hi) / 2

      module _ (lo hi : ℕ) (x : A) (at_mid : get? xs (mid lo hi) ≡ some x) (lt : lo < hi) where
        Locates-left :
            (r : Option ℕ)
            → is_neg (o.cmp k x) ≡ true
            → Locates o xs k lo (mid lo hi) r
            → Locates o xs k lo hi r
        Locates-left none h l = λ i y p q e. elim (Bool-cases (ltb i (mid lo hi))) [
          | inl left ↦ l i y p (ground arith) e
          | inr right ↦ not_behind (mid lo hi) i x y (ground arith) at_mid e h
        ]
        Locates-left (some m) h (p, q, y, e, z) = (p, omega arith, y, e, z)

        Locates-right :
            (r : Option ℕ)
            → is_pos (o.cmp k x) ≡ true
            → Locates o xs k (mid lo hi + 1) hi r
            → Locates o xs k lo hi r
        Locates-right none h l = λ i y p q e. elim (Bool-cases (ltb (mid lo hi) i)) [
          | inl right ↦ l i y (ground arith) q e
          | inr left ↦ not_before i (mid lo hi) y x (ground arith) e at_mid h
        ]
        Locates-right (some m) h (p, q, y, e, z) = (omega arith, q, y, e, z)

      Locates-empty : (lo hi : ℕ) → ltb lo hi ≡ false → Locates o xs k lo hi none
      Locates-empty lo hi h i y p q e = absurd (ground arith)

      bsearch_loop-Locates :
          (fuel lo hi : ℕ)
          → hi - lo < fuel
          → hi ≤ length xs
          → Locates o xs k lo hi (bsearch_loop (against o k) xs fuel lo hi)
      unfolding bsearch_loop
      bsearch_loop-Locates zero lo hi h fits = absurd (omega arith)
      bsearch_loop-Locates (suc fuel) lo hi h fits = elim (Option-cases (get? xs (mid lo hi))) [
        | inl out ↦
            rw (out, bsearch_loop)
              (λ i y p q e. absurd (let (z, f) = get?-some xs (mid lo hi) (omega arith) in cc))
        | inr (x, at_mid) ↦
            rw (at_mid, bsearch_loop)
              (elim (Bool-cases (ltb lo hi)) [
                | inr empty ↦ rw empty (Locates-empty lo hi empty)
                | inl more ↦ rw more (elim (Bool-cases (is_neg (o.cmp k x))) [
                  | inl below ↦ rw below (
                      Locates-left lo hi x at_mid (ground arith) _ below
                        (bsearch_loop-Locates fuel lo (mid lo hi) (ground arith) (ground arith)))
                  | inr not_below ↦ rw not_below (elim (Bool-cases (is_pos (o.cmp k x))) [
                    | inl above ↦ rw above (
                        Locates-right lo hi x at_mid (ground arith) _ above
                          (bsearch_loop-Locates fuel (mid lo hi + 1) hi (ground arith) fits))
                    | inr not_above ↦
                        rw not_above (ground arith, ground arith, x, at_mid, (not_below, not_above))
                  ])
                ])
              ])
      ]

      -- a result is the index of an equal element, and without a result there is none
      pub bsearch-Locates : Locates o xs k 0 (length xs) (bsearch (against o k) xs)
      unfolding bsearch
      bsearch-Locates =
          bsearch_loop-Locates (length xs + 1) 0 (length xs) (omega arith) (omega arith)
