-- ===== src/Libc/Sort.antt =====
-- `qsort`, as the stable sort that glibc's is, and `bsearch`.
pub mod Sorted
pub mod Searching
use demostroage.Prelude.{
  ℕ, zero, suc, ◌+◌, ◌/◌, Bool, Option, none, some, List, [], ◌∷◌, ltb, if◌then◌else◌, ℤ, is_neg,
  is_pos, length,
}

module _ {A : Type 0} where
  -- in front of the first element that is not below `x`
  unfoldable pub insert_by : (A → A → Bool) → A → List A → List A
  insert_by le x [] = x ∷ []
  insert_by le x (y ∷ ys) = let rest = y ∷ insert_by le x ys in if le x y then x ∷ y ∷ ys else rest

  -- `qsort` by a comparison, `le a b` being `cmp(a, b) <= 0`
  unfoldable pub qsort : (A → A → Bool) → List A → List A
  unfolding insert_by
  qsort le [] = []
  qsort le (x ∷ xs) = insert_by le x (qsort le xs)

  abbrev pub get? : List A → ℕ → Option A
  get? [] i = none
  get? (x ∷ xs) zero = some x
  get? (x ∷ xs) (suc i) = get? xs i

  -- the halving loop of `bsearch` between `lo` and `hi`: the index of an element that compares
  -- as equal to the key
  unfoldable pub bsearch_loop : (A → ℤ) → List A → ℕ → ℕ → ℕ → Option ℕ
  bsearch_loop cmp xs zero lo hi = none
  bsearch_loop cmp xs (suc fuel) lo hi =
      let mid = (lo + hi) / 2 in
      let left = bsearch_loop cmp xs fuel lo mid in
      let right = bsearch_loop cmp xs fuel (mid + 1) hi in
      elim (get? xs mid) [
        | none ↦ none
        | some x ↦
            (if ltb lo hi
              then (if is_neg (cmp x) then left else if is_pos (cmp x) then right else some mid)
              else none)
      ]

  -- `cmp x` is the comparison of the key with `x`
  unfoldable pub bsearch : (A → ℤ) → List A → Option ℕ
  unfolding bsearch_loop
  bsearch cmp xs = bsearch_loop cmp xs (length xs + 1) 0 (length xs)
