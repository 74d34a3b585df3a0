-- ===== src/Libc/Sort/Sorted.antt =====
-- `qsort` by a comparison gives a sorted permutation.
use mathlib.Core.List.{Perm}
use mathlib.Core.List.Perm
use demostroage.Prelude.{
  ◌≡◌, refl, Bool, true, false, not, List, [], ◌∷◌, All, Bool-cases, inl, inr, is_pos,
}
use demostroage.Libc.Order.{Comparison, at_most}
use demostroage.Libc.Sort.{insert_by, qsort}

module _ {A : Type 0} where
  pub insert_by-perm : (le : A → A → Bool) (x : A) (ys : List A) → Perm (insert_by le x ys) (x ∷ ys)
  unfolding insert_by
  insert_by-perm le x [] = Perm.refl _
  insert_by-perm le x (y ∷ ys) = elim (Bool-cases (le x y)) [
    | inl first ↦ rw first (Perm.refl _)
    | inr later ↦ rw later (Perm.trans (Perm.cons y (insert_by-perm le x ys)) (Perm.swap x y ys))
  ]

  -- nothing is lost or doubled
  pub qsort-perm : (le : A → A → Bool) (xs : List A) → Perm (qsort le xs) xs
  unfolding qsort
  qsort-perm le [] = Perm.refl _
  qsort-perm le (x ∷ xs) =
      Perm.trans (insert_by-perm le x (qsort le xs)) (Perm.cons x (qsort-perm le xs))

  module _ {ℓ} (P : A → Type ℓ) where
    pub All-insert_by :
        (le : A → A → Bool) (x : A) (ys : List A) → P x → All P ys → All P (insert_by le x ys)
    unfolding insert_by
    All-insert_by le x [] p h = (p, tt)
    All-insert_by le x (y ∷ ys) p h = elim (Bool-cases (le x y)) [
      | inl first ↦ rw first (p, h)
      | inr later ↦ rw later (h.0, All-insert_by le x ys p h.1)
    ]

    pub All-qsort : (le : A → A → Bool) (xs : List A) → All P xs → All P (qsort le xs)
    unfolding qsort
    All-qsort le [] h = tt
    All-qsort le (x ∷ xs) h = All-insert_by le x (qsort le xs) h.0 (All-qsort le xs h.1)

  module _ (o : Comparison A) where
    -- every element is at most each one behind it
    abbrev pub IsSorted : List A → Type 0
    IsSorted [] = Unit
    IsSorted (x ∷ xs) = All (λ y. is_pos (o.cmp x y) ≡ false) xs × IsSorted xs

    All-above :
        (x y : A) (ys : List A)
        → is_pos (o.cmp x y) ≡ false
        → All (λ z. is_pos (o.cmp y z) ≡ false) ys
        → All (λ z. is_pos (o.cmp x z) ≡ false) ys
    All-above x y [] h a = tt
    All-above x y (z ∷ ys) h a = (o.trans x y z h a.0, All-above x y ys h a.1)

    not_flip : (b : Bool) → not b ≡ true → b ≡ false
    not_flip true h = cc
    not_flip false h = refl

    not_keep : (b : Bool) → not b ≡ false → b ≡ true
    not_keep true h = refl
    not_keep false h = cc

    insert_by-IsSorted : (x : A) (ys : List A) → IsSorted ys → IsSorted (insert_by (at_most o) x ys)
    unfolding insert_by
    insert_by-IsSorted x [] h = (tt, tt)
    insert_by-IsSorted x (y ∷ ys) h = elim (Bool-cases (not (is_pos (o.cmp x y)))) [
      | inl first ↦
          let le = not_flip (is_pos (o.cmp x y)) first in
          rw first ((le, All-above x y ys le h.0), h)
      | inr later ↦
          let gt = not_keep (is_pos (o.cmp x y)) later in
          rw later (
            All-insert_by (λ z. is_pos (o.cmp y z) ≡ false) (at_most o) x ys (o.total x y gt) h.0,
            insert_by-IsSorted x ys h.1,
          )
    ]

    pub qsort-IsSorted : (xs : List A) → IsSorted (qsort (at_most o) xs)
    unfolding qsort
    qsort-IsSorted [] = tt
    qsort-IsSorted (x ∷ xs) = insert_by-IsSorted x (qsort (at_most o) xs) (qsort-IsSorted xs)
