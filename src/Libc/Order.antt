-- ===== src/Libc/Order.antt =====
-- What `qsort` and `bsearch` need of a comparison function, and that `strcmp` has it.
use demostroage.Prelude.{
  ◌≡◌, refl, Bool, true, false, not, [], ◌∷◌, Bytes, arith, ℤ, pos, is_neg, is_pos, Bool-cases, inl,
  inr,
}
use demostroage.Libc.{strcmp}

-- a comparison by which an array can be sorted and searched
pub record Comparison (A : Type 0) : Type 0 where
  pub cmp : A → A → ℤ
  pub total : (a b : A) → is_pos (cmp a b) ≡ true → is_pos (cmp b a) ≡ false
  pub trans :
      (a b c : A) → is_pos (cmp a b) ≡ false → is_pos (cmp b c) ≡ false → is_pos (cmp a c) ≡ false
  pub lt_le :
      (k x y : A) → is_neg (cmp k x) ≡ true → is_pos (cmp x y) ≡ false → is_neg (cmp k y) ≡ true
  pub gt_le :
      (k x y : A) → is_pos (cmp k y) ≡ true → is_pos (cmp x y) ≡ false → is_pos (cmp k x) ≡ true

module _ {A : Type 0} (o : Comparison A) where
  -- `cmp(a, b) <= 0`
  abbrev pub at_most : A → A → Bool
  at_most a b = not (is_pos (o.cmp a b))

  -- the comparison of an array's elements with a key
  abbrev pub against : A → A → ℤ
  against k x = o.cmp k x

-- the same by a part of each element
abbrev pub compare_by : {A K : Type 0} → (A → K) → Comparison K → Comparison A
compare_by f o = record {
  cmp = λ a b. o.cmp (f a) (f b);
  total = λ a b. o.total (f a) (f b);
  trans = λ a b c. o.trans (f a) (f b) (f c);
  lt_le = λ a b c. o.lt_le (f a) (f b) (f c);
  gt_le = λ a b c. o.gt_le (f a) (f b) (f c);
}

pub strcmp_refl : (a : Bytes) → strcmp a a ≡ pos 0
unfolding strcmp
strcmp_refl [] = refl
strcmp_refl (x ∷ a) = ground (arith, strcmp_refl a)

-- neither below nor above is equal
pub strcmp_eq : (a b : Bytes) → is_neg (strcmp a b) ≡ false → is_pos (strcmp a b) ≡ false → a ≡ b
unfolding strcmp
strcmp_eq [] [] h k = refl
strcmp_eq [] (y ∷ b) h k = cc
strcmp_eq (x ∷ a) [] h k = cc
strcmp_eq (x ∷ a) (y ∷ b) h k = ground (arith, strcmp_eq a b)

pub strcmp_total : (a b : Bytes) → is_pos (strcmp a b) ≡ true → is_pos (strcmp b a) ≡ false
unfolding strcmp
strcmp_total [] [] h = cc
strcmp_total [] (y ∷ b) h = cc
strcmp_total (x ∷ a) [] h = refl
strcmp_total (x ∷ a) (y ∷ b) h = ground (arith, strcmp_total a b)

pub strcmp_trans :
    (a b c : Bytes)
    → is_pos (strcmp a b) ≡ false
    → is_pos (strcmp b c) ≡ false
    → is_pos (strcmp a c) ≡ false
unfolding strcmp
strcmp_trans [] b [] h k = refl
strcmp_trans [] b (z ∷ c) h k = refl
strcmp_trans (x ∷ a) [] c h k = cc
strcmp_trans (x ∷ a) (y ∷ b) [] h k = cc
strcmp_trans (x ∷ a) (y ∷ b) (z ∷ c) h k = ground (arith, strcmp_trans a b c)

pub strcmp_lt_le :
    (k x y : Bytes)
    → is_neg (strcmp k x) ≡ true
    → is_pos (strcmp x y) ≡ false
    → is_neg (strcmp k y) ≡ true
unfolding strcmp
strcmp_lt_le [] [] y h g = cc
strcmp_lt_le [] (b ∷ x) [] h g = cc
strcmp_lt_le [] (b ∷ x) (c ∷ y) h g = refl
strcmp_lt_le (a ∷ k) [] y h g = cc
strcmp_lt_le (a ∷ k) (b ∷ x) [] h g = cc
strcmp_lt_le (a ∷ k) (b ∷ x) (c ∷ y) h g = ground (arith, strcmp_lt_le k x y)

pub strcmp_gt_le :
    (k x y : Bytes)
    → is_pos (strcmp k y) ≡ true
    → is_pos (strcmp x y) ≡ false
    → is_pos (strcmp k x) ≡ true
unfolding strcmp
strcmp_gt_le [] x [] h g = cc
strcmp_gt_le [] x (c ∷ y) h g = cc
strcmp_gt_le (a ∷ k) [] y h g = refl
strcmp_gt_le (a ∷ k) (b ∷ x) [] h g = cc
strcmp_gt_le (a ∷ k) (b ∷ x) (c ∷ y) h g = ground (arith, strcmp_gt_le k x y)

-- C strings in the order of their bytes
abbrev pub by_string : Comparison Bytes
by_string = record {
  cmp = strcmp;
  total = strcmp_total;
  trans = strcmp_trans;
  lt_le = strcmp_lt_le;
  gt_le = strcmp_gt_le;
}

pub strcmp_flip : (a b : Bytes) → is_neg (strcmp a b) ≡ true → is_pos (strcmp b a) ≡ true
unfolding strcmp
strcmp_flip [] [] h = cc
strcmp_flip [] (y ∷ b) h = refl
strcmp_flip (x ∷ a) [] h = cc
strcmp_flip (x ∷ a) (y ∷ b) h = ground (arith, strcmp_flip a b)

-- at most both ways is equal
pub strcmp_antisymm :
    (a b : Bytes) → is_pos (strcmp a b) ≡ false → is_pos (strcmp b a) ≡ false → a ≡ b
strcmp_antisymm a b h k = elim (Bool-cases (is_neg (strcmp a b))) [
  | inl below ↦ let f = strcmp_flip a b below in cc
  | inr not_below ↦ strcmp_eq a b not_below h
]

pub strcmp_unflip : (a b : Bytes) → is_pos (strcmp a b) ≡ true → is_neg (strcmp b a) ≡ true
unfolding strcmp
strcmp_unflip [] [] h = cc
strcmp_unflip [] (y ∷ b) h = cc
strcmp_unflip (x ∷ a) [] h = refl
strcmp_unflip (x ∷ a) (y ∷ b) h = ground (arith, strcmp_unflip a b)
