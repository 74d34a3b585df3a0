-- ===== src/Ini/Named.antt =====
-- The items of a sorted array that have a name stand together, and the loops of `iniGetValues`
-- walk over them.
use mathlib.Core.Path.{subst}
use mathlib.Core.List.{Perm, reverse, reverse-cons, perm_append_comm}
use mathlib.Core.List.Perm
use demostroage.Prelude.{
  ℕ, zero, suc, ◌≡◌, ◌≢◌, ◌⊎◌, refl, sym, ap, ◌∙◌, Bool, true, false, Bool-cases, inl, inr, List,
  [], ◌∷◌, ◌++◌, Bytes, take, All, All-append, eqb, eqb_iff, if◌then◌else◌, is_pos,
}
use demostroage.Libc.{strcmp}
use demostroage.Libc.Order.{strcmp_antisymm}
use demostroage.Libc.Sort.{qsort, insert_by}
use demostroage.Libc.Sort.Sorted.{IsSorted}
use demostroage.Ini.{Item, by_item_name, neighbours}

-- the values of the items that have a name
unfoldable pub named : Bytes → List Item → List Bytes
named name [] = []
named name (x ∷ xs) = let more = named name xs in if eqb x.name name then x.value ∷ more else more

-- the order of the items does not matter
module _ (name : Bytes) where
  named-cons :
      (y : Item) (xs ys : List Item)
      → Perm (named name xs) (named name ys)
      → Perm (named name (y ∷ xs)) (named name (y ∷ ys))
  unfolding named
  named-cons y xs ys p = elim (Bool-cases (eqb y.name name)) [
    | inl hit ↦ rw hit (Perm.cons y.value p)
    | inr miss ↦ rw miss p
  ]

  named_swap :
      (x y : Item) (ys : List Item) → Perm (named name (y ∷ x ∷ ys)) (named name (x ∷ y ∷ ys))
  unfolding named
  named_swap x y ys = elim (Bool-cases (eqb y.name name)) [
    | inl hit ↦ rw hit (elim (Bool-cases (eqb x.name name)) [
      | inl both ↦ rw both (Perm.swap x.value y.value (named name ys))
      | inr one ↦ rw one (Perm.refl _)
    ])
    | inr miss ↦ rw miss (Perm.refl _)
  ]

  named-insert_by :
      (le : Item → Item → Bool) (x : Item) (ys : List Item)
      → Perm (named name (insert_by le x ys)) (named name (x ∷ ys))
  unfolding insert_by
  named-insert_by le x [] = Perm.refl _
  named-insert_by le x (y ∷ ys) = elim (Bool-cases (le x y)) [
    | inl first ↦ rw first (Perm.refl _)
    | inr later ↦ rw later (
        Perm.trans (named-cons y (insert_by le x ys) (x ∷ ys) (named-insert_by le x ys))
          (named_swap x y ys))
  ]

  pub named-qsort :
      (le : Item → Item → Bool) (xs : List Item) → Perm (named name (qsort le xs)) (named name xs)
  unfolding qsort
  named-qsort le [] = Perm.refl _
  named-qsort le (x ∷ xs) =
      Perm.trans (named-insert_by le x (qsort le xs))
        (named-cons x (qsort le xs) xs (named-qsort le xs))

  pub named-append : (xs ys : List Item) → named name (xs ++ ys) ≡ named name xs ++ named name ys
  unfolding named
  named-append [] ys = refl
  named-append (x ∷ xs) ys = elim (Bool-cases (eqb x.name name)) [
    | inl hit ↦ rw hit (ap (◌∷◌ x.value) (named-append xs ys))
    | inr miss ↦ rw miss (named-append xs ys)
  ]

  named-hit :
      (x : Item) (ys : List Item) → x.name ≡ name → named name (x ∷ ys) ≡ x.value ∷ named name ys
  unfolding named
  named-hit x ys e = rw ((eqb_iff x.name name).1 e)

  pub named-reverse : (xs : List Item) → Perm (named name (reverse xs)) (named name xs)
  named-reverse [] = Perm.refl _
  named-reverse (x ∷ xs) =
      subst (λ ys. Perm (named name ys) (named name (x ∷ xs))) (sym (reverse-cons x xs))
        (subst (λ vs. Perm vs (named name (x ∷ xs))) (sym (named-append (reverse xs) (x ∷ [])))
          (Perm.trans (perm_append_comm (named name (reverse xs)) (named name (x ∷ []))) (
            subst (λ vs. Perm vs (named name (x ∷ xs))) (named-append (x ∷ []) (reverse xs))
              (named-cons x (reverse xs) xs (named-reverse xs)))))

  -- around an item with the name
  pub named-around :
      (x : Item) (xs ys : List Item)
      → x.name ≡ name
      → named name (xs ++ x ∷ ys) ≡ named name xs ++ x.value ∷ named name ys
  named-around x xs ys e = named-append xs (x ∷ ys) ∙ ap (◌++◌ (named name xs)) (named-hit x ys e)

  -- the items with the name stand in front
  abbrev pub Together : List Item → Type 0
  Together [] = Unit
  Together (x ∷ xs) =
      ((eqb x.name name ≡ true) × Together xs) ⊎ All (λ y. eqb y.name name ≡ false) (x ∷ xs)

  pub named-none : (xs : List Item) → All (λ y. eqb y.name name ≡ false) xs → named name xs ≡ []
  unfolding named
  named-none [] h = refl
  named-none (x ∷ xs) h = rw h.0 (named-none xs h.1)

  neighbours-none :
      (room : ℕ) (x : Item) (xs : List Item)
      → eqb x.name name ≡ false
      → neighbours room name (x ∷ xs) ≡ []
  unfolding neighbours
  neighbours-none zero x xs h = refl
  neighbours-none (suc room) x xs h = rw h

  take-nil : (n : ℕ) → take n (let e : List Bytes = [] in e) ≡ []
  take-nil zero = refl
  take-nil (suc n) = refl

  pub neighbours-Together :
      (room : ℕ) (xs : List Item)
      → Together xs
      → neighbours room name xs ≡ take room (named name xs)
  unfolding neighbours named
  neighbours-Together room [] h = sym (take-nil room)
  neighbours-Together zero (x ∷ xs) h = refl
  neighbours-Together (suc room) (x ∷ xs) (inl (hit, more)) =
      rw hit (ap (◌∷◌ x.value) (neighbours-Together room xs more))
  neighbours-Together (suc room) (x ∷ xs) (inr (miss, more)) = rw (miss, named-none xs more)

  Together-snoc_miss :
      (y : Item) (zs : List Item) → eqb y.name name ≡ false → Together zs → Together (zs ++ y ∷ [])
  Together-snoc_miss y [] h t = inr (h, tt)
  Together-snoc_miss y (z ∷ zs) h (inl (hit, more)) = inl (hit, Together-snoc_miss y zs h more)
  Together-snoc_miss y (z ∷ zs) h (inr (miss, more)) =
      inr (miss, All-append (λ x. eqb x.name name ≡ false) zs (y ∷ []) more (h, tt))

  Together-snoc_hit :
      (y : Item) (zs : List Item)
      → eqb y.name name ≡ true
      → All (λ x. eqb x.name name ≡ true) zs
      → Together (zs ++ y ∷ [])
  Together-snoc_hit y [] h t = inl (h, tt)
  Together-snoc_hit y (z ∷ zs) h t = inl (t.0, Together-snoc_hit y zs h t.1)

module _ {A : Type 0} (P : A → Type 0) where
  pub All-reverse : (xs : List A) → All P xs → All P (reverse xs)
  All-reverse [] h = tt
  All-reverse (x ∷ xs) h =
      subst (All P) (sym (reverse-cons x xs))
        (All-append P (reverse xs) (x ∷ []) (All-reverse xs h.1) (h.0, tt))

  All-split : (xs ys : List A) → All P (xs ++ ys) → All P xs × All P ys
  All-split [] ys h = (tt, h)
  All-split (x ∷ xs) ys h = let (a, b) = All-split xs ys h.1 in ((h.0, a), b)

-- around an item of the name, its neighbours in a sorted array
module _ (x : Item) where
  abbrev same : Item → Bool
  same y = eqb y.name x.name

  same-not : (y : Item) → same y ≡ false → y.name ≢ x.name
  same-not y h e = let t = (eqb_iff y.name x.name).1 e in cc

  behind_miss :
      (y : Item) (zs : List Item)
      → is_pos (strcmp x.name y.name) ≡ false
      → same y ≡ false
      → All (λ z. is_pos (strcmp y.name z.name) ≡ false) zs
      → All (λ z. same z ≡ false) zs
  behind_miss y [] le h a = tt
  behind_miss y (z ∷ zs) le h a = (
    elim (Bool-cases (same z)) [
      | inl hit ↦
          let e : z.name ≡ x.name = (eqb_iff z.name x.name).0 hit in
          absurd (
            same-not y h (
              strcmp_antisymm y.name x.name (subst (λ n. is_pos (strcmp y.name n) ≡ false) e a.0)
                le))
      | inr miss ↦ miss
    ],
    behind_miss y zs le h a.1,
  )

  pub behind-Together :
      (ys : List Item)
      → All (λ y. is_pos (strcmp x.name y.name) ≡ false) ys
      → IsSorted by_item_name ys
      → Together x.name ys
  behind-Together [] le s = tt
  behind-Together (y ∷ ys) le s = elim (Bool-cases (same y)) [
    | inl hit ↦ inl (hit, behind-Together ys le.1 s.1)
    | inr miss ↦ inr (miss, behind_miss y ys le.0 miss s.0)
  ]

  front_hit :
      (y : Item) (zs : List Item)
      → y.name ≡ x.name
      → All (λ z. is_pos (strcmp y.name z.name) ≡ false) zs
      → All (λ z. is_pos (strcmp z.name x.name) ≡ false) zs
      → All (λ z. same z ≡ true) zs
  front_hit y [] e above below = tt
  front_hit y (z ∷ zs) e above below = (
    (eqb_iff z.name x.name).1 (
        strcmp_antisymm z.name x.name below.0
          (subst (λ n. is_pos (strcmp n z.name) ≡ false) e above.0)),
    front_hit y zs e above.1 below.1,
  )

  pub front-Together :
      (ys rest : List Item)
      → IsSorted by_item_name (ys ++ x ∷ rest)
      → Together x.name (reverse ys) × All (λ z. is_pos (strcmp z.name x.name) ≡ false) ys
  front-Together [] rest s = (tt, tt)
  front-Together (y ∷ ys) rest s =
      let (t, below) = front-Together ys rest s.1 in
      let (above, le) = All-split (λ z. is_pos (strcmp y.name z.name) ≡ false) ys (x ∷ rest) s.0 in
      (
        subst (Together x.name) (sym (reverse-cons y ys)) (elim (Bool-cases (same y)) [
          | inl hit ↦ Together-snoc_hit x.name y (reverse ys) hit (
              All-reverse (λ z. same z ≡ true) ys
                (front_hit y ys ((eqb_iff y.name x.name).0 hit) above below))
          | inr miss ↦ Together-snoc_miss x.name y (reverse ys) miss t
        ]),
        (le.0, below),
      )

  pub IsSorted-behind :
      (ys rest : List Item)
      → IsSorted by_item_name (ys ++ x ∷ rest)
      → IsSorted by_item_name (x ∷ rest)
  IsSorted-behind [] rest s = s
  IsSorted-behind (y ∷ ys) rest s = IsSorted-behind ys rest s.1
