-- ===== src/Ini/Values.antt =====
-- `iniGetValues` on a sorted array: the values of the items with the name, as many as there is
-- room for.
use mathlib.Core.Path.{subst}
use mathlib.Core.List.{Perm, reverse, perm_append_comm, perm_middle}
use mathlib.Core.List.Perm
use demostroage.Prelude.{
  ℕ, zero, suc, ◌+◌, ◌-◌, ◌≤◌, ◌<◌, ◌≡◌, ◌⊎◌, refl, sym, ap, false, Bool-cases, inl, inr, Option,
  none, some, List, [], ◌∷◌, ◌++◌, append_assoc, arith, Bytes, length, length-append, length-take,
  take, drop, take-append-drop, All, eqb, eqb_iff, leb,
}
use demostroage.Libc.{strcmp}
use demostroage.Libc.Order.{at_most, against, strcmp_eq}
use demostroage.Libc.Sort.{get?, qsort, bsearch}
use demostroage.Libc.Sort.Sorted.{IsSorted, qsort-IsSorted}
use demostroage.Libc.Sort.Searching.{IsEqual, Locates, bsearch-Locates}
use demostroage.Ini.{Item, by_item_name, values_at, values_from, get_values, item_name_len}
use demostroage.Ini.Lookup.{item, strcmp-IsEqual}
use demostroage.Ini.Named.{
  named, named-around, named-qsort, named-reverse, named-none, neighbours-Together, behind-Together,
  front-Together, IsSorted-behind,
}
use demostroage.Ini.RoundTrip.{truncated_fits}

module _ {A : Type 0} where
  get?-split :
      (xs : List A) (i : ℕ) {x : A} → get? xs i ≡ some x → xs ≡ take i xs ++ x ∷ drop (suc i) xs
  get?-split [] i e = cc
  get?-split (y ∷ xs) zero e = let s : y ∷ xs ≡ _ ∷ xs = cc in s
  get?-split (y ∷ xs) (suc i) e = ap (◌∷◌ y) (get?-split xs i e)

  perm_interleave : (a b c d : List A) → Perm ((a ++ b) ++ (c ++ d)) ((a ++ c) ++ (b ++ d))
  perm_interleave a b c d =
      rw
        (
          append_assoc a b (c ++ d),
          append_assoc a c (b ++ d),
          ← append_assoc b c d,
          ← append_assoc c b d,
        )
        (Perm.append_left a (Perm.append_right d (perm_append_comm b c)))

  drop_all : (n : ℕ) (xs : List A) → length xs ≤ n → drop n xs ≡ []
  drop_all zero [] h = refl
  drop_all zero (x ∷ xs) h = absurd (omega arith)
  drop_all (suc n) [] h = refl
  drop_all (suc n) (x ∷ xs) h = drop_all n xs (omega arith)

-- What a request for at most `max` values of a name has to give: values of items with the name,
-- each as often as there are items, and all of them unless there was no more room.
pub record Takes (max : ℕ) (items : List Item) (name : Bytes) (values : List Bytes) : Type 0 where
  pub rest : List Bytes
  pub perm : Perm (values ++ rest) (named name items)
  pub fits : length values ≤ max
  pub full : (rest ≡ []) ⊎ (length values ≡ max)

abbrev taken : ℕ → Bytes → List Bytes → List Bytes → List Bytes
taken room v front behind = v ∷ (take room front ++ take (room - length (take room front)) behind)

-- the value found, then those in front, then those behind
taken-Takes :
    (room : ℕ) (items : List Item) (name v : Bytes) (front behind : List Bytes)
    → Perm (v ∷ (front ++ behind)) (named name items)
    → Takes (suc room) items name (taken room v front behind)
taken-Takes room items name v front behind p =
    let n = room - length (take room front) in
    let f = length-take room front in
    let b = length-take n behind in
    let l = length-append (take room front) (take n behind) in
    record {
      rest = drop room front ++ drop n behind;
      perm =
          Perm.trans
            (Perm.cons v
              (perm_interleave (take room front) (take n behind) (drop room front) (drop n behind)))
            (rw (take-append-drop room front, take-append-drop n behind) p);
      fits = omega arith;
      full = elim (Bool-cases (leb (length front + length behind) room)) [
        | inl all ↦
            inl (rw (drop_all room front (ground arith), drop_all n behind (ground arith)) refl)
        | inr short ↦ inr (ground arith)
      ];
    }

module _ (items : List Item) (name : Bytes) where
  Takes-perm :
      {max : ℕ} {ys : List Item} {vs : List Bytes}
      → Perm (named name ys) (named name items)
      → Takes max ys name vs
      → Takes max items name vs
  Takes-perm p t = record {
    rest = t.rest;
    perm = Perm.trans t.perm p;
    fits = t.fits;
    full = t.full;
  }

-- the loops around the item found
values_from-Takes :
    (room : ℕ) (ys : List Item) (i : ℕ) (x : Item)
    → IsSorted by_item_name ys
    → get? ys i ≡ some x
    → Takes (suc room) ys x.name (values_from room x.name ys i (some x))
unfolding values_from
values_from-Takes room ys i x s e =
    let split = get?-split ys i e in
    let s' = subst (IsSorted by_item_name) split s in
    let behind = IsSorted-behind x (take i ys) (drop (suc i) ys) s' in
    let f =
      neighbours-Together x.name room (reverse (take i ys))
        (front-Together x (take i ys) (drop (suc i) ys) s').0 in
    let b = λ (n : ℕ).
      neighbours-Together x.name n (drop (suc i) ys)
        (behind-Together x (drop (suc i) ys) behind.0 behind.1) in
    let front = named x.name (reverse (take i ys)) in
    let back = named x.name (drop (suc i) ys) in
    rw f (
      rw (b (room - length (take room front))) (
        taken-Takes room ys x.name x.value front back (
          subst (λ zs. Perm (x.value ∷ (front ++ back)) (named x.name zs)) (sym split)
            (subst (Perm (x.value ∷ (front ++ back)))
              (sym (named-around x.name x (take i ys) (drop (suc i) ys) refl))
              (Perm.trans
                (Perm.cons x.value (Perm.append_right back (named-reverse x.name (take i ys))))
                (Perm.symm (perm_middle (named x.name (take i ys)) back)))))))

pub All-of-get? :
    {A : Type 0} (P : A → Type 0) (xs : List A)
    → ((i : ℕ) (x : A) → i < length xs → get? xs i ≡ some x → P x)
    → All P xs
All-of-get? P [] h = tt
All-of-get? P (x ∷ xs) h =
    (h 0 x (omega arith) refl, All-of-get? P xs (λ i y lt e. h (suc i) y (omega arith) e))

Takes-none :
    (max : ℕ) (ys : List Item) (name : Bytes)
    → All (λ y. eqb y.name name ≡ false) ys
    → Takes max ys name []
Takes-none max ys name h = record {
  rest = [];
  perm = rw (named-none name ys h) (Perm.refl _);
  fits = omega arith;
  full = inl refl;
}

not_same :
    (ys : List Item) (name : Bytes) (y : Item)
    → ¬ IsEqual (strcmp name y.name)
    → eqb y.name name ≡ false
not_same ys name y h = elim (Bool-cases (eqb y.name name)) [
  | inl hit ↦ absurd (h (strcmp-IsEqual name y.name (sym ((eqb_iff y.name name).0 hit))))
  | inr miss ↦ miss
]

module _ (room : ℕ) (ys : List Item) (name : Bytes) (s : IsSorted by_item_name ys) where
  values_at-Takes :
      (r : Option ℕ)
      → Locates by_item_name ys (item name []) 0 (length ys) r
      → Takes (suc room) ys name (values_at room name ys r)
  values_at-Takes none l = Takes-none (suc room) ys name (
      All-of-get? (λ y. eqb y.name name ≡ false) ys
        (λ i y lt e. not_same ys name y (l i y (omega arith) lt e)))
  values_at-Takes (some i) (lo, hi, x, e, q) =
      subst (λ n. Takes (suc room) ys n (values_from room n ys i (get? ys i)))
        (sym (strcmp_eq name x.name q.0 q.1))
        (subst (λ o. Takes (suc room) ys x.name (values_from room x.name ys i o)) (sym e)
          (values_from-Takes room ys i x s e))

get_values-IsSorted :
    (name : Bytes) (ys : List Item) (max : ℕ)
    → length name ≤ item_name_len
    → IsSorted by_item_name ys
    → Takes max ys name (get_values name ys max)
unfolding get_values
get_values-IsSorted name [] max h s = Takes-none max [] name tt
get_values-IsSorted name (x ∷ ys) zero h s = record {
  rest = named name (x ∷ ys);
  perm = Perm.refl _;
  fits = omega arith;
  full = inr refl;
}
get_values-IsSorted name (x ∷ ys) (suc room) h s = values_at-Takes room (x ∷ ys) name s _ (
    subst
      (λ n.
        Locates by_item_name (x ∷ ys) (item name []) 0 (length (x ∷ ys))
          (bsearch (against by_item_name (item n [])) (x ∷ ys)))
      (sym (truncated_fits item_name_len name h))
      (bsearch-Locates by_item_name (x ∷ ys) s (item name [])))

-- Among items that `qsort` has sorted, `iniGetValues` gives values of the items with the name, each
-- as often as there are such items, and no more than asked for; a value is left out only where as
-- many as asked for are given. The name is one that fits an item.
pub get_values-Takes :
    (name : Bytes) (items : List Item) (max : ℕ)
    → length name ≤ item_name_len
    → Takes max items name (get_values name (qsort (at_most by_item_name) items) max)
get_values-Takes name items max h =
    Takes-perm items name (named-qsort name (at_most by_item_name) items)
      (get_values-IsSorted name _ max h (qsort-IsSorted by_item_name items))
