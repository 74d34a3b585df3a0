-- ===== src/Ini/Lookup.antt =====
-- `iniGetStrValue` on a sorted array of items, told of the items in any order.
use mathlib.Core.Path.{subst}
use mathlib.Core.Logic.Or
use mathlib.Core.List.{Mem, Perm, mem-cons, mem-cons_self, not-mem-nil}
use mathlib.Core.List.Perm
use demostroage.Prelude.{
  ℕ, zero, suc, ◌<◌, ◌≡◌, ◌≢◌, refl, sym, ap, ◌∙◌, Option, none, some, List, [], ◌∷◌, arith, Bytes,
  length,
}
use demostroage.Libc.{strcmp, truncated}
use demostroage.Libc.Order.{at_most, strcmp_refl, strcmp_eq}
use demostroage.Libc.Sort.{get?, qsort}
use demostroage.Libc.Sort.Sorted.{IsSorted, qsort-perm, qsort-IsSorted}
use demostroage.Libc.Sort.Searching.{IsEqual, Locates, bsearch-Locates}
use demostroage.Ini.{
  Item, by_item_name, item_name_len, target_item, value_of, value_at, get_str_value,
}

abbrev pub item : Bytes → Bytes → Item
item name value = record { name = name; value = value }

pub strcmp-IsEqual : (a b : Bytes) → a ≡ b → IsEqual (strcmp a b)
strcmp-IsEqual a b e = subst (λ c. IsEqual (strcmp a c)) e (rw (strcmp_refl a) (refl, refl))

-- what a lookup of a name gives among items: one of its values, or NULL where there is none
abbrev pub Looked : List Item → Bytes → Option Bytes → Type 0
Looked items name none = (value : Bytes) → ¬ Mem (item name value) items
Looked items name (some value) = Mem (item name value) items

module _ {A : Type 0} where
  not_mem : (xs : List A) (x : A) → ((i : ℕ) → i < length xs → get? xs i ≢ some x) → ¬ Mem x xs
  not_mem [] x h m = not-mem-nil m
  not_mem (y ∷ xs) x h m =
      Or.elim (hlevel) (mem-cons.0 m) (λ e. h 0 (omega arith) (ap some (sym e)))
        (not_mem xs x (λ i lt. h (suc i) (omega arith)))

  pub get?-Mem : (xs : List A) (i : ℕ) {x : A} → get? xs i ≡ some x → Mem x xs
  get?-Mem [] i e = cc
  get?-Mem (y ∷ xs) zero {x} e = let s : y ≡ x = cc in subst (λ z. Mem z (y ∷ xs)) s mem-cons_self
  get?-Mem (y ∷ xs) (suc i) e = mem-cons.1 (Or.inr (get?-Mem xs i e))

Looked-Locates :
    (items : List Item) (name : Bytes) (r : Option ℕ)
    → Locates by_item_name items (item name []) 0 (length items) r
    → Looked items name (value_at items r)
Looked-Locates items name none h = λ value.
    not_mem items (item name value)
      (λ i lt e. h i (item name value) (omega arith) lt e (strcmp-IsEqual name name refl))
Looked-Locates items name (some i) (lo, hi, x, e, q) =
    let s : name ≡ x.name = strcmp_eq name x.name q.0 q.1 in
    subst (λ o. Looked items name (value_of o)) (sym e)
      (get?-Mem items i (e ∙ ap (λ n. some (item n x.value)) (sym s)))

-- a sorted array
get_str_value-IsSorted :
    (name : Bytes) (items : List Item)
    → IsSorted by_item_name items
    → Looked items (truncated item_name_len name) (get_str_value name items)
unfolding get_str_value
get_str_value-IsSorted name [] h = λ value. not-mem-nil
get_str_value-IsSorted name (x ∷ items) h =
    Looked-Locates (x ∷ items) _ _ (bsearch-Locates by_item_name (x ∷ items) h (target_item name))

Looked-perm :
    (xs ys : List Item) (name : Bytes) (r : Option Bytes)
    → Perm xs ys
    → Looked xs name r
    → Looked ys name r
Looked-perm xs ys name none p h = λ value m. h value ((Perm.mem_iff p).1 m)
Looked-perm xs ys name (some value) p h = (Perm.mem_iff p).0 h

-- Among items that `qsort` has sorted, `iniGetStrValue` gives a value that an item of the name has,
-- and NULL just where no item has the name. Of the name the first 64 bytes count.
pub get_str_value-Looked :
    (name : Bytes) (items : List Item)
    → Looked items
        (truncated item_name_len name)
        (get_str_value name (qsort (at_most by_item_name) items))
get_str_value-Looked name items =
    Looked-perm _ items _ _ (qsort-perm (at_most by_item_name) items)
      (get_str_value-IsSorted name _ (qsort-IsSorted by_item_name items))
