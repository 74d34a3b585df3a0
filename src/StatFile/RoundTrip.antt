-- ===== src/StatFile/RoundTrip.antt =====
-- The statistics that were written are those that the next start of the daemon has.
use demostroage.Prelude.{
  ℕ, ◌^◌, ◌≤◌, ◌<◌, ◌≡◌, ◌≢◌, refl, ap, ◌∙◌, some, List, [], ◌∷◌, ◌++◌, append_assoc, map, arith,
  Bytes, length, All, pos, to_int, word,
}
use demostroage.Libc.{print_int, strcmp}
use demostroage.Libc.Numbers.{IsInt, atoi-print_int}
use demostroage.Libc.Decimal.{IsDecimal, All-print_int, length-print_int}
use demostroage.Libc.Sort.{qsort, insert_by, bsearch, bsearch_loop}
use demostroage.Libc.Order.{at_most}
use demostroage.Shared.Trim.{StartsDark, EndsDark}
use demostroage.Runtime.{StorageStat}
use demostroage.Posix.{codes}
use demostroage.Ini.{Item, by_item_name, get_str_value, get_int_value}
use demostroage.Ini.Loading.{items_of_text}
use demostroage.Ini.RoundTrip.{IsText, IsPrintable, print_items, items_of_text-print_items}
use demostroage.StatFile.{stat_items, stat_lines}
use demostroage.StatFile.Opening.{counter, stat_of_items}

-- the counters are bit patterns of an `int`
abbrev pub IsWord : ℕ → Type 0
IsWord n = n < 2 ^ 32

abbrev pub AreWords : StorageStat → Type 0
AreWords s = All (λ x. IsWord x.1) (stat_items s)

IsInt-to_int : (n : ℕ) → IsWord n → IsInt (to_int (pos n))
IsInt-to_int n h = ground arith

word-to_int : (n : ℕ) → IsWord n → word (to_int (pos n)) ≡ n
word-to_int n h = ground arith

abbrev pub field : Bytes × ℕ → Item
field x = record { name = x.0; value = print_int (to_int (pos x.1)) }

stat_lines-print_items : (xs : List (Bytes × ℕ)) → stat_lines xs ≡ print_items (map field xs)
unfolding stat_lines print_items
stat_lines-print_items [] = refl
stat_lines-print_items ((n, v) ∷ xs) =
    let p = print_int (to_int (pos v)) in
    rw
      (
        append_assoc n (b'=' ∷ p) (b'\n' ∷ print_items (map field xs)),
        append_assoc n (b'=' ∷ (p ++ b'\n' ∷ [])) (stat_lines xs),
        append_assoc p (b'\n' ∷ []) (stat_lines xs),
      )
      (ap (λ t. n ++ (b'=' ∷ (p ++ (b'\n' ∷ t)))) (stat_lines-print_items xs))

IsText-decimal : (s : Bytes) → All IsDecimal s → All IsText s
IsText-decimal [] h = tt
IsText-decimal (c ∷ s) h = (omega arith, IsText-decimal s h.1)

StartsDark-decimal : (s : Bytes) → All IsDecimal s → StartsDark s
StartsDark-decimal [] h = tt
StartsDark-decimal (c ∷ s) h = ground arith

EndsDark-decimal : (s : Bytes) → All IsDecimal s → EndsDark s
EndsDark-decimal [] h = tt
EndsDark-decimal (c ∷ []) h = ground arith
EndsDark-decimal (c ∷ d ∷ s) h = EndsDark-decimal (d ∷ s) h.1

-- `_` or a lower case letter
abbrev IsLetter : ℕ → Type 0
IsLetter c = (95 ≤ c) × (c ≤ 122)

IsText-letter : (s : Bytes) → All IsLetter s → All IsText s × All (λ c. c ≢ b'=') s
IsText-letter [] h = (tt, tt)
IsText-letter (c ∷ s) h = let (a, b) = IsText-letter s h.1 in ((omega arith, a), (omega arith, b))

EndsDark-letter : (s : Bytes) → All IsLetter s → EndsDark s
EndsDark-letter [] h = tt
EndsDark-letter (c ∷ []) h = ground arith
EndsDark-letter (c ∷ d ∷ s) h = EndsDark-letter (d ∷ s) h.1

-- a name of letters with a counter
field-IsPrintable :
    (c : ℕ) (s : Bytes) (n : ℕ)
    → All IsLetter (c ∷ s)
    → length (c ∷ s) ≤ 64
    → IsWord n
    → IsPrintable (field (c ∷ s, n))
field-IsPrintable c s n h fits w =
    let z = to_int (pos n) in
    let d = All-print_int z in
    record {
      name_text = (IsText-letter (c ∷ s) h).0;
      name_part = (IsText-letter (c ∷ s) h).1;
      named = ground arith;
      name_starts = ground arith;
      name_ends = EndsDark-letter (c ∷ s) h;
      name_fits = fits;
      value_text = IsText-decimal (print_int z) d;
      value_starts = StartsDark-decimal (print_int z) d;
      value_ends = EndsDark-decimal (print_int z) d;
      value_fits = omega (arith, length-print_int z (IsInt-to_int n w));
    }

abbrev pub fields : StorageStat → List Item
fields s = map field (stat_items s)

abbrev IsName : Bytes → Type 0
IsName [] = ⊥
IsName (c ∷ s) = All IsLetter (c ∷ s) × (length (c ∷ s) ≤ 64)

All-IsPrintable :
    (xs : List (Bytes × ℕ))
    → All (λ x. IsName x.0) xs
    → All (λ x. IsWord x.1) xs
    → All IsPrintable (map field xs)
All-IsPrintable [] h w = tt
All-IsPrintable (([], n) ∷ xs) h w = absurd h.0
All-IsPrintable ((c ∷ s, n) ∷ xs) h w =
    (field-IsPrintable c s n h.0.0 h.0.1 w.0, All-IsPrintable xs h.1 w.1)

stat_items-IsName : (s : StorageStat) → All (λ x. IsName x.0) (stat_items s)
stat_items-IsName s = omega arith

fields-IsPrintable : (s : StorageStat) → AreWords s → All IsPrintable (fields s)
fields-IsPrintable s h = All-IsPrintable (stat_items s) (stat_items-IsName s) h

-- the file's text is read as the twelve counters
pub items_of_text-stat_lines :
    (s : StorageStat) → AreWords s → items_of_text (stat_lines (stat_items s)) ≡ fields s
items_of_text-stat_lines s h =
    ap items_of_text (stat_lines-print_items (stat_items s))
    ∙ items_of_text-print_items (fields s) (fields-IsPrintable s h)

-- where the lookup of a counter arrives
counter-print_int :
    (name : Bytes) (items : List Item) (n : ℕ)
    → IsWord n
    → get_str_value name items ≡ some (print_int (to_int (pos n)))
    → counter name items ≡ n
unfolding get_int_value
counter-print_int name items n w e =
    rw e (ap word (atoi-print_int (to_int (pos n)) (IsInt-to_int n w)) ∙ word-to_int n w)

abbrev pub sorted_fields : StorageStat → List Item
sorted_fields s = qsort (at_most by_item_name) (fields s)

-- each counter is found under its name
pub stat_of_items-sorted_fields :
    (s : StorageStat) → AreWords s → stat_of_items (sorted_fields s) ≡ s
unfolding get_str_value qsort insert_by bsearch bsearch_loop strcmp
stat_of_items-sorted_fields s h = λ i. record {
  total_upload_count =
      counter-print_int (codes "total_upload_count") (sorted_fields s) _ h.0 refl i;
  success_upload_count =
      counter-print_int (codes "success_upload_count") (sorted_fields s) _ h.1.0 refl i;
  total_set_meta_count =
      counter-print_int (codes "total_set_meta_count") (sorted_fields s) _ h.1.1.1.1.1.1.0 refl i;
  success_set_meta_count =
      counter-print_int (codes "success_set_meta_count") (sorted_fields s) _ h.1.1.1.1.1.1.1.0 refl
        i;
  total_delete_count =
      counter-print_int (codes "total_delete_count") (sorted_fields s) _ h.1.1.1.1.1.1.1.1.0 refl i;
  success_delete_count =
      counter-print_int (codes "success_delete_count") (sorted_fields s) _ h.1.1.1.1.1.1.1.1.1.0
        refl i;
  total_download_count =
      counter-print_int (codes "total_download_count") (sorted_fields s) _ h.1.1.0 refl i;
  success_download_count =
      counter-print_int (codes "success_download_count") (sorted_fields s) _ h.1.1.1.0 refl i;
  total_get_meta_count =
      counter-print_int (codes "total_get_meta_count") (sorted_fields s) _ h.1.1.1.1.1.1.1.1.1.1.0
        refl i;
  success_get_meta_count =
      counter-print_int (codes "success_get_meta_count") (sorted_fields s) _
        h.1.1.1.1.1.1.1.1.1.1.1.0 refl i;
  last_source_update =
      counter-print_int (codes "last_source_update") (sorted_fields s) _ h.1.1.1.1.0 refl i;
  last_sync_update =
      counter-print_int (codes "last_sync_update") (sorted_fields s) _ h.1.1.1.1.1.0 refl i;
}
