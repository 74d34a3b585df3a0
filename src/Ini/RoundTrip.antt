-- ===== src/Ini/RoundTrip.antt =====
-- Lines `name=value` are read back by `iniLoadItems` as the items that they were printed from.
use demostroage.Prelude.{
  ℕ, zero, suc, ◌-◌, ◌≤◌, ◌<◌, ◌≡◌, ◌≢◌, refl, ap, ◌∙◌, false, some, List, [], ◌∷◌, ◌++◌, arith,
  Bytes, length, length-append, take-append, All, All-append,
}
use demostroage.Libc.{cstr, strchr, truncated}
use demostroage.Shared.{trim, before}
use demostroage.Shared.Trim.{StartsDark, EndsDark}
use demostroage.Shared.Trimmed.{trim-dark, trim-newline}
use demostroage.Ini.{
  Item, item_name_len, item_value_len, line_buffer_size, is_skipped, item_at, fgets, item_of_line,
}
use demostroage.Ini.Loading.{to_list, text_items, items_of_text, text_items-nil, text_items-fgets}

-- bytes that end neither a line nor a string
abbrev pub IsText : ℕ → Type 0
IsText c = (c ≢ 0) × (c ≢ b'\n')

-- a name and a value that a line of the file can hold
pub record IsPrintable (x : Item) : Type 0 where
  pub name_text : All IsText x.name
  pub name_part : All (λ c. c ≢ b'=') x.name
  pub named : is_skipped x.name ≡ false
  pub name_starts : StartsDark x.name
  pub name_ends : EndsDark x.name
  pub name_fits : length x.name ≤ item_name_len
  pub value_text : All IsText x.value
  pub value_starts : StartsDark x.value
  pub value_ends : EndsDark x.value
  pub value_fits : length x.value ≤ item_value_len

-- `fprintf(fp, "%s=%s\n", name, value)`
abbrev pub print_item : Item → Bytes
print_item x = x.name ++ (b'=' ∷ x.value)

unfoldable pub print_items : List Item → Bytes
print_items [] = []
print_items (x ∷ xs) = print_item x ++ (b'\n' ∷ print_items xs)

pub fgets-line :
    (s rest : Bytes) (n : ℕ)
    → All IsText s
    → length s < n
    → fgets n (s ++ (b'\n' ∷ rest)) ≡ (s ++ b'\n' ∷ [], rest)
unfolding fgets
fgets-line [] rest zero h lt = absurd (omega arith)
fgets-line [] rest (suc n) h lt = refl
fgets-line (c ∷ s) rest zero h lt = absurd (omega arith)
fgets-line (c ∷ s) rest (suc n) h lt = ground (arith, fgets-line s rest n h.1)

cstr-line : (s : Bytes) → All IsText s → cstr (s ++ b'\n' ∷ []) ≡ s ++ b'\n' ∷ []
unfolding cstr
cstr-line [] h = refl
cstr-line (c ∷ s) h = ground (arith, cstr-line s h.1)

strchr-name :
    (s rest : Bytes) → All (λ c. c ≢ b'=') s → strchr b'=' (s ++ (b'=' ∷ rest)) ≡ some (b'=' ∷ rest)
unfolding strchr
strchr-name [] rest h = refl
strchr-name (c ∷ s) rest h = ground (arith, strchr-name s rest h.1)

before-append : (s t : Bytes) → before (s ++ t) t ≡ s
before-append s t = take-append s t _ (omega (arith, length-append s t))

pub truncated_fits : (n : ℕ) (s : Bytes) → length s ≤ n → truncated n s ≡ s
truncated_fits zero [] h = refl
truncated_fits zero (c ∷ s) h = absurd (omega arith)
truncated_fits (suc n) [] h = refl
truncated_fits (suc n) (c ∷ s) h = ap (◌∷◌ c) (truncated_fits n s (omega arith))

EndsDark-value : (v : Bytes) → EndsDark v → EndsDark (b'=' ∷ v)
EndsDark-value [] h = refl
EndsDark-value (c ∷ v) h = h

EndsDark-field : (c : ℕ) (s v : Bytes) → EndsDark v → EndsDark (c ∷ s ++ (b'=' ∷ v))
EndsDark-field c [] v h = EndsDark-value v h
EndsDark-field c (d ∷ s) v h = EndsDark-field d s v h

item_at-field :
    (n v : Bytes)
    → All (λ c. c ≢ b'=') n
    → StartsDark n
    → EndsDark n
    → StartsDark v
    → EndsDark v
    → length n ≤ item_name_len
    → length v ≤ item_value_len
    → item_at (n ++ (b'=' ∷ v)) (strchr b'=' (n ++ (b'=' ∷ v)))
      ≡ some (record { name = n; value = v })
item_at-field n v part ns ne vs ve nf vf =
    ap (item_at (n ++ (b'=' ∷ v))) (strchr-name n v part)
    ∙ ap (λ m. some (record { name = m; value = trim (truncated item_value_len v) }))
        (ap (λ t. trim (truncated item_name_len t)) (before-append n (b'=' ∷ v))
          ∙ ap trim (truncated_fits item_name_len n nf)
          ∙ trim-dark n ns ne)
    ∙ ap (λ m. some (record { name = n; value = m }))
        (ap trim (truncated_fits item_value_len v vf) ∙ trim-dark v vs ve)

IsText-field : (n v : Bytes) → All IsText n → All IsText v → All IsText (n ++ (b'=' ∷ v))
IsText-field n v h k = All-append IsText n (b'=' ∷ v) h (omega arith, k)

is_skipped-append :
    (c : ℕ) (s t : Bytes) → is_skipped (c ∷ s) ≡ false → is_skipped (c ∷ s ++ t) ≡ false
is_skipped-append c s t h = h

-- one line
item_of_line-field :
    (n v : Bytes)
    → IsPrintable (record { name = n; value = v })
    → item_of_line (n ++ (b'=' ∷ v) ++ b'\n' ∷ []) ≡ some (record { name = n; value = v })
unfolding item_of_line
item_of_line-field [] v p = let named = p.named in cc
item_of_line-field (c ∷ s) v p =
    let line = c ∷ s ++ (b'=' ∷ v) in
    let text = IsText-field (c ∷ s) v p.name_text p.value_text in
    let trimmed : trim (cstr (line ++ b'\n' ∷ [])) ≡ line =
      ap trim (cstr-line line text)
      ∙ trim-newline c (s ++ (b'=' ∷ v)) p.name_starts (EndsDark-field c s v p.value_ends) in
    rw (trimmed, p.named)
      (item_at-field (c ∷ s) v p.name_part p.name_starts p.name_ends p.value_starts p.value_ends
        p.name_fits p.value_fits)

length-field : (x : Item) → IsPrintable x → length (print_item x) < 511
length-field x p = omega (arith, p.name_fits, p.value_fits, length-append x.name (b'=' ∷ x.value))

-- a line in front of more text
text_items-line :
    (fuel : ℕ) (n v rest : Bytes)
    → IsPrintable (record { name = n; value = v })
    → text_items (suc fuel) ((n ++ (b'=' ∷ v)) ++ (b'\n' ∷ rest))
      ≡ record { name = n; value = v } ∷ text_items fuel rest
text_items-line fuel [] v rest p = let named = p.named in cc
text_items-line fuel (c ∷ s) v rest p =
    let line = c ∷ s ++ (b'=' ∷ v) in
    let text = IsText-field (c ∷ s) v p.name_text p.value_text in
    text_items-fgets fuel c (s ++ (b'=' ∷ v) ++ (b'\n' ∷ rest)) (line ++ b'\n' ∷ []) rest
      (fgets-line line rest (line_buffer_size - 1) text (length-field _ p))
    ∙ ap (λ o. to_list o ++ text_items fuel rest) (item_of_line-field (c ∷ s) v p)

text_items-print_items :
    (fuel : ℕ) (xs : List Item)
    → All IsPrintable xs
    → length (print_items xs) < fuel
    → text_items fuel (print_items xs) ≡ xs
unfolding print_items
text_items-print_items zero xs h lt = absurd (omega arith)
text_items-print_items (suc fuel) [] h lt = text_items-nil (suc fuel)
text_items-print_items (suc fuel) (x ∷ xs) h lt =
    let e = length-append (print_item x) (b'\n' ∷ print_items xs) in
    text_items-line fuel x.name x.value (print_items xs) h.0
    ∙ ap (◌∷◌ x) (text_items-print_items fuel xs h.1 (omega arith))

-- The items of a text of lines `name=value` are the names and values that were printed, where
-- names and values have no blanks at their ends, no NUL and no newline, names no `=` and no `#` in
-- front, and both fit.
pub items_of_text-print_items :
    (xs : List Item) → All IsPrintable xs → items_of_text (print_items xs) ≡ xs
items_of_text-print_items xs h = text_items-print_items _ xs h (omega arith)
