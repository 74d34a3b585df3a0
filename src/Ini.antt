-- ===== src/Ini.antt =====
-- ini_file_reader.c: reading a configuration file into an array sorted by name, and looking a
-- name up in it. Strings are C strings; `none` is NULL.
pub mod Loading
pub mod Lookup
pub mod RoundTrip
pub mod Named
pub mod Values
use mathlib.Core.List.{reverse}
use demostroage.Prelude.{
  ℕ, zero, suc, ◌+◌, ◌-◌, Bool, true, false, ◌&&◌, ◌||◌, Option, none, some, List, [], ◌∷◌, ◌++◌,
  map, ltb, leb, ◌==◌, if◌then◌else◌, Bytes, ℤ, pos, eqb, length, take, drop,
}
use demostroage.Libc.{cstr, strchr, strcmp, atoi, truncated}
use demostroage.Libc.Order.{Comparison, compare_by, by_string, at_most, against}
use demostroage.Libc.Sort.{get?, qsort, bsearch}
use demostroage.Shared.{trim, before}
use demostroage.Runtime.{
  Cmd, pure, undefined, exhausted, gets, case_option, leave, block, ◌>>=◌, ◌>>◌,
}
use demostroage.Posix.{
  codes, enomem, attempt, errno_or, enoent, set_errno, lookup, is_dir_path, guard, is_some,
}

-- `INI_ITEM_NAME_LEN` and `INI_ITEM_VALUE_LEN`
abbrev pub item_name_len : ℕ
item_name_len = 64

abbrev pub item_value_len : ℕ
item_value_len = 128

-- `_LINE_BUFFER_SIZE` and `_ALLOC_ITEMS_ONCE`
abbrev pub line_buffer_size : ℕ
line_buffer_size = 512

abbrev pub alloc_items_once : ℕ
alloc_items_once = 8

-- `IniItemInfo`
pub record Item : Type 0 where
  pub name : Bytes
  pub value : Bytes

-- `compareByItemName`
abbrev pub by_item_name : Comparison Item
by_item_name = compare_by (λ x. x.name) by_string

-- the key that is searched: of the name as much as the array holds
abbrev pub target_item : Bytes → Item
target_item name = record { name = truncated item_name_len name; value = [] }

abbrev pub value_of : Option Item → Option Bytes
value_of none = none
value_of (some x) = some x.value

abbrev pub value_at : List Item → Option ℕ → Option Bytes
value_at items none = none
value_at items (some i) = value_of (get? items i)

-- `iniGetStrValue`
unfoldable pub get_str_value : Bytes → List Item → Option Bytes
get_str_value name [] = none
get_str_value name (x ∷ items) =
    value_at (x ∷ items) (bsearch (against by_item_name (target_item name)) (x ∷ items))

abbrev int_or : ℤ → Option Bytes → ℤ
int_or default none = default
int_or default (some v) = atoi v

-- `iniGetIntValue`
unfoldable pub get_int_value : Bytes → List Item → ℤ → ℤ
unfolding get_str_value
get_int_value name items default = int_or default (get_str_value name items)

abbrev to_lower : ℕ → ℕ
to_lower c = if leb b'A' c && leb c b'Z' then c + 32 else c

-- `strcasecmp(a, b) == 0`
abbrev same_letters : Bytes → Bytes → Bool
same_letters a b = eqb (map to_lower a) (map to_lower b)

abbrev is_yes : Option Bytes → Bool
is_yes none = false
is_yes (some v) =
    same_letters v (codes "true")
    || same_letters v (codes "yes")
    || same_letters v (codes "on")
    || eqb v (codes "1")

-- `iniGetBoolValue`
unfoldable pub get_bool_value : Bytes → List Item → Bool
unfolding get_str_value
get_bool_value name items = is_yes (get_str_value name items)

-- one of the loops of `iniGetValues`: the values of the items up to the first with another name,
-- as far as there is room; the name is compared in full here
unfoldable pub neighbours : ℕ → Bytes → List Item → List Bytes
neighbours room name [] = []
neighbours zero name (x ∷ xs) = []
neighbours (suc room) name (x ∷ xs) =
    if eqb x.name name then x.value ∷ neighbours room name xs else []

-- the value found, those of the items in front of it, backwards, and those of the items behind it
unfoldable pub values_from : ℕ → Bytes → List Item → ℕ → Option Item → List Bytes
values_from room name items i none = []
values_from room name items i (some x) =
    let front = neighbours room name (reverse (take i items)) in
    x.value ∷ (front ++ neighbours (room - length front) name (drop (suc i) items))

abbrev pub values_at : ℕ → Bytes → List Item → Option ℕ → List Bytes
values_at room name items none = []
values_at room name items (some i) = values_from room name items i (get? items i)

-- `iniGetValues`
unfoldable pub get_values : Bytes → List Item → ℕ → List Bytes
unfolding values_from
get_values name [] max_values = []
get_values name (x ∷ items) zero = []
get_values name (x ∷ items) (suc room) =
    values_at room name (x ∷ items) (bsearch (against by_item_name (target_item name)) (x ∷ items))

-- what `fgets` takes with room for `n` bytes, and what it leaves
unfoldable pub fgets : ℕ → Bytes → Bytes × Bytes
fgets zero s = ([], s)
fgets (suc n) [] = ([], [])
fgets (suc n) (c ∷ s) =
    if c == b'\n' then (c ∷ [], s) else (let (line, rest) = fgets n s in (c ∷ line, rest))

-- the item of a trimmed line, from what `strchr` found: the text on both sides of the first `=`
abbrev item_at : Bytes → Option Bytes → Option Item
item_at line none = none
item_at line (some found) = some (record {
  name = trim (truncated item_name_len (before line found));
  value = trim (truncated item_value_len (drop 1 found));
})

abbrev pub is_skipped : Bytes → Bool
is_skipped [] = true
is_skipped (c ∷ s) = c == b'#'

-- the item of a line, unless it is empty, a comment or without `=`
unfoldable pub item_of_line : Bytes → Option Item
item_of_line s =
    let line = trim (cstr s) in if is_skipped line then none else item_at line (strchr b'=' line)

-- `iniLoadItems` gives an array, or a result other than 0 with `*ppItems` NULL and `*nItemCount` -1
pub data Loaded : Type 0 where
  loaded : List Item → Loaded
  load_failed : ℕ → Loaded

-- an item that has its place in the array, of `alloc` places
unfoldable pub add_item : (List Item → ℕ → Cmd Loaded) → List Item → ℕ → Item → Cmd Loaded
add_item again items alloc x =
    if leb alloc (length items)
    then (do
      grown ← attempt
      if grown
          then again (items ++ x ∷ []) (alloc + alloc_items_once)
          else (do attempt; e ← errno_or enomem; pure (load_failed e)))
    else again (items ++ x ∷ []) alloc

-- one round of the loop, with what follows it
unfoldable pub load_round :
    (Bytes → List Item → ℕ → Cmd Loaded) → Bytes → List Item → ℕ → Cmd Loaded
load_round again [] items alloc = pure (loaded items)
load_round again (c ∷ s) items alloc = do
  through ← attempt
  let (line, rest) = fgets (line_buffer_size - 1) (c ∷ s)
  if through
      then case_option (item_of_line line) (again rest items alloc)
          (add_item (again rest) items alloc)
      else pure (loaded items)

-- the loop; more fuel than the text has bytes is enough, since each round takes a byte
unfoldable pub load_loop : ℕ → Bytes → List Item → ℕ → Cmd Loaded
load_loop zero s items alloc = exhausted
load_loop (suc fuel) s items alloc = load_round (load_loop fuel) s items alloc

abbrev sorted_items : Loaded → Loaded
sorted_items (loaded items) = loaded (qsort (at_most by_item_name) items)
sorted_items (load_failed e) = load_failed e

-- `fopen(p, "r")` with the text that can be read then; a directory opens, and nothing can be read
unfoldable pub fopen_text : Bytes → Cmd (Option Bytes)
fopen_text p = do
  through ← attempt
  found ← gets (λ w. lookup p w.files)
  dir ← gets (λ w. is_dir_path w p)
  if through
      then (if is_some found
          then pure found
          else (if dir then pure (some []) else (do set_errno enoent; pure none)))
      else pure none

-- `iniLoadItems`: where the file does not open, `fclose(NULL)`
unfoldable pub load_items : Bytes → Cmd Loaded
load_items filename = block load_failed (do
  allocated ← attempt
  guard allocated (do e ← errno_or enomem; leave e)
  found ← fopen_text filename
  case_option found undefined (λ content. do
    read ← load_loop (suc (length content)) content [] alloc_items_once
    attempt
    pure (sorted_items read)))
