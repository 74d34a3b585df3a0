-- ===== src/Metadata.antt =====
-- The metadata of tracker_proto.c, and its use in storage_service.c.
pub mod RoundTrip
use demostroage.Prelude.{
  ℕ, ◌+◌, ◌-◌, Bool, Option, none, some, List, [], ◌∷◌, ◌++◌, not, is_pos, ◌==◌, if◌then◌else◌,
  Bytes, length, take, drop,
}
use demostroage.Libc.{cstr, strchr, strcmp, truncated}
use demostroage.Libc.Sort.{qsort}
use demostroage.Shared.{occur_count, split_ex, before}

-- `FDFS_RECORD_SEPERATOR`, `FDFS_FIELD_SEPERATOR` and the limits of tracker_types.h
abbrev pub record_separator : ℕ
record_separator = 1

abbrev pub field_separator : ℕ
field_separator = 2

abbrev pub max_name_len : ℕ
max_name_len = 64

abbrev pub max_value_len : ℕ
max_value_len = 256

-- `FDFSMetaData`
pub record MetaData : Type 0 where
  pub name : Bytes
  pub value : Bytes

-- the body of the loop over the rows: a row without a separator is passed over
unfoldable pub split_row : Bytes → ℕ → Option MetaData
split_row row field_sep = elim (strchr field_sep row) [
  | none ↦ none
  | some q ↦ some (record {
    name = truncated max_name_len (before row q);
    value = truncated max_value_len (drop 1 q);
  })
]

abbrev cons_row : Option MetaData → List MetaData → List MetaData
cons_row none ms = ms
cons_row (some m) ms = m ∷ ms

unfoldable pub split_rows : List Bytes → ℕ → List MetaData
unfolding split_row
split_rows [] field_sep = []
split_rows (row ∷ rows) field_sep = cons_row (split_row row field_sep) (split_rows rows field_sep)

-- with the number of the separators between the records
unfoldable pub split_counted : Bytes → ℕ → ℕ → Option ℕ → Option (List MetaData)
unfolding split_rows
split_counted buff record_sep field_sep none = none
split_counted buff record_sep field_sep (some n) =
    some (split_rows (split_ex buff record_sep (n + 1)) field_sep)

-- `fdfs_split_metadata_ex`; `none` where `getOccurCount` reads beyond the buffer
unfoldable pub split_metadata_ex : Bytes → ℕ → ℕ → Option (List MetaData)
unfolding split_counted
split_metadata_ex buff record_sep field_sep =
    split_counted buff record_sep field_sep (occur_count buff record_sep)

-- `fdfs_split_metadata`
abbrev pub split_metadata : Bytes → Option (List MetaData)
split_metadata buff = split_metadata_ex buff record_separator field_separator

-- the loop of `fdfs_pack_metadata`
unfoldable pub pack_loop : List MetaData → Bytes
pack_loop [] = []
pack_loop (m ∷ ms) = m.name ++ (field_separator ∷ (m.value ++ (record_separator ∷ pack_loop ms)))

-- `fdfs_pack_metadata`: with no item the last separator is looked for before the buffer
unfoldable pub pack_metadata : List MetaData → Option Bytes
unfolding pack_loop
pack_metadata [] = none
pack_metadata (m ∷ ms) = let out = pack_loop (m ∷ ms) in some (take (length out - 1) out)

-- `metadata_cmp_by_name(a, b) <= 0`
abbrev pub name_le : MetaData → MetaData → Bool
name_le a b = not (is_pos (strcmp a.name b.name))

-- what `splitEx` leaves in the buffer: the separators before the first NUL are NULs
unfoldable pub cut_records : Bytes → Bytes
cut_records [] = []
cut_records (c ∷ s) =
    if c == 0 then c ∷ s else (if c == record_separator then 0 else c) ∷ cut_records s

abbrev pack_sorted : Option (List MetaData) → Option Bytes
unfolding qsort pack_metadata
pack_sorted none = none
pack_sorted (some items) = pack_metadata (qsort name_le items)

-- the items of a buffer in the order of their names, packed
unfoldable pub sorted_pack : Bytes → Option Bytes
unfolding split_metadata_ex pack_sorted cstr
sorted_pack buff = pack_sorted (split_metadata (cstr buff))

-- the `meta_size` bytes of the buffer after `storage_sort_metadata_buff` has packed into it
abbrev pub sorted_buff : Bytes → Bytes → Bytes
sorted_buff buff packed =
    take (length buff) (packed ++ (0 ∷ drop (length packed + 1) (cut_records buff)))
