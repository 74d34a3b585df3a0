-- ===== src/Metadata/RoundTrip.antt =====
-- Metadata that was packed is split into the same items.
use demostroage.Prelude.{
  ℕ, zero, suc, ◌+◌, ◌-◌, ◌≤◌, ◌<◌, ◌≡◌, refl, sym, ap, ◌∙◌, some, List, [], ◌∷◌, ◌++◌,
  append_assoc, map, inl, inr, Bool-cases, arith, Bytes, All, ◌==◌, length, length-append, take,
  take-append,
}
use demostroage.Libc.{strchr, truncated}
use demostroage.Shared.{split_loop, split_ex}
use demostroage.Shared.Split.{count, join, count-append, drop-append_length, occur_count-count}
use demostroage.Metadata.{
  MetaData, split_row, split_rows, split_metadata, split_metadata_ex, split_counted, pack_loop,
  pack_metadata,
}

-- An item that can be packed: its name holds no separator, its value no record separator, and
-- both fit.
pub record IsItem (m : MetaData) : Type 0 where
  pub name_record : count 1 m.name ≡ 0
  pub name_field : count 2 m.name ≡ 0
  pub value_record : count 1 m.value ≡ 0
  pub name_fits : length m.name ≤ 64
  pub value_fits : length m.value ≤ 256

-- the row of an item
abbrev row : MetaData → Bytes
row m = m.name ++ (2 ∷ m.value)

strchr_clean :
    (sep : ℕ) (c r : Bytes) → count sep c ≡ 0 → strchr sep (c ++ sep ∷ r) ≡ some (sep ∷ r)
unfolding strchr
strchr_clean sep [] r h = ground arith
strchr_clean sep (x ∷ c) r h = elim (Bool-cases (x == sep)) [
  | inl hit ↦ absurd (ground arith)
  | inr miss ↦ rw miss (strchr_clean sep c r (ground arith))
]

module _ (sep : ℕ) where
  abbrev Clean : Bytes → Type 0
  Clean c = count sep c ≡ 0

  split_loop-join :
      (c : Bytes) (cols : List Bytes)
      → All Clean (c ∷ cols)
      → split_loop (length cols) sep (join sep (c ∷ cols)) ≡ c ∷ cols
  unfolding split_loop
  split_loop-join c [] h = refl
  split_loop-join c (d ∷ cols) h =
      rw
        (
          strchr_clean sep c (join sep (d ∷ cols)) h.0,
          split_loop,
          drop-append_length c (sep ∷ join sep (d ∷ cols)),
        )
        (ap (◌∷◌ c) (split_loop-join d cols h.1))

  count-join :
      (c : Bytes) (cols : List Bytes)
      → All Clean (c ∷ cols)
      → count sep (join sep (c ∷ cols)) ≡ length cols
  count-join c [] h = h.0
  count-join c (d ∷ cols) h =
      count-append sep c (sep ∷ join sep (d ∷ cols)) ∙ ground (arith, h.0, count-join d cols h.1)

  -- the rows of a text are found again
  split_ex-join :
      (c : Bytes) (cols : List Bytes)
      → All Clean (c ∷ cols)
      → split_ex (join sep (c ∷ cols)) sep (length cols + 1) ≡ c ∷ cols
  unfolding split_ex
  split_ex-join c cols h =
      ap (split_ex (join sep (c ∷ cols)) sep) {y = suc (length cols)} (omega arith)
      ∙ split_loop-join c cols h

  split_counted-join :
      (field_sep : ℕ) (c : Bytes) (cols : List Bytes)
      → 0 < sep
      → All Clean (c ∷ cols)
      → split_metadata_ex (join sep (c ∷ cols)) sep field_sep
        ≡ some (split_rows (c ∷ cols) field_sep)
  unfolding split_metadata_ex split_counted
  split_counted-join field_sep c cols some_sep h =
      rw (occur_count-count (join sep (c ∷ cols)) sep some_sep, count-join c cols h)
        (ap (λ r. some (split_rows r field_sep)) (split_ex-join c cols h))

truncated_all : (n : ℕ) (s : Bytes) → length s ≤ n → truncated n s ≡ s
truncated_all zero [] h = refl
truncated_all zero (c ∷ s) h = absurd (omega arith)
truncated_all (suc n) [] h = refl
truncated_all (suc n) (c ∷ s) h = ap (◌∷◌ c) (truncated_all n s (omega arith))

split_row-row : (m : MetaData) → IsItem m → split_row (row m) 2 ≡ some m
unfolding split_row
split_row-row m i = rw (
  strchr_clean 2 m.name m.value i.name_field,
  split_row,
  drop-append_length m.name (2 ∷ m.value),
  truncated_all 64 m.name i.name_fits,
  truncated_all 256 m.value i.value_fits,
)

split_rows-map : (ms : List MetaData) → All IsItem ms → split_rows (map row ms) 2 ≡ ms
unfolding split_rows
split_rows-map [] h = refl
split_rows-map (m ∷ ms) h = rw (split_row-row m h.0) (ap (◌∷◌ m) (split_rows-map ms h.1))

rows_clean : (ms : List MetaData) → All IsItem ms → All (λ c. count 1 c ≡ 0) (map row ms)
rows_clean [] h = tt
rows_clean (m ∷ ms) h = (
  count-append 1 m.name (2 ∷ m.value) ∙ omega (arith, h.0.name_record, h.0.value_record),
  rows_clean ms h.1,
)

pack_loop-join :
    (m : MetaData) (ms : List MetaData) → pack_loop (m ∷ ms) ≡ join 1 (map row (m ∷ ms)) ++ (1 ∷ [])
unfolding pack_loop
pack_loop-join m [] = sym (append_assoc m.name (2 ∷ m.value) (1 ∷ []))
pack_loop-join m (n ∷ ms) =
    sym (append_assoc m.name (2 ∷ m.value) (1 ∷ pack_loop (n ∷ ms)))
    ∙ ap (λ t. row m ++ (1 ∷ t)) (pack_loop-join n ms)
    ∙ sym (append_assoc (row m) (1 ∷ join 1 (map row (n ∷ ms))) (1 ∷ []))

packed_rows :
    (m : MetaData) (ms : List MetaData)
    → take (length (pack_loop (m ∷ ms)) - 1) (pack_loop (m ∷ ms)) ≡ join 1 (map row (m ∷ ms))
packed_rows m ms =
    let rows = join 1 (map row (m ∷ ms)) in
    ap (λ s. take (length s - 1) s) (pack_loop-join m ms)
    ∙ take-append rows (1 ∷ []) (length (rows ++ (1 ∷ [])) - 1)
        (omega (arith, length-append rows (1 ∷ [])))

-- Packing one or more items succeeds, and the text is split into the same items, in their order.
-- No name holds a separator, no value a record separator, and names have at most 64 bytes and
-- values 256.
pub pack_metadata-split_metadata :
    (m : MetaData) (ms : List MetaData)
    → All IsItem (m ∷ ms)
    → (s : Bytes) × (pack_metadata (m ∷ ms) ≡ some s) × (split_metadata s ≡ some (m ∷ ms))
unfolding pack_metadata
pack_metadata-split_metadata m ms h =
    let rows = join 1 (map row (m ∷ ms)) in
    (
      rows,
      ap some (packed_rows m ms),
      split_counted-join 1 2 (row m) (map row ms) (omega arith) (rows_clean (m ∷ ms) h)
          ∙ ap some (split_rows-map (m ∷ ms) h),
    )
