-- ===== src/Ini/Loading.antt =====
-- `iniLoadItems` on a system whose calls go through: the items of the file's lines, sorted.
use demostroage.Prelude.{
  ℕ, zero, suc, ◌-◌, ◌≤◌, ◌<◌, ◌≡◌, refl, ap, Bool-cases, Option-cases, inl, inr, Option, none,
  some, List, [], ◌∷◌, ◌++◌, append_assoc, append-nil, arith, Bytes, length, leb,
}
use demostroage.Libc.Sort.{qsort}
use demostroage.Libc.Order.{at_most}
use demostroage.Runtime.{World, ok, Cmd}
use demostroage.Runtime.Runs.{
  Runs, Runs-pure, Runs-gets, Runs-bind, Runs-block, Runs-if_true, Runs-if_false, Runs-some,
  Runs-none,
}
use demostroage.Posix.{lookup, is_some}
use demostroage.Posix.Calm.{Calm, Runs-attempt, Runs-guard}
use demostroage.Ini.{
  Item, by_item_name, line_buffer_size, fgets, item_of_line, Loaded, loaded, add_item, load_round,
  load_loop, load_items, fopen_text,
}

abbrev pub to_list : Option Item → List Item
to_list none = []
to_list (some x) = x ∷ []

-- the items of the lines of a text
unfoldable pub text_items : ℕ → Bytes → List Item
text_items zero s = []
text_items (suc fuel) [] = []
text_items (suc fuel) (c ∷ s) =
    let (line, rest) = fgets (line_buffer_size - 1) (c ∷ s) in
    to_list (item_of_line line) ++ text_items fuel rest

pub text_items-nil : (fuel : ℕ) → text_items fuel [] ≡ []
unfolding text_items
text_items-nil zero = refl
text_items-nil (suc fuel) = refl

pub text_items-fgets :
    (fuel c : ℕ) (s line rest : Bytes)
    → fgets (line_buffer_size - 1) (c ∷ s) ≡ (line, rest)
    → text_items (suc fuel) (c ∷ s) ≡ to_list (item_of_line line) ++ text_items fuel rest
unfolding text_items
text_items-fgets fuel c s line rest h =
    ap (λ t. to_list (item_of_line t.0) ++ text_items fuel t.1) h

-- a round takes at least a byte
fgets-shorter : (n : ℕ) (s : Bytes) → length (fgets n s).1 ≤ length s
unfolding fgets
fgets-shorter zero s = omega arith
fgets-shorter (suc n) [] = omega arith
fgets-shorter (suc n) (c ∷ s) = ground (arith, fgets-shorter n s)

pub fgets-lt : (n c : ℕ) (s : Bytes) → length (fgets (suc n) (c ∷ s)).1 < suc (length s)
unfolding fgets
fgets-lt n c s = ground (arith, fgets-shorter n s)

module _ (w : World) (calm : Calm w) where
  Runs-add_item :
      (again : List Item → ℕ → Cmd Loaded) (items : List Item) (alloc : ℕ) (x : Item) (r : Loaded)
      → ((a : ℕ) → Runs (again (items ++ x ∷ []) a) w (ok r w))
      → Runs (add_item again items alloc x) w (ok r w)
  unfolding add_item
  Runs-add_item again items alloc x r next = elim (Bool-cases (leb alloc (length items))) [
    | inl full ↦ Runs-if_true _ _ w full (Runs-bind _ _ w (Runs-attempt w calm) (next _))
    | inr room ↦ Runs-if_false _ _ w room (next _)
  ]

  -- the loop adds the items of what is left to those it has
  Runs-load_loop :
      (fuel : ℕ) (s : Bytes) (items : List Item) (alloc : ℕ)
      → length s < fuel
      → Runs (load_loop fuel s items alloc) w (ok (loaded (items ++ text_items fuel s)) w)
  unfolding load_loop load_round text_items
  Runs-load_loop zero s items alloc h = absurd (omega arith)
  Runs-load_loop (suc fuel) [] items alloc h = rw (append-nil items) (Runs-pure _ w)
  Runs-load_loop (suc fuel) (c ∷ s) items alloc h =
      let line = (fgets 511 (c ∷ s)).0 in
      let rest = (fgets 511 (c ∷ s)).1 in
      let less : length rest < fuel = omega (arith, fgets-lt 510 c s) in
      Runs-bind _ _ w (Runs-attempt w calm) (elim (Option-cases (item_of_line line)) [
        | inl skipped ↦
            Runs-none _ _ w skipped (rw skipped (Runs-load_loop fuel rest items alloc less))
        | inr (x, found) ↦ Runs-some _ _ w found (
            rw (found, ← append_assoc items (x ∷ []) (text_items fuel rest))
              (Runs-add_item (load_loop fuel rest) items alloc x _
                (λ a. Runs-load_loop fuel rest (items ++ x ∷ []) a less)))
      ])

Runs-fopen_text :
    (p : Bytes) (w : World) {s : Bytes}
    → Calm w
    → lookup p w.files ≡ some s
    → Runs (fopen_text p) w (ok (some s) w)
unfolding fopen_text
Runs-fopen_text p w calm found = Runs-bind _ _ w (Runs-attempt w calm) (
    Runs-bind _ _ w (Runs-gets _ w) (
      Runs-bind _ _ w (Runs-gets _ w)
        (Runs-if_true _ _ w (ap is_some found) (rw found (Runs-pure _ w)))))

-- the items of a file's text; each line has a byte, so that this is fuel enough
abbrev pub items_of_text : Bytes → List Item
items_of_text s = text_items (suc (length s)) s

-- On a system where no call fails, `iniLoadItems` of a file gives the items of all its lines,
-- sorted by name, and changes nothing.
pub load_items-items_of_text :
    (filename : Bytes) (w : World) {content : Bytes}
    → Calm w
    → lookup filename w.files ≡ some content
    → Runs
        (load_items filename)
        w
        (ok (loaded (qsort (at_most by_item_name) (items_of_text content))) w)
unfolding load_items
load_items-items_of_text filename w {content} calm found = Runs-block _ _ w (
    Runs-bind _ _ w (Runs-attempt w calm) (
      Runs-bind _ _ w (Runs-guard _ w refl) (
        Runs-bind _ _ w (Runs-fopen_text filename w calm found) (
          Runs-some _ _ w refl (
            Runs-bind _ _ w
              (Runs-load_loop w calm (suc (length content)) content [] _ (omega arith))
              (Runs-bind _ _ w (Runs-attempt w calm) (Runs-pure _ w)))))))
