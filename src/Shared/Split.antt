-- ===== src/Shared/Split.antt =====
-- Splitting and counting separators.
use demostroage.Prelude.{
  ℕ, zero, suc, ◌+◌, ◌-◌, ◌<◌, ◌≤◌, ◌≡◌, refl, sym, ap, ◌∙◌, none, some, List, [], ◌∷◌, ◌++◌, inl,
  inr, Bool-cases, Option-cases, min, arith, Bytes, All, ◌==◌, if◌then◌else◌, length, take, drop,
  take-append, length-append,
}
use demostroage.Libc.{strchr}
use demostroage.Shared.{occur_loop, occur_count, before, split_loop, split_ex}

-- how often a byte occurs
abbrev pub count : ℕ → Bytes → ℕ
count sep [] = 0
count sep (c ∷ s) = (if c == sep then 1 else 0) + count sep s

-- columns joined by a separator
abbrev pub join : ℕ → List Bytes → Bytes
join sep [] = []
join sep (c ∷ []) = c
join sep (c ∷ d ∷ cs) = c ++ (sep ∷ join sep (d ∷ cs))

module _ {ℓ} {A : Type ℓ} where
  pub drop-append_length : (xs ys : List A) → take (length (xs ++ ys) - length ys) (xs ++ ys) ≡ xs
  drop-append_length xs ys =
      take-append xs ys (length (xs ++ ys) - length ys) (omega (arith, length-append xs ys))

-- what `strchr` finds, as a split of the string
record Found (sep : ℕ) (s q : Bytes) : Type 0 where
  front : Bytes
  back : Bytes
  splits : s ≡ front ++ (sep ∷ back)
  rest : q ≡ sep ∷ back
  clean : count sep front ≡ 0

strchr-Found : (sep : ℕ) (s : Bytes) {q : Bytes} → 0 < sep → strchr sep s ≡ some q → Found sep s q
unfolding strchr
strchr-Found sep [] some_sep h = absurd (ground arith)
strchr-Found sep (c ∷ s) {q} some_sep h = elim (Bool-cases (c == sep)) [
  | inl hit ↦
      let e : c ≡ sep = ground arith in
      record { front = []; back = s; splits = ap (λ x. x ∷ s) e; rest = ground arith; clean = refl }
  | inr miss ↦
      let f = strchr-Found sep s {q = q} some_sep (rw miss at h) in
      record {
        front = c ∷ f.front;
        back = f.back;
        splits = ap (◌∷◌ c) f.splits;
        rest = f.rest;
        clean = rw miss (omega (arith, f.clean));
      }
]

strchr-none : (sep : ℕ) (s : Bytes) → strchr sep s ≡ none → count sep s ≡ 0
unfolding strchr
strchr-none sep [] h = refl
strchr-none sep (c ∷ s) h = ground (arith, strchr-none sep s)

count_self : (sep : ℕ) (s : Bytes) → count sep (sep ∷ s) ≡ suc (count sep s)
count_self sep s = ground arith

pub count-append : (sep : ℕ) (s t : Bytes) → count sep (s ++ t) ≡ count sep s + count sep t
count-append sep [] t = omega arith
count-append sep (c ∷ s) t = omega (arith, count-append sep s t)

join-cons :
    (sep : ℕ) (c : Bytes) (cols : List Bytes)
    → 0 < length cols
    → join sep (c ∷ cols) ≡ c ++ (sep ∷ join sep cols)
join-cons sep c [] h = absurd (omega arith)
join-cons sep c (d ∷ cols) h = refl

before-Found :
    {sep : ℕ} {s q : Bytes} (f : Found sep s q) → (before s q ≡ f.front) × (drop 1 q ≡ f.back)
before-Found {sep} f = rw (f.rest, f.splits) (drop-append_length f.front (sep ∷ f.back), refl)

count-Found : {sep : ℕ} {s q : Bytes} (f : Found sep s q) → count sep s ≡ suc (count sep f.back)
count-Found {sep} f =
    rw f.splits
      (omega (arith, count-append sep f.front (sep ∷ f.back), f.clean, count_self sep f.back))

length-Found :
    {sep : ℕ} {s q : Bytes} (f : Found sep s q) → length s ≡ length f.front + suc (length f.back)
length-Found {sep} f = rw f.splits (length-append f.front (sep ∷ f.back))

-- What `splitEx` gives when there is room for `suc room` columns: joined by the separator they
-- are the string, there are as many as separators and one more, if there is room, and then none
-- holds a separator.
pub record IsSplit (room sep : ℕ) (s : Bytes) (cols : List Bytes) : Type 0 where
  pub joined : join sep cols ≡ s
  pub number : length cols ≡ min (suc room) (suc (count sep s))
  pub clean : count sep s ≤ room → All (λ c. count sep c ≡ 0) cols

IsSplit-cons :
    {room sep : ℕ} {s q : Bytes} {cols : List Bytes} (f : Found sep s q)
    → IsSplit room sep f.back cols
    → IsSplit (suc room) sep s (f.front ∷ cols)
IsSplit-cons {room} {sep} {s} {cols} f i =
    let counted = count-Found f in
    record {
      joined =
          join-cons sep f.front cols (omega (arith, i.number))
          ∙ ap (λ t. f.front ++ (sep ∷ t)) i.joined
          ∙ sym f.splits;
      number = omega (arith, i.number, counted);
      clean = λ h. (f.clean, i.clean (omega (arith, counted)));
    }

split_loop-IsSplit :
    (room sep : ℕ) (s : Bytes) → 0 < sep → IsSplit room sep s (split_loop room sep s)
unfolding split_loop
split_loop-IsSplit zero sep s some_sep = record {
  joined = refl;
  number = omega arith;
  clean = λ h. (omega arith, tt);
}
split_loop-IsSplit (suc room) sep s some_sep = elim (Option-cases (strchr sep s)) [
  | inl none_left ↦
      rw (none_left, split_loop)
        (record {
          joined = refl;
          number = omega (arith, strchr-none sep s none_left);
          clean = λ h. (strchr-none sep s none_left, tt);
        })
  | inr (q, found) ↦
      let f = strchr-Found sep s {q = q} some_sep found in
      rw (found, split_loop, (before-Found f).0, (before-Found f).1)
        (IsSplit-cons f (split_loop-IsSplit room sep f.back some_sep))
]

-- `splitEx` with room for `room + 1` columns: joined by the separator its columns are the
-- string again, there are as many as the separators and one more, or as the room if that is
-- less, and no column holds a separator if all had room. The separator is not NUL.
pub split_ex-IsSplit :
    (s : Bytes) (sep room : ℕ) → 0 < sep → IsSplit room sep s (split_ex s sep (suc room))
unfolding split_ex
split_ex-IsSplit s sep room some_sep = split_loop-IsSplit room sep s some_sep

occur_loop-count :
    (fuel sep : ℕ) (s : Bytes) (acc : ℕ)
    → 0 < sep
    → length s < fuel
    → occur_loop fuel sep (strchr sep s) acc ≡ some (acc + count sep s)
unfolding occur_loop
occur_loop-count zero sep s acc some_sep h = absurd (omega arith)
occur_loop-count (suc fuel) sep s acc some_sep h = elim (Option-cases (strchr sep s)) [
  | inl none_left ↦ rw none_left (ap some (omega (arith, strchr-none sep s none_left)))
  | inr (q, found) ↦
      let f = strchr-Found sep s {q = q} some_sep found in
      rw (found, (before-Found f).1)
        (occur_loop-count fuel sep f.back (acc + 1) some_sep (omega (arith, length-Found f))
          ∙ ap some (omega (arith, count-Found f)))
]

-- `getOccurCount` is the number of separators, which are not NUL: its loop reaches the end of the
-- string within as many rounds as the string has bytes with its NUL.
pub occur_count-count : (s : Bytes) (sep : ℕ) → 0 < sep → occur_count s sep ≡ some (count sep s)
unfolding occur_count
occur_count-count s sep some_sep =
    occur_loop-count (length s + 1) sep s 0 some_sep (omega arith) ∙ ap some (omega arith)
