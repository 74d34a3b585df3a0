-- ===== src/Posix/Files.antt =====
-- The files as a map.
use demostroage.Prelude.{
  ◌≡◌, ◌≢◌, refl, false, none, some, List, [], ◌∷◌, inl, inr, Bool-cases, eqb, eqb_iff, eqb_refl,
  Bytes,
}
use demostroage.Posix.{lookup, insert, remove}

pub eqb-false : (a b : Bytes) → a ≢ b → eqb a b ≡ false
eqb-false a b ne = elim (Bool-cases (eqb a b)) [
  | inl same ↦ absurd (ne ((eqb_iff a b).0 same))
  | inr differs ↦ differs
]

pub lookup-insert : (k v : Bytes) (m : List (Bytes × Bytes)) → lookup k (insert k v m) ≡ some v
unfolding lookup insert
lookup-insert k v [] = rw (eqb_refl k)
lookup-insert k v ((j, w) ∷ m) = elim (Bool-cases (eqb j k)) [
  | inl hit ↦ rw (hit, eqb_refl)
  | inr miss ↦ rw (miss, miss) (lookup-insert k v m)
]

pub lookup-insert_other :
    (k l v : Bytes) (m : List (Bytes × Bytes)) → l ≢ k → lookup k (insert l v m) ≡ lookup k m
unfolding lookup insert
lookup-insert_other k l v [] ne = rw (eqb-false l k ne)
lookup-insert_other k l v ((j, w) ∷ m) ne = elim (Bool-cases (eqb j l)) [
  | inl hit ↦ let e : j ≡ l = (eqb_iff j l).0 hit in rw (hit, eqb-false l k ne, e, eqb-false l k ne)
  | inr miss ↦ elim (Bool-cases (eqb j k)) [
    | inl found ↦ rw (miss, found)
    | inr other ↦ rw (miss, other) (lookup-insert_other k l v m ne)
  ]
]

pub lookup-remove : (k : Bytes) (m : List (Bytes × Bytes)) → lookup k (remove k m) ≡ none
unfolding lookup remove
lookup-remove k [] = refl
lookup-remove k ((j, w) ∷ m) = elim (Bool-cases (eqb j k)) [
  | inl hit ↦ rw hit (lookup-remove k m)
  | inr miss ↦ rw (miss, miss) (lookup-remove k m)
]

pub lookup-remove_other :
    (k l : Bytes) (m : List (Bytes × Bytes)) → l ≢ k → lookup k (remove l m) ≡ lookup k m
unfolding lookup remove
lookup-remove_other k l [] ne = refl
lookup-remove_other k l ((j, w) ∷ m) ne = elim (Bool-cases (eqb j l)) [
  | inl hit ↦
      let e : j ≡ l = (eqb_iff j l).0 hit in
      rw (hit, e, eqb-false l k ne) (lookup-remove_other k l m ne)
  | inr miss ↦ elim (Bool-cases (eqb j k)) [
    | inl found ↦ rw (miss, found)
    | inr other ↦ rw (miss, other) (lookup-remove_other k l m ne)
  ]
]
