-- ===== src/LocalHost/Slots.antt =====
-- The table of storage_global.c as a list of addresses, and what `is_local_host_ip` finds in it.
use demostroage.Prelude.{
  ℕ, zero, suc, ◌+◌, ◌*◌, ◌≤◌, ◌<◌, ◌≡◌, refl, sym, ap, ◌∙◌, true, false, List, [], ◌∷◌, ◌++◌, ◌⊎◌,
  inl, inr, Bool-cases, arith, eqb, eqb_refl, Bytes, All, length, take, drop, drop-append,
  take-take-append, drop-take-append, drop-drop, length-take, length-append, length-drop, leb, ℤ,
  pos, negsuc,
}
use demostroage.Libc.{cstr}
use demostroage.LocalHost.{Table, local_loop, is_local_host_ip, copy_at, insert_local}

-- the text of an address: it fits in a slot with its NUL
abbrev pub IsAddress : Bytes → Type 0
IsAddress ip = All (λ c. 0 < c) ip × (length ip < 16)

cstr-append : (s t : Bytes) → All (λ c. 0 < c) s → cstr (s ++ 0 ∷ t) ≡ s
unfolding cstr
cstr-append [] t h = refl
cstr-append (c ∷ s) t h = ground (arith, cstr-append s t h.1)

-- the first `n` slots of sixteen bytes
abbrev pub slots_of : ℕ → Bytes → List Bytes
slots_of zero p = []
slots_of (suc n) p = cstr (take 16 p) ∷ slots_of n (drop 16 p)

abbrev pub slots : Table → List Bytes
slots t = slots_of t.count t.addrs

-- the table has room for four addresses, and holds at most so many
abbrev pub IsTable : Table → Type 0
IsTable t = (length t.addrs ≡ 64) × (t.count ≤ 4)

take_slot :
    (ip t : Bytes) (n : ℕ) → All (λ c. 0 < c) ip → length ip < n → cstr (take n (ip ++ 0 ∷ t)) ≡ ip
unfolding cstr
take_slot ip t zero h le = absurd (omega arith)
take_slot [] t (suc n) h le = refl
take_slot (c ∷ ip) t (suc n) h le = ground (arith, take_slot ip t n h.1 (omega arith))

slots_of-copy_at :
    (n : ℕ) (ip p : Bytes)
    → IsAddress ip
    → 16 * suc n ≤ length p
    → slots_of (suc n) (copy_at (16 * n) ip p) ≡ slots_of n p ++ (ip ∷ [])
slots_of-copy_at zero ip p (text, short) room = ap (λ s. s ∷ []) (take_slot ip _ 16 text short)
slots_of-copy_at (suc n) ip p a room =
    let at = 16 * suc n in
    let back = ip ++ (0 ∷ drop (at + length ip + 1) p) in
    let moved : drop 16 (take at p ++ back) ≡ copy_at (16 * n) ip (drop 16 p) =
      drop-take-append 16 (16 * n) at p back (omega arith) (omega arith)
      ∙ ap (λ u. take (16 * n) (drop 16 p) ++ (ip ++ (0 ∷ u)))
          (drop-drop 16 (16 * n + length ip + 1) (at + length ip + 1) p (omega arith)) in
    ap (λ u. cstr u ∷ slots_of (suc n) (drop 16 (take at p ++ back)))
      (take-take-append 16 at p back (omega arith) (omega arith))
    ∙ ap (λ u. cstr (take 16 p) ∷ slots_of (suc n) u) moved
    ∙ ap (◌∷◌ (cstr (take 16 p)))
        (slots_of-copy_at n ip (drop 16 p) a (omega (arith, length-drop 16 p)))

length-copy_at :
    (at : ℕ) (ip p : Bytes) → at + length ip + 1 ≤ length p → length (copy_at at ip p) ≡ length p
length-copy_at at ip p h = omega (
  arith,
  length-append (take at p) (ip ++ (0 ∷ drop (at + length ip + 1) p)),
  length-take at p,
  length-append ip (0 ∷ drop (at + length ip + 1) p),
  length-drop (at + length ip + 1) p,
)

module _ (ip : Bytes) where
  -- the scan finds a string that starts anywhere in the range
  local_loop-found : (k n : ℕ) (p : Bytes) → k < n → cstr (drop k p) ≡ ip → local_loop ip n p ≡ true
  unfolding local_loop
  local_loop-found k zero p h e = absurd (omega arith)
  local_loop-found zero (suc n) p h e = rw (e, eqb_refl)
  local_loop-found (suc k) (suc n) p h e = elim (Bool-cases (eqb ip (cstr p))) [
    | inl hit ↦ rw hit
    | inr miss ↦ rw miss (
        local_loop-found k n (drop 1 p) (omega arith)
          (ap cstr (sym (drop-drop 1 k (suc k) p (omega arith))) ∙ e))
  ]

-- the outcomes of `insert_into_local_host_ip`: known, no room, or a new slot behind the others
abbrev pub Inserted : Table → Bytes → ℤ × Table → Type 0
Inserted t ip (r, t') =
    IsTable t'
    × (((r ≡ pos 0) × (t' ≡ t) × (is_local_host_ip t ip ≡ true))
        ⊎ (((r ≡ negsuc 0) × (t' ≡ t) × (t.count ≡ 4))
            ⊎ ((r ≡ pos 1) × (slots t' ≡ slots t ++ (ip ∷ [])) × (is_local_host_ip t ip ≡ false))))

insert_local_new :
    (t : Table) (ip : Bytes)
    → IsTable t
    → IsAddress ip
    → t.count < 4
    → (let t' : Table = record { addrs = copy_at (16 * t.count) ip t.addrs; count = t.count + 1 } in
        IsTable t' × (slots t' ≡ slots t ++ (ip ∷ [])))
insert_local_new t ip w a room = (
  (length-copy_at (16 * t.count) ip t.addrs (omega arith) ∙ w.0, omega arith),
  ap (λ n. slots_of n (copy_at (16 * t.count) ip t.addrs)) {x = t.count + 1} {y = suc t.count}
        (omega arith)
      ∙ slots_of-copy_at t.count ip t.addrs a (omega arith),
)

-- `insert_into_local_host_ip` does nothing to a known address, refuses a fifth one, and puts any
-- other into a new slot behind the slots in use, which it leaves as they are. The table is well
-- formed, and the address is a text of at most fifteen bytes.
pub insert_local-Inserted :
    (t : Table) (ip : Bytes) → IsTable t → IsAddress ip → Inserted t ip (insert_local t ip)
unfolding insert_local
insert_local-Inserted t ip w a = elim (Bool-cases (is_local_host_ip t ip)) [
  | inl known ↦ rw known (w, inl (refl, refl, refl))
  | inr new ↦ elim (Bool-cases (leb 4 t.count)) [
    | inl full ↦ rw (new, full) (w, inr (inl (refl, refl, ground arith)))
    | inr room ↦
        let (w', s) = insert_local_new t ip w a (ground arith) in
        rw (new, room) (w', inr (inr (refl, s, refl)))
  ]
]

cstr-drop :
    (ip t : Bytes) (j : ℕ)
    → All (λ c. 0 < c) ip
    → j ≤ length ip
    → cstr (drop j (ip ++ 0 ∷ t)) ≡ drop j ip
cstr-drop ip t zero h le = cstr-append ip t h
cstr-drop [] t (suc j) h le = absurd (omega arith)
cstr-drop (c ∷ ip) t (suc j) h le = cstr-drop ip t j h.1 (omega arith)

drop-copy_at :
    (at j : ℕ) (ip p : Bytes)
    → at ≤ length p
    → drop (at + j) (copy_at at ip p) ≡ drop j (ip ++ (0 ∷ drop (at + length ip + 1) p))
drop-copy_at at j ip p h =
    let back = ip ++ (0 ∷ drop (at + length ip + 1) p) in
    drop-drop at j (at + j) (copy_at at ip p) refl
    ∙ ap (drop j) (drop-append (take at p) back at (omega (arith, length-take at p)))

new-local :
    (t : Table) (ip : Bytes) (j : ℕ)
    → IsTable t
    → IsAddress ip
    → t.count < 4
    → j ≤ length ip
    → is_local_host_ip
        (record { addrs = copy_at (16 * t.count) ip t.addrs; count = t.count + 1 })
        (drop j ip)
      ≡ true
unfolding is_local_host_ip
new-local t ip j w a room le =
    local_loop-found (drop j ip) (16 * t.count + j) (16 * (t.count + 1))
      (copy_at (16 * t.count) ip t.addrs) (omega arith)
      (ap cstr (drop-copy_at (16 * t.count) j ip t.addrs (omega arith)) ∙ cstr-drop ip _ j a.0 le)

-- An address that a well formed table took in, a text of at most fifteen bytes, is local
-- afterwards, and so is every string that it ends with: the scan moves by one byte and not by
-- one slot.
pub insert_local-is_local :
    (t : Table) (ip : Bytes) (j : ℕ)
    → IsTable t
    → IsAddress ip
    → (insert_local t ip).0 ≡ pos 1
    → j ≤ length ip
    → is_local_host_ip (insert_local t ip).1 (drop j ip) ≡ true
unfolding insert_local
insert_local-is_local t ip j w a new le = elim (Bool-cases (is_local_host_ip t ip)) [
  | inl known ↦ let e : pos 0 ≡ pos 1 = rw known at new in cc
  | inr unknown ↦ elim (Bool-cases (leb 4 t.count)) [
    | inl full ↦ let e : negsuc 0 ≡ pos 1 = rw (unknown, full) at new in cc
    | inr room ↦ rw (unknown, room) (new-local t ip j w a (ground arith) le)
  ]
]
