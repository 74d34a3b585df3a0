-- ===== src/Conf/Order.antt =====
-- `storage_cmp_by_ip_and_port` orders the trackers, and only equal addresses compare as equal.
use mathlib.Core.Path.{subst}
use demostroage.Prelude.{
  ℕ, zero, suc, ◌≡◌, ◌⊎◌, refl, sym, ap, ◌∙◌, Bool, true, false, inl, inr, Bool-cases, Bytes, arith,
  ℤ, pos, negsuc, is_neg, is_pos,
}
use demostroage.Libc.{strcmp}
use demostroage.Libc.Order.{
  Comparison, strcmp_refl, strcmp_eq, strcmp_lt_le, strcmp_gt_le, strcmp_flip, strcmp_unflip,
}
use demostroage.Runtime.{TrackerServer}
use demostroage.Conf.{then_by, port_difference, compare_server}

-- how two strings compare
data Compared (a b : Bytes) : Type 0 where
  below : is_neg (strcmp a b) ≡ true → is_pos (strcmp a b) ≡ false → Compared a b
  above : is_neg (strcmp a b) ≡ false → is_pos (strcmp a b) ≡ true → Compared a b
  equal : a ≡ b → strcmp a b ≡ pos 0 → Compared a b

signs :
    (z : ℤ)
    → (is_neg z ≡ true) × (is_pos z ≡ false)
      ⊎ (is_neg z ≡ false) × (is_pos z ≡ true)
      ⊎ (is_neg z ≡ false) × (is_pos z ≡ false)
signs (pos zero) = inr (inr (refl, refl))
signs (pos (suc n)) = inr (inl (refl, refl))
signs (negsuc n) = inl (refl, refl)

compared : (a b : Bytes) → Compared a b
compared a b = elim (signs (strcmp a b)) [
  | inl (n, p) ↦ below n p
  | inr (inl (n, p)) ↦ above n p
  | inr (inr (n, p)) ↦
      let e = strcmp_eq a b n p in equal e (subst (λ c. strcmp a c ≡ pos 0) e (strcmp_refl a))
]

then_by_neg :
    (z d : ℤ) → is_neg z ≡ true → (is_neg (then_by z d) ≡ true) × (is_pos (then_by z d) ≡ false)
then_by_neg (pos n) d h = cc
then_by_neg (negsuc n) d h = (refl, refl)

then_by_pos :
    (z d : ℤ) → is_pos z ≡ true → (is_neg (then_by z d) ≡ false) × (is_pos (then_by z d) ≡ true)
then_by_pos (pos zero) d h = cc
then_by_pos (pos (suc n)) d h = (refl, refl)
then_by_pos (negsuc n) d h = cc

then_by_zero : (z d : ℤ) → z ≡ pos 0 → then_by z d ≡ d
then_by_zero z d h = ap (λ y. then_by y d) h

module _ (x y : TrackerServer) where
  smaller :
      is_neg (strcmp x.ip_addr y.ip_addr) ≡ true
      → (is_neg (compare_server x y) ≡ true) × (is_pos (compare_server x y) ≡ false)
  smaller h = then_by_neg (strcmp x.ip_addr y.ip_addr) (port_difference x.port y.port) h

  greater :
      is_pos (strcmp x.ip_addr y.ip_addr) ≡ true
      → (is_neg (compare_server x y) ≡ false) × (is_pos (compare_server x y) ≡ true)
  greater h = then_by_pos (strcmp x.ip_addr y.ip_addr) (port_difference x.port y.port) h

  level : x.ip_addr ≡ y.ip_addr → compare_server x y ≡ port_difference x.port y.port
  level e =
      then_by_zero (strcmp x.ip_addr y.ip_addr) (port_difference x.port y.port)
        (subst (λ c. strcmp x.ip_addr c ≡ pos 0) e (strcmp_refl x.ip_addr))

port_total : (a b : ℕ) → is_pos (port_difference a b) ≡ true → is_pos (port_difference b a) ≡ false
port_total a b h = ground arith

port_trans :
    (a b c : ℕ)
    → is_pos (port_difference a b) ≡ false
    → is_pos (port_difference b c) ≡ false
    → is_pos (port_difference a c) ≡ false
port_trans a b c h k = ground arith

port_lt_le :
    (a b c : ℕ)
    → is_neg (port_difference a b) ≡ true
    → is_pos (port_difference b c) ≡ false
    → is_neg (port_difference a c) ≡ true
port_lt_le a b c h k = ground arith

port_gt_le :
    (a b c : ℕ)
    → is_pos (port_difference a c) ≡ true
    → is_pos (port_difference b c) ≡ false
    → is_pos (port_difference a b) ≡ true
port_gt_le a b c h k = ground arith

pub neg_not_pos : (z : ℤ) → is_neg z ≡ true → is_pos z ≡ false
neg_not_pos (pos n) h = cc
neg_not_pos (negsuc n) h = refl

abbrev by_ip : TrackerServer → TrackerServer → ℤ
by_ip x y = strcmp x.ip_addr y.ip_addr

abbrev by_port : TrackerServer → TrackerServer → ℤ
by_port x y = port_difference x.port y.port

abbrev SameIp : TrackerServer → TrackerServer → Type 0
SameIp x y = x.ip_addr ≡ y.ip_addr

-- by the address, or by the port of the same address
module _ (x y : TrackerServer) where
  lt_cases :
      is_neg (compare_server x y) ≡ true
      → (is_neg (by_ip x y) ≡ true) ⊎ (SameIp x y × (is_neg (by_port x y) ≡ true))
  lt_cases h = elim (compared x.ip_addr y.ip_addr) [
    | below n p ↦ inl n
    | above n p ↦ let g = (greater x y p).0 in absurd (let f : ⊥ = cc in f)
    | equal e z ↦ inr (e, rw (level x y e) at h)
  ]

  le_cases :
      is_pos (compare_server x y) ≡ false
      → (is_neg (by_ip x y) ≡ true) ⊎ (SameIp x y × (is_pos (by_port x y) ≡ false))
  le_cases h = elim (compared x.ip_addr y.ip_addr) [
    | below n p ↦ inl n
    | above n p ↦ let g = (greater x y p).1 in absurd (let f : ⊥ = cc in f)
    | equal e z ↦ inr (e, rw (level x y e) at h)
  ]

  gt_cases :
      is_pos (compare_server x y) ≡ true
      → (is_pos (by_ip x y) ≡ true) ⊎ (SameIp x y × (is_pos (by_port x y) ≡ true))
  gt_cases h = elim (compared x.ip_addr y.ip_addr) [
    | below n p ↦ let g = (smaller x y n).1 in absurd (let f : ⊥ = cc in f)
    | above n p ↦ inl p
    | equal e z ↦ inr (e, rw (level x y e) at h)
  ]

  at_port :
      {b : Bool} (f : ℤ → Bool) → SameIp x y → f (by_port x y) ≡ b → f (compare_server x y) ≡ b
  at_port f e h = rw (level x y e) h

pub server_total :
    (x y : TrackerServer) → is_pos (compare_server x y) ≡ true → is_pos (compare_server y x) ≡ false
server_total x y h = elim (gt_cases x y h) [
  | inl p ↦ (smaller y x (strcmp_unflip x.ip_addr y.ip_addr p)).1
  | inr (e, p) ↦ at_port y x is_pos (sym e) (port_total x.port y.port p)
]

pub server_lt_le :
    (k x y : TrackerServer)
    → is_neg (compare_server k x) ≡ true
    → is_pos (compare_server x y) ≡ false
    → is_neg (compare_server k y) ≡ true
server_lt_le k x y h g = elim (lt_cases k x h) [
  | inl a ↦ elim (le_cases x y g) [
    | inl b ↦ (smaller k y (strcmp_lt_le k.ip_addr x.ip_addr y.ip_addr a (neg_not_pos _ b))).0
    | inr (e, b) ↦ (smaller k y (subst (λ i. is_neg (strcmp k.ip_addr i) ≡ true) e a)).0
  ]
  | inr (e, a) ↦ elim (le_cases x y g) [
    | inl b ↦ (smaller k y (subst (λ i. is_neg (strcmp i y.ip_addr) ≡ true) (sym e) b)).0
    | inr (f, b) ↦ at_port k y is_neg (e ∙ f) (port_lt_le k.port x.port y.port a b)
  ]
]

pub server_gt_le :
    (k x y : TrackerServer)
    → is_pos (compare_server k y) ≡ true
    → is_pos (compare_server x y) ≡ false
    → is_pos (compare_server k x) ≡ true
server_gt_le k x y h g = elim (gt_cases k y h) [
  | inl a ↦ elim (le_cases x y g) [
    | inl b ↦ (greater k x (strcmp_gt_le k.ip_addr x.ip_addr y.ip_addr a (neg_not_pos _ b))).1
    | inr (e, b) ↦ (greater k x (subst (λ i. is_pos (strcmp k.ip_addr i) ≡ true) (sym e) a)).1
  ]
  | inr (e, a) ↦ elim (le_cases x y g) [
    | inl b ↦
        (greater k x (
          subst (λ i. is_pos (strcmp i x.ip_addr) ≡ true) (sym e)
            (strcmp_flip x.ip_addr y.ip_addr b))).1
    | inr (f, b) ↦ at_port k x is_pos (e ∙ sym f) (port_gt_le k.port x.port y.port a b)
  ]
]

pub server_trans :
    (x y z : TrackerServer)
    → is_pos (compare_server x y) ≡ false
    → is_pos (compare_server y z) ≡ false
    → is_pos (compare_server x z) ≡ false
server_trans x y z h g = elim (Bool-cases (is_pos (compare_server x z))) [
  | inl beyond ↦ let p = server_gt_le x y z beyond g in absurd (let f : ⊥ = cc in f)
  | inr within ↦ within
]

-- the order of the trackers
abbrev pub by_server : Comparison TrackerServer
by_server = record {
  cmp = compare_server;
  total = server_total;
  trans = server_trans;
  lt_le = server_lt_le;
  gt_le = server_gt_le;
}

equal_ports :
    (a b : ℕ) → is_neg (port_difference a b) ≡ false → is_pos (port_difference a b) ≡ false → a ≡ b
equal_ports a b n p = ground arith

-- two servers compare as equal just where address and port are the same
pub compare_server-IsEqual :
    (x y : TrackerServer)
    → is_neg (compare_server x y) ≡ false
    → is_pos (compare_server x y) ≡ false
    → (x.ip_addr ≡ y.ip_addr) × (x.port ≡ y.port)
compare_server-IsEqual x y n p = elim (compared x.ip_addr y.ip_addr) [
  | below a b ↦ let g = (smaller x y a).0 in absurd (let f : ⊥ = cc in f)
  | above a b ↦ let g = (greater x y b).1 in absurd (let f : ⊥ = cc in f)
  | equal e z ↦ (e, equal_ports x.port y.port (rw (level x y e) at n) (rw (level x y e) at p))
]

port_flip : (a b : ℕ) → is_neg (port_difference a b) ≡ true → is_pos (port_difference b a) ≡ true
port_flip a b h = ground arith

port_unflip : (a b : ℕ) → is_pos (port_difference a b) ≡ true → is_neg (port_difference b a) ≡ true
port_unflip a b h = ground arith

pub server_flip :
    (x y : TrackerServer) → is_neg (compare_server x y) ≡ true → is_pos (compare_server y x) ≡ true
server_flip x y h = elim (lt_cases x y h) [
  | inl p ↦ (greater y x (strcmp_flip x.ip_addr y.ip_addr p)).1
  | inr (e, p) ↦ at_port y x is_pos (sym e) (port_flip x.port y.port p)
]

pub server_unflip :
    (x y : TrackerServer) → is_pos (compare_server x y) ≡ true → is_neg (compare_server y x) ≡ true
server_unflip x y h = elim (gt_cases x y h) [
  | inl p ↦ (smaller y x (strcmp_unflip x.ip_addr y.ip_addr p)).0
  | inr (e, p) ↦ at_port y x is_neg (sym e) (port_unflip x.port y.port p)
]
