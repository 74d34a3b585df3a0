-- ===== src/Wire/RoundTrip.antt =====
-- tracker_proto.h: a header is read back from its bytes.
use demostroage.Prelude.{
  ℕ, zero, suc, ◌+◌, ◌-◌, ◌*◌, ◌/◌, ◌%◌, ◌^◌, ◌<◌, ◌≤◌, ◌≡◌, refl, ap, ◌∙◌, [], ◌∷◌, ◌++◌, arith,
  Bytes, All, length, length-append, take, pos,
}
use demostroage.Libc.{cstr, digit, digit_value, print_digits, print_hex}
use demostroage.Libc.Numbers.{IsDigit, print_digits_head, strtoi-print_hex}
use demostroage.Posix.{junk_bytes}
use demostroage.Wire.{Header, header_bytes, byte_at, read_header, body_len}

-- powers of 16, as a number that computes
abbrev pow16 : ℕ → ℕ
pow16 zero = 1
pow16 (suc k) = 16 * pow16 k

-- a number below 16 ^ k has at most k digits
length-print_digits : (k fuel n : ℕ) → n < 16 * pow16 k → length (print_digits fuel 16 n) ≤ suc k
unfolding print_digits
length-print_digits k zero n h = omega arith
length-print_digits zero (suc fuel) n h = ground arith
length-print_digits (suc k) (suc fuel) n h = ground (
  arith,
  length-append (print_digits fuel 16 (n / 16)) (digit (n % 16) ∷ []),
  length-print_digits k fuel (n / 16) (omega arith),
)

-- a NUL ends the text
pub cstr-take :
    (p t : Bytes) (n : ℕ) → All IsDigit p → length p ≤ n → cstr (take n (p ++ 0 ∷ t)) ≡ p
unfolding cstr digit_value
cstr-take [] t zero h le = refl
cstr-take [] t (suc n) h le = refl
cstr-take (c ∷ p) t zero h le = absurd (omega arith)
cstr-take (c ∷ p) t (suc n) h le = ground (arith, cstr-take p t n h.1 (omega arith))

byte_at-append : (s t : Bytes) (k n : ℕ) → n ≡ length s + k → byte_at (s ++ t) n ≡ byte_at t k
byte_at-append [] t k n h = ap (byte_at t) (omega arith)
byte_at-append (c ∷ s) t k zero h = absurd (omega arith)
byte_at-append (c ∷ s) t k (suc n) h = byte_at-append s t k n (omega arith)

pub length-junk_bytes : (f : ℕ → ℕ) (k n : ℕ) → length (junk_bytes f k n) ≡ n
length-junk_bytes f k zero = refl
length-junk_bytes f k (suc n) = ap suc (length-junk_bytes f (k + 1) n)

-- the `cmd` and `status` bytes stand behind the nine bytes of the length
byte_at-header_bytes :
    (junk : ℕ → ℕ) (h : Header) (k : ℕ)
    → length h.pkg_len ≤ 8
    → byte_at (header_bytes junk h) (9 + k) ≡ byte_at (h.cmd ∷ h.status % 256 ∷ []) k
byte_at-header_bytes junk h k le =
    let gap = junk_bytes junk 0 (8 - length h.pkg_len) in
    byte_at-append h.pkg_len (0 ∷ (gap ++ (h.cmd ∷ h.status % 256 ∷ []))) (9 - length h.pkg_len + k)
      (9 + k) (omega arith)
    ∙ byte_at-append (0 ∷ gap) (h.cmd ∷ h.status % 256 ∷ []) k _
        (omega (arith, length-junk_bytes junk 0 (8 - length h.pkg_len)))

-- What a peer reads of a header whose length is printed by `%x` is the length, the command and
-- the low byte of the status, whatever lies in the bytes that nothing has written. The length
-- is a number that an `int` holds.
pub read_header-header_bytes :
    (junk : ℕ → ℕ) (n cmd status : ℕ)
    → n < 2 ^ 31
    → (let h =
          read_header
            (header_bytes junk (record { pkg_len = print_hex n; cmd = cmd; status = status })) in
        (body_len h ≡ pos n) × (h.cmd ≡ cmd) × (h.status ≡ status % 256))
unfolding print_hex
read_header-header_bytes junk n cmd status b =
    let h : Header = record { pkg_len = print_hex n; cmd = cmd; status = status } in
    let (c, s, e, d, t) = print_digits_head n 16 n (omega arith) (omega arith) (omega arith) in
    let le : length (print_hex n) ≤ 8 = length-print_digits 7 n n (omega arith) in
    let digits : All IsDigit (print_hex n) = rw e (d, t) in
    (
      rw (cstr-take (print_hex n) _ 8 digits le) (strtoi-print_hex n b),
      byte_at-header_bytes junk h 0 le,
      byte_at-header_bytes junk h 1 le,
    )

-- the size of a header
pub length-header_bytes :
    (junk : ℕ → ℕ) (h : Header) → length h.pkg_len ≤ 8 → length (header_bytes junk h) ≡ 11
length-header_bytes junk h le =
    let gap = junk_bytes junk 0 (8 - length h.pkg_len) in
    omega (
      arith,
      length-append h.pkg_len (0 ∷ (gap ++ (h.cmd ∷ h.status % 256 ∷ []))),
      length-append gap (h.cmd ∷ h.status % 256 ∷ []),
      length-junk_bytes junk 0 (8 - length h.pkg_len),
    )

-- the text of a 32-bit word fits in its array
pub length-print_hex : (n : ℕ) → n < 2 ^ 32 → length (print_hex n) ≤ 8
unfolding print_hex
length-print_hex n h = length-print_digits 7 n n (omega arith)

pub All-print_hex : (n : ℕ) → All IsDigit (print_hex n)
unfolding print_hex
All-print_hex n =
    let (c, s, e, d, t) = print_digits_head n 16 n (omega arith) (omega arith) (omega arith) in
    rw e (d, t)
