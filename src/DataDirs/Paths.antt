-- ===== src/DataDirs/Paths.antt =====
-- The paths of the folders of the data: what they lie in, and that they are different.
use demostroage.Prelude.{
  ℕ, zero, suc, ◌+◌, ◌/◌, ◌%◌, ◌≤◌, ◌≡◌, ◌≢◌, refl, sym, ap, ◌∙◌, true, false, [], ◌∷◌, ◌++◌, ◌==◌,
  arith, Bytes, get_or, take, get_or-last, length-snoc, length, length-append, eqb, append_assoc,
}
use demostroage.Libc.{truncated, upper_digit, print_hex2}
use demostroage.Shared.{chop_path}
use demostroage.Posix.{codes, has_slash, parent}
use demostroage.Posix.Files.{eqb-false}
use demostroage.DataDirs.{behind, data_dir, init_flag, init_flag_path}

-- a name of one byte or more, without a slash
abbrev pub IsName : Bytes → Type 0
IsName s = has_slash s ≡ false

has_slash-behind : (cwd name : Bytes) → has_slash (behind cwd name) ≡ true
has_slash-behind [] name = refl
has_slash-behind (c ∷ cwd) name = rw (has_slash-behind cwd name) (ground arith)

pub parent-behind : (cwd name : Bytes) → IsName name → parent (behind cwd name) ≡ cwd
unfolding parent
parent-behind [] name h = rw h refl
parent-behind (c ∷ cwd) name h = rw (has_slash-behind cwd name, parent-behind cwd name h) refl

pub truncated-short : (n : ℕ) (s : Bytes) → length s ≤ n → truncated n s ≡ s
truncated-short zero [] h = refl
truncated-short zero (c ∷ s) h = absurd (omega arith)
truncated-short (suc n) [] h = refl
truncated-short (suc n) (c ∷ s) h = ap (λ r. c ∷ r) (truncated-short n s (omega arith))

upper_digit-inj : (a b : ℕ) → upper_digit a ≡ upper_digit b → a ≡ b
upper_digit-inj a b e = ground arith

upper_digit-slash : (a : ℕ) → (upper_digit a == b'/') ≡ false
upper_digit-slash a = ground arith

pub IsName-print_hex2 : (n : ℕ) → IsName (print_hex2 n)
unfolding print_hex2
IsName-print_hex2 n = rw (upper_digit-slash (n / 16), upper_digit-slash (n % 16)) refl

pub print_hex2-inj : (i j : ℕ) → print_hex2 i ≡ print_hex2 j → i ≡ j
unfolding print_hex2
print_hex2-inj i j e =
    let high = upper_digit-inj (i / 16) (j / 16) (ap (λ s. get_or s 0 0) e) in
    let low = upper_digit-inj (i % 16) (j % 16) (ap (λ s. get_or s 1 0) e) in omega arith

pub chop_path-last :
    (s : Bytes) (x : ℕ) → (x == b'/') ≡ false → chop_path (s ++ (x ∷ [])) ≡ s ++ (x ∷ [])
unfolding chop_path
chop_path-last [] x h = rw h refl
chop_path-last (c ∷ s) x h = rw (length-snoc s x, get_or-last s x, h) refl

pub chop_path-behind :
    (cwd : Bytes) (n : ℕ) → chop_path (behind cwd (print_hex2 n)) ≡ behind cwd (print_hex2 n)
unfolding print_hex2
chop_path-behind cwd n =
    let front = cwd ++ (b'/' ∷ (upper_digit (n / 16) ∷ [])) in
    let split : behind cwd (print_hex2 n) ≡ front ++ (upper_digit (n % 16) ∷ []) =
      sym (append_assoc cwd (b'/' ∷ (upper_digit (n / 16) ∷ [])) (upper_digit (n % 16) ∷ [])) in
    ap chop_path split
    ∙ chop_path-last front (upper_digit (n % 16)) (upper_digit-slash (n % 16))
    ∙ sym split

-- behind the same folder, paths differ as the names do
pub eqb-behind : (cwd x y : Bytes) → eqb (behind cwd x) (behind cwd y) ≡ eqb x y
eqb-behind [] x y = refl
eqb-behind (c ∷ cwd) x y = rw (eqb-behind cwd x y) (ground arith)

pub eqb-longer : (a b : Bytes) → length a ≢ length b → eqb a b ≡ false
eqb-longer a b h = eqb-false a b (λ e. h (ap length e))

pub eqb-hex : (i j : ℕ) → i ≢ j → eqb (print_hex2 i) (print_hex2 j) ≡ false
eqb-hex i j ne = eqb-false _ _ (λ e. ne (print_hex2-inj i j e))

pub eqb-inner :
    (cwd : Bytes) (i j k l : ℕ)
    → i ≢ j
    → eqb
        (behind (behind cwd (print_hex2 i)) (print_hex2 k))
        (behind (behind cwd (print_hex2 j)) (print_hex2 l))
      ≡ false
unfolding print_hex2
eqb-inner cwd i j k l ne =
    rw
      (
        append_assoc cwd (b'/' ∷ print_hex2 i) (b'/' ∷ print_hex2 k),
        append_assoc cwd (b'/' ∷ print_hex2 j) (b'/' ∷ print_hex2 l),
        eqb-behind cwd (print_hex2 i ++ (b'/' ∷ print_hex2 k))
            (print_hex2 j ++ (b'/' ∷ print_hex2 l)),
      )
      (eqb-false (print_hex2 i ++ (b'/' ∷ print_hex2 k)) (print_hex2 j ++ (b'/' ∷ print_hex2 l))
        (λ e. ne (print_hex2-inj i j (ap (take 2) e))))

pub length-behind : (cwd : Bytes) (n : ℕ) → length (behind cwd (print_hex2 n)) ≡ length cwd + 3
unfolding print_hex2
length-behind cwd n = length-append cwd (b'/' ∷ print_hex2 n)

-- a folder is not one that lies in it or beside it
pub eqb-above : (cwd : Bytes) (i : ℕ) → eqb cwd (behind cwd (print_hex2 i)) ≡ false
eqb-above cwd i =
    eqb-longer cwd (behind cwd (print_hex2 i)) (λ e. omega (arith, length-behind cwd i, e))

pub eqb-outer-inner :
    (cwd : Bytes) (i j k : ℕ)
    → eqb (behind cwd (print_hex2 i)) (behind (behind cwd (print_hex2 j)) (print_hex2 k)) ≡ false
eqb-outer-inner cwd i j k =
    eqb-longer (behind cwd (print_hex2 i)) (behind (behind cwd (print_hex2 j)) (print_hex2 k)) (λ e.
      omega (
        arith,
        length-behind cwd i,
        length-behind cwd j,
        length-behind (behind cwd (print_hex2 j)) k,
        e,
      ))

pub eqb-inner-outer :
    (cwd : Bytes) (i j k : ℕ)
    → eqb (behind (behind cwd (print_hex2 j)) (print_hex2 k)) (behind cwd (print_hex2 i)) ≡ false
eqb-inner-outer cwd i j k =
    eqb-longer (behind (behind cwd (print_hex2 j)) (print_hex2 k)) (behind cwd (print_hex2 i)) (λ e.
      omega (
        arith,
        length-behind cwd i,
        length-behind cwd j,
        length-behind (behind cwd (print_hex2 j)) k,
        e,
      ))

-- the paths of the code, where they are not cut off
pub data_dir-short : (base : Bytes) → length base ≤ 200 → data_dir base ≡ base ++ codes "/data"
data_dir-short base h = truncated-short 255 _ (omega (arith, length-append base (codes "/data")))

pub init_flag_path-short :
    (base : Bytes)
    → length base ≤ 200
    → init_flag_path base ≡ behind (base ++ codes "/data") init_flag
init_flag_path-short base h =
    truncated-short 255 _ (omega (arith, length-append base (codes "/data/.data_init_flag")))
    ∙ sym (append_assoc base (codes "/data") (codes "/.data_init_flag"))

pub chop_path-data : (base : Bytes) → chop_path (base ++ codes "/data") ≡ base ++ codes "/data"
chop_path-data base =
    let split = sym (append_assoc base (codes "/dat") (codes "a")) in
    ap chop_path split ∙ chop_path-last (base ++ codes "/dat") b'a' refl ∙ sym split

pub chop_path-flag : (cwd : Bytes) → chop_path (behind cwd init_flag) ≡ behind cwd init_flag
chop_path-flag cwd =
    let split = sym (append_assoc cwd (codes "/.data_init_fla") (codes "g")) in
    ap chop_path split ∙ chop_path-last (cwd ++ codes "/.data_init_fla") b'g' refl ∙ sym split

pub length-flag : (cwd : Bytes) → length (behind cwd init_flag) ≡ length cwd + 16
length-flag cwd = length-append cwd (codes "/.data_init_flag")
