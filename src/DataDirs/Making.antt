-- ===== src/DataDirs/Making.antt =====
-- The loops that make the folders, where no call fails and none of the folders is there.
use demostroage.Prelude.{
  ℕ, zero, suc, ◌+◌, ◌<◌, ◌≤◌, ◌≡◌, refl, sym, ap, ◌∙◌, true, false, none, ◌∷◌, List, arith, Bytes,
  eqb, eqb_refl, inl, inr, ◌⊎◌, Bool-cases, ltb,
}
use demostroage.Libc.{print_hex2}
use demostroage.Shared.{chop_path}
use demostroage.Runtime.{World, ok, set_os}
use demostroage.Runtime.Runs.{
  Runs, Runs-bind, Runs-gets, Runs-pure, Runs-if_true, Runs-if_false, Runs-modify,
}
use demostroage.Posix.{has, lookup, on_disk, is_dir_path, parent, mkdir, add_dir}
use demostroage.Posix.Calm.{Calm, Runs-attempt, Runs-guard}
use demostroage.DataDirs.{behind, chdir, make_dir, sub_dirs, fill_dir, all_dirs, data_dir_count}
use demostroage.DataDirs.Paths.{
  IsName-print_hex2, parent-behind, chop_path-behind, eqb-behind, eqb-hex, eqb-inner, eqb-above,
  eqb-outer-inner, eqb-inner-outer,
}

-- the world with these folders
abbrev pub with_dirs : List Bytes → World → World
with_dirs ds w = set_os (record w.os { dirs = ds }) w

pub Runs-mkdir :
    (p : Bytes) (w : World)
    → Calm w
    → lookup p w.files ≡ none
    → is_dir_path w p ≡ false
    → is_dir_path w (parent p) ≡ true
    → Runs (mkdir p) w (ok true (with_dirs (p ∷ w.dirs) w))
unfolding mkdir add_dir
Runs-mkdir p w calm file dir folder = Runs-bind _ _ w (Runs-attempt w calm) (
    Runs-bind _ _ w (Runs-gets _ w) (
      Runs-bind _ _ w (Runs-gets _ w) (
        Runs-if_false {b = on_disk w p} _ _ w (rw (file, dir) refl)
          (Runs-if_true _ _ w folder (Runs-bind _ _ w (Runs-modify _ w) (Runs-pure true _))))))

pub Runs-chdir :
    (p : Bytes) (w : World) → Calm w → is_dir_path w p ≡ true → Runs (chdir p) w (ok true w)
unfolding chdir
Runs-chdir p w calm dir = Runs-bind _ _ w (Runs-attempt w calm) (
    Runs-bind _ _ w (Runs-gets _ w)
      (Runs-bind _ _ w (Runs-gets _ w) (Runs-if_true _ _ w dir (Runs-pure true w))))

-- a folder whose name is a number
Runs-make_dir :
    (cwd tested : Bytes) (n : ℕ) (w : World)
    → Calm w
    → chop_path cwd ≡ cwd
    → has cwd w.dirs ≡ true
    → lookup (behind cwd (print_hex2 n)) w.files ≡ none
    → has (behind cwd (print_hex2 n)) w.dirs ≡ false
    → Runs
        (make_dir (behind cwd (print_hex2 n)) tested)
        w
        (ok tt (with_dirs (behind cwd (print_hex2 n) ∷ w.dirs) w))
unfolding make_dir
Runs-make_dir cwd tested n w calm chopped there file dir =
    let p = behind cwd (print_hex2 n) in
    Runs-bind _ _ w
      (Runs-mkdir p w calm file (ap (λ q. has q w.dirs) (chop_path-behind cwd n) ∙ dir) (
        ap (λ q. has (chop_path q) w.dirs) (parent-behind cwd (print_hex2 n) (IsName-print_hex2 n))
        ∙ ap (λ q. has q w.dirs) chopped
        ∙ there))
      (Runs-pure tt _)

-- the folders that the inner loop adds, the last one first
unfoldable pub subs : Bytes → ℕ → ℕ → List Bytes → List Bytes
subs cwd k zero ds = ds
subs cwd k (suc n) ds = subs cwd (suc k) n (behind cwd (print_hex2 k) ∷ ds)

has-later : (p q : Bytes) (ds : List Bytes) → has p ds ≡ true → has p (q ∷ ds) ≡ true
unfolding has
has-later p q ds h = rw h (ground arith)

pub has-first : (p : Bytes) (ds : List Bytes) → has p (p ∷ ds) ≡ true
unfolding has
has-first p ds = rw (eqb_refl p) refl

pub has-other : (p q : Bytes) (ds : List Bytes) → eqb q p ≡ false → has p (q ∷ ds) ≡ has p ds
unfolding has
has-other p q ds h = rw h refl

le-split : (k j : ℕ) → k ≤ j → (k ≡ j) ⊎ (suc k ≤ j)
le-split k j h = elim (Bool-cases (ltb k j)) [
  | inl less ↦ inr (ground arith)
  | inr other ↦ inl (ground arith)
]

module _ (cwd : Bytes) where
  pub has-subs :
      (k n : ℕ) (p : Bytes) (ds : List Bytes) → has p ds ≡ true → has p (subs cwd k n ds) ≡ true
  unfolding subs
  has-subs k zero p ds h = h
  has-subs k (suc n) p ds h = has-subs (suc k) n p _ (has-later p _ ds h)

  pub has-subs_other :
      (k n : ℕ) (p : Bytes) (ds : List Bytes)
      → ((j : ℕ) → eqb (behind cwd (print_hex2 j)) p ≡ false)
      → has p (subs cwd k n ds) ≡ has p ds
  unfolding subs
  has-subs_other k zero p ds h = refl
  has-subs_other k (suc n) p ds h = has-subs_other (suc k) n p _ h ∙ has-other p _ ds (h k)

  pub has-subs_made :
      (k n j : ℕ) (ds : List Bytes)
      → k ≤ j
      → j < k + n
      → has (behind cwd (print_hex2 j)) (subs cwd k n ds) ≡ true
  unfolding subs
  has-subs_made k zero j ds a b = absurd (omega arith)
  has-subs_made k (suc n) j ds a b = elim (le-split k j a) [
    | inl same ↦ rw (sym same) (has-subs (suc k) n _ _ (has-first _ ds))
    | inr more ↦ has-subs_made (suc k) n j _ more (omega arith)
  ]

  Runs-sub_dirs :
      (dir_name : Bytes) (k n : ℕ) (w : World)
      → Calm w
      → chop_path cwd ≡ cwd
      → has cwd w.dirs ≡ true
      → ((j : ℕ) → lookup (behind cwd (print_hex2 j)) w.files ≡ none)
      → ((j : ℕ) → k ≤ j → has (behind cwd (print_hex2 j)) w.dirs ≡ false)
      → Runs (sub_dirs cwd dir_name k n) w (ok tt (with_dirs (subs cwd k n w.dirs) w))
  unfolding sub_dirs subs
  Runs-sub_dirs dir_name k zero w calm chopped there file dir = Runs-pure tt w
  Runs-sub_dirs dir_name k (suc n) w calm chopped there file dir =
      let v = with_dirs (behind cwd (print_hex2 k) ∷ w.dirs) w in
      Runs-bind _ _ w (Runs-make_dir cwd _ k w calm chopped there (file k) (dir k (omega arith))) (
        Runs-sub_dirs dir_name (suc k) n v calm chopped (has-later cwd _ w.dirs there) file
          (λ j more.
            has-other _ _ w.dirs
              (eqb-behind cwd (print_hex2 k) (print_hex2 j) ∙ eqb-hex k j (λ e. omega (arith, e)))
            ∙ dir j (omega arith)))

-- the folders of a round, and of all rounds
abbrev pub fill : Bytes → ℕ → List Bytes → List Bytes
fill cwd i ds = subs (behind cwd (print_hex2 i)) 0 data_dir_count (behind cwd (print_hex2 i) ∷ ds)

unfoldable pub alls : Bytes → ℕ → ℕ → List Bytes → List Bytes
alls cwd i zero ds = ds
alls cwd i (suc n) ds = alls cwd (suc i) n (fill cwd i ds)

-- none of the folders with a number from `i` on is there
pub record NotMade (cwd : Bytes) (i : ℕ) (ds : List Bytes) : Type 0 where
  pub top : (j : ℕ) → i ≤ j → has (behind cwd (print_hex2 j)) ds ≡ false
  pub below : (j k : ℕ) → i ≤ j → has (behind (behind cwd (print_hex2 j)) (print_hex2 k)) ds ≡ false

pub record NoFiles (cwd : Bytes) (w : World) : Type 0 where
  pub top : (j : ℕ) → lookup (behind cwd (print_hex2 j)) w.files ≡ none
  pub below : (j k : ℕ) → lookup (behind (behind cwd (print_hex2 j)) (print_hex2 k)) w.files ≡ none

module _ (cwd : Bytes) where
  Runs-fill_dir :
      (i : ℕ) (w : World)
      → Calm w
      → chop_path cwd ≡ cwd
      → has cwd w.dirs ≡ true
      → NoFiles cwd w
      → NotMade cwd i w.dirs
      → Runs (fill_dir cwd i) w (ok tt (with_dirs (fill cwd i w.dirs) w))
  unfolding fill_dir
  Runs-fill_dir i w calm chopped there file not_made =
      let dir = behind cwd (print_hex2 i) in
      let v = with_dirs (dir ∷ w.dirs) w in
      let u = with_dirs (fill cwd i w.dirs) w in
      let first = has-first dir w.dirs in
      Runs-bind _ _ w
        (Runs-make_dir cwd dir i w calm chopped there (file.top i) (not_made.top i (omega arith)))
        (Runs-bind _ _ v
          (Runs-chdir dir v calm (ap (λ q. has q v.dirs) (chop_path-behind cwd i) ∙ first))
          (Runs-bind _ _ v (Runs-guard _ v refl) (
            Runs-bind _ _ v
              (Runs-sub_dirs dir (print_hex2 i) 0 data_dir_count v calm (chop_path-behind cwd i)
                first (file.below i)
                (λ j _.
                  has-other _ dir w.dirs (eqb-above dir j) ∙ not_made.below i j (omega arith)))
              (Runs-bind _ _ u
                (Runs-chdir cwd u calm (
                  ap (λ q. has q u.dirs) chopped
                  ∙ has-subs dir 0 data_dir_count cwd _ (has-later cwd dir w.dirs there)))
                (Runs-guard _ u refl)))))

  NotMade-fill : (i : ℕ) (ds : List Bytes) → NotMade cwd i ds → NotMade cwd (suc i) (fill cwd i ds)
  NotMade-fill i ds h = record {
    top = λ j more.
        has-subs_other (behind cwd (print_hex2 i)) 0 data_dir_count _ _
          (λ k. eqb-inner-outer cwd j i k)
        ∙ has-other _ _ ds
            (eqb-behind cwd (print_hex2 i) (print_hex2 j) ∙ eqb-hex i j (λ e. omega (arith, e)))
        ∙ h.top j (omega arith);
    below = λ j k more.
        has-subs_other (behind cwd (print_hex2 i)) 0 data_dir_count _ _
          (λ l. eqb-inner cwd i j l k (λ e. omega (arith, e)))
        ∙ has-other _ _ ds (eqb-outer-inner cwd i j k)
        ∙ h.below j k (omega arith);
  }

  pub Runs-all_dirs :
      (i n : ℕ) (w : World)
      → Calm w
      → chop_path cwd ≡ cwd
      → has cwd w.dirs ≡ true
      → NoFiles cwd w
      → NotMade cwd i w.dirs
      → Runs (all_dirs cwd i n) w (ok tt (with_dirs (alls cwd i n w.dirs) w))
  unfolding all_dirs alls
  Runs-all_dirs i zero w calm chopped there file not_made = Runs-pure tt w
  Runs-all_dirs i (suc n) w calm chopped there file not_made =
      let v = with_dirs (fill cwd i w.dirs) w in
      Runs-bind _ _ w (Runs-fill_dir i w calm chopped there file not_made) (
        Runs-all_dirs (suc i) n v calm chopped
          (has-subs (behind cwd (print_hex2 i)) 0 data_dir_count cwd _
            (has-later cwd _ w.dirs there))
          (record { top = file.top; below = file.below }) (NotMade-fill i w.dirs not_made))

  pub has-alls :
      (i n : ℕ) (p : Bytes) (ds : List Bytes) → has p ds ≡ true → has p (alls cwd i n ds) ≡ true
  unfolding alls
  has-alls i zero p ds h = h
  has-alls i (suc n) p ds h =
      has-alls (suc i) n p _
        (has-subs (behind cwd (print_hex2 i)) 0 data_dir_count p _ (has-later p _ ds h))

  pub has-alls_made :
      (i n j k : ℕ) (ds : List Bytes)
      → i ≤ j
      → j < i + n
      → k < data_dir_count
      → has (behind (behind cwd (print_hex2 j)) (print_hex2 k)) (alls cwd i n ds) ≡ true
  unfolding alls
  has-alls_made i zero j k ds a b c = absurd (omega arith)
  has-alls_made i (suc n) j k ds a b c = elim (le-split i j a) [
    | inl same ↦ rw (sym same) (
        has-alls (suc i) n _ _
          (has-subs_made (behind cwd (print_hex2 i)) 0 data_dir_count k _ (omega arith) c))
    | inr more ↦ has-alls_made (suc i) n j k _ more (omega arith) c
  ]

  pub has-alls_other :
      (i n : ℕ) (p : Bytes) (ds : List Bytes)
      → ((j k : ℕ) → eqb (behind (behind cwd (print_hex2 j)) (print_hex2 k)) p ≡ false)
      → ((j : ℕ) → j < i + n → eqb (behind cwd (print_hex2 j)) p ≡ false)
      → has p (alls cwd i n ds) ≡ has p ds
  unfolding alls
  has-alls_other i zero p ds f g = refl
  has-alls_other i (suc n) p ds f g =
      has-alls_other (suc i) n p _ f (λ j less. g j (omega arith))
      ∙ has-subs_other (behind cwd (print_hex2 i)) 0 data_dir_count p _ (f i)
      ∙ has-other p _ ds (g i (omega arith))
