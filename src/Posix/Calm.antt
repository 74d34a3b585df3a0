-- ===== src/Posix/Calm.antt =====
-- System calls that all go through.
use demostroage.Prelude.{ℕ, ◌≡◌, refl, ◌∙◌, Bool, true, false, ◌||◌, some, [], Bytes}
use demostroage.Runtime.{set_os, Run, World, ok, stop, Cmd, pure, leave, ◌>>=◌, ◌>>◌}
use demostroage.Runtime.Runs.{Runs, Runs-if_true, Runs-if_false, Runs-pure, Runs-bind, bind-ok}
use demostroage.Prelude.{List, ap, if◌then◌else◌, ◌==◌, none}
use demostroage.Runtime.Runs.{Runs-gets}
use demostroage.Runtime.Runs.{pure-ok}
use demostroage.Posix.{
  eisdir, errno_or, enoent, set_errno, fopen_write, parent, unlink, remove, attempt, log_error,
  fail, guard, lookup, file_exists, is_some, is_dir_path, time, next_or, store, change_files,
  insert, fopen_read,
}

-- no coming call fails
abbrev pub Calm : World → Type 0
Calm w = w.outcomes ≡ []

pub attempt-Calm : (w : World) → Calm w → attempt w ≡ ok true w
unfolding attempt
attempt-Calm w h = rw h

pub log_error-Calm : (w : World) → Calm w → log_error w ≡ ok tt w
unfolding log_error ◌>>=◌
log_error-Calm w h = bind-ok attempt (λ _. pure tt) w (attempt-Calm w h)

pub fail-Calm : (s : ℕ) (w : World) → Calm w → fail s w ≡ stop s w
unfolding fail ◌>>=◌
fail-Calm s w h = bind-ok log_error (λ _. leave s) w (log_error-Calm w h)

module _ {A : Type 0} where
  pub bind-guard :
      {b : Bool} (m : Cmd (Unit {0})) (k : Cmd A) (w : World) → b ≡ true → (guard b m >> k) w ≡ k w
  unfolding guard ◌>>=◌
  bind-guard m k w h = rw h

  pub bind-attempt : (k : Bool → Cmd A) (w : World) → Calm w → (attempt >>= k) w ≡ k true w
  bind-attempt k w h = bind-ok attempt k w (attempt-Calm w h)

-- with a guard behind it
module _ {A : Type 0} where
  pub bind-checked :
      (m : Cmd (Unit {0})) (k : Cmd A) (w : World)
      → Calm w
      → (attempt >>= λ b. guard b m >> k) w ≡ k w
  bind-checked m k w h = bind-attempt (λ b. guard b m >> k) w h ∙ bind-guard m k w refl

or-true : (a b : Bool) → b ≡ true → (a || b) ≡ true
or-true true b h = refl
or-true false b h = h

pub file_exists-dir :
    (p : Bytes) (w : World) → Calm w → is_dir_path w p ≡ true → file_exists p w ≡ ok true w
unfolding file_exists ◌>>=◌
file_exists-dir p w h d =
    rw (attempt-Calm w h, or-true (is_some (lookup p w.files)) (is_dir_path w p) d)

pub fopen_read-Calm :
    (p : Bytes) (w : World) {s : Bytes}
    → Calm w
    → lookup p w.files ≡ some s
    → fopen_read p w ≡ ok (some s) w
unfolding fopen_read ◌>>=◌
fopen_read-Calm p w h f = rw (attempt-Calm w h, f)

pub Runs-attempt : (w : World) → Calm w → Runs attempt w (ok true w)
Runs-attempt w h = record { same = attempt-Calm w h }

pub Runs-log_error : (w : World) → Calm w → Runs log_error w (ok tt w)
Runs-log_error w h = record { same = log_error-Calm w h }

pub Runs-guard :
    {b : Bool} (m : Cmd (Unit {0})) (w : World) → b ≡ true → Runs (guard b m) w (ok tt w)
unfolding guard
Runs-guard m w h = Runs-if_true (pure tt) m w h (Runs-pure tt w)

pub Runs-guard-false :
    {b : Bool} (m : Cmd (Unit {0})) (w : World) {r : Run (Unit {0})}
    → b ≡ false
    → Runs m w r
    → Runs (guard b m) w r
unfolding guard
Runs-guard-false m w h k = Runs-if_false (pure tt) m w h k

pub Runs-time :
    (w : World)
    → Runs time w
        (ok (next_or 0 w.times).0 (set_os (record w.os { times = (next_or 0 w.times).1 }) w))
unfolding time
Runs-time w = record { same = refl }

Runs-change_files :
    (f : List (Bytes × Bytes) → List (Bytes × Bytes)) (w : World)
    → Runs (change_files f) w (ok tt (set_os (record w.os { files = f w.files }) w))
unfolding change_files ◌>>=◌
Runs-change_files f w = record { same = refl }

pub Runs-store :
    (p s : Bytes) (w : World)
    → Runs (store p s) w (ok tt (set_os (record w.os { files = insert p s w.files }) w))
unfolding store change_files ◌>>=◌
Runs-store p s w = record { same = refl }

pub Runs-fopen_read :
    (p : Bytes) (w : World) {s : Bytes}
    → Calm w
    → lookup p w.files ≡ some s
    → Runs (fopen_read p) w (ok (some s) w)
Runs-fopen_read p w h f = record { same = fopen_read-Calm p w h f }

module _ {A : Type 0} where
  -- a call with its guard
  pub Runs-checked :
      (m : Cmd (Unit {0})) (k : Cmd A) (w : World) {r : Run A}
      → Calm w
      → Runs k w r
      → Runs (attempt >>= λ b. guard b m >> k) w r
  Runs-checked m k w h rest =
      Runs-bind _ _ w (Runs-attempt w h) (Runs-bind _ _ w (Runs-guard m w refl) rest)

pub Runs-fopen_write :
    (p : Bytes) (w : World)
    → Calm w
    → is_dir_path w p ≡ false
    → is_dir_path w (parent p) ≡ true
    → Runs (fopen_write p) w (ok true (set_os (record w.os { files = insert p [] w.files }) w))
unfolding fopen_write
Runs-fopen_write p w calm dir folder = Runs-bind _ _ w (Runs-attempt w calm) (
    Runs-bind _ _ w (Runs-gets _ w) (
      Runs-bind _ _ w (Runs-gets _ w) (
        Runs-if_false _ _ w dir
          (Runs-if_true _ _ w folder (Runs-bind _ _ w (Runs-store p [] w) (Runs-pure true _))))))

pub Runs-unlink :
    (p : Bytes) (w : World) {s : Bytes}
    → Calm w
    → lookup p w.files ≡ some s
    → Runs (unlink p) w (ok true (set_os (record w.os { files = remove p w.files }) w))
unfolding unlink
Runs-unlink p w calm found = Runs-bind _ _ w (Runs-attempt w calm) (
    Runs-bind _ _ w (Runs-gets _ w) (
      Runs-bind _ _ w (Runs-gets _ w) (
        Runs-if_true _ _ w (ap is_some found)
          (Runs-bind _ _ w (Runs-change_files _ w) (Runs-pure true _)))))

pub Runs-file_exists :
    (p : Bytes) (w : World) {s : Bytes}
    → Calm w
    → lookup p w.files ≡ some s
    → Runs (file_exists p) w (ok true w)
unfolding file_exists
Runs-file_exists p w calm found = Runs-bind _ _ w (Runs-attempt w calm) (
    Runs-bind _ _ w (Runs-gets _ w)
      (Runs-if_true _ _ w (ap (λ o. is_some o || is_dir_path w p) found) (Runs-pure true w)))

-- the world after a call that found nothing
abbrev pub missed : World → World
missed w = set_os (record w.os { errno = enoent }) w

pub Runs-set_errno :
    (e : ℕ) (w : World) → Runs (set_errno e) w (ok tt (set_os (record w.os { errno = e }) w))
unfolding set_errno ◌>>=◌
Runs-set_errno e w = record { same = refl }

pub Runs-fopen_read-missed :
    (p : Bytes) (w : World)
    → Calm w
    → lookup p w.files ≡ none
    → Runs (fopen_read p) w (ok none (missed w))
unfolding fopen_read
Runs-fopen_read-missed p w calm found = Runs-bind _ _ w (Runs-attempt w calm) (
    Runs-bind _ _ w (Runs-gets _ w) (
      Runs-if_false _ _ w (ap is_some found)
        (Runs-bind _ _ w (Runs-set_errno enoent w) (Runs-pure none _))))

pub Runs-errno_or :
    (code : ℕ) (w : World) → Runs (errno_or code) w (ok (if w.errno == 0 then code else w.errno) w)
unfolding errno_or
Runs-errno_or code w = Runs-gets _ w

pub Runs-file_exists-missed :
    (p : Bytes) (w : World)
    → Calm w
    → lookup p w.files ≡ none
    → is_dir_path w p ≡ false
    → Runs (file_exists p) w (ok false (missed w))
unfolding file_exists
Runs-file_exists-missed p w calm found dir = Runs-bind _ _ w (Runs-attempt w calm) (
    Runs-bind _ _ w (Runs-gets _ w) (
      Runs-if_false _ _ w (ap (λ o. is_some o || is_dir_path w p) found ∙ dir)
        (Runs-bind _ _ w (Runs-set_errno enoent w) (Runs-pure false _))))

pub Runs-file_exists_dir :
    (p : Bytes) (w : World) → Calm w → is_dir_path w p ≡ true → Runs (file_exists p) w (ok true w)
Runs-file_exists_dir p w calm d = record { same = file_exists-dir p w calm d }

-- a file whose folder is not there
pub Runs-fopen_write-missed :
    (p : Bytes) (w : World)
    → Calm w
    → is_dir_path w p ≡ false
    → is_dir_path w (parent p) ≡ false
    → Runs (fopen_write p) w (ok false (missed w))
unfolding fopen_write
Runs-fopen_write-missed p w calm dir folder = Runs-bind _ _ w (Runs-attempt w calm) (
    Runs-bind _ _ w (Runs-gets _ w) (
      Runs-bind _ _ w (Runs-gets _ w) (
        Runs-if_false _ _ w dir (
          Runs-if_false _ _ w folder
            (Runs-bind _ _ w (Runs-set_errno enoent w) (Runs-pure false _))))))

pub Runs-unlink-missed :
    (p : Bytes) (w : World)
    → Calm w
    → lookup p w.files ≡ none
    → is_dir_path w p ≡ false
    → Runs (unlink p) w (ok false (missed w))
unfolding unlink
Runs-unlink-missed p w calm found dir = Runs-bind _ _ w (Runs-attempt w calm) (
    Runs-bind _ _ w (Runs-gets _ w) (
      Runs-bind _ _ w (Runs-gets _ w) (
        Runs-if_false _ _ w (ap is_some found) (
          Runs-bind _ _ w (Runs-set_errno (if is_dir_path w p then eisdir else enoent) w) (record {
            same =
                ap
                  (λ d.
                    pure false (set_os (record w.os { errno = if d then eisdir else enoent }) w))
                  dir
                ∙ pure-ok false _;
          })))))
