-- ===== src/Posix/Frames.antt =====
-- Which system calls keep which predicates.
use demostroage.Prelude.{◌==◌, ℕ, refl, Bool, inl, inr, Bool-cases, List, Bytes}
use demostroage.Runtime.{World, Cmd, pure}
use demostroage.Runtime.Keeps.{
  Keeps, Ends, keeps_rules, Keeps-pure, Keeps-leave, Keeps-gets, Keeps-if, Keeps-block, Keeps-bind,
  Keeps-modify,
}
use demostroage.Runtime.Frames.{Quiet, Writes}
use demostroage.Posix.{
  set_errno, attempt, next_outcome, errno_or, log_error, fail, fail_errno, guard, file_exists,
  unlink, store, change_files, add_dir, fopen_write, fopen_read, mkdir, time, rand,
}

module _ {P : World → Type 0} where
  pub Keeps-guard : (b : Bool) (m : Cmd (Unit {0})) → Keeps P m → Keeps P (guard b m)
  unfolding guard
  Keeps-guard b m k = Keeps-if b (pure tt) m (Keeps-pure tt) k

  pub Keeps-attempt : Quiet P → Keeps P attempt
  unfolding attempt
  Keeps-attempt q = record {
    at = λ w h. elim (Bool-cases ((next_outcome w.outcomes).0 == 0)) [
      | inl through ↦ rw through (q.free w _ refl refl h)
      | inr failed ↦ rw failed (q.free w _ refl refl h)
    ];
  }

  pub Keeps-set_errno : (e : ℕ) → Quiet P → Keeps P (set_errno e)
  unfolding set_errno
  Keeps-set_errno e q = Keeps-modify _ (λ w h. q.free w _ refl refl h)

  pub Keeps-errno_or : (code : ℕ) → Keeps P (errno_or code)
  unfolding errno_or
  Keeps-errno_or code = Keeps-gets _

  pub Keeps-time : Quiet P → Keeps P time
  unfolding time
  Keeps-time q = record { at = λ w h. q.free w _ refl refl h }

  pub Keeps-rand : Quiet P → Keeps P rand
  unfolding rand
  Keeps-rand q = record { at = λ w h. q.free w _ refl refl h }

  pub Keeps-change_files :
      (f : List (Bytes × Bytes) → List (Bytes × Bytes)) → Writes P → Keeps P (change_files f)
  unfolding change_files
  Keeps-change_files f wr = Keeps-modify _ (λ w h. wr.free w _ h)

  pub Keeps-add_dir : (p : Bytes) → Writes P → Keeps P (add_dir p)
  unfolding add_dir
  Keeps-add_dir p wr = Keeps-modify _ (λ w h. wr.free w _ h)

  pub Keeps-store : (p content : Bytes) → Writes P → Keeps P (store p content)
  unfolding store
  Keeps-store p content f = Keeps-change_files _ f

pub ruleset quiet_rules = (
  keeps_rules, Keeps-guard, Keeps-attempt, Keeps-set_errno, Keeps-errno_or, Keeps-time, Keeps-rand,
)

module _ {P : World → Type 0} where
  pub Keeps-log_error : Quiet P → Keeps P log_error
  unfolding log_error
  Keeps-log_error q = search quiet_rules

  pub Keeps-fail : (s : ℕ) → Quiet P → Keeps P (fail s)
  unfolding fail
  Keeps-fail s q = search (quiet_rules, Keeps-log_error)

  pub Keeps-fail_errno : (s : ℕ) → Quiet P → Keeps P (fail_errno s)
  unfolding fail_errno
  Keeps-fail_errno s q = search (quiet_rules, Keeps-log_error)

  pub Keeps-file_exists : (p : Bytes) → Quiet P → Keeps P (file_exists p)
  unfolding file_exists
  Keeps-file_exists p q = search quiet_rules depth 12

  pub Keeps-fopen_read : (p : Bytes) → Quiet P → Keeps P (fopen_read p)
  unfolding fopen_read
  Keeps-fopen_read p q = search quiet_rules depth 12

module _ {P : World → Type 0} where
  pub Keeps-unlink : (p : Bytes) → Quiet P → Writes P → Keeps P (unlink p)
  unfolding unlink
  Keeps-unlink p q f = search (quiet_rules, Keeps-change_files) depth 12

  pub Keeps-fopen_write : (p : Bytes) → Quiet P → Writes P → Keeps P (fopen_write p)
  unfolding fopen_write
  Keeps-fopen_write p q f = search (quiet_rules, Keeps-store) depth 12

  pub Keeps-mkdir : (p : Bytes) → Quiet P → Writes P → Keeps P (mkdir p)
  unfolding mkdir
  Keeps-mkdir p q f = search (quiet_rules, Keeps-add_dir) depth 12

pub ruleset posix_rules = (
  quiet_rules, Keeps-log_error, Keeps-fail, Keeps-fail_errno, Keeps-file_exists, Keeps-fopen_read,
  Keeps-store, Keeps-unlink, Keeps-fopen_write, Keeps-mkdir,
)
