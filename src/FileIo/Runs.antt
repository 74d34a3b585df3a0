-- ===== src/FileIo/Runs.antt =====
-- The file functions, where no call fails.
use mathlib.Core.Path.{subst}
use demostroage.Prelude.{
  ◌≡◌, refl, true, false, Option, none, some, [], Bytes, ◌-◌, ◌^◌, ◌<◌, arith, ltb, not, is_neg,
  to_ℕ, pos, length, take, take_all, ap, sym, ◌∙◌,
}
use demostroage.Runtime.{World, ok, pure, set_os}
use demostroage.Runtime.Runs.{
  Runs, Runs-bind, Runs-pure, Runs-block, Runs-block_break, Runs-break, Runs-leave,
}
use demostroage.Posix.{enoent, lookup, insert, is_dir_path, parent}
use demostroage.Posix.Calm.{
  Calm, Runs-attempt, Runs-guard, Runs-store, Runs-fopen_read, Runs-fopen_write,
  Runs-fopen_read-missed, Runs-guard-false, Runs-errno_or, missed,
}
use demostroage.FileIo.{Content, told_size, front_of, get_file_content, fclose_write, write_to_file}

-- the content of a file whose size is an `int`, and not the greatest one
told_size-small : (s : Bytes) → length s < 2 ^ 31 - 1 → told_size (some s) ≡ pos (length s)
told_size-small s h = ground arith

fits : (s : Bytes) → length s < 2 ^ 31 - 1 → ltb (to_ℕ (told_size (some s))) (2 ^ 31 - 1) ≡ true
fits s h = rw (told_size-small s h) (ground arith)

front_of-small :
    (s : Bytes) → length s < 2 ^ 31 - 1 → front_of (to_ℕ (told_size (some s))) (some s) ≡ some s
front_of-small s h =
    ap (λ z. some (take (to_ℕ z) s)) (told_size-small s h)
    ∙ ap some (take_all (length s) s (omega arith))

abbrev content_of : Option Bytes → Content
content_of b = record { code = 0; buff = b }

pub Runs-get_file_content :
    (p : Bytes) (w : World) {s : Bytes}
    → Calm w
    → lookup p w.files ≡ some s
    → length s < 2 ^ 31 - 1
    → Runs (get_file_content p) w (ok (record { code = 0; buff = some s }) w)
unfolding get_file_content
Runs-get_file_content p w {s} calm found small = Runs-block _ _ w (
    Runs-bind _ _ w (Runs-fopen_read p w calm found) (
      Runs-bind _ _ w (Runs-guard _ w refl) (
        Runs-bind _ _ w (Runs-attempt w calm) (
          Runs-bind _ _ w (Runs-guard _ w refl) (
            Runs-bind _ _ w (Runs-attempt w calm) (
              Runs-bind _ _ w (Runs-guard _ w refl) (
                Runs-bind _ _ w
                  (Runs-guard _ w (ap (λ z. not (is_neg z)) (told_size-small s small)))
                  (Runs-bind _ _ w (Runs-guard _ w (fits s small)) (
                    Runs-bind _ _ w (Runs-attempt w calm) (
                      Runs-bind _ _ w (Runs-guard _ w refl) (
                        Runs-bind _ _ w (Runs-attempt w calm) (
                          Runs-bind _ _ w (Runs-guard _ w refl) (
                            subst (λ b. Runs (pure (content_of b)) w (ok (content_of (some s)) w))
                              (sym (front_of-small s small)) (Runs-pure _ w))))))))))))))

-- the world after a file is stored
abbrev pub stored_at : Bytes → Bytes → World → World
stored_at p s w = set_os (record w.os { files = insert p s w.files }) w

pub Runs-fclose_write :
    (p s : Bytes) (w : World) → Calm w → Runs (fclose_write p s) w (ok tt (stored_at p s w))
unfolding fclose_write
Runs-fclose_write p s w calm = Runs-bind _ _ w (Runs-attempt w calm) (Runs-store p s w)

pub Runs-write_to_file :
    (p s : Bytes) (w : World)
    → Calm w
    → is_dir_path w p ≡ false
    → is_dir_path w (parent p) ≡ true
    → Runs (write_to_file p s) w (ok 0 (stored_at p s (stored_at p [] w)))
unfolding write_to_file
Runs-write_to_file p s w calm dir folder = Runs-block _ _ w (
    Runs-bind _ _ w (Runs-fopen_write p w calm dir folder) (
      Runs-bind _ _ _ (Runs-guard _ _ refl) (
        Runs-bind _ _ _ (Runs-attempt _ calm) (
          Runs-bind _ _ _ (Runs-guard _ _ refl)
            (Runs-bind _ _ _ (Runs-fclose_write p s _ calm) (Runs-pure 0 _))))))

pub Runs-get_file_content-missed :
    (p : Bytes) (w : World)
    → Calm w
    → lookup p w.files ≡ none
    → Runs (get_file_content p) w (ok (record { code = enoent; buff = none }) (missed w))
unfolding get_file_content
Runs-get_file_content-missed p w calm found = Runs-block_break _ _ w (
    Runs-bind _ _ w (Runs-fopen_read-missed p w calm found) (
      Runs-break _ _ _ (
        Runs-guard-false _ _ refl
          (Runs-bind _ _ _ (Runs-errno_or enoent _) (Runs-leave enoent _)))))
