-- ===== src/FileIo.antt =====
-- The file functions of shared_func.c.
pub mod Runs
use demostroage.Prelude.{
  ℕ, ◌-◌, ◌^◌, Option, none, some, [], if◌then◌else◌, Bytes, length, take, ltb, not, ℤ, pos, is_neg,
  to_ℕ, to_int,
}
use demostroage.Runtime.{Cmd, pure, ◌>>=◌, ◌>>◌, block, leave, undefined}
use demostroage.Posix.{
  enoent, enomem, attempt, errno_or, log_error, fail_errno, guard, store, is_some, fopen_read,
  fopen_write,
}

-- a result code and, where it is 0, the content; `*buff` is NULL and `*file_size` is 0 otherwise
pub record Content : Type 0 where
  pub code : ℕ
  pub buff : Option Bytes

abbrev pub no_content : ℕ → Content
no_content e = record { code = e; buff = none }

-- `return errno != 0 ? errno : code`
abbrev leave_errno : ℕ → Cmd (Unit {0})
leave_errno code = do e ← errno_or code; leave e

-- what `ftell` gives, in the `int` that it is kept in
abbrev pub told_size : Option Bytes → ℤ
told_size none = pos 0
told_size (some s) = to_int (pos (length s))

-- what `fread` reads: as many bytes as were allocated
abbrev pub front_of : ℕ → Option Bytes → Option Bytes
front_of n none = none
front_of n (some s) = some (take n s)

-- `getFileContent`: `fopen`, `fseek`, `ftell`, `malloc` and `fread` may each fail. A size that is
-- negative as an `int` is taken for a failed `ftell`, and that of the greatest `int` overflows where
-- one byte more is allocated.
unfoldable pub get_file_content : Bytes → Cmd Content
get_file_content filename = block no_content (do
  found ← fopen_read filename
  guard (is_some found) (leave_errno enoent)
  sought ← attempt
  guard sought (leave_errno enoent)
  told ← attempt
  guard told (leave_errno enoent)
  let file_size = told_size found
  guard (not (is_neg file_size)) (leave_errno enoent)
  guard (ltb (to_ℕ file_size) (2 ^ 31 - 1)) undefined
  allocated ← attempt
  guard allocated (leave_errno enomem)
  read ← attempt
  guard read (leave_errno enoent)
  pure (record { code = 0; buff = front_of (to_ℕ file_size) found }))

-- `fclose` of a file that was written to: what is buffered is stored, unless that fails; the
-- program does not look at the result
unfoldable pub fclose_write : Bytes → Bytes → Cmd (Unit {0})
fclose_write filename content = do
  through ← attempt
  if through then store filename content else pure tt

-- `writeToFile`; of a write that failed nothing is in the file here
unfoldable pub write_to_file : Bytes → Bytes → Cmd ℕ
write_to_file filename buff =
    block (λ e. e)
      (do
        opened ← fopen_write filename
        guard opened (fail_errno enoent)
        written ← attempt
        guard written (do log_error; fclose_write filename []; e ← errno_or enoent; leave e)
        fclose_write filename buff
        pure 0)
