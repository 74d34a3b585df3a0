-- ===== src/Binlog.antt =====
-- storage_sync.c: the binlog, its index file and its rotation.
pub mod Runs
pub mod Startup
pub mod Frames
pub mod Writing
pub mod Rotating
use demostroage.Prelude.{
  ℕ, zero, suc, ◌+◌, ◌*◌, ◌/◌, ◌%◌, Bool, true, false, not, Option, none, some, List, [], ◌∷◌, ◌++◌,
  ltb, leb, ◌==◌, if◌then◌else◌, Bytes, length, take, ℤ, pos, to_int, incr, is_neg,
}
use demostroage.Libc.{cstr, atoi, print_int, truncated}
use demostroage.Runtime.{
  World, Proc, Cmd, pure, leave, undefined, gets, modify, block, case_option, set_proc, ◌>>=◌, ◌>>◌,
}
use demostroage.Posix.{
  codes, enoent, eagain, einval, attempt, errno_or, log_error, fail, fail_errno, guard, store,
  lookup, is_some, file_exists, unlink, fopen_write, fopen_read, mkdir, time,
}
use demostroage.FileIo.{fclose_write}

-- `SYNC_BINLOG_FILE_MAX_SIZE`
abbrev pub binlog_max_size : ℕ
binlog_max_size = 1024 * 1024 * 1024

-- `snprintf` of a path into `MAX_PATH_SIZE` bytes
abbrev pub path_of : Bytes → Bytes
path_of p = truncated 255 p

-- the file that `write_to_binlog_index` writes
abbrev pub index_path : Bytes → Bytes
index_path base = path_of (base ++ codes "/data/sync/binlog.index")

abbrev digit3 : ℕ → Bytes
digit3 n = (n / 100 % 10 + 48) ∷ (n / 10 % 10 + 48) ∷ (n % 10 + 48) ∷ []

-- `%03d`
abbrev print_int3 : ℤ → Bytes
print_int3 (pos n) = if ltb n 1000 then digit3 n else print_int (pos n)
print_int3 z = print_int z

-- `get_writable_binlog_filename`
abbrev pub binlog_path : Bytes → ℤ → Bytes
binlog_path base index = path_of (base ++ (codes "/data/sync/binlog." ++ print_int3 index))

-- an assignment to global variables
unfoldable pub change_proc : (Proc → Proc) → Cmd (Unit {0})
change_proc f = modify λ w. set_proc (f w.proc) w

abbrev set_fp : Option Bytes → Cmd (Unit {0})
set_fp fp = change_proc λ p. record p { fp_binlog = fp }

abbrev set_index : ℤ → Cmd (Unit {0})
set_index i = change_proc λ p. record p { binlog_index = i }

abbrev set_size : ℕ → Cmd (Unit {0})
set_size n = change_proc λ p. record p { binlog_file_size = n }

-- `write_to_binlog_index`
unfoldable pub write_to_binlog_index : Cmd ℕ
write_to_binlog_index =
    block (λ e. e)
      (do
        base ← gets (λ w. w.base_path)
        opened ← fopen_write (index_path base)
        guard opened (fail_errno enoent)
        printed ← attempt
        guard printed
            (do log_error; fclose_write (index_path base) []; e ← errno_or enoent; leave e)
        index ← gets (λ w. w.binlog_index)
        fclose_write (index_path base) (print_int index)
        pure 0)

-- `init_pthread_lock`: four calls of the thread library
unfoldable pub init_pthread_lock : Cmd ℕ
init_pthread_lock =
    block (λ e. e)
      (do
        attr ← attempt
        guard attr (fail_errno eagain)
        kind ← attempt
        guard kind (fail_errno eagain)
        lock ← attempt
        guard lock (fail_errno eagain)
        freed ← attempt
        guard freed (fail_errno eagain)
        pure 0)

-- `storage_sync_destroy`: the stream is set to NULL and then closed
unfoldable pub storage_sync_destroy : Cmd ℕ
storage_sync_destroy =
    block (λ e. e)
      (do
        open? ← gets (λ w. is_some w.fp_binlog)
        guard (not open?) (do set_fp none; undefined)
        destroyed ← attempt
        guard destroyed (fail_errno enoent)
        pure 0)

-- `open_next_writable_binlog`
unfoldable pub open_next_writable_binlog : Cmd ℕ
open_next_writable_binlog =
    block (λ e. e)
      (do
        storage_sync_destroy
        filename ← gets (λ w. binlog_path w.base_path w.binlog_index)
        exists ← file_exists filename
        guard (not exists)
            (do unlinked ← unlink filename; guard unlinked (fail_errno enoent); log_error)
        opened ← fopen_read filename
        guard (is_some opened) (do set_fp none; fail_errno enoent)
        set_fp (some filename)
        pure 0)

-- the line of the binlog: "%d %c %s\n"
abbrev pub binlog_line : ℕ → ℕ → Bytes → Bytes
binlog_line now op filename =
    print_int (to_int (pos now)) ++ (b' ' ∷ op ∷ b' ' ∷ (filename ++ (b'\n' ∷ [])))

-- `fprintf` to the stream's buffer
abbrev buffer : Bytes → Cmd (Unit {0})
buffer line = change_proc λ p. record p { binlog_buffer = p.binlog_buffer ++ line }

abbrev pub content_or_empty : Option Bytes → Bytes
content_or_empty none = []
content_or_empty (some s) = s

-- `fflush`: the buffer goes to the end of the file
unfoldable pub flush_binlog : Bytes → Cmd Bool
flush_binlog file = do
  through ← attempt
  old ← gets (λ w. content_or_empty (lookup file w.files))
  new ← gets (λ w. w.binlog_buffer)
  if through
      then (do
        store file (old ++ new)
        change_proc (λ p. record p { binlog_buffer = [] })
        pure true)
      else pure false

-- the branch that has written a line: the size grows, and at the limit the binlog is rotated
unfoldable pub grow_binlog : ℕ → Cmd ℕ
grow_binlog written = do
  change_proc (λ p. record p { binlog_file_size = p.binlog_file_size + written })
  size ← gets (λ w. w.binlog_file_size)
  if leb binlog_max_size size
      then (do
        change_proc (λ p. record p { binlog_index = incr p.binlog_index })
        indexed ← write_to_binlog_index
        result ← (if indexed == 0 then open_next_writable_binlog else pure indexed)
        set_size 0
        if result == 0
            then pure 0
            else (do change_proc (λ p. record p { continue_flag = false }); log_error; pure result))
      else pure 0

-- a line is flushed, and the binlog has grown by it
unfoldable pub flush_line : Bytes → Bytes → Cmd ℕ
flush_line file line = do
  buffer line
  flushed ← flush_binlog file
  if flushed then grow_binlog (length line) else (do log_error; errno_or enoent)

-- what `storage_binlog_write` does while it holds the lock. A failing `fprintf` is logged with a
-- format whose `%s` is given a line number, which is undefined.
unfoldable pub put_line : Bytes → ℕ → Bytes → Cmd ℕ
put_line file op filename = do
  now ← time
  printed ← attempt
  guard printed undefined
  flush_line file (binlog_line now op filename)

-- `storage_binlog_write` on an open stream
unfoldable pub write_line : Bytes → ℕ → Bytes → Cmd ℕ
write_line file op filename =
    block (λ e. e)
      (do
        locked ← attempt
        guard locked (fail_errno enoent)
        result ← put_line file op filename
        unlocked ← attempt
        guard unlocked (fail_errno enoent)
        pure result)

-- `storage_binlog_write`: `fileno(NULL)` is undefined
unfoldable pub storage_binlog_write : ℕ → Bytes → Cmd ℕ
storage_binlog_write op filename = do
  fp ← gets (λ w. w.fp_binlog)
  case_option fp undefined λ file. write_line file op filename
