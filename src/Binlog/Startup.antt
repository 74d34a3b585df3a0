-- ===== src/Binlog/Startup.antt =====
-- storage_sync.c: `storage_sync_init`. The folder made is `sync`, the index file written is in
-- `data/sync`, and the stream appends to the index file of `sync`.
pub mod Unopened
use demostroage.Prelude.{
  ℕ, Bool, true, false, not, none, some, ◌++◌, ◌==◌, if◌then◌else◌, Bytes, length, take, pos,
  is_neg,
}
use demostroage.Libc.{cstr, atoi}
use demostroage.Runtime.{Cmd, pure, leave, gets, block, case_option, ◌>>=◌, ◌>>◌}
use demostroage.Posix.{
  codes, enoent, einval, eisdir, attempt, errno_or, log_error, fail, fail_errno, guard, store,
  lookup, is_dir_path, parent, set_errno, file_exists, fopen_read, mkdir,
}
use demostroage.Binlog.{
  path_of, content_or_empty, change_proc, set_fp, set_index, set_size, write_to_binlog_index,
  init_pthread_lock, storage_sync_destroy,
}

-- `mkdir` of a folder that is not there
unfoldable pub make_folder : Bytes → Cmd (Unit {0})
make_folder path = do
  exists ← file_exists path
  guard exists (do made ← mkdir path; guard made (fail_errno enoent))

-- `fopen(p, "a") != NULL`: the file is made if it is not there
unfoldable pub fopen_append : Bytes → Cmd Bool
fopen_append p = do
  through ← attempt
  dir ← gets (λ w. is_dir_path w p)
  folder ← gets (λ w. is_dir_path w (parent p))
  old ← gets (λ w. content_or_empty (lookup p w.files))
  if through
      then (if dir
          then (do set_errno eisdir; pure false)
          else (if folder then (do store p old; pure true) else (do set_errno enoent; pure false)))
      else pure false

-- the index read from an index file: `fread` of up to 255 bytes, `atoi`, and its sign
unfoldable pub read_index : Bytes → Cmd (Unit {0})
read_index content = do
  through ← attempt
  guard (if through then not (length (take 255 content) == 0) else false) (fail_errno enoent)
  let index = atoi (cstr (take 255 content))
  set_index index
  guard (not (is_neg index)) (fail einval)

-- the stream that the binlog is appended to
unfoldable pub open_stream : Bytes → Cmd ℕ
open_stream filename = do
  opened ← fopen_append filename
  guard opened (do set_fp none; fail_errno enoent)
  set_fp (some filename)
  told ← attempt
  guard told (do log_error; storage_sync_destroy; e ← errno_or enoent; leave e)
  size ← gets (λ w. length (content_or_empty (lookup filename w.files)))
  set_size size
  init_pthread_lock

-- `storage_sync_init`: where the index cannot be written, the result is 0 and nothing is opened
unfoldable pub storage_sync_init : Cmd ℕ
storage_sync_init =
    block (λ e. e)
      (do
        base ← gets (λ w. w.base_path)
        make_folder (path_of (base ++ codes "/data"))
        make_folder (path_of (base ++ codes "/sync"))
        let filename = path_of (path_of (base ++ codes "/sync") ++ codes "/binlog.index")
        found ← fopen_read filename
        result ←
            case_option found (do set_index (pos 0); write_to_binlog_index)
              (λ content. do read_index content; pure 0)
        if result == 0 then open_stream filename else pure 0)
