-- ===== src/Service/Deleting.antt =====
-- `storage_delete_file` and `storage_sync_delete_file`.
pub mod Removes
pub mod Sources
use demostroage.Prelude.{Bytes, ℕ, ◌++◌, ◌==◌, if◌then◌else◌, ℤ}
use demostroage.Runtime.{Cmd, pure, leave, gets, block, ◌>>=◌, ◌>>◌}
use demostroage.Posix.{enoent, eacces, einval, errno_or, log_error, fail, fail_errno, guard, unlink}
use demostroage.Binlog.{storage_binlog_write}
use demostroage.Service.{data_path, meta_ext, recv_name_request, reply_status}

-- a failed `unlink` of a file that is not there is passed over; any other sets the status
unfoldable pub missing_is_fine : Cmd (Unit {0})
missing_is_fine = do
  log_error
  e ← gets (λ w. w.errno)
  if e == enoent then pure tt else (do s ← errno_or eacces; leave s)

-- the metadata goes after the file
unfoldable pub delete_meta : Bytes → Bytes → Cmd ℕ
delete_meta full filename = do
  meta_unlinked ← unlink (full ++ meta_ext)
  guard meta_unlinked missing_is_fine
  storage_binlog_write b'D' (filename ++ meta_ext)

-- the file that was asked for
unfoldable pub delete_named : Bytes → Cmd ℕ
delete_named filename = do
  full ← gets (λ w. data_path w.base_path filename)
  unlinked ← unlink full
  guard unlinked (fail_errno eacces)
  logged ← storage_binlog_write b'D' filename
  guard (logged == 0) (leave logged)
  delete_meta full filename

-- `storage_delete_file`
unfoldable pub storage_delete_file : ℤ → Cmd ℕ
storage_delete_file n = do
  status ← block (λ e. e) (do filename ← recv_name_request n (fail einval); delete_named filename)
  reply_status status

-- a failed `unlink` of a replica: its errno is tested before anything is logged
unfoldable pub replica_missing_is_fine : Cmd (Unit {0})
replica_missing_is_fine = do
  e ← gets (λ w. w.errno)
  if e == enoent then log_error else fail_errno eacces

-- `storage_sync_delete_file`
unfoldable pub storage_sync_delete_file : ℤ → Cmd ℕ
storage_sync_delete_file n = do
  status ←
      block (λ e. e)
        (do
          filename ← recv_name_request n (fail einval)
          full ← gets (λ w. data_path w.base_path filename)
          unlinked ← unlink full
          guard unlinked replica_missing_is_fine
          storage_binlog_write b'd' filename)
  reply_status status
