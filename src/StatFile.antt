-- ===== src/StatFile.antt =====
-- storage_func.c: the statistics file.
pub mod Opening
pub mod RoundTrip
pub mod Restarting
use demostroage.Prelude.{ℕ, Bool, false, List, [], ◌∷◌, ◌++◌, if◌then◌else◌, Bytes, pos, to_int}
use demostroage.Libc.{print_int}
use demostroage.Runtime.{StorageStat, Cmd, pure, gets, block, ◌>>=◌, ◌>>◌}
use demostroage.Posix.{codes, enoent, ebadf, set_errno, attempt, fail_errno, guard, store}
use demostroage.Binlog.{path_of}

-- `get_storage_stat_filename`
abbrev pub stat_path : Bytes → Bytes
stat_path base = path_of (base ++ codes "/data/storage_stat.dat")

-- one line "%s=%d\n" of a counter, an `int`
abbrev pub stat_line : Bytes → ℕ → Bytes
stat_line item n = item ++ (b'=' ∷ (print_int (to_int (pos n)) ++ (b'\n' ∷ [])))

-- the items in the order of the file
abbrev pub stat_items : StorageStat → List (Bytes × ℕ)
stat_items s =
    (codes "total_upload_count", s.total_upload_count)
    ∷ (codes "success_upload_count", s.success_upload_count)
    ∷ (codes "total_download_count", s.total_download_count)
    ∷ (codes "success_download_count", s.success_download_count)
    ∷ (codes "last_source_update", s.last_source_update)
    ∷ (codes "last_sync_update", s.last_sync_update)
    ∷ (codes "total_set_meta_count", s.total_set_meta_count)
    ∷ (codes "success_set_meta_count", s.success_set_meta_count)
    ∷ (codes "total_delete_count", s.total_delete_count)
    ∷ (codes "success_delete_count", s.success_delete_count)
    ∷ (codes "total_get_meta_count", s.total_get_meta_count)
    ∷ (codes "success_get_meta_count", s.success_get_meta_count)
    ∷ []

unfoldable pub stat_lines : List (Bytes × ℕ) → Bytes
stat_lines [] = []
stat_lines ((item, n) ∷ items) = stat_line item n ++ stat_lines items

-- a call on the descriptor: it fails with EBADF where the file is not open
unfoldable pub on_fd : Cmd Bool
on_fd = do
  is_open ← gets (λ w. w.storage_stat_fd)
  if is_open then attempt else (do set_errno ebadf; pure false)

-- `storage_write_to_fd` on `storage_stat_fd`: the file is emptied before it is written
unfoldable pub storage_write_to_fd : Bytes → Bytes → Cmd ℕ
storage_write_to_fd path buff =
    block (λ e. e)
      (do
        truncated? ← on_fd
        guard truncated? (fail_errno enoent)
        store path []
        sought ← on_fd
        guard sought (fail_errno enoent)
        written ← on_fd
        guard written (fail_errno enoent)
        store path buff
        synced ← on_fd
        guard synced (fail_errno enoent)
        pure 0)

-- `storage_write_to_stat_file`
unfoldable pub storage_write_to_stat_file : Cmd ℕ
storage_write_to_stat_file = do
  path ← gets (λ w. stat_path w.base_path)
  text ← gets (λ w. stat_lines (stat_items w.storage_stat))
  storage_write_to_fd path text
