-- ===== src/StatFile/Opening.antt =====
-- storage_func.c: reading the statistics file when the daemon starts and writing it when it ends.
use demostroage.Prelude.{
  ℕ, ◌+◌, Bool, true, false, List, [], ltb, ◌==◌, if◌then◌else◌, Bytes, pos, word, length,
}
use demostroage.Runtime.{StorageStat, Cmd, pure, gets, ◌>>=◌, ◌>>◌}
use demostroage.Posix.{
  codes, enoent, eisdir, set_errno, attempt, errno_or, log_error, store, lookup, is_some,
  is_dir_path, parent, file_exists,
}
use demostroage.Binlog.{change_proc}
use demostroage.Ini.{Item, get_int_value, Loaded, loaded, load_failed, load_items}
use demostroage.StatFile.{stat_path, storage_write_to_stat_file}

-- a counter as its bit pattern; of the two times the low half, which is all that is used of them
abbrev pub counter : Bytes → List Item → ℕ
counter name items = word (get_int_value name items (pos 0))

-- the counters of `g_storage_stat` from the items of the file
abbrev pub stat_of_items : List Item → StorageStat
stat_of_items items = record {
  total_upload_count = counter (codes "total_upload_count") items;
  success_upload_count = counter (codes "success_upload_count") items;
  total_set_meta_count = counter (codes "total_set_meta_count") items;
  success_set_meta_count = counter (codes "success_set_meta_count") items;
  total_delete_count = counter (codes "total_delete_count") items;
  success_delete_count = counter (codes "success_delete_count") items;
  total_download_count = counter (codes "total_download_count") items;
  success_download_count = counter (codes "success_download_count") items;
  total_get_meta_count = counter (codes "total_get_meta_count") items;
  success_get_meta_count = counter (codes "success_get_meta_count") items;
  last_source_update = counter (codes "last_source_update") items;
  last_sync_update = counter (codes "last_sync_update") items;
}

abbrev pub no_stat : StorageStat
no_stat = record {
  total_upload_count = 0;
  success_upload_count = 0;
  total_set_meta_count = 0;
  success_set_meta_count = 0;
  total_delete_count = 0;
  success_delete_count = 0;
  total_download_count = 0;
  success_download_count = 0;
  total_get_meta_count = 0;
  success_get_meta_count = 0;
  last_source_update = 0;
  last_sync_update = 0;
}

unfoldable pub set_stat : StorageStat → Cmd ℕ
set_stat s = do change_proc (λ p. record p { storage_stat = s }); pure 0

-- the items of the file, of which there have to be 12
unfoldable pub take_items : Loaded → Cmd ℕ
take_items (load_failed e) = do log_error; pure e
take_items (loaded items) =
    if ltb (length items) 12 then (do log_error; pure enoent) else set_stat (stat_of_items items)

unfoldable pub load_stat : Bytes → Cmd ℕ
load_stat path = do read ← load_items path; take_items read

-- `open(path, O_WRONLY | O_CREAT, 0644) >= 0`: a file that is there stays as it is
unfoldable pub open_create : Bytes → Cmd Bool
open_create p = do
  through ← attempt
  there ← gets (λ w. is_some (lookup p w.files))
  dir ← gets (λ w. is_dir_path w p)
  folder ← gets (λ w. is_dir_path w (parent p))
  if through
      then (if there
          then pure true
          else (if dir
              then (do set_errno eisdir; pure false)
              else (if folder
                  then (do store p []; pure true)
                  else (do set_errno enoent; pure false))))
      else pure false

unfoldable pub set_fd : Bool → Cmd (Unit {0})
set_fd b = change_proc λ p. record p { storage_stat_fd = b }

unfoldable pub open_stat : Bytes → Cmd ℕ
open_stat path = do
  opened ← open_create path
  set_fd opened
  if opened then storage_write_to_stat_file else (do log_error; errno_or enoent)

-- `storage_open_storage_stat`: what the file holds is taken over, and written back
unfoldable pub storage_open_storage_stat : Cmd ℕ
storage_open_storage_stat = do
  path ← gets (λ w. stat_path w.base_path)
  there ← file_exists path
  result ← if there then load_stat path else set_stat no_stat
  if result == 0 then open_stat path else pure result

-- `storage_close_storage_stat`; its result adds those of the write and of `close`
unfoldable pub storage_close_storage_stat : Cmd ℕ
storage_close_storage_stat = do
  is_open ← gets (λ w. w.storage_stat_fd)
  if is_open
      then (do
        written ← storage_write_to_stat_file
        closed ← attempt
        extra ← if closed then pure 0 else errno_or enoent
        set_fd false
        pure (written + extra))
      else pure 0
