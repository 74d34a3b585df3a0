-- ===== src/Tests/Binlogs.antt =====
-- The binlog of a daemon on a folder that no daemon has used, and of one about to rotate.
use demostroage.Prelude.{ℕ, ◌≡◌, refl, inr, true, false, none, [], ◌∷◌, Bytes, arith}
use demostroage.Shared.{chop_path}
use demostroage.Runtime.{World, ok, crash}
use demostroage.Posix.{codes, has, is_dir_path, lookup, parent}
use demostroage.Binlog.{index_path, storage_binlog_write}
use demostroage.Binlog.Rotating.{storage_binlog_write-crash}
use demostroage.Binlog.Startup.{storage_sync_init}
use demostroage.Binlog.Startup.Unopened.{IsFresh, sync_index, storage_sync_init-unopened}
use demostroage.Tests.{daemon}

-- the folders that `storage_sync_init` makes are there, and no file
abbrev fresh : World
fresh = record daemon {
  os = record daemon.os { files = []; dirs = codes "/d/data" ∷ codes "/d/sync" ∷ [] };
  proc = record daemon.proc { fp_binlog = none };
}

fresh_folders :
    (is_dir_path fresh (codes "/d/data") ≡ true) × (is_dir_path fresh (codes "/d/sync") ≡ true)
unfolding has chop_path
fresh_folders = (refl, refl)

fresh_no_folders :
    (is_dir_path fresh (index_path (codes "/d")) ≡ false)
    × (is_dir_path fresh (parent (index_path (codes "/d"))) ≡ false)
unfolding has chop_path parent
fresh_no_folders = (refl, refl)

fresh_no_index : lookup (sync_index (codes "/d")) fresh.files ≡ none
unfolding lookup
fresh_no_index = refl

fresh-IsFresh : IsFresh fresh
fresh-IsFresh = record {
  calm = refl;
  data_folder = fresh_folders.0;
  sync_folder = fresh_folders.1;
  no_index = fresh_no_index;
  no_folder = fresh_no_folders.0;
  no_data_sync = fresh_no_folders.1;
  closed = refl;
}

storage_sync_init-unopened_example :
    (v : World) × (storage_sync_init fresh ≡ ok 0 v)
    × ((op : ℕ) (filename : Bytes) → storage_binlog_write op filename v ≡ crash)
storage_sync_init-unopened_example = storage_sync_init-unopened fresh fresh-IsFresh

-- the index file can be written, and the limit is reached
abbrev nearly_full : World
nearly_full = record daemon {
  os = record daemon.os { dirs = codes "/d/data/sync" ∷ [] };
  proc = record daemon.proc { binlog_file_size = 1073741824 };
}

nearly_full_index :
    (is_dir_path nearly_full (index_path (codes "/d")) ≡ false)
    × (is_dir_path nearly_full (parent (index_path (codes "/d"))) ≡ true)
unfolding has chop_path parent
nearly_full_index = (refl, refl)

storage_binlog_write-crash_example : storage_binlog_write b'D' (codes "ab") nearly_full ≡ crash
storage_binlog_write-crash_example = storage_binlog_write-crash b'D' (codes "ab") nearly_full (
    inr
      (refl, record { no_folder = nearly_full_index.0; folder = nearly_full_index.1 }, omega arith))
