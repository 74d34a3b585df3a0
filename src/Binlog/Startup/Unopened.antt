-- ===== src/Binlog/Startup/Unopened.antt =====
-- `storage_sync_init` on a folder that no daemon has used.
use demostroage.Prelude.{ℕ, ◌≡◌, refl, true, false, none, ◌++◌, Bytes}
use demostroage.Runtime.{World, ok, stop, crash}
use demostroage.Runtime.Runs.{
  Runs, Runs-bind, Runs-gets, Runs-pure, Runs-block, Runs-block_break, Runs-break, Runs-leave,
  Runs-none,
}
use demostroage.Posix.{codes, enoent, lookup, is_dir_path, parent, fail_errno}
use demostroage.Posix.Calm.{
  Calm, missed, Runs-guard, Runs-guard-false, Runs-log_error, Runs-errno_or, Runs-file_exists_dir,
  Runs-fopen_read-missed, Runs-fopen_write-missed,
}
use demostroage.Binlog.{path_of, index_path, write_to_binlog_index, storage_binlog_write}
use demostroage.Binlog.Writing.{change_proc-Runs, storage_binlog_write_closed}
use demostroage.Binlog.Startup.{make_folder, storage_sync_init}

-- the path of the index file that the start reads
abbrev pub sync_index : Bytes → Bytes
sync_index base = path_of (path_of (base ++ codes "/sync") ++ codes "/binlog.index")

-- The folders `data` and `sync` are there, with no index file yet. As the program makes no folder
-- `data/sync`, that is not there.
pub record IsFresh (w : World) : Type 0 where
  pub calm : Calm w
  pub data_folder : is_dir_path w (path_of (w.base_path ++ codes "/data")) ≡ true
  pub sync_folder : is_dir_path w (path_of (w.base_path ++ codes "/sync")) ≡ true
  pub no_index : lookup (sync_index w.base_path) w.files ≡ none
  pub no_folder : is_dir_path w (index_path w.base_path) ≡ false
  pub no_data_sync : is_dir_path w (parent (index_path w.base_path)) ≡ false
  pub closed : w.fp_binlog ≡ none

Runs-make_folder :
    (p : Bytes) (w : World) → Calm w → is_dir_path w p ≡ true → Runs (make_folder p) w (ok tt w)
unfolding make_folder
Runs-make_folder p w calm d =
    Runs-bind _ _ w (Runs-file_exists_dir p w calm d) (Runs-guard _ w refl)

Runs-fail_errno :
    (code : ℕ) (w : World) → Calm w → Runs (fail_errno code) (missed w) (stop enoent (missed w))
unfolding fail_errno
Runs-fail_errno code w calm =
    Runs-bind _ _ _ (Runs-log_error _ calm)
      (Runs-bind _ _ _ (Runs-errno_or code _) (Runs-leave enoent _))

Runs-write_to_binlog_index-missed :
    (w : World)
    → Calm w
    → is_dir_path w (index_path w.base_path) ≡ false
    → is_dir_path w (parent (index_path w.base_path)) ≡ false
    → Runs write_to_binlog_index w (ok enoent (missed w))
unfolding write_to_binlog_index
Runs-write_to_binlog_index-missed w calm dir folder = Runs-block_break _ _ w (
    Runs-bind _ _ w (Runs-gets _ w) (
      Runs-bind _ _ w (Runs-fopen_write-missed _ w calm dir folder)
        (Runs-break _ _ _ (Runs-guard-false _ _ refl (Runs-fail_errno enoent w calm)))))

-- Where the folders `data` and `sync` are there, but no index file, no folder `data/sync` and
-- no open stream, `storage_sync_init` answers 0 and has opened no stream, so that the first
-- `storage_binlog_write` behind it is undefined. No call fails.
pub storage_sync_init-unopened :
    (w : World)
    → IsFresh w
    → (v : World) × (storage_sync_init w ≡ ok 0 v)
      × ((op : ℕ) (filename : Bytes) → storage_binlog_write op filename v ≡ crash)
unfolding storage_sync_init
storage_sync_init-unopened w f = (
  _,
  (Runs-block _ _ w (
      Runs-bind _ _ w (Runs-gets _ w) (
        Runs-bind _ _ w (Runs-make_folder _ w f.calm f.data_folder) (
          Runs-bind _ _ w (Runs-make_folder _ w f.calm f.sync_folder) (
            Runs-bind _ _ w (Runs-fopen_read-missed _ w f.calm f.no_index) (
              Runs-bind _ _ _
                (Runs-none _ _ _ refl (
                  Runs-bind _ _ _ (change_proc-Runs _ _)
                    (Runs-write_to_binlog_index-missed _ f.calm f.no_folder f.no_data_sync)))
                (Runs-pure 0 _))))))).same,
  λ op filename. storage_binlog_write_closed op filename _ f.closed,
)
