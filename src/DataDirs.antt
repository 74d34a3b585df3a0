-- ===== src/DataDirs.antt =====
-- storage_func.c: the folders of the data, and the file that marks them as made. A path that the
-- code gives relative to its working directory stands here behind that directory; the base path is
-- absolute.
pub mod Paths
pub mod Making
pub mod Entering
pub mod Fresh
use demostroage.Prelude.{
  ℕ, zero, suc, Bool, true, false, [], ◌∷◌, ◌++◌, ◌&&◌, ◌==◌, if◌then◌else◌, Bytes, ℤ, pos, to_int,
}
use demostroage.Libc.{print_hex2, print_int}
use demostroage.Runtime.{World, Cmd, pure, gets, block, ◌>>=◌, ◌>>◌}
use demostroage.Posix.{
  codes, enoent, eexist, enotdir, attempt, set_errno, fail_errno, guard, on_disk, is_dir_path,
  file_exists, mkdir, time,
}
use demostroage.FileIo.{write_to_file}
use demostroage.Binlog.{path_of}
use demostroage.Reporter.{change_reports}

-- `DATA_DIR_COUNT_PER_PATH`
abbrev pub data_dir_count : ℕ
data_dir_count = 16

-- a path behind a working directory
abbrev pub behind : Bytes → Bytes → Bytes
behind cwd name = cwd ++ (b'/' ∷ name)

abbrev pub data_dir : Bytes → Bytes
data_dir base = path_of (base ++ codes "/data")

-- `DATA_DIR_INITED_FILENAME`
abbrev pub init_flag : Bytes
init_flag = codes ".data_init_flag"

abbrev pub init_flag_path : Bytes → Bytes
init_flag_path base = path_of (base ++ (codes "/data/" ++ init_flag))

abbrev print_bool : Bool → Bytes
print_bool b = if b then codes "1" else codes "0"

-- the four lines of that file
abbrev pub init_lines : ℤ → Bool → Bytes → ℤ → Bytes
init_lines join_time sync_old_done src_ip_addr until_timestamp =
    codes "storage_join_time="
    ++ (print_int join_time
        ++ (b'\n'
            ∷ (codes "sync_old_done="
                ++ (print_bool sync_old_done
                    ++ (b'\n'
                        ∷ (codes "sync_src_server="
                            ++ (src_ip_addr
                                ++ (b'\n'
                                    ∷ (codes "sync_until_timestamp="
                                        ++ (print_int until_timestamp ++ (b'\n' ∷ [])))))))))))

-- `storage_write_to_sync_ini_file`, which opens, prints and closes as `writeToFile` does
unfoldable pub storage_write_to_sync_ini_file : Cmd ℕ
storage_write_to_sync_ini_file = do
  base ← gets (λ w. w.base_path)
  r ← gets (λ w. w.reports)
  write_to_file (init_flag_path base)
      (init_lines r.storage_join_time r.sync_old_done r.sync_src_ip_addr r.sync_until_timestamp)

-- `chdir(p) == 0`
unfoldable pub chdir : Bytes → Cmd Bool
chdir p = do
  through ← attempt
  there ← gets (λ w. on_disk w p)
  dir ← gets (λ w. is_dir_path w p)
  if through
      then (if dir
          then pure true
          else (do set_errno (if there then enotdir else enoent); pure false))
      else pure false

-- `EEXIST == errno && isDir(p)`
unfoldable pub is_old_dir : Bytes → Cmd Bool
is_old_dir p = do
  code ← gets (λ w. w.errno)
  if code == eexist
      then (do through ← attempt; dir ← gets (λ w. is_dir_path w p); pure (through && dir))
      else pure false

-- a folder is made, unless `tested` is there, or the folder
unfoldable pub make_dir : Bytes → Bytes → Cmd (Unit {0})
make_dir p tested = do
  made ← mkdir p
  if made then pure tt else (do
    there ← file_exists tested
    if there then pure tt else (do old ← is_old_dir p; guard old (fail_errno enoent)))

-- the inner loop, with `n` rounds left, in the folder `cwd`; it tests for the name of that folder
unfoldable pub sub_dirs : Bytes → Bytes → ℕ → ℕ → Cmd (Unit {0})
sub_dirs cwd dir_name k zero = pure tt
sub_dirs cwd dir_name k (suc n) = do
  make_dir (behind cwd (print_hex2 k)) (behind cwd dir_name)
  sub_dirs cwd dir_name (suc k) n

-- a round of the outer loop
unfoldable pub fill_dir : Bytes → ℕ → Cmd (Unit {0})
fill_dir cwd i = do
  let dir = behind cwd (print_hex2 i)
  make_dir dir dir
  inside ← chdir dir
  guard inside (fail_errno enoent)
  sub_dirs dir (print_hex2 i) 0 data_dir_count
  outside ← chdir cwd
  guard outside (fail_errno enoent)

-- the outer loop, with `n` rounds left
unfoldable pub all_dirs : Bytes → ℕ → ℕ → Cmd (Unit {0})
all_dirs cwd i zero = pure tt
all_dirs cwd i (suc n) = do fill_dir cwd i; all_dirs cwd (suc i) n

-- the folder of the data, as the working directory
unfoldable pub enter_data : Bytes → Bytes → Cmd Bytes
enter_data start data_path = do
  there ← file_exists data_path
  if there then pure tt else (do made ← mkdir data_path; guard made (fail_errno enoent))
  inside ← chdir data_path
  if inside
      then pure data_path
      else (do made ← mkdir data_path; guard made (fail_errno enoent); pure start)

-- `storage_check_and_make_data_dirs` of a daemon that was started in a folder
unfoldable pub storage_check_and_make_data_dirs : Bytes → Cmd ℕ
storage_check_and_make_data_dirs start =
    block (λ e. e)
      (do
        base ← gets (λ w. w.base_path)
        cwd ← enter_data start (data_dir base)
        file_exists (behind cwd init_flag)
        now ← time
        change_reports (λ r. record r { storage_join_time = to_int (pos now) })
        all_dirs cwd 0 data_dir_count
        storage_write_to_sync_ini_file)
