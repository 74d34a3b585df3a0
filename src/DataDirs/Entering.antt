-- ===== src/DataDirs/Entering.antt =====
-- What a start finds and leaves in the folder `data`, and how it gets into it.

use demostroage.Prelude.{
  List, Bool, ℕ, ◌≤◌, ◌<◌, ◌≡◌, ◌≢◌, refl, ap, ◌∙◌, true, false, none, some, [], ◌∷◌, ◌++◌, Bytes,
  length, append_assoc, pos, to_int,
}
use demostroage.Libc.{print_hex2}
use demostroage.Shared.{chop_path}
use demostroage.Runtime.{World, ok, set_os, set_proc}
use demostroage.Runtime.Runs.{Runs, Runs-bind, Runs-pure}
use demostroage.Posix.{codes, has, lookup, is_dir_path, next_or, enoent}
use demostroage.Posix.Calm.{Calm, missed, Runs-guard, Runs-file_exists-missed, Runs-file_exists_dir}
use demostroage.DataDirs.{behind, data_dir_count, init_flag, init_lines, enter_data}
use demostroage.DataDirs.Paths.{chop_path-data, parent-behind}
use demostroage.DataDirs.Making.{with_dirs, alls, Runs-mkdir, Runs-chdir, has-first}

-- the folder of the data, where its path is not cut off
abbrev pub data_of : World → Bytes
data_of w = w.base_path ++ codes "/data"

-- No call fails, the base path is a folder, and nothing lies in its folder `data`. That folder may
-- be there: `storage_sync_init` makes it.
pub record IsFresh (w : World) : Type 0 where
  pub calm : Calm w
  pub chopped : chop_path w.base_path ≡ w.base_path
  pub short : length w.base_path ≤ 200
  pub folder : has w.base_path w.dirs ≡ true
  pub no_dirs : (p : Bytes) → has (w.base_path ++ (codes "/data/" ++ p)) w.dirs ≡ false
  pub no_files : (p : Bytes) → lookup (w.base_path ++ (codes "/data" ++ p)) w.files ≡ none

abbrev pub flag_of : World → Bytes
flag_of w = behind (data_of w) init_flag

-- what such a start leaves behind
pub record IsPrepared (w v : World) : Type 0 where
  pub made :
      (i k : ℕ)
      → i < data_dir_count
      → k < data_dir_count
      → has (behind (behind (data_of w) (print_hex2 i)) (print_hex2 k)) v.dirs ≡ true
  pub no_more :
      (i : ℕ) → data_dir_count ≤ i → has (behind (data_of w) (print_hex2 i)) v.dirs ≡ false
  pub flag :
      lookup (flag_of w) v.files
      ≡ some (
          init_lines
            (to_int (pos (next_or 0 w.times).0))
            w.reports.sync_old_done
            w.reports.sync_src_ip_addr
            w.reports.sync_until_timestamp)
  pub others : (p : Bytes) → flag_of w ≢ p → lookup p v.files ≡ lookup p w.files

-- the worlds in between: the folder is there, the time is taken, the folders in it are made
abbrev pub entered : ℕ → List Bytes → World → World
entered e ds w = set_os (record w.os { errno = e; dirs = ds }) w

abbrev pub timed : List Bytes → World → World
timed ds w = set_os (record w.os { errno = enoent; dirs = ds; times = (next_or 0 w.times).1 }) w

abbrev pub joined : List Bytes → World → World
joined ds w =
    set_proc
      (record w.proc {
        reports = record w.reports { storage_join_time = to_int (pos (next_or 0 w.times).0) };
      })
      (timed ds w)

abbrev pub prepared : List Bytes → World → World
prepared ds w = with_dirs (alls (data_of w) 0 data_dir_count ds) (joined ds w)

module _ (w : World) (fresh : IsFresh w) where
  -- nothing is behind the folder
  pub no_dir : (name : Bytes) → has (behind (data_of w) name) w.dirs ≡ false
  no_dir name =
      ap (λ p. has p w.dirs) (append_assoc w.base_path (codes "/data") (b'/' ∷ name))
      ∙ fresh.no_dirs name

  pub no_file : (name : Bytes) → lookup (behind (data_of w) name) w.files ≡ none
  no_file name =
      ap (λ p. lookup p w.files) (append_assoc w.base_path (codes "/data") (b'/' ∷ name))
      ∙ fresh.no_files (b'/' ∷ name)

  data_is_dir : {b : Bool} → has (data_of w) w.dirs ≡ b → is_dir_path w (data_of w) ≡ b
  data_is_dir h = ap (λ p. has p w.dirs) (chop_path-data w.base_path) ∙ h

  pub Runs-enter_old :
      (start : Bytes)
      → has (data_of w) w.dirs ≡ true
      → Runs (enter_data start (data_of w)) w (ok (data_of w) w)
  unfolding enter_data
  Runs-enter_old start old =
      let d = data_of w in
      Runs-bind _ _ w (Runs-file_exists_dir d w fresh.calm (data_is_dir old)) (
        Runs-bind _ _ w (Runs-pure tt w)
          (Runs-bind _ _ w (Runs-chdir d w fresh.calm (data_is_dir old)) (Runs-pure d w)))

  pub Runs-enter_new :
      (start : Bytes)
      → has (data_of w) w.dirs ≡ false
      → Runs
          (enter_data start (data_of w))
          w
          (ok (data_of w) (entered enoent (data_of w ∷ w.dirs) w))
  unfolding enter_data
  Runs-enter_new start no_data =
      let d = data_of w in
      let v = missed w in
      Runs-bind _ _ w
        (Runs-file_exists-missed d w fresh.calm (fresh.no_files []) (data_is_dir no_data))
        (Runs-bind _ _ v
          (Runs-bind _ _ v
            (Runs-mkdir d v fresh.calm (fresh.no_files []) (data_is_dir no_data) (
              ap (λ p. has (chop_path p) w.dirs) (parent-behind w.base_path (codes "data") refl)
              ∙ ap (λ p. has p w.dirs) fresh.chopped
              ∙ fresh.folder))
            (Runs-guard _ (entered enoent (data_of w ∷ w.dirs) w) refl))
          (Runs-bind _ _ (entered enoent (data_of w ∷ w.dirs) w)
            (Runs-chdir d (entered enoent (data_of w ∷ w.dirs) w) fresh.calm (
              ap (λ p. has p (data_of w ∷ w.dirs)) (chop_path-data w.base_path)
              ∙ has-first d w.dirs))
            (Runs-pure d (entered enoent (data_of w ∷ w.dirs) w))))
