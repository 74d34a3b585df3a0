-- ===== src/Service/Loop/Frames.antt =====
-- What the commands of the loop keep.
use demostroage.Prelude.{ℕ, refl, ℤ}
use demostroage.Runtime.{World, StorageStat, Cmd}
use demostroage.Runtime.Keeps.{Keeps, Keeps-modify}
use demostroage.Runtime.Frames.{Quiet, Writes, Conns, Procs, Stats}
use demostroage.Posix.Frames.{posix_rules}
use demostroage.Binlog.{change_proc}
use demostroage.Binlog.Frames.{Keeps-change_proc}
use demostroage.StatFile.{on_fd, storage_write_to_fd, storage_write_to_stat_file}
use demostroage.Service.Frames.{
  Keeps-storage_download_file, Keeps-storage_get_metadata, Keeps-storage_upload_file,
  Keeps-storage_delete_file, Keeps-storage_sync_copy_file, Keeps-storage_sync_delete_file,
  Keeps-storage_set_metadata,
}
use demostroage.Service.Loop.{
  update_stat, check_and_write_to_stat_file, served, note_source, note_sync, dispatch,
}

module _ {P : World → Type 0} where
  Keeps-on_fd : Quiet P → Keeps P on_fd
  unfolding on_fd
  Keeps-on_fd q = search posix_rules depth 20

module _ {P : World → Type 0} where
  Keeps-storage_write_to_stat_file : Quiet P → Writes P → Keeps P storage_write_to_stat_file
  unfolding storage_write_to_stat_file storage_write_to_fd
  Keeps-storage_write_to_stat_file q f = search (posix_rules, Keeps-on_fd) depth 40

module _ {P : World → Type 0} where
  pub Keeps-check_and_write_to_stat_file :
      Quiet P → Writes P → Procs P → Keeps P check_and_write_to_stat_file
  unfolding check_and_write_to_stat_file
  Keeps-check_and_write_to_stat_file q f p =
      search (posix_rules, Keeps-change_proc, Keeps-storage_write_to_stat_file) depth 20

  Keeps-update_stat : (f : StorageStat → StorageStat) → Stats P → Keeps P (update_stat f)
  unfolding change_proc
  Keeps-update_stat f s = Keeps-modify _ (λ w h. s.free w _ refl h)

module _ {P : World → Type 0} where
  Keeps-served :
      (count : StorageStat → StorageStat) (handler : Cmd ℕ) (note : Cmd (Unit {0}))
      → Quiet P
      → Writes P
      → Procs P
      → Stats P
      → Keeps P handler
      → Keeps P note
      → Keeps P (served count handler note)
  unfolding served
  Keeps-served count handler note q f p s kh kn =
      search (posix_rules, Keeps-update_stat, Keeps-check_and_write_to_stat_file) depth 20

  Keeps-note_source : (f : StorageStat → StorageStat) → Quiet P → Stats P → Keeps P (note_source f)
  Keeps-note_source f q s = search (posix_rules, Keeps-update_stat) depth 20

  Keeps-note_sync : Quiet P → Stats P → Keeps P note_sync
  Keeps-note_sync q s = search (posix_rules, Keeps-update_stat) depth 20

module _ {P : World → Type 0} where
  pub Keeps-dispatch :
      (cmd : ℕ) (n : ℤ)
      → Quiet P
      → Writes P
      → Conns P
      → Procs P
      → Stats P
      → Keeps P (dispatch cmd n)
  unfolding dispatch
  Keeps-dispatch cmd n q f c p s =
      search
        (
          posix_rules, Keeps-served, Keeps-update_stat, Keeps-note_source, Keeps-note_sync,
          Keeps-storage_download_file, Keeps-storage_get_metadata, Keeps-storage_upload_file,
          Keeps-storage_delete_file, Keeps-storage_sync_copy_file, Keeps-storage_sync_delete_file,
          Keeps-storage_set_metadata,
        )
        depth 30
