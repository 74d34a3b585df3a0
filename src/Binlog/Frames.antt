-- ===== src/Binlog/Frames.antt =====
-- What the file functions and the binlog keep.
use demostroage.Prelude.{ℕ, ◌≡◌, Bytes}
use demostroage.Runtime.{World, Proc}
use demostroage.Runtime.Keeps.{Keeps, Keeps-modify}
use demostroage.Runtime.Frames.{Quiet, Writes, Procs}
use demostroage.Posix.Frames.{quiet_rules, posix_rules, Keeps-store, Keeps-fopen_read}
use demostroage.FileIo.{get_file_content, fclose_write, write_to_file}
use demostroage.Binlog.{
  change_proc, write_to_binlog_index, storage_sync_destroy, open_next_writable_binlog, flush_binlog,
  grow_binlog, flush_line, put_line, write_line, storage_binlog_write,
}

module _ {P : World → Type 0} where
  pub Keeps-get_file_content : (p : Bytes) → Quiet P → Keeps P (get_file_content p)
  unfolding get_file_content
  Keeps-get_file_content p q = search (quiet_rules, Keeps-fopen_read) depth 30

  pub Keeps-fclose_write : (p s : Bytes) → Quiet P → Writes P → Keeps P (fclose_write p s)
  unfolding fclose_write
  Keeps-fclose_write p s q f = search (quiet_rules, Keeps-store) depth 12

  pub Keeps-change_proc :
      (f : Proc → Proc)
      → ((p : Proc) → (f p).storage_stat ≡ p.storage_stat)
      → ((p : Proc) → (f p).storage_thread_count ≡ p.storage_thread_count)
      → Procs P
      → Keeps P (change_proc f)
  unfolding change_proc
  Keeps-change_proc f stat count pr =
      Keeps-modify _ (λ w h. pr.free w _ (stat w.proc) (count w.proc) h)

module _ {P : World → Type 0} where
  pub Keeps-write_to_file : (p s : Bytes) → Quiet P → Writes P → Keeps P (write_to_file p s)
  unfolding write_to_file
  Keeps-write_to_file p s q f = search (posix_rules, Keeps-fclose_write) depth 30

  pub Keeps-write_to_binlog_index : Quiet P → Writes P → Keeps P write_to_binlog_index
  unfolding write_to_binlog_index
  Keeps-write_to_binlog_index q f = search (posix_rules, Keeps-fclose_write) depth 30

  pub Keeps-storage_sync_destroy : Quiet P → Procs P → Keeps P storage_sync_destroy
  unfolding storage_sync_destroy
  Keeps-storage_sync_destroy q pr = search (posix_rules, Keeps-change_proc) depth 30

  pub Keeps-flush_binlog :
      (file : Bytes) → Quiet P → Writes P → Procs P → Keeps P (flush_binlog file)
  unfolding flush_binlog
  Keeps-flush_binlog file q f pr = search (posix_rules, Keeps-change_proc) depth 30

module _ {P : World → Type 0} where
  pub Keeps-open_next_writable_binlog :
      Quiet P → Writes P → Procs P → Keeps P open_next_writable_binlog
  unfolding open_next_writable_binlog
  Keeps-open_next_writable_binlog q f pr =
      search (posix_rules, Keeps-change_proc, Keeps-storage_sync_destroy) depth 30

module _ {P : World → Type 0} where
  pub Keeps-grow_binlog : (n : ℕ) → Quiet P → Writes P → Procs P → Keeps P (grow_binlog n)
  unfolding grow_binlog
  Keeps-grow_binlog n q f pr =
      search
        (
          posix_rules, Keeps-change_proc, Keeps-write_to_binlog_index,
          Keeps-open_next_writable_binlog,
        )
        depth 30

module _ {P : World → Type 0} where
  Keeps-put_line :
      (file : Bytes) (op : ℕ) (filename : Bytes)
      → Quiet P
      → Writes P
      → Procs P
      → Keeps P (put_line file op filename)
  unfolding put_line flush_line
  Keeps-put_line file op filename q f pr =
      search (posix_rules, Keeps-change_proc, Keeps-flush_binlog, Keeps-grow_binlog) depth 40

module _ {P : World → Type 0} where
  pub Keeps-write_line :
      (file : Bytes) (op : ℕ) (filename : Bytes)
      → Quiet P
      → Writes P
      → Procs P
      → Keeps P (write_line file op filename)
  unfolding write_line
  Keeps-write_line file op filename q f pr = search (posix_rules, Keeps-put_line) depth 40

module _ {P : World → Type 0} where
  pub Keeps-storage_binlog_write :
      (op : ℕ) (filename : Bytes)
      → Quiet P
      → Writes P
      → Procs P
      → Keeps P (storage_binlog_write op filename)
  unfolding storage_binlog_write
  Keeps-storage_binlog_write op filename q f pr = search (posix_rules, Keeps-write_line) depth 12
