-- ===== src/Binlog/Rotating.antt =====
-- The rotation of the binlog: `storage_sync_destroy` closes NULL.
use demostroage.Prelude.{
  not, [], ◌⊎◌, inl, inr, Option-cases, ℕ, ◌+◌, ◌≤◌, ◌≡◌, refl, ap, true, false, none, some, Bytes,
  leb, arith, length,
}
use demostroage.Runtime.{World, ok, crash}
use demostroage.Runtime.Runs.{
  Runs, Runs-bind, Runs-gets, Runs-pure, Runs-crash, Runs-block, Runs-block_crash, Runs-undefined,
  Runs-if_true, Runs-some,
}
use demostroage.Posix.{is_some, is_dir_path, parent}
use demostroage.Posix.Calm.{
  Calm, Runs-attempt, Runs-guard, Runs-guard-false, Runs-fopen_write, Runs-time,
}
use demostroage.FileIo.Runs.{Runs-fclose_write, stored_at}
use demostroage.Libc.{print_int}
use demostroage.Binlog.{
  binlog_max_size, index_path, write_to_binlog_index, storage_sync_destroy,
  open_next_writable_binlog, grow_binlog, flush_line, put_line, write_line, storage_binlog_write,
}
use demostroage.Binlog.Writing.{
  line_of, change_proc-Runs, flush_binlog-Runs, storage_binlog_write_closed,
}

-- the index file can be written
pub record HasIndex (w : World) : Type 0 where
  pub no_folder : is_dir_path w (index_path w.base_path) ≡ false
  pub folder : is_dir_path w (parent (index_path w.base_path)) ≡ true

Runs-write_to_binlog_index :
    (w : World)
    → Calm w
    → HasIndex w
    → Runs write_to_binlog_index w (
        ok 0 (
          stored_at
            (index_path w.base_path)
            (print_int w.binlog_index)
            (stored_at (index_path w.base_path) [] w)))
unfolding write_to_binlog_index
Runs-write_to_binlog_index w calm i = Runs-block _ _ w (
    Runs-bind _ _ w (Runs-gets _ w) (
      Runs-bind _ _ w (Runs-fopen_write _ w calm i.no_folder i.folder) (
        Runs-bind _ _ _ (Runs-guard _ _ refl) (
          Runs-bind _ _ _ (Runs-attempt _ calm) (
            Runs-bind _ _ _ (Runs-guard _ _ refl) (
              Runs-bind _ _ _ (Runs-gets _ _)
                (Runs-bind _ _ _ (Runs-fclose_write _ _ _ calm) (Runs-pure 0 _))))))))

storage_sync_destroy-crash :
    (w : World) {file : Bytes} → w.fp_binlog ≡ some file → Runs storage_sync_destroy w crash
unfolding storage_sync_destroy
storage_sync_destroy-crash w opened = Runs-block_crash _ _ w (
    Runs-bind _ _ w (Runs-gets _ w) (
      Runs-crash _ _ w (
        Runs-guard-false _ w (ap (λ o. not (is_some o)) opened)
          (Runs-bind _ _ w (change_proc-Runs _ w) (Runs-undefined _)))))

open_next-crash :
    (w : World) {file : Bytes} → w.fp_binlog ≡ some file → Runs open_next_writable_binlog w crash
unfolding open_next_writable_binlog
open_next-crash w opened =
    Runs-block_crash _ _ w (Runs-crash _ _ w (storage_sync_destroy-crash w opened))

full : (a b : ℕ) → a ≤ b → leb a b ≡ true
full a b h = ground arith

grow_binlog-crash :
    (n : ℕ) (w : World) {file : Bytes}
    → Calm w
    → HasIndex w
    → w.fp_binlog ≡ some file
    → binlog_max_size ≤ w.binlog_file_size + n
    → Runs (grow_binlog n) w crash
unfolding grow_binlog
grow_binlog-crash n w calm i opened big = Runs-bind _ _ w (change_proc-Runs _ w) (
    Runs-bind _ _ _ (Runs-gets _ _) (
      Runs-if_true _ _ _ (full binlog_max_size (w.binlog_file_size + n) big) (
        Runs-bind _ _ _ (change_proc-Runs _ _) (
          Runs-bind _ _ _
            (Runs-write_to_binlog_index _ calm
              (record { no_folder = i.no_folder; folder = i.folder }))
            (Runs-crash _ _ _ (open_next-crash _ opened))))))

flush_line-crash :
    (file line : Bytes) (w : World)
    → Calm w
    → HasIndex w
    → w.fp_binlog ≡ some file
    → binlog_max_size ≤ w.binlog_file_size + length line
    → Runs (flush_line file line) w crash
unfolding flush_line
flush_line-crash file line w calm i opened big = Runs-bind _ _ w (change_proc-Runs _ w) (
    Runs-bind _ _ _ (flush_binlog-Runs file _ calm) (
      grow_binlog-crash (length line) _ calm (record { no_folder = i.no_folder; folder = i.folder })
        opened big))

write_line-crash :
    (file : Bytes) (op : ℕ) (filename : Bytes) (w : World)
    → Calm w
    → HasIndex w
    → w.fp_binlog ≡ some file
    → binlog_max_size ≤ w.binlog_file_size + length (line_of op filename w)
    → Runs (write_line file op filename) w crash
unfolding write_line put_line
write_line-crash file op filename w calm i opened big = Runs-block_crash _ _ w (
    Runs-bind _ _ w (Runs-attempt w calm) (
      Runs-bind _ _ w (Runs-guard _ w refl) (
        Runs-crash _ _ w (
          Runs-bind _ _ w (Runs-time w) (
            Runs-bind _ _ _ (Runs-attempt _ calm) (
              Runs-bind _ _ _ (Runs-guard _ _ refl) (
                flush_line-crash file (line_of op filename w) _ calm
                  (record { no_folder = i.no_folder; folder = i.folder }) opened big)))))))

rotates :
    (op : ℕ) (filename : Bytes) (w : World) {file : Bytes}
    → Calm w
    → HasIndex w
    → w.fp_binlog ≡ some file
    → binlog_max_size ≤ w.binlog_file_size + length (line_of op filename w)
    → storage_binlog_write op filename w ≡ crash
unfolding storage_binlog_write
rotates op filename w {file} calm i opened big =
    (Runs-bind _ _ w (Runs-gets _ w)
      (Runs-some _ _ w opened (write_line-crash file op filename w calm i opened big))).same

-- Where the stream is not open, or a line makes the binlog reach its limit, the behaviour of
-- `storage_binlog_write` is undefined: the first calls `fileno(NULL)`, and the rotation that
-- the second starts calls `fclose(NULL)`. For the second, no call fails, and the index file can
-- be written.
pub storage_binlog_write-crash :
    (op : ℕ) (filename : Bytes) (w : World)
    → (w.fp_binlog ≡ none)
      ⊎ (Calm w
          × HasIndex w
          × (binlog_max_size ≤ w.binlog_file_size + length (line_of op filename w)))
    → storage_binlog_write op filename w ≡ crash
storage_binlog_write-crash op filename w (inl closed) =
    storage_binlog_write_closed op filename w closed
storage_binlog_write-crash op filename w (inr (calm, i, big)) = elim (Option-cases w.fp_binlog) [
  | inl none_open ↦ storage_binlog_write_closed op filename w none_open
  | inr (file, opened) ↦ rotates op filename w calm i opened big
]
