-- ===== src/Binlog/Writing.antt =====
-- What `storage_binlog_write` does: the line that it appends, and where it is undefined.
use demostroage.Prelude.{
  ℕ, ◌+◌, ◌<◌, ◌≡◌, refl, true, false, none, some, [], ◌++◌, leb, arith, Bytes, length,
}
use demostroage.Runtime.{Proc, World, ok, crash, set_os, set_proc}
use demostroage.Posix.{lookup, insert, next_or}
use demostroage.Posix.Calm.{Calm, Runs-attempt, Runs-time, Runs-store, Runs-guard}
use demostroage.Runtime.Runs.{
  Runs, Runs-bind, Runs-gets, Runs-pure, Runs-block, Runs-modify, Runs-if_false, Runs-some,
  Runs-none, Runs-undefined,
}
use demostroage.Binlog.{
  change_proc, flush_binlog, grow_binlog, binlog_max_size, binlog_line, content_or_empty,
  storage_binlog_write, flush_line, put_line, write_line,
}

-- the line that is written at the world's time
abbrev pub line_of : ℕ → Bytes → World → Bytes
line_of op filename w = binlog_line (next_or 0 w.times).0 op filename

-- the world after a line is written to the file, and before that its time is taken
abbrev pub flushed : Bytes → Bytes → World → World
flushed file line w =
    set_proc
      (record w.proc { binlog_buffer = []; binlog_file_size = w.binlog_file_size + length line })
      (set_os
        (record w.os {
          files =
              insert file (content_or_empty (lookup file w.files) ++ (w.binlog_buffer ++ line))
                w.files;
        })
        w)

abbrev pub logged : Bytes → Bytes → World → World
logged file line w = flushed file line (set_os (record w.os { times = (next_or 0 w.times).1 }) w)

leb_less : (a b : ℕ) → b < a → leb a b ≡ false
leb_less a b h = ground arith

pub change_proc-Runs :
    (f : Proc → Proc) (w : World) → Runs (change_proc f) w (ok tt (set_proc (f w.proc) w))
unfolding change_proc
change_proc-Runs f w = Runs-modify _ w

pub flush_binlog-Runs :
    (file : Bytes) (w : World)
    → Calm w
    → Runs (flush_binlog file) w (
        ok true (
          set_proc
            (record w.proc { binlog_buffer = [] })
            (set_os
              (record w.os {
                files =
                    insert file (content_or_empty (lookup file w.files) ++ w.binlog_buffer) w.files;
              })
              w)))
unfolding flush_binlog
flush_binlog-Runs file w calm = Runs-bind _ _ w (Runs-attempt w calm) (
    Runs-bind _ _ w (Runs-gets _ w) (
      Runs-bind _ _ w (Runs-gets _ w) (
        Runs-bind _ _ w (Runs-store file _ w)
          (Runs-bind _ _ _ (change_proc-Runs _ _) (Runs-pure true _)))))

grow_binlog-Runs :
    (n : ℕ) (w : World)
    → w.binlog_file_size + n < binlog_max_size
    → Runs
        (grow_binlog n)
        w
        (ok 0 (set_proc (record w.proc { binlog_file_size = w.binlog_file_size + n }) w))
unfolding grow_binlog
grow_binlog-Runs n w small = Runs-bind _ _ w (change_proc-Runs _ w) (
    Runs-bind _ _ _ (Runs-gets _ _) (
      Runs-if_false _ _ _ (leb_less binlog_max_size (w.binlog_file_size + n) small)
        (Runs-pure 0 _)))

flush_line-Runs :
    (file line : Bytes) (w : World)
    → Calm w
    → w.binlog_file_size + length line < binlog_max_size
    → Runs (flush_line file line) w (ok 0 (flushed file line w))
unfolding flush_line
flush_line-Runs file line w calm small =
    Runs-bind _ _ w (change_proc-Runs _ w)
      (Runs-bind _ _ _ (flush_binlog-Runs file _ calm) (grow_binlog-Runs (length line) _ small))

put_line-Runs :
    (file : Bytes) (op : ℕ) (filename : Bytes) (w : World)
    → Calm w
    → w.binlog_file_size + length (line_of op filename w) < binlog_max_size
    → Runs (put_line file op filename) w (ok 0 (logged file (line_of op filename w) w))
unfolding put_line
put_line-Runs file op filename w calm small = Runs-bind _ _ w (Runs-time w) (
    Runs-bind _ _ _ (Runs-attempt _ calm) (
      Runs-bind _ _ _ (Runs-guard _ _ refl)
        (flush_line-Runs file (line_of op filename w) _ calm small)))

write_line-Runs :
    (file : Bytes) (op : ℕ) (filename : Bytes) (w : World)
    → Calm w
    → w.binlog_file_size + length (line_of op filename w) < binlog_max_size
    → Runs (write_line file op filename) w (ok 0 (logged file (line_of op filename w) w))
unfolding write_line
write_line-Runs file op filename w calm small = Runs-block _ _ w (
    Runs-bind _ _ w (Runs-attempt w calm) (
      Runs-bind _ _ w (Runs-guard _ w refl) (
        Runs-bind _ _ w (put_line-Runs file op filename w calm small) (
          Runs-bind _ _ _ (Runs-attempt _ calm)
            (Runs-bind _ _ _ (Runs-guard _ _ refl) (Runs-pure 0 _))))))

pub Runs-storage_binlog_write :
    (op : ℕ) (filename : Bytes) {file : Bytes} (w : World)
    → Calm w
    → w.fp_binlog ≡ some file
    → w.binlog_file_size + length (line_of op filename w) < binlog_max_size
    → Runs (storage_binlog_write op filename) w (ok 0 (logged file (line_of op filename w) w))
unfolding storage_binlog_write
Runs-storage_binlog_write op filename {file} w calm opened small =
    Runs-bind _ _ w (Runs-gets _ w)
      (Runs-some _ _ w opened (write_line-Runs file op filename w calm small))

-- `storage_binlog_write` on an open stream, where no call fails and the binlog stays below its
-- limit, answers 0, and the file of the stream has one line more: the time, the operation and the
-- name, behind whatever the stream had not flushed.
pub storage_binlog_write-logged :
    (op : ℕ) (filename file : Bytes) (w : World)
    → Calm w
    → w.fp_binlog ≡ some file
    → w.binlog_file_size + length (line_of op filename w) < binlog_max_size
    → storage_binlog_write op filename w ≡ ok 0 (logged file (line_of op filename w) w)
storage_binlog_write-logged op filename file w calm opened small =
    (Runs-storage_binlog_write op filename w calm opened small).same

-- Where no stream is open the behaviour of `storage_binlog_write` is undefined.
pub storage_binlog_write_closed :
    (op : ℕ) (filename : Bytes) (w : World)
    → w.fp_binlog ≡ none
    → storage_binlog_write op filename w ≡ crash
unfolding storage_binlog_write
storage_binlog_write_closed op filename w closed =
    (Runs-bind _ _ w (Runs-gets _ w) (Runs-none _ _ w closed (Runs-undefined w))).same
