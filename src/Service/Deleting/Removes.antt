-- ===== src/Service/Deleting/Removes.antt =====
-- What a replica does when it is told to delete a file that it has.
use demostroage.Prelude.{
  ℕ, ◌+◌, ◌<◌, ◌≡◌, ◌≢◌, refl, sym, ap, ◌∙◌, List, [], ◌++◌, Bytes, some, none, drop, length, pos,
}
use demostroage.Libc.{cstr}
use demostroage.Runtime.{Arrival, World, ok}
use demostroage.Runtime.Runs.{Runs-bind, Runs-gets, Runs-pure, Runs-block}
use demostroage.Posix.{codes, lookup, remove}
use demostroage.Posix.Calm.{Runs-guard, Runs-unlink}
use demostroage.Posix.Files.{lookup-insert, lookup-insert_other, lookup-remove, lookup-remove_other}
use demostroage.Binlog.{binlog_max_size, content_or_empty}
use demostroage.Binlog.Writing.{line_of, Runs-storage_binlog_write}
use demostroage.Service.{reply_status}
use demostroage.Service.Runs.{
  IsOpen, IsNameRequest, reply_bytes, Runs-recv_name_request, Runs-reply_then,
}
use demostroage.Service.Reading.Replies.{requested}
use demostroage.Service.Deleting.{storage_sync_delete_file}

-- a stream on a file with nothing unflushed, and room in the binlog for a line
pub record HasBinlog (w : World) (file line : Bytes) : Type 0 where
  pub opened : w.fp_binlog ≡ some file
  pub flushed : w.binlog_buffer ≡ []
  pub room : w.binlog_file_size + length line < binlog_max_size

-- A world where a file is gone, the binlog has a line more, and a reply without data is sent.
pub record IsDeleted (w v : World) (path file line : Bytes) (status : ℕ) : Type 0 where
  pub gone : lookup path v.files ≡ none
  pub line_added : lookup file v.files ≡ some (content_or_empty (lookup file w.files) ++ line)
  pub replied : v.sent ≡ w.sent ++ reply_bytes w.junk (codes "0") status
  pub others :
      (other : Bytes) → path ≢ other → file ≢ other → lookup other v.files ≡ lookup other w.files

-- A synchronised deletion of a file that the replica has answers 0: the file is gone, the
-- binlog has one line `d` with its name more, no other file has changed, and the peer is sent
-- a reply with the status 0. The request has 17 to 47 bytes and names this group, no call
-- fails, the peer takes what is sent, and the binlog is open with nothing unflushed, stays
-- below its limit, and is not the file.
pub storage_sync_delete_file-IsDeleted :
    (w : World) (s content file : Bytes) (es : List Arrival)
    → IsOpen w
    → IsNameRequest w s es
    → lookup (requested w s) w.files ≡ some content
    → HasBinlog w file (line_of b'd' (cstr (drop 16 s)) w)
    → requested w s ≢ file
    → (v : World) × (storage_sync_delete_file (pos (length s)) w ≡ ok 0 v)
      × IsDeleted w v (requested w s) file (line_of b'd' (cstr (drop 16 s)) w) 0
unfolding storage_sync_delete_file reply_status
storage_sync_delete_file-IsDeleted w s content file es op q found log ne =
    let name = cstr (drop 16 s) in
    let path = requested w s in
    let line = line_of b'd' name w in
    let kept = lookup-remove_other file path w.files ne in
    (
      _,
      (Runs-bind _ _ w
          (Runs-block _ _ w (
            Runs-bind _ _ w (Runs-recv_name_request _ w op.socket q) (
              Runs-bind _ _ _ (Runs-gets _ _) (
                Runs-bind _ _ _ (Runs-unlink _ _ op.calm found) (
                  Runs-bind _ _ _ (Runs-guard _ _ refl)
                    (Runs-storage_binlog_write b'd' name _ op.calm log.opened log.room))))))
          (Runs-reply_then _ 0 _ _ op.socket op.free (Runs-pure 0 _))).same,
      record {
        gone =
            lookup-insert_other path file _ (remove path w.files) (λ e. ne (sym e))
            ∙ lookup-remove path w.files;
        line_added =
            lookup-insert file _ (remove path w.files)
            ∙ ap (λ o. some (content_or_empty o ++ (w.binlog_buffer ++ line))) kept
            ∙ ap (λ b. some (content_or_empty (lookup file w.files) ++ (b ++ line))) log.flushed;
        replied = refl;
        others = λ other np nf.
            lookup-insert_other other file _ (remove path w.files) nf
            ∙ lookup-remove_other other path w.files np;
      },
    )
