-- ===== src/Service/Deleting/Sources.antt =====
-- What the server of a client's own file does when it is told to delete it.
use demostroage.Prelude.{
  ℕ, ◌+◌, ◌<◌, ◌≡◌, ◌≢◌, refl, sym, ap, ◌∙◌, false, List, ◌++◌, append_assoc, Bytes, some, none,
  drop, length, length-append, pos, arith, ◌==◌,
}
use demostroage.Libc.{cstr}
use demostroage.Runtime.{Arrival, World, ok, set_os}
use demostroage.Runtime.Runs.{Runs, Runs-bind, Runs-gets, Runs-pure, Runs-block, Runs-if_true}
use demostroage.Posix.{enoent, lookup, insert, remove, is_dir_path, next_or}
use demostroage.Posix.Calm.{
  Calm, missed, Runs-guard, Runs-guard-false, Runs-log_error, Runs-unlink, Runs-unlink-missed,
}
use demostroage.Posix.Files.{lookup-insert, lookup-insert_other, lookup-remove, lookup-remove_other}
use demostroage.Socket.Runs.{arrived}
use demostroage.Binlog.{binlog_max_size, content_or_empty}
use demostroage.Binlog.Writing.{line_of, logged, Runs-storage_binlog_write}
use demostroage.Service.{data_path, meta_ext, reply_status}
use demostroage.Service.Runs.{IsOpen, IsNameRequest, Runs-recv_name_request, Runs-reply_then}
use demostroage.Service.Reading.Replies.{requested}
use demostroage.Service.Deleting.{delete_meta, delete_named, missing_is_fine, storage_delete_file}
use demostroage.Service.Deleting.Removes.{HasBinlog, IsDeleted}

-- the lines of the file and of its metadata
abbrev pub delete_lines : Bytes → World → Bytes
delete_lines name w =
    line_of b'D' name w
    ++ line_of b'D' (name ++ meta_ext) (set_os (record w.os { times = (next_or 0 w.times).1 }) w)

-- there is no metadata, and the binlog is neither of the two files
pub record HasNoMeta (w : World) (path file : Bytes) : Type 0 where
  pub missing : lookup (path ++ meta_ext) w.files ≡ none
  pub no_folder : is_dir_path w (path ++ meta_ext) ≡ false
  pub other : path ≢ file
  pub meta_other : file ≢ path ++ meta_ext

path-meta : (p : Bytes) → p ≢ p ++ meta_ext
path-meta p e =
    let l : length p ≡ length (p ++ meta_ext) = ap length e in
    absurd (omega (arith, l, length-append p meta_ext))

Runs-missing_is_fine : (w : World) → Calm w → w.errno ≡ enoent → Runs missing_is_fine w (ok tt w)
unfolding missing_is_fine
Runs-missing_is_fine w calm e = Runs-bind _ _ w (Runs-log_error w calm) (
    Runs-bind _ _ w (Runs-gets _ w) (Runs-if_true _ _ w (ap (λ n. n == enoent) e) (Runs-pure tt w)))

room_for : (a l k m t : ℕ) → t ≡ l + k → a + t < m → (a + l < m) × (a + l + k < m)
room_for a l k m t e h = omega arith

Runs-delete_meta :
    (full name : Bytes) (w : World) {file : Bytes}
    → Calm w
    → lookup (full ++ meta_ext) w.files ≡ none
    → is_dir_path w (full ++ meta_ext) ≡ false
    → w.fp_binlog ≡ some file
    → w.binlog_file_size + length (line_of b'D' (name ++ meta_ext) w) < binlog_max_size
    → Runs
        (delete_meta full name)
        w
        (ok 0 (logged file (line_of b'D' (name ++ meta_ext) w) (missed w)))
unfolding delete_meta
Runs-delete_meta full name w calm missing no_folder opened small =
    Runs-bind _ _ w (Runs-unlink-missed _ w calm missing no_folder) (
      Runs-bind _ _ _ (Runs-guard-false _ _ refl (Runs-missing_is_fine _ calm refl))
        (Runs-storage_binlog_write b'D' (name ++ meta_ext) (missed w) calm opened small))

-- the world after the file and its line, and after its metadata
abbrev unlinked : Bytes → World → World
unlinked path w = set_os (record w.os { files = remove path w.files }) w

abbrev deleted : Bytes → Bytes → World → World
deleted name file w = logged file (line_of b'D' name w) (unlinked (data_path w.base_path name) w)

Runs-delete_named :
    (name : Bytes) (w : World) {content file : Bytes}
    → Calm w
    → lookup (data_path w.base_path name) w.files ≡ some content
    → lookup (data_path w.base_path name ++ meta_ext) (deleted name file w).files ≡ none
    → is_dir_path w (data_path w.base_path name ++ meta_ext) ≡ false
    → w.fp_binlog ≡ some file
    → (w.binlog_file_size + length (line_of b'D' name w) < binlog_max_size)
      × (w.binlog_file_size
            + length (line_of b'D' name w)
            + length (line_of b'D' (name ++ meta_ext) (deleted name file w))
          < binlog_max_size)
    → Runs (delete_named name) w (
        ok 0 (
          logged file
            (line_of b'D' (name ++ meta_ext) (deleted name file w))
            (missed (deleted name file w))))
unfolding delete_named
Runs-delete_named name w {content} {file} calm found missing no_folder opened rooms =
    Runs-bind _ _ w (Runs-gets _ w) (
      Runs-bind _ _ w (Runs-unlink _ w calm found) (
        Runs-bind _ _ _ (Runs-guard _ _ refl) (
          Runs-bind _ _ _
            (Runs-storage_binlog_write b'D' name (unlinked (data_path w.base_path name) w) calm
              opened rooms.0)
            (Runs-bind _ _ _ (Runs-guard _ _ refl) (
              Runs-delete_meta _ name (deleted name file w) calm missing no_folder opened
                rooms.1)))))

-- A client's deletion of a file that is there and has no metadata answers 0: the file is gone,
-- the binlog has a line `D` with its name and one with the name of its metadata more, no other
-- file has changed, and the client is sent a reply with the status 0. The request has 17 to 47
-- bytes and names this group, no call fails, the client takes what is sent, and the binlog is
-- open with nothing unflushed, stays below its limit, and is neither of the two files.
pub storage_delete_file-IsDeleted :
    (w : World) (s content file : Bytes) (es : List Arrival)
    → IsOpen w
    → IsNameRequest w s es
    → lookup (requested w s) w.files ≡ some content
    → HasNoMeta w (requested w s) file
    → HasBinlog w file (delete_lines (cstr (drop 16 s)) w)
    → (v : World) × (storage_delete_file (pos (length s)) w ≡ ok 0 v)
      × IsDeleted w v (requested w s) file (delete_lines (cstr (drop 16 s)) w) 0
unfolding storage_delete_file reply_status
storage_delete_file-IsDeleted w s content file es op q found m log =
    let name = cstr (drop 16 s) in
    let path = requested w s in
    let line = line_of b'D' name w in
    let meta_line =
      line_of b'D' (name ++ meta_ext) (set_os (record w.os { times = (next_or 0 w.times).1 }) w) in
    let files = remove path w.files in
    let text = content_or_empty (lookup file files) ++ (w.binlog_buffer ++ line) in
    let rooms =
      room_for w.binlog_file_size (length line) (length meta_line) binlog_max_size _
        (length-append line meta_line) log.room in
    let no_meta : lookup (path ++ meta_ext) (insert file text files) ≡ none =
      lookup-insert_other (path ++ meta_ext) file text files m.meta_other
      ∙ lookup-remove_other (path ++ meta_ext) path w.files (path-meta path)
      ∙ m.missing in
    (
      _,
      (Runs-bind _ _ w
          (Runs-block _ _ w (
            Runs-bind _ _ w (Runs-recv_name_request _ w op.socket q) (
              Runs-delete_named name (arrived es w) op.calm found no_meta m.no_folder log.opened
                rooms)))
          (Runs-reply_then _ 0 _ _ op.socket op.free (Runs-pure 0 _))).same,
      record {
        gone =
            lookup-insert_other path file _ (insert file text files) (λ e. m.other (sym e))
            ∙ lookup-insert_other path file text files (λ e. m.other (sym e))
            ∙ lookup-remove path w.files;
        line_added =
            lookup-insert file _ (insert file text files)
            ∙ ap (λ o. some (content_or_empty o ++ meta_line)) (lookup-insert file text files)
            ∙ ap (λ o. some ((content_or_empty o ++ (w.binlog_buffer ++ line)) ++ meta_line))
                (lookup-remove_other file path w.files m.other)
            ∙ ap (λ b. some ((content_or_empty (lookup file w.files) ++ (b ++ line)) ++ meta_line))
                log.flushed
            ∙ ap some (append_assoc (content_or_empty (lookup file w.files)) line meta_line);
        replied = refl;
        others = λ other np nf.
            lookup-insert_other other file _ (insert file text files) nf
            ∙ lookup-insert_other other file text files nf
            ∙ lookup-remove_other other path w.files np;
      },
    )
