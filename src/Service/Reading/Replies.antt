-- ===== src/Service/Reading/Replies.antt =====
-- What a client is sent by the handlers that read.
use demostroage.Prelude.{
  ℕ, ◌-◌, ◌^◌, ◌<◌, arith, ◌≡◌, refl, List, ◌++◌, Bytes, some, none, drop, length, pos, ◌==◌,
  if◌then◌else◌,
}
use demostroage.Libc.{cstr, print_hex}
use mathlib.Core.Path.{subst}
use demostroage.Runtime.{Arrival, World, Cmd, ok, pure}
use demostroage.Runtime.Runs.{Runs, Runs-bind, Runs-gets, Runs-pure, Runs-block}
use demostroage.Posix.{codes, enoent, epipe, lookup}
use demostroage.Posix.Calm.{
  Calm, Runs-guard, Runs-file_exists, Runs-log_error, Runs-errno_or, missed,
}
use demostroage.FileIo.Runs.{Runs-get_file_content, Runs-get_file_content-missed}
use demostroage.Socket.{tcp_send}
use demostroage.Socket.Runs.{arrived, sent_more}
use demostroage.Wire.{send_then}
use demostroage.Service.{data_path, meta_ext, reply_then}
use demostroage.Service.Runs.{
  IsOpen, IsNameRequest, reply_bytes, Runs-recv_name_request, Runs-reply_then, Runs-send_then,
}
use demostroage.Service.Reading.{reply_content, storage_download_file, storage_get_metadata}

-- the path of the file that a request names
abbrev pub requested : World → Bytes → Bytes
requested w s = data_path w.base_path (cstr (drop 16 s))

-- A download of a file that is there sends a header with its size in base 16 and the status 0,
-- and then the whole file, and the handler answers 0. The file has less than 2 ^ 31 - 1 bytes, the
-- request has 17 to 47 and names this group, no call fails, and the peer takes what is sent.
pub storage_download_file-sends :
    (w : World) (s content : Bytes) (es : List Arrival)
    → IsOpen w
    → IsNameRequest w s es
    → lookup (requested w s) w.files ≡ some content
    → length content < 2 ^ 31 - 1
    → storage_download_file (pos (length s)) w
      ≡ ok 0 (
          sent_more content
            (sent_more (reply_bytes w.junk (print_hex (length content)) 0) (arrived es w)))
unfolding storage_download_file reply_content
storage_download_file-sends w s content es op q found small =
    (Runs-bind _ _ w
      (Runs-block _ _ w (
        Runs-bind _ _ w (Runs-recv_name_request _ w op.socket q)
          (Runs-bind _ _ _ (Runs-gets _ _) (Runs-get_file_content _ _ op.calm found small))))
      (subst
        (λ n. Runs (reply_then (print_hex n) 0 (send_then (some content) (pure 0))) (arrived es w) (
          ok 0 (
            sent_more content
              (sent_more (reply_bytes w.junk (print_hex (length content)) 0) (arrived es w)))))
        {x = length content} (omega (arith, small))
        (Runs-reply_then _ 0 _ _ op.socket op.free
          (Runs-send_then content _ _ op.socket refl (Runs-pure 0 _))))).same

-- `tcpsenddata` refuses a NULL buffer
Runs-send_nothing :
    (k : Cmd ℕ) (w : World)
    → Calm w
    → Runs (send_then none k) w (ok (if w.errno == 0 then epipe else w.errno) w)
unfolding send_then tcp_send
Runs-send_nothing k w calm =
    Runs-bind (tcp_send none) _ w (record { same = refl })
      (Runs-bind _ _ w (Runs-log_error w calm) (Runs-errno_or epipe w))

-- Metadata of a file that is there and has none: the client is sent a header with the status 0
-- and no byte, but the handler answers ENOENT, on which the connection is closed, since it
-- goes on to send a NULL buffer. The request has 17 to 47 bytes and names this group, no call
-- fails, and the peer takes what is sent.
pub storage_get_metadata-breaks :
    (w : World) (s content : Bytes) (es : List Arrival)
    → IsOpen w
    → IsNameRequest w s es
    → lookup (requested w s) w.files ≡ some content
    → lookup (requested w s ++ meta_ext) w.files ≡ none
    → storage_get_metadata (pos (length s)) w
      ≡ ok enoent (sent_more (reply_bytes w.junk (codes "0") 0) (missed (arrived es w)))
unfolding storage_get_metadata reply_content print_hex
storage_get_metadata-breaks w s content es op q found none_found =
    (Runs-bind _ _ w
      (Runs-block _ _ w (
        Runs-bind _ _ w (Runs-recv_name_request _ w op.socket q) (
          Runs-bind _ _ _ (Runs-gets _ _) (
            Runs-bind _ _ _ (Runs-file_exists _ _ op.calm found) (
              Runs-bind _ _ _ (Runs-guard _ _ refl) (
                Runs-bind _ _ _ (Runs-get_file_content-missed _ _ op.calm none_found)
                  (Runs-pure _ _)))))))
      (Runs-reply_then _ 0 _ _ op.socket op.free (Runs-send_nothing _ _ op.calm))).same
