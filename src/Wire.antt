-- ===== src/Wire.antt =====
-- tracker_proto.h: the header in front of every message, and what the handlers share of it.
pub mod RoundTrip
use demostroage.Prelude.{
  ℕ, zero, suc, ◌+◌, ◌-◌, ◌*◌, ◌%◌, Bool, true, false, Option, none, some, List, [], ◌∷◌, ◌++◌, ltb,
  leb, ◌==◌, if◌then◌else◌, Bytes, length, take, drop, ℤ, pos, negsuc, eqb,
}
use demostroage.Libc.{cstr, strtoi, print_hex}
use demostroage.Runtime.{World, Cmd, pure, gets, block, case_option, leave, ◌>>=◌, ◌>>◌}
use demostroage.Posix.{
  codes, epipe, einval, junk_bytes, attempt, log_error, errno_or, fail, fail_errno, guard,
}
use demostroage.Socket.{
  Received, received, timed_out, broken, Sent, done, failed, tcp_recv, tcp_send,
}

-- `TRACKER_PROTO_PKG_LEN_SIZE` and `FDFS_GROUP_NAME_MAX_LEN`
abbrev pub pkg_len_size : ℕ
pkg_len_size = 9

abbrev pub group_name_max_len : ℕ
group_name_max_len = 16

-- the size of a `TrackerHeader`
abbrev pub header_size : ℕ
header_size = 11

-- the commands of the storage protocol
abbrev pub cmd_resp : ℕ
cmd_resp = 10

abbrev pub cmd_upload_file : ℕ
cmd_upload_file = 11

abbrev pub cmd_delete_file : ℕ
cmd_delete_file = 12

abbrev pub cmd_set_metadata : ℕ
cmd_set_metadata = 13

abbrev pub cmd_download_file : ℕ
cmd_download_file = 14

abbrev pub cmd_get_metadata : ℕ
cmd_get_metadata = 15

abbrev pub cmd_sync_create_file : ℕ
cmd_sync_create_file = 16

abbrev pub cmd_sync_delete_file : ℕ
cmd_sync_delete_file = 17

abbrev pub cmd_sync_update_file : ℕ
cmd_sync_update_file = 18

-- the commands of the tracker protocol
abbrev pub cmd_tracker_resp : ℕ
cmd_tracker_resp = 80

abbrev pub cmd_join : ℕ
cmd_join = 81

abbrev pub cmd_quit : ℕ
cmd_quit = 82

abbrev pub cmd_beat : ℕ
cmd_beat = 83

abbrev pub cmd_report : ℕ
cmd_report = 84

abbrev pub cmd_sync_dest_req : ℕ
cmd_sync_dest_req = 87

abbrev pub cmd_sync_notify : ℕ
cmd_sync_notify = 88

-- `TrackerHeader`
pub record Header : Type 0 where
  pub pkg_len : Bytes
  pub cmd : ℕ
  pub status : ℕ

-- the bytes of a header: the text, its NUL, and what the array held behind it
abbrev pub header_bytes : (ℕ → ℕ) → Header → Bytes
header_bytes junk h =
    h.pkg_len
    ++ (0
        ∷ (junk_bytes junk 0 (pkg_len_size - 1 - length h.pkg_len)
            ++ (h.cmd ∷ h.status % 256 ∷ [])))

-- the header read from its bytes; the last byte of `pkg_len` is overwritten by NUL
abbrev pub byte_at : Bytes → ℕ → ℕ
byte_at [] n = 0
byte_at (c ∷ s) zero = c
byte_at (c ∷ s) (suc n) = byte_at s n

abbrev pub read_header : Bytes → Header
read_header s = record {
  pkg_len = cstr (take (pkg_len_size - 1) s);
  cmd = byte_at s 9;
  status = byte_at s 10;
}

-- `nInPackLen`
abbrev pub body_len : Header → ℤ
body_len h = strtoi 16 h.pkg_len

-- tests of an `int` against a number
abbrev pub at_most : ℤ → ℕ → Bool
at_most (pos n) k = leb n k
at_most (negsuc n) k = true

abbrev pub is_sent : Sent → Bool
is_sent done = true
is_sent _ = false

abbrev pub bytes_of : Received → Option Bytes
bytes_of (received s) = some s
bytes_of _ = none

-- `tcprecvdata` in a block: a failure sets the status to the errno, or EPIPE
unfoldable pub recv_or_fail : ℕ → Cmd Bytes
recv_or_fail size = do
  r ← tcp_recv size
  case_option (bytes_of r) (do log_error; e ← errno_or epipe; leave e) pure

-- `tcpsenddata` behind a block: the result of a handler whose reply cannot be sent is the errno,
-- or EPIPE; otherwise it goes on
unfoldable pub send_then : Option Bytes → Cmd ℕ → Cmd ℕ
send_then body k = do r ← tcp_send body; if is_sent r then k else (do log_error; errno_or epipe)
