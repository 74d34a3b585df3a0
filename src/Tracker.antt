-- ===== src/Tracker.antt =====
-- tracker_proto.c: what the daemon's messages to the trackers share, and the names of groups.
pub mod Responses
use demostroage.Prelude.{
  ℕ, Bool, ◌&&◌, ◌||◌, some, [], ◌∷◌, ltb, leb, ◌==◌, if◌then◌else◌, Bytes, ℤ, pos, negsuc,
}
use demostroage.Runtime.{Cmd, pure, gets, case_option, ◌>>=◌, ◌>>◌}
use demostroage.Posix.{codes, epipe, einval, errno_or, log_error}
use demostroage.Socket.{tcp_recv, tcp_send}
use demostroage.Wire.{
  header_size, cmd_quit, Header, header_bytes, read_header, body_len, is_sent, bytes_of,
}

-- a letter or a digit
abbrev pub is_name_byte : ℕ → Bool
is_name_byte c =
    (leb b'a' c && leb c b'z') || (leb b'A' c && leb c b'Z') || (leb b'0' c && leb c b'9')

-- the loop of `tracker_validate_group_name`
unfoldable pub name_loop : Bytes → ℕ
name_loop [] = 0
name_loop (c ∷ s) = if is_name_byte c then name_loop s else einval

-- `tracker_validate_group_name`
unfoldable pub validate_group_name : Bytes → ℕ
unfolding name_loop
validate_group_name [] = einval
validate_group_name (c ∷ s) = name_loop (c ∷ s)

-- what a message to a tracker ends with: `tcpsenddata`, and the errno or EPIPE where it fails
unfoldable pub send_message : Bytes → Cmd ℕ
send_message message = do
  r ← tcp_send (some message)
  if is_sent r then pure 0 else (do log_error; errno_or epipe)

-- `tracker_quit`; `junk` is what the rest of the array for the length holds
unfoldable pub tracker_quit : Cmd ℕ
tracker_quit = do
  junk ← gets (λ w. w.junk)
  send_message (header_bytes junk (record { pkg_len = codes "0"; cmd = cmd_quit; status = 0 }))

-- a result and `*in_bytes` bytes of a body; they are none unless the result is 0
pub record Response : Type 0 where
  pub code : ℕ
  pub body : Bytes

abbrev pub no_body : ℕ → Response
no_body e = record { code = e; body = [] }

-- the rest of `tracker_recv_response`, with a length that is not 0
unfoldable pub recv_body : ℕ → ℕ → Cmd Response
recv_body buff_size in_bytes =
    if ltb buff_size in_bytes then (do log_error; e ← errno_or einval; pure (no_body e)) else (do
      r ← tcp_recv in_bytes
      case_option (bytes_of r) (do log_error; e ← errno_or epipe; pure (no_body e))
          (λ s. pure (record { code = 0; body = s })))

-- by the length in the header
unfoldable pub recv_sized : ℕ → ℤ → Cmd Response
recv_sized buff_size (negsuc n) = do log_error; e ← errno_or einval; pure (no_body e)
recv_sized buff_size (pos n) = if n == 0 then pure (no_body 0) else recv_body buff_size n

unfoldable pub recv_answered : ℕ → Header → Cmd Response
recv_answered buff_size h =
    if h.status == 0 then recv_sized buff_size (body_len h) else pure (no_body h.status)

-- `tracker_recv_response` into a buffer of the caller
unfoldable pub tracker_recv_response : ℕ → Cmd Response
tracker_recv_response buff_size = do
  r ← tcp_recv header_size
  case_option (bytes_of r) (do log_error; e ← errno_or epipe; pure (no_body e))
      (λ s. recv_answered buff_size (read_header s))
