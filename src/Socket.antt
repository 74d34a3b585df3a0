-- ===== src/Socket.antt =====
-- sockopt.c: the loops that receive and send a fixed number of bytes.
-- `timeout` is the environment's `timeout` event; with `timeout <= 0` there is none.
pub mod Exact
pub mod Frames
pub mod Runs
use demostroage.Prelude.{
  ℕ, zero, suc, ◌+◌, ◌-◌, Bool, true, false, Option, none, some, List, [], ◌∷◌, ◌++◌, ltb, leb,
  ◌==◌, if◌then◌else◌, Bytes, length, take, drop, min, is_neg,
}
use demostroage.Runtime.{
  Arrival, packet, closed, not_readable, read_failed, Departure, accepted, not_writable,
  write_failed, World, Run, ok, Cmd, set_conn, set_os, Conn,
}

-- the results 1, with the bytes received, 0 and -1, with the errno that the failing call set
pub data Received : Type 0 where
  received : Bytes → Received
  timed_out : Received
  broken : Option ℕ → Received

-- the loop of `tcprecvdata`: `acc` is what lies before `p`
unfoldable pub recv_loop : ℕ → Bytes → List Arrival → Received × List Arrival
recv_loop zero acc es = (received acc, es)
recv_loop (suc n) acc [] = (broken none, [])
recv_loop (suc n) acc (Arrival.timeout ∷ es) = (timed_out, es)
recv_loop (suc n) acc (not_readable ∷ es) = (broken none, es)
recv_loop (suc n) acc (closed ∷ es) = (broken none, [])
recv_loop (suc n) acc (Arrival.select_failed e ∷ es) = (broken (some e), es)
recv_loop (suc n) acc (read_failed e ∷ es) = (broken (some e), es)
recv_loop (suc n) acc (packet [] ∷ es) = (broken none, es)
recv_loop (suc n) acc (packet (c ∷ s) ∷ es) =
    let got = c ∷ s in
    if leb (length got) (suc n)
    then recv_loop (suc n - length got) (acc ++ got) es
    else (received (acc ++ take (suc n) got), packet (drop (suc n) got) ∷ es)

abbrev pub with_errno : Option ℕ → World → World
with_errno none w = w
with_errno (some e) w = set_os (record w.os { errno = e }) w

abbrev pub errno_of : Received → Option ℕ
errno_of (broken e) = e
errno_of _ = none

-- `tcprecvdata`; the buffer is never NULL in its callers
unfoldable pub tcp_recv : ℕ → Cmd Received
unfolding recv_loop
tcp_recv size w =
    let (r, es) = recv_loop size [] w.incoming in
    if is_neg w.sock
    then ok (broken none) w
    else ok r (with_errno (errno_of r) (set_conn (record w.conn { incoming = es }) w))

-- the results 1, 0 and -1
pub data Sent : Type 0 where
  done : Sent
  timed_out : Sent
  failed : Option ℕ → Sent

pub record Sending : Type 0 where
  pub result : Sent
  pub written : Bytes
  pub left : List Departure

-- the loop of `tcpsenddata`; an `accepted k` takes at most the bytes that are left
unfoldable pub send_loop : Bytes → Bytes → List Departure → Sending
send_loop acc [] ds = record { result = done; written = acc; left = ds }
send_loop acc s [] = record { result = done; written = acc ++ s; left = [] }
send_loop acc s (Departure.timeout ∷ ds) = record { result = timed_out; written = acc; left = ds }
send_loop acc s (not_writable ∷ ds) = record { result = failed none; written = acc; left = ds }
send_loop acc s (Departure.select_failed e ∷ ds) = record {
  result = failed (some e);
  written = acc;
  left = ds;
}
send_loop acc s (write_failed e ∷ ds) = record {
  result = failed (some e);
  written = acc;
  left = ds;
}
send_loop acc s (accepted k ∷ ds) = send_loop (acc ++ take k s) (drop k s) ds

abbrev sent_errno : Sent → Option ℕ
sent_errno (failed e) = e
sent_errno _ = none

-- `tcpsenddata`: `none` is a NULL pointer
unfoldable pub tcp_send : Option Bytes → Cmd Sent
unfolding send_loop
tcp_send none w = ok (failed none) w
tcp_send (some s) w =
    let r = send_loop [] s w.outgoing in
    if is_neg w.sock
    then ok (failed none) w
    else ok r.result (
        with_errno (sent_errno r.result)
          (set_conn (record w.conn { outgoing = r.left; sent = w.sent ++ r.written }) w))
