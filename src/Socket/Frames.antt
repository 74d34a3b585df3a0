-- ===== src/Socket/Frames.antt =====
-- What the sending and the receiving keep.
use demostroage.Prelude.{
  ℕ, ◌++◌, [], refl, Option, none, some, inl, inr, Bool-cases, arith, Bytes, is_neg,
}
use demostroage.Runtime.{World}
use demostroage.Runtime.Frames.{Quiet, Conns}
use demostroage.Runtime.Keeps.{Keeps}
use demostroage.Socket.{recv_loop, tcp_recv, with_errno, errno_of, send_loop, tcp_send, sent_errno}
use demostroage.Socket.Exact.{recv_loop-weight}

module _ {P : World → Type 0} where
  Keeps-with_errno : (e : Option ℕ) (w : World) → Quiet P → P w → P (with_errno e w)
  Keeps-with_errno none w q h = h
  Keeps-with_errno (some e) w q h = q.free w _ refl refl h

  pub Keeps-tcp_recv : (size : ℕ) → Quiet P → Conns P → Keeps P (tcp_recv size)
  unfolding tcp_recv
  Keeps-tcp_recv size q c = record {
    at = λ w h. elim (Bool-cases (is_neg w.sock)) [
      | inl bad ↦ rw bad h
      | inr good ↦
          let (r, es) = recv_loop size [] w.incoming in
          rw good (
            Keeps-with_errno (errno_of r) _ q
              (c.free w (record w.conn { incoming = es }) (recv_loop-weight size [] w.incoming) h))
    ];
  }

  pub Keeps-tcp_send : (body : Option Bytes) → Quiet P → Conns P → Keeps P (tcp_send body)
  unfolding tcp_send
  Keeps-tcp_send none q c = record { at = λ w h. h }
  Keeps-tcp_send (some s) q c = record {
    at = λ w h. elim (Bool-cases (is_neg w.sock)) [
      | inl bad ↦ rw bad h
      | inr good ↦
          let r = send_loop [] s w.outgoing in
          rw good (
            Keeps-with_errno (sent_errno r.result) _ q (
              c.free w (record w.conn { outgoing = r.left; sent = w.sent ++ r.written })
                (omega arith) h))
    ];
  }
