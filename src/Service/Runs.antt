-- ===== src/Service/Runs.antt =====
-- The parts that the handlers share, where they succeed.
use demostroage.Prelude.{
  ℕ, ◌<◌, ◌≡◌, refl, ap, ◌∙◌, true, false, not, List, [], Bytes, arith, is_neg, some, take, drop,
  eqb, eqb_refl, leb, length, pos,
}
use demostroage.Libc.{cstr}
use demostroage.Runtime.{Arrival, World, Run, ok, Cmd}
use demostroage.Runtime.Runs.{Runs, Runs-bind, Runs-gets, Runs-pure, Runs-some}
use demostroage.Posix.Calm.{Calm, Runs-guard}
use demostroage.Socket.{received, recv_loop}
use demostroage.Socket.Runs.{arrived, sent_more, Runs-tcp_recv, Runs-tcp_send}
use demostroage.Wire.{cmd_resp, header_bytes, recv_or_fail, send_then}
use demostroage.Service.{recv_name_request, reply_then}

-- a connection whose peer takes everything that is sent, with no failing call
pub record IsOpen (w : World) : Type 0 where
  pub calm : Calm w
  pub socket : is_neg w.sock ≡ false
  pub free : w.outgoing ≡ []

-- the bytes of a reply's header
abbrev pub reply_bytes : (ℕ → ℕ) → Bytes → ℕ → Bytes
reply_bytes junk pkg_len status =
    header_bytes junk (record { pkg_len = pkg_len; cmd = cmd_resp; status = status })

pub Runs-recv_or_fail :
    (n : ℕ) (w : World) {s : Bytes} {es : List Arrival}
    → is_neg w.sock ≡ false
    → recv_loop n [] w.incoming ≡ (received s, es)
    → Runs (recv_or_fail n) w (ok s (arrived es w))
unfolding recv_or_fail
Runs-recv_or_fail n w {s} good h =
    Runs-bind _ _ w (Runs-tcp_recv n w good h) (Runs-some _ _ _ refl (Runs-pure s _))

pub Runs-send_then :
    (s : Bytes) (k : Cmd ℕ) (w : World) {r : Run ℕ}
    → is_neg w.sock ≡ false
    → w.outgoing ≡ []
    → Runs k (sent_more s w) r
    → Runs (send_then (some s) k) w r
unfolding send_then
Runs-send_then s k w good free rest = Runs-bind _ _ w (Runs-tcp_send s w good free) rest

pub Runs-reply_then :
    (l : Bytes) (status : ℕ) (k : Cmd ℕ) (w : World) {r : Run ℕ}
    → is_neg w.sock ≡ false
    → w.outgoing ≡ []
    → Runs k (sent_more (reply_bytes w.junk l status) w) r
    → Runs (reply_then l status k) w r
unfolding reply_then
Runs-reply_then l status k w good free rest =
    Runs-bind _ _ w (Runs-gets _ w) (Runs-send_then _ k w good free rest)

above : (n : ℕ) → 16 < n → not (leb n 16) ≡ true
above n h = ground arith

below : (n : ℕ) → n < 48 → leb n 47 ≡ true
below n h = ground arith

-- A request for a name: 17 to 47 bytes, of which the first 16 hold the name of this group.
pub record IsNameRequest (w : World) (s : Bytes) (es : List Arrival) : Type 0 where
  pub arrives : recv_loop (length s) [] w.incoming ≡ (received s, es)
  pub long : 16 < length s
  pub short : length s < 48
  pub group : cstr (take 16 s) ≡ w.group_name

pub Runs-recv_name_request :
    (m : Cmd (Unit {0})) (w : World) {s : Bytes} {es : List Arrival}
    → is_neg w.sock ≡ false
    → IsNameRequest w s es
    → Runs (recv_name_request (pos (length s)) m) w (ok (cstr (drop 16 s)) (arrived es w))
unfolding recv_name_request
Runs-recv_name_request m w {s} {es} good q =
    Runs-bind _ _ w (Runs-guard _ w (above (length s) q.long)) (
      Runs-bind _ _ w (Runs-guard _ w (below (length s) q.short)) (
        Runs-bind _ _ w (Runs-recv_or_fail (length s) w good q.arrives) (
          Runs-bind _ _ _ (Runs-gets _ _) (
            Runs-bind _ _ _
              (Runs-guard _ _ (ap (λ g. eqb g w.group_name) q.group ∙ eqb_refl w.group_name))
              (Runs-pure (cstr (drop 16 s)) _)))))
