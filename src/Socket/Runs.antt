-- ===== src/Socket/Runs.antt =====
-- Transfers that succeed.
use demostroage.Prelude.{ℕ, ◌≡◌, refl, false, List, [], ◌∷◌, ◌++◌, Bytes, is_neg, some}
use demostroage.Runtime.{Arrival, World, ok, set_conn}
use demostroage.Runtime.Runs.{Runs}
use demostroage.Socket.{received, recv_loop, tcp_recv, done, send_loop, tcp_send}

-- the world after data has arrived, and after data was sent
abbrev pub arrived : List Arrival → World → World
arrived es w = set_conn (record w.conn { incoming = es }) w

abbrev pub sent_more : Bytes → World → World
sent_more s w = set_conn (record w.conn { outgoing = []; sent = w.sent ++ s }) w

pub Runs-tcp_recv :
    (size : ℕ) (w : World) {s : Bytes} {es : List Arrival}
    → is_neg w.sock ≡ false
    → recv_loop size [] w.incoming ≡ (received s, es)
    → Runs (tcp_recv size) w (ok (received s) (arrived es w))
unfolding tcp_recv
Runs-tcp_recv size w good h = record { same = rw (good, h) }

send_loop_at_once :
    (s : Bytes) → send_loop [] s [] ≡ record { result = done; written = s; left = [] }
unfolding send_loop
send_loop_at_once [] = refl
send_loop_at_once (c ∷ s) = refl

-- a peer that takes everything
pub Runs-tcp_send :
    (s : Bytes) (w : World)
    → is_neg w.sock ≡ false
    → w.outgoing ≡ []
    → Runs (tcp_send (some s)) w (ok done (sent_more s w))
unfolding tcp_send
Runs-tcp_send s w good free = record { same = rw (good, free, send_loop_at_once s) }
