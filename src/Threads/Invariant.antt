-- ===== src/Threads/Invariant.antt =====
-- What holds in every state that the daemon gets into.
use demostroage.Prelude.{ℕ, ◌≤◌, ◌≡◌, arith}
use demostroage.Threads.{
  System, Step, start_reporter, count_reporter, start_failed, started, enter, leave, accept, refuse,
  bad_socket, exit, signal, connection_ends, wait, pass, report_failed, reporter_ends, launched,
  Steps, here, next,
}

-- The counter of the connections' threads counts them, and there are no more than allowed.
pub record Counted (max_connections : ℕ) (s : System) : Type 0 where
  pub counted : s.storage_thread_count ≡ s.connections
  pub limited : s.connections ≤ max_connections

Step-Counted : {m : ℕ} {s t : System} → Step m s t → Counted m s → Counted m t
Step-Counted (start_reporter e) c = record { counted = c.counted; limited = c.limited }
Step-Counted (count_reporter e) c = record { counted = c.counted; limited = c.limited }
Step-Counted (start_failed e) c = record { counted = c.counted; limited = c.limited }
Step-Counted (started e) c = record { counted = c.counted; limited = c.limited }
Step-Counted (enter e f) c = record { counted = c.counted; limited = c.limited }
Step-Counted (leave e f) c = record { counted = c.counted; limited = c.limited }
Step-Counted (accept e lt) c = omega arith
Step-Counted (refuse e) c = record { counted = c.counted; limited = c.limited }
Step-Counted (bad_socket e) c = record { counted = c.counted; limited = c.limited }
Step-Counted (exit e n r) c = record { counted = c.counted; limited = c.limited }
Step-Counted signal c = record { counted = c.counted; limited = c.limited }
Step-Counted (connection_ends n k) c = omega arith
Step-Counted (wait w f r) c = c
Step-Counted (pass w p) c = record { counted = c.counted; limited = c.limited }
Step-Counted (report_failed r) c = record { counted = c.counted; limited = c.limited }
Step-Counted (reporter_ends r f) c = record { counted = c.counted; limited = c.limited }

-- In every state that the daemon gets into, `g_storage_thread_count` is the number of threads of
-- connections, and at most `g_max_connections`, however the threads take turns.
pub Steps-Counted :
    {max_connections trackers : ℕ} {s : System}
    → Steps max_connections (launched trackers) s
    → Counted max_connections s
Steps-Counted here = omega arith
Steps-Counted (next r st) = Step-Counted st (Steps-Counted r)
