-- ===== src/Threads.antt =====
-- main.c, and the ends of the threads of storage_service.c and tracker_client_thread.c: how the
-- main thread, the threads of the connections and those of the trackers take turns.
pub mod Invariant
pub mod Exits
use demostroage.Prelude.{ℕ, zero, suc, ◌+◌, ◌≤◌, ◌<◌, ◌≡◌, ◌⊎◌, Bool, true, false}

-- where the main thread stands: in `tracker_report_thread_start` with trackers left, there between
-- `pthread_create` and the counting of the thread, at the head of the accept loop, in `nbaccept`, in the loop that waits for the threads, or behind it
pub data Main : Type 0 where
  starting : ℕ → Main
  counting : ℕ → Main
  serving : Main
  accepting : Main
  draining : Main
  exited : Main

-- The threads of the trackers do the same, and so do those of the connections: it is their number
-- that counts. `g_storage_sync_thread_count` is 0 throughout.
pub record System : Type 0 where
  pub main : Main
  pub continue_flag : Bool
  pub storage_thread_count : ℕ
  pub tracker_server_count : ℕ
  pub tracker_reporter_count : ℕ
  pub connections : ℕ  -- threads of connections
  pub waiting : ℕ  -- reporters in their first loop, which waits for the others
  pub reporting : ℕ  -- reporters behind it
  pub ended : ℕ  -- reporters that have returned

-- One step of one thread. A mutex is held over each change of a counter with its test, so that such
-- a change is one step.
pub data Step (max_connections : ℕ) (s : System) : System → Type 0 where
  -- `pthread_create`
  start_reporter :
      {k : ℕ}
      → s.main ≡ starting (suc k)
      → Step max_connections s (record s { main = counting k; waiting = s.waiting + 1 })
  -- `g_tracker_server_count++`
  count_reporter :
      {k : ℕ}
      → s.main ≡ counting k
      → Step max_connections s
          (record s { main = starting k; tracker_server_count = s.tracker_server_count + 1 })
  -- `pthread_create` fails, and `main` returns
  start_failed :
      {k : ℕ}
      → s.main ≡ starting (suc k)
      → Step max_connections s (record s { main = exited; continue_flag = false })
  started : s.main ≡ starting 0 → Step max_connections s (record s { main = serving })
  enter :
      s.main ≡ serving
      → s.continue_flag ≡ true
      → Step max_connections s (record s { main = accepting })
  leave :
      s.main ≡ serving
      → s.continue_flag ≡ false
      → Step max_connections s (record s { main = draining })
  -- a connection with a thread of its own
  accept :
      s.main ≡ accepting
      → s.storage_thread_count < max_connections
      → Step max_connections s (record s {
        main = serving;
        storage_thread_count = s.storage_thread_count + 1;
        connections = s.connections + 1;
      })
  -- a timeout, a failure, a connection above the limit, or one without a thread
  refuse : s.main ≡ accepting → Step max_connections s (record s { main = serving })
  -- `EBADF == result`
  bad_socket : s.main ≡ accepting → Step max_connections s (record s { main = draining })
  -- the loop that waits for the threads is left
  exit :
      s.main ≡ draining
      → s.storage_thread_count ≡ 0
      → s.tracker_reporter_count ≡ 0
      → Step max_connections s (record s { main = exited })
  -- SIGINT, SIGQUIT or SIGTERM
  signal : Step max_connections s (record s { continue_flag = false })
  -- the end of `storage_thread_entrance`
  connection_ends :
      {n k : ℕ}
      → s.connections ≡ suc n
      → s.storage_thread_count ≡ suc k
      → Step max_connections s (record s { connections = n; storage_thread_count = k })
  -- a reporter sleeps, and tests again
  wait :
      0 < s.waiting
      → s.continue_flag ≡ true
      → s.tracker_reporter_count < s.tracker_server_count
      → Step max_connections s s
  -- the first loop of a reporter is left
  pass :
      {n : ℕ}
      → s.waiting ≡ suc n
      → (s.continue_flag ≡ false) ⊎ (s.tracker_server_count ≤ s.tracker_reporter_count)
      → Step max_connections s (record s { waiting = n; reporting = s.reporting + 1 })
  -- no socket, or the file for the trackers cannot be written: `g_continue_flag = false`
  report_failed : 0 < s.reporting → Step max_connections s (record s { continue_flag = false })
  -- the end of `tracker_report_thread_entrance`, with `g_tracker_reporter_count++`
  reporter_ends :
      {n : ℕ}
      → s.reporting ≡ suc n
      → s.continue_flag ≡ false
      → Step max_connections s (record s {
        reporting = n;
        ended = s.ended + 1;
        tracker_reporter_count = s.tracker_reporter_count + 1;
      })

-- `main` behind the loading of the configuration, with that many trackers in it
abbrev pub launched : ℕ → System
launched trackers = record {
  main = starting trackers;
  continue_flag = true;
  storage_thread_count = 0;
  tracker_server_count = trackers;
  tracker_reporter_count = 0;
  connections = 0;
  waiting = 0;
  reporting = 0;
  ended = 0;
}

-- any number of steps
pub data Steps (max_connections : ℕ) (s : System) : System → Type 0 where
  here : Steps max_connections s s
  next :
      {t u : System}
      → Steps max_connections s t
      → Step max_connections t u
      → Steps max_connections s u
