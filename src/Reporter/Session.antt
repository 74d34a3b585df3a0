-- ===== src/Reporter/Session.antt =====
-- tracker_client_thread.c: what `tracker_report_thread_entrance` does on a connection to a tracker,
-- before and in its inner loop.
use demostroage.Prelude.{
  ℕ, suc, ◌+◌, Bool, true, false, [], if◌then◌else◌, ◌==◌, leb, eqb, Bytes, ℤ, pos, negsuc,
}
use demostroage.Runtime.{Cmd, pure, gets, ◌>>=◌, ◌>>◌}
use demostroage.Posix.{attempt, log_error, time}
use demostroage.LocalHost.{insert_local}
use demostroage.Binlog.{change_proc}
use demostroage.Tracker.{tracker_quit}
use demostroage.Reporter.{
  FileSystem, tracker_report_join, tracker_report_stat, tracker_heart_beat, tracker_sync_notify,
  tracker_sync_dest_req, change_reports,
}
use demostroage.DataDirs.{storage_write_to_sync_ini_file}

-- the thread goes on, sleeps and connects again, or leaves its loop
pub data Next : Type 0 where
  goes_on : Next
  retries : Next
  ends : Next

-- `pthread_mutex_unlock`, whose failure is only logged
unfoldable pub unlocked : Next → Cmd Next
unlocked n = do through ← attempt; if through then pure n else (do log_error; pure n)

-- under the lock: the first thread that gets here asks for the source of the files
unfoldable pub ask_source : Cmd Next
ask_source = do
  done ← gets (λ w. w.reports.sync_old_done)
  if done then unlocked goes_on else (do
    asked ← tracker_sync_dest_req
    if asked == 0
        then (do
          change_reports (λ r. record r { sync_old_done = true })
          written ← storage_write_to_sync_ini_file
          if written == 0
              then unlocked goes_on
              else (do change_proc (λ p. record p { continue_flag = false }); attempt; pure ends))
        else (do attempt; tracker_quit; pure retries))

-- `sync_old_done` is the variable of the thread
unfoldable pub sync_old : Bool → Cmd Next
sync_old sync_old_done = if sync_old_done then pure goes_on else (do
  locked ← attempt
  if locked then ask_source else (do log_error; tracker_quit; pure retries))

-- the tracker is told of the source, if there is one
unfoldable pub notify : Next → Cmd Next
notify goes_on = do
  src_ip_addr ← gets (λ w. w.reports.sync_src_ip_addr)
  if eqb src_ip_addr [] then pure goes_on else (do
    told ← tracker_sync_notify
    if told == 0 then pure goes_on else (do tracker_quit; pure retries))
notify n = pure n

-- behind `connectserverbyip`, with the address that the socket has here
unfoldable pub open_session : Bytes → Bool → Cmd Next
open_session tracker_client_ip sync_old_done = do
  hosts ← gets (λ w. w.reports.local_hosts)
  change_reports (λ r. record r { local_hosts = (insert_local hosts tracker_client_ip).1 })
  joined ← tracker_report_join
  if joined == 0 then (do n ← sync_old sync_old_done; notify n) else pure retries

-- the variables of the inner loop, and whether it goes on
pub record Session : Type 0 where
  pub stat_chg_sync_count : ℕ
  pub last_beat_time : ℕ
  pub last_report_time : ℕ
  pub alive : Bool

-- `now - last >= interval`
abbrev pub is_time : ℕ → ℕ → ℤ → Bool
is_time now last (pos n) = leb (last + n) now
is_time now last (negsuc n) = leb last (now + suc n)

-- a heart beat, if it is time for one
unfoldable pub beat_if_due : ℕ → Session → Cmd Session
beat_if_due now s = do
  interval ← gets (λ w. w.config.heart_beat_interval)
  if is_time now s.last_beat_time interval
      then (do
        beat ← tracker_heart_beat s.stat_chg_sync_count
        pure (
            if beat.result == 0
            then record s { stat_chg_sync_count = beat.stat_chg_sync_count; last_beat_time = now }
            else record s { stat_chg_sync_count = beat.stat_chg_sync_count; alive = false }))
      else pure s

-- a report of the disk, if the beat has not ended the loop
unfoldable pub report_if_due : FileSystem → ℕ → Session → Cmd Session
report_if_due sbuf now s = do
  interval ← gets (λ w. w.config.stat_report_interval)
  if s.alive
      then (if is_time now s.last_report_time interval
          then (do
            r ← tracker_report_stat sbuf
            pure (
                if r == 0 then record s { last_report_time = now } else record s { alive = false }))
          else pure s)
      else pure s

-- a round of the inner loop, up to its sleep
unfoldable pub session_round : FileSystem → Session → Cmd Session
session_round sbuf s = do
  current_time ← time
  t ← beat_if_due current_time s
  report_if_due sbuf current_time t
