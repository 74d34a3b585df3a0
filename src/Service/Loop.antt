-- ===== src/Service/Loop.antt =====
-- `storage_thread_entrance`: the requests of one connection, and the statistics.
pub mod Frames
pub mod Ending
pub mod Counting
use demostroage.Prelude.{
  ℕ, zero, suc, ◌+◌, ◌-◌, ◌%◌, ◌^◌, Bool, true, false, Option, ltb, ◌==◌, if◌then◌else◌, Bytes, ℤ,
}
use demostroage.Runtime.{
  World, Proc, StorageStat, Cmd, pure, case_option, exhausted, gets, modify, set_proc, ◌>>=◌, ◌>>◌,
}
use demostroage.Posix.{attempt, log_error, time}
use demostroage.Socket.{Received, received, timed_out, broken, tcp_recv}
use demostroage.Binlog.{change_proc}
use demostroage.StatFile.{storage_write_to_stat_file}
use demostroage.Wire.{
  Header, bytes_of, header_size, read_header, body_len, cmd_upload_file, cmd_delete_file,
  cmd_set_metadata, cmd_download_file, cmd_get_metadata, cmd_sync_create_file, cmd_sync_delete_file,
  cmd_sync_update_file, cmd_quit,
}
use demostroage.Service.Reading.{storage_download_file, storage_get_metadata}
use demostroage.Service.Deleting.{storage_delete_file, storage_sync_delete_file}
use demostroage.Service.Replicating.{storage_sync_copy_file}
use demostroage.Service.SetMeta.{storage_set_metadata}
use demostroage.Service.Uploading.{storage_upload_file}

-- `n++` of an `int` counter, on its bit pattern
abbrev pub plus_one : ℕ → ℕ
plus_one n = (n + 1) % 2 ^ 32

abbrev pub update_stat : (StorageStat → StorageStat) → Cmd (Unit {0})
update_stat f = change_proc λ p. record p { storage_stat = f p.storage_stat }

-- whether an `int` is a multiple of `STORAGE_SYNC_STAT_FILE_FREQ`
abbrev pub is_due : ℕ → Bool
is_due n = (if ltb n (2 ^ 31) then n else 2 ^ 32 - n) % 1000 == 0

-- `CHECK_AND_WRITE_TO_STAT_FILE`: whether the loop goes on
unfoldable pub check_and_write_to_stat_file : Cmd Bool
check_and_write_to_stat_file = do
  change_proc λ p. record p { stat_change_count = plus_one p.stat_change_count }
  due ← gets (λ w. is_due w.stat_change_count)
  if due then (do r ← storage_write_to_stat_file; pure (r == 0)) else pure true

-- a branch of the loop: a counter, the handler and, if its result is 0, what is noted of it;
-- whether the loop goes on
unfoldable pub served : (StorageStat → StorageStat) → Cmd ℕ → Cmd (Unit {0}) → Cmd Bool
served count handler note = do
  update_stat count
  result ← handler
  if result == 0 then (do note; check_and_write_to_stat_file) else pure false

abbrev pub note_source : (StorageStat → StorageStat) → Cmd (Unit {0})
note_source f = do update_stat f; now ← time; update_stat λ s. record s { last_source_update = now }

abbrev pub note_sync : Cmd (Unit {0})
note_sync = do now ← time; update_stat λ s. record s { last_sync_update = now }

abbrev pub total_upload : StorageStat → StorageStat
total_upload s = record s { total_upload_count = plus_one s.total_upload_count }

abbrev pub success_upload : StorageStat → StorageStat
success_upload s = record s { success_upload_count = plus_one s.success_upload_count }

abbrev pub total_set_meta : StorageStat → StorageStat
total_set_meta s = record s { total_set_meta_count = plus_one s.total_set_meta_count }

abbrev pub success_set_meta : StorageStat → StorageStat
success_set_meta s = record s { success_set_meta_count = plus_one s.success_set_meta_count }

abbrev pub total_delete : StorageStat → StorageStat
total_delete s = record s { total_delete_count = plus_one s.total_delete_count }

abbrev pub success_delete : StorageStat → StorageStat
success_delete s = record s { success_delete_count = plus_one s.success_delete_count }

abbrev pub total_download : StorageStat → StorageStat
total_download s = record s { total_download_count = plus_one s.total_download_count }

abbrev pub success_download : StorageStat → StorageStat
success_download s = record s { success_download_count = plus_one s.success_download_count }

abbrev pub total_get_meta : StorageStat → StorageStat
total_get_meta s = record s { total_get_meta_count = plus_one s.total_get_meta_count }

abbrev pub success_get_meta : StorageStat → StorageStat
success_get_meta s = record s { success_get_meta_count = plus_one s.success_get_meta_count }

abbrev pub no_count : StorageStat → StorageStat
no_count s = s

-- the ladder over `header.cmd`; `TRACKER_PROTO_CMD_STORAGE_QUIT` ends the loop silently, and an
-- unknown command ends it with a line in the log
unfoldable pub dispatch : ℕ → ℤ → Cmd Bool
dispatch cmd n =
    if cmd == cmd_download_file
    then served total_download (storage_download_file n) (update_stat success_download)
    else if cmd == cmd_get_metadata
    then served total_get_meta (storage_get_metadata n) (update_stat success_get_meta)
    else if cmd == cmd_upload_file
    then served total_upload (storage_upload_file n) (note_source success_upload)
    else if cmd == cmd_delete_file
    then served total_delete (storage_delete_file n) (note_source success_delete)
    else if cmd == cmd_sync_create_file
    then served no_count (storage_sync_copy_file n cmd) note_sync
    else if cmd == cmd_sync_delete_file
    then served no_count (storage_sync_delete_file n) note_sync
    else if cmd == cmd_sync_update_file
    then served no_count (storage_sync_copy_file n cmd) note_sync
    else if cmd == cmd_set_metadata
    then served total_set_meta (storage_set_metadata n) (note_source success_set_meta)
    else if cmd == cmd_quit
    then pure false
    else (do log_error; pure false)

abbrev pub is_timeout : Received → Bool
is_timeout timed_out = true
is_timeout _ = false

-- one round of the loop: a timeout is waited over, any other failure ends the loop
unfoldable pub one_round : Cmd Bool
one_round = do
  r ← tcp_recv header_size
  case_option (bytes_of r) (if is_timeout r then pure true else (do log_error; pure false))
      λ s. dispatch (read_header s).cmd (body_len (read_header s))

-- `while (g_continue_flag)`: the test and a round, `again` being the rounds behind it
unfoldable pub loop_round : Cmd (Unit {0}) → Cmd (Unit {0})
loop_round again = do
  flag ← gets (λ w. w.continue_flag)
  more ← (if flag then one_round else pure false)
  if more then again else pure tt

unfoldable pub thread_loop : ℕ → Cmd (Unit {0})
thread_loop zero = exhausted
thread_loop (suc fuel) = loop_round (thread_loop fuel)

-- `storage_thread_entrance`, with the count of threads at its end
unfoldable pub storage_thread_entrance : ℕ → Cmd (Unit {0})
storage_thread_entrance fuel = do
  thread_loop fuel
  locked ← attempt
  (if locked then pure tt else log_error)
  change_proc λ p. record p { storage_thread_count = p.storage_thread_count - 1 }
  unlocked ← attempt
  (if unlocked then pure tt else log_error)
