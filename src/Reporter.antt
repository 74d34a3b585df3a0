-- ===== src/Reporter.antt =====
-- tracker_client_thread.c: the messages of the daemon to a tracker, on the connection to it.
pub mod Beating
pub mod Syncing
pub mod Session
use demostroage.Prelude.{
  ℕ, ◌+◌, ◌-◌, ◌*◌, ◌/◌, ◌^◌, Bool, true, false, List, [], ◌∷◌, ◌++◌, ◌==◌, if◌then◌else◌, Bytes,
  length, take, drop, replicate, ℤ, pos, word,
}
use demostroage.Libc.{cstr, strtoi, print_hex}
use demostroage.Shared.{int2buff}
use demostroage.Runtime.{StorageStat, Reports, Cmd, pure, gets, undefined, case_option, ◌>>=◌, ◌>>◌}
use demostroage.Posix.{codes, eacces, einval, epipe, attempt, errno_or, log_error}
use demostroage.Socket.{tcp_send}
use demostroage.Wire.{
  group_name_max_len, pkg_len_size, header_bytes, cmd_tracker_resp, cmd_join, cmd_beat, cmd_report,
  cmd_sync_dest_req, cmd_sync_notify, is_sent,
}
use demostroage.LocalHost.{ip_size}
use demostroage.Binlog.{change_proc, init_pthread_lock}
use demostroage.Tracker.{send_message, Response, tracker_recv_response}

-- `tracker_report_init`
unfoldable pub tracker_report_init : Cmd ℕ
tracker_report_init = init_pthread_lock

-- `tracker_check_response`
unfoldable pub tracker_check_response : Cmd ℕ
tracker_check_response = pure 0

-- a message, and the answer that is not waited for
unfoldable pub send_checked : Bytes → Cmd ℕ
send_checked message = do
  sent ← send_message message
  if sent == 0 then tracker_check_response else pure sent

-- an array of zeros with a string at its start
abbrev pub padded : ℕ → Bytes → Bytes
padded size s = s ++ replicate (size - length s) 0

-- a header in a buffer of zeros
abbrev pub clear_header : Bytes → ℕ → Bytes
clear_header pkg_len cmd =
    header_bytes (λ n. 0) (record { pkg_len = pkg_len; cmd = cmd; status = 0 })

-- `TrackerStorageJoinBody`
abbrev pub join_body_size : ℕ
join_body_size = 26

abbrev pub join_body : Bytes → ℤ → Bytes
join_body group_name port =
    padded (group_name_max_len + 1) group_name ++ padded pkg_len_size (print_hex (word port))

-- `tracker_report_join`
unfoldable pub tracker_report_join : Cmd ℕ
tracker_report_join = do
  group_name ← gets (λ w. w.group_name)
  port ← gets (λ w. w.config.server_port)
  send_checked (clear_header (print_hex join_body_size) cmd_join ++ join_body group_name port)

-- what `statfs` tells of the file system under the base path
pub record FileSystem : Type 0 where
  pub f_blocks : ℕ
  pub f_bavail : ℕ
  pub f_bsize : ℕ

-- `FDFS_ONE_MB`
abbrev pub one_mb : ℕ
one_mb = 1024 * 1024

-- blocks in megabytes; the product of doubles is exact below 2 ^ 53
abbrev pub in_mb : ℕ → FileSystem → ℕ
in_mb blocks sbuf = blocks * sbuf.f_bsize / one_mb

-- `TrackerStatReportReqBody`
abbrev pub report_body_size : ℕ
report_body_size = 8

-- `tracker_report_stat`
unfoldable pub tracker_report_stat : FileSystem → Cmd ℕ
tracker_report_stat sbuf = do
  found ← attempt
  junk ← gets (λ w. w.junk)
  if found
      then send_checked (
          header_bytes junk
            (record { pkg_len = print_hex report_body_size; cmd = cmd_report; status = 0 })
          ++ (int2buff (in_mb sbuf.f_blocks sbuf) ++ int2buff (in_mb sbuf.f_bavail sbuf)))
      else (do log_error; errno_or eacces)

-- `FDFSStorageStatBuff`
pub record StatBuff : Type 0 where
  pub sz_total_upload_count : Bytes
  pub sz_success_upload_count : Bytes
  pub sz_total_set_meta_count : Bytes
  pub sz_success_set_meta_count : Bytes
  pub sz_total_delete_count : Bytes
  pub sz_success_delete_count : Bytes
  pub sz_total_download_count : Bytes
  pub sz_success_download_count : Bytes
  pub sz_total_get_meta_count : Bytes
  pub sz_success_get_meta_count : Bytes
  pub sz_last_source_update : Bytes
  pub sz_last_sync_update : Bytes

-- its bytes, in the order of its fields
unfoldable pub stat_bytes : StatBuff → Bytes
stat_bytes b =
    b.sz_total_upload_count
    ++ (b.sz_success_upload_count
        ++ (b.sz_total_set_meta_count
            ++ (b.sz_success_set_meta_count
                ++ (b.sz_total_delete_count
                    ++ (b.sz_success_delete_count
                        ++ (b.sz_total_download_count
                            ++ (b.sz_success_download_count
                                ++ (b.sz_total_get_meta_count
                                    ++ (b.sz_success_get_meta_count
                                        ++ (b.sz_last_source_update
                                            ++ (b.sz_last_sync_update)))))))))))

-- the twelve assignments
abbrev pub stat_buff : StorageStat → StatBuff
stat_buff s = record {
  sz_total_upload_count = int2buff s.total_upload_count;
  sz_success_upload_count = int2buff s.success_upload_count;
  sz_total_download_count = int2buff s.total_download_count;
  sz_success_download_count = int2buff s.success_download_count;
  sz_total_set_meta_count = int2buff s.total_set_meta_count;
  sz_success_set_meta_count = int2buff s.success_set_meta_count;
  sz_total_delete_count = int2buff s.total_delete_count;
  sz_success_delete_count = int2buff s.success_delete_count;
  sz_total_get_meta_count = int2buff s.total_get_meta_count;
  sz_success_get_meta_count = int2buff s.success_get_meta_count;
  sz_last_source_update = int2buff s.last_source_update;
  sz_last_sync_update = int2buff s.last_sync_update;
}

-- the message of a heart beat: its body is empty unless the statistics have changed
abbrev pub beat_message : (ℕ → ℕ) → Bytes → Bytes
beat_message junk body =
    header_bytes junk (record { pkg_len = print_hex (length body); cmd = cmd_beat; status = 0 })
    ++ body

-- a result, and the number of changes of which the tracker has been told
pub record Beat : Type 0 where
  pub result : ℕ
  pub stat_chg_sync_count : ℕ

-- `tracker_heart_beat`
unfoldable pub tracker_heart_beat : ℕ → Cmd Beat
tracker_heart_beat told = do
  changes ← gets (λ w. w.stat_change_count)
  junk ← gets (λ w. w.junk)
  stat ← gets (λ w. w.storage_stat)
  let body = if told == changes then [] else stat_bytes (stat_buff stat)
  sent ← send_checked (beat_message junk body)
  pure (record { result = sent; stat_chg_sync_count = changes })

-- `TrackerStorageSyncReqBody`
abbrev pub sync_body_size : ℕ
sync_body_size = 25

abbrev pub sync_body : Bytes → ℤ → Bytes
sync_body src_ip_addr until_timestamp =
    padded ip_size src_ip_addr ++ padded pkg_len_size (print_hex (word until_timestamp))

-- `tracker_sync_notify`
unfoldable pub tracker_sync_notify : Cmd ℕ
tracker_sync_notify = do
  src_ip_addr ← gets (λ w. w.reports.sync_src_ip_addr)
  until_timestamp ← gets (λ w. w.reports.sync_until_timestamp)
  send_checked (
      clear_header (print_hex sync_body_size) cmd_sync_notify
      ++ sync_body src_ip_addr until_timestamp)

-- the address and the time in such a body; the last byte of each array is overwritten by NUL
abbrev pub src_of_body : Bytes → Bytes
src_of_body body = cstr (take (ip_size - 1) body)

abbrev pub until_of_body : Bytes → ℤ
until_of_body body = strtoi 16 (cstr (take (pkg_len_size - 1) (drop ip_size body)))

unfoldable pub change_reports : (Reports → Reports) → Cmd (Unit {0})
change_reports f = change_proc λ p. record p { reports = f p.reports }

-- The answer of the tracker is taken over and confirmed. One of a wrong length is logged with a
-- format that a comma cuts in two, so that a line number is given for a `%s`, which is undefined.
unfoldable pub take_sync_source : Bytes → Cmd ℕ
take_sync_source body =
    if length body == 0
    then pure 0
    else if length body == sync_body_size
    then (do
      change_reports (λ r. record r {
        sync_src_ip_addr = src_of_body body;
        sync_until_timestamp = until_of_body body;
      })
      send_message (clear_header (codes "0") cmd_tracker_resp))
    else undefined

-- `tracker_sync_dest_req`
unfoldable pub tracker_sync_dest_req : Cmd ℕ
tracker_sync_dest_req = do
  sent ← send_message (clear_header [] cmd_sync_dest_req)
  if sent == 0
      then (do
        r ← tracker_recv_response sync_body_size
        if r.code == 0 then take_sync_source r.body else pure r.code)
      else pure sent
