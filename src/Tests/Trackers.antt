-- ===== src/Tests/Trackers.antt =====
-- Exchanges with a tracker, and schedules of the threads.
use demostroage.Prelude.{◌≢◌, drop, ◌≡◌, refl, [], ◌∷◌, ◌++◌, arith, Bytes, negsuc, ℤ}
use demostroage.Libc.{print_hex}
use demostroage.Runtime.{packet, World, ok}
use demostroage.Runtime.Runs.{Runs}
use demostroage.Runtime.Returns.{Returns}
use demostroage.Posix.{codes}
use demostroage.Socket.{recv_loop}
use demostroage.Socket.Runs.{sent_more}
use demostroage.Wire.{header_size, header_bytes, cmd_sync_dest_req}
use demostroage.Service.Runs.{IsOpen}
use demostroage.Tracker.{tracker_recv_response}
use demostroage.Tracker.Responses.{Fits, tracker_recv_response-Fits}
use demostroage.Reporter.{clear_header, sync_body, tracker_heart_beat, tracker_sync_dest_req}
use demostroage.Reporter.Beating.{news_size, Tells, HasCounters, tracker_heart_beat-Tells}
use demostroage.Reporter.Syncing.{IsAddress, IsAnswered, confirmation, tracker_sync_dest_req-takes}
use demostroage.Threads.{
  System, launched, Steps, here, next, start_reporter, count_reporter, started, enter, leave,
  accept, signal,
}
use demostroage.Threads.Invariant.{Counted, Steps-Counted}
use demostroage.Threads.Exits.{Steps-silent}
use demostroage.Tests.{daemon, memory}

tracker_recv_response-Fits_example : Returns (Fits 25) (tracker_recv_response 25) daemon
tracker_recv_response-Fits_example = tracker_recv_response-Fits 25 daemon

abbrev source : Bytes
source = codes "10.0.0.7"

-- the time is -2, as the bit pattern fffffffe
abbrev until : ℤ
until = negsuc 1

abbrev answer : Bytes
answer = header_bytes memory (record { pkg_len = print_hex 25; cmd = 80; status = 0 })

-- a daemon with the answer of a tracker on its connection
abbrev answered : World
answered = record daemon {
  conn = record daemon.conn {
    incoming = packet (answer ++ sync_body source until) ∷ [];
    outgoing = [];
  };
}

answered-IsOpen : IsOpen answered
answered-IsOpen = record { calm = refl; socket = refl; free = refl }

tracker_heart_beat-Tells_example :
    (m : Bytes) × Runs
      (tracker_heart_beat 0)
      answered
      (ok (record { result = 0; stat_chg_sync_count = 1 }) (sent_more m answered))
    × Tells m (news_size 0 answered)
    × (0 ≢ answered.stat_change_count → HasCounters (drop header_size m) answered.storage_stat)
tracker_heart_beat-Tells_example = tracker_heart_beat-Tells 0 answered answered-IsOpen (omega arith)

source-IsAddress : IsAddress source
source-IsAddress = record { text = omega arith; fits = omega arith }

answered-IsAnswered : IsAnswered answered source until
unfolding recv_loop print_hex
answered-IsAnswered = record {
  junk = memory;
  cmd = 80;
  behind_header = packet (sync_body source until) ∷ [];
  behind_body = [];
  header = refl;
  body = refl;
}

tracker_sync_dest_req-takes_example :
    (v : World) × Runs tracker_sync_dest_req answered (ok 0 v)
    × (v.reports.sync_src_ip_addr ≡ source)
    × (v.reports.sync_until_timestamp ≡ until)
    × (v.sent ≡ (answered.sent ++ clear_header [] cmd_sync_dest_req) ++ confirmation)
tracker_sync_dest_req-takes_example =
    tracker_sync_dest_req-takes source until answered source-IsAddress (omega arith) answered-IsOpen
      answered-IsAnswered

-- one tracker, and one connection
abbrev connected : (s : System) × Steps 1 (launched 1) s
connected = (
  _,
  next
      (next (next (next (next here (start_reporter refl)) (count_reporter refl)) (started refl))
        (enter refl refl))
      (accept refl (omega arith)),
)

Steps-Counted_example : Counted 1 connected.0
Steps-Counted_example = Steps-Counted connected.1

Steps-silent_example : (connected.0.reporting ≡ 0) × (connected.0.ended ≡ 0)
Steps-silent_example = Steps-silent (omega arith) connected.1 refl

-- the daemon is told to end
abbrev signalled : (s : System) × Steps 1 (launched 1) s
signalled = (_, next (next connected.1 signal) (leave refl refl))
