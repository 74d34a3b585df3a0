-- ===== src/Tests.antt =====
-- Runs of the modelled functions, and the theorems at concrete inputs.
pub mod Requests
pub mod Binlogs
pub mod Deletions
pub mod Settings
pub mod Trackers
pub mod Folders
use demostroage.Metadata.{MetaData, pack_metadata, split_metadata}
use demostroage.Metadata.RoundTrip.{IsItem, pack_metadata-split_metadata}
use demostroage.Prelude.{
  ◌≤◌, replicate, ℕ, ◌+◌, ◌*◌, ◌/◌, ◌-◌, ◌%◌, ◌^◌, ◌<◌, ◌≡◌, ◌≢◌, refl, true, false, some, [], ◌∷◌,
  ◌++◌, arith, Bytes, All, length, take, drop, replicate, pos,
}
use demostroage.Libc.{print_hex}
use demostroage.Shared.{trim, split_ex, occur_count, int2buff}
use demostroage.Shared.Trim.{IsTrimmed, trim-IsTrimmed, buff2int, buff2int-int2buff}
use demostroage.Shared.Split.{IsSplit, split_ex-IsSplit, count, occur_count-count}
use demostroage.Hash.{pjw_hash, pjw_hash-lt}
use demostroage.Base64
use demostroage.Base64.Lengths.{length-encode, encode-initial}
use demostroage.LocalHost.{empty, insert_local, is_local_host_ip}
use demostroage.LocalHost.Slots.{Inserted, insert_local-Inserted, insert_local-is_local}
use demostroage.Runtime.{
  Arrival, packet, Departure, accepted, StorageStat, World, stop, out_of_fuel, Config, Reports,
}
use demostroage.Runtime.Keeps.{Ends}
use demostroage.Posix.{codes, enoent, has}
use demostroage.Socket.{received, recv_loop, send_loop}
use demostroage.Socket.Exact.{IsExact, recv_loop-IsExact, IsWritten, send_loop-IsWritten}
use demostroage.StatFile.Opening.{no_stat}
use demostroage.Wire.{header_bytes, read_header, body_len}
use demostroage.Wire.RoundTrip.{read_header-header_bytes}
use demostroage.Service.Reading.{storage_download_file, storage_get_metadata}
use demostroage.Service.Reading.Files.{SameFiles, storage_download_file-SameFiles}
use demostroage.Service.Uploading.{gen_filename, storage_save_file}
use demostroage.Service.Uploading.Names.{Started, storage_save_file-refused}
use demostroage.Service.Loop.{thread_loop}
use demostroage.Service.Loop.Ending.{rounds, thread_loop-ends}
use demostroage.Service.Loop.Counting.{Room, thread_loop-Room}

trim-IsTrimmed_example : IsTrimmed (codes " a b\n") (trim (codes " a b\n"))
trim-IsTrimmed_example = trim-IsTrimmed (codes " a b\n")

buff2int-int2buff_example :
    (buff2int (int2buff 3735928559) ≡ 3735928559) × All (λ b. b < 256) (int2buff 3735928559)
buff2int-int2buff_example = buff2int-int2buff 3735928559 (omega arith)

split_ex-IsSplit_example : IsSplit 1 b',' (codes "a,b,c") (split_ex (codes "a,b,c") b',' 2)
split_ex-IsSplit_example = split_ex-IsSplit (codes "a,b,c") b',' 1 (omega arith)

occur_count-count_example : occur_count (codes "a,b,c") b',' ≡ some (count b',' (codes "a,b,c"))
occur_count-count_example = occur_count-count (codes "a,b,c") b',' (omega arith)

pjw_hash-lt_example : pjw_hash (codes "abcdefghij") < 2 ^ 28
pjw_hash-lt_example = pjw_hash-lt (codes "abcdefghij")

abbrev four_bytes : Bytes
four_bytes = 1 ∷ 2 ∷ 3 ∷ 4 ∷ []

length-encode_example :
    length (Base64.encode Base64.initial four_bytes false) ≡ (4 * length four_bytes + 2) / 3
length-encode_example = length-encode Base64.initial four_bytes refl

encode-initial_example :
    Base64.encode Base64.initial four_bytes false ≡ replicate ((4 * length four_bytes + 2) / 3) 0
encode-initial_example = encode-initial four_bytes

insert_local-Inserted_example :
    Inserted empty (codes "10.0.0.1") (insert_local empty (codes "10.0.0.1"))
insert_local-Inserted_example =
    insert_local-Inserted empty (codes "10.0.0.1") (omega arith) (omega arith)

insert_local_first : (insert_local empty (codes "10.0.0.1")).0 ≡ pos 1
unfolding insert_local is_local_host_ip
insert_local_first = refl

-- "0.0.1" is taken for a local address
insert_local-is_local_example :
    is_local_host_ip (insert_local empty (codes "10.0.0.1")).1 (drop 3 (codes "10.0.0.1")) ≡ true
insert_local-is_local_example =
    insert_local-is_local empty (codes "10.0.0.1") 3 (omega arith) (omega arith) insert_local_first
      (omega arith)

recv_loop_two :
    recv_loop 3 [] (packet (codes "ab") ∷ packet (codes "cd") ∷ [])
    ≡ (received (codes "abc"), packet (codes "d") ∷ [])
unfolding recv_loop
recv_loop_two = refl

recv_loop-IsExact_example :
    IsExact 3
      (packet (codes "ab") ∷ packet (codes "cd") ∷ [])
      (packet (codes "d") ∷ [])
      (codes "abc")
recv_loop-IsExact_example =
    recv_loop-IsExact 3 (packet (codes "ab") ∷ packet (codes "cd") ∷ []) (packet (codes "d") ∷ [])
      (codes "abc") recv_loop_two

send_loop-IsWritten_example :
    IsWritten (codes "abcdef") (send_loop [] (codes "abcdef") (accepted 2 ∷ Departure.timeout ∷ []))
send_loop-IsWritten_example =
    send_loop-IsWritten (codes "abcdef") (accepted 2 ∷ Departure.timeout ∷ [])

-- memory that nothing has written holds 170
abbrev memory : ℕ → ℕ
memory n = 170

read_header-header_bytes_example :
    (let h =
        read_header
          (header_bytes memory (record { pkg_len = print_hex 4096; cmd = 10; status = 0 })) in
      (body_len h ≡ pos 4096) × (h.cmd ≡ 10) × (h.status ≡ 0 % 256))
read_header-header_bytes_example = read_header-header_bytes memory 4096 10 0 (omega arith)

-- a download request for `f`
abbrev request : Bytes
request =
    header_bytes memory (record { pkg_len = codes "12"; cmd = 14; status = 0 })
    ++ (codes "group1" ++ (replicate 10 0 ++ codes "ab"))

abbrev pub no_config : Config
no_config = record {
  server_port = pos 23000;
  max_connections = pos 256;
  network_timeout = pos 30;
  heart_beat_interval = pos 30;
  stat_report_interval = pos 300;
  sync_wait_usec = pos 100;
  bind_addr = [];
  tracker_servers = [];
  tracker_server_count = pos 0;
}

abbrev pub no_reports : Reports
no_reports = record {
  tracker_reporter_count = pos 0;
  storage_join_time = pos 0;
  sync_old_done = false;
  sync_src_ip_addr = [];
  sync_until_timestamp = pos 0;
  local_hosts = empty;
}

-- a daemon with one file and that request on a connection
abbrev pub daemon : World
daemon = record {
  conn = record {
    sock = pos 5;
    incoming = packet (take 20 request) ∷ Arrival.timeout ∷ packet (drop 20 request) ∷ [];
    outgoing = [];
    sent = [];
  };
  os = record {
    errno = 0;
    outcomes = [];
    files = (codes "/d/data/ab", codes "hello") ∷ [];
    dirs = codes "/d/data/00/00" ∷ codes "/d/data" ∷ [];
    times = [];
    rands = [];
    junk = memory;
  };
  proc = record {
    continue_flag = true;
    base_path = codes "/d";
    group_name = codes "group1";
    storage_stat = no_stat;
    stat_change_count = 1;
    storage_stat_fd = true;
    storage_thread_count = 1;
    base64 = Base64.initial;
    binlog_index = pos 0;
    fp_binlog = some (codes "/d/sync/binlog.index");
    binlog_buffer = [];
    binlog_file_size = 0;
    config = no_config;
    reports = no_reports;
  };
}

thread_loop-ends_example : thread_loop 60 daemon ≢ out_of_fuel
thread_loop-ends_example = thread_loop-ends 60 daemon (omega arith)

thread_loop-Room_example :
    Ends (λ v. Room 0 v.storage_stat) (thread_loop 60 daemon)
    × ((n : ℕ) → n ≤ 60 → Ends (λ v. Room 0 v.storage_stat) (rounds n daemon))
thread_loop-Room_example = thread_loop-Room 60 daemon (omega arith) (omega arith)

storage_download_file-SameFiles_example :
    Ends (SameFiles daemon) (storage_download_file (pos 18) daemon)
    × Ends (SameFiles daemon) (storage_get_metadata (pos 18) daemon)
storage_download_file-SameFiles_example = storage_download_file-SameFiles (pos 18) daemon

daemon_folder : has (codes "/d" ++ codes "/data/00/00") daemon.dirs ≡ true
unfolding has
daemon_folder = refl

daemon-Started : Started daemon
daemon-Started = record { calm = refl; blank = refl; folder = daemon_folder }

storage_save_file-refused_example :
    (v : World) × (storage_save_file (codes "content") [] daemon ≡ stop enoent v)
    × (v.files ≡ daemon.files)
storage_save_file-refused_example =
    storage_save_file-refused (codes "content") [] daemon daemon-Started

abbrev an_item : MetaData
an_item = record { name = codes "width"; value = codes "640" }

an_item-IsItem : IsItem an_item
an_item-IsItem = record {
  name_record = refl;
  name_field = refl;
  value_record = refl;
  name_fits = omega arith;
  value_fits = omega arith;
}

pack_metadata-split_metadata_example :
    (s : Bytes) × (pack_metadata (an_item ∷ an_item ∷ []) ≡ some s)
    × (split_metadata s ≡ some (an_item ∷ an_item ∷ []))
pack_metadata-split_metadata_example =
    pack_metadata-split_metadata an_item (an_item ∷ []) (an_item-IsItem, (an_item-IsItem, tt))
