-- ===== src/Runtime.antt =====
-- The state that the daemon's functions read and write, and commands over it.
-- `Os` is what the system holds and decides, `Conn` one connection, `Proc` the global variables.
pub mod Keeps
pub mod Frames
pub mod Runs
pub mod Returns
use demostroage.Prelude.{
  ℕ, Bool, true, false, List, Option, none, some, if◌then◌else◌, ◌==◌, Bytes, ℤ,
}
use demostroage.Base64
use demostroage.LocalHost

-- What the peer and the network do next, as `select` and `read` show it. After the last arrival
-- the peer has closed the connection.
pub data Arrival : Type 0 where
  packet : Bytes → Arrival
  timeout : Arrival
  not_readable : Arrival
  closed : Arrival
  select_failed : ℕ → Arrival
  read_failed : ℕ → Arrival

-- What `select` and `write` answer next. After the last departure every write takes all bytes.
pub data Departure : Type 0 where
  accepted : ℕ → Departure
  timeout : Departure
  not_writable : Departure
  select_failed : ℕ → Departure
  write_failed : ℕ → Departure

pub record Conn : Type 0 where
  pub sock : ℤ
  pub incoming : List Arrival
  pub outgoing : List Departure
  pub sent : Bytes

pub record Os : Type 0 where
  pub errno : ℕ
  pub outcomes : List ℕ  -- the errno of each coming call; 0 lets it through, as does the end
  pub files : List (Bytes × Bytes)
  pub dirs : List Bytes
  pub times : List ℕ  -- what `time` returns next
  pub rands : List ℕ  -- what `rand` returns next
  pub junk : ℕ → ℕ  -- what memory holds that nothing has written

-- `FDFSStorageStat`
pub record StorageStat : Type 0 where
  pub total_upload_count : ℕ
  pub success_upload_count : ℕ
  pub total_set_meta_count : ℕ
  pub success_set_meta_count : ℕ
  pub total_delete_count : ℕ
  pub success_delete_count : ℕ
  pub total_download_count : ℕ
  pub success_download_count : ℕ
  pub total_get_meta_count : ℕ
  pub success_get_meta_count : ℕ
  pub last_source_update : ℕ
  pub last_sync_update : ℕ

-- `TrackerServerInfo`, of which the group name is not used; a port that is not positive is replaced
pub record TrackerServer : Type 0 where
  pub sock : ℤ
  pub port : ℕ
  pub ip_addr : Bytes

-- the global variables that the configuration file sets
pub record Config : Type 0 where
  pub server_port : ℤ
  pub max_connections : ℤ
  pub network_timeout : ℤ
  pub heart_beat_interval : ℤ
  pub stat_report_interval : ℤ
  pub sync_wait_usec : ℤ
  pub bind_addr : Bytes  -- the array of `main`
  pub tracker_servers : List TrackerServer
  pub tracker_server_count : ℤ

-- those that the threads for the trackers share
pub record Reports : Type 0 where
  pub tracker_reporter_count : ℤ
  pub storage_join_time : ℤ
  pub sync_old_done : Bool
  pub sync_src_ip_addr : Bytes
  pub sync_until_timestamp : ℤ
  pub local_hosts : LocalHost.Table

pub record Proc : Type 0 where
  pub continue_flag : Bool
  pub base_path : Bytes
  pub group_name : Bytes
  pub storage_stat : StorageStat
  pub stat_change_count : ℕ
  pub storage_stat_fd : Bool  -- whether it is open
  pub storage_thread_count : ℕ
  pub base64 : Base64.Context
  pub binlog_index : ℤ
  pub fp_binlog : Option Bytes  -- the file that `g_fp_binlog` has open
  pub binlog_buffer : Bytes  -- what it has not flushed
  pub binlog_file_size : ℕ
  pub config : Config
  pub reports : Reports

pub record World : Type 0 where
  pub conn : Conn
  pub open conn use *
  pub os : Os
  pub open os use *
  pub proc : Proc
  pub open proc use *

-- `stop` is a `break` out of a handler's block with the status set; `crash` is undefined
-- behaviour, such as `fclose(NULL)` or an access outside a buffer.
pub data Run (A : Type 0) : Type 0 where
  ok : A → World → Run A
  stop : ℕ → World → Run A
  crash : Run A
  out_of_fuel : Run A

abbrev pub Cmd : Type 0 → Type 0
Cmd A = World → Run A

module _ {A : Type 0} where
  pub pure : A → Cmd A
  pure a w = ok a w

  pub leave : ℕ → Cmd A
  leave s w = stop s w

  pub undefined : Cmd A
  undefined w = crash

  pub exhausted : Cmd A
  exhausted w = out_of_fuel

  pub gets : (World → A) → Cmd A
  gets f w = ok (f w) w

  abbrev pub caught : (ℕ → A) → Run A → Run A
  caught other (ok a w) = ok a w
  caught other (stop s w) = ok (other s) w
  caught other crash = crash
  caught other out_of_fuel = out_of_fuel

  -- the block `while (1) { … break; }`: its value, or `other` of the status that a `break` set
  pub block : (ℕ → A) → Cmd A → Cmd A
  block other m w = caught other (m w)

module _ {A B : Type 0} where
  pub case_option : Option A → Cmd B → (A → Cmd B) → Cmd B
  case_option none m k = m
  case_option (some a) m k = k a

pub modify : (World → World) → Cmd (Unit {0})
modify f w = ok tt (f w)

module _ {A B : Type 0} where
  abbrev pub and_then : Run A → (A → Cmd B) → Run B
  and_then (ok a w) k = k a w
  and_then (stop s w) k = stop s w
  and_then crash k = crash
  and_then out_of_fuel k = out_of_fuel

  -- opening this opens the other commands too
  infixl 5 ◌>>=◌ ◌>>◌
  unfoldable pub ◌>>=◌ : Cmd A → (A → Cmd B) → Cmd B
  unfolding pure leave undefined exhausted gets block case_option modify
  ◌>>=◌ m k w = and_then (m w) k

  abbrev pub ◌>>◌ : Cmd A → Cmd B → Cmd B
  m >> n = m >>= λ _. n

abbrev pub set_os : Os → World → World
set_os o w = record w { os = o }

abbrev pub set_conn : Conn → World → World
set_conn c w = record w { conn = c }

abbrev pub set_proc : Proc → World → World
set_proc p w = record w { proc = p }
