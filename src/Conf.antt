-- ===== src/Conf.antt =====
-- storage_func.c: the configuration file, and the sorted array of trackers made of it.
pub mod Order
pub mod Servers
pub mod Copying
pub mod Loading
use mathlib.Core.List.{reverse}
use demostroage.Prelude.{
  ℕ, zero, suc, ◌+◌, ◌-◌, ◌*◌, Bool, true, false, ◌&&◌, Option, none, some, List, [], ◌∷◌, ◌++◌,
  ltb, leb, ◌==◌, if◌then◌else◌, Bytes, length, drop, ℤ, pos, negsuc, is_pos, to_int, eqb, not,
}
use demostroage.Libc.{strchr, strcmp, atoi, truncated}
use demostroage.Libc.Sort.{insert_by, bsearch}
use demostroage.Shared.{before, chop_path}
use demostroage.Runtime.{
  TrackerServer, Config, World, Cmd, pure, leave, gets, block, case_option, ◌>>=◌, ◌>>◌,
}
use demostroage.Posix.{
  codes, enoent, enomem, enotdir, einval, ecanceled, attempt, errno_or, log_error, fail, fail_errno,
  guard, file_exists, is_dir_path,
}
use demostroage.Binlog.{path_of, change_proc}
use demostroage.Ini.{
  Item, get_str_value, get_int_value, get_bool_value, get_values, Loaded, loaded, load_failed,
  load_items,
}
use demostroage.Tracker.{validate_group_name}

-- `FDFS_TRACKER_SERVER_DEF_PORT`, `FDFS_MAX_TRACKERS` and the defaults of the settings
abbrev pub tracker_server_def_port : ℕ
tracker_server_def_port = 22000

abbrev pub max_trackers : ℕ
max_trackers = 16

abbrev pub default_network_timeout : ℕ
default_network_timeout = 30

abbrev pub storage_server_def_port : ℕ
storage_server_def_port = 23000

abbrev pub beat_def_interval : ℕ
beat_def_interval = 30

abbrev pub report_def_interval : ℕ
report_def_interval = 300

abbrev pub def_sync_wait_msec : ℕ
def_sync_wait_msec = 100

abbrev pub def_max_connections : ℕ
def_max_connections = 256

-- the first comparison, unless it is equal
abbrev pub then_by : ℤ → ℤ → ℤ
then_by (pos zero) d = d
then_by (pos (suc n)) d = pos (suc n)
then_by (negsuc n) d = negsuc n

-- `a - b` of two ports
abbrev pub port_difference : ℕ → ℕ → ℤ
port_difference a b = if leb b a then pos (a - b) else negsuc (b - a - 1)

-- `storage_cmp_by_ip_and_port`
abbrev pub compare_server : TrackerServer → TrackerServer → ℤ
compare_server a b = then_by (strcmp a.ip_addr b.ip_addr) (port_difference a.port b.port)

-- `insert_into_sorted_servers`: from the end of the array, behind the first server that is smaller
unfoldable pub insert_into_sorted_servers : TrackerServer → List TrackerServer → List TrackerServer
insert_into_sorted_servers x servers =
    reverse (insert_by (λ a b. is_pos (compare_server a b)) x (reverse servers))

-- a server that is not in the array yet is put in its place
unfoldable pub merge_server : List TrackerServer → TrackerServer → List TrackerServer
unfolding insert_into_sorted_servers
merge_server servers x = elim (bsearch (compare_server x) servers) [
  | none ↦ insert_into_sorted_servers x servers
  | some i ↦ servers
]

-- `if (v <= 0) v = default`
abbrev pub positive_or : ℕ → ℤ → ℤ
positive_or default v = if is_pos v then v else pos default

abbrev pub port_or : ℕ → ℤ → ℕ
port_or default (pos n) = if n == 0 then default else n
port_or default (negsuc n) = default

-- the address that `getIpaddrByName` writes, as much as `FDFS_IPADDR_SIZE` bytes hold, or `none`
-- for INADDR_NONE
module _ (resolve : Bytes → Option Bytes) where
  server_at : Bytes → Option Bytes → Option TrackerServer
  server_at port none = none
  server_at port (some ip) =
      if eqb ip (codes "127.0.0.1")
      then none
      else some (record {
        sock = pos 0;
        port = port_or tracker_server_def_port (atoi port);
        ip_addr = ip;
      })

  server_behind : Bytes → Option Bytes → Option TrackerServer
  server_behind text none = none
  server_behind text (some found) =
      server_at (drop 1 found) (resolve (truncated 127 (before text found)))

  -- the server that a value `host:port` names; every other value ends with EINVAL
  unfoldable pub server_of : Bytes → Option TrackerServer
  unfolding server_at server_behind
  server_of text = server_behind text (strchr b':' text)

-- an assignment to global variables
unfoldable pub change_config : (Config → Config) → Cmd (Unit {0})
change_config f = change_proc λ p. record p { config = f p.config }

unfoldable pub set_servers : List TrackerServer → Cmd (Unit {0})
set_servers servers =
    change_config
      λ c. record c { tracker_servers = servers; tracker_server_count = pos (length servers) }

module _ (resolve : Bytes → Option Bytes) where
  -- the loop of `copy_tracker_servers` over the values, with the servers so far
  unfoldable pub copy_loop : List Bytes → List TrackerServer → Cmd ℕ
  copy_loop [] servers = pure 0
  copy_loop (text ∷ texts) servers =
      case_option (server_of resolve text) (do log_error; pure einval)
        (λ x. do let merged = merge_server servers x; set_servers merged; copy_loop texts merged)

  -- `copy_tracker_servers`
  unfoldable pub copy_tracker_servers : List Bytes → Cmd ℕ
  copy_tracker_servers texts = do set_servers []; copy_loop texts []

  -- `tracker_server`: the values, the array for them, and the servers in it
  unfoldable pub load_servers : List Item → Cmd (Unit {0})
  load_servers items = do
    let texts = get_values (codes "tracker_server") items max_trackers
    change_config (λ c. record c { tracker_server_count = pos (length texts) })
    guard (ltb 0 (length texts)) (fail enoent)
    allocated ← attempt
    guard allocated (do e ← errno_or enomem; leave e)
    result ← copy_tracker_servers texts
    guard (result == 0) (do change_config (λ c. record c { tracker_servers = [] }); leave result)

-- `base_path`, which has to be a folder
unfoldable pub load_base_path : List Item → Cmd (Unit {0})
load_base_path items = case_option (get_str_value (codes "base_path") items) (fail enoent) (λ v. do
  let path = chop_path (path_of v)
  change_proc (λ p. record p { base_path = path })
  there ← file_exists path
  guard there (fail_errno enoent)
  through ← attempt
  dir ← gets (λ w. is_dir_path w path)
  guard (through && dir) (fail enotdir))

-- `sizeof(bind_addr)` is the size of a pointer
abbrev bind_addr_of : Option Bytes → Bytes
bind_addr_of none = []
bind_addr_of (some v) = truncated 7 v

-- the numbers in front of the group name
abbrev with_numbers : List Item → Config → Config
with_numbers items c =
    let int_of = λ (name : Bytes) (n : ℕ). positive_or n (get_int_value name items (pos n)) in
    record c {
      network_timeout = int_of (codes "network_tmeout") default_network_timeout;
      server_port = int_of (codes "port") storage_server_def_port;
      heart_beat_interval = int_of (codes "heart_beat_interval") beat_def_interval;
      stat_report_interval = int_of (codes "stat_report_interval") report_def_interval;
      bind_addr = bind_addr_of (get_str_value (codes "bind_addr") items);
    }

-- `group_name`, of letters and digits
unfoldable pub load_group_name : List Item → Cmd (Unit {0})
load_group_name items = case_option (get_str_value (codes "group_name") items) (fail enoent) (λ v.
    do
      guard (not (eqb v [])) (fail einval)
      let name = truncated 16 v
      change_proc (λ p. record p { group_name = name })
      guard (validate_group_name name == 0) (fail einval))

-- `v *= 1000` in `int`
abbrev pub times_1000 : ℤ → ℤ
times_1000 (pos n) = to_int (pos (1000 * n))
times_1000 (negsuc n) = to_int (negsuc (1000 * n + 999))

-- the numbers behind the trackers
abbrev with_limits : List Item → Config → Config
with_limits items c =
    let int_of = λ (name : Bytes) (n : ℕ). positive_or n (get_int_value name items (pos n)) in
    record c {
      sync_wait_usec = times_1000 (int_of (codes "sync_wait_usec") def_sync_wait_msec);
      max_connections = int_of (codes "max_connections") def_max_connections;
    }

module _ (resolve : Bytes → Option Bytes) where
  -- the block of `storage_load_from_conf_file`, with the items of the file
  unfoldable pub load_settings : List Item → Cmd ℕ
  load_settings items =
      block (λ e. e)
        (do
          guard (not (get_bool_value (codes "disabled") items)) (fail ecanceled)
          load_base_path items
          change_config (with_numbers items)
          load_group_name items
          load_servers resolve items
          change_config (with_limits items)
          log_error
          pure 0)

  unfoldable pub take_settings : Loaded → Cmd ℕ
  take_settings (load_failed e) = do log_error; pure e
  take_settings (loaded items) = load_settings items

  -- `storage_load_from_conf_file`
  unfoldable pub storage_load_from_conf_file : Bytes → Cmd ℕ
  storage_load_from_conf_file conf_filename = do read ← load_items conf_filename; take_settings read
