-- ===== src/Tests/Settings.antt =====
-- A configuration file and the statistics file of a daemon.
use demostroage.Prelude.{
  ◌≡◌, refl, false, true, some, Option, List, [], ◌∷◌, ◌++◌, arith, Bytes, pos,
}
use demostroage.Libc.{cstr, strchr, strcmp, atoi, truncated}
use demostroage.Libc.Sort.{qsort, insert_by, bsearch, bsearch_loop}
use demostroage.Libc.Order.{at_most}
use demostroage.Shared.{trim, trim_left, trim_right, trim_left_loop, trim_right_loop, chop_path}
use demostroage.Runtime.{TrackerServer, World, ok, set_proc}
use demostroage.Runtime.Runs.{Runs}
use demostroage.Posix.{codes, has, lookup}
use demostroage.Ini.{
  Item, by_item_name, item_name_len, get_str_value, get_bool_value, get_values, fgets, item_of_line,
  load_items, loaded, values_from, neighbours,
}
use demostroage.Ini.Loading.{text_items, items_of_text, load_items-items_of_text}
use demostroage.Ini.Lookup.{item, Looked, get_str_value-Looked}
use demostroage.Ini.RoundTrip.{IsPrintable, print_items, items_of_text-print_items}
use demostroage.Ini.Values.{Takes, get_values-Takes}
use demostroage.Tracker.{validate_group_name, name_loop}
use demostroage.Conf.{server_of, storage_load_from_conf_file}
use demostroage.Conf.Copying.{Named}
use demostroage.Conf.Loading.{IsComplete, IsConfigured, storage_load_from_conf_file-IsConfigured}
use demostroage.StatFile.Opening.{no_stat, storage_open_storage_stat, storage_close_storage_stat}
use demostroage.StatFile.Restarting.{storage_close_storage_stat-restores}
use demostroage.Tests.{daemon}

abbrev conf_text : Bytes
conf_text =
    codes
      "# a comment\ndisabled=false\n base_path = /d/\ngroup_name=group1\nport=0\ntracker_server=b:22122\ntracker_server=a:22122\ntracker_server=b:22122\n"

abbrev conf_file : Bytes
conf_file = codes "/d/storage.conf"

abbrev configurable : World
configurable = record daemon {
  os = record daemon.os {
    files = (conf_file, conf_text) ∷ [];
    dirs = codes "/d" ∷ codes "/d/data" ∷ [];
  };
}

abbrev conf_items : List Item
conf_items =
    item (codes "disabled") (codes "false")
    ∷ item (codes "base_path") (codes "/d/")
    ∷ item (codes "group_name") (codes "group1")
    ∷ item (codes "port") (codes "0")
    ∷ item (codes "tracker_server") (codes "b:22122")
    ∷ item (codes "tracker_server") (codes "a:22122")
    ∷ item (codes "tracker_server") (codes "b:22122")
    ∷ []

conf_text_items : items_of_text conf_text ≡ conf_items
unfolding text_items fgets item_of_line cstr strchr trim trim_left trim_right trim_left_loop
    trim_right_loop
conf_text_items = refl

load_items-items_of_text_example :
    Runs
      (load_items conf_file)
      configurable
      (ok (loaded (qsort (at_most by_item_name) (items_of_text conf_text))) configurable)
unfolding lookup
load_items-items_of_text_example = load_items-items_of_text conf_file configurable refl refl

get_str_value-Looked_example :
    Looked conf_items
      (truncated item_name_len (codes "port"))
      (get_str_value (codes "port") (qsort (at_most by_item_name) conf_items))
get_str_value-Looked_example = get_str_value-Looked (codes "port") conf_items

get_values-Takes_example :
    Takes 16 conf_items
      (codes "tracker_server")
      (get_values (codes "tracker_server") (qsort (at_most by_item_name) conf_items) 16)
get_values-Takes_example = get_values-Takes (codes "tracker_server") conf_items 16 (omega arith)

port_item-IsPrintable : IsPrintable (item (codes "port") (codes "23 000"))
port_item-IsPrintable = record {
  name_text = omega arith;
  name_part = omega arith;
  named = refl;
  name_starts = refl;
  name_ends = refl;
  name_fits = omega arith;
  value_text = omega arith;
  value_starts = refl;
  value_ends = refl;
  value_fits = omega arith;
}

items_of_text-print_items_example :
    items_of_text (print_items (item (codes "port") (codes "23 000") ∷ []))
    ≡ item (codes "port") (codes "23 000") ∷ []
items_of_text-print_items_example =
    items_of_text-print_items (item (codes "port") (codes "23 000") ∷ [])
      (port_item-IsPrintable, tt)

storage_close_storage_stat-restores_example :
    (v : World) × (u : World) × Runs storage_close_storage_stat daemon (ok 0 v)
    × (v.storage_stat_fd ≡ false)
    × Runs storage_open_storage_stat
        (set_proc (record v.proc { storage_stat = record no_stat { total_upload_count = 5 } }) v)
        (ok 0 u)
    × (u.storage_stat ≡ no_stat)
    × (u.storage_stat_fd ≡ true)
storage_close_storage_stat-restores_example =
    storage_close_storage_stat-restores daemon (record no_stat { total_upload_count = 5 })
      (omega arith) refl refl

-- every name is an address
abbrev resolved : Bytes → Option Bytes
resolved name = some (codes "10.0.0." ++ name)

abbrev tracker : Bytes → TrackerServer
tracker ip = record { sock = pos 0; port = 22122; ip_addr = ip }

abbrev trackers : List TrackerServer
trackers = tracker (codes "10.0.0.a") ∷ tracker (codes "10.0.0.b") ∷ tracker (codes "10.0.0.b") ∷ []

abbrev conf_sorted : List Item
conf_sorted =
    item (codes "base_path") (codes "/d/")
    ∷ item (codes "disabled") (codes "false")
    ∷ item (codes "group_name") (codes "group1")
    ∷ item (codes "port") (codes "0")
    ∷ item (codes "tracker_server") (codes "b:22122")
    ∷ item (codes "tracker_server") (codes "a:22122")
    ∷ item (codes "tracker_server") (codes "b:22122")
    ∷ []

conf_items_sorted : qsort (at_most by_item_name) (items_of_text conf_text) ≡ conf_sorted
unfolding qsort insert_by strcmp
conf_items_sorted = rw conf_text_items refl

conf_trackers :
    get_values (codes "tracker_server") conf_sorted 16
    ≡ codes "a:22122" ∷ codes "b:22122" ∷ codes "b:22122" ∷ []
unfolding get_values values_from neighbours bsearch bsearch_loop strcmp
conf_trackers = refl

conf_Named : Named resolved (codes "a:22122" ∷ codes "b:22122" ∷ codes "b:22122" ∷ []) trackers
unfolding server_of strchr atoi
conf_Named = (refl, (refl, (refl, tt)))

sorted-IsComplete :
    IsComplete resolved conf_sorted (codes "/d/") (codes "group1") trackers configurable
unfolding bsearch bsearch_loop strcmp get_str_value get_bool_value has chop_path validate_group_name
    name_loop
sorted-IsComplete = record {
  enabled = refl;
  based = refl;
  folder = refl;
  grouped = refl;
  not_empty = refl;
  valid = refl;
  tracked = rw conf_trackers refl;
  resolved = rw conf_trackers conf_Named;
}

conf_IsComplete :
    IsComplete resolved
      (qsort (at_most by_item_name) (items_of_text conf_text))
      (codes "/d/")
      (codes "group1")
      trackers
      configurable
conf_IsComplete = rw conf_items_sorted sorted-IsComplete

storage_load_from_conf_file-IsConfigured_example :
    (v : World) × Runs (storage_load_from_conf_file resolved conf_file) configurable (ok 0 v)
    × IsConfigured (codes "/d/") (codes "group1") trackers v
unfolding lookup
storage_load_from_conf_file-IsConfigured_example =
    storage_load_from_conf_file-IsConfigured resolved conf_file conf_text (codes "/d/")
      (codes "group1") trackers configurable refl refl conf_IsComplete
