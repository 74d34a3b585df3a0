-- ===== src/Conf/Loading.antt =====
-- `storage_load_from_conf_file` with a complete configuration, on a system whose calls go through.

use demostroage.Prelude.{
  ℕ, ◌≡◌, refl, ap, true, false, not, Option, some, List, [], ◌∷◌, arith, All, Bytes, length, ℤ,
  pos, is_pos, eqb, ltb, ◌==◌, Bool-cases, inl, inr,
}
use demostroage.Libc.{truncated}
use demostroage.Libc.Sort.{qsort}
use demostroage.Libc.Order.{at_most}
use demostroage.Shared.{chop_path}
use demostroage.Runtime.{TrackerServer, World, ok, set_proc}
use demostroage.Binlog.Runs.{Runs-change_proc}
use demostroage.Runtime.Runs.{Runs, Runs-pure, Runs-gets, Runs-bind, Runs-block, Runs-some}
use demostroage.Posix.{codes, einval, lookup, is_dir_path}
use demostroage.Posix.Calm.{Calm, Runs-attempt, Runs-guard, Runs-log_error, Runs-file_exists_dir}
use demostroage.Binlog.{path_of}
use demostroage.Ini.{Item, by_item_name, get_str_value, get_bool_value, get_values}
use demostroage.Ini.Loading.{items_of_text, load_items-items_of_text}
use demostroage.Tracker.{is_name_byte, name_loop, validate_group_name}
use demostroage.Conf.{
  max_trackers, positive_or, load_base_path, load_group_name, load_servers, with_numbers,
  with_limits, load_settings, take_settings, storage_load_from_conf_file,
}
use demostroage.Conf.Servers.{IsMerged}
use demostroage.Conf.Copying.{
  Named, merge_all, merge_all-all, with_config, with_servers, Runs-change_config,
  Runs-copy_tracker_servers,
}

-- the values of `tracker_server`
abbrev pub trackers_of : List Item → List Bytes
trackers_of items = get_values (codes "tracker_server") items max_trackers

-- items that make a configuration: the folder is there, the group's name is valid, and every
-- tracker can be resolved
pub record IsComplete (resolve : Bytes → Option Bytes) (items : List Item) (base group : Bytes)
    (xs : List TrackerServer) (w : World) : Type 0 where
  pub enabled : get_bool_value (codes "disabled") items ≡ false
  pub based : get_str_value (codes "base_path") items ≡ some base
  pub folder : is_dir_path w (chop_path (path_of base)) ≡ true
  pub grouped : get_str_value (codes "group_name") items ≡ some group
  pub not_empty : eqb group [] ≡ false
  pub valid : validate_group_name (truncated 16 group) ≡ 0
  pub tracked : ltb 0 (length (trackers_of items)) ≡ true
  pub resolved : Named resolve (trackers_of items) xs

abbrev pub IsPositive : ℤ → Type 0
IsPositive z = is_pos z ≡ true

-- what the daemon can rely on once the file is loaded
pub record IsConfigured (base group : Bytes) (xs : List TrackerServer) (v : World) : Type 0 where
  pub path : v.base_path ≡ chop_path (path_of base)
  pub group_part : v.group_name ≡ truncated 16 group
  pub group_bytes : All (λ c. is_name_byte c ≡ true) v.group_name
  pub timeout : IsPositive v.config.network_timeout
  pub port : IsPositive v.config.server_port
  pub beat : IsPositive v.config.heart_beat_interval
  pub report : IsPositive v.config.stat_report_interval
  pub connections : IsPositive v.config.max_connections
  pub servers : IsMerged xs v.config.tracker_servers
  pub count : v.config.tracker_server_count ≡ pos (length v.config.tracker_servers)

name_loop-All : (s : Bytes) → name_loop s ≡ 0 → All (λ c. is_name_byte c ≡ true) s
unfolding name_loop
name_loop-All [] h = tt
name_loop-All (c ∷ s) h = elim (Bool-cases (is_name_byte c)) [
  | inl good ↦ (good, name_loop-All s (rw good at h))
  | inr bad ↦ let e : einval ≡ 0 = rw bad at h in absurd (omega arith)
]

validate_group_name-All :
    (s : Bytes) → validate_group_name s ≡ 0 → All (λ c. is_name_byte c ≡ true) s
unfolding validate_group_name
validate_group_name-All [] h = tt
validate_group_name-All (c ∷ s) h = name_loop-All (c ∷ s) h

positive_or-IsPositive : (n : ℕ) (z : ℤ) → IsPositive (pos n) → IsPositive (positive_or n z)
positive_or-IsPositive n z h = elim (Bool-cases (is_pos z)) [
  | inl good ↦ rw good good
  | inr bad ↦ rw bad h
]

abbrev with_base : Bytes → World → World
with_base base w = set_proc (record w.proc { base_path = chop_path (path_of base) }) w

abbrev with_group : Bytes → World → World
with_group group w = set_proc (record w.proc { group_name = truncated 16 group }) w

Runs-load_base_path :
    (items : List Item) (base : Bytes) (w : World)
    → Calm w
    → get_str_value (codes "base_path") items ≡ some base
    → is_dir_path w (chop_path (path_of base)) ≡ true
    → Runs (load_base_path items) w (ok tt (with_base base w))
unfolding load_base_path
Runs-load_base_path items base w calm found dir =
    let v = with_base base w in
    Runs-some _ _ w found (
      Runs-bind _ _ w (Runs-change_proc _ w) (
        Runs-bind _ _ v (Runs-file_exists_dir _ v calm dir) (
          Runs-bind _ _ v (Runs-guard _ v refl) (
            Runs-bind _ _ v (Runs-attempt v calm)
              (Runs-bind _ _ v (Runs-gets _ v) (Runs-guard _ v dir))))))

Runs-load_group_name :
    (items : List Item) (group : Bytes) (w : World)
    → get_str_value (codes "group_name") items ≡ some group
    → eqb group [] ≡ false
    → validate_group_name (truncated 16 group) ≡ 0
    → Runs (load_group_name items) w (ok tt (with_group group w))
unfolding load_group_name
Runs-load_group_name items group w found named valid = Runs-some _ _ w found (
    Runs-bind _ _ w (Runs-guard _ w (ap not named)) (
      Runs-bind _ _ w (Runs-change_proc _ w)
        (Runs-guard _ (with_group group w) (ap (λ n. n == 0) valid))))

-- the number of values stands in for the number of servers while they are copied
Runs-load_servers :
    (resolve : Bytes → Option Bytes) (items : List Item) (xs : List TrackerServer) (w : World)
    → Calm w
    → ltb 0 (length (trackers_of items)) ≡ true
    → Named resolve (trackers_of items) xs
    → Runs (load_servers resolve items) w (ok tt (with_servers (merge_all [] xs) w))
unfolding load_servers
Runs-load_servers resolve items xs w calm some_tracker named =
    let v =
      with_config (λ c. record c { tracker_server_count = pos (length (trackers_of items)) }) w in
    Runs-bind _ _ w (Runs-change_config _ w) (
      Runs-bind _ _ v (Runs-guard _ v some_tracker) (
        Runs-bind _ _ v (Runs-attempt v calm) (
          Runs-bind _ _ v (Runs-guard _ v refl) (
            Runs-bind _ _ v (Runs-copy_tracker_servers resolve (trackers_of items) xs v named)
              (Runs-guard _ _ refl)))))

-- the world behind the block
abbrev configured : List Item → Bytes → Bytes → List TrackerServer → World → World
configured items base group xs w = with_config (with_limits items) (
    with_servers (merge_all [] xs)
      (with_group group (with_config (with_numbers items) (with_base base w))))

module _ (resolve : Bytes → Option Bytes) (items : List Item) (base group : Bytes)
    (xs : List TrackerServer) (w : World) (calm : Calm w)
    (c : IsComplete resolve items base group xs w) where
  Runs-load_settings :
      Runs (load_settings resolve items) w (ok 0 (configured items base group xs w))
  unfolding load_settings
  Runs-load_settings =
      let a = with_base base w in
      let b = with_config (with_numbers items) a in
      let d = with_group group b in
      let e = with_servers (merge_all [] xs) d in
      Runs-block _ _ w (
        Runs-bind _ _ w (Runs-guard _ w (ap not c.enabled)) (
          Runs-bind _ _ w (Runs-load_base_path items base w calm c.based c.folder) (
            Runs-bind _ _ a (Runs-change_config _ a) (
              Runs-bind _ _ b (Runs-load_group_name items group b c.grouped c.not_empty c.valid) (
                Runs-bind _ _ d (Runs-load_servers resolve items xs d calm c.tracked c.resolved) (
                  Runs-bind _ _ e (Runs-change_config _ e)
                    (Runs-bind _ _ _ (Runs-log_error _ calm) (Runs-pure 0 _))))))))

  configured-IsConfigured : IsConfigured base group xs (configured items base group xs w)
  configured-IsConfigured = record {
    path = refl;
    group_part = refl;
    group_bytes = validate_group_name-All (truncated 16 group) c.valid;
    timeout = positive_or-IsPositive _ _ refl;
    port = positive_or-IsPositive _ _ refl;
    beat = positive_or-IsPositive _ _ refl;
    report = positive_or-IsPositive _ _ refl;
    connections = positive_or-IsPositive _ _ refl;
    servers = merge_all-all xs;
    count = refl;
  }

-- On a system where no call fails, `storage_load_from_conf_file` of a file with a complete
-- configuration returns 0. Then the base path and the group's name are those of the file, cut to
-- their arrays, the name of letters and digits only; the timeout, the port, both intervals and the number of connections are positive,
-- whatever the file says of them; and the trackers are those of the file, in strictly ascending
-- order and each once.
pub storage_load_from_conf_file-IsConfigured :
    (resolve : Bytes → Option Bytes) (filename content base group : Bytes) (xs : List TrackerServer)
    (w : World)
    → Calm w
    → lookup filename w.files ≡ some content
    → IsComplete resolve (qsort (at_most by_item_name) (items_of_text content)) base group xs w
    → (v : World) × Runs (storage_load_from_conf_file resolve filename) w (ok 0 v)
      × IsConfigured base group xs v
unfolding storage_load_from_conf_file take_settings
storage_load_from_conf_file-IsConfigured resolve filename content base group xs w calm found c =
    let items = qsort (at_most by_item_name) (items_of_text content) in
    (
      configured items base group xs w,
      Runs-bind _ _ w (load_items-items_of_text filename w calm found)
          (Runs-load_settings resolve items base group xs w calm c),
      configured-IsConfigured resolve items base group xs w calm c,
    )
