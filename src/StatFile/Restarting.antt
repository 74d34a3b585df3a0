-- ===== src/StatFile/Restarting.antt =====
-- Opening the statistics file on a system whose calls go through.
use mathlib.Core.Path.{subst}
use demostroage.Prelude.{ℕ, [], ◌≡◌, refl, sym, ap, Bool, true, false, some, Bytes, length, ltb}
use demostroage.Libc.Sort.{qsort, insert_by}
use demostroage.Libc.{strcmp}
use demostroage.Libc.Order.{at_most}
use demostroage.Runtime.{StorageStat, World, Run, ok, set_os, set_proc}
use demostroage.Binlog.Runs.{Runs-change_proc}
use demostroage.Runtime.Runs.{
  Runs, Runs-pure, Runs-gets, Runs-bind, Runs-block, Runs-if_true, Runs-if_false,
}
use demostroage.Posix.{lookup, insert, is_some}
use demostroage.Posix.Calm.{Calm, Runs-attempt, Runs-guard, Runs-store, Runs-file_exists}
use demostroage.Posix.Files.{lookup-insert}
use demostroage.Ini.{by_item_name, loaded, load_items}
use demostroage.Ini.Loading.{load_items-items_of_text}
use demostroage.StatFile.{
  stat_path, stat_items, stat_lines, on_fd, storage_write_to_fd, storage_write_to_stat_file,
}
use demostroage.StatFile.Opening.{
  set_stat, take_items, load_stat, open_create, set_fd, open_stat, storage_open_storage_stat,
  storage_close_storage_stat,
}
use demostroage.StatFile.RoundTrip.{
  AreWords, sorted_fields, items_of_text-stat_lines, stat_of_items-sorted_fields,
}

abbrev stored : Bytes → Bytes → World → World
stored p s w = set_os (record w.os { files = insert p s w.files }) w

abbrev with_stat : StorageStat → World → World
with_stat s w = set_proc (record w.proc { storage_stat = s }) w

abbrev with_fd : Bool → World → World
with_fd b w = set_proc (record w.proc { storage_stat_fd = b }) w

Runs-on_fd : (w : World) → Calm w → w.storage_stat_fd ≡ true → Runs on_fd w (ok true w)
unfolding on_fd
Runs-on_fd w calm fd = Runs-bind _ _ w (Runs-gets _ w) (Runs-if_true _ _ w fd (Runs-attempt w calm))

-- the file is emptied and written
Runs-storage_write_to_fd :
    (path buff : Bytes) (w : World)
    → Calm w
    → w.storage_stat_fd ≡ true
    → Runs (storage_write_to_fd path buff) w (ok 0 (stored path buff (stored path [] w)))
unfolding storage_write_to_fd
Runs-storage_write_to_fd path buff w calm fd =
    let v = stored path [] w in
    let u = stored path buff v in
    Runs-block _ _ w (
      Runs-bind _ _ w (Runs-on_fd w calm fd) (
        Runs-bind _ _ w (Runs-guard _ w refl) (
          Runs-bind _ _ w (Runs-store path [] w) (
            Runs-bind _ _ v (Runs-on_fd v calm fd) (
              Runs-bind _ _ v (Runs-guard _ v refl) (
                Runs-bind _ _ v (Runs-on_fd v calm fd) (
                  Runs-bind _ _ v (Runs-guard _ v refl) (
                    Runs-bind _ _ v (Runs-store path buff v) (
                      Runs-bind _ _ u (Runs-on_fd u calm fd)
                        (Runs-bind _ _ u (Runs-guard _ u refl) (Runs-pure 0 u)))))))))))

abbrev stat_text : World → Bytes
stat_text w = stat_lines (stat_items w.storage_stat)

Runs-storage_write_to_stat_file :
    (w : World)
    → Calm w
    → w.storage_stat_fd ≡ true
    → Runs storage_write_to_stat_file w
        (ok 0 (stored (stat_path w.base_path) (stat_text w) (stored (stat_path w.base_path) [] w)))
unfolding storage_write_to_stat_file
Runs-storage_write_to_stat_file w calm fd =
    Runs-bind _ _ w (Runs-gets _ w)
      (Runs-bind _ _ w (Runs-gets _ w) (Runs-storage_write_to_fd _ _ w calm fd))

Runs-set_stat : (s : StorageStat) (w : World) → Runs (set_stat s) w (ok 0 (with_stat s w))
unfolding set_stat
Runs-set_stat s w = Runs-bind _ _ w (Runs-change_proc _ w) (Runs-pure 0 _)

twelve : (s : StorageStat) → ltb (length (sorted_fields s)) 12 ≡ false
unfolding qsort insert_by strcmp
twelve s = refl

-- the items of the file are taken over
Runs-load_stat :
    (path : Bytes) (s : StorageStat) (w : World)
    → AreWords s
    → Calm w
    → lookup path w.files ≡ some (stat_lines (stat_items s))
    → Runs (load_stat path) w (ok 0 (with_stat s w))
unfolding load_stat take_items
Runs-load_stat path s w words calm found =
    let items = sorted_fields s in
    Runs-bind _ _ w
      (subst (λ l. Runs (load_items path) w (ok (loaded (qsort (at_most by_item_name) l)) w))
        (items_of_text-stat_lines s words) (load_items-items_of_text path w calm found))
      (Runs-if_false _ _ w (twelve s) (
        subst (λ t. Runs (set_stat t) w (ok 0 (with_stat s w)))
          (sym (stat_of_items-sorted_fields s words)) (Runs-set_stat s w)))

Runs-open_create :
    (path : Bytes) (w : World) {s : Bytes}
    → Calm w
    → lookup path w.files ≡ some s
    → Runs (open_create path) w (ok true w)
unfolding open_create
Runs-open_create path w calm found = Runs-bind _ _ w (Runs-attempt w calm) (
    Runs-bind _ _ w (Runs-gets _ w) (
      Runs-bind _ _ w (Runs-gets _ w) (
        Runs-bind _ _ w (Runs-gets _ w)
          (Runs-if_true _ _ w (ap is_some found) (Runs-pure true w)))))

abbrev opened_with : StorageStat → World → World
opened_with s w = with_fd true (with_stat s w)

Runs-open_stat :
    (path : Bytes) (w : World) {s : Bytes} {r : Run ℕ}
    → Calm w
    → lookup path w.files ≡ some s
    → Runs storage_write_to_stat_file (with_fd true w) r
    → Runs (open_stat path) w r
unfolding open_stat set_fd
Runs-open_stat path w calm found rest =
    Runs-bind _ _ w (Runs-open_create path w calm found)
      (Runs-bind _ _ w (Runs-change_proc _ w) rest)

-- the counters of the file are taken over, and the same text is written back
storage_open_storage_stat-restores :
    (s : StorageStat) (w : World)
    → AreWords s
    → Calm w
    → lookup (stat_path w.base_path) w.files ≡ some (stat_lines (stat_items s))
    → (v : World) × Runs storage_open_storage_stat w (ok 0 v)
      × (v.storage_stat ≡ s)
      × (v.storage_stat_fd ≡ true)
      × (lookup (stat_path w.base_path) v.files ≡ some (stat_lines (stat_items s)))
unfolding storage_open_storage_stat
storage_open_storage_stat-restores s w words calm found =
    let path = stat_path w.base_path in
    let u = opened_with s w in
    (
      stored path (stat_text u) (stored path [] u),
      Runs-bind _ _ w (Runs-gets _ w) (
          Runs-bind _ _ w (Runs-file_exists path w calm found) (
            Runs-bind _ _ w (Runs-load_stat path s w words calm found) (
              Runs-open_stat path (with_stat s w) calm found
                (Runs-storage_write_to_stat_file u calm refl)))),
      refl,
      refl,
      lookup-insert path _ _,
    )

-- the world that `storage_close_storage_stat` leaves
abbrev closed_of : World → World
closed_of w =
    with_fd false
      (stored (stat_path w.base_path) (stat_text w) (stored (stat_path w.base_path) [] w))

Runs-storage_close_storage_stat :
    (w : World)
    → Calm w
    → w.storage_stat_fd ≡ true
    → Runs storage_close_storage_stat w (ok 0 (closed_of w))
unfolding storage_close_storage_stat set_fd
Runs-storage_close_storage_stat w calm fd =
    let path = stat_path w.base_path in
    let v = stored path (stat_text w) (stored path [] w) in
    Runs-bind _ _ w (Runs-gets _ w) (
      Runs-if_true _ _ w fd (
        Runs-bind _ _ w (Runs-storage_write_to_stat_file w calm fd) (
          Runs-bind _ _ v (Runs-attempt v calm) (
            Runs-bind _ _ v (Runs-pure 0 v)
              (Runs-bind _ _ v (Runs-change_proc _ v) (Runs-pure 0 _))))))

-- Where no call fails, the statistics outlive the daemon: `storage_close_storage_stat` closes the
-- file, and a daemon that starts with any other statistics in memory has those of the first after
-- `storage_open_storage_stat`, with the file open. Both return 0. A counter is any bit pattern of an
-- `int`.
pub storage_close_storage_stat-restores :
    (w : World) (other : StorageStat)
    → AreWords w.storage_stat
    → Calm w
    → w.storage_stat_fd ≡ true
    → (v : World) × (u : World) × Runs storage_close_storage_stat w (ok 0 v)
      × (v.storage_stat_fd ≡ false)
      × Runs storage_open_storage_stat (with_stat other v) (ok 0 u)
      × (u.storage_stat ≡ w.storage_stat)
      × (u.storage_stat_fd ≡ true)
storage_close_storage_stat-restores w other words calm fd =
    let v = closed_of w in
    let (u, runs, same, is_open, _) =
      storage_open_storage_stat-restores w.storage_stat (with_stat other v) words calm
        (lookup-insert (stat_path w.base_path) (stat_text w) _) in
    (v, u, Runs-storage_close_storage_stat w calm fd, refl, runs, same, is_open)
