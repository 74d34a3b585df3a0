-- ===== src/Service/Loop/Counting.antt =====
-- The statistics that the loop of `storage_thread_entrance` keeps.
use demostroage.Prelude.{ℕ, suc, ◌+◌, ◌-◌, ◌^◌, ◌≤◌, ◌<◌, sym, Bool, false, ◌==◌, arith, ℤ}
use mathlib.Core.Path.{subst}
use demostroage.Runtime.{World, StorageStat, Cmd, pure, ◌>>=◌, ◌>>◌}
use demostroage.Runtime.Keeps.{
  Ends, Keeps, Leads, Leads-bind, Leads-if, Leads-Keeps, Keeps-pure, Keeps-bind,
}
use demostroage.Runtime.Frames.{weight, Quiet, Writes, Conns, Procs}
use demostroage.Posix.{log_error, time}
use demostroage.Posix.Frames.{Keeps-log_error}
use demostroage.Binlog.{change_proc}
use demostroage.Wire.{
  cmd_upload_file, cmd_delete_file, cmd_set_metadata, cmd_download_file, cmd_get_metadata,
  cmd_sync_create_file, cmd_sync_delete_file, cmd_sync_update_file, cmd_quit,
}
use demostroage.Service.Reading.{storage_download_file, storage_get_metadata}
use demostroage.Service.Deleting.{storage_delete_file, storage_sync_delete_file}
use demostroage.Service.Replicating.{storage_sync_copy_file}
use demostroage.Service.SetMeta.{storage_set_metadata}
use demostroage.Service.Uploading.{storage_upload_file}
use demostroage.Service.Frames.{
  Keeps-storage_download_file, Keeps-storage_get_metadata, Keeps-storage_upload_file,
  Keeps-storage_delete_file, Keeps-storage_sync_copy_file, Keeps-storage_sync_delete_file,
  Keeps-storage_set_metadata,
}
use demostroage.Service.Loop.{
  update_stat, served, note_source, note_sync, total_upload, success_upload, total_set_meta,
  success_set_meta, total_delete, success_delete, total_download, success_download, total_get_meta,
  success_get_meta, no_count, dispatch, thread_loop,
}
use demostroage.Service.Loop.Frames.{Keeps-check_and_write_to_stat_file}
use demostroage.Service.Loop.Ending.{Counts, rounds, thread_loop-Ends, rounds-Ends}

-- A counter of successes is at most the counter of all. Both are `int`s that are not negative, and the
-- counter of all can still be counted up `k` times.
abbrev pub Room1 : ℕ → ℕ → ℕ → Type 0
Room1 k total success = (success ≤ total) × (total + k < 2 ^ 31)

abbrev pub Room : ℕ → StorageStat → Type 0
Room k s =
    Room1 k s.total_upload_count s.success_upload_count
    × Room1 k s.total_set_meta_count s.success_set_meta_count
    × Room1 k s.total_delete_count s.success_delete_count
    × Room1 k s.total_download_count s.success_download_count
    × Room1 k s.total_get_meta_count s.success_get_meta_count

-- a predicate of the statistics
abbrev OfStat : (StorageStat → Type 0) → World → Type 0
OfStat R w = R w.storage_stat

module _ (R : StorageStat → Type 0) where
  OfStat-Quiet : Quiet (OfStat R)
  OfStat-Quiet = record { free = λ w o _ _ h. h }

  OfStat-Writes : Writes (OfStat R)
  OfStat-Writes = record { free = λ w o h. h }

  OfStat-Conns : Conns (OfStat R)
  OfStat-Conns = record { free = λ w c _ h. h }

  OfStat-Procs : Procs (OfStat R)
  OfStat-Procs = record { free = λ w p e _ h. subst R (sym e) h }

-- while a handler runs: there is room, also when the success is counted
abbrev Mid : ℕ → (StorageStat → StorageStat) → StorageStat → Type 0
Mid k f s = Room k s × Room k (f s)

module _ (k : ℕ) where
  -- a note of a success leads back
  Leads-update_stat :
      (f : StorageStat → StorageStat) → Leads (OfStat (Mid k f)) (OfStat (Room k)) (update_stat f)
  unfolding change_proc ◌>>=◌
  Leads-update_stat f = record { at = λ w h. h.1 }

  -- a time is noted
  Keeps-note_time :
      (f : ℕ → StorageStat → StorageStat)
      → ((t : ℕ) (s : StorageStat) → Room k s → Room k (f t s))
      → Keeps (OfStat (Room k)) (do now ← time; update_stat (f now))
  unfolding time change_proc ◌>>=◌
  Keeps-note_time f same = record { at = λ w h. same _ w.storage_stat h }

  Leads-note_source :
      (f : StorageStat → StorageStat) → Leads (OfStat (Mid k f)) (OfStat (Room k)) (note_source f)
  Leads-note_source f =
      Leads-bind _ _ (λ w h. h) (Leads-update_stat f)
        λ _.
          Leads-Keeps _ (Keeps-note_time (λ t s. record s { last_source_update = t }) (λ t s h. h))
            (λ w h. h)

  Leads-note_sync : Leads (OfStat (Mid k no_count)) (OfStat (Room k)) note_sync
  Leads-note_sync = record {
    at = λ w h. (Keeps-note_time (λ t s. record s { last_sync_update = t }) (λ t s h. h)).at w h.0;
  }

  Leads-count :
      (count success : StorageStat → StorageStat)
      → ((s : StorageStat) → Room (suc k) s → Mid k success (count s))
      → Leads (OfStat (Room (suc k))) (OfStat (Mid k success)) (update_stat count)
  unfolding change_proc ◌>>=◌
  Leads-count count success counts = record { at = λ w h. counts w.storage_stat h }

  Leads-served :
      (count success : StorageStat → StorageStat) (handler : Cmd ℕ) (note : Cmd (Unit {0}))
      → ((s : StorageStat) → Room (suc k) s → Mid k success (count s))
      → Keeps (OfStat (Mid k success)) handler
      → Leads (OfStat (Mid k success)) (OfStat (Room k)) note
      → Leads (OfStat (Room (suc k))) (OfStat (Room k)) (served count handler note)
  unfolding served
  Leads-served count success handler note counts kh ln =
      Leads-bind (update_stat count) _ (λ w h. h.0) (Leads-count count success counts)
        λ _.
          Leads-bind handler _ (λ w h. h.0) (Leads-Keeps _ kh (λ w h. h))
            λ result.
              Leads-if (result == 0) _ _
                (Leads-bind note _ (λ w h. h) ln
                  λ _.
                    Leads-Keeps _
                      (Keeps-check_and_write_to_stat_file (OfStat-Quiet (Room k))
                        (OfStat-Writes (Room k)) (OfStat-Procs (Room k)))
                      (λ w h. h))
                (Leads-Keeps _ (Keeps-pure false) (λ w h. h.0))

-- a handler keeps whatever does not depend on what it changes
abbrev Tame : Cmd ℕ → Type 1
Tame m = (P : World → Type 0) → Quiet P → Writes P → Conns P → Procs P → Keeps P m

-- each branch of the ladder counts at most one request and one success
Room-weaken : (k : ℕ) (s : StorageStat) → Room (suc k) s → Room k s
Room-weaken k s h = omega arith

Room-no_count : (k : ℕ) (s : StorageStat) → Room (suc k) s → Mid k no_count (no_count s)
Room-no_count k s h = (Room-weaken k s h, Room-weaken k s h)

Room-download :
    (k : ℕ) (s : StorageStat) → Room (suc k) s → Mid k success_download (total_download s)
Room-download k s h = omega arith

Room-get_meta :
    (k : ℕ) (s : StorageStat) → Room (suc k) s → Mid k success_get_meta (total_get_meta s)
Room-get_meta k s h = omega arith

Room-upload : (k : ℕ) (s : StorageStat) → Room (suc k) s → Mid k success_upload (total_upload s)
Room-upload k s h = omega arith

Room-delete : (k : ℕ) (s : StorageStat) → Room (suc k) s → Mid k success_delete (total_delete s)
Room-delete k s h = omega arith

Room-set_meta :
    (k : ℕ) (s : StorageStat) → Room (suc k) s → Mid k success_set_meta (total_set_meta s)
Room-set_meta k s h = omega arith

module _ (k : ℕ) where
  Leads-quiet : (b : Bool) → Leads (OfStat (Room (suc k))) (OfStat (Room k)) (pure b)
  Leads-quiet b = Leads-Keeps _ (Keeps-pure b) (λ w h. Room-weaken k w.storage_stat h)

  Leads-unknown : Leads (OfStat (Room (suc k))) (OfStat (Room k)) (do log_error; pure false)
  Leads-unknown =
      Leads-Keeps _
        (Keeps-bind _ _ (Keeps-log_error (OfStat-Quiet (Room (suc k)))) (λ _. Keeps-pure false))
        (λ w h. Room-weaken k w.storage_stat h)

  module _ (f : StorageStat → StorageStat) where
    -- a handler, while its request is counted
    Keeps-handler : (handler : Cmd ℕ) → Tame handler → Keeps (OfStat (Mid k f)) handler
    Keeps-handler handler keeps =
        keeps (OfStat (Mid k f)) (OfStat-Quiet (Mid k f)) (OfStat-Writes (Mid k f))
          (OfStat-Conns (Mid k f)) (OfStat-Procs (Mid k f))

    Leads-source :
        (count : StorageStat → StorageStat) (handler : Cmd ℕ)
        → ((s : StorageStat) → Room (suc k) s → Mid k f (count s))
        → Tame handler
        → Leads (OfStat (Room (suc k))) (OfStat (Room k)) (served count handler (note_source f))
    Leads-source count handler counts keeps =
        Leads-served k count f handler _ counts (Keeps-handler handler keeps)
          (Leads-note_source k f)

    Leads-read :
        (count : StorageStat → StorageStat) (handler : Cmd ℕ)
        → ((s : StorageStat) → Room (suc k) s → Mid k f (count s))
        → Tame handler
        → Leads (OfStat (Room (suc k))) (OfStat (Room k)) (served count handler (update_stat f))
    Leads-read count handler counts keeps =
        Leads-served k count f handler _ counts (Keeps-handler handler keeps)
          (Leads-update_stat k f)

  Leads-sync :
      (handler : Cmd ℕ)
      → Tame handler
      → Leads (OfStat (Room (suc k))) (OfStat (Room k)) (served no_count handler note_sync)
  Leads-sync handler keeps =
      Leads-served k no_count no_count handler _ (Room-no_count k)
        (Keeps-handler no_count handler keeps) (Leads-note_sync k)

  Leads-dispatch :
      (cmd : ℕ) (n : ℤ) → Leads (OfStat (Room (suc k))) (OfStat (Room k)) (dispatch cmd n)
  unfolding dispatch
  Leads-dispatch cmd n =
      Leads-if (cmd == cmd_download_file) _ _
        (Leads-read success_download total_download (storage_download_file n) (Room-download k)
          (λ P q f c p. Keeps-storage_download_file n q c))
        (Leads-if (cmd == cmd_get_metadata) _ _
          (Leads-read success_get_meta total_get_meta (storage_get_metadata n) (Room-get_meta k)
            (λ P q f c p. Keeps-storage_get_metadata n q c))
          (Leads-if (cmd == cmd_upload_file) _ _
            (Leads-source success_upload total_upload (storage_upload_file n) (Room-upload k)
              (λ P. Keeps-storage_upload_file n))
            (Leads-if (cmd == cmd_delete_file) _ _
              (Leads-source success_delete total_delete (storage_delete_file n) (Room-delete k)
                (λ P. Keeps-storage_delete_file n))
              (Leads-if (cmd == cmd_sync_create_file) _ _
                (Leads-sync (storage_sync_copy_file n cmd)
                  (λ P. Keeps-storage_sync_copy_file n cmd))
                (Leads-if (cmd == cmd_sync_delete_file) _ _
                  (Leads-sync (storage_sync_delete_file n) (λ P. Keeps-storage_sync_delete_file n))
                  (Leads-if (cmd == cmd_sync_update_file) _ _
                    (Leads-sync (storage_sync_copy_file n cmd)
                      (λ P. Keeps-storage_sync_copy_file n cmd))
                    (Leads-if (cmd == cmd_set_metadata) _ _
                      (Leads-source success_set_meta total_set_meta (storage_set_metadata n)
                        (Room-set_meta k) (λ P. Keeps-storage_set_metadata n))
                      (Leads-if (cmd == cmd_quit) _ _ (Leads-quiet false) Leads-unknown))))))))

Room-Counts : Counts (λ k. OfStat (Room k)) (OfStat (Room 0))
Room-Counts = record {
  quiet = λ k. OfStat-Quiet (Room k);
  conns = λ k. OfStat-Conns (Room k);
  weaken = λ k w. Room-weaken k w.storage_stat;
  final = λ k w h. omega arith;
  serves = Leads-dispatch;
}

Room-less : (j k : ℕ) (s : StorageStat) → Room (j + k) s → Room k s
Room-less j k s h = omega arith

-- Where no counter of successes is above its counter of requests, both not negative, and no counter
-- of requests could overflow an `int` within as many rounds as the fuel, that is so again behind any
-- number of rounds up to the fuel, as far as their behaviour is defined, and at the end of the loop.
-- The fuel is above what the connection has in store.
pub thread_loop-Room :
    (fuel : ℕ) (w : World)
    → weight w.incoming < fuel
    → Room fuel w.storage_stat
    → Ends (λ v. Room 0 v.storage_stat) (thread_loop fuel w)
      × ((n : ℕ) → n ≤ fuel → Ends (λ v. Room 0 v.storage_stat) (rounds n w))
thread_loop-Room fuel w few room = (
  thread_loop-Ends Room-Counts fuel w few room,
  λ n le. rounds-Ends Room-Counts n w (
      Room-less (fuel - n) n w.storage_stat
        (subst (λ k. Room k w.storage_stat) (omega arith) room)),
)
