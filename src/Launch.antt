-- ===== src/Launch.antt =====
-- main.c up to the threads, and the folder of the log of logger.c.
use demostroage.Prelude.{ℕ, false, ◌++◌, ◌==◌, if◌then◌else◌, Bytes, Option}
use demostroage.Runtime.{Cmd, pure, gets, ◌>>=◌, ◌>>◌}
use demostroage.Posix.{codes, enoent, attempt, errno_or, log_error, file_exists, mkdir}
use demostroage.Binlog.{path_of, change_proc, init_pthread_lock}
use demostroage.Binlog.Startup.{storage_sync_init}
use demostroage.StatFile.Opening.{storage_open_storage_stat}
use demostroage.Conf.{storage_load_from_conf_file}
use demostroage.Reporter.{tracker_report_init}
use demostroage.DataDirs.{storage_check_and_make_data_dirs}

abbrev pub log_dir : Bytes → Bytes
log_dir base = path_of (base ++ codes "/log")

-- `check_and_mk_log_dir`
unfoldable pub check_and_mk_log_dir : Cmd ℕ
check_and_mk_log_dir = do
  base ← gets (λ w. w.base_path)
  there ← file_exists (log_dir base)
  if there
      then pure 0
      else (do made ← mkdir (log_dir base); if made then pure 0 else errno_or enoent)

-- `EPERM`
abbrev pub eperm : ℕ
eperm = 1

-- `setRandSeed`: the numbers that `rand` gives are arbitrary anyway
unfoldable pub set_rand_seed : Cmd ℕ
set_rand_seed = do through ← attempt; if through then pure 0 else (do log_error; errno_or eperm)

-- `g_continue_flag = false; return result`
unfoldable pub give_up : ℕ → Cmd ℕ
give_up result = do change_proc (λ p. record p { continue_flag = false }); pure result

-- the steps behind the socket, in their order; each one ends `main` unless it gives 0
unfoldable pub init_all : Bytes → Cmd ℕ
init_all start = do
  synced ← storage_sync_init
  if synced == 0
      then (do
        reported ← tracker_report_init
        if reported == 0
            then (do
              made ← storage_check_and_make_data_dirs start
              if made == 0
                  then (do
                    locked ← init_pthread_lock
                    if locked == 0
                        then (do
                          seeded ← set_rand_seed
                          if seeded == 0
                              then (do
                                opened ← storage_open_storage_stat
                                if opened == 0 then pure 0 else give_up opened)
                              else give_up seeded)
                        else give_up locked)
                  else give_up made)
            else give_up reported)
      else give_up synced

-- `main` up to `tracker_report_thread_start`; `socketServer` goes through or fails
unfoldable pub launch : (Bytes → Option Bytes) → Bytes → Bytes → Cmd ℕ
launch resolve conf_filename start = do
  loaded_conf ← storage_load_from_conf_file resolve conf_filename
  if loaded_conf == 0
      then (do
        logged ← check_and_mk_log_dir
        if logged == 0
            then (do listening ← attempt; if listening then init_all start else pure 5)
            else pure logged)
      else pure loaded_conf
