-- ===== src/DataDirs/Fresh.antt =====
-- The start of a daemon where nothing lies in its folder `data` yet.
use demostroage.DataDirs.Entering.{data_of, IsFresh}
use demostroage.Prelude.{List, ℕ, ◌≡◌, true, false, Bytes, pos, to_int, eqb}
use demostroage.Runtime.{World}
use demostroage.Runtime.Runs.{Runs}
use demostroage.Posix.{has, next_or}
use demostroage.DataDirs.{init_lines}

module _ (w : World) (fresh : IsFresh w) where
  module _ (e : ℕ) (ds : List Bytes) (there : has (data_of w) ds ≡ true)
      (same : (p : Bytes) → eqb (data_of w) p ≡ false → has p ds ≡ has p w.dirs) where
    lines : Bytes
    lines =
        init_lines (to_int (pos (next_or 0 w.times).0)) w.reports.sync_old_done
          w.reports.sync_src_ip_addr w.reports.sync_until_timestamp
