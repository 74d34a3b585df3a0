-- ===== src/Binlog/Runs.antt =====
-- An assignment to the global variables, as a step of a run.
use demostroage.Runtime.{Proc, World, ok, set_proc}
use demostroage.Runtime.Runs.{Runs, Runs-modify}
use demostroage.Binlog.{change_proc}

pub Runs-change_proc :
    (f : Proc → Proc) (w : World) → Runs (change_proc f) w (ok tt (set_proc (f w.proc) w))
unfolding change_proc
Runs-change_proc f w = Runs-modify _ w
