-- ===== src/Runtime/Frames.antt =====
-- What a predicate may be said not to depend on. A command that changes only such things keeps it.
use demostroage.Prelude.{ℕ, suc, ◌+◌, ◌≤◌, ◌≡◌, List, [], ◌∷◌, length}
use demostroage.Runtime.{Arrival, packet, World, Os, Conn, Proc, set_os, set_conn, set_proc}

-- how much a connection still has to deliver: its bytes and its events
abbrev pub size_of : Arrival → ℕ
size_of (packet s) = length s
size_of _ = 0

abbrev pub weight : List Arrival → ℕ
weight [] = 0
weight (e ∷ es) = suc (size_of e + weight es)

-- `P` does not depend on errno, on the coming outcomes, on the clock and on `rand`
pub record Quiet (P : World → Type 0) : Type 0 where
  pub free : (w : World) (o : Os) → o.files ≡ w.files → o.dirs ≡ w.dirs → P w → P (set_os o w)

-- nor on the files
pub record Writes (P : World → Type 0) : Type 0 where
  pub free : (w : World) (o : Os) → P w → P (set_os o w)

-- `P` survives when data is received or sent
pub record Conns (P : World → Type 0) : Type 0 where
  pub free : (w : World) (c : Conn) → weight c.incoming ≤ weight w.incoming → P w → P (set_conn c w)

-- `P` depends on no global variable but the statistics and the number of threads
pub record Procs (P : World → Type 0) : Type 0 where
  pub free :
      (w : World) (p : Proc)
      → p.storage_stat ≡ w.storage_stat
      → p.storage_thread_count ≡ w.storage_thread_count
      → P w
      → P (set_proc p w)

-- nor on the statistics
pub record Stats (P : World → Type 0) : Type 0 where
  pub free :
      (w : World) (p : Proc)
      → p.storage_thread_count ≡ w.storage_thread_count
      → P w
      → P (set_proc p w)
