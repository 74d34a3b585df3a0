-- ===== src/Tests/Folders.antt =====
-- Runs about the folders of the data.
use demostroage.Prelude.{◌≡◌, refl, false, pos, negsuc, [], ◌∷◌}
use demostroage.Libc.{print_int, print_digits}
use demostroage.Runtime.{World, set_os}
use demostroage.Runtime.Runs.{Runs}
use demostroage.Posix.{codes}
use demostroage.DataDirs.{init_lines}
use demostroage.Tests.{daemon}

-- a base path with nothing in it but the folder that `storage_sync_init` makes
abbrev bare : World
bare =
    set_os
      (record daemon.os {
        files = (codes "/etc/storage.conf", codes "disabled=false") ∷ [];
        dirs = codes "/d/data" ∷ codes "/d" ∷ codes "/etc" ∷ [];
        times = 1700000000 ∷ [];
      })
      daemon

test_lines :
    init_lines (pos 17) false (codes "10.0.0.1") (negsuc 0)
    ≡ codes
        "storage_join_time=17\nsync_old_done=0\nsync_src_server=10.0.0.1\nsync_until_timestamp=-1\n"
unfolding print_int print_digits
test_lines = refl
