-- ===== src/Conf/Copying.antt =====
-- `copy_tracker_servers` on values that all name a tracker.
use mathlib.Core.Path.{subst}
use mathlib.Core.List.{Mem, reverse, reverse-cons, reverse_perm, reverse-reverse}
use mathlib.Core.List.Perm
use demostroage.Prelude.{
  ◌≡◌, sym, ap, ◌∙◌, Option, some, List, [], ◌∷◌, ◌++◌, append_assoc, append-nil, Bytes, All,
  length, pos,
}
use demostroage.Runtime.{TrackerServer, Config, World, ok, set_proc}
use demostroage.Runtime.Runs.{Runs, Runs-pure, Runs-modify, Runs-bind, Runs-some}
use demostroage.Binlog.{change_proc}
use demostroage.Ini.Named.{All-reverse}
use demostroage.Conf.{
  merge_server, server_of, change_config, set_servers, copy_loop, copy_tracker_servers,
}
use demostroage.Conf.Servers.{IsMerged, Holds, merge_server-IsMerged}

-- the array after all servers
unfoldable pub merge_all : List TrackerServer → List TrackerServer → List TrackerServer
merge_all servers [] = servers
merge_all servers (x ∷ xs) = merge_all (merge_server servers x) xs

merge_all-IsMerged :
    (xs seen servers : List TrackerServer)
    → IsMerged seen servers
    → IsMerged (reverse xs ++ seen) (merge_all servers xs)
unfolding merge_all
merge_all-IsMerged [] seen servers m = m
merge_all-IsMerged (x ∷ xs) seen servers m =
    subst (λ l. IsMerged l (merge_all (merge_server servers x) xs))
      (sym (append_assoc (reverse xs) (x ∷ []) seen)
        ∙ ap (λ l. l ++ seen) (sym (reverse-cons x xs)))
      (merge_all-IsMerged xs (x ∷ seen) (merge_server servers x)
        (merge_server-IsMerged seen servers x m))

nothing-IsMerged : IsMerged [] []
nothing-IsMerged = record { ascending = tt; only = λ y h. h; all = tt }

pub merge_all-all : (xs : List TrackerServer) → IsMerged xs (merge_all [] xs)
merge_all-all xs =
    let m = merge_all-IsMerged xs [] [] nothing-IsMerged in
    let e = append-nil (reverse xs) in
    record {
      ascending = m.ascending;
      only = λ y h. (Perm.mem_iff (reverse_perm xs)).0 (subst (Mem y) e (m.only y h));
      all = subst (All (Holds (merge_all [] xs))) (reverse-reverse xs) (
          All-reverse (Holds (merge_all [] xs)) (reverse xs)
            (subst (All (Holds (merge_all [] xs))) e m.all));
    }

abbrev pub with_config : (Config → Config) → World → World
with_config f w = set_proc (record w.proc { config = f w.config }) w

pub Runs-change_config :
    (f : Config → Config) (w : World) → Runs (change_config f) w (ok tt (with_config f w))
unfolding change_config change_proc
Runs-change_config f w = Runs-modify _ w

abbrev pub with_servers : List TrackerServer → World → World
with_servers servers =
    with_config
      λ c. record c { tracker_servers = servers; tracker_server_count = pos (length servers) }

pub Runs-set_servers :
    (servers : List TrackerServer) (w : World)
    → Runs (set_servers servers) w (ok tt (with_servers servers w))
unfolding set_servers
Runs-set_servers servers w = Runs-change_config _ w

module _ (resolve : Bytes → Option Bytes) where
  -- every value names its server
  abbrev pub Named : List Bytes → List TrackerServer → Type 0
  Named [] [] = Unit
  Named (t ∷ ts) (x ∷ xs) = (server_of resolve t ≡ some x) × Named ts xs
  Named _ _ = ⊥

  Runs-copy_loop :
      (texts : List Bytes) (xs servers : List TrackerServer) (w : World)
      → Named texts xs
      → Runs
          (copy_loop resolve texts servers)
          (with_servers servers w)
          (ok 0 (with_servers (merge_all servers xs) w))
  unfolding copy_loop merge_all
  Runs-copy_loop [] [] servers w h = Runs-pure 0 _
  Runs-copy_loop [] (x ∷ xs) servers w h = absurd h
  Runs-copy_loop (t ∷ ts) [] servers w h = absurd h
  Runs-copy_loop (t ∷ ts) (x ∷ xs) servers w h = Runs-some _ _ _ h.0 (
      Runs-bind _ _ _ (Runs-set_servers (merge_server servers x) _)
        (Runs-copy_loop ts xs (merge_server servers x) w h.1))

  pub Runs-copy_tracker_servers :
      (texts : List Bytes) (xs : List TrackerServer) (w : World)
      → Named texts xs
      → Runs (copy_tracker_servers resolve texts) w (ok 0 (with_servers (merge_all [] xs) w))
  unfolding copy_tracker_servers
  Runs-copy_tracker_servers texts xs w h =
      Runs-bind _ _ w (Runs-set_servers [] w) (Runs-copy_loop texts xs [] w h)
