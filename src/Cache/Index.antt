-- ===== src/Cache/Index.antt =====
-- core/src/cache.rs: where the index and the local copies are, and the list of all pins.
use kio_protondrive.Base.{Text, str, List, Option}
use kio_protondrive.Entry.{unwrap_or}
use kio_protondrive.Outside.{Outside}
use kio_protondrive.Store.{Op, Pin, query}
use kio_protondrive.Daemon.Config.{path_join}

-- Given `XDG_DATA_HOME` and `HOME`.
unfoldable pub default_db_path : Option Text → Text → Text
unfolding path_join
default_db_path xdg home =
    path_join
      (path_join (unwrap_or xdg (path_join (path_join home (str ".local")) (str "share")))
        (str "kio-protondrive"))
      (str "cache-index.sqlite3")

-- Given `XDG_CACHE_HOME` and `HOME`.
unfoldable pub default_root : Option Text → Text → Text
unfolding path_join
default_root xdg home =
    path_join (path_join (unwrap_or xdg (path_join home (str ".cache"))) (str "kio-protondrive"))
      (str "files")

unfoldable pub all_pinned : (o : Outside) → Op o (List (Text × Pin))
all_pinned o = query o (λ db. db.pins)
