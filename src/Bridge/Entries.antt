-- ===== src/Bridge/Entries.antt =====
-- The entries that core/src/bridge.rs hands to the worker, and its `open_cache`.
use kio_protondrive.Base.{
  ℕ, Text, [], Bool, true, false, Option, Result, ok, err, pure, attempt, ◌>>=◌,
}
use kio_protondrive.Entry.{
  NodeEntry, ListItem, VirtualSection, section, node, size, is_folder, display_name, section_name,
  web_url, unwrap_or,
}
use kio_protondrive.Outside.{Outside, DriveError}
use kio_protondrive.Store.{Op}
use kio_protondrive.Cache.Nodes.{open_at}

pub record FfiEntry : Type 0 where
  pub name : Text
  pub is_folder : Bool
  pub media_type : Text
  pub size : ℕ
  pub creation_time : Text
  pub modification_time : Text
  pub is_shared_by_url : Bool
  pub target_url : Text

unfoldable pub node_to_ffi : NodeEntry → FfiEntry
node_to_ffi n = record {
  name = display_name n;
  is_folder = is_folder n;
  media_type = unwrap_or n.media_type [];
  size = size n;
  creation_time = n.creation_time;
  modification_time = n.modification_time;
  is_shared_by_url = n.is_shared_by_url;
  target_url = unwrap_or (web_url n) [];
}

unfoldable pub section_to_ffi : VirtualSection → FfiEntry
section_to_ffi s = record {
  name = section_name s;
  is_folder = true;
  media_type = [];
  size = 0;
  creation_time = [];
  modification_time = [];
  is_shared_by_url = false;
  target_url = [];
}

unfoldable pub item_to_ffi : ListItem → FfiEntry
unfolding node_to_ffi section_to_ffi
item_to_ffi (node n) = node_to_ffi n
item_to_ffi (section s) = section_to_ffi s

-- The folder of the index file, and the cache root: `default_db_path` and `default_root`.
pub record Places : Type 0 where
  pub db_folder : Option Text
  pub root : Text

module _ (o : Outside) (at : Places) where
  unfoldable pub open_cache : Op o (Unit {0})
  unfolding open_at
  open_cache = open_at o at.db_folder at.root

  -- `if let Ok(cache) = open_cache() { … }`
  abbrev pub if_open : Op o (Unit {0}) → Result (Unit {0}) DriveError → Op o (Unit {0})
  if_open m (ok _) = m
  if_open m (err _) = pure tt

  unfoldable pub with_cache : Op o (Unit {0}) → Op o (Unit {0})
  unfolding open_cache
  with_cache m = attempt open_cache >>= if_open m
