-- ===== src/Daemon/Watch.antt =====
-- daemon/src/watcher.rs: which file system events become changes and renames.
use kio_protondrive.Base.{Text, [], ◌∷◌, ◌++◌, List, Option, none, some}

pub data RenameMode : Type 0 where
  both from to other_mode : RenameMode

-- `notify::EventKind`, as far as the program tells it apart.
pub data EventKind : Type 0 where
  create : EventKind
  modify_name : RenameMode → EventKind
  modify_other : EventKind
  remove : EventKind
  other : EventKind

pub data WatchEvent : Type 0 where
  changed : Text → WatchEvent
  renamed : Text → Text → WatchEvent

unfoldable pub each_changed : List Text → List WatchEvent
each_changed [] = []
each_changed (p ∷ ps) = changed p ∷ each_changed ps

abbrev pub renamed_pair : List Text → List WatchEvent
renamed_pair (old ∷ new ∷ []) = renamed old new ∷ []
renamed_pair paths = each_changed paths

unfoldable pub classify : EventKind → List Text → List WatchEvent
unfolding each_changed
classify create paths = each_changed paths
classify (modify_name both) paths = renamed_pair paths
classify (modify_name to) paths = each_changed paths
classify (modify_name from) paths = []
classify (modify_name other_mode) paths = each_changed paths
classify modify_other paths = each_changed paths
classify remove paths = []
classify other paths = []

-- `events.iter().flat_map(classify)`
unfoldable pub classify_all : List (EventKind × List Text) → List WatchEvent
unfolding classify
classify_all [] = []
classify_all ((kind, paths) ∷ events) = classify kind paths ++ classify_all events

-- The callback of the debouncer: the batch that is sent for the events of a window. `none` stands for
-- the errors of the debouncer, and no batch is empty.
abbrev pub batch_of : List WatchEvent → Option (List WatchEvent)
batch_of [] = none
batch_of (e ∷ es) = some (e ∷ es)

unfoldable pub on_debounced : Option (List (EventKind × List Text)) → Option (List WatchEvent)
unfolding classify_all
on_debounced none = none
on_debounced (some events) = batch_of (classify_all events)
