-- ===== src/Cache/Paths.antt =====
-- `target_dir_for` of core/src/cache.rs, and the parts of `std::path` that it and its callers use.
use mathlib.Core.List.{reverse}
use kio_protondrive.Base.{
  Text, str, same, split, ends_with, trim_start_matches, Bool, true, not, ◌&&◌, [], ◌∷◌, ◌++◌, List,
  Option, none, some, pure, fail, ◌>>=◌, ◌>>◌, if◌then◌else◌,
}
use kio_protondrive.Outside.{Outside, DriveError, cli}
use kio_protondrive.Store.{Op, root_of, outside, io_result}

abbrev pub dot : Text
dot = 46 ∷ []

abbrev pub dots : Text
dots = 46 ∷ 46 ∷ []

-- A part between slashes that `Path::components` skips, unless it begins the path.
unfoldable pub is_idle : Text → Bool
is_idle [] = true
is_idle (c ∷ s) = same (c ∷ s) dot

unfoldable pub none_is_dots : List Text → Bool
none_is_dots [] = true
none_is_dots (p ∷ ps) = not (same p dots) && none_is_dots ps

-- Every component of a path, by its parts between slashes, is `Component::Normal`.
unfoldable pub all_normal : List Text → Bool
unfolding none_is_dots
all_normal [] = true
all_normal (p ∷ ps) = not (same p dot) && none_is_dots (p ∷ ps)

unfoldable pub drop_idle : List Text → List Text
unfolding is_idle
drop_idle [] = []
drop_idle (p ∷ ps) = if is_idle p then drop_idle ps else p ∷ ps

unfoldable pub join_parts : List Text → Text
join_parts [] = []
join_parts (p ∷ []) = p
join_parts (p ∷ q ∷ ps) = p ++ b'/' ∷ join_parts (q ∷ ps)

-- The last component and what stands before it, of parts in reverse.
abbrev pub last_and_rest : List Text → Option (Text × List Text)
last_and_rest [] = none
last_and_rest (p ∷ ps) = some (p, ps)

-- `Path::file_name` and `Path::parent`, of a path whose components, behind a slash in front or none, are
-- all normal, and whose parent is not the root.
unfoldable pub file_name_and_parent : Text → Option (Text × Text)
unfolding drop_idle join_parts
file_name_and_parent rel = elim (last_and_rest (drop_idle (reverse (split b'/' rel)))) [
  | none ↦ none
  | some (name, before) ↦ some (name, join_parts (reverse (drop_idle before)))
]

-- None where the last component is `..`.
unfoldable pub file_name : Text → Option Text
unfolding file_name_and_parent
file_name rel = elim (file_name_and_parent rel) [
  | none ↦ none
  | some (name, _) ↦ if same name dots then none else some name
]

unfoldable pub parent_of : Text → Text
unfolding file_name_and_parent
parent_of rel = elim (file_name_and_parent rel) [ none ↦ [] | some (_, parent) ↦ parent ]

-- `Path::join` with a relative path.
unfoldable pub path_join : Text → Text → Text
path_join base rel = if ends_with b'/' base then base ++ rel else base ++ b'/' ∷ rel

-- The directory under `root`, or `none` for a path that is refused.
unfoldable pub target_dir : Text → Text → Option Text
unfolding all_normal parent_of path_join
target_dir root remote_path =
    let rel = trim_start_matches b'/' remote_path in
    let parent = parent_of rel in
    if all_normal (split b'/' rel)
    then some (if same parent [] then root else path_join root parent)
    else none

unfoldable pub not_plain : Text → DriveError
not_plain remote_path =
    cli (remote_path ++ str " isn't a plain path — refusing to map it into the local cache")

module _ (o : Outside) where
  open o use {World, create_dir_all}

  -- The directory is created where it is missing.
  unfoldable pub make_target_dir : Text → Option Text → Op o Text
  make_target_dir remote_path none = fail (not_plain remote_path)
  make_target_dir remote_path (some dir) = do
    outside o (λ w. let (r, w') = create_dir_all dir w in (io_result o r, w'))
    pure dir

  unfoldable pub target_dir_for : Text → Op o Text
  unfolding target_dir make_target_dir root_of outside
  target_dir_for remote_path = do
    root ← root_of o
    make_target_dir remote_path (target_dir root remote_path)
