-- ===== src/Cli/Moves.antt =====
-- `rename_or_move` of core/src/cli.rs and the split of a path that it rests on.
use kio_protondrive.Base.{
  Text, same, rsplit_once, trim_end_matches, [], ◌∷◌, ◌++◌, none, some, Action, pure, ◌>>◌,
  if◌then◌else◌,
}
use kio_protondrive.Outside.{Outside, DriveError}
use kio_protondrive.Cli.Commands.{rename_path, move_path}

abbrev pub root_if_empty : Text → Text
root_if_empty [] = b'/' ∷ []
root_if_empty (c ∷ s) = c ∷ s

unfoldable pub split_parent_and_name : Text → Text × Text
split_parent_and_name path = elim (rsplit_once b'/' path) [
  | some (parent, name) ↦ (root_if_empty parent, name)
  | none ↦ ([], path)
]

-- `format!("{}/{}", parent.trim_end_matches('/'), name)`
unfoldable pub join : Text → Text → Text
join parent name = trim_end_matches b'/' parent ++ b'/' ∷ name

module _ (o : Outside) where
  open o use {World}

  unfoldable pub rename_or_move : Text → Text → Action World (Unit {0}) DriveError
  unfolding split_parent_and_name join
  rename_or_move old_path new_path =
      let (old_parent, old_name) = split_parent_and_name old_path in
      let (new_parent, new_name) = split_parent_and_name new_path in
      if same old_parent new_parent then (do rename_path o old_path new_name; pure tt) else do
        move_path o old_path new_parent
        if same old_name new_name
            then pure tt
            else (do rename_path o (join new_parent old_name) new_name; pure tt)
