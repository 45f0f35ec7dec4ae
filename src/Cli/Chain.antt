-- ===== src/Cli/Chain.antt =====
-- `ensure_remote_dir_chain` of core/src/cli.rs: one `info`, and maybe one `create-folder`, a level.
use kio_protondrive.Base.{Text, split, [], ◌∷◌, ◌++◌, List, Result, ok, err, Action, pure, ◌>>=◌}
use kio_protondrive.Outside.{Outside, DriveError, not_found, already_exists}
use kio_protondrive.Entry.{NodeEntry}
use kio_protondrive.Cli.Commands.{stat_path, create_folder}

-- `remote_dir.split('/').filter(|s| !s.is_empty())`
unfoldable pub non_empty : List Text → List Text
non_empty [] = []
non_empty ([] ∷ ps) = non_empty ps
non_empty ((c ∷ p) ∷ ps) = (c ∷ p) ∷ non_empty ps

module _ (o : Outside) where
  open o use {World}

  abbrev pub unless_exists : Result NodeEntry DriveError → Action World (Unit {0}) DriveError
  unless_exists (ok _) w = (ok tt, w)
  unless_exists (err (already_exists _)) w = (ok tt, w)
  unless_exists (err e) w = (err e, w)

  abbrev pub or_create :
      Text → Text → Result NodeEntry DriveError → Action World (Unit {0}) DriveError
  or_create parent segment (ok _) w = (ok tt, w)
  or_create parent segment (err (not_found _)) w =
      let (r, w') = create_folder o parent segment w in unless_exists r w'
  or_create parent segment (err e) w = (err e, w)

  -- One level: `parent` is there, and `segment` shall be in it.
  unfoldable pub ensure_level : Text → Text → Action World (Unit {0}) DriveError
  ensure_level parent segment w =
      let (r, w') = stat_path o (parent ++ b'/' ∷ segment) w in or_create parent segment r w'

  unfoldable pub ensure_levels : Text → List Text → Action World (Unit {0}) DriveError
  unfolding ensure_level
  ensure_levels parent [] = pure tt
  ensure_levels parent (segment ∷ rest) =
      ensure_level parent segment >>= λ _. ensure_levels (parent ++ b'/' ∷ segment) rest

  -- The first segment is a fixed section, which is never asked for.
  unfoldable pub below_section : List Text → Action World (Unit {0}) DriveError
  unfolding ensure_levels
  below_section [] = pure tt
  below_section (first ∷ rest) = ensure_levels (b'/' ∷ first) rest

  unfoldable pub ensure_remote_dir_chain : Text → Action World (Unit {0}) DriveError
  unfolding below_section non_empty
  ensure_remote_dir_chain remote_dir = below_section (non_empty (split b'/' remote_dir))
