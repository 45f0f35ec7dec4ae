-- ===== src/Cli/Binary.antt =====
-- core/src/cli.rs: where the `proton-drive` binary is looked for. The scan of `PATH` is a parameter.
use kio_protondrive.Base.{Text, str, Bool, Option, none, some, if◌then◌else◌}
use kio_protondrive.Entry.{and_then, or_else, unwrap_or}
use kio_protondrive.Daemon.Config.{path_join}

abbrev pub user_install_path : Text
user_install_path = str ".local/bin/proton-drive"

-- The first on `PATH`, else the one that the wizard has installed below the home folder.
unfoldable pub resolve_binary : (Text → Option Text) → (Text → Bool) → Option Text → Option Text
unfolding path_join
resolve_binary which_path is_file home = or_else (which_path (str "proton-drive")) (
    and_then home λ h.
      let candidate = path_join h user_install_path in
      if is_file candidate then some candidate else none)

unfoldable pub binary : (Text → Option Text) → (Text → Bool) → Option Text → Text
unfolding resolve_binary
binary which_path is_file home =
    unwrap_or (resolve_binary which_path is_file home) (str "proton-drive")
