-- ===== src/Ctrl/Files.antt =====
-- core/src/local_ctrl.rs: the files of a control server, the client's request, and the look-up of
-- programs. `is_program` is whether a path is a file with an executable bit.
use kio_protondrive.Base.{
  ℕ, Text, str, split, decimal, trim, Bool, true, false, [], ◌∷◌, ◌++◌, List, Option, none, some,
  if◌then◌else◌,
}
use kio_protondrive.Entry.{unwrap_or, and_then}
use kio_protondrive.Outside.{Io}
use kio_protondrive.Update.{parse_u32}
use kio_protondrive.Daemon.Config.{path_join}

abbrev pub daemon_app_name : Text
daemon_app_name = str "kio-protondrive-daemon"

-- `current_uid`, of what `id -u` prints, or `none` where it does not run.
unfoldable pub current_uid : Option Text → ℕ
current_uid printed = unwrap_or (and_then printed λ s. parse_u32 (trim s)) 1000

-- Given `XDG_RUNTIME_DIR`.
unfoldable pub runtime_dir : Option Text → ℕ → Text
runtime_dir xdg uid = unwrap_or xdg (str "/run/user/" ++ decimal uid)

unfoldable pub daemon_ctrl_path : Option Text → ℕ → Text → Text
unfolding runtime_dir path_join
daemon_ctrl_path xdg uid kind =
    path_join (runtime_dir xdg uid) (daemon_app_name ++ (str "-ctrl." ++ kind))

-- `remove` is `remove_file`; `create` opens a new file with mode 0600, and fails where one is there, and
-- writes it.
unfoldable pub write_owner_only_file :
    {World : Type 0}
    → (Text → World → World)
    → (Text → Text → World → Io (Unit {0}) × World)
    → Text
    → Text
    → World
    → Io (Unit {0}) × World
write_owner_only_file remove create path contents w = create path contents (remove path w)

unfoldable pub first_program : (Text → Bool) → Text → List Text → Option Text
unfolding path_join
first_program is_program bin [] = none
first_program is_program bin (dir ∷ dirs) =
    if is_program (path_join dir bin)
    then some (path_join dir bin)
    else first_program is_program bin dirs

-- Given `PATH`.
unfoldable pub which_path : (Text → Bool) → Option Text → Text → Option Text
unfolding first_program
which_path is_program path bin =
    and_then path λ dirs. first_program is_program bin (split b':' dirs)

abbrev pub is_found : Option Text → Bool
is_found none = false
is_found (some _) = true

unfoldable pub which : (Text → Bool) → Option Text → Text → Bool
unfolding which_path
which is_program path bin = is_found (which_path is_program path bin)
