-- ===== src/Daemon/Config.antt =====
-- daemon/src/config.rs: the configuration file. The file system calls on it, and TOML itself, are
-- parameters.
use kio_protondrive.Base.{
  ℕ, ◌*◌, Text, str, ends_with, [], ◌∷◌, ◌++◌, List, Option, none, some, Result, ok, err, Action,
  ◌>>=◌, if◌then◌else◌, same,
}
use kio_protondrive.Entry.{unwrap_or}
use kio_protondrive.Cli.Errors.{error_text}
use kio_protondrive.Outside.{Io, done, missing, failed, Json, DriveError}

-- `DaemonError` of daemon/src/error.rs
pub data DaemonError : Type 0 where
  io : Text → DaemonError
  config : Text → DaemonError
  config_write : Text → DaemonError
  drive : DriveError → DaemonError
  watch : Text → Text → DaemonError

-- `DaemonError::to_string`
unfoldable pub daemon_error_text : DaemonError → Text
unfolding error_text
daemon_error_text (io message) = str "i/o error: " ++ message
daemon_error_text (config message) = str "invalid config: " ++ message
daemon_error_text (config_write message) = str "could not serialize config: " ++ message
daemon_error_text (drive e) = error_text e
daemon_error_text (watch path source) = str "failed to watch " ++ (path ++ (str ": " ++ source))

abbrev pub default_cache_retention_days : ℕ
default_cache_retention_days = 30

abbrev pub credentials_stores : List Text
credentials_stores = str "keychain" ∷ str "unsafe_file" ∷ str "pass" ∷ []

-- The days are a u32.
pub record Config : Type 0 where
  pub credentials_store : Option Text
  pub cache_retention_days : Option ℕ

abbrev pub default_config : Config
default_config = record { credentials_store = none; cache_retention_days = none }

-- In seconds.
unfoldable pub cache_retention : Config → ℕ
cache_retention c = unwrap_or c.cache_retention_days default_cache_retention_days * 24 * 60 * 60

-- `PathBuf::join` of a relative path.
unfoldable pub path_join : Text → Text → Text
path_join base rel =
    if same base [] then rel else if ends_with b'/' base then base ++ rel else base ++ b'/' ∷ rel

-- `default_path`, given `XDG_CONFIG_HOME` and `HOME`.
unfoldable pub config_home : Option Text → Text → Text
unfolding path_join
config_home xdg home = unwrap_or xdg (path_join home (str ".config"))

unfoldable pub default_path : Option Text → Text → Text
unfolding config_home path_join
default_path xdg home =
    path_join (path_join (config_home xdg home) (str "kio-protondrive")) (str "daemon.toml")

pub record Files (World : Type 0) : Type 0 where
  pub read_to_string : Text → World → Io Text
  pub write : Text → Text → World → Io (Unit {0}) × World
  pub create_dir_all : Text → World → Io (Unit {0}) × World
  pub toml : Json Config

abbrev pub as_config : Result Config Text → Result Config DaemonError
as_config (ok c) = ok c
as_config (err m) = err (config m)

abbrev pub as_toml : Result Text Text → Result Text DaemonError
as_toml (ok t) = ok t
as_toml (err m) = err (config_write m)

abbrev pub as_io : Io (Unit {0}) → Result (Unit {0}) DaemonError
as_io (done _) = ok tt
as_io (missing m) = err (io m)
as_io (failed m) = err (io m)

module _ {World : Type 0} (f : Files World) where
  abbrev pub loaded : Io Text → Result Config DaemonError
  loaded (done raw) = as_config (f.toml.read raw)
  loaded (missing _) = ok default_config
  loaded (failed m) = err (io m)

  -- A file that is missing is the default, one that does not parse is an error.
  unfoldable pub load_or_default : Text → World → Result Config DaemonError
  load_or_default path w = loaded (f.read_to_string path w)

  abbrev pub make_folder : Option Text → Action World (Unit {0}) DaemonError
  make_folder none w = (ok tt, w)
  make_folder (some parent) w = let (r, w') = f.create_dir_all parent w in (as_io r, w')

  -- `parent` is `path.parent()`.
  unfoldable pub save : Config → Option Text → Text → Action World (Unit {0}) DaemonError
  save c parent path = make_folder parent >>= λ _. (λ w. (as_toml (f.toml.write c), w)) >>= λ raw w.
      let (r, w') = f.write path raw w in (as_io r, w')
