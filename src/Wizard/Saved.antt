-- ===== src/Wizard/Saved.antt =====
-- What a request to save settings leaves in the configuration file (wizard/src/main.rs).
use kio_protondrive.Base.{
  ℕ, Text, str, same, [], Option, none, some, Result, ok, ◌≡◌, if◌then◌else◌,
}
use kio_protondrive.Entry.{or_else}
use kio_protondrive.Outside.{done}
use kio_protondrive.Update.{parse_u32}
use kio_protondrive.Daemon.Config.{Config, DaemonError, Files, as_io}
use kio_protondrive.Wizard.Settings.{Session}

abbrev pub saved_ok : Text
saved_ok = str "{\"ok\":true}"

-- A field behind a request with a value for it: an empty value clears the store, and a value that is no
-- number leaves the days.
abbrev pub store_after : Option Text → Option Text → Option Text
store_after none old = old
store_after (some s) old = if same s [] then none else some s

abbrev pub days_after : Option Text → Option ℕ → Option ℕ
days_after none old = old
days_after (some d) old = or_else (parse_u32 d) old

module _ {World : Type 0} (f : Files World) (n : Session World) (path : Text)
    (parent : Option Text) where
  -- The file system gives back what it has written, and TOML reads back what it writes.
  pub record IsReliable : Type 0 where
    pub file :
        (text : Text) (w : World)
        → (f.write path text w).0 ≡ done tt
        → f.read_to_string path (f.write path text w).1 ≡ done text
    pub toml : (c : Config) (text : Text) → f.toml.write c ≡ ok text → f.toml.read text ≡ ok c

  -- The write of a text.
  abbrev write_text : Text → World → Result (Unit {0}) DaemonError × World
  write_text raw w = let (r, w') = f.write path raw w in (as_io r, w')

  -- What a configuration becomes by a request with these two values.
  pub record IsUpdated (store days : Option Text) (before after : Config) : Type 0 where
    pub store_field : after.credentials_store ≡ store_after store before.credentials_store
    pub days_field : after.cache_retention_days ≡ days_after days before.cache_retention_days
