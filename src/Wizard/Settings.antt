-- ===== src/Wizard/Settings.antt =====
-- wizard/src/main.rs: the locale, and what a request to save settings changes.
use kio_protondrive.Base.{
  ℕ, Text, str, same, split, Bool, false, ◌||◌, [], ◌∷◌, ◌++◌, List, Option, none, some, Result, ok,
  err, if◌then◌else◌,
}
use kio_protondrive.Entry.{and_then, or_else, unwrap_or}
use kio_protondrive.Ctrl.{extract_query_param, json_escape}
use kio_protondrive.Cli.Commands.{replace}
use kio_protondrive.Update.{parse_u32}
use kio_protondrive.Daemon.Config.{
  Config, DaemonError, daemon_error_text, Files, default_config, credentials_stores,
  load_or_default, save,
}

abbrev pub supported_locales : List Text
supported_locales =
    str "ar"
    ∷ str "de"
    ∷ str "es"
    ∷ str "fr"
    ∷ str "hi"
    ∷ str "ja"
    ∷ str "pt_BR"
    ∷ str "ru"
    ∷ str "zh_CN"
    ∷ []

unfoldable pub find_same : Text → List Text → Option Text
find_same s [] = none
find_same s (l ∷ ls) = if same l s then some l else find_same s ls

abbrev pub first_part : List Text → Text → Text
first_part [] s = s
first_part (p ∷ _) s = p

-- `split(['.', '@']).next()`: what stands in front of the first of the two.
unfoldable pub locale_base : Text → Text
locale_base raw = first_part (split b'@' (first_part (split b'.' raw) raw)) raw

-- `resolve_locale`, given `LC_ALL`, `LC_MESSAGES` and `LANG`.
unfoldable pub resolve_locale : Option Text → Option Text → Option Text → Option Text
unfolding find_same locale_base
resolve_locale lc_all lc_messages lang = and_then (or_else lc_all (or_else lc_messages lang)) λ raw.
    or_else (find_same (locale_base raw) supported_locales)
      (find_same (first_part (split b'_' (locale_base raw)) (locale_base raw)) supported_locales)

unfoldable pub is_listed : Text → List Text → Bool
is_listed store [] = false
is_listed store (s ∷ ss) = same s store || is_listed store ss

unfoldable pub unknown_store_body : Text → Text
unknown_store_body store =
    str "{\"ok\":false,\"error\":\"unknown credentials store: " ++ (json_escape store ++ str "\"}")

-- The first part of `route_save_config`: an empty value clears the field, and no value leaves it.
abbrev pub with_store : Option Text → Config → Result Config Text
with_store none c = ok c
with_store (some store) c =
    if same store []
    then ok (record c { credentials_store = none })
    else if is_listed store credentials_stores
    then ok (record c { credentials_store = some store })
    else err (unknown_store_body store)

abbrev pub with_parsed_days : Option ℕ → Config → Config
with_parsed_days none c = c
with_parsed_days (some n) c = record c { cache_retention_days = some n }

-- A value that is no u32 leaves the days as they are.
abbrev pub with_days : Option Text → Config → Config
with_days none c = c
with_days (some days) c = with_parsed_days (parse_u32 days) c

unfoldable pub resolved_store : Config → Text
resolved_store c = unwrap_or c.credentials_store (str "unsafe_file")

-- In single quotes, with `'` as `'\''`.
unfoldable pub quoted : Text → Text
unfolding replace
quoted store = 39 ∷ (replace 39 (39 ∷ 92 ∷ 39 ∷ 39 ∷ []) store ++ 39 ∷ [])

unfoldable pub plasma_script : Text → Text
unfolding quoted
plasma_script store =
    str "#!/bin/sh\n# Auto-generated by kio-protondrive-wizard. Keeps Dolphin's KIO\n"
    ++ (str "# worker using the same Proton Drive credentials store as the\n"
        ++ (str "# sync daemon — see README.md's \"Credential persistence\" section.\n"
            ++ (str "export PROTON_DRIVE_CREDENTIALS_STORE=" ++ (quoted store ++ 10 ∷ []))))

-- `unwrap_or_default`
abbrev pub or_default : Result Config DaemonError → Config
or_default (ok c) = c
or_default (err _) = default_config

abbrev pub saved_body : Result (Unit {0}) DaemonError → Text
saved_body (ok _) = str "{\"ok\":true}"
saved_body (err e) =
    str "{\"ok\":false,\"error\":\"" ++ (json_escape (daemon_error_text e) ++ str "\"}")

-- What saving calls besides the configuration file: the environment of the process, the script of the
-- next session.
pub record Session (World : Type 0) : Type 0 where
  pub set_store : Text → World → World
  pub write_script : Text → World → World

module _ {World : Type 0} (f : Files World) (n : Session World) (path : Text)
    (parent : Option Text) where
  -- `route_save_config` behind the check of the store.
  abbrev pub save_checked : Option Text → Result Config Text → World → Text × World
  save_checked days (err body) w = (body, w)
  save_checked days (ok c) w =
      let w' =
        n.write_script (plasma_script (resolved_store c)) (n.set_store (resolved_store c) w) in
      let (r, w'') = save f (with_days days c) parent path w' in (saved_body r, w'')

  unfoldable pub route_save_config : Text → World → Text × World
  unfolding extract_query_param
  route_save_config req w =
      save_checked (extract_query_param req (str "cache_retention_days"))
        (with_store (extract_query_param req (str "credentials_store"))
          (or_default (load_or_default f path w)))
        w
