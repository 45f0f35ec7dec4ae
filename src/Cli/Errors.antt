-- ===== src/Cli/Errors.antt =====
-- How core/src/cli.rs words its errors, for the callers that hand on a text.
use kio_protondrive.Base.{Text, str, ◌++◌, decimal, map_err, Action}
use kio_protondrive.Outside.{
  DriveError, not_found, not_authenticated, already_exists, unsupported, cli, parse, spawn, timeout,
  io, sqlite,
}

-- `DriveError::to_string`
unfoldable pub error_text : DriveError → Text
error_text (not_found path) = str "path not found: " ++ path
error_text not_authenticated = str "not logged in to Proton Drive — run \"proton-drive auth login\""
error_text (already_exists path) = str "a file or folder with this name already exists: " ++ path
error_text (unsupported path) = str "operation not supported for: " ++ path
error_text (cli message) = str "proton-drive reported an error: " ++ message
error_text (parse message) = str "could not parse proton-drive output: " ++ message
error_text (spawn message) = str "could not launch proton-drive: " ++ message
error_text (timeout seconds) =
    str "proton-drive did not respond within " ++ (decimal seconds ++ str "s")
error_text (io message) = str "i/o error: " ++ message
error_text (sqlite message) = str "cache database error: " ++ message

-- `.map_err(|e| e.to_string())`
abbrev pub in_words : {S A : Type 0} → Action S A DriveError → Action S A Text
in_words m s = let (r, t) = m s in (map_err error_text r, t)
