-- ===== src/Cli/Answer.antt =====
-- What the CLI's output means: lock contention, errors and failed items.
use kio_protondrive.Base.{
  Text, str, contains, same, trim, to_lowercase, ltb, Bool, not, ◌&&◌, ◌||◌, List, [], ◌∷◌, ◌++◌,
  Option, none, some, decimal, Result, ok, err, if◌then◌else◌,
}
use kio_protondrive.Outside.{
  DriveError, CommandOutput, not_found, not_authenticated, already_exists, cli, parse,
}
use kio_protondrive.Entry.{TransferSummary, TrashOutcome}

unfoldable pub mentions_lock : Text → Bool
mentions_lock s = contains s (str "database is locked") || contains s (str "SQLITE_BUSY")

unfoldable pub is_transient_lock_contention : CommandOutput → Bool
is_transient_lock_contention out =
    not out.success && (mentions_lock out.stdout || mentions_lock out.stderr)

-- The tests of `ensure_success` on the lowered message, in its order.
unfoldable pub mentions_login : Text → Bool
mentions_login lower =
    contains lower (str "login")
    || (contains lower (str "log in")
        || (contains lower (str "not authenticated")
            || (contains lower (str "invalid access token")
                || contains lower (str "invalid refresh token"))))

unfoldable pub mentions_absence : Text → Bool
mentions_absence lower = contains lower (str "not supported") || contains lower (str "not found")

unfoldable pub mentions_conflict : Text → Bool
mentions_conflict lower = contains lower (str "already exist") || contains lower (str "existe déjà")

unfoldable pub stdout_context : CommandOutput → Text
stdout_context out =
    if same (trim out.stdout) [] then [] else str " (stdout: " ++ (trim out.stdout ++ str ")")

unfoldable pub classify_failure : Text → CommandOutput → DriveError
classify_failure path out =
    let message = trim out.stderr in
    let lower = to_lowercase message in
    if mentions_login lower
    then not_authenticated
    else if mentions_absence lower
    then not_found path
    else if mentions_conflict lower
    then already_exists path
    else if same message []
    then cli (str "proton-drive exited with an error for " ++ (path ++ stdout_context out))
    else cli (message ++ stdout_context out)

unfoldable pub ensure_success : Text → CommandOutput → Result (Unit {0}) DriveError
ensure_success path out = if out.success then ok tt else err (classify_failure path out)

unfoldable pub ensure_no_failures : Text → TransferSummary → Result (Unit {0}) DriveError
ensure_no_failures context summary =
    if ltb 0 summary.failed_items
    then err (
        cli (
          context ++ (str " reported " ++ (decimal summary.failed_items ++ str " failed item(s)"))))
    else ok tt

-- `outcomes.iter().find(|o| !o.ok)`
unfoldable pub first_failed : List TrashOutcome → Option Text
first_failed [] = none
first_failed (o ∷ os) = if o.ok then first_failed os else some o.uid

-- The end of `trash_path`, `restore_path`, `permanently_delete_path` and `move_path`.
unfoldable pub ensure_all_ok : Text → List TrashOutcome → Result (Unit {0}) DriveError
unfolding first_failed
ensure_all_ok verb os = elim (first_failed os) [
  | none ↦ ok tt
  | some uid ↦ err (cli (str "failed to " ++ (verb ++ (str " " ++ uid))))
]

-- `serde_json::from_str(…)?`
abbrev pub parsed : {A : Type 0} → Result A Text → Result A DriveError
parsed (ok a) = ok a
parsed (err e) = err (parse e)
