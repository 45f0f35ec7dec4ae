-- ===== src/Cli/Sharing.antt =====
-- The sharing commands of core/src/cli.rs.
use kio_protondrive.Base.{
  and_then, Text, str, same, trim, List, [], ◌∷◌, ◌++◌, Option, none, some, Result, ok, err, Action,
  pure, lift, ◌>>=◌, ◌>>◌, if◌then◌else◌,
}
use kio_protondrive.Outside.{Outside, DriveError, parse}
use kio_protondrive.Entry.{SharingStatus, PublicLink, unshared}
use kio_protondrive.Cli.Answer.{parsed}
use kio_protondrive.Cli.Commands.{ask}

unfoldable pub sharing : Text → List Text → List Text
sharing verb rest = str "sharing" ∷ verb ∷ str "-j" ∷ rest

-- `--opt=value`, only where the value is not empty.
unfoldable pub optional : Text → Text → List Text → List Text
optional option value rest = if same value [] then rest else (option ++ value) ∷ rest

unfoldable pub invite_args : Text → Text → Text → Text → List Text
unfolding sharing optional
invite_args path email role message = sharing (str "invite") (
    (str "--user=" ++ email)
    ∷ (str "--role=" ++ role)
    ∷ optional (str "--message=") message (str "--" ∷ path ∷ []))

unfoldable pub set_link_args : Text → Text → Text → Text → List Text
unfolding sharing optional
set_link_args path role password expiration = sharing (str "set-url") (
    (str "--role=" ++ role)
    ∷ optional (str "--password=") password
        (optional (str "--expiration=") expiration (str "--" ∷ path ∷ [])))

abbrev pub or_no_link : Text → Option PublicLink → Result PublicLink DriveError
or_no_link path (some link) = ok link
or_no_link path none =
    err (parse (str "sharing set-url for " ++ (path ++ str " succeeded but returned no urlAccess")))

module _ (o : Outside) where
  open o use {World, read_sharing}

  unfoldable pub sharing_status : Text → Action World SharingStatus DriveError
  unfolding ask sharing
  sharing_status path = do
    out ← ask o path (sharing (str "status") (path ∷ []))
    if same (trim out.stdout) (str "undefined")
        then pure unshared
        else lift (parsed (read_sharing out.stdout))

  unfoldable pub sharing_invite : Text → Text → Text → Text → Action World (Unit {0}) DriveError
  unfolding ask invite_args
  sharing_invite path email role message = do
    ask o path (invite_args path email role message)
    pure tt

  unfoldable pub sharing_remove_member : Text → Text → Action World (Unit {0}) DriveError
  unfolding ask sharing
  sharing_remove_member path email = do
    ask o path (sharing (str "remove") ((str "--email=" ++ email) ∷ str "--" ∷ path ∷ []))
    pure tt

  unfoldable pub sharing_set_link : Text → Text → Text → Text → Action World PublicLink DriveError
  unfolding ask set_link_args
  sharing_set_link path role password expiration = do
    out ← ask o path (set_link_args path role password expiration)
    lift (and_then (parsed (read_sharing out.stdout)) λ status. or_no_link path status.url_access)

  unfoldable pub sharing_remove_link : Text → Action World (Unit {0}) DriveError
  unfolding ask sharing
  sharing_remove_link path = do ask o path (sharing (str "remove-url") (path ∷ [])); pure tt
