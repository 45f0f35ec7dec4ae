-- ===== src/Update/Once.antt =====
-- Version checks that are repeated or unanswered.
use kio_protondrive.Base.{Text, false, [], Option, none, some, ◌≡◌, refl, arith, Result, ok, err}
use kio_protondrive.Update.{
  Release, CliUpdateError, Notice, notify_once, compare_release, check_installed, check,
  installed_version, unsupported_key, cli_unsupported,
}
use kio_protondrive.Entry.{and_then}

notify_once_twice :
    (noted : Option Text) (key : Text) (notice : Notice)
    → (notify_once (notify_once noted key notice).already_notified key notice).notices ≡ []
unfolding notify_once
notify_once_twice none key notice = ground arith
notify_once_twice (some k) key notice = ground arith

compare_release_twice :
    (noted : Option Text) (installed : Text) (latest : Result Release CliUpdateError)
    → (compare_release
        (compare_release noted installed latest).already_notified
        installed
        latest).notices
      ≡ []
unfolding compare_release
compare_release_twice noted installed (err e) = refl
compare_release_twice none installed (ok r) = ground arith
compare_release_twice (some k) installed (ok r) = ground arith

check_installed_twice :
    (noted : Option Text) (installed : Option Text) (latest : Result Release CliUpdateError)
    → (check_installed
        (check_installed noted installed latest).already_notified
        installed
        latest).notices
      ≡ []
check_installed_twice noted none latest = refl
check_installed_twice noted (some v) latest = ground (
  arith,
  compare_release_twice noted v latest,
  notify_once_twice noted (unsupported_key v) (cli_unsupported v),
)

-- A second check with the same CLI and the same manifest notifies of nothing, whatever was noted
-- before the first one.
pub check_twice :
    (noted : Option Text) (stdout : Option Text) (latest : Result Release CliUpdateError)
    → (check (check noted stdout latest).already_notified stdout latest).notices ≡ []
unfolding check
check_twice noted stdout latest =
    check_installed_twice noted (and_then stdout installed_version) latest

-- A check that got no answer notifies of nothing and leaves what was noted.
pub check_unanswered :
    (noted : Option Text) (stdout : Option Text) (latest : Result Release CliUpdateError)
    → (check noted stdout latest).completed ≡ false
    → ((check noted stdout latest).notices ≡ [])
      × ((check noted stdout latest).already_notified ≡ noted)
unfolding check
check_unanswered noted stdout latest h = go (and_then stdout installed_version) h
  where
    go :
        (v : Option Text)
        → (check_installed noted v latest).completed ≡ false
        → ((check_installed noted v latest).notices ≡ [])
          × ((check_installed noted v latest).already_notified ≡ noted)
    go none e = (refl, refl)
    go (some v) e = ground arith
