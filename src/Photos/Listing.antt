-- ===== src/Photos/Listing.antt =====
-- core/src/photos.rs: the listings, each fetched anew.
use kio_protondrive.Base.{
  Text, str, ◌++◌, List, Option, none, some, Result, ok, err, Action, pure, lift, ◌>>=◌,
}
use kio_protondrive.Outside.{Outside, DriveError, not_found}
use kio_protondrive.Cli.Photos.{photo_timeline}
use kio_protondrive.Photos
use kio_protondrive.Photos.{Photo, PhotoCategory, disambiguate, filter_by_category}

-- `ok_or_else`
abbrev pub photo_or_missing : Text → Option Photo → Result Photo DriveError
photo_or_missing name none = err (not_found (str "/photos/" ++ name))
photo_or_missing name (some p) = ok p

module _ (o : Outside) where
  open o use {World}

  unfoldable pub list_photos : Action World (List Photo) DriveError
  unfolding photo_timeline
  list_photos = do nodes ← photo_timeline o; pure (disambiguate nodes)

  unfoldable pub find_photo : Text → Action World Photo DriveError
  unfolding list_photos
  find_photo name = do
    photos ← list_photos
    lift (photo_or_missing name (Photos.find_photo name photos))

  unfoldable pub list_photos_by_category : PhotoCategory → Action World (List Photo) DriveError
  unfolding list_photos
  list_photos_by_category category = do
    photos ← list_photos
    pure (filter_by_category category photos)
