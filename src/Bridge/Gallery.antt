-- ===== src/Bridge/Gallery.antt =====
-- core/src/bridge.rs: the calls on photos. Errors are texts here, since two of them are no `DriveError`.
use mathlib.Core.List.{map}
use kio_protondrive.Base.{
  Text, str, [], ◌∷◌, ◌++◌, List, Option, none, some, Result, ok, err, Action, pure, fail, ◌>>=◌,
  ◌>>◌,
}
use kio_protondrive.Outside.{Outside, Io, done, missing, failed}
use kio_protondrive.Store.{Store, outside}
use kio_protondrive.Cli.Photos.{photo_download}
use kio_protondrive.Cli.Errors.{in_words}
use kio_protondrive.Photos.{PhotoCategory, filter_by_category, from_slug}
use kio_protondrive.Bridge.Entries.{FfiEntry, Places}
use kio_protondrive.Bridge.Reads.{cached_photos, cached_find_photo, photo_to_ffi}

-- The name that the first entry of a folder has.
abbrev pub entry_name : Io Text → Result Text Text
entry_name (done name) = ok name
entry_name (missing m) = err m
entry_name (failed m) = err m

abbrev pub first_name : List (Io Text) → Result Text Text
first_name [] = err (str "photo download produced no local file")
first_name (e ∷ _) = entry_name e

abbrev pub first_of_folder : Io (List (Io Text)) → Result Text Text
first_of_folder (done entries) = first_name entries
first_of_folder (missing m) = err m
first_of_folder (failed m) = err m

-- `std::fs::read_dir` is a parameter.
module _ (o : Outside) (at : Places) (read_dir : Text → o.World → Io (List (Io Text))) where
  open o use {World}

  unfoldable pub list_photos : Action (Store World) (List FfiEntry) Text
  unfolding photo_to_ffi
  list_photos = do photos ← in_words (cached_photos o at); pure (map photo_to_ffi photos)

  abbrev pub list_category : Text → Option PhotoCategory → Action (Store World) (List FfiEntry) Text
  list_category slug none = fail (str "unknown photo category: " ++ slug)
  list_category slug (some c) = in_words (cached_photos o at) >>= λ photos.
      pure (map photo_to_ffi (filter_by_category c photos))

  unfoldable pub list_photos_by_category : Text → Action (Store World) (List FfiEntry) Text
  unfolding photo_to_ffi from_slug
  list_photos_by_category slug = list_category slug (from_slug slug)

  unfoldable pub stat_photo : Text → Action (Store World) FfiEntry Text
  unfolding photo_to_ffi
  stat_photo name = do photo ← in_words (cached_find_photo o at name); pure (photo_to_ffi photo)

  unfoldable pub download_photo : Text → Text → Action (Store World) Text Text
  unfolding outside photo_download
  download_photo name local_folder = do
    photo ← in_words (cached_find_photo o at name)
    in_words (outside o (photo_download o photo.node.uid local_folder))
    λ s. (first_of_folder (read_dir local_folder s.world), s)
