-- ===== src/Update/Install.antt =====
-- core/src/cli_update.rs: fetching the manifest, and the download that replaces the CLI. `curl`,
-- `sha512sum` and the change of a file's mode are parameters, and so are the folder and the file name
-- that `std` takes out of the destination.
use kio_protondrive.Base.{
  ℕ, Text, str, same, decimal, to_lowercase, Bool, [], ◌∷◌, ◌++◌, List, Option, none, some, Result,
  ok, err, Action, fail, lift, ◌>>=◌, ◌>>◌, if◌then◌else◌,
}
use kio_protondrive.Outside.{Outside, Io, done, missing, failed}
use kio_protondrive.Ctrl.{word, skip_spaces}
use kio_protondrive.Update.{
  CliUpdateError, fetch, checksum_mismatch, io, ReleaseFile, Release, parse_manifest,
}

-- How a process ends: `status` is the text of its exit status.
pub record Exit : Type 0 where
  pub success : Bool
  pub status : Text
  pub stdout : Text

pub record Tools (World : Type 0) : Type 0 where
  pub curl : List Text → World → Result Exit Text × World
  pub sha512sum : Text → World → Result Exit Text × World
  pub make_executable : Text → World → Io (Unit {0}) × World
  pub read_manifest : Text → Result (List Release) Text
  pub process_id : ℕ

abbrev pub manifest_url : Text
manifest_url = str "https://proton.me/download/drive/cli/version.json"

abbrev pub https_only : List Text → List Text
https_only rest = str "--proto" ∷ str "=https" ∷ str "--proto-redir" ∷ str "=https" ∷ rest

-- The platform of an architecture.
unfoldable pub current_platform : Text → Option Text
current_platform arch =
    if same arch (str "x86_64")
    then some (str "linux/x64")
    else if same arch (str "aarch64")
    then some (str "linux/arm64")
    else none

unfoldable pub fetch_args : List Text
fetch_args = https_only (str "-fsSL" ∷ str "--" ∷ manifest_url ∷ [])

unfoldable pub download_args : Text → Text → List Text
download_args tmp url = https_only (str "-fsSL" ∷ str "-o" ∷ tmp ∷ str "--" ∷ url ∷ [])

-- `split_whitespace().next().unwrap_or_default()`
unfoldable pub first_word : Text → Text
unfolding word skip_spaces
first_word s = (word (skip_spaces s)).0

unfoldable pub checksum_of : Exit → Text
unfolding first_word
checksum_of e = to_lowercase (first_word e.stdout)

-- A process of `curl` that was to fetch a URL.
abbrev pub fetched : Text → Result Exit Text → Result Exit CliUpdateError
fetched url (err m) = err (fetch url m)
fetched url (ok e) =
    if e.success then ok e else err (fetch url (str "curl exited with " ++ e.status))

abbrev pub summed : Result Exit Text → Result Exit CliUpdateError
summed (err m) = err (io m)
summed (ok e) = if e.success then ok e else err (io (str "sha512sum exited with " ++ e.status))

abbrev pub io_error : {A : Type 0} → Io A → Result A CliUpdateError
io_error (done a) = ok a
io_error (missing m) = err (io m)
io_error (failed m) = err (io m)

abbrev pub verified : ReleaseFile → Exit → Result (Unit {0}) CliUpdateError
verified file e =
    if same (checksum_of e) (to_lowercase file.sha512) then ok tt else err checksum_mismatch

module _ (o : Outside) (t : Tools (o.World)) where
  open o use {World}

  abbrev pub Step : Type 0 → Type 0
  Step A = Action World A CliUpdateError

  -- A call of the world, whose result is read as a step of the update.
  abbrev pub calling : {R A : Type 0} → (World → R × World) → (R → Result A CliUpdateError) → Step A
  calling f g w = let (r, w') = f w in (g r, w')

  unfoldable pub fetch_latest_stable : Step Release
  unfolding fetch_args
  fetch_latest_stable = do
    e ← calling (t.curl fetch_args) (fetched manifest_url)
    lift (parse_manifest (t.read_manifest e.stdout))

  unfoldable pub download_and_install_inner : ReleaseFile → Text → Text → Step (Unit {0})
  unfolding download_args
  download_and_install_inner file dest tmp = do
    calling (t.curl (download_args tmp file.url)) (fetched file.url)
    e ← calling (t.sha512sum tmp) summed
    lift (verified file e)
    calling (t.make_executable tmp) io_error
    calling (o.rename_file tmp dest) io_error

  -- The temporary file goes where the download has failed.
  abbrev pub cleaned :
      Text → Result (Unit {0}) CliUpdateError × World → Result (Unit {0}) CliUpdateError × World
  cleaned tmp (ok a, w) = (ok a, w)
  cleaned tmp (err e, w) = (err e, (o.remove_file tmp w).1)

  unfoldable pub tmp_path : Text → Text → Text
  tmp_path parent name = parent ++ (str "/." ++ (name ++ (str ".tmp-" ++ decimal t.process_id)))

  unfoldable pub download_and_install : ReleaseFile → Text → Option Text → Text → Step (Unit {0})
  unfolding download_and_install_inner tmp_path
  download_and_install file dest none name = fail (io (dest ++ str " has no parent directory"))
  download_and_install file dest (some parent) name =
      calling (o.create_dir_all parent) io_error >>= λ _ w.
      cleaned (tmp_path parent name) (download_and_install_inner file dest (tmp_path parent name) w)
