-- ===== src/Update.antt =====
-- core/src/cli_update.rs: versions and the release manifest, and daemon/src/version_check.rs.
pub mod Order
pub mod Once
pub mod Install
pub mod Verified
use kio_protondrive.Base.{
  ℕ, ◌+◌, ◌-◌, ◌*◌, ◌^◌, Text, str, same, leb, ltb, ◌==◌, split, strip_prefix, starts_with, trim,
  Bool, true, false, not, ◌||◌, ◌&&◌, [], ◌∷◌, ◌++◌, List, Option, none, some, Result, ok, err,
  if◌then◌else◌,
}
use kio_protondrive.Entry.{and_then}
use kio_protondrive.Ctrl.{lines}

pub data CliUpdateError : Type 0 where
  fetch : Text → Text → CliUpdateError
  parse : Text → CliUpdateError
  no_matching_platform : Text → CliUpdateError
  checksum_mismatch : CliUpdateError
  io : Text → CliUpdateError

-- `CliUpdateError::to_string`
unfoldable pub update_error_text : CliUpdateError → Text
update_error_text (fetch url message) = str "could not fetch " ++ (url ++ (str ": " ++ message))
update_error_text (parse message) = str "could not parse the release manifest: " ++ message
update_error_text (no_matching_platform platform) =
    str "no " ++ (platform ++ str " build listed in the release manifest")
update_error_text checksum_mismatch = str "downloaded file's checksum did not match the manifest"
update_error_text (io message) = str "i/o error: " ++ message

pub record ReleaseFile : Type 0 where
  pub url : Text
  pub sha512 : Text
  pub platform : Text

pub record Release : Type 0 where
  pub category : Text
  pub version : Text
  pub files : List ReleaseFile

abbrev pub min_cli_version : Text
min_cli_version = str "0.9.0"

unfoldable pub first_stable : List Release → Option Release
first_stable [] = none
first_stable (r ∷ rs) = if same r.category (str "Stable") then some r else first_stable rs

-- `parse_manifest`, of what serde reads.
unfoldable pub parse_manifest : Result (List Release) Text → Result Release CliUpdateError
unfolding first_stable
parse_manifest (err m) = err (parse m)
parse_manifest (ok releases) = elim (first_stable releases) [
  | none ↦ err (parse (str "no Stable release in the manifest"))
  | some r ↦ ok r
]

unfoldable pub file_for_platform : List ReleaseFile → Text → Option ReleaseFile
file_for_platform [] platform = none
file_for_platform (f ∷ fs) platform =
    if same f.platform platform then some f else file_for_platform fs platform

-- What stands behind the first occurrence of a pattern.
unfoldable pub behind : Text → Text → Option Text
behind pattern [] = strip_prefix [] pattern
behind pattern (c ∷ s) = elim (strip_prefix (c ∷ s) pattern) [
  | some rest ↦ some rest
  | none ↦ behind pattern s
]

-- What stands in front of the first occurrence, or everything.
unfoldable pub before : Text → Text → Text
before pattern [] = []
before pattern (c ∷ s) =
    let rest = c ∷ before pattern s in if starts_with (c ∷ s) pattern then [] else rest

unfoldable pub before_byte : ℕ → Text → Text
before_byte k [] = []
before_byte k (c ∷ s) = let rest = c ∷ before_byte k s in if c == k then [] else rest

-- `line.split("cli-drive@").nth(1)`, `split('+').next()` and `trim`
unfoldable pub version_in : Text → Option Text
unfolding behind before before_byte
version_in line =
    and_then (behind (str "cli-drive@") line)
      λ rest. some (trim (before_byte b'+' (before (str "cli-drive@") rest)))

abbrev pub first_of_lines : List Text → Option Text
first_of_lines [] = none
first_of_lines (l ∷ _) = some l

unfoldable pub installed_version : Text → Option Text
unfolding lines version_in
installed_version stdout = and_then (first_of_lines (lines stdout)) version_in

abbrev pub max_u32 : ℕ
max_u32 = 2 ^ 32 - 1

-- `u32::from_str` on digits, with the number read so far.
unfoldable pub digits_onto : ℕ → Text → Option ℕ
digits_onto n [] = some n
digits_onto n (c ∷ s) =
    if leb 48 c && leb c 57
    then if leb (n * 10 + (c - 48)) max_u32 then digits_onto (n * 10 + (c - 48)) s else none
    else none

-- `str::parse::<u32>`: one `+` may stand in front, and a digit must.
unfoldable pub parse_u32 : Text → Option ℕ
unfolding digits_onto
parse_u32 [] = none
parse_u32 (c ∷ []) = digits_onto 0 (c ∷ [])
parse_u32 (c ∷ d ∷ s) = if c == b'+' then digits_onto 0 (d ∷ s) else digits_onto 0 (c ∷ d ∷ s)

unfoldable pub parse_all : List Text → Option (List ℕ)
unfolding parse_u32
parse_all [] = some []
parse_all (p ∷ ps) = and_then (parse_u32 p) λ n. and_then (parse_all ps) λ ns. some (n ∷ ns)

unfoldable pub parts : Text → Option (List ℕ)
unfolding parse_all
parts v = parse_all (split b'.' v)

-- `>` of `Vec<u32>`: lexicographic, and a longer list is greater than its own beginning.
unfoldable pub greater : List ℕ → List ℕ → Bool
greater [] _ = false
greater (a ∷ as') [] = true
greater (a ∷ as') (b ∷ bs) = ltb b a || (a == b && greater as' bs)

abbrev pub both_greater : Option (List ℕ) → Option (List ℕ) → Bool
both_greater (some r) (some i) = greater r i
both_greater _ _ = false

unfoldable pub is_newer : Text → Text → Bool
unfolding parts greater
is_newer remote installed = both_greater (parts remote) (parts installed)

unfoldable pub is_supported : Text → Bool
unfolding is_newer
is_supported installed = not (is_newer min_cli_version installed)

-- What a version check does outside of itself.
pub data Notice : Type 0 where
  cli_unsupported : Text → Notice
  cli_update_available : Text → Text → Notice
  offer_update : Notice

pub record Check : Type 0 where
  pub completed : Bool
  pub notices : List Notice
  pub already_notified : Option Text

abbrev pub is_noted : Option Text → Text → Bool
is_noted none key = false
is_noted (some k) key = same k key

unfoldable pub unsupported_key : Text → Text
unsupported_key installed = str "unsupported:" ++ installed

-- Notifies unless it was done for this key.
unfoldable pub notify_once : Option Text → Text → Notice → Check
notify_once noted key notice =
    if is_noted noted key
    then record { completed = true; notices = []; already_notified = noted }
    else record {
      completed = true;
      notices = notice ∷ offer_update ∷ [];
      already_notified = some key;
    }

unfoldable pub compare_release : Option Text → Text → Result Release CliUpdateError → Check
unfolding notify_once
compare_release noted installed (err _) = record {
  completed = false;
  notices = [];
  already_notified = noted;
}
compare_release noted installed (ok release) =
    if is_newer release.version installed
    then notify_once noted release.version (cli_update_available release.version installed)
    else record { completed = true; notices = []; already_notified = none }

abbrev pub check_installed : Option Text → Option Text → Result Release CliUpdateError → Check
check_installed noted none latest = record {
  completed = false;
  notices = [];
  already_notified = noted;
}
check_installed noted (some installed) latest =
    if is_supported installed
    then compare_release noted installed latest
    else notify_once noted (unsupported_key installed) (cli_unsupported installed)

-- `check`, given the output of `--version` (none: it could not run) and the fetched manifest.
unfoldable pub check : Option Text → Option Text → Result Release CliUpdateError → Check
unfolding compare_release notify_once
check noted stdout latest = check_installed noted (and_then stdout installed_version) latest

-- daemon/src/main.rs, in seconds.
unfoldable pub next_version_check_interval : Bool → ℕ
next_version_check_interval true = 24 * 60 * 60
next_version_check_interval false = 15 * 60
