-- ===== src/OpenFolders/Signal.antt =====
-- daemon/src/open_folders.rs: what one line of `busctl monitor` says.
use kio_protondrive.Base.{
  Text, str, same, ◌==◌, strip_prefix, starts_with, trim_end_matches, Bool, not, ◌||◌, [], ◌∷◌,
  List, Option, none, some, if◌then◌else◌, ℕ,
}
use kio_protondrive.Entry.{and_then, unwrap_or}
use kio_protondrive.Ctrl.{escaped, hex_value}
use kio_protondrive.OpenFolders.{Change, entered, left, OpenFolders, apply}

-- `u8::from_str_radix(hex, 16)` of two bytes: a `+` may stand in front.
unfoldable pub radix_16 : ℕ → ℕ → Option ℕ
unfolding escaped hex_value
radix_16 h l = if h == b'+' then hex_value l else escaped h l

-- Up to the vector of bytes.
unfoldable pub percent_decode : Text → Text
unfolding radix_16
percent_decode [] = []
percent_decode (b ∷ []) = b ∷ []
percent_decode (b ∷ c ∷ []) = b ∷ c ∷ []
percent_decode (b ∷ h ∷ l ∷ s) =
    let plain = b ∷ percent_decode (h ∷ l ∷ s) in
    let behind = percent_decode s in
    if b == b'%' then elim (radix_16 h l) [ some byte ↦ byte ∷ behind | none ↦ plain ] else plain

unfoldable pub is_refreshable : Text → Bool
is_refreshable path = not (
    not (starts_with path (str "/"))
    || (same path (str "/photos") || starts_with path (str "/photos/")))

unfoldable pub drive_path : Text → Option Text
unfolding percent_decode is_refreshable
drive_path url = and_then (strip_prefix url (str "protondrive:")) λ rest.
    let path =
      percent_decode (trim_end_matches b'/' (unwrap_or (strip_prefix rest (str "//")) rest)) in
    if is_refreshable path then some path else none

unfoldable pub change_of : Text → Option Change
change_of member =
    if same member (str "enteredDirectory")
    then some entered
    else if same member (str "leftDirectory")
    then some left
    else none

abbrev pub with_change : Change → Option Text → Option (Change × Text)
with_change c none = none
with_change c (some path) = some (c, path)

-- `parse_signal`, of the `member` and the first `payload.data` string that serde reads in a line.
unfoldable pub parse_signal : Option Text → Option Text → Option (Change × Text)
unfolding change_of drive_path
parse_signal member url =
    and_then (and_then member change_of) λ c. with_change c (and_then url drive_path)

abbrev pub applied : Option (Change × Text) → ℕ → OpenFolders → OpenFolders
applied none now folders = folders
applied (some (c, path)) now folders = apply c path now folders

-- The thread of `start`: the signals of the lines that `busctl monitor` prints, each with the time at
-- which it is read.
unfoldable pub follow : List (ℕ × (Option Text × Option Text)) → OpenFolders → OpenFolders
unfolding parse_signal apply
follow [] folders = folders
follow ((now, (member, url)) ∷ lines) folders =
    follow lines (applied (parse_signal member url) now folders)
