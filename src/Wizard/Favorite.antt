-- ===== src/Wizard/Favorite.antt =====
-- wizard/src/main.rs: the bookmark in Dolphin's list of places.
use kio_protondrive.Base.{
  ℕ, Text, str, contains, starts_with, [], ◌∷◌, ◌++◌, Option, none, some, if◌then◌else◌,
}
use kio_protondrive.Ctrl.{json_escape}
use kio_protondrive.Outside.{Io, done, missing, failed}
use kio_protondrive.Daemon.Config.{path_join}

abbrev pub drive_root : Text
drive_root = str "protondrive:/"

abbrev pub closing_tag : Text
closing_tag = str "</xbel>"

unfoldable pub bookmark : Text
bookmark =
    str "  <bookmark href=\"protondrive:/\">\n    <title>Proton Drive</title>\n    <info>\n"
    ++ (str "      <metadata owner=\"http://freedesktop.org\">\n"
        ++ (str "        <bookmark:icon name=\"folder-cloud\"/>\n      </metadata>\n    </info>\n"
            ++ str "  </bookmark>\n"))

-- The text with another in front of the last occurrence of a pattern, if there is one: `rfind` and
-- `insert_str`.
abbrev pub inserted_here : Text → Text → Text → Option Text → Option Text
inserted_here pattern what s (some t) = some t
inserted_here pattern what s none = if starts_with s pattern then some (what ++ s) else none

abbrev pub behind_byte : ℕ → Option Text → Option Text
behind_byte c none = none
behind_byte c (some t) = some (c ∷ t)

unfoldable pub insert_before_last : Text → Text → Text → Option Text
insert_before_last pattern what [] = inserted_here pattern what [] none
insert_before_last pattern what (c ∷ s) =
    inserted_here pattern what (c ∷ s) (behind_byte c (insert_before_last pattern what s))

-- What `route_add_favorite` makes of the file.
pub data Change : Type 0 where
  nothing : Change
  not_well_formed : Change
  write : Text → Change

abbrev pub written : Option Text → Change
written none = not_well_formed
written (some t) = write t

unfoldable pub add_bookmark : Text → Change
unfolding insert_before_last bookmark
add_bookmark existing =
    if contains existing drive_root
    then nothing
    else written (insert_before_last closing_tag bookmark existing)

abbrev pub text_or_empty : Io Text → Text
text_or_empty (done t) = t
text_or_empty (missing _) = []
text_or_empty (failed _) = []

abbrev pub written_body : Io (Unit {0}) → Text
written_body (done _) = str "{\"ok\":true}"
written_body (missing m) = str "{\"ok\":false,\"error\":\"" ++ (json_escape m ++ str "\"}")
written_body (failed m) = str "{\"ok\":false,\"error\":\"" ++ (json_escape m ++ str "\"}")

-- The reads and the writes of files are parameters.
module _ {World : Type 0} (read_to_string : Text → World → Io Text)
    (write_file : Text → Text → World → Io (Unit {0}) × World) where
  abbrev pub apply_change : Text → Change → World → Text × World
  apply_change path nothing w = (str "{\"ok\":true}", w)
  apply_change path not_well_formed w =
      (str "{\"ok\":false,\"error\":\"user-places.xbel not found or not well-formed\"}", w)
  apply_change path (write text) w = let (r, w') = write_file path text w in (written_body r, w')

  unfoldable pub places_path : Text → Text
  unfolding path_join
  places_path home = path_join home (str ".local/share/user-places.xbel")

  abbrev pub add_favorite_at : Option Text → World → Text × World
  add_favorite_at none w = (str "{\"ok\":false,\"error\":\"HOME not set\"}", w)
  add_favorite_at (some home) w =
      apply_change (places_path home)
        (add_bookmark (text_or_empty (read_to_string (places_path home) w))) w

  -- `route_add_favorite`, given `HOME`.
  unfoldable pub route_add_favorite : Option Text → World → Text × World
  unfolding places_path add_bookmark
  route_add_favorite home w = add_favorite_at home w
