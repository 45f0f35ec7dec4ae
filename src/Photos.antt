-- ===== src/Photos.antt =====
-- core/src/photos.rs: the names under `/photos` and the filter by category.
pub mod Naming
pub mod Listing
use kio_protondrive.Base.{
  ℕ, ◌+◌, ◌%◌, ◌^◌, Text, str, same, leb, ◌==◌, rsplit_once, split_once, Bool, false, ◌||◌, ◌&&◌,
  [], ◌∷◌, ◌++◌, List, Option, none, some, decimal, if◌then◌else◌,
}
use kio_protondrive.Entry.{NodeEntry, PhotoDetails}
use kio_protondrive.Entry
use Prim.Native.Nat
use kio_protondrive.Table.{Table, find, upsert}

pub record Photo : Type 0 where
  pub display_name : Text
  pub node : NodeEntry

pub data PhotoCategory : Type 0 where
  favorites screenshots videos live_photos selfies portraits bursts panoramas raw : PhotoCategory

abbrev pub all_categories : List PhotoCategory
all_categories =
    favorites ∷ screenshots ∷ videos ∷ live_photos ∷ selfies ∷ portraits ∷ bursts ∷ panoramas ∷ raw
    ∷ []

unfoldable pub slug : PhotoCategory → Text
slug favorites = str "favorites"
slug screenshots = str "screenshots"
slug videos = str "videos"
slug live_photos = str "live-photos"
slug selfies = str "selfies"
slug portraits = str "portraits"
slug bursts = str "bursts"
slug panoramas = str "panoramas"
slug raw = str "raw"

unfoldable pub tags : PhotoCategory → List ℕ
tags favorites = 0 ∷ []
tags screenshots = 1 ∷ []
tags videos = 2 ∷ []
tags live_photos = 3 ∷ 4 ∷ []
tags selfies = 5 ∷ []
tags portraits = 6 ∷ []
tags bursts = 7 ∷ []
tags panoramas = 8 ∷ []
tags raw = 9 ∷ []

unfoldable pub find_slug : Text → List PhotoCategory → Option PhotoCategory
find_slug s [] = none
find_slug s (c ∷ cs) = if same (slug c) s then some c else find_slug s cs

unfoldable pub from_slug : Text → Option PhotoCategory
unfolding find_slug slug
from_slug s = find_slug s all_categories

-- `[u8]::contains`
unfoldable pub has_tag : List ℕ → ℕ → Bool
has_tag [] t = false
has_tag (u ∷ us) t = u == t || has_tag us t

unfoldable pub any_tag : List ℕ → List ℕ → Bool
unfolding has_tag
any_tag wanted [] = false
any_tag wanted (t ∷ ts) = has_tag wanted t || any_tag wanted ts

abbrev pub tagged : List ℕ → Option PhotoDetails → Bool
tagged wanted none = false
tagged wanted (some p) = any_tag wanted p.tags

unfoldable pub filter_by_category : PhotoCategory → List Photo → List Photo
unfolding any_tag tags
filter_by_category c [] = []
filter_by_category c (p ∷ ps) =
    let rest = filter_by_category c ps in if tagged (tags c) p.node.photo then p ∷ rest else rest

pub is_hex_digit : ℕ → Bool
is_hex_digit b = (leb 48 b && leb b 57) || (leb 65 b && leb b 70) || (leb 97 b && leb b 102)

-- Every byte is a hex digit, and there are so many at least.
unfoldable pub hex_run : ℕ → Text → Bool
unfolding is_hex_digit
hex_run n [] = n == 0
hex_run n (b ∷ s) = is_hex_digit b && hex_run (Nat.pred n) s

-- `^hash^name` as the pair behind the first caret.
unfoldable pub hash_and_name : Text → Option (Text × Text)
hash_and_name [] = none
hash_and_name (c ∷ rest) = if c == b'^' then split_once b'^' rest else none

unfoldable pub strip_import_hash_prefix : Text → Text
unfolding hex_run hash_and_name
strip_import_hash_prefix name = elim (hash_and_name name) [
  | none ↦ name
  | some (hash, after) ↦ if hex_run 8 hash then after else name
]

-- `name (n).ext`, or `name (n)` where there is no dot.
unfoldable pub numbered : Text → ℕ → Text
numbered base n = elim (rsplit_once b'.' base) [
  | some (stem, ext) ↦ stem ++ (str " (" ++ (decimal n ++ (str ")." ++ ext)))
  | none ↦ base ++ (str " (" ++ (decimal n ++ str ")"))
]

unfoldable pub base_name : NodeEntry → Text
unfolding strip_import_hash_prefix
base_name node = strip_import_hash_prefix (Entry.display_name node)

abbrev pub count_of : Option ℕ → ℕ
count_of none = 0
count_of (some n) = n

unfoldable pub name_at : Text → ℕ → Text
unfolding numbered
name_at base count = if count == 1 then base else numbered base count

-- The loop of `disambiguate`, over the counts seen so far, each a u32.
unfoldable pub disambiguate_from : Table ℕ → List NodeEntry → List Photo
unfolding name_at base_name
disambiguate_from seen [] = []
disambiguate_from seen (node ∷ nodes) =
    let base = base_name node in
    let count = (count_of (find base seen) + 1) % 2 ^ 32 in
    record { display_name = name_at base count; node = node }
    ∷ disambiguate_from (upsert base count seen) nodes

unfoldable pub disambiguate : List NodeEntry → List Photo
unfolding disambiguate_from
disambiguate nodes = disambiguate_from [] nodes

-- `find(|photo| photo.display_name == name)`
unfoldable pub find_photo : Text → List Photo → Option Photo
find_photo name [] = none
find_photo name (p ∷ ps) = if same p.display_name name then some p else find_photo name ps
