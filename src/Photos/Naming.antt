-- ===== src/Photos/Naming.antt =====
-- The slugs of the categories of photos.
use kio_protondrive.Base.{◌≡◌, ◌↔◌, refl, arith, Text, str, text_dec, some, [], ◌∷◌, List}
use kio_protondrive.Photos.{
  PhotoCategory, from_slug, find_slug, slug, favorites, screenshots, videos, live_photos, selfies,
  portraits, bursts, panoramas, raw, all_categories,
}

slug-found :
    (s : Text) (c d : PhotoCategory) (cs : List PhotoCategory)
    → find_slug s cs ≡ some c
    → s ≡ slug c
unfolding find_slug
slug-found s c d [] h = absurd (cc)
slug-found s c d (e ∷ cs) h = ground (arith, slug-found s c d cs)

-- A slug names a category exactly if it is the slug of it.
pub from_slug_iff : (s : Text) (c : PhotoCategory) → (from_slug s ≡ some c) ↔ (s ≡ slug c)
unfolding from_slug text_dec str
from_slug_iff s c = (slug-found s c c all_categories, λ e. rw e (back c))
  where
    back : (c : PhotoCategory) → from_slug (slug c) ≡ some c
    back favorites = refl
    back screenshots = refl
    back videos = refl
    back live_photos = refl
    back selfies = refl
    back portraits = refl
    back bursts = refl
    back panoramas = refl
    back raw = refl
