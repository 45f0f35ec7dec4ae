-- ===== src/Cli/SplitJoin.antt =====
-- A path is taken apart into its parent and its name and put together again.
use kio_protondrive.Base.{
  ◌≡◌, refl, arith, Text, rsplit_once, trim_end_matches, none, some, [], ◌∷◌, ◌++◌,
}
use kio_protondrive.Cli.Moves.{split_parent_and_name, join, root_if_empty}

rsplit_once-append :
    (k : _) (p s : Text) → rsplit_once k s ≡ none → rsplit_once k (p ++ k ∷ s) ≡ some (p, s)
unfolding rsplit_once
rsplit_once-append k [] s h = ground arith
rsplit_once-append k (c ∷ p) s h = ground (arith, rsplit_once-append k p s h)

-- What `join` makes of a parent that ends in no slash and a name without one, `split_parent_and_name`
-- takes apart again, with `/` for an empty parent; and what it gives joins to the same path.
pub split_parent_and_name-join :
    (parent name : Text)
    → rsplit_once b'/' name ≡ none
    → trim_end_matches b'/' parent ≡ parent
    → (split_parent_and_name (join parent name) ≡ (root_if_empty parent, name))
      × (join (root_if_empty parent) name ≡ join parent name)
unfolding split_parent_and_name join
split_parent_and_name-join [] name h e =
    (ground (arith, rsplit_once-append b'/' [] name h), unfold trim_end_matches in refl)
split_parent_and_name-join (c ∷ p) name h e = ground (arith, rsplit_once-append b'/' (c ∷ p) name h)
