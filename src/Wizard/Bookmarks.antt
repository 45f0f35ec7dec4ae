-- ===== src/Wizard/Bookmarks.antt =====
-- The list of places behind `route_add_favorite` of wizard/src/main.rs.
use kio_protondrive.Base.{
  ℕ, Text, str, contains, starts_with, [], ◌∷◌, ◌++◌, true, Option, none, some, ◌≡◌, refl, arith,
  Bool-cases, inl, inr,
}
use kio_protondrive.Wizard.Favorite.{
  drive_root, closing_tag, bookmark, insert_before_last, inserted_here, behind_byte, nothing, write,
  written, add_bookmark,
}

contains-front : (a p : Text) (s : Text) → contains s p ≡ true → contains (a ++ s) p ≡ true
unfolding contains
contains-front [] p s h = h
contains-front (c ∷ a) p s h = ground (arith, contains-front a p s h)

starts_with-append : (s p t : Text) → starts_with s p ≡ true → starts_with (s ++ t) p ≡ true
unfolding starts_with
starts_with-append s [] t h = refl
starts_with-append [] (p ∷ ps) t h = absurd (cc)
starts_with-append (c ∷ s) (p ∷ ps) t h = ground (arith, starts_with-append s ps t)

contains-nil : (s : Text) → contains s [] ≡ true
unfolding contains starts_with
contains-nil [] = refl
contains-nil (c ∷ s) = refl

contains-append : (s p t : Text) → contains s p ≡ true → contains (s ++ t) p ≡ true
unfolding contains starts_with
contains-append [] [] t h = contains-nil t
contains-append [] (p ∷ ps) t h = absurd (cc)
contains-append (c ∷ s) p t h =
    ground (arith, starts_with-append (c ∷ s) p t, contains-append s p t)

bookmark-contains : contains bookmark drive_root ≡ true
unfolding contains bookmark str starts_with
bookmark-contains = refl

inserted_here-contains :
    (pattern what key s t : Text) (r : Option Text)
    → contains what key ≡ true
    → ((u : Text) → r ≡ some u → contains u key ≡ true)
    → inserted_here pattern what s r ≡ some t
    → contains t key ≡ true
inserted_here-contains pattern what key s t (some u) h k e = ground (arith, k u refl)
inserted_here-contains pattern what key s t none h k e =
    ground (arith, contains-append what key s h)

behind_byte-contains :
    (c : ℕ) (key u : Text) (r : Option Text)
    → ((v : Text) → r ≡ some v → contains v key ≡ true)
    → behind_byte c r ≡ some u
    → contains u key ≡ true
behind_byte-contains c key u (some v) k e = ground (arith, contains-front (c ∷ []) key v (k v refl))
behind_byte-contains c key u none k e = absurd (cc)

-- What is inserted is found in the text from then on.
insert_before_last-contains :
    (pattern what key s t : Text)
    → contains what key ≡ true
    → insert_before_last pattern what s ≡ some t
    → contains t key ≡ true
unfolding insert_before_last
insert_before_last-contains pattern what key [] t h e =
    inserted_here-contains pattern what key [] t none h (λ u p. absurd (cc)) e
insert_before_last-contains pattern what key (c ∷ s) t h e =
    let rest = insert_before_last pattern what s in
    inserted_here-contains pattern what key (c ∷ s) t (behind_byte c rest) h
      (λ u p.
        behind_byte-contains c key u rest
          (λ v q. insert_before_last-contains pattern what key s v h q) p)
      e

written-some : (r : Option Text) (t : Text) → written r ≡ write t → r ≡ some t
written-some none t e = absurd (cc)
written-some (some u) t e = cc

inserted :
    (existing updated : Text)
    → add_bookmark existing ≡ write updated
    → insert_before_last closing_tag bookmark existing ≡ some updated
unfolding add_bookmark
inserted existing updated e = elim (Bool-cases (contains existing drive_root)) [
  | inl h ↦ absurd (cc (rw h at e))
  | inr h ↦ written-some (insert_before_last closing_tag bookmark existing) updated (rw h at e)
]

-- A list of places that has been given the bookmark is left alone from then on.
pub add_bookmark_twice :
    (existing updated : Text)
    → add_bookmark existing ≡ write updated
    → add_bookmark updated ≡ nothing
unfolding add_bookmark
add_bookmark_twice existing updated e =
    rw
      (insert_before_last-contains closing_tag bookmark drive_root existing updated
        bookmark-contains (inserted existing updated e))
      refl
