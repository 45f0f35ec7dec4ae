-- ===== src/Cache/Under.antt =====
-- What is at and below a remote path, without the test of core/src/cache.rs, and that the test finds it.
use kio_protondrive.Base.{
  ℕ, ◌==◌, append_assoc, Text, ends_with, true, false, Bool, [], ◌∷◌, ◌++◌, ◌≡◌, refl, sym, ap, ◌∙◌,
  ◌⊎◌, inl, inr, ◌↔◌, arith, Bool-cases, if◌then◌else◌, none, Option,
}
use kio_protondrive.Cache.Pins.{tree_prefix, in_tree}
use kio_protondrive.Cache.Trees.{IsUnder, in_tree_iff}

-- The path itself; the path, a slash and a rest; and where the path ends in a slash, the path and a
-- rest.
abbrev pub IsAtOrBelow : Text → Text → Type 0
IsAtOrBelow path key =
    (key ≡ path)
    ⊎ ((rest : Text) × (key ≡ path ++ b'/' ∷ rest))
    ⊎ ((folder : Text) × (rest : Text) × (path ≡ folder ++ b'/' ∷ []) × (key ≡ path ++ rest))

ends_with-append : (s : Text) → ends_with b'/' (s ++ b'/' ∷ []) ≡ true
unfolding ends_with
ends_with-append [] = refl
ends_with-append (c ∷ []) = refl
ends_with-append (c ∷ d ∷ s) = ends_with-append (d ∷ s)

one_folder : (c : ℕ) → (c == b'/') ≡ true → c ∷ [] ≡ b'/' ∷ []
one_folder c h = ground arith

ends_with_folder :
    (s : Text) → ends_with b'/' s ≡ true → (folder : Text) × (s ≡ folder ++ b'/' ∷ [])
unfolding ends_with
ends_with_folder [] h = absurd (cc)
ends_with_folder (c ∷ []) h = ([], one_folder c h)
ends_with_folder (c ∷ d ∷ s) h =
    let (folder, e) = ends_with_folder (d ∷ s) h in (c ∷ folder, ap (λ t. c ∷ t) e)

prefix_slash : (path : Text) → ends_with b'/' path ≡ true → tree_prefix path ≡ path
unfolding tree_prefix
prefix_slash path h = rw h refl

prefix_no_slash : (path : Text) → ends_with b'/' path ≡ false → tree_prefix path ≡ path ++ b'/' ∷ []
unfolding tree_prefix
prefix_no_slash path h = rw h refl

behind_slash : (path rest : Text) → (path ++ b'/' ∷ []) ++ rest ≡ path ++ b'/' ∷ rest
behind_slash path rest = append_assoc path (b'/' ∷ []) rest

below : (path key : Text) → IsUnder path key → IsAtOrBelow path key
below path key (inl e) = inl e
below path key (inr (rest, e)) = elim (Bool-cases (ends_with b'/' path)) [
  | inl h ↦
      let (folder, e') = ends_with_folder path h in
      inr (inr (folder, rest, e', e ∙ ap (λ p. p ++ rest) (prefix_slash path h)))
  | inr h ↦
      inr (inl (rest, e ∙ ap (λ p. p ++ rest) (prefix_no_slash path h) ∙ behind_slash path rest))
]

under : (path key : Text) → IsAtOrBelow path key → IsUnder path key
under path key (inl e) = inl e
under path key (inr (inl (rest, e))) = elim (Bool-cases (ends_with b'/' path)) [
  | inl h ↦ inr (b'/' ∷ rest, e ∙ ap (λ p. p ++ b'/' ∷ rest) (sym (prefix_slash path h)))
  | inr h ↦
      inr (
        rest,
        e ∙ sym (behind_slash path rest) ∙ ap (λ p. p ++ rest) (sym (prefix_no_slash path h)),
      )
]
under path key (inr (inr (folder, rest, e', e))) = inr (
  rest,
  e
      ∙ ap (λ p. p ++ rest)
          (sym (prefix_slash path (ap (λ p. ends_with b'/' p) e' ∙ ends_with-append folder))),
)

-- The test finds what is at and below the path, and nothing else.
pub in_tree-IsAtOrBelow :
    (path key : Text) → (in_tree path (tree_prefix path) key ≡ true) ↔ IsAtOrBelow path key
in_tree-IsAtOrBelow path key = (
  (λ h. below path key ((in_tree_iff path key).0 h)),
  (λ h. (in_tree_iff path key).1 (under path key h)),
)

contradiction : {b : Bool} → b ≡ false → b ≡ true → ⊥
contradiction e h = absurd (cc)

pub not_below :
    (path key : Text) → in_tree path (tree_prefix path) key ≡ false → ¬ IsAtOrBelow path key
not_below path key h u = contradiction h ((in_tree-IsAtOrBelow path key).1 u)

-- What is left of a value under a key once what is at and below a path is taken out.
abbrev pub Cleared {ℓ} : {A : Type ℓ} → Text → Text → Option A → Option A → Type ℓ
Cleared path key before after =
    (IsAtOrBelow path key × (after ≡ none)) ⊎ ((¬ IsAtOrBelow path key) × (after ≡ before))

pub in_tree-Cleared {ℓ} :
    {A : Type ℓ} (path key : Text) (before after : Option A)
    → after ≡ (if in_tree path (tree_prefix path) key then none else before)
    → Cleared path key before after
in_tree-Cleared path key before after e = elim (Bool-cases (in_tree path (tree_prefix path) key)) [
  | inl h ↦ inl ((in_tree-IsAtOrBelow path key).0 h, ground arith)
  | inr h ↦ inr (not_below path key h, ground arith)
]
