-- ===== src/Cache/Confined.antt =====
-- Where the local copies of remote paths lie.
use mathlib.Core.List.{reverse, reverse_aux}
use kio_protondrive.Base.{
  ◌≡◌, ◌⊎◌, inl, inr, refl, sym, arith, ℕ, Text, same, split, onto_first, trim_start_matches, Bool,
  true, false, not, ◌&&◌, ◌||◌, ◌==◌, List, Option, none, some, [], ◌∷◌, Bool-cases,
}
use kio_protondrive.Cache.Paths.{
  target_dir, all_normal, none_is_dots, drop_idle, join_parts, last_and_rest, file_name_and_parent,
  parent_of, path_join, dots,
}

abbrev pub has_byte : ℕ → Text → Bool
has_byte k [] = false
has_byte k (c ∷ s) = c == k || has_byte k s

-- A component that stays in its directory: no slash, and not `..`.
abbrev pub is_confined : Text → Bool
is_confined p = not (same p dots) && not (has_byte b'/' p)

abbrev pub all_confined : List Text → Bool
all_confined [] = true
all_confined (p ∷ ps) = is_confined p && all_confined ps

abbrev no_slashes : List Text → Bool
no_slashes [] = true
no_slashes (p ∷ ps) = not (has_byte b'/' p) && no_slashes ps

onto_first-no_slashes :
    (c : ℕ) (ps : List Text)
    → (c == b'/') ≡ false
    → no_slashes ps ≡ true
    → no_slashes (onto_first c ps) ≡ true
onto_first-no_slashes c [] d h = ground arith
onto_first-no_slashes c (p ∷ ps) d h = ground arith

split-no_slashes : (s : Text) → no_slashes (split b'/' s) ≡ true
unfolding split
split-no_slashes [] = refl
split-no_slashes (c ∷ s) = elim (Bool-cases (c == b'/')) [
  | inl e ↦ rw e (split-no_slashes s)
  | inr e ↦ rw e (onto_first-no_slashes c (split b'/' s) e (split-no_slashes s))
]

confined_parts :
    (ps : List Text) → no_slashes ps ≡ true → none_is_dots ps ≡ true → all_confined ps ≡ true
unfolding none_is_dots
confined_parts [] h k = refl
confined_parts (p ∷ ps) h k = ground (arith, confined_parts ps)

normal-confined :
    (ps : List Text) → no_slashes ps ≡ true → all_normal ps ≡ true → all_confined ps ≡ true
unfolding all_normal
normal-confined [] h k = refl
normal-confined (p ∷ ps) h k = confined_parts (p ∷ ps) h (ground arith)

reverse_aux-confined :
    (ps acc : List Text)
    → all_confined ps ≡ true
    → all_confined acc ≡ true
    → all_confined (reverse_aux ps acc) ≡ true
reverse_aux-confined [] acc h k = k
reverse_aux-confined (p ∷ ps) acc h k =
    reverse_aux-confined ps (p ∷ acc) (ground arith) (ground arith)

drop_idle-confined : (ps : List Text) → all_confined ps ≡ true → all_confined (drop_idle ps) ≡ true
unfolding drop_idle
drop_idle-confined [] h = refl
drop_idle-confined (p ∷ ps) h = ground (arith, drop_idle-confined ps)

reverse-confined : (ps : List Text) → all_confined ps ≡ true → all_confined (reverse ps) ≡ true
reverse-confined ps h = reverse_aux-confined ps [] h refl

parent-IsConfined :
    (ps : List Text)
    → all_confined ps ≡ true
    → (ps' : List Text) × ((elim (elim (last_and_rest ps) as (λ _. Option (Text × Text)) [
      | none ↦ none
      | some (name, before) ↦ some (name, join_parts (reverse (drop_idle before)))
    ])
          as (λ _. Text) [ none ↦ [] | some (_, parent) ↦ parent ])
        ≡ join_parts ps')
      × (all_confined ps' ≡ true)
parent-IsConfined [] h = ([], unfold join_parts in refl, refl)
parent-IsConfined (p ∷ ps) h = (
  reverse (drop_idle ps),
  refl,
  reverse-confined (drop_idle ps) (drop_idle-confined ps (ground arith)),
)

parent_of-IsConfined :
    (rel : Text)
    → all_normal (split b'/' rel) ≡ true
    → (ps : List Text) × (parent_of rel ≡ join_parts ps) × (all_confined ps ≡ true)
unfolding parent_of file_name_and_parent
parent_of-IsConfined rel h = parent-IsConfined (drop_idle (reverse (split b'/' rel))) (
    drop_idle-confined (reverse (split b'/' rel)) (
      reverse-confined (split b'/' rel)
        (normal-confined (split b'/' rel) (split-no_slashes rel) h)))

-- Where `target_dir_for` accepts a remote path, the directory is the root or below it: it is the
-- root, or the root and components that have no slash and are not `..`.
pub target_dir-IsConfined :
    (root path dir : Text)
    → target_dir root path ≡ some dir
    → (dir ≡ root)
      ⊎ ((ps : List Text) × (dir ≡ path_join root (join_parts ps)) × (all_confined ps ≡ true))
unfolding target_dir
target_dir-IsConfined root path dir h = elim (Bool-cases (all_normal (split b'/' rel))) [
  | inl n ↦
      let (ps, e, c) = parent_of-IsConfined rel n in
      elim (Bool-cases (same (parent_of rel) [])) [
        | inl s ↦ inl (ground arith)
        | inr s ↦ inr (ps, rw (sym e) (ground arith), c)
      ]
  | inr n ↦ absurd (ground arith)
]
  where
    rel : Text
    rel = trim_start_matches b'/' path
