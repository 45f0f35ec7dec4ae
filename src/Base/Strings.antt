-- ===== src/Base/Strings.antt =====
-- Rust strings as lists of bytes, the operations of `str` that the program calls, and `==`.
use Prim.Native.Nat.{ℕ, ◌+◌, ◌/◌, ◌%◌}
use Prim.Native.Char.{code}
use Prim.Native.String.{String}
use mathlib.Core.Path.{◌≡◌}
use mathlib.Core.Logic.{◌↔◌, ite, dite}
use mathlib.Core.Bool.{Bool, true, false, not, ◌&&◌, ◌||◌, Bool-discrete}
use mathlib.Core.Option.{Option, none, some}
use mathlib.Core.List.{List, [], ◌∷◌, reverse}
use native.Mathlib.Omega.{arith}
use kio_protondrive.Base.Tests.{ltb, leb, ◌==◌, if◌then◌else◌}

-- The bytes of a string in UTF-8.
abbrev pub Text : Type 0
Text = List ℕ

-- The UTF-8 bytes of a code point, in front of others.
pub utf8_onto : ℕ → Text → Text
utf8_onto c s =
    if ltb c 0x80
    then c ∷ s
    else if ltb c 0x800
    then (0xC0 + c / 64) ∷ (0x80 + c % 64) ∷ s
    else if ltb c 0x10000
    then (0xE0 + c / 4096) ∷ (0x80 + (c / 64) % 64) ∷ (0x80 + c % 64) ∷ s
    else (0xF0 + c / 262144)
      ∷ (0x80 + (c / 4096) % 64)
      ∷ (0x80 + (c / 64) % 64)
      ∷ (0x80 + c % 64)
      ∷ s

-- A literal of the source.
unfoldable pub str : String → Text
unfolding utf8_onto
str String.[] = []
str (String.◌∷◌ c s) = utf8_onto (code c) (str s)

pub same_bytes : Text → Text → Bool
same_bytes [] [] = true
same_bytes (a ∷ s) (b ∷ t) = a == b && same_bytes s t
same_bytes _ _ = false

pub same_bytes_iff : (s t : Text) → (same_bytes s t ≡ true) ↔ (s ≡ t)
unfolding same_bytes
same_bytes_iff [] [] = ground arith
same_bytes_iff [] (b ∷ t) = ground arith
same_bytes_iff (a ∷ s) [] = ground arith
same_bytes_iff (a ∷ s) (b ∷ t) = ground (arith, same_bytes_iff s t)

-- Shut in proofs, where a split on `same s t` gives the equation or its negation.
unfoldable pub text_dec : Discrete Text
unfolding same_bytes
text_dec s t =
    dite (Bool-discrete (same_bytes s t) true) (λ h. yes ((same_bytes_iff s t).0 h))
      (λ h. no (λ e. h ((same_bytes_iff s t).1 e)))

-- `==` of strings and paths.
abbrev pub same : Text → Text → Bool
same s t = ite (text_dec s t) true false

-- `str::starts_with`
unfoldable pub starts_with : Text → Text → Bool
starts_with s [] = true
starts_with [] (p ∷ ps) = false
starts_with (c ∷ s) (p ∷ ps) = c == p && starts_with s ps

-- `str::strip_prefix`
unfoldable pub strip_prefix : Text → Text → Option Text
strip_prefix s [] = some s
strip_prefix [] (p ∷ ps) = none
strip_prefix (c ∷ s) (p ∷ ps) = if c == p then strip_prefix s ps else none

-- `str::contains`
unfoldable pub contains : Text → Text → Bool
unfolding starts_with
contains [] p = starts_with [] p
contains (c ∷ s) p = starts_with (c ∷ s) p || contains s p

-- `str::trim_start_matches(c)`
unfoldable pub trim_start_matches : ℕ → Text → Text
trim_start_matches k [] = []
trim_start_matches k (c ∷ s) = if c == k then trim_start_matches k s else c ∷ s

-- A byte in front of a suffix that has been trimmed: `k` goes if nothing is left behind it.
abbrev pub unless_bare : ℕ → ℕ → Text → Text
unless_bare k c [] = if c == k then [] else c ∷ []
unless_bare k c (d ∷ r) = c ∷ d ∷ r

-- `str::trim_end_matches(c)`
unfoldable pub trim_end_matches : ℕ → Text → Text
trim_end_matches k [] = []
trim_end_matches k (c ∷ s) = unless_bare k c (trim_end_matches k s)

-- `str::ends_with(c)`
unfoldable pub ends_with : ℕ → Text → Bool
ends_with k [] = false
ends_with k (c ∷ []) = c == k
ends_with k (c ∷ d ∷ s) = ends_with k (d ∷ s)

abbrev pub push_front : ℕ → Text × Text → Text × Text
push_front c (a, b) = (c ∷ a, b)

-- `str::split_once(c)`
unfoldable pub split_once : ℕ → Text → Option (Text × Text)
split_once k [] = none
split_once k (c ∷ s) =
    let rest = split_once k s in
    if c == k then some ([], s) else elim rest [ none ↦ none | some p ↦ some (push_front c p) ]

-- `str::rsplit_once(c)`
unfoldable pub rsplit_once : ℕ → Text → Option (Text × Text)
rsplit_once k [] = none
rsplit_once k (c ∷ s) = elim (rsplit_once k s) [
  | some p ↦ some (push_front c p)
  | none ↦ if c == k then some ([], s) else none
]

abbrev pub onto_first : ℕ → List Text → List Text
onto_first c [] = (c ∷ []) ∷ []
onto_first c (p ∷ ps) = (c ∷ p) ∷ ps

-- `str::split(c)`
unfoldable pub split : ℕ → Text → List Text
split k [] = [] ∷ []
split k (c ∷ s) = let parts = split k s in if c == k then [] ∷ parts else onto_first c parts

-- ASCII whitespace, of the characters that `char::is_whitespace` accepts.
unfoldable pub is_space : ℕ → Bool
is_space c = c == 32 || (leb 9 c && leb c 13)

unfoldable pub trim_start : Text → Text
unfolding is_space
trim_start [] = []
trim_start (c ∷ s) = if is_space c then trim_start s else c ∷ s

-- `str::trim`
unfoldable pub trim : Text → Text
unfolding trim_start
trim s = reverse (trim_start (reverse (trim_start s)))

lower_byte : ℕ → ℕ
lower_byte c = if leb 65 c && leb c 90 then c + 32 else c

-- `str::to_lowercase` on ASCII and on the capitals of Latin-1, whose bytes are 0xC3 and one from 0x80
-- to 0x9E.
unfoldable pub to_lowercase : Text → Text
unfolding lower_byte
to_lowercase [] = []
to_lowercase (c ∷ []) = lower_byte c ∷ []
to_lowercase (c ∷ d ∷ s) =
    let latin =
      0xC3 ∷ (if leb 0x80 d && leb d 0x9E && not (d == 0x97) then d + 32 else d) ∷ to_lowercase s in
    let plain = lower_byte c ∷ to_lowercase (d ∷ s) in if c == 0xC3 then latin else plain
