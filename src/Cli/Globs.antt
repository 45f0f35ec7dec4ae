-- ===== src/Cli/Globs.antt =====
-- The glob metacharacters of an uploaded path.
use kio_protondrive.Base.{◌≡◌, refl, arith, ℕ, Text, ◌==◌, ◌||◌, [], ◌∷◌, ◌++◌, if◌then◌else◌}
use kio_protondrive.Cli.Commands.{replace, escape_glob_metacharacters}

-- One byte, with a backslash in front of `[`, `]`, `{` and `}`.
abbrev pub escape_byte : ℕ → Text
escape_byte c = if c == 91 || (c == 93 || (c == 123 || c == 125)) then 92 ∷ c ∷ [] else c ∷ []

abbrev pub escape_each : Text → Text
escape_each [] = []
escape_each (c ∷ s) = escape_byte c ++ escape_each s

-- The four replacements, one after the other, put a backslash in front of each metacharacter once.
pub escape_glob_metacharacters_lem :
    (path : Text) → escape_glob_metacharacters path ≡ escape_each path
unfolding escape_glob_metacharacters replace
escape_glob_metacharacters_lem [] = refl
escape_glob_metacharacters_lem (c ∷ s) = ground (arith, escape_glob_metacharacters_lem s)
