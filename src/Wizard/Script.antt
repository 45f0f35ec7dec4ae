-- ===== src/Wizard/Script.antt =====
-- The session script of wizard/src/main.rs, as a shell reads it.
use kio_protondrive.Base.{
  ℕ, Text, str, strip_prefix, Bool, true, false, [], ◌∷◌, ◌++◌, ◌==◌, Option, none, some, ◌≡◌, refl,
  append_assoc, arith, Bool-cases, inl, inr, if◌then◌else◌,
}
use kio_protondrive.Cli.Commands.{replace}
use kio_protondrive.Wizard.Settings.{quoted, plasma_script}
use kio_protondrive.Entry.{and_then}

-- Where the reader of a word of `sh` stands.
pub data Mode : Type 0 where
  bare inside escape : Mode

abbrev pub push : ℕ → Option Text → Option Text
push c none = none
push c (some s) = some (c ∷ s)

-- The value of a word up to the end of its line, as `sh` reads it: a single quote opens and closes a
-- literal part, and a backslash outside of one takes the next byte as it is. Any other byte outside of
-- the quotes, which might have a meaning to the shell, is refused.
unfoldable pub sh_word : Mode → Text → Option Text
sh_word bare [] = some []
sh_word inside [] = none
sh_word escape [] = none
sh_word bare (c ∷ s) =
    let opened = sh_word inside s in
    let escaped = sh_word escape s in
    if c == 39 then opened else if c == 92 then escaped else if c == 10 then some [] else none
sh_word inside (c ∷ s) =
    let closed = sh_word bare s in
    let rest = push c (sh_word inside s) in if c == 39 then closed else rest
sh_word escape (c ∷ s) = push c (sh_word bare s)

sh_word-replace :
    (s : Text) → sh_word inside (replace 39 (39 ∷ 92 ∷ 39 ∷ 39 ∷ []) s ++ (39 ∷ 10 ∷ [])) ≡ some s
unfolding sh_word replace
sh_word-replace [] = refl
sh_word-replace (c ∷ s) = elim (Bool-cases (c == 39)) [
  | inl e ↦ rw e (rw (sh_word-replace s) (ground arith))
  | inr e ↦ rw e (rw (e, sh_word-replace s) refl)
]

-- The word that a store is quoted to is read as the store.
pub sh_word-quoted : (store : Text) → sh_word bare (quoted store ++ 10 ∷ []) ≡ some store
unfolding quoted sh_word
sh_word-quoted store =
    rw (append_assoc (replace 39 (39 ∷ 92 ∷ 39 ∷ 39 ∷ []) store) (39 ∷ []) (10 ∷ []))
      (sh_word-replace store)

-- What `sh` exports under a name by a script of comments and one export behind them: a line that begins
-- with `#` is passed over, and any other must be the export.
unfoldable pub exported : Text → Bool → Text → Option Text
exported name in_comment [] = none
exported name true (c ∷ s) = elim (c == 10) [
  | true ↦ exported name false s
  | false ↦ exported name true s
]
exported name false (c ∷ s) = elim (c == 35) [
  | true ↦ exported name true s
  | false ↦ and_then (strip_prefix (c ∷ s) (str "export " ++ (name ++ str "="))) (sh_word bare)
]

-- The script of the next session exports the store, as a shell reads it, in the variable that the CLI
-- reads, whatever bytes the store has.
pub exported-plasma_script :
    (store : Text)
    → exported (str "PROTON_DRIVE_CREDENTIALS_STORE") false (plasma_script store) ≡ some store
unfolding exported plasma_script str strip_prefix
exported-plasma_script store = sh_word-quoted store
