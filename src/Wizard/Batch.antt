-- ===== src/Wizard/Batch.antt =====
-- The batch for gpg of wizard/src/main.rs, as gpg reads its lines.
use kio_protondrive.Base.{Text, str, split, true, false, [], ◌∷◌, ◌++◌, ◌≡◌, refl, arith}
use kio_protondrive.Ctrl.Lines.{Lacks}
use kio_protondrive.Wizard.Keys.{has_control, is_batch_safe, gpg_batch}

has_control-Lacks : (s : Text) → has_control s ≡ false → Lacks 10 s
unfolding has_control
has_control-Lacks [] h = tt
has_control-Lacks (c ∷ []) h = ((λ e. ground arith), tt)
has_control-Lacks (c ∷ e ∷ s) h = ((λ p. ground arith), has_control-Lacks (e ∷ s) (ground arith))

split-line : (s rest : Text) → Lacks 10 s → split 10 (s ++ (10 ∷ rest)) ≡ s ∷ split 10 rest
unfolding split
split-line [] rest _ = refl
split-line (c ∷ s) rest (p, ps) = ground (arith, split-line s rest ps)

abbrev last_lines : Text
last_lines = str "Expire-Date: 2y\n" ++ (str "%commit\n" ++ str "%echo done\n")

-- With a name and an address that hold no control character, the batch has the lines that are written
-- in the program and no other: none of the two adds a directive.
pub split-gpg_batch :
    (name email : Text)
    → is_batch_safe name ≡ true
    → is_batch_safe email ≡ true
    → split 10 (gpg_batch name email)
      ≡ str "%echo Generating a GPG key for kio-protondrive"
        ∷ str "Key-Type: eddsa"
        ∷ str "Key-Curve: ed25519"
        ∷ str "Subkey-Type: ecdh"
        ∷ str "Subkey-Curve: cv25519"
        ∷ (str "Name-Real: " ++ name)
        ∷ (str "Name-Email: " ++ email)
        ∷ str "Expire-Date: 2y"
        ∷ str "%commit"
        ∷ str "%echo done"
        ∷ []
        ∷ []
unfolding gpg_batch is_batch_safe split str
split-gpg_batch name email h k =
    rw
      (split-line name (str "Name-Email: " ++ (email ++ (10 ∷ last_lines)))
        (has_control-Lacks name (ground arith)))
      (rw (split-line email last_lines (has_control-Lacks email (ground arith))) refl)
