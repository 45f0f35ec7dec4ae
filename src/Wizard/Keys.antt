-- ===== src/Wizard/Keys.antt =====
-- wizard/src/main.rs: the key that `pass` is set up with. `which`, `gpg`, `pass` and the name of the user
-- are parameters.
use kio_protondrive.Base.{
  ℕ, zero, suc, Text, str, same, split, starts_with, trim, ltb, leb, ◌==◌, Bool, false, not, ◌&&◌,
  ◌||◌, [], ◌∷◌, ◌++◌, List, Option, none, some, Result, ok, err, if◌then◌else◌,
}
use kio_protondrive.Ctrl.{extract_query_param, json_escape, lines}
use kio_protondrive.Update.Install.{Exit}

-- `value.chars().any(char::is_control)` on UTF-8: below 0x20, 0x7F, and U+0080 to U+009F, whose bytes
-- are 0xC2 and one from 0x80 to 0x9F.
unfoldable pub has_control : Text → Bool
has_control [] = false
has_control (c ∷ []) = ltb c 32 || c == 127
has_control (c ∷ e ∷ s) =
    (ltb c 32 || (c == 127 || (c == 0xC2 && (leb 0x80 e && leb e 0x9F)))) || has_control (e ∷ s)

unfoldable pub is_batch_safe : Text → Bool
unfolding has_control
is_batch_safe value = not (has_control value)

unfoldable pub has_byte : ℕ → Text → Bool
has_byte k [] = false
has_byte k (c ∷ s) = c == k || has_byte k s

unfoldable pub is_valid_key_email : Text → Bool
unfolding is_batch_safe has_byte
is_valid_key_email email = has_byte b'@' email && is_batch_safe email

-- The batch that `generate_gpg_key` hands to `gpg --batch --gen-key` on its input.
unfoldable pub gpg_batch : Text → Text → Text
gpg_batch name email =
    str "%echo Generating a GPG key for kio-protondrive\n"
    ++ (str "Key-Type: eddsa\n"
        ++ (str "Key-Curve: ed25519\n"
            ++ (str "Subkey-Type: ecdh\n"
                ++ (str "Subkey-Curve: cv25519\n"
                    ++ ((str "Name-Real: " ++ name)
                        ++ (10
                            ∷ ((str "Name-Email: " ++ email)
                                ++ (10
                                    ∷ (str "Expire-Date: 2y\n"
                                        ++ (str "%commit\n" ++ str "%echo done\n"))))))))))

abbrev pub nth : ℕ → List Text → Option Text
nth n [] = none
nth zero (x ∷ xs) = some x
nth (suc n) (x ∷ xs) = nth n xs

-- The tenth field of the first line of fingerprints.
unfoldable pub fingerprint : List Text → Option Text
fingerprint [] = none
fingerprint (l ∷ ls) = if starts_with l (str "fpr:") then nth 9 (split b':' l) else fingerprint ls

unfoldable pub first_secret_key : List Text → Option Text
unfolding fingerprint
first_secret_key [] = none
first_secret_key (l ∷ ls) =
    if starts_with l (str "sec:") then fingerprint ls else first_secret_key ls

abbrev pub key_in : Result Exit Text → Option Text
key_in (err _) = none
key_in (ok e) = if e.success then first_secret_key (lines e.stdout) else none

-- `code` is the exit status as a number, -1 where a signal ended the process.
pub record Tools (World : Type 0) : Type 0 where
  pub which : Text → World → Bool
  pub user : Option Text
  pub list_secret_keys : World → Result Exit Text × World
  pub generate : Text → World → Result (Unit {0}) Text × World
  pub pass_init : Text → World → Result Exit Text × World

abbrev pub error_body : Text → Text
error_body message = str "{\"ok\":false,\"error\":\"" ++ (message ++ str "\"}")

abbrev pub pass_body : Result Exit Text → Text
pass_body (err m) = error_body (json_escape m)
pass_body (ok e) =
    if e.success then str "{\"ok\":true}" else error_body (str "pass init exited with " ++ e.status)

abbrev pub usable_name : Option Text → Text
usable_name none = str "Proton Drive"
usable_name (some n) = if is_batch_safe n && not (same (trim n) []) then n else str "Proton Drive"

abbrev pub valid_email : Option Text → Option Text
valid_email none = none
valid_email (some e) = if is_valid_key_email e then some e else none

module _ {World : Type 0} (t : Tools World) where
  -- `existing_secret_key_id`
  unfoldable pub existing_secret_key_id : World → Option Text × World
  existing_secret_key_id w = let (r, w') = t.list_secret_keys w in (key_in r, w')

  abbrev pub init : Text → World → Text × World
  init key w = let (r, w') = t.pass_init key w in (pass_body r, w')

  abbrev pub init_generated : Option Text × World → Text × World
  init_generated (none, w) = (error_body (str "gpg key generation did not produce a usable key"), w)
  init_generated (some key, w) = init key w

  abbrev pub after_generation : Result (Unit {0}) Text × World → Text × World
  after_generation (err m, w) = (error_body (json_escape m), w)
  after_generation (ok _, w) = init_generated (existing_secret_key_id w)

  abbrev pub with_key : Text → Option Text × World → Text × World
  with_key email (some key, w) = init key w
  with_key email (none, w) = after_generation (t.generate (gpg_batch (usable_name t.user) email) w)

  abbrev pub set_up_for : Option Text → World → Text × World
  set_up_for none w = (error_body (str "a valid email is required"), w)
  set_up_for (some email) w = with_key email (existing_secret_key_id w)

  unfoldable pub route_setup_pass : Text → World → Text × World
  unfolding extract_query_param existing_secret_key_id
  route_setup_pass req w =
      if t.which (str "pass") w && t.which (str "gpg") w
      then set_up_for (valid_email (extract_query_param req (str "email"))) w
      else (error_body (str "pass or gpg is not installed"), w)
