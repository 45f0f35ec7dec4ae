-- ===== src/Daemon/Notices.antt =====
-- daemon/src/notification.rs: the arguments of each desktop notification. The catalogue of messages
-- (`gettext`), and the output of `notify-send`, are parameters.
use kio_protondrive.Base.{
  ℕ, Text, str, same, trim, rsplit_once, [], ◌∷◌, ◌++◌, List, Option, none, some, Result, ok, err,
  if◌then◌else◌,
}
use kio_protondrive.Outside.{Outside, CommandOutput}
use kio_protondrive.Store.{Op, outside}

-- What the daemon alone calls. `awake` is `Instant::now`, in seconds.
pub record Desktop (World : Type 0) : Type 0 where
  pub gettext : Text → Text
  pub notify_send : List Text → World → Result CommandOutput Text × World
  pub awake : World → ℕ

abbrev pub last_segment : Text → Option (Text × Text) → Text
last_segment path none = path
last_segment path (some (_, name)) = if same name [] then path else name

-- The last path segment, or the whole path where that is empty.
unfoldable pub display_name : Text → Text
display_name remote_path = last_segment remote_path (rsplit_once b'/' remote_path)

-- Summary and body stand behind `--`.
unfoldable pub notice : List Text → Text → Text → List Text
notice options summary body =
    str "--app-name=Proton Drive" ∷ (options ++ (str "--" ∷ summary ∷ body ∷ []))

abbrev pub urgency : Text → Text
urgency level = str "--urgency=" ++ level

abbrev pub replaced : Option Text → List Text → List Text
replaced none rest = rest
replaced (some id) rest = (str "--replace-id=" ++ id) ∷ rest

module _ {World : Type 0} (d : Desktop World) where
  open d use {gettext}

  unfoldable pub auth_required : List Text
  unfolding notice
  auth_required =
      notice (urgency (str "critical") ∷ []) (gettext (str "Proton Drive: authentication required"))
        (gettext (
          str
            "Run \"proton-drive auth login\" in a terminal, then Proton Drive sync will resume automatically."))

  unfoldable pub cli_update_available : Text → Text → List Text
  unfolding notice
  cli_update_available latest installed =
      notice (urgency (str "normal") ∷ []) (gettext (str "Proton Drive: CLI update available")) (
        gettext (str "A newer version of the Proton Drive CLI is available:")
        ++ (str " "
            ++ (latest
                ++ (str ". "
                    ++ (gettext (str "You have") ++ (str " " ++ (installed ++ str ".")))))))

  unfoldable pub cli_unsupported : Text → Text → List Text
  unfolding notice
  cli_unsupported installed minimum =
      notice (urgency (str "critical") ∷ []) (gettext (str "Proton Drive: CLI update required")) (
        gettext (str "This version of the Proton Drive CLI is no longer supported:")
        ++ (str " "
            ++ (installed
                ++ (str ". "
                    ++ (gettext (str "Minimum version:") ++ (str " " ++ (minimum ++ str ".")))))))

  unfoldable pub pin_started_args : Text → List Text
  unfolding notice display_name
  pin_started_args remote_path =
      notice (urgency (str "low") ∷ str "--expire-time=0" ∷ str "--print-id" ∷ [])
        (display_name remote_path) (gettext (str "Downloading to keep available offline…"))

  abbrev pub urgency_of : Option Text → List Text
  urgency_of none = urgency (str "low") ∷ str "--expire-time=5000" ∷ []
  urgency_of (some _) = urgency (str "critical") ∷ str "--expire-time=0" ∷ []

  abbrev pub body_of : Option Text → Text
  body_of none = gettext (str "Now available offline.")
  body_of (some error) = gettext (str "Could not keep available offline:") ++ (str " " ++ error)

  unfoldable pub pin_finished_args : Option Text → Text → Option Text → List Text
  unfolding notice display_name
  pin_finished_args id remote_path error =
      notice (replaced id (urgency_of error)) (display_name remote_path) (body_of error)

-- The id that `--print-id` gives, if it gives one.
abbrev pub printed_id : Result CommandOutput Text → Option Text
printed_id (err _) = none
printed_id (ok out) =
    if out.success
    then (if same (trim out.stdout) [] then none else some (trim out.stdout))
    else none

module _ (o : Outside) (d : Desktop (o.World)) where
  -- `notify-send`, whose outcome nothing depends on.
  abbrev pub send : List Text → Op o (Unit {0})
  send args = outside o (λ w. (ok tt, (d.notify_send args w).1))

  unfoldable pub pin_started : Text → Op o (Option Text)
  unfolding outside pin_started_args
  pin_started remote_path = outside o (λ w.
      let (r, w') = d.notify_send (pin_started_args d remote_path) w in (ok (printed_id r), w'))

  unfoldable pub pin_finished : Option Text → Text → Option Text → Op o (Unit {0})
  unfolding outside pin_finished_args
  pin_finished id remote_path error = send (pin_finished_args d id remote_path error)
