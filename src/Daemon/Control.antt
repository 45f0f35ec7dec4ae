-- ===== src/Daemon/Control.antt =====
-- daemon/src/control.rs: the control server, and the client mode `pin` and `unpin`.
use kio_protondrive.Base.{
  Text, str, same, strip_prefix, trim_start_matches, contains, decimal, and_then, Bool, false, ◌||◌,
  [], ◌∷◌, ◌++◌, List, Option, none, some, Result, ok, err, pure, attempt, ◌>>=◌, ◌>>◌,
  if◌then◌else◌,
}
use kio_protondrive.Entry.{NodeEntry, unwrap_or}
use kio_protondrive.Outside.{Outside, DriveError}
use kio_protondrive.Store.{Op}
use kio_protondrive.Cli.Errors.{error_text}
use kio_protondrive.Cache.Pins.{pin, unpin}
use kio_protondrive.Ctrl.{
  constant_time_eq, extract_header, extract_query_param, request_path, json_escape,
  daemon_token_header, length, crlf,
}
use kio_protondrive.Update.{behind}
use kio_protondrive.OpenFolders.{touch}
use kio_protondrive.Bridge.Entries.{Places, open_cache}
use kio_protondrive.Bridge.Shares.{notify_overlay_changed}
use kio_protondrive.Daemon.Refresh.{revalidate_listing}
use kio_protondrive.Daemon.Notices.{Desktop, pin_started, pin_finished}
use kio_protondrive.Daemon.State.{Act, on_store}

abbrev pub missing_path : Text
missing_path = str "{\"ok\":false,\"error\":\"missing path\"}"

abbrev pub done_body : Text
done_body = str "{\"ok\":true}"

unfoldable pub error_body : DriveError → Text
unfolding error_text
error_body e = str "{\"ok\":false,\"error\":\"" ++ (json_escape (error_text e) ++ str "\"}")

unfoldable pub pinned_body : Text → Text
pinned_body local = str "{\"ok\":true,\"local_path\":\"" ++ (json_escape local ++ str "\"}")

abbrev pub is_force : Option Text → Bool
is_force none = false
is_force (some v) = same v (str "1") || same v (str "true")

unfoldable pub force_param : Text → Bool
unfolding extract_query_param
force_param req = is_force (extract_query_param req (str "force"))

abbrev pub failure : {A : Type 0} → Result A DriveError → Option Text
failure (ok _) = none
failure (err e) = some (error_text e)

unfoldable pub response : Text → Text → Text
unfolding length
response status body =
    str "HTTP/1.1 "
    ++ (status
        ++ (str "\r\nContent-Type: application/json\r\nContent-Length: "
            ++ (decimal (length body) ++ (str "\r\n\r\n" ++ body))))

abbrev pub is_token : Text → Option Text → Bool
is_token expected none = false
is_token expected (some t) = constant_time_eq t expected

-- `equal` is `==` of node lists.
module _ (o : Outside) (at : Places) (d : Desktop (o.World))
    (equal : List NodeEntry → List NodeEntry → Bool) where
  open o use {World}

  abbrev pub pin_answer : Text → Result Text DriveError → Op o Text
  pin_answer path (ok local) = notify_overlay_changed o path >>= λ _. pure (pinned_body local)
  pin_answer path (err e) = pure (error_body e)

  -- `route_pin` behind the parameter and the opened index.
  unfoldable pub pin_path : Text → Bool → Op o Text
  unfolding pin_started pin_finished notify_overlay_changed
  pin_path path force = do
    id ← pin_started o d path
    result ← attempt (pin o path force)
    pin_finished o d id path (failure result)
    pin_answer path result

  abbrev pub unpin_answer : Text → Result (Unit {0}) DriveError → Op o Text
  unpin_answer path (ok _) = notify_overlay_changed o path >>= λ _. pure done_body
  unpin_answer path (err e) = pure (error_body e)

  unfoldable pub unpin_path : Text → Bool → Op o Text
  unfolding notify_overlay_changed
  unpin_path path force = do result ← attempt (unpin o path force); unpin_answer path result

  -- A route answers with an error where the index cannot be opened.
  abbrev pub when_opened : Act o Text → Result (Unit {0}) DriveError → Act o Text
  when_opened m (ok _) = m
  when_opened m (err e) = pure (error_body e)

  unfoldable pub with_index : Act o Text → Act o Text
  unfolding open_cache
  with_index m = attempt (on_store o (open_cache o at)) >>= when_opened m

  unfoldable pub touch_folder : Text → Act o (Unit {0})
  unfolding touch
  touch_folder path r = (ok tt, record r { folders = touch path (d.awake r.store.world) r.folders })

  unfoldable pub revalidate : Text → Act o Bool
  unfolding revalidate_listing
  revalidate path r =
      let (result, last) =
        revalidate_listing o equal path (d.awake r.store.world) r.revalidated r.store in
      (result.0, record r { store = result.1; revalidated = last })

  unfoldable pub revalidate_path : Text → Act o Text
  revalidate_path path = do touch_folder path; attempt (revalidate path); pure done_body

  -- The routes, given `path` and `force`.
  abbrev pub with_path : (Text → Act o Text) → Option Text → Act o Text
  with_path f none = pure missing_path
  with_path f (some path) = f path

  unfoldable pub route_pin : Text → Act o Text
  unfolding with_index pin_path
  route_pin req =
      with_path (λ path. with_index (on_store o (pin_path path (force_param req))))
        (extract_query_param req (str "path"))

  unfoldable pub route_unpin : Text → Act o Text
  unfolding with_index unpin_path
  route_unpin req =
      with_path (λ path. with_index (on_store o (unpin_path path (force_param req))))
        (extract_query_param req (str "path"))

  unfoldable pub route_revalidate : Text → Act o Text
  unfolding with_index revalidate_path
  route_revalidate req =
      with_path (λ path. with_index (revalidate_path path)) (extract_query_param req (str "path"))

  -- The status and the body of an answer.
  unfoldable pub dispatch : Text → Text → Act o (Text × Text)
  dispatch route req =
      if same route (str "/pin")
      then (route_pin req >>= λ body. pure (str "200 OK", body))
      else if same route (str "/unpin")
      then (route_unpin req >>= λ body. pure (str "200 OK", body))
      else if same route (str "/revalidate")
      then (route_revalidate req >>= λ body. pure (str "200 OK", body))
      else pure (str "404 Not Found", str "{}")

  -- `handle_connection`, of the request that was read, up to the bytes that are written.
  unfoldable pub handle_request : Text → Text → Act o (Text × Text)
  handle_request expected_token req =
      if is_token expected_token (extract_header req daemon_token_header)
      then dispatch (request_path req) req
      else pure (str "403 Forbidden", [])

  unfoldable pub handle_connection : Text → Text → Act o Text
  unfolding handle_request response
  handle_connection expected_token req = do
    answer ← handle_request expected_token req
    pure (response answer.0 answer.1)

-- `run_client` takes the scheme off the URL, and one slash stands in front.
unfoldable pub client_path : Text → Text
client_path url =
    b'/' ∷ trim_start_matches b'/' (unwrap_or (strip_prefix url (str "protondrive:")) url)

abbrev pub judged : Text → Result (Unit {0}) Text
judged body = if contains body (str "\"ok\":true") then ok tt else err body

-- What the client makes of the response: the part behind the first empty line.
unfoldable pub read_response : Text → Result (Unit {0}) Text
unfolding behind
read_response text = judged (unwrap_or (behind (crlf ++ crlf) text) [])

-- `debug` is the form that `{:?}` gives a text.
abbrev pub client_route : (Text → Text) → Text → Result Text Text
client_route debug action =
    if same action (str "pin")
    then ok (str "/pin")
    else if same action (str "unpin")
    then ok (str "/unpin")
    else err (str "unknown action " ++ debug action)

-- `request` is `daemon_request` with the text that is read from its connection.
unfoldable pub run_client :
    (Text → Text) → (Text → Text → Result Text Text) → Text → Text → Result (Unit {0}) Text
unfolding client_path read_response
run_client debug request action url =
    and_then (client_route debug action)
      λ route. and_then (request route (client_path url)) read_response
