-- ===== src/Daemon/Requests.antt =====
-- The requests of core/src/local_ctrl.rs, served by daemon/src/control.rs.
use kio_protondrive.Base.{
  ◌≤◌, Text, str, [], List, Bool, true, false, Option, none, some, ok, pure, ◌>>=◌, ◌≡◌, ◌≢◌, refl,
  arith, text_dec, Bool-cases, inl, inr,
}
use kio_protondrive.Entry.{NodeEntry}
use kio_protondrive.Outside.{Outside}
use kio_protondrive.Ctrl.{
  request_text, extract_header, extract_query_param, daemon_token_header, constant_time_eq, length,
  percent_encode, read_request,
}
use kio_protondrive.Ctrl.Percent.{IsBytes, AllPlain}
use kio_protondrive.Ctrl.Lines.{AllVisible}
use kio_protondrive.Ctrl.Token.{constant_time_eq_iff}
use kio_protondrive.Ctrl.Requests.{
  IsRequest, extract_query_param-none, request_path-request_text, extract_query_param-request_text,
  extract_header-request_text,
}
use kio_protondrive.Ctrl.Long.{read_request-short, extract_header-read_request}
use kio_protondrive.Bridge.Entries.{Places}
use kio_protondrive.Daemon.Notices.{Desktop}
use kio_protondrive.Daemon.State.{Running, Act, on_store}
use kio_protondrive.Daemon.Control.{
  route_pin, route_unpin, route_revalidate, force_param, with_index, pin_path, unpin_path,
  revalidate_path, handle_request, is_token, dispatch,
}

other_token :
    (expected : Text) (header : Option Text)
    → IsBytes expected
    → ((t : Text) → header ≡ some t → IsBytes t × (t ≢ expected))
    → is_token expected header ≡ false
other_token expected none h other = refl
other_token expected (some t) h other = elim (Bool-cases (constant_time_eq t expected)) [
  | inl e ↦
      let (bytes, differ) = other t refl in
      absurd (differ ((constant_time_eq_iff t expected bytes h).0 e))
  | inr e ↦ e
]

same_token : (token : Text) → IsBytes token → is_token token (some token) ≡ true
same_token token h = (constant_time_eq_iff token token h h).1 refl

-- The three requests that clients send, and the route of each.
pub data Call : Type 0 where
  pin_call unpin_call revalidate_call : Call

unfoldable pub route_of : Call → Text
route_of pin_call = str "/pin"
route_of unpin_call = str "/unpin"
route_of revalidate_call = str "/revalidate"

route_of-AllPlain : (c : Call) → AllPlain (route_of c)
unfolding route_of str
route_of-AllPlain pin_call = omega arith
route_of-AllPlain unpin_call = omega arith
route_of-AllPlain revalidate_call = omega arith

module _ (o : Outside) (at : Places) (d : Desktop (o.World))
    (equal : List NodeEntry → List NodeEntry → Bool) where
  -- A request whose token is missing or is another one is refused, and changes nothing.
  pub handle_request_refuses :
      (expected req : Text) (r : Running (o.World))
      → IsBytes expected
      → ((t : Text) → extract_header req daemon_token_header ≡ some t → IsBytes t × (t ≢ expected))
      → handle_request o at d equal expected req r ≡ (ok (str "403 Forbidden", []), r)
  unfolding handle_request
  handle_request_refuses expected req r h other =
      rw (other_token expected (extract_header req daemon_token_header) h other) refl

  unforced :
      (route path token : Text)
      → IsRequest route path token
      → force_param (request_text route path token) ≡ false
  unfolding force_param
  unforced route path token sent =
      rw (extract_query_param-none route path token (str "force") sent (unfold str in λ e. cc)) refl

  -- What a call asks for: the action itself, unforced.
  pub perform : Call → Text → Act o Text
  perform pin_call path = with_index o at d equal (on_store o (pin_path o at d equal path false))
  perform unpin_call path =
      with_index o at d equal (on_store o (unpin_path o at d equal path false))
  perform revalidate_call path = with_index o at d equal (revalidate_path o at d equal path)

  dispatch-route_of :
      (c : Call) (path req : Text)
      → extract_query_param req (str "path") ≡ some path
      → force_param req ≡ false
      → dispatch o at d equal (route_of c) req
        ≡ (perform c path >>= λ body. pure (str "200 OK", body))
  unfolding dispatch route_of perform route_pin route_unpin route_revalidate text_dec str
  dispatch-route_of pin_call path req p f = rw (p, f) refl
  dispatch-route_of unpin_call path req p f = rw (p, f) refl
  dispatch-route_of revalidate_call path req p f = rw p refl

  -- A request that a client writes, with the token of the server, and that fits the buffer of the
  -- server, is answered by the unforced action that its route names on the path that it is given,
  -- whatever bytes the path has.
  pub handle_request-request_text :
      (c : Call) (path token : Text) (r : Running (o.World))
      → IsBytes path
      → IsBytes token
      → AllVisible token
      → length (request_text (route_of c) path token) ≤ 4096
      → handle_request o at d equal token (read_request (request_text (route_of c) path token)) r
        ≡ (perform c path >>= λ body. pure (str "200 OK", body)) r
  unfolding handle_request
  handle_request-request_text c path token r h b v k =
      let sent : IsRequest (route_of c) path token = (route_of-AllPlain c, h, v) in
      rw
        (
          read_request-short (request_text (route_of c) path token) k,
          extract_header-request_text (route_of c) path token sent,
          same_token token b,
          request_path-request_text (route_of c) path token sent,
          dispatch-route_of c path (request_text (route_of c) path token)
              (extract_query_param-request_text (route_of c) path token sent)
              (unforced (route_of c) path token sent),
        )
        refl

  -- A request of a client whose encoded path alone has 4,096 bytes or more is refused, although its
  -- token is the one of the server, and changes nothing.
  pub handle_request_long :
      (c : Call) (path token : Text) (r : Running (o.World))
      → IsBytes path
      → 4096 ≤ length (percent_encode path)
      → handle_request o at d equal token (read_request (request_text (route_of c) path token)) r
        ≡ (ok (str "403 Forbidden", []), r)
  unfolding handle_request
  handle_request_long c path token r h k =
      rw (extract_header-read_request (route_of c) path token (route_of-AllPlain c) h k) refl
