-- ===== src/Ctrl/Requests.antt =====
-- A request that `daemon_request` of core/src/local_ctrl.rs writes, as the server reads it.
use kio_protondrive.Base.{
  ℕ, Text, str, trim, split, split_once, starts_with, [], ◌∷◌, ◌++◌, List, none, some, ◌≡◌, ◌≢◌,
  refl, ap, ◌∙◌, arith, append_assoc,
}
use kio_protondrive.Ctrl.{
  crlf, lines, lines_of, percent_decode, percent_encode, request_text, request_path,
  extract_query_param, extract_header, daemon_token_header, second_word, find_value, find_header,
  ascii_lower, drop_length,
}
use kio_protondrive.Ctrl.Percent.{
  IsBytes, AllPlain, IsPlain, percent_decode-encode, percent_encode-AllPlain,
}
use kio_protondrive.Ctrl.Lines.{
  AllVisible, AllPrinted, AllPlain-AllVisible, AllVisible-AllPrinted, AllVisible-append,
  AllPrinted-append, trim-AllVisible, trim-space, lines-break, second_word-three, Lacks,
  split_once-first, split-Lacks,
}

-- What stands between the spaces of the request line.
unfoldable pub target : Text → Text → Text
target route path = route ++ (b'?' ∷ (str "path=" ++ percent_encode path))

unfoldable pub request_line : Text → Text → Text
request_line route path = str "GET" ++ (32 ∷ (target route path ++ (32 ∷ str "HTTP/1.1")))

pub token_line : Text → Text
token_line token = daemon_token_header ++ (b':' ∷ 32 ∷ token)

-- The lines behind the request line.
abbrev pub headers : Text → Text
headers token =
    crlf
    ++ (str "Host: 127.0.0.1"
        ++ (crlf ++ (token_line token ++ (crlf ++ (str "Connection: close" ++ (crlf ++ crlf))))))

pub request_text-lines :
    (route path token : Text)
    → request_text route path token ≡ request_line route path ++ headers (trim token)
unfolding request_text request_line target token_line str
request_text-lines route path token = simp append_assoc

AllPlain-Lacks : (k : ℕ) (s : Text) → ((b : ℕ) → IsPlain b → b ≢ k) → AllPlain s → Lacks k s
AllPlain-Lacks k [] f _ = tt
AllPlain-Lacks k (b ∷ s) f (p, ps) = (f b p, AllPlain-Lacks k s f ps)

Lacks-append : (k : ℕ) (s t : Text) → Lacks k s → Lacks k t → Lacks k (s ++ t)
Lacks-append k [] t _ q = q
Lacks-append k (b ∷ s) t (p, ps) q = (p, Lacks-append k s t ps q)

target-AllVisible :
    (route path : Text) → AllPlain route → IsBytes path → AllVisible (target route path)
unfolding target str
target-AllVisible route path r h =
    AllVisible-append route (b'?' ∷ (str "path=" ++ percent_encode path))
      (AllPlain-AllVisible route r)
      (AllVisible-append (str "?path=") (percent_encode path) (omega arith)
        (AllPlain-AllVisible (percent_encode path) (percent_encode-AllPlain path h)))

pub request_line-AllPrinted :
    (route path : Text) → AllPlain route → IsBytes path → AllPrinted (request_line route path)
unfolding request_line str
request_line-AllPrinted route path r h =
    AllPrinted-append (str "GET ") (target route path ++ (32 ∷ str "HTTP/1.1")) (omega arith) (
      AllPrinted-append (target route path) (32 ∷ str "HTTP/1.1")
        (AllVisible-AllPrinted (target route path) (target-AllVisible route path r h))
        (omega arith))

token_line-AllPrinted : (token : Text) → AllVisible token → AllPrinted (token_line token)
unfolding token_line str
token_line-AllPrinted token h =
    AllPrinted-append (daemon_token_header ++ (b':' ∷ 32 ∷ [])) token (omega arith)
      (AllVisible-AllPrinted token h)

-- The server sees five lines.
lines-request_text :
    (route path token : Text)
    → AllPlain route
    → IsBytes path
    → AllVisible token
    → lines (request_text route path token)
      ≡ request_line route path
        ∷ str "Host: 127.0.0.1"
        ∷ token_line token
        ∷ str "Connection: close"
        ∷ []
        ∷ []
lines-request_text route path token r h t =
    rw
      (
        request_text-lines route path token,
        trim-AllVisible token t,
        lines-break (request_line route path)
            (str "Host: 127.0.0.1"
              ++ (crlf
                  ++ (token_line token ++ (crlf ++ (str "Connection: close" ++ (crlf ++ crlf))))))
            (request_line-AllPrinted route path r h),
        lines-break (str "Host: 127.0.0.1")
            (token_line token ++ (crlf ++ (str "Connection: close" ++ (crlf ++ crlf))))
            (unfold str in omega arith),
        lines-break (token_line token) (str "Connection: close" ++ (crlf ++ crlf))
            (token_line-AllPrinted token t),
        lines-break (str "Connection: close") crlf (unfold str in omega arith),
      )
      (unfold lines lines_of split in refl)

second_word-visible :
    (w : Text)
    → AllVisible w
    → w ≢ []
    → second_word (str "GET" ++ (32 ∷ (w ++ (32 ∷ str "HTTP/1.1")))) ≡ some w
unfolding str
second_word-visible [] h n = absurd (n refl)
second_word-visible (c ∷ w) h n =
    second_word-three b'G' c (b'E' ∷ b'T' ∷ []) w (str "HTTP/1.1") (omega arith) h

target-ne-nil : (route path : Text) → target route path ≢ []
unfolding target
target-ne-nil [] path e = cc
target-ne-nil (c ∷ s) path e = cc

target_lem :
    (route path : Text)
    → AllPlain route
    → IsBytes path
    → second_word (request_line route path) ≡ some (target route path)
unfolding request_line
target_lem route path r h =
    second_word-visible (target route path) (target-AllVisible route path r h)
      (target-ne-nil route path)

abbrev pub IsRequest : Text → Text → Text → Type 0
IsRequest route path token = AllPlain route × IsBytes path × AllVisible token

target-split :
    (route path : Text)
    → AllPlain route
    → split_once b'?' (target route path) ≡ some (route, str "path=" ++ percent_encode path)
unfolding target
target-split route path r =
    split_once-first b'?' route (str "path=" ++ percent_encode path)
      (AllPlain-Lacks b'?' route (λ b p. p.3) r)

find_value-pair :
    (name value : Text)
    → Lacks b'=' name
    → find_value name ((name ++ (b'=' ∷ value)) ∷ []) ≡ some (percent_decode value)
unfolding find_value
find_value-pair name value h = ground (arith, split_once-first b'=' name value h)

query-split :
    (path : Text)
    → IsBytes path
    → split b'&' (str "path=" ++ percent_encode path)
      ≡ (str "path" ++ (b'=' ∷ percent_encode path)) ∷ []
unfolding str
query-split path h = split-Lacks b'&' (str "path=" ++ percent_encode path) (
    Lacks-append b'&' (str "path=") (percent_encode path) (omega arith)
      (AllPlain-Lacks b'&' (percent_encode path) (λ b p. p.1) (percent_encode-AllPlain path h)))

find-path :
    (path : Text)
    → IsBytes path
    → find_value (str "path") (split b'&' (str "path=" ++ percent_encode path)) ≡ some path
find-path path h = rw (query-split path h) (
    find_value-pair (str "path") (percent_encode path) (unfold str in omega arith)
    ∙ ap some (percent_decode-encode path h))

find-token :
    (route path token : Text) (rest : List Text)
    → AllVisible token
    → find_header
        (daemon_token_header ++ b':' ∷ [])
        (request_line route path ∷ str "Host: 127.0.0.1" ∷ token_line token ∷ rest)
      ≡ some token
unfolding find_header request_line token_line ascii_lower drop_length starts_with str
find-token route path token rest h = ap some (trim-space token h)

find_value-other :
    (path name : Text)
    → IsBytes path
    → str "path" ≢ name
    → find_value name (split b'&' (str "path=" ++ percent_encode path)) ≡ none
find_value-other path name h n = rw (query-split path h) (
    unfold find_value in
    ground
      (arith, split_once-first b'=' (str "path") (percent_encode path) (unfold str in omega arith)))

pub request_path-request_text :
    (route path token : Text)
    → IsRequest route path token
    → request_path (request_text route path token) ≡ route
unfolding request_path
request_path-request_text route path token (r, h, t) =
    rw
      (
        lines-request_text route path token r h t,
        target_lem route path r h,
        target-split route path r,
        request_path,
      )
      refl

pub extract_query_param-request_text :
    (route path token : Text)
    → IsRequest route path token
    → extract_query_param (request_text route path token) (str "path") ≡ some path
unfolding extract_query_param
extract_query_param-request_text route path token (r, h, t) =
    rw
      (
        lines-request_text route path token r h t,
        target_lem route path r h,
        target-split route path r,
      )
      (find-path path h)

-- `daemon_request` sends no other parameter.
pub extract_query_param-none :
    (route path token name : Text)
    → IsRequest route path token
    → str "path" ≢ name
    → extract_query_param (request_text route path token) name ≡ none
unfolding extract_query_param
extract_query_param-none route path token name (r, h, t) n =
    rw
      (
        lines-request_text route path token r h t,
        target_lem route path r h,
        target-split route path r,
      )
      (find_value-other path name h n)

pub extract_header-request_text :
    (route path token : Text)
    → IsRequest route path token
    → extract_header (request_text route path token) daemon_token_header ≡ some token
unfolding extract_header
extract_header-request_text route path token (r, h, t) =
    rw (lines-request_text route path token r h t)
      (find-token route path token (str "Connection: close" ∷ [] ∷ []) t)
