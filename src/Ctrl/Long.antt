-- ===== src/Ctrl/Long.antt =====
-- A request that is longer than the buffer of `read_request` of core/src/local_ctrl.rs.
use kio_protondrive.Base.{
  ℕ, zero, suc, ◌≤◌, ◌+◌, Text, str, starts_with, trim, [], ◌∷◌, ◌++◌, none, ◌≡◌, refl, ap, arith,
}
use kio_protondrive.Ctrl.{
  request_text, extract_header, daemon_token_header, find_header, ascii_lower, percent_encode, take,
  length, read_request,
}
use kio_protondrive.Ctrl.Percent.{IsBytes, AllPlain}
use kio_protondrive.Ctrl.Lines.{AllPrinted, lines-one}
use kio_protondrive.Ctrl.Requests.{
  target, headers, request_line, request_line-AllPrinted, request_text-lines,
}

take-AllPrinted : (n : ℕ) (s t : Text) → AllPrinted s → n ≤ length s → AllPrinted (take n (s ++ t))
unfolding take length
take-AllPrinted zero s t h k = tt
take-AllPrinted (suc n) [] t h k = absurd (omega arith)
take-AllPrinted (suc n) (c ∷ s) t (p, ps) k = (p, take-AllPrinted n s t ps (omega arith))

length-append : (s t : Text) → length (s ++ t) ≡ length s + length t
unfolding length
length-append [] t = omega arith
length-append (c ∷ s) t = omega (arith, length-append s t)

-- What stands behind the first byte of the request line.
line_rest : Text → Text → Text
line_rest route path =
    str "ET " ++ ((route ++ (b'?' ∷ (str "path=" ++ percent_encode path))) ++ (32 ∷ str "HTTP/1.1"))

length-line_rest :
    (route path : Text) → length (percent_encode path) ≤ length (line_rest route path)
unfolding line_rest length str
length-line_rest route path = omega (
  arith,
  length-append (route ++ (b'?' ∷ (str "path=" ++ percent_encode path))) (32 ∷ str "HTTP/1.1"),
  length-append route (b'?' ∷ (str "path=" ++ percent_encode path)),
)

line_rest-AllPrinted :
    (route path : Text) → AllPlain route → IsBytes path → AllPrinted (line_rest route path)
unfolding request_line target line_rest str
line_rest-AllPrinted route path r h = (request_line-AllPrinted route path r h).1

-- One line that is no header.
no_header :
    (n : ℕ) (s t : Text)
    → AllPrinted s
    → n ≤ length s
    → extract_header (take (suc n) ((b'G' ∷ s) ++ t)) daemon_token_header ≡ none
unfolding extract_header take find_header ascii_lower starts_with str
no_header n s t h k =
    rw (lines-one b'G' (take n (s ++ t)) (omega arith, take-AllPrinted n s t h k)) refl

-- Where the encoded path alone fills the buffer, the server sees no token.
pub extract_header-read_request :
    (route path token : Text)
    → AllPlain route
    → IsBytes path
    → 4096 ≤ length (percent_encode path)
    → extract_header (read_request (request_text route path token)) daemon_token_header ≡ none
unfolding read_request request_line target line_rest str
extract_header-read_request route path token r h k = rw (request_text-lines route path token) (
    no_header 4095 (line_rest route path) (headers (trim token))
      (line_rest-AllPrinted route path r h) (omega (arith, length-line_rest route path)))

take-all : (n : ℕ) (s : Text) → length s ≤ n → take n s ≡ s
unfolding take length
take-all zero [] h = refl
take-all zero (c ∷ s) h = absurd (omega arith)
take-all (suc n) [] h = refl
take-all (suc n) (c ∷ s) h = ap (λ t. c ∷ t) (take-all n s (omega arith))

-- A request that fits the buffer is read whole.
pub read_request-short : (req : Text) → length req ≤ 4096 → read_request req ≡ req
unfolding read_request
read_request-short req h = take-all 4096 req h
