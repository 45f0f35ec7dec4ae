-- ===== src/Ctrl.antt =====
-- core/src/local_ctrl.rs: the requests of the local control servers, as bytes.
pub mod Percent
pub mod Files
pub mod Lines
pub mod Requests
pub mod Long
pub mod Token
use Prim.Native.Nat.{bit_or, bit_xor}
use kio_protondrive.Base.{
  ℕ, zero, suc, ◌+◌, ◌-◌, ◌*◌, ◌/◌, ◌%◌, Text, str, same, leb, ltb, ◌==◌, split, split_once,
  starts_with, trim, Bool, true, false, ◌||◌, ◌&&◌, [], ◌∷◌, ◌++◌, List, Option, none, some,
  hex_byte, is_space, if◌then◌else◌,
}
use kio_protondrive.Entry.{is_alphanumeric, is_mark, and_then, unwrap_or}

unfoldable pub hex_value : ℕ → Option ℕ
hex_value b =
    if leb 48 b && leb b 57
    then some (b - 48)
    else if leb 97 b && leb b 102
    then some (b - 97 + 10)
    else if leb 65 b && leb b 70
    then some (b - 65 + 10)
    else none

-- `high << 4 | low` of two values below 16.
abbrev pub joined : Option ℕ → Option ℕ → Option ℕ
joined (some high) (some low) = some (16 * high + low)
joined _ _ = none

-- The byte that two bytes behind a `%` spell.
unfoldable pub escaped : ℕ → ℕ → Option ℕ
unfolding hex_value
escaped h l = joined (hex_value h) (hex_value l)

-- `percent_decode`, up to the vector of bytes that it makes.
unfoldable pub percent_decode : Text → Text
unfolding escaped
percent_decode [] = []
percent_decode (b ∷ []) = (if b == b'+' then 32 else b) ∷ []
percent_decode (b ∷ c ∷ []) = (if b == b'+' then 32 else b) ∷ (if c == b'+' then 32 else c) ∷ []
percent_decode (b ∷ h ∷ l ∷ s) =
    let plain = percent_decode (h ∷ l ∷ s) in
    let behind = percent_decode s in
    if b == b'+'
    then 32 ∷ plain
    else if b == b'%'
    then elim (escaped h l) [ some byte ↦ byte ∷ behind | none ↦ b ∷ plain ]
    else b ∷ plain

unfoldable pub encode_byte : ℕ → Text
unfolding is_alphanumeric is_mark hex_byte
encode_byte b = if is_alphanumeric b || is_mark b then b ∷ [] else b'%' ∷ hex_byte b

unfoldable pub percent_encode : Text → Text
unfolding encode_byte
percent_encode [] = []
percent_encode (b ∷ s) = encode_byte b ++ percent_encode s

hex_lower : ℕ → ℕ
hex_lower n = if ltb n 10 then 48 + n else 87 + n

-- A byte of a control token, `{b:02x}`.
unfoldable pub hex_byte_lower : ℕ → Text
unfolding hex_lower
hex_byte_lower b = hex_lower (b / 16) ∷ hex_lower (b % 16) ∷ []

-- `generate_ctrl_token`, of the bytes read from `/dev/urandom`.
unfoldable pub generate_ctrl_token : Text → Text
unfolding hex_byte_lower
generate_ctrl_token [] = []
generate_ctrl_token (b ∷ s) = hex_byte_lower b ++ generate_ctrl_token s

-- `\"`, `\\`, `\n`, `\r`, `\t`, `\u00xx`, or the byte.
unfoldable pub escape_json_byte : ℕ → Text
unfolding hex_byte_lower
escape_json_byte c =
    if c == 34
    then 92 ∷ 34 ∷ []
    else if c == 92
    then 92 ∷ 92 ∷ []
    else if c == 10
    then 92 ∷ b'n' ∷ []
    else if c == 13
    then 92 ∷ b'r' ∷ []
    else if c == 9
    then 92 ∷ b't' ∷ []
    else if ltb c 32
    then 92 ∷ b'u' ∷ 48 ∷ 48 ∷ hex_byte_lower c
    else c ∷ []

unfoldable pub json_escape : Text → Text
unfolding escape_json_byte
json_escape [] = []
json_escape (c ∷ s) = escape_json_byte c ++ json_escape s

-- `str::lines`: split at `\n`, a `\r` before it dropped, and no empty last line.
abbrev pub drop_cr : Text → Text
drop_cr [] = []
drop_cr (c ∷ []) = if c == 13 then [] else c ∷ []
drop_cr (c ∷ d ∷ s) = c ∷ drop_cr (d ∷ s)

unfoldable pub lines_of : List Text → List Text
lines_of [] = []
lines_of ([] ∷ []) = []
lines_of ((c ∷ l) ∷ []) = (c ∷ l) ∷ []
lines_of (l ∷ m ∷ ls) = drop_cr l ∷ lines_of (m ∷ ls)

unfoldable pub lines : Text → List Text
unfolding lines_of
lines s = lines_of (split 10 s)

-- `split_whitespace().nth(1)`: the words, with the word under way in front.
abbrev pub word_before : Bool → List Text → List Text
word_before true ws = ws
word_before false ws = [] ∷ ws

-- Bytes up to a space, and what is behind it.
unfoldable pub word : Text → Text × Text
unfolding is_space
word [] = ([], [])
word (c ∷ s) = let (w, rest) = word s in if is_space c then ([], c ∷ s) else (c ∷ w, rest)

unfoldable pub skip_spaces : Text → Text
unfolding is_space
skip_spaces [] = []
skip_spaces (c ∷ s) = if is_space c then skip_spaces s else c ∷ s

-- The second word of a line, if there is one.
unfoldable pub second_word : Text → Option Text
unfolding word skip_spaces
second_word line =
    let (w, _) = word (skip_spaces (word (skip_spaces line)).1) in
    if same w [] then none else some w

abbrev pub first_line : List Text → Option Text
first_line [] = none
first_line (l ∷ _) = some l

unfoldable pub find_value : Text → List Text → Option Text
find_value name [] = none
find_value name (pair ∷ rest) = elim (split_once b'=' pair) [
  | none ↦ find_value name rest
  | some (key, value) ↦ if same key name then some (percent_decode value) else find_value name rest
]

unfoldable pub extract_query_param : Text → Text → Option Text
unfolding lines second_word find_value percent_decode
extract_query_param req name = and_then (first_line (lines req)) λ line.
    and_then (second_word line)
      λ target. and_then (split_once b'?' target) λ p. find_value name (split b'&' p.1)

-- `str::to_ascii_lowercase`
unfoldable pub ascii_lower : Text → Text
ascii_lower [] = []
ascii_lower (c ∷ s) = (if leb 65 c && leb c 90 then c + 32 else c) ∷ ascii_lower s

unfoldable pub drop_length : Text → Text → Text
drop_length [] s = s
drop_length (_ ∷ p) [] = []
drop_length (_ ∷ p) (_ ∷ s) = drop_length p s

unfoldable pub find_header : Text → List Text → Option Text
unfolding ascii_lower drop_length
find_header prefix [] = none
find_header prefix (line ∷ rest) =
    if starts_with (ascii_lower line) prefix
    then some (trim (drop_length prefix line))
    else find_header prefix rest

unfoldable pub extract_header : Text → Text → Option Text
unfolding lines find_header
extract_header req header_name = find_header (header_name ++ b':' ∷ []) (lines req)

unfoldable pub request_path : Text → Text
unfolding lines second_word
request_path req =
    let target = unwrap_or (and_then (first_line (lines req)) second_word) [] in
    elim (split_once b'?' target) [ none ↦ target | some (path, _) ↦ path ]

-- `diff |= x ^ y` over two slices of one length.
unfoldable pub xor_all : ℕ → Text → Text → ℕ
xor_all diff [] _ = diff
xor_all diff (x ∷ a) [] = diff
xor_all diff (x ∷ a) (y ∷ b) = xor_all (bit_or diff (bit_xor x y)) a b

unfoldable pub length : Text → ℕ
length [] = 0
length (_ ∷ s) = length s + 1

unfoldable pub constant_time_eq : Text → Text → Bool
unfolding xor_all length
constant_time_eq a b = if length a == length b then xor_all 0 a b == 0 else false

unfoldable pub take : ℕ → Text → Text
take zero s = []
take (suc n) [] = []
take (suc n) (c ∷ s) = c ∷ take n s

-- `read_request`, of the bytes that the client has sent: one read into a buffer of 4 KiB. A read may
-- also give fewer bytes, or none where it fails.
unfoldable pub read_request : Text → Text
unfolding take
read_request sent = take 4096 sent

abbrev pub daemon_token_header : Text
daemon_token_header = str "x-kio-protondrive-daemon-token"

abbrev pub crlf : Text
crlf = 13 ∷ 10 ∷ []

-- What `daemon_request` writes, given the token of the token file.
unfoldable pub request_text : Text → Text → Text → Text
unfolding percent_encode
request_text route remote_path token =
    str "GET "
    ++ (route
        ++ (str "?path="
            ++ (percent_encode remote_path
                ++ (str " HTTP/1.1"
                    ++ (crlf
                        ++ (str "Host: 127.0.0.1"
                            ++ (crlf
                                ++ (daemon_token_header
                                    ++ (str ": "
                                        ++ (trim token
                                            ++ (crlf
                                                ++ (str "Connection: close"
                                                    ++ (crlf ++ crlf)))))))))))))
