-- ===== src/Ctrl/Percent.antt =====
-- The percent escapes of core/src/local_ctrl.rs.
use kio_protondrive.Base.{
  ℕ, ◌/◌, ◌%◌, ◌<◌, Text, ◌||◌, [], ◌∷◌, ◌++◌, some, ◌≡◌, refl, ◌≢◌, arith, ap, hex_digit, hex_byte,
  Bool-cases, inl, inr,
}
use kio_protondrive.Entry.{is_alphanumeric, is_mark}
use kio_protondrive.Entry
use kio_protondrive.Ctrl.{hex_value, escaped, percent_decode, encode_byte, percent_encode}

-- Every element of a text is a byte.
abbrev pub IsBytes : Text → Type 0
IsBytes [] = Unit
IsBytes (b ∷ s) = (b < 256) × IsBytes s

hex_value-digit : (n : ℕ) → n < 16 → hex_value (hex_digit n) ≡ some n
unfolding hex_value hex_digit
hex_value-digit n h = ground arith

escaped-hex_byte : (b : ℕ) → b < 256 → escaped (hex_digit (b / 16)) (hex_digit (b % 16)) ≡ some b
unfolding escaped
escaped-hex_byte b h =
    rw (hex_value-digit (b / 16) (omega arith), hex_value-digit (b % 16) (omega arith))
      (ap some (omega arith))

decode-escape :
    (b : ℕ) (s : Text) → b < 256 → percent_decode (b'%' ∷ (hex_byte b ++ s)) ≡ b ∷ percent_decode s
unfolding percent_decode hex_byte
decode-escape b s h = rw (escaped-hex_byte b h)

-- A byte that is not `+` or `%` stands for itself.
decode-plain :
    (b : ℕ) (s : Text) → b ≢ b'+' → b ≢ b'%' → percent_decode (b ∷ s) ≡ b ∷ percent_decode s
unfolding percent_decode
decode-plain b [] p q = ground arith
decode-plain b (c ∷ []) p q = ground arith
decode-plain b (c ∷ d ∷ s) p q = ground arith

decode-encode_byte :
    (b : ℕ) (s : Text) → b < 256 → percent_decode (encode_byte b ++ s) ≡ b ∷ percent_decode s
unfolding encode_byte
decode-encode_byte b s h = elim (Bool-cases (is_alphanumeric b || is_mark b)) [
  | inl e ↦ rw e (decode-plain b s (λ p. ground arith) (λ p. ground arith))
  | inr e ↦ rw e (decode-escape b s h)
]

-- Decoding gives back what was encoded, for any bytes.
pub percent_decode-encode : (s : Text) → IsBytes s → percent_decode (percent_encode s) ≡ s
unfolding percent_encode
percent_decode-encode [] _ = unfold percent_decode in refl
percent_decode-encode (b ∷ s) (h, hs) =
    rw (decode-encode_byte b (percent_encode s) h, percent_decode-encode s hs) refl

-- The bytes that a request line, its query string or a header line gives a meaning to.
abbrev pub IsPlain : ℕ → Type 0
IsPlain b = (32 < b) × (b ≢ b'&') × (b ≢ b'=') × (b ≢ b'?') × (b ≢ b'+')

abbrev pub AllPlain : Text → Type 0
AllPlain [] = Unit
AllPlain (b ∷ s) = IsPlain b × AllPlain s

hex_digit-IsPlain : (n : ℕ) → n < 16 → IsPlain (hex_digit n)
unfolding hex_digit
hex_digit-IsPlain n h = ground arith

AllPlain-append : (s t : Text) → AllPlain s → AllPlain t → AllPlain (s ++ t)
AllPlain-append [] t _ q = q
AllPlain-append (b ∷ s) t (p, ps) q = (p, AllPlain-append s t ps q)

encode_byte-AllPlain : (b : ℕ) → b < 256 → AllPlain (encode_byte b)
unfolding encode_byte
encode_byte-AllPlain b h = elim (Bool-cases (is_alphanumeric b || is_mark b)) [
  | inl e ↦ rw e (ground arith)
  | inr e ↦ rw e (
    omega arith,
    (hex_digit-IsPlain (b / 16) (omega arith), (hex_digit-IsPlain (b % 16) (omega arith), tt)),
  )
]

-- An encoded path holds no space, no control byte and no separator of a query string.
pub percent_encode-AllPlain : (s : Text) → IsBytes s → AllPlain (percent_encode s)
unfolding percent_encode
percent_encode-AllPlain [] _ = tt
percent_encode-AllPlain (b ∷ s) (h, hs) =
    AllPlain-append (encode_byte b) (percent_encode s) (encode_byte-AllPlain b h)
      (percent_encode-AllPlain s hs)

-- The encoder of `web_url` and the one of the control servers write the same text.
pub percent_encode-eq : (s : Text) → Entry.percent_encode s ≡ percent_encode s
unfolding percent_encode Entry.percent_encode
percent_encode-eq [] = refl
percent_encode-eq (b ∷ s) = ap (λ t. encode_byte b ++ t) (percent_encode-eq s)
