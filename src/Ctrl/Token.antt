-- ===== src/Ctrl/Token.antt =====
-- The comparison of tokens in core/src/local_ctrl.rs.
use Prim.Native.Nat.{bit_or, bit_xor}
use kio_protondrive.Base.{
  ℕ, zero, suc, ◌<◌, Text, ◌==◌, leb, Bool, true, false, ◌&&◌, [], ◌∷◌, ◌≡◌, refl, ◌↔◌, arith,
  Bool-cases, inl, inr,
}
use kio_protondrive.Ctrl.{xor_all, length, constant_time_eq}
use kio_protondrive.Ctrl.Percent.{IsBytes}

-- The test holds of each of the first bytes.
checked : (ℕ → Bool) → ℕ → Bool
checked test zero = true
checked test (suc k) = checked test k && test k

test-checked : (test : ℕ → Bool) (k byte : ℕ) → byte < k → checked test k ≡ true → test byte ≡ true
unfolding checked
test-checked test (suc k) byte below pass = ground (arith, test-checked test k byte)
test-checked test zero byte below pass = absurd (ground arith)

abbrev agrees : Bool → Bool → Bool
agrees true b = b
agrees false true = false
agrees false false = true

abbrev xor_fits : ℕ → ℕ → Bool
xor_fits x y = agrees (bit_xor x y == 0) (x == y) && leb (bit_xor x y) 255

abbrev or_fits : ℕ → ℕ → Bool
or_fits x y = agrees (bit_or x y == 0) (x == 0 && y == 0) && leb (bit_or x y) 255

-- A test of two bytes holds of all of them.
checked_pairs : (ℕ → ℕ → Bool) → Bool
checked_pairs test = checked (λ x. checked (test x) 256) 256

checked_xor : checked_pairs xor_fits ≡ true
unfolding checked_pairs checked
checked_xor = refl

checked_or : checked_pairs or_fits ≡ true
unfolding checked_pairs checked
checked_or = refl

test-checked_pairs :
    (test : ℕ → ℕ → Bool) (x y : ℕ)
    → x < 256
    → y < 256
    → checked_pairs test ≡ true
    → test x y ≡ true
unfolding checked_pairs
test-checked_pairs test x y hx hy pass =
    test-checked (test x) 256 y hy (test-checked (λ z. checked (test z) 256) 256 x hx pass)

xor_byte : (x y : ℕ) → x < 256 → y < 256 → ((bit_xor x y ≡ 0) ↔ (x ≡ y)) × (bit_xor x y < 256)
xor_byte x y hx hy = ground (arith, test-checked_pairs xor_fits x y hx hy checked_xor)

or_byte :
    (x y : ℕ) → x < 256 → y < 256 → ((bit_or x y ≡ 0) ↔ ((x ≡ 0) × (y ≡ 0))) × (bit_or x y < 256)
or_byte x y hx hy = ground (arith, test-checked_pairs or_fits x y hx hy checked_or)

-- The differences add up to nothing exactly where none was found.
xor_all-zero :
    (diff : ℕ) (a b : Text)
    → diff < 256
    → IsBytes a
    → IsBytes b
    → length a ≡ length b
    → (xor_all diff a b ≡ 0) ↔ ((diff ≡ 0) × (a ≡ b))
unfolding xor_all length
xor_all-zero diff [] [] hd _ _ e = (λ h. (h, refl), λ h. h.0)
xor_all-zero diff [] (y ∷ b) hd _ _ e = absurd (omega arith)
xor_all-zero diff (x ∷ a) [] hd _ _ e = absurd (omega arith)
xor_all-zero diff (x ∷ a) (y ∷ b) hd (hx, ha) (hy, hb) e =
    let (xor_iff, xor_lt) = xor_byte x y hx hy in
    let (or_iff, or_lt) = or_byte diff (bit_xor x y) hd xor_lt in
    let (to, from) = xor_all-zero (bit_or diff (bit_xor x y)) a b or_lt ha hb (omega arith) in
    (
      λ h. ground (arith, to h, or_iff.0 (to h).0, xor_iff.0 (or_iff.0 (to h).0).1),
      λ h. from (or_iff.1 (h.0, xor_iff.1 (ground arith)), ground arith),
    )

-- The comparison of tokens accepts exactly equal byte strings.
pub constant_time_eq_iff :
    (a b : Text) → IsBytes a → IsBytes b → (constant_time_eq a b ≡ true) ↔ (a ≡ b)
unfolding constant_time_eq
constant_time_eq_iff a b ha hb = elim (Bool-cases (length a == length b)) [
  | inl e ↦
      let (to, from) = xor_all-zero 0 a b (omega arith) ha hb (ground arith) in
      rw e (λ h. (to (ground arith)).1, λ h. ground (arith, from (refl, h)))
  | inr e ↦ rw e (λ h. cc, λ h. ground arith)
]
