-- ===== src/Update/Order.antt =====
-- The order of versions in core/src/cli_update.rs.
use kio_protondrive.Base.{
  ℕ, Text, true, [], ◌∷◌, List, some, ◌≡◌, ◌⊎◌, inl, inr, refl, arith, ap, ◌<◌, ◌++◌, ◌↔◌,
}
use mathlib.Core.Path.{ap₂}
use kio_protondrive.Update.{greater, both_greater, parts, is_newer}

is_newer-parts :
    (u v : Text) {a b : List ℕ} → parts u ≡ some a → parts v ≡ some b → is_newer u v ≡ greater a b
unfolding is_newer
is_newer-parts u v p q = ap₂ both_greater p q

-- Behind a common front, one list of numbers goes on with a larger number, or goes on where the other
-- ends.
abbrev pub IsAbove : List ℕ → List ℕ → Type 0
IsAbove a b =
    (front : List ℕ) × (((x : ℕ) × (y : ℕ) × (c : List ℕ) × (e : List ℕ) × (a ≡ front ++ x ∷ c)
        × (b ≡ front ++ y ∷ e)
        × (y < x))
      ⊎ ((x : ℕ) × (c : List ℕ) × (a ≡ front ++ x ∷ c) × (b ≡ front)))

IsAbove-cons : (x : ℕ) (a b : List ℕ) → IsAbove a b → IsAbove (x ∷ a) (x ∷ b)
IsAbove-cons x a b (front, inl (u, v, c, e, p, q, l)) =
    (x ∷ front, inl (u, v, c, e, ap (λ r. x ∷ r) p, ap (λ r. x ∷ r) q, l))
IsAbove-cons x a b (front, inr (u, c, p, q)) =
    (x ∷ front, inr (u, c, ap (λ r. x ∷ r) p, ap (λ r. x ∷ r) q))

first_greater :
    (x y : ℕ) (a b : List ℕ)
    → greater (x ∷ a) (y ∷ b) ≡ true
    → (y < x) ⊎ ((x ≡ y) × (greater a b ≡ true))
unfolding greater
first_greater x y a b h = ground arith

greater-IsAbove : (a b : List ℕ) → greater a b ≡ true → IsAbove a b
unfolding greater
greater-IsAbove [] b h = absurd (cc)
greater-IsAbove (x ∷ a) [] h = ([], inr (x, a, refl, refl))
greater-IsAbove (x ∷ a) (y ∷ b) h = elim (first_greater x y a b h) [
  | inl l ↦ ([], inl (x, y, a, b, refl, refl, l))
  | inr (e, k) ↦ rw e (IsAbove-cons y a b (greater-IsAbove a b k))
]

front-greater : (front a b : List ℕ) → greater a b ≡ true → greater (front ++ a) (front ++ b) ≡ true
unfolding greater
front-greater [] a b h = h
front-greater (x ∷ front) a b h = ground (arith, front-greater front a b h)

longer-greater : (front : List ℕ) (x : ℕ) (c : List ℕ) → greater (front ++ x ∷ c) front ≡ true
unfolding greater
longer-greater [] x c = refl
longer-greater (y ∷ front) x c = ground (arith, longer-greater front x c)

IsAbove-greater : (a b : List ℕ) → IsAbove a b → greater a b ≡ true
unfolding greater
IsAbove-greater a b (front, inl (x, y, c, e, p, q, l)) =
    rw (p, q) (front-greater front (x ∷ c) (y ∷ e) (ground arith))
IsAbove-greater a b (front, inr (x, c, p, q)) = rw (p, q) (longer-greater front x c)

-- Of two versions that parse, the first is newer exactly if behind a common front it has the larger
-- number, or numbers where the other one ends.
pub is_newer_iff :
    (u v : Text) {a b : List ℕ}
    → parts u ≡ some a
    → parts v ≡ some b
    → (is_newer u v ≡ true) ↔ IsAbove a b
is_newer_iff u v {a} {b} p q =
    rw (is_newer-parts u v p q) (greater-IsAbove a b, IsAbove-greater a b)
