-- ===== src/Ctrl/Lines.antt =====
-- Lines and words of a request, as core/src/local_ctrl.rs takes them apart.
use kio_protondrive.Base.{
  ℕ, ◌<◌, Text, split, split_once, trim, trim_start, is_space, [], ◌∷◌, ◌++◌, List, some, ◌≡◌, ◌≢◌,
  refl, ap, ◌∙◌, arith, Bool-cases, inl, inr, ◌==◌,
}
use mathlib.Core.List.{reverse, reverse-append, reverse-reverse}
use kio_protondrive.Ctrl.{crlf, drop_cr, lines_of, lines, word, skip_spaces, second_word}
use kio_protondrive.Ctrl.Percent.{AllPlain}

-- No byte is a space or a control byte.
abbrev pub AllVisible : Text → Type 0
AllVisible [] = Unit
AllVisible (b ∷ s) = (32 < b) × AllVisible s

-- No byte is a control byte.
abbrev pub AllPrinted : Text → Type 0
AllPrinted [] = Unit
AllPrinted (b ∷ s) = (31 < b) × AllPrinted s

pub AllPlain-AllVisible : (s : Text) → AllPlain s → AllVisible s
AllPlain-AllVisible [] _ = tt
AllPlain-AllVisible (b ∷ s) (p, ps) = (p.0, AllPlain-AllVisible s ps)

pub AllVisible-AllPrinted : (s : Text) → AllVisible s → AllPrinted s
AllVisible-AllPrinted [] _ = tt
AllVisible-AllPrinted (b ∷ s) (p, ps) = (omega arith, AllVisible-AllPrinted s ps)

pub AllVisible-append : (s t : Text) → AllVisible s → AllVisible t → AllVisible (s ++ t)
AllVisible-append [] t _ q = q
AllVisible-append (b ∷ s) t (p, ps) q = (p, AllVisible-append s t ps q)

pub AllPrinted-append : (s t : Text) → AllPrinted s → AllPrinted t → AllPrinted (s ++ t)
AllPrinted-append [] t _ q = q
AllPrinted-append (b ∷ s) t (p, ps) q = (p, AllPrinted-append s t ps q)

AllVisible-reverse : (s : Text) → AllVisible s → AllVisible (reverse s)
AllVisible-reverse [] _ = tt
AllVisible-reverse (b ∷ s) (p, ps) =
    rw (reverse-append (b ∷ []) s)
      (AllVisible-append (reverse s) (b ∷ []) (AllVisible-reverse s ps) (p, tt))

trim_start-AllVisible : (s : Text) → AllVisible s → trim_start s ≡ s
unfolding trim_start
trim_start-AllVisible [] _ = refl
trim_start-AllVisible (b ∷ s) (p, ps) = ground arith

trim_ends : (s : Text) → AllVisible s → reverse (trim_start (reverse s)) ≡ s
trim_ends s h =
    ap reverse (trim_start-AllVisible (reverse s) (AllVisible-reverse s h)) ∙ reverse-reverse s

pub trim-AllVisible : (s : Text) → AllVisible s → trim s ≡ s
unfolding trim
trim-AllVisible s h =
    ap (λ t. reverse (trim_start (reverse t))) (trim_start-AllVisible s h) ∙ trim_ends s h

-- The space behind the colon of a header goes.
pub trim-space : (s : Text) → AllVisible s → trim (32 ∷ s) ≡ s
unfolding trim
trim-space s h =
    ap (λ t. reverse (trim_start (reverse t))) (unfold trim_start in trim_start-AllVisible s h)
    ∙ trim_ends s h

drop_cr-append : (l : Text) → drop_cr (l ++ 13 ∷ []) ≡ l
drop_cr-append [] = refl
drop_cr-append (c ∷ []) = refl
drop_cr-append (c ∷ d ∷ s) = ap (λ t. c ∷ t) (drop_cr-append (d ∷ s))

lines_of-cons :
    (l m : Text) (ls : List Text) → lines_of (l ∷ m ∷ ls) ≡ drop_cr l ∷ lines_of (m ∷ ls)
unfolding lines_of
lines_of-cons [] m ls = refl
lines_of-cons (c ∷ l) m ls = refl

split-cons : (k : ℕ) (s : Text) → (p : Text) × (ps : List Text) × (split k s ≡ p ∷ ps)
unfolding split
split-cons k [] = ([], [], refl)
split-cons k (c ∷ s) =
    let (p, ps, h) = split-cons k s in
    elim (Bool-cases (c == k)) [
      | inl e ↦ ([], split k s, rw e refl)
      | inr e ↦ (c ∷ p, ps, rw e (rw h refl))
    ]

-- A printed text up to a line break.
split-break :
    (l rest : Text) → AllPrinted l → split 10 (l ++ (crlf ++ rest)) ≡ (l ++ 13 ∷ []) ∷ split 10 rest
unfolding split
split-break [] rest _ = refl
split-break (c ∷ l) rest (p, ps) = ground (arith, split-break l rest ps)

pub lines-break : (l rest : Text) → AllPrinted l → lines (l ++ (crlf ++ rest)) ≡ l ∷ lines rest
unfolding lines
lines-break l rest h =
    let (p, ps, e) = split-cons 10 rest in
    rw (split-break l rest h) (
      rw e (lines_of-cons (l ++ 13 ∷ []) p ps ∙ ap (λ t. t ∷ lines_of (p ∷ ps)) (drop_cr-append l)))

-- The split of a text at the first byte of a kind.
abbrev pub Lacks : ℕ → Text → Type 0
Lacks k [] = Unit
Lacks k (b ∷ s) = (b ≢ k) × Lacks k s

pub split_once-first : (k : ℕ) (s t : Text) → Lacks k s → split_once k (s ++ (k ∷ t)) ≡ some (s, t)
unfolding split_once
split_once-first k [] t _ = ground arith
split_once-first k (b ∷ s) t (p, ps) = ground (arith, split_once-first k s t ps)

pub split-Lacks : (k : ℕ) (s : Text) → Lacks k s → split k s ≡ s ∷ []
unfolding split
split-Lacks k [] _ = refl
split-Lacks k (b ∷ s) (p, ps) = ground (arith, split-Lacks k s ps)

AllPrinted-Lacks : (s : Text) → AllPrinted s → Lacks 10 s
AllPrinted-Lacks [] _ = tt
AllPrinted-Lacks (b ∷ s) (p, ps) = ((λ e. omega arith), AllPrinted-Lacks s ps)

-- A text without line breaks is one line.
pub lines-one : (c : ℕ) (l : Text) → AllPrinted (c ∷ l) → lines (c ∷ l) ≡ (c ∷ l) ∷ []
unfolding lines
lines-one c l h = rw (split-Lacks 10 (c ∷ l) (AllPrinted-Lacks (c ∷ l) h)) refl

pub word-AllVisible : (w rest : Text) → AllVisible w → word (w ++ (32 ∷ rest)) ≡ (w, 32 ∷ rest)
unfolding word is_space
word-AllVisible [] rest _ = refl
word-AllVisible (c ∷ w) rest (p, ps) = ground (arith, word-AllVisible w rest ps)

skip_spaces-visible : (c : ℕ) (s : Text) → 32 < c → skip_spaces (c ∷ s) ≡ c ∷ s
unfolding skip_spaces is_space
skip_spaces-visible c s h = ground arith

skip_space : (s : Text) → skip_spaces (32 ∷ s) ≡ skip_spaces s
unfolding skip_spaces is_space
skip_space s = refl

-- The second of three words.
pub second_word-three :
    (a c : ℕ) (v w rest : Text)
    → AllVisible (a ∷ v)
    → AllVisible (c ∷ w)
    → second_word ((a ∷ v) ++ (32 ∷ ((c ∷ w) ++ (32 ∷ rest)))) ≡ some (c ∷ w)
unfolding second_word
second_word-three a c v w rest h k =
    rw
      (
        skip_spaces-visible a (v ++ (32 ∷ ((c ∷ w) ++ (32 ∷ rest)))) h.0,
        word-AllVisible (a ∷ v) ((c ∷ w) ++ (32 ∷ rest)) h,
      )
      (rw
        (
          skip_space (c ∷ w ++ (32 ∷ rest)),
          skip_spaces-visible c (w ++ (32 ∷ rest)) k.0,
          word-AllVisible (c ∷ w) rest k,
        )
        (ground arith))
