-- ===== src/Cache/Client.antt =====
-- Runs of calls on the pins of core/src/cache.rs, by Cache/Spec.antt's description alone.
use mathlib.Core.Path.{subst}
use kio_protondrive.Base.{
  ℕ, Text, same, Bool, false, Option, none, some, List, [], ◌∷◌, Result, ok, err, not, ◌||◌, ◌==◌,
  ◌≡◌, refl, ◌∙◌, ap, arith, ◌⊎◌, inl, inr,
}
use kio_protondrive.Outside.{DriveError}
use kio_protondrive.Store.{Pin}
use kio_protondrive.Cache.Pins.{differs_from}
use kio_protondrive.Cache.Under.{IsAtOrBelow, Cleared}
use kio_protondrive.Cache.Spec.{
  PinMap, Seen, Call, Answer, Does, Succeeds, Fails, PinIndex, changed, synced, pin, unpin,
  unpin_tree, rename, mark_synced, lookup, lookup_by_local_path, needs_upload,
}

happly : (m m' : PinMap) → m' ≡ m → (k : Text) → m' k ≡ m k
happly m m' e k = ap (λ (f : PinMap). f k) e

-- Calls that do not concern a path.
abbrev pub Avoids : Text → Call → Type 0
Avoids k (pin path _) = same path k ≡ false
Avoids k (unpin path _) = same path k ≡ false
Avoids k (unpin_tree path _) = ¬ IsAtOrBelow path k
Avoids k (rename old new _) = (same old k ≡ false) × (same new k ≡ false)
Avoids k (mark_synced path _ _) = same path k ≡ false
Avoids k (lookup _) = Unit
Avoids k (lookup_by_local_path _) = Unit
Avoids k (needs_upload _ _ _) = Unit

abbrev pub AllAvoid : Text → List Call → Type 0
AllAvoid k [] = Unit
AllAvoid k (c ∷ cs) = Avoids k c × AllAvoid k cs

outside_tree :
    (path k : Text) (before after : Option Pin)
    → ¬ IsAtOrBelow path k
    → Cleared path k before after
    → after ≡ before
outside_tree path k before after n (inl (u, e)) = absurd (n u)
outside_tree path k before after n (inr (_, e)) = e

outside_failed_tree :
    (path k : Text) (before after : Option Pin)
    → ¬ IsAtOrBelow path k
    → (after ≡ before) ⊎ (IsAtOrBelow path k × (after ≡ none))
    → after ≡ before
outside_failed_tree path k before after n (inl e) = e
outside_failed_tree path k before after n (inr (u, e)) = absurd (n u)

Succeeds-at :
    (k : Text) (c : Call) (a : Answer c) (seen : Seen) (m m' : PinMap)
    → Avoids k c
    → Succeeds c a seen m m'
    → m' k ≡ m k
Succeeds-at k (pin path _) a seen m m' h (_, _, _, e) = happly _ m' e k ∙ ground arith
Succeeds-at k (unpin path _) a seen m m' h e = happly _ m' e k ∙ ground arith
Succeeds-at k (unpin_tree path _) a seen m m' h e = outside_tree path k (m k) (m' k) h (e k)
Succeeds-at k (rename old new _) a seen m m' h e = happly _ m' e k ∙ ground arith
Succeeds-at k (mark_synced path _ _) a seen m m' h (_, e) = happly _ m' e k ∙ ground arith
Succeeds-at k (lookup _) a seen m m' h (_, e) = happly _ m' e k
Succeeds-at k (lookup_by_local_path _) a seen m m' h (_, e) = happly _ m' e k
Succeeds-at k (needs_upload _ _ _) a seen m m' h (_, e) = happly _ m' e k

Fails-at : (k : Text) (c : Call) (m m' : PinMap) → Avoids k c → Fails c m m' → m' k ≡ m k
Fails-at k (pin _ _) m m' h e = happly _ m' e k
Fails-at k (unpin _ _) m m' h e = happly _ m' e k
Fails-at k (unpin_tree path _) m m' h e = outside_failed_tree path k (m k) (m' k) h (e k)
Fails-at k (rename _ _ _) m m' h e = happly _ m' e k
Fails-at k (mark_synced _ _ _) m m' h e = happly _ m' e k
Fails-at k (lookup _) m m' h e = happly _ m' e k
Fails-at k (lookup_by_local_path _) m m' h e = happly _ m' e k
Fails-at k (needs_upload _ _ _) m m' h e = happly _ m' e k

pub Does-at :
    (k : Text) (c : Call) (r : Result (Answer c) DriveError) (seen : Seen) (m m' : PinMap)
    → Avoids k c
    → Does c r seen m m'
    → m' k ≡ m k
Does-at k c (ok a) seen m m' h d = Succeeds-at k c a seen m m' h d
Does-at k c (err _) seen m m' h d = Fails-at k c m m' h d

-- Whether a synced row differs from a file.
abbrev pub edited : Option Pin → ℕ → ℕ → ℕ → ℕ → Bool
edited none m n mtime size = false
edited (some _) m n mtime size = not (m == mtime) || not (n == size)

changed-at : (k : Text) (v : Option Pin) (m : PinMap) → changed k v m k ≡ v
changed-at k v m = ground arith

differs_from-synced :
    (m n t mtime size : ℕ) (r : Option Pin)
    → differs_from (synced m n t r) mtime size ≡ edited r m n mtime size
differs_from-synced m n t mtime size none = refl
differs_from-synced m n t mtime size (some p) = refl

asked-synced :
    (k : Text) (m n mtime size : ℕ) (f g h h' : PinMap) (a : Unit {0}) (b : Bool) (v w : Seen)
    → Does (mark_synced k m n) (ok a) v f g
    → h k ≡ g k
    → Does (needs_upload k mtime size) (ok b) w h h'
    → b ≡ edited (f k) m n mtime size
asked-synced k m n mtime size f g h h' a b v w (t, e) same_row (e', _) =
    e'
    ∙ ap (λ r. differs_from r mtime size) (same_row ∙ happly _ g e k ∙ changed-at k _ f)
    ∙ differs_from-synced m n t mtime size (f k)

module _ (ix : PinIndex) where
  open ix use {State, pins, seen, perform, does}

  -- The state after calls one after the other, whether they succeed or not.
  abbrev pub after : List Call → State → State
  after [] s = s
  after (c ∷ cs) s = after cs (perform c s).1

  pub after-untouched :
      (k : Text) (cs : List Call) (s : State) → AllAvoid k cs → pins (after cs s) k ≡ pins s k
  after-untouched k [] s h = refl
  after-untouched k (c ∷ cs) s (h, hs) =
      after-untouched k cs (perform c s).1 hs
      ∙ Does-at k c (perform c s).0 (seen (perform c s).1) (pins s) _ h (does c s)

  -- Of a path that was marked as synced, whatever was called for other paths since, `needs_upload`
  -- tells just whether the file differs from what was marked.
  pub after_synced :
      (k : Text) (m n mtime size : ℕ) (cs : List Call) (s : State) (b : Bool)
      → AllAvoid k cs
      → (perform (mark_synced k m n) s).0 ≡ ok tt
      → (perform (needs_upload k mtime size) (after cs (perform (mark_synced k m n) s).1)).0 ≡ ok b
      → b ≡ edited (pins s k) m n mtime size
  after_synced k m n mtime size cs s b h e e' =
      let marked = (perform (mark_synced k m n) s).1 in
      let later = after cs marked in
      let asked = (perform (needs_upload k mtime size) later).1 in
      asked-synced k m n mtime size (pins s) (pins marked) (pins later) (pins asked) tt b
        (seen marked) (seen asked)
        (subst (λ r. Does (mark_synced k m n) r (seen marked) (pins s) (pins marked)) e
          (does (mark_synced k m n) s))
        (after-untouched k cs marked h)
        (subst (λ r. Does (needs_upload k mtime size) r (seen asked) (pins later) (pins asked)) e'
          (does (needs_upload k mtime size) later))
