-- ===== src/Cache/Spec.antt =====
-- What the pins of core/src/cache.rs promise, without tables and statements: a function from remote
-- paths to pins, and each call as a change to it. The order of the rows is forgotten.

use kio_protondrive.Base.{
  ℕ, Text, same, Bool, true, false, Option, none, some, Result, ok, err, ◌≡◌, ◌⊎◌, if◌then◌else◌,
}
use kio_protondrive.Outside.{DriveError, Metadata, Io, done}
use kio_protondrive.Store.{Pin}
use kio_protondrive.Cache.Pins.{differs_from, local_path_of, is_some}
use kio_protondrive.Cache.Under.{IsAtOrBelow, Cleared}

-- The files behind a call.
pub record Seen : Type 0 where
  pub is_file : Text → Bool
  pub metadata : Text → Io Metadata

abbrev pub there : Seen → Option Text → Option Text
there seen none = none
there seen (some p) = if seen.is_file p then some p else none

abbrev pub PinMap : Type 0
PinMap = Text → Option Pin

-- The map with another value at one path.
abbrev pub changed : Text → Option Pin → PinMap → PinMap
changed path v m k = if same path k then v else m k

-- The calls on pins.
pub data Call : Type 0 where
  pin : Text → Bool → Call
  unpin : Text → Bool → Call
  unpin_tree : Text → Bool → Call
  rename : Text → Text → Text → Call
  mark_synced : Text → ℕ → ℕ → Call
  lookup : Text → Call
  lookup_by_local_path : Text → Call
  needs_upload : Text → ℕ → ℕ → Call

-- What a call gives where it succeeds.
abbrev pub Answer : Call → Type 0
Answer (pin _ _) = Text
Answer (unpin _ _) = Unit
Answer (unpin_tree _ _) = Unit
Answer (rename _ _ _) = Unit
Answer (mark_synced _ _ _) = Unit
Answer (lookup _) = Option Text
Answer (lookup_by_local_path _) = Option Text
Answer (needs_upload _ _ _) = Bool

abbrev pub row : Text → Metadata → ℕ → Pin
row local m t = record {
  local_path = local;
  local_mtime = m.mtime;
  local_size = m.len;
  last_synced_at = t;
}

abbrev pub synced : ℕ → ℕ → ℕ → Option Pin → Option Pin
synced mtime size t none = none
synced mtime size t (some p) =
    some (record p { local_mtime = mtime; local_size = size; last_synced_at = t })

abbrev pub moved : Text → Option Pin → Option Pin
moved local none = none
moved local (some p) = some (record p { local_path = local })

abbrev pub rekeyed : Text → Text → Text → PinMap → PinMap
rekeyed old new local m =
    if is_some (m old) then changed new (moved local (m old)) (changed old none m) else m

-- The local path stands in the pin of the remote path that was found, or in none.
abbrev pub FoundBy : Text → Option Text → PinMap → Type 0
FoundBy local none m = (k : Text) (p : Pin) → m k ≡ some p → same p.local_path local ≡ false
FoundBy local (some remote) m = (p : Pin) × (m remote ≡ some p) × (same p.local_path local ≡ true)

-- What a successful call does to the map, and what its answer says.
abbrev pub Succeeds : (c : Call) → Answer c → Seen → PinMap → PinMap → Type 0
Succeeds (pin path _) local seen m m' =
    (f : Metadata) × (t : ℕ) × (seen.metadata local ≡ done f)
    × (m' ≡ changed path (some (row local f t)) m)
Succeeds (unpin path _) _ seen m m' = m' ≡ changed path none m
Succeeds (unpin_tree path _) _ seen m m' = (k : Text) → Cleared path k (m k) (m' k)
Succeeds (rename old new local) _ seen m m' = m' ≡ rekeyed old new local m
Succeeds (mark_synced path mtime size) _ seen m m' =
    (t : ℕ) × (m' ≡ changed path (synced mtime size t (m path)) m)
Succeeds (lookup path) a seen m m' = (a ≡ there seen (local_path_of (m path))) × (m' ≡ m)
Succeeds (lookup_by_local_path local) a seen m m' = FoundBy local a m × (m' ≡ m)
Succeeds (needs_upload path mtime size) a seen m m' =
    (a ≡ differs_from (m path) mtime size) × (m' ≡ m)

-- What a failed call does: nothing, but that a tree may be unpinned in part.
abbrev pub Fails : Call → PinMap → PinMap → Type 0
Fails (unpin_tree path _) m m' = (k : Text) → (m' k ≡ m k) ⊎ (IsAtOrBelow path k × (m' k ≡ none))
Fails c m m' = m' ≡ m

abbrev pub Does : (c : Call) → Result (Answer c) DriveError → Seen → PinMap → PinMap → Type 0
Does c (ok a) seen m m' = Succeeds c a seen m m'
Does c (err _) seen m m' = Fails c m m'

-- An index of pins behind its laws: states, of which only the map and the files can be seen, and the
-- calls on them.
pub record PinIndex : Type 1 where
  pub State : Type 0
  pub pins : State → PinMap
  pub seen : State → Seen
  pub perform : (c : Call) → State → Result (Answer c) DriveError × State
  pub does :
      (c : Call) (s : State)
      → Does c (perform c s).0 (seen (perform c s).1) (pins s) (pins (perform c s).1)
